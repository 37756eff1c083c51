-- ===== src/Operator/CycleVerdict.antt =====
-- internal/operator/reconciler.go: cycleVerdict, which asks the cache before it walks the dependency
-- graph, and walks again where a Forget landed during the walk. The n-th walk of a call gives `walks n`,
-- and while it runs others do `during n` to the cache.
pub mod Fresh
mod Examples
use jaas.Prelude.{
  ℕ, zero, suc, ◌+◌, Bool, true, false, List, Option, Bytes, Result, ok, err, if◌then◌else◌,
}
use jaas.Operator.Cycle.{CycleError}
use jaas.Operator.CycleCache.{CycleVerdict, CycleCache, lookup, store, Call, perform_all}

-- maxCycleVerdictRetries
abbrev pub max_cycle_verdict_retries : ℕ
max_cycle_verdict_retries = 3

-- Whether there is a cycle, and its path, or an error.
abbrev pub Answer : Type 0
Answer = Result CycleError (Bool × Bytes)

module _ (uid : Bytes) (generation : ℕ) (walks : ℕ → Answer) (during : ℕ → List Call) where
  -- The loop with `left` attempts to go, of which `n` have been made, and the walk after it.
  unfoldable pub verdict_loop : ℕ → ℕ → Option CycleCache → Answer × Option CycleCache
  verdict_loop zero n c = (walks n, c)
  verdict_loop (suc left) n c =
      let found = lookup uid generation c in
      let after = perform_all (during n) c in
      if found.2 then (ok (found.0.has_cycle, found.0.path), c) else elim (walks n) [
        | err x ↦ (err x, after)
        | ok (cycle, path) ↦
            let stored = store uid generation found.1 cycle path after in
            let rest = verdict_loop left (n + 1) stored.0 in
            if stored.1 then (ok (cycle, path), stored.0) else rest
      ]

  -- cycleVerdict
  unfoldable pub cycle_verdict : Option CycleCache → Answer × Option CycleCache
  cycle_verdict c = verdict_loop max_cycle_verdict_retries 0 c
