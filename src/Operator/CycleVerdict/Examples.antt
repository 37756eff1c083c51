-- ===== src/Operator/CycleVerdict/Examples.antt =====
-- A call of cycleVerdict after a Forget, whose first walk another Forget interrupts.
use jaas.Prelude.{
  ℕ, zero, suc, ◌≤◌, ◌≡◌, ◌≢◌, refl, Bool, true, false, List, [], ◌∷◌, some, Bytes, codes, ok, All,
  ◌=?◌, ◌==◌, apart, arith,
}
use jaas.Operator.CycleCache.{
  CycleVerdict, CycleCache, forget, Call, forgets, stores, perform_all, perform, lookup, store, get,
  delete_entry,
}
use jaas.Operator.CycleCache.Staleness.{IsStale}
use jaas.Operator.CycleVerdict.{Answer, cycle_verdict, verdict_loop}
use jaas.Operator.CycleVerdict.Fresh.{cycle_verdict-forget}

abbrev cache : CycleCache
cache = record {
  entries = (codes "u", record { generation = 1; has_cycle = false; path = [] }) ∷ [];
  gen = 4;
}

abbrev walks : ℕ → Answer
walks zero = ok (false, [])
walks (suc n) = ok (true, codes "p")

abbrev during : ℕ → List Call
during zero = forgets (codes "v") ∷ []
during (suc n) = []

-- An old walk of the same snippet comes to its end after the Forget.
abbrev calls : List Call
calls = stores (codes "u") 1 4 false [] ∷ []

during-IsStale : (n : ℕ) → All (IsStale 4) (during n)
during-IsStale zero = (tt, tt)
during-IsStale (suc n) = tt

second_walk :
    (cycle_verdict
      (codes "u")
      1
      walks
      during
      (perform_all calls (forget (codes "u") (some cache)))).0
    ≡ ok (true, codes "p")
unfolding cycle_verdict delete_entry forget get jaas.Operator.CycleCache.lookup
    jaas.Operator.CycleCache.perform jaas.Operator.CycleCache.perform_all
    jaas.Operator.CycleCache.store jaas.Operator.CycleVerdict.verdict_loop jaas.Prelude.◌=?◌
second_walk = refl

cycle_verdict-forget_example :
    (j : ℕ) × (j ≤ 3)
    × ((cycle_verdict
          (codes "u")
          1
          walks
          during
          (perform_all calls (forget (codes "u") (some cache)))).0
        ≡ walks j)
unfolding ◌=?◌
cycle_verdict-forget_example =
    cycle_verdict-forget (codes "u") 1 walks during cache calls (apart (codes "u") [] refl)
      (omega arith, tt) during-IsStale
