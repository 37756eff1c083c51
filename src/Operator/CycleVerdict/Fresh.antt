-- ===== src/Operator/CycleVerdict/Fresh.antt =====
-- A verdict from before an invalidation is never given after it.
use jaas.Prelude.{
  ℕ, zero, suc, ◌+◌, ◌≤◌, ◌≡◌, ◌≢◌, refl, sym, subst, Bool, true, false, Bool-cases, inl, inr, List,
  [], Option, none, some, Bytes, Result-cases, All, ◌=?◌, ◌==◌, arith,
}
use jaas.Operator.CycleCache.{CycleCache, lookup, store, forget, Call, perform_all}
use jaas.Operator.CycleCache.Staleness.{
  IsStale, Forgotten, perform_all_leaves, forget_forgets, lookup_misses,
}
use jaas.Operator.CycleVerdict.{Answer, verdict_loop, cycle_verdict}

-- A store that is dropped leaves the cache.
store_dropped :
    (uid : Bytes) (generation epoch : ℕ) (cycle : Bool) (path : Bytes) (c : Option CycleCache)
    → (store uid generation epoch cycle path c).1 ≡ false
    → (store uid generation epoch cycle path c).0 ≡ c
unfolding store
store_dropped uid generation epoch cycle path none h = refl
store_dropped uid generation epoch cycle path (some c) h = elim (Bool-cases (uid =? [])) [
  | inl e ↦ rw e refl
  | inr e ↦ elim (Bool-cases (c.gen == epoch)) [
    | inl f ↦ let bad : true ≡ false = rw (e, f) at h in cc
    | inr f ↦ rw (e, f) refl
  ]
]

module _ (uid : Bytes) (generation : ℕ) (walks : ℕ → Answer) (during : ℕ → List Call) (epoch : ℕ)
    (stale : (n : ℕ) → All (IsStale epoch) (during n)) where
  loop_walks :
      (left n : ℕ) (c : Option CycleCache)
      → Forgotten uid epoch c
      → (j : ℕ) × (n ≤ j)
        × (j ≤ n + left)
        × ((verdict_loop uid generation walks during left n c).0 ≡ walks j)
  unfolding verdict_loop
  loop_walks zero n c f = (n, omega arith, omega arith, refl)
  loop_walks (suc left) n c f =
      let miss = lookup_misses uid generation epoch c f in
      let later = perform_all_leaves uid epoch (during n) c (stale n) f in
      elim (Result-cases (walks n)) [
        | inr (x, w) ↦ (n, omega arith, omega arith, rw (miss, w, verdict_loop) refl)
        | inl ((cycle, path), w) ↦
            elim (Bool-cases
              (store uid generation (lookup uid generation c).1 cycle path
                (perform_all (during n) c)).1) [
                  | inl s ↦ (n, omega arith, omega arith, rw (miss, w, s, verdict_loop) refl)
                  | inr s ↦
                      let same =
                        store_dropped uid generation (lookup uid generation c).1 cycle path
                          (perform_all (during n) c) s in
                      let (j, low, high, e) =
                        loop_walks left (n + 1) _ (subst (Forgotten uid epoch) (sym same) later) in
                      (j, omega arith, omega arith, rw (miss, w, s, verdict_loop) e)
                ]
      ]

-- After a Forget of a snippet, whatever walks that had begun before it store their verdicts, and whatever
-- is forgotten before or during the call, cycleVerdict gives the answer of one of at most four walks that
-- it makes itself, and none from the cache. The hypothesis is that the stores of others that come before
-- or during the call belong to walks that had begun before the Forget.
pub cycle_verdict-forget :
    (uid : Bytes) (generation : ℕ) (walks : ℕ → Answer) (during : ℕ → List Call) (c : CycleCache)
    (calls : List Call)
    → uid ≢ []
    → All (IsStale c.gen) calls
    → ((n : ℕ) → All (IsStale c.gen) (during n))
    → (j : ℕ) × (j ≤ 3)
      × ((cycle_verdict uid generation walks during (perform_all calls (forget uid (some c)))).0
          ≡ walks j)
unfolding cycle_verdict
cycle_verdict-forget uid generation walks during c calls n s stale =
    let (j, low, high, e) =
      loop_walks uid generation walks during c.gen stale 3 0 _
        (perform_all_leaves uid c.gen calls _ s (forget_forgets uid c n)) in
    (j, omega arith, e)
