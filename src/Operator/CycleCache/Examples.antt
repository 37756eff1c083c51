-- ===== src/Operator/CycleCache/Examples.antt =====
-- Tests of CycleCache, and its theorems at concrete inputs.
use jaas.Prelude.{◌≡◌, refl, true, false, [], ◌∷◌, some, Bytes, codes, List, apart, arith}
use jaas.Operator.CycleCache.{CycleCache, lookup, store, forget, Call, stores, forgets, perform_all}
use jaas.Operator.CycleCache.Staleness.{lookup-forget}

abbrev fresh : CycleCache
fresh = record { entries = []; gen = 3 }

-- A walk that looked up at epoch 3 stores after a Forget, which is dropped.
abbrev late : List Call
late = stores (codes "a") 1 3 true (codes "x") ∷ forgets (codes "b") ∷ []

lookup-forget_example :
    (lookup (codes "a") 1 (perform_all late (forget (codes "a") (some fresh)))).2 ≡ false
unfolding jaas.Prelude.◌=?◌
lookup-forget_example =
    lookup-forget (codes "a") 1 fresh late (apart (codes "a") [] refl) (omega arith, (tt, tt))

stored : (store (codes "a") 1 3 true (codes "x") (some fresh)).1 ≡ true
unfolding store jaas.Prelude.◌=?◌
stored = refl
