-- ===== src/Operator/CycleCache.antt =====
-- internal/operator/cycle.go: cycleCache, which remembers the verdict of a cycle walk for each
-- snippet. Its map is an association list, and `get` and `put` are the map's reads and writes. The
-- methods run under one mutex, so each is one step. A nil cache, which the callers may have, is none.
pub mod Staleness
pub mod Examples
use jaas.Prelude.{
  ℕ, ◌+◌, Bool, true, false, List, [], ◌∷◌, Option, none, some, Bytes, ◌=?◌, ◌==◌, if◌then◌else◌,
}

-- cycleVerdict
pub record CycleVerdict : Type 0 where
  pub generation : ℕ
  pub has_cycle : Bool
  pub path : Bytes

-- cycleCache
pub record CycleCache : Type 0 where
  pub entries : List (Bytes × CycleVerdict)
  pub gen : ℕ

unfoldable pub get : Bytes → List (Bytes × CycleVerdict) → Option CycleVerdict
get uid [] = none
get uid ((k, v) ∷ entries) = if k =? uid then some v else get uid entries

unfoldable pub delete_entry : Bytes → List (Bytes × CycleVerdict) → List (Bytes × CycleVerdict)
delete_entry uid [] = []
delete_entry uid ((k, v) ∷ entries) =
    if k =? uid then delete_entry uid entries else (k, v) ∷ delete_entry uid entries

-- newCycleCache
unfoldable pub new_cycle_cache : CycleCache
new_cycle_cache = record { entries = []; gen = 0 }

abbrev pub no_verdict : CycleVerdict
no_verdict = record { generation = 0; has_cycle = false; path = [] }

-- Lookup: the verdict, the epoch to hand to store, and whether there was one.
unfoldable pub lookup : Bytes → ℕ → Option CycleCache → CycleVerdict × ℕ × Bool
lookup uid generation none = (no_verdict, 0, false)
lookup uid generation (some c) =
    if uid =? [] then (no_verdict, 0, false) else elim (get uid c.entries) [
      | none ↦ (no_verdict, c.gen, false)
      | some v ↦ if v.generation == generation then (v, c.gen, true) else (no_verdict, c.gen, false)
    ]

-- Store
unfoldable pub store : Bytes → ℕ → ℕ → Bool → Bytes → Option CycleCache → Option CycleCache × Bool
store uid generation epoch_at_lookup has_cycle path none = (none, false)
store uid generation epoch_at_lookup has_cycle path (some c) =
    if uid =? []
    then (some c, false)
    else if c.gen == epoch_at_lookup
    then (
      some (record c {
        entries =
            (uid, record { generation = generation; has_cycle = has_cycle; path = path })
            ∷ delete_entry uid c.entries;
      }),
      true,
    )
    else (some c, false)

-- Forget
unfoldable pub forget : Bytes → Option CycleCache → Option CycleCache
forget uid none = none
forget uid (some c) =
    if uid =? []
    then some c
    else some (record { entries = delete_entry uid c.entries; gen = c.gen + 1 })

-- What others do to the cache between two of a caller's calls.
pub data Call : Type 0 where
  stores : Bytes → ℕ → ℕ → Bool → Bytes → Call
  forgets : Bytes → Call

unfoldable pub perform : Call → Option CycleCache → Option CycleCache
perform (stores uid generation epoch_at_lookup has_cycle path) c =
    (store uid generation epoch_at_lookup has_cycle path c).0
perform (forgets uid) c = forget uid c

unfoldable pub perform_all : List Call → Option CycleCache → Option CycleCache
perform_all [] c = c
perform_all (call ∷ calls) c = perform_all calls (perform call c)
