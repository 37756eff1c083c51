-- ===== src/Operator/CycleCache/Staleness.antt =====
-- A verdict that was computed before an invalidation is never served after it.
use jaas.Prelude.{
  ℕ, ◌≤◌, ◌<◌, ◌≡◌, ◌≢◌, refl, Bool, true, false, Bool-cases, inl, inr, List, [], ◌∷◌, Option, none,
  some, Bytes, ◌=?◌, ◌==◌, =?_refl, =?_ne, All, arith,
}
use jaas.Operator.CycleCache.{
  CycleVerdict, CycleCache, get, delete_entry, lookup, store, forget, Call, stores, forgets,
  perform, perform_all,
}

get-delete_entry :
    (uid : Bytes) (entries : List (Bytes × CycleVerdict))
    → get uid (delete_entry uid entries) ≡ none
unfolding get delete_entry
get-delete_entry uid [] = refl
get-delete_entry uid ((k, v) ∷ entries) = elim (Bool-cases (k =? uid)) [
  | inl e ↦ rw e (get-delete_entry uid entries)
  | inr e ↦ rw (e, e) (get-delete_entry uid entries)
]

get-delete_entry-none :
    (uid k : Bytes) (entries : List (Bytes × CycleVerdict))
    → get uid entries ≡ none
    → get uid (delete_entry k entries) ≡ none
unfolding get delete_entry
get-delete_entry-none uid k [] h = refl
get-delete_entry-none uid k ((j, v) ∷ entries) h = elim (Bool-cases (j =? uid)) [
  | inl e ↦ let bad : some v ≡ none = rw e at h in cc
  | inr e ↦
      let rest : get uid entries ≡ none = rw e at h in
      elim (Bool-cases (j =? k)) [
        | inl f ↦ rw f (get-delete_entry-none uid k entries rest)
        | inr f ↦ rw (f, e) (get-delete_entry-none uid k entries rest)
      ]
]

-- Nothing is remembered for `uid`, and the counter is past `epoch`.
pub record IsForgotten (uid : Bytes) (epoch : ℕ) (c : CycleCache) : Type 0 where
  pub absent : get uid c.entries ≡ none
  pub past : epoch < c.gen

-- A store by a walk that began at `epoch` or before; a Forget may come from anywhere.
abbrev pub IsStale : ℕ → Call → Type 0
IsStale epoch (stores uid generation epoch_at_lookup has_cycle path) = epoch_at_lookup ≤ epoch
IsStale epoch (forgets uid) = Unit

-- A cache in which nothing is remembered for `uid`.
abbrev pub Forgotten : Bytes → ℕ → Option CycleCache → Type 0
Forgotten uid epoch none = ⊥
Forgotten uid epoch (some c) = IsForgotten uid epoch c

forget_leaves :
    (uid k : Bytes) (epoch : ℕ) (c : CycleCache)
    → IsForgotten uid epoch c
    → Forgotten uid epoch (forget k (some c))
unfolding forget
forget_leaves uid k epoch c f = elim (Bool-cases (k =? [])) [
  | inl e ↦ rw e f
  | inr e ↦ rw e (record {
    absent = get-delete_entry-none uid k c.entries f.absent;
    past = omega (arith, f.past);
  })
]

store_leaves :
    (uid k : Bytes) (epoch generation at : ℕ) (has_cycle : Bool) (path : Bytes) (c : CycleCache)
    → at ≤ epoch
    → IsForgotten uid epoch c
    → Forgotten uid epoch (store k generation at has_cycle path (some c)).0
unfolding store
store_leaves uid k epoch generation at has_cycle path c old f = elim (Bool-cases (k =? [])) [
  | inl e ↦ rw e f
  | inr e ↦ let late : (c.gen == at) ≡ false = differ c.gen f.past in rw (e, late) f
]
  where
    differ : (g : ℕ) → epoch < g → (g == at) ≡ false
    differ g h = ground arith

perform_leaves :
    (uid : Bytes) (epoch : ℕ) (call : Call) (c : Option CycleCache)
    → IsStale epoch call
    → Forgotten uid epoch c
    → Forgotten uid epoch (perform call c)
unfolding perform
perform_leaves uid epoch call none s f = absurd f
perform_leaves uid epoch (stores k generation at has_cycle path) (some c) s f =
    store_leaves uid k epoch generation at has_cycle path c s f
perform_leaves uid epoch (forgets k) (some c) s f = forget_leaves uid k epoch c f

pub perform_all_leaves :
    (uid : Bytes) (epoch : ℕ) (calls : List Call) (c : Option CycleCache)
    → All (IsStale epoch) calls
    → Forgotten uid epoch c
    → Forgotten uid epoch (perform_all calls c)
unfolding perform_all
perform_all_leaves uid epoch [] c s f = f
perform_all_leaves uid epoch (call ∷ calls) c s f =
    perform_all_leaves uid epoch calls (perform call c) s.1 (perform_leaves uid epoch call c s.0 f)

pub forget_forgets :
    (uid : Bytes) (c : CycleCache) → uid ≢ [] → Forgotten uid c.gen (forget uid (some c))
unfolding forget
forget_forgets uid c n =
    rw (=?_ne uid [] n) (record { absent = get-delete_entry uid c.entries; past = omega arith })

pub lookup_misses :
    (uid : Bytes) (generation epoch : ℕ) (c : Option CycleCache)
    → Forgotten uid epoch c
    → (lookup uid generation c).2 ≡ false
unfolding lookup
lookup_misses uid generation epoch none f = absurd f
lookup_misses uid generation epoch (some c) f = elim (Bool-cases (uid =? [])) [
  | inl e ↦ rw e refl
  | inr e ↦ rw (e, f.absent) refl
]

-- After a Forget, however many walks that had begun before it store their verdicts, and whatever
-- else is forgotten, a lookup misses: no verdict from before the Forget is served.
pub lookup-forget :
    (uid : Bytes) (generation : ℕ) (c : CycleCache) (calls : List Call)
    → uid ≢ []
    → All (IsStale c.gen) calls
    → (lookup uid generation (perform_all calls (forget uid (some c)))).2 ≡ false
lookup-forget uid generation c calls n s =
    lookup_misses uid generation c.gen _
      (perform_all_leaves uid c.gen calls _ s (forget_forgets uid c n))

-- A verdict whose store reports success is what the next lookup at that generation gives.
pub lookup-store :
    (uid : Bytes) (generation epoch_at_lookup : ℕ) (has_cycle : Bool) (path : Bytes)
    (c : Option CycleCache)
    → (store uid generation epoch_at_lookup has_cycle path c).1 ≡ true
    → lookup uid generation (store uid generation epoch_at_lookup has_cycle path c).0 ≡ (
      record { generation = generation; has_cycle = has_cycle; path = path },
      epoch_at_lookup,
      true,
    )
unfolding store lookup get
lookup-store uid generation at has_cycle path none h = cc
lookup-store uid generation at has_cycle path (some c) h = elim (Bool-cases (uid =? [])) [
  | inl e ↦ let bad : false ≡ true = rw e at h in cc
  | inr e ↦ elim (Bool-cases (c.gen == at)) [
    | inr f ↦ let bad : false ≡ true = rw (e, f) at h in cc
    | inl f ↦ rw (e, f, e, =?_refl uid, same generation, meets c.gen f) refl
  ]
]
  where
    same : (n : ℕ) → (n == n) ≡ true
    same n = ground arith

    meets : (g : ℕ) → (g == at) ≡ true → g ≡ at
    meets g f = ground arith
