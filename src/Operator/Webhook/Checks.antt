-- ===== src/Operator/Webhook/Checks.antt =====
-- What each check of the webhook finds, as a statement about the whole list that it reads.
use jaas.Prelude.{
  ◌≡◌, ◌≢◌, refl, sym, ap, subst, true, false, Bool-cases, ◌⊎◌, inl, inr, ◌↔◌, List, [], ◌∷◌, none,
  some, Bytes, ◌=?◌, =?_refl, member, member_sound, member_complete, In, All, length, map,
  if◌then◌else◌, arith, ltb,
}
use jaas.Prelude.Order.{sort_strings, In-sort_strings}
use jaas.Operator.Objects.{LibraryRef, JsonnetVariable}
use jaas.Operator.Webhook.{
  effective_library_alias, safe_library_alias, invalid_library_import_alias, duplicate_among,
  duplicate_library_import_path, first_known, library_alias_collision, hits, conflicts,
  unsafe_entry,
}
use jaas.Sources.Entry.{safe_entry_name}

pub member-miss : (k : Bytes) (xs : List Bytes) → member k xs ≡ false → ¬ In k xs
member-miss k xs h m = let at : member k xs ≡ true = member_complete k xs m in cc

pub member-absent : (k : Bytes) (xs : List Bytes) → ¬ In k xs → member k xs ≡ false
member-absent k xs n = elim (Bool-cases (member k xs)) [
  | inl e ↦ absurd (n (member_sound k xs e))
  | inr e ↦ e
]

-- No text stands twice.
abbrev pub IsDistinct : List Bytes → Type 0
IsDistinct [] = Unit
IsDistinct (x ∷ xs) = (¬ In x xs) × IsDistinct xs

-- Every reference names its library, as the schema of the resource demands.
abbrev pub IsNamed : LibraryRef → Type 0
IsNamed ref = ref.name ≢ []

pub alias_lem :
    (ref : LibraryRef)
    → (if ref.import_path =? [] then ref.name else ref.import_path) ≡ effective_library_alias ref
unfolding effective_library_alias
alias_lem ref = elim (Bool-cases (ref.import_path =? [])) [ inl e ↦ rw e refl | inr e ↦ rw e refl ]

alias-full : (ref : LibraryRef) → IsNamed ref → effective_library_alias ref ≢ []
unfolding effective_library_alias
alias-full ref n e = elim (Bool-cases (ref.import_path =? [])) [
  | inl h ↦ n (rw h at e)
  | inr h ↦
      let empty : ref.import_path ≡ [] = rw h at e in
      let same : (ref.import_path =? []) ≡ true =
        subst (λ p. (p =? []) ≡ true) (sym empty) (=?_refl []) in
      cc
]

hits_iff :
    (names : List Bytes) (vs : List JsonnetVariable)
    → (hits names vs ≡ []) ↔ All (λ v. ¬ In v.name names) vs
unfolding hits
hits_iff names [] = (λ h. tt, λ h. refl)
hits_iff names (v ∷ vs) = elim (Bool-cases (member v.name names)) [
  | inl e ↦ rw e (λ h. clash h, λ h. absurd (h.0 (member_sound v.name names e)))
  | inr e ↦
      rw e
        (λ h. (member-miss v.name names e, (hits_iff names vs).0 h), λ h. (hits_iff names vs).1 h.1)
]
  where
    clash : {x : Bytes} {xs : List Bytes} {P : Type 0} → x ∷ xs ≡ [] → P
    clash k = cc

sort_strings-nil : (ts : List Bytes) → sort_strings ts ≡ [] → ts ≡ []
sort_strings-nil [] h = refl
sort_strings-nil (t ∷ ts) h = absurd (subst (In t) h (In-sort_strings t (t ∷ ts) (inl refl)))

-- No variable of the snippet has a name of the operator's.
pub conflicts_iff :
    (names : List Bytes) (vs : List JsonnetVariable)
    → (conflicts names vs ≡ []) ↔ All (λ v. ¬ In v.name names) vs
unfolding conflicts sort_strings hits
conflicts_iff [] vs = (λ h. free vs, λ h. refl)
  where
    free : (xs : List JsonnetVariable) → All (λ (v : JsonnetVariable). ¬ In v.name []) xs
    free [] = tt
    free (x ∷ xs) = (λ m. absurd m, free xs)
conflicts_iff (n ∷ names) [] = (λ h. tt, λ h. refl)
conflicts_iff (n ∷ names) (v ∷ vs) = (
  λ h. (hits_iff (n ∷ names) (v ∷ vs)).0 (sort_strings-nil (hits (n ∷ names) (v ∷ vs)) h),
  λ h. ap sort_strings ((hits_iff (n ∷ names) (v ∷ vs)).1 h),
)

first_known_iff :
    (known : List Bytes) (refs : List LibraryRef)
    → All IsNamed refs
    → (first_known known refs ≡ []) ↔ All (λ r. ¬ In (effective_library_alias r) known) refs
unfolding first_known
first_known_iff known [] n = (λ h. tt, λ h. refl)
first_known_iff known (r ∷ refs) n =
    rw (alias_lem r) (elim (Bool-cases (member (effective_library_alias r) known)) [
      | inl e ↦ rw e (
        λ h. absurd (alias-full r n.0 h),
        λ h. absurd (h.0 (member_sound (effective_library_alias r) known e)),
      )
      | inr e ↦ rw e (
        λ h.
            (member-miss (effective_library_alias r) known e, (first_known_iff known refs n.1).0 h),
        λ h. (first_known_iff known refs n.1).1 h.1,
      )
    ])

-- No alias is that of a mounted library.
pub library_alias_collision_iff :
    (known : List Bytes) (refs : List LibraryRef)
    → All IsNamed refs
    → (library_alias_collision known refs ≡ [])
      ↔ All (λ r. ¬ In (effective_library_alias r) known) refs
unfolding library_alias_collision
library_alias_collision_iff [] refs n = (λ h. free refs, λ h. refl)
  where
    free : (xs : List LibraryRef) → All (λ (r : LibraryRef). ¬ In (effective_library_alias r) []) xs
    free [] = tt
    free (x ∷ xs) = (λ m. absurd m, free xs)
library_alias_collision_iff (k ∷ known) refs n = first_known_iff (k ∷ known) refs n

-- Every alias is one safe segment.
pub invalid_library_import_alias_iff :
    (refs : List LibraryRef)
    → All IsNamed refs
    → (invalid_library_import_alias refs ≡ [])
      ↔ All (λ r. safe_library_alias (effective_library_alias r) ≡ true) refs
unfolding invalid_library_import_alias
invalid_library_import_alias_iff [] n = (λ h. tt, λ h. refl)
invalid_library_import_alias_iff (r ∷ refs) n =
    elim (Bool-cases (safe_library_alias (effective_library_alias r))) [
      | inl e ↦ rw e (
        λ h. (refl, (invalid_library_import_alias_iff refs n.1).0 h),
        λ h. (invalid_library_import_alias_iff refs n.1).1 h.1,
      )
      | inr e ↦ rw e (λ h. absurd (alias-full r n.0 h), λ h. absurd (split h.0))
    ]
  where
    split : ¬ (false ≡ true)
    split k = cc

In-cons_miss : (x k : Bytes) (seen : List Bytes) → ¬ In x (k ∷ seen) → ¬ In x seen
In-cons_miss x k seen n m = n (inr m)

duplicate_among_iff :
    (seen : List Bytes) (refs : List LibraryRef)
    → All IsNamed refs
    → (duplicate_among seen refs ≡ []) ↔ (
        IsDistinct (map effective_library_alias refs)
        × ((a : Bytes) → In a (map effective_library_alias refs) → ¬ In a seen))
unfolding duplicate_among
duplicate_among_iff seen [] n = (λ h. (tt, λ a m. absurd m), λ h. refl)
duplicate_among_iff seen (r ∷ refs) n =
    rw (alias_lem r) (elim (Bool-cases (member (effective_library_alias r) seen)) [
      | inl e ↦ rw e (
        λ h. absurd (alias-full r n.0 h),
        λ h. absurd (
            h.1 (effective_library_alias r) (inl refl)
              (member_sound (effective_library_alias r) seen e)),
      )
      | inr e ↦
          let rest = duplicate_among_iff (effective_library_alias r ∷ seen) refs n.1 in
          rw e (λ h. apart_from rest h e, together rest)
    ])
  where
    apart_from :
        (duplicate_among (effective_library_alias r ∷ seen) refs ≡ []) ↔ (
          IsDistinct (map effective_library_alias refs)
          × ((a : Bytes)
              → In a (map effective_library_alias refs)
              → ¬ In a (effective_library_alias r ∷ seen)))
        → duplicate_among (effective_library_alias r ∷ seen) refs ≡ []
        → member (effective_library_alias r) seen ≡ false
        → ((¬ In (effective_library_alias r) (map effective_library_alias refs))
            × IsDistinct (map effective_library_alias refs))
          × ((a : Bytes)
              → (a ≡ effective_library_alias r) ⊎ In a (map effective_library_alias refs)
              → ¬ In a seen)
    apart_from rest h e =
        let (d, f) = rest.0 h in
        (
          (λ m. f (effective_library_alias r) m (inl refl), d),
          λ a m s. elim m [
            | inl k ↦ member-miss (effective_library_alias r) seen e (subst (λ c. In c seen) k s)
            | inr k ↦ f a k (inr s)
          ],
        )

    together :
        (duplicate_among (effective_library_alias r ∷ seen) refs ≡ []) ↔ (
          IsDistinct (map effective_library_alias refs)
          × ((a : Bytes)
              → In a (map effective_library_alias refs)
              → ¬ In a (effective_library_alias r ∷ seen)))
        → ((¬ In (effective_library_alias r) (map effective_library_alias refs))
            × IsDistinct (map effective_library_alias refs))
          × ((a : Bytes)
              → (a ≡ effective_library_alias r) ⊎ In a (map effective_library_alias refs)
              → ¬ In a seen)
        → duplicate_among (effective_library_alias r ∷ seen) refs ≡ []
    together rest h = rest.1 (
      h.0.1,
      λ a m s. elim s [
        | inl k ↦ h.0.0 (subst (λ c. In c (map effective_library_alias refs)) k m)
        | inr k ↦ h.1 a (inr m) k
      ],
    )

-- No two references have one alias.
pub duplicate_library_import_path_iff :
    (refs : List LibraryRef)
    → All IsNamed refs
    → (duplicate_library_import_path refs ≡ []) ↔ IsDistinct (map effective_library_alias refs)
unfolding duplicate_library_import_path
duplicate_library_import_path_iff [] n = (λ h. tt, λ h. refl)
duplicate_library_import_path_iff (r ∷ []) n = (λ h. (λ m. absurd m, tt), λ h. refl)
duplicate_library_import_path_iff (r ∷ s ∷ refs) n =
    let many : ltb (length (r ∷ s ∷ refs)) 2 ≡ false = ground arith in
    rw many (
      λ h. ((duplicate_among_iff [] (r ∷ s ∷ refs) n).0 h).0,
      λ h. (duplicate_among_iff [] (r ∷ s ∷ refs) n).1 (h, λ a m k. absurd k),
    )

-- Every file has a name that consumers keep.
pub unsafe_entry_iff :
    (files : List (Bytes × Bytes))
    → (unsafe_entry files ≡ none) ↔ All (λ f. safe_entry_name f.0 ≡ true) files
unfolding unsafe_entry
unsafe_entry_iff [] = (λ h. tt, λ h. refl)
unsafe_entry_iff ((name, body) ∷ files) = elim (Bool-cases (safe_entry_name name)) [
  | inl e ↦ rw e (λ h. (refl, (unsafe_entry_iff files).0 h), λ h. (unsafe_entry_iff files).1 h.1)
  | inr e ↦ rw e (λ h. clash h, λ h. absurd (split h.0))
]
  where
    split : ¬ (false ≡ true)
    split k = cc

    clash : {P : Type 0} → some name ≡ none → P
    clash k = cc
