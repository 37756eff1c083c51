-- ===== src/Operator/SpecChecks/Agreement.antt =====
-- What the webhook and the reconciler both check.
use jaas.Prelude.{
  ℕ, ◌+◌, ◌≡◌, ◌≢◌, refl, sym, true, false, Bool-cases, not, ◌⊎◌, inl, inr, ◌↔◌, List, [], ◌∷◌,
  Option, none, some, ok, Bytes, ◌=?◌, =?_sound, =?_refl, member, member_sound, In, All, is_empty,
  map, if◌then◌else◌,
}
use jaas.Operator.Objects.{
  NamespacedName, LibraryRef, JsonnetVariable, JsonnetSnippet, JsonnetLibrary, Got,
}
use jaas.Operator.Webhook.{
  effective_library_alias, safe_library_alias, soft_warnings, SnippetValidator, validate,
  output_source,
}
use jaas.Operator.Webhook.Checks.{
  IsDistinct, IsNamed, alias_lem, member-miss, invalid_library_import_alias_iff,
  duplicate_library_import_path_iff,
}
use jaas.Operator.Webhook.Verdict.{IsCleared, validate_iff}
use jaas.Operator.SpecChecks.{
  SpecFault, Settings, check_service_account, check_ext_var_conflicts, collides_from,
  check_library_alias_collisions, check_duplicate_library_imports, check_import_aliases, or_else,
  check_spec,
}
use jaas.Sources.Entry.{safe_entry_name}

clash : {f : SpecFault} {P : Type 0} → some f ≡ none → P
clash k = cc

or_else_iff : (a b : Option SpecFault) → (or_else a b ≡ none) ↔ ((a ≡ none) × (b ≡ none))
or_else_iff none b = (λ h. (refl, h), λ h. h.1)
or_else_iff (some f) b = (λ h. clash h, λ h. h.0)

ext_vars_iff :
    (r : Settings) (vs : List JsonnetVariable)
    → (check_ext_var_conflicts r vs ≡ none)
      ↔ All (λ (v : JsonnetVariable). ¬ In v.name r.ext_vars) vs
unfolding check_ext_var_conflicts
ext_vars_iff r [] = (λ h. tt, λ h. refl)
ext_vars_iff r (v ∷ vs) = elim (Bool-cases (member v.name r.ext_vars)) [
  | inl e ↦ rw e (λ h. clash h, λ h. absurd (h.0 (member_sound v.name r.ext_vars e)))
  | inr e ↦ rw e (
    λ h. (member-miss v.name r.ext_vars e, (ext_vars_iff r vs).0 h),
    λ h. (ext_vars_iff r vs).1 h.1,
  )
]

collides_from_iff :
    (known : List Bytes) (i : ℕ) (refs : List LibraryRef)
    → (collides_from known i refs ≡ none) ↔ All (λ r. ¬ In (effective_library_alias r) known) refs
unfolding collides_from
collides_from_iff known i [] = (λ h. tt, λ h. refl)
collides_from_iff known i (r ∷ refs) =
    rw (alias_lem r) (elim (Bool-cases (member (effective_library_alias r) known)) [
      | inl e ↦
          rw e (λ h. clash h, λ h. absurd (h.0 (member_sound (effective_library_alias r) known e)))
      | inr e ↦ rw e (
        λ h. (
          member-miss (effective_library_alias r) known e,
          (collides_from_iff known (i + 1) refs).0 h,
        ),
        λ h. (collides_from_iff known (i + 1) refs).1 h.1,
      )
    ])

aliases_iff :
    (r : Settings) (refs : List LibraryRef)
    → (check_library_alias_collisions r refs ≡ none)
      ↔ All (λ x. ¬ In (effective_library_alias x) r.known_library_aliases) refs
unfolding check_library_alias_collisions
aliases_iff r refs = told r.known_library_aliases
  where
    free : (xs : List LibraryRef) → All (λ (x : LibraryRef). ¬ In (effective_library_alias x) []) xs
    free [] = tt
    free (x ∷ xs) = (λ m. absurd m, free xs)

    told :
        (known : List Bytes)
        → ((if is_empty known then none else collides_from known 0 refs) ≡ none)
          ↔ All (λ x. ¬ In (effective_library_alias x) known) refs
    told [] = (λ h. free refs, λ h. refl)
    told (k ∷ known) = collides_from_iff (k ∷ known) 0 refs

guard_iff :
    (t : Bytes) (f : SpecFault) → ((if not (t =? []) then some f else none) ≡ none) ↔ (t ≡ [])
guard_iff t f = elim (Bool-cases (t =? [])) [
  | inl e ↦ rw e (λ h. =?_sound t [] e, λ h. refl)
  | inr e ↦ rw e (λ h. clash h, λ h. absurd (apart_from h e))
]
  where
    apart_from : t ≡ [] → ¬ ((t =? []) ≡ false)
    apart_from h e = let same : (t =? []) ≡ true = rw h (=?_refl []) in cc

-- The snippet has a service account, its own or the default one.
abbrev pub HasAccount : Settings → JsonnetSnippet → Type 0
HasAccount r snip = (snip.service_account_name ≢ []) ⊎ (r.default_service_account ≢ [])

account_iff :
    (r : Settings) (snip : JsonnetSnippet)
    → (check_service_account r snip ≡ none) ↔ HasAccount r snip
unfolding check_service_account
account_iff r snip = elim (Bool-cases (snip.service_account_name =? [])) [
  | inr e ↦ rw e (λ h. inl (full snip.service_account_name e), λ h. refl)
  | inl e ↦ elim (Bool-cases (r.default_service_account =? [])) [
    | inr f ↦ rw (e, f) (λ h. inr (full r.default_service_account f), λ h. refl)
    | inl f ↦
        rw (e, f)
          (
            λ h. clash h,
            λ h. elim h [
              | inl n ↦ absurd (n (=?_sound snip.service_account_name [] e))
              | inr n ↦ absurd (n (=?_sound r.default_service_account [] f))
            ],
          )
  ]
]
  where
    full : (t : Bytes) → (t =? []) ≡ false → t ≢ []
    full t h k = let same : (t =? []) ≡ true = rw k (=?_refl []) in cc

-- The checks of a reconcile, described on their own.
pub record IsSound (r : Settings) (snip : JsonnetSnippet) : Type 0 where
  pub account : HasAccount r snip
  pub unbound : All (λ (x : JsonnetVariable). ¬ In x.name r.ext_vars) snip.external_variables
  pub safe :
      All (λ (x : LibraryRef). safe_library_alias (effective_library_alias x) ≡ true) snip.libraries
  pub unshadowed :
      All
        (λ (x : LibraryRef). ¬ In (effective_library_alias x) r.known_library_aliases)
        snip.libraries
  pub distinct : IsDistinct (map effective_library_alias snip.libraries)

pub check_spec_iff :
    (r : Settings) (snip : JsonnetSnippet)
    → All IsNamed snip.libraries
    → (check_spec r snip ≡ none) ↔ IsSound r snip
unfolding check_spec check_duplicate_library_imports check_import_aliases
check_spec_iff r snip n = (down, up)
  where
    down : check_spec r snip ≡ none → IsSound r snip
    down h =
        let (a, h1) = (or_else_iff (check_service_account r snip) _).0 h in
        let (b, h2) = (or_else_iff (check_ext_var_conflicts r snip.external_variables) _).0 h1 in
        let (c, h3) = (or_else_iff (check_import_aliases snip.libraries) _).0 h2 in
        let (d, e) = (or_else_iff (check_library_alias_collisions r snip.libraries) _).0 h3 in
        record {
          account = (account_iff r snip).0 a;
          unbound = (ext_vars_iff r snip.external_variables).0 b;
          safe = (invalid_library_import_alias_iff snip.libraries n).0 ((guard_iff _ _).0 c);
          unshadowed = (aliases_iff r snip.libraries).0 d;
          distinct = (duplicate_library_import_path_iff snip.libraries n).0 ((guard_iff _ _).0 e);
        }

    up : IsSound r snip → check_spec r snip ≡ none
    up s = (or_else_iff _ _).1 (
      (account_iff r snip).1 s.account,
      (or_else_iff _ _).1 (
        (ext_vars_iff r snip.external_variables).1 s.unbound,
        (or_else_iff _ _).1 (
          (guard_iff _ _).1 ((invalid_library_import_alias_iff snip.libraries n).1 s.safe),
          (or_else_iff _ _).1 (
            (aliases_iff r snip.libraries).1 s.unshadowed,
            (guard_iff _ _).1 ((duplicate_library_import_path_iff snip.libraries n).1 s.distinct),
          ),
        ),
      ),
    )

module _ (get_snippet : NamespacedName → Got JsonnetSnippet)
    (get_library : NamespacedName → Got JsonnetLibrary) where
  -- The webhook and the reconciler of one operator agree but for the service account, which only the
  -- reconciler asks for: where they have the same variables and mounted libraries and the library references
  -- name their libraries, a snippet is admitted and has a service account, its own or the default one,
  -- exactly if it passes the reconciler's checks of the spec, its files have names that consumers keep where
  -- the output is the sources, and the cycle detector, where it has a reader, finds no cycle.
  pub validate-check_spec :
      (r : Settings) (v : SnippetValidator) (fuel : ℕ) (snip : JsonnetSnippet)
      → All IsNamed snip.libraries
      → v.operator_ext_vars ≡ r.ext_vars
      → v.known_library_aliases ≡ r.known_library_aliases
      → ((validate get_snippet get_library v fuel snip ≡ some (ok (soft_warnings snip)))
          × HasAccount r snip)
        ↔ ((check_spec r snip ≡ none)
            × ((snip.output ≡ output_source → All (λ f. safe_entry_name f.0 ≡ true) snip.files)
                × IsCleared get_snippet get_library v fuel snip))
  validate-check_spec r v fuel snip n vars aliases = (
    λ h.
        let (g, (c, e)) =
          (validate_iff get_snippet get_library v fuel snip (soft_warnings snip) n).0 h.0 in
        (
          (check_spec_iff r snip n).1 (record {
            account = h.1;
            unbound = rw (sym vars) g.unbound;
            safe = g.safe;
            unshadowed = rw (sym aliases) g.unshadowed;
            distinct = g.distinct;
          }),
          (g.shippable, c),
        ),
    λ h.
        let s = (check_spec_iff r snip n).0 h.0 in
        (
          (validate_iff get_snippet get_library v fuel snip (soft_warnings snip) n).1 (
            record {
              unbound = rw vars s.unbound;
              unshadowed = rw aliases s.unshadowed;
              safe = s.safe;
              distinct = s.distinct;
              shippable = h.1.0;
            },
            (h.1.1, refl),
          ),
          s.account,
        ),
  )
