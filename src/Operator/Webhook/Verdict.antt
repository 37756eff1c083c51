-- ===== src/Operator/Webhook/Verdict.antt =====
-- What the webhook admits: exactly the snippets that an independent description allows.
use jaas.Prelude.{
  ℕ, ◌≡◌, refl, sym, ap, ◌∙◌, Bool, true, false, Bool-cases, not, inl, inr, ◌↔◌, List, [], ◌∷◌,
  Option, none, some, Result, ok, err, Bytes, ◌=?◌, =?_sound, =?_refl, =?_complete, In, All,
  is_empty, map, if◌then◌else◌,
}
use jaas.Operator.Objects.{
  NamespacedName, LibraryRef, JsonnetVariable, JsonnetSnippet, JsonnetLibrary, name_of, Got, got,
}
use jaas.Operator.Cycle.{CycleError, detect_source_ref_cycle}
use jaas.Operator.Cycle.Graph.{Reaches}
use jaas.Operator.Cycle.Absence.{detect_source_ref_cycle-absent}
use jaas.Operator.Webhook.{
  output_source, effective_library_alias, safe_library_alias, invalid_library_import_alias,
  duplicate_library_import_path, library_alias_collision, conflicts, check_files, after_walk,
  check_cycle, validate, soft_warnings, Warning, AdmissionError, unsafe_file, SnippetValidator,
}
use jaas.Operator.Webhook.Checks.{
  IsDistinct, IsNamed, conflicts_iff, library_alias_collision_iff, invalid_library_import_alias_iff,
  duplicate_library_import_path_iff, unsafe_entry_iff,
}
use jaas.Sources.Entry.{safe_entry_name}

is_empty_sound : {A : Type 0} (xs : List A) → is_empty xs ≡ true → xs ≡ []
is_empty_sound [] h = refl
is_empty_sound (x ∷ xs) h = cc

-- A guard that an admission has passed.
peel :
    (b : Bool) (x : AdmissionError) (rest : Option (Result AdmissionError (List Warning)))
    (w : List Warning)
    → (if not b then some (err x) else rest) ≡ some (ok w)
    → (b ≡ true) × (rest ≡ some (ok w))
peel true x rest w h = (refl, h)
peel false x rest w h = cc

-- The part of the description that the snippet and the settings of the operator decide.
pub record IsWellFormed (v : SnippetValidator) (snip : JsonnetSnippet) : Type 0 where
  pub unbound :
      All (λ (x : JsonnetVariable). ¬ In x.name v.operator_ext_vars) snip.external_variables
  pub unshadowed :
      All
        (λ (r : LibraryRef). ¬ In (effective_library_alias r) v.known_library_aliases)
        snip.libraries
  pub safe :
      All (λ (r : LibraryRef). safe_library_alias (effective_library_alias r) ≡ true) snip.libraries
  pub distinct : IsDistinct (map effective_library_alias snip.libraries)
  pub shippable : snip.output ≡ output_source → All (λ f. safe_entry_name f.0 ≡ true) snip.files

check_files_iff :
    (snip : JsonnetSnippet)
    → (check_files snip ≡ none)
      ↔ (snip.output ≡ output_source → All (λ f. safe_entry_name f.0 ≡ true) snip.files)
unfolding check_files
check_files_iff snip = elim (Bool-cases (snip.output =? output_source)) [
  | inl e ↦ rw e (
    λ h o. (unsafe_entry_iff snip.files).0 h,
    λ h. (unsafe_entry_iff snip.files).1 (h (=?_sound snip.output output_source e)),
  )
  | inr e ↦ rw e (λ h o. absurd (apart_from o e), λ h. refl)
]
  where
    apart_from : snip.output ≡ output_source → ¬ ((snip.output =? output_source) ≡ false)
    apart_from o e =
        let same : (snip.output =? output_source) ≡ true =
          =?_complete snip.output output_source o in
        cc

module _ (get_snippet : NamespacedName → Got JsonnetSnippet)
    (get_library : NamespacedName → Got JsonnetLibrary) where
  -- The cycle detector has found no cycle, where there is a reader for it.
  abbrev pub IsCleared : SnippetValidator → ℕ → JsonnetSnippet → Type 0
  IsCleared v fuel snip =
      v.has_cycle_reader ≡ true
      → detect_source_ref_cycle get_snippet get_library fuel snip ≡ some (ok none)

  check_cycle_iff :
      (v : SnippetValidator) (fuel : ℕ) (snip : JsonnetSnippet) (w : List Warning)
      → (check_cycle get_snippet get_library v fuel snip ≡ some (ok w))
        ↔ (IsCleared v fuel snip × (w ≡ soft_warnings snip))
  unfolding check_cycle after_walk
  check_cycle_iff v fuel snip w = elim (Bool-cases v.has_cycle_reader) [
    | inr e ↦ rw e (
      λ h. (λ k. absurd (split k), told (soft_warnings snip) h),
      λ h. ap (λ x. some (ok x)) (sym h.1),
    )
    | inl e ↦ rw e (
      λ h. (
        λ k. (after (detect_source_ref_cycle get_snippet get_library fuel snip) h).0,
        (after (detect_source_ref_cycle get_snippet get_library fuel snip) h).1,
      ),
      λ h. ap (after_walk snip) (h.0 refl) ∙ ap (λ x. some (ok x)) (sym h.1),
    )
  ]
    where
      split : ¬ (false ≡ true)
      split k = cc

      told :
          (x : List Warning)
          → ◌≡◌ {A = Option (Result AdmissionError (List Warning))} (some (ok x)) (some (ok w))
          → w ≡ x
      told x k = cc

      after :
          (r : Option (Result CycleError (Option (List NamespacedName))))
          → after_walk snip r ≡ some (ok w)
          → (r ≡ some (ok none)) × (w ≡ soft_warnings snip)
      after none k = cc
      after (some (err x)) k = cc
      after (some (ok (some path))) k = cc
      after (some (ok none)) k = (refl, told (soft_warnings snip) k)

  -- A snippet whose library references all name their library is admitted exactly if no variable of it has
  -- the name of a variable of the operator, the aliases of its libraries are safe segments, different from
  -- each other and from those of the mounted libraries, every file has a name that consumers keep where the
  -- output is the sources, and the cycle detector, where it has a reader, ends and finds no cycle. The
  -- answer then holds the warnings of softWarnings.
  pub validate_iff :
      (v : SnippetValidator) (fuel : ℕ) (snip : JsonnetSnippet) (w : List Warning)
      → All IsNamed snip.libraries
      → (validate get_snippet get_library v fuel snip ≡ some (ok w))
        ↔ (IsWellFormed v snip × (IsCleared v fuel snip × (w ≡ soft_warnings snip)))
  unfolding validate
  validate_iff v fuel snip w n =
      (admitted, λ h. allowed h.0 ((check_cycle_iff v fuel snip w).1 h.1))
    where
      ends :
          (o : Option Bytes)
          → elim o [
            | some name ↦ some (err (unsafe_file name))
            | none ↦ check_cycle get_snippet get_library v fuel snip
          ]
            ≡ some (ok w)
          → (o ≡ none) × (check_cycle get_snippet get_library v fuel snip ≡ some (ok w))
      ends none k = (refl, k)
      ends (some name) k = cc

      admitted :
          validate get_snippet get_library v fuel snip ≡ some (ok w)
          → IsWellFormed v snip × (IsCleared v fuel snip × (w ≡ soft_warnings snip))
      admitted h =
          let (a, h1) =
            peel (is_empty (conflicts v.operator_ext_vars snip.external_variables)) _ _ w h in
          let (b, h2) =
            peel (library_alias_collision v.known_library_aliases snip.libraries =? []) _ _ w h1 in
          let (c, h3) = peel (invalid_library_import_alias snip.libraries =? []) _ _ w h2 in
          let (d, h4) = peel (duplicate_library_import_path snip.libraries =? []) _ _ w h3 in
          let (e, h5) = ends (check_files snip) h4 in
          (
            record {
              unbound =
                  (conflicts_iff v.operator_ext_vars snip.external_variables).0
                    (is_empty_sound _ a);
              unshadowed =
                  (library_alias_collision_iff v.known_library_aliases snip.libraries n).0
                    (=?_sound _ [] b);
              safe = (invalid_library_import_alias_iff snip.libraries n).0 (=?_sound _ [] c);
              distinct = (duplicate_library_import_path_iff snip.libraries n).0 (=?_sound _ [] d);
              shippable = (check_files_iff snip).0 e;
            },
            (check_cycle_iff v fuel snip w).0 h5,
          )

      allowed :
          IsWellFormed v snip
          → check_cycle get_snippet get_library v fuel snip ≡ some (ok w)
          → validate get_snippet get_library v fuel snip ≡ some (ok w)
      allowed g k =
          rw
            (
              (conflicts_iff v.operator_ext_vars snip.external_variables).1 g.unbound,
              (library_alias_collision_iff v.known_library_aliases snip.libraries n).1 g.unshadowed,
              (invalid_library_import_alias_iff snip.libraries n).1 g.safe,
              (duplicate_library_import_path_iff snip.libraries n).1 g.distinct,
              (check_files_iff snip).1 g.shippable,
              =?_refl [],
              k,
            )
            refl

  -- A snippet that the webhook admits while it has a reader does not depend on itself, neither directly nor
  -- through other snippets and their libraries. The hypotheses are that a Get of a snippet gives an object
  -- of the name that it was asked for, and that the library references name their libraries.
  pub validate-acyclic :
      (named : (id : NamespacedName) (s : JsonnetSnippet) → get_snippet id ≡ got s → name_of s ≡ id)
      (v : SnippetValidator) (fuel : ℕ) (snip : JsonnetSnippet) (w : List Warning)
      → All IsNamed snip.libraries
      → v.has_cycle_reader ≡ true
      → validate get_snippet get_library v fuel snip ≡ some (ok w)
      → ¬ Reaches get_snippet get_library snip (name_of snip)
  validate-acyclic named v fuel snip w n r h =
      detect_source_ref_cycle-absent get_snippet get_library snip named fuel
        (((validate_iff v fuel snip w n).0 h).1.0 r)
