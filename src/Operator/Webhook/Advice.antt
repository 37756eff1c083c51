-- ===== src/Operator/Webhook/Advice.antt =====
-- The warning about a snippet that sources its own artifact, against the cycle check that runs before it.
use jaas.Prelude.{
  ℕ, zero, suc, ◌≡◌, refl, sym, ap, ◌∙◌, subst, Bool, true, false, Bool-cases, not, ◌||◌, ◌⊎◌, inl,
  inr, List, [], ◌∷◌, Option, none, some, Result, ok, err, Result-cases, Bytes, ◌=?◌, =?_sound, In,
  In-append_left, In-append, All, is_empty, member, map, if◌then◌else◌,
}
use jaas.Operator.Objects.{
  NamespacedName, SourceRef, LibraryRef, JsonnetSnippet, JsonnetLibrary, name_of, Got, got,
}
use jaas.Operator.Cycle.{
  CycleError, or_owner, external_artifact, external_artifact_dep, with_dep, library_source_ref,
  library_dependencies, snippet_dependencies, has_cycle_source_edge, walk, detect_source_ref_cycle,
}
use jaas.Operator.Cycle.Graph.{direct, node-start}
use jaas.Operator.Webhook.{
  entry_file_name, warn_likely_self_reference, warn_entry_file_missing, soft_warnings, with_warning,
  Warning, entry_file_missing, self_reference, validate, SnippetValidator,
}
use jaas.Operator.Webhook.Checks.{IsNamed}
use jaas.Operator.Webhook.Verdict.{validate_iff, validate-acyclic}

self :
    (ref : SourceRef) (snip : JsonnetSnippet)
    → ref.kind =? external_artifact ≡ true
    → ref.name ≡ snip.name
    → or_owner ref.namespace snip.namespace ≡ snip.namespace
    → external_artifact_dep (some ref) snip.namespace ≡ some (name_of snip)
unfolding external_artifact_dep
self ref snip k n o = rw (k, n, o) refl

-- A snippet that the warning is about depends on itself first of all.
warned :
    (snip : JsonnetSnippet) (m : Warning)
    → warn_likely_self_reference snip ≡ some m
    → external_artifact_dep snip.source_ref snip.namespace ≡ some (name_of snip)
unfolding warn_likely_self_reference
warned snip m h = told snip.source_ref h
  where
    nothing : {P : Type 0} → none ≡ some m → P
    nothing k = cc

    told :
        (o : Option SourceRef)
        → elim o [
          | none ↦ none
          | some ref ↦
              if not (ref.kind =? external_artifact)
              then none
              else if not (ref.name =? snip.name)
              then none
              else if (ref.namespace =? []) || (ref.namespace =? snip.namespace)
              then some (self_reference ref.name)
              else none
        ]
          ≡ some m
        → external_artifact_dep o snip.namespace ≡ some (name_of snip)
    told none k = cc
    told (some ref) k = elim (Bool-cases (ref.kind =? external_artifact)) [
      | inr a ↦ nothing (rw a at k)
      | inl a ↦ elim (Bool-cases (ref.name =? snip.name)) [
        | inr b ↦ nothing (rw (a, b) at k)
        | inl b ↦ elim (Bool-cases (ref.namespace =? [])) [
          | inl c ↦ self ref snip a (=?_sound ref.name snip.name b) (rw c refl)
          | inr c ↦ elim (Bool-cases (ref.namespace =? snip.namespace)) [
            | inl d ↦
                self ref snip a (=?_sound ref.name snip.name b)
                  (rw c (=?_sound ref.namespace snip.namespace d))
            | inr d ↦ nothing (rw (a, b, c, d) at k)
          ]
        ]
      ]
    ]

In-with_warning :
    (m : Warning) (o : Option Warning) (w : List Warning)
    → In m (with_warning o w)
    → (o ≡ some m) ⊎ In m w
In-with_warning m none w h = inr h
In-with_warning m (some x) w h = elim (In-append m w (x ∷ []) h) [
  | inl k ↦ inr k
  | inr (inl e) ↦ inl (ap some (sym e))
  | inr (inr k) ↦ absurd k
]

entry_warned :
    (snip : JsonnetSnippet)
    → (warn_entry_file_missing snip ≡ none)
      ⊎ ((f : Bytes) × (warn_entry_file_missing snip ≡ some (entry_file_missing f)))
unfolding warn_entry_file_missing
entry_warned snip = told snip.source_ref
  where
    entry : Bytes
    entry = if snip.entry_file =? [] then entry_file_name else snip.entry_file

    ask : Bool → Option Warning
    ask b = if not b then some (entry_file_missing entry) else none

    asked : (b : Bool) → (ask b ≡ none) ⊎ ((f : Bytes) × (ask b ≡ some (entry_file_missing f)))
    asked true = inl refl
    asked false = inr (entry, refl)

    guarded :
        (b c : Bool)
        → ((if b then none else ask c) ≡ none)
          ⊎ ((f : Bytes) × ((if b then none else ask c) ≡ some (entry_file_missing f)))
    guarded true c = inl refl
    guarded false c = asked c

    told :
        (o : Option SourceRef)
        → (elim o [
          | some ref ↦ none
          | none ↦
              if is_empty snip.files then none else ask (member entry (map (λ f. f.0) snip.files))
        ]
            ≡ none)
          ⊎ ((f : Bytes) × (elim o [
            | some ref ↦ none
            | none ↦
                if is_empty snip.files then none else ask (member entry (map (λ f. f.0) snip.files))
          ]
                ≡ some (entry_file_missing f)))
    told (some ref) = inl refl
    told none = guarded (is_empty snip.files) (member entry (map (λ f. f.0) snip.files))

-- Only the second helper gives that warning.
soft :
    (snip : JsonnetSnippet) (n : Bytes)
    → In (self_reference n) (soft_warnings snip)
    → warn_likely_self_reference snip ≡ some (self_reference n)
unfolding soft_warnings
soft snip n h = elim (In-with_warning (self_reference n) (warn_likely_self_reference snip) _ h) [
  | inl e ↦ e
  | inr k ↦ absurd (other (warn_entry_file_missing snip) (entry_warned snip) k)
]
  where
    other :
        (o : Option Warning)
        → (o ≡ none) ⊎ ((f : Bytes) × (o ≡ some (entry_file_missing f)))
        → ¬ In (self_reference n) (with_warning o [])
    other none s k = k
    other (some x) (inl e) k = cc
    other (some x) (inr (f, e)) (inl g) =
        let clash : some (self_reference n) ≡ some (entry_file_missing f) = ap some g ∙ e in cc
    other (some x) (inr (f, e)) (inr g) = g

module _ (get_snippet : NamespacedName → Got JsonnetSnippet)
    (get_library : NamespacedName → Got JsonnetLibrary) where
  library_dependencies-In :
      (refs : List LibraryRef) (ns : Bytes) (ids deps : List NamespacedName) (a : NamespacedName)
      → library_dependencies get_snippet get_library refs ns ids ≡ ok deps
      → In a ids
      → In a deps
  unfolding library_dependencies
  library_dependencies-In [] ns ids deps a h m = let e : ids ≡ deps = cc in subst (In a) e m
  library_dependencies-In (ref ∷ refs) ns ids deps a h m =
      elim (Result-cases (library_source_ref get_snippet get_library ref ns)) [
        | inr (x, e) ↦
            let bad : ◌≡◌ {A = Result CycleError (List NamespacedName)} (err x) (ok deps) =
              rw (e, library_dependencies) at h in
            cc
        | inl ((src, lib_ns), e) ↦
            library_dependencies-In refs ns _ deps a (rw (e, library_dependencies) at h)
              (more (external_artifact_dep src lib_ns))
      ]
    where
      more : (o : Option NamespacedName) → In a (with_dep o ids)
      more none = m
      more (some id) = In-append_left a ids (id ∷ []) m

  -- A walk that finds no cycle has read the dependencies of the snippet that it began with.
  read_first :
      (fuel : ℕ) (snip : JsonnetSnippet)
      → has_cycle_source_edge snip ≡ true
      → detect_source_ref_cycle get_snippet get_library fuel snip ≡ some (ok none)
      → (deps : List NamespacedName) × (snippet_dependencies get_snippet get_library snip ≡ ok deps)
  unfolding detect_source_ref_cycle walk
  read_first fuel snip e h = begun fuel (rw (e, detect_source_ref_cycle) at h)
    where
      begun :
          (n : ℕ)
          → walk get_snippet get_library (name_of snip) n (name_of snip ∷ []) [] (snip ∷ [])
            ≡ some (ok none)
          → (deps : List NamespacedName) × (snippet_dependencies get_snippet get_library snip
              ≡ ok deps)
      begun zero k = cc
      begun (suc n) k = elim (Result-cases (snippet_dependencies get_snippet get_library snip)) [
        | inl (deps, d) ↦ (deps, d)
        | inr (x, d) ↦
            let bad : ◌≡◌ {A = Option (Result CycleError (Option (List NamespacedName)))}
                (some (err x)) (some (ok none)) =
              rw (d, walk) at k in
            cc
      ]

  edged :
      (snip : JsonnetSnippet) (id : NamespacedName)
      → external_artifact_dep snip.source_ref snip.namespace ≡ some id
      → has_cycle_source_edge snip ≡ true
  unfolding external_artifact_dep has_cycle_source_edge
  edged snip id h = told snip.libraries snip.source_ref h
    where
      told :
          (ls : List LibraryRef) (o : Option SourceRef)
          → external_artifact_dep o snip.namespace ≡ some id
          → elim ls [
            | l ∷ ls' ↦ true
            | [] ↦ elim o [ none ↦ false | some ref ↦ ref.kind =? external_artifact ]
          ]
            ≡ true
      told (l ∷ ls) o k = refl
      told [] none k = cc
      told [] (some ref) k = elim (Bool-cases (ref.kind =? external_artifact)) [
        | inl e ↦ e
        | inr e ↦ let bad : none ≡ some id = rw e at k in cc
      ]

  -- A snippet that the webhook admits while it has a reader for the cycle check gets no warning that it
  -- sources its own artifact: where softWarnings would give that warning, the cycle check has denied the
  -- snippet before. The hypotheses are those of validate-acyclic.
  pub validate-unwarned :
      (named : (id : NamespacedName) (s : JsonnetSnippet) → get_snippet id ≡ got s → name_of s ≡ id)
      (v : SnippetValidator) (fuel : ℕ) (snip : JsonnetSnippet) (w : List Warning) (n : Bytes)
      → All IsNamed snip.libraries
      → v.has_cycle_reader ≡ true
      → validate get_snippet get_library v fuel snip ≡ some (ok w)
      → ¬ In (self_reference n) w
  unfolding snippet_dependencies
  validate-unwarned named v fuel snip w n full r h m =
      let (formed, (cleared, e)) = (validate_iff get_snippet get_library v fuel snip w full).0 h in
      let own : external_artifact_dep snip.source_ref snip.namespace ≡ some (name_of snip) =
        warned snip (self_reference n) (soft snip n (subst (In (self_reference n)) e m)) in
      let (deps, d) = read_first fuel snip (edged snip (name_of snip) own) (cleared r) in
      let there : In (name_of snip)
          (with_dep (external_artifact_dep snip.source_ref snip.namespace) []) =
        rw own (inl refl) in
      validate-acyclic get_snippet get_library named v fuel snip w full r h (
        direct (
          snip,
          deps,
          node-start get_snippet get_library snip,
          d,
          library_dependencies-In snip.libraries snip.namespace _ deps (name_of snip) d there,
        ))
