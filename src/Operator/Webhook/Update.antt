-- ===== src/Operator/Webhook/Update.antt =====
-- ValidateUpdate against ValidateCreate, where it skips the checks because their inputs are unchanged.
use jaas.Prelude.{
  ℕ, ◌≡◌, refl, ◌∙◌, subst, Bool, true, false, Bool-cases, ◌&&◌, ◌=?◌, ◌==◌, inl, inr, List, Option,
  some, ok, Bytes, =?_sound, In, All, All-In, In-All, map, arith,
}
use jaas.Operator.Objects.{
  NamespacedName, SourceRef, LibraryRef, JsonnetVariable, JsonnetSnippet, JsonnetLibrary, Got,
}
use jaas.Operator.Webhook.{
  effective_library_alias, safe_library_alias, DeepEqual, validation_inputs_unchanged,
  validate_update, SnippetValidator, Warning,
}
use jaas.Operator.Webhook.Checks.{IsDistinct, IsNamed}
use jaas.Operator.Webhook.Verdict.{IsWellFormed, validate_iff}
use jaas.Sources.Entry.{safe_entry_name}

-- What reflect.DeepEqual says is so: equal slices are equal, and equal maps have the same entries.
pub record IsDeep (de : DeepEqual) : Type 0 where
  pub variables : (x y : List JsonnetVariable) → de.variables x y ≡ true → x ≡ y
  pub libraries : (x y : List LibraryRef) → de.libraries x y ≡ true → x ≡ y
  pub source_refs : (x y : Option SourceRef) → de.source_refs x y ≡ true → x ≡ y
  pub file_maps :
      (x y : List (Bytes × Bytes)) → de.file_maps x y ≡ true → (f : Bytes × Bytes) → In f y → In f x

pub both : (a b : Bool) → (a && b) ≡ true → (a ≡ true) × (b ≡ true)
both true b h = (refl, h)
both false b h = cc

unchanged-IsWellFormed :
    (de : DeepEqual)
    → IsDeep de
    → (v : SnippetValidator) (old snip : JsonnetSnippet)
    → validation_inputs_unchanged de old snip ≡ true
    → IsWellFormed v old
    → IsWellFormed v snip
unfolding validation_inputs_unchanged
unchanged-IsWellFormed de deep v old snip h g =
    let (h3, e) = both _ (old.output =? snip.output) h in
    let (h2, d) = both _ (de.file_maps old.files snip.files) h3 in
    let (h1, c) = both _ (de.source_refs old.source_ref snip.source_ref) h2 in
    let (a, b) =
      both (de.variables old.external_variables snip.external_variables)
        (de.libraries old.libraries snip.libraries) h1 in
    let libs = deep.libraries old.libraries snip.libraries b in
    record {
      unbound =
          subst (All (λ (x : JsonnetVariable). ¬ In x.name v.operator_ext_vars))
            (deep.variables old.external_variables snip.external_variables a) g.unbound;
      unshadowed =
          subst (All (λ (r : LibraryRef). ¬ In (effective_library_alias r) v.known_library_aliases))
            libs g.unshadowed;
      safe =
          subst (All (λ (r : LibraryRef). safe_library_alias (effective_library_alias r) ≡ true))
            libs g.safe;
      distinct = subst (λ rs. IsDistinct (map effective_library_alias rs)) libs g.distinct;
      shippable = λ o.
          In-All (λ f. safe_entry_name f.0 ≡ true) snip.files
            (λ f m.
              All-In (λ f'. safe_entry_name f'.0 ≡ true) old.files f
                (g.shippable (=?_sound old.output snip.output e ∙ o))
                (deep.file_maps old.files snip.files d f m));
    }

module _ (get_snippet : NamespacedName → Got JsonnetSnippet)
    (get_library : NamespacedName → Got JsonnetLibrary) where
  -- An update of a snippet that is not being deleted keeps what the webhook established without the cycle
  -- detector, even where it skips the checks: if the old snippet was well-formed for the operator's
  -- settings and the update is admitted, the new one is. The hypotheses are that reflect.DeepEqual answers
  -- true for equal values only, and that the library references name their libraries.
  pub validate_update-IsWellFormed :
      (de : DeepEqual)
      → IsDeep de
      → (v : SnippetValidator) (fuel : ℕ) (old snip : JsonnetSnippet) (w : List Warning)
      → All IsNamed snip.libraries
      → snip.deletion_timestamp ≡ 0
      → IsWellFormed v old
      → validate_update get_snippet get_library de v fuel (some old) snip ≡ some (ok w)
      → IsWellFormed v snip
  unfolding validate_update
  validate_update-IsWellFormed de deep v fuel old snip w n live g h =
      let here : (snip.deletion_timestamp == 0) ≡ true = zeroed snip.deletion_timestamp live in
      elim (Bool-cases (validation_inputs_unchanged de old snip)) [
        | inl e ↦ unchanged-IsWellFormed de deep v old snip e g
        | inr e ↦ ((validate_iff get_snippet get_library v fuel snip w n).0 (simp (here, e) at h)).0
      ]
    where
      zeroed : (t : ℕ) → t ≡ 0 → (t == 0) ≡ true
      zeroed t k = ground arith
