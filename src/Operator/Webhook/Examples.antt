-- ===== src/Operator/Webhook/Examples.antt =====
-- Runs of the webhook on a snippet that imports a library, against the cluster of the cycle detector's
-- examples.
use jaas.Prelude.{
  ◌≡◌, refl, true, false, ◌=?◌, ◌↔◌, [], ◌∷◌, none, some, ok, err, codes, apart, In, All,
}
use jaas.Operator.Objects.{LibraryRef, JsonnetSnippet, name_of}
use jaas.Operator.Cycle.{jsonnet_library}
use jaas.Operator.Cycle.Graph.{Reaches}
use jaas.Operator.Cycle.Examples.{a, get_snippet, get_library, get_snippet-named}
use jaas.Operator.Webhook.{
  SnippetValidator, entry_file_missing, self_reference, AdmissionError, soft_warnings,
  variables_conflict, validate, validate_update, validation_inputs_unchanged, output_source,
}
use jaas.Operator.Webhook.Checks.{IsNamed}
use jaas.Operator.Webhook.Verdict.{IsWellFormed, IsCleared, validate_iff, validate-acyclic}
use jaas.Operator.Webhook.Advice.{validate-unwarned}
use jaas.Operator.Webhook.Equality.{deep, deep-IsDeep}
use jaas.Operator.Webhook.Update.{validate_update-IsWellFormed}
use jaas.Operator.SpecChecks.{Settings, service_account_missing, check_spec}
use jaas.Operator.SpecChecks.Agreement.{HasAccount, validate-check_spec}
use jaas.Sources.Entry.{safe_entry_name}
use jaas.Operator.Webhook.{
  conflicts, hits, library_alias_collision, first_known, invalid_library_import_alias,
  safe_library_alias, effective_library_alias, is_alias_byte, duplicate_library_import_path,
  duplicate_among, check_files, unsafe_entry, after_walk, check_cycle, warn_entry_file_missing,
  warn_likely_self_reference,
}
use jaas.Prelude.Order.{sort_strings}
use jaas.Prelude.{member, all}
use jaas.Sources.Entry.{
  normalise_entry, accept_cleaned, has_hidden, is_safe_path_byte, under_prefix,
}
use jaas.Operator.Cycle.{
  backward, climb, detect_source_ref_cycle, external_artifact_dep, format_cycle_path, format_rest,
  has_cycle_source_edge, library_dependencies, library_source_ref, member_id, parent_of,
  reconstruct_cycle_path, scan, snippet_dependencies, walk,
}
use jaas.Operator.Objects.{is_same}
use jaas.Sources.Clean.{join_slash, onto, or_dot, take_segment}
use jaas.Prelude.Text.{has_prefix, contains_byte, split}
use jaas.Sources.Clean.{clean, clean_loop}

abbrev lib : LibraryRef
lib = record {
  api_version = [];
  kind = jsonnet_library;
  name = codes "l";
  namespace = [];
  import_path = [];
}

-- It names no entry file, and has none of the default name.
abbrev snip : JsonnetSnippet
snip = record {
  namespace = codes "n";
  name = codes "c";
  uid = codes "c";
  generation = 1;
  deletion_timestamp = 0;
  service_account_name = codes "sa";
  entry_file = [];
  files = (codes "x.jsonnet", []) ∷ [];
  source_ref = none;
  libraries = lib ∷ [];
  tlas = [];
  external_variables = record { name = codes "region"; value = []; code = false } ∷ [];
  output = output_source;
  suspend = false;
  history = 2;
  interval = 60;
  status_history = [];
}

abbrev v : SnippetValidator
v = record {
  operator_ext_vars = codes "env" ∷ [];
  known_library_aliases = codes "mounted" ∷ [];
  has_cycle_reader = true;
}

abbrev r : Settings
r = record {
  default_service_account = [];
  ext_vars = codes "env" ∷ [];
  known_library_aliases = codes "mounted" ∷ [];
}

snip-IsNamed : All IsNamed snip.libraries
unfolding ◌=?◌
snip-IsNamed = (apart (codes "l") [] refl, tt)

snip_admitted :
    validate get_snippet get_library v 3 snip
    ≡ some (ok (entry_file_missing (codes "main.jsonnet") ∷ []))
unfolding validate has_prefix contains_byte split clean clean_loop ◌=?◌ get_snippet get_library
    conflicts sort_strings hits member library_alias_collision first_known
    invalid_library_import_alias safe_library_alias effective_library_alias all is_alias_byte
    duplicate_library_import_path duplicate_among check_files unsafe_entry safe_entry_name
    normalise_entry backward climb detect_source_ref_cycle external_artifact_dep format_cycle_path
    format_rest has_cycle_source_edge library_dependencies library_source_ref member_id parent_of
    reconstruct_cycle_path scan snippet_dependencies walk is_same after_walk check_cycle join_slash
    onto or_dot take_segment accept_cleaned has_hidden is_safe_path_byte under_prefix soft_warnings
    warn_entry_file_missing warn_likely_self_reference
snip_admitted = refl

cycle_denied : (w : AdmissionError) × (validate get_snippet get_library v 3 a ≡ some (err w))
unfolding validate has_prefix contains_byte split clean clean_loop ◌=?◌ get_snippet get_library
    conflicts sort_strings hits member library_alias_collision first_known
    invalid_library_import_alias safe_library_alias effective_library_alias all is_alias_byte
    duplicate_library_import_path duplicate_among check_files unsafe_entry safe_entry_name
    normalise_entry backward climb detect_source_ref_cycle external_artifact_dep format_cycle_path
    format_rest has_cycle_source_edge library_dependencies library_source_ref member_id parent_of
    reconstruct_cycle_path scan snippet_dependencies walk is_same after_walk check_cycle join_slash
    onto or_dot take_segment accept_cleaned has_hidden is_safe_path_byte under_prefix soft_warnings
    warn_entry_file_missing warn_likely_self_reference
cycle_denied = (_, refl)

validate_iff_example :
    IsWellFormed v snip
    × (IsCleared get_snippet get_library v 3 snip
        × (entry_file_missing (codes "main.jsonnet") ∷ [] ≡ soft_warnings snip))
validate_iff_example =
    (validate_iff get_snippet get_library v 3 snip _ snip-IsNamed).0 snip_admitted

validate-acyclic_example : ¬ Reaches get_snippet get_library snip (name_of snip)
validate-acyclic_example =
    validate-acyclic get_snippet get_library get_snippet-named v 3 snip _ snip-IsNamed refl
      snip_admitted

validate-unwarned_example :
    ¬ In (self_reference (codes "c")) (entry_file_missing (codes "main.jsonnet") ∷ [])
validate-unwarned_example =
    validate-unwarned get_snippet get_library get_snippet-named v 3 snip _ (codes "c") snip-IsNamed
      refl snip_admitted

snip-IsWellFormed : IsWellFormed v snip
snip-IsWellFormed =
    ((validate_iff get_snippet get_library v 3 snip _ snip-IsNamed).0 snip_admitted).0

-- The same snippet, suspended: the checks are skipped.
abbrev paused : JsonnetSnippet
paused = record snip { suspend = true }

update_admitted : validate_update get_snippet get_library deep v 3 (some snip) paused ≡ some (ok [])
unfolding validate_update validation_inputs_unchanged ◌=?◌
update_admitted = refl

-- A snippet with a variable of the operator: what is refused on create is refused on update, and is
-- admitted once the object is being deleted.
abbrev clashing : JsonnetSnippet
clashing = record snip {
  external_variables = record { name = codes "env"; value = []; code = false } ∷ [];
}

update_refused :
    (validate_update get_snippet get_library deep v 3 (some snip) clashing
      ≡ some (err (variables_conflict (codes "env" ∷ []))))
    × (validate_update get_snippet get_library deep v 3
          (some snip)
          (record clashing { deletion_timestamp = 1 })
        ≡ some (ok []))
unfolding validate_update validation_inputs_unchanged validate conflicts hits member sort_strings
    ◌=?◌
update_refused = (refl, refl)

validate_update-IsWellFormed_example : IsWellFormed v paused
validate_update-IsWellFormed_example =
    validate_update-IsWellFormed get_snippet get_library deep deep-IsDeep v 3 snip paused []
      snip-IsNamed refl snip-IsWellFormed update_admitted

validate-check_spec_example :
    ((validate get_snippet get_library v 3 snip ≡ some (ok (soft_warnings snip)))
      × HasAccount r snip)
    ↔ ((check_spec r snip ≡ none)
        × ((snip.output ≡ output_source → All (λ f. safe_entry_name f.0 ≡ true) snip.files)
            × IsCleared get_snippet get_library v 3 snip))
validate-check_spec_example =
    validate-check_spec get_snippet get_library r v 3 snip snip-IsNamed refl refl

-- Without an account the webhook admits the snippet, and the reconciler refuses it.
abbrev anonymous : JsonnetSnippet
anonymous = record snip { service_account_name = [] }

anonymous_admitted :
    (validate get_snippet get_library v 3 anonymous
      ≡ some (ok (entry_file_missing (codes "main.jsonnet") ∷ [])))
    × (check_spec r anonymous ≡ some service_account_missing)
unfolding check_spec jaas.Operator.SpecChecks.check_service_account validate has_prefix
    contains_byte split clean clean_loop ◌=?◌ get_snippet get_library conflicts sort_strings hits
    member library_alias_collision first_known invalid_library_import_alias safe_library_alias
    effective_library_alias all is_alias_byte duplicate_library_import_path duplicate_among
    check_files unsafe_entry safe_entry_name normalise_entry backward climb detect_source_ref_cycle
    external_artifact_dep format_cycle_path format_rest has_cycle_source_edge library_dependencies
    library_source_ref member_id parent_of reconstruct_cycle_path scan snippet_dependencies walk
    is_same after_walk check_cycle join_slash onto or_dot take_segment accept_cleaned has_hidden
    is_safe_path_byte under_prefix soft_warnings warn_entry_file_missing warn_likely_self_reference
anonymous_admitted = (refl, refl)
