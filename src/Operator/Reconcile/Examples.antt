-- ===== src/Operator/Reconcile/Examples.antt =====
-- A reconcile of a snippet with one file in a world where every call succeeds, and one whose rate limiter
-- refuses.
use jaas.Prelude.{
  ℕ, ◌<◌, ◌≡◌, ◌⊎◌, inl, inr, refl, Bool, true, false, List, [], ◌∷◌, Option, none, some, Result,
  ok, err, Bytes, codes, ◌=?◌, arith, ◌↔◌,
}
use jaas.Operator.Objects.{JsonnetSnippet, name_of}
use jaas.Operator.Cycle.Examples.{snippet}
use jaas.Operator.Revisions.{RevisionEntry}
use jaas.Operator.Publisher.{PublishResult}
use jaas.Operator.Reconcile.{
  Reason, fetched, rendered_as, World, Exit, defers, Prepared, file, check_suspend, pass_spec,
  pass_cycle, pass_limiter, take_tenant, take_source, take_entry, take_libraries, take_rendered,
  publish_consistency_gate, take_latest, prepare, keep_set, commit, reconcile_spec, finish,
}
use jaas.Operator.Reconcile.Gate.{IsGated, reconcile_spec_iff}
use jaas.Operator.Reconcile.Revisit.{IsComing, reconcile_spec-IsComing}

abbrev snip : JsonnetSnippet
snip = snippet (codes "s") none []

abbrev files : List (Bytes × Bytes)
files = (codes "main.jsonnet", codes "6*7") ∷ []

abbrev world : Bool → World Bytes Bytes Bytes
world free = record {
  settings = record { default_service_account = []; ext_vars = []; known_library_aliases = [] };
  has_publisher = true;
  is_permanent = λ e. false;
  verdict = λ s. ok (false, []);
  reserve = λ n. (free, 3);
  tenant_client = λ s. ok s.service_account_name;
  resolve_source = λ t s. fetched files;
  resolve_libraries = λ t s. ok (ok []);
  classify_fetch_error = λ e. e;
  evaluate = λ s fs main libs. rendered_as (codes "42");
  get_latest = λ n. ok (some snip);
  hex_sha256 = λ b. codes "a";
  publish = λ t s r fs keep. ok (record { revision = codes "sha256:a"; url = [] });
}

abbrev prepared : Prepared Bytes
prepared = record { tenant = codes "sa"; files = files; rendered = codes "42"; latest = snip }

abbrev result : PublishResult
result = record { revision = codes "sha256:a"; url = [] }

goes_through : reconcile_spec (world true) snip ≡ ok (prepared, result)
unfolding check_suspend commit file jaas.Operator.Publisher.sha256_content_hash
    jaas.Operator.Reconcile.empty_reason jaas.Operator.Revisions.add
    jaas.Operator.Revisions.build_keep_revisions jaas.Operator.Revisions.history_revisions
    jaas.Operator.SpecChecks.check_duplicate_library_imports
    jaas.Operator.SpecChecks.check_ext_var_conflicts jaas.Operator.SpecChecks.check_import_aliases
    jaas.Operator.SpecChecks.check_library_alias_collisions
    jaas.Operator.SpecChecks.check_service_account jaas.Operator.SpecChecks.check_spec
    jaas.Operator.SpecChecks.collides_from jaas.Operator.Webhook.duplicate_among
    jaas.Operator.Webhook.duplicate_library_import_path
    jaas.Operator.Webhook.effective_library_alias jaas.Operator.Webhook.invalid_library_import_alias
    jaas.Operator.Webhook.is_alias_byte jaas.Operator.Webhook.safe_library_alias jaas.Prelude.all
    jaas.Prelude.member keep_set pass_cycle pass_limiter pass_spec prepare publish_consistency_gate
    reconcile_spec take_entry take_latest take_libraries take_rendered take_source take_tenant ◌=?◌
goes_through = refl

limited : reconcile_spec (world false) snip ≡ err (defers 3)
unfolding check_suspend jaas.Operator.Reconcile.pass_cycle jaas.Operator.Reconcile.pass_limiter
    jaas.Operator.Reconcile.pass_spec jaas.Operator.Reconcile.prepare
    jaas.Operator.SpecChecks.check_duplicate_library_imports
    jaas.Operator.SpecChecks.check_ext_var_conflicts jaas.Operator.SpecChecks.check_import_aliases
    jaas.Operator.SpecChecks.check_library_alias_collisions
    jaas.Operator.SpecChecks.check_service_account jaas.Operator.SpecChecks.check_spec
    jaas.Operator.Webhook.duplicate_library_import_path
    jaas.Operator.Webhook.invalid_library_import_alias jaas.Prelude.◌=?◌ reconcile_spec
limited = refl

reconcile_spec_iff_example : IsGated (world true) snip prepared result
reconcile_spec_iff_example = (reconcile_spec_iff (world true) snip prepared result).0 goes_through

abbrev patch : Reason → Option Bytes
patch reason = none

reconcile_spec-IsComing_example :
    IsComing (finish (world false) patch (defers 3))
    ⊎ ((snip.suspend ≡ true)
        ⊎ (publish_consistency_gate (world false) (name_of snip) snip.generation ≡ ok none))
reconcile_spec-IsComing_example =
    reconcile_spec-IsComing (world false) patch snip (λ h. omega arith) (defers 3) limited
