-- ===== src/Operator/Reconcile.antt =====
-- internal/operator/reconciler.go: reconcileSpec, from the checks of the spec to the publish, with
-- publishConsistencyGate. What the steps call is a record of parameters; the ways in which a reconcile
-- ends before the publish are values.
pub mod Gate
pub mod Revisit
mod Examples
use jaas.Prelude.{
  ℕ, Bool, true, false, not, List, [], ◌∷◌, ◌++◌, Option, none, some, Result, ok, err, Bytes, ◌=?◌,
  ◌==◌, is_empty, if◌then◌else◌,
}
use jaas.Prelude.Attempt.{◌>>=◌}
use jaas.Operator.Objects.{NamespacedName, SourceRef, JsonnetSnippet, name_of}
use jaas.Operator.SpecChecks.{SpecFault, Settings, check_spec}
use jaas.Operator.Revisions.{history_revisions, build_keep_revisions}
use jaas.Operator.Webhook.{entry_file_name}
use jaas.Operator.Publisher.{PublishResult, sha256_content_hash}

-- The reasons that reconcileSpec itself gives, and those that its helpers report, which are failures.
pub data Reason : Type 0 where
  suspended rbac_denied source_fetch_failed artifact_too_large unsafe_entry no_files : Reason
  bad_spec : SpecFault → Reason
  dependency_cycle : Bytes → Reason
  path_matched_nothing entry_missing : Bytes → Reason
  reported : Bytes → Reason

-- happyReasonsNoRunbook. The reasons that the helpers report name failures, and none is among the
-- healthy ones.
unfoldable pub is_happy : Reason → Bool
is_happy suspended = true
is_happy reason = false

-- The answers of the helpers.
pub data Source (E : Type 0) : Type 0 where
  fetched : List (Bytes × Bytes) → Source E
  unresolved : Bytes → Source E
  not_yet : Bytes → E → Source E

pub data Evaluation (E : Type 0) : Type 0 where
  rendered_as : Bytes → Evaluation E
  unavailable : Evaluation E
  eval_failed : E → Evaluation E
  rejected : Bytes → Evaluation E

pub data PublishFault (E : Type 0) : Type 0 where
  too_large unsafe_name : PublishFault E
  other : E → PublishFault E

-- evalUnavailableRequeueAfter and permanentRetryInterval, in seconds.
abbrev pub eval_unavailable_requeue_after : ℕ
eval_unavailable_requeue_after = 1

abbrev pub permanent_retry_interval : ℕ
permanent_retry_interval = 60

-- What a reconcile calls: E is an error, T a client of the tenant, L a library.
pub record World (E T L : Type 0) : Type 0 where
  pub settings : Settings
  pub has_publisher : Bool
  pub is_permanent : E → Bool
  pub verdict : JsonnetSnippet → Result E (Bool × Bytes)
  pub reserve : NamespacedName → Bool × ℕ
  pub tenant_client : JsonnetSnippet → Result E T
  pub resolve_source : T → JsonnetSnippet → Source E
  pub resolve_libraries : T → JsonnetSnippet → Result E (Result Bytes (List (Bytes × L)))
  pub classify_fetch_error : E → Bytes
  pub evaluate : JsonnetSnippet → List (Bytes × Bytes) → Bytes → List (Bytes × L) → Evaluation E
  pub get_latest : NamespacedName → Result E (Option JsonnetSnippet)
  pub hex_sha256 : Bytes → Bytes
  pub publish :
      T
      → JsonnetSnippet
      → Bytes
      → List (Bytes × Bytes)
      → List Bytes
      → Result (PublishFault E) PublishResult

-- How a reconcile ends before the status is synced: with a status, with a status and an error for the
-- backoff, with an error alone, put off without a status, or dropped for a later event. A pause prunes the
-- revisions outside of the list first.
pub data Exit (E : Type 0) : Type 0 where
  pauses : Option (List Bytes) → Exit E
  stops : Reason → Exit E
  retries : Reason → E → Exit E
  errors : E → Exit E
  defers : ℕ → Exit E
  drops : Exit E

-- What goes into a publish.
pub record Prepared (T : Type 0) : Type 0 where
  pub tenant : T
  pub files : List (Bytes × Bytes)
  pub rendered : Bytes
  pub latest : JsonnetSnippet

unfoldable pub file : Bytes → List (Bytes × Bytes) → Option Bytes
file k [] = none
file k ((name, body) ∷ files) = if k =? name then some body else file k files

module _ {E T L : Type 0} (w : World E T L) where
  unfoldable pub check_suspend : JsonnetSnippet → Result (Exit E) (Unit {0})
  check_suspend snip =
      if snip.suspend
      then err (
          pauses (
            if (if w.has_publisher then not (is_empty snip.status_history) else false)
            then some (history_revisions snip.status_history)
            else none))
      else ok tt

  abbrev pub on_fault : Option SpecFault → Result (Exit E) (Unit {0})
  on_fault (some f) = err (stops (bad_spec f))
  on_fault none = ok tt

  unfoldable pub pass_spec : JsonnetSnippet → Result (Exit E) (Unit {0})
  pass_spec snip = on_fault (check_spec w.settings snip)

  abbrev pub on_verdict : Result E (Bool × Bytes) → Result (Exit E) (Unit {0})
  on_verdict (err e) =
      if w.is_permanent e then err (stops rbac_denied) else err (retries source_fetch_failed e)
  on_verdict (ok (true, path)) = err (stops (dependency_cycle path))
  on_verdict (ok (false, path)) = ok tt

  unfoldable pub pass_cycle : JsonnetSnippet → Result (Exit E) (Unit {0})
  pass_cycle snip = on_verdict (w.verdict snip)

  unfoldable pub pass_limiter : JsonnetSnippet → Result (Exit E) (Unit {0})
  pass_limiter snip =
      if (w.reserve (name_of snip)).0 then ok tt else err (defers (w.reserve (name_of snip)).1)

  abbrev pub on_tenant : Result E T → Result (Exit E) T
  on_tenant (ok t) = ok t
  on_tenant (err e) = if w.is_permanent e then err (stops rbac_denied) else err (errors e)

  unfoldable pub take_tenant : JsonnetSnippet → Result (Exit E) T
  take_tenant snip = on_tenant (w.tenant_client snip)

  abbrev pub on_source : Source E → Result (Exit E) (List (Bytes × Bytes))
  on_source (fetched files) = ok files
  on_source (unresolved reason) = err (stops (reported reason))
  on_source (not_yet reason e) = err (retries (reported reason) e)

  unfoldable pub take_source : T → JsonnetSnippet → Result (Exit E) (List (Bytes × Bytes))
  take_source t snip = on_source (w.resolve_source t snip)

  abbrev pub entry_of : JsonnetSnippet → Bytes
  entry_of snip = if snip.entry_file =? [] then entry_file_name else snip.entry_file

  -- The reason for a source without files.
  unfoldable pub empty_reason : Option SourceRef → Reason
  empty_reason none = no_files
  empty_reason (some ref) = if not (ref.path =? []) then path_matched_nothing ref.path else no_files

  abbrev pub on_entry : Bytes → Option Bytes → Result (Exit E) Bytes
  on_entry name none = err (stops (entry_missing name))
  on_entry name (some body) = ok body

  unfoldable pub take_entry : JsonnetSnippet → List (Bytes × Bytes) → Result (Exit E) Bytes
  take_entry snip files =
      if is_empty files
      then err (stops (empty_reason snip.source_ref))
      else on_entry (entry_of snip) (file (entry_of snip) files)

  abbrev pub on_libraries :
      Result E (Result Bytes (List (Bytes × L))) → Result (Exit E) (List (Bytes × L))
  on_libraries (err e) = err (retries (reported (w.classify_fetch_error e)) e)
  on_libraries (ok (err reason)) = err (stops (reported reason))
  on_libraries (ok (ok libs)) = ok libs

  unfoldable pub take_libraries : T → JsonnetSnippet → Result (Exit E) (List (Bytes × L))
  take_libraries t snip = on_libraries (w.resolve_libraries t snip)

  abbrev pub on_evaluation : Evaluation E → Result (Exit E) Bytes
  on_evaluation (rendered_as r) = ok r
  on_evaluation unavailable = err (defers eval_unavailable_requeue_after)
  on_evaluation (eval_failed e) = err (errors e)
  on_evaluation (rejected reason) = err (stops (reported reason))

  unfoldable pub take_rendered :
      JsonnetSnippet → List (Bytes × Bytes) → Bytes → List (Bytes × L) → Result (Exit E) Bytes
  take_rendered snip files main libs = on_evaluation (w.evaluate snip files main libs)

  abbrev pub if_current : ℕ → Result E (Option JsonnetSnippet) → Result E (Option JsonnetSnippet)
  if_current judged_gen (err e) = err e
  if_current judged_gen (ok none) = ok none
  if_current judged_gen (ok (some latest)) =
      if not (latest.generation == judged_gen) then ok none else ok (some latest)

  -- publishConsistencyGate: the fresh object, where there is one and its spec has not moved.
  unfoldable pub publish_consistency_gate : NamespacedName → ℕ → Result E (Option JsonnetSnippet)
  publish_consistency_gate key judged_gen = if_current judged_gen (w.get_latest key)

  abbrev pub on_gate : Result E (Option JsonnetSnippet) → Result (Exit E) JsonnetSnippet
  on_gate (err e) = err (errors e)
  on_gate (ok none) = err drops
  on_gate (ok (some latest)) = ok latest

  unfoldable pub take_latest : JsonnetSnippet → Result (Exit E) JsonnetSnippet
  take_latest snip = on_gate (publish_consistency_gate (name_of snip) snip.generation)

  -- reconcileSpec up to the publish.
  unfoldable pub prepare : JsonnetSnippet → Result (Exit E) (Prepared T)
  prepare snip = do
    _ ← check_suspend snip
    _ ← pass_spec snip
    _ ← pass_cycle snip
    _ ← pass_limiter snip
    t ← take_tenant snip
    files ← take_source t snip
    main ← take_entry snip files
    libs ← take_libraries t snip
    rendered ← take_rendered snip files main libs
    latest ← take_latest snip
    ok (record { tenant = t; files = files; rendered = rendered; latest = latest })

  -- The keep-set for the publish.
  unfoldable pub keep_set : Prepared T → List Bytes
  keep_set p =
      build_keep_revisions (sha256_content_hash w.hex_sha256 p.rendered) p.latest.status_history
        p.latest.history

  abbrev pub on_publish : Result (PublishFault E) PublishResult → Result (Exit E) PublishResult
  on_publish (ok r) = ok r
  on_publish (err too_large) = err (stops artifact_too_large)
  on_publish (err unsafe_name) = err (stops unsafe_entry)
  on_publish (err (other e)) = if w.is_permanent e then err (stops rbac_denied) else err (errors e)

  -- The publish and the classes of its errors.
  unfoldable pub commit : JsonnetSnippet → Prepared T → Result (Exit E) PublishResult
  commit snip p = on_publish (w.publish p.tenant snip p.rendered p.files (keep_set p))

  -- reconcileSpec, with what it published.
  unfoldable pub reconcile_spec : JsonnetSnippet → Result (Exit E) (Prepared T × PublishResult)
  reconcile_spec snip = do p ← prepare snip; r ← commit snip p; ok (p, r)

  -- failReady and the ends of reconcileSpec: the time until the next reconcile, 0 for none, or an error.
  -- `patch` is the write of the status.
  unfoldable pub finish : (Reason → Option E) → Exit E → Result E ℕ
  finish patch (pauses keep) = elim (patch suspended) [ some x ↦ err x | none ↦ ok 0 ]
  finish patch (stops reason) = elim (patch reason) [
    | some x ↦ err x
    | none ↦ ok (if is_happy reason then 0 else permanent_retry_interval)
  ]
  finish patch (retries reason e) = elim (patch reason) [ some x ↦ err x | none ↦ err e ]
  finish patch (errors e) = err e
  finish patch (defers delay) = ok delay
  finish patch drops = ok 0
