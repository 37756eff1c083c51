-- ===== src/Operator/Publisher.antt =====
-- internal/operator/publisher.go: Publish and PruneStored over the store on disk. The
-- ExternalArtifact of the snippet is written by a parameter that is given what the source gives it: the
-- revision and the result of the put. SHA-256 in hexadecimal is a parameter.
pub mod Serves
pub mod Coverage
mod Examples
use jaas.Prelude.{
  ℕ, ◌+◌, Bool, true, false, not, ◌&&◌, List, [], ◌∷◌, ◌++◌, Option, none, some, Result, ok, err,
  Bytes, codes, ◌=?◌, ltb, length, is_empty, member, map, if◌then◌else◌,
}
use jaas.Prelude.Text.{trim_suffix}
use jaas.Prelude.Order.{sort_strings}
use jaas.Prelude.Action.{Action, pure, fail, ◌>>=◌, ◌>>◌, wrap}
use jaas.Storage.FileSystem.{FileSystem, Archiver, FileEntry}
use jaas.Storage.Archive.{StoreError}
use jaas.Storage.Store.{PutResult, put, prune}
use jaas.Sources.Entry.{safe_entry_name}
use jaas.Sources.Extract.{default_max_extracted_bytes, default_max_per_entry_bytes}
use jaas.Operator.Objects.{JsonnetSnippet}
use jaas.Operator.Webhook.{output_source}

-- OutputRendered
abbrev pub output_rendered : Bytes
output_rendered = codes "rendered"

pub data PublishError : Type 0 where
  not_wired : PublishError
  unsafe_entry_name unknown_output : Bytes → PublishError
  entry_too_large : Bytes → PublishError
  artifact_too_large : PublishError
  store_put_failed store_prune_failed : StoreError → PublishError
  upsert_failed : PublishError

-- PublishResult
pub record PublishResult : Type 0 where
  pub revision : Bytes
  pub url : Bytes

-- The fields of Publisher that a call reads. A limit of zero or less disables that check, so a negative
-- one is 0 here; wired says that the store and the client are there.
pub record Publisher : Type 0 where
  pub wired : Bool
  pub base_url : Bytes
  pub max_artifact_bytes : ℕ
  pub gc_grace : ℕ

unfoldable pub content_of : Bytes → List (Bytes × Bytes) → Bytes
content_of k [] = []
content_of k ((name, body) ∷ files) = if k =? name then body else content_of k files

-- What sourceArchiveRevision feeds to the hash.
unfoldable pub archive_feed : List (Bytes × Bytes) → List Bytes → Bytes
archive_feed files [] = []
archive_feed files (k ∷ keys) = k ++ 0 ∷ content_of k files ++ 0 ∷ archive_feed files keys

-- The loop of buildEntries over the source files, in the order in which the map gives them.
unfoldable pub source_entries : List (Bytes × Bytes) → Result PublishError (List FileEntry)
source_entries [] = ok []
source_entries ((path, body) ∷ files) =
    let rest = source_entries files in
    if not (safe_entry_name path) then err (unsafe_entry_name path) else elim rest [
      | err x ↦ err x
      | ok entries ↦ ok (record { path = path; content = body } ∷ entries)
    ]

-- The loop of Publish over the sizes, and then the check of their sum, with the sum so far.
unfoldable pub check_sizes : ℕ → ℕ → List FileEntry → Option PublishError
check_sizes limit total [] =
    if ltb default_max_extracted_bytes total
    then some artifact_too_large
    else if ltb 0 limit && ltb limit total
    then some artifact_too_large
    else none
check_sizes limit total (e ∷ entries) =
    let rest = check_sizes limit (total + length e.content) entries in
    if ltb default_max_per_entry_bytes (length e.content)
    then some (entry_too_large e.path)
    else rest

-- The revisions that Publish hands to Prune.
unfoldable pub publish_keep : Bytes → List Bytes → List Bytes
publish_keep revision keep_revisions =
    if is_empty keep_revisions
    then revision ∷ []
    else if not (member revision keep_revisions)
    then revision ∷ keep_revisions
    else keep_revisions

-- url
unfoldable pub url : Bytes → Bytes → Bytes
url base_url path = trim_suffix base_url (codes "/") ++ b'/' ∷ path

module _ (hex_sha256 : Bytes → Bytes) where
  -- sha256ContentHash of internal/operator/reconciler.go
  unfoldable pub sha256_content_hash : Bytes → Bytes
  sha256_content_hash rendered = codes "sha256:" ++ hex_sha256 rendered

  -- sourceArchiveRevision
  unfoldable pub source_archive_revision : List (Bytes × Bytes) → Bytes
  source_archive_revision files =
      codes "sha256:" ++ hex_sha256 (archive_feed files (sort_strings (map (λ f. f.0) files)))

  -- buildEntries
  unfoldable pub build_entries :
      Bytes → Bytes → List (Bytes × Bytes) → Result PublishError (List FileEntry × Bytes)
  build_entries output rendered source_files =
      let entries = source_entries source_files in
      if output =? output_source
      then elim entries [ err x ↦ err x | ok es ↦ ok (es, source_archive_revision source_files) ]
      else if (if output =? output_rendered then true else output =? [])
      then ok (
        record { path = codes "rendered.json"; content = rendered } ∷ [],
        sha256_content_hash rendered,
      )
      else err (unknown_output output)

module _ (fs : FileSystem) (ar : Archiver) (hex_sha256 : Bytes → Bytes)
    (upsert : Bytes → PutResult → Bool) where
  open fs use {Disk}

  -- upsertExternalArtifact, whose error ends the call.
  abbrev pub upserted : Bytes → PutResult → Action Disk PublishError (Unit {0})
  upserted revision res = if upsert revision res then pure tt else fail upsert_failed

  -- Publish after the checks of the sizes; the put and the prune read the clock at `t` and `u`.
  unfoldable pub publish_entries :
      Publisher
      → JsonnetSnippet
      → List FileEntry
      → Bytes
      → List Bytes
      → ℕ
      → ℕ
      → Action Disk PublishError PublishResult
  publish_entries p snip entries revision keep_revisions t u = do
    res ← wrap (put fs ar snip.namespace snip.name revision entries t) store_put_failed
    upserted revision res
    wrap (prune fs snip.namespace snip.name (publish_keep revision keep_revisions) p.gc_grace u)
        store_prune_failed
    pure (record { revision = revision; url = url p.base_url res.path })

  -- Publish
  unfoldable pub publish :
      Publisher
      → JsonnetSnippet
      → Bytes
      → List (Bytes × Bytes)
      → List Bytes
      → ℕ
      → ℕ
      → Action Disk PublishError PublishResult
  publish p snip rendered source_files keep_revisions t u =
      if not p.wired
      then fail not_wired
      else elim (build_entries hex_sha256 snip.output rendered source_files) [
        | err x ↦ fail x
        | ok (entries, revision) ↦ elim (check_sizes p.max_artifact_bytes 0 entries) [
          | some x ↦ fail x
          | none ↦ publish_entries p snip entries revision keep_revisions t u
        ]
      ]

  -- PruneStored
  unfoldable pub prune_stored :
      Publisher → Bytes → Bytes → List Bytes → ℕ → Action Disk PublishError (Unit {0})
  prune_stored p namespace name keep_revisions u =
      if not p.wired
      then fail not_wired
      else wrap (prune fs namespace name keep_revisions p.gc_grace u) store_prune_failed
