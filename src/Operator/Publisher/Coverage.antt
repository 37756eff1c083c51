-- ===== src/Operator/Publisher/Coverage.antt =====
-- What a publish does to the revisions that the status lists after it.
use jaas.Prelude.{
  ℕ, ◌≡◌, ◌≢◌, refl, sym, ◌∙◌, subst, ap, Bool, true, false, Bool-cases, inl, inr, List, [], ◌∷◌,
  ◌++◌, none, Result, ok, err, Bytes, codes, ◌=?◌, =?_sound, apart, In, if◌then◌else◌, arith,
  Option-cases,
}
use jaas.Prelude.Text.{replace_all}
use jaas.Prelude.Action.{done, final_state}
use jaas.Storage.FileSystem.{
  FileSystem, Archiver, FileEntry, FileSystemLaws, Keeps, Holds, Fault, not_exist, other_fault,
}
use jaas.Storage.Key.{revision_filename, archive_suffix, tmp_suffix}
use jaas.Storage.Store.{PutResult, join, artifact_path, open_revision, check_revision_key}
use jaas.Storage.Store.Describes.{open_revision-put}
use jaas.Storage.Archive.{StoreError, revision_not_found, open_failed}
use jaas.Storage.Store.Frame.{put_frame}
use jaas.Storage.Store.Retention.{prune-Keeps}
use jaas.Operator.Objects.{JsonnetSnippet}
use jaas.Operator.Revisions.{
  RevisionEntry, history_revisions, update_revision_history, build_keep_revisions,
}
use jaas.Operator.Revisions.Coverage.{history_revisions-build_keep_revisions}
use jaas.Operator.Webhook.{output_source}
use jaas.Operator.Publisher.{
  PublishError, unknown_output, PublishResult, Publisher, output_rendered, sha256_content_hash,
  publish_keep, build_entries, publish,
}
use jaas.Operator.Publisher.Serves.{In-publish_keep, IsPublished, publish-IsPublished}

abbrev last_byte : ℕ → Bytes → ℕ
last_byte z [] = z
last_byte z (c ∷ s) = last_byte c s

last_byte-append : (z c : ℕ) (s t : Bytes) → last_byte z (s ++ c ∷ t) ≡ last_byte c t
last_byte-append z c [] t = refl
last_byte-append z c (b ∷ s) t = last_byte-append b c s t

ends : (dir s : Bytes) → last_byte 0 (join dir (s ++ archive_suffix)) ≡ b'z'
ends dir s =
    last_byte-append 0 b'/' dir (s ++ archive_suffix)
    ∙ last_byte-append b'/' b'.' s (codes "tar.gz")

-- No artifact is the temporary file of one.
artifact_path-ne-tmp :
    (namespace name a revision : Bytes)
    → artifact_path namespace name a ≢ artifact_path namespace name revision ++ tmp_suffix
unfolding revision_filename
artifact_path-ne-tmp namespace name a revision e =
    let z : last_byte 0 (artifact_path namespace name a) ≡ b'z' =
      ends (join namespace name) (replace_all a b':' b'-') in
    let p : last_byte 0 (artifact_path namespace name revision ++ tmp_suffix) ≡ b'p' =
      last_byte-append 0 b'.' (artifact_path namespace name revision) (codes "tmp") in
    let bad : b'z' ≡ b'p' = sym z ∙ (ap (last_byte 0) e ∙ p) in omega (arith, bad)

module _ (fs : FileSystem) where
  open fs use {Disk, open_file}

  -- A revision that opens has a sound key and an artifact that can be read.
  opened :
      (namespace name a b : Bytes) (d : Disk)
      → open_revision fs namespace name a d ≡ ok (ok b)
      → (check_revision_key namespace name a ≡ none) × Holds fs (artifact_path namespace name a) b d
  unfolding open_revision
  opened namespace name a b d h = elim (Option-cases (check_revision_key namespace name a)) [
    | inr (x, e) ↦ absurd (broken (rw (e, open_revision) at h))
    | inl e ↦ (e, read (open_file (artifact_path namespace name a) d) (rw (e, open_revision) at h))
  ]
    where
      broken :
          {x : StoreError}
          → ¬ (◌≡◌ {A = Result StoreError (Result Fault Bytes)} (err x) (ok (ok b)))
      broken k = cc

      read :
          (o : Result Fault (Result Fault Bytes))
          → elim o [
            | ok reader ↦ ok reader
            | err not_exist ↦ err revision_not_found
            | err other_fault ↦ err (open_failed other_fault)
          ]
            ≡ ok (ok b)
          → o ≡ ok (ok b)
      read (ok o) k = cc
      read (err not_exist) k = cc
      read (err other_fault) k = cc

  opens :
      (namespace name a b : Bytes) (d : Disk)
      → check_revision_key namespace name a ≡ none
      → Holds fs (artifact_path namespace name a) b d
      → open_revision fs namespace name a d ≡ ok (ok b)
  unfolding open_revision
  opens namespace name a b d e h = rw (e, h, open_revision) refl

module _ (fs : FileSystem) (ar : Archiver) (laws : FileSystemLaws fs) (hex_sha256 : Bytes → Bytes)
    (upsert : Bytes → PutResult → Bool) where
  open fs use {Disk}

  rendered_revision :
      (output rendered : Bytes) (files : List (Bytes × Bytes)) (entries : List FileEntry)
      (revision : Bytes)
      → (output =? output_source) ≡ false
      → build_entries hex_sha256 output rendered files ≡ ok (entries, revision)
      → revision ≡ sha256_content_hash hex_sha256 rendered
  unfolding build_entries
  rendered_revision output rendered files entries revision n h =
      pick (if output =? output_rendered then true else output =? []) (rw n at h)
    where
      pick :
          (b : Bool)
          → ◌≡◌ {A = Result PublishError (List FileEntry × Bytes)}
              (if◌then◌else◌ {A = Result PublishError (List FileEntry × Bytes)} b
                (ok (
                  record { path = codes "rendered.json"; content = rendered } ∷ [],
                  sha256_content_hash hex_sha256 rendered,
                ))
                (err (unknown_output output)))
              (ok (entries, revision))
          → revision ≡ sha256_content_hash hex_sha256 rendered
      pick true k = cc
      pick false k = cc

  hash-full : (rendered : Bytes) → sha256_content_hash hex_sha256 rendered ≢ []
  unfolding sha256_content_hash
  hash-full rendered e = cc

  -- A revision that the call keeps, and that opened before the publish, opens after it.
  kept_opens :
      (p : Publisher) (snip : JsonnetSnippet) (entries : List FileEntry) (keep : List Bytes)
      (t u : ℕ) (r : PublishResult) (d d' : Disk) (a b : Bytes)
      → IsPublished fs ar laws hex_sha256 upsert p snip entries keep t u r d d'
      → In a keep
      → open_revision fs snip.namespace snip.name a d ≡ ok (ok b)
      → (c : Bytes) × (open_revision fs snip.namespace snip.name a d' ≡ ok (ok c))
  kept_opens p snip entries keep t u r d d' a b calls m before =
      let (key, held) = opened fs snip.namespace snip.name a b d before in
      let kept =
        prune-Keeps fs laws snip.namespace snip.name a (publish_keep r.revision keep) p.gc_grace u
          calls.stored (In-publish_keep r.revision a keep m) in
      let still : Keeps fs (artifact_path snip.namespace snip.name a) calls.stored d' =
        subst
          (λ o. Keeps fs (artifact_path snip.namespace snip.name a) calls.stored (final_state o))
          calls.pruned kept in
      elim (Bool-cases (
        artifact_path snip.namespace snip.name a
        =? artifact_path snip.namespace snip.name r.revision)) [
          | inl e ↦
              let (c, new, digest, size, path) =
                open_revision-put fs ar laws snip.namespace snip.name r.revision entries t calls.res
                  d calls.stored calls.put_done in
              let at : artifact_path snip.namespace snip.name r.revision
                  ≡ artifact_path snip.namespace snip.name a =
                sym (
                  =?_sound (artifact_path snip.namespace snip.name a)
                    (artifact_path snip.namespace snip.name r.revision) e) in
              let there : Holds fs (artifact_path snip.namespace snip.name a) c calls.stored =
                subst (λ q. Holds fs q c calls.stored) at
                  (opened fs snip.namespace snip.name r.revision c calls.stored new).1 in
              (c, opens fs snip.namespace snip.name a c d' key (still ∙ there))
          | inr e ↦
              let left =
                put_frame fs ar laws snip.namespace snip.name r.revision
                  (artifact_path snip.namespace snip.name a) entries t d (apart _ _ e)
                  (artifact_path-ne-tmp snip.namespace snip.name a r.revision) in
              let same : Keeps fs (artifact_path snip.namespace snip.name a) d calls.stored =
                subst (λ o. Keeps fs (artifact_path snip.namespace snip.name a) d (final_state o))
                  calls.put_done left in
              (b, opens fs snip.namespace snip.name a b d' key (still ∙ (same ∙ held)))
        ]

  -- Publishing the rendered output never takes away a revision that the status lists after it: with the
  -- keep-set that the reconciler builds from the history before, each revision of the history that is
  -- recorded after a publish that succeeds opens after the publish, if it opened before. For the source
  -- output, of which the revision is another hash than the one in the keep-set, nothing is stated.
  pub publish-recorded :
      (p : Publisher) (snip : JsonnetSnippet) (rendered : Bytes) (files : List (Bytes × Bytes))
      (prior : List RevisionEntry) (history now t u : ℕ) (r : PublishResult) (d d' : Disk)
      (a b : Bytes)
      → (snip.output =? output_source) ≡ false
      → publish fs ar hex_sha256 upsert p snip rendered files
          (build_keep_revisions (sha256_content_hash hex_sha256 rendered) prior history)
          t
          u
          d
        ≡ done r d'
      → In a (history_revisions (update_revision_history prior r.revision history now))
      → open_revision fs snip.namespace snip.name a d ≡ ok (ok b)
      → (c : Bytes) × (open_revision fs snip.namespace snip.name a d' ≡ ok (ok c))
  publish-recorded p snip rendered files prior history now t u r d d' a b n run m before =
      let (entries, built, sized, calls) =
        publish-IsPublished fs ar laws hex_sha256 upsert p snip rendered files _ t u r d d' run in
      let same = rendered_revision snip.output rendered files entries r.revision n built in
      let listed : In a (
          history_revisions
            (update_revision_history prior (sha256_content_hash hex_sha256 rendered) history now)) =
        subst (λ x. In a (history_revisions (update_revision_history prior x history now))) same
          m in
      kept_opens p snip entries _ t u r d d' a b calls
        (history_revisions-build_keep_revisions prior (sha256_content_hash hex_sha256 rendered)
          history now a (hash-full rendered) listed)
        before
