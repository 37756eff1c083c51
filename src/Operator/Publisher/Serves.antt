-- ===== src/Operator/Publisher/Serves.antt =====
-- What a publish that succeeds leaves in the store, and what the ExternalArtifact says of it.
use jaas.Prelude.{
  ℕ, ◌≡◌, refl, sym, ◌∙◌, subst, ap, Bool, true, Bool-cases, inl, inr, List, [], ◌∷◌, none,
  Option-cases, ok, Result-cases, Bytes, In, member, member_sound, length,
}
use jaas.Prelude.Action.{
  Outcome, done, failed, final_state, then_run_done, wrapped, wrapped_done, carry,
}
use jaas.Storage.FileSystem.{FileSystem, Archiver, FileEntry, FileSystemLaws, Keeps}
use jaas.Storage.Store.{PutResult, artifact_path, put, prune, open_revision, check_revision_key}
use jaas.Storage.Store.Describes.{open_revision-put}
use jaas.Storage.Store.Retention.{prune-Keeps}
use jaas.Operator.Objects.{JsonnetSnippet}
use jaas.Operator.Publisher.{
  PublishError, store_put_failed, store_prune_failed, upsert_failed, PublishResult, Publisher,
  publish_keep, url, build_entries, check_sizes, upserted, publish_entries, publish,
}

-- The revision that was published is among those that Publish keeps, and so is what the caller asked for.
pub publish_keep-new :
    (revision : Bytes) (keep : List Bytes) → In revision (publish_keep revision keep)
unfolding publish_keep
publish_keep-new revision [] = inl refl
publish_keep-new revision (k ∷ keep) = elim (Bool-cases (member revision (k ∷ keep))) [
  | inl e ↦ rw e (member_sound revision (k ∷ keep) e)
  | inr e ↦ rw e (inl refl)
]

pub In-publish_keep :
    (revision a : Bytes) (keep : List Bytes) → In a keep → In a (publish_keep revision keep)
unfolding publish_keep
In-publish_keep revision a [] m = absurd m
In-publish_keep revision a (k ∷ keep) m = elim (Bool-cases (member revision (k ∷ keep))) [
  | inl e ↦ rw e m
  | inr e ↦ rw e (inr m)
]

module _ (fs : FileSystem) where
  open fs use {Disk, open_file}

  -- Opening depends on the contents of the artifact alone.
  pub Keeps-open_revision :
      (namespace name revision : Bytes) (d d' : Disk)
      → Keeps fs (artifact_path namespace name revision) d d'
      → open_revision fs namespace name revision d' ≡ open_revision fs namespace name revision d
  unfolding open_revision
  Keeps-open_revision namespace name revision d d' k =
      elim (Option-cases (check_revision_key namespace name revision)) [
        | inl e ↦ rw (e, open_revision) (rw k refl)
        | inr (x, e) ↦ rw (e, open_revision) refl
      ]

module _ (fs : FileSystem) (ar : Archiver) (laws : FileSystemLaws fs) (hex_sha256 : Bytes → Bytes)
    (upsert : Bytes → PutResult → Bool) where
  open fs use {Disk}
  open ar use {sha256}

  upserted_done :
      (revision : Bytes) (res : PutResult) (d d' : Disk)
      → upserted fs ar hex_sha256 upsert revision res d ≡ done tt d'
      → (upsert revision res ≡ true) × (d ≡ d')
  upserted_done revision res d d' h = elim (Bool-cases (upsert revision res)) [
    | inl e ↦ (e, same (rw e at h))
    | inr e ↦ absurd (broken (rw e at h))
  ]
    where
      same : ◌≡◌ {A = Outcome Disk PublishError (Unit {0})} (done tt d) (done tt d') → d ≡ d'
      same k = cc

      broken :
          ¬ (◌≡◌ {A = Outcome Disk PublishError (Unit {0})} (failed upsert_failed d) (done tt d'))
      broken k = cc

  -- The calls of a publish that succeeds.
  pub record IsPublished (p : Publisher) (snip : JsonnetSnippet) (entries : List FileEntry)
      (keep : List Bytes) (t u : ℕ) (r : PublishResult) (d d' : Disk) : Type 0 where
    pub res : PutResult
    pub stored : Disk
    pub put_done : put fs ar snip.namespace snip.name r.revision entries t d ≡ done res stored
    pub told : upsert r.revision res ≡ true
    pub pruned :
        prune fs snip.namespace snip.name (publish_keep r.revision keep) p.gc_grace u stored
        ≡ done tt d'
    pub located : r.url ≡ url p.base_url res.path

  pub publish_entries-IsPublished :
      (p : Publisher) (snip : JsonnetSnippet) (entries : List FileEntry) (revision : Bytes)
      (keep : List Bytes) (t u : ℕ) (r : PublishResult) (d d' : Disk)
      → publish_entries fs ar hex_sha256 upsert p snip entries revision keep t u d ≡ done r d'
      → (r.revision ≡ revision) × IsPublished p snip entries keep t u r d d'
  unfolding publish_entries
  publish_entries-IsPublished p snip entries revision keep t u r d d' run =
      let (res, d1, puts, run1) =
        then_run_done
          (wrapped (put fs ar snip.namespace snip.name revision entries t d) store_put_failed) _
          run in
      let (_, d2, ups, run2) =
        then_run_done (upserted fs ar hex_sha256 upsert revision res d1) _ run1 in
      let (told, same) = upserted_done revision res d1 d2 ups in
      let (_, d3, prunes, run3) =
        then_run_done
          (wrapped (prune fs snip.namespace snip.name (publish_keep revision keep) p.gc_grace u d2)
            store_prune_failed)
          _ run2 in
      let pruned : prune fs snip.namespace snip.name (publish_keep revision keep) p.gc_grace u d1
          ≡ done tt d3 =
        subst
          (λ x.
            prune fs snip.namespace snip.name (publish_keep revision keep) p.gc_grace u x
            ≡ done tt d3)
          (sym same) (wrapped_done _ _ prunes) in
      carry (λ x y. (x.revision ≡ revision) × IsPublished p snip entries keep t u x d y)
        (
          refl,
          record {
            res = res;
            stored = d1;
            put_done = wrapped_done _ _ puts;
            told = told;
            pruned = pruned;
            located = refl;
          },
        )
        run3

  -- A publish that succeeds has built entries of a size that is allowed, and then made these calls.
  pub publish-IsPublished :
      (p : Publisher) (snip : JsonnetSnippet) (rendered : Bytes) (files : List (Bytes × Bytes))
      (keep : List Bytes) (t u : ℕ) (r : PublishResult) (d d' : Disk)
      → publish fs ar hex_sha256 upsert p snip rendered files keep t u d ≡ done r d'
      → (entries : List FileEntry) × (build_entries hex_sha256 snip.output rendered files
          ≡ ok (entries, r.revision))
        × (check_sizes p.max_artifact_bytes 0 entries ≡ none)
        × IsPublished p snip entries keep t u r d d'
  unfolding publish
  publish-IsPublished p snip rendered files keep t u r d d' run = elim (Bool-cases p.wired) [
    | inr e ↦ absurd (broken (simp e at run))
    | inl e ↦ elim (Result-cases (build_entries hex_sha256 snip.output rendered files)) [
      | inr (x, b) ↦ absurd (broken (simp (e, b) at run))
      | inl ((entries, revision), b) ↦
          elim (Option-cases (check_sizes p.max_artifact_bytes 0 entries)) [
            | inr (x, c) ↦ absurd (broken (simp (e, b, c) at run))
            | inl c ↦
                let (same, calls) =
                  publish_entries-IsPublished p snip entries revision keep t u r d d'
                    (simp (e, b, c) at run) in
                (entries, b ∙ ap (λ x. ok (entries, x)) (sym same), c, calls)
          ]
    ]
  ]
    where
      broken :
          {x : PublishError}
          → ¬ (◌≡◌ {A = Outcome Disk PublishError PublishResult} (failed x d) (done r d'))
      broken k = cc

  -- After a publish that succeeds, opening its revision gives bytes, and the result that was written to the
  -- ExternalArtifact with that revision describes exactly them: their digest, their number and the path,
  -- under which the URL of the status finds them. The prune of the same publish does not touch them.
  pub open_revision-publish :
      (p : Publisher) (snip : JsonnetSnippet) (rendered : Bytes) (files : List (Bytes × Bytes))
      (keep : List Bytes) (t u : ℕ) (r : PublishResult) (d d' : Disk)
      → publish fs ar hex_sha256 upsert p snip rendered files keep t u d ≡ done r d'
      → (b : Bytes) × (res : PutResult) × (open_revision fs snip.namespace snip.name r.revision d'
          ≡ ok (ok b))
        × (upsert r.revision res ≡ true)
        × (res.digest_sha256 ≡ sha256 b)
        × (res.size_bytes ≡ length b)
        × (r.url ≡ url p.base_url (artifact_path snip.namespace snip.name r.revision))
  open_revision-publish p snip rendered files keep t u r d d' run =
      let (entries, built, sized, calls) =
        publish-IsPublished p snip rendered files keep t u r d d' run in
      let (b, opens, digest, size, path) =
        open_revision-put fs ar laws snip.namespace snip.name r.revision entries t calls.res d
          calls.stored calls.put_done in
      let kept =
        prune-Keeps fs laws snip.namespace snip.name r.revision (publish_keep r.revision keep)
          p.gc_grace u calls.stored (publish_keep-new r.revision keep) in
      let still : Keeps fs (artifact_path snip.namespace snip.name r.revision) calls.stored d' =
        subst
          (λ o.
            Keeps fs (artifact_path snip.namespace snip.name r.revision) calls.stored
              (final_state o))
          calls.pruned kept in
      (
        b,
        calls.res,
        Keeps-open_revision fs snip.namespace snip.name r.revision calls.stored d' still ∙ opens,
        calls.told,
        digest,
        size,
        calls.located ∙ ap (url p.base_url) path,
      )
