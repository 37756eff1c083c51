-- ===== src/Storage/Store/Describes.antt =====
-- What a successful put leaves on the disk, and what its result says of it.
use jaas.Prelude.{
  ℕ, ◌≡◌, refl, ◌∙◌, inl, inr, List, ◌++◌, none, some, Bytes, Result, ok, err, length, arith,
  Option-cases, Result-cases,
}
use jaas.Prelude.Action.{
  done, then_run_done, cleaned_done, not_done, wrapped_done, carry, wrapped, Leaves-done,
}
use jaas.Storage.FileSystem.{FileSystem, Archiver, FileEntry, FileSystemLaws, Holds, Fault, Info}
use jaas.Storage.Key.{tmp_suffix}
use jaas.Storage.Archive.{open_failed, read_failed, mkdir_failed}
use jaas.Storage.Archive.Stream.{write_tar_gz-Holds}
use jaas.Storage.Store.Frame.{bump-Leaves}
use jaas.Storage.Store.{
  PutResult, join, artifact_path, check_revision_key, existing, open_revision, digest_of, revive,
  republish, write_new, install, put_locked, place, put,
}

module _ (fs : FileSystem) (ar : Archiver) (laws : FileSystemLaws fs) where
  open fs use {Disk, stat, open_file, chtimes, remove, rename}
  open ar use {sha256}

  digest_of-Holds :
      (rel g : Bytes) (d : Disk)
      → digest_of fs ar rel d ≡ ok g
      → (b : Bytes) × Holds fs rel b d × (g ≡ sha256 b)
  unfolding digest_of
  digest_of-Holds rel g d h = go (open_file rel d) refl h
    where
      go :
          (o : Result Fault (Result Fault Bytes))
          → open_file rel d ≡ o
          → (elim o [
            | err e ↦ err (open_failed e)
            | ok r ↦ elim r [ err e ↦ err (read_failed e) | ok b ↦ ok (sha256 b) ]
          ])
            ≡ ok g
          → (b : Bytes) × Holds fs rel b d × (g ≡ sha256 b)
      go (err e) o k = cc
      go (ok (err e)) o k = cc
      go (ok (ok b)) o k = (b, o, cc)

  -- What the result of a put says of the stored bytes.
  abbrev pub Describes : Bytes → PutResult → Disk → Type 0
  Describes rel r d =
      (b : Bytes) × Holds fs rel b d
      × (r.digest_sha256 ≡ sha256 b)
      × (r.size_bytes ≡ length b)
      × (r.path ≡ rel)

  install-Describes :
      (rel b : Bytes) (w : Bytes × ℕ) (r : PutResult) (d d' : Disk)
      → Holds fs (rel ++ tmp_suffix) b d
      → w.0 ≡ sha256 b
      → w.1 ≡ length b
      → install fs ar rel w d ≡ done r d'
      → Describes rel r d'
  unfolding install
  install-Describes rel b w r d d' held digest size run =
      let (_, d2, renamed, last) = then_run_done _ _ run in
      let moved =
        laws.renamed (rel ++ tmp_suffix) rel b d d2 held
          (wrapped_done _ _ (cleaned_done _ _ renamed)) in
      carry (Describes rel) (b, moved, digest, size, refl) last

  write_new-Describes :
      (rel : Bytes) (entries : List FileEntry) (r : PutResult) (d d' : Disk)
      → write_new fs ar rel entries d ≡ done r d'
      → Describes rel r d'
  unfolding write_new
  write_new-Describes rel entries r d d' run =
      let (w, d1, written, rest) = then_run_done _ _ run in
      let (b, held, digest, size) =
        write_tar_gz-Holds fs ar laws (rel ++ tmp_suffix) entries w d d1
          (cleaned_done _ _ written) in
      install-Describes rel b w r d1 d' held digest size rest

  revive-Describes :
      (dir file rel b : Bytes) (info : Info) (now : ℕ) (r : PutResult) (d d' : Disk)
      → Holds fs rel b d
      → info.size ≡ length b
      → revive fs ar dir file rel info now (sha256 b) d ≡ done r d'
      → Describes rel r d'
  unfolding revive
  revive-Describes dir file rel b info now r d d' held size run =
      let (_, d1, bumped, last) = then_run_done _ _ run in
      let kept = Leaves-done (bump-Leaves fs ar laws dir file rel rel info now d d refl) bumped in
      carry (Describes rel) (b, kept ∙ held, refl, size, refl) last

  republish-Describes :
      (dir file rel : Bytes) (info : Info) (now : ℕ) (r : PutResult) (d d' : Disk)
      → stat rel d ≡ ok info
      → republish fs ar dir file rel info now d ≡ done r d'
      → Describes rel r d'
  unfolding republish
  republish-Describes dir file rel info now r d d' st run =
      elim (Result-cases (digest_of fs ar rel d)) [
        | inr (x, e) ↦ absurd (not_done (rw (e, republish) at run))
        | inl (digest, e) ↦
            let (b, held, g) = digest_of-Holds rel digest d e in
            revive-Describes dir file rel b info now r d d' held (laws.sized rel b info d held st)
              (rw (e, g, republish) at run)
      ]

  existing-stat :
      (rel : Bytes) (info : Info) (d : Disk) → existing fs rel d ≡ some info → stat rel d ≡ ok info
  unfolding existing
  existing-stat rel info d h = ground arith

  place-Describes :
      (dir file : Bytes) (entries : List FileEntry) (now : ℕ) (r : PutResult) (d d' : Disk)
      → place fs ar dir file entries now d ≡ done r d'
      → Describes (join dir file) r d'
  unfolding place
  place-Describes dir file entries now r d d' run =
      elim (Option-cases (existing fs (join dir file) d)) [
        | inl e ↦ write_new-Describes (join dir file) entries r d d' (rw (e, place) at run)
        | inr (info, e) ↦
            republish-Describes dir file (join dir file) info now r d d' (existing-stat _ info d e)
              (rw (e, place) at run)
      ]

  put_locked-Describes :
      (dir file : Bytes) (entries : List FileEntry) (now : ℕ) (r : PutResult) (d d' : Disk)
      → put_locked fs ar dir file entries now d ≡ done r d'
      → Describes (join dir file) r d'
  unfolding put_locked
  put_locked-Describes dir file entries now r d d' run =
      let (_, d1, made, rest) =
        then_run_done (wrapped (fs.mkdir_all dir d) mkdir_failed)
          (λ _. place fs ar dir file entries now) run in
      place-Describes dir file entries now r d1 d' rest

  put_checked :
      (namespace name revision : Bytes) (entries : List FileEntry) (now : ℕ) (r : PutResult)
      (d d' : Disk)
      → put fs ar namespace name revision entries now d ≡ done r d'
      → (check_revision_key namespace name revision ≡ none)
        × Describes (artifact_path namespace name revision) r d'
  unfolding put
  put_checked namespace name revision entries now r d d' run =
      elim (Option-cases (check_revision_key namespace name revision)) [
        | inr (x, e) ↦ absurd (not_done (rw (e, put) at run))
        | inl e ↦ (
          e,
          put_locked-Describes (join namespace name) _ entries now r d d' (rw (e, put) at run),
        )
      ]

  -- After a successful put the revision opens, and the result tells the truth about the bytes that
  -- are read: their digest, their number and the path they are at.
  pub open_revision-put :
      (namespace name revision : Bytes) (entries : List FileEntry) (now : ℕ) (r : PutResult)
      (d d' : Disk)
      → put fs ar namespace name revision entries now d ≡ done r d'
      → (b : Bytes) × (open_revision fs namespace name revision d' ≡ ok (ok b))
        × (r.digest_sha256 ≡ sha256 b)
        × (r.size_bytes ≡ length b)
        × (r.path ≡ artifact_path namespace name revision)
  unfolding open_revision
  open_revision-put namespace name revision entries now r d d' run =
      let (checked, (b, held, digest, size, path)) =
        put_checked namespace name revision entries now r d d' run in
      (b, rw (checked, held, open_revision) refl, digest, size, path)
