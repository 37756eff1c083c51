-- ===== src/Storage/Store/Frame.antt =====
-- The files whose contents put leaves alone.
use jaas.Prelude.{
  ℕ, ◌≡◌, ◌≢◌, refl, ◌∙◌, ap, subst, inl, inr, Bool-cases, List, ◌++◌, some, Bytes, length,
  length-append, arith, Option-cases, Result-cases,
}
use jaas.Prelude.Action.{
  done, dropped, Leaves, by_done, by_failed, Leaves-then_run, Leaves-cleaned, Leaves-wrapped,
  Leaves-dropped, Leaves-final_state, final_state-Leaves, final_state,
}
use jaas.Storage.FileSystem.{FileSystem, Archiver, FileEntry, FileSystemLaws, Keeps, Info}
use jaas.Storage.Key.{tmp_suffix}
use jaas.Storage.Archive.{StoreError, write_tar_gz}
use jaas.Storage.Archive.Frame.{IsKept, write_tar_gz-Leaves}
use jaas.Storage.Store.{
  join, artifact_path, check_revision_key, existing, digest_of, revive, republish, write_new,
  install, put_locked, place, put, has_newer_sibling, bump,
}

pub path-ne-tmp : (rel : Bytes) → rel ≢ rel ++ tmp_suffix
path-ne-tmp rel e = omega (arith, ap length e, length-append rel tmp_suffix)

module _ (fs : FileSystem) (ar : Archiver) (laws : FileSystemLaws fs) where
  open fs use {Disk, stat, open_file, chtimes, remove, rename}
  open ar use {sha256}

  -- Another file than `p` keeps its contents under every call on `p`.
  others-IsKept : (p q : Bytes) (d0 : Disk) → q ≢ p → IsKept fs ar p (Keeps fs q d0)
  others-IsKept p q d0 n = record {
    by_create = λ d k. final_state-Leaves _ _ (laws.create_frame p q d n ∙ k);
    by_append = λ chunk d k. final_state-Leaves _ _ (laws.append_frame p chunk q d n ∙ k);
    by_close = λ d k. final_state-Leaves _ _ (laws.close_frame p q d n ∙ k);
  }

  undo-Leaves :
      (rel q : Bytes) (d0 d : Disk)
      → q ≢ rel ++ tmp_suffix
      → Keeps fs q d0 d
      → Leaves {E = StoreError} (Keeps fs q d0) (dropped (remove (rel ++ tmp_suffix) d))
  undo-Leaves rel q d0 d n k = Leaves-dropped (
      final_state-Leaves _ (remove (rel ++ tmp_suffix) d)
        (laws.remove_frame (rel ++ tmp_suffix) q d n ∙ k))

  install-Leaves :
      (rel q : Bytes) (r : Bytes × ℕ) (d0 d : Disk)
      → q ≢ rel
      → q ≢ rel ++ tmp_suffix
      → Keeps fs q d0 d
      → Leaves (Keeps fs q d0) (install fs ar rel r d)
  unfolding install
  install-Leaves rel q r d0 d n n' h =
      Leaves-then_run
        (Leaves-cleaned
          (Leaves-wrapped _ (
            final_state-Leaves _ (rename (rel ++ tmp_suffix) rel d)
              (laws.rename_frame (rel ++ tmp_suffix) rel q d n' n ∙ h)))
          (λ d1 k. undo-Leaves rel q d0 d1 n' k))
        (λ _ d2 l. by_done l)

  pub written-Leaves :
      (rel q : Bytes) (entries : List FileEntry) (d0 d : Disk)
      → q ≢ rel ++ tmp_suffix
      → Keeps fs q d0 d
      → Leaves (Keeps fs q d0) (write_tar_gz fs ar (rel ++ tmp_suffix) entries d)
  written-Leaves rel q entries d0 d n h =
      write_tar_gz-Leaves fs ar (rel ++ tmp_suffix) (Keeps fs q d0)
        (others-IsKept (rel ++ tmp_suffix) q d0 n) entries d h

  -- The write of a new artifact: other files are kept.
  write_new-Leaves :
      (rel q : Bytes) (entries : List FileEntry) (d0 d : Disk)
      → q ≢ rel
      → q ≢ rel ++ tmp_suffix
      → Keeps fs q d0 d
      → Leaves (Keeps fs q d0) (write_new fs ar rel entries d)
  unfolding write_new
  write_new-Leaves rel q entries d0 d n n' h =
      Leaves-then_run
        (Leaves-cleaned (written-Leaves rel q entries d0 d n' h)
          (λ d1 k. undo-Leaves rel q d0 d1 n' k))
        (λ r d1 k. install-Leaves rel q r d0 d1 n n' k)

  -- The revert bump changes a time, and no file's contents.
  pub bump-Leaves :
      (dir file rel q : Bytes) (info : Info) (now : ℕ) (d0 d : Disk)
      → Keeps fs q d0 d
      → Leaves (Keeps fs q d0) (bump fs ar dir file rel info now d)
  unfolding bump
  bump-Leaves dir file rel q info now d0 d h =
      elim (Bool-cases (has_newer_sibling fs dir file info.mod_time d)) [
        | inl revert ↦ rw revert (
            Leaves-dropped
              (final_state-Leaves _ (chtimes rel now d) (laws.chtimes_frame rel q now d ∙ h)))
        | inr newest ↦ rw newest (by_done h)
      ]

  pub revive-Leaves :
      (dir file rel q : Bytes) (info : Info) (now : ℕ) (digest : Bytes) (d0 d : Disk)
      → Keeps fs q d0 d
      → Leaves (Keeps fs q d0) (revive fs ar dir file rel info now digest d)
  unfolding revive
  revive-Leaves dir file rel q info now digest d0 d h =
      Leaves-then_run (bump-Leaves dir file rel q info now d0 d h) (λ _ d1 k. by_done k)

  pub republish-Leaves :
      (dir file rel q : Bytes) (info : Info) (now : ℕ) (d0 d : Disk)
      → Keeps fs q d0 d
      → Leaves (Keeps fs q d0) (republish fs ar dir file rel info now d)
  unfolding republish
  republish-Leaves dir file rel q info now d0 d h = elim (Result-cases (digest_of fs ar rel d)) [
    | inl (digest, e) ↦ rw (e, republish) (revive-Leaves dir file rel q info now digest d0 d h)
    | inr (x, e) ↦ rw (e, republish) (by_failed h)
  ]

  place-Leaves :
      (dir file q : Bytes) (entries : List FileEntry) (now : ℕ) (d0 d : Disk)
      → q ≢ join dir file
      → q ≢ join dir file ++ tmp_suffix
      → Keeps fs q d0 d
      → Leaves (Keeps fs q d0) (place fs ar dir file entries now d)
  unfolding place
  place-Leaves dir file q entries now d0 d n n' h =
      elim (Option-cases (existing fs (join dir file) d)) [
        | inl e ↦ rw (e, place) (write_new-Leaves (join dir file) q entries d0 d n n' h)
        | inr (info, e) ↦
            rw (e, place) (republish-Leaves dir file (join dir file) q info now d0 d h)
      ]

  put_locked-Leaves :
      (dir file q : Bytes) (entries : List FileEntry) (now : ℕ) (d : Disk)
      → ((d1 : Disk)
          → Keeps fs q d d1
          → Leaves (Keeps fs q d) (place fs ar dir file entries now d1))
      → Leaves (Keeps fs q d) (put_locked fs ar dir file entries now d)
  unfolding put_locked
  put_locked-Leaves dir file q entries now d placed =
      Leaves-then_run
        (Leaves-wrapped _ (final_state-Leaves _ (fs.mkdir_all dir d) (laws.mkdir_frame dir q d)))
        (λ _ d1 k. placed d1 k)

  put-Leaves :
      (namespace name revision q : Bytes) (entries : List FileEntry) (now : ℕ) (d : Disk)
      → q ≢ artifact_path namespace name revision
      → q ≢ artifact_path namespace name revision ++ tmp_suffix
      → Leaves (Keeps fs q d) (put fs ar namespace name revision entries now d)
  unfolding put
  put-Leaves namespace name revision q entries now d n n' =
      elim (Option-cases (check_revision_key namespace name revision)) [
        | inr (x, e) ↦ rw (e, put) (by_failed refl)
        | inl e ↦
            rw (e, put)
              (put_locked-Leaves (join namespace name) _ q entries now d
                (λ d1 k. place-Leaves (join namespace name) _ q entries now d d1 n n' k))
      ]

  -- Whatever way put ends, it changes the contents of no file but the artifact of that revision and
  -- the temporary file beside it.
  pub put_frame :
      (namespace name revision q : Bytes) (entries : List FileEntry) (now : ℕ) (d : Disk)
      → q ≢ artifact_path namespace name revision
      → q ≢ artifact_path namespace name revision ++ tmp_suffix
      → Keeps fs q d (final_state (put fs ar namespace name revision entries now d))
  put_frame namespace name revision q entries now d n n' =
      Leaves-final_state (put-Leaves namespace name revision q entries now d n n')

  place-existing-Leaves :
      (dir file q : Bytes) (entries : List FileEntry) (now : ℕ) (info : Info) (d0 d : Disk)
      → existing fs (join dir file) d ≡ some info
      → Keeps fs q d0 d
      → Leaves (Keeps fs q d0) (place fs ar dir file entries now d)
  unfolding place
  place-existing-Leaves dir file q entries now info d0 d there h =
      rw (there, place) (republish-Leaves dir file (join dir file) q info now d0 d h)

  -- The disk that MkdirAll leaves has the revision.
  put_twice-Leaves :
      (namespace name revision q : Bytes) (entries : List FileEntry) (now : ℕ) (info : Info)
      (d d1 : Disk)
      → fs.mkdir_all (join namespace name) d ≡ done tt d1
      → existing fs (artifact_path namespace name revision) d1 ≡ some info
      → Leaves (Keeps fs q d) (put fs ar namespace name revision entries now d)
  unfolding put put_locked
  put_twice-Leaves namespace name revision q entries now info d d1 made there =
      let kept : Keeps fs q d d1 =
        subst (λ o. Keeps fs q d (final_state o)) made
          (laws.mkdir_frame (join namespace name) q d) in
      elim (Option-cases (check_revision_key namespace name revision)) [
        | inr (x, e) ↦ rw (e, put) (by_failed refl)
        | inl e ↦
            rw (e, put, made, put_locked)
              (place-existing-Leaves (join namespace name) _ q entries now info d d1 there kept)
      ]

  -- Where MkdirAll succeeds, publishing a revision that is on disk already changes the contents of no
  -- file: the new entries are not written.
  pub put_twice :
      (namespace name revision q : Bytes) (entries : List FileEntry) (now : ℕ) (info : Info)
      (d d1 : Disk)
      → fs.mkdir_all (join namespace name) d ≡ done tt d1
      → existing fs (artifact_path namespace name revision) d1 ≡ some info
      → Keeps fs q d (final_state (put fs ar namespace name revision entries now d))
  put_twice namespace name revision q entries now info d d1 made there =
      Leaves-final_state
        (put_twice-Leaves namespace name revision q entries now info d d1 made there)
