-- ===== src/Storage/Store/Failure.antt =====
-- What a failed put leaves on the disk.
use jaas.Prelude.{ℕ, ◌≡◌, refl, sym, ◌∙◌, subst, inl, inr, List, ◌++◌, Bytes, Option-cases}
use jaas.Prelude.Action.{
  Outcome, failed, cleaned_done, not_done, wrapped_done, then_run_failed, either_failed, pure,
  cleaned, ignoring, cleaned_failed, wrapped_failed, wrapped, dropped, Leaves-dropped,
  Leaves-final_state, final_state-Leaves, final_state, Leaves-done, Leaves-failed,
}
use jaas.Storage.FileSystem.{FileSystem, Archiver, FileEntry, FileSystemLaws, Keeps}
use jaas.Storage.Key.{tmp_suffix}
use jaas.Storage.Archive.{StoreError, mkdir_failed, rename_failed}
use jaas.Storage.Store.Frame.{path-ne-tmp, republish-Leaves, written-Leaves}
use jaas.Storage.Store.{
  join, check_revision_key, existing, open_revision, write_new, install, put_locked, place, put,
}

module _ (fs : FileSystem) (ar : Archiver) (laws : FileSystemLaws fs) where
  open fs use {Disk, stat, open_file, chtimes, remove, rename}
  open ar use {sha256}

  undo_frame :
      (rel : Bytes) (d d' : Disk)
      → final_state (dropped {F = StoreError} (remove (rel ++ tmp_suffix) d)) ≡ d'
      → Keeps fs rel d d'
  undo_frame rel d d' e = subst (Keeps fs rel d) e (
      Leaves-final_state {P = Keeps fs rel d} (
        Leaves-dropped {F = StoreError} (
          final_state-Leaves _ (remove (rel ++ tmp_suffix) d)
            (laws.remove_frame (rel ++ tmp_suffix) rel d (path-ne-tmp rel)))))

  install_failed :
      (rel : Bytes) (r : Bytes × ℕ) (x : StoreError) (d d' : Disk)
      → install fs ar rel r d ≡ failed x d'
      → Keeps fs rel d d'
  unfolding install
  install_failed rel r x d d' run =
      either_failed {o = moved}
        {f = λ _. pure (record { path = rel; size_bytes = r.1; digest_sha256 = r.0 })} run
        (λ unmoved.
          let (d2, w, u) = cleaned_failed _ _ unmoved in
          let (e, m) = wrapped_failed _ _ w in
          undo_frame rel d2 d' u ∙ laws.rename_failed (rel ++ tmp_suffix) rel e d d2 m)
        (λ _ d2 _ last. absurd (not_done (sym last)))
    where
      moved : Outcome Disk StoreError (Unit {0})
      moved =
          cleaned (wrapped (rename (rel ++ tmp_suffix) rel d) rename_failed)
            (ignoring (remove (rel ++ tmp_suffix)))

  write_new_failed :
      (rel : Bytes) (entries : List FileEntry) (x : StoreError) (d d' : Disk)
      → write_new fs ar rel entries d ≡ failed x d'
      → Keeps fs rel d d'
  unfolding write_new
  write_new_failed rel entries x d d' run =
      let writes = written-Leaves fs ar laws rel rel entries d d (path-ne-tmp rel) refl in
      either_failed run
        (λ unwritten.
          let (d1, w, u) = cleaned_failed _ _ unwritten in
          undo_frame rel d1 d' u ∙ Leaves-failed writes w)
        (λ r d1 written rest.
          install_failed rel r x d1 d' rest ∙ Leaves-done writes (cleaned_done _ _ written))

  place_failed :
      (dir file : Bytes) (entries : List FileEntry) (now : ℕ) (x : StoreError) (d d' : Disk)
      → place fs ar dir file entries now d ≡ failed x d'
      → Keeps fs (join dir file) d d'
  unfolding place
  place_failed dir file entries now x d d' run =
      elim (Option-cases (existing fs (join dir file) d)) [
        | inl e ↦ write_new_failed (join dir file) entries x d d' (rw (e, place) at run)
        | inr (info, e) ↦
            Leaves-failed
              (republish-Leaves fs ar laws dir file (join dir file) (join dir file) info now d d
                refl)
              (rw (e, place) at run)
      ]

  put_locked_failed :
      (dir file : Bytes) (entries : List FileEntry) (now : ℕ) (x : StoreError) (d d' : Disk)
      → put_locked fs ar dir file entries now d ≡ failed x d'
      → Keeps fs (join dir file) d d'
  unfolding put_locked
  put_locked_failed dir file entries now x d d' run =
      let made =
        final_state-Leaves (Keeps fs (join dir file) d) (fs.mkdir_all dir d)
          (laws.mkdir_frame dir (join dir file) d) in
      elim (then_run_failed (wrapped (fs.mkdir_all dir d) mkdir_failed)
        (λ _. place fs ar dir file entries now) run) [
          | inl unmade ↦ let (e, m) = wrapped_failed _ _ unmade in Leaves-failed made m
          | inr (_, d1, m, rest) ↦
              place_failed dir file entries now x d1 d' rest ∙ Leaves-done made (wrapped_done _ _ m)
        ]

  -- A put that fails leaves the published artifact of that revision as it was.
  pub put_failed :
      (namespace name revision : Bytes) (entries : List FileEntry) (now : ℕ) (x : StoreError)
      (d d' : Disk)
      → put fs ar namespace name revision entries now d ≡ failed x d'
      → open_revision fs namespace name revision d' ≡ open_revision fs namespace name revision d
  unfolding put open_revision
  put_failed namespace name revision entries now x d d' run =
      elim (Option-cases (check_revision_key namespace name revision)) [
        | inr (y, e) ↦ rw (e, open_revision) refl
        | inl e ↦
            rw (e, open_revision)
              (rw
                (put_locked_failed (join namespace name) _ entries now x d d' (rw (e, put) at run))
                refl)
      ]
