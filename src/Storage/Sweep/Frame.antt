-- ===== src/Storage/Sweep/Frame.antt =====
-- Sweep removes residue and nothing else.
use jaas.Prelude.{
  ℕ, ◌+◌, ◌≡◌, ◌≢◌, refl, sym, ap, ◌∙◌, arith, Bool, true, false, Bool-cases, Option-cases,
  Result-cases, inl, inr, List, [], ◌∷◌, ◌++◌, Bytes, codes, ltb, if◌then◌else◌, Result, ok, err,
  append_assoc,
}
use jaas.Prelude.Action.{Outcome, done, failed, final_state}
use jaas.Prelude.Text.{has_suffix, trim_suffix, trim_suffix_sound, replace_all}
use jaas.Storage.FileSystem.{FileSystem, FileSystemLaws, Keeps, Fault, not_exist, other_fault}
use jaas.Storage.Key.{revision_filename, archive_suffix, tmp_suffix}
use jaas.Storage.Store.{join, artifact_path, check_revision_key, open_revision}
use jaas.Storage.Sweep.{
  Tally, nothing, root, is_residue, count, sweep_file, sweep_files, sweep_key, sweep_names,
  sweep_listed, sweep_namespace, sweep_namespaces, sweep,
}

-- The last byte of a text, or another one for the empty text.
last : ℕ → Bytes → ℕ
last b [] = b
last b (c ∷ s) = last c s

last-append : (b c : ℕ) (s t : Bytes) → last b (s ++ c ∷ t) ≡ last c t
unfolding last
last-append b c [] t = refl
last-append b c (x ∷ s) t = last-append x c s t

residue_suffix :
    (f : Bytes)
    → is_residue f ≡ true
    → f ≡ trim_suffix f (archive_suffix ++ tmp_suffix) ++ (archive_suffix ++ tmp_suffix)
unfolding is_residue
residue_suffix f h = elim (Bool-cases (has_suffix f (archive_suffix ++ tmp_suffix))) [
  | inl e ↦ trim_suffix_sound f (archive_suffix ++ tmp_suffix) e
  | inr e ↦ let bad : false ≡ true = rw e at h in cc
]

-- No artifact stands at a path that Sweep may remove.
artifact_path_ne :
    (namespace name revision dir f : Bytes)
    → is_residue f ≡ true
    → artifact_path namespace name revision ≢ join dir f
unfolding revision_filename last
artifact_path_ne namespace name revision dir f h e =
    let text = replace_all revision b':' b'-' in
    let front : last 0 (artifact_path namespace name revision) ≡ 122 =
      ap (last 0) (sym (append_assoc (join namespace name) (b'/' ∷ text) archive_suffix))
      ∙ last-append 0 b'.' (join namespace name ++ b'/' ∷ text) (codes "tar.gz") in
    let back : last 0 (join dir f) ≡ 112 =
      ap (λ g. last 0 (join dir g)) (residue_suffix f h)
      ∙ ap (last 0) (
          sym (
            append_assoc dir (b'/' ∷ trim_suffix f (archive_suffix ++ tmp_suffix))
              (archive_suffix ++ tmp_suffix)))
      ∙ last-append 0 b'.' (dir ++ b'/' ∷ trim_suffix f (archive_suffix ++ tmp_suffix))
          (codes "tar.gz.tmp") in
    omega (arith, front, back, ap (last 0) e)

module _ (fs : FileSystem) (laws : FileSystemLaws fs) (now max_tmp_age : ℕ) (q : Bytes)
    (apart : (dir f : Bytes) → is_residue f ≡ true → q ≢ join dir f) where
  open fs use {Disk, remove, stat, read_dir_names}

  count-Keeps :
      (full : Bytes) (t : Tally) (d0 : Disk) (o : Outcome Disk Fault (Unit {0}))
      → Keeps fs q d0 (final_state o)
      → Keeps fs q d0 (count fs now max_tmp_age full t o).1
  unfolding count
  count-Keeps full t d0 (done tt d) h = h
  count-Keeps full t d0 (failed e d) h = h

  sweep_file-Keeps :
      (dir : Bytes) (t : Tally) (d0 d : Disk) (f : Bytes)
      → Keeps fs q d0 d
      → Keeps fs q d0 (sweep_file fs now max_tmp_age dir t d f).1
  unfolding sweep_file
  sweep_file-Keeps dir t d0 d f h = elim (Bool-cases (is_residue f)) [
    | inr foreign ↦ rw (foreign, sweep_file) h
    | inl residue ↦ elim (Result-cases (stat (join dir f) d)) [
      | inr (x, e) ↦ rw (residue, e, sweep_file) h
      | inl (info, e) ↦ elim (Bool-cases (ltb now (info.mod_time + max_tmp_age))) [
        | inl young ↦ rw (residue, e, young, sweep_file) h
        | inr old ↦
            rw (residue, e, old, sweep_file)
              (count-Keeps (join dir f) t d0 _
                (laws.remove_frame (join dir f) q d (apart dir f residue) ∙ h))
      ]
    ]
  ]

  sweep_files-Keeps :
      (dir : Bytes) (files : List Bytes) (d0 : Disk) (at : Tally × Disk)
      → Keeps fs q d0 at.1
      → Keeps fs q d0 (sweep_files fs now max_tmp_age dir files at).1
  unfolding sweep_files
  sweep_files-Keeps dir [] d0 at h = h
  sweep_files-Keeps dir (f ∷ files) d0 (t, d) h =
      sweep_files-Keeps dir files d0 _ (sweep_file-Keeps dir t d0 d f h)

  sweep_key-Keeps :
      (dir : Bytes) (d0 : Disk) (at : Tally × Disk)
      → Keeps fs q d0 at.1
      → Keeps fs q d0 (sweep_key fs now max_tmp_age dir at).1
  unfolding sweep_key
  sweep_key-Keeps dir d0 (t, d) h = elim (Result-cases (read_dir_names dir d)) [
    | inr (x, e) ↦ rw (e, sweep_key) h
    | inl (files, e) ↦ rw (e, sweep_key) (sweep_files-Keeps dir files d0 (t, d) h)
  ]

  either-Keeps :
      (d0 : Disk) (b : Bool) (x y : Tally × Disk)
      → Keeps fs q d0 x.1
      → Keeps fs q d0 y.1
      → Keeps fs q d0 (if b then x else y).1
  either-Keeps d0 true x y h k = h
  either-Keeps d0 false x y h k = k

  sweep_names-Keeps :
      (ns : Bytes) (names : List Bytes) (d0 : Disk) (at : Tally × Disk)
      → Keeps fs q d0 at.1
      → Keeps fs q d0 (sweep_names fs now max_tmp_age ns names at).1
  unfolding sweep_names
  sweep_names-Keeps ns [] d0 at h = h
  sweep_names-Keeps ns (name ∷ names) d0 (t, d) h =
      sweep_names-Keeps ns names d0 _
        (either-Keeps d0 _ _ (t, d) (sweep_key-Keeps (join ns name) d0 (t, d) h) h)

  sweep_listed-Keeps :
      (ns : Bytes) (d0 : Disk) (t : Tally) (d : Disk)
      → Keeps fs q d0 d
      → Keeps fs q d0 (sweep_listed fs now max_tmp_age ns (t, d)).1
  unfolding sweep_listed
  sweep_listed-Keeps ns d0 t d h = elim (Result-cases (read_dir_names ns d)) [
    | inr (x, e) ↦ rw (e, sweep_listed) h
    | inl (names, e) ↦ rw (e, sweep_listed) (sweep_names-Keeps ns names d0 (t, d) h)
  ]

  sweep_namespace-Keeps :
      (ns : Bytes) (d0 : Disk) (at : Tally × Disk)
      → Keeps fs q d0 at.1
      → Keeps fs q d0 (sweep_namespace fs now max_tmp_age ns at).1
  unfolding sweep_namespace
  sweep_namespace-Keeps ns d0 (t, d) h =
      either-Keeps d0 _ (t, d) _ h (sweep_listed-Keeps ns d0 t d h)

  sweep_namespaces-Keeps :
      (namespaces : List Bytes) (d0 : Disk) (at : Tally × Disk)
      → Keeps fs q d0 at.1
      → Keeps fs q d0 (sweep_namespaces fs now max_tmp_age namespaces at).1
  unfolding sweep_namespaces
  sweep_namespaces-Keeps [] d0 at h = h
  sweep_namespaces-Keeps (ns ∷ namespaces) d0 at h =
      sweep_namespaces-Keeps namespaces d0 _ (sweep_namespace-Keeps ns d0 at h)

  -- Sweep touches no file but the temporary files of the store's own artifacts.
  pub sweep-Keeps : (d : Disk) → Keeps fs q d (sweep fs now max_tmp_age d).1
  unfolding sweep
  sweep-Keeps d = go (read_dir_names root d) refl
    where
      go :
          (r : Result Fault (List Bytes))
          → read_dir_names root d ≡ r
          → Keeps fs q d (sweep fs now max_tmp_age d).1
      go (err not_exist) e = rw (e, sweep) refl
      go (err other_fault) e = rw (e, sweep) refl
      go (ok namespaces) e = rw (e, sweep) (sweep_namespaces-Keeps namespaces d (nothing, d) refl)

-- What opening a revision gives is the same before and after a sweep, whatever its cutoff.
pub open_revision-sweep :
    (fs : FileSystem) (laws : FileSystemLaws fs) (namespace name revision : Bytes)
    (now max_tmp_age : ℕ) (d : fs.Disk)
    → open_revision fs namespace name revision (sweep fs now max_tmp_age d).1
      ≡ open_revision fs namespace name revision d
unfolding open_revision
open_revision-sweep fs laws namespace name revision now max_tmp_age d =
    let kept : Keeps fs (artifact_path namespace name revision) d (sweep fs now max_tmp_age d).1 =
      sweep-Keeps fs laws now max_tmp_age _ (artifact_path_ne namespace name revision) d in
    elim (Option-cases (check_revision_key namespace name revision)) [
      | inr (x, e) ↦ rw (e, open_revision) refl
      | inl e ↦ rw (e, kept, open_revision) refl
    ]
