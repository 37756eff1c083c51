-- ===== src/Storage/Sweep.antt =====
-- internal/storage/store.go: Sweep and sweepKey, which remove what a write left behind when its
-- process died. The counts and the failures are threaded through the walk; each key's part runs
-- under the mutex of the key.
pub mod Frame
pub mod Examples
use jaas.Prelude.{
  ℕ, ◌+◌, Bool, true, false, ◌||◌, not, List, [], ◌∷◌, ◌++◌, Bytes, codes, ltb, if◌then◌else◌,
  Result, ok, err,
}
use jaas.Prelude.Action.{Outcome, done, failed}
use jaas.Prelude.Text.{has_suffix}
use jaas.Storage.FileSystem.{FileSystem, Info, Fault, not_exist, other_fault}
use jaas.Storage.Key.{looks_like_our_artifact_filename, archive_suffix, tmp_suffix}
use jaas.Storage.Archive.{StoreError, list_failed}
use jaas.Storage.Store.{join}

-- How many files were removed, and the paths that could not be.
pub record Tally : Type 0 where
  pub removed : ℕ
  pub failures : List (Bytes × Fault)

abbrev pub nothing : Tally
nothing = record { removed = 0; failures = [] }

-- The root of the store as the file system names it.
abbrev pub root : Bytes
root = codes "."

-- A name that Sweep may remove: the temporary name of an artifact of the store.
unfoldable pub is_residue : Bytes → Bool
is_residue f =
    if not (has_suffix f (archive_suffix ++ tmp_suffix))
    then false
    else looks_like_our_artifact_filename f

module _ (fs : FileSystem) (now max_tmp_age : ℕ) where
  open fs use {Disk, remove, stat, read_dir_names}

  -- What a removal adds to the tally.
  unfoldable pub count : Bytes → Tally → Outcome Disk Fault (Unit {0}) → Tally × Disk
  count full t (done tt d) = (record t { removed = t.removed + 1 }, d)
  count full t (failed e d) = (record t { failures = t.failures ++ (full, e) ∷ [] }, d)

  -- One file of a key: the cutoff is `max_tmp_age` before now.
  unfoldable pub sweep_file : Bytes → Tally → Disk → Bytes → Tally × Disk
  sweep_file dir t d f = if not (is_residue f) then (t, d) else elim (stat (join dir f) d) [
    | err _ ↦ (t, d)
    | ok info ↦
        if ltb now (info.mod_time + max_tmp_age)
        then (t, d)
        else count (join dir f) t (remove (join dir f) d)
  ]

  unfoldable pub sweep_files : Bytes → List Bytes → Tally × Disk → Tally × Disk
  sweep_files dir [] at = at
  sweep_files dir (f ∷ files) (t, d) = sweep_files dir files (sweep_file dir t d f)

  -- sweepKey
  unfoldable pub sweep_key : Bytes → Tally × Disk → Tally × Disk
  sweep_key dir (t, d) = elim (read_dir_names dir d) [
    | err _ ↦ (t, d)
    | ok files ↦ sweep_files dir files (t, d)
  ]

  -- The test of Sweep on each entry of the walk.
  unfoldable pub stat_is_dir : Bytes → Disk → Bool
  stat_is_dir path d = elim (stat path d) [ err _ ↦ false | ok info ↦ info.is_dir ]

  unfoldable pub sweep_names : Bytes → List Bytes → Tally × Disk → Tally × Disk
  sweep_names ns [] at = at
  sweep_names ns (name ∷ names) (t, d) =
      sweep_names ns names
        (if stat_is_dir (join ns name) d then sweep_key (join ns name) (t, d) else (t, d))

  -- The names of a namespace's directory, each swept.
  unfoldable pub sweep_listed : Bytes → Tally × Disk → Tally × Disk
  sweep_listed ns (t, d) = elim (read_dir_names ns d) [
    | err _ ↦ (t, d)
    | ok names ↦ sweep_names ns names (t, d)
  ]

  unfoldable pub sweep_namespace : Bytes → Tally × Disk → Tally × Disk
  sweep_namespace ns (t, d) = if not (stat_is_dir ns d) then (t, d) else sweep_listed ns (t, d)

  unfoldable pub sweep_namespaces : List Bytes → Tally × Disk → Tally × Disk
  sweep_namespaces [] at = at
  sweep_namespaces (ns ∷ namespaces) at = sweep_namespaces namespaces (sweep_namespace ns at)

  -- Sweep. The failures of the tally are what it joins into its error.
  unfoldable pub sweep : Disk → Result StoreError Tally × Disk
  sweep d = elim (read_dir_names root d) [
    | err not_exist ↦ (ok nothing, d)
    | err other_fault ↦ (err (list_failed other_fault), d)
    | ok namespaces ↦ let swept = sweep_namespaces namespaces (nothing, d) in (ok swept.0, swept.1)
  ]
