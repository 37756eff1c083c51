-- ===== src/Storage/Sweep/Examples.antt =====
-- Tests of Sweep over the file system in memory, and its theorems at concrete inputs.
use jaas.Prelude.{ℕ, ◌≡◌, ◌≢◌, refl, [], ◌∷◌, Bytes, codes, ok, apart, true, false}
use jaas.Storage.FileSystem.Memory.{
  memory, memory_laws, Files, names_in, inside, first_segment, is_directory, info, find, change,
  delete,
}
use jaas.Storage.Key.{looks_like_our_artifact_filename, revision_part, has_revision_shape}
use jaas.Storage.Store.{open_revision}
use jaas.Storage.Sweep.{
  is_residue, sweep, sweep_namespaces, sweep_namespace, sweep_listed, sweep_names, sweep_key,
  sweep_files, sweep_file, stat_is_dir, count,
}
use jaas.Storage.Sweep.Frame.{open_revision-sweep}

abbrev two_files : Files
two_files =
    (codes "n/s/a-1.tar.gz", (codes "x", 1)) ∷ (codes "n/s/a-2.tar.gz.tmp", (codes "y", 2)) ∷ []

residue_names :
    (is_residue (codes "a-2.tar.gz.tmp") ≡ true)
    × (is_residue (codes "a-2.tar.gz") ≡ false)
    × (is_residue (codes "x y.tar.gz.tmp") ≡ false)
unfolding is_residue jaas.Prelude.Text.has_suffix jaas.Prelude.◌=?◌
    jaas.Storage.Key.looks_like_our_artifact_filename jaas.Storage.Key.revision_part
    jaas.Prelude.Text.trim_suffix jaas.Storage.Key.has_revision_shape jaas.Prelude.Text.cut
    jaas.Prelude.all
residue_names = (refl, refl, refl)

open_revision-sweep_example :
    open_revision memory (codes "n") (codes "s") (codes "a:1") (sweep memory 9 3 two_files).1
    ≡ open_revision memory (codes "n") (codes "s") (codes "a:1") two_files
open_revision-sweep_example =
    open_revision-sweep memory memory_laws (codes "n") (codes "s") (codes "a:1") 9 3 two_files

-- The residue goes, where it is older than the cutoff.
swept :
    (sweep memory 9 3 two_files
      ≡ (ok (record { removed = 1; failures = [] }), (codes "n/s/a-1.tar.gz", (codes "x", 1)) ∷ []))
    × (sweep memory 9 8 two_files ≡ (ok (record { removed = 0; failures = [] }), two_files))
unfolding sweep sweep_namespaces sweep_namespace sweep_listed sweep_names sweep_key sweep_files
    sweep_file stat_is_dir count is_residue looks_like_our_artifact_filename revision_part
    has_revision_shape is_directory names_in inside first_segment info find change delete
    jaas.Prelude.◌=?◌ jaas.Prelude.Text.has_suffix jaas.Prelude.Text.trim_suffix
    jaas.Prelude.Text.cut jaas.Prelude.Text.drop_prefix jaas.Prelude.all jaas.Prelude.member
swept = (refl, refl)
