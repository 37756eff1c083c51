-- ===== src/Storage/Store/Examples.antt =====
-- Tests of Store over the file system in memory, and its theorems at concrete inputs.
use jaas.Prelude.Order.{less}
use jaas.Prelude.{
  ℕ, ◌≡◌, ◌≢◌, refl, ap, inl, inr, List, [], ◌∷◌, ◌++◌, Option, none, some, Bytes, codes, Result,
  ok, err, length, arith, In, apart, subst, sym, ◌<◌, ◌≤◌, ◌+◌,
}
use jaas.Prelude.Action.{done, failed, final_state}
use jaas.Storage.FileSystem.{FileEntry, Keeps, Fault}
use jaas.Storage.FileSystem.Memory.{
  memory, memory_laws, plain, Files, find, delete, change, names_in, info,
}
use jaas.Storage.Key.{
  revision_filename, valid_no_traversal, valid_tar_entry_path, looks_like_our_artifact_filename,
  revision_part, has_revision_shape, entry_traversal,
}
use jaas.Storage.Prune.{PruneCandidate, build_prune_keep_set, select_prune_victims, is_victim}
use jaas.Storage.Prune.Superseded.{IsSupersededAt}
use jaas.Storage.Archive.{
  bad_entry, sorted, emit, write_tar_entry, abandon, write_entries, finish, write_tar_gz,
}
use jaas.Storage.Store.{
  PutResult, join, artifact_path, check_revision_key, check_key, existing, open_revision, write_new,
  install, place, put_locked, put, prune, prune_dir, prune_candidates, remove_victims,
}
use jaas.Storage.Store.Frame.{put_frame, put_twice}
use jaas.Storage.Store.Describes.{open_revision-put}
use jaas.Storage.Store.Failure.{put_failed}
use jaas.Storage.Store.Retention.{prune-Keeps, prune_spares, prune_grace}

abbrev entries : List FileEntry
entries =
    record { path = codes "m"; content = codes "1" }
    ∷ record { path = codes "a"; content = codes "2" }
    ∷ []

abbrev escaping : List FileEntry
escaping = record { path = codes ".."; content = [] } ∷ []

abbrev stored : Bytes
stored = codes "a:2;m:1;."

abbrev path_of : Bytes → Bytes
path_of revision = artifact_path (codes "n") (codes "s") revision

abbrev result : PutResult
result = record { path = codes "n/s/a-1.tar.gz"; size_bytes = 9; digest_sha256 = stored }

abbrev published : Files
published = (codes "n/s/a-1.tar.gz", (stored, 0)) ∷ []

put_first :
    put memory plain (codes "n") (codes "s") (codes "a:1") entries 5 [] ≡ done result published
unfolding put put_locked place write_new install write_tar_gz sorted less write_entries
    write_tar_entry emit finish check_revision_key valid_no_traversal valid_tar_entry_path existing
    revision_filename find delete change info jaas.Prelude.◌=?◌ jaas.Prelude.Text.contains_byte
    jaas.Prelude.Text.has_prefix jaas.Prelude.Text.split jaas.Storage.FileSystem.Memory.is_directory
put_first = refl

-- A refused entry: the temporary file is gone.
put-escaping :
    put memory plain (codes "n") (codes "s") (codes "a:1") escaping 5 []
    ≡ failed (bad_entry entry_traversal) []
unfolding put put_locked place write_new install write_tar_gz sorted less write_entries
    write_tar_entry emit abandon finish check_revision_key valid_no_traversal valid_tar_entry_path
    existing revision_filename find delete change info jaas.Prelude.◌=?◌
    jaas.Prelude.Text.contains_byte jaas.Prelude.Text.has_prefix jaas.Prelude.Text.split
    jaas.Storage.FileSystem.Memory.is_directory
put-escaping = refl

open_revision-put_example :
    (b : Bytes) × (open_revision memory (codes "n") (codes "s") (codes "a:1") published ≡ ok (ok b))
    × (stored ≡ b)
    × (9 ≡ length b)
    × (codes "n/s/a-1.tar.gz" ≡ path_of (codes "a:1"))
open_revision-put_example =
    open_revision-put memory plain memory_laws (codes "n") (codes "s") (codes "a:1") entries 5
      result [] published put_first

put_failed_example :
    open_revision memory (codes "n") (codes "s") (codes "a:1") []
    ≡ open_revision memory (codes "n") (codes "s") (codes "a:1") []
put_failed_example =
    put_failed memory plain memory_laws (codes "n") (codes "s") (codes "a:1") escaping 5
      (bad_entry entry_traversal) [] [] put-escaping

put_frame_example :
    Keeps memory
      (codes "n/t/a-1.tar.gz")
      published
      (final_state (put memory plain (codes "n") (codes "s") (codes "a:2") entries 5 published))
unfolding revision_filename jaas.Prelude.◌=?◌
put_frame_example =
    put_frame memory plain memory_laws (codes "n") (codes "s") (codes "a:2")
      (codes "n/t/a-1.tar.gz") entries 5 published (apart _ _ refl) (apart _ _ refl)

put_twice_example :
    Keeps memory
      (codes "n/s/a-1.tar.gz")
      published
      (final_state (put memory plain (codes "n") (codes "s") (codes "a:1") [] 7 published))
unfolding existing find info revision_filename jaas.Prelude.◌=?◌
put_twice_example =
    put_twice memory plain memory_laws (codes "n") (codes "s") (codes "a:1")
      (codes "n/s/a-1.tar.gz") [] 7 _ published published refl refl

abbrev two_revisions : Files
two_revisions =
    (codes "n/s/a-1.tar.gz", (codes "x", 1)) ∷ (codes "n/s/a-2.tar.gz", (codes "y", 2)) ∷ []

pruned :
    prune memory (codes "n") (codes "s") (codes "a:2" ∷ []) 0 9 two_revisions
    ≡ done tt ((codes "n/s/a-2.tar.gz", (codes "y", 2)) ∷ [])
unfolding prune prune_dir prune_candidates remove_victims check_key valid_no_traversal
    build_prune_keep_set select_prune_victims is_victim looks_like_our_artifact_filename
    revision_part has_revision_shape revision_filename find delete change names_in info
    jaas.Prelude.◌=?◌ jaas.Prelude.Text.contains_byte jaas.Prelude.Text.drop_prefix
    jaas.Prelude.Text.has_suffix jaas.Prelude.Text.trim_suffix jaas.Prelude.Text.cut
    jaas.Prelude.all jaas.Prelude.member jaas.Storage.FileSystem.Memory.inside
    jaas.Storage.FileSystem.Memory.first_segment
pruned = refl

prune-Keeps_example :
    Keeps memory
      (path_of (codes "a:2"))
      two_revisions
      (final_state (prune memory (codes "n") (codes "s") (codes "a:2" ∷ []) 0 9 two_revisions))
prune-Keeps_example =
    prune-Keeps memory memory_laws (codes "n") (codes "s") (codes "a:2") (codes "a:2" ∷ []) 0 9
      two_revisions (inl refl)

prune_spares_example :
    Keeps memory
      (join (join (codes "n") (codes "s")) (codes "notes"))
      two_revisions
      (final_state (prune memory (codes "n") (codes "s") (codes "a:2" ∷ []) 0 9 two_revisions))
unfolding looks_like_our_artifact_filename revision_part jaas.Prelude.Text.has_suffix
    jaas.Prelude.◌=?◌
prune_spares_example =
    prune_spares memory memory_laws (codes "n") (codes "s") (codes "notes") (codes "a:2" ∷ []) 0 9
      two_revisions (inl refl)

abbrev candidate : Bytes → ℕ → PruneCandidate
candidate name time = record {
  keep_key = name;
  remove_key = join (join (codes "n") (codes "s")) name;
  mtime = time;
}

abbrev two_candidates : List PruneCandidate
two_candidates =
    prune_candidates memory (join (codes "n") (codes "s")) two_revisions
      (codes "a-1.tar.gz" ∷ codes "a-2.tar.gz" ∷ [])

-- No candidate was superseded before the time 2.
superseded_late :
    (c : PruneCandidate) (t : ℕ) → In c two_candidates → IsSupersededAt two_candidates c t → 2 ≤ t
unfolding prune_candidates looks_like_our_artifact_filename revision_part
    jaas.Prelude.Text.has_suffix jaas.Prelude.◌=?◌ jaas.Prelude.Text.trim_suffix has_revision_shape
    jaas.Prelude.Text.cut jaas.Prelude.all info find jaas.Prelude.Text.contains_byte names_in
    jaas.Prelude.Text.drop_prefix jaas.Storage.FileSystem.Memory.inside jaas.Prelude.member
    jaas.Storage.FileSystem.Memory.first_segment
superseded_late c t (inl e) at = late (subst (λ x. IsSupersededAt two_candidates x t) e at)
  where
    late : IsSupersededAt two_candidates (candidate (codes "a-1.tar.gz") 1) t → 2 ≤ t
    late (inl (_, old)) = omega (arith, old.1.0)
    late (inr (above, _, _)) = omega arith
superseded_late c t (inr (inl e)) at = late (subst (λ x. IsSupersededAt two_candidates x t) e at)
  where
    late : IsSupersededAt two_candidates (candidate (codes "a-2.tar.gz") 2) t → 2 ≤ t
    late (inl (own, _)) = omega arith
    late (inr (above, _, _)) = omega arith
superseded_late c t (inr (inr absent)) at = absurd absent

listed :
    (names : List Bytes)
    → ◌≡◌ {A = Result Fault (List Bytes)}
        (ok (codes "a-1.tar.gz" ∷ codes "a-2.tar.gz" ∷ []))
        (ok names)
    → codes "a-1.tar.gz" ∷ codes "a-2.tar.gz" ∷ [] ≡ names
listed names e = cc

prune_grace_example :
    Keeps memory
      (join (join (codes "n") (codes "s")) (codes "a-1.tar.gz"))
      two_revisions
      (final_state (prune memory (codes "n") (codes "s") (codes "a:2" ∷ []) 10 11 two_revisions))
unfolding prune_candidates looks_like_our_artifact_filename revision_part
    jaas.Prelude.Text.has_suffix jaas.Prelude.◌=?◌ jaas.Prelude.Text.trim_suffix has_revision_shape
    jaas.Prelude.Text.cut jaas.Prelude.all info find jaas.Prelude.Text.contains_byte names_in
    jaas.Prelude.Text.drop_prefix jaas.Storage.FileSystem.Memory.inside jaas.Prelude.member
    jaas.Storage.FileSystem.Memory.first_segment
prune_grace_example =
    prune_grace memory memory_laws (codes "n") (codes "s") (codes "a-1.tar.gz") (codes "a:2" ∷ [])
      10 11 two_revisions young
  where
    dir : Bytes
    dir = join (codes "n") (codes "s")

    young :
        (names : List Bytes) (c : PruneCandidate) (t : ℕ)
        → memory.read_dir_names dir two_revisions ≡ ok names
        → In c (prune_candidates memory dir two_revisions names)
        → c.keep_key ≡ codes "a-1.tar.gz"
        → IsSupersededAt (prune_candidates memory dir two_revisions names) c t
        → (0 < 10) × (11 < t + 10)
    young names c t l m k at =
        let same = sym (listed names l) in
        let late =
          superseded_late c t
            (subst (λ ns. In c (prune_candidates memory dir two_revisions ns)) same m)
            (subst (λ ns. IsSupersededAt (prune_candidates memory dir two_revisions ns) c t) same
              at) in
        (omega arith, omega arith)
