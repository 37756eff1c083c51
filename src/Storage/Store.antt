-- ===== src/Storage/Store.antt =====
-- internal/storage/store.go: the operations of Store over a file system. Each one runs under the
-- mutex of its (namespace, name), so it is one step for the others on the same key. `now` is what
-- the store's clock reads. Paths are joined as filepath.Join does for components that hold no
-- separator and are not ".", "..", or empty; the operations check this first.
pub mod Frame
pub mod Describes
pub mod Failure
pub mod Retention
pub mod Examples
use jaas.Prelude.{
  ℕ, ◌-◌, Bool, true, false, ◌&&◌, ◌||◌, not, List, [], ◌∷◌, ◌++◌, Option, none, some, Bytes, codes,
  ltb, ◌=?◌, if◌then◌else◌, Result, ok, err, length, ◌+◌,
}
use jaas.Prelude.Action.{
  Action, Outcome, done, failed, pure, fail, ◌>>=◌, ◌>>◌, on_fail, wrap, ignoring,
}
use jaas.Prelude.Text.{has_suffix}
use jaas.Storage.FileSystem.{FileSystem, Archiver, FileEntry, Info, Fault, not_exist, other_fault}
use jaas.Storage.Key.{
  PathError, EntryError, valid_no_traversal, valid_tar_entry_path, revision_filename,
  looks_like_our_artifact_filename, archive_suffix, tmp_suffix,
}
use jaas.Storage.Archive.{
  StoreError, required, bad_path, mkdir_failed, open_failed, read_failed, rename_failed,
  remove_failed, list_failed, revision_not_found, write_tar_gz,
}
use jaas.Storage.Prune.{PruneCandidate, build_prune_keep_set, select_prune_victims}

-- Result
pub record PutResult : Type 0 where
  pub path : Bytes
  pub size_bytes : ℕ
  pub digest_sha256 : Bytes

abbrev pub join : Bytes → Bytes → Bytes
join a b = a ++ b'/' ∷ b

abbrev pub artifact_path : Bytes → Bytes → Bytes → Bytes
artifact_path namespace name revision = join (join namespace name) (revision_filename revision)

-- The check that opens Put and Open.
unfoldable pub check_revision_key : Bytes → Bytes → Bytes → Option StoreError
check_revision_key namespace name revision =
    if namespace =? [] || name =? [] || revision =? []
    then some required
    else elim (valid_no_traversal (namespace ∷ name ∷ revision ∷ [])) [
      | some e ↦ some (bad_path e)
      | none ↦ none
    ]

-- The check that opens Delete.
unfoldable pub check_key : Bytes → Bytes → Option StoreError
check_key namespace name =
    if namespace =? [] || name =? []
    then some required
    else elim (valid_no_traversal (namespace ∷ name ∷ [])) [
      | some e ↦ some (bad_path e)
      | none ↦ none
    ]

module _ (fs : FileSystem) where
  open fs use {
    Disk, mkdir_all, rename, remove, remove_all, chtimes, stat, read_dir_names, open_file,
  }

  -- One sibling of the directory: a revision file with a strictly newer time.
  is_newer_sibling : Bytes → Bytes → ℕ → Disk → Bytes → Bool
  is_newer_sibling dir self ref_mtime d n =
      if n =? self || not (has_suffix n archive_suffix) then false else elim (stat (join dir n) d) [
        | err _ ↦ false
        | ok info ↦ if info.is_dir then false else ltb ref_mtime info.mod_time
      ]

  sibling_loop : Bytes → Bytes → ℕ → Disk → List Bytes → Bool
  sibling_loop dir self ref_mtime d [] = false
  sibling_loop dir self ref_mtime d (n ∷ names) =
      is_newer_sibling dir self ref_mtime d n || sibling_loop dir self ref_mtime d names

  -- hasNewerSibling
  unfoldable pub has_newer_sibling : Bytes → Bytes → ℕ → Disk → Bool
  unfolding sibling_loop is_newer_sibling
  has_newer_sibling dir self ref_mtime d = elim (read_dir_names dir d) [
    | err _ ↦ false
    | ok names ↦ sibling_loop dir self ref_mtime d names
  ]

  -- The test by which Put finds the revision on disk: a file, and no directory.
  unfoldable pub existing : Bytes → Disk → Option Info
  existing path d = elim (stat path d) [
    | err _ ↦ none
    | ok info ↦ if info.is_dir then none else some info
  ]

  -- Open: the bytes that the reader gives, or the error of the call.
  unfoldable pub open_revision :
      Bytes → Bytes → Bytes → Disk → Result StoreError (Result Fault Bytes)
  open_revision namespace name revision d = elim (check_revision_key namespace name revision) [
    | some e ↦ err e
    | none ↦ elim (open_file (artifact_path namespace name revision) d) [
      | ok reader ↦ ok reader
      | err not_exist ↦ err revision_not_found
      | err other_fault ↦ err (open_failed other_fault)
    ]
  ]

  -- Delete
  unfoldable pub delete : Bytes → Bytes → Action Disk StoreError (Unit {0})
  delete namespace name = elim (check_key namespace name) [
    | some e ↦ fail e
    | none ↦ wrap (remove_all (join namespace name)) remove_failed
  ]

  -- The candidates of a Prune pass, from the names in the directory.
  unfoldable pub prune_candidates : Bytes → Disk → List Bytes → List PruneCandidate
  prune_candidates dir d [] = []
  prune_candidates dir d (n ∷ names) =
      if not (looks_like_our_artifact_filename n) || has_suffix n tmp_suffix
      then prune_candidates dir d names
      else elim (stat (join dir n) d) [
        | err _ ↦ prune_candidates dir d names
        | ok info ↦
            record { keep_key = n; remove_key = join dir n; mtime = info.mod_time }
            ∷ prune_candidates dir d names
      ]

  -- The loop that removes the victims, up to the first failure.
  unfoldable pub remove_victims : List Bytes → Action Disk StoreError (Unit {0})
  remove_victims [] = pure tt
  remove_victims (key ∷ keys) = wrap (remove key) remove_failed >>= λ _. remove_victims keys

  -- The part of Prune after its checks.
  unfoldable pub prune_dir : Bytes → List Bytes → ℕ → ℕ → Action Disk StoreError (Unit {0})
  prune_dir dir keep_set grace now d = elim (read_dir_names dir d) [
    | err not_exist ↦ done tt d
    | err other_fault ↦ failed (list_failed other_fault) d
    | ok names ↦
        remove_victims (select_prune_victims (prune_candidates dir d names) keep_set now grace) d
  ]

  -- Prune
  unfoldable pub prune : Bytes → Bytes → List Bytes → ℕ → ℕ → Action Disk StoreError (Unit {0})
  prune namespace name [] grace now =
      if namespace =? [] || name =? [] then fail required else pure tt
  prune namespace name (r ∷ keep_revisions) grace now = elim (check_key namespace name) [
    | some e ↦ fail e
    | none ↦ elim (build_prune_keep_set (r ∷ keep_revisions)) [
      | err e ↦ fail (bad_path e)
      | ok keep_set ↦ prune_dir (join namespace name) keep_set grace now
    ]
  ]

module _ (fs : FileSystem) (ar : Archiver) where
  open fs use {Disk, mkdir_all, rename, remove, chtimes, open_file}
  open ar use {sha256}

  -- digestOf
  unfoldable pub digest_of : Bytes → Disk → Result StoreError Bytes
  digest_of rel d = elim (open_file rel d) [
    | err e ↦ err (open_failed e)
    | ok (err e) ↦ err (read_failed e)
    | ok (ok b) ↦ ok (sha256 b)
  ]

  -- The revert bump: a revived revision behind a newer one gets the present time.
  unfoldable pub bump : Bytes → Bytes → Bytes → Info → ℕ → Action Disk StoreError (Unit {0})
  bump dir file rel info now d =
      if has_newer_sibling fs dir file info.mod_time d
      then ignoring {F = StoreError} (chtimes rel now) d
      else done tt d

  unfoldable pub revive :
      Bytes → Bytes → Bytes → Info → ℕ → Bytes → Action Disk StoreError PutResult
  revive dir file rel info now digest = do
    bump dir file rel info now
    pure (record { path = rel; size_bytes = info.size; digest_sha256 = digest })

  -- What Put does where the revision is on disk already.
  unfoldable pub republish : Bytes → Bytes → Bytes → Info → ℕ → Action Disk StoreError PutResult
  republish dir file rel info now d = elim (digest_of rel d) [
    | err e ↦ failed e d
    | ok digest ↦ revive dir file rel info now digest d
  ]

  -- The rename to the final name, and the result.
  unfoldable pub install : Bytes → Bytes × ℕ → Action Disk StoreError PutResult
  install rel (digest, size) = do
    on_fail (wrap (rename (rel ++ tmp_suffix) rel) rename_failed)
        (ignoring (remove (rel ++ tmp_suffix)))
    pure (record { path = rel; size_bytes = size; digest_sha256 = digest })

  -- What Put does where it is not: a write to the temporary name, and the rename.
  unfoldable pub write_new : Bytes → List FileEntry → Action Disk StoreError PutResult
  write_new rel entries =
      on_fail (write_tar_gz fs ar (rel ++ tmp_suffix) entries)
        (ignoring (remove (rel ++ tmp_suffix)))
      >>= install rel

  -- The choice between the two, on the disk that MkdirAll leaves.
  unfoldable pub place : Bytes → Bytes → List FileEntry → ℕ → Action Disk StoreError PutResult
  place dir file entries now d = elim (existing fs (join dir file) d) [
    | some info ↦ republish dir file (join dir file) info now d
    | none ↦ write_new (join dir file) entries d
  ]

  -- The part of Put under the lock.
  unfoldable pub put_locked : Bytes → Bytes → List FileEntry → ℕ → Action Disk StoreError PutResult
  put_locked dir file entries now =
      wrap (mkdir_all dir) mkdir_failed >>= λ _. place dir file entries now

  -- Put
  unfoldable pub put : Bytes → Bytes → Bytes → List FileEntry → ℕ → Action Disk StoreError PutResult
  put namespace name revision entries now = elim (check_revision_key namespace name revision) [
    | some e ↦ fail e
    | none ↦ put_locked (join namespace name) (revision_filename revision) entries now
  ]
