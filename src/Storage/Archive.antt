-- ===== src/Storage/Archive.antt =====
-- internal/storage/store.go: writeTarGz, which streams the sorted entries of an artifact through the
-- tar and gzip writers to a file, while a hasher and a counter see the same bytes.
pub mod Stream
pub mod Frame
use jaas.Prelude.{
  ℕ, Bool, true, false, ◌&&◌, ◌||◌, not, List, [], ◌∷◌, ◌++◌, Option, none, some, Bytes, ltb,
  if◌then◌else◌, length,
}
use jaas.Prelude.Order.{less}
use jaas.Prelude.Action.{Action, pure, fail, ◌>>=◌, ◌>>◌, on_fail, wrap, ignoring}
use jaas.Storage.FileSystem.{FileSystem, Archiver, FileEntry, Fault}
use jaas.Storage.Key.{PathError, EntryError, valid_tar_entry_path}

pub data StoreError : Type 0 where
  required : StoreError
  bad_path : PathError → StoreError
  mkdir_failed open_failed read_failed create_failed : Fault → StoreError
  bad_entry : EntryError → StoreError
  header_failed body_failed close_tar_failed close_gzip_failed close_file_failed : StoreError
  rename_failed remove_failed list_failed : Fault → StoreError
  revision_not_found : StoreError

insert_entry : FileEntry → List FileEntry → List FileEntry
insert_entry e [] = e ∷ []
insert_entry e (f ∷ fs) = if less f.path e.path then f ∷ insert_entry e fs else e ∷ f ∷ fs

-- slices.SortFunc by path. The paths of an artifact are the keys of a map, so no two are equal and
-- there is one sorted order.
unfoldable pub sorted : List FileEntry → List FileEntry
unfolding insert_entry
sorted [] = []
sorted (e ∷ es) = insert_entry e (sorted es)

module _ (fs : FileSystem) (ar : Archiver) where
  open fs use {
    Disk, mkdir_all, create, append, close, rename, remove, remove_all, chtimes, stat,
    read_dir_names, open_file,
  }
  open ar use {State, fresh, header, body, close_tar, close_gzip, sha256}

  -- The tar writer's state, and the bytes that went through the multi-writer so far.
  abbrev pub Sink : Type 0
  Sink = State × Bytes

  -- One call of the tar or gzip writer: its bytes go to the file, the hasher and the counter.
  unfoldable pub emit :
      Bytes → Option (State × Bytes) → Bytes → StoreError → Action Disk StoreError Sink
  emit rel none written e = fail e
  emit rel (some (st, chunk)) written e = do
    wrap (append rel chunk) (λ _. e)
    pure (st, written ++ chunk)

  -- writeTarEntry
  unfoldable pub write_tar_entry : Bytes → FileEntry → Sink → Action Disk StoreError Sink
  write_tar_entry rel e s = elim (valid_tar_entry_path e.path) [
    | some x ↦ fail (bad_entry x)
    | none ↦
        emit rel (header e s.0) s.1 header_failed >>= λ t. emit rel (body e t.0) t.1 body_failed
  ]

  -- A close of the gzip writer whose error is dropped.
  unfoldable pub drop_gzip : Bytes → Sink → Action Disk StoreError (Unit {0})
  drop_gzip rel s = ignoring {F = StoreError} (emit rel (close_gzip s.0) s.1 close_gzip_failed)

  -- The three closes after an entry has failed, from the state before that entry, each made whether
  -- or not the one before it fails: the errors are dropped, and the file is removed by the caller.
  unfoldable pub abandon : Bytes → Sink → Action Disk StoreError (Unit {0})
  unfolding drop_gzip emit
  abandon rel s = do
    ignoring {F = StoreError} (
        on_fail (emit rel (close_tar s.0) s.1 close_tar_failed) (drop_gzip rel s) >>= drop_gzip rel)
    ignoring (close rel)

  -- The loop over the sorted entries.
  unfoldable pub write_entries : Bytes → List FileEntry → Sink → Action Disk StoreError Sink
  write_entries rel [] s = pure s
  write_entries rel (e ∷ es) s =
      on_fail (write_tar_entry rel e s) (abandon rel s) >>= λ t. write_entries rel es t

  -- The closes after the last entry. Where one fails, those after it are made all the same.
  unfoldable pub finish : Bytes → Sink → Action Disk StoreError Sink
  unfolding drop_gzip
  finish rel s = do
    t ←
        on_fail (emit rel (close_tar s.0) s.1 close_tar_failed)
          (drop_gzip rel s >> ignoring (close rel))
    u ← on_fail (emit rel (close_gzip t.0) t.1 close_gzip_failed) (ignoring (close rel))
    wrap (close rel) (λ _. close_file_failed)
    pure u

  -- writeTarGz: the digest and the size.
  unfoldable pub write_tar_gz : Bytes → List FileEntry → Action Disk StoreError (Bytes × ℕ)
  write_tar_gz rel entries = do
    wrap (create rel) create_failed
    s ← write_entries rel (sorted entries) (fresh, [])
    t ← finish rel s
    pure (sha256 t.1, length t.1)
