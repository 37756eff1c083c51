-- ===== src/Storage/Archive/Frame.antt =====
-- The writer of archives touches its own file only: what the calls on that file keep, it keeps.
use jaas.Prelude.{List, [], ◌∷◌, Option, none, some, Bytes, inl, inr, Option-cases}
use jaas.Prelude.Action.{
  Leaves, by_done, by_failed, Leaves-then_run, Leaves-cleaned, Leaves-wrapped, Leaves-dropped,
}
use jaas.Storage.FileSystem.{FileSystem, Archiver, FileEntry}
use jaas.Storage.Key.{valid_tar_entry_path}
use jaas.Storage.Archive.{
  StoreError, emit, write_tar_entry, drop_gzip, abandon, write_entries, finish, write_tar_gz,
}

module _ (fs : FileSystem) (ar : Archiver) where
  open fs use {Disk, create, append, close}
  open ar use {State}

  -- A property of the disk that the calls on one file keep.
  pub record IsKept (rel : Bytes) (P : Disk → Type 0) : Type 0 where
    pub by_create : (d : Disk) → P d → Leaves P (create rel d)
    pub by_append : (chunk : Bytes) (d : Disk) → P d → Leaves P (append rel chunk d)
    pub by_close : (d : Disk) → P d → Leaves P (close rel d)

  module _ (rel : Bytes) (P : Disk → Type 0) (kept : IsKept rel P) where
    emit-Leaves :
        (step : Option (State × Bytes)) (written : Bytes) (e : StoreError) (d : Disk)
        → P d
        → Leaves P (emit fs ar rel step written e d)
    unfolding emit
    emit-Leaves none written e d h = by_failed h
    emit-Leaves (some (st, chunk)) written e d h =
        Leaves-then_run (Leaves-wrapped _ (kept.by_append chunk d h)) (λ _ d1 k. by_done k)

    write_tar_entry-Leaves :
        (e : FileEntry) (s : State × Bytes) (d : Disk)
        → P d
        → Leaves P (write_tar_entry fs ar rel e s d)
    unfolding write_tar_entry
    write_tar_entry-Leaves e s d h = elim (Option-cases (valid_tar_entry_path e.path)) [
      | inr (x, v) ↦ rw (v, write_tar_entry) (by_failed h)
      | inl v ↦
          rw (v, write_tar_entry)
            (Leaves-then_run (emit-Leaves _ s.1 _ d h) (λ t d1 k. emit-Leaves _ t.1 _ d1 k))
    ]

    drop_gzip-Leaves : (s : State × Bytes) (d : Disk) → P d → Leaves P (drop_gzip fs ar rel s d)
    unfolding drop_gzip
    drop_gzip-Leaves s d h = Leaves-dropped (emit-Leaves _ s.1 _ d h)

    abandon-Leaves : (s : State × Bytes) (d : Disk) → P d → Leaves P (abandon fs ar rel s d)
    unfolding abandon
    abandon-Leaves s d h =
        Leaves-then_run
          (Leaves-dropped (
            Leaves-then_run
              (Leaves-cleaned (emit-Leaves _ s.1 _ d h) (λ d1 k. drop_gzip-Leaves s d1 k))
              (λ t d1 k. drop_gzip-Leaves t d1 k)))
          (λ _ d2 l. Leaves-dropped (kept.by_close d2 l))

    write_entries-Leaves :
        (es : List FileEntry) (s : State × Bytes) (d : Disk)
        → P d
        → Leaves P (write_entries fs ar rel es s d)
    unfolding write_entries
    write_entries-Leaves [] s d h = by_done h
    write_entries-Leaves (e ∷ es) s d h =
        Leaves-then_run
          (Leaves-cleaned (write_tar_entry-Leaves e s d h) (λ d1 k. abandon-Leaves s d1 k))
          (λ t d1 k. write_entries-Leaves es t d1 k)

    finish-Leaves : (s : State × Bytes) (d : Disk) → P d → Leaves P (finish fs ar rel s d)
    unfolding finish
    finish-Leaves s d h =
        let stop = λ (d1 : Disk) (k : P d1). Leaves-dropped {F = StoreError} (kept.by_close d1 k) in
        let close_all = λ (d1 : Disk) (k : P d1).
          Leaves-then_run (drop_gzip-Leaves s d1 k) (λ _ d2 l. stop d2 l) in
        Leaves-then_run (Leaves-cleaned (emit-Leaves _ s.1 _ d h) close_all) λ t d1 k.
          Leaves-then_run (Leaves-cleaned (emit-Leaves _ t.1 _ d1 k) stop)
            λ u d2 l. Leaves-then_run (Leaves-wrapped _ (kept.by_close d2 l)) (λ _ d3 m. by_done m)

    -- Whatever the calls on the file keep, writing an archive to it keeps, also where it fails.
    pub write_tar_gz-Leaves :
        (entries : List FileEntry) (d : Disk) → P d → Leaves P (write_tar_gz fs ar rel entries d)
    unfolding write_tar_gz
    write_tar_gz-Leaves entries d h =
        Leaves-then_run (Leaves-wrapped _ (kept.by_create d h)) λ _ d1 k.
          Leaves-then_run (write_entries-Leaves _ _ d1 k)
            λ s d2 l. Leaves-then_run (finish-Leaves s d2 l) (λ _ d3 m. by_done m)
