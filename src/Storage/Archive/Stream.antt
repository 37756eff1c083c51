-- ===== src/Storage/Archive/Stream.antt =====
-- What the writer of archives leaves in its file, and what it leaves alone.
use jaas.Prelude.{
  ℕ, ◌≡◌, refl, sym, ◌∙◌, List, [], ◌∷◌, Option, none, some, Bytes, length, inl, inr, Option-cases,
}
use jaas.Prelude.Action.{
  done, failed, then_run_done, cleaned_done, not_done, wrapped_done, carry, wrapped, then_run,
}
use jaas.Storage.FileSystem.{FileSystem, Archiver, FileEntry, FileSystemLaws, Holds}
use jaas.Storage.Key.{EntryError, valid_tar_entry_path}
use jaas.Storage.Archive.{
  StoreError, emit, write_tar_entry, write_entries, finish, write_tar_gz, sorted, bad_entry,
  header_failed, body_failed,
}

module _ (fs : FileSystem) (ar : Archiver) (laws : FileSystemLaws fs) where
  open fs use {Disk, create, append, close}
  open ar use {State, sha256}

  emit-Holds :
      (rel : Bytes) (step : Option (State × Bytes)) (written : Bytes) (e : StoreError) (d d' : Disk)
      (t : State × Bytes)
      → Holds fs rel written d
      → emit fs ar rel step written e d ≡ done t d'
      → Holds fs rel t.1 d'
  unfolding emit
  emit-Holds rel none written e d d' t h r = cc
  emit-Holds rel (some (st, chunk)) written e d d' t h r =
      let (_, d1, a, q) = then_run_done (wrapped (append rel chunk d) (λ _. e)) _ r in
      let held = laws.appended rel written chunk d d1 h (wrapped_done _ _ a) in
      carry (λ u e'. Holds fs rel u.1 e') held q

  entry_refused :
      (rel : Bytes) (e : FileEntry) (s : State × Bytes) (d : Disk) (x : EntryError)
      → valid_tar_entry_path e.path ≡ some x
      → write_tar_entry fs ar rel e s d ≡ failed (bad_entry x) d
  unfolding write_tar_entry
  entry_refused rel e s d x v = rw (v, write_tar_entry) refl

  entry_written :
      (rel : Bytes) (e : FileEntry) (s : State × Bytes) (d : Disk)
      → valid_tar_entry_path e.path ≡ none
      → write_tar_entry fs ar rel e s d
        ≡ then_run
            (emit fs ar rel (ar.header e s.0) s.1 header_failed d)
            (λ t. emit fs ar rel (ar.body e t.0) t.1 body_failed)
  unfolding write_tar_entry
  entry_written rel e s d v = rw (v, write_tar_entry) refl

  write_tar_entry-Holds :
      (rel : Bytes) (e : FileEntry) (s t : State × Bytes) (d d' : Disk)
      → Holds fs rel s.1 d
      → write_tar_entry fs ar rel e s d ≡ done t d'
      → Holds fs rel t.1 d'
  write_tar_entry-Holds rel e s t d d' h r = elim (Option-cases (valid_tar_entry_path e.path)) [
    | inr (x, v) ↦ absurd (not_done (sym (entry_refused rel e s d x v) ∙ r))
    | inl v ↦
        let (u, d1, first, second) = then_run_done _ _ (sym (entry_written rel e s d v) ∙ r) in
        let held = emit-Holds rel (ar.header e s.0) s.1 header_failed d d1 u h first in
        emit-Holds rel (ar.body e u.0) u.1 body_failed d1 d' t held second
  ]

  write_entries-Holds :
      (rel : Bytes) (es : List FileEntry) (s t : State × Bytes) (d d' : Disk)
      → Holds fs rel s.1 d
      → write_entries fs ar rel es s d ≡ done t d'
      → Holds fs rel t.1 d'
  unfolding write_entries
  write_entries-Holds rel [] s t d d' h r = carry (λ u e'. Holds fs rel u.1 e') h r
  write_entries-Holds rel (e ∷ es) s t d d' h r =
      let (u, d1, first, second) = then_run_done _ _ r in
      let held = write_tar_entry-Holds rel e s u d d1 h (cleaned_done _ _ first) in
      write_entries-Holds rel es u t d1 d' held second

  finish-Holds :
      (rel : Bytes) (s t : State × Bytes) (d d' : Disk)
      → Holds fs rel s.1 d
      → finish fs ar rel s d ≡ done t d'
      → Holds fs rel t.1 d'
  unfolding finish
  finish-Holds rel s t d d' h r =
      let (u, d1, tar_closed, rest) = then_run_done _ _ r in
      let (v, d2, gzip_closed, rest') = then_run_done _ _ rest in
      let (_, d3, file_closed, last) = then_run_done _ _ rest' in
      let held = emit-Holds rel _ s.1 _ d d1 u h (cleaned_done _ _ tar_closed) in
      let held' = emit-Holds rel _ u.1 _ d1 d2 v held (cleaned_done _ _ gzip_closed) in
      carry (λ w e'. Holds fs rel w.1 e')
        (laws.closed rel v.1 d2 d3 held' (wrapped_done _ _ file_closed)) last

  -- The file holds the bytes whose digest and number the writer returns.
  pub write_tar_gz-Holds :
      (rel : Bytes) (entries : List FileEntry) (r : Bytes × ℕ) (d d' : Disk)
      → write_tar_gz fs ar rel entries d ≡ done r d'
      → (b : Bytes) × Holds fs rel b d' × (r.0 ≡ sha256 b) × (r.1 ≡ length b)
  unfolding write_tar_gz
  write_tar_gz-Holds rel entries r d d' run =
      let (_, d1, created, rest) = then_run_done _ _ run in
      let (s, d2, written, rest') = then_run_done _ _ rest in
      let (t, d3, finished, last) = then_run_done _ _ rest' in
      let held = laws.created rel d d1 (wrapped_done _ _ created) in
      let held' = write_entries-Holds rel (sorted entries) _ s d1 d2 held written in
      let held'' = finish-Holds rel s t d2 d3 held' finished in
      carry
        (λ (w : Bytes × ℕ) e'.
          (b : Bytes) × Holds fs rel b e' × (w.0 ≡ sha256 b) × (w.1 ≡ length b))
        (t.1, held'', refl, refl) last
