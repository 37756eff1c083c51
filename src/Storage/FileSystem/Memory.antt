-- ===== src/Storage/FileSystem/Memory.antt =====
-- A file system in memory, which has the laws: files are an association list from path to contents
-- and time. Every new file gets the time 0. The archiver beside it writes names and contents plainly.
use jaas.Prelude.{
  ℕ, ◌≡◌, ◌≢◌, refl, sym, ◌∙◌, ap, subst, inl, inr, true, false, Bool-cases, List, [], ◌∷◌, ◌++◌,
  Option, none, some, Bytes, ◌=?◌, =?_refl, =?_sound, =?_complete, =?_ne, if◌then◌else◌, member,
  Bool, codes, Result, ok, err, length, arith,
}
use jaas.Prelude.Action.{Outcome, done, failed, final_state}
use jaas.Prelude.Text.{drop_prefix, cut}
use jaas.Storage.FileSystem.{
  FileSystem, FileSystemLaws, Archiver, Fault, not_exist, Info, Holds, Keeps,
}

abbrev pub File : Type 0
File = Bytes × ℕ

abbrev pub Files : Type 0
Files = List (Bytes × File)

unfoldable pub find : Bytes → Files → Option File
find k [] = none
find k ((j, f) ∷ fs) = if j =? k then some f else find k fs

unfoldable pub delete : Bytes → Files → Files
delete k [] = []
delete k ((j, f) ∷ fs) = if j =? k then delete k fs else (j, f) ∷ delete k fs

find-delete_ne : (k q : Bytes) (fs : Files) → q ≢ k → find q (delete k fs) ≡ find q fs
unfolding find delete
find-delete_ne k q [] n = refl
find-delete_ne k q ((j, f) ∷ fs) n = elim (Bool-cases (j =? k)) [
  | inl hit ↦ ground (arith, find-delete_ne k q fs n, other j (=?_sound j k hit))
  | inr miss ↦ ground (arith, find-delete_ne k q fs n)
]
  where
    other : (i : Bytes) → i ≡ k → (i =? q) ≡ false
    other i e = =?_ne i q (λ h. n (sym h ∙ e))

abbrev pub write : Bytes → File → Files → Files
write k f fs = (k, f) ∷ delete k fs

find-write_self : (k : Bytes) (f : File) (fs : Files) → find k (write k f fs) ≡ some f
unfolding find
find-write_self k f fs = rw (=?_refl k) refl

find-write_ne : (k q : Bytes) (f : File) (fs : Files) → q ≢ k → find q (write k f fs) ≡ find q fs
unfolding find
find-write_ne k q f fs n = rw (=?_ne k q (λ e. n (sym e))) (find-delete_ne k q fs n)

-- A call that changes one file, if it is there.
unfoldable pub change :
    Bytes → (File → Files) → Files → Option File → Outcome Files Fault (Unit {0})
change p f d none = failed not_exist d
change p f d (some x) = done tt (f x)

-- What stands before the paths in a directory; the root is ".".
unfoldable pub inside : Bytes → Bytes
inside dir = if dir =? codes "." then [] else dir ++ b'/' ∷ []

-- The first segment of a path.
unfoldable pub first_segment : Bytes → Bytes
first_segment p = elim (cut p b'/') [ none ↦ p | some (segment, _) ↦ segment ]

unfoldable pub names_in : Bytes → Files → List Bytes
names_in dir [] = []
names_in dir ((p, f) ∷ fs) = elim (drop_prefix p (inside dir)) [
  | none ↦ names_in dir fs
  | some name ↦
      let names = names_in dir fs in
      if member (first_segment name) names then names else first_segment name ∷ names
]

-- A directory is there as long as a file stands below it.
unfoldable pub is_directory : Bytes → Files → Bool
is_directory dir [] = false
is_directory dir ((p, f) ∷ fs) = elim (drop_prefix p (inside dir)) [
  | none ↦ is_directory dir fs
  | some name ↦ true
]

unfoldable pub drop_tree : Bytes → Files → Files
drop_tree dir [] = []
drop_tree dir ((p, f) ∷ fs) = elim (drop_prefix p (dir ++ b'/' ∷ [])) [
  | none ↦ (p, f) ∷ drop_tree dir fs
  | some name ↦ drop_tree dir fs
]

unfoldable pub read : Option File → Result Fault (Result Fault Bytes)
read none = err not_exist
read (some f) = ok (ok f.0)

unfoldable pub info : Bool → Option File → Result Fault Info
info true none = ok (record { is_dir = true; mod_time = 0; size = 0 })
info false none = err not_exist
info directory (some f) = ok (record { is_dir = false; mod_time = f.1; size = length f.0 })

abbrev pub memory : FileSystem
memory = record {
  Disk = Files;
  mkdir_all = λ p d. done tt d;
  create = λ p d. done tt (write p ([], 0) d);
  append = λ p chunk d. change p (λ f. write p (f.0 ++ chunk, f.1) d) d (find p d);
  close = λ p d. done tt d;
  rename = λ p q d. change p (λ f. write q f (delete p d)) d (find p d);
  remove = λ p d. change p (λ f. delete p d) d (find p d);
  remove_all = λ p d. done tt (drop_tree p d);
  chtimes = λ p t d. change p (λ f. write p (f.0, t) d) d (find p d);
  stat = λ p d. info (is_directory p d) (find p d);
  read_dir_names = λ p d. ok (names_in p d);
  open_file = λ p d. read (find p d);
}

-- The laws, one by one.
read_holds : (o : Option File) (b : Bytes) → read o ≡ ok (ok b) → (t : ℕ) × (o ≡ some (b, t))
unfolding read
read_holds none b h = cc
read_holds (some (c, t)) b h = (t, cc)

read-write : (p b : Bytes) (t : ℕ) (d : Files) → Holds memory p b (write p (b, t) d)
unfolding read
read-write p b t d = rw (find-write_self p (b, t) d) refl

-- A call that changes one file changes the others as its effect does.
change-Keeps :
    (p q : Bytes) (f : File → Files) (d : Files) (o : Option File)
    → ((x : File) → find q (f x) ≡ find q d)
    → Keeps memory q d (final_state (change p f d o))
unfolding change
change-Keeps p q f d none h = refl
change-Keeps p q f d (some x) h = rw (h x) refl

change_done :
    (p : Bytes) (f : File → Files) (d d' : Files) (x : File)
    → change p f d (some x) ≡ done tt d'
    → f x ≡ d'
unfolding change
change_done p f d d' x h = cc

change_failed :
    (p q : Bytes) (f : File → Files) (d d' : Files) (o : Option File) (e : Fault)
    → change p f d o ≡ failed e d'
    → Keeps memory q d d'
unfolding change
change_failed p q f d d' none e h = let s : d ≡ d' = cc in rw s refl
change_failed p q f d d' (some x) e h = cc

module _ (p q b : Bytes) (d d' : Files) (h : Holds memory p b d) where
  memory_appended :
      (chunk : Bytes) → memory.append p chunk d ≡ done tt d' → Holds memory p (b ++ chunk) d'
  memory_appended chunk r =
      let (t, e) = read_holds (find p d) b h in
      subst (Holds memory p (b ++ chunk)) (change_done p _ d d' (b, t) (rw e at r))
        (read-write p (b ++ chunk) t d)

  memory_renamed : memory.rename p q d ≡ done tt d' → Holds memory q b d'
  memory_renamed r =
      let (t, e) = read_holds (find p d) b h in
      subst (Holds memory q b) (change_done p _ d d' (b, t) (rw e at r))
        (read-write q b t (delete p d))

  memory_sized : (i : Info) → memory.stat p d ≡ ok i → i.size ≡ length b
  unfolding info
  memory_sized i r =
      let (t, e) = read_holds (find p d) b h in size_of (is_directory p d) t (rw e at r)
    where
      size_of : (directory : Bool) (t : ℕ) → info directory (some (b, t)) ≡ ok i → i.size ≡ length b
      size_of true t r' = ground arith
      size_of false t r' = ground arith

memory_rename_frame :
    (p r q : Bytes) (d : Files)
    → q ≢ p
    → q ≢ r
    → Keeps memory q d (final_state (memory.rename p r d))
memory_rename_frame p r q d n n' =
    change-Keeps p q _ d (find p d)
      λ x. find-write_ne r q x (delete p d) n' ∙ find-delete_ne p q d n

memory_chtimes_frame :
    (p q : Bytes) (t : ℕ) (d : Files) → Keeps memory q d (final_state (memory.chtimes p t d))
memory_chtimes_frame p q t d = go (find p d) refl
  where
    touched : (x : File) → find p d ≡ some x → Keeps memory q d (write p (x.0, t) d)
    touched x e = elim (Bool-cases (q =? p)) [
      | inl same ↦
          let s = =?_sound q p same in
          ap (λ k. read (find k (write p (x.0, t) d))) s
          ∙ ap read (find-write_self p (x.0, t) d)
          ∙ unfold read in (ap read (sym e) ∙ ap (λ k. read (find k d)) (sym s))
      | inr other ↦
          ap read (find-write_ne p q (x.0, t) d (λ h. clash (sym other ∙ =?_complete q p h)))
    ]
      where
        clash : ¬ (false ≡ true)
        clash h = cc

    go :
        (o : Option File)
        → find p d ≡ o
        → Keeps memory q d (final_state (change p (λ f. write p (f.0, t) d) d o))
    go none e = unfold change in refl
    go (some x) e = unfold change in touched x e

pub memory_laws : FileSystemLaws memory
memory_laws = record {
  created = λ p d d' r.
      let e : write p ([], 0) d ≡ d' = cc in subst (Holds memory p []) e (read-write p [] 0 d);
  appended = λ p b chunk d d' h r. memory_appended p p b d d' h chunk r;
  closed = λ p b d d' h r. let e : d ≡ d' = cc in subst (Holds memory p b) e h;
  renamed = λ p q b d d' h r. memory_renamed p q b d d' h r;
  sized = λ p b i d h r. memory_sized p p b d d h i r;
  mkdir_frame = λ p q d. refl;
  create_frame = λ p q d n. ap read (find-write_ne p q ([], 0) d n);
  append_frame = λ p chunk q d n.
      change-Keeps p q _ d (find p d) (λ x. find-write_ne p q (x.0 ++ chunk, x.1) d n);
  close_frame = λ p q d n. refl;
  rename_frame = memory_rename_frame;
  rename_failed = λ p r e d d' h. change_failed p r _ d d' (find p d) e h;
  remove_frame = λ p q d n. change-Keeps p q _ d (find p d) (λ x. find-delete_ne p q d n);
  chtimes_frame = memory_chtimes_frame;
}

-- An archiver that writes each name and each body as they are; its digest is the bytes themselves.
abbrev pub plain : Archiver
plain = record {
  State = Unit {0};
  fresh = tt;
  header = λ e s. some (s, e.path ++ b':' ∷ []);
  body = λ e s. some (s, e.content ++ b';' ∷ []);
  close_tar = λ s. some (s, []);
  close_gzip = λ s. some (s, b'.' ∷ []);
  sha256 = λ b. b;
}
