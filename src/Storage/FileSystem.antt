-- ===== src/Storage/FileSystem.antt =====
-- internal/storage/fs.go: the file system that the store talks to, and the tar, gzip and SHA-256
-- code of the standard library. Both are parameters: a record of operations, with the laws that the
-- store relies on in a record of their own.
pub mod Memory
use jaas.Prelude.{ℕ, ◌≡◌, ◌≢◌, List, [], ◌++◌, Bool, Option, Bytes, Result, ok, length}
use jaas.Prelude.Action.{Action, Outcome, done, final_state}

-- os.IsNotExist tells the first kind of error from the others.
pub data Fault : Type 0 where
  not_exist other_fault : Fault

-- os.FileInfo
pub record Info : Type 0 where
  pub is_dir : Bool
  pub mod_time : ℕ
  pub size : ℕ

-- FileEntry
pub record FileEntry : Type 0 where
  pub path : Bytes
  pub content : Bytes

-- fileSystem. `create`, `append` and `close` are the calls on the io.WriteCloser of a path;
-- `open_file` is FS().Open, and its inner result is that of reading the file to its end.
pub record FileSystem : Type 1 where
  pub Disk : Type 0
  pub mkdir_all : Bytes → Action Disk Fault (Unit {0})
  pub create : Bytes → Action Disk Fault (Unit {0})
  pub append : Bytes → Bytes → Action Disk Fault (Unit {0})
  pub close : Bytes → Action Disk Fault (Unit {0})
  pub rename : Bytes → Bytes → Action Disk Fault (Unit {0})
  pub remove : Bytes → Action Disk Fault (Unit {0})
  pub remove_all : Bytes → Action Disk Fault (Unit {0})
  pub chtimes : Bytes → ℕ → Action Disk Fault (Unit {0})
  pub stat : Bytes → Disk → Result Fault Info
  pub read_dir_names : Bytes → Disk → Result Fault (List Bytes)
  pub open_file : Bytes → Disk → Result Fault (Result Fault Bytes)

-- tar.Writer over gzip.Writer: each call gives the bytes that reach the file, or fails.
pub record Archiver : Type 1 where
  pub State : Type 0
  pub fresh : State
  pub header : FileEntry → State → Option (State × Bytes)
  pub body : FileEntry → State → Option (State × Bytes)
  pub close_tar : State → Option (State × Bytes)
  pub close_gzip : State → Option (State × Bytes)
  pub sha256 : Bytes → Bytes

module _ (fs : FileSystem) where
  open fs use {Disk, mkdir_all, create, append, close, rename, remove, chtimes, stat, open_file}

  -- A file that can be read to its end holds these bytes.
  abbrev pub Holds : Bytes → Bytes → Disk → Type 0
  Holds p b d = open_file p d ≡ ok (ok b)

  -- What a call leaves alone: the contents of every file but those at the paths it is about.
  abbrev pub Keeps : Bytes → Disk → Disk → Type 0
  Keeps q d d' = open_file q d' ≡ open_file q d

  -- The documented behaviour of the calls that the proofs rely on, for paths as the store writes them:
  -- clean paths of files. The store renames no directory and spells no path in two ways.
  pub record FileSystemLaws : Type 0 where
    pub created : (p : Bytes) (d d' : Disk) → create p d ≡ done tt d' → Holds p [] d'
    pub appended :
        (p b chunk : Bytes) (d d' : Disk)
        → Holds p b d
        → append p chunk d ≡ done tt d'
        → Holds p (b ++ chunk) d'
    pub closed : (p b : Bytes) (d d' : Disk) → Holds p b d → close p d ≡ done tt d' → Holds p b d'
    pub renamed :
        (p q b : Bytes) (d d' : Disk) → Holds p b d → rename p q d ≡ done tt d' → Holds q b d'
    pub sized :
        (p b : Bytes) (i : Info) (d : Disk) → Holds p b d → stat p d ≡ ok i → i.size ≡ length b
    pub mkdir_frame : (p q : Bytes) (d : Disk) → Keeps q d (final_state (mkdir_all p d))
    pub create_frame : (p q : Bytes) (d : Disk) → q ≢ p → Keeps q d (final_state (create p d))
    pub append_frame :
        (p chunk q : Bytes) (d : Disk) → q ≢ p → Keeps q d (final_state (append p chunk d))
    pub close_frame : (p q : Bytes) (d : Disk) → q ≢ p → Keeps q d (final_state (close p d))
    pub rename_frame :
        (p r q : Bytes) (d : Disk) → q ≢ p → q ≢ r → Keeps q d (final_state (rename p r d))
    pub rename_failed :
        (p r : Bytes) (e : Fault) (d d' : Disk) → rename p r d ≡ Outcome.failed e d' → Keeps r d d'
    pub remove_frame : (p q : Bytes) (d : Disk) → q ≢ p → Keeps q d (final_state (remove p d))
    pub chtimes_frame : (p q : Bytes) (t : ℕ) (d : Disk) → Keeps q d (final_state (chtimes p t d))
