-- ===== src/Eval/Importer.antt =====
-- internal/eval/importer.go: InMemoryImporter. The functions of Go's package path are parameters; a call
-- of the importer is one step. Each instance of jsonnet.Contents has a number of its own, since go-jsonnet
-- compares instances.
pub mod Injective
pub mod Instances
mod Examples
use jaas.Prelude.{
  ℕ, ◌+◌, Bool, true, false, not, ◌||◌, ◌&&◌, List, [], ◌∷◌, ◌++◌, Option, none, some, Result, ok,
  err, Bytes, codes, ◌=?◌, member, map, if◌then◌else◌,
}
use jaas.Prelude.Text.{cut, has_prefix}
use jaas.Prelude.Order.{sort_strings}

abbrev pub Files : Type 0
Files = List (Bytes × Bytes)

-- path.Clean, path.Dir and path.Join of two elements.
pub record Paths : Type 0 where
  pub clean : Bytes → Bytes
  pub dir : Bytes → Bytes
  pub join : Bytes → Bytes → Bytes

-- The fields of InMemoryImporter that a caller sets: the files of the snippet, the path of the entry file,
-- and the files of each library under its alias.
pub record InMemoryImporter : Type 0 where
  pub self : Files
  pub entry_path : Bytes
  pub libraries : List (Bytes × Files)

-- location: the alias is empty for the snippet.
pub record Location : Type 0 where
  pub alias : Bytes
  pub path_within : Bytes

-- jsonnet.Contents
pub record Contents : Type 0 where
  pub instance_of : ℕ
  pub body : Bytes

-- The memory of the importer: cache, foundAtContents and locs, and the number of the next instance.
pub record Memory : Type 0 where
  pub cache : List (Bytes × (Contents × Bytes))
  pub found_at_contents : List (Bytes × Contents)
  pub locs : List (Bytes × Location)
  pub next : ℕ

abbrev pub empty_memory : Memory
empty_memory = record { cache = []; found_at_contents = []; locs = []; next = 0 }

pub data ImportError : Type 0 where
  empty_path : ImportError
  no_default_entry : Bytes → ImportError
  not_in_library : Bytes → Bytes → ImportError
  no_match : Bytes → ImportError

-- A read of a map with text keys.
unfoldable pub find : {A : Type 0} → Bytes → List (Bytes × A) → Option A
find k [] = none
find k ((name, a) ∷ entries) = if k =? name then some a else find k entries

-- defaultLibraryEntryFile
abbrev pub default_library_entry_file : Bytes
default_library_entry_file = codes "main.libsonnet"

module _ (paths : Paths) (im : InMemoryImporter) where
  open paths use {clean, dir, join}

  -- The files of a library, none where there is no such alias.
  unfoldable pub library_files : Bytes → Files
  library_files alias = elim (find alias im.libraries) [ none ↦ [] | some files ↦ files ]

  -- fileIn
  unfoldable pub file_in : Bytes → Bytes → Option Bytes
  file_in alias p = if alias =? [] then find p im.self else find p (library_files alias)

  -- The name that record gives to a location.
  unfoldable pub found_at_of : Location → Bytes
  found_at_of loc =
      if loc.alias =? []
      then loc.path_within
      else if member (loc.alias ++ b'/' ∷ loc.path_within) (map (λ f. f.0) im.self)
      then 0 ∷ loc.alias ++ b'/' ∷ loc.path_within
      else loc.alias ++ b'/' ∷ loc.path_within

  -- locationOf
  unfoldable pub location_of : Memory → Bytes → Location
  location_of m imported_from = elim (find imported_from m.locs) [
    | some loc ↦ loc
    | none ↦ record { alias = []; path_within = im.entry_path }
  ]

  -- sortedAliases
  unfoldable pub sorted_aliases : List Bytes
  sorted_aliases = sort_strings (map (λ l. l.0) im.libraries)

  -- The search of a path in the libraries, in the order of their aliases.
  unfoldable pub search_libraries : Bytes → List Bytes → Option (Bytes × Location)
  search_libraries p [] = none
  search_libraries p (alias ∷ aliases) = elim (find p (library_files alias)) [
    | some body ↦ some (body, record { alias = alias; path_within = p })
    | none ↦ search_libraries p aliases
  ]

  -- The search path: the snippet, and then the libraries.
  unfoldable pub vendor_search : Bytes → Bytes → Result ImportError (Bytes × Location)
  vendor_search imported_path p = elim (find p im.self) [
    | some body ↦ ok (body, record { alias = []; path_within = p })
    | none ↦ elim (search_libraries p sorted_aliases) [
      | some hit ↦ ok hit
      | none ↦ err (no_match imported_path)
    ]
  ]

  -- The steps of resolve after the one relative to the importing file.
  unfoldable pub resolve_absolute : Bytes → Result ImportError (Bytes × Location)
  resolve_absolute imported_path = elim (cut imported_path b'/') [
    | none ↦ elim (find imported_path im.libraries) [
      | none ↦ vendor_search imported_path (clean imported_path)
      | some files ↦ elim (find default_library_entry_file files) [
        | none ↦ err (no_default_entry imported_path)
        | some body ↦
            ok (body, record { alias = imported_path; path_within = default_library_entry_file })
      ]
    ]
    | some (alias, rest) ↦ elim (find alias im.libraries) [
      | none ↦ vendor_search imported_path (clean imported_path)
      | some files ↦ elim (find (clean rest) files) [
        | none ↦ err (not_in_library (clean rest) alias)
        | some body ↦ ok (body, record { alias = alias; path_within = clean rest })
      ]
    ]
  ]

  -- The file relative to the importing one, unless the path leads out of its root.
  unfoldable pub relative : Location → Bytes → Option (Bytes × Location)
  relative src imported_path =
      let rel = clean (join (dir src.path_within) imported_path) in
      if (rel =? codes "..") || has_prefix rel (codes "../")
      then none
      else elim (file_in src.alias rel) [
        | none ↦ none
        | some body ↦ some (body, record { alias = src.alias; path_within = rel })
      ]

  -- resolve, up to the record of the location.
  unfoldable pub resolve : Memory → Bytes → Bytes → Result ImportError (Bytes × Location)
  resolve m imported_from imported_path =
      if imported_path =? []
      then err empty_path
      else elim (relative (location_of m imported_from) imported_path) [
        | some hit ↦ ok hit
        | none ↦ resolve_absolute imported_path
      ]

  -- record
  unfoldable pub record_location : Location → Memory → Bytes × Memory
  record_location loc m = (found_at_of loc, record m { locs = (found_at_of loc, loc) ∷ m.locs })

  -- contentsFor
  unfoldable pub contents_for : Bytes → Bytes → Memory → Contents × Memory
  contents_for found_at body m = elim (find found_at m.found_at_contents) [
    | some c ↦ (c, m)
    | none ↦ (
      record { instance_of = m.next; body = body },
      record m {
        found_at_contents =
            (found_at, record { instance_of = m.next; body = body }) ∷ m.found_at_contents;
        next = m.next + 1;
      },
    )
  ]

  abbrev pub cache_key : Bytes → Bytes → Bytes
  cache_key imported_from imported_path = imported_from ++ 0 ∷ imported_path

  -- The end of Import for a file that was resolved.
  unfoldable pub import_resolved : Bytes → Bytes → Location → Memory → (Contents × Bytes) × Memory
  import_resolved key body loc m =
      let recorded = record_location loc m in
      let made = contents_for recorded.0 body recorded.1 in
      ((made.0, recorded.0), record made.1 { cache = (key, (made.0, recorded.0)) ∷ made.1.cache })

  -- Import
  unfoldable pub import_file :
      Bytes → Bytes → Memory → Result ImportError (Contents × Bytes) × Memory
  import_file imported_from imported_path m =
      elim (find (cache_key imported_from imported_path) m.cache) [
        | some hit ↦ (ok hit, m)
        | none ↦ elim (resolve m imported_from imported_path) [
          | err x ↦ (err x, m)
          | ok (body, loc) ↦
              let done = import_resolved (cache_key imported_from imported_path) body loc m in
              (ok done.0, done.1)
        ]
      ]

  -- A sequence of imports, and the memory that it leaves.
  unfoldable pub import_all : List (Bytes × Bytes) → Memory → Memory
  import_all [] m = m
  import_all ((from, p) ∷ calls) m = import_all calls (import_file from p m).1
