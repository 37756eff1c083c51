-- ===== src/Operator/Cycle.antt =====
-- internal/operator/cycle.go: the breadth-first walk that looks for a dependency cycle through a
-- snippet. The client's Gets are parameters, read from one state of the cluster for a whole walk. The
-- loops over the queue and up the parents take fuel.
pub mod Graph
pub mod Path
pub mod Visit
pub mod Verdict
pub mod Absence
pub mod Termination
pub mod Examples
use jaas.Prelude.{
  ℕ, zero, suc, Bool, true, false, ◌||◌, not, List, [], ◌∷◌, ◌++◌, Option, none, some, Bytes, codes,
  ◌=?◌, length, if◌then◌else◌, Result, ok, err, map,
}
use jaas.Operator.Objects.{
  NamespacedName, is_same, SourceRef, LibraryRef, JsonnetSnippet, JsonnetLibrary, name_of, Got, got,
  not_found, get_failed,
}

-- The kind of source that a snippet publishes.
abbrev pub external_artifact : Bytes
external_artifact = codes "ExternalArtifact"

abbrev pub jsonnet_library : Bytes
jsonnet_library = codes "JsonnetLibrary"

-- The errors that end a walk: a Get that failed and not because there is no such object.
pub data CycleError : Type 0 where
  library_get_failed snippet_get_failed : CycleError

-- An empty namespace defaults to the owner's.
abbrev pub or_owner : Bytes → Bytes → Bytes
or_owner ns owner_ns = if ns =? [] then owner_ns else ns

-- externalArtifactDep
unfoldable pub external_artifact_dep : Option SourceRef → Bytes → Option NamespacedName
external_artifact_dep none owner_ns = none
external_artifact_dep (some ref) owner_ns =
    if not (ref.kind =? external_artifact)
    then none
    else some (record { namespace = or_owner ref.namespace owner_ns; name = ref.name })

-- hasCycleSourceEdge
unfoldable pub has_cycle_source_edge : JsonnetSnippet → Bool
has_cycle_source_edge snip = elim snip.libraries [
  | l ∷ ls ↦ true
  | [] ↦ elim snip.source_ref [ none ↦ false | some ref ↦ ref.kind =? external_artifact ]
]

abbrev pub with_dep : Option NamespacedName → List NamespacedName → List NamespacedName
with_dep none ids = ids
with_dep (some id) ids = ids ++ id ∷ []

unfoldable pub member_id : NamespacedName → List NamespacedName → Bool
member_id id [] = false
member_id id (x ∷ xs) = is_same id x || member_id id xs

-- A read of the map of parents.
unfoldable pub parent_of :
    NamespacedName → List (NamespacedName × NamespacedName) → Option NamespacedName
parent_of id [] = none
parent_of id ((k, p) ∷ parent) = if is_same k id then some p else parent_of id parent

-- The climb of reconstructCyclePath from `p` towards the start: what it puts on the stack.
unfoldable pub climb :
    ℕ
    → List (NamespacedName × NamespacedName)
    → NamespacedName
    → NamespacedName
    → List NamespacedName
climb zero parent start p = []
climb (suc fuel) parent start p =
    if is_same p start
    then []
    else elim (parent_of p parent) [ none ↦ p ∷ [] | some next ↦ p ∷ climb fuel parent start next ]

-- The stack backwards, and then the rest.
unfoldable pub backward : List NamespacedName → List NamespacedName → List NamespacedName
backward [] rest = rest
backward (s ∷ stack) rest = backward stack (s ∷ rest)

-- reconstructCyclePath
unfoldable pub reconstruct_cycle_path :
    List (NamespacedName × NamespacedName) → NamespacedName → NamespacedName → List NamespacedName
reconstruct_cycle_path parent cur start =
    if is_same cur start
    then start ∷ start ∷ []
    else start ∷ backward (climb (suc (length parent)) parent start cur) (start ∷ [])

-- NamespacedName.String
abbrev pub id_string : NamespacedName → Bytes
id_string id = id.namespace ++ b'/' ∷ id.name

-- The arrow of the message, in UTF-8.
abbrev pub arrow : Bytes
arrow = 32 ∷ 226 ∷ 134 ∷ 146 ∷ 32 ∷ []

unfoldable pub format_rest : List NamespacedName → Bytes
format_rest [] = []
format_rest (p ∷ path) = arrow ++ id_string p ++ format_rest path

-- formatCyclePath
unfoldable pub format_cycle_path : List NamespacedName → Bytes
format_cycle_path [] = []
format_cycle_path (p ∷ path) = id_string p ++ format_rest path

-- What the loop over the dependencies of one snippet does: it finds the start among them, or fails,
-- or goes on with more visited, more parents and a longer queue.
pub record Walk : Type 0 where
  pub visited : List NamespacedName
  pub parent : List (NamespacedName × NamespacedName)
  pub queue : List JsonnetSnippet

pub data Scan : Type 0 where
  closes : List (NamespacedName × NamespacedName) → Scan
  fails : CycleError → Scan
  goes : Walk → Scan

module _ (get_snippet : NamespacedName → Got JsonnetSnippet) (start : NamespacedName) where
  -- The loop over the dependencies of the snippet `cur`.
  unfoldable pub scan : NamespacedName → List NamespacedName → Walk → Scan
  scan cur [] w = goes w
  scan cur (dep ∷ deps) w =
      if is_same dep start
      then closes w.parent
      else if member_id dep w.visited
      then scan cur deps w
      else elim (get_snippet dep) [
        | get_failed ↦ fails snippet_get_failed
        | not_found ↦
            scan cur deps (record {
              visited = dep ∷ w.visited;
              parent = (dep, cur) ∷ w.parent;
              queue = w.queue;
            })
        | got next ↦ scan cur deps (record {
          visited = dep ∷ w.visited;
          parent = (dep, cur) ∷ w.parent;
          queue = w.queue ++ next ∷ [];
        })
      ]

module _ (get_snippet : NamespacedName → Got JsonnetSnippet)
    (get_library : NamespacedName → Got JsonnetLibrary) where
  -- librarySourceRef
  unfoldable pub library_source_ref :
      LibraryRef → Bytes → Result CycleError (Option SourceRef × Bytes)
  library_source_ref ref owner_ns =
      if ref.kind =? jsonnet_library
      then elim (get_library
          (record { namespace = or_owner ref.namespace owner_ns; name = ref.name })) [
            | got lib ↦ ok (lib.source_ref, or_owner ref.namespace owner_ns)
            | not_found ↦ ok (none, or_owner ref.namespace owner_ns)
            | get_failed ↦ err library_get_failed
          ]
      else ok (none, owner_ns)

  -- The loop of snippetDependencies over the libraries.
  unfoldable pub library_dependencies :
      List LibraryRef → Bytes → List NamespacedName → Result CycleError (List NamespacedName)
  library_dependencies [] ns ids = ok ids
  library_dependencies (ref ∷ refs) ns ids = elim (library_source_ref ref ns) [
    | err x ↦ err x
    | ok (src, lib_ns) ↦
        library_dependencies refs ns (with_dep (external_artifact_dep src lib_ns) ids)
  ]

  -- snippetDependencies
  unfoldable pub snippet_dependencies : JsonnetSnippet → Result CycleError (List NamespacedName)
  snippet_dependencies snip =
      library_dependencies snip.libraries snip.namespace
        (with_dep (external_artifact_dep snip.source_ref snip.namespace) [])

  module _ (start : NamespacedName) where
    -- The loop over the queue; `none` means that the fuel ran out.
    unfoldable pub walk :
        ℕ
        → List NamespacedName
        → List (NamespacedName × NamespacedName)
        → List JsonnetSnippet
        → Option (Result CycleError (Option (List NamespacedName)))
    walk fuel visited parent [] = some (ok none)
    walk zero visited parent (cur ∷ queue) = none
    walk (suc fuel) visited parent (cur ∷ queue) = elim (snippet_dependencies cur) [
      | err x ↦ some (err x)
      | ok deps ↦
          elim (scan get_snippet start (name_of cur) deps
            (record { visited = visited; parent = parent; queue = queue })) [
              | closes parent' ↦
                  some (ok (some (reconstruct_cycle_path parent' (name_of cur) start)))
              | fails x ↦ some (err x)
              | goes w ↦ walk fuel w.visited w.parent w.queue
            ]
    ]

  -- detectSourceRefCycle, with the path that it formats. A nil snippet is none of these.
  unfoldable pub detect_source_ref_cycle :
      ℕ → JsonnetSnippet → Option (Result CycleError (Option (List NamespacedName)))
  detect_source_ref_cycle fuel snip =
      if not (has_cycle_source_edge snip)
      then some (ok none)
      else walk (name_of snip) fuel (name_of snip ∷ []) [] (snip ∷ [])
