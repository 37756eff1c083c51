-- ===== src/Operator/Cycle/Examples.antt =====
-- Two snippets of one namespace that source each other, and runs of the detector on them.
use jaas.Prelude.{
  ◌≡◌, false, refl, sym, Bool-cases, inl, inr, List, [], ◌∷◌, Option, none, some, Result, ok, Bytes,
  codes, ◌=?◌, In, if◌then◌else◌, arith, ◌++◌,
}
use jaas.Operator.Objects.{
  NamespacedName, is_same, is_same_sound, SourceRef, LibraryRef, JsonnetSnippet, JsonnetLibrary,
  name_of, Got, got, not_found,
}
use jaas.Operator.Cycle.{
  CycleError, external_artifact, jsonnet_library, external_artifact_dep, has_cycle_source_edge,
  member_id, parent_of, climb, backward, reconstruct_cycle_path, format_rest, format_cycle_path,
  scan, library_source_ref, library_dependencies, snippet_dependencies, walk,
  detect_source_ref_cycle,
}
use jaas.Operator.Cycle.Graph.{IsCycle, Reaches}
use jaas.Operator.Cycle.Verdict.{detect_source_ref_cycle-IsCycle}
use jaas.Operator.Cycle.Absence.{detect_source_ref_cycle-absent}
use jaas.Operator.Cycle.Termination.{detect_source_ref_cycle_ends}

abbrev pub id : Bytes → NamespacedName
id name = record { namespace = codes "n"; name = name }

abbrev pub snippet : Bytes → Option SourceRef → List LibraryRef → JsonnetSnippet
snippet name src libs = record {
  namespace = codes "n";
  name = name;
  uid = name;
  generation = 1;
  deletion_timestamp = 0;
  service_account_name = codes "sa";
  entry_file = [];
  files = [];
  source_ref = src;
  libraries = libs;
  tlas = [];
  external_variables = [];
  output = [];
  suspend = false;
  history = 2;
  interval = 60;
  status_history = [];
}

abbrev pub sourced : Bytes → Option SourceRef
sourced name =
    some (record {
      api_version = [];
      kind = external_artifact;
      name = name;
      namespace = [];
      path = [];
    })

-- a sources b; b imports the library l; l sources a; c imports l too.
abbrev pub a : JsonnetSnippet
a = snippet (codes "a") (sourced (codes "b")) []

abbrev pub b : JsonnetSnippet
b = snippet (codes "b") none (
    record {
      api_version = [];
      kind = jsonnet_library;
      name = codes "l";
      namespace = [];
      import_path = [];
    }
    ∷ [])

abbrev pub c : JsonnetSnippet
c = snippet (codes "c") none (
    record {
      api_version = [];
      kind = jsonnet_library;
      name = codes "l";
      namespace = [];
      import_path = [];
    }
    ∷ [])

unfoldable pub get_snippet : NamespacedName → Got JsonnetSnippet
get_snippet i =
    if is_same i (id (codes "a"))
    then got a
    else if is_same i (id (codes "b"))
    then got b
    else not_found

unfoldable pub get_library : NamespacedName → Got JsonnetLibrary
get_library i =
    if is_same i (id (codes "l"))
    then got (record { namespace = codes "n"; name = codes "l"; source_ref = sourced (codes "a") })
    else not_found

abbrev cycle : List NamespacedName
cycle = id (codes "a") ∷ id (codes "b") ∷ id (codes "a") ∷ []

found_cycle : detect_source_ref_cycle get_snippet get_library 3 a ≡ some (ok (some cycle))
unfolding detect_source_ref_cycle has_cycle_source_edge ◌=?◌ walk snippet_dependencies
    library_dependencies scan external_artifact_dep is_same member_id get_snippet library_source_ref
    get_library reconstruct_cycle_path backward climb parent_of
found_cycle = refl

no_cycle : detect_source_ref_cycle get_snippet get_library 3 c ≡ some (ok none)
unfolding detect_source_ref_cycle has_cycle_source_edge walk snippet_dependencies
    library_dependencies library_source_ref ◌=?◌ get_library is_same scan external_artifact_dep
    member_id get_snippet
no_cycle = refl

formatted :
    format_cycle_path (id (codes "a") ∷ id (codes "b") ∷ [])
    ≡ codes "n/a" ++ 32 ∷ 226 ∷ 134 ∷ 146 ∷ 32 ∷ codes "n/b"
unfolding format_cycle_path format_rest
formatted = refl

universe : List NamespacedName
universe = id (codes "a") ∷ id (codes "b") ∷ []

pub get_snippet-named :
    (i : NamespacedName) (s : JsonnetSnippet) → get_snippet i ≡ got s → name_of s ≡ i
unfolding get_snippet
get_snippet-named i s h = elim (Bool-cases (is_same i (id (codes "a")))) [
  | inl e ↦
      let hit : got a ≡ got s = rw e at h in
      let same : a ≡ s = cc in rw (sym same) (sym (is_same_sound i (id (codes "a")) e))
  | inr e ↦ elim (Bool-cases (is_same i (id (codes "b")))) [
    | inl f ↦
        let hit : got b ≡ got s = rw (e, f) at h in
        let same : b ≡ s = cc in rw (sym same) (sym (is_same_sound i (id (codes "b")) f))
    | inr f ↦ let bad : not_found ≡ got s = rw (e, f) at h in cc
  ]
]

get_snippet-covered :
    (i : NamespacedName) (s : JsonnetSnippet) → get_snippet i ≡ got s → In i universe
unfolding get_snippet universe
get_snippet-covered i s h = elim (Bool-cases (is_same i (id (codes "a")))) [
  | inl e ↦ inl (is_same_sound i (id (codes "a")) e)
  | inr e ↦ elim (Bool-cases (is_same i (id (codes "b")))) [
    | inl f ↦ inr (inl (is_same_sound i (id (codes "b")) f))
    | inr f ↦ let bad : not_found ≡ got s = rw (e, f) at h in cc
  ]
]

detect_source_ref_cycle-IsCycle_example : IsCycle get_snippet get_library a cycle
detect_source_ref_cycle-IsCycle_example =
    detect_source_ref_cycle-IsCycle get_snippet get_library a get_snippet-named 3 cycle found_cycle

detect_source_ref_cycle-absent_example : ¬ Reaches get_snippet get_library c (name_of c)
detect_source_ref_cycle-absent_example =
    detect_source_ref_cycle-absent get_snippet get_library c get_snippet-named 3 no_cycle

detect_source_ref_cycle_ends_example :
    (r : Result CycleError (Option (List NamespacedName))) × (detect_source_ref_cycle get_snippet
        get_library 3 a
      ≡ some r)
unfolding universe
detect_source_ref_cycle_ends_example =
    detect_source_ref_cycle_ends get_snippet get_library universe get_snippet-covered 3 a
      (omega arith)
