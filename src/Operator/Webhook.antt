-- ===== src/Operator/Webhook.antt =====
-- internal/operator/webhook.go: the admission checks on a snippet, over the cluster's objects as the
-- cycle detector reads them. A text that is empty stands for "nothing found", as in the source.
pub mod Checks
pub mod Verdict
pub mod Advice
pub mod Update
mod Equality
mod Examples
use jaas.Prelude.{
  ℕ, ◌+◌, Bool, true, false, ◌&&◌, ◌||◌, not, List, [], ◌∷◌, ◌++◌, Option, none, some, Bytes, codes,
  ◌=?◌, member, length, is_empty, all, ltb, leb, ◌==◌, if◌then◌else◌, Result, ok, err, map,
}
use jaas.Prelude.Order.{sort_strings}
use jaas.Operator.Objects.{
  NamespacedName, SourceRef, LibraryRef, JsonnetVariable, JsonnetSnippet, JsonnetLibrary, Got,
}
use jaas.Operator.Cycle.{CycleError, external_artifact, detect_source_ref_cycle, format_cycle_path}
use jaas.Sources.Entry.{safe_entry_name}

-- EntryFileName
abbrev pub entry_file_name : Bytes
entry_file_name = codes "main.jsonnet"

-- OutputSource
abbrev pub output_source : Bytes
output_source = codes "source"

-- effectiveLibraryAlias
unfoldable pub effective_library_alias : LibraryRef → Bytes
effective_library_alias ref = if not (ref.import_path =? []) then ref.import_path else ref.name

unfoldable pub is_alias_byte : ℕ → Bool
is_alias_byte c =
    (leb 65 c && leb c 90)
    || (leb 97 c && leb c 122)
    || (leb 48 c && leb c 57)
    || c == 46
    || c == 95
    || c == 45

-- safeLibraryAlias. A rune beyond ASCII is made of bytes beyond ASCII, and is refused like them.
unfoldable pub safe_library_alias : Bytes → Bool
safe_library_alias a =
    if (a =? []) || (a =? codes ".") || (a =? codes "..") then false else all is_alias_byte a

-- invalidLibraryImportAlias
unfoldable pub invalid_library_import_alias : List LibraryRef → Bytes
invalid_library_import_alias [] = []
invalid_library_import_alias (ref ∷ refs) =
    let rest = invalid_library_import_alias refs in
    if not (safe_library_alias (effective_library_alias ref))
    then effective_library_alias ref
    else rest

unfoldable pub duplicate_among : List Bytes → List LibraryRef → Bytes
duplicate_among seen [] = []
duplicate_among seen (ref ∷ refs) =
    let key = (if ref.import_path =? [] then ref.name else ref.import_path) in
    let rest = duplicate_among (key ∷ seen) refs in if member key seen then key else rest

-- duplicateLibraryImportPath
unfoldable pub duplicate_library_import_path : List LibraryRef → Bytes
duplicate_library_import_path refs = if ltb (length refs) 2 then [] else duplicate_among [] refs

unfoldable pub first_known : List Bytes → List LibraryRef → Bytes
first_known known [] = []
first_known known (ref ∷ refs) =
    let alias = (if ref.import_path =? [] then ref.name else ref.import_path) in
    let rest = first_known known refs in if member alias known then alias else rest

-- libraryAliasCollision
unfoldable pub library_alias_collision : List Bytes → List LibraryRef → Bytes
library_alias_collision known refs = if is_empty known then [] else first_known known refs

unfoldable pub hits : List Bytes → List JsonnetVariable → List Bytes
hits names [] = []
hits names (v ∷ vs) =
    let rest = hits names vs in if member v.name names then v.name ∷ rest else rest

-- conflicts, against the names of the operator's variables.
unfoldable pub conflicts : List Bytes → List JsonnetVariable → List Bytes
conflicts names vs = if is_empty names || is_empty vs then [] else sort_strings (hits names vs)

-- The messages of softWarnings.
pub data Warning : Type 0 where
  entry_file_missing : Bytes → Warning
  self_reference : Bytes → Warning

-- warnEntryFileMissing
unfoldable pub warn_entry_file_missing : JsonnetSnippet → Option Warning
warn_entry_file_missing snip = elim snip.source_ref [
  | some ref ↦ none
  | none ↦
      if is_empty snip.files
      then none
      else (let entry = (if snip.entry_file =? [] then entry_file_name else snip.entry_file) in
          if not (member entry (map (λ f. f.0) snip.files))
          then some (entry_file_missing entry)
          else none)
]

-- warnLikelySelfReference
unfoldable pub warn_likely_self_reference : JsonnetSnippet → Option Warning
warn_likely_self_reference snip = elim snip.source_ref [
  | none ↦ none
  | some ref ↦
      if not (ref.kind =? external_artifact)
      then none
      else if not (ref.name =? snip.name)
      then none
      else if (ref.namespace =? []) || (ref.namespace =? snip.namespace)
      then some (self_reference ref.name)
      else none
]

abbrev pub with_warning : Option Warning → List Warning → List Warning
with_warning none w = w
with_warning (some msg) w = w ++ msg ∷ []

-- softWarnings
unfoldable pub soft_warnings : JsonnetSnippet → List Warning
soft_warnings snip =
    with_warning (warn_likely_self_reference snip) (with_warning (warn_entry_file_missing snip) [])

-- SnippetValidator: the names of the operator's variables, the aliases of the mounted libraries, and
-- whether there is a reader for the cycle check.
pub record SnippetValidator : Type 0 where
  pub operator_ext_vars : List Bytes
  pub known_library_aliases : List Bytes
  pub has_cycle_reader : Bool

pub data AdmissionError : Type 0 where
  variables_conflict : List Bytes → AdmissionError
  shadows_library invalid_alias duplicate_import unsafe_file forms_cycle : Bytes → AdmissionError
  cycle_check_failed : CycleError → AdmissionError

-- The loop of validate over the names of the files.
unfoldable pub unsafe_entry : List (Bytes × Bytes) → Option Bytes
unsafe_entry [] = none
unsafe_entry ((name, body) ∷ files) =
    let rest = unsafe_entry files in if not (safe_entry_name name) then some name else rest

unfoldable pub check_files : JsonnetSnippet → Option Bytes
check_files snip = if snip.output =? output_source then unsafe_entry snip.files else none

-- What validate does with the answer of the cycle detector; `none` means that the walk ran out of fuel.
unfoldable pub after_walk :
    JsonnetSnippet
    → Option (Result CycleError (Option (List NamespacedName)))
    → Option (Result AdmissionError (List Warning))
after_walk snip none = none
after_walk snip (some (err x)) = some (err (cycle_check_failed x))
after_walk snip (some (ok (some path))) = some (err (forms_cycle (format_cycle_path path)))
after_walk snip (some (ok none)) = some (ok (soft_warnings snip))

-- reflect.DeepEqual, at the types of the fields that are compared.
pub record DeepEqual : Type 0 where
  pub variables : List JsonnetVariable → List JsonnetVariable → Bool
  pub libraries : List LibraryRef → List LibraryRef → Bool
  pub source_refs : Option SourceRef → Option SourceRef → Bool
  pub file_maps : List (Bytes × Bytes) → List (Bytes × Bytes) → Bool

-- validationInputsUnchanged
unfoldable pub validation_inputs_unchanged : DeepEqual → JsonnetSnippet → JsonnetSnippet → Bool
validation_inputs_unchanged de old snip =
    de.variables old.external_variables snip.external_variables
    && de.libraries old.libraries snip.libraries
    && de.source_refs old.source_ref snip.source_ref
    && de.file_maps old.files snip.files
    && old.output =? snip.output

module _ (get_snippet : NamespacedName → Got JsonnetSnippet)
    (get_library : NamespacedName → Got JsonnetLibrary) where
  -- The last part of validate.
  unfoldable pub check_cycle :
      SnippetValidator → ℕ → JsonnetSnippet → Option (Result AdmissionError (List Warning))
  check_cycle v fuel snip =
      if v.has_cycle_reader
      then after_walk snip (detect_source_ref_cycle get_snippet get_library fuel snip)
      else some (ok (soft_warnings snip))

  -- validate
  unfoldable pub validate :
      SnippetValidator → ℕ → JsonnetSnippet → Option (Result AdmissionError (List Warning))
  validate v fuel snip =
      if not (is_empty (conflicts v.operator_ext_vars snip.external_variables))
      then some (err (variables_conflict (conflicts v.operator_ext_vars snip.external_variables)))
      else if not (library_alias_collision v.known_library_aliases snip.libraries =? [])
      then some
          (err (shadows_library (library_alias_collision v.known_library_aliases snip.libraries)))
      else if not (invalid_library_import_alias snip.libraries =? [])
      then some (err (invalid_alias (invalid_library_import_alias snip.libraries)))
      else if not (duplicate_library_import_path snip.libraries =? [])
      then some (err (duplicate_import (duplicate_library_import_path snip.libraries)))
      else elim (check_files snip) [
        | some name ↦ some (err (unsafe_file name))
        | none ↦ check_cycle v fuel snip
      ]

  module _ (de : DeepEqual) where
    -- ValidateUpdate; the old object may be nil.
    unfoldable pub validate_update :
        SnippetValidator
        → ℕ
        → Option JsonnetSnippet
        → JsonnetSnippet
        → Option (Result AdmissionError (List Warning))
    validate_update v fuel old snip =
        if not (snip.deletion_timestamp == 0) then some (ok []) else elim old [
          | none ↦ validate v fuel snip
          | some o ↦
              if validation_inputs_unchanged de o snip then some (ok []) else validate v fuel snip
        ]
