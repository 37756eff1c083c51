-- ===== src/Operator/SpecChecks.antt =====
-- internal/operator/reconciler.go: the checks of the spec that a reconcile makes before any other work.
-- A message is modelled as the values that it names.
pub mod Agreement
use jaas.Prelude.{
  ℕ, ◌+◌, Bool, true, false, not, List, [], ◌∷◌, Option, none, some, Bytes, ◌=?◌, member, is_empty,
  if◌then◌else◌,
}
use jaas.Operator.Objects.{LibraryRef, JsonnetVariable, JsonnetSnippet}
use jaas.Operator.Webhook.{invalid_library_import_alias, duplicate_library_import_path}

-- The reason and the message of a failed check.
pub data SpecFault : Type 0 where
  service_account_missing : SpecFault
  external_variable_conflict invalid_import_alias duplicate_import_path : Bytes → SpecFault
  shadows_mounted : ℕ → Bytes → SpecFault

-- The settings of SnippetReconciler that the checks read.
pub record Settings : Type 0 where
  pub default_service_account : Bytes
  pub ext_vars : List Bytes
  pub known_library_aliases : List Bytes

-- checkServiceAccount
unfoldable pub check_service_account : Settings → JsonnetSnippet → Option SpecFault
check_service_account r snip =
    if not (snip.service_account_name =? [])
    then none
    else if not (r.default_service_account =? [])
    then none
    else some service_account_missing

-- checkExtVarConflicts
unfoldable pub check_ext_var_conflicts : Settings → List JsonnetVariable → Option SpecFault
check_ext_var_conflicts r [] = none
check_ext_var_conflicts r (v ∷ vs) =
    let rest = check_ext_var_conflicts r vs in
    if member v.name r.ext_vars then some (external_variable_conflict v.name) else rest

-- The loop of checkLibraryAliasCollisions from the index `i` on.
unfoldable pub collides_from : List Bytes → ℕ → List LibraryRef → Option SpecFault
collides_from known i [] = none
collides_from known i (ref ∷ refs) =
    let alias = (if ref.import_path =? [] then ref.name else ref.import_path) in
    let rest = collides_from known (i + 1) refs in
    if member alias known then some (shadows_mounted i alias) else rest

-- checkLibraryAliasCollisions
unfoldable pub check_library_alias_collisions : Settings → List LibraryRef → Option SpecFault
check_library_alias_collisions r refs =
    if is_empty r.known_library_aliases then none else collides_from r.known_library_aliases 0 refs

-- checkDuplicateLibraryImports
unfoldable pub check_duplicate_library_imports : List LibraryRef → Option SpecFault
check_duplicate_library_imports refs =
    if not (duplicate_library_import_path refs =? [])
    then some (duplicate_import_path (duplicate_library_import_path refs))
    else none

-- The check of the aliases in reconcileSpec.
unfoldable pub check_import_aliases : List LibraryRef → Option SpecFault
check_import_aliases refs =
    if not (invalid_library_import_alias refs =? [])
    then some (invalid_import_alias (invalid_library_import_alias refs))
    else none

-- One check, and the rest of them where it finds nothing.
abbrev pub or_else : Option SpecFault → Option SpecFault → Option SpecFault
or_else (some f) rest = some f
or_else none rest = rest

-- The checks of reconcileSpec in its order.
unfoldable pub check_spec : Settings → JsonnetSnippet → Option SpecFault
check_spec r snip = or_else (check_service_account r snip) (
    or_else (check_ext_var_conflicts r snip.external_variables) (
      or_else (check_import_aliases snip.libraries) (
        or_else (check_library_alias_collisions r snip.libraries)
          (check_duplicate_library_imports snip.libraries))))
