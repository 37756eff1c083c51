-- ===== src/Storage/Key.antt =====
-- internal/storage/key.go, and the tests of internal/storage/store.go on file names and path
-- components. A string is its bytes: a range over the runes of a Go string refuses any text that
-- is not ASCII just as a loop over its bytes does, since no byte of such a rune is below 0x80.
pub mod Laws
pub mod Shape
pub mod Examples
use jaas.Prelude.{
  ℕ, ◌≡◌, Bool, true, false, ◌&&◌, ◌||◌, List, [], ◌∷◌, ◌++◌, Option, none, some, Bytes, codes, leb,
  ◌==◌, ◌=?◌, if◌then◌else◌, all,
}
use jaas.Prelude.Text.{contains_byte, cut, has_prefix, has_suffix, trim_suffix, replace_all, split}

-- ".tar.gz" and ".tar.gz.tmp"
abbrev pub archive_suffix : Bytes
archive_suffix = codes ".tar.gz"

abbrev pub tmp_suffix : Bytes
tmp_suffix = codes ".tmp"

-- RevisionFilename
unfoldable pub revision_filename : Bytes → Bytes
unfolding replace_all
revision_filename revision = replace_all revision b':' b'-' ++ archive_suffix

-- The errors of `valid_digest`, with the texts of their messages left out; `none` is nil.
pub data DigestError : Type 0 where
  bad_form invalid_algorithm non_hex : DigestError

abbrev pub is_algorithm_byte : ℕ → Bool
is_algorithm_byte c = leb b'a' c && leb c b'z' || leb b'0' c && leb c b'9'

abbrev pub is_hex_byte : ℕ → Bool
is_hex_byte c = leb b'0' c && leb c b'9' || leb b'a' c && leb c b'f' || leb b'A' c && leb c b'F'

-- What ValidDigest does with the two parts of the cut.
check_digest : Option (Bytes × Bytes) → Option DigestError
check_digest none = some bad_form
check_digest (some (algo, hex_part)) =
    if algo =? [] || hex_part =? []
    then some bad_form
    else if all is_algorithm_byte algo
    then if all is_hex_byte hex_part then none else some non_hex
    else some invalid_algorithm

-- ValidDigest
unfoldable pub valid_digest : Bytes → Option DigestError
unfolding check_digest
valid_digest revision = check_digest (cut revision b':')

-- isHex
unfoldable pub is_hex : Bytes → Bool
is_hex [] = false
is_hex (c ∷ s) = all is_hex_byte (c ∷ s)

-- isLowerAlnum
unfoldable pub is_lower_alnum : Bytes → Bool
is_lower_alnum [] = false
is_lower_alnum (c ∷ s) = all is_algorithm_byte (c ∷ s)

-- The revision part of a file name: the name without ".tar.gz.tmp" or ".tar.gz".
unfoldable pub revision_part : Bytes → Option Bytes
revision_part name =
    if has_suffix name (archive_suffix ++ tmp_suffix)
    then some (trim_suffix name (archive_suffix ++ tmp_suffix))
    else if has_suffix name archive_suffix
    then some (trim_suffix name archive_suffix)
    else none

-- The shapes `<algo>-<hex>` and `<hex>`.
unfoldable pub has_revision_shape : Bytes → Bool
unfolding is_hex is_lower_alnum
has_revision_shape rev = elim (cut rev b'-') [
  | some (algo, hex_part) ↦ is_lower_alnum algo && is_hex hex_part
  | none ↦ is_hex rev
]

-- looksLikeOurArtifactFilename
unfoldable pub looks_like_our_artifact_filename : Bytes → Bool
looks_like_our_artifact_filename name = elim (revision_part name) [
  | none ↦ false
  | some rev ↦ if rev =? [] then false else has_revision_shape rev
]

-- The errors of `valid_no_traversal`; `none` is nil.
pub data PathError : Type 0 where
  empty_component separator traversal : PathError

-- validNoTraversal
unfoldable pub valid_no_traversal : List Bytes → Option PathError
valid_no_traversal [] = none
valid_no_traversal (p ∷ parts) =
    if p =? []
    then some empty_component
    else if contains_byte p b'/' || contains_byte p b'\\'
    then some separator
    else if p =? codes "." || p =? codes ".."
    then some traversal
    else valid_no_traversal parts

-- The errors of `valid_tar_entry_path`; `none` is nil.
pub data EntryError : Type 0 where
  empty_path absolute nul_or_backslash entry_traversal : EntryError

abbrev pub nul : ℕ
nul = 0

-- slices.Contains(strings.Split(p, "/"), "..")
has_dot_dot : List Bytes → Bool
has_dot_dot [] = false
has_dot_dot (p ∷ ps) = p =? codes ".." || has_dot_dot ps

-- validTarEntryPath
unfoldable pub valid_tar_entry_path : Bytes → Option EntryError
unfolding has_dot_dot
valid_tar_entry_path p =
    if p =? []
    then some empty_path
    else if has_prefix p (codes "/")
    then some absolute
    else if contains_byte p nul || contains_byte p b'\\'
    then some nul_or_backslash
    else if has_dot_dot (split p b'/')
    then some entry_traversal
    else none
