-- ===== src/Sources/Entry.antt =====
-- internal/sources/sources.go: normaliseEntry, isSafePathByte and SafeEntryName, which decide the
-- name under which a tar entry is kept.
pub mod Laws
pub mod Examples
use jaas.Prelude.{
  ℕ, Bool, true, false, ◌&&◌, ◌||◌, not, List, [], ◌∷◌, ◌++◌, Option, none, some, Bytes, codes,
  ◌=?◌, ◌==◌, leb, all, if◌then◌else◌,
}
use jaas.Prelude.Text.{contains_byte, has_prefix, drop_prefix, trim_suffix, split}
use jaas.Sources.Clean.{dot, dot_dot, clean}

abbrev pub slash : Bytes
slash = codes "/"

-- isSafePathByte
unfoldable pub is_safe_path_byte : ℕ → Bool
is_safe_path_byte b =
    (leb b'a' b && leb b b'z')
    || (leb b'A' b && leb b b'Z')
    || (leb b'0' b && leb b b'9')
    || b == b'.'
    || b == b'_'
    || b == b'-'
    || b == b'/'

-- The loop over the segments: one of them is "..", or begins with a dot.
unfoldable pub has_hidden : List Bytes → Bool
has_hidden [] = false
has_hidden (part ∷ parts) = part =? dot_dot || has_prefix part dot || has_hidden parts

-- The part after the checks, with the prefix that was asked for.
unfoldable pub under_prefix : Bytes → Bytes → Option Bytes
under_prefix path_prefix cleaned =
    if path_prefix =? []
    then some cleaned
    else drop_prefix cleaned (trim_suffix path_prefix slash ++ slash)

-- The checks on the cleaned path.
unfoldable pub accept_cleaned : Bytes → Bytes → Option Bytes
accept_cleaned path_prefix cleaned =
    if has_hidden (split cleaned b'/') || not (all is_safe_path_byte cleaned)
    then none
    else under_prefix path_prefix cleaned

-- normaliseEntry
unfoldable pub normalise_entry : Bytes → Bytes → Option Bytes
normalise_entry raw_name path_prefix =
    if raw_name =? []
      || has_prefix raw_name slash
      || contains_byte raw_name 0
      || contains_byte raw_name 92
    then none
    else accept_cleaned path_prefix (clean raw_name)

-- SafeEntryName
unfoldable pub safe_entry_name : Bytes → Bool
safe_entry_name name = elim (normalise_entry name []) [ none ↦ false | some _ ↦ true ]
