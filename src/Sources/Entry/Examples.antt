-- ===== src/Sources/Entry/Examples.antt =====
-- Tests of Entry, and its theorems at concrete inputs.
use jaas.Prelude.{◌≡◌, refl, ◌↔◌, Bytes, Option, none, some, codes, []}
use jaas.Sources.Clean.{clean, join_slash, or_dot, onto, clean_loop, take_segment, go_up}
use jaas.Sources.Entry.{
  normalise_entry, accept_cleaned, under_prefix, has_hidden, is_safe_path_byte,
}
use jaas.Sources.Entry.Laws.{IsEntryName, normalise_entry_iff}

-- Names that are kept, with and without a prefix, and names that are dropped.
kept_names :
    (normalise_entry (codes "lib//a/../b.libsonnet") (codes "lib/") ≡ some (codes "b.libsonnet"))
    × (normalise_entry (codes "./x/y") [] ≡ some (codes "x/y"))
    × (normalise_entry (codes "library/b") (codes "lib") ≡ none)
unfolding normalise_entry jaas.Prelude.◌=?◌ jaas.Prelude.Text.has_prefix
    jaas.Prelude.Text.contains_byte accept_cleaned has_hidden jaas.Prelude.Text.split clean or_dot
    onto clean_loop take_segment go_up join_slash jaas.Prelude.all is_safe_path_byte under_prefix
    jaas.Prelude.Text.drop_prefix jaas.Prelude.Text.trim_suffix
kept_names = (refl, refl, refl)

dropped_names :
    (normalise_entry (codes "../a") [] ≡ none)
    × (normalise_entry (codes "/a") [] ≡ none)
    × (normalise_entry (codes "a/.git") [] ≡ none)
    × (normalise_entry (codes "a b") [] ≡ none)
unfolding normalise_entry jaas.Prelude.◌=?◌ jaas.Prelude.Text.has_prefix
    jaas.Prelude.Text.contains_byte accept_cleaned has_hidden jaas.Prelude.Text.split clean or_dot
    onto clean_loop take_segment go_up join_slash jaas.Prelude.all is_safe_path_byte under_prefix
    jaas.Prelude.Text.drop_prefix jaas.Prelude.Text.trim_suffix
dropped_names = (refl, refl, refl, refl)

normalise_entry_iff_example :
    ((raw : Bytes) × (path_prefix : Bytes) × (normalise_entry raw path_prefix ≡ some (codes "x/y")))
    ↔ IsEntryName (codes "x/y")
normalise_entry_iff_example = normalise_entry_iff (codes "x/y")
