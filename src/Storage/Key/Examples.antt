-- ===== src/Storage/Key/Examples.antt =====
-- Tests of Key, and its theorems at concrete inputs.
use jaas.Prelude.{◌≡◌, refl, ◌↔◌, true, false, ◌∷◌, [], ◌++◌, Option, none, some, Bytes, codes}
use jaas.Storage.Key.{
  revision_filename, valid_digest, looks_like_our_artifact_filename, valid_no_traversal,
  valid_tar_entry_path, separator, traversal, entry_traversal, non_hex, revision_part,
  has_revision_shape,
}
use jaas.Storage.Key.Laws.{IsDigest, valid_digest_iff, revision_filename-injective}
use jaas.Storage.Key.Shape.{IsRevision, IsStoreName, looks_like_our_artifact_filename_iff}

abbrev digest : Bytes
digest = codes "sha256:0aF9"

digest_valid : valid_digest digest ≡ none
unfolding valid_digest jaas.Prelude.Text.cut jaas.Prelude.◌=?◌ jaas.Prelude.all
digest_valid = refl

digest_not_hex : valid_digest (codes "sha256:xyz") ≡ some non_hex
unfolding valid_digest jaas.Prelude.Text.cut jaas.Prelude.◌=?◌ jaas.Prelude.all
digest_not_hex = refl

digest_filename : revision_filename digest ≡ codes "sha256-0aF9.tar.gz"
unfolding revision_filename
digest_filename = refl

foreign_names :
    (looks_like_our_artifact_filename (codes "debug.tar.gz") ≡ false)
    × (looks_like_our_artifact_filename (codes "sha256-0a.zip") ≡ false)
    × (looks_like_our_artifact_filename (codes "sha256-0a.tar.gz.tmp") ≡ true)
unfolding looks_like_our_artifact_filename revision_part has_revision_shape
    jaas.Prelude.Text.has_suffix jaas.Prelude.◌=?◌ jaas.Prelude.Text.trim_suffix
    jaas.Prelude.Text.cut jaas.Prelude.all
foreign_names = (refl, refl, refl)

components :
    (valid_no_traversal (codes "team" ∷ codes "a/b" ∷ []) ≡ some separator)
    × (valid_no_traversal (codes ".." ∷ []) ≡ some traversal)
unfolding valid_no_traversal jaas.Prelude.◌=?◌ jaas.Prelude.Text.contains_byte
components = (refl, refl)

entry_paths :
    (valid_tar_entry_path (codes "a/../b") ≡ some entry_traversal)
    × (valid_tar_entry_path (codes "a/..b") ≡ none)
unfolding valid_tar_entry_path jaas.Prelude.◌=?◌ jaas.Prelude.Text.has_prefix
    jaas.Prelude.Text.contains_byte jaas.Prelude.Text.split
entry_paths = (refl, refl)

valid_digest_iff_example : (valid_digest digest ≡ none) ↔ (
    (algo : Bytes) × (hex_part : Bytes) × (digest ≡ algo ++ b':' ∷ hex_part)
    × IsDigest algo hex_part)
valid_digest_iff_example = valid_digest_iff digest

revision_filename-injective_example : digest ≡ codes "sha256:0aF9"
revision_filename-injective_example =
    revision_filename-injective digest (codes "sha256:0aF9") digest_valid digest_valid refl

looks_like_our_artifact_filename_iff_example :
    (looks_like_our_artifact_filename (codes "0a.tar.gz") ≡ true)
    ↔ ((revision : Bytes) × IsRevision revision × IsStoreName (codes "0a.tar.gz") revision)
looks_like_our_artifact_filename_iff_example =
    looks_like_our_artifact_filename_iff (codes "0a.tar.gz")
