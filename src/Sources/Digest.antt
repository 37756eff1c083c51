-- ===== src/Sources/Digest.antt =====
-- internal/sources/sources.go: verifyExpectedDigest and parseDigest, which decide whether a download
-- is what the source declared. strings.ToLower of strings.TrimSpace reads Unicode, and is a parameter.
pub mod Verdict
pub mod Examples
use jaas.Prelude.{
  ℕ, ◌%◌, Bool, true, false, ◌&&◌, ◌||◌, not, [], ◌++◌, Option, none, some, Bytes, codes, ◌=?◌,
  ◌==◌, ltb, all, length, if◌then◌else◌, Result, ok, err,
}
use jaas.Prelude.Text.{cut}
use jaas.Storage.Key.{is_hex_byte}

-- Every error but `mismatch` wraps ErrDigestInvalid; `mismatch` is ErrDigestMismatch.
pub data DigestFault : Type 0 where
  empty missing_part unsupported bad_length not_hex slipped_past mismatch : DigestFault

abbrev pub sha256_name : Bytes
sha256_name = codes "sha256"

-- The one entry of supportedDigestAlgorithms.
abbrev pub supported_prefix : Bytes
supported_prefix = codes "sha256:"

-- expectedHexLength
unfoldable pub expected_hex_length : Bytes → ℕ
expected_hex_length algo = if algo =? sha256_name then 64 else 0

-- Whether hex.DecodeString takes the text.
unfoldable pub decodes : Bytes → Bool
decodes s = all is_hex_byte s && (length s % 2) == 0

-- The checks on the two parts of a declared digest.
unfoldable pub parse_parts : Bytes → Bytes → Result DigestFault (Bytes × Bytes)
parse_parts algo hex_value =
    if algo =? [] || hex_value =? []
    then err missing_part
    else if not ((algo ++ codes ":") =? supported_prefix)
    then err unsupported
    else if ltb 0 (expected_hex_length algo) && not (length hex_value == expected_hex_length algo)
    then err bad_length
    else if not (decodes hex_value)
    then err not_hex
    else ok (algo, hex_value)

module _ (lower_trimmed : Bytes → Bytes) where
  -- parseDigest
  unfoldable pub parse_digest : Bytes → Result DigestFault (Bytes × Bytes)
  parse_digest declared =
      if lower_trimmed declared =? [] then err empty else elim (cut (lower_trimmed declared) b':') [
        | none ↦ err missing_part
        | some (algo, hex_value) ↦ parse_parts algo hex_value
      ]

  -- verifyExpectedDigest, with `none` where it returns nil
  unfoldable pub verify_expected_digest : Bytes → Bytes → Option DigestFault
  verify_expected_digest got_hex expected =
      if expected =? [] then none else elim (parse_digest expected) [
        | err x ↦ some x
        | ok (algo, want) ↦
            if algo =? sha256_name
            then if got_hex =? want then none else some mismatch
            else some slipped_past
      ]
