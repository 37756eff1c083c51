-- ===== src/Sources/Digest/Examples.antt =====
-- Tests of Digest, and its theorems at concrete inputs.
use jaas.Prelude.{◌≡◌, ◌↔◌, ◌⊎◌, refl, ◌++◌, [], none, some, Bytes, codes}
use jaas.Sources.Digest.{verify_expected_digest, unsupported, bad_length, supported_prefix}
use jaas.Sources.Digest.Verdict.{IsDeclared, verify_expected_digest_iff}

abbrev as_is : Bytes → Bytes
as_is s = s

abbrev sum : Bytes
sum = codes "0123456789abcdef0123456789abcdef0123456789abcdef0123456789abcdef"

refused_digests :
    (verify_expected_digest as_is sum (codes "md5:00") ≡ some unsupported)
    × (verify_expected_digest as_is sum (codes "sha256:00") ≡ some bad_length)
    × (verify_expected_digest as_is sum (supported_prefix ++ sum) ≡ none)
unfolding verify_expected_digest jaas.Prelude.◌=?◌ jaas.Sources.Digest.parse_digest
    jaas.Prelude.Text.cut jaas.Sources.Digest.parse_parts jaas.Sources.Digest.expected_hex_length
    jaas.Sources.Digest.decodes jaas.Prelude.all
refused_digests = (refl, refl, refl)

verify_expected_digest_iff_example :
    (verify_expected_digest as_is sum (supported_prefix ++ sum) ≡ none)
    ↔ (((supported_prefix ++ sum) ≡ []) ⊎ IsDeclared as_is (supported_prefix ++ sum) sum)
verify_expected_digest_iff_example = verify_expected_digest_iff as_is sum (supported_prefix ++ sum)
