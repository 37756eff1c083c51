-- ===== src/Storage/Key/Laws.antt =====
-- What valid_digest accepts, and how revision_filename and the test of file names fit together.
use jaas.Prelude.{
  ℕ, ◌≡◌, ◌≢◌, refl, sym, ap, ◌∙◌, ◌↔◌, true, false, [], ◌∷◌, ◌++◌, Option, none, some, arith,
  Bytes, ◌==◌, =?_iff, all,
}
use jaas.Prelude.Text.{
  contains_byte, cut, trim_suffix, replace_all, cut_sound, cut-append, contains_byte-append,
  all-contains_byte, replace_all_undo, replace_all_none, replace_all-append, trim_suffix-append,
}
use jaas.Storage.Key.{
  revision_filename, valid_digest, check_digest, is_algorithm_byte, is_hex_byte, archive_suffix,
}

-- `<algo>:<hex>`, with both parts there and of their bytes.
pub record IsDigest (algo hex_part : Bytes) : Type 0 where
  pub algo_some : algo ≢ []
  pub hex_some : hex_part ≢ []
  pub algo_bytes : all is_algorithm_byte algo ≡ true
  pub hex_bytes : all is_hex_byte hex_part ≡ true

check_digest-IsDigest :
    (algo hex_part : Bytes) → check_digest (some (algo, hex_part)) ≡ none → IsDigest algo hex_part
unfolding check_digest
check_digest-IsDigest algo hex_part h = record {
  algo_some = λ e. ground (arith, =?_iff algo []);
  hex_some = λ e. ground (arith, =?_iff hex_part []);
  algo_bytes = ground arith;
  hex_bytes = ground arith;
}

IsDigest-check_digest :
    (algo hex_part : Bytes) → IsDigest algo hex_part → check_digest (some (algo, hex_part)) ≡ none
unfolding check_digest
IsDigest-check_digest algo hex_part d =
    ground (arith, =?_iff algo [], =?_iff hex_part [], d.algo_some, d.hex_some)

IsDigest-parts :
    (revision : Bytes) (parts : Option (Bytes × Bytes))
    → cut revision b':' ≡ parts
    → check_digest parts ≡ none
    → (algo : Bytes) × (hex_part : Bytes) × (revision ≡ algo ++ b':' ∷ hex_part)
      × IsDigest algo hex_part
unfolding check_digest
IsDigest-parts revision none e h = cc
IsDigest-parts revision (some (algo, hex_part)) e h = (
  algo,
  hex_part,
  (cut_sound revision b':' algo hex_part e).0,
  check_digest-IsDigest algo hex_part h,
)

pub valid_digest_sound :
    (revision : Bytes)
    → valid_digest revision ≡ none
    → (algo : Bytes) × (hex_part : Bytes) × (revision ≡ algo ++ b':' ∷ hex_part)
      × IsDigest algo hex_part
unfolding valid_digest
valid_digest_sound revision h = IsDigest-parts revision (cut revision b':') refl h

-- The bytes that separate the parts of a name stand in neither part of a digest.
pub algorithm-lacks :
    (b : ℕ) (s : Bytes)
    → is_algorithm_byte b ≡ false
    → all is_algorithm_byte s ≡ true
    → contains_byte s b ≡ false
algorithm-lacks b s = all-contains_byte is_algorithm_byte b s

pub hex-lacks :
    (b : ℕ) (s : Bytes)
    → is_hex_byte b ≡ false
    → all is_hex_byte s ≡ true
    → contains_byte s b ≡ false
hex-lacks b s = all-contains_byte is_hex_byte b s

pub valid_digest_complete :
    (algo hex_part : Bytes) → IsDigest algo hex_part → valid_digest (algo ++ b':' ∷ hex_part) ≡ none
unfolding valid_digest
valid_digest_complete algo hex_part d =
    rw (cut-append algo hex_part b':' (algorithm-lacks b':' algo refl d.algo_bytes))
      (IsDigest-check_digest algo hex_part d)

digest-lacks :
    (b : ℕ) (algo hex_part : Bytes)
    → is_algorithm_byte b ≡ false
    → is_hex_byte b ≡ false
    → (b':' == b) ≡ false
    → IsDigest algo hex_part
    → contains_byte (algo ++ b':' ∷ hex_part) b ≡ false
unfolding contains_byte
digest-lacks b algo hex_part ha hh hc d = ground (
  arith,
  contains_byte-append algo (b':' ∷ hex_part) b,
  algorithm-lacks b algo ha d.algo_bytes,
  hex-lacks b hex_part hh d.hex_bytes,
)

-- A valid digest holds none of the bytes outside its alphabet: not '-', '/', '\' or '.'.
pub valid_digest-lacks :
    (b : ℕ) (revision : Bytes)
    → is_algorithm_byte b ≡ false
    → is_hex_byte b ≡ false
    → (b':' == b) ≡ false
    → valid_digest revision ≡ none
    → contains_byte revision b ≡ false
valid_digest-lacks b revision ha hh hc h =
    let (algo, hex_part, e, d) = valid_digest_sound revision h in
    rw e (digest-lacks b algo hex_part ha hh hc d)

-- valid_digest accepts exactly the texts `<algo>:<hex>` with a non-empty lower-case alphanumeric
-- algorithm and a non-empty hexadecimal value.
pub valid_digest_iff :
    (revision : Bytes)
    → (valid_digest revision ≡ none) ↔ (
        (algo : Bytes) × (hex_part : Bytes) × (revision ≡ algo ++ b':' ∷ hex_part)
        × IsDigest algo hex_part)
valid_digest_iff revision =
    (valid_digest_sound revision, λ p. rw p.2 (valid_digest_complete p.0 p.1 p.3))

append_cancel : (s t u : Bytes) → s ++ u ≡ t ++ u → s ≡ t
append_cancel s t u e =
    sym (trim_suffix-append s u) ∙ ap (λ r. trim_suffix r u) e ∙ trim_suffix-append t u

-- Two valid digests with one file name are the same digest.
pub revision_filename-injective :
    (r s : Bytes)
    → valid_digest r ≡ none
    → valid_digest s ≡ none
    → revision_filename r ≡ revision_filename s
    → r ≡ s
unfolding revision_filename
revision_filename-injective r s hr hs e =
    sym (replace_all_undo r b':' b'-' (valid_digest-lacks b'-' r refl refl refl hr))
    ∙ ap (λ t. replace_all t b'-' b':')
        (append_cancel (replace_all r b':' b'-') (replace_all s b':' b'-') archive_suffix e)
    ∙ replace_all_undo s b':' b'-' (valid_digest-lacks b'-' s refl refl refl hs)

-- The name of a valid digest, by its parts.
pub revision_filename-digest :
    (algo hex_part : Bytes)
    → IsDigest algo hex_part
    → revision_filename (algo ++ b':' ∷ hex_part) ≡ (algo ++ b'-' ∷ hex_part) ++ archive_suffix
unfolding revision_filename
revision_filename-digest algo hex_part d = cc (
  replace_all-append algo (b':' ∷ hex_part) b':' b'-',
  replace_all_none algo b':' b'-' (algorithm-lacks b':' algo refl d.algo_bytes),
  colon_first,
)
  where
    colon_first : replace_all (b':' ∷ hex_part) b':' b'-' ≡ b'-' ∷ hex_part
    colon_first =
        ap (λ r. b'-' ∷ r)
          (replace_all_none hex_part b':' b'-' (hex-lacks b':' hex_part refl d.hex_bytes))
