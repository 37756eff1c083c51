-- ===== src/Sources/Digest/Verdict.antt =====
-- Which digests a download passes under.
use jaas.Prelude.{
  ◌≡◌, ◌↔◌, refl, sym, ap, ◌∙◌, subst, inl, inr, ◌⊎◌, true, false, ◌&&◌, ◌||◌, not, Bool-cases,
  Option-cases, Result-cases, [], ◌∷◌, ◌++◌, none, some, Bytes, codes, ◌=?◌, ◌==◌, =?_sound,
  =?_refl, =?_ne, ltb, all, length, ok, err, arith,
}
use jaas.Prelude.Text.{cut, cut_sound, cut-append, trim_suffix, trim_suffix-append, contains_byte}
use jaas.Storage.Key.{is_hex_byte}
use jaas.Sources.Digest.{
  empty, missing_part, unsupported, bad_length, not_hex, mismatch, sha256_name, supported_prefix,
  expected_hex_length, decodes, parse_parts, parse_digest, verify_expected_digest,
}

-- The 64 hexadecimal digits of a SHA-256.
pub record IsSha256Hex (s : Bytes) : Type 0 where
  pub size : length s ≡ 64
  pub digits : all is_hex_byte s ≡ true

names_sha256 :
    (algo : Bytes) → ((algo ++ codes ":") =? supported_prefix) ≡ true → algo ≡ sha256_name
unfolding trim_suffix ◌=?◌
names_sha256 algo h =
    sym (trim_suffix-append algo (codes ":"))
    ∙ ap (λ s. trim_suffix s (codes ":")) (=?_sound (algo ++ codes ":") supported_prefix h)

-- What the parts of a digest are, if they pass.
record IsParsed (algo hex_value : Bytes) (out : Bytes × Bytes) : Type 0 where
  named : algo ≡ sha256_name
  given : out ≡ (algo, hex_value)
  sized : length hex_value ≡ 64
  spelled : all is_hex_byte hex_value ≡ true

sized_for :
    (algo hex_value : Bytes)
    → algo ≡ sha256_name
    → (ltb 0 (expected_hex_length algo) && not (length hex_value == expected_hex_length algo))
      ≡ false
    → length hex_value ≡ 64
sized_for algo hex_value named h =
    let wants : expected_hex_length algo ≡ 64 =
      ap expected_hex_length named ∙ (unfold expected_hex_length ◌=?◌ in refl) in
    let short : (ltb 0 64 && not (length hex_value == 64)) ≡ false =
      subst (λ n. (ltb 0 n && not (length hex_value == n)) ≡ false) wants h in
    ground (arith, short)

parse_parts_sound :
    (algo hex_value : Bytes) (out : Bytes × Bytes)
    → parse_parts algo hex_value ≡ ok out
    → IsParsed algo hex_value out
unfolding parse_parts decodes
parse_parts_sound algo hex_value out h = elim (Bool-cases (algo =? [] || hex_value =? [])) [
  | inl a ↦ let bad : err missing_part ≡ ok out = rw a at h in cc
  | inr a ↦ elim (Bool-cases ((algo ++ codes ":") =? supported_prefix)) [
    | inr b ↦ let bad : err unsupported ≡ ok out = rw (a, b) at h in cc
    | inl b ↦
        elim (Bool-cases (
          ltb 0 (expected_hex_length algo) && not (length hex_value == expected_hex_length algo))) [
            | inl c ↦ let bad : err bad_length ≡ ok out = rw (a, b, c) at h in cc
            | inr c ↦ elim (Bool-cases (decodes hex_value)) [
              | inr e ↦ let bad : err not_hex ≡ ok out = rw (a, b, c, e) at h in cc
              | inl e ↦
                  let good : ok (algo, hex_value) ≡ ok out = rw (a, b, c, e) at h in
                  record {
                    named = names_sha256 algo b;
                    given = cc;
                    sized = sized_for algo hex_value (names_sha256 algo b) c;
                    spelled = ground arith;
                  }
            ]
          ]
  ]
]

parse_parts_complete : (s : Bytes) → IsSha256Hex s → parse_parts sha256_name s ≡ ok (sha256_name, s)
unfolding parse_parts expected_hex_length decodes ◌=?◌
parse_parts_complete s h =
    let some_bytes : (s =? []) ≡ false = =?_ne s [] (λ e. omega (arith, h.size, ap length e)) in
    rw (some_bytes, h.size, h.digits) refl

module _ (lower_trimmed : Bytes → Bytes) where
  -- The declared digest, normalised, names this SHA-256.
  pub record IsDeclared (expected got_hex : Bytes) : Type 0 where
    pub spelled : lower_trimmed expected ≡ supported_prefix ++ got_hex
    pub hex : IsSha256Hex got_hex

  parse_digest_sound :
      (declared algo want : Bytes)
      → parse_digest lower_trimmed declared ≡ ok (algo, want)
      → (algo ≡ sha256_name) × IsDeclared declared want
  unfolding parse_digest
  parse_digest_sound declared algo want h = elim (Bool-cases (lower_trimmed declared =? [])) [
    | inl e ↦ let bad : err empty ≡ ok (algo, want) = rw e at h in cc
    | inr e ↦ elim (Option-cases (cut (lower_trimmed declared) b':')) [
      | inl c ↦ let bad : err missing_part ≡ ok (algo, want) = rw (e, c, parse_digest) at h in cc
      | inr ((before, after), c) ↦
          let p = parse_parts_sound before after (algo, want) (rw (e, c, parse_digest) at h) in
          let whole = (cut_sound (lower_trimmed declared) b':' before after c).0 in
          let a : algo ≡ before = ap (λ o. o.0) p.given in
          let w : want ≡ after = ap (λ o. o.1) p.given in
          (
            a ∙ p.named,
            record {
              spelled =
                  whole
                  ∙ ap (λ s. s ++ b':' ∷ after) p.named
                  ∙ ap (λ s. supported_prefix ++ s) (sym w);
              hex = subst IsSha256Hex (sym w) (record { size = p.sized; digits = p.spelled });
            },
          )
    ]
  ]

  parse_digest_complete :
      (declared want : Bytes)
      → IsDeclared declared want
      → parse_digest lower_trimmed declared ≡ ok (sha256_name, want)
  unfolding parse_digest
  parse_digest_complete declared want d =
      let filled : (lower_trimmed declared =? []) ≡ false =
        subst (λ s. (s =? []) ≡ false) (sym d.spelled) (starts want) in
      let parts : cut (lower_trimmed declared) b':' ≡ some (sha256_name, want) =
        ap (λ s. cut s b':') d.spelled ∙ cut-append sha256_name want b':' no_colon in
      rw (filled, parts, parse_digest) (parse_parts_complete want d.hex)
    where
      starts : (s : Bytes) → ((supported_prefix ++ s) =? []) ≡ false
      starts s = =?_ne (supported_prefix ++ s) [] (λ e. cc)

      no_colon : contains_byte sha256_name b':' ≡ false
      no_colon = unfold contains_byte in refl

  -- A download passes exactly if no digest was declared, or the declared one, normalised, is
  -- `sha256:` and the 64 hexadecimal digits that were computed from the download.
  pub verify_expected_digest_iff :
      (got_hex expected : Bytes)
      → (verify_expected_digest lower_trimmed got_hex expected ≡ none)
        ↔ ((expected ≡ []) ⊎ IsDeclared expected got_hex)
  unfolding verify_expected_digest
  verify_expected_digest_iff got_hex expected = (sound, complete)
    where
      sound :
          verify_expected_digest lower_trimmed got_hex expected ≡ none
          → (expected ≡ []) ⊎ IsDeclared expected got_hex
      sound h = elim (Bool-cases (expected =? [])) [
        | inl e ↦ inl (=?_sound expected [] e)
        | inr e ↦ elim (Result-cases (parse_digest lower_trimmed expected)) [
          | inr (x, p) ↦ let bad : some x ≡ none = rw (e, p, verify_expected_digest) at h in cc
          | inl ((algo, want), p) ↦
              let (named, declared) = parse_digest_sound expected algo want p in
              let known : (algo =? sha256_name) ≡ true =
                ap (λ s. s =? sha256_name) named ∙ =?_refl sha256_name in
              elim (Bool-cases (got_hex =? want)) [
                | inl g ↦ inr (subst (IsDeclared expected) (sym (=?_sound got_hex want g)) declared)
                | inr g ↦
                    let bad : some mismatch ≡ none =
                      rw (e, p, known, g, verify_expected_digest) at h in
                    cc
              ]
        ]
      ]

      complete :
          (expected ≡ []) ⊎ IsDeclared expected got_hex
          → verify_expected_digest lower_trimmed got_hex expected ≡ none
      complete (inl e) = rw (e, =?_refl []) refl
      complete (inr d) = elim (Bool-cases (expected =? [])) [
        | inl e ↦ rw e refl
        | inr e ↦
            rw
              (
                e,
                parse_digest_complete expected got_hex d,
                =?_refl sha256_name,
                =?_refl got_hex,
                verify_expected_digest,
              )
              refl
      ]
