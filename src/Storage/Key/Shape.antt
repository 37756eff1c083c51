-- ===== src/Storage/Key/Shape.antt =====
-- looks_like_our_artifact_filename against the names that the store writes.
use jaas.Prelude.{
  ℕ, ◌≡◌, ◌≢◌, refl, sym, ap, ◌∙◌, ◌↔◌, ◌⊎◌, inl, inr, true, false, [], ◌∷◌, ◌++◌, Option, none,
  some, arith, Bytes, codes, ◌=?◌, if◌then◌else◌, all, Bool-cases, append_assoc,
}
use jaas.Prelude.Text.{
  cut, has_suffix, trim_suffix, cut_sound, cut-append, cut-none, replace_all_none,
  has_suffix-append, trim_suffix-append, trim_suffix_sound,
}
use jaas.Storage.Key.{
  revision_filename, valid_digest, is_algorithm_byte, is_hex_byte, is_hex, is_lower_alnum,
  looks_like_our_artifact_filename, revision_part, has_revision_shape, archive_suffix, tmp_suffix,
}
use jaas.Storage.Key.Laws.{
  IsDigest, valid_digest_sound, valid_digest_complete, revision_filename-digest, algorithm-lacks,
  hex-lacks,
}

-- What a revision may be: a digest, or hexadecimal digits alone.
abbrev pub IsRevision : Bytes → Type 0
IsRevision revision = (valid_digest revision ≡ none) ⊎ (is_hex revision ≡ true)

is_hex_iff : (s : Bytes) → (is_hex s ≡ true) ↔ ((s ≢ []) × (all is_hex_byte s ≡ true))
unfolding is_hex
is_hex_iff [] = (λ h. cc, λ h. absurd (h.0 refl))
is_hex_iff (c ∷ s) = (λ h. (λ e. cc, h), λ h. h.1)

is_lower_alnum_iff :
    (s : Bytes) → (is_lower_alnum s ≡ true) ↔ ((s ≢ []) × (all is_algorithm_byte s ≡ true))
unfolding is_lower_alnum
is_lower_alnum_iff [] = (λ h. cc, λ h. absurd (h.0 refl))
is_lower_alnum_iff (c ∷ s) = (λ h. (λ e. cc, h), λ h. h.1)

-- The last byte of a text tells the two suffixes apart.
last_byte : Bytes → ℕ
last_byte [] = 0
last_byte (c ∷ []) = c
last_byte (c ∷ d ∷ s) = last_byte (d ∷ s)

last_byte-append : (s : Bytes) (b : ℕ) (t : Bytes) → last_byte (s ++ b ∷ t) ≡ last_byte (b ∷ t)
unfolding last_byte
last_byte-append [] b t = refl
last_byte-append (c ∷ []) b t = refl
last_byte-append (c ∷ d ∷ s) b t = last_byte-append (d ∷ s) b t

not_tmp : (p : Bytes) → has_suffix (p ++ archive_suffix) (archive_suffix ++ tmp_suffix) ≡ false
unfolding last_byte
not_tmp p = elim (Bool-cases (has_suffix (p ++ archive_suffix) (archive_suffix ++ tmp_suffix))) [
  | inl h ↦ absurd (
      omega (
        arith,
        sym (last_byte-append p b'.' (codes "tar.gz"))
            ∙ ap last_byte
                (trim_suffix_sound (p ++ archive_suffix) (archive_suffix ++ tmp_suffix) h)
            ∙ last_byte-append (trim_suffix (p ++ archive_suffix) (archive_suffix ++ tmp_suffix))
                b'.' (codes "tar.gz.tmp"),
      ))
  | inr h ↦ h
]

revision_part-archive : (p : Bytes) → revision_part (p ++ archive_suffix) ≡ some p
unfolding revision_part
revision_part-archive p =
    rw (not_tmp p, has_suffix-append p archive_suffix, trim_suffix-append p archive_suffix)

revision_part-tmp : (p : Bytes) → revision_part (p ++ archive_suffix ++ tmp_suffix) ≡ some p
unfolding revision_part
revision_part-tmp p = rw (append_assoc p archive_suffix tmp_suffix) (
    rw (
      has_suffix-append p (archive_suffix ++ tmp_suffix),
      trim_suffix-append p (archive_suffix ++ tmp_suffix),
    ))

shape-ne-nil : (p : Bytes) → has_revision_shape p ≡ true → (p =? []) ≡ false
unfolding has_revision_shape is_hex cut ◌=?◌
shape-ne-nil [] h = cc
shape-ne-nil (c ∷ p) h = refl

looks_shape :
    (name p : Bytes)
    → revision_part name ≡ some p
    → looks_like_our_artifact_filename name ≡ has_revision_shape p
unfolding looks_like_our_artifact_filename
looks_shape name p e = elim (Bool-cases (has_revision_shape p)) [
  | inl h ↦ rw (e, looks_like_our_artifact_filename, shape-ne-nil p h)
  | inr h ↦ ground arith
]

-- A name has the shape when it is that of a revision.
shape_sound :
    (p : Bytes) (parts : Option (Bytes × Bytes))
    → cut p b'-' ≡ parts
    → has_revision_shape p ≡ true
    → (revision : Bytes) × IsRevision revision × (revision_filename revision ≡ p ++ archive_suffix)
unfolding has_revision_shape
shape_sound p none e h =
    let s : is_hex p ≡ true = ground arith in
    (
      p,
      inr s,
      unfold revision_filename in
          ap (λ r. r ++ archive_suffix)
            (replace_all_none p b':' b'-' (hex-lacks b':' p refl ((is_hex_iff p).0 s).1)),
    )
shape_sound p (some (algo, hex_part)) e h =
    let a : is_lower_alnum algo ≡ true = ground arith in
    let x : is_hex hex_part ≡ true = ground arith in
    let d : IsDigest algo hex_part = record {
      algo_some = ((is_lower_alnum_iff algo).0 a).0;
      hex_some = ((is_hex_iff hex_part).0 x).0;
      algo_bytes = ((is_lower_alnum_iff algo).0 a).1;
      hex_bytes = ((is_hex_iff hex_part).0 x).1;
    } in
    (
      algo ++ b':' ∷ hex_part,
      inl (valid_digest_complete algo hex_part d),
      rw (cut_sound p b'-' algo hex_part e).0 (revision_filename-digest algo hex_part d),
    )

shape_complete :
    (revision : Bytes)
    → IsRevision revision
    → (p : Bytes) × (revision_filename revision ≡ p ++ archive_suffix)
      × (has_revision_shape p ≡ true)
unfolding has_revision_shape
shape_complete revision (inl v) =
    let (algo, hex_part, e, d) = valid_digest_sound revision v in
    (
      algo ++ b'-' ∷ hex_part,
      rw e (revision_filename-digest algo hex_part d),
      ground (
        arith,
        cut-append algo hex_part b'-' (algorithm-lacks b'-' algo refl d.algo_bytes),
        (is_lower_alnum_iff algo).1 (d.algo_some, d.algo_bytes),
        (is_hex_iff hex_part).1 (d.hex_some, d.hex_bytes),
      ),
    )
shape_complete revision (inr h) =
    let x = ((is_hex_iff revision).0 h).1 in
    (
      revision,
      unfold revision_filename in
          ap (λ r. r ++ archive_suffix)
            (replace_all_none revision b':' b'-' (hex-lacks b':' revision refl x)),
      ground (arith, cut-none revision b'-' (hex-lacks b'-' revision refl x)),
    )

-- The name that Put gives a revision, or the temporary name beside it.
abbrev pub IsStoreName : Bytes → Bytes → Type 0
IsStoreName name revision =
    (name ≡ revision_filename revision) ⊎ (name ≡ revision_filename revision ++ tmp_suffix)

revision_part_sound :
    (name p : Bytes)
    → revision_part name ≡ some p
    → (name ≡ p ++ archive_suffix) ⊎ (name ≡ (p ++ archive_suffix) ++ tmp_suffix)
unfolding revision_part
revision_part_sound name p e = ground (
  arith,
  trim_suffix_sound name (archive_suffix ++ tmp_suffix),
  trim_suffix_sound name archive_suffix,
  append_assoc p archive_suffix tmp_suffix,
)

looks_part :
    (name : Bytes)
    → looks_like_our_artifact_filename name ≡ true
    → (p : Bytes) × (revision_part name ≡ some p) × (has_revision_shape p ≡ true)
unfolding looks_like_our_artifact_filename
looks_part name h = go (revision_part name) refl h
  where
    go :
        (o : Option Bytes)
        → revision_part name ≡ o
        → (elim o [ none ↦ false | some rev ↦ if rev =? [] then false else has_revision_shape rev ])
          ≡ true
        → (p : Bytes) × (revision_part name ≡ some p) × (has_revision_shape p ≡ true)
    go none e k = cc
    go (some p) e k = (p, e, ground arith)

looks_sound :
    (name : Bytes)
    → looks_like_our_artifact_filename name ≡ true
    → (revision : Bytes) × IsRevision revision × IsStoreName name revision
looks_sound name h =
    let (p, e, s) = looks_part name h in
    let (revision, r, f) = shape_sound p (cut p b'-') refl s in
    (
      revision,
      r,
      elim (revision_part_sound name p e) [
        | inl n ↦ inl (n ∙ sym f)
        | inr n ↦ inr (n ∙ ap (λ t. t ++ tmp_suffix) (sym f))
      ],
    )

looks_complete :
    (name revision : Bytes)
    → IsRevision revision
    → IsStoreName name revision
    → looks_like_our_artifact_filename name ≡ true
looks_complete name revision r n =
    let (p, f, s) = shape_complete revision r in
    elim n [
      | inl e ↦ rw (e, f) (looks_shape (p ++ archive_suffix) p (revision_part-archive p) ∙ s)
      | inr e ↦
          rw (e, f) (looks_shape ((p ++ archive_suffix) ++ tmp_suffix) p (revision_part-tmp p) ∙ s)
    ]

-- The clean-up filter accepts exactly the names that the store writes for some revision, which is
-- a digest or plain hexadecimal: the final name and the temporary one.
pub looks_like_our_artifact_filename_iff :
    (name : Bytes)
    → (looks_like_our_artifact_filename name ≡ true)
      ↔ ((revision : Bytes) × IsRevision revision × IsStoreName name revision)
looks_like_our_artifact_filename_iff name = (looks_sound name, λ x. looks_complete name x.0 x.1 x.2)
