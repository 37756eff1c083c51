-- ===== src/Sources/Entry/Laws.antt =====
-- The names under which tar entries are kept.
use jaas.Prelude.{
  ◌≡◌, ◌≢◌, ◌↔◌, refl, ap, ◌∙◌, subst, true, false, Bool-cases, inl, inr, List, [], ◌∷◌, ◌++◌, none,
  some, Bytes, ◌=?◌, ◌==◌, =?_ne, all, all-append, arith, All, append_assoc,
}
use jaas.Prelude.Text.{has_prefix, drop_prefix, trim_suffix, split, all-contains_byte}
use jaas.Sources.Clean.{dot, dot_dot, clean}
use jaas.Sources.Clean.Laws.{IsSegment, clean-All, IsPlain, clean-plain, split-concat, split_hit}
use jaas.Sources.Entry.{
  slash, is_safe_path_byte, has_hidden, under_prefix, accept_cleaned, normalise_entry,
}

-- A segment of a kept name: some bytes, the first of which is no dot.
pub record IsVisible (s : Bytes) : Type 0 where
  pub some_byte : s ≢ []
  pub no_dot : has_prefix s dot ≡ false

-- A kept name: every segment is visible, and every byte is on the allowlist.
pub record IsEntryName (n : Bytes) : Type 0 where
  pub visible : All IsVisible (split n b'/')
  pub safe : all is_safe_path_byte n ≡ true

IsVisible-parts :
    (parts : List Bytes) → All IsSegment parts → has_hidden parts ≡ false → All IsVisible parts
unfolding has_hidden
IsVisible-parts [] h f = tt
IsVisible-parts (s ∷ parts) h f = (
  record { some_byte = h.0.some_byte; no_dot = ground arith },
  IsVisible-parts parts h.1 (ground arith),
)

-- What the checks on the cleaned path establish.
accept_cleaned_sound :
    (path_prefix cleaned n : Bytes)
    → All IsSegment (split cleaned b'/')
    → accept_cleaned path_prefix cleaned ≡ some n
    → IsEntryName cleaned × (under_prefix path_prefix cleaned ≡ some n)
unfolding accept_cleaned
accept_cleaned_sound path_prefix cleaned n segs h =
    elim (Bool-cases (has_hidden (split cleaned b'/'))) [
      | inl e ↦ let bad : none ≡ some n = rw e at h in cc
      | inr e ↦ elim (Bool-cases (all is_safe_path_byte cleaned)) [
        | inl f ↦ (record { visible = IsVisible-parts _ segs e; safe = f }, rw (e, f) at h)
        | inr f ↦ let bad : none ≡ some n = rw (e, f) at h in cc
      ]
    ]

normalise_entry_accepts :
    (raw path_prefix n : Bytes)
    → normalise_entry raw path_prefix ≡ some n
    → accept_cleaned path_prefix (clean raw) ≡ some n
unfolding normalise_entry
normalise_entry_accepts raw path_prefix n h = ground arith

pub drop_prefix_sound : (s p r : Bytes) → drop_prefix s p ≡ some r → s ≡ p ++ r
unfolding drop_prefix
drop_prefix_sound s [] r h = cc
drop_prefix_sound [] (b ∷ p) r h = cc
drop_prefix_sound (c ∷ s) (b ∷ p) r h = ground (arith, drop_prefix_sound s p r)

All-append_right {ℓ κ} :
    {A : Type ℓ} (P : A → Type κ) (xs ys : List A) → All P (xs ++ ys) → All P ys
All-append_right P [] ys h = h
All-append_right P (x ∷ xs) ys h = All-append_right P xs ys h.1

-- What follows a slash in a kept name is a kept name.
below_slash : (p n : Bytes) → IsEntryName ((p ++ slash) ++ n) → IsEntryName n
below_slash p n h = record {
  visible = All-append_right IsVisible (split p b'/') (split n b'/') (
      subst (All IsVisible)
        (ap (λ r. split r b'/') (append_assoc p slash n) ∙ split-concat p n b'/') h.visible);
  safe = ground (arith, h.safe, all-append is_safe_path_byte (p ++ slash) n);
}

under_prefix-IsEntryName :
    (path_prefix cleaned n : Bytes)
    → IsEntryName cleaned
    → under_prefix path_prefix cleaned ≡ some n
    → IsEntryName n
unfolding under_prefix
under_prefix-IsEntryName path_prefix cleaned n h u = elim (Bool-cases (path_prefix =? [])) [
  | inl e ↦
      let same : some cleaned ≡ some n = rw e at u in
      let eq : cleaned ≡ n = cc in subst IsEntryName eq h
  | inr e ↦
      below_slash (trim_suffix path_prefix slash) n
        (subst IsEntryName (drop_prefix_sound cleaned _ n (rw e at u)) h)
]

-- Every name under which an entry is kept is relative, and none of its segments is empty or begins
-- with a dot; all its bytes are on the allowlist. This holds under every prefix.
pub normalise_entry-IsEntryName :
    (raw path_prefix n : Bytes) → normalise_entry raw path_prefix ≡ some n → IsEntryName n
normalise_entry-IsEntryName raw path_prefix n h =
    let (clean_name, under) =
      accept_cleaned_sound path_prefix (clean raw) n (clean-All raw)
        (normalise_entry_accepts raw path_prefix n h) in
    under_prefix-IsEntryName path_prefix (clean raw) n clean_name under

IsVisible-IsPlain : (s : Bytes) → IsVisible s → IsPlain s
unfolding has_prefix
IsVisible-IsPlain s v = record {
  not_empty = =?_ne s [] v.some_byte;
  not_dot = =?_ne s dot (λ e.
      let bad : has_prefix dot dot ≡ false = subst (λ t. has_prefix t dot ≡ false) e v.no_dot in
      cc);
  not_dot_dot = =?_ne s dot_dot (λ e.
      let bad : has_prefix dot_dot dot ≡ false = subst (λ t. has_prefix t dot ≡ false) e v.no_dot in
      cc);
}

All-IsPlain : (parts : List Bytes) → All IsVisible parts → All IsPlain parts
All-IsPlain [] h = tt
All-IsPlain (s ∷ parts) h = (IsVisible-IsPlain s h.0, All-IsPlain parts h.1)

has_hidden-visible : (parts : List Bytes) → All IsVisible parts → has_hidden parts ≡ false
unfolding has_hidden
has_hidden-visible [] h = refl
has_hidden-visible (s ∷ parts) h =
    rw ((IsVisible-IsPlain s h.0).not_dot_dot, h.0.no_dot, has_hidden-visible parts h.1) refl

starts_visible :
    (n : Bytes) → All IsVisible (split n b'/') → (n =? []) ≡ false × has_prefix n slash ≡ false
unfolding has_prefix
starts_visible [] h = unfold split in absurd (h.0.some_byte refl)
starts_visible (c ∷ n) h = elim (Bool-cases (c == b'/')) [
  | inl e ↦ absurd ((subst (All IsVisible) (split_hit c n b'/' e) h).0.some_byte refl)
  | inr e ↦ (=?_ne (c ∷ n) [] (λ f. cc), rw e refl)
]

-- A kept name is kept under itself.
pub normalise_entry_again : (n : Bytes) → IsEntryName n → normalise_entry n [] ≡ some n
unfolding normalise_entry accept_cleaned under_prefix is_safe_path_byte ◌=?◌
normalise_entry_again n h =
    let (some_bytes, relative) = starts_visible n h.visible in
    rw
      (
        some_bytes,
        relative,
        all-contains_byte is_safe_path_byte 0 n refl h.safe,
        all-contains_byte is_safe_path_byte 92 n refl h.safe,
        clean-plain n (All-IsPlain (split n b'/') h.visible),
        has_hidden-visible (split n b'/') h.visible,
        h.safe,
      )
      refl

-- The names under which entries are kept, whatever the entry and the prefix, are exactly the
-- relative names whose segments are visible and whose bytes are on the allowlist.
pub normalise_entry_iff :
    (n : Bytes)
    → ((raw : Bytes) × (path_prefix : Bytes) × (normalise_entry raw path_prefix ≡ some n))
      ↔ IsEntryName n
normalise_entry_iff n =
    (λ p. normalise_entry-IsEntryName p.0 p.1 n p.2, λ h. (n, [], normalise_entry_again n h))
