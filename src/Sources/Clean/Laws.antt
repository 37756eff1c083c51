-- ===== src/Sources/Clean/Laws.antt =====
-- What a cleaned path looks like, and which paths it leaves alone.
use jaas.Prelude.{
  ℕ, ◌≡◌, ◌≢◌, refl, sym, ap, ◌∙◌, subst, true, false, Bool-cases, inl, inr, List, [], ◌∷◌, ◌++◌,
  Bytes, ◌=?◌, ◌==◌, arith, All, apart,
}
use jaas.Prelude.Text.{split, contains_byte}
use jaas.Sources.Clean.{
  dot, dot_dot, join_slash, go_up, take_segment, clean_loop, onto, or_dot, clean,
}

-- A segment of a clean path: not empty, and with no slash in it.
pub record IsSegment (s : Bytes) : Type 0 where
  pub some_byte : s ≢ []
  pub no_slash : contains_byte s b'/' ≡ false

-- The first segment gets one more byte.
abbrev pub on_first : ℕ → List Bytes → List Bytes
on_first c [] = (c ∷ []) ∷ []
on_first c (q ∷ qs) = (c ∷ q) ∷ qs

pub split_hit : (c : ℕ) (p : Bytes) (b : ℕ) → (c == b) ≡ true → split (c ∷ p) b ≡ [] ∷ split p b
unfolding split
split_hit c p b e = rw (e, split) refl

pub split_miss :
    (c : ℕ) (p : Bytes) (b : ℕ) → (c == b) ≡ false → split (c ∷ p) b ≡ on_first c (split p b)
unfolding split
split_miss c p b e = rw (e, split) (by_first (split p b))
  where
    by_first :
        (segs : List Bytes)
        → elim segs [ [] ↦ (c ∷ []) ∷ [] | q ∷ qs ↦ (c ∷ q) ∷ qs ] ≡ on_first c segs
    by_first [] = refl
    by_first (q ∷ qs) = refl

on_first-All :
    (c b : ℕ) (segs : List Bytes)
    → (c == b) ≡ false
    → All (λ s. contains_byte s b ≡ false) segs
    → All (λ s. contains_byte s b ≡ false) (on_first c segs)
unfolding contains_byte
on_first-All c b [] e h = (rw e refl, tt)
on_first-All c b (q ∷ qs) e h = (rw (e, h.0) refl, h.1)

lacks_empty : (b : ℕ) → contains_byte [] b ≡ false
unfolding contains_byte
lacks_empty b = refl

pub split-lacks : (p : Bytes) (b : ℕ) → All (λ s. contains_byte s b ≡ false) (split p b)
split-lacks [] b = unfold split in (lacks_empty b, tt)
split-lacks (c ∷ p) b = elim (Bool-cases (c == b)) [
  | inl e ↦
      subst (All (λ s. contains_byte s b ≡ false)) (sym (split_hit c p b e))
        (lacks_empty b, split-lacks p b)
  | inr e ↦
      subst (All (λ s. contains_byte s b ≡ false)) (sym (split_miss c p b e))
        (on_first-All c b (split p b) e (split-lacks p b))
]

pub split-one : (s : Bytes) (b : ℕ) → contains_byte s b ≡ false → split s b ≡ s ∷ []
unfolding split contains_byte
split-one [] b h = refl
split-one (c ∷ s) b h = ground (arith, split-one s b)

-- Joining with the separator and splitting at it.
pub split-append :
    (s t : Bytes) (b : ℕ) → contains_byte s b ≡ false → split (s ++ b ∷ t) b ≡ s ∷ split t b
unfolding split contains_byte
split-append [] t b h = ground arith
split-append (c ∷ s) t b h = ground (arith, split-append s t b)

pub split-join_slash :
    (p : Bytes) (ps : List Bytes)
    → All IsSegment (p ∷ ps)
    → split (join_slash (p ∷ ps)) b'/' ≡ p ∷ ps
unfolding join_slash
split-join_slash p [] h = split-one p b'/' h.0.no_slash
split-join_slash p (q ∷ ps) h =
    split-append p (join_slash (q ∷ ps)) b'/' h.0.no_slash
    ∙ ap (λ r. p ∷ r) (split-join_slash q ps h.1)

dot_dot-IsSegment : IsSegment dot_dot
unfolding contains_byte
dot_dot-IsSegment = record { some_byte = λ e. cc; no_slash = refl }

go_up-All : (stack : List Bytes) → All IsSegment stack → All IsSegment (go_up stack)
unfolding go_up
go_up-All [] h = (dot_dot-IsSegment, tt)
go_up-All (top ∷ stack) h = elim (Bool-cases (top =? dot_dot)) [
  | inl e ↦ rw e (dot_dot-IsSegment, h)
  | inr e ↦ rw e h.1
]

take_segment-All :
    (stack : List Bytes) (seg : Bytes)
    → All IsSegment stack
    → contains_byte seg b'/' ≡ false
    → All IsSegment (take_segment stack seg)
unfolding take_segment
take_segment-All stack seg h l = elim (Bool-cases (seg =? [])) [
  | inl e ↦ rw e h
  | inr e ↦ rw e (elim (Bool-cases (seg =? dot)) [
    | inl f ↦ rw f h
    | inr f ↦ rw f (elim (Bool-cases (seg =? dot_dot)) [
      | inl g ↦ rw g (go_up-All stack h)
      | inr g ↦ rw g (record { some_byte = apart seg [] e; no_slash = l }, h)
    ])
  ])
]

clean_loop-All :
    (stack segs : List Bytes)
    → All IsSegment stack
    → All (λ s. contains_byte s b'/' ≡ false) segs
    → All IsSegment (clean_loop stack segs)
unfolding clean_loop
clean_loop-All stack [] h l = h
clean_loop-All stack (seg ∷ segs) h l =
    clean_loop-All (take_segment stack seg) segs (take_segment-All stack seg h l.0) l.1

onto-All :
    (stack segs : List Bytes)
    → All IsSegment stack
    → All IsSegment segs
    → All IsSegment (onto stack segs)
unfolding onto
onto-All [] segs h l = l
onto-All (top ∷ stack) segs h l = onto-All stack (top ∷ segs) h.1 (h.0, l)

or_dot-All : (segs : List Bytes) → All IsSegment segs → All IsSegment (split (or_dot segs) b'/')
unfolding or_dot
or_dot-All [] h =
    unfold split contains_byte in (record { some_byte = λ e. cc; no_slash = refl }, tt)
or_dot-All (p ∷ ps) h = subst (All IsSegment) (sym (split-join_slash p ps h)) h

-- No segment of a cleaned path is empty.
pub clean-All : (p : Bytes) → All IsSegment (split (clean p) b'/')
unfolding clean
clean-All p =
    or_dot-All _ (onto-All _ [] (clean_loop-All [] (split p b'/') tt (split-lacks p b'/')) tt)

-- A segment that clean leaves alone.
pub record IsPlain (s : Bytes) : Type 0 where
  pub not_empty : (s =? []) ≡ false
  pub not_dot : (s =? dot) ≡ false
  pub not_dot_dot : (s =? dot_dot) ≡ false

take_segment-plain : (stack : List Bytes) (s : Bytes) → IsPlain s → take_segment stack s ≡ s ∷ stack
unfolding take_segment
take_segment-plain stack s h = rw (h.not_empty, h.not_dot, h.not_dot_dot) refl

onto-clean_loop :
    (stack segs : List Bytes) → All IsPlain segs → onto (clean_loop stack segs) [] ≡ onto stack segs
unfolding clean_loop
onto-clean_loop stack [] h = refl
onto-clean_loop stack (s ∷ segs) h =
    rw (take_segment-plain stack s h.0)
      (onto-clean_loop (s ∷ stack) segs h.1 ∙ (unfold onto in refl))

join_slash-on_first :
    (c : ℕ) (segs : List Bytes) → join_slash (on_first c segs) ≡ c ∷ join_slash segs
unfolding join_slash
join_slash-on_first c [] = refl
join_slash-on_first c (q ∷ []) = refl
join_slash-on_first c (q ∷ r ∷ qs) = refl

pub split_some : (p : Bytes) (b : ℕ) → split p b ≢ []
split_some [] b = unfold split in λ e. cc
split_some (c ∷ p) b = elim (Bool-cases (c == b)) [
  | inl e ↦ subst (λ segs. segs ≢ []) (sym (split_hit c p b e)) (λ f. cc)
  | inr e ↦ subst (λ segs. segs ≢ []) (sym (split_miss c p b e)) (on_first_some (split p b))
]
  where
    on_first_some : (segs : List Bytes) → on_first c segs ≢ []
    on_first_some [] f = cc
    on_first_some (q ∷ qs) f = cc

join_slash-empty : (segs : List Bytes) → segs ≢ [] → join_slash ([] ∷ segs) ≡ b'/' ∷ join_slash segs
unfolding join_slash
join_slash-empty [] n = absurd (n refl)
join_slash-empty (q ∷ qs) n = refl

pub join_slash-split : (p : Bytes) → join_slash (split p b'/') ≡ p
join_slash-split [] = unfold split join_slash in refl
join_slash-split (c ∷ p) = elim (Bool-cases (c == b'/')) [
  | inl e ↦
      let same : c ≡ b'/' = ground arith in
      ap join_slash (split_hit c p b'/' e)
      ∙ join_slash-empty (split p b'/') (split_some p b'/')
      ∙ ap (λ r. b'/' ∷ r) (join_slash-split p)
      ∙ ap (λ x. x ∷ p) (sym same)
  | inr e ↦
      ap join_slash (split_miss c p b'/' e)
      ∙ join_slash-on_first c (split p b'/')
      ∙ ap (λ r. c ∷ r) (join_slash-split p)
]

or_dot-some : (segs : List Bytes) → segs ≢ [] → or_dot segs ≡ join_slash segs
unfolding or_dot
or_dot-some [] n = absurd (n refl)
or_dot-some (q ∷ qs) n = refl

-- A path of plain segments is clean already.
pub clean-plain : (p : Bytes) → All IsPlain (split p b'/') → clean p ≡ p
unfolding clean onto
clean-plain p h =
    ap or_dot (onto-clean_loop [] (split p b'/') h)
    ∙ or_dot-some (split p b'/') (split_some p b'/')
    ∙ join_slash-split p

on_first-append :
    (c : ℕ) (ps qs : List Bytes) → ps ≢ [] → on_first c (ps ++ qs) ≡ on_first c ps ++ qs
on_first-append c [] qs n = absurd (n refl)
on_first-append c (p ∷ ps) qs n = refl

-- Splitting a text at one of its separators splits the two parts.
pub split-concat : (s t : Bytes) (b : ℕ) → split (s ++ b ∷ t) b ≡ split s b ++ split t b
split-concat [] t b = unfold split in split-append [] t b (lacks_empty b)
split-concat (c ∷ s) t b = elim (Bool-cases (c == b)) [
  | inl e ↦
      split_hit c (s ++ b ∷ t) b e
      ∙ ap (λ r. [] ∷ r) (split-concat s t b)
      ∙ ap (λ r. r ++ split t b) (sym (split_hit c s b e))
  | inr e ↦
      split_miss c (s ++ b ∷ t) b e
      ∙ ap (on_first c) (split-concat s t b)
      ∙ on_first-append c (split s b) (split t b) (split_some s b)
      ∙ ap (λ r. r ++ split t b) (sym (split_miss c s b e))
]
