-- ===== src/Prelude/Text.antt =====
-- The functions of Go's package strings that the program calls, over the bytes of a string.
-- Separators are single bytes, as at every call.
use mathlib.Core.Path.{◌≡◌, refl, ap}
use mathlib.Core.Logic.{◌≢◌}
use mathlib.Core.Bool.{Bool, true, false, ◌&&◌, ◌||◌}
use mathlib.Core.Option.{Option, none, some}
use mathlib.Core.List.{List, [], ◌∷◌, ◌++◌, map}
use native.Mathlib.Omega.{arith}
use Prim.Native.Nat.{ℕ}
use jaas.Prelude.Tests.{Bytes, ◌==◌, ◌=?◌, =?_refl, =?_ne, =?_sound, if◌then◌else◌}
use jaas.Prelude.Lists.{length, length-append, all}

-- strings.Contains(s, sep) for a text of one byte.
unfoldable pub contains_byte : Bytes → ℕ → Bool
contains_byte [] b = false
contains_byte (c ∷ s) b = c == b || contains_byte s b

-- strings.Cut(s, sep): the texts before and after the first separator.
unfoldable pub cut : Bytes → ℕ → Option (Bytes × Bytes)
cut [] b = none
cut (c ∷ s) b = elim (c == b) [
  | true ↦ some ([], s)
  | false ↦ elim (cut s b) [ none ↦ none | some (before, after) ↦ some (c ∷ before, after) ]
]

-- strings.HasPrefix(s, p)
unfoldable pub has_prefix : Bytes → Bytes → Bool
has_prefix s [] = true
has_prefix [] (b ∷ p) = false
has_prefix (c ∷ s) (b ∷ p) = c == b && has_prefix s p

-- strings.TrimPrefix(s, p)
unfoldable pub drop_prefix : Bytes → Bytes → Option Bytes
drop_prefix s [] = some s
drop_prefix [] (b ∷ p) = none
drop_prefix (c ∷ s) (b ∷ p) = elim (c == b) [ true ↦ drop_prefix s p | false ↦ none ]

-- strings.HasSuffix(s, t)
unfoldable pub has_suffix : Bytes → Bytes → Bool
has_suffix [] t = [] =? t
has_suffix (c ∷ s) t = (c ∷ s) =? t || has_suffix s t

-- strings.TrimSuffix(s, t)
unfoldable pub trim_suffix : Bytes → Bytes → Bytes
trim_suffix [] t = []
trim_suffix (c ∷ s) t = elim ((c ∷ s) =? t) [ true ↦ [] | false ↦ c ∷ trim_suffix s t ]

-- strings.ReplaceAll(s, old, new) for texts of one byte.
unfoldable pub replace_all : Bytes → ℕ → ℕ → Bytes
replace_all s old new = map (λ c. if c == old then new else c) s

-- strings.Split(s, sep): there is always one part at least.
unfoldable pub split : Bytes → ℕ → List Bytes
split [] b = [] ∷ []
split (c ∷ s) b = elim (c == b) [
  | true ↦ [] ∷ split s b
  | false ↦ elim (split s b) [ [] ↦ (c ∷ []) ∷ [] | p ∷ ps ↦ (c ∷ p) ∷ ps ]
]

ne_of_length : (xs ys : Bytes) → length xs ≢ length ys → xs ≢ ys
ne_of_length xs ys h e = h (ap length e)

longer : (c : ℕ) (s t : Bytes) → ((c ∷ s ++ t) =? t) ≡ false
longer c s t =
    =?_ne (c ∷ s ++ t) t (ne_of_length (c ∷ s ++ t) t (λ e. omega (arith, e, length-append s t)))

pub has_suffix-append : (s t : Bytes) → has_suffix (s ++ t) t ≡ true
unfolding has_suffix
has_suffix-append [] [] = unfold ◌=?◌ in refl
has_suffix-append [] (b ∷ t) = ground (arith, =?_refl (b ∷ t))
has_suffix-append (c ∷ s) t = ground (arith, has_suffix-append s t)

pub trim_suffix-append : (s t : Bytes) → trim_suffix (s ++ t) t ≡ s
unfolding trim_suffix
trim_suffix-append [] [] = refl
trim_suffix-append [] (b ∷ t) = rw (=?_refl (b ∷ t), trim_suffix) refl
trim_suffix-append (c ∷ s) t = ground (arith, longer c s t, trim_suffix-append s t)

-- A cut gives the parts back: no separator stands before the first one.
pub cut_sound :
    (s : Bytes) (b : ℕ) (before after : Bytes)
    → cut s b ≡ some (before, after)
    → (s ≡ before ++ b ∷ after) × (contains_byte before b ≡ false)
unfolding cut contains_byte
cut_sound [] b before after h = cc
cut_sound (c ∷ s) b [] after h = ground arith
cut_sound (c ∷ s) b (x ∷ before) after h = ground (arith, cut_sound s b before after)

pub cut-append :
    (before after : Bytes) (b : ℕ)
    → contains_byte before b ≡ false
    → cut (before ++ b ∷ after) b ≡ some (before, after)
unfolding cut contains_byte
cut-append [] after b h = ground arith
cut-append (c ∷ before) after b h = ground (arith, cut-append before after b)

pub cut-none : (s : Bytes) (b : ℕ) → contains_byte s b ≡ false → cut s b ≡ none
unfolding cut contains_byte
cut-none [] b h = refl
cut-none (c ∷ s) b h = ground (arith, cut-none s b)

pub contains_byte-append :
    (s t : Bytes) (b : ℕ) → contains_byte (s ++ t) b ≡ (contains_byte s b || contains_byte t b)
unfolding contains_byte
contains_byte-append [] t b = refl
contains_byte-append (c ∷ s) t b = ground (arith, contains_byte-append s t b)

-- A class of bytes that leaves one out: a text of that class does not hold it.
pub all-contains_byte :
    (p : ℕ → Bool) (b : ℕ) (s : Bytes) → p b ≡ false → all p s ≡ true → contains_byte s b ≡ false
unfolding all contains_byte
all-contains_byte p b [] h e = refl
all-contains_byte p b (c ∷ s) h e = ground (arith, all-contains_byte p b s h, λ (q : c ≡ b). ap p q)

-- Text that holds no `new` is given back by replacing the other way.
pub replace_all_undo :
    (s : Bytes) (old new : ℕ)
    → contains_byte s new ≡ false
    → replace_all (replace_all s old new) new old ≡ s
unfolding replace_all contains_byte
replace_all_undo [] old new h = refl
replace_all_undo (c ∷ s) old new h = ground (arith, replace_all_undo s old new)

pub replace_all_none :
    (s : Bytes) (old new : ℕ) → contains_byte s old ≡ false → replace_all s old new ≡ s
unfolding replace_all contains_byte
replace_all_none [] old new h = refl
replace_all_none (c ∷ s) old new h = ground (arith, replace_all_none s old new)

pub replace_all-append :
    (s t : Bytes) (old new : ℕ)
    → replace_all (s ++ t) old new ≡ replace_all s old new ++ replace_all t old new
unfolding replace_all
replace_all-append [] t old new = refl
replace_all-append (c ∷ s) t old new =
    ap (λ r. (if c == old then new else c) ∷ r) (replace_all-append s t old new)

-- A text with the suffix is what is left without it, and the suffix.
pub trim_suffix_sound : (s t : Bytes) → has_suffix s t ≡ true → s ≡ trim_suffix s t ++ t
unfolding has_suffix trim_suffix
trim_suffix_sound [] t h = =?_sound [] t h
trim_suffix_sound (c ∷ s) t h = ground (arith, =?_sound (c ∷ s) t, trim_suffix_sound s t)
