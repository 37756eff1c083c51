-- ===== src/Prelude/Tests.antt =====
-- Boolean tests on native numbers and on byte strings, and the conditional.
use Prim.Native.Nat.{ℕ, ◌≤◌, ◌<◌, compare, Ordering}
use mathlib.Core.Path.{◌≡◌, refl}
use mathlib.Core.Logic.{◌↔◌, ◌⊎◌, inl, inr, ◌≢◌}
use mathlib.Core.Bool.{Bool, true, false, ◌&&◌, ◌||◌}
use mathlib.Core.Option.{Option, none, some}
use mathlib.Core.List.{List, [], ◌∷◌}
use native.Mathlib.Omega.{arith}

abbrev pub ltb : ℕ → ℕ → Bool
ltb a b = elim (compare a b) [ Ordering.lt ↦ true | _ ↦ false ]

abbrev pub leb : ℕ → ℕ → Bool
leb a b = elim (compare a b) [ Ordering.gt ↦ false | _ ↦ true ]

infix 50 ◌==◌ ◌=?◌
abbrev pub ◌==◌ : ℕ → ℕ → Bool
a == b = elim (compare a b) [ Ordering.eq ↦ true | _ ↦ false ]

infix 1 if◌then◌else◌
abbrev pub if◌then◌else◌ {ℓ} : {A : Type ℓ} → Bool → A → A → A
if true then x else y = x
if false then x else y = y

pub ltb_iff : (a b : ℕ) → (ltb a b ≡ true) ↔ (a < b)
ltb_iff a b = ground arith

pub leb_iff : (a b : ℕ) → (leb a b ≡ true) ↔ (a ≤ b)
leb_iff a b = ground arith

pub ==_iff : (a b : ℕ) → ((a == b) ≡ true) ↔ (a ≡ b)
==_iff a b = ground arith

pub Bool-cases : (b : Bool) → (b ≡ true) ⊎ (b ≡ false)
Bool-cases true = inl refl
Bool-cases false = inr refl

pub Option-cases {ℓ} : {A : Type ℓ} (o : Option A) → (o ≡ none) ⊎ ((a : A) × (o ≡ some a))
Option-cases none = inl refl
Option-cases (some a) = inr (a, refl)

-- A Go string, as its bytes.
abbrev pub Bytes : Type 0
Bytes = List ℕ

-- Equality of two Go strings.
unfoldable pub ◌=?◌ : Bytes → Bytes → Bool
[] =? [] = true
[] =? (y ∷ ys) = false
(x ∷ xs) =? [] = false
(x ∷ xs) =? (y ∷ ys) = x == y && xs =? ys

pub =?_sound : (xs ys : Bytes) → (xs =? ys) ≡ true → xs ≡ ys
unfolding ◌=?◌
=?_sound [] [] h = refl
=?_sound [] (y ∷ ys) h = cc
=?_sound (x ∷ xs) [] h = cc
=?_sound (x ∷ xs) (y ∷ ys) h = ground (arith, =?_sound xs ys)

pub =?_refl : (xs : Bytes) → (xs =? xs) ≡ true
unfolding ◌=?◌
=?_refl [] = refl
=?_refl (x ∷ xs) = ground (arith, =?_refl xs)

pub =?_complete : (xs ys : Bytes) → xs ≡ ys → (xs =? ys) ≡ true
=?_complete xs ys e = rw e (=?_refl ys)

pub =?_iff : (xs ys : Bytes) → ((xs =? ys) ≡ true) ↔ (xs ≡ ys)
=?_iff xs ys = (=?_sound xs ys, =?_complete xs ys)

-- A difference is a refused test.
pub =?_ne : (xs ys : Bytes) → xs ≢ ys → (xs =? ys) ≡ false
=?_ne xs ys n = elim (Bool-cases (xs =? ys)) [ inl e ↦ absurd (n (=?_sound xs ys e)) | inr e ↦ e ]

-- Membership in a Go set or slice of strings.
unfoldable pub member : Bytes → List Bytes → Bool
member k [] = false
member k (x ∷ xs) = k =? x || member k xs

-- A call that returns a value or an error.
pub data Result {ℓ κ} (E : Type ℓ) (A : Type κ) : Type (ℓ ⊔ κ) where
  ok : A → Result E A
  err : E → Result E A

pub Result-cases {ℓ κ} :
    {E : Type ℓ} {A : Type κ} (r : Result E A) → ((a : A) × (r ≡ ok a)) ⊎ ((e : E) × (r ≡ err e))
Result-cases (ok a) = inl (a, refl)
Result-cases (err e) = inr (e, refl)

-- Texts that the test tells apart are different.
pub apart : (xs ys : Bytes) → (xs =? ys) ≡ false → xs ≢ ys
apart xs ys h e = let same : (xs =? ys) ≡ true = =?_complete xs ys e in cc

-- Go's signed integers, where the sign matters.
pub data ℤ : Type 0 where
  pos : ℕ → ℤ
  negsuc : ℕ → ℤ
