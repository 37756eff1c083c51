-- ===== src/Prelude/Order.antt =====
-- The order of Go strings and sort.Strings.
use mathlib.Core.Path.{◌≡◌}
use mathlib.Core.Bool.{Bool, true, false, ◌&&◌, ◌||◌, not}
use mathlib.Core.Logic.{◌⊎◌, inl, inr}
use mathlib.Core.List.{List, [], ◌∷◌}
use jaas.Prelude.Tests.{Bytes, ltb, if◌then◌else◌, Bool-cases}
use jaas.Prelude.Lists.{In}

-- cmp.Compare(a, b) < 0 on two strings: the order of their bytes.
unfoldable pub less : Bytes → Bytes → Bool
less [] [] = false
less [] (y ∷ ys) = true
less (x ∷ xs) [] = false
less (x ∷ xs) (y ∷ ys) = ltb x y || (not (ltb y x) && less xs ys)

insert : Bytes → List Bytes → List Bytes
insert s [] = s ∷ []
insert s (t ∷ ts) = let rest = insert s ts in if less t s then t ∷ rest else s ∷ t ∷ ts

-- sort.Strings
unfoldable pub sort_strings : List Bytes → List Bytes
unfolding insert
sort_strings [] = []
sort_strings (s ∷ ts) = insert s (sort_strings ts)

In-insert : (a s : Bytes) (ts : List Bytes) → (a ≡ s) ⊎ In a ts → In a (insert s ts)
unfolding insert
In-insert a s [] (inl e) = inl e
In-insert a s [] (inr m) = absurd m
In-insert a s (t ∷ ts) m = elim (Bool-cases (less t s)) [
  | inr off ↦ rw off (elim m [ inl e ↦ inl e | inr k ↦ inr k ])
  | inl at ↦ rw at (elim m [
    | inl e ↦ inr (In-insert a s ts (inl e))
    | inr (inl e) ↦ inl e
    | inr (inr k) ↦ inr (In-insert a s ts (inr k))
  ])
]

-- Sorting loses nothing.
pub In-sort_strings : (a : Bytes) (ts : List Bytes) → In a ts → In a (sort_strings ts)
unfolding sort_strings
In-sort_strings a [] m = absurd m
In-sort_strings a (t ∷ ts) (inl e) = In-insert a t (sort_strings ts) (inl e)
In-sort_strings a (t ∷ ts) (inr m) = In-insert a t (sort_strings ts) (inr (In-sort_strings a ts m))
