-- ===== src/Sources/Capped/Examples.antt =====
-- Tests of Capped, and its theorems at concrete inputs.
use jaas.Prelude.{
  ℕ, ◌≡◌, ◌+◌, refl, [], ◌∷◌, Bytes, codes, Option, none, some, length, length-take, take, arith,
}
use jaas.Sources.Capped.{
  SourceError, cause, CappedReader, new_capped_reader, after_probe, after_read, read_capped,
  read_all,
}
use jaas.Sources.Capped.Budget.{IsReader, read_all_budget}

-- A source that gives the same text on every Read, as far as the buffer holds it.
abbrev endless : Bytes → ℕ → Bytes × Bytes × Option SourceError
endless text n = (text, take n text, none)

endless-IsReader : IsReader endless
endless-IsReader text n = omega (arith, length-take n text)

abbrev reader : CappedReader endless
reader = new_capped_reader endless (codes "abc") 4

reads_four :
    ((read_all endless (8 ∷ 8 ∷ 8 ∷ []) reader).1 ≡ codes "abca")
    × ((read_capped endless (read_all endless (8 ∷ 8 ∷ []) reader).0 8).1.1 ≡ some cause)
unfolding read_all read_capped after_read after_probe
reads_four = (refl, refl)

read_all_budget_example :
    length (read_all endless (8 ∷ 1 ∷ []) reader).1
      + (read_all endless (8 ∷ 1 ∷ []) reader).0.remaining
    ≡ 4
read_all_budget_example = read_all_budget endless endless-IsReader (8 ∷ 1 ∷ []) reader

abbrev used_up : CappedReader endless
used_up = new_capped_reader endless (codes "abc") 0
