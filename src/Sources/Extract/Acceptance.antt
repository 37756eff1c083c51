-- ===== src/Sources/Extract/Acceptance.antt =====
-- Which tarballs are extracted: no honest one within the caps is refused.
use jaas.Prelude.{
  ℕ, ◌+◌, ◌≤◌, ◌≡◌, refl, sym, ◌∙◌, subst, ℤ, pos, false, Bool-cases, Option-cases, inl, inr, ◌⊎◌,
  List, [], ◌∷◌, none, some, Bytes, length, ok, member, member_sound, In, arith,
}
use jaas.Sources.Extract.{
  TarEntry, TarStream, at_eof, broken, entry, Limits, Files, names, read_limited, check_header,
  check_body, keep_entry, kept_name, extract_loop, limits, extract_tarball_with_limits,
}
use jaas.Sources.Extract.Laws.{total_bytes, IsDistinct}

-- An entry whose header tells its size, whose body can be read, and which is within the cap.
pub record IsHonestEntry (l : Limits) (e : TarEntry) : Type 0 where
  pub told : e.size ≡ pos (length e.body)
  pub readable : e.torn ≡ false
  pub small : length e.body ≤ l.per_entry_bytes

-- A stream that ends, and whose kept entries are honest.
unfoldable pub IsHonest : Limits → Bytes → TarStream → Type 0
IsHonest l path_prefix at_eof = Unit
IsHonest l path_prefix broken = ⊥
IsHonest l path_prefix (entry e rest) =
    ((kept_name path_prefix e ≡ none) ⊎ IsHonestEntry l e) × IsHonest l path_prefix rest

-- The names and bodies of the entries that are kept, in the order of the stream.
unfoldable pub kept_files : Bytes → TarStream → Files
kept_files path_prefix at_eof = []
kept_files path_prefix broken = []
kept_files path_prefix (entry e rest) = elim (kept_name path_prefix e) [
  | none ↦ kept_files path_prefix rest
  | some name ↦ (name, e.body) ∷ kept_files path_prefix rest
]

honest_header :
    (l : Limits) (total : ℕ) (e : TarEntry)
    → IsHonestEntry l e
    → total + length e.body ≤ l.max_bytes
    → check_header l total e.size ≡ none
unfolding check_header
honest_header l total e h room =
    subst (λ z. check_header l total z ≡ none) (sym h.told) (by_size (length e.body) h.small room)
  where
    by_size :
        (n : ℕ)
        → n ≤ l.per_entry_bytes
        → total + n ≤ l.max_bytes
        → check_header l total (pos n) ≡ none
    by_size n a b = ground arith

keep_entry_honest :
    (l : Limits) (total : ℕ) (e : TarEntry)
    → IsHonestEntry l e
    → total + length e.body ≤ l.max_bytes
    → keep_entry l total e ≡ ok (e.body, total + length e.body)
unfolding keep_entry
keep_entry_honest l total e h room =
    let header = honest_header l total e h room in
    let reads : read_limited (l.per_entry_bytes + 1) e ≡ some e.body = whole h.readable h.small in
    let checked : check_body l total e.body ≡ ok (total + length e.body) = body h.small room in
    rw (header, reads, checked, keep_entry) refl
  where
    whole :
        e.torn ≡ false
        → length e.body ≤ l.per_entry_bytes
        → read_limited (l.per_entry_bytes + 1) e ≡ some e.body
    whole t s = unfold read_limited in ground arith

    body :
        length e.body ≤ l.per_entry_bytes
        → total + length e.body ≤ l.max_bytes
        → check_body l total e.body ≡ ok (total + length e.body)
    body s r = unfold check_body in ground arith

not_member : (k : Bytes) (xs : List Bytes) → ¬ In k xs → member k xs ≡ false
not_member k xs n = elim (Bool-cases (member k xs)) [
  | inl e ↦ absurd (n (member_sound k xs e))
  | inr e ↦ e
]

-- No name of the first list is in the second.
abbrev IsApart : List Bytes → List Bytes → Type 0
IsApart [] ys = Unit
IsApart (x ∷ xs) ys = (¬ In x ys) × IsApart xs ys

IsApart-cons :
    (xs : List Bytes) (y : Bytes) (ys : List Bytes)
    → ¬ In y xs
    → IsApart xs ys
    → IsApart xs (y ∷ ys)
IsApart-cons [] y ys n a = tt
IsApart-cons (x ∷ xs) y ys n a = (no, IsApart-cons xs y ys (λ m. n (inr m)) a.1)
  where
    no : ¬ In x (y ∷ ys)
    no (inl e) = n (inl (sym e))
    no (inr m) = a.0 m

IsApart-empty : (xs : List Bytes) → IsApart xs []
IsApart-empty [] = tt
IsApart-empty (x ∷ xs) = (λ m. m, IsApart-empty xs)

module _ (l : Limits) (path_prefix : Bytes) where
  kept_skips :
      (e : TarEntry) (rest : TarStream)
      → kept_name path_prefix e ≡ none
      → kept_files path_prefix (entry e rest) ≡ kept_files path_prefix rest
  unfolding kept_files
  kept_skips e rest n = rw (n, kept_files) refl

  kept_takes :
      (e : TarEntry) (rest : TarStream) (name : Bytes)
      → kept_name path_prefix e ≡ some name
      → kept_files path_prefix (entry e rest) ≡ (name, e.body) ∷ kept_files path_prefix rest
  unfolding kept_files
  kept_takes e rest name n = rw (n, kept_files) refl

  loop_skips :
      (e : TarEntry) (rest : TarStream) (total : ℕ) (files : Files)
      → kept_name path_prefix e ≡ none
      → extract_loop l path_prefix (entry e rest) total files
        ≡ extract_loop l path_prefix rest total files
  unfolding extract_loop
  loop_skips e rest total files n = rw (n, extract_loop) refl

  loop_takes :
      (e : TarEntry) (rest : TarStream) (total : ℕ) (files : Files) (name : Bytes)
      → kept_name path_prefix e ≡ some name
      → ¬ In name (names files)
      → IsHonestEntry l e
      → total + length e.body ≤ l.max_bytes
      → extract_loop l path_prefix (entry e rest) total files
        ≡ extract_loop l path_prefix rest (total + length e.body) ((name, e.body) ∷ files)
  unfolding extract_loop
  loop_takes e rest total files name n fresh h room =
      rw (n, not_member name (names files) fresh, keep_entry_honest l total e h room, extract_loop)
        refl

  Accepts : TarStream → ℕ → Files → Type 0
  Accepts stream total files =
      (out : Files) × (extract_loop l path_prefix stream total files ≡ ok out)

  extract_loop-Accepts :
      (stream : TarStream) (total : ℕ) (files : Files)
      → IsHonest l path_prefix stream
      → total + total_bytes (kept_files path_prefix stream) ≤ l.max_bytes
      → IsDistinct (names (kept_files path_prefix stream))
      → IsApart (names (kept_files path_prefix stream)) (names files)
      → Accepts stream total files
  unfolding IsHonest Accepts
  extract_loop-Accepts at_eof total files h room d a = (files, unfold extract_loop in refl)
  extract_loop-Accepts broken total files h room d a = absurd h
  extract_loop-Accepts (entry e rest) total files h room d a =
      elim (Option-cases (kept_name path_prefix e)) [
        | inl n ↦
            let k = kept_skips e rest n in
            let (out, run) =
              extract_loop-Accepts rest total files h.1
                (subst (λ f. total + total_bytes f ≤ l.max_bytes) k room)
                (subst (λ f. IsDistinct (names f)) k d)
                (subst (λ f. IsApart (names f) (names files)) k a) in
            (out, loop_skips e rest total files n ∙ run)
        | inr (name, n) ↦
            let k = kept_takes e rest name n in
            let room' : total + (length e.body + total_bytes (kept_files path_prefix rest))
                ≤ l.max_bytes =
              subst (λ f. total + total_bytes f ≤ l.max_bytes) k room in
            let d' : IsDistinct (name ∷ names (kept_files path_prefix rest)) =
              subst (λ f. IsDistinct (names f)) k d in
            let a' : IsApart (name ∷ names (kept_files path_prefix rest)) (names files) =
              subst (λ f. IsApart (names f) (names files)) k a in
            let (out, run) =
              extract_loop-Accepts rest (total + length e.body) ((name, e.body) ∷ files) h.1
                (omega (arith, room')) d'.1 (IsApart-cons _ name (names files) d'.0 a'.1) in
            (
              out,
              loop_takes e rest total files name n a'.0 (honest n h.0) (omega (arith, room')) ∙ run,
            )
      ]
    where
      honest :
          {name : Bytes}
          → kept_name path_prefix e ≡ some name
          → (kept_name path_prefix e ≡ none) ⊎ IsHonestEntry l e
          → IsHonestEntry l e
      honest n (inl m) = cc
      honest n (inr x) = x

-- A tarball that ends, whose kept entries are honest and stand under different names, and whose
-- kept bodies are within the caps, is extracted.
pub extract_tarball_with_limits_accepts :
    (stream : TarStream) (path_prefix : Bytes) (max_bytes per_entry_bytes : ℤ)
    → IsHonest (limits max_bytes per_entry_bytes) path_prefix stream
    → total_bytes (kept_files path_prefix stream) ≤ (limits max_bytes per_entry_bytes).max_bytes
    → IsDistinct (names (kept_files path_prefix stream))
    → (files : Files) × (extract_tarball_with_limits
          (some stream)
          path_prefix
          max_bytes
          per_entry_bytes
        ≡ ok files)
unfolding extract_tarball_with_limits Accepts
extract_tarball_with_limits_accepts stream path_prefix max_bytes per_entry_bytes h room d =
    extract_loop-Accepts (limits max_bytes per_entry_bytes) path_prefix stream 0 [] h
      (omega (arith, room)) d (IsApart-empty (names (kept_files path_prefix stream)))
