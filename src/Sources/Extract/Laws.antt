-- ===== src/Sources/Extract/Laws.antt =====
-- What one round of the extraction loop does, when the extraction succeeds.
use jaas.Prelude.{
  ℕ, ◌+◌, ◌≤◌, ◌<◌, ◌≡◌, sym, ap, ◌∙◌, subst, false, Bool-cases, Option-cases, Result-cases, inl,
  inr, List, [], ◌∷◌, none, some, Bytes, ltb, length, ok, err, member, In, arith, length-take,
}
use jaas.Sources.Extract.{
  TarEntry, TarStream, at_eof, broken, entry, entry_too_large, tarball_too_large, unreadable,
  duplicate_path, Limits, Files, names, read_limited, check_header, check_body, keep_entry,
  kept_name, extract_loop,
}

-- The entries of a stream.
unfoldable pub entries : TarStream → List TarEntry
entries at_eof = []
entries broken = []
entries (entry e rest) = e ∷ entries rest

abbrev pub total_bytes : Files → ℕ
total_bytes [] = 0
total_bytes ((name, body) ∷ files) = length body + total_bytes files

abbrev pub IsDistinct : List Bytes → Type 0
IsDistinct [] = Unit
IsDistinct (x ∷ xs) = (¬ In x xs) × IsDistinct xs

-- A body that fits has been read to its end.
read_limited_sound :
    (limit : ℕ) (e : TarEntry) (body : Bytes)
    → read_limited limit e ≡ some body
    → length body < limit
    → body ≡ e.body
unfolding read_limited
read_limited_sound limit e body h short = ground (arith, length-take limit e.body)

check_body_sound :
    (l : Limits) (total : ℕ) (body : Bytes) (total' : ℕ)
    → check_body l total body ≡ ok total'
    → (length body ≤ l.per_entry_bytes)
      × (total + length body ≤ l.max_bytes)
      × (total' ≡ total + length body)
unfolding check_body
check_body_sound l total body total' h = elim (Bool-cases (ltb l.per_entry_bytes (length body))) [
  | inl e ↦ let bad : err entry_too_large ≡ ok total' = rw e at h in cc
  | inr e ↦ elim (Bool-cases (ltb l.max_bytes (total + length body))) [
    | inl f ↦ let bad : err tarball_too_large ≡ ok total' = rw (e, f) at h in cc
    | inr f ↦
        let good : ok (total + length body) ≡ ok total' = rw (e, f) at h in
        (ground arith, ground arith, cc)
  ]
]

-- What keeping an entry under its name establishes.
pub record IsKept (l : Limits) (total : ℕ) (e : TarEntry) (body : Bytes) (total' : ℕ) : Type 0 where
  pub whole : body ≡ e.body
  pub fits : length body ≤ l.per_entry_bytes
  pub within : total + length body ≤ l.max_bytes
  pub adds : total' ≡ total + length body

keep_entry_sound :
    (l : Limits) (total : ℕ) (e : TarEntry) (body : Bytes) (total' : ℕ)
    → keep_entry l total e ≡ ok (body, total')
    → IsKept l total e body total'
unfolding keep_entry
keep_entry_sound l total e body total' h = elim (Option-cases (check_header l total e.size)) [
  | inr (x, c) ↦ let bad : err x ≡ ok (body, total') = rw (c, keep_entry) at h in cc
  | inl c ↦ elim (Option-cases (read_limited (l.per_entry_bytes + 1) e)) [
    | inl r ↦ let bad : err unreadable ≡ ok (body, total') = rw (c, r, keep_entry) at h in cc
    | inr (b, r) ↦ elim (Result-cases (check_body l total b)) [
      | inr (x, k) ↦ let bad : err x ≡ ok (body, total') = rw (c, r, k, keep_entry) at h in cc
      | inl (t, k) ↦
          let good : ok (b, t) ≡ ok (body, total') = rw (c, r, k, keep_entry) at h in
          let same : b ≡ body = cc in
          let sum : t ≡ total' = cc in
          let (fits, within, adds) = check_body_sound l total b t k in
          subst (λ z. IsKept l total e z total') same
            (record {
              whole = read_limited_sound _ e b r (omega (arith, fits));
              fits = fits;
              within = within;
              adds = sym sum ∙ adds;
            })
    ]
  ]
]

module _ (l : Limits) (path_prefix : Bytes) where
  -- What one round of the loop does with an entry that has a name.
  pub record IsRound (e : TarEntry) (rest : TarStream) (total : ℕ) (files out : Files)
      (name : Bytes) : Type 0 where
    pub fresh : member name (names files) ≡ false
    pub kept : IsKept l total e e.body (total + length e.body)
    pub runs :
        extract_loop l path_prefix rest (total + length e.body) ((name, e.body) ∷ files) ≡ ok out

  kept-IsRound :
      (e : TarEntry) (rest : TarStream) (total : ℕ) (files out : Files) (name body : Bytes)
      (total' : ℕ)
      → member name (names files) ≡ false
      → IsKept l total e body total'
      → extract_loop l path_prefix rest total' ((name, body) ∷ files) ≡ ok out
      → IsRound e rest total files out name
  kept-IsRound e rest total files out name body total' f k h =
      let at : total' ≡ total + length e.body = k.adds ∙ ap (λ b. total + length b) k.whole in
      let kept : IsKept l total e e.body (total + length e.body) =
        subst (IsKept l total e e.body) at (subst (λ b. IsKept l total e b total') k.whole k) in
      let runs : extract_loop l path_prefix rest (total + length e.body) ((name, e.body) ∷ files)
          ≡ ok out =
        subst (λ t. extract_loop l path_prefix rest t ((name, e.body) ∷ files) ≡ ok out) at
          (subst (λ b. extract_loop l path_prefix rest total' ((name, b) ∷ files) ≡ ok out) k.whole
            h) in
      record { fresh = f; kept = kept; runs = runs }

  pub skips :
      (e : TarEntry) (rest : TarStream) (total : ℕ) (files out : Files)
      → kept_name path_prefix e ≡ none
      → extract_loop l path_prefix (entry e rest) total files ≡ ok out
      → extract_loop l path_prefix rest total files ≡ ok out
  unfolding extract_loop
  skips e rest total files out n h = rw (n, extract_loop) at h

  pub takes :
      (e : TarEntry) (rest : TarStream) (total : ℕ) (files out : Files) (name : Bytes)
      → kept_name path_prefix e ≡ some name
      → extract_loop l path_prefix (entry e rest) total files ≡ ok out
      → IsRound e rest total files out name
  unfolding extract_loop
  takes e rest total files out name n h = elim (Bool-cases (member name (names files))) [
    | inl m ↦ let bad : err duplicate_path ≡ ok out = rw (n, m, extract_loop) at h in cc
    | inr m ↦ elim (Result-cases (keep_entry l total e)) [
      | inr (x, k) ↦ let bad : err x ≡ ok out = rw (n, m, k, extract_loop) at h in cc
      | inl ((body, total'), k) ↦
          kept-IsRound e rest total files out name body total' m
            (keep_entry_sound l total e body total' k) (rw (n, m, k, extract_loop) at h)
    ]
  ]
