-- ===== src/Sources/Extract/Contents.antt =====
-- What a successful extraction returns: its sizes, its names, and its contents.
use jaas.Prelude.{
  ℕ, ◌≤◌, ◌≡◌, ◌↔◌, refl, sym, ap, ◌∙◌, subst, ℤ, Bool, true, false, if◌then◌else◌, Option-cases,
  inl, inr, ◌⊎◌, List, [], ◌∷◌, Option, none, some, Bytes, length, ok, member, member_complete, In,
  All, arith,
}
use jaas.Sources.Entry.{normalise_entry}
use jaas.Sources.Entry.Laws.{IsEntryName, normalise_entry-IsEntryName}
use jaas.Sources.Extract.{
  TarEntry, TarStream, at_eof, broken, entry, Limits, Files, names, kept_name, extract_loop, limits,
  extract_tarball_with_limits,
}
use jaas.Sources.Extract.Laws.{entries, total_bytes, IsDistinct, IsRound, skips, takes}

-- What the loop has so far is within its limits, and named as entries are, each name once.
pub record IsExtracted (l : Limits) (files : Files) : Type 0 where
  pub within : total_bytes files ≤ l.max_bytes
  pub each_within : All (λ f. length f.1 ≤ l.per_entry_bytes) files
  pub named : All IsEntryName (names files)
  pub distinct : IsDistinct (names files)

kept_name-IsEntryName :
    (path_prefix : Bytes) (e : TarEntry) (name : Bytes)
    → kept_name path_prefix e ≡ some name
    → IsEntryName name
unfolding kept_name
kept_name-IsEntryName path_prefix e name h = go e.regular h
  where
    go :
        (b : Bool)
        → (if b then normalise_entry e.raw_name path_prefix else none) ≡ some name
        → IsEntryName name
    go true k = normalise_entry-IsEntryName e.raw_name path_prefix name k
    go false k = cc

fresh_sound : (k : Bytes) (xs : List Bytes) → member k xs ≡ false → ¬ In k xs
fresh_sound k xs h m = let held : member k xs ≡ true = member_complete k xs m in cc

-- A file of the result: it was there before, or an entry of the stream gave it.
abbrev pub IsFrom : Bytes → TarStream → Files → Bytes → Bytes → Type 0
IsFrom path_prefix stream files name body =
    In (name, body) files
    ⊎ ((e : TarEntry) × In e (entries stream)
        × (kept_name path_prefix e ≡ some name)
        × (body ≡ e.body))

module _ (l : Limits) (path_prefix : Bytes) where
  ends :
      (total : ℕ) (files out : Files)
      → extract_loop l path_prefix at_eof total files ≡ ok out
      → files ≡ out
  unfolding extract_loop
  ends total files out h = cc

  breaks :
      (total : ℕ) (files out : Files) → ¬ (extract_loop l path_prefix broken total files ≡ ok out)
  unfolding extract_loop
  breaks total files out h = cc

  round-IsExtracted :
      (e : TarEntry) (rest : TarStream) (total : ℕ) (files out : Files) (name : Bytes)
      → kept_name path_prefix e ≡ some name
      → total ≡ total_bytes files
      → IsExtracted l files
      → IsRound l path_prefix e rest total files out name
      → IsExtracted l ((name, e.body) ∷ files)
  round-IsExtracted e rest total files out name n sum x r = record {
    within = omega (arith, r.kept.within, sum);
    each_within = (r.kept.fits, x.each_within);
    named = (kept_name-IsEntryName path_prefix e name n, x.named);
    distinct = (fresh_sound name (names files) r.fresh, x.distinct);
  }

  extract_loop-IsExtracted :
      (stream : TarStream) (total : ℕ) (files out : Files)
      → extract_loop l path_prefix stream total files ≡ ok out
      → total ≡ total_bytes files
      → IsExtracted l files
      → IsExtracted l out
  extract_loop-IsExtracted at_eof total files out h sum x =
      subst (IsExtracted l) (ends total files out h) x
  extract_loop-IsExtracted broken total files out h sum x = absurd (breaks total files out h)
  extract_loop-IsExtracted (entry e rest) total files out h sum x =
      elim (Option-cases (kept_name path_prefix e)) [
        | inl n ↦
            extract_loop-IsExtracted rest total files out
              (skips l path_prefix e rest total files out n h) sum x
        | inr (name, n) ↦
            let r = takes l path_prefix e rest total files out name n h in
            extract_loop-IsExtracted rest _ _ out r.runs (omega (arith, sum))
              (round-IsExtracted e rest total files out name n sum x r)
      ]

  extract_loop_sound :
      (stream : TarStream) (total : ℕ) (files out : Files) (name body : Bytes)
      → extract_loop l path_prefix stream total files ≡ ok out
      → In (name, body) out
      → IsFrom path_prefix stream files name body
  unfolding entries
  extract_loop_sound at_eof total files out name body h m =
      inl (subst (In (name, body)) (sym (ends total files out h)) m)
  extract_loop_sound broken total files out name body h m = absurd (breaks total files out h)
  extract_loop_sound (entry e rest) total files out name body h m =
      elim (Option-cases (kept_name path_prefix e)) [
        | inl n ↦ later (
            extract_loop_sound rest total files out name body
              (skips l path_prefix e rest total files out n h) m)
        | inr (k, n) ↦
            let r = takes l path_prefix e rest total files out k n h in
            this k n (extract_loop_sound rest _ _ out name body r.runs m)
      ]
    where
      later :
          IsFrom path_prefix rest files name body
          → IsFrom path_prefix (entry e rest) files name body
      later (inl f) = inl f
      later (inr (d, i, n, b)) = inr (d, inr i, n, b)

      this :
          (k : Bytes)
          → kept_name path_prefix e ≡ some k
          → IsFrom path_prefix rest ((k, e.body) ∷ files) name body
          → IsFrom path_prefix (entry e rest) files name body
      this k n (inl (inl same)) =
          inr (e, inl refl, n ∙ ap some (sym (ap (λ f. f.0) same)), ap (λ f. f.1) same)
      this k n (inl (inr f)) = inl f
      this k n (inr (d, i, q, b)) = inr (d, inr i, q, b)

  extract_loop_complete :
      (stream : TarStream) (total : ℕ) (files out : Files) (name body : Bytes)
      → extract_loop l path_prefix stream total files ≡ ok out
      → IsFrom path_prefix stream files name body
      → In (name, body) out
  unfolding entries
  extract_loop_complete at_eof total files out name body h (inl f) =
      subst (In (name, body)) (ends total files out h) f
  extract_loop_complete at_eof total files out name body h (inr (d, i, q, b)) = absurd i
  extract_loop_complete broken total files out name body h m = absurd (breaks total files out h)
  extract_loop_complete (entry e rest) total files out name body h m =
      elim (Option-cases (kept_name path_prefix e)) [
        | inl n ↦
            extract_loop_complete rest total files out name body
              (skips l path_prefix e rest total files out n h) (skipped n m)
        | inr (k, n) ↦
            let r = takes l path_prefix e rest total files out k n h in
            extract_loop_complete rest _ _ out name body r.runs (taken k n m)
      ]
    where
      skipped :
          kept_name path_prefix e ≡ none
          → IsFrom path_prefix (entry e rest) files name body
          → IsFrom path_prefix rest files name body
      skipped n (inl f) = inl f
      skipped n (inr (d, inl same, q, b)) =
          let bad : kept_name path_prefix e ≡ some name =
            subst (λ z. kept_name path_prefix z ≡ some name) same q in
          cc
      skipped n (inr (d, inr i, q, b)) = inr (d, i, q, b)

      taken :
          (k : Bytes)
          → kept_name path_prefix e ≡ some k
          → IsFrom path_prefix (entry e rest) files name body
          → IsFrom path_prefix rest ((k, e.body) ∷ files) name body
      taken k n (inl f) = inl (inr f)
      taken k n (inr (d, inl same, q, b)) =
          let here : kept_name path_prefix e ≡ some name =
            subst (λ z. kept_name path_prefix z ≡ some name) same q in
          let eq : name ≡ k = cc in
          inl (inl (ap (λ x. (x, body)) eq ∙ ap (λ x. (k, x)) (b ∙ ap (λ z. z.body) same)))
      taken k n (inr (d, inr i, q, b)) = inr (d, i, q, b)

-- A tarball that is extracted: the bodies together are within the aggregate cap and each is within
-- the cap on one entry, where a cap that is not positive is the default; every name is relative,
-- visible and on the allowlist, and no name stands twice.
pub extract_tarball_with_limits-IsExtracted :
    (gzip : Option TarStream) (path_prefix : Bytes) (max_bytes per_entry_bytes : ℤ) (files : Files)
    → extract_tarball_with_limits gzip path_prefix max_bytes per_entry_bytes ≡ ok files
    → IsExtracted (limits max_bytes per_entry_bytes) files
unfolding extract_tarball_with_limits
extract_tarball_with_limits-IsExtracted none path_prefix max_bytes per_entry_bytes files h = cc
extract_tarball_with_limits-IsExtracted (some stream) path_prefix max_bytes per_entry_bytes files
      h =
    extract_loop-IsExtracted (limits max_bytes per_entry_bytes) path_prefix stream 0 [] files h refl
      (record { within = omega arith; each_within = tt; named = tt; distinct = tt })

-- A tarball that is extracted holds under a name exactly the whole bodies of the regular entries
-- that are kept under that name: none is lost, cut short or made up.
pub extract_tarball_with_limits_iff :
    (stream : TarStream) (path_prefix : Bytes) (max_bytes per_entry_bytes : ℤ) (files : Files)
    (name body : Bytes)
    → extract_tarball_with_limits (some stream) path_prefix max_bytes per_entry_bytes ≡ ok files
    → In (name, body) files ↔ (
        (e : TarEntry) × In e (entries stream)
        × (kept_name path_prefix e ≡ some name)
        × (body ≡ e.body))
unfolding extract_tarball_with_limits
extract_tarball_with_limits_iff stream path_prefix max_bytes per_entry_bytes files name body h = (
  λ m.
      elim (extract_loop_sound (limits max_bytes per_entry_bytes) path_prefix stream 0 [] files name
        body h m) [ inl f ↦ absurd f | inr p ↦ p ],
  λ p.
      extract_loop_complete (limits max_bytes per_entry_bytes) path_prefix stream 0 [] files name
        body h (inr p),
)
