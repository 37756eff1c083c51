-- ===== src/Sources/Capped/Budget.antt =====
-- No run of Reads gives more than the budget, and a reader that has tripped stays so.
use jaas.Prelude.{
  ℕ, ◌+◌, ◌≤◌, ◌≡◌, refl, min, true, Bool-cases, inl, inr, List, [], ◌∷◌, Option, none, some, Bytes,
  leb, length, length-append, arith,
}
use jaas.Sources.Capped.{
  eof, cause, SourceError, source_eof, source_other, CappedReader, after_probe, after_read,
  read_capped, read_all,
}

-- The contract of io.Reader: a Read gives no more bytes than its buffer holds.
abbrev pub IsReader : {U : Type 0} → (U → ℕ → U × Bytes × Option SourceError) → Type 0
IsReader {U} read = (u : U) (n : ℕ) → length (read u n).1 ≤ n

module _ {U : Type 0} (read : U → ℕ → U × Bytes × Option SourceError)
    (contract : IsReader read) where
  after_probe_budget :
      (cr : CappedReader read) (r : U × Bytes × Option SourceError)
      → length (after_probe read cr r).1.0 + (after_probe read cr r).0.remaining ≡ cr.remaining
  unfolding after_probe
  after_probe_budget cr (u, b ∷ bytes, e) = omega arith
  after_probe_budget cr (u, [], some source_eof) = omega arith
  after_probe_budget cr (u, [], some source_other) = omega arith
  after_probe_budget cr (u, [], none) = omega arith

  after_read_budget :
      (cr : CappedReader read) (r : U × Bytes × Option SourceError)
      → length r.1 ≤ cr.remaining
      → length (after_read read cr r).1.0 + (after_read read cr r).0.remaining ≡ cr.remaining
  unfolding after_read
  after_read_budget cr (u, bytes, some source_eof) h = omega arith
  after_read_budget cr (u, bytes, some source_other) h = omega arith
  after_read_budget cr (u, bytes, none) h = omega arith

  -- One Read takes from the budget exactly what it gives.
  read_capped_budget :
      (cr : CappedReader read) (n : ℕ)
      → length (read_capped read cr n).1.0 + (read_capped read cr n).0.remaining ≡ cr.remaining
  unfolding read_capped
  read_capped_budget cr n = elim (Bool-cases cr.tripped) [
    | inl t ↦ simp (t, read_capped) (omega arith)
    | inr t ↦ elim (Bool-cases cr.eof_seen) [
      | inl s ↦ simp (t, s, read_capped) (omega arith)
      | inr s ↦ elim (Bool-cases (leb cr.remaining 0)) [
        | inl z ↦ simp (t, s, z, read_capped) (after_probe_budget cr (read cr.source 1))
        | inr z ↦
            simp (t, s, z, read_capped)
              (after_read_budget cr _ (omega (arith, contract cr.source (min n cr.remaining))))
      ]
    ]
  ]

  -- Whatever the buffers, the bytes that a run of Reads gives and what is left of the budget make up
  -- the budget that it began with.
  pub read_all_budget :
      (buffers : List ℕ) (cr : CappedReader read)
      → length (read_all read buffers cr).1 + (read_all read buffers cr).0.remaining ≡ cr.remaining
  unfolding read_all
  read_all_budget [] cr = omega arith
  read_all_budget (n ∷ buffers) cr = omega (
    arith,
    read_capped_budget cr n,
    read_all_budget buffers (read_capped read cr n).0,
    length-append (read_capped read cr n).1.0 (read_all read buffers (read_capped read cr n).0).1,
  )

  tripped_read :
      (cr : CappedReader read) (n : ℕ)
      → cr.tripped ≡ true
      → read_capped read cr n ≡ (cr, ([], some cause))
  unfolding read_capped
  tripped_read cr n t = simp (t, read_capped) refl

  -- Once a Read has reported the cause, every later one reports it, and gives no bytes.
  pub read_capped_again :
      (cr : CappedReader read) (n m : ℕ)
      → (read_capped read cr n).1.1 ≡ some cause
      → read_capped read (read_capped read cr n).0 m ≡ ((read_capped read cr n).0, ([], some cause))
  unfolding read_capped
  read_capped_again cr n m h = tripped_read (read_capped read cr n).0 m (trips h)
    where
      probe_trips :
          (r : U × Bytes × Option SourceError)
          → (after_probe read cr r).1.1 ≡ some cause
          → (after_probe read cr r).0.tripped ≡ true
      probe_trips (u, b ∷ bytes, e) k = unfold after_probe in refl
      probe_trips (u, [], some source_eof) k = unfold after_probe in cc
      probe_trips (u, [], some source_other) k = unfold after_probe in cc
      probe_trips (u, [], none) k = unfold after_probe in refl

      read_trips :
          (r : U × Bytes × Option SourceError)
          → (after_read read cr r).1.1 ≡ some cause
          → (after_read read cr r).0.tripped ≡ true
      read_trips (u, bytes, some source_eof) k = unfold after_read in cc
      read_trips (u, bytes, some source_other) k = unfold after_read in cc
      read_trips (u, bytes, none) k = unfold after_read in cc

      trips : (read_capped read cr n).1.1 ≡ some cause → (read_capped read cr n).0.tripped ≡ true
      trips k = elim (Bool-cases cr.tripped) [
        | inl t ↦ simp (t, read_capped) refl
        | inr t ↦ elim (Bool-cases cr.eof_seen) [
          | inl s ↦ let bad : some eof ≡ some cause = simp (t, s, read_capped) at k in cc
          | inr s ↦ elim (Bool-cases (leb cr.remaining 0)) [
            | inl z ↦ simp (t, s, z, read_capped) (probe_trips _ (simp (t, s, z, read_capped) at k))
            | inr z ↦ simp (t, s, z, read_capped) (read_trips _ (simp (t, s, z, read_capped) at k))
          ]
        ]
      ]
