-- ===== src/Eval/Importer/Instances.antt =====
-- go-jsonnet wants the same instance of the contents whenever a name is found again.
use jaas.Prelude.{
  ◌≡◌, refl, sym, ◌∙◌, subst, Bool-cases, inl, inr, List, [], ◌∷◌, Option, none, some, Option-cases,
  Result, ok, err, Result-cases, Bytes, ◌=?◌, =?_sound, =?_refl,
}
use jaas.Eval.Importer.{
  Paths, InMemoryImporter, Contents, Memory, empty_memory, ImportError, find, found_at_of,
  record_location, contents_for, cache_key, import_resolved, resolve, import_file, import_all,
}

-- What the cache gives for a call is what stands under its name.
abbrev pub IsCoherent : Memory → Type 0
IsCoherent m =
    (key f : Bytes) (c : Contents)
    → find key m.cache ≡ some (c, f)
    → find f m.found_at_contents ≡ some c

-- No name loses its instance.
abbrev IsKept : Memory → Memory → Type 0
IsKept m m' =
    (f : Bytes) (c : Contents)
    → find f m.found_at_contents ≡ some c
    → find f m'.found_at_contents ≡ some c

find-head :
    {A : Type 0} (k : Bytes) (a : A) (entries : List (Bytes × A))
    → find k ((k, a) ∷ entries) ≡ some a
unfolding find
find-head k a entries = rw (=?_refl k) refl

find-fresh :
    {A : Type 0} (k g : Bytes) (a b : A) (entries : List (Bytes × A))
    → find k entries ≡ none
    → find g entries ≡ some b
    → find g ((k, a) ∷ entries) ≡ some b
unfolding find
find-fresh k g a b entries fresh h = elim (Bool-cases (g =? k)) [
  | inr e ↦ rw e h
  | inl e ↦
      let gone : find g entries ≡ none =
        subst (λ x. find x entries ≡ none) (sym (=?_sound g k e)) fresh in
      let bad : none ≡ some b = sym gone ∙ h in cc
]

stored :
    (k fa : Bytes) (c0 : Contents) (rest : List (Bytes × (Contents × Bytes)))
    (found : List (Bytes × Contents))
    → find fa found ≡ some c0
    → ((key f : Bytes) (c : Contents) → find key rest ≡ some (c, f) → find f found ≡ some c)
    → (key f : Bytes) (c : Contents) → find key ((k, (c0, fa)) ∷ rest) ≡ some (c, f)
    → find f found ≡ some c
unfolding find
stored k fa c0 rest found stands old key f c h = elim (Bool-cases (key =? k)) [
  | inr e ↦ old key f c (rw e at h)
  | inl e ↦ subst (λ x. find x.1 found ≡ some x.0) (told (rw e at h)) stands
]
  where
    told :
        ◌≡◌ {A = Option (Contents × Bytes)} (some (c0, fa)) (some (c, f))
        → ◌≡◌ {A = Contents × Bytes} (c0, fa) (c, f)
    told q = cc

module _ (paths : Paths) (im : InMemoryImporter) where
  contents_for-IsKept :
      (found_at body : Bytes) (m : Memory)
      → (find found_at (contents_for paths im found_at body m).1.found_at_contents
          ≡ some (contents_for paths im found_at body m).0)
        × (IsKept m (contents_for paths im found_at body m).1
            × ((contents_for paths im found_at body m).1.cache ≡ m.cache))
  unfolding contents_for
  contents_for-IsKept found_at body m = elim (Option-cases (find found_at m.found_at_contents)) [
    | inr (c, e) ↦ simp (e, contents_for) (refl, (λ f x h. h, refl))
    | inl e ↦
        simp (e, contents_for)
          (
            find-head found_at (record { instance_of = m.next; body = body }) m.found_at_contents,
            (
              λ f x h.
                  find-fresh found_at f (record { instance_of = m.next; body = body }) x
                    m.found_at_contents e h,
              refl,
            ),
          )
  ]

  -- One import: what it gives stands under its name afterwards.
  import_file-IsCoherent :
      (from p : Bytes) (m : Memory)
      → IsCoherent m
      → IsCoherent (import_file paths im from p m).1
        × (IsKept m (import_file paths im from p m).1
            × ((f : Bytes) (c : Contents)
                → (import_file paths im from p m).0 ≡ ok (c, f)
                → find f (import_file paths im from p m).1.found_at_contents ≡ some c))
  unfolding import_file import_resolved record_location
  import_file-IsCoherent from p m good =
      elim (Option-cases (find (cache_key paths im from p) m.cache)) [
        | inr ((c, f), e) ↦ rw (e, import_file) (good, (λ g x h. h, λ g x h. hit c f g x e h))
        | inl e ↦ elim (Result-cases (resolve paths im m from p)) [
          | inr (x, r) ↦ rw (e, r, import_file) (good, (λ g y h. h, λ g y h. broken h))
          | inl ((body, loc), r) ↦
              let recorded = record m { locs = (found_at_of paths im loc, loc) ∷ m.locs } in
              let (stands, (kept, same)) =
                contents_for-IsKept (found_at_of paths im loc) body recorded in
              rw (e, r, import_file)
                (
                  stored (cache_key paths im from p) (found_at_of paths im loc)
                      (contents_for paths im (found_at_of paths im loc) body recorded).0
                      (contents_for paths im (found_at_of paths im loc) body recorded).1.cache
                      (contents_for paths im (found_at_of paths im loc) body
                        recorded).1.found_at_contents
                      stands
                      (λ key f c h.
                        kept f c (good key f c (subst (λ x. find key x ≡ some (c, f)) same h))),
                  (
                    kept,
                    λ f c h.
                        subst
                          (λ x.
                            find x.1
                              (contents_for paths im (found_at_of paths im loc) body
                                recorded).1.found_at_contents
                            ≡ some x.0)
                          (whole h) stands,
                  ),
                )
        ]
      ]
    where
      hit :
          (c : Contents) (f g : Bytes) (x : Contents)
          → find (cache_key paths im from p) m.cache ≡ some (c, f)
          → ◌≡◌ {A = Result ImportError (Contents × Bytes)} (ok (c, f)) (ok (x, g))
          → find g m.found_at_contents ≡ some x
      hit c f g x e h = good (cache_key paths im from p) g x (e ∙ told h)
        where
          told :
              ◌≡◌ {A = Result ImportError (Contents × Bytes)} (ok (c, f)) (ok (x, g))
              → ◌≡◌ {A = Option (Contents × Bytes)} (some (c, f)) (some (x, g))
          told k = cc

      broken :
          {x : ImportError} {a : Contents × Bytes} {P : Type 0}
          → ◌≡◌ {A = Result ImportError (Contents × Bytes)} (err x) (ok a)
          → P
      broken k = cc

      whole :
          {a b : Contents × Bytes}
          → ◌≡◌ {A = Result ImportError (Contents × Bytes)} (ok a) (ok b)
          → a ≡ b
      whole k = cc

  import_all-IsCoherent :
      (calls : List (Bytes × Bytes)) (m : Memory)
      → IsCoherent m
      → IsCoherent (import_all paths im calls m) × IsKept m (import_all paths im calls m)
  unfolding import_all
  import_all-IsCoherent [] m good = (good, λ f c h. h)
  import_all-IsCoherent ((from, p) ∷ calls) m good =
      let (good', (kept, given)) = import_file-IsCoherent from p m good in
      let (end, on) = import_all-IsCoherent calls (import_file paths im from p m).1 good' in
      (end, λ f c h. on f c (kept f c h))

  -- Whatever is imported before, between and after, two imports that find a file under one name give the
  -- same instance of its contents, from whatever file and by whatever path they ask.
  pub import_file-one_instance :
      (before between : List (Bytes × Bytes)) (from p from' p' f : Bytes) (c c' : Contents)
      → (import_file paths im from p (import_all paths im before empty_memory)).0 ≡ ok (c, f)
      → (import_file paths im from' p' (
          import_all paths im between
            (import_file paths im from p (import_all paths im before empty_memory)).1)).0
        ≡ ok (c', f)
      → c ≡ c'
  unfolding find
  import_file-one_instance before between from p from' p' f c c' first second =
      let (good, _) = import_all-IsCoherent before empty_memory none_yet in
      let (good1, (kept1, given1)) =
        import_file-IsCoherent from p (import_all paths im before empty_memory) good in
      let (good2, kept2) =
        import_all-IsCoherent between
          (import_file paths im from p (import_all paths im before empty_memory)).1 good1 in
      let (good3, (kept3, given3)) = import_file-IsCoherent from' p' _ good2 in
      one (sym (kept3 f c (kept2 f c (given1 f c first))) ∙ given3 f c' second)
    where
      none_yet : IsCoherent empty_memory
      none_yet key f c h = cc

      one : some c ≡ some c' → c ≡ c'
      one k = cc
