-- ===== src/Storage/Prune/Superseded.antt =====
-- When a candidate was superseded: earliestNewerMtime and the time that selectPruneVictims reads,
-- against a description of them.
use jaas.Prelude.{
  ℕ, ◌≡◌, ◌≤◌, ◌<◌, ◌⊎◌, inl, inr, refl, sym, ◌∙◌, subst, ltb_iff, List, [], ◌∷◌, arith, ltb,
  if◌then◌else◌, All, In, Bool-cases, map,
}
use jaas.Storage.Prune.{PruneCandidate, closer, newer_loop, earliest_newer_mtime, superseded_at}

-- `t` is the least of the candidates' times after `ref`, and 0 if there is none.
abbrev IsEarliestNewer : List PruneCandidate → ℕ → ℕ → Type 0
IsEarliestNewer cands ref t =
    ((t ≡ 0) × All (λ c. c.mtime ≤ ref) cands)
    ⊎ ((ref < t)
        × In t (map (λ (c : PruneCandidate). c.mtime) cands)
        × All (λ c. ref < c.mtime → t ≤ c.mtime) cands)

abbrev pub times : List PruneCandidate → List ℕ
times = map (λ c. c.mtime)

closer_some :
    (ref mtime out : ℕ)
    → ref < out
    → (ref < closer ref mtime out)
      × (closer ref mtime out ≤ out)
      × ((closer ref mtime out ≡ out) ⊎ (closer ref mtime out ≡ mtime))
      × (ref < mtime → closer ref mtime out ≤ mtime)
unfolding closer
closer_some ref mtime out h = (ground arith, ground arith, ground arith, λ q. ground arith)

closer_first : (ref mtime : ℕ) → closer ref mtime 0 ≡ (if ltb ref mtime then mtime else 0)
unfolding closer
closer_first ref mtime = ground arith

newer_loop_some :
    (cands : List PruneCandidate) (ref out : ℕ)
    → ref < out
    → (ref < newer_loop cands ref out)
      × (newer_loop cands ref out ≤ out)
      × ((newer_loop cands ref out ≡ out) ⊎ In (newer_loop cands ref out) (times cands))
      × All (λ c. ref < c.mtime → newer_loop cands ref out ≤ c.mtime) cands
unfolding newer_loop
newer_loop_some [] ref out h = (h, omega arith, inl refl, tt)
newer_loop_some (c ∷ cands) ref out h =
    let (above, below, choice, least) = closer_some ref c.mtime out h in
    let (above', below', choice', least') =
      newer_loop_some cands ref (closer ref c.mtime out) above in
    (
      above',
      omega arith,
      elim choice' [
        | inl same ↦ elim choice [
          | inl out_kept ↦ inl (same ∙ out_kept)
          | inr taken ↦ inr (inl (same ∙ taken))
        ]
        | inr later ↦ inr (inr later)
      ],
      (λ q. omega (arith, least q), least'),
    )

newer_loop_none :
    (cands : List PruneCandidate) (ref : ℕ) → IsEarliestNewer cands ref (newer_loop cands ref 0)
unfolding newer_loop
newer_loop_none [] ref = inl (refl, tt)
newer_loop_none (c ∷ cands) ref = elim (Bool-cases (ltb ref c.mtime)) [
  | inl newer ↦
      let e : closer ref c.mtime 0 ≡ c.mtime = closer_first ref c.mtime ∙ rw newer refl in
      let (above, below, choice, least) =
        newer_loop_some cands ref c.mtime ((ltb_iff ref c.mtime).0 newer) in
      subst (λ o. IsEarliestNewer (c ∷ cands) ref (newer_loop cands ref o)) (sym e)
        (inr (above, elim choice [ inl h ↦ inl h | inr h ↦ inr h ], (λ q. below, least)))
  | inr old ↦
      let e : closer ref c.mtime 0 ≡ 0 = closer_first ref c.mtime ∙ rw old refl in
      subst (λ o. IsEarliestNewer (c ∷ cands) ref (newer_loop cands ref o)) (sym e)
        (extend (newer_loop cands ref 0) (ground arith) (newer_loop_none cands ref))
]
  where
    extend :
        (t : ℕ) → c.mtime ≤ ref → IsEarliestNewer cands ref t → IsEarliestNewer (c ∷ cands) ref t
    extend t h (inl (e, all_old)) = inl (e, (h, all_old))
    extend t h (inr (above, m, least)) = inr (above, inr m, (λ q. omega arith, least))

-- earliest_newer_mtime is the least of the candidates' times after the reference, and the zero time
-- exactly when no candidate is newer.
earliest_newer_mtime_lem :
    (cands : List PruneCandidate) (ref : ℕ)
    → IsEarliestNewer cands ref (earliest_newer_mtime cands ref)
unfolding earliest_newer_mtime
earliest_newer_mtime_lem cands ref = newer_loop_none cands ref

-- When a candidate was superseded: at the earliest newer time, or at its own time if none is newer.
abbrev pub IsSupersededAt : List PruneCandidate → PruneCandidate → ℕ → Type 0
IsSupersededAt cands c t =
    ((t ≡ c.mtime) × All (λ d. d.mtime ≤ c.mtime) cands)
    ⊎ ((c.mtime < t) × In t (times cands) × All (λ d. c.mtime < d.mtime → t ≤ d.mtime) cands)

superseded_none :
    (cands : List PruneCandidate) (c : PruneCandidate)
    → earliest_newer_mtime cands c.mtime ≡ 0
    → superseded_at cands c ≡ c.mtime
unfolding superseded_at
superseded_none cands c e = ground arith

superseded_some :
    (cands : List PruneCandidate) (c : PruneCandidate)
    → c.mtime < earliest_newer_mtime cands c.mtime
    → superseded_at cands c ≡ earliest_newer_mtime cands c.mtime
unfolding superseded_at
superseded_some cands c h = ground arith

pub superseded_at_lem :
    (cands : List PruneCandidate) (c : PruneCandidate)
    → IsSupersededAt cands c (superseded_at cands c)
superseded_at_lem cands c = elim (earliest_newer_mtime_lem cands c.mtime) [
  | inl (zero_time, old) ↦
      let e : superseded_at cands c ≡ c.mtime = superseded_none cands c zero_time in inl (e, old)
  | inr (above, m, least) ↦
      subst (IsSupersededAt cands c) (sym (superseded_some cands c above)) (inr (above, m, least))
]

timed :
    (P : ℕ → Type 0) (cands : List PruneCandidate) (t : ℕ)
    → All (λ c. P c.mtime) cands
    → In t (times cands)
    → P t
timed P [] t h m = absurd m
timed P (c ∷ cands) t h (inl e) = subst P (sym e) h.0
timed P (c ∷ cands) t h (inr m) = timed P cands t h.1 m

-- A candidate was superseded at one time only.
pub IsSupersededAt-unique :
    (cands : List PruneCandidate) (c : PruneCandidate) (t u : ℕ)
    → IsSupersededAt cands c t
    → IsSupersededAt cands c u
    → t ≡ u
IsSupersededAt-unique cands c t u (inl (e, old)) (inl (f, _)) = e ∙ sym f
IsSupersededAt-unique cands c t u (inl (e, old)) (inr (above, m, least)) =
    let bound = timed (λ x. x ≤ c.mtime) cands u old m in omega arith
IsSupersededAt-unique cands c t u (inr (above, m, least)) (inl (f, old)) =
    let bound = timed (λ x. x ≤ c.mtime) cands t old m in omega arith
IsSupersededAt-unique cands c t u (inr (above, m, least)) (inr (above', m', least')) =
    let low = timed (λ x. c.mtime < x → t ≤ x) cands u least m' above' in
    let high = timed (λ x. c.mtime < x → u ≤ x) cands t least' m above in omega arith
