-- ===== src/Storage/Prune/Selection.antt =====
-- What the Prune selection evicts, against a description of it.
use jaas.Prelude.{
  ℕ, ◌+◌, ◌≡◌, ◌≤◌, ◌<◌, ◌↔◌, ◌⊎◌, inl, inr, refl, Bool, true, false, List, [], ◌∷◌, ◌++◌, Bytes,
  arith, if◌then◌else◌, member, member_sound, member_complete, In, In-append, In-append_left,
  In-append_right, Bool-cases,
}
use jaas.Storage.Prune.Superseded.{IsSupersededAt, superseded_at_lem, IsSupersededAt-unique}
use jaas.Storage.Prune.{
  PruneCandidate, superseded_at, is_victim, victims_loop, select_prune_victims,
}

-- `c` is one of the candidates that the pass evicts: not in the keep-set, and superseded for the
-- whole of the grace, if there is one.
pub record IsVictim (cands : List PruneCandidate) (keep_set : List Bytes) (now grace : ℕ)
    (c : PruneCandidate) : Type 0 where
  pub candidate : In c cands
  pub not_kept : ¬ In c.keep_key keep_set
  pub aged : 0 < grace → (t : ℕ) × IsSupersededAt cands c t × (t + grace ≤ now)

is_victim_iff :
    (cands : List PruneCandidate) (keep_set : List Bytes) (now grace : ℕ) (c : PruneCandidate)
    → In c cands
    → (is_victim cands keep_set now grace c ≡ true) ↔ IsVictim cands keep_set now grace c
unfolding is_victim
is_victim_iff cands keep_set now grace c m = (
  λ h. record {
    candidate = m;
    not_kept = λ k. ground (arith, member_complete c.keep_key keep_set k);
    aged = λ g. (superseded_at cands c, superseded_at_lem cands c, ground arith);
  },
  λ v. elim (Bool-cases (member c.keep_key keep_set)) [
    | inl kept ↦ absurd (v.not_kept (member_sound c.keep_key keep_set kept))
    | inr out ↦ ground (arith, aged_out v)
  ],
)
  where
    aged_out : IsVictim cands keep_set now grace c → 0 < grace → superseded_at cands c + grace ≤ now
    aged_out v g =
        let (t, at, old) = v.aged g in
        let same = IsSupersededAt-unique cands c _ t (superseded_at_lem cands c) at in omega arith

-- One round of the loop keeps what was selected and adds the candidate's key if it is a victim.
round_iff :
    (key : Bytes) (b : Bool) (victims : List Bytes) (k : Bytes)
    → In key (if b then victims ++ k ∷ [] else victims) ↔ (In key victims ⊎ (key ≡ k) × (b ≡ true))
round_iff key true victims k = (
  λ m. elim (In-append key victims (k ∷ []) m) [
    | inl old ↦ inl old
    | inr (inl e) ↦ inr (e, refl)
    | inr (inr absent) ↦ absurd absent
  ],
  λ m. elim m [
    | inl old ↦ In-append_left key victims (k ∷ []) old
    | inr (e, _) ↦ In-append_right key victims (k ∷ []) (inl e)
  ],
)
round_iff key false victims k = (λ m. inl m, λ m. elim m [ inl old ↦ old | inr (e, f) ↦ cc ])

-- Some candidate of the list has the key and passes the tests.
abbrev Selects : List PruneCandidate → List Bytes → ℕ → ℕ → List PruneCandidate → Bytes → Type 0
Selects cands keep_set now grace rest key =
    (c : PruneCandidate) × In c rest
    × (key ≡ c.remove_key)
    × (is_victim cands keep_set now grace c ≡ true)

module _ (cands : List PruneCandidate) (keep_set : List Bytes) (now grace : ℕ) where
  victims_loop_sound :
      (rest : List PruneCandidate) (victims : List Bytes) (key : Bytes)
      → In key (victims_loop cands keep_set now grace rest victims)
      → In key victims ⊎ Selects cands keep_set now grace rest key
  unfolding victims_loop
  victims_loop_sound [] victims key m = inl m
  victims_loop_sound (c ∷ rest) victims key m = elim (victims_loop_sound rest _ key m) [
    | inl early ↦ elim ((round_iff key _ victims c.remove_key).0 early) [
      | inl old ↦ inl old
      | inr (e, h) ↦ inr (c, inl refl, e, h)
    ]
    | inr (d, n, e, h) ↦ inr (d, inr n, e, h)
  ]

  victims_loop_complete :
      (rest : List PruneCandidate) (victims : List Bytes) (key : Bytes)
      → In key victims ⊎ Selects cands keep_set now grace rest key
      → In key (victims_loop cands keep_set now grace rest victims)
  unfolding victims_loop
  victims_loop_complete [] victims key (inl m) = m
  victims_loop_complete [] victims key (inr (c, absent, e, h)) = absurd absent
  victims_loop_complete (c ∷ rest) victims key (inl m) =
      victims_loop_complete rest _ key (inl ((round_iff key _ victims c.remove_key).1 (inl m)))
  victims_loop_complete (c ∷ rest) victims key (inr (d, inl same, e, h)) =
      victims_loop_complete rest _ key
        (inl ((round_iff key _ victims c.remove_key).1 (inr (rw (← same) e, rw (← same) h))))
  victims_loop_complete (c ∷ rest) victims key (inr (d, inr n, e, h)) =
      victims_loop_complete rest _ key (inr (d, n, e, h))

-- The keys handed back for deletion are exactly those of the candidates outside the keep-set that,
-- where there is a grace, have been superseded for the whole of it: counted from the least time of a
-- candidate that is newer, or from the candidate's own time if none is.
pub select_prune_victims_iff :
    (cands : List PruneCandidate) (keep_set : List Bytes) (now grace : ℕ) (key : Bytes)
    → In key (select_prune_victims cands keep_set now grace)
      ↔ ((c : PruneCandidate) × (key ≡ c.remove_key) × IsVictim cands keep_set now grace c)
unfolding select_prune_victims
select_prune_victims_iff cands keep_set now grace key = (
  λ m. elim (victims_loop_sound cands keep_set now grace cands [] key m) [
    | inl absent ↦ absurd absent
    | inr (c, n, e, h) ↦ (c, e, (is_victim_iff cands keep_set now grace c n).0 h)
  ],
  λ x. victims_loop_complete cands keep_set now grace cands [] key (
      inr (
        x.0,
        x.2.candidate,
        x.1,
        (is_victim_iff cands keep_set now grace x.0 x.2.candidate).1 x.2,
      )),
)
