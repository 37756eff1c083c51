-- ===== src/Operator/Revisions/Coverage.antt =====
-- The keep-set of a publish against the history that is recorded after it.
use jaas.Prelude.{
  ℕ, zero, suc, ◌+◌, ◌-◌, ◌≤◌, ◌≡◌, ◌≢◌, inl, inr, refl, true, List, [], ◌∷◌, ◌++◌, Bytes, ◌=?◌,
  =?_iff, length, length-append, take, max, arith, In, In-append_left, In-append_right, Bool-cases,
}
use jaas.Operator.Revisions.{
  RevisionEntry, revisions, add, keep_loop, build_keep_revisions, update_revision_history,
  history_revisions,
}
use jaas.Operator.Revisions.Bounds.{skips, grows, add_cases, update_revision_history_lem}

-- What `add` was given stays, and the new revision is there afterwards, unless it is empty.
add_keeps :
    (limit : ℕ) (rev : Bytes) (out : List Bytes) (a : Bytes) → In a out → In a (add limit rev out).0
add_keeps limit rev out a m = elim (add_cases limit rev out) [
  | skips _ e ↦ rw e m
  | grows _ _ e _ _ ↦ rw e (In-append_left a out (rev ∷ []) m)
]

add_holds : (limit : ℕ) (rev : Bytes) (out : List Bytes) → rev ≢ [] → In rev (add limit rev out).0
add_holds limit rev out n = elim (add_cases limit rev out) [
  | skips (inl empty) e ↦ absurd (n empty)
  | skips (inr known) e ↦ rw e known
  | grows _ _ e _ _ ↦ rw e (In-append_right rev out (rev ∷ []) (inl refl))
]

-- `add` makes the set longer by one at most, and stops only at the limit.
add-length :
    (limit : ℕ) (rev : Bytes) (out : List Bytes)
    → (length (add limit rev out).0 ≤ length out + 1)
      × ((add limit rev out).1 ≡ true → limit ≤ length out + 1)
add-length limit rev out = elim (add_cases limit rev out) [
  | skips _ e ↦ rw e (omega arith, λ h. cc)
  | grows _ _ e stop _ ↦ (omega (arith, ap_length e, length-append out (rev ∷ [])), stop)
]
  where
    ap_length :
        (add limit rev out).0 ≡ out ++ rev ∷ []
        → length (add limit rev out).0 ≡ length (out ++ rev ∷ [])
    ap_length e = rw e refl

keep_loop_keeps :
    (limit : ℕ) (prior : List RevisionEntry) (out : List Bytes) (a : Bytes)
    → In a out
    → In a (keep_loop limit prior out)
unfolding keep_loop
keep_loop_keeps limit [] out a m = m
keep_loop_keeps limit (e ∷ prior) out a m =
    let m' = add_keeps limit e.revision out a m in
    elim (Bool-cases (add limit e.revision out).1) [
      | inl stop ↦ rw stop m'
      | inr go ↦ rw go (keep_loop_keeps limit prior _ a m')
    ]

-- Where there is room for `k` more, the first `k` prior revisions get in.
keep_loop_covers :
    (limit k : ℕ) (prior : List RevisionEntry) (out : List Bytes) (a : Bytes)
    → length out + k ≤ limit
    → In a (revisions (take k prior))
    → a ≢ []
    → In a (keep_loop limit prior out)
unfolding keep_loop
keep_loop_covers limit zero prior out a room m n = absurd m
keep_loop_covers limit (suc k) [] out a room m n = absurd m
keep_loop_covers limit (suc k) (e ∷ prior) out a room m n =
    let (grown, stopped) = add-length limit e.revision out in
    elim (Bool-cases (add limit e.revision out).1) [
      | inl stop ↦ rw stop (elim m [
        | inl same ↦ rw same (add_holds limit e.revision out (rw same at n))
        | inr later ↦ absurd (no_room k (omega (arith, stopped stop)) later)
      ])
      | inr go ↦ rw go (elim m [
        | inl same ↦
            keep_loop_keeps limit prior _ a
              (rw same (add_holds limit e.revision out (rw same at n)))
        | inr later ↦ keep_loop_covers limit k prior _ a (omega arith) later n
      ])
    ]
  where
    no_room : (j : ℕ) → j ≡ 0 → In a (revisions (take j prior)) → ⊥
    no_room zero z l = l
    no_room (suc j) z l = omega arith

build_covers :
    (new_rev : Bytes) (prior : List RevisionEntry) (history : ℕ) (a : Bytes)
    → In a (revisions (take (max history 1 - 1) prior))
    → a ≢ []
    → In a (build_keep_revisions new_rev prior history)
unfolding build_keep_revisions
build_covers new_rev prior history a m n =
    let (grown, stopped) = add-length (max history 1) new_rev [] in
    elim (Bool-cases (add (max history 1) new_rev []).1) [
      | inl stop ↦ rw stop (absurd (no_room (max history 1 - 1) (omega (arith, stopped stop)) m))
      | inr go ↦
          rw go (keep_loop_covers (max history 1) (max history 1 - 1) prior _ a (omega arith) m n)
    ]
  where
    no_room : (j : ℕ) → j ≡ 0 → In a (revisions (take j prior)) → ⊥
    no_room zero z l = l
    no_room (suc j) z l = omega arith

build_holds_new :
    (new_rev : Bytes) (prior : List RevisionEntry) (history : ℕ)
    → new_rev ≢ []
    → In new_rev (build_keep_revisions new_rev prior history)
unfolding build_keep_revisions
build_holds_new new_rev prior history n =
    let m = add_holds (max history 1) new_rev [] n in
    elim (Bool-cases (add (max history 1) new_rev []).1) [
      | inl stop ↦ rw stop m
      | inr go ↦ rw go (keep_loop_keeps (max history 1) prior _ new_rev m)
    ]

-- A prior revision that is in the set already changes nothing.
keep_loop_known :
    (limit : ℕ) (e : RevisionEntry) (older : List RevisionEntry) (out : List Bytes)
    → In e.revision out
    → keep_loop limit (e ∷ older) out ≡ keep_loop limit older out
unfolding keep_loop
keep_loop_known limit e older out m = elim (add_cases limit e.revision out) [
  | skips _ r ↦ rw r
  | grows _ o _ _ _ ↦ absurd (o m)
]

build_covers_older :
    (e : RevisionEntry) (older : List RevisionEntry) (history : ℕ) (a : Bytes)
    → e.revision ≢ []
    → In a (revisions (take (max history 1 - 1) older))
    → a ≢ []
    → In a (build_keep_revisions e.revision (e ∷ older) history)
unfolding build_keep_revisions
build_covers_older e older history a some_rev m n =
    let limit = max history 1 in
    let (grown, stopped) = add-length limit e.revision [] in
    elim (Bool-cases (add limit e.revision []).1) [
      | inl stop ↦ rw stop (absurd (no_room (limit - 1) (omega (arith, stopped stop)) m))
      | inr go ↦ rw go (
          rw (keep_loop_known limit e older _ (add_holds limit e.revision [] some_rev))
            (keep_loop_covers limit (limit - 1) older _ a (omega arith) m n))
    ]
  where
    no_room : (j : ℕ) → j ≡ 0 → In a (revisions (take j older)) → ⊥
    no_room zero z l = l
    no_room (suc j) z l = omega arith

history_revisions_sound :
    (history : List RevisionEntry) (a : Bytes)
    → In a (history_revisions history)
    → In a (revisions history) × (a ≢ [])
unfolding history_revisions
history_revisions_sound [] a m = absurd m
history_revisions_sound (h ∷ history) a m = elim (Bool-cases (h.revision =? [])) [
  | inl empty ↦ let (l, n) = history_revisions_sound history a (rw empty at m) in (inr l, n)
  | inr some_rev ↦ elim (rw some_rev at m) [
    | inl same ↦ (inl same, λ e. ground (arith, =?_iff h.revision []))
    | inr later ↦ let (l, n) = history_revisions_sound history a later in (inr l, n)
  ]
]

history_covered :
    (prior : List RevisionEntry) (new_rev : Bytes) (history now : ℕ) (a : Bytes)
    → new_rev ≢ []
    → In a (revisions (update_revision_history prior new_rev history now))
    → a ≢ []
    → In a (build_keep_revisions new_rev prior history)
history_covered prior new_rev history now a some_rev m n =
    elim (update_revision_history_lem prior new_rev history now) [
      | inl e ↦ elim (rw e at m) [
        | inl same ↦ rw same (build_holds_new new_rev prior history some_rev)
        | inr later ↦ build_covers new_rev prior history a later n
      ]
      | inr (e, older, p, r, q) ↦
          rw (p, ← r)
            (elim (rw q at m) [
              | inl same ↦
                  rw same (build_holds_new e.revision (e ∷ older) history (rw (← r) at some_rev))
              | inr later ↦ build_covers_older e older history a (rw (← r) at some_rev) later n
            ])
    ]

pub history_revisions-build_keep_revisions :
    (prior : List RevisionEntry) (new_rev : Bytes) (history now : ℕ) (a : Bytes)
    → new_rev ≢ []
    → In a (history_revisions (update_revision_history prior new_rev history now))
    → In a (build_keep_revisions new_rev prior history)
history_revisions-build_keep_revisions prior new_rev history now a some_rev m =
    let (l, n) = history_revisions_sound _ a m in
    history_covered prior new_rev history now a some_rev l n
