-- ===== src/Operator/Revisions/Bounds.antt =====
-- How long the keep-set and the history get, and what they hold.
use jaas.Prelude.{
  ℕ, zero, suc, ◌+◌, ◌-◌, ◌≤◌, ◌<◌, ◌≡◌, ◌≢◌, ◌⊎◌, inl, inr, refl, sym, ◌∙◌, ap, Bool, true, false,
  List, [], ◌∷◌, ◌++◌, Bytes, leb, ltb, ◌=?◌, =?_iff, member, member_complete, member_sound, length,
  length-append, length-take, take, max, arith, In, In-append, Bool-cases, append-nil, append_assoc,
}
use jaas.Operator.Revisions.{
  RevisionEntry, add, keep_loop, build_keep_revisions, append_until, prepend,
  update_revision_history,
}

-- No revision twice, and none empty.
abbrev pub IsDistinct : List Bytes → Type 0
IsDistinct [] = Unit
IsDistinct (x ∷ xs) = (x ≢ []) × (¬ In x xs) × IsDistinct xs

IsDistinct-append :
    (xs : List Bytes) (x : Bytes) → x ≢ [] → ¬ In x xs → IsDistinct xs → IsDistinct (xs ++ x ∷ [])
IsDistinct-append [] x n o d = (n, (λ a. a), tt)
IsDistinct-append (y ∷ xs) x n o d = (
  d.0,
  (λ m. elim (In-append y xs (x ∷ []) m) [
    | inl old ↦ d.1 old
    | inr (inl e) ↦ o (inl (sym e))
    | inr (inr a) ↦ a
  ]),
  IsDistinct-append xs x n (λ m. o (inr m)) d.2,
)

-- What `add` does: nothing to an empty or known revision, else an append below the limit.
pub data Adds (limit : ℕ) (rev : Bytes) (out : List Bytes) (r : List Bytes × Bool) : Type 0 where
  skips : (rev ≡ []) ⊎ In rev out → r ≡ (out, false) → Adds limit rev out r
  grows :
      rev ≢ []
      → ¬ In rev out
      → r.0 ≡ out ++ rev ∷ []
      → (r.1 ≡ true → limit ≤ length out + 1)
      → (r.1 ≡ false → length out + 1 < limit)
      → Adds limit rev out r

pub add_cases :
    (limit : ℕ) (rev : Bytes) (out : List Bytes) → Adds limit rev out (add limit rev out)
unfolding add
add_cases limit rev out = elim (Bool-cases (rev =? [])) [
  | inl empty ↦ skips (inl ((=?_iff rev []).0 empty)) (ground arith)
  | inr some_rev ↦ elim (Bool-cases (member rev out)) [
    | inl dup ↦ skips (inr (member_sound rev out dup)) (ground arith)
    | inr fresh ↦
        grows (λ e. ground (arith, =?_iff rev [])) (λ m. ground (arith, member_complete rev out m))
          (ground arith) (λ h. ground (arith, length-append out (rev ∷ [])))
          (λ h. ground (arith, length-append out (rev ∷ [])))
  ]
]

-- What a round of the loop leaves: distinct revisions, no more than the limit.
pub record IsKeepSet (limit : ℕ) (out : List Bytes) : Type 0 where
  pub distinct : IsDistinct out
  pub bounded : length out ≤ limit

add-IsKeepSet :
    (limit : ℕ) (rev : Bytes) (out : List Bytes)
    → length out < limit
    → IsDistinct out
    → IsKeepSet limit (add limit rev out).0
      × ((add limit rev out).1 ≡ false → length (add limit rev out).0 < limit)
add-IsKeepSet limit rev out room d = elim (add_cases limit rev out) [
  | skips _ e ↦ rw e (record { distinct = d; bounded = omega arith }, λ _. room)
  | grows n o e stop go ↦ rw e (
    record {
      distinct = IsDistinct-append out rev n o d;
      bounded = omega (arith, length-append out (rev ∷ []));
    },
    λ f. omega (arith, length-append out (rev ∷ []), go f),
  )
]

keep_loop-IsKeepSet :
    (limit : ℕ) (prior : List RevisionEntry) (out : List Bytes)
    → length out < limit
    → IsDistinct out
    → IsKeepSet limit (keep_loop limit prior out)
unfolding keep_loop
keep_loop-IsKeepSet limit [] out room d = record { distinct = d; bounded = omega arith }
keep_loop-IsKeepSet limit (e ∷ prior) out room d =
    let (kept, more) = add-IsKeepSet limit e.revision out room d in
    elim (Bool-cases (add limit e.revision out).1) [
      | inl stop ↦ rw stop kept
      | inr go ↦ rw go (keep_loop-IsKeepSet limit prior _ (more go) kept.distinct)
    ]

-- The keep-set holds no revision twice and none that is empty, and no more than the history limit,
-- of which one is always granted.
pub build_keep_revisions-IsKeepSet :
    (new_rev : Bytes) (prior : List RevisionEntry) (history : ℕ)
    → IsKeepSet (max history 1) (build_keep_revisions new_rev prior history)
unfolding build_keep_revisions
build_keep_revisions-IsKeepSet new_rev prior history =
    let (kept, more) = add-IsKeepSet (max history 1) new_rev [] (omega arith) tt in
    elim (Bool-cases (add (max history 1) new_rev []).1) [
      | inl stop ↦ rw stop kept
      | inr go ↦ rw go (keep_loop-IsKeepSet (max history 1) prior _ (more go) kept.distinct)
    ]

take-full : (k : ℕ) (xs : List RevisionEntry) → k ≡ 0 → take k xs ≡ []
take-full zero xs e = refl
take-full (suc k) xs e = absurd (omega arith)

take-nil : (k : ℕ) → take {A = RevisionEntry} k [] ≡ []
take-nil zero = refl
take-nil (suc k) = refl

take-room :
    (k j : ℕ) (x : RevisionEntry) (xs : List RevisionEntry)
    → k ≡ suc j
    → take k (x ∷ xs) ≡ x ∷ take j xs
take-room k j x xs e = rw e refl

-- The loop appends the first of the prior entries, as many as there is room for.
pub append_until_lem :
    (limit : ℕ) (prior out : List RevisionEntry)
    → append_until limit prior out ≡ out ++ take (limit - length out) prior
unfolding append_until
append_until_lem limit [] out = rw (take-nil (limit - length out)) (sym (append-nil out))
append_until_lem limit (e ∷ prior) out = elim (Bool-cases (leb limit (length out))) [
  | inl full ↦
      rw full
        (rw (take-full (limit - length out) (e ∷ prior) (ground arith)) (sym (append-nil out)))
  | inr room ↦
      let k = limit - length (out ++ e ∷ []) in
      let grown : limit - length out ≡ suc k = ground (arith, length-append out (e ∷ [])) in
      rw room (
        append_until_lem limit prior (out ++ e ∷ [])
        ∙ append_assoc out (e ∷ []) (take k prior)
        ∙ ap (λ t. out ++ t) (sym (take-room (limit - length out) k e prior grown)))
]

-- The history is the new revision before as many of the prior entries as there is room for; where
-- the newest entry has that revision already, it keeps its time.
abbrev pub HistoryOf : List RevisionEntry → Bytes → ℕ → ℕ → List RevisionEntry → Type 0
HistoryOf prior revision limit now out =
    (out ≡ record { revision = revision; time = now } ∷ take (limit - 1) prior)
    ⊎ ((e : RevisionEntry) × (older : List RevisionEntry) × (prior ≡ e ∷ older)
        × (e.revision ≡ revision)
        × (out ≡ e ∷ take (limit - 1) older))

take-all : (k : ℕ) (xs : List RevisionEntry) → length xs ≤ k → take k xs ≡ xs
take-all zero [] h = refl
take-all zero (x ∷ xs) h = absurd (omega arith)
take-all (suc k) [] h = refl
take-all (suc k) (x ∷ xs) h = ap (λ t. x ∷ t) (take-all k xs (omega arith))

prepend_lem :
    (limit : ℕ) (prior : List RevisionEntry) (revision : Bytes) (now : ℕ)
    → prepend limit prior revision now
      ≡ record { revision = revision; time = now } ∷ take (limit - 1) prior
unfolding prepend
prepend_lem limit prior revision now = append_until_lem limit prior _

pub update_revision_history_lem :
    (prior : List RevisionEntry) (revision : Bytes) (history_max now : ℕ)
    → HistoryOf prior revision
        (max history_max 1)
        now
        (update_revision_history prior revision history_max now)
unfolding update_revision_history
update_revision_history_lem [] revision history_max now =
    inl (prepend_lem (max history_max 1) [] revision now)
update_revision_history_lem (e ∷ prior) revision history_max now =
    let limit = max history_max 1 in
    elim (Bool-cases (e.revision =? revision)) [
      | inr other ↦ rw other (inl (prepend_lem limit (e ∷ prior) revision now))
      | inl same ↦
          let room : limit ≡ suc (limit - 1) = omega arith in
          inr (
            e,
            prior,
            refl,
            (=?_iff e.revision revision).0 same,
            elim (Bool-cases (ltb limit (length (e ∷ prior)))) [
              | inl shrunk ↦ rw (same, shrunk) (take-room limit (limit - 1) e prior room)
              | inr fits ↦
                  rw (same, fits)
                    (ap (λ t. e ∷ t) (sym (take-all (limit - 1) prior (ground arith))))
            ],
          )
    ]

-- The history names the new revision first and stays within its limit.
pub update_revision_history_bounds :
    (prior : List RevisionEntry) (revision : Bytes) (history_max now : ℕ)
    → (h : RevisionEntry) × (older : List RevisionEntry) × (update_revision_history prior revision
          history_max now
        ≡ h ∷ older)
      × (h.revision ≡ revision)
      × (length (h ∷ older) ≤ max history_max 1)
update_revision_history_bounds prior revision history_max now =
    elim (update_revision_history_lem prior revision history_max now) [
      | inl e ↦ (
        record { revision = revision; time = now },
        take (max history_max 1 - 1) prior,
        e,
        refl,
        omega (arith, length-take (max history_max 1 - 1) prior),
      )
      | inr (h, older, _, r, e) ↦ (
        h,
        take (max history_max 1 - 1) older,
        e,
        r,
        omega (arith, length-take (max history_max 1 - 1) older),
      )
    ]
