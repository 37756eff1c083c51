-- ===== src/Operator/Revisions.antt =====
-- internal/operator/reconciler.go: the revisions that a publish keeps in the store, and the history
-- in the status. A history limit is an int32; one of zero or less counts as 1 in both functions, so
-- a negative limit is 0 here.
pub mod Bounds
pub mod Coverage
pub mod Examples
use jaas.Prelude.{
  ℕ, Bool, true, false, ◌||◌, List, [], ◌∷◌, ◌++◌, Bytes, leb, ltb, ◌=?◌, if◌then◌else◌, member,
  length, take, map, max,
}

-- RevisionEntry of api/v1
pub record RevisionEntry : Type 0 where
  pub revision : Bytes
  pub time : ℕ

abbrev pub revisions : List RevisionEntry → List Bytes
revisions = map (λ e. e.revision)

-- The closure `add`: `seen` holds the entries of `out`. The flag says that the limit is reached.
unfoldable pub add : ℕ → Bytes → List Bytes → List Bytes × Bool
add limit rev out =
    if rev =? [] || member rev out
    then (out, false)
    else (out ++ rev ∷ [], leb limit (length (out ++ rev ∷ [])))

-- The loop over the prior history; it ends at the limit.
pub keep_loop : ℕ → List RevisionEntry → List Bytes → List Bytes
keep_loop limit [] out = out
keep_loop limit (e ∷ prior) out =
    let rest = keep_loop limit prior (add limit e.revision out).0 in
    if (add limit e.revision out).1 then (add limit e.revision out).0 else rest

-- buildKeepRevisions
unfoldable pub build_keep_revisions : Bytes → List RevisionEntry → ℕ → List Bytes
unfolding keep_loop
build_keep_revisions new_rev prior history =
    let limit = max history 1 in
    let first = add limit new_rev [] in if first.1 then first.0 else keep_loop limit prior first.0

-- The loop of updateRevisionHistory over the prior entries.
pub append_until : ℕ → List RevisionEntry → List RevisionEntry → List RevisionEntry
append_until limit [] out = out
append_until limit (e ∷ prior) out =
    let rest = append_until limit prior (out ++ e ∷ []) in
    if leb limit (length out) then out else rest

pub prepend : ℕ → List RevisionEntry → Bytes → ℕ → List RevisionEntry
unfolding append_until
prepend limit prior revision now =
    append_until limit prior (record { revision = revision; time = now } ∷ [])

-- updateRevisionHistory
unfoldable pub update_revision_history : List RevisionEntry → Bytes → ℕ → ℕ → List RevisionEntry
unfolding prepend
update_revision_history [] revision history_max now = prepend (max history_max 1) [] revision now
update_revision_history (e ∷ prior) revision history_max now =
    let limit = max history_max 1 in
    if e.revision =? revision
    then if ltb limit (length (e ∷ prior)) then take limit (e ∷ prior) else e ∷ prior
    else prepend limit (e ∷ prior) revision now

-- historyRevisions
unfoldable pub history_revisions : List RevisionEntry → List Bytes
history_revisions [] = []
history_revisions (h ∷ history) =
    if h.revision =? [] then history_revisions history else h.revision ∷ history_revisions history
