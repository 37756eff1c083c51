-- ===== src/Storage/Prune.antt =====
-- internal/storage/store.go: which artifacts a Prune pass evicts. The filesystem store and the S3
-- store share this code. A time is a number, in nanoseconds since Go's zero time, which is 0; a
-- Duration of zero or less, as a grace, is 0.
pub mod Superseded
pub mod Selection
pub mod KeepSet
pub mod Examples
use jaas.Prelude.{
  ℕ, ◌-◌, ◌≡◌, Bool, true, false, List, [], ◌∷◌, ◌++◌, Option, none, some, Bytes, ltb, ◌==◌,
  if◌then◌else◌, member, Result, ok, err,
}
use jaas.Storage.Key.{PathError, valid_no_traversal, revision_filename}

-- pruneCandidate
pub record PruneCandidate : Type 0 where
  pub keep_key : Bytes
  pub remove_key : Bytes
  pub mtime : ℕ

-- The keep-set loop: the revisions left, and the set so far.
keep_set_loop : List Bytes → List Bytes → Result PathError (List Bytes)
keep_set_loop [] keep_set = ok keep_set
keep_set_loop (rev ∷ revs) keep_set = elim (valid_no_traversal (rev ∷ [])) [
  | some e ↦ err e
  | none ↦ keep_set_loop revs (revision_filename rev ∷ keep_set)
]

-- buildPruneKeepSet
unfoldable pub build_prune_keep_set : List Bytes → Result PathError (List Bytes)
unfolding keep_set_loop
build_prune_keep_set keep_revisions = keep_set_loop keep_revisions []

-- One round of earliestNewerMtime on a candidate's time: 0 is the zero time, "none so far".
closer : ℕ → ℕ → ℕ → ℕ
closer ref mtime out =
    if ltb ref mtime then if out == 0 then mtime else if ltb mtime out then mtime else out else out

newer_loop : List PruneCandidate → ℕ → ℕ → ℕ
newer_loop [] ref out = out
newer_loop (c ∷ cands) ref out = newer_loop cands ref (closer ref c.mtime out)

-- earliestNewerMtime
unfoldable pub earliest_newer_mtime : List PruneCandidate → ℕ → ℕ
unfolding newer_loop closer
earliest_newer_mtime cands ref = newer_loop cands ref 0

-- The time at which a candidate was superseded, as selectPruneVictims reads it.
unfoldable pub superseded_at : List PruneCandidate → PruneCandidate → ℕ
superseded_at cands c =
    let newer = earliest_newer_mtime cands c.mtime in if newer == 0 then c.mtime else newer

-- The tests of one round of selectPruneVictims. `now - t` is 0 where Sub gives a negative Duration:
-- both are below a positive grace.
unfoldable pub is_victim : List PruneCandidate → List Bytes → ℕ → ℕ → PruneCandidate → Bool
is_victim cands keep_set now grace c =
    if member c.keep_key keep_set
    then false
    else if ltb 0 grace
    then if ltb (now - superseded_at cands c) grace then false else true
    else true

-- The loop over the candidates; the first list is the whole of them.
victims_loop :
    List PruneCandidate → List Bytes → ℕ → ℕ → List PruneCandidate → List Bytes → List Bytes
victims_loop cands keep_set now grace [] victims = victims
victims_loop cands keep_set now grace (c ∷ rest) victims =
    victims_loop cands keep_set now grace rest
      (if is_victim cands keep_set now grace c then victims ++ c.remove_key ∷ [] else victims)

-- selectPruneVictims
unfoldable pub select_prune_victims : List PruneCandidate → List Bytes → ℕ → ℕ → List Bytes
unfolding victims_loop
select_prune_victims cands keep_set now grace = victims_loop cands keep_set now grace cands []
