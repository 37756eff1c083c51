-- ===== src/Operator/Revisions/Examples.antt =====
-- Tests of Revisions, and its theorems at concrete inputs.
use jaas.Prelude.{ℕ, ◌≡◌, ◌≤◌, refl, List, [], ◌∷◌, Bytes, codes, length, max}
use jaas.Operator.Revisions.{RevisionEntry, add, build_keep_revisions, update_revision_history}
use jaas.Operator.Revisions.Bounds.{
  IsKeepSet, build_keep_revisions-IsKeepSet, update_revision_history_bounds,
}

abbrev entry : Bytes → ℕ → RevisionEntry
entry revision time = record { revision = revision; time = time }

abbrev prior : List RevisionEntry
prior = entry (codes "r2") 2 ∷ entry (codes "r1") 1 ∷ entry (codes "r0") 0 ∷ []

keeps_two : build_keep_revisions (codes "r3") prior 2 ≡ codes "r3" ∷ codes "r2" ∷ []
unfolding build_keep_revisions add jaas.Prelude.◌=?◌ jaas.Prelude.member
keeps_two = refl

keeps_revived :
    build_keep_revisions (codes "r1") prior 3 ≡ codes "r1" ∷ codes "r2" ∷ codes "r0" ∷ []
unfolding build_keep_revisions add jaas.Prelude.◌=?◌ jaas.Prelude.member
keeps_revived = refl

same_head :
    update_revision_history prior (codes "r2") 2 9
    ≡ entry (codes "r2") 2 ∷ entry (codes "r1") 1 ∷ []
unfolding update_revision_history jaas.Prelude.◌=?◌
same_head = refl

build_keep_revisions-IsKeepSet_example :
    IsKeepSet (max 2 1) (build_keep_revisions (codes "r3") prior 2)
build_keep_revisions-IsKeepSet_example = build_keep_revisions-IsKeepSet (codes "r3") prior 2

update_revision_history_bounds_example :
    (h : RevisionEntry) × (older : List RevisionEntry) × (update_revision_history prior
        (codes "r3")
        2
        9
      ≡ h ∷ older)
    × (h.revision ≡ codes "r3")
    × (length (h ∷ older) ≤ max 2 1)
update_revision_history_bounds_example = update_revision_history_bounds prior (codes "r3") 2 9
