-- ===== src/Storage/Prune/Examples.antt =====
-- Tests of Prune, and its theorems at concrete inputs.
use jaas.Prelude.{ℕ, ◌≡◌, refl, ◌↔◌, List, [], ◌∷◌, Bytes, codes, Result, ok, err, In}
use jaas.Storage.Key.{separator, valid_no_traversal}
use jaas.Storage.Prune.{
  PruneCandidate, build_prune_keep_set, earliest_newer_mtime, superseded_at, is_victim,
  select_prune_victims,
}
use jaas.Storage.Prune.Selection.{IsVictim, select_prune_victims_iff}

abbrev artifact : Bytes → ℕ → PruneCandidate
artifact name time = record { keep_key = name; remove_key = name; mtime = time }

abbrev three : List PruneCandidate
three = artifact (codes "a") 10 ∷ artifact (codes "b") 20 ∷ artifact (codes "c") 30 ∷ []

-- `a` was superseded at 20, and `b` at 30.
victims_with_grace :
    (select_prune_victims three (codes "c" ∷ []) 35 10 ≡ codes "a" ∷ [])
    × (select_prune_victims three (codes "c" ∷ []) 35 0 ≡ codes "a" ∷ codes "b" ∷ [])
unfolding select_prune_victims is_victim superseded_at earliest_newer_mtime jaas.Prelude.member
    jaas.Prelude.◌=?◌
victims_with_grace = (refl, refl)

keep_set_refused : build_prune_keep_set (codes "ab" ∷ codes "a/b" ∷ []) ≡ err separator
unfolding build_prune_keep_set valid_no_traversal jaas.Prelude.◌=?◌ jaas.Prelude.Text.contains_byte
keep_set_refused = refl

select_prune_victims_iff_example :
    In (codes "a") (select_prune_victims three (codes "c" ∷ []) 35 10)
    ↔ ((c : PruneCandidate) × (codes "a" ≡ c.remove_key) × IsVictim three (codes "c" ∷ []) 35 10 c)
select_prune_victims_iff_example = select_prune_victims_iff three (codes "c" ∷ []) 35 10 (codes "a")
