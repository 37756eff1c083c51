-- ===== src/Storage/Store/Retention.antt =====
-- What prune removes and what it keeps.
use jaas.Prelude.{
  ℕ, ◌+◌, ◌<◌, ◌≡◌, refl, sym, ◌∙◌, ap, subst, inl, inr, ◌⊎◌, true, false, not, ◌||◌, Bool-cases,
  List, [], ◌∷◌, Bytes, ◌=?◌, Result, ok, err, arith, Option-cases, Result-cases, In, All, All-In,
}
use jaas.Prelude.Action.{
  final_state, Leaves, by_done, by_failed, Leaves-then_run, Leaves-wrapped, Leaves-final_state,
  final_state-Leaves,
}
use jaas.Prelude.Text.{has_suffix}
use jaas.Storage.FileSystem.{FileSystem, FileSystemLaws, Keeps, Fault, not_exist, other_fault}
use jaas.Storage.Key.{revision_filename, looks_like_our_artifact_filename, tmp_suffix}
use jaas.Storage.Prune.{PruneCandidate, build_prune_keep_set}
use jaas.Storage.Prune.Superseded.{IsSupersededAt, superseded_at_lem}
use jaas.Storage.Prune.Selection.{IsVictim, select_prune_victims_iff}
use jaas.Storage.Prune.KeepSet.{build_prune_keep_set_holds}
use jaas.Storage.Store.{
  join, artifact_path, check_key, prune_candidates, remove_victims, prune_dir, prune,
}

-- Joining a directory to two names gives one path only if the names are one.
join_cancel : (dir a b : Bytes) → join dir a ≡ join dir b → a ≡ b
join_cancel [] a b e = cc
join_cancel (c ∷ dir) a b e = join_cancel dir a b (cc)

module _ (fs : FileSystem) (laws : FileSystemLaws fs) where
  open fs use {Disk, stat, read_dir_names, remove}

  -- A candidate is an artifact of the directory, and is removed at its own path.
  pub record IsCandidate (dir : Bytes) (c : PruneCandidate) : Type 0 where
    pub own_path : c.remove_key ≡ join dir c.keep_key
    pub our_name : looks_like_our_artifact_filename c.keep_key ≡ true
    pub not_tmp : has_suffix c.keep_key tmp_suffix ≡ false

  pub prune_candidates-All :
      (dir : Bytes) (d : Disk) (names : List Bytes)
      → All (IsCandidate dir) (prune_candidates fs dir d names)
  unfolding prune_candidates
  prune_candidates-All dir d [] = tt
  prune_candidates-All dir d (n ∷ names) =
      let rest = prune_candidates-All dir d names in
      elim (Bool-cases (not (looks_like_our_artifact_filename n) || has_suffix n tmp_suffix)) [
        | inl skip ↦ rw skip rest
        | inr take ↦ elim (Result-cases (stat (join dir n) d)) [
          | inr (x, e) ↦ rw (take, e, prune_candidates) rest
          | inl (info, e) ↦
              rw (take, e, prune_candidates)
                (record { own_path = refl; our_name = ground arith; not_tmp = ground arith }, rest)
        ]
      ]

  remove_victims-Leaves :
      (keys : List Bytes) (q : Bytes) (d0 d : Disk)
      → ¬ In q keys
      → Keeps fs q d0 d
      → Leaves (Keeps fs q d0) (remove_victims fs keys d)
  unfolding remove_victims
  remove_victims-Leaves [] q d0 d n h = by_done h
  remove_victims-Leaves (key ∷ keys) q d0 d n h =
      Leaves-then_run
        (Leaves-wrapped _
          (final_state-Leaves _ (remove key d) (laws.remove_frame key q d (λ e. n (inl e)) ∙ h)))
        (λ _ d1 k. remove_victims-Leaves keys q d0 d1 (λ m. n (inr m)) k)

  -- The paths that a pass over a directory may remove.
  abbrev Removes : Bytes → List Bytes → ℕ → ℕ → Disk → List Bytes → Bytes → Type 0
  Removes dir keep_set grace now d names q =
      (c : PruneCandidate) × (q ≡ c.remove_key)
      × IsVictim (prune_candidates fs dir d names) keep_set now grace c

  prune_dir-Leaves :
      (dir q : Bytes) (keep_set : List Bytes) (grace now : ℕ) (d : Disk)
      → ((names : List Bytes)
          → read_dir_names dir d ≡ ok names
          → ¬ Removes dir keep_set grace now d names q)
      → Leaves (Keeps fs q d) (prune_dir fs dir keep_set grace now d)
  unfolding prune_dir
  prune_dir-Leaves dir q keep_set grace now d n = go (read_dir_names dir d) refl
    where
      go :
          (r : Result Fault (List Bytes))
          → read_dir_names dir d ≡ r
          → Leaves (Keeps fs q d) (prune_dir fs dir keep_set grace now d)
      go (err not_exist) e = rw (e, prune_dir) (by_done refl)
      go (err other_fault) e = rw (e, prune_dir) (by_failed refl)
      go (ok names) e =
          rw (e, prune_dir)
            (remove_victims-Leaves _ q d d
              (λ m. n names e (
                (select_prune_victims_iff (prune_candidates fs dir d names) keep_set now grace q).0
                  m))
              refl)

  prune-Leaves :
      (namespace name q : Bytes) (keep_revisions : List Bytes) (grace now : ℕ) (d : Disk)
      → ((keep_set names : List Bytes)
          → build_prune_keep_set keep_revisions ≡ ok keep_set
          → read_dir_names (join namespace name) d ≡ ok names
          → ¬ Removes (join namespace name) keep_set grace now d names q)
      → Leaves (Keeps fs q d) (prune fs namespace name keep_revisions grace now d)
  unfolding prune
  prune-Leaves namespace name q [] grace now d n =
      elim (Bool-cases (namespace =? [] || name =? [])) [
        | inl missing ↦ rw (missing, prune) (by_failed refl)
        | inr given ↦ rw (given, prune) (by_done refl)
      ]
  prune-Leaves namespace name q (r ∷ keep_revisions) grace now d n =
      elim (Option-cases (check_key namespace name)) [
        | inr (x, e) ↦ rw (e, prune) (by_failed refl)
        | inl e ↦ elim (Result-cases (build_prune_keep_set (r ∷ keep_revisions))) [
          | inr (x, f) ↦ rw (e, f, prune) (by_failed refl)
          | inl (keep_set, f) ↦
              rw (e, f, prune)
                (prune_dir-Leaves (join namespace name) q keep_set grace now d
                  (λ names g. n keep_set names f g))
        ]
      ]

  -- A revision to keep is no victim of the pass.
  kept_revision :
      (dir rev : Bytes) (keep_revisions keep_set names : List Bytes) (grace now : ℕ) (d : Disk)
      → In rev keep_revisions
      → build_prune_keep_set keep_revisions ≡ ok keep_set
      → ¬ Removes dir keep_set grace now d names (join dir (revision_filename rev))
  kept_revision dir rev keep_revisions keep_set names grace now d m e (c, path, victim) =
      let own =
        All-In (IsCandidate dir) (prune_candidates fs dir d names) c
          (prune_candidates-All dir d names) victim.candidate in
      let same = join_cancel dir (revision_filename rev) c.keep_key (path ∙ own.own_path) in
      victim.not_kept (
        subst (λ k. In k keep_set) same
          (build_prune_keep_set_holds keep_revisions keep_set rev e m))

  -- Whatever way prune ends, the artifact of every revision to keep is read as before.
  pub prune-Keeps :
      (namespace name rev : Bytes) (keep_revisions : List Bytes) (grace now : ℕ) (d : Disk)
      → In rev keep_revisions
      → Keeps fs
          (artifact_path namespace name rev)
          d
          (final_state (prune fs namespace name keep_revisions grace now d))
  prune-Keeps namespace name rev keep_revisions grace now d m = Leaves-final_state (
      prune-Leaves namespace name _ keep_revisions grace now d
        (λ keep_set names e _. kept_revision _ rev keep_revisions keep_set names grace now d m e))

  -- Nor does prune touch a file of the directory that is no artifact of the store, or that is the
  -- temporary file of a write that is under way.
  pub prune_spares :
      (namespace name n : Bytes) (keep_revisions : List Bytes) (grace now : ℕ) (d : Disk)
      → (looks_like_our_artifact_filename n ≡ false) ⊎ (has_suffix n tmp_suffix ≡ true)
      → Keeps fs
          (join (join namespace name) n)
          d
          (final_state (prune fs namespace name keep_revisions grace now d))
  prune_spares namespace name n keep_revisions grace now d foreign = Leaves-final_state (
      prune-Leaves namespace name _ keep_revisions grace now d
        (λ keep_set names _ _ x. not_ours names x))
    where
      dir : Bytes
      dir = join namespace name

      not_ours :
          {keep_set : List Bytes} (names : List Bytes)
          → ¬ Removes dir keep_set grace now d names (join dir n)
      not_ours names (c, path, victim) =
          let own =
            All-In (IsCandidate dir) (prune_candidates fs dir d names) c
              (prune_candidates-All dir d names) victim.candidate in
          let same = join_cancel dir n c.keep_key (path ∙ own.own_path) in
          elim foreign [
            | inl f ↦ clash (sym f ∙ ap looks_like_our_artifact_filename same ∙ own.our_name)
            | inr t ↦ clash (sym own.not_tmp ∙ ap (λ k. has_suffix k tmp_suffix) (sym same) ∙ t)
          ]
        where
          clash : ¬ (false ≡ true)
          clash h = cc

  -- A file of the directory is read as before whatever way prune ends, if every candidate of its name was
  -- superseded less than a positive grace ago: by the times on the disk, the least time of a candidate that
  -- is newer than it, or its own time if none is, lies less than the grace before now.
  pub prune_grace :
      (namespace name n : Bytes) (keep_revisions : List Bytes) (grace now : ℕ) (d : Disk)
      → ((names : List Bytes) (c : PruneCandidate) (t : ℕ)
          → read_dir_names (join namespace name) d ≡ ok names
          → In c (prune_candidates fs (join namespace name) d names)
          → c.keep_key ≡ n
          → IsSupersededAt (prune_candidates fs (join namespace name) d names) c t
          → (0 < grace) × (now < t + grace))
      → Keeps fs
          (join (join namespace name) n)
          d
          (final_state (prune fs namespace name keep_revisions grace now d))
  prune_grace namespace name n keep_revisions grace now d young =
      Leaves-final_state
        (prune-Leaves namespace name _ keep_revisions grace now d (λ ks ns _ l. safe ks ns l))
    where
      dir : Bytes
      dir = join namespace name

      safe :
          (ks ns : List Bytes)
          → read_dir_names dir d ≡ ok ns
          → ¬ Removes dir ks grace now d ns (join dir n)
      safe ks ns l (c, path, victim) =
          let own =
            All-In (IsCandidate dir) (prune_candidates fs dir d ns) c
              (prune_candidates-All dir d ns) victim.candidate in
          let same = join_cancel dir n c.keep_key (path ∙ own.own_path) in
          let at = superseded_at_lem (prune_candidates fs dir d ns) c in
          let (g, _) = young ns c _ l victim.candidate (sym same) at in
          let (t, at_t, old) = victim.aged g in
          let (_, fresh) = young ns c t l victim.candidate (sym same) at_t in omega arith
