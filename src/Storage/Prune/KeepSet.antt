-- ===== src/Storage/Prune/KeepSet.antt =====
-- What build_prune_keep_set holds.
use jaas.Prelude.{
  ◌≡◌, refl, sym, ◌∙◌, subst, inl, inr, List, [], ◌∷◌, none, some, Bytes, Result, ok, err, In,
  Option-cases,
}
use jaas.Storage.Key.{PathError, valid_no_traversal, revision_filename}
use jaas.Storage.Prune.{keep_set_loop, build_prune_keep_set}

loop_refused :
    (rev : Bytes) (revs keep_set : List Bytes) (x : PathError)
    → valid_no_traversal (rev ∷ []) ≡ some x
    → keep_set_loop (rev ∷ revs) keep_set ≡ err x
unfolding keep_set_loop
loop_refused rev revs keep_set x e = rw (e, keep_set_loop) refl

loop_added :
    (rev : Bytes) (revs keep_set : List Bytes)
    → valid_no_traversal (rev ∷ []) ≡ none
    → keep_set_loop (rev ∷ revs) keep_set ≡ keep_set_loop revs (revision_filename rev ∷ keep_set)
unfolding keep_set_loop
loop_added rev revs keep_set e = rw (e, keep_set_loop) refl

ok-ne-err :
    {x : PathError} {a : List Bytes} → ¬ (◌≡◌ {A = Result PathError (List Bytes)} (err x) (ok a))
ok-ne-err h = cc

loop_keeps :
    (revs keep_set out : List Bytes) (k : Bytes)
    → keep_set_loop revs keep_set ≡ ok out
    → In k keep_set
    → In k out
unfolding keep_set_loop
loop_keeps [] keep_set out k h m = subst_ok h m
  where
    subst_ok :
        ◌≡◌ {A = Result PathError (List Bytes)} (ok keep_set) (ok out) → In k keep_set → In k out
    subst_ok e n = let s : keep_set ≡ out = cc in subst (In k) s n
loop_keeps (rev ∷ revs) keep_set out k h m = elim (Option-cases (valid_no_traversal (rev ∷ []))) [
  | inr (x, e) ↦ absurd (ok-ne-err (sym (loop_refused rev revs keep_set x e) ∙ h))
  | inl e ↦
      loop_keeps revs (revision_filename rev ∷ keep_set) out k
        (sym (loop_added rev revs keep_set e) ∙ h) (inr m)
]

loop_holds :
    (revs keep_set out : List Bytes) (rev : Bytes)
    → keep_set_loop revs keep_set ≡ ok out
    → In rev revs
    → In (revision_filename rev) out
loop_holds [] keep_set out rev h m = absurd m
loop_holds (r ∷ revs) keep_set out rev h m = elim (Option-cases (valid_no_traversal (r ∷ []))) [
  | inr (x, e) ↦ absurd (ok-ne-err (sym (loop_refused r revs keep_set x e) ∙ h))
  | inl e ↦
      let h' = sym (loop_added r revs keep_set e) ∙ h in
      elim m [
        | inl same ↦ rw same (loop_keeps revs (revision_filename r ∷ keep_set) out _ h' (inl refl))
        | inr later ↦ loop_holds revs (revision_filename r ∷ keep_set) out rev h' later
      ]
]

-- The keep-set holds the file name of every revision to keep.
pub build_prune_keep_set_holds :
    (keep_revisions keep_set : List Bytes) (rev : Bytes)
    → build_prune_keep_set keep_revisions ≡ ok keep_set
    → In rev keep_revisions
    → In (revision_filename rev) keep_set
unfolding build_prune_keep_set
build_prune_keep_set_holds keep_revisions keep_set rev h m =
    loop_holds keep_revisions [] keep_set rev h m
