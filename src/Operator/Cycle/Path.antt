-- ===== src/Operator/Cycle/Path.antt =====
-- A cycle that the walk reports is one: the path it gives is linked by edges and closes.
use jaas.Prelude.{
  ℕ, zero, suc, ◌<◌, ◌≡◌, refl, sym, ap, ◌∙◌, subst, true, false, Bool-cases, ◌⊎◌, inl, inr, List,
  [], ◌∷◌, ◌++◌, none, some, length, arith,
}
use jaas.Operator.Objects.{
  NamespacedName, is_same, is_same_sound, is_same_refl, JsonnetSnippet, JsonnetLibrary, name_of,
  Got,
}
use jaas.Operator.Cycle.{parent_of, climb, backward, reconstruct_cycle_path}
use jaas.Operator.Cycle.Graph.{IsEdge, IsPath, IsCycle}

backward-append :
    (stack rest more : List NamespacedName)
    → backward stack (rest ++ more) ≡ backward stack rest ++ more
unfolding backward
backward-append [] rest more = refl
backward-append (s ∷ stack) rest more = backward-append stack (s ∷ rest) more

module _ (get_snippet : NamespacedName → Got JsonnetSnippet)
    (get_library : NamespacedName → Got JsonnetLibrary) (snip : JsonnetSnippet) where
  -- The name is the start, or has a parent.
  abbrev pub IsKnown : NamespacedName → List (NamespacedName × NamespacedName) → Type 0
  IsKnown id parent = (id ≡ name_of snip) ⊎ ((p : NamespacedName) × (parent_of id parent ≡ some p))

  -- Each entry is an edge from a name that was known before, to a name that was not.
  abbrev pub IsRooted : List (NamespacedName × NamespacedName) → Type 0
  IsRooted [] = Unit
  IsRooted ((v, u) ∷ parent) =
      (parent_of v parent ≡ none)
      × (IsEdge get_snippet get_library snip u v × (IsKnown u parent × IsRooted parent))

  abbrev IsPart :
      List (NamespacedName × NamespacedName) → List (NamespacedName × NamespacedName) → Type 0
  IsPart part whole =
      (k p : NamespacedName) → parent_of k part ≡ some p → parent_of k whole ≡ some p

  IsPart-tail :
      (v u : NamespacedName) (part whole : List (NamespacedName × NamespacedName))
      → parent_of v part ≡ none
      → IsPart ((v, u) ∷ part) whole
      → IsPart part whole
  unfolding parent_of
  IsPart-tail v u part whole fresh sub k p h = elim (Bool-cases (is_same v k)) [
    | inl e ↦
        let clash : parent_of k part ≡ none =
          subst (λ c. parent_of c part ≡ none) (is_same_sound v k e) fresh in
        let bad : none ≡ some p = sym clash ∙ h in cc
    | inr e ↦ sub k p (rw e h)
  ]

  -- The climb from a known name leads to the start along edges.
  climb-IsPath :
      (part whole : List (NamespacedName × NamespacedName)) (fuel : ℕ) (p : NamespacedName)
      (rest : List NamespacedName)
      → IsPart part whole
      → IsRooted part
      → IsKnown p part
      → length part < fuel
      → IsPath get_snippet get_library snip (p ∷ rest)
      → IsPath get_snippet get_library snip
          (name_of snip ∷ backward (climb fuel whole (name_of snip) p) rest)
  unfolding climb parent_of backward
  climb-IsPath part whole zero p rest sub r k f h = absurd (omega arith)
  climb-IsPath [] whole (suc fuel) p rest sub r (inr (q, e)) f h = cc
  climb-IsPath [] whole (suc fuel) p rest sub r (inl e) f h =
      let at : is_same p (name_of snip) ≡ true =
        subst (λ c. is_same c (name_of snip) ≡ true) (sym e) (is_same_refl (name_of snip)) in
      rw (at, climb) (subst (λ c. IsPath get_snippet get_library snip (c ∷ rest)) e h)
  climb-IsPath ((v, u) ∷ part) whole (suc fuel) p rest sub (fresh, (edge, (known, r))) k f h =
      elim (Bool-cases (is_same p (name_of snip))) [
        | inl at ↦
            rw (at, climb)
              (subst (λ c. IsPath get_snippet get_library snip (c ∷ rest))
                (is_same_sound p (name_of snip) at) h)
        | inr off ↦ elim (Bool-cases (is_same v p)) [
          | inl e ↦
              let here : v ≡ p = is_same_sound v p e in
              let up : parent_of p whole ≡ some u = sub p u (rw e refl) in
              rw (off, up, climb)
                (climb-IsPath part whole fuel u (p ∷ rest) (IsPart-tail v u part whole fresh sub) r
                  known (omega arith) (subst (IsEdge get_snippet get_library snip u) here edge, h))
          | inr e ↦
              climb-IsPath part whole (suc fuel) p rest (IsPart-tail v u part whole fresh sub) r
                (elsewhere k e) (omega arith) h
        ]
      ]
    where
      elsewhere : IsKnown p ((v, u) ∷ part) → is_same v p ≡ false → IsKnown p part
      elsewhere (inl s) e = inl s
      elsewhere (inr (q, g)) e = inr (q, rw e at g)

  pub reconstruct-IsCycle :
      (parent : List (NamespacedName × NamespacedName)) (cur : NamespacedName)
      → IsRooted parent
      → IsKnown cur parent
      → IsEdge get_snippet get_library snip cur (name_of snip)
      → IsCycle get_snippet get_library snip (reconstruct_cycle_path parent cur (name_of snip))
  unfolding reconstruct_cycle_path
  reconstruct-IsCycle parent cur r k e = elim (Bool-cases (is_same cur (name_of snip))) [
    | inl at ↦
        let here : cur ≡ name_of snip = is_same_sound cur (name_of snip) at in
        rw (at, reconstruct_cycle_path)
          (record {
            inner = [];
            closed = refl;
            linked = (subst (λ c. IsEdge get_snippet get_library snip c (name_of snip)) here e, tt);
          })
    | inr off ↦
        rw (off, reconstruct_cycle_path)
          (record {
            inner = backward (climb (suc (length parent)) parent (name_of snip) cur) [];
            closed =
                ap (λ s. name_of snip ∷ s)
                  (backward-append (climb (suc (length parent)) parent (name_of snip) cur) []
                    (name_of snip ∷ []));
            linked =
                climb-IsPath parent parent (suc (length parent)) cur (name_of snip ∷ [])
                  (λ x y g. g) r k (omega arith) (e, tt);
          })
  ]
