-- ===== src/Operator/Cycle/Verdict.antt =====
-- What the walk says of cycles is so: a path that it gives is a cycle, and where it gives none, there
-- is none.
use jaas.Prelude.{
  ℕ, zero, suc, ◌≡◌, refl, sym, subst, true, false, Bool-cases, inl, inr, List, [], ◌∷◌, ◌++◌,
  Option, none, some, Result, ok, err, Result-cases, In-append_right, All, In-All, All-In,
}
use jaas.Operator.Objects.{NamespacedName, JsonnetSnippet, JsonnetLibrary, name_of, Got, got}
use jaas.Operator.Cycle.{
  CycleError, Walk, closes, goes, member_id, parent_of, reconstruct_cycle_path,
  snippet_dependencies, scan, walk, has_cycle_source_edge, detect_source_ref_cycle,
}
use jaas.Operator.Cycle.Graph.{node, IsEdge, IsCycle, node-start}
use jaas.Operator.Cycle.Path.{reconstruct-IsCycle}
use jaas.Operator.Cycle.Visit.{
  scan_goes, scan_closes, IsGood, Visits-IsGood, Scan-cases, member_id-head, member_id-split,
}

All-left : {A : Type 0} (P : A → Type 0) (xs ys : List A) → All P (xs ++ ys) → All P xs
All-left P [] ys h = tt
All-left P (x ∷ xs) ys h = (h.0, All-left P xs ys h.1)

module _ (get_snippet : NamespacedName → Got JsonnetSnippet)
    (get_library : NamespacedName → Got JsonnetLibrary) (snip : JsonnetSnippet)
    (named : (id : NamespacedName) (s : JsonnetSnippet)
      → get_snippet id ≡ got s
      → name_of s ≡ id) where
  abbrev pub at :
      List NamespacedName → List (NamespacedName × NamespacedName) → List JsonnetSnippet → Walk
  at visited parent queue = record { visited = visited; parent = parent; queue = queue }

  edges_of :
      (s : JsonnetSnippet) (deps : List NamespacedName)
      → node get_snippet get_library snip (name_of s) ≡ got s
      → snippet_dependencies get_snippet get_library s ≡ ok deps
      → All (IsEdge get_snippet get_library snip (name_of s)) deps
  edges_of s deps n d =
      In-All (IsEdge get_snippet get_library snip (name_of s)) deps (λ b m. (s, deps, n, d, m))

  popped :
      (visited : List NamespacedName) (parent : List (NamespacedName × NamespacedName))
      (cur : JsonnetSnippet) (queue : List JsonnetSnippet)
      → IsGood get_snippet get_library snip named (at visited parent (cur ∷ queue))
      → IsGood get_snippet get_library snip named (at visited parent queue)
  popped visited parent cur queue g = record {
    rooted = g.rooted;
    known = g.known;
    fresh = g.fresh;
    queued = g.queued.1;
  }

  -- A scan that closes gives the cycle.
  closes-IsCycle :
      (visited : List NamespacedName) (parent p : List (NamespacedName × NamespacedName))
      (cur : JsonnetSnippet) (queue : List JsonnetSnippet) (deps : List NamespacedName)
      → IsGood get_snippet get_library snip named (at visited parent (cur ∷ queue))
      → snippet_dependencies get_snippet get_library cur ≡ ok deps
      → scan get_snippet (name_of snip) (name_of cur) deps (at visited parent queue) ≡ closes p
      → IsCycle get_snippet get_library snip (reconstruct_cycle_path p (name_of cur) (name_of snip))
  closes-IsCycle visited parent p cur queue deps g d c =
      let (before, after, w', split, v, pe) =
        scan_closes get_snippet (name_of snip) (name_of cur) deps _ p c in
      let edges : All (IsEdge get_snippet get_library snip (name_of cur))
          (before ++ name_of snip ∷ after) =
        subst (All (IsEdge get_snippet get_library snip (name_of cur))) split
          (edges_of cur deps g.queued.0.0 d) in
      let (good, known) =
        Visits-IsGood get_snippet get_library snip named v (popped visited parent cur queue g)
          (g.known (name_of cur) g.queued.0.1)
          (All-left (IsEdge get_snippet get_library snip (name_of cur)) before
            (name_of snip ∷ after) edges) in
      let last : IsEdge get_snippet get_library snip (name_of cur) (name_of snip) =
        All-In (IsEdge get_snippet get_library snip (name_of cur)) _ (name_of snip) edges
          (In-append_right (name_of snip) before (name_of snip ∷ after) (inl refl)) in
      subst
        (λ q.
          IsCycle get_snippet get_library snip
            (reconstruct_cycle_path q (name_of cur) (name_of snip)))
        (sym pe)
        (reconstruct-IsCycle get_snippet get_library snip w'.parent (name_of cur) good.rooted known
          last)

  pub goes-IsGood :
      (visited : List NamespacedName) (parent : List (NamespacedName × NamespacedName))
      (cur : JsonnetSnippet) (queue : List JsonnetSnippet) (deps : List NamespacedName) (w : Walk)
      → IsGood get_snippet get_library snip named (at visited parent (cur ∷ queue))
      → snippet_dependencies get_snippet get_library cur ≡ ok deps
      → scan get_snippet (name_of snip) (name_of cur) deps (at visited parent queue) ≡ goes w
      → IsGood get_snippet get_library snip named w
  goes-IsGood visited parent cur queue deps w g d c =
      (Visits-IsGood get_snippet get_library snip named
        (scan_goes get_snippet (name_of snip) (name_of cur) deps _ w c)
        (popped visited parent cur queue g) (g.known (name_of cur) g.queued.0.1)
        (edges_of cur deps g.queued.0.0 d)).0

  walk_sound :
      (fuel : ℕ) (visited : List NamespacedName) (parent : List (NamespacedName × NamespacedName))
      (queue : List JsonnetSnippet) (path : List NamespacedName)
      → IsGood get_snippet get_library snip named (at visited parent queue)
      → walk get_snippet get_library (name_of snip) fuel visited parent queue
        ≡ some (ok (some path))
      → IsCycle get_snippet get_library snip path
  unfolding walk
  walk_sound zero visited parent [] path g h = cc
  walk_sound (suc fuel) visited parent [] path g h = cc
  walk_sound zero visited parent (cur ∷ queue) path g h = cc
  walk_sound (suc fuel) visited parent (cur ∷ queue) path g h =
      elim (Result-cases (snippet_dependencies get_snippet get_library cur)) [
        | inr (x, d) ↦ let bad : some (err x) ≡ some (ok (some path)) = rw (d, walk) at h in cc
        | inl (deps, d) ↦
            elim (Scan-cases
              (scan get_snippet (name_of snip) (name_of cur) deps (at visited parent queue))) [
                | inl (p, c) ↦
                    let hit : some
                          (ok (some (reconstruct_cycle_path p (name_of cur) (name_of snip))))
                        ≡ some (ok (some path)) =
                      rw (d, c, walk) at h in
                    let e : reconstruct_cycle_path p (name_of cur) (name_of snip) ≡ path =
                      given hit in
                    subst (IsCycle get_snippet get_library snip) e
                      (closes-IsCycle visited parent p cur queue deps g d c)
                | inr (inl (x, c)) ↦
                    let bad : some (err x) ≡ some (ok (some path)) = rw (d, c, walk) at h in cc
                | inr (inr (w, c)) ↦
                    walk_sound fuel w.visited w.parent w.queue path
                      (goes-IsGood visited parent cur queue deps w g d c) (rw (d, c, walk) at h)
              ]
      ]
    where
      given :
          {q : List NamespacedName}
          → ◌≡◌ {A = Option (Result CycleError (Option (List NamespacedName)))}
              (some (ok (some q)))
              (some (ok (some path)))
          → q ≡ path
      given k = cc

  pub begins-IsGood :
      IsGood get_snippet get_library snip named (at (name_of snip ∷ []) [] (snip ∷ []))
  unfolding parent_of member_id
  begins-IsGood = record {
    rooted = tt;
    known = λ id h. elim (member_id-split id (name_of snip) [] h) [
      | inl e ↦ inl e
      | inr m ↦ absurd (empty m)
    ];
    fresh = λ id h. refl;
    queued = ((node-start get_snippet get_library snip, member_id-head (name_of snip) []), tt);
  }
    where
      empty : ¬ (false ≡ true)
      empty h = cc

  -- A path that the cycle detector gives is a cycle through the snippet: it begins and ends at the
  -- snippet's name, and each name on it depends on the next, by the sources of the snippet that stands
  -- under it and of that snippet's libraries. The hypothesis is that a Get of a snippet gives an object of
  -- the name that it was asked for.
  pub detect_source_ref_cycle-IsCycle :
      (fuel : ℕ) (path : List NamespacedName)
      → detect_source_ref_cycle get_snippet get_library fuel snip ≡ some (ok (some path))
      → IsCycle get_snippet get_library snip path
  unfolding detect_source_ref_cycle
  detect_source_ref_cycle-IsCycle fuel path h = elim (Bool-cases (has_cycle_source_edge snip)) [
    | inl e ↦
        walk_sound fuel (name_of snip ∷ []) [] (snip ∷ []) path begins-IsGood
          (rw (e, detect_source_ref_cycle) at h)
    | inr e ↦
        let bad : ◌≡◌ {A = Option (Result CycleError (Option (List NamespacedName)))}
            (some (ok none)) (some (ok (some path))) =
          rw (e, detect_source_ref_cycle) at h in
        cc
  ]
