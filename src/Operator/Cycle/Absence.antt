-- ===== src/Operator/Cycle/Absence.antt =====
-- Where the walk ends without a path, what it has visited is closed under the edges, so that no way
-- through them leads back to the snippet.
use jaas.Prelude.{
  ℕ, zero, suc, ◌≡◌, refl, sym, ap, ◌∙◌, subst, true, false, Bool-cases, ◌⊎◌, inl, inr, List, [],
  ◌∷◌, Option, none, some, Result, ok, err, Result-cases, In, In-append_left, In-append_right, All,
  All-In, ◌=?◌,
}
use jaas.Operator.Objects.{
  NamespacedName, is_same, is_same_refl, JsonnetSnippet, JsonnetLibrary, SourceRef, LibraryRef,
  name_of, Got, got, not_found,
}
use jaas.Operator.Cycle.{
  CycleError, Walk, member_id, reconstruct_cycle_path, library_dependencies, with_dep,
  external_artifact_dep, external_artifact, snippet_dependencies, scan, walk, has_cycle_source_edge,
  detect_source_ref_cycle,
}
use jaas.Operator.Cycle.Graph.{node, IsEdge, Reaches, direct, further, node-start, node-other}
use jaas.Operator.Cycle.Visit.{
  Visits, stop, seen, misses, finds, with_missing, with_found, scan_goes, IsGood, Scan-cases,
  member_id-cons, member_id-head, member_id-split,
}
use jaas.Operator.Cycle.Verdict.{at, goes-IsGood, begins-IsGood}

module _ (get_snippet : NamespacedName → Got JsonnetSnippet)
    (get_library : NamespacedName → Got JsonnetLibrary) (snip : JsonnetSnippet)
    (named : (id : NamespacedName) (s : JsonnetSnippet)
      → get_snippet id ≡ got s
      → name_of s ≡ id) where
  -- All that the snippet under the name depends on is visited and is not the start.
  abbrev IsDone : List NamespacedName → NamespacedName → Type 0
  IsDone visited id =
      (b : NamespacedName)
      → IsEdge get_snippet get_library snip id b
      → (member_id b visited ≡ true) × (is_same b (name_of snip) ≡ false)

  abbrev IsWaiting : List JsonnetSnippet → NamespacedName → Type 0
  IsWaiting queue id = (s : JsonnetSnippet) × In s queue × (name_of s ≡ id)

  abbrev IsClosed : Walk → Type 0
  IsClosed w =
      (id : NamespacedName)
      → member_id id w.visited ≡ true
      → IsDone w.visited id ⊎ IsWaiting w.queue id

  -- The same while the dependencies of `cur` are read.
  abbrev IsOpenAt : NamespacedName → Walk → Type 0
  IsOpenAt cur w =
      (id : NamespacedName)
      → member_id id w.visited ≡ true
      → (id ≡ cur) ⊎ (IsDone w.visited id ⊎ IsWaiting w.queue id)

  IsDone-cons :
      (visited : List NamespacedName) (dep id : NamespacedName)
      → IsDone visited id
      → IsDone (dep ∷ visited) id
  IsDone-cons visited dep id d b e = (member_id-cons b dep visited (d b e).0, (d b e).1)

  missing-IsDone :
      (visited : List NamespacedName) (id : NamespacedName)
      → node get_snippet get_library snip id ≡ not_found
      → IsDone visited id
  missing-IsDone visited id n b (s, deps, e, d, m) = let bad : got s ≡ not_found = sym e ∙ n in cc

  missing-IsOpenAt :
      (cur dep : NamespacedName) (w : Walk)
      → is_same dep (name_of snip) ≡ false
      → get_snippet dep ≡ not_found
      → IsOpenAt cur w
      → IsOpenAt cur (with_missing cur dep w)
  missing-IsOpenAt cur dep w a g o id h = elim (member_id-split id dep w.visited h) [
    | inl e ↦ inr (
        inl (
          subst (IsDone (dep ∷ w.visited)) (sym e)
            (missing-IsDone _ dep (node-other get_snippet get_library snip dep a ∙ g))))
    | inr m ↦ elim (o id m) [
      | inl c ↦ inl c
      | inr (inl d) ↦ inr (inl (IsDone-cons w.visited dep id d))
      | inr (inr q) ↦ inr (inr q)
    ]
  ]

  found-IsOpenAt :
      (cur dep : NamespacedName) (w : Walk) (next : JsonnetSnippet)
      → get_snippet dep ≡ got next
      → IsOpenAt cur w
      → IsOpenAt cur (with_found cur dep next w)
  found-IsOpenAt cur dep w next g o id h = elim (member_id-split id dep w.visited h) [
    | inl e ↦
        inr (
          inr (next, In-append_right next w.queue (next ∷ []) (inl refl), named dep next g ∙ sym e))
    | inr m ↦ elim (o id m) [
      | inl c ↦ inl c
      | inr (inl d) ↦ inr (inl (IsDone-cons w.visited dep id d))
      | inr (inr (s, q, e)) ↦ inr (inr (s, In-append_left s w.queue (next ∷ []) q, e))
    ]
  ]

  IsKept : Walk → Walk → Type 0
  IsKept w w' =
      (id : NamespacedName) → member_id id w.visited ≡ true → member_id id w'.visited ≡ true

  -- What a dependency must be for its owner to be done.
  abbrev IsSeen : Walk → NamespacedName → Type 0
  IsSeen w b = (member_id b w.visited ≡ true) × (is_same b (name_of snip) ≡ false)

  Visits-IsKept :
      {cur : NamespacedName} {deps : List NamespacedName} {w w' : Walk}
      → Visits get_snippet (name_of snip) cur deps w w'
      → IsKept w w'
  unfolding IsKept
  Visits-IsKept stop id h = h
  Visits-IsKept (seen a m v) id h = Visits-IsKept v id h
  Visits-IsKept (misses dep w a m g v) id h = Visits-IsKept v id (member_id-cons id dep w.visited h)
  Visits-IsKept (finds dep w next a m g v) id h =
      Visits-IsKept v id (member_id-cons id dep w.visited h)

  Visits-IsSeen :
      {cur : NamespacedName} {deps : List NamespacedName} {w w' : Walk}
      → Visits get_snippet (name_of snip) cur deps w w'
      → All (IsSeen w') deps
  unfolding IsKept
  Visits-IsSeen stop = tt
  Visits-IsSeen (seen {dep = dep} a m v) = ((Visits-IsKept v dep m, a), Visits-IsSeen v)
  Visits-IsSeen (misses dep w a m g v) =
      ((Visits-IsKept v dep (member_id-head dep w.visited), a), Visits-IsSeen v)
  Visits-IsSeen (finds dep w next a m g v) =
      ((Visits-IsKept v dep (member_id-head dep w.visited), a), Visits-IsSeen v)

  Visits-IsOpenAt :
      {cur : NamespacedName} {deps : List NamespacedName} {w w' : Walk}
      → Visits get_snippet (name_of snip) cur deps w w'
      → IsOpenAt cur w
      → IsOpenAt cur w'
  Visits-IsOpenAt stop o = o
  Visits-IsOpenAt (seen a m v) o = Visits-IsOpenAt v o
  Visits-IsOpenAt {cur} (misses dep w a m g v) o =
      Visits-IsOpenAt v (missing-IsOpenAt cur dep w a g o)
  Visits-IsOpenAt {cur} (finds dep w next a m g v) o =
      Visits-IsOpenAt v (found-IsOpenAt cur dep w next g o)

  -- Once its dependencies are read, the snippet itself is done.
  read-IsDone :
      (cur : JsonnetSnippet) (deps : List NamespacedName) (w : Walk)
      → node get_snippet get_library snip (name_of cur) ≡ got cur
      → snippet_dependencies get_snippet get_library cur ≡ ok deps
      → All (IsSeen w) deps
      → IsDone w.visited (name_of cur)
  read-IsDone cur deps w n d all b (s, deps', n', d', m) =
      let same : s ≡ cur = one (sym n' ∙ n) in
      let again : snippet_dependencies get_snippet get_library cur ≡ ok deps' =
        subst (λ c. snippet_dependencies get_snippet get_library c ≡ ok deps') same d' in
      All-In (IsSeen w) deps b all (subst (In b) (two (sym again ∙ d)) m)
    where
      one : got s ≡ got cur → s ≡ cur
      one k = cc

      two : ◌≡◌ {A = Result CycleError (List NamespacedName)} (ok deps') (ok deps) → deps' ≡ deps
      two k = cc

  -- One turn of the loop over the queue.
  turn-IsClosed :
      (visited : List NamespacedName) (parent : List (NamespacedName × NamespacedName))
      (cur : JsonnetSnippet) (queue : List JsonnetSnippet) (deps : List NamespacedName) (w : Walk)
      → IsGood get_snippet get_library snip named
          (at get_snippet get_library snip named visited parent (cur ∷ queue))
      → snippet_dependencies get_snippet get_library cur ≡ ok deps
      → Visits get_snippet
          (name_of snip)
          (name_of cur)
          deps
          (at get_snippet get_library snip named visited parent queue)
          w
      → IsClosed (at get_snippet get_library snip named visited parent (cur ∷ queue))
      → IsClosed w
  turn-IsClosed visited parent cur queue deps w g d v c id h =
      elim (Visits-IsOpenAt v opened id h) [
        | inl e ↦ inl (
            subst (IsDone w.visited) (sym e)
              (read-IsDone cur deps w g.queued.0.0 d (Visits-IsSeen v)))
        | inr o ↦ o
      ]
    where
      opened : IsOpenAt (name_of cur) (at get_snippet get_library snip named visited parent queue)
      opened i m = elim (c i m) [
        | inl done ↦ inr (inl done)
        | inr (s, inl e, k) ↦ inl (sym k ∙ ap name_of e)
        | inr (s, inr q, k) ↦ inr (inr (s, q, k))
      ]

  Reaches-IsSeen :
      (w : Walk)
      → IsClosed w
      → w.queue ≡ []
      → member_id (name_of snip) w.visited ≡ true
      → (b : NamespacedName) → Reaches get_snippet get_library snip b
      → IsSeen w b
  Reaches-IsSeen w c q m b (direct e) = elim (c (name_of snip) m) [
    | inl d ↦ d b e
    | inr (s, k, n) ↦ absurd (subst (In s) q k)
  ]
  Reaches-IsSeen w c q m b (further {a} r e) = elim (c a (Reaches-IsSeen w c q m a r).0) [
    | inl d ↦ d b e
    | inr (s, k, n) ↦ absurd (subst (In s) q k)
  ]

  walk_absent :
      (fuel : ℕ) (visited : List NamespacedName) (parent : List (NamespacedName × NamespacedName))
      (queue : List JsonnetSnippet)
      → IsGood get_snippet get_library snip named
          (at get_snippet get_library snip named visited parent queue)
      → IsClosed (at get_snippet get_library snip named visited parent queue)
      → member_id (name_of snip) visited ≡ true
      → walk get_snippet get_library (name_of snip) fuel visited parent queue ≡ some (ok none)
      → ¬ Reaches get_snippet get_library snip (name_of snip)
  unfolding walk IsKept
  walk_absent fuel visited parent [] g c m h r =
      let away : is_same (name_of snip) (name_of snip) ≡ false =
        (Reaches-IsSeen (at get_snippet get_library snip named visited parent []) c refl m
          (name_of snip) r).1 in
      let here : is_same (name_of snip) (name_of snip) ≡ true = is_same_refl (name_of snip) in cc
  walk_absent zero visited parent (cur ∷ queue) g c m h r = cc
  walk_absent (suc fuel) visited parent (cur ∷ queue) g c m h r =
      elim (Result-cases (snippet_dependencies get_snippet get_library cur)) [
        | inr (x, d) ↦
            let bad : ◌≡◌ {A = Option (Result CycleError (Option (List NamespacedName)))}
                (some (err x)) (some (ok none)) =
              rw (d, walk) at h in
            cc
        | inl (deps, d) ↦
            elim (Scan-cases (
              scan get_snippet (name_of snip) (name_of cur) deps
                (at get_snippet get_library snip named visited parent queue))) [
                  | inl (p, s) ↦
                      let bad : some
                            (ok (some (reconstruct_cycle_path p (name_of cur) (name_of snip))))
                          ≡ some (ok none) =
                        rw (d, s, walk) at h in
                      cc
                  | inr (inl (x, s)) ↦
                      let bad : ◌≡◌ {A = Option (Result CycleError (Option (List NamespacedName)))}
                          (some (err x)) (some (ok none)) =
                        rw (d, s, walk) at h in
                      cc
                  | inr (inr (w, s)) ↦
                      let v : Visits get_snippet (name_of snip) (name_of cur) deps
                          (at get_snippet get_library snip named visited parent queue) w =
                        scan_goes get_snippet (name_of snip) (name_of cur) deps _ w s in
                      walk_absent fuel w.visited w.parent w.queue
                        (goes-IsGood get_snippet get_library snip named visited parent cur queue
                          deps w g d s)
                        (turn-IsClosed visited parent cur queue deps w g d v c)
                        (Visits-IsKept v (name_of snip) m) (rw (d, s, walk) at h) r
                ]
      ]

  no_dependencies :
      has_cycle_source_edge snip ≡ false → snippet_dependencies get_snippet get_library snip ≡ ok []
  unfolding has_cycle_source_edge snippet_dependencies library_dependencies external_artifact_dep
  no_dependencies h = plain snip.libraries snip.source_ref h
    where
      plain :
          (ls : List LibraryRef) (src : Option SourceRef)
          → elim ls [
            | l ∷ ls' ↦ true
            | [] ↦ elim src [ none ↦ false | some ref ↦ ref.kind =? external_artifact ]
          ]
            ≡ false
          → library_dependencies get_snippet get_library ls snip.namespace
              (with_dep (external_artifact_dep src snip.namespace) [])
            ≡ ok []
      plain (l ∷ ls) src k = cc
      plain [] none k = refl
      plain [] (some ref) k = rw k refl

  unlinked :
      has_cycle_source_edge snip ≡ false
      → (b : NamespacedName) → ¬ Reaches get_snippet get_library snip b
  unlinked h b (direct (s, deps, n, d, m)) =
      let same : s ≡ snip = one (sym n ∙ node-start get_snippet get_library snip) in
      let again : snippet_dependencies get_snippet get_library snip ≡ ok deps =
        subst (λ c. snippet_dependencies get_snippet get_library c ≡ ok deps) same d in
      absurd (subst (In b) (two (sym again ∙ no_dependencies h)) m)
    where
      one : got s ≡ got snip → s ≡ snip
      one k = cc

      two : ◌≡◌ {A = Result CycleError (List NamespacedName)} (ok deps) (ok []) → deps ≡ []
      two k = cc
  unlinked h b (further {a} r e) = unlinked h a r

  -- Where the cycle detector ends without an error and gives no path, the snippet does not depend on
  -- itself, neither directly nor through any number of other snippets and their libraries. The hypothesis
  -- is that a Get of a snippet gives an object of the name that it was asked for.
  pub detect_source_ref_cycle-absent :
      (fuel : ℕ)
      → detect_source_ref_cycle get_snippet get_library fuel snip ≡ some (ok none)
      → ¬ Reaches get_snippet get_library snip (name_of snip)
  unfolding detect_source_ref_cycle member_id
  detect_source_ref_cycle-absent fuel h = elim (Bool-cases (has_cycle_source_edge snip)) [
    | inl e ↦
        walk_absent fuel (name_of snip ∷ []) [] (snip ∷ [])
          (begins-IsGood get_snippet get_library snip named) begun
          (member_id-head (name_of snip) []) (rw (e, detect_source_ref_cycle) at h)
    | inr e ↦ unlinked e (name_of snip)
  ]
    where
      none_else : ¬ (false ≡ true)
      none_else k = cc

      begun : IsClosed (at get_snippet get_library snip named (name_of snip ∷ []) [] (snip ∷ []))
      begun id k = elim (member_id-split id (name_of snip) [] k) [
        | inl e ↦ inr (snip, inl refl, sym e)
        | inr m ↦ absurd (none_else m)
      ]
