-- ===== src/Operator/Cycle/Termination.antt =====
-- The loop over the queue ends: each snippet that it queues is one that had not been visited.
use jaas.Prelude.{
  ℕ, zero, suc, ◌+◌, ◌≤◌, ◌<◌, ◌≡◌, refl, subst, true, false, Bool-cases, inl, inr, List, [], ◌∷◌,
  ◌++◌, Option, some, none, Result, ok, err, Result-cases, In, length, length-append, if◌then◌else◌,
  arith,
}
use jaas.Operator.Objects.{NamespacedName, JsonnetSnippet, JsonnetLibrary, name_of, Got, got}
use jaas.Operator.Cycle.{
  CycleError, Walk, member_id, reconstruct_cycle_path, snippet_dependencies, scan, walk,
  has_cycle_source_edge, detect_source_ref_cycle,
}
use jaas.Operator.Cycle.Visit.{
  Visits, stop, seen, misses, finds, scan_goes, Scan-cases, member_id-cons, member_id-head,
}

-- How many of the names have not been visited.
unfoldable left_over : List NamespacedName → List NamespacedName → ℕ
left_over [] visited = 0
left_over (u ∷ us) visited =
    let rest = left_over us visited in if member_id u visited then rest else suc rest

left_over-cons :
    (us visited : List NamespacedName) (dep : NamespacedName)
    → left_over us (dep ∷ visited) ≤ left_over us visited
unfolding left_over
left_over-cons [] visited dep = omega arith
left_over-cons (u ∷ us) visited dep =
    let rest = left_over-cons us visited dep in
    elim (Bool-cases (member_id u visited)) [
      | inl m ↦ rw (m, member_id-cons u dep visited m) rest
      | inr m ↦ elim (Bool-cases (member_id u (dep ∷ visited))) [
        | inl n ↦ rw (m, n) (omega arith)
        | inr n ↦ rw (m, n) (omega arith)
      ]
    ]

left_over-In :
    (us visited : List NamespacedName) (dep : NamespacedName)
    → In dep us
    → member_id dep visited ≡ false
    → left_over us (dep ∷ visited) < left_over us visited
unfolding left_over
left_over-In [] visited dep i m = absurd i
left_over-In (u ∷ us) visited dep (inl e) m =
    let head : member_id u (dep ∷ visited) ≡ true =
      subst (λ c. member_id c (dep ∷ visited) ≡ true) e (member_id-head dep visited) in
    let off : member_id u visited ≡ false = subst (λ c. member_id c visited ≡ false) e m in
    let rest = left_over-cons us visited dep in rw (head, off) (omega arith)
left_over-In (u ∷ us) visited dep (inr i) m =
    let rest = left_over-In us visited dep i m in
    elim (Bool-cases (member_id u visited)) [
      | inl n ↦ rw (n, member_id-cons u dep visited n) rest
      | inr n ↦ elim (Bool-cases (member_id u (dep ∷ visited))) [
        | inl k ↦ rw (n, k) (omega arith)
        | inr k ↦ rw (n, k) (omega arith)
      ]
    ]

left_over-bound : (us visited : List NamespacedName) → left_over us visited ≤ length us
unfolding left_over
left_over-bound [] visited = omega arith
left_over-bound (u ∷ us) visited =
    let rest = left_over-bound us visited in
    elim (Bool-cases (member_id u visited)) [
      | inl m ↦ rw m (omega arith)
      | inr m ↦ rw m (omega arith)
    ]

module _ (get_snippet : NamespacedName → Got JsonnetSnippet)
    (get_library : NamespacedName → Got JsonnetLibrary) (universe : List NamespacedName)
    (covered : (id : NamespacedName) (s : JsonnetSnippet)
      → get_snippet id ≡ got s
      → In id universe) where
  -- The turns that are left at most.
  abbrev turns : Walk → ℕ
  turns w = length w.queue + left_over universe w.visited

  Visits-turns :
      {start cur : NamespacedName} {deps : List NamespacedName} {w w' : Walk}
      → Visits get_snippet start cur deps w w'
      → turns w' ≤ turns w
  Visits-turns stop = omega arith
  Visits-turns (seen a m v) = Visits-turns v
  Visits-turns (misses dep w a m g v) =
      let rest = Visits-turns v in let fewer = left_over-cons universe w.visited dep in omega arith
  Visits-turns (finds dep w next a m g v) =
      let rest = Visits-turns v in
      let fewer = left_over-In universe w.visited dep (covered dep next g) m in
      let longer : length (w.queue ++ next ∷ []) ≡ length w.queue + 1 =
        length-append w.queue (next ∷ []) in
      omega arith

  walk_ends :
      (start : NamespacedName) (fuel : ℕ) (visited : List NamespacedName)
      (parent : List (NamespacedName × NamespacedName)) (queue : List JsonnetSnippet)
      → length queue + left_over universe visited ≤ fuel
      → (r : Result CycleError (Option (List NamespacedName))) × (walk get_snippet get_library start
            fuel visited parent queue
          ≡ some r)
  unfolding walk
  walk_ends start fuel visited parent [] h = (ok none, refl)
  walk_ends start zero visited parent (cur ∷ queue) h = absurd (omega arith)
  walk_ends start (suc fuel) visited parent (cur ∷ queue) h =
      elim (Result-cases (snippet_dependencies get_snippet get_library cur)) [
        | inr (x, d) ↦ (err x, rw (d, walk) refl)
        | inl (deps, d) ↦
            elim (Scan-cases (
              scan get_snippet start (name_of cur) deps
                (record { visited = visited; parent = parent; queue = queue }))) [
                  | inl (p, s) ↦ (
                    ok (some (reconstruct_cycle_path p (name_of cur) start)),
                    rw (d, s, walk) refl,
                  )
                  | inr (inl (x, s)) ↦ (err x, rw (d, s, walk) refl)
                  | inr (inr (w, s)) ↦
                      let fewer =
                        Visits-turns (scan_goes get_snippet start (name_of cur) deps _ w s) in
                      let (r, e) = walk_ends start fuel w.visited w.parent w.queue (omega arith) in
                      (r, rw (d, s, walk) e)
                ]
      ]

  -- The cycle detector ends, with a verdict or with an error, as long as there are finitely many snippets:
  -- when a Get gives an object only for the names of a list, one more turn than the list is long is enough.
  pub detect_source_ref_cycle_ends :
      (fuel : ℕ) (snip : JsonnetSnippet)
      → length universe < fuel
      → (r : Result CycleError (Option (List NamespacedName))) × (detect_source_ref_cycle
            get_snippet get_library fuel snip
          ≡ some r)
  unfolding detect_source_ref_cycle
  detect_source_ref_cycle_ends fuel snip h = elim (Bool-cases (has_cycle_source_edge snip)) [
    | inr e ↦ (ok none, rw (e, detect_source_ref_cycle) refl)
    | inl e ↦
        let bound = left_over-bound universe (name_of snip ∷ []) in
        let (r, w) =
          walk_ends (name_of snip) fuel (name_of snip ∷ []) [] (snip ∷ []) (omega arith) in
        (r, rw (e, detect_source_ref_cycle) w)
  ]
