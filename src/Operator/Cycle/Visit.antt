-- ===== src/Operator/Cycle/Visit.antt =====
-- The loop over the dependencies of one snippet, as a relation, and the invariant that it keeps.
use jaas.Prelude.{
  ◌≡◌, refl, sym, ap, ◌∙◌, subst, true, false, Bool-cases, ◌⊎◌, inl, inr, List, [], ◌∷◌, ◌++◌, none,
  All, All-append,
}
use jaas.Operator.Objects.{
  NamespacedName, is_same, is_same_sound, is_same_refl, JsonnetSnippet, JsonnetLibrary, name_of,
  Got, got, not_found, Got-cases,
}
use jaas.Operator.Cycle.{
  CycleError, Walk, Scan, closes, fails, goes, snippet_get_failed, member_id, parent_of, scan,
}
use jaas.Operator.Cycle.Graph.{is_same_swap, node, IsEdge, node-other}
use jaas.Operator.Cycle.Path.{IsKnown, IsRooted}

-- The walk after a dependency that is no object, and after one that is.
abbrev pub with_missing : NamespacedName → NamespacedName → Walk → Walk
with_missing cur dep w = record {
  visited = dep ∷ w.visited;
  parent = (dep, cur) ∷ w.parent;
  queue = w.queue;
}

abbrev pub with_found : NamespacedName → NamespacedName → JsonnetSnippet → Walk → Walk
with_found cur dep next w = record {
  visited = dep ∷ w.visited;
  parent = (dep, cur) ∷ w.parent;
  queue = w.queue ++ next ∷ [];
}

module _ (get_snippet : NamespacedName → Got JsonnetSnippet) (start cur : NamespacedName) where
  pub data Visits : List NamespacedName → Walk → Walk → Type 0 where
    stop : {w : Walk} → Visits [] w w
    seen :
        {dep : NamespacedName} {deps : List NamespacedName} {w w' : Walk}
        → is_same dep start ≡ false
        → member_id dep w.visited ≡ true
        → Visits deps w w'
        → Visits (dep ∷ deps) w w'
    misses :
        {deps : List NamespacedName} {w' : Walk} (dep : NamespacedName) (w : Walk)
        → is_same dep start ≡ false
        → member_id dep w.visited ≡ false
        → get_snippet dep ≡ not_found
        → Visits deps (with_missing cur dep w) w'
        → Visits (dep ∷ deps) w w'
    finds :
        {deps : List NamespacedName} {w' : Walk} (dep : NamespacedName) (w : Walk)
        (next : JsonnetSnippet)
        → is_same dep start ≡ false
        → member_id dep w.visited ≡ false
        → get_snippet dep ≡ got next
        → Visits deps (with_found cur dep next w) w'
        → Visits (dep ∷ deps) w w'

  pub scan_goes :
      (deps : List NamespacedName) (w w' : Walk)
      → scan get_snippet start cur deps w ≡ goes w'
      → Visits deps w w'
  unfolding scan
  scan_goes [] w w' h = let e : w ≡ w' = cc in subst (Visits [] w) e stop
  scan_goes (dep ∷ deps) w w' h = elim (Bool-cases (is_same dep start)) [
    | inl a ↦ let bad : closes w.parent ≡ goes w' = rw (a, scan) at h in cc
    | inr a ↦ elim (Bool-cases (member_id dep w.visited)) [
      | inl m ↦ seen a m (scan_goes deps w w' (rw (a, m, scan) at h))
      | inr m ↦ elim (Got-cases (get_snippet dep)) [
        | inl (next, g) ↦ finds dep w next a m g (scan_goes deps _ w' (rw (a, m, g, scan) at h))
        | inr (inl g) ↦ misses dep w a m g (scan_goes deps _ w' (rw (a, m, g, scan) at h))
        | inr (inr g) ↦ let bad : fails snippet_get_failed ≡ goes w' = rw (a, m, g, scan) at h in cc
      ]
    ]
  ]

  -- The loop that finds the start among the dependencies: what it did before, and that it is there.
  abbrev pub Closes : List NamespacedName → Walk → List (NamespacedName × NamespacedName) → Type 0
  Closes deps w parent =
      (before : List NamespacedName) × (after : List NamespacedName) × (w' : Walk) × (deps
        ≡ before ++ start ∷ after)
      × Visits before w w'
      × (parent ≡ w'.parent)

  pub scan_closes :
      (deps : List NamespacedName) (w : Walk) (parent : List (NamespacedName × NamespacedName))
      → scan get_snippet start cur deps w ≡ closes parent
      → Closes deps w parent
  unfolding scan
  scan_closes [] w parent h = cc
  scan_closes (dep ∷ deps) w parent h = elim (Bool-cases (is_same dep start)) [
    | inl a ↦
        let e : w.parent ≡ parent = found (rw (a, scan) at h) in
        ([], deps, w, ap (λ d. d ∷ deps) (is_same_sound dep start a), stop, sym e)
    | inr a ↦ elim (Bool-cases (member_id dep w.visited)) [
      | inl m ↦
          let (before, after, w', e, v, p) = scan_closes deps w parent (rw (a, m, scan) at h) in
          (dep ∷ before, after, w', ap (λ d. dep ∷ d) e, seen a m v, p)
      | inr m ↦ elim (Got-cases (get_snippet dep)) [
        | inl (next, g) ↦
            let (before, after, w', e, v, p) =
              scan_closes deps _ parent (rw (a, m, g, scan) at h) in
            (dep ∷ before, after, w', ap (λ d. dep ∷ d) e, finds dep w next a m g v, p)
        | inr (inl g) ↦
            let (before, after, w', e, v, p) =
              scan_closes deps _ parent (rw (a, m, g, scan) at h) in
            (dep ∷ before, after, w', ap (λ d. dep ∷ d) e, misses dep w a m g v, p)
        | inr (inr g) ↦
            let bad : fails snippet_get_failed ≡ closes parent = rw (a, m, g, scan) at h in cc
      ]
    ]
  ]
    where
      found : {p : List (NamespacedName × NamespacedName)} → closes p ≡ closes parent → p ≡ parent
      found k = cc

pub member_id-cons :
    (id dep : NamespacedName) (xs : List NamespacedName)
    → member_id id xs ≡ true
    → member_id id (dep ∷ xs) ≡ true
unfolding member_id
member_id-cons id dep xs h = elim (Bool-cases (is_same id dep)) [
  | inl e ↦ rw e refl
  | inr e ↦ rw (e, h) refl
]

pub member_id-head :
    (id : NamespacedName) (xs : List NamespacedName) → member_id id (id ∷ xs) ≡ true
unfolding member_id
member_id-head id xs = rw (is_same_refl id) refl

-- Membership in a longer list: the head, or the rest.
pub member_id-split :
    (id dep : NamespacedName) (xs : List NamespacedName)
    → member_id id (dep ∷ xs) ≡ true
    → (id ≡ dep) ⊎ (member_id id xs ≡ true)
unfolding member_id
member_id-split id dep xs h = elim (Bool-cases (is_same id dep)) [
  | inl e ↦ inl (is_same_sound id dep e)
  | inr e ↦ inr (rw e at h)
]

pub member_id-miss :
    (id dep : NamespacedName) (xs : List NamespacedName)
    → member_id id (dep ∷ xs) ≡ false
    → (is_same id dep ≡ false) × (member_id id xs ≡ false)
unfolding member_id
member_id-miss id dep xs h = elim (Bool-cases (is_same id dep)) [
  | inl e ↦ let bad : true ≡ false = rw e at h in cc
  | inr e ↦ (e, rw e at h)
]

module _ (get_snippet : NamespacedName → Got JsonnetSnippet)
    (get_library : NamespacedName → Got JsonnetLibrary) (snip : JsonnetSnippet)
    (named : (id : NamespacedName) (s : JsonnetSnippet)
      → get_snippet id ≡ got s
      → name_of s ≡ id) where
  -- A queued snippet stands under its name, which has been visited.
  abbrev pub IsQueued : List NamespacedName → JsonnetSnippet → Type 0
  IsQueued visited s =
      (node get_snippet get_library snip (name_of s) ≡ got s)
      × (member_id (name_of s) visited ≡ true)

  pub record IsGood (w : Walk) : Type 0 where
    pub rooted : IsRooted get_snippet get_library snip w.parent
    pub known :
        (id : NamespacedName)
        → member_id id w.visited ≡ true
        → IsKnown get_snippet get_library snip id w.parent
    pub fresh :
        (id : NamespacedName) → member_id id w.visited ≡ false → parent_of id w.parent ≡ none
    pub queued : All (IsQueued w.visited) w.queue

  IsQueued-wider :
      (visited : List NamespacedName) (dep : NamespacedName) (queue : List JsonnetSnippet)
      → All (IsQueued visited) queue
      → All (IsQueued (dep ∷ visited)) queue
  IsQueued-wider visited dep [] h = tt
  IsQueued-wider visited dep (s ∷ queue) h =
      ((h.0.0, member_id-cons (name_of s) dep visited h.0.1), IsQueued-wider visited dep queue h.1)

  IsKnown-cons :
      (id dep cur : NamespacedName) (parent : List (NamespacedName × NamespacedName))
      → IsKnown get_snippet get_library snip id parent
      → IsKnown get_snippet get_library snip id ((dep, cur) ∷ parent)
  unfolding parent_of
  IsKnown-cons id dep cur parent (inl e) = inl e
  IsKnown-cons id dep cur parent (inr (p, e)) = elim (Bool-cases (is_same dep id)) [
    | inl g ↦ inr (cur, rw g refl)
    | inr g ↦ inr (p, rw g e)
  ]

  -- One dependency that had not been visited, with the queue that it leaves.
  visit-IsGood :
      (cur dep : NamespacedName) (w : Walk) (queue : List JsonnetSnippet)
      → IsGood w
      → IsKnown get_snippet get_library snip cur w.parent
      → IsEdge get_snippet get_library snip cur dep
      → member_id dep w.visited ≡ false
      → All (IsQueued (dep ∷ w.visited)) queue
      → IsGood (record { visited = dep ∷ w.visited; parent = (dep, cur) ∷ w.parent; queue = queue })
  unfolding parent_of
  visit-IsGood cur dep w queue good k e m q = record {
    rooted = (good.fresh dep m, (e, (k, good.rooted)));
    known = λ id h. elim (member_id-split id dep w.visited h) [
      | inl same ↦ inr (
        cur,
        let here : is_same dep id ≡ true =
              subst (λ c. is_same dep c ≡ true) (sym same) (is_same_refl dep) in
            rw here refl,
      )
      | inr old ↦ IsKnown-cons id dep cur w.parent (good.known id old)
    ];
    fresh = unseen;
    queued = q;
  }
    where
      unseen :
          (id : NamespacedName)
          → member_id id (dep ∷ w.visited) ≡ false
          → parent_of id ((dep, cur) ∷ w.parent) ≡ none
      unseen id h =
          let (a, old) = member_id-miss id dep w.visited h in
          let away : is_same dep id ≡ false = is_same_swap id dep a in rw away (good.fresh id old)

  pub Visits-IsGood :
      {cur : NamespacedName} {deps : List NamespacedName} {w w' : Walk}
      → Visits get_snippet (name_of snip) cur deps w w'
      → IsGood w
      → IsKnown get_snippet get_library snip cur w.parent
      → All (IsEdge get_snippet get_library snip cur) deps
      → IsGood w' × IsKnown get_snippet get_library snip cur w'.parent
  Visits-IsGood stop good k e = (good, k)
  Visits-IsGood (seen a m v) good k e = Visits-IsGood v good k e.1
  Visits-IsGood {cur} (misses dep w a m g v) good k e =
      Visits-IsGood v
        (visit-IsGood cur dep w w.queue good k e.0 m
          (IsQueued-wider w.visited dep w.queue good.queued))
        (IsKnown-cons cur dep cur w.parent k) e.1
  Visits-IsGood {cur} (finds dep w next a m g v) good k e =
      let at : name_of next ≡ dep = named dep next g in
      let stands : node get_snippet get_library snip (name_of next) ≡ got next =
        subst (λ c. node get_snippet get_library snip c ≡ got next) (sym at)
          (node-other get_snippet get_library snip dep a ∙ g) in
      let here : member_id (name_of next) (dep ∷ w.visited) ≡ true =
        subst (λ c. member_id c (dep ∷ w.visited) ≡ true) (sym at) (member_id-head dep w.visited) in
      Visits-IsGood v
        (visit-IsGood cur dep w _ good k e.0 m (
          All-append (IsQueued (dep ∷ w.visited)) w.queue (next ∷ [])
            (IsQueued-wider w.visited dep w.queue good.queued) ((stands, here), tt)))
        (IsKnown-cons cur dep cur w.parent k) e.1

pub Scan-cases :
    (s : Scan)
    → ((p : List (NamespacedName × NamespacedName)) × (s ≡ closes p))
      ⊎ (((x : CycleError) × (s ≡ fails x)) ⊎ ((w : Walk) × (s ≡ goes w)))
Scan-cases (closes p) = inl (p, refl)
Scan-cases (fails x) = inr (inl (x, refl))
Scan-cases (goes w) = inr (inr (w, refl))
