-- ===== src/Operator/Cycle/Graph.antt =====
-- The dependency graph that the walk reads: its edges, its paths, and its cycles.
use jaas.Prelude.{
  ◌≡◌, ◌≢◌, refl, sym, subst, true, false, Bool-cases, inl, inr, List, [], ◌∷◌, ◌++◌, ok, In,
  if◌then◌else◌,
}
use jaas.Operator.Objects.{
  NamespacedName, is_same, is_same_sound, is_same_refl, JsonnetSnippet, JsonnetLibrary, name_of,
  Got, got,
}
use jaas.Operator.Cycle.{snippet_dependencies, member_id}

pub is_same_ne : (a b : NamespacedName) → a ≢ b → is_same a b ≡ false
is_same_ne a b n = elim (Bool-cases (is_same a b)) [
  | inl e ↦ absurd (n (is_same_sound a b e))
  | inr e ↦ e
]

pub differ : (a b : NamespacedName) → is_same a b ≡ false → a ≢ b
differ a b h e =
    let same : is_same a b ≡ true = subst (λ c. is_same a c ≡ true) e (is_same_refl a) in cc

pub is_same_swap : (a b : NamespacedName) → is_same a b ≡ false → is_same b a ≡ false
is_same_swap a b h = is_same_ne b a (λ e. differ a b h (sym e))

pub member_id_sound :
    (id : NamespacedName) (xs : List NamespacedName) → member_id id xs ≡ true → In id xs
unfolding member_id
member_id_sound id [] h = cc
member_id_sound id (x ∷ xs) h = elim (Bool-cases (is_same id x)) [
  | inl e ↦ inl (is_same_sound id x e)
  | inr e ↦ inr (member_id_sound id xs (rw e at h))
]

pub member_id_complete :
    (id : NamespacedName) (xs : List NamespacedName) → In id xs → member_id id xs ≡ true
unfolding member_id
member_id_complete id [] m = absurd m
member_id_complete id (x ∷ xs) (inl e) =
    let same : is_same id x ≡ true = subst (λ c. is_same id c ≡ true) e (is_same_refl id) in
    rw same refl
member_id_complete id (x ∷ xs) (inr m) = elim (Bool-cases (is_same id x)) [
  | inl e ↦ rw e refl
  | inr e ↦ rw e (member_id_complete id xs m)
]

module _ (get_snippet : NamespacedName → Got JsonnetSnippet)
    (get_library : NamespacedName → Got JsonnetLibrary) (snip : JsonnetSnippet) where
  -- The snippet that stands under a name: the one the walk began with, or what a Get gives.
  unfoldable pub node : NamespacedName → Got JsonnetSnippet
  node id = if is_same id (name_of snip) then got snip else get_snippet id

  -- The snippet under `a` depends on `b`.
  abbrev pub IsEdge : NamespacedName → NamespacedName → Type 0
  IsEdge a b =
      (s : JsonnetSnippet) × (deps : List NamespacedName) × (node a ≡ got s)
      × (snippet_dependencies get_snippet get_library s ≡ ok deps)
      × In b deps

  abbrev pub IsPath : List NamespacedName → Type 0
  IsPath [] = Unit
  IsPath (a ∷ []) = Unit
  IsPath (a ∷ b ∷ path) = IsEdge a b × IsPath (b ∷ path)

  -- A path from the snippet back to itself.
  pub record IsCycle (path : List NamespacedName) : Type 0 where
    pub inner : List NamespacedName
    pub closed : path ≡ name_of snip ∷ inner ++ name_of snip ∷ []
    pub linked : IsPath path

  -- What the snippet depends on, directly or through others.
  pub data Reaches : NamespacedName → Type 0 where
    direct : {b : NamespacedName} → IsEdge (name_of snip) b → Reaches b
    further : {a b : NamespacedName} → Reaches a → IsEdge a b → Reaches b

  pub node-start : node (name_of snip) ≡ got snip
  unfolding node
  node-start = rw (is_same_refl (name_of snip)) refl

  pub node-other :
      (id : NamespacedName) → is_same id (name_of snip) ≡ false → node id ≡ get_snippet id
  unfolding node
  node-other id h = rw h refl
