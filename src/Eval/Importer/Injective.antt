-- ===== src/Eval/Importer/Injective.antt =====
-- The names under which the importer finds files, where the aliases are those that the webhook allows.
use jaas.Prelude.{
  ◌≡◌, ◌≢◌, refl, sym, ap, ◌∙◌, subst, Bool, true, false, Bool-cases, ◌||◌, ◌⊎◌, inl, inr, List, [],
  ◌∷◌, ◌++◌, Option, some, Bytes, codes, ◌=?◌, =?_sound, =?_refl, =?_ne, member, member_complete,
  In, All, All-In, all, map, if◌then◌else◌,
}
use jaas.Prelude.Text.{cut, cut-append, contains_byte, all-contains_byte}
use jaas.Operator.Webhook.{safe_library_alias, is_alias_byte}
use jaas.Eval.Importer.{
  Paths, InMemoryImporter, Location, found_at_of, location_of, record_location, Memory, find,
}

-- An alias that the webhook allows is one segment, and holds no NUL.
safe-segment :
    (a : Bytes)
    → safe_library_alias a ≡ true
    → (contains_byte a b'/' ≡ false) × ((contains_byte a 0 ≡ false) × (a ≢ []))
unfolding safe_library_alias is_alias_byte ◌=?◌
safe-segment a h =
    let bytes : all is_alias_byte a ≡ true =
      kept ((a =? []) || (a =? codes ".") || (a =? codes "..")) (all is_alias_byte a) h in
    (
      all-contains_byte is_alias_byte b'/' a refl bytes,
      (all-contains_byte is_alias_byte 0 a refl bytes, full h),
    )
  where
    kept : (b c : Bool) → (if b then false else c) ≡ true → c ≡ true
    kept true c k = cc
    kept false c k = k

    full : safe_library_alias a ≡ true → a ≢ []
    full k e = let bad : false ≡ true = subst (λ x. safe_library_alias x ≡ true) e k in cc

-- A path and no alias, or a safe alias.
abbrev pub IsNameable : Location → Type 0
IsNameable loc = (loc.alias ≡ []) ⊎ (safe_library_alias loc.alias ≡ true)

module _ (paths : Paths) (im : InMemoryImporter) where
  abbrev pub self_names : List Bytes
  self_names = map (λ f. f.0) im.self

  -- A location of the snippet is one of its files; a library file may have any path.
  abbrev pub IsHeld : Location → Type 0
  IsHeld loc = loc.alias ≡ [] → In loc.path_within self_names

  abbrev joined : Location → Bytes
  joined loc = loc.alias ++ b'/' ∷ loc.path_within

  self_name : (loc : Location) → loc.alias ≡ [] → found_at_of paths im loc ≡ loc.path_within
  unfolding found_at_of
  self_name loc e =
      let at : (loc.alias =? []) ≡ true = subst (λ x. (x =? []) ≡ true) (sym e) (=?_refl []) in
      simp (at, found_at_of) refl

  library_name :
      (loc : Location)
      → safe_library_alias loc.alias ≡ true
      → ((member (joined loc) self_names ≡ true) × (found_at_of paths im loc ≡ 0 ∷ joined loc))
        ⊎ ((member (joined loc) self_names ≡ false) × (found_at_of paths im loc ≡ joined loc))
  unfolding found_at_of
  library_name loc s =
      let off : (loc.alias =? []) ≡ false = =?_ne loc.alias [] (safe-segment loc.alias s).1.1 in
      elim (Bool-cases (member (joined loc) self_names)) [
        | inl e ↦ inl (e, simp (off, e, found_at_of) refl)
        | inr e ↦ inr (e, simp (off, e, found_at_of) refl)
      ]

  joined-injective :
      (a b : Location)
      → safe_library_alias a.alias ≡ true
      → safe_library_alias b.alias ≡ true
      → joined a ≡ joined b
      → a ≡ b
  joined-injective a b s t e =
      let left = cut-append a.alias a.path_within b'/' (safe-segment a.alias s).0 in
      let right = cut-append b.alias b.path_within b'/' (safe-segment b.alias t).0 in
      both (sym left ∙ (ap (λ x. cut x b'/') e ∙ right))
    where
      both :
          ◌≡◌ {A = Option (Bytes × Bytes)}
            (some (a.alias, a.path_within))
            (some (b.alias, b.path_within))
          → a ≡ b
      both k = cc

  -- A safe alias begins with a byte that is not NUL.
  tagged :
      (loc : Location) (s : Bytes) → safe_library_alias loc.alias ≡ true → ¬ (0 ∷ s ≡ joined loc)
  unfolding contains_byte
  tagged loc s h e = begun loc.alias (safe-segment loc.alias h).1.0 (safe-segment loc.alias h).1.1 e
    where
      begun :
          (al : Bytes)
          → contains_byte al 0 ≡ false
          → al ≢ []
          → ¬ (0 ∷ s ≡ al ++ b'/' ∷ loc.path_within)
      begun [] k n g = n refl
      begun (x ∷ al) k n g =
          let zeroed : 0 ≡ x = cc in
          let held : contains_byte (x ∷ al) 0 ≡ true =
            subst (λ y. contains_byte (y ∷ al) 0 ≡ true) zeroed refl in
          let bad : true ≡ false = sym held ∙ k in cc

  location_eq : (a b : Location) → a.alias ≡ b.alias → a.path_within ≡ b.path_within → a ≡ b
  location_eq a b e f = both a.alias b.alias a.path_within b.path_within e f
    where
      both :
          (x y p q : Bytes)
          → x ≡ y
          → p ≡ q
          → ◌≡◌ {A = Location}
              (record { alias = x; path_within = p })
              (record { alias = y; path_within = q })
      both x y p q g h = rw (g, h) refl

  module _ (no_nul : All (λ n. contains_byte n 0 ≡ false) self_names) where
    nul_free : (s : Bytes) → ¬ In (0 ∷ s) self_names
    unfolding contains_byte
    nul_free s m =
        let bad : true ≡ false =
          All-In (λ n. contains_byte n 0 ≡ false) self_names (0 ∷ s) no_nul m in
        cc

    -- A file of the snippet and a file of a library have different names.
    roots_apart :
        (a b : Location)
        → a.alias ≡ []
        → safe_library_alias b.alias ≡ true
        → IsHeld a
        → ¬ (found_at_of paths im a ≡ found_at_of paths im b)
    roots_apart a b e t held same =
        let mine : In (found_at_of paths im b) self_names =
          subst (λ n. In n self_names) (sym (self_name a e) ∙ same) (held e) in
        elim (library_name b t) [
          | inl (shadowed, name) ↦ nul_free (joined b) (subst (λ n. In n self_names) name mine)
          | inr (free, name) ↦
              let hit : member (joined b) self_names ≡ true =
                member_complete (joined b) self_names (subst (λ n. In n self_names) name mine) in
              let bad : true ≡ false = sym hit ∙ free in cc
        ]

    pub found_at_of-injective :
        (a b : Location)
        → IsNameable a
        → IsNameable b
        → IsHeld a
        → IsHeld b
        → found_at_of paths im a ≡ found_at_of paths im b
        → a ≡ b
    found_at_of-injective a b (inl e) (inl f) ha hb same =
        location_eq a b (e ∙ sym f) (sym (self_name a e) ∙ (same ∙ self_name b f))
    found_at_of-injective a b (inl e) (inr t) ha hb same = absurd (roots_apart a b e t ha same)
    found_at_of-injective a b (inr s) (inl f) ha hb same =
        absurd (roots_apart b a f s hb (sym same))
    found_at_of-injective a b (inr s) (inr t) ha hb same = elim (library_name a s) [
      | inl (shadowed, name) ↦ elim (library_name b t) [
        | inl (shadowed', name') ↦ joined-injective a b s t (rest (sym name ∙ (same ∙ name')))
        | inr (free, name') ↦ absurd (tagged b (joined a) t (sym name ∙ (same ∙ name')))
      ]
      | inr (free, name) ↦ elim (library_name b t) [
        | inl (shadowed, name') ↦ absurd (tagged a (joined b) s (sym name' ∙ (sym same ∙ name)))
        | inr (free', name') ↦ joined-injective a b s t (sym name ∙ (same ∙ name'))
      ]
    ]
      where
        rest : ◌≡◌ {A = Bytes} (0 ∷ joined a) (0 ∷ joined b) → joined a ≡ joined b
        rest k = cc

    -- The memory after these locations have been recorded, the last one first.
    unfoldable pub record_all : List Location → Memory → Memory
    record_all [] m = m
    record_all (loc ∷ locs) m = (record_location paths im loc (record_all locs m)).1

    -- The name under which a file was found leads back to that file: once the locations of a list have been
    -- recorded one after the other, locationOf gives each of them for the name that it was found under,
    -- whatever the memory held before. The hypotheses are on every location of the list, also those that
    -- are recorded later: each is a file of the snippet or has an alias that the webhook allows, and no file
    -- of the snippet has a NUL in its name.
    pub location_of-record_all :
        (locs : List Location) (m : Memory) (loc : Location)
        → All IsNameable locs
        → All IsHeld locs
        → In loc locs
        → location_of paths im (record_all locs m) (found_at_of paths im loc) ≡ loc
    unfolding location_of record_all record_location find
    location_of-record_all [] m loc n h i = absurd i
    location_of-record_all (x ∷ locs) m loc n h (inl e) =
        let at : (found_at_of paths im loc =? found_at_of paths im x) ≡ true =
          subst (λ y. (found_at_of paths im loc =? found_at_of paths im y) ≡ true) e
            (=?_refl (found_at_of paths im loc)) in
        rw (at, location_of, find) (sym e)
    location_of-record_all (x ∷ locs) m loc n h (inr i) =
        let rest = location_of-record_all locs m loc n.1 h.1 i in
        elim (Bool-cases (found_at_of paths im loc =? found_at_of paths im x)) [
          | inr e ↦ rw (e, location_of, find) rest
          | inl e ↦
              let same : loc ≡ x =
                found_at_of-injective loc x (All-In IsNameable locs loc n.1 i) n.0
                  (All-In IsHeld locs loc h.1 i) h.0
                  (=?_sound (found_at_of paths im loc) (found_at_of paths im x) e) in
              rw (e, location_of, find) (sym same)
        ]
