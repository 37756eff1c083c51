-- ===== src/Operator/Webhook/Equality.antt =====
-- A DeepEqual that compares the fields one by one, and maps whatever the order of their entries.
use jaas.Prelude.{
  ◌≡◌, refl, ap, Bool, true, false, ◌&&◌, ◌||◌, inl, inr, Bool-cases, List, [], ◌∷◌, Option, none,
  some, Bytes, ◌=?◌, =?_sound, In,
}
use jaas.Operator.Objects.{SourceRef, LibraryRef, JsonnetVariable}
use jaas.Operator.Webhook.{DeepEqual}
use jaas.Operator.Webhook.Update.{IsDeep, both}

-- A comparison that answers true for equal values only.
abbrev IsSound : {A : Type 0} → (A → A → Bool) → Type 0
IsSound {A} eq = (x y : A) → eq x y ≡ true → x ≡ y

abbrev all_same : {A : Type 0} → (A → A → Bool) → List A → List A → Bool
all_same eq [] [] = true
all_same eq [] (y ∷ ys) = false
all_same eq (x ∷ xs) [] = false
all_same eq (x ∷ xs) (y ∷ ys) = eq x y && all_same eq xs ys

all_same-IsSound : {A : Type 0} (eq : A → A → Bool) → IsSound eq → IsSound (all_same eq)
all_same-IsSound eq s [] [] h = refl
all_same-IsSound eq s [] (y ∷ ys) h = cc
all_same-IsSound eq s (x ∷ xs) [] h = cc
all_same-IsSound eq s (x ∷ xs) (y ∷ ys) h =
    let (a, b) = both (eq x y) (all_same eq xs ys) h in
    rw (s x y a, all_same-IsSound eq s xs ys b) refl

abbrev optional_same : {A : Type 0} → (A → A → Bool) → Option A → Option A → Bool
optional_same eq none none = true
optional_same eq none (some y) = false
optional_same eq (some x) none = false
optional_same eq (some x) (some y) = eq x y

optional_same-IsSound : {A : Type 0} (eq : A → A → Bool) → IsSound eq → IsSound (optional_same eq)
optional_same-IsSound eq s none none h = refl
optional_same-IsSound eq s none (some y) h = cc
optional_same-IsSound eq s (some x) none h = cc
optional_same-IsSound eq s (some x) (some y) h = ap some (s x y h)

abbrev bool_same : Bool → Bool → Bool
bool_same true b = b
bool_same false true = false
bool_same false false = true

bool_same-IsSound : IsSound bool_same
bool_same-IsSound true true h = refl
bool_same-IsSound true false h = cc
bool_same-IsSound false true h = cc
bool_same-IsSound false false h = refl

abbrev variable_same : JsonnetVariable → JsonnetVariable → Bool
variable_same x y = x.name =? y.name && (x.value =? y.value && bool_same x.code y.code)

variable_same-IsSound : IsSound variable_same
variable_same-IsSound x y h =
    let (a, h1) = both (x.name =? y.name) _ h in
    let (b, c) = both (x.value =? y.value) _ h1 in
    built _ _ _ _ _ _ (=?_sound x.name y.name a) (=?_sound x.value y.value b)
      (bool_same-IsSound x.code y.code c)
  where
    built :
        (a b c d : Bytes) (p q : Bool)
        → a ≡ b
        → c ≡ d
        → p ≡ q
        → ◌≡◌ {A = JsonnetVariable}
            (record { name = a; value = c; code = p })
            (record { name = b; value = d; code = q })
    built a b c d p q e f g = rw (e, f, g) refl

-- The texts of a reference, which are all it has.
abbrev library_texts : LibraryRef → List Bytes
library_texts r = r.api_version ∷ r.kind ∷ r.name ∷ r.namespace ∷ r.import_path ∷ []

abbrev source_texts : SourceRef → List Bytes
source_texts r = r.api_version ∷ r.kind ∷ r.name ∷ r.namespace ∷ r.path ∷ []

abbrev texts_same : List Bytes → List Bytes → Bool
texts_same = all_same ◌=?◌

abbrev library_same : LibraryRef → LibraryRef → Bool
library_same x y = texts_same (library_texts x) (library_texts y)

library_same-IsSound : IsSound library_same
library_same-IsSound x y h =
    let e = all_same-IsSound ◌=?◌ =?_sound (library_texts x) (library_texts y) h in told e
  where
    told : library_texts x ≡ library_texts y → x ≡ y
    told e = cc

abbrev source_same : SourceRef → SourceRef → Bool
source_same x y = texts_same (source_texts x) (source_texts y)

source_same-IsSound : IsSound source_same
source_same-IsSound x y h =
    let e = all_same-IsSound ◌=?◌ =?_sound (source_texts x) (source_texts y) h in told e
  where
    told : source_texts x ≡ source_texts y → x ≡ y
    told e = cc

abbrev holds : List (Bytes × Bytes) → Bytes × Bytes → Bool
holds [] g = false
holds (f ∷ fs) g = (f.0 =? g.0 && f.1 =? g.1) || holds fs g

holds-In : (fs : List (Bytes × Bytes)) (g : Bytes × Bytes) → holds fs g ≡ true → In g fs
holds-In [] g h = cc
holds-In (f ∷ fs) g h = elim (Bool-cases (f.0 =? g.0 && f.1 =? g.1)) [
  | inl e ↦
      let (a, b) = both (f.0 =? g.0) (f.1 =? g.1) e in
      let p = =?_sound f.0 g.0 a in let q = =?_sound f.1 g.1 b in inl cc
  | inr e ↦ inr (holds-In fs g (rest _ _ e h))
]
  where
    rest : (a b : Bool) → a ≡ false → (a || b) ≡ true → b ≡ true
    rest true b e k = cc
    rest false b e k = k

abbrev all_hold : List (Bytes × Bytes) → List (Bytes × Bytes) → Bool
all_hold xs [] = true
all_hold xs (y ∷ ys) = holds xs y && all_hold xs ys

all_hold-In :
    (xs ys : List (Bytes × Bytes)) (f : Bytes × Bytes) → all_hold xs ys ≡ true → In f ys → In f xs
all_hold-In xs [] f h m = absurd m
all_hold-In xs (y ∷ ys) f h m =
    let (a, b) = both (holds xs y) (all_hold xs ys) h in
    elim m [ inl e ↦ rw e (holds-In xs y a) | inr n ↦ all_hold-In xs ys f b n ]

abbrev pub deep : DeepEqual
deep = record {
  variables = all_same variable_same;
  libraries = all_same library_same;
  source_refs = optional_same source_same;
  file_maps = λ x y. all_hold x y && all_hold y x;
}

pub deep-IsDeep : IsDeep deep
deep-IsDeep = record {
  variables = all_same-IsSound variable_same variable_same-IsSound;
  libraries = all_same-IsSound library_same library_same-IsSound;
  source_refs = optional_same-IsSound source_same source_same-IsSound;
  file_maps = λ x y h f. all_hold-In x y f (both (all_hold x y) (all_hold y x) h).0;
}
