-- ===== src/Operator/Objects.antt =====
-- api/v1: the parts of the custom resources that the modelled code reads.
use jaas.Prelude.{
  ℕ, ◌≡◌, refl, ◌⊎◌, inl, inr, Bool, true, ◌&&◌, List, Option, Bytes, ◌=?◌, =?_sound, =?_refl,
  arith,
}
use jaas.Operator.Revisions.{RevisionEntry}

-- types.NamespacedName
pub record NamespacedName : Type 0 where
  pub namespace : Bytes
  pub name : Bytes

-- Equality of two such names.
unfoldable pub is_same : NamespacedName → NamespacedName → Bool
is_same a b = a.namespace =? b.namespace && a.name =? b.name

pub is_same_sound : (a b : NamespacedName) → is_same a b ≡ true → a ≡ b
unfolding is_same
is_same_sound a b h =
    both a.namespace b.namespace a.name b.name (=?_sound a.namespace b.namespace (ground arith))
      (=?_sound a.name b.name (ground arith))
  where
    both :
        (m n x y : Bytes)
        → m ≡ n
        → x ≡ y
        → ◌≡◌ {A = NamespacedName}
            (record { namespace = m; name = x })
            (record { namespace = n; name = y })
    both m n x y e f = rw (e, f) refl

pub is_same_refl : (a : NamespacedName) → is_same a a ≡ true
unfolding is_same
is_same_refl a = rw (=?_refl a.namespace, =?_refl a.name) refl

-- SourceRef
pub record SourceRef : Type 0 where
  pub api_version : Bytes
  pub kind : Bytes
  pub name : Bytes
  pub namespace : Bytes
  pub path : Bytes

-- LibraryRef
pub record LibraryRef : Type 0 where
  pub api_version : Bytes
  pub kind : Bytes
  pub name : Bytes
  pub namespace : Bytes
  pub import_path : Bytes

-- JsonnetVariable
pub record JsonnetVariable : Type 0 where
  pub name : Bytes
  pub value : Bytes
  pub code : Bool

-- JsonnetSnippet, with the fields of its metadata and spec in one record, as far as they are
-- read. A history or an interval of zero or less means none, and a negative one is 0 here.
pub record JsonnetSnippet : Type 0 where
  pub namespace : Bytes
  pub name : Bytes
  pub uid : Bytes
  pub generation : ℕ
  pub deletion_timestamp : ℕ
  pub service_account_name : Bytes
  pub entry_file : Bytes
  pub files : List (Bytes × Bytes)
  pub source_ref : Option SourceRef
  pub libraries : List LibraryRef
  pub tlas : List JsonnetVariable
  pub external_variables : List JsonnetVariable
  pub output : Bytes
  pub suspend : Bool
  pub history : ℕ
  pub interval : ℕ
  pub status_history : List RevisionEntry

-- JsonnetLibrary
pub record JsonnetLibrary : Type 0 where
  pub namespace : Bytes
  pub name : Bytes
  pub source_ref : Option SourceRef

-- The name of a snippet as an object of the cluster.
abbrev pub name_of : JsonnetSnippet → NamespacedName
name_of s = record { namespace = s.namespace; name = s.name }

-- What a Get of the Kubernetes client gives.
pub data Got {ℓ} (A : Type ℓ) : Type ℓ where
  got : A → Got A
  not_found get_failed : Got A

pub Got-cases :
    {A : Type 0} (g : Got A) → ((a : A) × (g ≡ got a)) ⊎ ((g ≡ not_found) ⊎ (g ≡ get_failed))
Got-cases (got a) = inl (a, refl)
Got-cases not_found = inr (inl refl)
Got-cases get_failed = inr (inr refl)
