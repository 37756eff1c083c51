-- ===== src/Eval/Importer/Examples.antt =====
-- A snippet with a folder that is named like a library.
use jaas.Prelude.{
  ℕ, ◌≡◌, ◌⊎◌, inl, inr, refl, Bool, true, false, List, [], ◌∷◌, ◌++◌, Option, Result, ok, err,
  Bytes, codes, ◌=?◌, All, In, map, member,
}
use jaas.Sources.Clean.{clean}
use jaas.Eval.Importer.{
  Paths, InMemoryImporter, Location, Contents, Memory, empty_memory, found_at_of, location_of,
  import_file, import_all,
}
use jaas.Eval.Importer.Injective.{IsNameable, IsHeld, record_all, location_of-record_all}
use jaas.Eval.Importer.Instances.{import_file-one_instance}

-- Every file of the example lies at the top of its root.
abbrev paths : Paths
paths = record { clean = clean; dir = λ p. codes "."; join = λ a b. a ++ b'/' ∷ b }

abbrev im : InMemoryImporter
im = record {
  self = (codes "m", codes "1") ∷ (codes "g/x", codes "2") ∷ [];
  entry_path = codes "m";
  libraries = (codes "g", (codes "main.libsonnet", codes "3") ∷ (codes "x", codes "4") ∷ []) ∷ [];
}

abbrev library_main : Contents
library_main = record { instance_of = 0; body = codes "3" }

first_import :
    (import_file paths im (codes "m") (codes "g") empty_memory).0
    ≡ ok (library_main, codes "g/main.libsonnet")
unfolding clean found_at_of import_file jaas.Eval.Importer.contents_for jaas.Eval.Importer.file_in
    jaas.Eval.Importer.find jaas.Eval.Importer.import_resolved jaas.Eval.Importer.record_location
    jaas.Eval.Importer.relative jaas.Eval.Importer.resolve jaas.Eval.Importer.resolve_absolute
    jaas.Prelude.Text.cut jaas.Prelude.Text.has_prefix jaas.Prelude.Text.split jaas.Prelude.member
    jaas.Sources.Clean.clean_loop jaas.Sources.Clean.join_slash jaas.Sources.Clean.onto
    jaas.Sources.Clean.or_dot jaas.Sources.Clean.take_segment location_of ◌=?◌
first_import = refl

second_import :
    (import_file paths im
      (codes "g/x")
      (codes "g")
      (import_all paths im [] (import_file paths im (codes "m") (codes "g") empty_memory).1)).0
    ≡ ok (library_main, codes "g/main.libsonnet")
unfolding clean found_at_of import_all import_file jaas.Eval.Importer.contents_for
    jaas.Eval.Importer.file_in jaas.Eval.Importer.find jaas.Eval.Importer.import_resolved
    jaas.Eval.Importer.record_location jaas.Eval.Importer.relative jaas.Eval.Importer.resolve
    jaas.Eval.Importer.resolve_absolute jaas.Prelude.Text.cut jaas.Prelude.Text.has_prefix
    jaas.Prelude.Text.split jaas.Prelude.member jaas.Sources.Clean.clean_loop
    jaas.Sources.Clean.join_slash jaas.Sources.Clean.onto jaas.Sources.Clean.or_dot
    jaas.Sources.Clean.take_segment location_of ◌=?◌
second_import = refl

-- From the library, its own file is found, under a name that no file of the snippet has.
shadowed_import :
    (import_file paths im
      (codes "g/main.libsonnet")
      (codes "x")
      (import_file paths im (codes "m") (codes "g") empty_memory).1).0
    ≡ ok (record { instance_of = 1; body = codes "4" }, 0 ∷ codes "g/x")
unfolding clean found_at_of import_file jaas.Eval.Importer.contents_for jaas.Eval.Importer.file_in
    jaas.Eval.Importer.find jaas.Eval.Importer.import_resolved jaas.Eval.Importer.library_files
    jaas.Eval.Importer.record_location jaas.Eval.Importer.relative jaas.Eval.Importer.resolve
    jaas.Eval.Importer.resolve_absolute jaas.Prelude.Text.cut jaas.Prelude.Text.has_prefix
    jaas.Prelude.Text.split jaas.Prelude.member jaas.Sources.Clean.clean_loop
    jaas.Sources.Clean.join_slash jaas.Sources.Clean.onto jaas.Sources.Clean.or_dot
    jaas.Sources.Clean.take_segment location_of ◌=?◌
shadowed_import = refl

import_file-one_instance_example : library_main ≡ library_main
unfolding import_all
import_file-one_instance_example =
    import_file-one_instance paths im [] [] (codes "m") (codes "g") (codes "g/x") (codes "g")
      (codes "g/main.libsonnet") library_main library_main first_import second_import

abbrev in_library : Location
in_library = record { alias = codes "g"; path_within = codes "x" }

abbrev in_self : Location
in_self = record { alias = []; path_within = codes "g/x" }

nameable : All IsNameable (in_self ∷ in_library ∷ [])
unfolding jaas.Operator.Webhook.is_alias_byte jaas.Operator.Webhook.safe_library_alias
    jaas.Prelude.all jaas.Prelude.◌=?◌
nameable = (inl refl, (inr refl, tt))

held : All (IsHeld paths im) (in_self ∷ in_library ∷ [])
held = ((λ e. inr (inl refl)), ((λ e. let bad : codes "g" ≡ [] = e in cc), tt))

no_nul : All (λ n. jaas.Prelude.Text.contains_byte n 0 ≡ false) (codes "m" ∷ codes "g/x" ∷ [])
unfolding jaas.Prelude.Text.contains_byte
no_nul = (refl, (refl, tt))

location_of-record_all_example :
    location_of paths im
      (record_all paths im no_nul (in_self ∷ in_library ∷ []) empty_memory)
      (found_at_of paths im in_library)
    ≡ in_library
location_of-record_all_example =
    location_of-record_all paths im no_nul (in_self ∷ in_library ∷ []) empty_memory in_library
      nameable held (inr (inl refl))

-- Two libraries of which one has an alias that the webhook refuses: their files meet in one name.
aliases_meet :
    found_at_of paths im (record { alias = codes "v"; path_within = codes "l/x" })
    ≡ found_at_of paths im (record { alias = codes "v/l"; path_within = codes "x" })
unfolding found_at_of jaas.Prelude.◌=?◌ jaas.Prelude.member
aliases_meet = refl
