-- ===== src/Sources/Extract/Examples.antt =====
-- Tests of Extract, and its theorems at concrete inputs.
use jaas.Prelude.{
  ◌≡◌, ◌↔◌, ◌≤◌, refl, pos, ℤ, true, false, inl, inr, [], ◌∷◌, Bytes, codes, none, some, ok, err,
  In, arith,
}
use jaas.Sources.Entry.{normalise_entry}
use jaas.Sources.Extract.{
  TarEntry, TarStream, at_eof, entry, Files, kept_name, keep_entry, check_header, check_body,
  read_limited, or_default, extract_loop, limits, extract_tarball_with_limits, entry_too_large,
  duplicate_path,
}
use jaas.Sources.Extract.Laws.{entries}
use jaas.Sources.Extract.Contents.{
  IsExtracted, extract_tarball_with_limits-IsExtracted, extract_tarball_with_limits_iff,
}
use jaas.Sources.Extract.Acceptance.{IsHonest, kept_files, extract_tarball_with_limits_accepts}

abbrev library : TarEntry
library = record {
  raw_name = codes "./lib/a";
  regular = true;
  size = pos 2;
  body = codes "12";
  torn = false;
}

abbrev hidden : TarEntry
hidden = record {
  raw_name = codes "lib/.git";
  regular = true;
  size = pos 9;
  body = codes "x";
  torn = true;
}

abbrev lying : TarEntry
lying = record {
  raw_name = codes "lib/b";
  regular = true;
  size = pos 1;
  body = codes "12345";
  torn = false;
}

abbrev stream : TarStream
stream = entry hidden (entry library at_eof)

abbrev extracted : Files
extracted = (codes "a", codes "12") ∷ []

extracts : extract_tarball_with_limits (some stream) (codes "lib") (pos 5) (pos 4) ≡ ok extracted
unfolding extract_tarball_with_limits extract_loop or_default keep_entry check_header check_body
    read_limited jaas.Prelude.member normalise_entry jaas.Prelude.◌=?◌ jaas.Prelude.Text.has_prefix
    jaas.Prelude.Text.contains_byte jaas.Sources.Entry.accept_cleaned jaas.Sources.Entry.has_hidden
    jaas.Prelude.Text.split jaas.Sources.Clean.clean jaas.Sources.Clean.or_dot
    jaas.Sources.Clean.onto jaas.Sources.Clean.clean_loop jaas.Sources.Clean.take_segment
    jaas.Sources.Clean.go_up jaas.Sources.Clean.join_slash jaas.Prelude.all
    jaas.Sources.Entry.is_safe_path_byte jaas.Sources.Entry.under_prefix
    jaas.Prelude.Text.drop_prefix jaas.Prelude.Text.trim_suffix kept_name
extracts = refl

-- A body that is longer than its header says, and a name that stands twice.
refuses :
    (extract_tarball_with_limits (some (entry lying at_eof)) (codes "lib") (pos 5) (pos 4)
      ≡ err entry_too_large)
    × (extract_tarball_with_limits (some (entry library (entry library at_eof))) [] (pos 5) (pos 4)
        ≡ err duplicate_path)
unfolding extract_tarball_with_limits extract_loop or_default keep_entry check_header check_body
    read_limited jaas.Prelude.member normalise_entry jaas.Prelude.◌=?◌ jaas.Prelude.Text.has_prefix
    jaas.Prelude.Text.contains_byte jaas.Sources.Entry.accept_cleaned jaas.Sources.Entry.has_hidden
    jaas.Prelude.Text.split jaas.Sources.Clean.clean jaas.Sources.Clean.or_dot
    jaas.Sources.Clean.onto jaas.Sources.Clean.clean_loop jaas.Sources.Clean.take_segment
    jaas.Sources.Clean.go_up jaas.Sources.Clean.join_slash jaas.Prelude.all
    jaas.Sources.Entry.is_safe_path_byte jaas.Sources.Entry.under_prefix
    jaas.Prelude.Text.drop_prefix jaas.Prelude.Text.trim_suffix kept_name
refuses = (refl, refl)

extract_tarball_with_limits-IsExtracted_example : IsExtracted (limits (pos 5) (pos 4)) extracted
extract_tarball_with_limits-IsExtracted_example =
    extract_tarball_with_limits-IsExtracted (some stream) (codes "lib") (pos 5) (pos 4) extracted
      extracts

extract_tarball_with_limits_iff_example : In (codes "a", codes "12") extracted ↔ (
    (e : TarEntry) × In e (entries stream)
    × (kept_name (codes "lib") e ≡ some (codes "a"))
    × (codes "12" ≡ e.body))
extract_tarball_with_limits_iff_example =
    extract_tarball_with_limits_iff stream (codes "lib") (pos 5) (pos 4) extracted (codes "a")
      (codes "12") extracts

extract_tarball_with_limits_accepts_example :
    (files : Files) × (extract_tarball_with_limits (some stream) (codes "lib") (pos 5) (pos 4)
      ≡ ok files)
unfolding IsHonest kept_files or_default normalise_entry jaas.Prelude.◌=?◌
    jaas.Prelude.Text.has_prefix jaas.Prelude.Text.contains_byte jaas.Sources.Entry.accept_cleaned
    jaas.Sources.Entry.has_hidden jaas.Prelude.Text.split jaas.Sources.Clean.clean
    jaas.Sources.Clean.or_dot jaas.Sources.Clean.onto jaas.Sources.Clean.clean_loop
    jaas.Sources.Clean.take_segment jaas.Sources.Clean.go_up jaas.Sources.Clean.join_slash
    jaas.Prelude.all jaas.Sources.Entry.is_safe_path_byte jaas.Sources.Entry.under_prefix
    jaas.Prelude.Text.drop_prefix jaas.Prelude.Text.trim_suffix kept_name
extract_tarball_with_limits_accepts_example =
    extract_tarball_with_limits_accepts stream (codes "lib") (pos 5) (pos 4)
      (inl refl, (inr (record { told = refl; readable = refl; small = omega arith }), tt))
      (omega arith) (λ m. m, tt)
