-- ===== src/Sources/Extract.antt =====
-- internal/sources/sources.go: extractTarballWithLimits. The gzip and tar readers are parameters by
-- what they return: a stream is the sequence of results of tar.Next, each regular or special entry
-- with what reading its body to the end gives. The stream ends, since cappedReader bounds it: the
-- third cap, decompressedBytes with its default, shows here only as the failure in which a stream or a
-- body that reaches it ends. A size is an int64 in the source: the sums below never exceed a cap,
-- which is one.
pub mod Laws
pub mod Contents
pub mod Acceptance
pub mod Examples
use jaas.Prelude.{
  ℕ, ◌+◌, ◌-◌, ℤ, pos, negsuc, Bool, true, false, List, [], ◌∷◌, Option, none, some, Bytes, ◌=?◌,
  ltb, leb, length, take, map, if◌then◌else◌, Result, ok, err, member,
}
use jaas.Sources.Entry.{normalise_entry}

-- What the tar reader gives for one entry: its header, and the bytes of its body, after which the
-- reader is at the end, or fails if `torn`.
pub record TarEntry : Type 0 where
  pub raw_name : Bytes
  pub regular : Bool
  pub size : ℤ
  pub body : Bytes
  pub torn : Bool

pub data TarStream : Type 0 where
  at_eof broken : TarStream
  entry : TarEntry → TarStream → TarStream

pub data ExtractError : Type 0 where
  bad_gzip bad_tar duplicate_path negative_size entry_too_large tarball_too_large unreadable :
      ExtractError

pub record Limits : Type 0 where
  pub max_bytes : ℕ
  pub per_entry_bytes : ℕ

-- A limit that is not positive falls back to its default.
unfoldable pub or_default : ℤ → ℕ → ℕ
or_default (pos n) default = if leb n 0 then default else n
or_default (negsuc n) default = default

abbrev pub Files : Type 0
Files = List (Bytes × Bytes)

abbrev pub names : Files → List Bytes
names files = map (λ f. f.0) files

-- io.ReadAll(io.LimitReader(tr, limit)) on the body of an entry.
unfoldable pub read_limited : ℕ → TarEntry → Option Bytes
read_limited limit e =
    if ltb (length e.body) limit
    then if e.torn then none else some e.body
    else some (take limit e.body)

-- The checks on the header of an entry that is kept.
unfoldable pub check_header : Limits → ℕ → ℤ → Option ExtractError
check_header l total (negsuc n) = some negative_size
check_header l total (pos n) =
    if ltb l.per_entry_bytes n
    then some entry_too_large
    else if ltb (l.max_bytes - total) n
    then some tarball_too_large
    else none

-- The checks on the body, and the size of all bodies with it.
unfoldable pub check_body : Limits → ℕ → Bytes → Result ExtractError ℕ
check_body l total body =
    if ltb l.per_entry_bytes (length body)
    then err entry_too_large
    else if ltb l.max_bytes (total + length body)
    then err tarball_too_large
    else ok (total + length body)

-- What one entry under its name adds: its body and the new total.
unfoldable pub keep_entry : Limits → ℕ → TarEntry → Result ExtractError (Bytes × ℕ)
keep_entry l total e = elim (check_header l total e.size) [
  | some x ↦ err x
  | none ↦ elim (read_limited (l.per_entry_bytes + 1) e) [
    | none ↦ err unreadable
    | some body ↦ elim (check_body l total body) [ err x ↦ err x | ok total' ↦ ok (body, total') ]
  ]
]

-- The name under which an entry is kept, if it is.
unfoldable pub kept_name : Bytes → TarEntry → Option Bytes
kept_name path_prefix e = if e.regular then normalise_entry e.raw_name path_prefix else none

-- The loop over the stream.
unfoldable pub extract_loop : Limits → Bytes → TarStream → ℕ → Files → Result ExtractError Files
extract_loop l path_prefix at_eof total files = ok files
extract_loop l path_prefix broken total files = err bad_tar
extract_loop l path_prefix (entry e rest) total files = elim (kept_name path_prefix e) [
  | none ↦ extract_loop l path_prefix rest total files
  | some name ↦ elim (member name (names files)) [
    | true ↦ err duplicate_path
    | false ↦ elim (keep_entry l total e) [
      | err x ↦ err x
      | ok (body, total') ↦ extract_loop l path_prefix rest total' ((name, body) ∷ files)
    ]
  ]
]

-- defaultMaxExtractedBytes
abbrev pub default_max_extracted_bytes : ℕ
default_max_extracted_bytes = 67108864

-- defaultMaxPerEntryBytes
abbrev pub default_max_per_entry_bytes : ℕ
default_max_per_entry_bytes = 16777216

abbrev pub limits : ℤ → ℤ → Limits
limits max_bytes per_entry_bytes = record {
  max_bytes = or_default max_bytes default_max_extracted_bytes;
  per_entry_bytes = or_default per_entry_bytes default_max_per_entry_bytes;
}

-- extractTarballWithLimits, for a body that is no gzip (`none`) and for one that holds a stream.
unfoldable pub extract_tarball_with_limits :
    Option TarStream → Bytes → ℤ → ℤ → Result ExtractError Files
unfolding or_default
extract_tarball_with_limits none path_prefix max_bytes per_entry_bytes = err bad_gzip
extract_tarball_with_limits (some stream) path_prefix max_bytes per_entry_bytes =
    extract_loop (limits max_bytes per_entry_bytes) path_prefix stream 0 []
