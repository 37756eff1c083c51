-- ===== src/Sources/Capped.antt =====
-- internal/sources/sources.go: cappedReader, which bounds what a gzip stream may inflate to. The
-- reader below it is a parameter: `read u n` is a call of its Read with a buffer of `n` bytes. The
-- budget is an int64 in the source and starts positive, and no read takes more than is left of it.
pub mod Budget
pub mod Examples
use jaas.Prelude.{
  ℕ, ◌+◌, ◌-◌, min, Bool, true, false, List, [], ◌∷◌, ◌++◌, Option, none, some, Bytes, leb, length,
  if◌then◌else◌,
}

-- What a Read may report beside its bytes. `cause` is the error the reader was made with.
pub data ReadError : Type 0 where
  eof cause other : ReadError

abbrev pub ReadResult : Type 0
ReadResult = Bytes × Option ReadError

pub data SourceError : Type 0 where
  source_eof source_other : SourceError

abbrev pub passed_on : Option SourceError → Option ReadError
passed_on none = none
passed_on (some source_eof) = some eof
passed_on (some source_other) = some other

module _ {U : Type 0} (read : U → ℕ → U × Bytes × Option SourceError) where
  -- cappedReader
  pub record CappedReader : Type 0 where
    pub source : U
    pub remaining : ℕ
    pub tripped : Bool
    pub eof_seen : Bool

  -- newCappedReader
  abbrev pub new_capped_reader : U → ℕ → CappedReader
  new_capped_reader u c = record { source = u; remaining = c; tripped = false; eof_seen = false }

  -- The probe for one more byte when the budget is used up.
  unfoldable pub after_probe :
      CappedReader → U × Bytes × Option SourceError → CappedReader × ReadResult
  after_probe cr (u, b ∷ bytes, e) = (record cr { source = u; tripped = true }, ([], some cause))
  after_probe cr (u, [], some source_eof) =
      (record cr { source = u; eof_seen = true }, ([], some eof))
  after_probe cr (u, [], some source_other) = (record cr { source = u }, ([], some other))
  after_probe cr (u, [], none) = (record cr { source = u; tripped = true }, ([], some cause))

  -- A read within the budget.
  unfoldable pub after_read :
      CappedReader → U × Bytes × Option SourceError → CappedReader × ReadResult
  after_read cr (u, bytes, some source_eof) = (
    record cr { source = u; remaining = cr.remaining - length bytes; eof_seen = true },
    (bytes, some eof),
  )
  after_read cr (u, bytes, some source_other) =
      (record cr { source = u; remaining = cr.remaining - length bytes }, (bytes, some other))
  after_read cr (u, bytes, none) =
      (record cr { source = u; remaining = cr.remaining - length bytes }, (bytes, none))

  -- Read
  unfoldable pub read_capped : CappedReader → ℕ → CappedReader × ReadResult
  read_capped cr n =
      if cr.tripped
      then (cr, ([], some cause))
      else if cr.eof_seen
      then (cr, ([], some eof))
      else if leb cr.remaining 0
      then after_probe cr (read cr.source 1)
      else after_read cr (read cr.source (min n cr.remaining))

  -- A run of Reads with these buffers: all that they gave, and the reader after them.
  unfoldable pub read_all : List ℕ → CappedReader → CappedReader × Bytes
  read_all [] cr = (cr, [])
  read_all (n ∷ buffers) cr =
      let first = read_capped cr n in
      let rest = read_all buffers first.0 in (rest.0, first.1.0 ++ rest.1)
