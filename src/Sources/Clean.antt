-- ===== src/Sources/Clean.antt =====
-- path.Clean of Go's standard library, for a path that does not begin with a slash: a segment that
-- is empty or "." is dropped, and ".." takes the segment before it away.
pub mod Laws
use jaas.Prelude.{ℕ, Bool, List, [], ◌∷◌, ◌++◌, Bytes, codes, ◌=?◌, ◌||◌, if◌then◌else◌}
use jaas.Prelude.Text.{split}

abbrev pub dot : Bytes
dot = codes "."

abbrev pub dot_dot : Bytes
dot_dot = codes ".."

unfoldable pub join_slash : List Bytes → Bytes
join_slash [] = []
join_slash (p ∷ []) = p
join_slash (p ∷ q ∷ ps) = p ++ b'/' ∷ join_slash (q ∷ ps)

-- The segments kept so far stand last first.
unfoldable pub go_up : List Bytes → List Bytes
go_up [] = dot_dot ∷ []
go_up (top ∷ stack) = if top =? dot_dot then dot_dot ∷ top ∷ stack else stack

unfoldable pub take_segment : List Bytes → Bytes → List Bytes
take_segment stack seg =
    if seg =? [] || seg =? dot then stack else if seg =? dot_dot then go_up stack else seg ∷ stack

unfoldable pub clean_loop : List Bytes → List Bytes → List Bytes
clean_loop stack [] = stack
clean_loop stack (seg ∷ segs) = clean_loop (take_segment stack seg) segs

unfoldable pub onto : List Bytes → List Bytes → List Bytes
onto [] segs = segs
onto (top ∷ stack) segs = onto stack (top ∷ segs)

unfoldable pub or_dot : List Bytes → Bytes
or_dot [] = dot
or_dot (p ∷ ps) = join_slash (p ∷ ps)

unfoldable pub clean : Bytes → Bytes
clean p = or_dot (onto (clean_loop [] (split p b'/')) [])
