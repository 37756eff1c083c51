-- ===== src/Operator/OpState.antt =====
-- internal/opstate/opstate.go: whether the operator reconciles, and since when. `now` is what the
-- clock reads; the methods run under one lock, so each is one step. A nil State is none.
pub mod History
pub mod Examples
use jaas.Prelude.{
  ℕ, ◌+◌, Bool, true, false, List, [], ◌∷◌, Option, none, some, Bytes, if◌then◌else◌,
}

-- State
pub record State : Type 0 where
  pub is_available : Bool
  pub reason : Bytes
  pub since : ℕ
  pub attempts : ℕ

-- New
abbrev pub new_state : ℕ → State
new_state now = record { is_available = false; reason = []; since = now; attempts = 0 }

-- MarkAvailable: the state, and whether the reading changed.
unfoldable pub mark_available : ℕ → State → State × Bool
mark_available now s =
    if s.is_available
    then (s, false)
    else (record s { is_available = true; reason = []; since = now }, true)

-- MarkUnavailable
unfoldable pub mark_unavailable : Bytes → ℕ → State → State × Bool
mark_unavailable reason now s =
    if s.is_available
    then (record s { reason = reason; is_available = false; since = now }, true)
    else (record s { reason = reason }, false)

-- RecordAttempt
abbrev pub record_attempt : State → State × ℕ
record_attempt s = (record s { attempts = s.attempts + 1 }, s.attempts + 1)

-- Available
unfoldable pub available : Option State → Bool
available none = true
available (some s) = s.is_available

-- A call of one of the methods that change the state, with what the clock reads.
pub data Event : Type 0 where
  available_at : ℕ → Event
  unavailable_at : Bytes → ℕ → Event
  attempted : Event

-- The state after the calls, the last of which stands first.
unfoldable pub after : ℕ → List Event → State
after start [] = new_state start
after start (available_at now ∷ events) = (mark_available now (after start events)).0
after start (unavailable_at reason now ∷ events) =
    (mark_unavailable reason now (after start events)).0
after start (attempted ∷ events) = (record_attempt (after start events)).0
