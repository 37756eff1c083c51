-- ===== src/Operator/OpState/Examples.antt =====
-- Tests of OpState, and its theorem at a concrete input.
use jaas.Prelude.{◌≡◌, refl, true, [], ◌∷◌, codes, List}
use jaas.Operator.OpState.{
  Event, available_at, unavailable_at, attempted, after, mark_available, mark_unavailable,
}
use jaas.Operator.OpState.History.{IsTold, after-IsTold}

-- The manager starts, syncs at 4 and again at 6, and an attempt follows.
abbrev calls : List Event
calls = attempted ∷ available_at 6 ∷ available_at 4 ∷ unavailable_at (codes "x") 2 ∷ attempted ∷ []

synced_since : after 1 calls ≡ record { is_available = true; reason = []; since = 4; attempts = 2 }
unfolding after mark_available mark_unavailable
synced_since = refl

after-IsTold_example : IsTold 1 calls (after 1 calls)
after-IsTold_example = after-IsTold 1 calls
