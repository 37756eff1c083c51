-- ===== src/Eval/Semaphore.antt =====
-- internal/eval/semaphore.go: the cap on the evaluations that run at once. The three counters are
-- shared; each caller of reserveEvalSlot goes through the atomic operations of its loop one at a
-- time, and a system is the counters and the callers, any of which may take the next step. The
-- counters are int64 in the source; no count of callers reaches that bound.
pub mod Admission
pub mod Examples
use jaas.Prelude.{
  ℕ, ◌+◌, ◌-◌, ◌≤◌, ℤ, pos, negsuc, List, [], ◌∷◌, ◌++◌, Bool, true, false, leb, ◌==◌,
  if◌then◌else◌,
}

-- concurrencyLimit, inFlightEvals, rejectedEvalsTotal
pub record Counters : Type 0 where
  pub limit : ℕ
  pub in_flight : ℕ
  pub rejected : ℕ

-- The limit that SetMaxConcurrentEvals stores: a negative one disables the gate, as 0 does.
unfoldable pub clamped : ℤ → ℕ
clamped (pos n) = n
clamped (negsuc n) = 0

-- SetMaxConcurrentEvals
unfoldable pub set_max_concurrent_evals : ℤ → Counters → Counters
set_max_concurrent_evals n s = record s { limit = clamped n }

-- Where a caller stands: before the load of the limit; in the loop, before the load of the count;
-- before the swap from the count it has loaded; before it counts its refusal; refused; holding a
-- slot, with the release not yet called; with it called; and past a gate that was disabled.
pub data Caller : Type 0 where
  arriving : Caller
  looping : ℕ → Caller
  swapping : ℕ → ℕ → Caller
  refusing refused holding released ungated : Caller

-- The next atomic operation of reserveEvalSlot. A swap that fails goes round the loop again.
unfoldable pub advance : Counters → Caller → Counters × Caller
advance s arriving = (s, if leb s.limit 0 then ungated else looping s.limit)
advance s (looping limit) =
    (s, if leb limit s.in_flight then refusing else swapping limit s.in_flight)
advance s (swapping limit cur) =
    if s.in_flight == cur then (record s { in_flight = cur + 1 }, holding) else (s, looping limit)
advance s refusing = (record s { rejected = s.rejected + 1 }, refused)
advance s refused = (s, refused)
advance s holding = (s, holding)
advance s released = (s, released)
advance s ungated = (s, ungated)

-- The release that reserveEvalSlot returns, under its sync.Once; it does nothing past a disabled
-- gate. A caller that holds no slot has no release to call.
unfoldable pub release : Counters → Caller → Counters × Caller
release s arriving = (s, arriving)
release s (looping limit) = (s, looping limit)
release s (swapping limit cur) = (s, swapping limit cur)
release s refusing = (s, refusing)
release s refused = (s, refused)
release s holding = (record s { in_flight = s.in_flight - 1 }, released)
release s released = (s, released)
release s ungated = (s, ungated)

pub record System : Type 0 where
  pub counters : Counters
  pub callers : List Caller

unfoldable pub initial : System
initial = record { counters = record { limit = 0; in_flight = 0; rejected = 0 }; callers = [] }

-- The system in which one caller has moved.
abbrev pub moved : List Caller → Counters × Caller → List Caller → System
moved before (s, c) after = record { counters = s; callers = before ++ c ∷ after }

-- One step, where no limit above `m` is ever configured.
pub data Step (m : ℕ) : System → System → Type 0 where
  configures :
      (x : System) (n : ℤ)
      → clamped n ≤ m
      → Step m x (record x { counters = set_max_concurrent_evals n x.counters })
  enters : (x : System) → Step m x (record x { callers = arriving ∷ x.callers })
  advances :
      (s : Counters) (before : List Caller) (c : Caller) (after : List Caller)
      → Step m (moved before (s, c) after) (moved before (advance s c) after)
  releases :
      (s : Counters) (before : List Caller) (c : Caller) (after : List Caller)
      → Step m (moved before (s, c) after) (moved before (release s c) after)

pub data Reachable (m : ℕ) : System → Type 0 where
  start : Reachable m initial
  next : {x y : System} → Reachable m x → Step m x y → Reachable m y

-- reserveEvalSlot as one call that nothing interrupts: the slot it takes, if it takes one.
unfoldable pub reserve_eval_slot : Counters → Counters × Bool
reserve_eval_slot s =
    if leb s.limit 0
    then (s, true)
    else if leb s.limit s.in_flight
    then (record s { rejected = s.rejected + 1 }, false)
    else (record s { in_flight = s.in_flight + 1 }, true)
