-- ===== src/Eval/Semaphore/Admission.antt =====
-- The invariant of the semaphore: the counters tell what the callers hold, under every interleaving.
use jaas.Prelude.{
  ℕ, ◌+◌, ◌≤◌, ◌<◌, ◌≡◌, refl, ◌∷◌, [], ◌++◌, List, Bool, true, false, arith, All, leb, ◌==◌,
  if◌then◌else◌, Bool-cases, inl, inr,
}
use jaas.Eval.Semaphore.{
  Counters, set_max_concurrent_evals, Caller, arriving, looping, swapping, refusing, refused,
  holding, released, ungated, advance, release, System, initial, moved, Step, configures, enters,
  advances, releases, Reachable, start, next, reserve_eval_slot,
}

-- One for a caller that holds a slot, and none for any other.
abbrev pub slots : Caller → ℕ
slots arriving = 0
slots (looping limit) = 0
slots (swapping limit cur) = 0
slots refusing = 0
slots refused = 0
slots holding = 1
slots released = 0
slots ungated = 0

-- One for a caller that has been refused, and none for any other.
abbrev pub refusals : Caller → ℕ
refusals arriving = 0
refusals (looping limit) = 0
refusals (swapping limit cur) = 0
refusals refusing = 0
refusals refused = 1
refusals holding = 0
refusals released = 0
refusals ungated = 0

-- The sum over the callers.
abbrev pub total : (Caller → ℕ) → List Caller → ℕ
total f [] = 0
total f (c ∷ cs) = f c + total f cs

total-moved :
    (f : Caller → ℕ) (before : List Caller) (c : Caller) (after : List Caller)
    → total f (before ++ c ∷ after) ≡ f c + (total f before + total f after)
total-moved f [] c after = omega arith
total-moved f (b ∷ before) c after = omega (arith, total-moved f before c after)

-- What a caller remembers: a limit within `m`, and a count below it.
abbrev pub IsLoaded : ℕ → Caller → Type 0
IsLoaded m arriving = Unit
IsLoaded m (looping limit) = limit ≤ m
IsLoaded m (swapping limit cur) = (limit ≤ m) × (cur < limit)
IsLoaded m refusing = Unit
IsLoaded m refused = Unit
IsLoaded m holding = Unit
IsLoaded m released = Unit
IsLoaded m ungated = Unit

pub record IsAdmitted (m : ℕ) (x : System) : Type 0 where
  pub limited : x.counters.limit ≤ m
  pub bounded : x.counters.in_flight ≤ m
  pub loaded : All (IsLoaded m) x.callers
  pub in_flight_held : x.counters.in_flight ≡ total slots x.callers
  pub rejected_refused : x.counters.rejected ≡ total refusals x.callers

-- What one move of a caller does to the counters.
record IsMove (m : ℕ) (s : Counters) (c : Caller) (to : Counters × Caller) : Type 0 where
  same_limit : to.0.limit ≡ s.limit
  within : to.0.in_flight ≤ m
  remembers : IsLoaded m to.1
  held : to.0.in_flight + slots c ≡ s.in_flight + slots to.1
  refused_one : to.0.rejected + refusals c ≡ s.rejected + refusals to.1

stays : (m : ℕ) (s : Counters) (c : Caller) → s.in_flight ≤ m → IsLoaded m c → IsMove m s c (s, c)
stays m s c b l = record {
  same_limit = refl;
  within = b;
  remembers = l;
  held = refl;
  refused_one = refl;
}

moves :
    (m : ℕ) (s : Counters) (c d : Caller)
    → s.in_flight ≤ m
    → IsLoaded m d
    → slots c ≡ slots d
    → refusals c ≡ refusals d
    → IsMove m s c (s, d)
moves m s c d b l e r = record {
  same_limit = refl;
  within = b;
  remembers = l;
  held = omega arith;
  refused_one = omega arith;
}

advance-IsMove :
    (m : ℕ) (s : Counters) (c : Caller)
    → s.limit ≤ m
    → s.in_flight ≤ m
    → IsLoaded m c
    → IsMove m s c (advance s c)
unfolding advance
advance-IsMove m s arriving k b l = elim (Bool-cases (leb s.limit 0)) [
  | inl e ↦ rw e (moves m s arriving ungated b tt refl refl)
  | inr e ↦ rw e (moves m s arriving (looping s.limit) b k refl refl)
]
advance-IsMove m s (looping limit) k b l = elim (Bool-cases (leb limit s.in_flight)) [
  | inl e ↦ rw e (moves m s (looping limit) refusing b tt refl refl)
  | inr e ↦
      rw e (moves m s (looping limit) (swapping limit s.in_flight) b (l, ground arith) refl refl)
]
advance-IsMove m s (swapping limit cur) k b (l, below) = elim (Bool-cases (s.in_flight == cur)) [
  | inl e ↦ rw e (record {
    same_limit = refl;
    within = omega arith;
    remembers = tt;
    held = ground arith;
    refused_one = omega arith;
  })
  | inr e ↦ rw e (moves m s (swapping limit cur) (looping limit) b l refl refl)
]
advance-IsMove m s refusing k b l = record {
  same_limit = refl;
  within = b;
  remembers = tt;
  held = omega arith;
  refused_one = omega arith;
}
advance-IsMove m s refused k b l = stays m s refused b l
advance-IsMove m s holding k b l = stays m s holding b l
advance-IsMove m s released k b l = stays m s released b l
advance-IsMove m s ungated k b l = stays m s ungated b l

release-IsMove :
    (m : ℕ) (s : Counters) (c : Caller)
    → slots c ≤ s.in_flight
    → s.in_flight ≤ m
    → IsLoaded m c
    → IsMove m s c (release s c)
unfolding release
release-IsMove m s arriving h b l = stays m s arriving b l
release-IsMove m s (looping limit) h b l = stays m s (looping limit) b l
release-IsMove m s (swapping limit cur) h b l = stays m s (swapping limit cur) b l
release-IsMove m s refusing h b l = stays m s refusing b l
release-IsMove m s refused h b l = stays m s refused b l
release-IsMove m s holding h b l = record {
  same_limit = refl;
  within = omega arith;
  remembers = tt;
  held = omega arith;
  refused_one = omega arith;
}
release-IsMove m s released h b l = stays m s released b l
release-IsMove m s ungated h b l = stays m s ungated b l

All-at :
    (m : ℕ) (before : List Caller) (c : Caller) (after : List Caller)
    → All (IsLoaded m) (before ++ c ∷ after)
    → IsLoaded m c
All-at m [] c after h = h.0
All-at m (b ∷ before) c after h = All-at m before c after h.1

All-put :
    (m : ℕ) (before : List Caller) (c d : Caller) (after : List Caller)
    → All (IsLoaded m) (before ++ c ∷ after)
    → IsLoaded m d
    → All (IsLoaded m) (before ++ d ∷ after)
All-put m [] c d after h l = (l, h.1)
All-put m (b ∷ before) c d after h l = (h.0, All-put m before c d after h.1 l)

-- A caller's move keeps the invariant of the system.
IsMove-IsAdmitted :
    (m : ℕ) (s : Counters) (before : List Caller) (c : Caller) (after : List Caller)
    (to : Counters × Caller)
    → IsAdmitted m (moved before (s, c) after)
    → IsMove m s c to
    → IsAdmitted m (moved before to after)
IsMove-IsAdmitted m s before c after (s', d) inv mv = record {
  limited = omega (arith, inv.limited, mv.same_limit);
  bounded = mv.within;
  loaded = All-put m before c d after inv.loaded mv.remembers;
  in_flight_held = omega (
    arith,
    mv.held,
    inv.in_flight_held,
    total-moved slots before c after,
    total-moved slots before d after,
  );
  rejected_refused = omega (
    arith,
    mv.refused_one,
    inv.rejected_refused,
    total-moved refusals before c after,
    total-moved refusals before d after,
  );
}

Step-IsAdmitted : {m : ℕ} {x y : System} → Step m x y → IsAdmitted m x → IsAdmitted m y
unfolding set_max_concurrent_evals
Step-IsAdmitted (configures x n h) inv = record {
  limited = h;
  bounded = inv.bounded;
  loaded = inv.loaded;
  in_flight_held = inv.in_flight_held;
  rejected_refused = inv.rejected_refused;
}
Step-IsAdmitted (enters x) inv = record {
  limited = inv.limited;
  bounded = inv.bounded;
  loaded = (tt, inv.loaded);
  in_flight_held = omega (arith, inv.in_flight_held);
  rejected_refused = omega (arith, inv.rejected_refused);
}
Step-IsAdmitted {m} (advances s before c after) inv =
    IsMove-IsAdmitted m s before c after _ inv
      (advance-IsMove m s c inv.limited inv.bounded (All-at m before c after inv.loaded))
Step-IsAdmitted {m} (releases s before c after) inv = IsMove-IsAdmitted m s before c after _ inv (
    release-IsMove m s c (omega (arith, inv.in_flight_held, total-moved slots before c after))
      inv.bounded (All-at m before c after inv.loaded))

-- In every system that steps reach while no limit above `m` is configured, the count of evaluations
-- in flight is the number of callers that hold a slot and is at most `m`, and the count of
-- rejections is the number of callers that were refused.
pub Reachable-IsAdmitted : {m : ℕ} {x : System} → Reachable m x → IsAdmitted m x
unfolding initial
Reachable-IsAdmitted start = record {
  limited = omega arith;
  bounded = omega arith;
  loaded = tt;
  in_flight_held = refl;
  rejected_refused = refl;
}
Reachable-IsAdmitted (next r st) = Step-IsAdmitted st (Reachable-IsAdmitted r)

abbrev pub turn : Counters × Caller → Counters × Caller
turn (s, c) = advance s c

-- Where a caller stands after a reservation that nothing interrupts.
abbrev pub settled : ℕ → Counters × Bool → Counters × Caller
settled limit (s, true) = (s, if leb limit 0 then ungated else holding)
settled limit (s, false) = (s, refused)

-- A caller that nothing interrupts has its answer within four operations: its loop does not go
-- round, and it does what reserve_eval_slot does in one step.
pub advance-reserve_eval_slot :
    (s : Counters) → turn (turn (turn (turn (s, arriving)))) ≡ settled s.limit (reserve_eval_slot s)
unfolding advance reserve_eval_slot
advance-reserve_eval_slot s = elim (Bool-cases (leb s.limit 0)) [
  | inl e ↦ rw (e, e) refl
  | inr e ↦ elim (Bool-cases (leb s.limit s.in_flight)) [
    | inl f ↦ rw (e, f) refl
    | inr f ↦ rw (e, f, same s.in_flight, e) refl
  ]
]
  where
    same : (n : ℕ) → (n == n) ≡ true
    same n = ground arith
