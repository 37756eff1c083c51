-- ===== src/Eval/Semaphore/Examples.antt =====
-- Tests of Semaphore, and its theorems at concrete inputs.
use jaas.Prelude.{ℕ, ◌≡◌, [], ◌∷◌, pos, arith}
use jaas.Eval.Semaphore.{
  Counters, clamped, set_max_concurrent_evals, arriving, holding, refused, advance, System, initial,
  Reachable, start, next, configures, enters, advances, reserve_eval_slot,
}
use jaas.Eval.Semaphore.Admission.{
  IsAdmitted, Reachable-IsAdmitted, turn, settled, advance-reserve_eval_slot,
}

abbrev counters : ℕ → ℕ → Counters
counters in_flight rejected = record { limit = 1; in_flight = in_flight; rejected = rejected }

-- With a cap of one, a second caller is refused while the first holds the slot.
abbrev one_held : System
one_held = record { counters = counters 1 1; callers = refused ∷ holding ∷ [] }

reaches : Reachable 1 one_held
unfolding initial clamped set_max_concurrent_evals advance
reaches =
    let r0 : Reachable 1 (record { counters = counters 0 0; callers = [] }) =
      next start (configures initial (pos 1) (omega arith)) in
    let r1 : Reachable 1 (record { counters = counters 0 0; callers = arriving ∷ [] }) =
      next r0 (enters _) in
    let r2 =
      next (next (next r1 (advances _ [] arriving [])) (advances _ [] _ [])) (advances _ [] _ []) in
    let r3 = next r2 (enters _) in
    next (next (next r3 (advances _ [] arriving _)) (advances _ [] _ _)) (advances _ [] _ _)

Reachable-IsAdmitted_example : IsAdmitted 1 one_held
Reachable-IsAdmitted_example = Reachable-IsAdmitted reaches

advance-reserve_eval_slot_example :
    turn (turn (turn (turn (counters 1 0, arriving))))
    ≡ settled 1 (reserve_eval_slot (counters 1 0))
advance-reserve_eval_slot_example = advance-reserve_eval_slot (counters 1 0)
