-- ===== src/Operator/OpState/History.antt =====
-- What a state tells of the calls that made it.
use jaas.Prelude.{
  ℕ, ◌+◌, ◌≡◌, refl, sym, ap, subst, ◌∙◌, Bool, true, false, Bool-cases, inl, inr, List, [], ◌∷◌,
  Bytes, if◌then◌else◌,
}
use jaas.Operator.OpState.{
  State, mark_available, mark_unavailable, Event, available_at, unavailable_at, attempted, after,
}

-- Whether the last call that reports a reading reports that the operator reconciles.
unfoldable pub last_reading : List Event → Bool
last_reading [] = false
last_reading (available_at now ∷ events) = true
last_reading (unavailable_at reason now ∷ events) = false
last_reading (attempted ∷ events) = last_reading events

-- The reason of the last call that reports a reading, which is empty for an available one.
unfoldable pub last_reason : List Event → Bytes
last_reason [] = []
last_reason (available_at now ∷ events) = []
last_reason (unavailable_at reason now ∷ events) = reason
last_reason (attempted ∷ events) = last_reason events

-- The time of the oldest call in the unbroken run of equal readings that the calls end with.
unfoldable pub run_start : ℕ → List Event → ℕ
run_start start [] = start
run_start start (available_at now ∷ events) =
    let rest = run_start start events in if last_reading events then rest else now
run_start start (unavailable_at reason now ∷ events) =
    let rest = run_start start events in if last_reading events then now else rest
run_start start (attempted ∷ events) = run_start start events

unfoldable pub count_attempts : List Event → ℕ
count_attempts [] = 0
count_attempts (available_at now ∷ events) = count_attempts events
count_attempts (unavailable_at reason now ∷ events) = count_attempts events
count_attempts (attempted ∷ events) = count_attempts events + 1

pub record IsTold (start : ℕ) (events : List Event) (s : State) : Type 0 where
  pub reading : s.is_available ≡ last_reading events
  pub reason_told : s.reason ≡ last_reason events
  pub since_run : s.since ≡ run_start start events
  pub attempts_made : s.attempts ≡ count_attempts events

last_reason-last_reading :
    (events : List Event) → last_reading events ≡ true → last_reason events ≡ []
unfolding last_reading last_reason
last_reason-last_reading [] h = refl
last_reason-last_reading (available_at now ∷ events) h = refl
last_reason-last_reading (unavailable_at reason now ∷ events) h = cc
last_reason-last_reading (attempted ∷ events) h = last_reason-last_reading events h

module _ (start : ℕ) (events : List Event) (s : State) (h : IsTold start events s) where
  IsTold-available : (now : ℕ) → IsTold start (available_at now ∷ events) (mark_available now s).0
  unfolding mark_available last_reading last_reason run_start count_attempts
  IsTold-available now = elim (Bool-cases s.is_available) [
    | inl e ↦
        let l : last_reading events ≡ true = sym h.reading ∙ e in
        let same : mark_available now s ≡ (s, false) = simp (e, mark_available) refl in
        subst (λ o. IsTold start (available_at now ∷ events) o.0) (sym same)
          (record {
            reading = e;
            reason_told = h.reason_told ∙ last_reason-last_reading events l;
            since_run = rw l h.since_run;
            attempts_made = h.attempts_made;
          })
    | inr e ↦
        let l : last_reading events ≡ false = sym h.reading ∙ e in
        let turned : mark_available now s
            ≡ (record s { is_available = true; reason = []; since = now }, true) =
          simp (e, mark_available) refl in
        subst (λ o. IsTold start (available_at now ∷ events) o.0) (sym turned)
          (record {
            reading = refl;
            reason_told = refl;
            since_run = rw l refl;
            attempts_made = h.attempts_made;
          })
  ]

  IsTold-unavailable :
      (reason : Bytes) (now : ℕ)
      → IsTold start (unavailable_at reason now ∷ events) (mark_unavailable reason now s).0
  unfolding mark_unavailable last_reading last_reason run_start count_attempts
  IsTold-unavailable reason now = elim (Bool-cases s.is_available) [
    | inl e ↦
        let l : last_reading events ≡ true = sym h.reading ∙ e in
        let turned : mark_unavailable reason now s
            ≡ (record s { reason = reason; is_available = false; since = now }, true) =
          simp (e, mark_unavailable) refl in
        subst (λ o. IsTold start (unavailable_at reason now ∷ events) o.0) (sym turned)
          (record {
            reading = refl;
            reason_told = refl;
            since_run = rw l refl;
            attempts_made = h.attempts_made;
          })
    | inr e ↦
        let l : last_reading events ≡ false = sym h.reading ∙ e in
        let same : mark_unavailable reason now s ≡ (record s { reason = reason }, false) =
          simp (e, mark_unavailable) refl in
        subst (λ o. IsTold start (unavailable_at reason now ∷ events) o.0) (sym same)
          (record {
            reading = e;
            reason_told = refl;
            since_run = rw l h.since_run;
            attempts_made = h.attempts_made;
          })
  ]

-- A state tells the reading and the reason of the last call that reported one, the time at which the
-- run of equal readings began, whatever was repeated since, and how many attempts were recorded.
pub after-IsTold : (start : ℕ) (events : List Event) → IsTold start events (after start events)
unfolding after last_reading last_reason run_start count_attempts
after-IsTold start [] = record {
  reading = refl;
  reason_told = refl;
  since_run = refl;
  attempts_made = refl;
}
after-IsTold start (attempted ∷ events) =
    let h = after-IsTold start events in
    record {
      reading = h.reading;
      reason_told = h.reason_told;
      since_run = h.since_run;
      attempts_made = ap (λ n. n + 1) h.attempts_made;
    }
after-IsTold start (available_at now ∷ events) =
    IsTold-available start events (after start events) (after-IsTold start events) now
after-IsTold start (unavailable_at reason now ∷ events) =
    IsTold-unavailable start events (after start events) (after-IsTold start events) reason now
