-- ===== src/Prelude/Action.antt =====
-- Calls that change a state and may fail. A failed call may have changed the state too.
use mathlib.Core.Path.{◌≡◌, refl, subst}
use mathlib.Core.Logic.{◌⊎◌, inl, inr}

pub data Outcome (D E A : Type 0) : Type 0 where
  done : A → D → Outcome D E A
  failed : E → D → Outcome D E A

abbrev pub Action : Type 0 → Type 0 → Type 0 → Type 0
Action D E A = D → Outcome D E A

-- The state in which a call leaves off.
abbrev pub final_state : {D E A : Type 0} → Outcome D E A → D
final_state (done a d) = d
final_state (failed e d) = d

module _ {D E : Type 0} where
  abbrev pub pure : {A : Type 0} → A → Action D E A
  pure a d = done a d

  abbrev pub fail : {A : Type 0} → E → Action D E A
  fail e d = failed e d

  -- `if err != nil { return err }` between two calls.
  abbrev pub then_run : {A B : Type 0} → Outcome D E A → (A → Action D E B) → Outcome D E B
  then_run (done a d) f = f a d
  then_run (failed e d) f = failed e d

  infixl 5 ◌>>=◌ ◌>>◌
  abbrev pub ◌>>=◌ : {A B : Type 0} → Action D E A → (A → Action D E B) → Action D E B
  ◌>>=◌ m f d = then_run (m d) f

  abbrev pub ◌>>◌ : {B : Type 0} → Action D E (Unit {0}) → Action D E B → Action D E B
  ◌>>◌ m k d = then_run (m d) (λ _. k)

  -- A call whose error gets a clean-up before it is returned.
  abbrev pub cleaned : {A : Type 0} → Outcome D E A → Action D E (Unit {0}) → Outcome D E A
  cleaned (done a d) undo = done a d
  cleaned (failed e d) undo = failed e (final_state (undo d))

  abbrev pub on_fail : {A : Type 0} → Action D E A → Action D E (Unit {0}) → Action D E A
  on_fail m undo d = cleaned (m d) undo

module _ {D E F : Type 0} where
  -- fmt.Errorf around the error of a call.
  abbrev pub wrapped : {A : Type 0} → Outcome D E A → (E → F) → Outcome D F A
  wrapped (done a d) f = done a d
  wrapped (failed e d) f = failed (f e) d

  abbrev pub wrap : {A : Type 0} → Action D E A → (E → F) → Action D F A
  wrap m f d = wrapped (m d) f

  -- `_ = call()`
  abbrev pub dropped : {A : Type 0} → Outcome D E A → Outcome D F (Unit {0})
  dropped (done a d) = done tt d
  dropped (failed e d) = done tt d

  abbrev pub ignoring : {A : Type 0} → Action D E A → Action D F (Unit {0})
  ignoring m d = dropped (m d)

-- To split on the outcome of a call and keep the equation.
pub Outcome-cases :
    {D E A : Type 0} (o : Outcome D E A)
    → ((a : A) × (d : D) × (o ≡ done a d)) ⊎ ((e : E) × (d : D) × (o ≡ failed e d))
Outcome-cases (done a d) = inl (a, d, refl)
Outcome-cases (failed e d) = inr (e, d, refl)

module _ {D E : Type 0} where
  -- A sequence that succeeds is two calls that do.
  pub then_run_done :
      {A B : Type 0} (o : Outcome D E A) (f : A → Action D E B) {b : B} {d' : D}
      → then_run o f ≡ done b d'
      → (a : A) × (d : D) × (o ≡ done a d) × (f a d ≡ done b d')
  then_run_done (done a d) f h = (a, d, refl, h)
  then_run_done (failed e d) f h = cc

  pub cleaned_done :
      {A : Type 0} (o : Outcome D E A) (undo : Action D E (Unit {0})) {a : A} {d : D}
      → cleaned o undo ≡ done a d
      → o ≡ done a d
  cleaned_done (done a d) undo h = h
  cleaned_done (failed e d) undo h = cc

module _ {D E F : Type 0} where
  pub wrapped_done :
      {A : Type 0} (o : Outcome D E A) (f : E → F) {a : A} {d : D}
      → wrapped o f ≡ done a d
      → o ≡ done a d
  wrapped_done (done a d) f h = cc
  wrapped_done (failed e d) f h = cc

module _ {D E A : Type 0} where
  -- What holds of one result holds of an equal one.
  pub carry :
      (P : A → D → Type 0) {a b : A} {d d' : D}
      → P a d
      → ◌≡◌ {A = Outcome D E A} (done a d) (done b d')
      → P b d'
  carry P {a} {b} {d} {d'} h e = subst HoldsAt e h
    where
      HoldsAt : Outcome D E A → Type 0
      HoldsAt (done x y) = P x y
      HoldsAt (failed x y) = ⊥

  pub not_done : {e : E} {a : A} {d d' : D} → ¬ (◌≡◌ {A = Outcome D E A} (failed e d) (done a d'))
  not_done h = cc

-- The state in which a call leaves off has a property, whichever way the call ends.
pub data Leaves {D E A : Type 0} (P : D → Type 0) : Outcome D E A → Type 0 where
  by_done : {a : A} {d : D} → P d → Leaves P (done a d)
  by_failed : {e : E} {d : D} → P d → Leaves P (failed e d)

pub Leaves-final_state :
    {D E A : Type 0} {P : D → Type 0} {o : Outcome D E A} → Leaves P o → P (final_state o)
Leaves-final_state (by_done h) = h
Leaves-final_state (by_failed h) = h

pub final_state-Leaves :
    {D E A : Type 0} (P : D → Type 0) (o : Outcome D E A) → P (final_state o) → Leaves P o
final_state-Leaves P (done a d) h = by_done h
final_state-Leaves P (failed e d) h = by_failed h

pub Leaves-then_run :
    {D E A B : Type 0} {P : D → Type 0} {o : Outcome D E A} {f : A → Action D E B}
    → Leaves P o
    → ((a : A) (d : D) → P d → Leaves P (f a d))
    → Leaves P (then_run o f)
Leaves-then_run (by_done h) k = k _ _ h
Leaves-then_run (by_failed h) k = by_failed h

pub Leaves-cleaned :
    {D E A : Type 0} {P : D → Type 0} {o : Outcome D E A} {undo : Action D E (Unit {0})}
    → Leaves P o
    → ((d : D) → P d → Leaves P (undo d))
    → Leaves P (cleaned o undo)
Leaves-cleaned (by_done h) k = by_done h
Leaves-cleaned (by_failed h) k = by_failed (Leaves-final_state (k _ h))

pub Leaves-wrapped :
    {D E F A : Type 0} {P : D → Type 0} {o : Outcome D E A} (f : E → F)
    → Leaves P o
    → Leaves P (wrapped o f)
Leaves-wrapped f (by_done h) = by_done h
Leaves-wrapped f (by_failed h) = by_failed h

pub Leaves-dropped :
    {D E F A : Type 0} {P : D → Type 0} {o : Outcome D E A}
    → Leaves P o
    → Leaves P (dropped {F = F} o)
Leaves-dropped (by_done h) = by_done h
Leaves-dropped (by_failed h) = by_done h

pub Leaves-done :
    {D E A : Type 0} {P : D → Type 0} {o : Outcome D E A} {a : A} {d : D}
    → Leaves P o
    → o ≡ done a d
    → P d
Leaves-done {P} h e = subst (λ o. P (final_state o)) e (Leaves-final_state h)

pub Leaves-failed :
    {D E A : Type 0} {P : D → Type 0} {o : Outcome D E A} {e : E} {d : D}
    → Leaves P o
    → o ≡ failed e d
    → P d
Leaves-failed {P} h e = subst (λ o. P (final_state o)) e (Leaves-final_state h)

module _ {D E : Type 0} where
  -- A sequence that fails does so in its first call or in its second.
  pub then_run_failed :
      {A B : Type 0} (o : Outcome D E A) (f : A → Action D E B) {e : E} {d' : D}
      → then_run o f ≡ failed e d'
      → (o ≡ failed e d') ⊎ ((a : A) × (d : D) × (o ≡ done a d) × (f a d ≡ failed e d'))
  then_run_failed (done a d) f h = inr (a, d, refl, h)
  then_run_failed (failed x d) f h = inl cc

  pub cleaned_failed :
      {A : Type 0} (o : Outcome D E A) (undo : Action D E (Unit {0})) {e : E} {d' : D}
      → cleaned o undo ≡ failed e d'
      → (d : D) × (o ≡ failed e d) × (final_state (undo d) ≡ d')
  cleaned_failed (done a d) undo h = cc
  cleaned_failed (failed x d) undo h = (d, cc, cc)

pub wrapped_failed :
    {D E F A : Type 0} (o : Outcome D E A) (f : E → F) {e : F} {d : D}
    → wrapped o f ≡ failed e d
    → (x : E) × (o ≡ failed x d)
wrapped_failed (done a d) f h = cc
wrapped_failed (failed x d) f h = (x, cc)

-- The same, as a rule.
pub either_failed :
    {D E A B C : Type 0} {o : Outcome D E A} {f : A → Action D E B} {e : E} {d' : D}
    → then_run o f ≡ failed e d'
    → (o ≡ failed e d' → C)
    → ((a : A) (d : D) → o ≡ done a d → f a d ≡ failed e d' → C)
    → C
either_failed {o} {f} h first second = elim (then_run_failed o f h) [
  | inl x ↦ first x
  | inr (a, d, x, y) ↦ second a d x y
]
