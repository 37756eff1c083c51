-- ===== src/Operator/Reconcile/Revisit.antt =====
-- How each end of a reconcile without a publish brings about the next one.
use jaas.Prelude.{
  ℕ, ◌<◌, ◌≡◌, refl, subst, Bool, true, false, Bool-cases, ◌⊎◌, inl, inr, List, [], ◌∷◌, Option,
  none, some, Result, ok, err, Bytes, ◌=?◌, if◌then◌else◌, arith,
}
use jaas.Prelude.Attempt.{◌>>=◌}
use jaas.Operator.Objects.{SourceRef, JsonnetSnippet, name_of}
use jaas.Operator.SpecChecks.{SpecFault, check_spec}
use jaas.Operator.Publisher.{PublishResult}
use jaas.Operator.Reconcile.{
  Reason, is_happy, rbac_denied, source_fetch_failed, artifact_too_large, unsafe_entry, no_files,
  bad_spec, dependency_cycle, path_matched_nothing, entry_missing, reported, Source, fetched,
  unresolved, not_yet, Evaluation, rendered_as, unavailable, eval_failed, rejected, PublishFault,
  too_large, unsafe_name, other, World, Exit, stops, retries, errors, defers, Prepared, file,
  on_fault, on_verdict, on_tenant, on_source, on_entry, on_libraries, on_evaluation, on_gate,
  on_publish, empty_reason, check_suspend, pass_spec, pass_cycle, pass_limiter, take_tenant,
  take_source, entry_of, take_entry, take_libraries, take_rendered, publish_consistency_gate,
  take_latest, prepare, keep_set, commit, reconcile_spec, finish, permanent_retry_interval,
}

-- The controller tries again: after an error, or after the time that was asked for.
abbrev pub IsComing : {E : Type 0} → Result E ℕ → Type 0
IsComing (err e) = Unit
IsComing (ok delay) = 0 < delay

-- Every exit of a stage has the property.
abbrev Exits : {E A : Type 0} → (Exit E → Type 0) → Result (Exit E) A → Type 0
Exits P (ok a) = Unit
Exits P (err x) = P x

Exits-bind :
    {E A B : Type 0} (P : Exit E → Type 0) (m : Result (Exit E) A) (f : A → Result (Exit E) B)
    → Exits P m
    → ((a : A) → Exits P (f a))
    → Exits P (m >>= f)
Exits-bind P (ok a) f h k = k a
Exits-bind P (err x) f h k = h

Exits-err :
    {E A : Type 0} (P : Exit E → Type 0) (m : Result (Exit E) A) (x : Exit E)
    → m ≡ err x
    → Exits P m
    → P x
Exits-err P (ok a) x e h = cc
Exits-err P (err y) x e h = let it : y ≡ x = cc in subst P it h

module _ {E T L : Type 0} (w : World E T L) (patch : Reason → Option E) (snip : JsonnetSnippet)
    (patient : (w.reserve (name_of snip)).0 ≡ false → 0 < (w.reserve (name_of snip)).1) where
  -- There will be another reconcile, or none is wanted.
  abbrev IsSettled : Exit E → Type 0
  IsSettled x =
      IsComing (finish w patch x)
      ⊎ ((snip.suspend ≡ true)
          ⊎ (publish_consistency_gate w (name_of snip) snip.generation ≡ ok none))

  stops-IsSettled : (reason : Reason) → is_happy reason ≡ false → IsSettled (stops reason)
  unfolding finish
  stops-IsSettled reason h = inl (told (patch reason))
    where
      told :
          (o : Option E)
          → IsComing (elim o [
            | some x ↦ err x
            | none ↦ ok (if is_happy reason then 0 else permanent_retry_interval)
          ])
      told (some x) = tt
      told none = rw h (omega arith)

  retries-IsSettled : (reason : Reason) (e : E) → IsSettled (retries reason e)
  unfolding finish
  retries-IsSettled reason e = inl (told (patch reason))
    where
      told : (o : Option E) → IsComing (elim o [ some x ↦ err x | none ↦ err e ])
      told (some x) = tt
      told none = tt

  errors-IsSettled : (e : E) → IsSettled (errors e)
  unfolding finish
  errors-IsSettled e = inl tt

  defers-IsSettled : (delay : ℕ) → 0 < delay → IsSettled (defers delay)
  unfolding finish
  defers-IsSettled delay h = inl h

  -- The class of an error of the API.
  denied-IsSettled :
      (A : Type 0) (e : E) (other_end : Exit E)
      → IsSettled other_end
      → Exits {A = A} IsSettled
          (if w.is_permanent e then err (stops rbac_denied) else err other_end)
  unfolding is_happy
  denied-IsSettled A e other_end h = elim (Bool-cases (w.is_permanent e)) [
    | inl p ↦ rw p (stops-IsSettled rbac_denied refl)
    | inr p ↦ rw p h
  ]

  prepare-Exits : Exits IsSettled (prepare w snip)
  unfolding prepare check_suspend pass_spec pass_cycle pass_limiter take_tenant take_source
      take_entry take_libraries take_rendered take_latest is_happy empty_reason
  prepare-Exits = Exits-bind IsSettled (check_suspend w snip) _ awake (λ _.
      Exits-bind IsSettled (pass_spec w snip) _ (fault (check_spec w.settings snip)) (λ _.
        Exits-bind IsSettled (pass_cycle w snip) _ (verdict (w.verdict snip)) (λ _.
          Exits-bind IsSettled (pass_limiter w snip) _ limited (λ _.
            Exits-bind IsSettled (take_tenant w snip) _ (tenant (w.tenant_client snip)) (λ t.
              Exits-bind IsSettled (take_source w t snip) _ (source (w.resolve_source t snip))
                (λ files. Exits-bind IsSettled (take_entry w snip files) _ (entry files) (λ main.
                  Exits-bind IsSettled (take_libraries w t snip) _
                    (libraries (w.resolve_libraries t snip))
                    (λ libs.
                      Exits-bind IsSettled (take_rendered w snip files main libs) _
                        (evaluation (w.evaluate snip files main libs))
                        (λ r.
                          Exits-bind IsSettled (take_latest w snip) _
                            (gate (publish_consistency_gate w (name_of snip) snip.generation) refl)
                            (λ l. tt))))))))))
    where
      awake : Exits IsSettled (check_suspend w snip)
      awake = elim (Bool-cases snip.suspend) [ inl e ↦ simp e (inr (inl refl)) | inr e ↦ simp e tt ]

      fault : (o : Option SpecFault) → Exits IsSettled (on_fault w o)
      fault none = tt
      fault (some f) = stops-IsSettled (bad_spec f) refl

      verdict : (v : Result E (Bool × Bytes)) → Exits IsSettled (on_verdict w v)
      verdict (err e) =
          denied-IsSettled (Unit {0}) e (retries source_fetch_failed e)
            (retries-IsSettled source_fetch_failed e)
      verdict (ok (true, path)) = stops-IsSettled (dependency_cycle path) refl
      verdict (ok (false, path)) = tt

      limited : Exits IsSettled (pass_limiter w snip)
      limited = elim (Bool-cases (w.reserve (name_of snip)).0) [
        | inl e ↦ rw (e, pass_limiter) tt
        | inr e ↦ rw (e, pass_limiter) (defers-IsSettled (w.reserve (name_of snip)).1 (patient e))
      ]

      tenant : (v : Result E T) → Exits IsSettled (on_tenant w v)
      tenant (ok t) = tt
      tenant (err e) = denied-IsSettled T e (errors e) (errors-IsSettled e)

      source : (s : Source E) → Exits IsSettled (on_source w s)
      source (fetched files) = tt
      source (unresolved reason) = stops-IsSettled (reported reason) refl
      source (not_yet reason e) = retries-IsSettled (reported reason) e

      emptied : (o : Option SourceRef) → IsSettled (stops (empty_reason w o))
      emptied none = stops-IsSettled no_files refl
      emptied (some ref) = elim (Bool-cases (ref.path =? [])) [
        | inl e ↦ rw e (stops-IsSettled no_files refl)
        | inr e ↦ rw e (stops-IsSettled (path_matched_nothing ref.path) refl)
      ]

      named : (o : Option Bytes) → Exits IsSettled (on_entry w (entry_of w snip) o)
      named none = stops-IsSettled (entry_missing (entry_of w snip)) refl
      named (some b) = tt

      entry : (files : List (Bytes × Bytes)) → Exits IsSettled (take_entry w snip files)
      entry [] = emptied snip.source_ref
      entry (f ∷ files) = named (file (entry_of w snip) (f ∷ files))

      libraries :
          (v : Result E (Result Bytes (List (Bytes × L)))) → Exits IsSettled (on_libraries w v)
      libraries (err e) = retries-IsSettled (reported (w.classify_fetch_error e)) e
      libraries (ok (err reason)) = stops-IsSettled (reported reason) refl
      libraries (ok (ok libs)) = tt

      evaluation : (v : Evaluation E) → Exits IsSettled (on_evaluation w v)
      evaluation (rendered_as r) = tt
      evaluation unavailable = defers-IsSettled 1 (omega arith)
      evaluation (eval_failed e) = errors-IsSettled e
      evaluation (rejected reason) = stops-IsSettled (reported reason) refl

      gate :
          (v : Result E (Option JsonnetSnippet))
          → publish_consistency_gate w (name_of snip) snip.generation ≡ v
          → Exits IsSettled (on_gate w v)
      gate (err e) k = errors-IsSettled e
      gate (ok none) k = inr (inr k)
      gate (ok (some latest)) k = tt

  commit-Exits : (p : Prepared T) → Exits IsSettled (commit w snip p)
  unfolding commit is_happy
  commit-Exits p = told (w.publish p.tenant snip p.rendered p.files (keep_set w p))
    where
      told : (v : Result (PublishFault E) PublishResult) → Exits IsSettled (on_publish w v)
      told (ok r) = tt
      told (err too_large) = stops-IsSettled artifact_too_large refl
      told (err unsafe_name) = stops-IsSettled unsafe_entry refl
      told (err (other e)) = denied-IsSettled PublishResult e (errors e) (errors-IsSettled e)

  -- A reconcile that publishes nothing brings about the next one: it ends with an error, after which the
  -- controller backs off and tries again, or with a time greater than zero after which it does, even where
  -- the write of the status fails; unless the snippet is suspended, or the gate before the publish found it
  -- gone or changed, which is an event of its own. The hypothesis is that the rate limiter asks for a time
  -- greater than zero where it refuses.
  pub reconcile_spec-IsComing :
      (x : Exit E)
      → reconcile_spec w snip ≡ err x
      → IsComing (finish w patch x)
        ⊎ ((snip.suspend ≡ true)
            ⊎ (publish_consistency_gate w (name_of snip) snip.generation ≡ ok none))
  unfolding reconcile_spec
  reconcile_spec-IsComing x h = Exits-err IsSettled (reconcile_spec w snip) x h (
      Exits-bind IsSettled (prepare w snip) _ prepare-Exits
        (λ p. Exits-bind IsSettled (commit w snip p) _ (commit-Exits p) (λ r. tt)))
