-- ===== src/Operator/Reconcile/Gate.antt =====
-- What reaches the publish of a reconcile, and with what.
use jaas.Prelude.{
  ℕ, ◌≡◌, refl, sym, ap, ◌∙◌, subst, Bool, true, false, Bool-cases, not, inl, inr, ◌↔◌, List, [],
  ◌∷◌, Option, none, some, Result, ok, err, Bytes, ◌==◌, if◌then◌else◌, arith,
}
use jaas.Prelude.Attempt.{bind_ok}
use jaas.Operator.Objects.{JsonnetSnippet, name_of}
use jaas.Operator.SpecChecks.{SpecFault, check_spec}
use jaas.Operator.Revisions.{build_keep_revisions}
use jaas.Operator.Publisher.{PublishResult, sha256_content_hash}
use jaas.Operator.Reconcile.{
  Source, fetched, unresolved, not_yet, Evaluation, rendered_as, unavailable, eval_failed, rejected,
  PublishFault, too_large, unsafe_name, other, World, Exit, defers, Prepared, file, on_fault,
  on_verdict, on_tenant, on_source, on_entry, on_libraries, on_evaluation, if_current, on_gate,
  on_publish, check_suspend, pass_spec, pass_cycle, pass_limiter, take_tenant, take_source,
  entry_of, take_entry, take_libraries, take_rendered, publish_consistency_gate, take_latest,
  prepare, keep_set, commit, reconcile_spec,
}

module _ {E T L : Type 0} (w : World E T L) (snip : JsonnetSnippet) where
  no :
      {A : Type 0} {x : Exit E} {a : A} {P : Type 0}
      → ◌≡◌ {A = Result (Exit E) A} (err x) (ok a)
      → P
  no k = cc

  same : {A : Type 0} {a b : A} → ◌≡◌ {A = Result (Exit E) A} (ok a) (ok b) → a ≡ b
  same k = cc

  clash : {a : Bytes} {P : Type 0} → none ≡ some a → P
  clash k = cc

  suspend_iff : (check_suspend w snip ≡ ok tt) ↔ (snip.suspend ≡ false)
  unfolding check_suspend
  suspend_iff = elim (Bool-cases snip.suspend) [
    | inl e ↦ (λ h. no (simp e at h), λ h. let bad : true ≡ false = sym e ∙ h in cc)
    | inr e ↦ (λ h. e, λ h. simp e refl)
  ]

  spec_iff : (pass_spec w snip ≡ ok tt) ↔ (check_spec w.settings snip ≡ none)
  unfolding pass_spec
  spec_iff = (λ h. told (check_spec w.settings snip) h, λ h. ap (on_fault w) h)
    where
      told : (o : Option SpecFault) → on_fault w o ≡ ok tt → o ≡ none
      told none k = refl
      told (some f) k = no k

  cycle_iff : (pass_cycle w snip ≡ ok tt) ↔ ((path : Bytes) × (w.verdict snip ≡ ok (false, path)))
  unfolding pass_cycle
  cycle_iff = (λ h. told (w.verdict snip) h, λ h. ap (on_verdict w) h.1)
    where
      told :
          (v : Result E (Bool × Bytes))
          → on_verdict w v ≡ ok tt
          → (path : Bytes) × (v ≡ ok (false, path))
      told (err e) k = elim (Bool-cases (w.is_permanent e)) [
        | inl p ↦ no (rw p at k)
        | inr p ↦ no (rw p at k)
      ]
      told (ok (true, path)) k = no k
      told (ok (false, path)) k = (path, refl)

  limiter_iff : (pass_limiter w snip ≡ ok tt) ↔ ((w.reserve (name_of snip)).0 ≡ true)
  unfolding pass_limiter
  limiter_iff = (λ h. told (w.reserve (name_of snip)).0 h, λ h. rw (h, pass_limiter) refl)
    where
      told :
          (b : Bool)
          → ◌≡◌ {A = Result (Exit E) (Unit {0})}
              (if b then ok tt else err (defers (w.reserve (name_of snip)).1))
              (ok tt)
          → b ≡ true
      told true k = refl
      told false k = no k

  tenant_iff : (t : T) → (take_tenant w snip ≡ ok t) ↔ (w.tenant_client snip ≡ ok t)
  unfolding take_tenant
  tenant_iff t = (λ h. told (w.tenant_client snip) h, λ h. ap (on_tenant w) h)
    where
      told : (v : Result E T) → on_tenant w v ≡ ok t → v ≡ ok t
      told (ok u) k = ap ok (same k)
      told (err e) k = elim (Bool-cases (w.is_permanent e)) [
        | inl p ↦ no (rw p at k)
        | inr p ↦ no (rw p at k)
      ]

  source_iff :
      (t : T) (files : List (Bytes × Bytes))
      → (take_source w t snip ≡ ok files) ↔ (w.resolve_source t snip ≡ fetched files)
  unfolding take_source
  source_iff t files = (λ h. told (w.resolve_source t snip) h, λ h. ap (on_source w) h)
    where
      told : (s : Source E) → on_source w s ≡ ok files → s ≡ fetched files
      told (fetched fs) k = ap fetched (same k)
      told (unresolved reason) k = no k
      told (not_yet reason e) k = no k

  entry_iff :
      (files : List (Bytes × Bytes)) (body : Bytes)
      → (take_entry w snip files ≡ ok body) ↔ (file (entry_of w snip) files ≡ some body)
  unfolding take_entry file
  entry_iff files body = (λ h. told files h, λ h. found files h)
    where
      shown : (o : Option Bytes) → on_entry w (entry_of w snip) o ≡ ok body → o ≡ some body
      shown none k = no k
      shown (some b) k = ap some (same k)

      told :
          (fs : List (Bytes × Bytes))
          → take_entry w snip fs ≡ ok body
          → file (entry_of w snip) fs ≡ some body
      told [] k = no k
      told (f ∷ fs) k = shown (file (entry_of w snip) (f ∷ fs)) k

      nothing : {P : Type 0} → file (entry_of w snip) [] ≡ some body → P
      nothing k = clash k

      found :
          (fs : List (Bytes × Bytes))
          → file (entry_of w snip) fs ≡ some body
          → take_entry w snip fs ≡ ok body
      found [] k = nothing k
      found (f ∷ fs) k = ap (on_entry w (entry_of w snip)) k

  libraries_iff :
      (t : T) (libs : List (Bytes × L))
      → (take_libraries w t snip ≡ ok libs) ↔ (w.resolve_libraries t snip ≡ ok (ok libs))
  unfolding take_libraries
  libraries_iff t libs = (λ h. told (w.resolve_libraries t snip) h, λ h. ap (on_libraries w) h)
    where
      told :
          (s : Result E (Result Bytes (List (Bytes × L))))
          → on_libraries w s ≡ ok libs
          → s ≡ ok (ok libs)
      told (err e) k = no k
      told (ok (err reason)) k = no k
      told (ok (ok ls)) k = ap (λ x. ok (ok x)) (same k)

  rendered_iff :
      (files : List (Bytes × Bytes)) (main : Bytes) (libs : List (Bytes × L)) (r : Bytes)
      → (take_rendered w snip files main libs ≡ ok r)
        ↔ (w.evaluate snip files main libs ≡ rendered_as r)
  unfolding take_rendered
  rendered_iff files main libs r =
      (λ h. told (w.evaluate snip files main libs) h, λ h. ap (on_evaluation w) h)
    where
      told : (s : Evaluation E) → on_evaluation w s ≡ ok r → s ≡ rendered_as r
      told (rendered_as x) k = ap rendered_as (same k)
      told unavailable k = no k
      told (eval_failed e) k = no k
      told (rejected reason) k = no k

  -- The fresh object is the one that was read last, at the generation of the snippet.
  latest_iff :
      (latest : JsonnetSnippet)
      → (take_latest w snip ≡ ok latest)
        ↔ ((w.get_latest (name_of snip) ≡ ok (some latest)) × (latest.generation ≡ snip.generation))
  unfolding take_latest publish_consistency_gate
  latest_iff latest = (
    λ h. told (w.get_latest (name_of snip)) h,
    λ h. ap (λ o. on_gate w (if_current w snip.generation o)) h.0 ∙ passes latest.generation h.1,
  )
    where
      met : (g : ℕ) → (g == snip.generation) ≡ true → g ≡ snip.generation
      met g e = ground arith

      passes :
          (g : ℕ)
          → g ≡ snip.generation
          → on_gate w (if not (g == snip.generation) then ok none else ok (some latest)) ≡ ok latest
      passes g e = let at : (g == snip.generation) ≡ true = ground arith in rw at refl

      told :
          (s : Result E (Option JsonnetSnippet))
          → on_gate w (if_current w snip.generation s) ≡ ok latest
          → (s ≡ ok (some latest)) × (latest.generation ≡ snip.generation)
      told (err e) k = no k
      told (ok none) k = no k
      told (ok (some l)) k = elim (Bool-cases (l.generation == snip.generation)) [
        | inl e ↦
            let it : l ≡ latest = same (simp e at k) in
            (
              ap (λ x. ok (some x)) it,
              subst (λ x. x.generation ≡ snip.generation) it (met l.generation e),
            )
        | inr e ↦ no (simp e at k)
      ]

  commit_iff :
      (p : Prepared T) (r : PublishResult)
      → (commit w snip p ≡ ok r)
        ↔ (w.publish p.tenant snip p.rendered p.files (keep_set w p) ≡ ok r)
  unfolding commit
  commit_iff p r = (
    λ h. told (w.publish p.tenant snip p.rendered p.files (keep_set w p)) h,
    λ h. ap (on_publish w) h,
  )
    where
      told : (s : Result (PublishFault E) PublishResult) → on_publish w s ≡ ok r → s ≡ ok r
      told (ok x) k = ap ok (same k)
      told (err too_large) k = no k
      told (err unsafe_name) k = no k
      told (err (other e)) k = elim (Bool-cases (w.is_permanent e)) [
        | inl p ↦ no (rw p at k)
        | inr p ↦ no (rw p at k)
      ]

  -- What a reconcile has established when it has published `r` from `p`.
  pub record IsGated (p : Prepared T) (r : PublishResult) : Type 0 where
    pub awake : snip.suspend ≡ false
    pub sound : check_spec w.settings snip ≡ none
    pub path : Bytes
    pub acyclic : w.verdict snip ≡ ok (false, path)
    pub allowed : (w.reserve (name_of snip)).0 ≡ true
    pub client : w.tenant_client snip ≡ ok p.tenant
    pub sourced : w.resolve_source p.tenant snip ≡ fetched p.files
    pub main : Bytes
    pub entry : file (entry_of w snip) p.files ≡ some main
    pub libs : List (Bytes × L)
    pub linked : w.resolve_libraries p.tenant snip ≡ ok (ok libs)
    pub evaluated : w.evaluate snip p.files main libs ≡ rendered_as p.rendered
    pub fresh : w.get_latest (name_of snip) ≡ ok (some p.latest)
    pub current : p.latest.generation ≡ snip.generation
    pub published :
        w.publish p.tenant snip p.rendered p.files (
          build_keep_revisions
            (sha256_content_hash w.hex_sha256 p.rendered)
            p.latest.status_history
            p.latest.history)
        ≡ ok r

  prepare-IsGated :
      (p : Prepared T) (r : PublishResult)
      → prepare w snip ≡ ok p
      → w.publish p.tenant snip p.rendered p.files (keep_set w p) ≡ ok r
      → IsGated p r
  unfolding prepare keep_set
  prepare-IsGated p r h published =
      let (_, a, h1) = bind_ok (check_suspend w snip) _ h in
      let (_, b, h2) = bind_ok (pass_spec w snip) _ h1 in
      let (_, c, h3) = bind_ok (pass_cycle w snip) _ h2 in
      let (_, d, h4) = bind_ok (pass_limiter w snip) _ h3 in
      let (t, e, h5) = bind_ok (take_tenant w snip) _ h4 in
      let (files, f, h6) = bind_ok (take_source w t snip) _ h5 in
      let (main, g, h7) = bind_ok (take_entry w snip files) _ h6 in
      let (libs, i, h8) = bind_ok (take_libraries w t snip) _ h7 in
      let (rendered, j, h9) = bind_ok (take_rendered w snip files main libs) _ h8 in
      let (latest, k, last) = bind_ok (take_latest w snip) _ h9 in
      let it : record { tenant = t; files = files; rendered = rendered; latest = latest } ≡ p =
        same last in
      gather a b c d (subst (λ x. take_tenant w snip ≡ ok x.tenant) it e)
        (subst (λ x. take_source w x.tenant snip ≡ ok x.files) it f) main
        (subst (λ x. take_entry w snip x.files ≡ ok main) it g) libs
        (subst (λ x. take_libraries w x.tenant snip ≡ ok libs) it i)
        (subst (λ x. take_rendered w snip x.files main libs ≡ ok x.rendered) it j)
        (subst (λ x. take_latest w snip ≡ ok x.latest) it k)
    where
      gather :
          check_suspend w snip ≡ ok tt
          → pass_spec w snip ≡ ok tt
          → pass_cycle w snip ≡ ok tt
          → pass_limiter w snip ≡ ok tt
          → take_tenant w snip ≡ ok p.tenant
          → take_source w p.tenant snip ≡ ok p.files
          → (main : Bytes) → take_entry w snip p.files ≡ ok main
          → (libs : List (Bytes × L)) → take_libraries w p.tenant snip ≡ ok libs
          → take_rendered w snip p.files main libs ≡ ok p.rendered
          → take_latest w snip ≡ ok p.latest
          → IsGated p r
      gather a b c d e f main g libs i j k = record {
        awake = suspend_iff.0 a;
        sound = spec_iff.0 b;
        path = (cycle_iff.0 c).0;
        acyclic = (cycle_iff.0 c).1;
        allowed = limiter_iff.0 d;
        client = (tenant_iff p.tenant).0 e;
        sourced = (source_iff p.tenant p.files).0 f;
        main = main;
        entry = (entry_iff p.files main).0 g;
        libs = libs;
        linked = (libraries_iff p.tenant libs).0 i;
        evaluated = (rendered_iff p.files main libs p.rendered).0 j;
        fresh = ((latest_iff p.latest).0 k).0;
        current = ((latest_iff p.latest).0 k).1;
        published = published;
      }

  IsGated-prepare : (p : Prepared T) (r : PublishResult) → IsGated p r → prepare w snip ≡ ok p
  unfolding prepare
  IsGated-prepare p r g =
      rw
        (
          suspend_iff.1 g.awake,
          spec_iff.1 g.sound,
          cycle_iff.1 (g.path, g.acyclic),
          limiter_iff.1 g.allowed,
          (tenant_iff p.tenant).1 g.client,
          (source_iff p.tenant p.files).1 g.sourced,
          (entry_iff p.files g.main).1 g.entry,
          (libraries_iff p.tenant g.libs).1 g.linked,
          (rendered_iff p.files g.main g.libs p.rendered).1 g.evaluated,
          (latest_iff p.latest).1 (g.fresh, g.current),
        )
        refl

  -- A reconcile publishes exactly when nothing before the publish objects: the snippet is not suspended, the
  -- checks of its spec pass, the cycle verdict is that there is none, the rate limiter lets it through, the
  -- source resolves to files that hold the entry file, the libraries resolve, the evaluation of that file
  -- with them succeeds, and the snippet that was read anew just before is still at the generation of the
  -- one that was rendered; and the publish succeeds, of those files and that output, with the keep-set that
  -- buildKeepRevisions gives for the history that was read anew.
  pub reconcile_spec_iff :
      (p : Prepared T) (r : PublishResult) → (reconcile_spec w snip ≡ ok (p, r)) ↔ IsGated p r
  unfolding reconcile_spec keep_set
  reconcile_spec_iff p r =
      (down, λ g. rw (IsGated-prepare p r g, (commit_iff p r).1 g.published) refl)
    where
      down : reconcile_spec w snip ≡ ok (p, r) → IsGated p r
      down h =
          let (p', a, h1) = bind_ok (prepare w snip) _ h in
          let (r', b, last) = bind_ok (commit w snip p') _ h1 in
          let it : (p', r') ≡ (p, r) = same last in
          prepare-IsGated p r (subst (λ x. prepare w snip ≡ ok x.0) it a)
            ((commit_iff p r).0 (subst (λ x. commit w snip x.0 ≡ ok x.1) it b))
