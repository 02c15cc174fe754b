-- ===== src/Exec/Evidence.antt =====
-- What the attempts that `ResilientExecutionService._execute` of
-- packages/gateway-core/src/governed_llm_gateway_core/application/resilience.py reports say of the
-- provider calls that it made.
use governed_llm_gateway.Base.{
  ℕ, ◌≡◌, refl, ap, sym, subst, ◌∙◌, ◌⊎◌, inl, inr, Bool-cases, true, Option, none, some, List, [],
  ◌∷◌, ◌++◌, arith, Result, ok, raised, All, All-append, Text, map,
}
use governed_llm_gateway.Health.{HealthAdmission, ProviderError, is_transient_provider_error}
use governed_llm_gateway.Exec.{
  Exception, provider_error, ExecutionAttempt, latency_ms_of, succeeded, transient_failure,
  circuit_open,
}
use governed_llm_gateway.Exec.Service.{
  Progress, Run, after, dispatch, admit, begun, call, Next, finished, retries, falls_back,
  check_deadline, health_admission_scope, release_after, skip, success, failure, delay_if,
  latency_since, Execution, generate, call_provider, can_retry, note_failure, handle_failure,
  handle_success, admitted_attempt, attempt, ResilientExecutionResult,
}
use governed_llm_gateway.Routing.{ModelDeployment}

-- The deployments of the attempts that reached a provider.
unfoldable pub called : List ExecutionAttempt → List Text
called [] = []
called (a ∷ rest) = elim a.outcome [
  | circuit_open ↦ called rest
  | _ ↦ a.deployment_id ∷ called rest
]

-- After this outcome another attempt may follow.
abbrev pub IsReplayable : ExecutionAttempt → Type 0
IsReplayable a = (a.outcome ≡ transient_failure) ⊎ (a.outcome ≡ circuit_open)

module _ {S R : Type 0} (x : Execution S R) where
  -- The attempts account for the calls, and each of them may be followed by another.
  pub record IsAccounted (s : Progress S) : Type 0 where
    pub calls : map (λ d. d.deployment_id) s.calls ≡ called s.attempts
    pub replayable : All IsReplayable s.attempts

  -- The attempts of a result: each one before the last may be followed by another, the last one
  -- succeeded on the deployment of the result, and they account for the provider calls.
  abbrev pub IsServed : ResilientExecutionResult R → Progress S → Type 0
  IsServed r s =
      (earlier : List ExecutionAttempt) × (last : ExecutionAttempt) × (r.attempts
        ≡ earlier ++ last ∷ [])
      × All IsReplayable earlier
      × (last.outcome ≡ succeeded)
      × (last.deployment_id ≡ r.deployment.deployment_id)
      × (map (λ d. d.deployment_id) s.calls ≡ called r.attempts)

  -- What an attempt leaves.
  abbrev pub Leaves : Result Exception (Next R) → Progress S → Type 0
  Leaves (ok (finished r)) s = IsServed r s
  Leaves (ok n) s = IsAccounted s
  Leaves (raised e) s = Unit

  called-snoc :
      (xs : List ExecutionAttempt) (a : ExecutionAttempt)
      → called (xs ++ a ∷ []) ≡ called xs ++ called (a ∷ [])
  unfolding called
  called-snoc [] a = refl
  called-snoc (b ∷ xs) a = ground (arith, called-snoc xs a)

  map-snoc :
      (ds : List ModelDeployment) (d : ModelDeployment)
      → map (λ d. d.deployment_id) (ds ++ d ∷ [])
        ≡ map (λ d. d.deployment_id) ds ++ d.deployment_id ∷ []
  map-snoc [] d = refl
  map-snoc (b ∷ ds) d = ap (λ l. b.deployment_id ∷ l) (map-snoc ds d)

  -- A call of the provider that ended in this is noted.
  abbrev Notes : ModelDeployment → Progress S → Result Exception R → Progress S → Type 0
  Notes d s (ok y) t = (t.attempts ≡ s.attempts) × (t.calls ≡ s.calls ++ d ∷ [])
  Notes d s (raised (provider_error e)) t =
      (t.attempts ≡ s.attempts) × (t.calls ≡ s.calls ++ d ∷ [])
  Notes d s (raised e) t = Unit

  call_provider-Notes :
      (a : HealthAdmission) (d : ModelDeployment) (started : ℕ) (s : Progress S)
      → Notes d s (call_provider x a d started s).0 (call_provider x a d started s).1
  unfolding call_provider generate check_deadline
  call_provider-Notes a d started s = ground arith

  -- One more attempt, which reached a provider, accounts for one more call.
  one_more :
      (s : Progress S) (d : ModelDeployment) (a : ExecutionAttempt)
      (attempts : List ExecutionAttempt) (calls : List ModelDeployment)
      → IsAccounted s
      → attempts ≡ s.attempts
      → calls ≡ s.calls ++ d ∷ []
      → called (a ∷ []) ≡ d.deployment_id ∷ []
      → map (λ d. d.deployment_id) calls ≡ called (attempts ++ a ∷ [])
  one_more s d a attempts calls i ea ec e =
      rw (ea, ec, map-snoc s.calls d, called-snoc s.attempts a, i.calls, e) refl

  abbrev pub Same : Progress S → Progress S → Type 0
  Same t u = (u.attempts ≡ t.attempts) × (u.calls ≡ t.calls)

  after-Leaves {ℓ} :
      {A : Type ℓ} (f : A → Run S (Next R)) (t : Progress S) (q : Result Exception A × Progress S)
      → Same t q.1
      → ((a : A) (u : Progress S) → Same t u → Leaves (f a u).0 (f a u).1)
      → Leaves (after f q).0 (after f q).1
  after-Leaves f t (ok a, u) same k = k a u same
  after-Leaves f t (raised e, u) same k = tt

  pub IsAccounted-Same : (t u : Progress S) → Same t u → IsAccounted t → IsAccounted u
  IsAccounted-Same t u h i = record {
    calls = ap (map (λ d. d.deployment_id)) h.1 ∙ i.calls ∙ ap called (sym h.0);
    replayable = subst (All IsReplayable) (sym h.0) i.replayable;
  }

  append-nil : (xs : List Text) → xs ++ [] ≡ xs
  append-nil [] = refl
  append-nil (y ∷ xs) = ap (λ l. y ∷ l) (append-nil xs)

  pub check_deadline-Same :
      (t u : Progress S) → Same t u → Same t (check_deadline x.ports x.deadline u).1
  unfolding check_deadline
  check_deadline-Same t u h = ground arith

  can_retry-Same :
      (d : ModelDeployment) (n : ℕ) (e : ProviderError) (t u : Progress S)
      → Same t u
      → Same t (can_retry x d n e u).1
  unfolding can_retry
  can_retry-Same d n e t u h = ground arith

  noted_failure-IsAccounted :
      (d : ModelDeployment) (n latency_ms : ℕ) (e : ProviderError) (delay : Option ℕ)
      (s t : Progress S)
      → IsAccounted s
      → (t.attempts ≡ s.attempts) × (t.calls ≡ s.calls ++ d ∷ [])
      → is_transient_provider_error e ≡ true
      → IsAccounted (record t {
        attempts = t.attempts ++ failure x d n latency_ms e delay ∷ [];
        last_error_code = some e.code;
      })
  unfolding called
  noted_failure-IsAccounted d n latency_ms e delay s t i h transient = record {
    calls =
        one_more s d (failure x d n latency_ms e delay) t.attempts t.calls i h.0 h.1
          (rw transient refl);
    replayable =
        All-append IsReplayable t.attempts _ (subst (All IsReplayable) (sym h.0) i.replayable)
          (inl (rw transient refl), tt);
  }

  note_failure-Leaves :
      (d : ModelDeployment) (n latency_ms : ℕ) (e : ProviderError) (delay : Option ℕ)
      (s t : Progress S)
      → IsAccounted s
      → (t.attempts ≡ s.attempts) × (t.calls ≡ s.calls ++ d ∷ [])
      → Leaves
          (note_failure x d n latency_ms e delay t).0
          (note_failure x d n latency_ms e delay t).1
  unfolding note_failure
  note_failure-Leaves d n latency_ms e none s t i h =
      elim (Bool-cases (is_transient_provider_error e)) [
        | inl transient ↦
            (let kept = noted_failure-IsAccounted d n latency_ms e none s t i h transient in
              rw transient (rw transient at kept))
        | inr permanent ↦ rw permanent tt
      ]
  note_failure-Leaves d n latency_ms e (some delay) s t i h =
      elim (Bool-cases (is_transient_provider_error e)) [
        | inl transient ↦
            (let kept = noted_failure-IsAccounted d n latency_ms e (some delay) s t i h transient in
              rw transient (rw transient at kept))
        | inr permanent ↦ rw permanent tt
      ]

  handle_failure-Leaves :
      (a : HealthAdmission) (d : ModelDeployment) (n started : ℕ) (e : ProviderError)
      (s t : Progress S)
      → IsAccounted s
      → (t.attempts ≡ s.attempts) × (t.calls ≡ s.calls ++ d ∷ [])
      → Leaves (handle_failure x a d n started e t).0 (handle_failure x a d n started e t).1
  unfolding handle_failure
  handle_failure-Leaves a d n started e s t i h =
      after-Leaves _ t (check_deadline x.ports x.deadline t) (check_deadline-Same t t (refl, refl))
        (λ u t1 h1. after-Leaves _ t (latency_since x.ports started t1) h1 (λ latency_ms t2 h2.
          after-Leaves _ t (call (x.ports.record_failure d.deployment_id e latency_ms a) t2) h2
            (λ u t3 h3.
              after-Leaves _ t (can_retry x d n e t3) (can_retry-Same d n e t t3 h3) (λ retry t4 h4.
                note_failure-Leaves d n latency_ms e (delay_if x retry d n e) s t4 i
                  (h4.0 ∙ h.0, h4.1 ∙ h.1)))))

  handle_success-Leaves :
      (d : ModelDeployment) (n started : ℕ) (response : R) (s t : Progress S)
      → IsAccounted s
      → (t.attempts ≡ s.attempts) × (t.calls ≡ s.calls ++ d ∷ [])
      → Leaves
          (handle_success x d n started response t).0
          (handle_success x d n started response t).1
  unfolding handle_success called
  handle_success-Leaves d n started response s t i h =
      let last =
        success x d n (latency_ms_of x.ports.ticks_per_second started (x.ports.clock t.ports).0) in
      (
        s.attempts,
        last,
        rw h.0 refl,
        i.replayable,
        refl,
        refl,
        one_more s d last t.attempts t.calls i h.0 h.1 refl,
      )

  dispatch-Leaves :
      (a : HealthAdmission) (d : ModelDeployment) (n started : ℕ) (s : Progress S)
      (q : Result Exception R × Progress S)
      → IsAccounted s
      → Notes d s q.0 q.1
      → let z = dispatch (handle_failure x a d n started) (handle_success x d n started) q in
        Leaves z.0 z.1
  dispatch-Leaves a d n started s (ok y, t) i h = handle_success-Leaves d n started y s t i h
  dispatch-Leaves a d n started s (raised (provider_error e), t) i h =
      handle_failure-Leaves a d n started e s t i h
  dispatch-Leaves a d n started s (raised e, t) i h = tt

  released-Leaves :
      (r : Result Exception (Next R)) (u : Result Exception (Unit {0})) (t t' : Progress S)
      → Same t t'
      → Leaves r t
      → Leaves (release_after r u) t'
  released-Leaves (raised e) (ok u) t t' h l = tt
  released-Leaves (raised e) (raised y) t t' h l = tt
  released-Leaves (ok r) (raised y) t t' h l = tt
  released-Leaves (ok (finished r)) (ok u) t t' h l =
      let (earlier, last, is, before, won, own, count) = l in
      (earlier, last, is, before, won, own, ap (map (λ d. d.deployment_id)) h.1 ∙ count)
  released-Leaves (ok falls_back) (ok u) t t' h l = IsAccounted-Same t t' h l
  released-Leaves (ok (retries delay)) (ok u) t t' h l = IsAccounted-Same t t' h l

  admitted_attempt-Leaves :
      (a : HealthAdmission) (d : ModelDeployment) (n : ℕ) (s : Progress S)
      → IsAccounted s
      → Leaves (admitted_attempt x a d n s).0 (admitted_attempt x a d n s).1
  unfolding admitted_attempt health_admission_scope
  admitted_attempt-Leaves a d n s i =
      let started = (x.ports.clock s.ports).0 in
      let b = begun x a d n s in
      released-Leaves _ _ _ _ (refl, refl)
        (dispatch-Leaves a d n started b (call_provider x a d started b)
          (IsAccounted-Same s b (refl, refl) i) (call_provider-Notes a d started b))

  admit-Leaves :
      (d : ModelDeployment) (n : ℕ) (admission : Option HealthAdmission) (s : Progress S)
      → IsAccounted s
      → Leaves (admit x d n admission s).0 (admit x d n admission s).1
  unfolding called
  admit-Leaves d n none s i = record {
    calls = i.calls ∙ sym (called-snoc s.attempts (skip x d n) ∙ append-nil (called s.attempts));
    replayable = All-append IsReplayable s.attempts _ i.replayable (inr refl, tt);
  }
  admit-Leaves d n (some a) s i = admitted_attempt-Leaves a d n s i

  pub attempt-Leaves :
      (d : ModelDeployment) (n : ℕ) (s : Progress S)
      → IsAccounted s
      → Leaves (attempt x d n s).0 (attempt x d n s).1
  unfolding attempt
  attempt-Leaves d n s i =
      after-Leaves _ s (check_deadline x.ports x.deadline s) (check_deadline-Same s s (refl, refl))
        (λ u t1 h1. after-Leaves _ s (call (x.ports.resolve d) t1) h1 (λ u t2 h2.
          after-Leaves _ s (call (x.ports.allow_request d.deployment_id) t2) h2
            (λ admission t3 h3. admit-Leaves d n admission t3 (IsAccounted-Same s t3 h3 i))))
