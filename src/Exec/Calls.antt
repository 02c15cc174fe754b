-- ===== src/Exec/Calls.antt =====
-- The provider calls of `ResilientExecutionService._execute` of
-- packages/gateway-core/src/governed_llm_gateway_core/application/resilience.py: how many there
-- are, and for which deployments, whatever the ports do.
use native.Mathlib.Nat.{mul-le-mul_right}
use mathlib.Core.List.{Mem, mem-map_of_mem, mem-cons_self, mem-cons_of_mem}
use governed_llm_gateway.Base.{
  ℕ, zero, suc, ◌+◌, ◌*◌, ◌≤◌, ◌≡◌, refl, subst, sym, map, Bool, true, false, Option, none, some,
  List, [], ◌∷◌, ◌++◌, arith, length, length-take-le, All, All-append, Bool-cases, inl, inr,
  Text-discrete, same-true, Result, ok, raised,
}
use governed_llm_gateway.Health.{HealthAdmission, ProviderError}
use governed_llm_gateway.Exec.{
  Exception, provider_error, FallbackSafetyState, automatic_replay_allowed,
}
use governed_llm_gateway.Exec.Service.{
  Progress, Run, ◌>>=◌, after, dispatch, delay_if, execute_selected, accepted, admit, call, Next,
  finished, retries, falls_back, check_deadline, latency_since, health_admission_scope, Execution,
  generate, call_provider, can_retry, note_failure, handle_failure, handle_success,
  admitted_attempt, attempt, continue_with, try_deployment, or_else, try_candidates, all_validated,
  bounded_candidates, execute, started_from, ResilientExecutionResult,
}
use governed_llm_gateway.Routing.{ModelDeployment}
use governed_llm_gateway.Routing.Ranking.{RankedCandidate}

module _ {S R : Type 0} (x : Execution S R) (P : ModelDeployment → Type 0) where
  -- At most `k` calls are made on the way, and for deployments with the property.
  abbrev Reaches : ℕ → Progress S → Progress S → Type 0
  Reaches k s t = (length t.calls ≤ length s.calls + k) × (All P s.calls → All P t.calls)

  record Calls {ℓ} {A : Type ℓ} (k : ℕ) (m : Run S A) : Type 0 where
    reach : (s : Progress S) → Reaches k s (m s).1

  Reaches-trans :
      (j k : ℕ) (s t u : Progress S) → Reaches j s t → Reaches k t u → Reaches (j + k) s u
  Reaches-trans j k s t u (a, f) (b, g) = (omega arith, λ h. g (f h))

  after-Reaches {ℓ κ} :
      {A : Type ℓ} {B : Type κ} (j k : ℕ) (f : A → Run S B) (s : Progress S)
      (q : Result Exception A × Progress S)
      → ((a : A) → Calls k (f a))
      → Reaches j s q.1
      → Reaches (j + k) s (after f q).1
  after-Reaches j k f s (ok a, t) hf r = Reaches-trans j k s t (f a t).1 r ((hf a).reach t)
  after-Reaches j k f s (raised e, t) hf r = Reaches-trans j k s t t r (omega arith, λ h. h)

  bind-Calls {ℓ κ} :
      {A : Type ℓ} {B : Type κ} (j k : ℕ) (m : Run S A) (f : A → Run S B)
      → Calls j m
      → ((a : A) → Calls k (f a))
      → Calls (j + k) (m >>= f)
  bind-Calls j k m f hm hf = record { reach = λ s. after-Reaches j k f s (m s) hf (hm.reach s) }

  dispatch-Reaches {ℓ κ} :
      {A : Type ℓ} {B : Type κ} (j k : ℕ) (handler : ProviderError → Run S B) (f : A → Run S B)
      (s : Progress S) (q : Result Exception A × Progress S)
      → ((e : ProviderError) → Calls k (handler e))
      → ((a : A) → Calls k (f a))
      → Reaches j s q.1
      → Reaches (j + k) s (dispatch handler f q).1
  dispatch-Reaches j k handler f s (ok a, t) hh hf r =
      Reaches-trans j k s t (f a t).1 r ((hf a).reach t)
  dispatch-Reaches j k handler f s (raised (provider_error e), t) hh hf r =
      Reaches-trans j k s t (handler e t).1 r ((hh e).reach t)
  dispatch-Reaches j k handler f s (raised e, t) hh hf r =
      Reaches-trans j k s t t r (omega arith, λ h. h)

  recount {ℓ} : {A : Type ℓ} {j k : ℕ} {m : Run S A} → j ≡ k → Calls j m → Calls k m
  recount {m = m} e h = record { reach = λ s. rw (← e) (h.reach s) }

  suc_mul : (n m : ℕ) → m + n * m ≡ suc n * m
  suc_mul n m = ground arith

  check_deadline-Calls : Calls 0 (check_deadline x.ports x.deadline)
  unfolding check_deadline
  check_deadline-Calls = record { reach = λ s. ground arith }

  call-Calls {ℓ} : {A : Type ℓ} (f : S → Result Exception A × S) → Calls 0 (call f)
  call-Calls f = record { reach = λ s. ground arith }

  length-snoc {ℓ} : {A : Type ℓ} (xs : List A) (a : A) → length (xs ++ a ∷ []) ≡ suc (length xs)
  length-snoc [] a = refl
  length-snoc (y ∷ xs) a = ground (arith, length-snoc xs a)

  generate-Calls : (a : HealthAdmission) (d : ModelDeployment) → P d → Calls 1 (generate x a d)
  unfolding generate
  generate-Calls a d pd = record {
    reach = λ s. (ground (arith, length-snoc s.calls d), λ h. All-append _ _ _ h (pd, tt));
  }

  latency_since-Calls : (started : ℕ) → Calls 0 (latency_since x.ports started)
  latency_since-Calls started = record { reach = λ s. (omega arith, λ h. h) }

  accepted-Calls : (response : R) (recorded : Bool) → Calls 0 (accepted x response recorded)
  accepted-Calls response true = record { reach = λ s. (omega arith, λ h. h) }
  accepted-Calls response false = record { reach = λ s. (omega arith, λ h. h) }

  call_provider-Calls :
      (a : HealthAdmission) (d : ModelDeployment) (started : ℕ)
      → P d
      → Calls 1 (call_provider x a d started)
  unfolding call_provider
  call_provider-Calls a d started pd = bind-Calls 0 1 _ _ check_deadline-Calls λ u.
      bind-Calls 1 0 _ _ (generate-Calls a d pd) λ response.
        bind-Calls 0 0 _ _ check_deadline-Calls λ u.
          bind-Calls 0 0 _ _ (latency_since-Calls started) λ latency_ms.
            bind-Calls 0 0 _ _ (call-Calls (x.ports.record_success d.deployment_id latency_ms a))
              λ recorded. accepted-Calls response recorded

  can_retry-Calls : (d : ModelDeployment) (n : ℕ) (e : ProviderError) → Calls 0 (can_retry x d n e)
  unfolding can_retry
  can_retry-Calls d n e = record { reach = λ s. ground arith }

  note_failure-Calls :
      (d : ModelDeployment) (n latency_ms : ℕ) (e : ProviderError) (delay : Option ℕ)
      → Calls 0 (note_failure x d n latency_ms e delay)
  unfolding note_failure
  note_failure-Calls d n latency_ms e delay = record { reach = λ s. ground arith }

  handle_failure-Calls :
      (a : HealthAdmission) (d : ModelDeployment) (n started : ℕ) (e : ProviderError)
      → Calls 0 (handle_failure x a d n started e)
  unfolding handle_failure
  handle_failure-Calls a d n started e = bind-Calls 0 0 _ _ check_deadline-Calls λ u.
      bind-Calls 0 0 _ _ (latency_since-Calls started) λ latency_ms.
        bind-Calls 0 0 _ _ (call-Calls (x.ports.record_failure d.deployment_id e latency_ms a)) λ u.
          bind-Calls 0 0 _ _ (can_retry-Calls d n e)
            λ retry. note_failure-Calls d n latency_ms e (delay_if x retry d n e)

  handle_success-Calls :
      (d : ModelDeployment) (n started : ℕ) (response : R)
      → Calls 0 (handle_success x d n started response)
  unfolding handle_success
  handle_success-Calls d n started response = record { reach = λ s. ground arith }

  admitted_attempt-Calls :
      (a : HealthAdmission) (d : ModelDeployment) (n : ℕ) → P d → Calls 1 (admitted_attempt x a d n)
  unfolding admitted_attempt health_admission_scope
  admitted_attempt-Calls a d n pd = record {
    reach = λ s.
        dispatch-Reaches 1 0 _ _ s _ (λ e. handle_failure-Calls a d n _ e)
          (λ response. handle_success-Calls d n _ response)
          ((call_provider-Calls a d _ pd).reach _);
  }

  admit-Calls :
      (d : ModelDeployment) (n : ℕ) (admission : Option HealthAdmission)
      → P d
      → Calls 1 (admit x d n admission)
  admit-Calls d n none pd = record { reach = λ s. ground arith }
  admit-Calls d n (some a) pd = admitted_attempt-Calls a d n pd

  attempt-Calls : (d : ModelDeployment) (n : ℕ) → P d → Calls 1 (attempt x d n)
  unfolding attempt
  attempt-Calls d n pd = bind-Calls 0 1 _ _ check_deadline-Calls λ u.
      bind-Calls 0 1 _ _ (call-Calls (x.ports.resolve d)) λ u.
        bind-Calls 0 1 _ _ (call-Calls (x.ports.allow_request d.deployment_id))
          λ admission. admit-Calls d n admission pd

  continue_with-Calls :
      (k : ℕ) (more : Run S (Option (ResilientExecutionResult R))) (next : Next R)
      → Calls k more
      → Calls k (continue_with x more next)
  continue_with-Calls k more (finished r) h = record { reach = λ s. (omega arith, λ h. h) }
  continue_with-Calls k more falls_back h = record { reach = λ s. (omega arith, λ h. h) }
  continue_with-Calls k more (retries delay) h = recount (omega arith) (
      bind-Calls 0 (0 + k) _ _ check_deadline-Calls
        (λ u. bind-Calls 0 k _ _ (call-Calls (x.ports.sleep delay)) λ u. h))

  try_deployment-Calls :
      (left : ℕ) (d : ModelDeployment) (n : ℕ) → P d → Calls left (try_deployment x left d n)
  unfolding try_deployment
  try_deployment-Calls zero d n pd = record { reach = λ s. (omega arith, λ h. h) }
  try_deployment-Calls (suc left) d n pd = recount (omega arith) (
      bind-Calls 1 left _ _ (attempt-Calls d n pd)
        (λ next. continue_with-Calls left _ next (try_deployment-Calls left d (suc n) pd)))

  or_else-Calls :
      (k : ℕ) (more : Run S (ResilientExecutionResult R))
      (result : Option (ResilientExecutionResult R))
      → Calls k more
      → Calls k (or_else x more result)
  or_else-Calls k more (some r) h = record { reach = λ s. (omega arith, λ h. h) }
  or_else-Calls k more none h = h

  try_candidates-Calls :
      (cs : List RankedCandidate)
      → All (λ c. P c.deployment) cs
      → Calls (length cs * x.retry_policy.max_attempts_per_deployment) (try_candidates x cs)
  unfolding try_candidates
  try_candidates-Calls [] ps = record { reach = λ s. (omega arith, λ h. h) }
  try_candidates-Calls (c ∷ cs) ps =
      let m = x.retry_policy.max_attempts_per_deployment in
      recount (suc_mul (length cs) m) (
        bind-Calls m (length cs * m) _ _ (try_deployment-Calls m c.deployment 1 ps.0)
          (λ result. or_else-Calls _ (try_candidates x cs) result (try_candidates-Calls cs ps.1)))

  execute_selected-Calls :
      (safety : FallbackSafetyState) (selected : Option RankedCandidate)
      → ((c : RankedCandidate)
          → selected ≡ some c
          → all_validated x (bounded_candidates x c) ≡ true
          → All (λ c. P c.deployment) (bounded_candidates x c))
      → Calls
          ((x.retry_policy.max_fallbacks + 1) * x.retry_policy.max_attempts_per_deployment)
          (execute_selected x safety selected)
  execute_selected-Calls safety none proper = record { reach = λ s. (omega arith, λ h. h) }
  execute_selected-Calls safety (some c) proper = record {
    reach = λ s. elim (Bool-cases (all_validated x (bounded_candidates x c))) [
      | inl valid ↦ ground (
        arith,
        (try_candidates-Calls (bounded_candidates x c) (proper c refl valid)).reach s,
        mul-le-mul_right x.retry_policy.max_attempts_per_deployment
            (length-take-le (x.retry_policy.max_fallbacks + 1) (c ∷ x.decision.alternatives)),
      )
      | inr refused ↦ ground arith
    ];
  }

-- Nothing has happened that a second call of a provider could repeat.
pub record IsReplayable (safety : FallbackSafetyState) : Type 0 where
  pub no_output : safety.provider_output_observed ≡ false
  pub no_side_effect : safety.external_side_effect_executed ≡ false
  pub no_reasoning : safety.opaque_reasoning_state_established ≡ false

module _ {S R : Type 0} (x : Execution S R) where
  -- The deployment is that of one of these candidates, in the group that the decision authorized.
  abbrev pub IsCandidate : List RankedCandidate → ModelDeployment → Type 0
  IsCandidate cs d =
      Mem d (map (λ c. c.deployment) cs)
      × (d.model_group ≡ x.decision.routing.authorized_model_group)

  all_validated-All :
      (cs all : List RankedCandidate)
      → ((c : RankedCandidate) → Mem c cs → Mem c all)
      → all_validated x cs ≡ true
      → All (λ c. IsCandidate all c.deployment) cs
  unfolding all_validated
  all_validated-All [] all sub e = tt
  all_validated-All (c ∷ cs) all sub e = (
    (
      mem-map_of_mem (λ c. c.deployment) (sub c mem-cons_self),
      same-true Text-discrete c.deployment.model_group x.decision.routing.authorized_model_group
          (ground arith),
    ),
    all_validated-All cs all (λ k m. sub k (mem-cons_of_mem c m)) (ground arith),
  )

  All-Unit : (cs : List RankedCandidate) → All (λ c. Unit {0}) cs
  All-Unit [] = tt
  All-Unit (c ∷ cs) = (tt, All-Unit cs)

  execute-Calls :
      (P : ModelDeployment → Type 0) (safety : FallbackSafetyState) (s : S)
      → ((c : RankedCandidate)
          → x.decision.selected ≡ some c
          → all_validated x (bounded_candidates x c) ≡ true
          → All (λ c. P c.deployment) (bounded_candidates x c))
      → Reaches x P
          ((x.retry_policy.max_fallbacks + 1) * x.retry_policy.max_attempts_per_deployment)
          (started_from x s)
          (execute x safety s).1
  unfolding execute
  execute-Calls P safety s proper =
      (execute_selected-Calls x P safety x.decision.selected proper).reach (started_from x s)

  -- However the ports answer, at most `(max_fallbacks + 1) * max_attempts_per_deployment` provider
  -- calls are made.
  pub calls_bounded :
      (safety : FallbackSafetyState) (s : S)
      → length (execute x safety s).1.calls
        ≤ (x.retry_policy.max_fallbacks + 1) * x.retry_policy.max_attempts_per_deployment
  calls_bounded safety s =
      omega
        (arith, (execute-Calls (λ d. Unit) safety s (λ c e v. All-Unit (bounded_candidates x c))).0)

  -- However the ports answer, a provider is called only for one of the first `max_fallbacks + 1`
  -- candidates of the decision, and only if the candidate is in the authorized model group.
  pub calls_authorized :
      (safety : FallbackSafetyState) (s : S) (c : RankedCandidate)
      → x.decision.selected ≡ some c
      → All (IsCandidate (bounded_candidates x c)) (execute x safety s).1.calls
  calls_authorized safety s c e =
      (execute-Calls (IsCandidate (bounded_candidates x c)) safety s (λ k ek valid.
          let same_one : k ≡ c = cc in
          subst
            (λ k.
              All (λ j. IsCandidate (bounded_candidates x c) j.deployment) (bounded_candidates x k))
            (sym same_one)
            (all_validated-All (bounded_candidates x c) (bounded_candidates x c) (λ j m. m)
              (rw same_one at valid)))).1
        tt

  blocked :
      (safety : FallbackSafetyState) (selected : Option RankedCandidate) (s : Progress S)
      → automatic_replay_allowed safety ≡ false
      → (execute_selected x safety selected s).1 ≡ s
  blocked safety none s e = refl
  blocked safety (some c) s e = ground arith

  All-every : {A P : Type 0} (xs : List A) → P → All (λ a. P) xs
  All-every [] p = tt
  All-every (a ∷ xs) p = (p, All-every xs p)

  -- A provider is called only in a state of safety in which no provider output was observed, no
  -- external side effect was executed and no opaque reasoning state was established.
  pub calls-IsReplayable :
      (safety : FallbackSafetyState) (s : S)
      → All (λ d. IsReplayable safety) (execute x safety s).1.calls
  unfolding execute automatic_replay_allowed
  calls-IsReplayable safety s = elim (Bool-cases (automatic_replay_allowed safety)) [
    | inl e ↦ All-every (execute x safety s).1.calls (ground (arith, e))
    | inr e ↦
        subst (λ t. All (λ d. IsReplayable safety) t.calls)
          (sym (blocked safety x.decision.selected (started_from x s) e)) tt
  ]
