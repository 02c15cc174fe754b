-- ===== src/Exec/Released.antt =====
-- The admissions that `ResilientExecutionService._execute` of
-- packages/gateway-core/src/governed_llm_gateway_core/application/resilience.py takes from the
-- health port, and gives back by `health_admission_scope` of application/health.py.
use governed_llm_gateway.Base.{
  ℕ, zero, suc, ◌≡◌, refl, ◌∙◌, Option, none, some, List, [], ◌∷◌, ◌++◌, arith, Result, ok, raised,
}
use governed_llm_gateway.Health.{HealthAdmission, ProviderError}
use governed_llm_gateway.Exec.{Exception, provider_error, FallbackSafetyState}
use governed_llm_gateway.Exec.Service.{
  Progress, Run, ◌>>=◌, after, dispatch, execute_selected, admit, begun, call, Next, finished,
  retries, falls_back, check_deadline, health_admission_scope, Execution, generate, call_provider,
  can_retry, note_failure, handle_failure, handle_success, admitted_attempt, attempt, continue_with,
  try_deployment, or_else, try_candidates, bounded_candidates, execute, started_from,
  ResilientExecutionResult,
}
use governed_llm_gateway.Routing.{ModelDeployment}
use governed_llm_gateway.Routing.Ranking.{RankedCandidate}

-- Runs that stay within a relation of their first and last progress, in sequence.
module _ {S : Type 0} (Rel : Progress S → Progress S → Type 0) (stays : (s : Progress S) → Rel s s)
    (joins : (s t u : Progress S) → Rel s t → Rel t u → Rel s u) where
  record Within {ℓ} {A : Type ℓ} (m : Run S A) : Type 0 where
    reach : (s : Progress S) → Rel s (m s).1

  after-Rel {ℓ κ} :
      {A : Type ℓ} {B : Type κ} (f : A → Run S B) (s : Progress S)
      (q : Result Exception A × Progress S)
      → ((a : A) → Within (f a))
      → Rel s q.1
      → Rel s (after f q).1
  after-Rel f s (ok a, t) hf r = joins s t (f a t).1 r ((hf a).reach t)
  after-Rel f s (raised e, t) hf r = r

  bind-Within {ℓ κ} :
      {A : Type ℓ} {B : Type κ} (m : Run S A) (f : A → Run S B)
      → Within m
      → ((a : A) → Within (f a))
      → Within (m >>= f)
  bind-Within m f hm hf = record { reach = λ s. after-Rel f s (m s) hf (hm.reach s) }

  dispatch-Rel {ℓ κ} :
      {A : Type ℓ} {B : Type κ} (handler : ProviderError → Run S B) (f : A → Run S B)
      (s : Progress S) (q : Result Exception A × Progress S)
      → ((e : ProviderError) → Within (handler e))
      → ((a : A) → Within (f a))
      → Rel s q.1
      → Rel s (dispatch handler f q).1
  dispatch-Rel handler f s (ok a, t) hh hf r = joins s t (f a t).1 r ((hf a).reach t)
  dispatch-Rel handler f s (raised (provider_error e), t) hh hf r =
      joins s t (handler e t).1 r ((hh e).reach t)
  dispatch-Rel handler f s (raised e, t) hh hf r = r

module _ {S R : Type 0} (x : Execution S R) where
  -- No admission is taken or released.
  abbrev Holds : Progress S → Progress S → Type 0
  Holds s t = (t.admitted ≡ s.admitted) × (t.released ≡ s.released)

  -- Where all was released, all is released.
  abbrev Even : Progress S → Progress S → Type 0
  Even s t = s.released ≡ s.admitted → t.released ≡ t.admitted

  abbrev Quiet {ℓ} : {A : Type ℓ} → Run S A → Type 0
  Quiet = Within Holds (λ s. (refl, refl)) (λ s t u a b. (b.0 ∙ a.0, b.1 ∙ a.1))

  abbrev Releases {ℓ} : {A : Type ℓ} → Run S A → Type 0
  Releases = Within Even (λ s e. e) (λ s t u a b e. b (a e))

  call_provider-Quiet :
      (a : HealthAdmission) (d : ModelDeployment) (started : ℕ)
      → Quiet (call_provider x a d started)
  unfolding call_provider generate check_deadline
  call_provider-Quiet a d started = record { reach = λ s. ground arith }

  handle_failure-Quiet :
      (a : HealthAdmission) (d : ModelDeployment) (n started : ℕ) (e : ProviderError)
      → Quiet (handle_failure x a d n started e)
  unfolding handle_failure can_retry note_failure check_deadline
  handle_failure-Quiet a d n started e = record { reach = λ s. ground arith }

  handle_success-Quiet :
      (d : ModelDeployment) (n started : ℕ) (response : R)
      → Quiet (handle_success x d n started response)
  unfolding handle_success
  handle_success-Quiet d n started response = record { reach = λ s. ground arith }

  snoc :
      (xs ys us vs : List HealthAdmission) (a : HealthAdmission)
      → us ≡ xs ++ a ∷ []
      → vs ≡ ys
      → ys ≡ xs
      → vs ++ a ∷ [] ≡ us
  snoc xs ys us vs a e f g = cc

  -- An attempt that took an admission gives it back, however it ends.
  admitted_attempt-Releases :
      (a : HealthAdmission) (d : ModelDeployment) (n : ℕ) → Releases (admitted_attempt x a d n)
  unfolding admitted_attempt health_admission_scope
  admitted_attempt-Releases a d n = record {
    reach = λ s even.
        let h =
          dispatch-Rel Holds (λ s. (refl, refl)) (λ s t u a b. (b.0 ∙ a.0, b.1 ∙ a.1)) _ _
            (begun x a d n s) _ (λ e. handle_failure-Quiet a d n _ e)
            (λ response. handle_success-Quiet d n _ response)
            ((call_provider-Quiet a d _).reach _) in
        snoc s.admitted s.released _ _ a h.0 h.1 even;
  }

  bind-Releases {ℓ κ} :
      {A : Type ℓ} {B : Type κ} (m : Run S A) (f : A → Run S B)
      → Releases m
      → ((a : A) → Releases (f a))
      → Releases (m >>= f)
  bind-Releases m f hm hf = bind-Within Even (λ s e. e) (λ s t u a b e. b (a e)) m f hm hf

  check_deadline-Releases : Releases (check_deadline x.ports x.deadline)
  unfolding check_deadline
  check_deadline-Releases = record { reach = λ s e. ground arith }

  call-Releases {ℓ} : {A : Type ℓ} (f : S → Result Exception A × S) → Releases (call f)
  call-Releases f = record { reach = λ s e. e }

  admit-Releases :
      (d : ModelDeployment) (n : ℕ) (admission : Option HealthAdmission)
      → Releases (admit x d n admission)
  admit-Releases d n none = record { reach = λ s e. e }
  admit-Releases d n (some a) = admitted_attempt-Releases a d n

  attempt-Releases : (d : ModelDeployment) (n : ℕ) → Releases (attempt x d n)
  unfolding attempt
  attempt-Releases d n = bind-Releases _ _ check_deadline-Releases λ u.
      bind-Releases _ _ (call-Releases (x.ports.resolve d)) λ u.
        bind-Releases _ _ (call-Releases (x.ports.allow_request d.deployment_id))
          λ admission. admit-Releases d n admission

  continue_with-Releases :
      (more : Run S (Option (ResilientExecutionResult R))) (next : Next R)
      → Releases more
      → Releases (continue_with x more next)
  continue_with-Releases more (finished r) h = record { reach = λ s e. e }
  continue_with-Releases more falls_back h = record { reach = λ s e. e }
  continue_with-Releases more (retries delay) h =
      bind-Releases _ _ check_deadline-Releases
        λ u. bind-Releases _ _ (call-Releases (x.ports.sleep delay)) λ u. h

  try_deployment-Releases :
      (left : ℕ) (d : ModelDeployment) (n : ℕ) → Releases (try_deployment x left d n)
  unfolding try_deployment
  try_deployment-Releases zero d n = record { reach = λ s e. e }
  try_deployment-Releases (suc left) d n =
      bind-Releases _ _ (attempt-Releases d n)
        λ next. continue_with-Releases _ next (try_deployment-Releases left d (suc n))

  or_else-Releases :
      (more : Run S (ResilientExecutionResult R)) (result : Option (ResilientExecutionResult R))
      → Releases more
      → Releases (or_else x more result)
  or_else-Releases more (some r) h = record { reach = λ s e. e }
  or_else-Releases more none h = h

  try_candidates-Releases : (cs : List RankedCandidate) → Releases (try_candidates x cs)
  unfolding try_candidates
  try_candidates-Releases [] = record { reach = λ s e. e }
  try_candidates-Releases (c ∷ cs) =
      bind-Releases _ _
        (try_deployment-Releases x.retry_policy.max_attempts_per_deployment c.deployment 1)
        λ result. or_else-Releases (try_candidates x cs) result (try_candidates-Releases cs)

  execute_selected-Releases :
      (safety : FallbackSafetyState) (selected : Option RankedCandidate)
      → Releases (execute_selected x safety selected)
  execute_selected-Releases safety none = record { reach = λ s e. e }
  execute_selected-Releases safety (some c) = record {
    reach = λ s e. ground (arith, (try_candidates-Releases (bounded_candidates x c)).reach s);
  }

  -- However the execution ends, by a result or any exception, just the admissions that it took are
  -- released, each once and in their order.
  pub admissions_released :
      (safety : FallbackSafetyState) (s : S)
      → (execute x safety s).1.released ≡ (execute x safety s).1.admitted
  unfolding execute
  admissions_released safety s =
      (execute_selected-Releases safety x.decision.selected).reach (started_from x s) refl
