-- ===== src/Exec/Served.antt =====
-- What an execution of `ResilientExecutionService._execute` of
-- packages/gateway-core/src/governed_llm_gateway_core/application/resilience.py reports when it
-- returns, over its two loops.
use governed_llm_gateway.Base.{
  ℕ, zero, suc, ◌≡◌, refl, subst, ok_injective, if◌then◌else◌, not, ◌==◌, Bool, true, false, Option,
  none, some, List, [], ◌∷◌, arith, Result, ok, raised,
}
use governed_llm_gateway.Exec.{
  Exception, resilience_execution_error, FallbackSafetyState, automatic_replay_allowed, value_error,
  ranking_invariant_violation,
}
use governed_llm_gateway.Exec.Service.{
  Progress, Run, after, execute_selected, call, Next, finished, retries, falls_back, check_deadline,
  raise, all_validated, Execution, attempt, continue_with, try_deployment, or_else, try_candidates,
  bounded_candidates, execute, started_from, ResilientExecutionResult,
}
use governed_llm_gateway.Routing.{ModelDeployment}
use governed_llm_gateway.Routing.Ranking.{RankedCandidate}
use governed_llm_gateway.Exec.Evidence.{
  called, IsAccounted, IsServed, Leaves, Same, IsAccounted-Same, check_deadline-Same,
  attempt-Leaves,
}

module _ {S R : Type 0} (x : Execution S R) where
  -- What the inner loop leaves.
  abbrev Stops : Result Exception (Option (ResilientExecutionResult R)) → Progress S → Type 0
  Stops (ok (some r)) s = IsServed x r s
  Stops (ok none) s = IsAccounted x s
  Stops (raised e) s = Unit

  after-Stops {ℓ} :
      {A : Type ℓ} (f : A → Run S (Option (ResilientExecutionResult R))) (t : Progress S)
      (q : Result Exception A × Progress S)
      → Same x t q.1
      → ((a : A) (u : Progress S) → Same x t u → Stops (f a u).0 (f a u).1)
      → Stops (after f q).0 (after f q).1
  after-Stops f t (ok a, u) same k = k a u same
  after-Stops f t (raised e, u) same k = tt

  continue_with-Stops :
      (more : Run S (Option (ResilientExecutionResult R)))
      (q : Result Exception (Next R) × Progress S)
      → ((u : Progress S) → IsAccounted x u → Stops (more u).0 (more u).1)
      → Leaves x q.0 q.1
      → Stops (after (continue_with x more) q).0 (after (continue_with x more) q).1
  continue_with-Stops more (raised e, t) k l = tt
  continue_with-Stops more (ok (finished r), t) k l = l
  continue_with-Stops more (ok falls_back, t) k l = l
  continue_with-Stops more (ok (retries delay), t) k l =
      after-Stops _ t (check_deadline x.ports x.deadline t) (check_deadline-Same x t t (refl, refl))
        (λ u t1 h1.
          after-Stops _ t (call (x.ports.sleep delay) t1) h1
            (λ u t2 h2. k t2 (IsAccounted-Same x t t2 h2 l)))

  try_deployment-Stops :
      (left : ℕ) (d : ModelDeployment) (n : ℕ) (s : Progress S)
      → IsAccounted x s
      → Stops (try_deployment x left d n s).0 (try_deployment x left d n s).1
  unfolding try_deployment
  try_deployment-Stops zero d n s i = i
  try_deployment-Stops (suc left) d n s i =
      continue_with-Stops (try_deployment x left d (suc n)) (attempt x d n s)
        (try_deployment-Stops left d (suc n)) (attempt-Leaves x d n s i)

  -- What the outer loop leaves.
  abbrev Ends : Result Exception (ResilientExecutionResult R) → Progress S → Type 0
  Ends (ok r) s = IsServed x r s
  Ends (raised e) s = Unit

  or_else-Ends :
      (more : Run S (ResilientExecutionResult R))
      (q : Result Exception (Option (ResilientExecutionResult R)) × Progress S)
      → ((u : Progress S) → IsAccounted x u → Ends (more u).0 (more u).1)
      → Stops q.0 q.1
      → Ends (after (or_else x more) q).0 (after (or_else x more) q).1
  or_else-Ends more (raised e, t) k l = tt
  or_else-Ends more (ok (some r), t) k l = l
  or_else-Ends more (ok none, t) k l = k t l

  try_candidates-Ends :
      (cs : List RankedCandidate) (s : Progress S)
      → IsAccounted x s
      → Ends (try_candidates x cs s).0 (try_candidates x cs s).1
  unfolding try_candidates
  try_candidates-Ends [] s i = tt
  try_candidates-Ends (c ∷ cs) s i =
      let m = x.retry_policy.max_attempts_per_deployment in
      or_else-Ends (try_candidates x cs) (try_deployment x m c.deployment 1 s)
        (try_candidates-Ends cs) (try_deployment-Stops m c.deployment 1 s i)

  Ends-ok :
      (q : Result Exception (ResilientExecutionResult R) × Progress S)
      (r : ResilientExecutionResult R)
      → q.0 ≡ ok r
      → Ends q.0 q.1
      → IsServed x r q.1
  Ends-ok (ok y, t) r e l = subst (λ r. IsServed x r t) (ok_injective e) l
  Ends-ok (raised y, t) r e l = absurd (ground arith)

  -- A check that raises ends the execution.
  refused :
      (b : Bool) (e : Exception) (s : Progress S) (m : Run S (ResilientExecutionResult R))
      → Ends (m s).0 (m s).1
      → Ends ((if b then raise e else m) s).0 ((if b then raise e else m) s).1
  refused true e s m l = tt
  refused false e s m l = l

  execute_selected-Ends :
      (safety : FallbackSafetyState) (selected : Option RankedCandidate) (s : Progress S)
      → IsAccounted x s
      → Ends (execute_selected x safety selected s).0 (execute_selected x safety selected s).1
  execute_selected-Ends safety none s i = tt
  execute_selected-Ends safety (some c) s i = refused (x.max_output_tokens == 0) value_error s _ (
      refused (x.provider_timeout_seconds == 0) value_error s _ (
        refused (not (automatic_replay_allowed safety)) (resilience_execution_error [] none) s _ (
          refused (not (all_validated x (bounded_candidates x c))) ranking_invariant_violation s _
            (try_candidates-Ends (bounded_candidates x c) s i))))

  -- An execution that returns tells what it did: every attempt before the last failed transiently
  -- or was skipped for an open circuit, the last one succeeded on the returned deployment, and the
  -- attempts that were not skipped are the provider calls, one by one and in their order.
  pub execute-IsServed :
      (safety : FallbackSafetyState) (s : S) (r : ResilientExecutionResult R)
      → (execute x safety s).0 ≡ ok r
      → IsServed x r (execute x safety s).1
  unfolding execute called
  execute-IsServed safety s r e = Ends-ok (execute x safety s) r e (
      execute_selected-Ends safety x.decision.selected (started_from x s)
        (record { calls = refl; replayable = tt }))
