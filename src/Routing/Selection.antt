-- ===== src/Routing/Selection.antt =====
-- What `rank` of packages/gateway-core/src/governed_llm_gateway_core/application/ranking.py
-- selects: all of it and nothing else, in order, whatever order the candidates came in.
use mathlib.Core.HLevel.{hedberg}
use mathlib.Core.List.Perm
use mathlib.Core.List.{perm_middle, Pairwise}
use governed_llm_gateway.Base.{
  ◌≡◌, refl, sym, ap, subst, Bool, true, not, Decimal, Option, none, some, List, [], ◌∷◌, ◌++◌, map,
  Text, text_lt_asym, text_lt_not_trans, dec_ltb_asym, dec_ltb_not_trans, Result, ok, >>=-eq-ok,
  ok_injective, sorted, All, All-map, All-sorted, IsOrder, IsSorted, Apart, NotBelow, dec_ltb,
  text_lt, false, sorted-perm, sorted-IsSorted, sorted-eq_of_perm, arith, raise_if,
}
use mathlib.Core.Logic.Or
use mathlib.Core.List.{Perm, Mem, mem-cons, not-mem-nil, mem-cons_self, mem-cons_of_mem}
use governed_llm_gateway.Routing.{
  Error, GatewayRequest, EffectivePolicyContext, ModelDeployment, ModelDeployment-discrete,
  StaticDeploymentScore, WorkloadRankingPolicy, RankingPolicy, ranking_invariant_violation,
  for_workload, score_for,
}
use governed_llm_gateway.Routing.Policy.{PolicyRequestMetadata, AuthorizedCandidateSet, is_in}
use governed_llm_gateway.Routing.Eligibility.{
  CandidateRejection, Health, eligibility_rejection, cost_of,
}
use governed_llm_gateway.Routing.Eligible.{
  IsEligible, eligibility_rejection_iff, eligibility_rejection-names,
}
use governed_llm_gateway.Routing.Ranking.{
  RankedCandidate, RankingDecision, Hashes, Verdict, rejects, ranks, ranked_with, verdict_of,
  Sorted, add_verdict, assess, assess_all, id_lt, rank_lt, rejection_lt, decision_of,
  validate_boundary, rank,
}

pub id_lt-IsOrder : IsOrder id_lt
unfolding id_lt
id_lt-IsOrder = record {
  asym = λ a b. text_lt_asym a.deployment_id b.deployment_id;
  not_lt_trans = λ a b c. text_lt_not_trans a.deployment_id b.deployment_id c.deployment_id;
}

pub rank_lt-IsOrder : IsOrder rank_lt
unfolding rank_lt
rank_lt-IsOrder = record {
  asym = λ a b h. ground (
    arith,
    dec_ltb_asym b.score.total a.score.total,
    text_lt_asym a.deployment.deployment_id b.deployment.deployment_id,
  );
  not_lt_trans = λ a b c h k. ground (
    arith,
    dec_ltb_not_trans c.score.total b.score.total a.score.total,
    dec_ltb_not_trans a.score.total b.score.total c.score.total,
    dec_ltb_not_trans b.score.total a.score.total c.score.total,
    dec_ltb_not_trans a.score.total c.score.total b.score.total,
    text_lt_not_trans a.deployment.deployment_id b.deployment.deployment_id
        c.deployment.deployment_id,
  );
}

-- The total score of the first is not lower, and where the totals are the same its identifier is
-- not greater.
pub record Precedes (a b : RankedCandidate) : Type 0 where
  pub not_lower : dec_ltb a.score.total b.score.total ≡ false
  pub tie :
      dec_ltb b.score.total a.score.total ≡ false
      → text_lt b.deployment.deployment_id a.deployment.deployment_id ≡ false

not_rank_lt-Precedes : (a b : RankedCandidate) → rank_lt b a ≡ false → Precedes a b
unfolding rank_lt
not_rank_lt-Precedes a b h = record { not_lower = ground arith; tie = λ e. ground arith }

NotBelow-Mem :
    (a b : RankedCandidate) (cs : List RankedCandidate)
    → NotBelow rank_lt a cs
    → Mem b cs
    → rank_lt b a ≡ false
NotBelow-Mem a b [] h m = absurd (not-mem-nil m)
NotBelow-Mem a b (c ∷ cs) h m =
    Or.«elim» (hlevel) (mem-cons.0 m) (λ e. rw e h.0) (NotBelow-Mem a b cs h.1)

sorted-Precedes : (cs : List RankedCandidate) → IsSorted rank_lt cs → Pairwise Precedes cs
sorted-Precedes [] s = Pairwise.nil
sorted-Precedes (c ∷ cs) s =
    Pairwise.cons (λ b m. not_rank_lt-Precedes c b (NotBelow-Mem c b cs s.0 m))
      (sorted-Precedes cs s.1)

abbrev pub ranked_ids : List RankedCandidate → List Text
ranked_ids = map λ c. c.deployment.deployment_id

abbrev pub rejected_ids : List CandidateRejection → List Text
rejected_ids = map λ r. r.deployment

abbrev pub candidate_ids : List ModelDeployment → List Text
candidate_ids = map λ d. d.deployment_id

-- The selected candidate and the alternatives, in order.
abbrev pub all_ranked : RankingDecision → List RankedCandidate
all_ranked d = elim d.selected [ none ↦ [] | some c ↦ c ∷ d.alternatives ]

ModelDeployment-set : IsSet ModelDeployment
ModelDeployment-set = hedberg ModelDeployment-discrete

-- What a verdict on a deployment says of it.
abbrev Accounts : (RankedCandidate → Type 0) → ModelDeployment → Verdict → Type 0
Accounts P d (rejects r) = r.deployment ≡ d.deployment_id
Accounts P d (ranks c) = (c.deployment ≡ d) × P c

module _ (P : RankedCandidate → Type 0) (verdict : ModelDeployment → Result Error Verdict)
    (accounts : (d : ModelDeployment) (v : Verdict) → verdict d ≡ ok v → Accounts P d v) where
  -- The two lists hold each deployment once, and the ranked ones have the property.
  record IsSplit (ds : List ModelDeployment) (s : Sorted) : Type 0 where
    complete : Perm (ranked_ids s.ranked ++ rejected_ids s.rejected) (candidate_ids ds)
    proper : All P s.ranked
    known : All (λ c. Mem c.deployment ds) s.ranked

  add_verdict-IsSplit :
      (d : ModelDeployment) (ds : List ModelDeployment) (v : Verdict) (s : Sorted)
      → Accounts P d v
      → IsSplit ds s
      → IsSplit (d ∷ ds) (add_verdict v s)
  add_verdict-IsSplit d ds (rejects r) s a i = record {
    complete =
        Perm.trans (perm_middle (ranked_ids s.ranked) (rejected_ids s.rejected))
          (Perm.cons' a i.complete);
    proper = i.proper;
    known = All-map _ _ (λ c k. mem-cons_of_mem d k) s.ranked i.known;
  }
  add_verdict-IsSplit d ds (ranks c) s (e, p) i = record {
    complete = Perm.cons' (ap (λ x. x.deployment_id) e) i.complete;
    proper = (p, i.proper);
    known = (rw e mem-cons_self, All-map _ _ (λ c k. mem-cons_of_mem d k) s.ranked i.known);
  }

  assess_all-IsSplit :
      (ds : List ModelDeployment) (s : Sorted) → assess_all verdict ds ≡ ok s → IsSplit ds s
  unfolding assess_all
  assess_all-IsSplit [] s e =
      subst (IsSplit []) (ok_injective e)
        (record { complete = Perm.refl []; proper = tt; known = tt })
  assess_all-IsSplit (d ∷ ds) s e =
      let (v, ev, e') = >>=-eq-ok (verdict d) _ e in
      let (rest, er, e'') = >>=-eq-ok (assess_all verdict ds) _ e' in
      subst (IsSplit (d ∷ ds)) (ok_injective e'')
        (add_verdict-IsSplit d ds v rest (accounts d v ev) (assess_all-IsSplit ds rest er))

all_ranked-decision :
    (h : Hashes) (request : GatewayRequest) (authorized : AuthorizedCandidateSet)
    (m : PolicyRequestMetadata) (policy : RankingPolicy) (xs : List RankedCandidate)
    (rs : List CandidateRejection)
    → all_ranked (decision_of h request authorized m policy xs rs) ≡ xs
unfolding decision_of
all_ranked-decision h request authorized m policy [] rs = refl
all_ranked-decision h request authorized m policy (x ∷ xs) rs = refl

module _ (h : Hashes) (registry_digest : Text) (request : GatewayRequest)
    (context : EffectivePolicyContext) (authorized : AuthorizedCandidateSet)
    (m : PolicyRequestMetadata) (policy : RankingPolicy) (health : Health) where
  abbrev groups : List Text
  groups = authorized.policy.authorization.authorized_model_groups

  -- In an authorized group, and with every requirement met under one workload policy.
  abbrev pub IsAdmissible : WorkloadRankingPolicy → RankedCandidate → Type 0
  IsAdmissible w c =
      (is_in c.deployment.model_group groups ≡ true)
      × IsEligible request context m c.deployment (score_for w c.deployment.deployment_id) health

  in_group :
      {b : Bool} (u : Unit {0})
      → raise_if {E = Error} (not b) ranking_invariant_violation ≡ ok u
      → b ≡ true
  in_group u e = ground arith

  ranked-Accounts :
      (w : WorkloadRankingPolicy) (d : ModelDeployment) (v : Verdict)
      → is_in d.model_group groups ≡ true
      → IsEligible request context m d (score_for w d.deployment_id) health
      → (s : Option StaticDeploymentScore) (cost : Option Decimal) → ranked_with w d s cost ≡ ok v
      → Accounts (IsAdmissible w) d v
  ranked-Accounts w d v g i none cost e = absurd (ground arith)
  ranked-Accounts w d v g i (some s) none e = absurd (ground arith)
  ranked-Accounts w d v g i (some s) (some c) e =
      subst (Accounts (IsAdmissible w) d) (ok_injective e) (refl, (g, i))

  verdict-Accounts :
      (w : WorkloadRankingPolicy) (d : ModelDeployment) (v : Verdict)
      → is_in d.model_group groups ≡ true
      → (rejection : Option CandidateRejection)
      → eligibility_rejection request context m d (score_for w d.deployment_id) health
        ≡ ok rejection
      → verdict_of w d (score_for w d.deployment_id) (cost_of m d) rejection ≡ ok v
      → Accounts (IsAdmissible w) d v
  verdict-Accounts w d v g (some r) found e =
      subst (Accounts (IsAdmissible w) d) (ok_injective e)
        (eligibility_rejection-names request context m d _ health r found)
  verdict-Accounts w d v g none found e =
      ranked-Accounts w d v g ((eligibility_rejection_iff request context m d _ health).0 found) _ _
        e

  assess-Accounts :
      (w : WorkloadRankingPolicy) (d : ModelDeployment) (v : Verdict)
      → assess request context m w health groups d ≡ ok v
      → Accounts (IsAdmissible w) d v
  unfolding assess
  assess-Accounts w d v e =
      let (u, known, e1) = >>=-eq-ok (raise_if _ _) _ e in
      let (rejection, found, e2) =
        >>=-eq-ok (eligibility_rejection request context m d _ health) _ e1 in
      verdict-Accounts w d v (in_group u known) rejection found e2

  -- How a decision comes about: a workload policy, the two lists of the loop, and their sorting.
  record IsRanked (decision : RankingDecision) : Type 0 where
    workload_policy : WorkloadRankingPolicy
    is_policy : for_workload policy request.workload ≡ ok workload_policy
    found : Sorted
    is_found :
        assess_all
          (assess request context m workload_policy health groups)
          (sorted id_lt authorized.candidates)
        ≡ ok found
    is_decision :
        decision
        ≡ decision_of h request authorized m policy
            (sorted rank_lt found.ranked)
            (sorted rejection_lt found.rejected)

  abbrev ranking : Result Error RankingDecision
  ranking = rank h registry_digest request context authorized m policy health

  ranking-IsRanked : (decision : RankingDecision) → ranking ≡ ok decision → IsRanked decision
  unfolding rank
  ranking-IsRanked decision e =
      let (u, valid, e1) = >>=-eq-ok (validate_boundary _ _ _ _ _) _ e in
      let (w, is_w, e2) = >>=-eq-ok (for_workload policy request.workload) _ e1 in
      let (found, is_found, e3) = >>=-eq-ok (assess_all _ _) _ e2 in
      record {
        workload_policy = w;
        is_policy = is_w;
        found = found;
        is_found = is_found;
        is_decision = sym (ok_injective e3);
      }

  found-IsSplit :
      (decision : RankingDecision) (r : IsRanked decision)
      → IsSplit
          (IsAdmissible r.workload_policy)
          (assess request context m r.workload_policy health groups)
          (assess-Accounts r.workload_policy)
          (sorted id_lt authorized.candidates)
          r.found
  found-IsSplit decision r = assess_all-IsSplit _ _ _ _ _ r.is_found

  all_ranked-sorted :
      (decision : RankingDecision) (r : IsRanked decision)
      → all_ranked decision ≡ sorted rank_lt r.found.ranked
  all_ranked-sorted decision r =
      rw r.is_decision (all_ranked-decision h request authorized m policy _ _)

  -- A decision accounts for each candidate exactly once: the selected one, the alternatives and
  -- the rejected ones together are the authorized candidates.
  pub rank-complete :
      (decision : RankingDecision)
      → rank h registry_digest request context authorized m policy health ≡ ok decision
      → Perm
          (ranked_ids (all_ranked decision) ++ rejected_ids decision.rejected_candidates)
          (candidate_ids authorized.candidates)
  unfolding decision_of
  rank-complete decision e =
      let r = ranking-IsRanked decision e in
      rw (all_ranked-sorted decision r, r.is_decision)
        (Perm.trans
          (Perm.append (Perm.map _ (sorted-perm rank_lt r.found.ranked))
            (Perm.map _ (sorted-perm rejection_lt r.found.rejected)))
          (Perm.trans (found-IsSplit decision r).complete
            (Perm.map _ (sorted-perm id_lt authorized.candidates))))

  -- Whatever is selected or offered as an alternative is in a group that the policy authorized and
  -- meets every requirement of the request, under the policy of its workload.
  pub rank-admissible :
      (decision : RankingDecision)
      → rank h registry_digest request context authorized m policy health ≡ ok decision
      → (w : WorkloadRankingPolicy) × (for_workload policy request.workload ≡ ok w)
        × All (IsAdmissible w) (all_ranked decision)
  rank-admissible decision e =
      let r = ranking-IsRanked decision e in
      (
        r.workload_policy,
        r.is_policy,
        rw (all_ranked-sorted decision r)
            (All-sorted rank_lt _ r.found.ranked (found-IsSplit decision r).proper),
      )

  pub rank-known :
      (decision : RankingDecision)
      → rank h registry_digest request context authorized m policy health ≡ ok decision
      → All (λ c. Mem c.deployment authorized.candidates) (all_ranked decision)
  rank-known decision e =
      let r = ranking-IsRanked decision e in
      rw (all_ranked-sorted decision r) (
        All-sorted rank_lt _ r.found.ranked (
          All-map _ _ (λ c k. (Perm.mem_iff (sorted-perm id_lt authorized.candidates)).0 k)
            r.found.ranked (found-IsSplit decision r).known))

  -- The selected candidate and the alternatives stand by falling total score, and those with the
  -- same total by ascending identifier.
  pub rank-IsFalling :
      (decision : RankingDecision)
      → rank h registry_digest request context authorized m policy health ≡ ok decision
      → Pairwise Precedes (all_ranked decision)
  rank-IsFalling decision e =
      let r = ranking-IsRanked decision e in
      rw (all_ranked-sorted decision r)
        (sorted-Precedes _ (sorted-IsSorted rank_lt rank_lt-IsOrder r.found.ranked))

  -- The same decision is made, or the same error raised, whatever order the candidates come in,
  -- where their identifiers differ.
  pub rank_any_order :
      (candidates : List ModelDeployment)
      → Perm authorized.candidates candidates
      → Pairwise (Apart id_lt id_lt-IsOrder) authorized.candidates
      → rank h registry_digest request context
          (record authorized { candidates = candidates })
          m
          policy
          health
        ≡ rank h registry_digest request context authorized m policy health
  unfolding rank decision_of validate_boundary
  rank_any_order candidates p apart =
      rw (← sorted-eq_of_perm id_lt id_lt-IsOrder ModelDeployment-set p apart)
