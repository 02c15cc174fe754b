-- ===== src/Spend/Receipted.antt =====
-- Receipts of
-- packages/gateway-core/src/governed_llm_gateway_core/adapters/spend_admission_memory.py: what was
-- answered once is answered again, and nothing is published for it.
use governed_llm_gateway.Base.{
  ◌≢◌, ◌≡◌, sym, subst, ◌∙◌, true, false, Option, none, some, List, [], ◌∷◌, ◌++◌, arith, Text,
  Text-discrete, contains, same, ok, raised, inl, inr, lookup, Bool-cases, same-true,
}
use governed_llm_gateway.Spend.{
  SpendAttemptAllocation, SpendAttemptAllocation-discrete, SpendReservationRequest,
  SpendBudgetSnapshot,
}
use governed_llm_gateway.Spend.Requests.{scopes_of}
use governed_llm_gateway.Spend.Receipts.{
  SpendReservation, SpendDispatchReceipt, SpendDispatchReceipt-discrete, SpendSettlement,
  SpendSettlementReceipt, SpendJournalSnapshot,
}
use governed_llm_gateway.Spend.Memory.{
  Outside, Store, Execution, Image, Frozen, Change, others, changed_budgets, next_image, return,
  refuse, ◌>>=◌, then_with, refuse_if, known_or, control, conflict,
}
use governed_llm_gateway.Spend.Audit.{is_approved, is_valid_store, validated_image, dispatch_at}
use governed_llm_gateway.Spend.Worker.{
  existing_execution, find_execution, settlement_of, claim_receipt, claimed, with_outcome,
  closed_journal, reserve, dispatch, settle, denied, issued, repeat_outcome, settlement_receipt,
}
use governed_llm_gateway.Spend.History.{Operation, run}
use governed_llm_gateway.Spend.Effects.{Covers}
use governed_llm_gateway.Spend.Endings.{run-keeps}
use governed_llm_gateway.Spend.Located.{existing-id}
use governed_llm_gateway.Spend.Slots.{dispatch_at-kept}

replaced-other :
    (i : Text) (executions : List Execution) (e : Execution)
    → same Text-discrete e.request.execution_id i ≡ false
    → existing_execution i (others e.request.execution_id executions ++ e ∷ [])
      ≡ existing_execution i executions
unfolding existing_execution others
replaced-other i [] e h = ground arith
replaced-other i (x ∷ executions) e h = ground (arith, replaced-other i executions e h)

replaced-same :
    (i : Text) (executions : List Execution) (e : Execution)
    → e.request.execution_id ≡ i
    → existing_execution i (others i executions ++ e ∷ []) ≡ some e
unfolding existing_execution others
replaced-same i [] e h = ground arith
replaced-same i (x ∷ executions) e h = ground (arith, replaced-same i executions e h)

-- The execution of an identifier is there, and `Q` holds of it.
pub record IsRecorded (i : Text) (Q : Execution → Type 0) (image : Image) : Type 0 where
  pub execution : Execution
  pub found : existing_execution i image.executions ≡ some execution
  pub fact : Q execution

-- What a claim, an outcome and closure keep of an execution, every history keeps.
pub record IsLasting (Q : Execution → Type 0) : Type 0 where
  pub claims :
      (e : Execution) (r : SpendReservation) (a : SpendAttemptAllocation) (fence : Text)
      (j : SpendJournalSnapshot)
      → Q e
      → Q (claimed e r a fence j)
  pub settles :
      (e : Execution) (s : SpendSettlement) (fence : Text) (j : SpendJournalSnapshot)
      → Q e
      → Q (with_outcome e s fence j)
  pub closes :
      (e : Execution) (j : SpendJournalSnapshot) (fence : Text)
      → Q e
      → Q (record e { journal = some (closed_journal fence j) })

clash : {A : Type 0} (x : Option A) (a : A) → x ≡ none → x ≡ some a → ⊥
clash x a h k = cc

module _ (i : Text) (Q : Execution → Type 0) (lasting : IsLasting Q) where
  next-IsRecorded :
      (image : Image) (e : Execution) (c : Change) (budgets : List SpendBudgetSnapshot)
      → IsRecorded i Q image
      → ((old : Execution)
          → existing_execution e.request.execution_id image.executions ≡ some old
          → Q old
          → Q e)
      → IsRecorded i Q (next_image image e c budgets)
  unfolding next_image
  next-IsRecorded image e c budgets h keep =
      elim (Bool-cases (same Text-discrete e.request.execution_id i)) [
        | inl same_id ↦
            (let eq : e.request.execution_id ≡ i =
                same-true Text-discrete e.request.execution_id i same_id in
              record {
                execution = e;
                found =
                    subst (λ k. existing_execution i (others k image.executions ++ e ∷ []) ≡ some e)
                      (sym eq) (replaced-same i image.executions e eq);
                fact =
                    keep h.execution
                      (subst (λ k. existing_execution k image.executions ≡ some h.execution)
                        (sym eq) h.found)
                      h.fact;
              })
        | inr other ↦ record {
          execution = h.execution;
          found = replaced-other i image.executions e other ∙ h.found;
          fact = h.fact;
        }
      ]

  old_fact :
      (k : Text) (image : Image) (e old : Execution)
      → existing_execution k image.executions ≡ some e
      → existing_execution (e.request.execution_id) image.executions ≡ some old
      → Q old
      → Q e
  old_fact k image e old found found_old q =
      let eq : e.request.execution_id ≡ k = existing-id k image.executions e found in
      let here : existing_execution e.request.execution_id image.executions ≡ some e =
        subst (λ m. existing_execution m image.executions ≡ some e) (sym eq) found in
      let same_execution : old ≡ e = ground arith in subst Q same_execution q

  IsRecorded-cover :
      (f : Frozen) (image : Image)
      → IsRecorded i Q image
      → Covers f image λ e c.
        (budgets : List SpendBudgetSnapshot)
        → changed_budgets (scopes_of e.request) c image.budgets ≡ ok budgets
        → IsRecorded i Q (next_image image e c budgets)
  IsRecorded-cover f image rec = record {
    denying = λ request h budgets fits.
        next-IsRecorded image (denied request) _ budgets rec
          (λ old found q. absurd (clash _ old h.fresh found));
    issuing = λ request now fence h budgets fits.
        next-IsRecorded image (issued f request now fence) _ budgets rec
          (λ old found q. absurd (clash _ old h.fresh found));
    claiming = λ e r a j fence h budgets fits.
        next-IsRecorded image (claimed e r a fence j) _ budgets rec (λ old found q.
          lasting.claims e r a fence j
            (old_fact r.request.execution_id image e old h.owning.found found q));
    settling = λ e s j fence h budgets fits.
        next-IsRecorded image (with_outcome e s fence j) _ budgets rec (λ old found q.
          lasting.settles e s fence j (
            old_fact s.dispatch.reservation.request.execution_id image e old h.owning.found found
              q));
    closing = λ e r j fence h budgets fits.
        next-IsRecorded image (record e { journal = some (closed_journal fence j) }) _ budgets rec
          (λ old found q.
            lasting.closes e j fence
              (old_fact r.request.execution_id image e old h.owning.found found q));
  }

  pub run-IsRecorded :
      {S : Type 0} (f : Frozen) (o : Outside S) (ops : List Operation) (s : Store S)
      → IsRecorded i Q s.image
      → IsRecorded i Q (run f o ops s).image
  run-IsRecorded f o ops s h = run-keeps f o (IsRecorded i Q) (IsRecorded-cover f) ops s h

-- A claim, once made.
abbrev pub IsClaimed :
    SpendReservation → SpendAttemptAllocation → SpendDispatchReceipt → Execution → Type 0
IsClaimed r a d e = (e.reservation ≡ some r) × (dispatch_at a e.dispatches ≡ some d)

IsClaimed-lasting :
    (r : SpendReservation) (a : SpendAttemptAllocation) (d : SpendDispatchReceipt)
    → IsLasting (IsClaimed r a d)
IsClaimed-lasting r a d = record {
  claims =
      λ e q b fence j h. (h.0, dispatch_at-kept a e.dispatches (claim_receipt q b fence) d h.1);
  settles = λ e s fence j h. h;
  closes = λ e j fence h. h;
}

find-owned :
    {S : Type 0} (r : SpendReservation) (executions : List Execution) (e : Execution) (t : Store S)
    → existing_execution r.request.execution_id executions ≡ some e
    → e.reservation ≡ some r
    → find_execution r executions t ≡ (ok e, t)
unfolding find_execution existing_execution return
find-owned r [] e t h k = cc
find-owned r (x ∷ executions) e t h k = ground (arith, find-owned r executions e t)

module _ {S : Type 0} (f : Frozen) (o : Outside S) (t : Store S)
    (valid : is_valid_store f t ≡ true) where
  dispatch-found :
      (r : SpendReservation) (a : SpendAttemptAllocation) (d : SpendDispatchReceipt) (e : Execution)
      → existing_execution r.request.execution_id t.image.executions ≡ some e
      → IsClaimed r a d e
      → contains SpendAttemptAllocation-discrete a r.request.allocations ≡ true
      → dispatch f o r a t ≡ (ok d, t)
  unfolding dispatch validated_image ◌>>=◌ then_with return refuse_if known_or
  dispatch-found r a d e found h planned =
      ground (arith, valid, find-owned r t.image.executions e t found h.0)

-- A slot that was claimed in some store stays claimed: after any history of calls, in a store that
-- passes the checks of its image, `dispatch` of that slot returns the same receipt and changes
-- nothing, whatever the time, the closure of the journal or a settlement in between.
pub dispatch-once :
    {S : Type 0} (f : Frozen) (o : Outside S) (ops : List Operation) (s : Store S)
    (r : SpendReservation) (a : SpendAttemptAllocation) (d : SpendDispatchReceipt)
    → IsRecorded r.request.execution_id (IsClaimed r a d) s.image
    → contains SpendAttemptAllocation-discrete a r.request.allocations ≡ true
    → is_valid_store f (run f o ops s) ≡ true
    → dispatch f o r a (run f o ops s) ≡ (ok d, run f o ops s)
dispatch-once f o ops s r a d h planned valid =
    let later =
      run-IsRecorded r.request.execution_id (IsClaimed r a d) (IsClaimed-lasting r a d) f o ops s
        h in
    dispatch-found f o (run f o ops s) valid r a d later.execution later.found later.fact planned

-- The answer to an identifier: a reservation, or a denial.
abbrev pub IsAnswered : Option SpendReservation → Execution → Type 0
IsAnswered answer e = e.reservation ≡ answer

IsAnswered-lasting : (answer : Option SpendReservation) → IsLasting (IsAnswered answer)
IsAnswered-lasting answer = record {
  claims = λ e q b fence j h. h;
  settles = λ e s fence j h. h;
  closes = λ e j fence h. h;
}

-- An outcome, once recorded.
abbrev pub IsSettled : SpendSettlement → SpendSettlementReceipt → Execution → Type 0
IsSettled s receipt e =
    (e.reservation ≡ some s.dispatch.reservation)
    × (contains SpendDispatchReceipt-discrete s.dispatch e.dispatches ≡ true)
    × (settlement_of s.dispatch e.settlements ≡ some receipt)

contains-append :
    (d c : SpendDispatchReceipt) (ds : List SpendDispatchReceipt)
    → contains SpendDispatchReceipt-discrete d ds ≡ true
    → contains SpendDispatchReceipt-discrete d (ds ++ c ∷ []) ≡ true
contains-append d c [] h = cc
contains-append d c (x ∷ ds) h = ground (arith, contains-append d c ds)

settlement_of-append :
    (d : SpendDispatchReceipt) (receipt c : SpendSettlementReceipt)
    (ss : List SpendSettlementReceipt)
    → settlement_of d ss ≡ some receipt
    → settlement_of d (ss ++ c ∷ []) ≡ some receipt
unfolding settlement_of
settlement_of-append d receipt c [] h = cc
settlement_of-append d receipt c (x ∷ ss) h = ground (arith, settlement_of-append d receipt c ss)

IsSettled-lasting :
    (s : SpendSettlement) (receipt : SpendSettlementReceipt) → IsLasting (IsSettled s receipt)
IsSettled-lasting s receipt = record {
  claims = λ e q b fence j h.
      (h.0, contains-append s.dispatch (claim_receipt q b fence) e.dispatches h.1, h.2);
  settles = λ e q fence j h. (
    h.0,
    h.1,
    settlement_of-append s.dispatch receipt (settlement_receipt q fence) e.settlements h.2,
  );
  closes = λ e j fence h. h;
}

module _ {S : Type 0} (f : Frozen) (o : Outside S) (t : Store S)
    (valid : is_valid_store f t ≡ true) where
  reserve-found :
      (request : SpendReservationRequest) (answer : Option SpendReservation) (e : Execution)
      → existing_execution request.execution_id t.image.executions ≡ some e
      → e.reservation ≡ answer
      → is_approved (lookup Text-discrete request.execution_id f.approved) request ≡ true
      → reserve f o request t ≡ (ok answer, t)
  unfolding reserve validated_image ◌>>=◌ then_with return refuse_if known_or
  reserve-found request answer e found h approved = ground (arith, valid)

  settle-found :
      (s : SpendSettlement) (receipt : SpendSettlementReceipt) (e : Execution)
      → existing_execution s.dispatch.reservation.request.execution_id t.image.executions ≡ some e
      → IsSettled s receipt e
      → receipt.settlement ≡ s
      → settle f o s t ≡ (ok receipt, t)
  unfolding settle validated_image repeat_outcome ◌>>=◌ then_with return refuse_if known_or
  settle-found s receipt e found h first =
      ground (arith, valid, find-owned s.dispatch.reservation t.image.executions e t found h.0)

  settle-conflicts :
      (s : SpendSettlement) (receipt : SpendSettlementReceipt) (e : Execution)
      → existing_execution s.dispatch.reservation.request.execution_id t.image.executions ≡ some e
      → IsSettled s receipt e
      → receipt.settlement ≢ s
      → settle f o s t ≡ (raised (control conflict), t)
  unfolding settle validated_image repeat_outcome ◌>>=◌ then_with return refuse refuse_if known_or
  settle-conflicts s receipt e found h other =
      ground (arith, valid, find-owned s.dispatch.reservation t.image.executions e t found h.0)

-- An approved request that was answered, by a reservation or by a denial, gets the same answer
-- after any history of calls, in a store that passes the checks of its image, and nothing changes:
-- a denial is final, and a reservation is issued once.
pub reserve-once :
    {S : Type 0} (f : Frozen) (o : Outside S) (ops : List Operation) (s : Store S)
    (request : SpendReservationRequest) (answer : Option SpendReservation)
    → IsRecorded request.execution_id (IsAnswered answer) s.image
    → is_approved (lookup Text-discrete request.execution_id f.approved) request ≡ true
    → is_valid_store f (run f o ops s) ≡ true
    → reserve f o request (run f o ops s) ≡ (ok answer, run f o ops s)
reserve-once f o ops s request answer h approved valid =
    let later =
      run-IsRecorded request.execution_id (IsAnswered answer) (IsAnswered-lasting answer) f o ops s
        h in
    reserve-found f o (run f o ops s) valid request answer later.execution later.found later.fact
      approved

-- A dispatch that was settled stays settled: after any history of calls, in a store that passes the
-- checks of its image, the same settlement gets the same receipt, another settlement of the
-- dispatch is refused with CONFLICT, and in both cases nothing changes.
pub settle-once :
    {S : Type 0} (f : Frozen) (o : Outside S) (ops : List Operation) (s : Store S)
    (settlement : SpendSettlement) (receipt : SpendSettlementReceipt)
    → IsRecorded settlement.dispatch.reservation.request.execution_id
        (IsSettled settlement receipt)
        s.image
    → is_valid_store f (run f o ops s) ≡ true
    → (receipt.settlement ≡ settlement
        → settle f o settlement (run f o ops s) ≡ (ok receipt, run f o ops s))
      × (receipt.settlement ≢ settlement
          → settle f o settlement (run f o ops s) ≡ (raised (control conflict), run f o ops s))
settle-once f o ops s settlement receipt h valid =
    let later =
      run-IsRecorded settlement.dispatch.reservation.request.execution_id
        (IsSettled settlement receipt) (IsSettled-lasting settlement receipt) f o ops s h in
    (
      settle-found f o (run f o ops s) valid settlement receipt later.execution later.found
          later.fact,
      settle-conflicts f o (run f o ops s) valid settlement receipt later.execution later.found
          later.fact,
    )
