-- ===== src/Spend/Endings.antt =====
-- How each method of
-- packages/gateway-core/src/governed_llm_gateway_core/adapters/spend_admission_memory.py ends, and
-- any sequence of calls of them.
use governed_llm_gateway.Base.{
  ℕ, ◌≡◌, inl, inr, sym, subst, true, false, none, List, [], ◌∷◌, Text-discrete, Result, ok, raised,
  contains, lookup, same,
}
use governed_llm_gateway.Spend.{
  SpendReservationRequest, SpendBudgetScope, SpendBudgetScope-discrete, SpendBudgetSnapshot,
  SpendAttemptAllocation, SpendAttemptAllocation-discrete,
}
use governed_llm_gateway.Spend.Requests.{scopes_of}
use governed_llm_gateway.Spend.Receipts.{
  SpendReservation, SpendSettlement, SpendSettlementReceipt, SpendDispatchReceipt-discrete,
  SpendSettlement-discrete, SpendJournalSnapshot,
}
use governed_llm_gateway.Spend.Memory.{
  conflict, Failure, Outside, Frozen, Store, Call, Image, Execution, Change, then_with, ◌>>=◌,
  return, refuse, changed_budgets, next_image,
}
use governed_llm_gateway.Spend.Audit.{dispatch_at, is_approved}
use governed_llm_gateway.Spend.Worker.{
  budget_at, budget, journal_of, existing_execution, permits_all, issue, admit, reserve, is_current,
  claim, dispatch, settlement_of, record_outcome, repeat_outcome, settle, close_journal, close,
  is_closed,
}
use governed_llm_gateway.Spend.History.{
  Operation, reads_budget, reads_journal, reserves, asks_current, dispatches, settles, closes,
  drop_value, perform, run,
}
use governed_llm_gateway.Spend.Effects.{
  Owning, Covers, CoversFor, covers_each, EndsAs, Ends, IsSame-refl, now-Passes, date-Passes,
  fence-Passes, live-Passes, usage-Passes, refuse_if-Passes, constructed-Passes, bind-Ends,
  return-Ends, refuse-Ends, update-Ends, known-Ends, with_journal-Ends, if-Ends, validated-Ends,
  find-Ends, owning, not-false,
}

module _ {S : Type 0} (Pub : Execution → Change → Type 0) (s : Store S) where
  claim-Ends :
      (f : Frozen) (o : Outside S) (e : Execution) (r : SpendReservation)
      (a : SpendAttemptAllocation) (j : SpendJournalSnapshot)
      (covers : CoversFor f s.image Pub (dispatches r a))
      → Owning s.image e r j
      → contains SpendAttemptAllocation-discrete a r.request.allocations ≡ true
      → dispatch_at a e.dispatches ≡ none
      → Ends Pub s (claim o s.image e r a j)
  unfolding claim
  claim-Ends f o e r a j covers owning planned unclaimed =
      bind-Ends Pub s _ _ _ (refuse_if-Passes s _ _) λ _ _.
        bind-Ends Pub s _ _ _ (refuse_if-Passes s _ _) λ _ idle.
          bind-Ends Pub s _ _ _ (fence-Passes s o s.image) λ fence new_fence.
            bind-Ends Pub s _ _ _ (constructed-Passes s _) λ _ receipt_ok.
              bind-Ends Pub s _ _ _ (constructed-Passes s _) λ _ attempts_ok.
                bind-Ends Pub s _ _ _ (constructed-Passes s _) λ _ journal_ok.
                  update-Ends Pub s o _ _ _ (
                    covers e j fence (record {
                      owning = owning;
                      planned = planned;
                      unclaimed = unclaimed;
                      idle = idle;
                      new_fence = new_fence;
                      receipt_ok = receipt_ok;
                      attempts_ok = attempts_ok;
                      journal_ok = journal_ok;
                    }))

  issue-Ends :
      (f : Frozen) (o : Outside S) (request : SpendReservationRequest)
      (covers : CoversFor f s.image Pub (reserves request)) (now : ℕ)
      → is_approved (lookup Text-discrete request.execution_id f.approved) request ≡ true
      → existing_execution request.execution_id s.image.executions ≡ none
      → permits_all request s.image.budgets ≡ true
      → Ends Pub s (issue f o s.image request now)
  unfolding issue
  issue-Ends f o request covers now approved fresh permitted =
      bind-Ends Pub s _ _ _ (refuse_if-Passes s _ _) λ _ later.
        bind-Ends Pub s _ _ _ (fence-Passes s o s.image) λ fence new_fence.
          bind-Ends Pub s _ _ _ (constructed-Passes s _) λ _ reservation_ok.
            bind-Ends Pub s _ _ _ (constructed-Passes s _) λ _ attempts_ok.
              bind-Ends Pub s _ _ _ (constructed-Passes s _) λ _ journal_ok.
                update-Ends Pub s o _ _ _ (
                  covers.1 now fence (record {
                    approved = approved;
                    fresh = fresh;
                    permitted = permitted;
                    later = later;
                    new_fence = new_fence;
                    reservation_ok = reservation_ok;
                    attempts_ok = attempts_ok;
                    journal_ok = journal_ok;
                  }))

  reserve-Ends :
      (f : Frozen) (o : Outside S) (request : SpendReservationRequest)
      (covers : CoversFor f s.image Pub (reserves request))
      → Ends Pub s (reserve f o request)
  unfolding reserve admit
  reserve-Ends f o request covers = validated-Ends Pub s f _ (
      bind-Ends Pub s _ _ _ (refuse_if-Passes s _ _) λ _ approved.
        known-Ends Pub s _ _ _ (λ existing _. return-Ends Pub s _)
          λ fresh. bind-Ends Pub s _ _ _ (now-Passes s o) λ now _.
            bind-Ends Pub s _ _ _ (date-Passes s o request) λ _ _.
              bind-Ends Pub s _ _ _ (refuse_if-Passes s _ _) λ _ _.
                if-Ends Pub s _ _ _ (issue-Ends f o request covers now (not-false _ approved) fresh)
                  λ _.
                    update-Ends Pub s o _ _ _
                      (covers.0 (record { approved = not-false _ approved; fresh = fresh })))

  dispatch-Ends :
      (f : Frozen) (o : Outside S) (r : SpendReservation) (a : SpendAttemptAllocation)
      (covers : CoversFor f s.image Pub (dispatches r a))
      → Ends Pub s (dispatch f o r a)
  unfolding dispatch
  dispatch-Ends f o r a covers = validated-Ends Pub s f _ (
      find-Ends Pub s r _ _ λ e found held.
        bind-Ends Pub s _ _ _ (refuse_if-Passes s _ _) λ _ planned.
          known-Ends Pub s _ _ _ (λ d _. return-Ends Pub s d)
            λ unclaimed. bind-Ends Pub s _ _ _ (live-Passes s o e) λ _ alive.
              with_journal-Ends Pub s _ _ λ j journal.
                claim-Ends f o e r a j covers (owning Pub s e r j found held journal alive)
                  (not-false _ planned) unclaimed)

  record_outcome-Ends :
      (f : Frozen) (o : Outside S) (e : Execution) (settlement : SpendSettlement)
      (j : SpendJournalSnapshot) (covers : CoversFor f s.image Pub (settles settlement))
      → Owning s.image e settlement.dispatch.reservation j
      → contains SpendDispatchReceipt-discrete settlement.dispatch e.dispatches ≡ true
      → settlement_of settlement.dispatch e.settlements ≡ none
      → Ends Pub s (record_outcome o s.image e settlement j)
  unfolding record_outcome
  record_outcome-Ends f o e settlement j covers owning dispatched unsettled =
      bind-Ends Pub s _ _ _ (fence-Passes s o s.image) λ fence new_fence.
        bind-Ends Pub s _ _ _ (constructed-Passes s _) λ _ receipt_ok.
          bind-Ends Pub s _ _ _ (constructed-Passes s _) λ _ attempts_ok.
            bind-Ends Pub s _ _ _ (constructed-Passes s _) λ _ journal_ok.
              update-Ends Pub s o _ _ _ (
                covers e j fence (record {
                  owning = owning;
                  dispatched = dispatched;
                  unsettled = unsettled;
                  new_fence = new_fence;
                  receipt_ok = receipt_ok;
                  attempts_ok = attempts_ok;
                  journal_ok = journal_ok;
                }))

  repeat_outcome-Ends :
      (settlement : SpendSettlement) (existing : SpendSettlementReceipt)
      → Ends Pub s (repeat_outcome settlement existing)
  unfolding repeat_outcome
  repeat_outcome-Ends settlement existing =
      if-Ends Pub s (same SpendSettlement-discrete existing.settlement settlement) (return existing)
        (refuse conflict) (λ _. return-Ends Pub s existing) λ _. refuse-Ends Pub s conflict

  settle-Ends :
      (f : Frozen) (o : Outside S) (settlement : SpendSettlement)
      (covers : CoversFor f s.image Pub (settles settlement))
      → Ends Pub s (settle f o settlement)
  unfolding settle
  settle-Ends f o settlement covers = validated-Ends Pub s f _ (
      find-Ends Pub s settlement.dispatch.reservation _ _ λ e found held.
        bind-Ends Pub s _ _ _ (refuse_if-Passes s _ _) λ _ dispatched.
          known-Ends Pub s _ _ _ (λ existing _. repeat_outcome-Ends settlement existing)
            λ unsettled. bind-Ends Pub s _ _ _ (live-Passes s o e) λ _ alive.
              bind-Ends Pub s _ _ _ (usage-Passes s o settlement) λ _ _.
                with_journal-Ends Pub s _ _ λ j journal.
                  record_outcome-Ends f o e settlement j covers
                    (owning Pub s e settlement.dispatch.reservation j found held journal alive)
                    (not-false _ dispatched) unsettled)

  close_journal-Ends :
      (f : Frozen) (o : Outside S) (e : Execution) (r : SpendReservation) (j : SpendJournalSnapshot)
      (covers : CoversFor f s.image Pub (closes r))
      → (is_closed e.journal ≡ false → Owning s.image e r j)
      → Ends Pub s (close_journal o s.image e j)
  unfolding close_journal
  close_journal-Ends f o e r j covers own = bind-Ends Pub s _ _ _ (live-Passes s o e) λ _ alive.
      bind-Ends Pub s _ _ _ (constructed-Passes s _) λ _ attempts_ok.
        bind-Ends Pub s _ _ _ (fence-Passes s o s.image) λ fence new_fence.
          bind-Ends Pub s _ _ _ (constructed-Passes s _) λ _ journal_ok. update-Ends Pub s o _ _ _ (
            covers e j fence (record {
              owning = own alive;
              new_fence = new_fence;
              attempts_ok = attempts_ok;
              journal_ok = journal_ok;
            }))

  close-Ends :
      (f : Frozen) (o : Outside S) (r : SpendReservation)
      (covers : CoversFor f s.image Pub (closes r))
      → Ends Pub s (close f o r)
  unfolding close
  close-Ends f o r covers = validated-Ends Pub s f _ (
      find-Ends Pub s r _ _ λ e found held. with_journal-Ends Pub s _ _ λ j journal.
        if-Ends Pub s j.closed (return j) (close_journal o s.image e j) (λ _. return-Ends Pub s j)
          λ _. close_journal-Ends f o e r j covers (owning Pub s e r j found held journal))

  budget_at-Ends :
      (scope : SpendBudgetScope) (budgets : List SpendBudgetSnapshot)
      → Ends Pub s (budget_at scope budgets)
  unfolding budget_at
  budget_at-Ends scope [] = refuse-Ends Pub s _
  budget_at-Ends scope (b ∷ budgets) =
      if-Ends Pub s (same SpendBudgetScope-discrete b.limit.scope scope) (return b)
        (budget_at scope budgets) (λ _. return-Ends Pub s b) λ _. budget_at-Ends scope budgets

  budget-Ends :
      (f : Frozen) (scope : SpendBudgetScope) (epoch : ℕ) → Ends Pub s (budget f scope epoch)
  unfolding budget
  budget-Ends f scope epoch =
      validated-Ends Pub s f _
        (bind-Ends Pub s _ _ _ (refuse_if-Passes s _ _) λ _ _. budget_at-Ends scope s.image.budgets)

  journal_of-Ends : (f : Frozen) (r : SpendReservation) → Ends Pub s (journal_of f r)
  unfolding journal_of
  journal_of-Ends f r =
      validated-Ends Pub s f _
        (find-Ends Pub s r _ _ λ e _ _. with_journal-Ends Pub s _ _ λ j _. return-Ends Pub s j)

  is_current-Ends :
      (f : Frozen) (o : Outside S) (r : SpendReservation) → Ends Pub s (is_current f o r)
  unfolding is_current
  is_current-Ends f o r = validated-Ends Pub s f _ (
      find-Ends Pub s r _ _
        λ e _ _. bind-Ends Pub s _ _ _ (now-Passes s o) λ now _. return-Ends Pub s _)

  drop-EndsAs :
      {A : Type 0} (q : Result Failure A × Store S)
      → EndsAs Pub s q
      → EndsAs Pub s (then_with (λ value. return tt) q)
  unfolding then_with return
  drop-EndsAs (ok a, t) h = h
  drop-EndsAs (raised e, t) h = h

  drop-Ends : {A : Type 0} (m : Call S A) → Ends Pub s m → Ends Pub s (drop_value m)
  unfolding ◌>>=◌
  drop-Ends m h = record { ends = λ t same. drop-EndsAs (m t) (h.ends t same) }

  pub perform-Ends :
      (f : Frozen) (o : Outside S) (op : Operation)
      → CoversFor f s.image Pub op
      → Ends Pub s (perform f o op)
  unfolding perform
  perform-Ends f o (reads_budget scope epoch) c = drop-Ends _ (budget-Ends f scope epoch)
  perform-Ends f o (reads_journal r) c = drop-Ends _ (journal_of-Ends f r)
  perform-Ends f o (reserves request) c = drop-Ends _ (reserve-Ends f o request c)
  perform-Ends f o (asks_current r) c = drop-Ends _ (is_current-Ends f o r)
  perform-Ends f o (dispatches r a) c = drop-Ends _ (dispatch-Ends f o r a c)
  perform-Ends f o (settles settlement) c = drop-Ends _ (settle-Ends f o settlement c)
  perform-Ends f o (closes r) c = drop-Ends _ (close-Ends f o r c)

-- What every publication keeps of an image, every history keeps.
module _ {S : Type 0} (f : Frozen) (o : Outside S) (P : Image → Type 0)
    (keeps : (image : Image)
      → P image
      → Covers f image λ e c.
        (budgets : List SpendBudgetSnapshot)
        → changed_budgets (scopes_of e.request) c image.budgets ≡ ok budgets
        → P (next_image image e c budgets)) where
  ended-keeps :
      (s : Store S) (q : Result Failure (Unit {0}) × Store S)
      → P s.image
      → EndsAs
          (λ e c.
            (budgets : List SpendBudgetSnapshot)
            → changed_budgets (scopes_of e.request) c s.image.budgets ≡ ok budgets
            → P (next_image s.image e c budgets))
          s
          q
      → P q.1.image
  ended-keeps s (raised e, t) p (inl h) = subst P (sym h.image) p
  ended-keeps s (raised e, t) p (inr h) = subst P (sym h.image) (h.legitimate h.budgets h.fits)
  ended-keeps s (ok a, t) p (inl h) = subst P (sym h.image) p
  ended-keeps s (ok a, t) p (inr h) = subst P (sym h.image) (h.legitimate h.budgets h.fits)

  pub run-keeps : (ops : List Operation) (s : Store S) → P s.image → P (run f o ops s).image
  unfolding run
  run-keeps [] s p = p
  run-keeps (op ∷ ops) s p = run-keeps ops (perform f o op s).1 (
      ended-keeps s (perform f o op s) p (
        (perform-Ends _ s f o op (covers_each f s.image _ op (keeps s.image p))).ends s
          (IsSame-refl s)))
