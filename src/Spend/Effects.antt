-- ===== src/Spend/Effects.antt =====
-- What the methods of
-- packages/gateway-core/src/governed_llm_gateway_core/adapters/spend_admission_memory.py publish:
-- nothing, or one new image, in one of five ways.
use governed_llm_gateway.Base.{
  ℕ, ◌+◌, ◌≡◌, ◌⊎◌, inl, inr, refl, sym, subst, Bool, true, false, not, Option, none, some, List,
  [], ◌∷◌, map, arith, leb, Text, Text-discrete, Result, ok, raised, contains, lookup, Bool-cases,
  if◌then◌else◌,
}
use governed_llm_gateway.Spend.{
  SpendReservationRequest, SpendBudgetSnapshot, SpendAttemptAllocation,
  SpendAttemptAllocation-discrete, Checked, ContractError,
}
use governed_llm_gateway.Spend.Requests.{scopes_of, reserved_micros}
use governed_llm_gateway.Spend.Receipts.{
  SpendReservation, SpendSettlement, SpendDispatchReceipt-discrete, SpendJournalSnapshot,
  check_reservation, check_dispatch, check_journal, check_settlement_receipt,
}
use governed_llm_gateway.Spend.Memory.{
  SpendControlErrorCode, Failure, Outside, Frozen, Store, Call, Image, Execution, Change, then_with,
  ◌>>=◌, ◌>>◌, return, refuse, refuse_if, constructed, known_or, now_of, accept_now,
  check_admission_date, accept_date, fence_of, accept_fence, changed_budgets, next_image, commit,
  persist, persisted, CommitEnd, commits, faults_before, faults_after, publish, update,
}
use governed_llm_gateway.Spend.Audit.{validated_image, is_valid_store, dispatch_at, is_approved}
use governed_llm_gateway.Spend.History.{
  Operation, reads_budget, reads_journal, reserves, asks_current, dispatches, settles, closes,
}
use governed_llm_gateway.Spend.Worker.{
  find_execution, live, existing_execution, permits_all, denied, no_change, fresh_attempt,
  fresh_journal, fresh_reservation, issued, check_attempts, is_in_flight, claim_receipt,
  claimed_journal, claimed, check_usage, accept_usage, settlement_of, settled_journal,
  settlement_receipt, with_outcome, outcome_change, unused_micros, closed_journal, with_journal,
  is_closed,
}

-- What other methods see of a store is the same.
pub record IsSame {S : Type 0} (s t : Store S) : Type 0 where
  pub image : t.image ≡ s.image
  pub revision : t.revision ≡ s.revision
  pub seen : t.seen ≡ s.seen
  pub failed : t.failed ≡ s.failed

pub IsSame-refl : {S : Type 0} (s : Store S) → IsSame s s
IsSame-refl s = record { image = refl; revision = refl; seen = refl; failed = refl }

-- Nothing is published, though the store may be marked as failed.
pub record IsKept {S : Type 0} (s t : Store S) : Type 0 where
  pub image : t.image ≡ s.image
  pub revision : t.revision ≡ s.revision
  pub seen : t.seen ≡ s.seen
  pub failed : (t.failed ≡ s.failed) ⊎ (t.failed ≡ true)

-- A new identifier was drawn.
pub record IsFresh (image : Image) (fence : Text) : Type 0 where
  pub unused : contains Text-discrete fence image.fences ≡ false

-- The facts at hand where each method publishes.
pub record Denying (f : Frozen) (image : Image) (request : SpendReservationRequest) : Type 0 where
  pub approved : is_approved (lookup Text-discrete request.execution_id f.approved) request ≡ true
  pub fresh : existing_execution request.execution_id image.executions ≡ none

pub record Issuing (f : Frozen) (image : Image) (request : SpendReservationRequest) (now : ℕ)
    (fence : Text) : Type 0 where
  pub approved : is_approved (lookup Text-discrete request.execution_id f.approved) request ≡ true
  pub fresh : existing_execution request.execution_id image.executions ≡ none
  pub permitted : permits_all request image.budgets ≡ true
  pub later : leb (now + f.lease) now ≡ false
  pub new_fence : IsFresh image fence
  pub reservation_ok : check_reservation (fresh_reservation f request fence) ≡ ok tt
  pub attempts_ok : check_attempts (map fresh_attempt request.allocations) ≡ ok tt
  pub journal_ok : check_journal (fresh_journal (fresh_reservation f request fence)) ≡ ok tt

-- The execution of a reservation, with an open journal.
pub record Owning (image : Image) (e : Execution) (r : SpendReservation) (j : SpendJournalSnapshot)
    : Type 0 where
  pub found : existing_execution r.request.execution_id image.executions ≡ some e
  pub held : e.reservation ≡ some r
  pub journal : e.journal ≡ some j
  pub is_open : j.closed ≡ false

pub record Claiming (image : Image) (e : Execution) (r : SpendReservation)
    (a : SpendAttemptAllocation) (j : SpendJournalSnapshot) (fence : Text) : Type 0 where
  pub owning : Owning image e r j
  pub planned : contains SpendAttemptAllocation-discrete a r.request.allocations ≡ true
  pub unclaimed : dispatch_at a e.dispatches ≡ none
  pub idle : is_in_flight j.attempts ≡ false
  pub new_fence : IsFresh image fence
  pub receipt_ok : check_dispatch (claim_receipt r a fence) ≡ ok tt
  pub attempts_ok : check_attempts (claimed_journal a fence j).attempts ≡ ok tt
  pub journal_ok : check_journal (claimed_journal a fence j) ≡ ok tt

pub record Settling (image : Image) (e : Execution) (settlement : SpendSettlement)
    (j : SpendJournalSnapshot) (fence : Text) : Type 0 where
  pub owning : Owning image e settlement.dispatch.reservation j
  pub dispatched : contains SpendDispatchReceipt-discrete settlement.dispatch e.dispatches ≡ true
  pub unsettled : settlement_of settlement.dispatch e.settlements ≡ none
  pub new_fence : IsFresh image fence
  pub receipt_ok : check_settlement_receipt (settlement_receipt settlement fence) ≡ ok tt
  pub attempts_ok : check_attempts (settled_journal settlement j).attempts ≡ ok tt
  pub journal_ok : check_journal (settled_journal settlement j) ≡ ok tt

pub record Closing (image : Image) (e : Execution) (r : SpendReservation) (j : SpendJournalSnapshot)
    (fence : Text) : Type 0 where
  pub owning : Owning image e r j
  pub new_fence : IsFresh image fence
  pub attempts_ok : check_attempts (closed_journal fence j).attempts ≡ ok tt
  pub journal_ok : check_journal (closed_journal fence j) ≡ ok tt

-- A relation of an image to what is published that covers all five.
pub record Covers (f : Frozen) (image : Image) (Pub : Execution → Change → Type 0) : Type 0 where
  pub denying :
      (request : SpendReservationRequest) → Denying f image request → Pub (denied request) no_change
  pub issuing :
      (request : SpendReservationRequest) (now : ℕ) (fence : Text)
      → Issuing f image request now fence
      → Pub
          (issued f request now fence)
          (record no_change { held_plus = reserved_micros request; fence = some fence })
  pub claiming :
      (e : Execution) (r : SpendReservation) (a : SpendAttemptAllocation) (j : SpendJournalSnapshot)
      (fence : Text)
      → Claiming image e r a j fence
      → Pub (claimed e r a fence j) (record no_change { fence = some fence })
  pub settling :
      (e : Execution) (settlement : SpendSettlement) (j : SpendJournalSnapshot) (fence : Text)
      → Settling image e settlement j fence
      → Pub (with_outcome e settlement fence j) (outcome_change settlement fence)
  pub closing :
      (e : Execution) (r : SpendReservation) (j : SpendJournalSnapshot) (fence : Text)
      → Closing image e r j fence
      → Pub
          (record e { journal = some (closed_journal fence j) })
          (record no_change { held_minus = unused_micros j.attempts; fence = some fence })

-- The same for what one operation may publish.
abbrev pub CoversFor : Frozen → Image → (Execution → Change → Type 0) → Operation → Type 0
CoversFor f image Pub (reserves request) =
    (Denying f image request → Pub (denied request) no_change)
    × ((now : ℕ) (fence : Text)
        → Issuing f image request now fence
        → Pub (issued f request now fence)
            (record no_change { held_plus = reserved_micros request; fence = some fence }))
CoversFor f image Pub (dispatches r a) =
    (e : Execution) (j : SpendJournalSnapshot) (fence : Text)
    → Claiming image e r a j fence
    → Pub (claimed e r a fence j) (record no_change { fence = some fence })
CoversFor f image Pub (settles settlement) =
    (e : Execution) (j : SpendJournalSnapshot) (fence : Text)
    → Settling image e settlement j fence
    → Pub (with_outcome e settlement fence j) (outcome_change settlement fence)
CoversFor f image Pub (closes r) =
    (e : Execution) (j : SpendJournalSnapshot) (fence : Text)
    → Closing image e r j fence
    → Pub (record e { journal = some (closed_journal fence j) })
        (record no_change { held_minus = unused_micros j.attempts; fence = some fence })
CoversFor f image Pub _ = Unit

pub covers_each :
    (f : Frozen) (image : Image) (Pub : Execution → Change → Type 0) (op : Operation)
    → Covers f image Pub
    → CoversFor f image Pub op
covers_each f image Pub (reads_budget scope epoch) c = tt
covers_each f image Pub (reads_journal r) c = tt
covers_each f image Pub (reserves request) c = (c.denying request, c.issuing request)
covers_each f image Pub (asks_current r) c = tt
covers_each f image Pub (dispatches r a) c = λ e. c.claiming e r a
covers_each f image Pub (settles settlement) c = λ e. c.settling e settlement
covers_each f image Pub (closes r) c = λ e. c.closing e r

-- One image was published.
pub record Published {S : Type 0} (Pub : Execution → Change → Type 0) (s t : Store S) : Type 0 where
  pub execution : Execution
  pub change : Change
  pub budgets : List SpendBudgetSnapshot
  pub legitimate : Pub execution change
  pub fits : changed_budgets (scopes_of execution.request) change s.image.budgets ≡ ok budgets
  pub image : t.image ≡ next_image s.image execution change budgets
  pub revision : t.revision ≡ (next_image s.image execution change budgets).revision
  pub seen :
      t.seen
      ≡ map (λ e. e.request.execution_id) (next_image s.image execution change budgets).executions
  pub failed : t.failed ≡ s.failed

-- How a method ends: it publishes nothing or one image, and may raise after either.
abbrev pub EndsAs :
    {S A : Type 0} → (Execution → Change → Type 0) → Store S → Result Failure A × Store S → Type 0
EndsAs Pub s (raised e, t) = IsKept s t ⊎ Published Pub s t
EndsAs Pub s (ok a, t) = IsSame s t ⊎ Published Pub s t

-- A method from a store that looks like `s`.
pub record Ends {S A : Type 0} (Pub : Execution → Change → Type 0) (s : Store S) (m : Call S A)
    : Type 0 where
  pub ends : (t : Store S) → IsSame s t → EndsAs Pub s (m t)

-- How a step ends that publishes nothing: with a value of which `Q` holds.
abbrev pub PassesAs : {S A : Type 0} → (A → Type 0) → Store S → Result Failure A × Store S → Type 0
PassesAs Q s (raised e, t) = IsSame s t
PassesAs Q s (ok a, t) = IsSame s t × Q a

pub record Passes {S A : Type 0} (Q : A → Type 0) (s : Store S) (m : Call S A) : Type 0 where
  pub passes : (t : Store S) → IsSame s t → PassesAs Q s (m t)

module _ {S : Type 0} (s : Store S) where
  pub now-Passes : (o : Outside S) → Passes (λ now. Unit {0}) s (now_of o)
  unfolding ◌>>=◌ then_with return refuse_if now_of accept_now
  now-Passes o = record { passes = λ t h. ground arith }

  pub date-Passes :
      (o : Outside S) (request : SpendReservationRequest)
      → Passes (λ done. Unit {0}) s (check_admission_date o request)
  unfolding check_admission_date accept_date
  date-Passes o request = record { passes = λ t h. ground arith }

  pub fence-Passes :
      (o : Outside S) (image : Image) → Passes (λ fence. IsFresh image fence) s (fence_of o image)
  unfolding fence_of accept_fence
  fence-Passes o image = record { passes = λ t h. ground arith }

  pub live-Passes :
      (o : Outside S) (e : Execution) → Passes (λ done. is_closed e.journal ≡ false) s (live o e)
  unfolding ◌>>=◌ then_with refuse_if live now_of accept_now
  live-Passes o e = record { passes = λ t h. ground arith }

  pub usage-Passes :
      (o : Outside S) (settlement : SpendSettlement)
      → Passes (λ done. Unit {0}) s (check_usage o settlement)
  unfolding return refuse check_usage accept_usage
  usage-Passes o settlement = record { passes = λ t h. ground arith }

  pub refuse_if-Passes :
      (b : Bool) (code : SpendControlErrorCode) → Passes (λ done. b ≡ false) s (refuse_if b code)
  unfolding refuse_if
  refuse_if-Passes b code = record { passes = λ t h. ground arith }

  pub constructed-Passes : (c : Checked) → Passes (λ done. c ≡ ok tt) s (constructed c)
  unfolding constructed
  constructed-Passes c = record { passes = λ t h. ground arith }

module _ {S : Type 0} (s : Store S) where
  find-Passes :
      (r : SpendReservation) (executions : List Execution)
      → Passes
          (λ e.
            (existing_execution r.request.execution_id executions ≡ some e)
            × (e.reservation ≡ some r))
          s
          (find_execution r executions)
  unfolding find_execution existing_execution return refuse
  find-Passes r [] = record { passes = λ t h. ground arith }
  find-Passes r (e ∷ executions) = record {
    passes = λ t h. ground (arith, (find-Passes r executions).passes t h);
  }

pub not-false : (b : Bool) → not b ≡ false → b ≡ true
not-false true h = refl
not-false false h = cc

module _ {S : Type 0} (Pub : Execution → Change → Type 0) (s : Store S) where
  pub owning :
      (e : Execution) (r : SpendReservation) (j : SpendJournalSnapshot)
      → existing_execution r.request.execution_id s.image.executions ≡ some e
      → e.reservation ≡ some r
      → e.journal ≡ some j
      → is_closed e.journal ≡ false
      → Owning s.image e r j
  owning e r j found held journal alive = record {
    found = found;
    held = held;
    journal = journal;
    is_open = ground arith;
  }

  same-IsKept : (t : Store S) → IsSame s t → IsKept s t
  same-IsKept t h = record {
    image = h.image;
    revision = h.revision;
    seen = h.seen;
    failed = inl h.failed;
  }

  then-EndsAs :
      {A B : Type 0} (Q : A → Type 0) (rest : A → Call S B) (q : Result Failure A × Store S)
      → PassesAs Q s q
      → ((a : A) → Q a → Ends Pub s (rest a))
      → EndsAs Pub s (then_with rest q)
  unfolding then_with
  then-EndsAs Q rest (raised e, t) h k = inl (same-IsKept t h)
  then-EndsAs Q rest (ok a, t) h k = (k a h.1).ends t h.0

  pub bind-Ends :
      {A B : Type 0} (Q : A → Type 0) (m : Call S A) (rest : A → Call S B)
      → Passes Q s m
      → ((a : A) → Q a → Ends Pub s (rest a))
      → Ends Pub s (m >>= rest)
  unfolding ◌>>=◌
  bind-Ends Q m rest h k = record { ends = λ t same. then-EndsAs Q rest (m t) (h.passes t same) k }

  pub return-Ends : {A : Type 0} (a : A) → Ends Pub s (return a)
  unfolding return
  return-Ends a = record { ends = λ t h. inl h }

  pub refuse-Ends : {A : Type 0} (code : SpendControlErrorCode) → Ends {A = A} Pub s (refuse code)
  unfolding refuse
  refuse-Ends code = record { ends = λ t h. inl (same-IsKept t h) }

  committed-Published :
      (e : Execution) (c : Change) (budgets : List SpendBudgetSnapshot) (t : Store S)
      → changed_budgets (scopes_of e.request) c s.image.budgets ≡ ok budgets
      → IsSame s t
      → Pub e c
      → Published Pub s (commit (next_image s.image e c budgets) t)
  unfolding commit
  committed-Published e c budgets t fits h p = record {
    execution = e;
    change = c;
    budgets = budgets;
    legitimate = p;
    fits = fits;
    image = refl;
    revision = refl;
    seen = refl;
    failed = h.failed;
  }

  persisted-EndsAs :
      {A : Type 0} (e : Execution) (c : Change) (a : A) (budgets : List SpendBudgetSnapshot)
      (end : CommitEnd) (t : Store S)
      → changed_budgets (scopes_of e.request) c s.image.budgets ≡ ok budgets
      → IsSame s t
      → Pub e c
      → EndsAs Pub s
          (then_with (λ done. return a) (persisted end (next_image s.image e c budgets) t))
  unfolding persisted then_with return
  persisted-EndsAs e c a budgets commits t fits h p =
      inr (committed-Published e c budgets t fits h p)
  persisted-EndsAs e c a budgets faults_before t fits h p = inl (same-IsKept t h)
  persisted-EndsAs e c a budgets faults_after t fits h p =
      inr (committed-Published e c budgets t fits h p)

  published-EndsAs :
      {A : Type 0} (o : Outside S) (e : Execution) (c : Change) (a : A) (t : Store S)
      (end : Result ContractError (List SpendBudgetSnapshot))
      → changed_budgets (scopes_of e.request) c s.image.budgets ≡ end
      → IsSame s t
      → Pub e c
      → EndsAs Pub s (then_with (λ done. return a) (publish o s.image e c end t))
  unfolding publish persist then_with
  published-EndsAs o e c a t (ok budgets) fits h p =
      let (end, outside) = o.commit_end t.outside in
      persisted-EndsAs e c a budgets end (record t { outside = outside }) fits
        (record { image = h.image; revision = h.revision; seen = h.seen; failed = h.failed }) p
  published-EndsAs o e c a t (raised f) fits h p =
      inl (record { image = h.image; revision = h.revision; seen = h.seen; failed = inr refl })

  pub update-Ends :
      {A : Type 0} (o : Outside S) (e : Execution) (c : Change) (a : A)
      → Pub e c
      → Ends Pub s (update o s.image e c >> return a)
  unfolding update ◌>>=◌
  update-Ends o e c a p = record { ends = λ t h. published-EndsAs o e c a t _ refl h p }

  pub known-Ends {ℓ} :
      {A : Type ℓ} {B : Type 0} (x : Option A) (found : A → Call S B) (missing : Call S B)
      → ((a : A) → x ≡ some a → Ends Pub s (found a))
      → (x ≡ none → Ends Pub s missing)
      → Ends Pub s (known_or x found missing)
  unfolding known_or
  known-Ends none found missing f m = m refl
  known-Ends (some a) found missing f m = f a refl

  pub with_journal-Ends :
      {B : Type 0} (x : Option SpendJournalSnapshot) (rest : SpendJournalSnapshot → Call S B)
      → ((j : SpendJournalSnapshot) → x ≡ some j → Ends Pub s (rest j))
      → Ends Pub s (with_journal rest x)
  unfolding with_journal
  with_journal-Ends none rest f = refuse-Ends _
  with_journal-Ends (some j) rest f = f j refl

  pub if-Ends :
      {B : Type 0} (b : Bool) (m n : Call S B)
      → (b ≡ true → Ends Pub s m)
      → (b ≡ false → Ends Pub s n)
      → Ends Pub s (if b then m else n)
  if-Ends true m n f g = f refl
  if-Ends false m n f g = g refl

  pub validated-Ends :
      {B : Type 0} (f : Frozen) (rest : Image → Call S B)
      → Ends Pub s (rest s.image)
      → Ends Pub s (validated_image f >>= rest)
  unfolding validated_image ◌>>=◌ then_with return refuse
  validated-Ends f rest k = record { ends = λ t h. go t h (Bool-cases (is_valid_store f t)) }
    where
      go :
          (t : Store S)
          → IsSame s t
          → (is_valid_store f t ≡ true) ⊎ (is_valid_store f t ≡ false)
          → EndsAs Pub s ((validated_image f >>= rest) t)
      go t h (inl e) =
          rw e (subst (λ image. EndsAs Pub s (rest image t)) (sym h.image) (k.ends t h))
      go t h (inr e) = rw e (inl (same-IsKept t h))

  pub find-Ends :
      {B : Type 0} (r : SpendReservation) (executions : List Execution)
      (rest : Execution → Call S B)
      → ((e : Execution)
          → existing_execution r.request.execution_id executions ≡ some e
          → e.reservation ≡ some r
          → Ends Pub s (rest e))
      → Ends Pub s (find_execution r executions >>= rest)
  find-Ends r executions rest k =
      bind-Ends _ _ _ (find-Passes s r executions) λ e facts. k e facts.0 facts.1
