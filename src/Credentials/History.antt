-- ===== src/Credentials/History.antt =====
-- Calls of the methods of
-- packages/gateway-core/src/governed_llm_gateway_core/adapters/credential_availability_memory.py by
-- readers, workers and publishers of one state, one after the other.
use governed_llm_gateway.Base.{ℕ, List, [], ◌∷◌, Text}
use governed_llm_gateway.Credentials.{
  CredentialGeneration, CredentialGenerationPublication, CredentialAdmission,
  CredentialCompletionReceipt, CredentialBindingRejection,
}
use governed_llm_gateway.Credentials.Memory.{
  Answer, Store, snapshot, admit, is_admitted, release, complete_validation, is_completion_current,
  record_rejection, publish,
}

pub data Operation : Type 0 where
  reads : Answer ℕ → Text → Operation
  admits : Answer ℕ → Answer Text → CredentialGeneration → Text → Operation
  asks_admitted : Answer ℕ → CredentialAdmission → Operation
  releases : CredentialAdmission → Operation
  completes : Answer ℕ → Answer Text → CredentialAdmission → Operation
  asks_current : CredentialCompletionReceipt → Operation
  rejects : CredentialBindingRejection → Operation
  publishes : CredentialGenerationPublication → Operation

-- The store after a call.
unfoldable pub perform : Operation → Store → Store
unfolding snapshot admit is_admitted release complete_validation is_completion_current
    record_rejection publish
perform (reads reading binding) s = (snapshot reading binding s).1
perform (admits reading uuid g attempt_id) s = (admit reading uuid g attempt_id s).1
perform (asks_admitted reading admission) s = (is_admitted reading admission s).1
perform (releases admission) s = (release admission s).1
perform (completes reading uuid admission) s = (complete_validation reading uuid admission s).1
perform (asks_current receipt) s = (is_completion_current receipt s).1
perform (rejects rejection) s = (record_rejection rejection s).1
perform (publishes publication) s = (publish publication s).1

-- The store after a history of calls, whether they raise or not.
unfoldable pub run : List Operation → Store → Store
unfolding perform
run [] s = s
run (op ∷ ops) s = run ops (perform op s)
