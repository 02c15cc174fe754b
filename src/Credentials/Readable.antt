-- ===== src/Credentials/Readable.antt =====
-- Histories of calls on a sound store:
-- packages/gateway-core/src/governed_llm_gateway_core/adapters/credential_availability_memory.py.
use governed_llm_gateway.Base.{ℕ, refl, List, [], ◌∷◌, lookup}
use governed_llm_gateway.Credentials.History.{
  Operation, reads, admits, asks_admitted, releases, completes, asks_current, rejects, publishes,
  perform, run,
}
use governed_llm_gateway.Credentials.Memory.{
  Store, fresh, now_of, require_opaque_id, snapshot, admit, is_admitted, release,
  complete_validation, is_completion_current, record_rejection, publish,
}
use governed_llm_gateway.Credentials.Sound.{IsSound, >>=-Keeps, record_then-Keeps}
use governed_llm_gateway.Credentials.Admitting.{now_of-Keeps, require-Keeps, admit-Keeps}
use governed_llm_gateway.Credentials.Completing.{release_found-keeps, complete_found-keeps}
use governed_llm_gateway.Credentials.Publishing.{reject_found-keeps, publish_found-keeps}

perform-IsSound : (op : Operation) (s : Store) → IsSound s → IsSound (perform op s)
unfolding perform snapshot admit is_admitted release complete_validation is_completion_current
    record_rejection publish
perform-IsSound (reads reading b) = >>=-Keeps (require_opaque_id b) _ (require-Keeps b) (λ done.
    >>=-Keeps (now_of reading) _ (now_of-Keeps reading)
      (λ now. record_then-Keeps b _ (λ found s sound e. sound)))
perform-IsSound (admits reading uuid g a) = admit-Keeps reading uuid g a
perform-IsSound (asks_admitted reading admission) =
    >>=-Keeps (now_of reading) _ (now_of-Keeps reading)
      (λ now. record_then-Keeps admission.generation.binding_id _ (λ found s sound e. sound))
perform-IsSound (releases admission) =
    record_then-Keeps admission.generation.binding_id _ (release_found-keeps admission)
perform-IsSound (completes reading uuid admission) =
    >>=-Keeps (now_of reading) _ (now_of-Keeps reading) (λ now.
      record_then-Keeps admission.generation.binding_id _ (complete_found-keeps uuid admission now))
perform-IsSound (asks_current receipt) =
    record_then-Keeps receipt.generation.binding_id _ (λ found s sound e. sound)
perform-IsSound (rejects rejection) =
    record_then-Keeps rejection.generation.binding_id _ (reject_found-keeps rejection.generation)
perform-IsSound (publishes p) = record_then-Keeps p.generation.binding_id _ (publish_found-keeps p)

-- From any sound store, every history of calls of the methods, whatever the clock and `uuid4`
-- answer and whichever values the callers pass, ends in a store all of whose records `_record`
-- accepts, and in which every binding that was seen has a record.
pub history-IsSound : (ops : List Operation) (s : Store) → IsSound s → IsSound (run ops s)
unfolding run
history-IsSound [] s sound = sound
history-IsSound (op ∷ ops) s sound = history-IsSound ops (perform op s) (perform-IsSound op s sound)

pub fresh-IsSound : (lease : ℕ) → IsSound (fresh lease)
unfolding lookup
fresh-IsSound lease = record { valid = λ b r e. cc; known = λ b e. refl }
