-- ===== src/Lib.antt =====
-- The core of governed-llm-gateway: what is decided about a request before a provider is called,
-- and how its execution is retried. Paths are from packages/gateway-core/src/
-- governed_llm_gateway_core unless they name another package.
--
-- Base holds what the modules share: Python strings as lists of code points, calls that return or
-- raise, dictionaries, sorted lists and finite non-negative Decimals in the default context.
--
-- Health models the per-deployment circuit breaker: domain/resilience.py in Health itself, and
-- InMemoryHealthTracker of application/resilience.py as one function for each method. Circuit has
-- the methods on the state of one deployment, InMemory the dictionary around them, History and
-- Calls the sequences of calls; Sound, Latency, Fencing, Probing and Recovery have proofs. The monotonic clock and
-- uuid4 are a World, read as often as the code reads them; instants are natural numbers, and
-- latencies integers, which the code does not refuse when they are negative.
--
-- Routing models the way from a request to a routing decision. Policy has the projection of the
-- request, the Policy Model Router as a parameter, and the boundary that keeps what it authorized
-- (application/policy.py, domain/authorization.py). Eligibility has the checks of one deployment
-- and its score and price, and Ranking the service that ranks and the service that explains
-- (application/ranking.py, domain/ranking.py, domain/model_registry.py). Hashes are parameters.
-- Eligible, Selection and Boundary have the proofs. The values come from
-- packages/gateway-contracts/src/governed_llm_gateway_contracts.
--
-- Exec models ResilientExecutionService of application/resilience.py: the loops over candidates
-- and attempts in Service, and in Service.Steps the scope that gives an admission back
-- (application/health.py) and the local deadline (application/execution_deadline.py). It takes the
-- decision of Routing. It starts at `_execute`: that the public `execute` reads the clock first, for
-- the deadline, is not modelled. The health port, the resolver, the provider, the clock and the sleeper are
-- parameters on a state of their own that may answer anything or raise; the calls made of them
-- are recorded beside the local variables of the code. Calls, Released, Evidence, Served and Delays
-- have its proofs.
--
-- Spend models spend admission, domain/spend_admission.py and adapters/spend_admission_memory.py.
-- Spend itself and Requests have the values of a budget and of a plan with the checks of their
-- constructors, Receipts what the store issues, Memory the state with its construction, clocks and
-- fences and `_update`, Audit `_validated_image`, and Worker the methods of the reader and the
-- worker. The clocks, uuid4 and the validator of usage are parameters on a state of their own that
-- may answer anything or raise, and so is whether `_commit` raises, which `_persist` handles: before
-- it has published or after. A commit is never cut in half. The lock makes each method one step, and
-- History runs any sequence of methods. Effects and Endings show what a method may publish, Refined
-- gives it as the transitions of a ledger, and Counting, Located, Accounted,
-- Slots, Owned, Audited and Admitted what a publication does to the audit; Conserved, Capped,
-- Receipted, Changes, Sequence and Rounding have the results and the lemmas next to them.
--
-- Credentials models credential availability, domain/credential_availability.py and
-- adapters/credential_availability_memory.py: the values in Credentials itself, and in Memory the
-- store with the tests of `_record` and the methods of the reader, the worker and the publisher.
-- What the clock and uuid4 answer in a method is an argument of it; the lock makes each method one
-- step. History runs any sequence of methods. Sound, Admitting, Completing and Publishing show what
-- each method keeps of the store, and Readable and Denied have the results. Generations and publications are
-- taken as constructed, whatever they hold.
--
-- No definition runs on fuel but the count of decimal digits, whose fuel is the number itself, and
-- the 32 digits of a UUID: the loops are recursion on the list of candidates and on the number of attempts left.
--
-- Not modelled: telemetry and operational evidence, asyncio timeouts around a call, the HTTP
-- applications, provider adapters, parsers of configuration, streaming, the spend guard and the
-- evidence of cost, response cache and complexity routing. Of spend admission, the checks of a
-- Python type are left to the types of the model. Rounding of floating-point seconds is not modelled: durations are counted
-- in ticks.
pub mod Base
pub mod Credentials
pub mod Health
pub mod Routing
pub mod Exec
pub mod Spend
