-- ===== src/Lib.antt =====
-- A verification library of Varsten, the proxy that cuts the cost of calls to model providers.
--
-- The parts of the program, and the files that model them. Paths of the code are from the
-- repository's root, and code names stand in the comment above each definition.
--
-- * The request path. backend/app/proxy/shared_state.py is the store that app instances share:
--   Proxy/SharedState holds its interface with the laws that clients rely on, and its child
--   InProcess the in-process implementation. backend/app/proxy/circuit.py is the circuit breaker
--   of an upstream, which publishes a flag to that store (Proxy/Circuit).
--   backend/app/core/ratelimit.py limits calls in fixed windows (Proxy/RateLimit).
--   backend/app/proxy/canary.py and the promotion in backend/app/proxy/drift.py ramp a policy up
--   (Proxy/Canary). backend/app/engine/bandit.py chooses among routed models (Proxy/Bandit).
--   backend/app/budgets.py and backend/app/proxy/budget_enforcement.py compute budgets and block
--   on hard caps, the latter behind the shared store (Proxy/Budget).
--   backend/app/proxy/resilience.py retries posts, on the statuses that the circuit breaker
--   counts (Proxy/Resilience). backend/app/proxy/cache.py keeps responses and serves them again
--   (Proxy/Cache). backend/app/alerts.py evaluates the alert rules on the same ledger and budgets
--   (Alerts).
-- * The planner. backend/app/engine/planner.py classifies a request, makes a candidate of each
--   lever, and selects an action: Engine/Types has the records of backend/app/engine/types.py,
--   Engine/Classification and Engine/CachePolicy the modules of those names, Engine/Candidates
--   the candidates, and Engine/Planner the outcome priors, the selection and the plan.
--   backend/app/engine/outcomes.py learns from past decisions the priors that the planner reads
--   (Engine/Outcomes).
-- * Request bodies. Payload/Json has the JSON values that a body is read as and Payload/Equality
--   their comparison. backend/app/proxy/client_dialects.py parses a call (Payload/Wire for its
--   path and headers, Payload/Dialects for its body), backend/app/engine/request_facts.py makes
--   the facts that the planner classifies (Payload/Facts), backend/app/proxy/predicate.py says
--   which requests a routing policy takes (Payload/Predicate),
--   backend/app/proxy/routing_eligibility.py which may go to another provider
--   (Payload/CrossProvider), backend/app/proxy/trim.py shortens messages (Payload/Whitespace,
--   Payload/Trim), and backend/app/proxy/client_transforms.py renders the answer's stream for an
--   Anthropic client (Payload/Stream, with its end in Payload/Stream/Finish) and for a Gemini
--   client (Payload/Gemini).
-- * Batches. backend/app/proxy/batch.py stages, submits, polls, finalizes and purges the jobs of
--   backend/app/models/batch.py (Batch/Jobs), and measures their output into the rows of
--   backend/app/proxy/ledger.py (Batch/Usage).
-- * Money. backend/app/pricing/service.py finds the price of a model and the cost of an event
--   (Billing/Pricing). backend/app/billing.py computes the fee and keeps the invoices
--   (Billing/Fee, Billing/Invoice); backend/app/billing_lifecycle.py moves an organization
--   between plans (Billing/Lifecycle); backend/app/auth/entitlements.py says what an organization
--   may do, after the lifecycle's own correction on the control plane (Billing/Entitlement).
-- * Changes to production. backend/app/recommendation_transitions.py applies, dismisses and rolls
--   back a recommendation, and backend/app/engine/promotion.py applies open ones by itself
--   (Apply/Transitions). It asks backend/app/eval/gate.py (Apply/EvalGate)
--   and backend/app/engine/governance.py (Apply/Governance), writes the policies of
--   backend/app/proxy/routing.py, trim.py, compression.py and execution.py (Apply/Policies), and
--   records the savings by backend/app/savings.py (Apply/Savings). Their rows are in
--   Apply/Records.
--
-- A module holds the definitions of its part; the modules below it hold the proofs, named for
-- what they prove. Prelude has the shared notation: tests on native numbers, lists, dicts, and
-- integers. Tests applies each theorem at a concrete input.
--
-- State is passed explicitly: a handler takes the rows it reads and returns the rows it writes. A
-- raised exception is an error value; it has no new state where it ends a request before its commit,
-- and has the state that is committed where the code goes on (Apply/Transitions, Batch/Jobs). Time is a whole number of ticks and
-- is an argument wherever the code reads a clock; random draws are arguments. Money and rates are
-- whole numbers of the last decimal place of the code's own decimals. Settings are records, one
-- for each part, with the fields that the part reads. Ids and keys are texts. What a database
-- query selects is written as a recursion over the list of rows.
--
-- No definition runs on fuel: every loop is a recursion on a list or on a number of attempts that
-- the settings give.
--
-- Parameters, since they are packages and not code of the repository: the shared store of a
-- client (Redis or the in-process one, through its interface), the TTL cache and the text form of
-- the caps in Proxy/Budget/Cache, the provider's answers in Proxy/Resilience and Batch/Jobs with
-- the storage of objects, the answer of the Redis script in Proxy/RateLimit, the sending of
-- alerts and the text of decimals in Alerts and Engine/Outcomes, the Unicode tables of str.lower,
-- str.upper and str.strip, the path that urlsplit finds in Payload/Wire, the cosine distance of
-- embeddings in Proxy/Cache, and the number that int() reads in a text.
--
-- Not modelled: the HTTP layer and its queries, provider adapters, the translation of requests
-- and answers between dialects and the decoding of SSE lines, the Stripe client, the eval runner,
-- the statistics of drift and experiments, reports and dashboards, the resolution of policies on
-- the request path with their caches, prompt compression, the rules that create recommendations,
-- configuration and logging, the SDKs and the user interface. Most of it is I/O, floating-point
-- statistics, or reports on what the modelled parts decide. Of the modelled parts: the endpoints of
-- backend/app/api/v1/operator.py, by which an operator overwrites the plan and the status of an
-- organization, and the status with which a new organization row starts; the order and the limit of
-- the learned
-- candidates and the counters of their report; and the expiry of the price cache, whose entries
-- are those that live; and the hash of a request and the eviction of snapshots by size in the
-- response cache.
pub mod Prelude
pub mod Payload
pub mod Proxy
pub mod Engine
pub mod Billing
pub mod Batch
pub mod Apply
pub mod Alerts
pub mod Tests
