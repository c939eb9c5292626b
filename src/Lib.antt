-- ===== src/Lib.antt =====
-- The delivery service (src/delivery_service/): orders that customers place and edit, couriers claim
-- and deliver, and dispatchers watch, behind an HTTP API. `OrderService` (service.py) runs the use
-- cases on a repository (ports.py, repository.py), which keeps the orders (domain.py), the answers to
-- idempotent requests, the transition history and the outbox of integration events (events.py).
--
-- Access models access.py, Status and Domain domain.py, Commands commands.py, Events events.py,
-- Errors the exceptions, Ports ports.py, Repository `InMemoryOrderRepository` of repository.py, and
-- Service service.py with clock.py, for any repository that fills the port. RefreshSessions models
-- `InMemoryRefreshSessionRepository` of refresh_sessions.py, CircuitBreaker the breaker of
-- retry_policy.py and the two `try` statements of `RouteServiceAdapter.estimate` in integrations.py,
-- and Tracking the in-memory snapshots, the hub and the event stream of tracking.py. Inbox models the
-- consumers of outbox events in outbox.py and notifications.py with the tables of db.py that they
-- write, under the caller's transaction. ProofLinks models the signed links and Proofs the inspection
-- of uploads and the private storage of storage.py. RateLimiter models the sliding window of
-- policy.py, Security the tokens of security.py and csrf.py, Identity the in-memory identities of
-- identity.py with the audit trail, and AuthApi, OrderApi, ProofApi and TrackingApi the handlers of
-- logins, orders, proofs and positions of main.py, and ErrorContract error_contract.py with the
-- exception handlers. Cache models the in-memory cache and the cache-aside query of cache.py,
-- Transactions transactions.py, Outbox the relay of outbox.py, and Webhooks webhooks.py with both
-- inboxes of payment events, the signature of integrations.py and the handler of main.py. A function
-- keeps its name in the program; the modules below a component's module hold its theorems, Prelude
-- and Dict what all share, and Tests runs on concrete inputs.
--
-- How the program is represented: a UUID and a moment in time (microseconds since the epoch) are
-- natural numbers; `uuid4()` and the clock's `now()` are arguments, so a theorem holds for all of
-- their answers. Text is the native string. What Python's library computes (`str(uuid)`, `isoformat`,
-- `casefold`, `json.dumps`, `sha256`) is the record Runtime, and what PyJWT, Argon2 and HMAC compute
-- are the records Library and Passwords, arguments of the definitions that use them. A method of an
-- object is an action: it takes the object's attributes and returns a result, or the exception,
-- beside the attributes; writes that precede a raise remain. A dictionary is the list of its entries
-- in the order of their insertion (Dict). `await` gives nothing to interleave inside a use case on
-- the in-memory adapter, which never suspends; theorems about concurrent clients take an arbitrary
-- sequence of calls.
--
-- Where the program reads the clock more than once in a call (decode_token, issue_token_pair and the
-- rotation of a refresh), one `now` stands for all readings. `hmac.compare_digest` is equality of
-- texts: on a text that is not ASCII it raises TypeError in Python, where csrf.py and storage.py here
-- refuse. Payloads are compared entry by entry, in the order in which `durable_payload` writes them.
-- Error collects the exceptions of ports.py, domain.py, service.py, retry_policy.py, storage.py,
-- integrations.py, outbox.py and main.py.
--
-- Loops are structural recursion on lists or on the attempts left. Only the search for a SQLSTATE
-- runs on fuel: exceptions may link in a circle, and three passes for each, and one more, are enough.
-- Sizes and thresholds are arguments, bounded only where a theorem says so.
--
-- Not modelled: the other SQL adapters, whose statements PostgreSQL runs; the Redis client; routing,
-- cookies, response headers and the validation by the schemas, the two streams of main.py, logging,
-- metrics and tracing, configuration, SQL migrations and the scripts, which are input and output of
-- third-party libraries.
mod Prelude
pub mod RefreshSessions
pub mod CircuitBreaker
pub mod Inbox
pub mod ProofLinks
pub mod Proofs
pub mod ErrorContract
pub mod OrderApi
pub mod RateLimiter
pub mod Identity
pub mod AuthApi
pub mod Transactions
pub mod Outbox
pub mod Webhooks
pub mod ProofApi
pub mod TrackingApi
pub mod Cache
pub mod Runtime
pub mod Security
pub mod Tracking
pub mod Dict
pub mod Access
pub mod Status
pub mod Errors
pub mod Domain
pub mod Commands
pub mod Events
pub mod Ports
pub mod Repository
pub mod Service
mod Tests
