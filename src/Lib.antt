-- ===== src/Lib.antt =====
-- A verification library of the shop's backend (src/): the parts that decide what happens to orders,
-- stock, money, sessions and messages, with the database, the broker, Redis and the clock around them
-- as environments.
--
-- How the parts interact. A request comes with a bearer token; the guards (src/auth/auth.guard.ts) turn it
-- into a viewer with the auth service (src/auth/auth.service.ts), and a session cookie is read by the
-- session middleware (src/session/session.middleware.ts) from the session store. A request that places an
-- order (src/orders/place-order.ts) writes an event (src/outbox/order-placed.event.ts) into the outbox
-- table in the same transaction. The relay (src/outbox/relay.ts) publishes the rows of that table, the
-- consumer (src/outbox/consumer.ts) confirms each order once, and retention (src/outbox/retention.ts)
-- deletes what is old. The orders service (src/orders/orders.service.ts) reads and changes orders for a
-- viewer. The upload service (src/files/files.service.ts) plans uploads by the policy
-- (src/files/policy.ts), asks the object storage (src/storage/storage.ts), and shares the table of files
-- with the orphan sweep (src/files/orphans.ts). The other parts stand by themselves.
--
-- What models what:
--   Prelude: tests, lists (with the ruleset list_laws) and tables, results and transactions, JSON, texts.
--     Prelude.Actions is a monad of actions that may throw and change a state; Prelude.Splitting is split,
--     trim and indexOf on texts.
--   Orders.Tables and Orders.Place: placeOrder and its helpers. `meanwhile` is what other clients commit
--     between its first look-up and its transaction.
--   Orders.Service: findAllForViewer, findEntity, requireOwner, findOneForViewer, updateStatus.
--   Orders.Events: publish and historyAfter of src/orders/order-events.service.ts. Orders.Live: what its
--     subject makes its subscribers do, the event stream of src/orders/orders.controller.ts, and
--     src/orders/orders.gateway.ts.
--   Outbox.Event: toOrderPlacedEvent and parseOrderPlacedEvent, over JSON values.
--   Outbox.Relay: relayBatch, countPending, countParked, drainOutbox. Outbox.Consumer: applyOrderPlaced,
--     withLocalRetry, handle. Outbox.Errors: isTransientDbError. Outbox.Retention: purgeOutbox.
--   Pipeline: no code of its own; it puts Orders.Place, Outbox.Relay and Outbox.Consumer together.
--   Auth.Tables and Auth.Service: login, refresh, logout, authenticate on the four tables.
--   Auth.Guard: bearerToken, AuthGuard and RolesGuard of src/auth/auth.guard.ts, and verify, keyFor and
--     readClaims of src/auth/tokens.ts. Auth.Password: src/auth/password.ts. Auth.Config: src/auth/config.ts.
--   Checkout: checkout of src/checkout/checkout.ts. Retry: withSerializationRetry of src/retry.ts.
--   Workers: runWorkerPool of src/workers.ts, a step relation between states of the pool.
--   RateLimit: the script and the guard of src/rate-limit/. Session: src/session/session.store.ts.
--   Session.Cookie: src/session/session.middleware.ts and src/session/session.controller.ts.
--   Cdn.Headers and Cdn.Edge: src/cdn/edge.ts. A step is what runs without an `await`.
--   Files.Policy: src/files/policy.ts. Files.Tables, Files.Rows and Files.Service: the intent, resume,
--     commit and download of src/files/files.service.ts. Files.Orphans: src/files/orphans.ts.
--     Files.Requests: these in any order on one table. What the storage answers can be anything, at every call.
--   Storage: src/storage/storage.ts over the commands of the AWS SDK.
--   SingleFlight: src/redis/single-flight-cache.ts. A caller is a state machine that moves from one await
--     to the next, and a run is any interleaving of moves, with Redis up or down at each.
--   Lock: src/redis/lock.ts.
--   Lifecycle: src/k8s/lifecycle.ts and the process of src/k8s/serve-main.ts.
--
-- Conventions. Numbers are natural; money is in cents and stays exact. A table is a list of rows, an
-- UPDATE a map over it, and a transaction that throws gives the tables back as they were. Unique keys
-- of the schema are hypotheses where a theorem needs them. Loops that the source does not bound run on
-- fuel, and their theorems say how much is enough: the drain needs more passes than there are attempts
-- left, a purge more batches than there are rows, the retry as many calls as there are attempts, an
-- eviction one round for each entry, and a list of parts one page for each part there can be.
--
-- Not modelled: the queue of receipts, products and their card; the wiring of NestJS, the clients of S3,
-- Postgres, Redis and the broker, migrations, and the demos. In the upload service, requests and sweeps
-- run one after another, and the database answers every query. The earlier homeworks beside src/ are
-- copies of parts of it and exercises, each a program of its own.
pub mod Prelude
pub mod Files
pub mod Outbox
pub mod Orders
pub mod Auth
pub mod Checkout
pub mod Retry
pub mod RateLimit
pub mod Cdn
pub mod Storage
pub mod Workers
pub mod Session
pub mod Lifecycle
pub mod Lock
pub mod SingleFlight
pub mod Pipeline
