-- ===== src/Lib.antt =====
-- HushVault: the stateful core of the API worker (apps/api/src), a secrets manager that runs on a
-- SQL database, a key-value store and one durable object per rate limit.
--
-- Parts, and the files that model them:
-- - Base: lists measured by native numbers, Boolean tests, and texts as lists of code units, which
--   `===` and `<` of the source compare. `chunked` is the slicing loop of the engine and the tick.
-- - RateLimit (lib/rate-limiter-do.ts, middleware/rate-limit.ts): `consume_rate_limit`, the durable
--   object's `hit` and `alarm` on its storage, and a history of them; below it Memory has the
--   in-memory limiter, the middleware's decision, the identity limiter and the throttled log, and
--   Fallback, Quota, Alarm and Doubling their proofs.
-- - Rotation (lib/key-rotation.ts): State has the rows, Batch the re-wrapping of one chunk with its
--   compare-and-swap, Drive the lease and the phases, Tick the whole tick with bootstrap,
--   activation and pause. An SQL statement is the list function that it denotes, and between two
--   batches of a tick an arbitrary function `others` stands for the writes of other clients.
--   Preserve, Readable and Complete have the proofs. crypto/envelope.ts is the interface `KeyRing`.
-- - Sync (integrations/sync-engine.ts): Names and Plan have the name rules and the blockers, Decide
--   the classification of `planSync`, Execute, Push and Run the loop of `execute` over its chunks
--   with the ledger of pushed names, and Retry the time of the next attempt. What the database and
--   the provider answer while one chunk is handled is a record `World`, with lost
--   answers, failed batches and targets that are edited meanwhile among its values. Lookup,
--   Classify, Counts, Success, Rows, Ledger, Sent and Forgotten have the proofs.
-- - Sessions (lib/sessions.ts, the refresh route of routes/auth.ts): refresh tokens as rows; Validate
--   has validation, revocation and the route, Usable, Rotate, Bound, Refresh and Revoke the proofs.
-- - Resolve (lib/resolve.ts, lib/resolve-environment.ts): templates and their evaluation with the
--   stack of secrets that wait, and Inherit the chain of environments and the merge of their
--   secrets; Meaning says what a template means, Nearest, Chain, Sound and Unique have the proofs.
-- - Plans (lib/entitlements.ts, lib/plan-limits.ts, lib/audit-retention.ts): what each plan allows and
--   how long its audit log reaches back; Window has the proof.
-- - Blobs (lib/secret-blobs.ts): the keys of encrypted values, their inverse, and the read of many of
--   them; Decimal and Keys have the proofs on keys, Read those on reading.
-- - Housekeeping (lib/housekeeping.ts): the bounded deletes of the cron and the sweep of the audit log,
--   Orphans the sweep of encrypted values that no row points at; Purged, Audit, Pointers, Doomed and
--   Collected have the proofs. The tables are lists, and what the store lists is a parameter.
-- - AuthTokens (lib/auth-tokens.ts): single-use tokens with their redemption; Single has the proofs.
-- - Pagination (lib/pagination.ts): the cursor of a page, for any base 64 codec of the platform; Cursor
--   has the proof.
-- - Scheduler (integrations/sync-scheduler.ts): the budget of one sweep and its caps,
--   Crashed the runs to close, Outbox the changes, Tick the retries, the schedules and the sweep over
--   all of them, for any effect of a run; Weight, Budget and Expired have the proofs.
--
-- How they interact: the routes call the limiter before anything else; the cron calls the rotation
-- tick, the sync sweep and the housekeeping; both the rotation and the engine read rows that other
-- requests write; the housekeeping takes the windows of Plans and the keys of Blobs.
--
-- Bounds and fuel: numbers are natural numbers, times are milliseconds; the counters stay far below
-- 2 ^ 53, where the source's numbers are exact. Loops recurse over the list of their chunks; the
-- chunking itself takes the length of its list as fuel, enough for slices of at least one item.
-- A template is evaluated with the 64 places of its stack as fuel, and a chain of environments is
-- climbed with the ten that may follow the first: the source stops at the same numbers.
-- The backoff and its jitter are exact in the source's floating point: at most 51 bits.
--
-- Not modelled: logging, dates as texts, the HTTP layer, the SQL engine, the cryptography and the
-- fingerprints (parameters), the providers (parameters), the routes, the web app and the CLI.
pub mod Base
pub mod RateLimit
pub mod Rotation
pub mod Sync
pub mod Sessions
pub mod Resolve
pub mod Plans
pub mod Blobs
pub mod Housekeeping
pub mod AuthTokens
pub mod Scheduler
pub mod Pagination
