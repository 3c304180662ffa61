-- ===== src/Lib.antt =====
-- StellarCore: the evidence core of a service that observes Stellar anchors. It discovers anchors
-- and keeps their availability (lib/stellar), fetches and normalizes indicative rates and
-- publishes their median (lib/rates), scores the anchors (lib/reputation), reconciles the
-- reviewed registries with the database, runs on a schedule (lib/scheduled) and serves read-only
-- APIs and a dashboard (lib/api, lib/dashboard).
--
-- The library models the pure decisions of these parts. Names are those of the source in
-- snake_case. A thrown error is a value of a result type (Prelude/Result) or `none`; a frozen
-- object is a record; a class or closure with state is a record and functions that return the new
-- one.
--
-- Prelude: the shared types. A string is the list of its UTF-16 code units (Prelude/Text), a Date
-- is an integer number of milliseconds or invalid (Prelude/Int), Array.sort is the stable
-- insertion sort by a comparator (Prelude/Sort).
--
-- Errors: the error values of lib/stellar/sep1.ts and lib/stellar/sep38.ts that classifiers
-- inspect.
--
-- Health: lib/stellar/anchorHealth.ts, the availability state machine. A failed or successful
-- discovery (Errors, Health/Classify) becomes an observation; apply_anchor_health_observation is
-- one step.
--
-- Decimal: lib/rates/decimal.ts. A bigint is a natural number. The loops of powerOfTen and
-- normalizeDecimal are recursions on their counters; the digits of a number are found with fuel n
-- + 1, which bounds their count.
--
-- Freshness and Median: lib/rates/freshness.ts (getRateFreshness) and lib/rates/median.ts, which
-- uses the decimals and the freshness of each source.
--
-- Suppression: lib/scheduled/suppression.ts, the counter that suppresses a source after permanent
-- failures.
--
-- Records: the suppression records of lib/rates/freshness.ts, a second policy for the same
-- purpose. Date.parse, toISOString of a valid date and the clock are parameters; Records/Policy
-- compares the two policies.
--
-- Retry: lib/stellar/retry.ts. The environment of withSepRetry (how the callback settles, if it
-- does, and what the clock, the signals, onRetry and the random source do at each attempt) is a
-- function of the attempt number, and the classifier a parameter that may throw; sleeps are
-- recorded as their lengths. The policy of the caller overrides the defaults option by option; an
-- option that is given as undefined is not modelled. The loop has fuel maxAttempts + 1, which is
-- always enough. Numbers are exact integers and fractions: the rounding of JavaScript numbers is
-- not modelled. Date.parse is a parameter.
--
-- Reconcile: lib/stellar/registryReconciliation.ts, the audit of the persisted configuration
-- against the registries and the repair plan.
--
-- RateLimiter: lib/api/rateLimiter.ts and isValidRequestId of lib/api/requestId.ts. The closure's
-- variables are a record that check passes on; a response 429 is the request id that it echoes.
-- Times are natural numbers of milliseconds.
--
-- Panel: lib/dashboard/dashboardNavigationState.ts. The coordinator is a record, its
-- AbortControllers and subscribers are numbers, and navigateIn is split at its await: the visits
-- in flight settle later, in any order. Panel/Lifecycle is the relation of the states that the
-- calls other than reset reach.
--
-- Score: calculateReputation of lib/reputation/score.ts with types/reputation.ts and
-- constants/reputation.ts. Date.parse, localeCompare, and the comparison and Number.isFinite of
-- the measured numbers are parameters.
--
-- Pagination: lib/api/pagination.ts, over the two strings of a query.
--
-- LockKey: lib/scheduled/advisoryLockKey.ts. The exclusive or is taken over 16 bits, which every
-- code unit has at most.
--
-- Asset: the asset identifiers of lib/stellar/sep38.ts: parsing, building, the base-32 form and
-- CRC-16 of an issuer, and the percent encoding of asset codes. Bytes are natural numbers below
-- 256.
--
-- Quote: lib/stellar/sep38.ts, the reading of an indicative price and of a firm quote from parsed
-- JSON (a data type with objects as lists of members), with the validation of the request. An
-- optional property is an Option. Date.parse is a parameter.
--
-- Normalize: lib/rates/normalize.ts, which makes a rate observation of a price (Quote) for a
-- corridor (Reconcile/Types) with the exact decimals (Decimal), or throws one of the codes that
-- the suppression (Suppression) classifies.
--
-- Engine: lib/rates/snapshot.ts (Engine/Snapshot) and lib/rates/rateEngine.ts (Engine/Run). The
-- injected repository, quote provider and clock act on a world, of any type, that is passed
-- through all calls; a call that throws is a value. Engine/Outcome says how persistRateSnapshot
-- may end, with lookups that are read-only.
--
-- Poller: lib/dashboard/polling.ts. The closure's variables and what the poller has asked of its
-- injected clock and visibility are one record; Poller/Reach is the relation of the states that
-- calls, timers, settled refreshes, visibility changes and the passing of time reach,
-- Poller/Refine compares its steps with the policy in the file's comment. The clock does not run
-- backwards and fires no timer early.
--
-- Cron: lib/scheduled/cronAuth.ts, lib/scheduled/cronTimestamp.ts and lib/scheduled/http.ts, the
-- checks before a scheduled refresh. The digest and the reading of dates are parameters;
-- process.env, the runtime configuration and the clocks are values of the environment, and the
-- refresh is any function on a world.
--
-- Not modelled: database access, HTTP clients, React rendering, scripts and build tooling, which
-- are input and output around these decisions; promises, timers and abort signals appear only as
-- the outcomes they deliver.
pub mod Prelude
pub mod Errors
pub mod Health
pub mod Decimal
pub mod Freshness
pub mod Median
pub mod Suppression
pub mod Retry
pub mod Reconcile
pub mod RateLimiter
pub mod Panel
pub mod Score
pub mod Pagination
pub mod LockKey
pub mod Asset
pub mod Quote
pub mod Normalize
pub mod Engine
pub mod Poller
pub mod Records
pub mod Cron
