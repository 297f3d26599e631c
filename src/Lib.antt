-- ===== src/Lib.antt =====
-- The content pipeline and the feed recommendation of the Newtine backend.
--
-- The backend collects news, makes issues out of it, and shows them in feeds. A pipeline run is
-- enqueued by the API, claimed by a worker, and finds issues; each issue has a job that writes its
-- content; published content is embedded by tasks that outlive the run. A feed session asks the
-- recommendation for batches of ten issues.
--
-- Prelude (with Tests, Lists, Sets, Map, Sort, Count, Result and Text) is the language's part:
-- `===`, array methods, insertion-ordered maps, stable sorting, exceptions as results, and
-- trimming of texts.
--
-- Pipeline models libs/core/src/pipeline:
--   Types: domain/pipeline.types.ts, domain/pipeline.exception.ts, the inputs of
--     repository/pipeline.repository.ts, and common/category/category.catalog.ts
--   Uuid: common/id/uuidV7.generator.ts (`isUuidV7`)
--   Validator: domain/pipeline.validator.ts; Validator/Spec: what accepted results look like
--   Limits: domain/pipeline.limits.ts; Limits/Bounds: the ranges
--   Store, Lifecycle (with Retry, Interrupt and Worker), Jobs, Embedding:
--     repository/inMemoryPipeline.repository.ts. `Store` is its maps; each method is a
--     function of the same name, in snake case, from a store to a result with the
--     new store. Time, new ids and execution ids are arguments. A method that throws leaves
--     the store.
--   Articles: `saveDiscoveredArticles`, `loadSeedArticles` and domain/pipeline.url.ts;
--     Articles/Again:
--     an article that is found twice; Embedding/Claims: the fence of embedding claims
--   Service: application/pipeline.run.service.ts (`service_enqueue`, `service_get`,
--     `service_retry`,
--     `service_interrupt`); Service/Again: a request sent again
--   Steps: the transition system whose steps are the calls that change a store
--   Cases: what a retry and an interruption that succeed have checked
--   Evolution, with Writes, Runs, Worker, Jobs and Tasks: the state machine of a run and the
--     calls' part in it
--   Invariant, Idempotency, Outcomes, Retries (with Fences): the theorems on runs;
--     Publication: on published jobs
-- Recommendation models apps/api/src/issue/recommendation/issueRecommendation.ts:
--   Types: its data; scores are a parameter with the operations that the code uses
--   Runs: `canAppend` and `advanceRunState`; Runs/Laws: the sequences that they admit
--   Score: `scoreCandidate`, `hasKnownMismatch`, `compareCandidate`
--   Batch: what a batch promises, however it was found
--   Greedy: `greedyOrder`; Greedy/Laws, Greedy/Promise and Greedy/Stop: its batch, and when it stops
--   Better: `isBetterOrder`, `quotaScore`; Better/Laws: the better of two batches
--   Targets: `selectByTarget`; Targets/Slots, Targets/Laws: its matching and its selection
--   Search: `boundedSearchOrder` and `boundedOrder`, with a memo of results and a shared budget;
--     Search/Keys: when two keys of the memo are equal; Search/Picks: bits of a mask; Search/Laws
--     and Search/Promise: what is found
--   Ordering: `searchOrder` and `orderWithoutViolatingRuns`; its Laws and Promise likewise
--   Pool: `proveFullPoolMaxLength` and its helpers; Pool/Laws: the order that it reconstructs
--   Materialize: `materializeProvenOrder`; Materialize/Groups: its groups; Materialize/Laws
--   Alternatives: `boundedAlternatives`; Alternatives/Laws
--   Swaps: `orderWithAlternatives` and its helpers; Swaps/Laws
--   Version2: `recommendFeedV2`; Version2/Laws: its search; Version2/Promise and
--     Version2/Limited: its output
--   Version1: `recommendFeedV1`, `resolveContinuation`, `recommendFeed`; Version1/Laws
--   Continuation: `resolveV2Continuation`; Continuation/Laws: the limit of a pool that
--     shares its topic or its entity
--   Feed: batches of `greedyOrder` one after another
-- Interest models libs/core/src/interest/interest.policy.ts:
--   Policy: its functions, on integers; Laws: sequences of actions and of reading reports
-- Limiter models apps/api/src/common/middleware, rateLimit.middleware.ts and rateLimit.options.ts:
--   Store: `InMemoryRateLimitStore`; tokens are exact numbers, counted in parts of a window,
--     where the source rounds doubles
--   Middleware: the two middlewares, from the keys of a request to a decision; Laws
--   Environment: rateLimit.options.ts; Configured: what the options promise the middleware
-- Onboarding models libs/core/src/onboarding:
--   Model: onboarding.model.ts, onboarding.options.ts, the codes of onboarding.exception.ts
--   Repository: inMemoryOnboarding.repository.ts, a function for each method. The time, new ids,
--     lower case and the orders of texts are arguments.
--   Selection: what is accepted; States: completion and skipping; States/Invariant: every record
-- The modules named Tests run the definitions on concrete values.
--
-- Loops are structural recursion where the data ends them, and recursion on fuel, called room,
-- elsewhere. `greedyOrder` appends in at most ten rounds, so its outer loop recurs on the room that
-- is left in the batch, and the rounds of `orderWithAlternatives` are counted. The searches recur on
-- the bits left in the mask, on what the buckets hold, and on the candidates that an augmenting path
-- has not visited; the modules named Room, and Ordering/Laws, are on why that is enough. An object
-- that a search changes, the budget or the memo, is passed through the calls in their order.
-- Milliseconds are whole. Run attempts, counts and limits are natural numbers; costs are counted
-- in a fixed unit. Texts are compared by their code points; lower case, hashing, locale comparison
-- and URLs are the runtime's and are parameters.
--
-- Not modelled: the PostgreSQL repositories and migrations, HTTP controllers and filters, how the
-- rate limit reads its keys from a request, the rounding of its tokens, providers and workers,
-- authentication, the PostgreSQL side of onboarding, the storage of interest, and reports. Of the
-- recommendation the half characters that a comparison of texts could meet, a candidate budget
-- below zero, and scores that are not numbers: the operations on scores are those of the platform.
pub mod Prelude
pub mod Pipeline
pub mod Interest
pub mod Limiter
pub mod Onboarding
pub mod Recommendation
