-- ===== src/Lib.antt =====
-- ServerKit: permissions, SCIM, sessions and one-time passwords, a cache and a feed of events.
--
-- ServerKit is a set of TypeScript packages for servers. Modelled are the relationship-based
-- access control of packages/permissions, its language in packages/permissions-dsl, the
-- filters and patches of packages/scim, the one-time passwords, challenges and sessions of
-- packages/authentication, the cache of packages/cache that they are kept in, with its
-- idempotency store, the feed of events of packages/serverfeed, and a search of
-- packages/utilities.
--
-- Permissions. An application declares namespaces with relations and permissions, builds an
-- authorization model from them, stores relation tuples in a repository and asks whether a
-- subject has a relation to an object. Permissions/Tuple is tuple.ts: parse_tuple and
-- stringify_tuple are parseTuple and stringifyTuple, tuple_ok is what the schemas accept.
-- Permissions/Model is dsl.ts: construct is the constructor of AuthorizationModel with its
-- validation, resolve is its resolve. Permissions/Repository is the interface of
-- tuples.repository.ts, and Permissions/InMemory is in.memory.repository.ts, which fills it.
-- Permissions/Check is check.ts with the counters of check.metrics.ts: Check/Monad has the state
-- of a check (memo, visiting set, counters) and its error result, and Permissions/Check itself
-- has check, check_inner, evaluate and has_direct_tuple. The proofs use Check/Evaluation (what a
-- run of evaluate gives), Check/Rule and Check/Key (what a memo key stands for), Check/Positive
-- (models without exclusions), Check/Grants (derivations of an answer in such a model) and
-- Check/Reference (a plain recursive evaluator without memo, guard or counters).
--
-- Permissions DSL. PermissionsDsl/Ast is packages/permissions-dsl/src/ast.ts, and
-- PermissionsDsl/Lower is lower.ts beside it: lower checks a parsed file with validate_local and
-- validate_refs and translates it to the namespaces that construct accepts. Lower/Meaning says
-- what the expressions of both sides stand for, Lower/Refers what references name, Lower/Checked
-- is about the checks, and Lower/Translated about the model of a translated file. The grammar is
-- run by a library.
--
-- SCIM. Scim/Ast is filter.ast.ts with the tokens, Scim/Tokenizer is filter.tokenizer.ts, and
-- Scim/Parser is filter.parser.ts; parse_scim_filter is parseScimFilter. Scim/Parser/Printer is
-- a printer of filters as tokens, the independent description that the parser is compared with;
-- the program has none. Scim/Value has the JavaScript values of a resource, and Scim/Patch is
-- packages/scim/src/patch/patch.applier.ts: Patch/Path has parsePatchPath and
-- findMatchingBracket, Patch/Evaluation has evaluateFilter, and Patch/Operations has
-- applyScimPatch, applyAtPath, applySimpleOp, applyFilteredOp and mergeObject; Operations/Items
-- says what becomes of one item, Operations/Filtered of a collection, and Operations/Frame of a
-- path. It parses the
-- filters in its paths with parse_scim_filter.
--
-- Authentication. Authentication/Otp is packages/authentication/src/providers/otp.provider.ts:
-- uint_decode is uintDecode, generate_hotp, generate, validate_hotp and validate are the methods
-- of those names. The keyed hash together with the decoding of the secret is a parameter; a time
-- is a natural number of milliseconds.
--
-- The services that keep state in the cache take it as a CacheProvider. Authentication/Types has
-- the types that they share. Authentication/Challenges has the interface of what is issued,
-- looked up and redeemed, and below it Mfa is mfa/mfa.challenge.service.ts, RecoveryChallenge is
-- recovery/recovery.challenge.service.ts and RecoverySession is
-- recovery/recovery.session.service.ts of packages/authentication/src, each with issue, peek and
-- redeem. Authentication/Sessions is authentication.session.service.ts beside them: Sessions has
-- its types and parameters, Sessions/Store its private methods over the cache, with
-- Store/Frame, Store/Reads and Store/Families on what each of them changes and leaves to be
-- read. Sessions/Operations has the public methods that create, update, look up and delete
-- sessions, and Sessions/Tokens those that issue tokens, rotate a session and exchange refresh
-- tokens, under their own names. Operations/Sessions is about a session's life, Tokens/Rotation
-- about its rotation, and Tokens/Claim and Tokens/Refresh about its refresh tokens.
--
-- Cache. Cache/Provider is packages/cache/src/cache.provider.ts, an interface with what it
-- promises; Cache/Redis is ioredis.cache.provider.ts, which fills it over the commands of a Redis
-- client, and Cache/Memory is a client in memory. Cache/Idempotency is idempotency.store.ts:
-- deduplicate is its method, Idempotency/Machine is a machine with one status for a key, and
-- Idempotency/Refinement compares the store with it.
--
-- Server feed. Serverfeed/Event is packages/serverfeed/src/server.feed.event.ts, with matches and
-- levelRank, and Serverfeed/Feed is server.feed.ts: publish, on_event, replay_since and snapshot
-- are the methods of those names, and run is a sequence of their calls. Feed/Replay is about the
-- ring buffer and Feed/Snapshot about the last events of the operations.
--
-- Utilities. Utilities/BinarySearch is packages/utilities/src/binarysearch.ts: search is its inner
-- function, on fuel, and binary_search starts it with one call more than the array has elements;
-- the calls have ever fewer elements between their bounds.
--
-- Choices. A string is the list of its UTF-16 code units; a map is an association list, whose
-- keys are distinct where that matters, in insertion order; a thrown error is a value of the
-- module's error type. The zod schemas are read as the tests that they declare. The in operator
-- of JavaScript also finds the names that objects inherit, and the model of it does so.
-- JavaScript numbers are a parameter of the filter language, with Number(raw) as a function into
-- an option, and the patches take their comparison, the text of a value and toLowerCase as
-- parameters too (the record Platform). An absent property reads as undefined, or as what every
-- object inherits. Plain objects have distinct keys, and the order of their keys is that of
-- insertion. Times, counters and the sums and differences of them are exact numbers here, where
-- JavaScript has doubles: the counters of the one-time passwords and their offsets are the same
-- up to 2^53, and beyond it the program would round.
--
-- Times of the cache and of the services over it are natural numbers of milliseconds, and an
-- operation of a service runs at one time; toUnixInteger and fromSeconds divide and multiply by
-- 1000. A cache keeps values of a type that stands for texts, and JSON.stringify and JSON.parse
-- are a parameter that reads back what it wrote. Random ids are arguments. The work that
-- deduplicate runs is its outcome, the time at which it ends and what happens to the cache
-- meanwhile. A listener of the feed is a number, and a hook is a call in the result.
--
-- Bounds. The recursion of check stops at depth 32 in the program, so it is defined on 33
-- levels. The tokenizer runs on as many rounds as the input has characters, the parser on one
-- more level of nesting than there are tokens, and its loops on one more round than there are
-- tokens left. The loops over a window and over the bytes of a counter have their own bounds.
--
-- Not modelled: the prototype that an assignment to __proto__ gives to a merged object,
-- failures of a repository, the clock and the metrics sink beyond what it is given, the random
-- secret and the URI of a one-time password, interleavings of two operations of a service
-- between their accesses to the cache, the errors that listeners and hooks throw, the messages
-- of errors where only their kind matters, and the other packages, which are mostly adapters
-- of services and libraries.
pub mod Base
pub mod Permissions
pub mod PermissionsDsl
pub mod Scim
pub mod Serverfeed
pub mod Utilities
pub mod Authentication
pub mod Cache
