-- ===== src/Lib.antt =====
-- Verification of waffle, a library for web services in Go.
--
-- waffle is a core (config, server, middleware, logging) with a pantry of packages that a
-- service takes one by one. The packages do not share state: each keeps its own behind a mutex.
-- The development models the packages below pantry/ that carry logic of their own.
--
-- The parts and their files (paths from the repository's root):
-- * Retry.Circuit models pantry/retry/circuit.go. A method that locks the mutex is a function
--   from the circuit to the new circuit and its result; `Do` is the three sections
--   `allow_request`, `track` and `record_result` (allowRequest, the block of `Do` that raises
--   halfOpenRequests, recordResult). Sequence runs calls of `Do` one after another; Steps lets
--   any number of goroutines interleave the sections; Limit counts them.
-- * Retry.Attempts models the loop of pantry/retry/retry.go (DoWithResult, withDefaults, addJitter).
--   Its rounds are the attempts, counted from 1; Rounds skips those that fail and are retried.
-- * Cache models pantry/cache/memory.go. Spec has its operations as one step function beside a
--   map that never removes anything, Refinement compares the two. The cleanup takes a tick and gets
--   the mutex in two steps, so that Close can come in between, and wait for ever.
-- * Jobs.Locks models MemoryLocker of pantry/jobs/lock.go, Jobs.Holder the helper Lock and WithLock
--   over an interface of lockers.
-- * Jobs.Cron models the parsing of a field in pantry/jobs/cron.go (allValues, stepValues,
--   uniqueSorted, parseFieldPart, parseField), and Parse the rest of ParseCron, with strings.Fields
--   and strings.ReplaceAll written out; Schedule models CronExpr.Next over a parameter for the
--   calendar and the location's offset, with the minutes up to the end of the search as fuel, and
--   its child Predefined the expressions of parsePredefined.
-- * Pagination models the pages by number of pantry/pagination/pagination.go: Page and its
--   methods, New, FromRequest and FromRequestWithDefaults; Pagination.Keyset models
--   pantry/pagination/keyset.go, with the builder's order and the rows that a database gives for its
--   clauses in Windows.
-- * Plural models pantry/i18n/plural.go: the plural rules of all languages, and GetPluralFunc.
-- * Auth.Refresh models pantry/auth/jwt/refresh.go: TokenService over the interface RefreshStore,
--   and MemoryRefreshStore. Calls of a service run one after another.
-- * Auth.Jwt models Signer and the claims of pantry/auth/jwt (jwt.go, claims.go) over parameters for
--   JSON, base64 and HMAC, and Signed says what Verify makes of tokens.
-- * Webhook models the signatures, times and bodies of pantry/webhook/webhook.go; its child Verify
--   the verifiers of verify.go, Timed those that sign a time, Bodies the interface Verifier with the
--   middleware, Replay and Shopify what the verifiers accept.
-- * Session models MemoryStore of pantry/session/memory.go. Cleanup sets its goroutine apart.
--   Session.Manager models Manager of pantry/session/session.go over the interface Store.
-- * Jobs.History models MemoryHistoryStore of pantry/jobs/history.go. A pointer to an execution is a
--   number, since the store's two maps share the executions and completions write through them.
-- * Jobs.Pool models pantry/jobs/pool.go: each section of Go and TryGo is a function on the pool,
--   and Tasks interleaves them in a step relation that counts the goroutines at each section.
-- * Websocket.Hub models pantry/websocket/hub.go: clients, rooms, who is in which, and closing.
--   The hub holds the objects that addresses of clients and rooms point to. The calls of Runs are
--   those that keep the clients' and the rooms' records in agreement: not Hub.Close, nor Join and
--   Leave of a room by a pointer that was kept of it.
-- * Feature models pantry/feature/feature.go: Values its comparisons of values of any type, with a
--   panic as none and floating point as a parameter; Rollout the percentages and the choice of a
--   variant by the FNV-1a hash; Flags the evaluation; Manager the manager over the interface
--   Stores, with MemoryStore of pantry/feature/store.go.
-- * Urls models pantry/urlutil/urlutil.go (Safe) and pantry/httpnav (Back) over a parameter for
--   url.Parse; Spaces and Paths write strings.TrimSpace and path.Clean out, on texts of bytes.
-- * Storage models pantry/storage/memory.go, with the paths of pantry/storage/storage.go in Names.
-- * Email.Queue models pantry/email/queue.go: Queue over the interface QueueStores, and
--   MemoryQueueStore in Memory. Order says what Dequeue gives, Rounds runs the rounds of a worker,
--   and Workers interleaves the steps of two of them.
-- * Validate models the rules of pantry/validate/rules.go. Patterns is a matcher for the regular
--   expressions of pantry/validate/validate.go, which Formats writes out; Rules has the rules that
--   only match, Checksums those with check digits, Texts and Codes those on characters and tables,
--   Sizes those on numbers and lengths, Parsers those that ask the standard library.
-- * Audit models pantry/audit: Events the queries and their wildcards (store.go), Store the
--   memory store and its pages, Logger the logger of audit.go with its buffer and workers, who take
--   an event and end its processing in two steps.
-- * Base holds integers, lists and maps, and in Strings the functions of strings and strconv. `Map`
--   is Go's map as an association list; iteration order, which Go leaves open, decides nothing but the order of List in Email.Queue and which of
--   equally good emails its Dequeue gives: what is said of Dequeue holds for any order.
--
-- Times and durations are integers in nanoseconds, the time that a method reads is its argument.
-- The overflow of these, and of counters, is not modelled but in stepValues, where a number from
-- the text can overflow an `int`: `add_64` wraps; in the pages of Audit.Store, whose limit and
-- offset come from the caller: `wrapped`; in the pages of Pagination: `int_64`; and in the limit of
-- a body in Webhook: `reader_limit`.
-- The loop of stepValues has the fuel max + 5: each two rounds of an overflowing loop lower the
-- value by two at least, and any other loop raises it.
--
-- Not modelled: network connections, drivers of databases and queues, files, JSON, cryptography and
-- reflection, which the packages call; formats and floating point, where a parameter would leave
-- nothing to say; callbacks that only observe. pantry/search, pantry/sse,
-- the sender and the router of pantry/webhook, pantry/ratelimit, whose tokens are floating point,
-- and the core are left out, and so is the reading of struct tags in pantry/validate.
pub mod Audit
pub mod Auth
pub mod Base
pub mod Cache
pub mod Email
pub mod Feature
pub mod Jobs
pub mod Pagination
pub mod Plural
pub mod Retry
pub mod Session
pub mod Webhook
pub mod Websocket
pub mod Urls
pub mod Validate
pub mod Storage
