-- ===== src/Lib.antt =====
-- AIRelay: a proxy in front of the APIs of OpenAI, Anthropic and Google. A client sends its request
-- with a key of AIRelay's own; the proxy resolves the key to a project and a provider credential,
-- checks the project's budgets, forwards the request, relays the response, and logs a usage event
-- with its token counts and cost. Background jobs keep the spend counters. A management API lets users
-- sign up and keep their projects, keys, credentials and budgets, which the proxy reads.
--
-- The parts and their files:
--   * proxy/handler.go, `ServeHTTP`: Proxy/Serve (the stages), Proxy/Handler (slugToProvider,
--     extractModel, parseMetadata, writeJSON, lookupPricing and the state `Handler`). Proxy/Serve/Routes,
--     Guards and Logging follow a request through them.
--   * proxy/auth.go, `Resolve`, the format of the key cache, `GenerateKey`: Proxy/Auth.
--   * proxy/budget.go, `CheckBudgets`, `RecordSpend` and the cache of budgets: Proxy/Budgets. Its state
--     is the outside world and the `sync.Map`.
--   * proxy/forward.go: Proxy/Forward (`Forward`) and Proxy/Stream (`streamSSE`).
--   * proxy/logger.go: Proxy/Logger, a step relation on the channel, the batch, the dead letter queue
--     and the state of the budget checker; Proxy/Event is the event.
--   * proxy/dlq.go: Proxy/Dlq. A retry is two steps, the snapshot and the merge, between which any
--     enqueues may stand.
--   * internal/budget/keys.go: Budget. internal/cost/cost.go: Cost. internal/encrypt/encrypt.go: Encrypt.
--     internal/models/models.go: Models. internal/tokens: Tokens.
--   * internal/jobs/reconcile.go, ttlsweep.go, pricingsync.go and partition.go: Jobs/Reconcile,
--     Jobs/TtlSweep, Jobs/PricingSync and Jobs/Partition. internal/config/config.go: Config.
--   * api/server.go, the routes: Api/Server, whose `handle` is a guarded route with its middleware.
--     api/middleware.go: Api/Auth (tokens and `RequireAuth`), Api/Plans (`Limits`), Api/RateLimit
--     (`IPRateLimit`) and `chain` in Api/Server. api/response.go: Api/Http.
--   * api/projects.go, keys.go, credentials.go, budget.go, auth.go: Api/Projects with Api/Slug, Api/Keys,
--     Api/Credentials, Api/Budgets, Api/Auth. api/usage.go and models.go: Api/Usage.
--   * Api/Db has the tables, the statements and the monad of the handlers, and Api/Db/Keeps a rule for
--     each kind of statement. Api/Server/Writes makes of these one rule for all guarded routes, which
--     Api/Server/Isolation and Api/Server/Quota apply. Api/Server/Private is about the routes that read.
--     Api/Projects/Race is the creation of projects as steps that interleave. Api/Lifecycle runs the
--     query of proxy/auth.go, `resolveFromDB`, on the tables that the API writes, and Api/Server/Signup
--     follows a user from the signup to a route. Api/Server/Run is the server over a sequence of
--     requests and sweeps. Api/Lifecycle/Limited and Lifted take a budget from the API to the check.
--   * Proxy/Budgets/Quiet and Jobs/Reconcile/Corrects are the check and the reconciliation while no one
--     else writes. cmd/seed/main.go: Cmd/Seed, in a monad of its own that log.Fatalf ends.
--   * internal/jobs/runner.go: Jobs/Runner, the goroutines of the jobs by the second. Runner/Spaced is
--     about the reconciliation, Runner/EveryDay about the jobs with tickers. Proxy/Serve/Streams is an
--     event stream from the request to the usage event.
--   * proxy/server.go: Proxy/Server, the service over a sequence of requests, rounds of the logger and
--     of the retry goroutine, and changes outside; it starts empty, as the constructors make it.
--   * cmd/api/main.go and cmd/proxy/main.go, internal/db/db.go, internal/redis/redis.go: Cmd/Main, the
--     start of each service up to the call of ListenAndServe; Cmd/Main/Pools counts the open pools.
--   * Base, Time, Uuid, Float and Encoding/Hex are the parts of Go's library that these use: bytes and
--     texts, civil dates in UTC, and the interfaces of uuid and float64.
--   * Tests runs the model in a small world.
--
-- The world: Redis, Postgres and the clock are the record `Proxy.Backend.Backend` over an abstract
-- state, which each call passes on, so each call may fail and others may act between any two. The HTTP
-- client, encoding/json, SHA-256, base64, AES-GCM, uuid and the float operations are parameters too;
-- a theorem that needs one of their laws takes it as a hypothesis or from the interface.
--
-- A handler of the API is a function on the tables and a script, which says of each statement whether
-- Postgres runs it, and which id and time it gives a new row; unique and foreign keys are conditions
-- of the INSERTs. A handler's statements run with no other request between them, but in
-- Api/Projects/Race, which interleaves the creations that the advisory lock is there for. A
-- transaction works on the tables of its start and replaces them at its commit. bcrypt, the JWT
-- package, x/time/rate, net/http's mux and the decoding of the bodies are parameters, and a reply's
-- JSON is a value.
--
-- Numbers and bounds: times are instants in nanoseconds, for the years 0 to 9999,
-- but seconds in Jobs/Runner. Counts of tokens and
-- milliseconds are naturals; the providers send no negative ones, and no count comes near 2^63. An
-- int of a paging is its 64 bits. Loops run over lists, so they need no fuel, but for the sweep's loop
-- over the cursor of SCAN, for which the rounds of an iteration are enough; the endless loops of
-- goroutines are lists of steps.
--
-- Not modelled: the dashboard (HTML templates); log lines; the time-outs of net/http's server; scan
-- errors of rows; and the time-outs of contexts, which the model has as failing calls. The connection
-- to a client does not fail.
pub mod Base
pub mod Time
pub mod Uuid
pub mod Budget
pub mod Float
pub mod Encoding
pub mod Encrypt
pub mod Models
pub mod Tokens
pub mod Cost
pub mod Proxy
pub mod Jobs
pub mod Cmd
pub mod Config
pub mod Api
pub mod Tests
