-- ===== src/Lib.antt =====
-- The customer service and its log pipeline.
--
-- A gRPC server (internal/adapter/grpc) calls the application logic (internal/service), which works
-- on two ports of internal/domain: a repository of customers, implemented on Postgres, and a cache,
-- implemented on Redis. A second service takes log entries to the ingester (internal/ingest), whose
-- workers write them to Postgres in batches. An agent on each node (internal/logagent) reads the log
-- files of containers and sends their lines to that service.
--
-- What models what:
-- - Text: the functions of Go's package strings that the code calls, on lists of bytes, decimal
--   numbers, and maps with string keys. Text.trim_space knows Unicode's white space.
-- - Domain: internal/domain, with errors and `errors.Is`, `errors.As`. Domain.Email is email.go and
--   Domain.Ports the interfaces of repository.go and log_repository.go, as records of functions.
-- - Remote: a request to a server, which is answered, is refused, or takes effect while the reply is
--   lost. Every call of Postgres and Redis goes through it.
-- - Postgres.Table: the table of db/migrations and what the SQL statements of
--   internal/adapter/postgres/customer_repository.go do to it. Postgres.Customers: the methods of
--   that file. Postgres.Logs: log_repository.go.
-- - Redis: internal/adapter/redis/customer_cache.go, and GET, SET and DEL on a map of keys that
--   expire. Its `Handle` is the pointer, `none` for nil.
-- - Service: internal/service/customer.go over any two ports. Service.World puts it on
--   Postgres.Customers and Redis as internal/app/app.go does, with `step` for one call and `run` for a
--   history of calls. Service.World.Interleaved has the steps of the same calls, in any order.
-- - Grpc.Status: errors.go; Grpc.Customers: customer_handler.go and mapper.go; Grpc.Interceptors:
--   interceptor.go; Grpc.Logs: log_handler.go; all of internal/adapter/grpc.
-- - Ingest: internal/ingest/ingester.go. `submit` is `Submit`, `start` is `New` with `Start`. The
--   goroutines are a transition system: an `Act` is a case that a `select` of `worker` or `flush`
--   takes, or the end of an insert, and an `Event` also a call of `Submit`, the end of the context,
--   and `Stop`. A schedule is any list of events, so that every interleaving is one.
--   Ingest.Submitter is the interface through which Grpc.Logs uses it: between two calls of
--   `Submit`, any schedule may happen.
-- - Config: internal/config/config.go, with what internal/app/app.go gives of it to the ingester.
-- - Resources: the calls that the server makes of its libraries to open, start, serve, stop and
--   close, their answers as parameters, and the rules of their order. Postgres.Pool is pool.go,
--   Redis.Connection the opening and closing of customer_cache.go, and App is internal/app/app.go with
--   `main` of cmd/server/main.go: each function has a result and the list of the calls it made. The
--   goroutine in which `Run` calls `Serve` makes its calls beside them, in any order (`merge`).
-- - LogAgent.Cri, Positions, Tailer, Shipper, Agent and Config: the files of these names in
--   internal/logagent. Tailer.Polling is `Poll`, and Tailer.Running is `Run` over the turns of its
--   loop; each turn is given the positions, which the shipper changes meanwhile. Positions has the
--   file on disk and every place where a save may stop. Shipper.Loop is `Run` of shipper.go as a
--   state machine whose events are the cases of its `select` and what others do to the channel, the
--   context and the positions; three fields of its state only record what has happened. Agent puts
--   the tailer's entries in front of it, as agent.go does.
--   LogAgent.Command is `main` of cmd/log-agent/main.go over these.
-- - Pipeline: a flush of internal/logagent/shipper.go with both sides of its calls: each attempt runs
--   `IngestLogs` over the ingester, and a `Fate` says what the connection does to it.
-- - Client: `main` of cmd/client/main.go over any server, and over the handlers of Grpc.Customers,
--   which stand on Service.World. Service.World.Calls sums up what a call does when all answer.
-- - Tests: the theorems at concrete inputs.
--
-- What is a parameter: Unicode's lower case (`map_lower`, used on text that is not ASCII), the parsing
-- and formatting of times, the environment and the parsing of its numbers, the regular expression of
-- the agent, the names of the health methods, and JSON, of which it is assumed that what is written
-- is read back. Times are numbers; a call is given the time of its server and the fate of its
-- connection in its context. Ids are integers without a bound: the code only compares and prints
-- them, and no sequence reaches 2 ^ 63.
--
-- Loops are structural recursion: over the bytes of a file, the attempts of a flush, the rows of a
-- result, the events of a schedule. Only the printing of decimal numbers is on fuel, one more than
-- the number, and Text.Decimal reads back what it prints.
--
-- Not modelled: the generated code of proto, the contents of what is logged, and time itself: a
-- ticker or a timeout is an event that may come at any point. gRPC is not modelled either: what a
-- connection does to a call is given, as a `Call` of the shipper or a `Fate` of Pipeline.
-- Concurrent calls of the customer service are histories of whole calls in Service.World, and in
-- Service.World.Interleaved any order of their steps, each of them one command to a server.
pub mod Base
pub mod Text
pub mod Domain
pub mod Remote
pub mod Pipeline
pub mod Postgres
pub mod Redis
pub mod Service
pub mod Grpc
pub mod Ingest
pub mod Config
pub mod Client
pub mod Resources
pub mod App
pub mod LogAgent
pub mod Tests
