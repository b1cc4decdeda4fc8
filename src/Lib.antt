-- ===== src/Lib.antt =====
-- gophprofile: avatars of users, taken over HTTP, stored in an S3 storage with their metadata in
-- PostgreSQL, and processed by a worker that receives events from RabbitMQ.
--
-- A server (internal/server) and a worker (internal/worker) share a table of avatars, an object
-- storage and a broker. An upload adds a line, stores the original, moves the line to
-- `uploaded` and publishes an event; the worker makes thumbnails and moves the line to
-- `completed` or `failed`. A deletion marks the line, and the worker removes the files. What
-- breaks in between is taken up by the retry ladder of the consumer and by the reconciler's
-- passes.
--
-- The files and the code they are about, by paths from the repository's root:
-- - Domain: internal/domain (statuses, keys, sizes, Avatar). Fault: errors and errors.Is, with
--   internal/domain/errors.go.
-- - World: what the processes share, and a script of turns. Every call of the database, the storage
--   or the broker takes a turn: other processes act, the call may be refused, and a refused call may
--   have taken place. World/Keeps has the rules by which actions keep a relation, World/Calls the
--   outcomes of one call.
-- - Postgres: internal/repository/postgres. A query is a condition on lines and a change of a line
--   (Postgres/Queries); a method has its Go name in snake case. Postgres/Evolution says how lines may
--   change, and Postgres/Methods that each method changes them so; Postgres/Lookup is about Get and
--   SoftDelete.
-- - S3: internal/storage/s3, Put, Get and DeleteMany. Postgres/Startup and S3/Startup: New, Close and
--   Ping of both.
-- - Broker/Events, Publisher, Headers, Consumer: internal/broker, of the files events.go,
--   publisher.go, retry.go and consumer.go; one delivery is one call of `process`.
-- - Broker/Pump: Consume of consumer.go, with the pump and the workers as a relation of steps.
--   Broker/Connection: broker.go, a connection with its options.
-- - Broker/Topology: topology.go, the levels of the retry ladder (Delays), the declaration of the
--   exchanges, queues and bindings, and where a message that is published goes (Routes).
-- - Config: internal/config/config.go, by Names, Defaults, Numbers (strconv and float64), Reader,
--   Validation and Load.
-- - Imageproc: internal/imageproc, the checks of an image and its thumbnails.
-- - Worker/Handler: internal/worker/handler (Calm and Completed: runs in which every call is
--   served; Delivered: an event as the message that carries it; Slots: the decode slots, as a
--   relation of steps). Worker/Reconciler: internal/worker/reconciler, one pass (Due: the lines that
--   are due; Quiet: a pass in which every call is served).
-- - Server/Service: internal/server/service (Accepted and Processed: an upload in which every call
--   is served, and the handling of its event; Removed: the same of a deletion). Server/Http: internal/server/http, the answers to
--   errors, the bodies, the handlers, images with their validators (Content), health checks, what
--   stands around a handler (Middleware and Recorder: the identifier, the recovery, the log and the
--   metrics), the rate limiter's table, and the table of routes with the middleware before each
--   (Routes). Server/Web: internal/server/web, the form, the upload and the gallery, as what the
--   templates get.
-- - Breaker: internal/breaker, over a parameter for the library gobreaker, whose documentation is
--   the hypothesis Documented (Breaker/Guarded); calls come one after another.
-- - Cmd: cmd/server, cmd/worker and cmd/migrator with internal/migrate from their start to their
--   end. Observability: internal/observability, the start and the end of tracing. Lifecycle: what
--   a process opens and closes, and which acts are in order.
-- - Base: lists, maps and sorting. Tests: runs on small inputs.
--
-- Actions are functions from a world to a result and a world. Loops run over lists, so there is
-- no fuel, but for Broker/Consumer/Ladder, where it is the number of deliveries, and for
-- printing a number, where 20 digits are enough for 64 bits. Sizes and times are natural
-- numbers; integers and durations of the configuration are integers that their parser bounds to
-- 64 bits, a float64 is the number of its bits, and the number of pixels is computed in 64
-- bits; the counters in headers are bounded as headerInt bounds them. Ids are the texts that
-- uuid.String returns.
--
-- Parameters: encoding and decoding of events, uuid.Parse and the making of thumbnails (record
-- Handler), the validation of an image, the placeholder and the storage's ETag (record
-- Service), what the parsing of a form answers (records Request and PageRequest), the token
-- buckets (record Buckets), the parsers of floats, durations and log levels (record Parsers),
-- the image libraries (record Codecs), the escaping of addresses (record Escapes), the circuit
-- breaker (record Gobreaker), and how RabbitMQ routes (record IsRabbit).
--
-- Not modelled: contexts and deadlines other than as refusals, logs but for the record of a request,
-- spans and durations, texts of errors, the handshake with the broker, the templates of the pages,
-- an image that breaks off while it is sent, and which handler gets which dependency. Lines that
-- ORDER BY leaves equal come in an order of the database, which the world has for each time.
pub mod Base
pub mod Fault
pub mod Domain
pub mod World
pub mod Lifecycle
pub mod Postgres
pub mod S3
pub mod Broker
pub mod Config
pub mod Imageproc
pub mod Breaker
pub mod Observability
pub mod Cmd
pub mod Worker
pub mod Server
pub mod Tests
