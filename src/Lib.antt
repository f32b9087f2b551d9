-- ===== src/Lib.antt =====
-- socialpublish: a server that publishes posts to social platforms, and its Go SDK.
--
-- The server keeps workspaces, accounts, media, posts with their targets, webhooks and encrypted
-- tokens in PostgreSQL. Its HTTP handlers change the tables and put tasks on a queue; workers run
-- the tasks: they publish targets through platform adapters, refresh tokens, transcode media and
-- deliver webhooks. The SDK calls the server through a transport that retries, and verifies the
-- signatures of the webhooks that it receives.
--
-- The files and the code they model:
--   Prelude: shared helpers; GoText: the functions of strconv, strings and encoding/hex in use.
--   Webhook: sdk/webhook.go. Signature has SignWebhookPayload (sign_webhook_payload),
--     VerifyWebhookSignature (verify_webhook_signature) and parseSignature; Router has
--     WebhookRouter, whose Parse and ServeHTTP are parse and serve_http.
--   Transport: sdk/transport.go, sdk/errors.go, sdk/client.go and sdk/options.go. Retry
--     has DoJSON (do_json) and handleResponse, Backoff has backoff, sleep and parseRetryAfter,
--     Errors the error types and codeForStatus, Client has New (new_client), Request newRequest.
--   Pagination: sdk/pagination.go. Iter with next, item and new_iter; Walk has the loop over them,
--     with as much fuel as calls of next.
--   Store: internal/store/types.go and internal/store/postgres.go. Database is the state and the
--     monad of the operations; Accounts, Media, Posts, Analytics, Webhooks and Tokens have one
--     function for each method of the stores. Interfaces has the interfaces of
--     internal/store/store.go and New, which fills them.
--   Platform: internal/platform, the adapters and the registry. Ffmpeg: internal/ffmpeg.
--   Worker: internal/worker, the handlers of the tasks (process_publish, process_refresh,
--     process_transcode, process_analytics, process_deliver), and internal/queue/asynq.go (enqueue).
--   Api: internal/api/handler, one module for each file, and internal/api/middleware.
--     Routes has the table of routes of internal/api/server.go, each with its middleware; Chain has
--     a handler under /v1 behind CORS, Authenticate, InjectTenant and RateLimit.
--   Sdk: sdk/services. Post has the types of the posts, Builder the Builder with its platform
--     builders (Targets), the calls that a program makes of them (Calls) and the plan that they
--     stand for (Plan); Posts, Account, Media, Schedule and Analytics have one function for each
--     method of the services, Wired is the transport that they are given, and Routed has their
--     requests beside the routes of the server.
--   Server: internal/config/config.go (Config), internal/storage/s3.go (Storage), the tables of
--     internal/worker/pool.go (Pool), OpenDB of internal/store/store.go with the beginning of
--     run in cmd/server/main.go (Start), what it gives to the server (Serve), the pool of
--     cmd/worker/main.go with its handlers (Worker), Server.Run and Pool.Run as steps of their
--     goroutines (Run) and run of cmd/migrate/main.go (Migrate).
--   Wire: the JSON between SDK and server. Values has what is used of encoding/json; Answers what
--     the handlers write of internal/store/types.go and of their maps, Requests what the SDK writes
--     of sdk/services/post/types.go for Create and what the handler reads; Reads and Services what
--     the SDK reads by the tags of its types; Served the two ends of a request (decodeBody,
--     writeJSON and the decoders of handleResponse). Created, Stored, Updated, Failed, Paged, Seen,
--     Lost and Measured compose SDK, transport, handlers, stores and workers over that JSON.
--   Lifecycle: the steps that handlers and workers make on the shared state, in any order.
--   Samples and the modules named Tests: examples.
--
-- State: a World holds the tables as lists of rows, the queue as the list of enqueued tasks, and
-- the number of calls made to the outside. An operation is a function of the World. An Env says
-- what the outside does at its n-th call: whether it fails, the time, the generated identifiers,
-- where a result breaks off, and what a float64 makes of a number. A failed call has no effect. The constraints of migrations/ (foreign
-- keys, unique keys, ON DELETE CASCADE) are part of the operations. Columns that may be NULL are
-- options; whether pgx reads a NULL into a string is the hypothesis ScansText. A nil MediaIDs is not
-- told from an empty one, which the column takes, and times are not cut to the microseconds that
-- TIMESTAMPTZ keeps.
--
-- The builder of the SDK is shared through pointers: its Memory holds the Builder, and by addresses
-- the platform builders and the map of the metadata; a target holds an address. The services take
-- their transport as a parameter.
--
-- JSON: a value is a tree; that a text is read as the tree that was written is a hypothesis of the
-- theorems that go through texts. Keys match as in encoding/json, without regard to case; a map is
-- written in the order of its entries, and a nil slice as the empty one. The numbers of metrics
-- that are read back pass through a map of float64, which is the parameter read_number of Env; the
-- numbers in the other maps keep their literal, and so stand for ones that a float64 holds.
--
-- Parameters: HMAC-SHA256, SHA-256, AES-GCM, random bytes, the texts of JSON trees, of times and of
-- float64 numbers, http.Client, the conversion of large float64 values, pgx, the handlers that a
-- client registers, the FFmpeg process, object storage, Redis, url.PathEscape, Time.Format and the
-- router's matching of paths. Errors of theirs are values.
--
-- Bounds: integers that the code keeps in an int64 are checked or wrapped at 2^63; times are
-- nanoseconds since the Unix epoch. The retry loop recurses on the number of attempts left, which
-- is the loop's own bound; decimal printing has fuel of one more than the number, which exceeds
-- the number of digits.
--
-- Not modelled: the JSON of the bodies of requests other than Create, Update and Upload; signals,
-- error groups, the deadline of the shutdown and the closing of what the processes opened, which
-- are calls of libraries; the cancellation of contexts elsewhere than in Run; and logging.
pub mod Prelude
pub mod GoText
pub mod Webhook
pub mod Transport
pub mod Pagination
pub mod Store
pub mod Platform
pub mod Ffmpeg
pub mod Worker
pub mod Api
pub mod Lifecycle
pub mod Sdk
pub mod Wire
pub mod Server
mod Samples
