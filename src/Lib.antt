-- ===== src/Lib.antt =====
-- The API server for game data and its client library.
--
-- A query comes in over HTTP (server/src/lib.rs), goes through the pool of a region's sessions
-- (server/src/pool.rs), then through the cache of the session that was chosen (server/src/cache.rs)
-- and its managed client (server/src/managed.rs), and is sent by the client (client/src). Errors
-- come back the same way, and decide what the session does next: wait, recover, follow an update.
--
-- The files, and the code that they model:
--   Errors           client/src/error.rs: kinds of errors, and how an answer is classified. `Result`
--                    is the result type of all fallible operations.
--   Client.Patch     client/src/versions.rs: version texts and patch successors.
--   Client.Jp        client/src/jp.rs: master and asset versions.
--   Client.Config    client/src/session.rs: configuration, credentials, metadata.
--   Client.Session   client/src/lib.rs: the sessions of a client. Its child Operation is a call, its
--                    child Versions client/src/versions.rs, discover_versions.
--   Client.Auth      client/src/auth.rs: authorizations of the SDK and the login to the game.
--   Client.Query     client/src/query.rs: the method table and the validation of queries.
--   Client.Sdk       client/src/sdk_http.rs, sdk_http/form.rs and sdk_http/response.rs: its children
--                    Form (encodings and signature), Request (client and form), Reply (answers),
--                    Calls (the three calls) and Sending (one exchange).
--   Client.SecretFile client/src/secret_file.rs: private files in a folder.
--   Server.Cache     server/src/cache.rs: QueryCache::query, cut where it awaits or locks.
--   Server.Pool      server/src/pool.rs: SessionPool::query around the call of the cache.
--   Server.Managed   server/src/managed.rs: ManagedClient; its child Sync is
--                    server/src/managed/versions.rs, sync_versions.
--   Server.Regions   server/src/regions.rs: regions, profile ids, RegionClients.
--   Server.Params    server/src/query_params.rs: parse up to the JSON object.
--   Server.Projection server/src/projection.rs: the allowlist and the projection of responses, on
--                    the JSON values of Server.Json.
--   Server.Routes    server/src/path_routes.rs: the table of path routes; its child Handlers
--                    is what is done with a request.
--   Server.Gateway   server/src/lib.rs and server/src/diagnostics.rs: the middlewares.
--   Server.Operator  server/src/operator.rs: the stored session. Its child Recovery is
--                    server/src/managed.rs, GameRecovery::recover; its child Sources is where
--                    a login takes its device and its SDK client from.
--   Server.Config    server/src/config.rs: the checks of a configuration, on the paths of Server.Paths
--                    (also server/src/config_file.rs, absolute); its children Reading, for the
--                    text, and ApiKey.
--   Server.Startup   server/src/startup.rs: inspect, which is its child Inspect.
--   Server.Accounts  server/src/accounts.rs: the account files; its child Loading is what a load
--                    of an account does.
--   Prelude, Int, Decimal and Table are shared: Boolean tests, lists, signed integers, decimal
--   texts, and hash maps as association lists.
-- The children of a module hold its proofs, and Tests its examples.
--
-- How the code is read. State is a record that operations take and give back. Asynchronous code is
-- cut where it awaits or takes a lock: each piece is a function, and what it reads from other tasks
-- at that moment is an argument, so that every interleaving is a sequence of steps. Generations are
-- UUIDs in the code and numbers here; a session's generation is its place in the client's store,
-- hence fresh. Times are milliseconds from a common start. Atomic counters and `+= 1` on u64 wrap
-- at 2^64. Texts are native strings, whose `len` counts bytes as in Rust; where the code looks at
-- single bytes the model looks at code points, which is the same for tests that take ASCII only.
--
-- Fuel: the eviction loop has as much as the cache has entries (each round removes one), a number is
-- printed with one more than its value (each round divides by ten), and the pool's scan is bounded
-- by the number of members as in the code.
--
-- Parameters stand for the crates that are called: URL parsing, metadata and header values, form and
-- percent decoding, JSON and protobuf reading and printing, RSA, base64, and the digests.
--
-- Not modelled: timers, sockets, TLS, the registration in JP, the command line, the file that the
-- configuration is read from, the OpenAPI document and the assembly of the router. Files are folders
-- as they stand at an operation, or what an operation finds at a path.
pub mod Prelude
pub mod Int
pub mod Decimal
pub mod Table
pub mod Errors
pub mod Client
pub mod Server
