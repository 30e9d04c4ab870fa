-- ===== src/Lib.antt =====
-- w8nc pings HTTP endpoints on a schedule, decides by a condition whether a response calls for a
-- notification, and delivers notifications and screenshots. This library models its data, its
-- validation, its conditions, its pings, the database operations that carry its state, and the sessions
-- and routes through which it is used.
--
-- The parts and their files:
--   * Models (internal/models/models.go): the records that the other parts exchange; Models/Tags:
--     NormalizeTagInputs, NormalizeTagName, TagColorAllowed.
--   * Validation/Interval (internal/validation/interval.go): ParseInterval, FormatInterval,
--     ValidateInterval. A `time.Duration` is an `int64`, and its products wrap.
--   * Validation/Address (internal/validation/url.go, proxy.go): IsPrivateIP, NormalizeURL and
--     NormalizeSocks5ProxyAddress.
--   * Conditions (internal/conditions/conditions.go): Evaluate and ValidateCondition; Conditions/Template:
--     RenderTemplate.
--   * Store (internal/db/db.go): the tables, statements and transactions. Store/Endpoints: GetEndpoint,
--     ActivateEndpoint, DeactivateEndpoint, DeleteEndpoint, DeactivateExpiredEndpoints,
--     LockDueEndpoints. Store/Editing: CreateEndpoint and UpdateEndpoint. Store/Labels: the tags and
--     their links to endpoints. Store/Secrets: LastProxyConfig and HasEncryptedSecrets. Store/Users: the
--     users and their sessions. Store/Record: RecordPingResult and StateForResult. Store/Runtime:
--     ResumeAfterDowntime and MarkRuntimeSeen. Store/Events: the notification events.
--     Store/Screenshots: the screenshot attempts. Store/Settings: the notification settings.
--     Store/Listing: the parameters of a list. Store/Rules, Store/Rows and Store/Each hold the rules of
--     reasoning about operations and rows that the proofs of all operations use.
--   * Scheduler (internal/scheduler/scheduler.go): processEndpoint, which joins Conditions and Store,
--     PingNow and DispatchNotificationsOnce.
--   * Pinger (internal/pinger/pinger.go, compression.go): Ping, pingOnce and what they call; Pinger/Once and
--     its siblings hold the request, the guard of its target, the decoding of its body and the retries.
--   * Auth (internal/auth/auth.go): the manager of sessions; Auth/Passwords: the hashes of passwords and
--     tokens; Auth/Handlers: Login, Logout, ChangePassword and the middleware, over Store/Users;
--     Auth/RateLimiter: the limiter of failed logins.
--   * Api (internal/api/server.go): Api/Routes: serveAPI and serveProtectedAPI, over Auth/Handlers;
--     Api/Inputs: what is made of the JSON of an endpoint; Api/Proxies: that of a proxy; Api/Endpoints: the
--     handlers of one endpoint, which join these with the store.
--   * TlsVerify (internal/tlsverify/tlsverify.go): Verify and the issuers it fetches, the issuer cache and
--     the transports per host.
--   * Socks5 (internal/socks5/dialer.go): the handshake with a proxy, over what the proxy sends, what is
--     sent to it, and which writes fail.
--   * Security (internal/security/headers.go): DetectSensitive and ValidateHeaders.
--   * Screenshots (internal/screenshots/service.go): process and RunOnce, over Store/Screenshots.
--   * Base: numbers, lists, texts, results and sorting, which all parts share.
--
-- How the state is modelled: a table is the list of its rows, a row is a record with the columns that
-- the operations read or write. An operation takes a connection, which is the database and the list of
-- faults to come, to a result and a connection. Every statement, BEGIN and COMMIT takes one fault off
-- the list and fails if it is set; past the list none fails. So a theorem about all connections is one
-- about all ways in which the statements of an operation fail. A transaction that fails restores the
-- tables. A single statement is atomic, and so is a transaction; operations of several processes are
-- interleaved as whole operations.
--
-- Choices: a text is the list of its bytes, and letter case and white space are those of ASCII. Times
-- and durations are counted in nanoseconds. The clock of the database and the ids that it generates are
-- arguments of the operations. Status codes, lengths and limits are never negative. Loops are structural
-- recursion on the list that they run over; RenderTemplate replaces on fuel, the length of the template,
-- which is enough since each round takes a byte, Verify counts its hops down from four, and Ping
-- those of its at most two tries. The result of a ping and the outcome of a delivery are
-- arguments of the scheduler, as a capture is one of the screenshot service; the HTTP client, the
-- resolver, bcrypt, sha256, random bytes, net/url, the decoding of JSON, crypto/x509, downloads, `%q` and
-- the format of a time are functions in a record of what lies outside. A ping also keeps the requests that
-- it sends, up to their redirects, which the client follows by itself under the modelled policy.
--
-- Not modelled: the handlers of the API server for lists, checks, tags, settings, screenshots,
-- the last proxy, a manual ping and the test of a request; the
-- queries ListEndpoints and ListChecks; the tickers and workers that call the modelled operations; the
-- notifier and the screenshot capturer, which run external programs; the names of time zones; the
-- encryption; the configuration and the start of the program; the web client.
pub mod Api
pub mod Auth
pub mod Base
pub mod Conditions
pub mod Models
pub mod Pinger
pub mod Scheduler
pub mod Screenshots
pub mod Security
pub mod Socks5
pub mod Store
pub mod TlsVerify
pub mod Validation
