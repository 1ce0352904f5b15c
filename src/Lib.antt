-- ===== src/Lib.antt =====
-- Jo-ei is a proxy between package managers and public registries. A request for an artifact passes
-- a supply-chain filter, a CVE scan with a policy, and a malware scan; what passes is cached and
-- served, and cached artifacts are scanned again when their checks are old. This library models the
-- parts of the program that decide what may be served, and who may use the console: accounts, session
-- tokens and logins.
--
-- The parts, with the files that model them:
--   Gate (internal/gate): package references, severities, findings, results and events. Gate.Cache is
--     the cache as an interface: operations on a store of any type, and the laws that the handler
--     relies on.
--   SupplyChain (internal/supplychain): Allowlist, LoadAllowlist and Filter.Check.
--   Policy.Engine (internal/policy/engine.go): NewEngine and Evaluate. Policy.Params and
--     Policy.Runtime (internal/policy/runtime.go): RuntimeParams with their validation, and the
--     runtime policy: boot, Update, Apply and EditList over a settings store, which is an interface.
--     Policy.Settings (internal/settings/settings.go, internal/policy/store.go and
--     cmd/jo-ei/settings_adapters.go) is the store that the program gives it, and
--     Policy.Runtime.Restart a restart on it.
--   Upstream (internal/upstream/attempts.go): AllNotFound and Throttled. Upstream.Breaker
--     (internal/httpx/circuitbreaker.go): the circuit breaker whose Throttle is the lookup of
--     Throttled.
--   Proxy (internal/proxy/handler.go): Proxy.Download is tryDownload and downloadFromUpstreams;
--     Proxy.Admission the gates of ServeHTTP in their two orders; Proxy.Recheck the re-checks of a
--     cache hit; Proxy.Handler the rest of ServeHTTP; Proxy.Forward the forwarding of all other
--     requests; Proxy.History is a sequence of requests over one cache.
--   Cache.Index, Cache.Local and Cache.Local.Eviction (internal/cache/index.go, local.go and
--     artifactcache.go): the index as a list of rows, the cache over it and the file system, and the
--     eviction down to a size.
--   Scanner.Multi (internal/scanner/multi.go): the combination of several malware engines.
--   Users (internal/users): Users.Validation is the validation of users.go; Users.Store the accounts of
--     store.go and the operations on them. Users.Store.Actions has the abstract table of accounts and
--     its steps.
--   Auth (internal/auth): Auth.Token (token.go) issues and verifies session tokens, Auth.Limiter
--     (ratelimit.go) is the limiter of failed logins, Auth.Session (session.go) the middleware and the
--     cookies, over the accounts, and Auth.Handlers (handlers.go) the handlers of /api/auth, over the
--     accounts and the limiter.
--   Console.Accounts (internal/console/users.go): the handlers of the management API that change
--     accounts, over Users.Store.
--   ClientIp (internal/httpx/clientip.go and trusted.go): the address of a client behind trusted
--     reverse proxies, which Auth takes as an argument.
--   Slots (internal/httpx/limiter.go): the concurrency limiter of upstream requests, as the events of
--     concurrent requests.
--   Prelude: lists, texts, integers and maps; Tests: each theorem on a small input.
--
-- How the code is read. Pure functions are functions; a handler takes the state and returns it. The
-- external parts of the handler (adapter, scanners, policy, HTTP client, clock) are fields of its
-- configuration, and its state is the store of the cache with the events and responses written so
-- far. A gate that stops a request answers with its event and its response. In the local cache each
-- call to the database or the file system takes its outcome from a list of faults, so every sequence
-- of failures is covered. Texts are lists of character codes, instants and durations nanoseconds;
-- durations are int64 where the code computes with them, with wrap-around of products and sums and
-- with the saturation of a difference of instants. The bound of a download is a number of megabytes in
-- bytes, and one more than it does not reach the end of int64. Reasons, verdicts and gate names are
-- constructors. A request reads the clock once for each purpose, and a round trip of the circuit
-- breaker once.
--
-- An operation on the accounts reads and changes one table; each of its statements, and its begin and
-- its commit, may fail, and a transaction that fails changes nothing. The letters A to Z of a username
-- are equal to a to z, as the collation of the column has it. Token versions are natural numbers, and
-- do not reach the end of int64. Base64, JSON and HMAC-SHA256 are the operations of a codec, with the
-- laws that base64 text has no dot and that what was encoded is read back; nothing is assumed of the
-- HMAC. The settings store takes the encoding of JSON and whether a statement fails as arguments; what
-- a restart relies on of JSON is a hypothesis there. The hash and the check of a password and the parser of URLs are functions in the
-- configuration of the sessions. A request reads the clock once. The package net/netip is a record of
-- functions over types of addresses and prefixes.
--
-- Loops are structural, over mirrors, findings, attempts, rows or requests, but for the eviction,
-- whose rounds are counted by fuel: one more than the number of rows, since a round that makes
-- progress removes a row.
--
-- Not modelled: the registry adapters and the docker proxy, which parse URLs and documents; the
-- filtering of metadata documents and index pages; the rate limiter of upstream requests, whose tokens
-- are floating-point numbers; the other endpoints of the console; the list of all accounts and
-- generated passwords; the settings of the registries; the protocols of the scanners; purging and statistics of the cache; telemetry,
-- metrics, configuration, health and logging. The event of a request leaves out its time stamps, and a
-- response the fields that repeat the request.
pub mod Prelude
pub mod Gate
pub mod SupplyChain
pub mod Upstream
pub mod Policy
pub mod Proxy
pub mod Cache
pub mod Scanner
pub mod Users
pub mod Auth
pub mod Console
pub mod ClientIp
pub mod Slots
mod Tests
