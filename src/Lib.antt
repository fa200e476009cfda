-- ===== src/Lib.antt =====
-- The HTTP test service api-test, modelled and verified.
--
-- A request to one of the test endpoints passes the CORS wrapper and the browser redirect of the
-- mux (pkg/httpsrv/mux.go), then the identity middleware (pkg/httpmw/identity.go), which asks the
-- chain of authenticators (pkg/auth/inbound) for a caller, then the audit middleware
-- (pkg/httpmw/audit.go), and then the handler of an endpoint group (pkg/endpoints). The portal's
-- routes stand behind PortalAuth instead (pkg/httpsrv/portalauth.go).
--
-- The files:
--   Prelude, Prelude/*   names that all modules share, lists measured in native numbers, Go's int
--                        as an integer that wraps at 64 bits, results with errors.
--   Std, Std/*           what the source uses of Go's standard library: strings as lists of bytes,
--                        strconv, base64 and hex, sort.Slice, float64, and the request, the response
--                        and the redirect of net/http.
--   Inbound, Inbound/*   pkg/auth/inbound: Types (identity.go, the errors and interfaces), Keys
--                        (apikey.go), Bearer (bearer.go), Oidc (oidc.go), Chain (chain.go),
--                        and the server's chain of internal/server/server.go (Server).
--   Middleware, .../*    Identity (pkg/httpmw/identity.go), Portal (pkg/httpsrv/portalauth.go,
--                        authgate.go, csrf.go), Cors (pkg/httpsrv/cors.go, browserredirect.go, the
--                        wrapping in mux.go, and pkg/endpoints/methods/methods.go).
--   Audit, Audit/*       pkg/httpmw/audit.go and logger.go (Capture, Event), the redaction of
--                        pkg/audit/event.go and pkg/auth/context.go (Redact), the queries of
--                        pkg/audit/memory.go (Memory), and the asynchronous
--                        logger pkg/audit/async.go (Queue), callers and worker as a step relation.
--   Routing, Routing/*   pkg/endpoints/registry.go (Registry), the Routes of each group and
--                        buildRegistry of internal/server/server.go (Catalog).
--   Pagination, .../*    pkg/endpoints/pagination/pagination.go: Params holds the validators and the
--                        cursor codec, Handlers the three handlers.
--   Portal, Portal/*     the portal's session cookies (pkg/httpsrv/session.go: Session) and its browser
--                        login with PKCE (pkg/httpsrv/browserauth.go: Nonces, Login), where the ledger of used
--                        nonces is passed from one callback to the next.
--   Endpoints, .../*     pkg/endpoints/data/data.go (Data: fixed and sized) and
--                        pkg/endpoints/streaming/streaming.go (Streaming) and the big body of
--                        pkg/endpoints/export/export.go (Export). The loop of sized runs on
--                        fuel, one more than the number of full buffers.
--   Reports, .../*       what the portal reads of the audit trail: the query's filter of
--                        pkg/httpsrv/portal_api.go and the window (Filter), counts by time
--                        (Timeseries), by dimension (Breakdown) and in sum (Stats) of
--                        portal_audit_aggregations.go, the export as lines of JSON (Export) and the
--                        live tail (Stream) of portal_audit_stream.go. The export's loop has 101
--                        rounds of fuel: a round that does not end it writes 1000 events or more,
--                        and it stops at 100000. A page loop of the live tail has the source's 10.
--   Validator, .../*     pkg/auth/oidc.go: discovery, the key set and its cache (Keys), and the checks
--                        on a token's claims (Claims).
--   Dispatch, .../*      requests that the portal sends into its own mux: replays of recorded ones
--                        (pkg/httpsrv/portal_audit_replay.go: Captured, Replay) and those that an
--                        operator makes up (portal_tryit.go: Substitute, TryIt), where the mux is
--                        a function from the request to the calls on the response's writer.
--   ApiKeys, ApiKeys/*   pkg/apikeys/store.go and inbound.go (Store) over the rows of the table
--                        api_keys, which each of its SQL statements reads or changes.
--   Config, Config/*     pkg/config/config.go: its parts (Types), the variables of the environment, the
--                        defaults and the validation (Load).
--
-- A handler is a function from the request to the response it has written when it returns: a
-- status, headers and a body, which stays a record where the source hands one to the JSON encoder.
-- Contexts are arguments. A Go map is an association list without repeated keys. Bytes are numbers.
-- Go's int is an integer reduced to 64 bits after every operation in Pagination and for the byte
-- counters of the recorders; where the source has bounded a value, it is a natural number. Case
-- mapping is that of ASCII text.
--
-- Parameters, since their code is not in the repository: SHA-256, the JSON decoding of a JWT
-- header, the JWT library with its check of signatures, UUIDs, bcrypt, YAML, the parser and printer of URLs,
-- HMAC, the JSON form of a session payload, random strings, and the exchange of a login code for a
-- token, the generator that draws a word from a seed, float64, time.Parse, the verb %q,
-- json.Marshal, and the order in which Go visits a map. Times in Reports are nanoseconds from an
-- instant two days before year 0. Not modelled: the PostgreSQL audit store, the migrations, the
-- embedded user interface, OpenAPI generation, process start and shutdown, and what is only input
-- and output.
pub mod Prelude
pub mod Std
pub mod Inbound
pub mod Middleware
pub mod Audit
pub mod Routing
pub mod Pagination
pub mod Endpoints
pub mod Portal
pub mod Reports
pub mod Validator
pub mod Dispatch
pub mod ApiKeys
pub mod Config
