-- ===== src/Lib.antt =====
-- DNSWatcher: a service that traces a DNS question from the root servers to its answer, and reports
-- every hop. This library models its Go backend.
--
-- The program's parts. `backend/internal/httpapi` takes a request, limits its rate and calls the
-- engine. `backend/internal/trace` (engine.go, root_hints.go) normalizes the request by
-- `backend/internal/policy` (domain.go), then asks one server after another: it follows referrals
-- (with glue, or by support lookups, for which it calls itself), restarts at the roots for a CNAME,
-- and records a hop for each round. Before each query it asks the destination policy
-- (destination.go). `backend/internal/contracts` (types.go) holds the records that they share.
--
-- Files:
--   Prelude, Prelude/*       shared names, Boolean tests, lists, strings as bytes, postconditions
--   Strings, Strings/*       the functions of Go's `strings` package, on bytes; encoding/hex
--   Policy/Domain            domain.go: NormalizeDomain, NormalizeQType
--   Policy/Domain/Valid      the names that are meant to be accepted, described without the code
--   Policy/Domain/Accepts    the code against that description
--   Policy/Destination       destination.go: PublicIPPolicy.Allow
--   Policy/Destination/Ranges    the policy against ranges of addresses
--   Contracts, Contracts/Kinds   types.go
--   Trace/Dns                parameters: the DNS library's messages and tables, the network
--   Trace/Records            engine.go: rrsetsFromSection, hasType, glueAddrs, classifyRole, ...
--   Trace/Records/Groups, Grouping, Sets   the record sets of a section
--   Trace/State              engine.go: Config, traceState, newErrorHop, lastHopIndex
--   Trace/Exchange           engine.go: exchange
--   Trace/Support            engine.go: resolveNameServerAddresses
--   Trace/Support/Keys       the visited key
--   Trace/Referral           engine.go: nextCandidatesForReferral
--   Trace/Referral/Glue, Candidates   the candidates that glue gives
--   Trace/Response           engine.go: the hop of a response and its judgement in queryCandidates
--   Trace/Verdict            engine.go: the switch of traceName
--   Trace/Engine             engine.go: queryCandidates, traceName
--   Trace/Engine/Steps       the steps that change a trace's state, as a relation
--   Trace/Engine/Results     what a round may give
--   Trace/Engine/Reaching, Judging, Asking, Rounds, Outcomes, Returning   the functions, by such steps
--   Trace/Engine/Budget, Egress   invariants of the steps
--   Trace/Run                engine.go: NewEngine, Trace; root_hints.go
--   Trace/Run/Promises, Egress, Answers   what Trace promises
--   Net, Net/Classes         addresses and prefixes of Go's net/netip, as numbers
--   Net/HostPort             net.JoinHostPort
--   HttpApi/Forwarded        clientid.go: the syntax of the Forwarded header
--   HttpApi/Forwarded/Quoting    its quoted strings and lists
--   HttpApi/ClientId         clientid.go: resolveClientIdentity, ParseTrustedProxyCIDRs
--   HttpApi/ClientId/Chain, Spoofing     who decides the client's key
--   HttpApi/Limiters         server.go: limiterFor, cleanupLimiters
--   HttpApi/Limiters/Separate, Lasting   clients keep limiters of their own
--   HttpApi/Limiters/Spec, View, Refines   clients without the map and the heap, which it implements
--   HttpApi/Server           server.go: NewServer, createTrace, writeTraceError
--   HttpApi/Server/Concurrency, Isolation, Progress    requests that interleave
--   HttpApi/Server/Answers, Statuses   a request that runs alone
--   HttpApi/Service          the server with the engine as its tracer
--   HttpApi/Logging          server.go: the events that createTrace logs, hashClientKey
--   HttpApi/Logging/Key      how the log names a client
--   HttpApi/Logging/Complete, Redacted   what the log holds, and what it does not
--   HttpApi/Routes           server.go: Handler, healthz, writeJSON, withJSONHeaders
--   HttpApi/Routes/Untouched     the requests that do not touch the server's state
--   HttpApi/Timeouts         server.go: StdlibServer
--   Startup                  backend/cmd/dnswatcher-api/main.go: envCSV and the trusted proxies
--   Startup/Env, Env/Numerals    envString, envInt, envInt64, envDuration; numerals are read back
--   Startup/Process          main
--   Startup/Promises         what a process that serves has been set to
--   Startup/FailClosed       the proxies that the process starts with
--
-- State and operations. A trace's state is the record TraceState, passed on explicitly; it holds
-- the history of queries besides the fields of traceState. The network is a parameter, a function
-- of that history, so it may answer every query as it likes; the deadline of the context shows in
-- its replies. The clock and the random id are readings that Trace takes. The DNS library, the
-- Unicode tables (which act only on strings with a byte beyond ASCII), the texts of addresses and
-- prefixes (netip.ParseAddr, ParsePrefix, Addr.String), net.SplitHostPort, time.ParseDuration and
-- the host's environment and files are parameters.
--
-- Fuel. traceName calls itself through three other functions, so trace_name takes fuel, and none
-- means only that it ran out. Each inner call stands behind a query that was charged to the budget
-- MaxUpstreamQueries, so one more than the budget is enough, and Trace is modelled with that fuel;
-- its theorems say that it returns.
--
-- A request to the server goes through phases (Phase), between which other requests may run; the
-- limiters are indices into a heap, because a request asks its limiter outside the lock of the map.
-- The JSON decoder, SHA-256, the ServeMux's clean paths, the file server and the limiters of
-- golang.org/x/time/rate are parameters.
--
-- A Config's limits and timeouts are natural numbers, where the source has Go's signed ones; main
-- passes an empty Config, so that the defaults hold. The records of a response name their kind by
-- constructors; that their headers agree is a hypothesis where it matters.
--
-- Not modelled: normalizeHop, which only replaces nil slices by empty ones; JSON encoding, of
-- results and of the log; what http.Server does with its timeouts; the test lab, which opens
-- sockets; the frontend, which is not part of the service.
pub mod Prelude
pub mod Strings
pub mod Policy
pub mod Net
pub mod Contracts
pub mod Trace
pub mod HttpApi
pub mod Startup
