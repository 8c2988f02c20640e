-- ===== src/Lib.antt =====
-- Verification of Helix Gateway, an HTTP gateway in Go with an admin API.
--
-- A configuration store holds routes, upstreams, IP policies and API keys. Each change is written
-- to a JSON file and announced to listeners; the router is one of them, and builds a new route
-- table from the store. A request passes the gateway's plugins, finds its handler in the table and
-- passes through the route's plugins and a load balancer to an endpoint. The admin API is the way
-- to the store, and a Kubernetes operator uses it through a client.
--
-- Store models internal/store. Model.antt has the records of model.go. State.antt has the Store
-- struct, its file and what every call shares (New and load, Export, persist, notify): a method
-- takes the state and returns the next one, since the mutex makes it one step; its identifier, its
-- clock and the answers of encoding/json and the file system come in a record Io. Routes.antt,
-- Upstreams.antt, Policies.antt and Keys.antt have one function for each method of that name,
-- CreateRoute being create_route. Their children Ends.antt say where each method can end, and the
-- theorems about all calls (Integrity, Names, Keying, Outcomes, Restart) stand on these, over the
-- type Call of Calls.antt. API keys stand in cells, since two maps and a caller share a pointer.
-- Router models the table, the matching and the reload of internal/router/router.go over a type of
-- handlers, and in Forward.antt the path that is passed on; package regexp and sort.Slice are
-- parameters, the latter with the hypothesis IsSort about any comparator that is a strict weak
-- order. Its children Split, Balance and Proxy have buildTrafficSplitHandler, buildLBHandler, and
-- the changes that buildUpstreamProxy makes to requests and responses.
-- Lb models internal/lb/lb.go: RoundRobin, with its counter modulo 2^64, LeastConn, and Weighted,
-- with the weights that the router gives it; rand.IntN is a parameter.
-- Health models internal/health/checker.go: the cache of states and a round of probes.
-- Metrics models internal/metrics/tracker.go: the counters of each route and the snapshots.
-- RateLimit models internal/ratelimit: the two scripts that Redis runs, and the limiter over them.
-- Audit models internal/audit/log.go. Plugins models internal/plugin. Http has requests,
-- responses, chains and the registry; Access has ippolicy.go, apikey.go and jwt.go of the folder
-- builtin, Rewriting its transform.go, cors.go and security.go, Limits its ratelimit.go,
-- routelimit.go and correlation.go, and CircuitBreaker its circuitbreaker.go: the breaker and, as
-- events, the handler around it. Validator models internal/auth/jwt.go, over jwt.ParseWithClaims.
-- That function, the parsing of addresses, digests, regular expressions and the limiter of
-- golang.org/x/time/rate are parameters there.
-- Admin models internal/admin. Admin.antt has what handlers share (writeJSON, storeErr), Mux the
-- table of registerRoutes and the choice of http.ServeMux, Routes, Upstreams, Policies, Keys and
-- Reports the handlers of the files of these names and of handler.go, Server the dispatch with
-- basicAuth, and Client the calls of client/client.go. What a handler takes from outside (decoders
-- of encoding/json, random bytes, the health request) is a record Env. Effects, Trail, Reading,
-- Refusals and Runs are about the handlers; Remote and Parity put the client and the server
-- together, where the record IsServed says what is assumed of the network and of encoding/json.
-- Operator models internal/operator: the resources of types/types.go, and in Routes, Upstreams and
-- Policies the reconcilers of controller. They stand on two interfaces: Kube is client.Client, and
-- Gateway the admin client, whose laws are the record Contract; Backend.antt proves them for the
-- client, the server and the store of this library.
-- Config models internal/config/config.go, with the environment as a table, and Gateway the parts
-- of cmd/main.go that are not I/O: the readers of settings, the registry, the mux and the chain.
-- Base has the shared types and lemmas, and Examples applies the theorems to concrete input.
--
-- Maps are association lists. A Go int that can be negative is a ℤ over the native numbers,
-- without wrapping, but for the uint64 of RoundRobin and the sums of a traffic split, which are
-- 64-bit numbers. The token bucket counts in exact thousandths and millionths, where Lua has
-- doubles. No definition needs fuel: every loop follows a list or a count.
--
-- Not modelled: sockets, the transport of the reverse proxy and WebSocket tunnels, TLS, telemetry,
-- the loading of shared objects, the plugins that only report, the event stream of the metrics,
-- the embedded UI, and the start and the shutdown of the servers. The deep copies of the resources
-- are the values themselves, and a path is read in the clean form, without escapes, that
-- http.ServeMux hands on. The client puts an identifier into a path as it is; only identifiers of
-- letters, digits, dashes and underscores, as a UUID, are known to arrive as they were sent.
mod Base
pub mod Store
pub mod Lb
pub mod Audit
pub mod Plugins
pub mod Router
pub mod Health
pub mod Metrics
pub mod RateLimit
pub mod Admin
pub mod Operator
pub mod Config
pub mod Gateway
mod Examples
