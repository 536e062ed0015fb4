-- ===== src/Lib.antt =====
-- Koshi Runtime: a proxy in front of providers of language models that enforces token budgets.
--
-- A request comes to the handler, which finds the workload's identity, looks up its policy, checks
-- the guard of a single request, reserves an estimate of tokens in the workload's rolling window,
-- decides whether to allow, throttle or kill, and passes the request to the upstream; the answer's
-- usage then settles the reservation. At its start the process loads a configuration, builds the
-- engine and the resolver of it, and registers the budgets. In a cluster a webhook puts the runtime
-- into pods as a sidecar and tells it by its environment whose pod it is in. In listener mode
-- decisions are only reported. A panic turns the handler to a degraded mode, in which requests pass
-- without enforcement.
--
-- Which file models which part:
--
--   Budget/Window.antt       internal/budget/window.go: RollingWindow. A time is a number of
--                            nanoseconds since the zero time, each operation takes the reading of
--                            the clock that it makes; int64 arithmetic wraps.
--   Budget/Burst.antt        ConsumeBurst and ReplenishBurst of the same file with concurrent callers,
--                            by their atomic operations
--   Budget/Contention.antt   Reserve of internal/budget/tracker.go with concurrent callers, by what each
--                            does to the window under its mutex
--   Budget/Tracker.antt      internal/budget/tracker.go: TrackerImpl, as a map from workloads to
--                            windows.
--   Config.antt and Config/Validate.antt
--                            internal/config/config.go: the decoded configuration, its built-in
--                            values and its validation.
--   Enforce.antt             internal/enforce and internal/fanout: decisions.
--   Identity.antt            internal/identity: the two resolvers.
--   Policy.antt              internal/policy/engine.go: the two engines.
--   Json.antt                decoding of JSON values as encoding/json does it.
--   Provider.antt and Provider/Usage.antt
--                            internal/provider: detection by host and the parsers of usage.
--   Emit.antt                internal/emit/emitter.go: the emitter, with the interleavings of its
--                            callers and its goroutine as the relation `Run`.
--   Proxy/TokenCount.antt    internal/proxy/tokencount.go
--   Proxy/Anthropic.antt     internal/proxy/anthropic_sse.go
--   Proxy/Sse.antt           internal/proxy/sse.go
--   Proxy/Effects.antt       the state of the handler of internal/proxy/proxy.go, and the steps that
--                            change it: a step goes on, answers, or panics.
--   Proxy/Respond.antt       the responses of internal/proxy/proxy.go and the event of
--                            internal/proxy/shadow.go
--   Proxy/Upstream.antt      proxyWithEnforcement, handleNonStreamingResponse, proxyDirect and
--                            resolveUpstream
--   Proxy/Steps.antt         handleWithPolicy, step by step
--   Proxy/Handle.antt        NewHandler and ServeHTTP with its recovery
--   Inject/Owner.antt        internal/inject/identity.go: NormalizeOwner
--   Inject/Patches.antt and Inject/Escape.antt
--                            JSONPatchOp of internal/inject/patch.go, buildPatches, hasEnvVar and escapeJSONPointer of
--                            internal/inject/webhook.go, on the pods of Inject/Pod.antt
--   Inject/Mutate.antt       HandleMutate and ServeWebhook of internal/inject/webhook.go
--   Inject/Pointer.antt and Inject/Apply.antt
--                            how the paths of the operations are read, by RFC 6901, and what the
--                            operations do to a pod, by RFC 6902: not the program's code, but what
--                            its operations are for
--   Startup/Load.antt        cmd/koshi/main.go: the roles and the configuration
--   Startup/Wire.antt        cmd/koshi/main.go: the resolver, the engine, the registrations
--   Startup/Serve.antt       cmd/koshi/main.go: the endpoints, with ServeStatus of
--                            internal/proxy/proxy.go
--   Startup/Injector.antt    cmd/koshi/injector.go and internal/inject/tls.go: the configuration of the
--                            webhook, its endpoints and its certificates
--   Startup/Jobs.antt        cmd/koshi/certgen.go: the jobs of the certificates
--   Startup/Shutdown.antt    cmd/koshi/main.go: the end of the process
--   Certgen.antt             internal/certgen/certgen.go: the certificates, the secret and the bundle of
--                            the webhook
--   Base.antt                what all of them share: signed and 64-bit integers, maps, lists, results
--
-- Children of these modules hold the proofs, named for what they prove, and the modules `Tests` hold
-- concrete runs.
--
-- Bounds: no-wrap conditions are stated where a theorem needs them, on the load of a window: the
-- magnitude of its total and of its buckets, together below 2 ^ 63. The loop of scan runs on fuel for
-- one more than the bytes in the buffer, of which each round takes at least one off. A window is made
-- of at most 2 ^ 45 buckets, where `make` panics for more on a 64-bit machine. The writer of
-- decimals in Base/Decimal.antt runs on the number itself, which each round divides by ten.
--
-- Parameters: the grammar of JSON texts, the writer of JSON, the parser of addresses, which values a
-- Prometheus counter accepts, the upstream's answers, the readings of the clock, the environment of
-- the process, the decoding of a configuration file, the codecs of the webhook,
-- cryptography with its randomness, and the client of a Kubernetes cluster.
--
-- Not modelled: memory that runs out, a declared Content-Length, reading files and YAML, logging, latency histograms, the transport and the flushing
-- of the reverse proxy, concurrent requests but for Reserve and the burst, servers, signals and TLS
-- but for its configuration.
pub mod Base
pub mod Budget
pub mod Config
pub mod Enforce
pub mod Identity
pub mod Policy
pub mod Json
pub mod Provider
pub mod Emit
pub mod Proxy
pub mod Inject
pub mod Startup
pub mod Certgen
