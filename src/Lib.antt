-- ===== src/Lib.antt =====
-- qoder-cpa is a plugin for a proxy of chat completions: it picks an account for a request,
-- opens the stream of an upstream in one of two dialects, and gives the answer back as OpenAI
-- chunks or as one document. This library models the core of it.
--
-- How the parts interact: an account comes from a login (oauth.go) whose credential the host
-- stores and has refreshed (auth_provider.go, refresh.go); its models are listed and kept in a
-- registry (model_provider.go, model_registry.go). schedulerPick (scheduler.go) chooses an
-- account from its state (scheduler_state.go), which failures and quota snapshots write to. The
-- executor (executor.go) selects the one adapter of the account's profile and opens a stream
-- through the queue wait (queue_wait.go). An adapter reads events from a parser of the
-- upstream's lines, whose payloads are classified, and makes chunks of them; a fallback turns
-- tool calls that arrive as text into tool-call chunks. The chunks are pumped to the host, or
-- put together to one answer.
--
-- - Prelude has Go's texts as lists of bytes, maps as association lists, 64-bit integers with
--   their wrap, and the lemmas that the parts share. ℤ is `int` and `int64`; sums and products
--   wrap.
-- - Lru models lruMap of scheduler_state.go with get, set, touch and evictOldest; Spec is the
--   list of bindings that it is refined to.
-- - In Scheduler, State is schedulerState (quota snapshots, cooldowns, sticky sessions); Select
--   is scheduler.go with schedulerPick and its stages, Between a run of picks, Notes is
--   noteSchedulerFailure and noteQuotaSnapshot. The clock is an argument. The random draw,
--   float64 weights and sort.Slice are parameters; where a theorem needs it, the sort keeps the
--   members of its list.
-- - Stream has the errors that streams end with (internal/qodertransport/errors.go) and
--   QueuePayload.
-- - QueueWait models queueAwaitHandle.ReadChunk of queue_wait.go. The upstream is a script of
--   its answers with a log of what it was asked. Its fuel is the number of attempts, which is
--   enough since each round but the last uses one.
-- - Classify models internal/qodertransport/qoderstream: ClassifyBusiness with extractQueue,
--   and the category tables.
-- - Sse models SSEParser of internal/qodertransport/bearer/sse.go and
--   internal/qodertransport/cosy/sse.go; ParseContext is parse_context, its fuel counts the
--   passes of the loop, and one for each line and one more is enough on a stream that ends by
--   EOF, since a pass that goes on uses a line. Sse.Wire is classifyEvent of both dialects.
-- - Adapter models internal/qodertransport/adapters.go and adapter_events.go; cosyHandle and
--   bearerHandle differ in the counts that they pass on, which are an argument. The results of
--   the parser are a list.
-- - Chat has the chunks of internal/qodertransport/chat_sse.go. encoding/json is the record
--   Json; it is lawful if every chunk is written as an object and read back as it was.
-- - Fallback models internal/qodertransport/text_tool_fallback.go and its _parse and _format
--   parts; Fallback.Reader is ReadChunk. The inner handle is the list of its reads, and each
--   call of ReadChunk of itself takes a read, so that one more than their number is enough
--   fuel.
-- - Executor models executor_aggregate.go (Aggregate, aggregateChat) and executor.go: Pump is
--   pumpStream with the usage tracker, Service is open and executeStream with the errors of
--   executor_handler.go, which are told to the host and noted for the scheduler. The handle is
--   the list of its reads, EOF after them; host calls are a list.
-- - Transport models internal/qodertransport/transport.go (profiles and Select) and itoa of
--   internal/qodertransport/errors.go.
-- - Registry models model_registry.go: a catalog is stored for an account and models are
--   resolved in it. Models models model_provider.go: authService.models with its loop over the
--   upstream's models, and the loop over suffixes of uniquePublicModelID, whose fuel is one
--   more than the ids that are taken (Search).
-- - VerifyHost models validateVerifyHost of internal/qoderauth/store.go, url.Parse being a
--   parameter.
-- - Auth models internal/qoderauth: credentials, their stored form and identifiers
--   (credentials.go, authid.go); Hex is hexEncode, Ids what identifiers tell apart, Scrub is
--   scrubSecrets. Auth.Login is DeviceLogin and the store of transactions (oauth.go,
--   oauth_cn.go, store.go), Login.Poll is PollLogin: transactions live in a memory that the
--   store and the callers share, and a call is one step. Auth.Refresh is Refresh (refresh.go),
--   and Refresh.Flight the calls that concurrent callers share, as steps in any order.
--   Auth.Provider models auth_provider.go: Service is authService, whose poll completes the
--   credential in the transaction itself, Store what is kept of a credential.
-- - Failure models classifyExecutorError of executor_errors.go. An error is its text and what
--   errors.As and errors.Is find in it.
-- - Request models internal/qodertransport/chat_request.go: parseChatPayload, toBearerRequest
--   and toCosyRequest.
-- - Dial models what the transports of both dialects do alike
--   (internal/qodertransport/bearer/transport.go, internal/qodertransport/cosy/transport.go):
--   from the HTTP client's answer to an open stream or an error, with the effects on the
--   context and the body. Dial.Bearer is the bearer transport, Dial.Loopback isLoopbackURL.
--   Cosy.Send is the cosy transport with BuildHTTPRequestAt and BuildCatalogRequestAt of
--   internal/qodertransport/cosy/request.go and the URLs of request_wire.go; Cosy.Encoding is
--   encoding.go, with base64 written out; Cosy.Crypto is crypto.go, where the block cipher, the
--   modular power and base64 are parameters and the entropy is a list of bytes.
-- - HostHttp models host_http.go: HTTP over calls of the host, and the stream body with Read
--   and Close. What the host will answer is a list; a read takes at least one chunk or answer
--   in each pass, so it ends with them.
-- - Control models internal/qodercontrol: the client (control.go), FetchProfile (profile.go),
--   and in Control.Quota FetchQuota (quota.go), whose float64 is that of the scheduler.
--   Quota.Handler is handleQuotaFetch of quota_dispatch.go, which notes the quota for the
--   scheduler.
-- - Management models management_save_merge.go, and refreshQuota and updateProfile of
--   management_quota.go, over the files of the host, which others may write while the upstream
--   is asked.
-- - Tests has runs on concrete inputs, and each theorem at an input that meets its hypotheses.
--   Tests.Codec is an encoder and decoder that is lawful.
--
-- A shared state under a lock is passed explicitly, each operation one step. A stream is what
-- its reads will be: the reading goroutine and the upstream's own timing are not modelled, nor
-- is Cancel, which only passes the call on. Conversions of characters outside ASCII are
-- modelled as far as they can touch ASCII text.
--
-- Not modelled: the C interface and the plugin's registration (cabi.go, main.go, envelope.go,
-- registration.go but for the plugin id), the management handlers that only read and the web
-- page (management.go, management_accounts.go, management_g1.go, ops_campaigns.go, web.go), the
-- lists of models and of campaigns (internal/qodercontrol/models.go, activity.go,
-- campaigns.go), the JSON shapes of upstream requests (bearer/wire.go, BuildChatBody of
-- cosy/request.go), their signature (cosy/crypto_sign.go), the context tiers that nothing calls
-- yet (cosy/context_tier.go), collectStream (bearer/aggregate.go), and execute and countTokens
-- of executor.go. They are I/O, JSON documents, cryptography and tables, or connect parts that
-- are modelled.
pub mod Adapter
pub mod Auth
pub mod Chat
pub mod Classify
pub mod Control
pub mod Cosy
pub mod Dial
pub mod Executor
pub mod Failure
pub mod Fallback
pub mod HostHttp
pub mod Lru
pub mod Management
pub mod Models
pub mod Prelude
pub mod QueueWait
pub mod Registry
pub mod Request
pub mod Scheduler
pub mod Sse
pub mod Stream
pub mod Tests
pub mod Transport
pub mod VerifyHost
