-- ===== src/Lib.antt =====
-- traefik-connect: workers read the labels of their Docker containers and send snapshots of them to a
-- master, which runs one stub container for each exported service, with labels for Traefik; a stub
-- tunnels each request to the worker's proxy over a websocket.
--
-- Parts, with the code that they model:
--   Common      Go's strings, maps, sorting and results, and lemmas on them
--   Model       internal/model/model.go
--   Names       internal/util/names.go: SanitizeName, ShortHash
--   Util        internal/util/atomicwrite.go: AtomicWriteFile, state by state of the directory
--   Config      internal/config/config.go: LoadAgent, LoadReceiver, LoadStub, LoadTestApp (Config.Load), over
--               what they use of Go's package flag (Config.Flags)
--   Dockerx     internal/dockerx/client.go: what the engine is asked and answers, and the client's
--               operations (Dockerx.Client)
--   Parse       internal/parse/labels.go: from a container's labels to a ContainerSpec
--   Render      internal/render/render.go: the YAML of a snapshot (RenderSnapshot in Render.Snapshot)
--   Receiver    internal/receiver/store.go: validation (Validate), the labels of stubs (Labels, Stubs),
--               reconciliation (Reconcile), the worker store (Store, Store.Lifecycle), what the store
--               promises (Store.Refine), handleSnapshot of internal/receiver/server.go (Server), and the
--               states that internal/receiver/app.go goes through (App); Engine runs the store on the
--               client of Dockerx
--   Loop        store.go and labels.go together, on one host
--   Websocket   internal/websocketx/websocketx.go: ReadFrame and writeFrame
--   Api         internal/api/api.go: SignBody, ValidateRequest
--   Tunnel      internal/stub/server.go, internal/worker/proxy.go, internal/tunnel/tunnel.go and the
--               handshakes of websocketx.go: the messages (Stream), the loops that move bodies (Pumps),
--               the header filters (Headers), the request to the backend (Request), the stub's handlers
--               (Stub), the worker's (Proxy), Dial and Accept (Handshake), and the two ends together
--               (Exchange)
--   Worker      internal/worker/agent.go: the service lookup and the status, syncOnce (Sync),
--               syncWithRetry and watchEvents (Retry), signal and the loop of Run (Trigger), watchEvents
--               on the client of Dockerx (Events)
--
-- A worker's snapshot goes from Parse through Worker.Sync and Api to Receiver.Server and
-- Receiver.Store.upsert, which validates it, stores and persists it, and has Receiver.Reconcile make the
-- engine run the stubs that Receiver.Stubs.Build asks for. A stub starts with Config.Load, and its
-- Tunnel.Stub talks to the Tunnel.Proxy of the worker. The engine and the state directory are the
-- operations of Receiver.World, on a state of any type and with nothing assumed of their answers. Maps
-- are association lists; an order in which Go ranges over a map, where it matters, is a parameter. Each
-- operation of the store is one step, as its mutex makes it. What comes in on a connection is the list of
-- its frames or reads with the error behind it; what goes out is a state that each write changes and may
-- fail in.
--
-- Loops are structural recursion, but for three: the digits of a number, with the number itself as fuel,
-- which is enough; and the loops of syncWithRetry and watchEvents, which may go on for ever, with the number
-- of their tries as fuel, where `none` says that it is used up.
--
-- Parameters stand for code that is not in the repository: the digests, JSON, net/url, net/http, and
-- Unicode's tables beyond ASCII. Not modelled are internal/runtimeinfo (build data), internal/testapp (a
-- backend for manual tests), and the set-up of the processes: cmd, listeners, TLS, shutdown. Of the
-- two loops of a relay of an upgraded connection one is modelled by itself, and the goroutine that moves
-- a request's body runs before the response is read: how they interleave is left out. So are logging,
-- cancellation where it is not named, and timeouts.
pub mod Common
pub mod Model
pub mod Names
pub mod Util
pub mod Config
pub mod Dockerx
pub mod Parse
pub mod Receiver
pub mod Loop
pub mod Websocket
pub mod Api
pub mod Tunnel
pub mod Render
pub mod Worker
