-- ===== src/Lib.antt =====
-- The core of the unitree WebRTC client: what it does with the bytes that a robot sends, how it makes
-- and ends a session with it, and how events reach the callbacks.
--
-- The parts and how they interact. A session (src/connection: Connection) makes an offer with the RTC
-- engine (src/infrastructure/rtc_engine/engine.rs and handlers.rs: Engine), exchanges it over HTTP
-- (src/infrastructure/signaling_http.rs: Signaling, with the ciphers' formats of
-- src/infrastructure/security.rs: Security), and waits until the data channel is validated. The
-- engine's ready state is a byte of its own (src/infrastructure/rtc_engine/state.rs: RtcState). A text
-- of the data channel is admitted as JSON (src/protocol/ingress.rs: Ingress); a binary message is
-- first cut into its JSON header and its payload (src/datachannel/core/framing.rs: Framing). The data
-- channel service (src/datachannel/core/service.rs: DataChannel) matches a response to the request
-- that waits under its key (src/protocol/models.rs: Models), joins chunked responses
-- (src/datachannel/core/chunks.rs: Chunks), hands voxel maps with valid metadata to the LiDAR workers
-- (src/datachannel/lidar: Lidar) and queues messages of subscribed topics. Workers and topics send
-- their events through the queue of src/protocol/events.rs (Events) to the dispatcher. So do
-- the tasks that read the video and audio tracks and decode them (src/video/service.rs and codec.rs,
-- src/audio/receive: Streams); the video task joins the RTP packets to H.264 NAL units first
-- (src/video/h264_rtp.rs: H264Rtp). The log of repeated failures is
-- src/diagnostics.rs (Diagnostics). Json is serde_json's value tree with the accessors that the code
-- uses, Base the shared helpers, Tests the concrete runs.
--
-- State and operations. Each struct is a record with the fields of the source, and each method a
-- function of its name from the old state to the new one and the result. The service's methods run
-- under its lifecycle lock, so DataChannel.History has a step for each operation on messages, requests,
-- subscriptions and sessions, and a history is any sequence of steps; Events.History does the same for
-- the event queue. One-shot channels are tokens with a log of what was sent on them
-- (DataChannel.State); in the service the callback queue, the transport and the LiDAR queue are logs
-- too. Hash maps are association lists with distinct keys (Base.Dict), a BTreeMap a list in the order
-- of its keys (Chunks.Entries). Shared bytes of the ready state are cells, and an Arc is the index of
-- one. In Connection an asynchronous operation is a function whose state carries the list of what
-- others do at its await points: nothing, a request to disconnect, or the end of the 15 seconds. A
-- watch channel is the count of its changes, and the gate of a session makes attempts follow one
-- another. What a dropped operation had done by then is an arbitrary change of the world. The drop of an
-- attempt that holds the gate spawns a task that owns it until its end, so it is one step. The drop of a
-- request's guard takes the lock of the waiting requests and not that of the lifecycle; it too is one
-- step, and may come between any two.
--
-- Parameters. The record DataChannel.State.Port holds what the service asks of its surroundings: the
-- transport, clocks, the throttle table, encrypt_key of src/infrastructure/security.rs, the JSON
-- reader and the event queue. Connection.Ports holds what an attempt asks of the engine, the signaling
-- client, the data channel service and the audio senders, and Connection.Laws what it relies on: that
-- a stopped or closed data channel is not open, and that the wait for its opening succeeds only when
-- it is. Security.Crates holds the ciphers, digests, encodings and text conversions,
-- Lidar.Metadata.Floats the floating-point operations, Events.Size.Sizes the capacities of
-- allocations, Signaling.Net and Signaling.Url.Hosts the network, RSA and the parsers of addresses.
-- In Streams the GStreamer pipeline and the Opus decoder are parameters.
-- What a theorem needs of them is among its hypotheses.
--
-- Numbers. Bytes and counters are natural numbers; wrapping u16 and u64 arithmetic and saturating
-- usize arithmetic are written out. An instant is a number of nanoseconds. Fuel is used in six places.
-- show_nat gets 20, the digits of the largest u64, and map_blocks the length of its input, which is at
-- least the number of its blocks. json_size gets 16385 passes, since each adds 128 bytes to a size
-- that ends the loop above 2 MiB; try_delivery one more than its queues hold; shift_loop 8, the bits
-- of a byte; and wait_open 602 polls, of 50 ms in 30 seconds.
--
-- Not modelled: the calls of the webrtc crate that make a peer, the HTTP client, the setting up of
-- media pipelines, the sending of audio, the Python interface; of the connection the assembly of a
-- session and the retries of the transport alone; of the service the builders of request payloads and
-- timeouts; of the event queue the receptions with a deadline; of the security file RSA; of the LiDAR
-- workers their start.
pub mod Base
pub mod Json
pub mod H264Rtp
pub mod Chunks
pub mod RtcState
pub mod Security
pub mod Ingress
pub mod Framing
pub mod Models
pub mod Events
pub mod Lidar
pub mod Engine
pub mod DataChannel
pub mod Connection
pub mod Signaling
pub mod Diagnostics
pub mod Streams
pub mod Tests
