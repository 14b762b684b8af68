-- ===== src/Lib.antt =====
-- mini_middleware: a publish/subscribe middleware with discovery, TCP and shared-memory transports.
--
-- The parts and how they meet. A Publisher hands bytes to LocalBus, which hands them to the queues of
-- the local subscribers and to remote sinks. A DiscoveryAgent announces a participant's endpoints,
-- matches them with those it hears of, and calls the DataPlane back; the DataPlane gives each match a
-- route, a TCP connection or a ring in shared memory, and puts a remote sink for it on the bus. What
-- arrives from a route goes to the local subscribers only. Services and clients run over topics.
--
-- Files and code, with paths from the repository's root:
--   Prelude, Prelude/*: Boolean tests, lists, byte strings, bit fields, dictionaries (std::map and
--     std::unordered_map), std::to_string, strtol, strtoull, std::from_chars, 32-bit int.
--   Common/Qos, Common/BlockingQueue and below: common/include/common/qos.h, blocking_queue.h.
--     Common/HostId: common/src/host_id.cpp. Common/Logger and below: common/include/common/logger.h.
--   Transport/FrameCodec and below: transport/src/frame_codec.cpp.
--   Transport/TcpServer and below: transport/src/tcp_server_transport.cpp.
--   Transport/TcpClient and below: transport/src/tcp_client_transport.cpp.
--   Transport/EndToEnd and below: the two transports with the bytes between them.
--   Transport/ShmRing and below: transport/include/transport/shm_ring.h. Transport/ShmSegment and
--     below: transport/src/shm_segment.cpp.
--   Core/LocalBus and below: core/src/local_bus.cpp.
--   Core/PubSub and below: core/include/core/publisher.h, subscriber.h.
--   Core/DataPlane and below: core/src/data_plane.cpp. Core/RemoteSink: core/include/core/remote_sink.h.
--   Core/ShmReader and below: core/src/shm_reader.cpp.
--   Core/Node and below: core/include/core/node.h, core/src/node.cpp.
--   Core/Rpc and below: core/include/core/rpc_topics.h, client.h, service.h.
--   Discovery/Endpoint: proto/discovery.proto. Discovery/Matcher and below:
--     discovery/src/endpoint_matcher.cpp. Discovery/Agent and below: discovery/src/discovery_agent.cpp.
--     Discovery/UdpMulticast and below: discovery/src/udp_multicast.cpp, and the agent's start and stop.
--   Config and below: config/src/config.cpp.
--   Cli/Args and below: cli/src/args.cpp, cli/include/cli/args.h. Cli/Format:
--     cli/src/message_format.cpp. Cli/Topics and below: cli/src/topic_commands.cpp. Cli/Main and
--     below: cli/src/main.cpp.
--   Bench/Codec, Bench/Collector and below: bench/src/message_codec.cpp. Bench/Stats and below:
--     bench/src/stats.cpp. Bench/Args and below: bench/src/bench_args.cpp. Bench/Flow and below: the
--     publishing loop and the callback of bench/src/main.cpp.
--   Tests/*: the properties at concrete inputs.
-- An operation keeps its name; where the source takes a step on an optional value, a helper with a
-- name of its own takes that value. A method is a function from the state to the new state with what
-- it returns and what it does outside (payloads handed to a callback, descriptors closed, calls made).
-- System calls, the clock, protobuf and what a file holds are arguments: what they return.
--
-- Concurrency: a method that holds its mutex throughout is one step. The system of EndToEnd
-- interleaves the calls of `send`, events of both epoll threads and partial reads and writes in any
-- order, with `handle_connect_complete`, which holds no mutex, in two steps; ShmRing interleaves
-- single accesses to shared memory, in the order of the program, so it does not show what a weaker
-- memory order allows. Its positions are below 2 ^ 63.
--
-- Loops are structural recursion, but for two with fuel: `decode_loop`, with the length of the
-- buffer, as each round takes 4 bytes at least, and `to_string_from`, with one more than the number,
-- as each round divides it by 10.
--
-- A reader of the shared-memory poller is an argument of the polls. Core/ShmReader/OnRing takes the
-- reader of ShmRing for it, with a list of moves that says at each step whether the poller or the
-- writer goes on; a call that the moves end within counts as giving nothing.
-- A node's data plane holds each remote sink until it has taken it off the bus, so in Node the bus
-- finds them alive; LocalBus alone leaves open which sinks live.
--
-- Not modelled: what the system does behind a system call; protobuf; the sink that hands a payload to
-- the ring's `write`; the printing of log lines and of floating-point numbers; the floating-point
-- means of the benchmark and its report; the examples.
pub mod Prelude
pub mod Common
pub mod Transport
pub mod Discovery
pub mod Core
pub mod Config
pub mod Tests
pub mod Cli
pub mod Bench
