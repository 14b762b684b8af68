-- ===== src/Tests.antt =====
-- The properties at concrete inputs.
mod Common
mod Frames
mod Tcp
mod Ring
mod Bus
mod Matching
mod Discovery
mod Config
mod Rpc
mod Cli
mod Bench
mod Segment
mod PubSub
mod Nodes
mod Readers
mod Commands
mod Sockets
