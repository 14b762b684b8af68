-- ===== src/Core.antt =====
-- core/: the in-process bus and the data plane.
pub mod LocalBus
pub mod DataPlane
pub mod Rpc
pub mod PubSub
pub mod ShmReader
pub mod RemoteSink
pub mod Node
