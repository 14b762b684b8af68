-- ===== src/Transport.antt =====
-- transport/: framing, the TCP endpoints and the shared-memory ring.
pub mod FrameCodec
pub mod TcpServer
pub mod TcpClient
pub mod EndToEnd
pub mod ShmRing
pub mod ShmSegment
