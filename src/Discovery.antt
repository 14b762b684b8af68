-- ===== src/Discovery.antt =====
-- discovery/: which endpoints match, and the agent that tracks the other participants.
pub mod Endpoint
pub mod Matcher
pub mod Agent
pub mod UdpMulticast
