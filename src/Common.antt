-- ===== src/Common.antt =====
-- common/: the bounded queue and the quality of service.
pub mod Qos
pub mod HostId
pub mod Logger
pub mod BlockingQueue
