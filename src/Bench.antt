-- ===== src/Bench.antt =====
-- bench/: the latency benchmark `mm_bench`.
pub mod Codec
pub mod Collector
pub mod Stats
pub mod Args
pub mod Flow
