-- ===== src/Console.antt =====
-- The console (src/asr_proxy/console): its database (Store).
pub mod Store
