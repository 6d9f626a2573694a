-- ===== src/Gpool.antt =====
-- common/pool/gpool.
pub mod TaskRunner
