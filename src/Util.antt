-- ===== src/Util.antt =====
-- internal/util/atomicwrite.go
pub mod AtomicWrite
