-- ===== src/Downloads.antt =====
-- internal/downloads.
pub mod Service
pub mod Transitions
