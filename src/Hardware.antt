-- ===== src/Hardware.antt =====
-- internal/hardware.
pub mod Service
pub mod Fresh
