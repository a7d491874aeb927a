-- ===== src/Catalog.antt =====
-- internal/catalog.
pub mod Cache
pub mod Flights
pub mod Progress
pub mod Spec
pub mod Scan
