-- ===== src/Deploy.antt =====
-- internal/deploy: the service that deploys and stops models.
pub mod Service
pub mod Ports
pub mod Registers
pub mod Messages
