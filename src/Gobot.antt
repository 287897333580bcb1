-- ===== src/Gobot.antt =====
-- internal/gobot: the service that matches the tags that were read with the drafts of the ERP.
pub mod Cache
pub mod Erp
pub mod Config
pub mod Service
pub mod Servers
pub mod Reader
