-- ===== src/Sdk.antt =====
-- The public client of sdk/.
pub mod Config
pub mod Events
pub mod Antenna
pub mod Client
pub mod Receive
pub mod Transmit
pub mod Connect
pub mod Examples
