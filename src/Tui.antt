-- ===== src/Tui.antt =====
-- internal/tui: the terminal program's state and what its messages and keys do to it.
pub mod Texts
pub mod Plan
pub mod Model
pub mod Tune
pub mod Connect
pub mod Outcomes
pub mod Frames
pub mod Regions
pub mod Actions
pub mod Keys
pub mod Update
pub mod Invariant
pub mod Retry
pub mod Endpoints
pub mod Hex
pub mod Laws
pub mod Examples
