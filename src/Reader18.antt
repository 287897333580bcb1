-- ===== src/Reader18.antt =====
-- internal/protocol/reader18/protocol.go: the wire protocol of the reader.
pub mod Crc
pub mod Commands
pub mod Frames
pub mod Tags
