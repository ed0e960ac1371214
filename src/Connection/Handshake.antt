-- ===== src/Connection/Handshake.antt =====
-- The FTL handshake as a client sees it: the bytes that it sends, and the bytes that it gets.
pub mod Heard
pub mod Client
pub mod Lines
pub mod Attribute
pub mod Exchanges
pub mod Whole
pub mod Always
