-- ===== src/Connection.antt =====
-- ingest/src/connection/: the state of a connection, the services it calls, its command handler, and
-- the two tasks that serve it.
pub mod State
pub mod Services
pub mod Remote
pub mod Handler
pub mod Mpsc
pub mod Frame
pub mod Tasks
pub mod Ports
pub mod System
pub mod Socket
pub mod Handshake
