-- ===== src/Net.antt =====
-- net/: sockets.
pub mod Socket
pub mod Sample
mod Tests
