-- ===== src/Exchange.antt =====
-- The exchange of requests and responses with a server.
pub mod Conn
pub mod Order
pub mod Fifo
