-- ===== src/Mbuf.antt =====
-- src/nc_mbuf.c, and the splits of src/nc_message.c.
pub mod Ops
pub mod Keep
pub mod Count
