-- ===== src/Request.antt =====
-- src/nc_request.c: requests on their way from a client to the servers.
pub mod Done
pub mod Fragments
pub mod Filter
pub mod Errors
