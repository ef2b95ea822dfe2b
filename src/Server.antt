-- ===== src/Server.antt =====
-- The server side: server_rpc_handler.hpp and generic_server_container.hpp.
pub mod Handler
pub mod Container
