-- ===== src/Server.antt =====
-- api/server: the gRPC server.
pub mod Identity
pub mod Main
pub mod Rpc
pub mod Run
pub mod Stream
