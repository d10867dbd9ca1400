-- ===== src/Client.antt =====
-- The command-line client: cmd/client/main.go, and the package api/client that it calls.
pub mod CommandLine
pub mod Connection
pub mod Calls
pub mod Main
