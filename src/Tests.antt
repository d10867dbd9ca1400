-- ===== src/Tests.antt =====
-- The theorems at concrete inputs, and runs of the definitions.
mod World
mod Identity
mod Jobs
mod Stopping
mod Streaming
mod Rpcs
mod CommandLines
mod Watching
mod Histories
mod Serving
mod Clients
