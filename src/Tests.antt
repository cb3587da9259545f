-- ===== src/Tests.antt =====
-- The theorems at concrete inputs.
pub mod Data
mod TcpRuns
mod TcpCalls
mod Streams
mod Transfers
mod Prints
mod Sockets
mod Opening
mod Packets
mod Dump
mod Links
mod Platform
pub mod Datagrams
