-- ===== src/Tests.antt =====
-- Examples: the theorems at concrete states.
mod Fixture
mod Tables
mod Transfers
mod Traces
mod Joins
mod Moves
mod Sockets
mod Services
