-- ===== src/Rdma.antt =====
-- src/net/RdmaSocket.cpp and include/RdmaSocket.hpp.
pub mod Types
pub mod Post
pub mod Poll
pub mod Batch
pub mod Hamal
pub mod Remote
pub mod Memory
pub mod Connect
pub mod Start
pub mod Resources
