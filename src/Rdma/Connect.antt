-- ===== src/Rdma/Connect.antt =====
-- Setting up connections: the queue pairs, the exchange of their numbers over a socket, and the node
-- numbers that come with it. libibverbs and the sockets are a parameter, `Net`.
pub mod Types
pub mod Sync
pub mod Pairs
pub mod Exchange
pub mod Accept
pub mod Client
