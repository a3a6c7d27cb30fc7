-- ===== src/Lib.antt =====
-- SpongeBob is a distributed file system: a metadata service keeps the directory, the inodes and the
-- free blocks of every storage server; a client asks it where the bytes of a range lie and moves them
-- itself over RDMA. This library models both sides.
--
--   Prelude, Result, Containers   shared tests, lists and words; what a call comes to; queues, sets, maps
--   Inode                         src/fs/file.cpp: Dentry, Inode
--   InodeTable, FileMap           src/fs/file.cpp: InodeTable, FileMap
--   SpaceManager                  src/fs/spacemanager.cpp
--   MetaServer                    src/metadata/MetaServer.cpp: State has the members, Transfer the cutting
--                                 of a range into blocks, Handlers the handlers, Messages the messages of
--                                 protos/spongebob.proto; Consistent is the invariant of the service,
--                                 Abstract the map from names to files that it promises, call by call,
--                                 Steps the sequences of calls, Disjoint the places of the bytes
--   MetaClient                    src/metadata/MetaClient.cpp, over a stub
--   Client, Fuse                  src/client/Client.cpp, src/fuse/spfuse.cpp
--   Queue                         include/queue.h
--   Configuration                 src/net/Configuration.cpp
--   Rdma                          src/net/RdmaSocket.cpp: Post, Batch and Poll the single operations, Hamal
--                                 and Remote the transfers and the workers, Memory what the fabric does
--                                 with memory, Start the constructor, Resources the handles of the device,
--                                 Connect the connections: Sync the exchange over a socket, Pairs the
--                                 queue pairs, Exchange ConnectQueuePair, Accept and Client the two sides
--   Storage                       src/storage/StorageServer.cpp: a server that starts and registers
--   Tests                         the theorems at concrete states
--
-- A handler takes the service and gives the response and the service after the call, or a fault: a
-- null pointer, a failed assertion, a lock that is never released, and the like. An inode that the code
-- holds by shared_ptr is the one of the table, so what is written through the pointer is written to the
-- table. A 64-bit value is a natural number whose arithmetic wraps at 2 ^ 64; an int that is a key is
-- its distance from the least int.
--
-- Bounds: a write ends below 2 ^ 51, so that the number of its blocks stays below the 2 ^ 31 of the
-- loop's int counter. The loops over whole blocks run on fuel, the length over the block size and one;
-- those over the mebibytes of a transfer on its number of mebibytes, rounded up; a poll loop takes its
-- fuel as a parameter, for the hardware decides how often it is asked.
--
-- The exchange over a socket takes the number of its reads as fuel, RdmaAccept that of the nodes that may
-- join: the network decides them, and a theorem says from which fuel on the exchange ends.
--
-- Parameters: std::hash, rand, libibverbs with memcpy and the clock (Verbs, Net, Device), the sockets
-- (Net), the bytes of a struct (Layout), what Boost reads (Settings), getIP and mmap (values), gRPC (Stub),
-- the socket that a client uses (Remote). What libibverbs is documented to do is a hypothesis where it
-- is needed: Memory.Delivers for requests that Memory.Allowed describes, by the keys, the regions and
-- the state of the queue pair, Ready.Device for changes of queue pairs, by the attributes and values that
-- they need; that a node which says it is a server has the number of a server is Joins.Honest, and that the
-- other ends answer is Served.Answers. Handlers
-- run one at a time. Memory that is not set before it is read is a parameter as well. The iteration over an unordered
-- map goes by the order in which its keys came.
--
-- Not modelled: getIP, RdmaListen, SyncTool, WaitClientConnection, RdmaQueryQueuePair and
-- NotifyPerformance of RdmaSocket, which call the system, wait or print; debug output; SayHello; the FUSE
-- operations that do nothing; the programs' entry points, and the test programs.
pub mod Prelude
pub mod Result
pub mod Containers
pub mod Inode
pub mod InodeTable
pub mod FileMap
pub mod SpaceManager
pub mod MetaServer
pub mod Queue
pub mod Rdma
pub mod MetaClient
pub mod Configuration
pub mod Client
pub mod Fuse
pub mod Storage
pub mod Tests
