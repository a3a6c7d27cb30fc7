-- ===== src/MetaServer.antt =====
-- src/metadata/MetaServer.cpp: `MetadataServiceImpl`, the handlers of protos/spongebob.proto.
pub mod Messages
pub mod Transfer
pub mod State
pub mod Handlers
pub mod Consistent
pub mod Enlarge
pub mod Write
pub mod Create
pub mod Read
pub mod Remove
pub mod Register
pub mod Open
pub mod Directory
pub mod Full
pub mod Abstract
pub mod Steps
pub mod Disjoint
