-- ===== src/Containers.antt =====
-- The standard containers that the classes of include/file.hpp and include/spacemanager.hpp use.
pub mod MinQueue
pub mod NumSet
pub mod Table
pub mod TextMap
