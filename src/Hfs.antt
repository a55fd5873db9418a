-- ===== src/Hfs.antt =====
-- impl/hfplus.h and impl/hfplus.cpp: the structures of an HFS+ volume as they lie on disk, the nodes
-- and the trees of its catalog, and what HFPlusOut puts where. Words are big-endian (MSB).
pub mod Forks
pub mod Entries
pub mod Headers
pub mod Node
pub mod Tree
pub mod Builder
pub mod Catalog
pub mod FileForks
mod Tests
