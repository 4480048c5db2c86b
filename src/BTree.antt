-- ===== src/BTree.antt =====
-- src/btree.rs: trees of pages, from the bytes of a node to insertion and deletion.
pub mod Nodes
pub mod Rows
pub mod RowCodec
pub mod RowSizes
pub mod Layout
pub mod Fields
pub mod LeafLoops
pub mod LeafShifts
pub mod LeafChanges
pub mod LeafDeletes
pub mod Replacements
pub mod Lookups
pub mod PagerStore
pub mod NodeLayout
pub mod Leaves
pub mod Internals
pub mod Trees
pub mod Descents
pub mod Inserting
pub mod Borrowing
pub mod Deleting
pub mod Promotions
mod Tests
mod TreeTests
