-- ===== src/Lib.antt =====
-- VelociDB, an embedded SQL database. The development models its storage engine and its
-- concurrency parts, each operation as a function from the state before to the answer and the
-- state after.
--
-- Parts and files. Disk.antt: a file of the operating system as its bytes. Wal.antt: the
-- write-ahead log of src/wal.rs (WalManager and its methods, under their names; open is
-- open_wal). Wal/Records, Scan, Groups and Log build up to what the log holds; Wal/Append,
-- Wal/Ids and Wal/Cuts are about single calls. Pager/State, Pager/Groups and Pager/Access: the
-- Pager of src/storage.rs, over a WalManager; Pager::new is open_pager, the part of write_page
-- inside a group is write_in_group. Pager/Views, Reading, Writing, Undo, Session and Abort are
-- about the pages that a pager shows; Pager/Raw, Batches, SortedBatches, Durable, Checkpoints,
-- Commits, FailedCommits, Upkeep, Contents, Implementing and Histories about the two files and
-- what is found when they are opened again. BTree/Nodes, Rows, Leaves, Internals, Trees,
-- Inserting, Borrowing and Deleting: the BTree of src/btree.rs. Its work within one page is in
-- Rows, Leaves, Internals and Borrowing, as functions on bytes; its handlers over several pages
-- are actions on a Tree, a root page id and a store of pages, and have the methods' names (new
-- is new_tree; add_entry, update_separator, insert_entry, remove_entry and the like are parts
-- of methods). BTree/Layout, Fields, RowCodec, RowSizes, LeafLoops, LeafShifts, LeafChanges,
-- LeafDeletes and NodeLayout are about pages; Descents, Replacements, Lookups and Promotions
-- about trees; PagerStore makes the pager a store for a tree. Transaction.antt: Transaction and
-- TransactionManager of src/transaction.rs; a shared transaction is an entry of the store that
-- the ids point to, and TransactionManager::commit is commit_transaction. Locks.antt: its
-- LockManager. Mvcc.antt: src/mvcc.rs; GLOBAL_TXN_ID is a field of the manager; Mvcc/Stable,
-- Deletes, Vacuum, Deleters and Collection are about what a snapshot reads. Cdc.antt:
-- src/cdc.rs; CdcManager::record is record_change. Crdt.antt: src/crdt.rs; CrdtStore::insert,
-- update and delete are insert_row, update_row and delete_row. Types.antt: the values of
-- src/types.rs and their sizes. Prelude.antt passes on the shared names: Boolean tests, lists,
-- maps, 64-bit words, integers, Result; Prelude/Actions has the actions on a state, with do
-- blocks, that the tree is written in.
--
-- The pager writes through the log: a group's pages are buffered, appended to the log as one
-- group on commit, kept as committed pages, and moved to the data file by a checkpoint, which
-- then truncates the log; recovery replays the log's groups. The tree uses its pager only
-- through PageStore (read_page, write_page, allocate_page), with the laws IsPageStore, which
-- the pager in a group has. The other parts are independent of each other.
--
-- Conventions. Every fallible I/O call has an outcome as an argument, so that each error path
-- is run; a crash is a file that holds a prefix of a write. u64 arithmetic wraps at 2^64. A
-- hash map is an association list; where the source iterates one whose order is not promised,
-- the choice is a parameter or not observable. The checksum of crc32fast is a parameter, and so
-- are String::as_bytes and String::from_utf8 of std (utf8 and from_utf8). The bits of a float
-- are a number. An index or a slice out of range is the result panic. Error texts are not
-- modelled. A page that read_page returns is a copy: the source returns a shared page behind a
-- lock, and its callers only read it.
--
-- Bounds and fuel. parse_records runs on the length of the log as fuel, and each round takes a
-- byte at least; make_room on the size of the cache, and each round drops an entry. Page ids
-- stay below 2^52, so that the offset of a page fits 64 bits. The retry loop of the lock
-- manager takes the list of its rounds. The methods of the tree that go from page to page take
-- fuel, and stop with panic without any: a descent needs as much as the tree is high
-- (IsRooted), an insertion without a split no more than that.
--
-- Not modelled: the Database of src/storage.rs, the parser and the executor; asynchronous,
-- cloud, persistent-memory and SIMD code, which is I/O or processor intrinsics; the statistics
-- of mvcc and crdt.
pub mod Prelude
pub mod Disk
pub mod Types
pub mod Wal
pub mod Pager
pub mod BTree
pub mod Transaction
pub mod Locks
pub mod Mvcc
pub mod Cdc
pub mod Crdt
