-- ===== src/Lib.antt =====
-- FleetFS: the storage server of a distributed file system, after the sources under src/.
--
-- Files are spread over replication groups. Each group keeps the metadata of its inodes (those whose
-- number is in the group's class modulo the number of groups) and the bytes of its files, and each of
-- its replicas applies the same decided slots in the same order. A decided command first goes through
-- the lock table, which queues it, grants a lock, or lets it through to the file storage.
--
-- Base models src/base: Base.Types, Base.Request and Base.Response the messages of message_types.rs
-- with Request::meta_info, Base.Access the check of permission bits in utils.rs (check_access).
-- Base.Outcome is how a call ends: a value, an ErrorCode, or a panic. A panic in a transaction of the
-- metadata poisons its mutex, as in Rust.
--
-- LockTable models src/storage/lock_table.rs: the record has the fields of the struct, and is_locked,
-- wait_for_lock, lock and unlock are its methods; scan, grant and release are parts of unlock.
-- LockTable.Unlock shows what unlock hands out, LockTable.Invariant what the operations keep.
--
-- Consensus models src/storage/raft_node.rs: process_lock_table is _process_lock_table, apply_delivery
-- with its loops is the method of that name, wake is its last loop, sync the method. The consensus
-- itself, the crate raxos, decides the slots: a slot is an argument. Decoding (the crate zerialize) is a
-- parameter, and so is the function that applies a request to the file storage, for which the source has
-- commit_write; it is one function for all replicas, while the source lets each replica read its own
-- clock. A reply channel is a number, and a receiver is taken to be alive.
--
-- Metadata models src/storage/local/metadata_storage.rs, every method under its own name: Metadata the
-- record and the transactions, Metadata.Access the checks of extended attributes, Metadata.Read the
-- read transactions, Metadata.Xattrs, Metadata.Attributes, Metadata.Links and Metadata.Inodes the
-- write transactions and the constructor. Redb is the database, a parameter: tables with the documented
-- laws of the crate redb, and Redb.Model an instance of it by association lists. A transaction that
-- fails leaves the tables alone; what survives a crash is not modelled. The time is a parameter: the
-- i-th call of now() in an operation returns the i-th value of a Clock.
-- Metadata.Invariant, Metadata.Fresh, Metadata.Keep and Metadata.Start lead to Metadata.Reachable, the
-- states that any history of operations reaches. Metadata.Entries, Metadata.Removal, Metadata.Owners,
-- Metadata.Counts and Metadata.Values show what single operations do, Metadata.Returns when they return.
--
-- DataStorage models src/storage/local/data_storage.rs: the index functions, which place the bytes of a
-- file on the nodes of a group, DataStorage.Blocks the two loops over blocks in write_local_blocks and
-- read, DataStorage.Files the record and the methods. A file is a list of bytes, and the calls of std::fs
-- on it are written out. DataStorage.Stripe, DataStorage.Scatter and DataStorage.Gather are about what a
-- node stores, DataStorage.RoundTrip and DataStorage.Cluster about a read after a write, on one node and on
-- all nodes of a group.
--
-- FileStorage models src/storage/local/file_storage.rs, metadata and data of a group together:
-- FileStorage.Updates the methods that change them, FileStorage.Reads the others, FileStorage.CommitWrite
-- commit_write of src/storage/message_handlers/write_handler.rs. Metadata.Kinds shows which inodes an
-- operation leaves with which kind, and with it FileStorage.HasFiles, FileStorage.Committed and
-- FileStorage.Checked follow the files of the inodes.
--
-- Coordinator models src/storage/message_handlers/transaction_coordinator.rs: Coordinator the calls that
-- a transaction makes and the state that it keeps, Coordinator.Calls the single calls, Coordinator.Rename
-- and Coordinator.Links the transactions. The groups and the network may answer every call in any way.
-- Coordinator.Locks and Coordinator.Exchanges read off the calls which locks are held and which proposals
-- were made; Coordinator.Answers and Coordinator.Kept say what one call does to them,
-- Coordinator.RenameLocks, Coordinator.LinkLocks, Coordinator.Rollback and Coordinator.Hardlink what a
-- transaction does.
--
-- RaftGroups models src/storage/raft_group_manager.rs with node_contains_raft_group of src/base/utils.rs,
-- the nodes of src/base/local_context.rs and can_handle_locally of
-- src/storage/message_handlers/router.rs; RaftGroups.Assignment is about where groups are,
-- RaftGroups.Lookup about finding them. Router models request_router of that file, with the transactions:
-- Router.Returns is about requests that are handled on the node that gets them. Fsck models
-- src/storage/message_handlers/fsck_handler.rs, which compares the checksums of all nodes.
--
-- Integers are natural numbers; where the source can overflow, the wrapping around of a release build is
-- written out. MetadataStorage::new loops with fuel, the number of groups, which is enough; the loop over
-- blocks of write_local_blocks and the one of read have the number of bytes as fuel, which is enough as a
-- round takes a byte at least. The loops of rmdir_transaction and unlink_transaction may go on for ever
-- while others change the entry: they are cut off after a number of rounds, and what is shown holds for any
-- number. Prelude has the tests, lists, bits and maps that the other modules share.
--
-- Not modelled: the consensus and the network, the clients, FUSE and the command line. Errors of the
-- operating system other than a missing file are left out. Constants of libc are those of Linux.
pub mod Prelude
pub mod Base
pub mod LockTable
pub mod Consensus
pub mod Coordinator
pub mod RaftGroups
pub mod Router
pub mod Fsck
pub mod Redb
pub mod Metadata
pub mod DataStorage
pub mod FileStorage
