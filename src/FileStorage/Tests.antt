-- ===== src/FileStorage/Tests.antt =====
-- `commit_write` of src/storage/message_handlers/write_handler.rs on a small file system.
use fleetfs.Prelude.{◌≡◌, ◌↔◌, refl, some, [], ◌∷◌}
use fleetfs.Prelude.HashMap
use fleetfs.Prelude.Int.{pos}
use fleetfs.Base.Outcome.{ok, err, corrupted}
use fleetfs.Base.Types.{Bytes, file}
use fleetfs.Base.Request.{Request}
use fleetfs.Redb.Model.{model, program}
use fleetfs.Metadata.{Clock, root_inode, read_txn, write_txn, durability_tick}
use fleetfs.Metadata.Inodes.{new, first_inode, create_inode}
use fleetfs.Metadata.Read.{keep_files, non_directory_inodes}
use fleetfs.DataStorage.Files
use fleetfs.DataStorage.Files.{DataStorage, file_inode_exists}
use fleetfs.FileStorage.{FileStorage, and_then}
use fleetfs.FileStorage.Updates
use fleetfs.FileStorage.Reads.{check_files, local_data_checksum}
use fleetfs.FileStorage.CommitWrite.{commit_write}
use fleetfs.FileStorage.HasFiles.{HasFiles}
use fleetfs.FileStorage.Committed.{commit_write-HasFiles}
use fleetfs.FileStorage.Checked.{local_data_checksum-HasFiles}

abbrev clock : Clock
clock i = record { seconds = pos 5; nanos = pos i }

abbrev no_files : DataStorage
no_files = record { node_ids = 10 ∷ []; local_rank = 0; local_node_id = 10; files = HashMap.empty }

abbrev files : FileStorage model
files = record { data_storage = no_files; metadata_storage = new model 1 3 clock }

abbrev creation : Request
creation = Request.create_inode 1 root_inode 7 7 0o644 file

-- With a file made.
abbrev with_file : FileStorage model
with_file = (commit_write clock creation files).1

-- The same, but its data lost.
abbrev without_data : FileStorage model
without_data = record with_file { data_storage = no_files }

abbrev hash : Bytes
hash = 1 ∷ 2 ∷ []

lost_test : local_data_checksum (λ _. some hash) without_data ≡ err corrupted
unfolding program new first_inode commit_write Updates.create_inode and_then create_inode write_txn
    durability_tick read_txn non_directory_inodes keep_files check_files local_data_checksum
    file_inode_exists Updates.new_data Files.truncate
lost_test = refl

files-HasFiles : HasFiles files
unfolding program new first_inode read_txn non_directory_inodes keep_files check_files
    local_data_checksum file_inode_exists
files-HasFiles = (local_data_checksum-HasFiles (λ _. some hash) files hash refl refl).0 refl

commit_write-HasFiles_example : HasFiles (commit_write clock creation files).1
commit_write-HasFiles_example = commit_write-HasFiles clock creation files files-HasFiles

local_data_checksum-HasFiles_example :
    (local_data_checksum (λ _. some hash) with_file ≡ ok hash) ↔ HasFiles with_file
unfolding program new first_inode commit_write Updates.create_inode and_then create_inode write_txn
    durability_tick Updates.new_data
local_data_checksum-HasFiles_example =
    local_data_checksum-HasFiles (λ _. some hash) with_file hash refl refl
