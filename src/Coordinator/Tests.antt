-- ===== src/Coordinator/Tests.antt =====
-- Concrete runs of the transactions of src/storage/message_handlers/transaction_coordinator.rs.
use fleetfs.Prelude.{ℕ, ◌==◌, ◌%◌, true, false, none, List, [], ◌∷◌, ◌≡◌, refl}
use fleetfs.Prelude.Int.{pos}
use fleetfs.Base.Outcome.{Outcome, ok, err, panic, does_not_exist, access_denied, raft_failure}
use fleetfs.Base.Access.{check_access, clear}
use fleetfs.Base.Types.{FileKind, UserContext, Timestamp}
use fleetfs.Base.Request.{Request}
use fleetfs.Base.Response.{Response}
use fleetfs.Coordinator.{
  Cluster, Session, continue, caught, ask, remember, forget_locks, locks_taken, response_or_error,
  insert_lock, holds_lock,
}
use fleetfs.Coordinator.Calls.{
  propose, lock_inode, unlock_inode, getattrs, lookup, remove_link, update_metadata_changed_time,
}
use fleetfs.Coordinator.Rename.{
  lock_guarded, if_present, put_link, rename_check_access, rename_transaction_lock_context,
  unlock_all, rename_transaction,
}
use fleetfs.Coordinator.Links.{
  propose_checked, unlock_and, remove_locked, remove_round, remove_loop, drop_links,
  check_hardlinks, rmdir_transaction, unlink_transaction, rollback, finish_create,
  create_transaction, finish_hardlink, hardlink_transaction,
}
use fleetfs.Coordinator.Locks.{held}
use fleetfs.Coordinator.Exchanges.{exchanges, exchange}
use fleetfs.Coordinator.RenameLocks.{rename_transaction-releases}
use fleetfs.Coordinator.LinkLocks.{rmdir_transaction-releases, unlink_transaction-releases}
use fleetfs.Coordinator.Rollback.{CreateRun, create_transaction-CreateRun}
use fleetfs.Coordinator.Hardlink.{HardlinkRun, hardlink_transaction-HardlinkRun}

-- Answers in the order in which they are asked for; even inodes are stored on this node.
abbrev next_answer : List (Outcome Response) → Outcome Response × List (Outcome Response)
next_answer [] = (err does_not_exist, [])
next_answer (a ∷ rest) = (a, rest)

abbrev scripted : Cluster
scripted = record {
  State = List (Outcome Response);
  inode_stored_locally = λ i. i % 2 == 0;
  has_raft_group = λ g. g == 0;
  answer = λ _ answers. next_answer answers;
}

abbrev session : List (Outcome Response) → Session scripted
session answers = record { state = answers; events = []; lock_guard = [] }

abbrev user : UserContext
user = record { uid = 7; gid = 7 }

abbrev time : Timestamp
time = record { seconds = pos 0; nanos = pos 0 }

abbrev entry : ℕ → FileKind → Response
entry inode kind = Response.entry_metadata (record {
  inode = inode;
  size_bytes = 0;
  size_blocks = 0;
  last_access_time = time;
  last_modified_time = time;
  last_metadata_modified_time = time;
  kind = kind;
  mode = 0o755;
  hard_links = 2;
  user_id = 7;
  group_id = 7;
  device_id = 0;
  block_size = 512;
  directory_entries = none;
})

-- The new name is not taken; every call on inode 2 or 4 is local.
abbrev rename_answers : List (Outcome Response)
rename_answers =
    ok (Response.lock 5)
    ∷ ok Response.empty
    ∷ ok (Response.inode 4)
    ∷ ok (Response.lock 6)
    ∷ ok Response.empty
    ∷ err does_not_exist
    ∷ ok Response.empty
    ∷ ok (entry 2 FileKind.directory)
    ∷ ok Response.empty
    ∷ ok (entry 2 FileKind.directory)
    ∷ ok Response.empty
    ∷ ok (entry 4 FileKind.file)
    ∷ ok Response.empty
    ∷ ok (Response.removed_inode 4 true)
    ∷ ok Response.empty
    ∷ ok Response.empty
    ∷ ok Response.empty
    ∷ []

rename_transaction_test :
    (rename_transaction (λ locks. locks) 2 "a" 2 "b" user (session rename_answers)).0
    ≡ ok Response.empty
unfolding rename_transaction forget_locks continue caught rename_transaction_lock_context
    lock_guarded lock_inode propose ask response_or_error remember insert_lock holds_lock lookup
    getattrs if_present put_link rename_check_access check_access clear remove_link
    update_metadata_changed_time locks_taken unlock_all unlock_inode
rename_transaction_test = refl

rename_transaction-releases_example :
    held (rename_transaction (λ locks. locks) 2 "a" 2 "b" user (session rename_answers)).1.events
    ≡ []
unfolding held rename_transaction forget_locks continue caught rename_transaction_lock_context
    lock_guarded lock_inode propose ask response_or_error remember insert_lock holds_lock lookup
    getattrs if_present put_link rename_check_access check_access clear remove_link
    update_metadata_changed_time locks_taken unlock_all unlock_inode
rename_transaction-releases_example =
    rename_transaction-releases (λ locks. locks) 2 "a" 2 "b" user (session rename_answers)
      (λ locks. record { covered = λ p h. h }) refl refl

-- Both names are links to inode 4: it is asked to be locked again while its lock is held.
abbrev same_inode_answers : List (Outcome Response)
same_inode_answers =
    ok (Response.lock 5)
    ∷ ok Response.empty
    ∷ ok (Response.inode 4)
    ∷ ok (Response.lock 6)
    ∷ ok Response.empty
    ∷ ok (Response.inode 4)
    ∷ err raft_failure
    ∷ ok Response.empty
    ∷ ok Response.empty
    ∷ []

rename_same_inode_test :
    exchanges
      (rename_transaction (λ locks. locks) 2 "a" 2 "b" user (session same_inode_answers)).1.events
    ≡ (Request.unlock 2 5, ok Response.empty)
      ∷ (Request.unlock 4 6, ok Response.empty)
      ∷ (Request.lock 4, err raft_failure)
      ∷ (Request.lock 4, ok (Response.lock 6))
      ∷ (Request.lock 2, ok (Response.lock 5))
      ∷ []
unfolding exchanges exchange rename_transaction forget_locks continue caught
    rename_transaction_lock_context lock_guarded lock_inode propose ask response_or_error remember
    insert_lock holds_lock lookup if_present locks_taken unlock_all unlock_inode
rename_same_inode_test = refl

-- The first attempt to remove the link asks for the owner of the inode; inode 5 is on another node.
abbrev unlink_answers : List (Outcome Response)
unlink_answers =
    ok (Response.removed_inode 5 false)
    ∷ ok (Response.lock 3)
    ∷ ok (entry 5 FileKind.file)
    ∷ ok (Response.removed_inode 5 true)
    ∷ ok Response.empty
    ∷ ok Response.empty
    ∷ []

unlink_transaction-releases_example :
    held (unlink_transaction 1 2 "a" user (session unlink_answers)).1.events ≡ []
unfolding held unlink_transaction remove_link propose ask continue response_or_error remove_loop
    remove_round lock_inode caught getattrs remove_locked unlock_and unlock_inode drop_links
    propose_checked
unlink_transaction-releases_example =
    unlink_transaction-releases 1 2 "a" user (session unlink_answers) refl refl

abbrev rmdir_answers : List (Outcome Response)
rmdir_answers =
    ok Response.empty
    ∷ ok (Response.inode 5)
    ∷ ok (Response.lock 3)
    ∷ ok (entry 5 FileKind.directory)
    ∷ ok (Response.removed_inode 5 true)
    ∷ ok Response.empty
    ∷ ok (entry 5 FileKind.directory)
    ∷ ok Response.empty
    ∷ []

rmdir_transaction-releases_example :
    held (rmdir_transaction 1 2 "a" user (session rmdir_answers)).1.events ≡ []
unfolding held rmdir_transaction lookup remove_link propose ask continue response_or_error
    remove_loop remove_round lock_inode caught getattrs remove_locked unlock_and unlock_inode
    drop_links propose_checked check_hardlinks
rmdir_transaction-releases_example =
    rmdir_transaction-releases 1 2 "a" user (session rmdir_answers) refl refl

-- The link of the new inode is refused.
abbrev create_session : Session scripted
create_session = session (
    ok (entry 5 FileKind.file)
    ∷ ok (Response.error_occurred access_denied)
    ∷ ok Response.empty
    ∷ [])

create_transaction_test :
    (create_transaction 1 2 "a" 7 7 0o644 FileKind.file create_session).0 ≡ err access_denied
unfolding create_transaction continue caught ask response_or_error propose finish_create rollback
    propose_checked
create_transaction_test = refl

create_transaction-CreateRun_example :
    CreateRun 1 2 "a" 7 7 0o644 FileKind.file
      (exchanges create_session.events)
      (exchanges (create_transaction 1 2 "a" 7 7 0o644 FileKind.file create_session).1.events)
      (create_transaction 1 2 "a" 7 7 0o644 FileKind.file create_session).0
create_transaction-CreateRun_example =
    create_transaction-CreateRun 1 2 "a" 7 7 0o644 FileKind.file create_session

abbrev counted : Response → Outcome Response
counted (Response.entry_metadata attrs) = ok (Response.hardlink_transaction time attrs)
counted response = panic

abbrev hardlink_session : Session scripted
hardlink_session = session (
    counted (entry 5 FileKind.file)
    ∷ ok (Response.error_occurred access_denied)
    ∷ ok Response.empty
    ∷ [])

hardlink_transaction_test :
    (hardlink_transaction 5 2 "b" user hardlink_session).0 ≡ err access_denied
unfolding hardlink_transaction continue caught ask response_or_error propose finish_hardlink
    rollback propose_checked
hardlink_transaction_test = refl

hardlink_transaction-HardlinkRun_example :
    HardlinkRun 5 2 "b" user
      (exchanges hardlink_session.events)
      (exchanges (hardlink_transaction 5 2 "b" user hardlink_session).1.events)
      (hardlink_transaction 5 2 "b" user hardlink_session).0
hardlink_transaction-HardlinkRun_example =
    hardlink_transaction-HardlinkRun 5 2 "b" user hardlink_session
