-- ===== src/Coordinator/Links.antt =====
-- `rmdir_transaction`, `unlink_transaction`, `create_transaction` and `hardlink_transaction` of
-- src/storage/message_handlers/transaction_coordinator.rs. The loop that removes a link whose owner
-- has to be known goes on as long as others change the entry: it is cut off after a number of rounds.
-- The group that creates an inode, chosen at random, is an argument.
use fleetfs.Prelude.{
  ℕ, zero, suc, Bool, true, false, Option, none, some, String, ltb, ◌==◌, if◌then◌else◌,
}
use fleetfs.Base.Outcome.{
  ErrorCode, Outcome, ok, err, panic, not_empty, bad_response, assert, unwrap,
}
use fleetfs.Base.Types.{FileKind, UserContext, EntryMetadata, Timestamp}
use fleetfs.Base.Request.{Request}
use fleetfs.Base.Response.{Response}
use fleetfs.Coordinator.{
  Cluster, Call, Action, ◌>>=◌, ◌>>◌, lift, catch, response_or_error, as_attr_response,
}
use fleetfs.Coordinator.Calls.{
  FileOrDirAttrs, ask_remote, propose, remove_link, lock_inode, unlock_inode, getattrs, lookup,
}

abbrev pub has_entries : FileOrDirAttrs → Bool
has_entries attrs = ltb 0 attrs.directory_entries

abbrev pub as_hardlink : Response → Outcome (Timestamp × EntryMetadata)
as_hardlink (Response.hardlink_transaction rollback_last_modified attrs) =
    ok (rollback_last_modified, attrs)
as_hardlink _ = err bad_response

module _ {C : Cluster} where
  -- `propose(..).await?`, whose answer is only looked at for an error.
  unfoldable pub propose_checked : ℕ → Request → Action C (Unit {0})
  propose_checked inode request = do
    response_data ← propose inode request
    _ ← lift (response_or_error response_data)
    lift (ok tt)

  -- The lock of an inode is released, whatever came before.
  unfoldable pub unlock_and : {A : Type 0} → (inode lock_id : ℕ) → Outcome A → Action C A
  unlock_and inode lock_id result = unlock_inode inode lock_id >> lift result

  -- What happens under the lock, once the attributes are known.
  unfoldable pub remove_locked :
      (refused : FileOrDirAttrs → Bool) (parent : ℕ) (name : String)
      → UserContext
      → (inode lock_id : ℕ) → Outcome FileOrDirAttrs
      → Action C (ℕ × Bool)
  remove_locked refused parent name context inode lock_id (err e) = unlock_and inode lock_id (err e)
  remove_locked refused parent name context inode lock_id panic = lift panic
  remove_locked refused parent name context inode lock_id (ok attrs) =
      if refused attrs then unlock_and inode lock_id (err not_empty) else (do
        removed ← catch (remove_link parent name (some (inode, attrs.uid)) none context)
        unlock_and inode lock_id removed)

  -- One round of the loops of `rmdir_transaction` and `unlink_transaction`: the inode that the name was
  -- found to have, and whether the link is removed.
  unfoldable pub remove_round :
      (refused : FileOrDirAttrs → Bool) (parent : ℕ) (name : String)
      → UserContext
      → ℕ
      → Action C (ℕ × Bool)
  remove_round refused parent name context inode = do
    lock_id ← lock_inode inode
    attrs ← catch (getattrs inode)
    remove_locked refused parent name context inode lock_id attrs

  -- `none` stands for a loop that has not ended after so many rounds.
  unfoldable pub remove_loop :
      (rounds : ℕ) (refused : FileOrDirAttrs → Bool) (parent : ℕ) (name : String)
      → UserContext
      → ℕ × Bool
      → Action C (Option ℕ)
  remove_loop rounds refused parent name context (inode, true) = lift (ok (some inode))
  remove_loop zero refused parent name context (inode, false) = lift (ok none)
  remove_loop (suc rounds) refused parent name context (inode, false) = do
    removed ← remove_round refused parent name context inode
    remove_loop rounds refused parent name context removed

  unfoldable pub drop_links : (count : ℕ) → Option ℕ → Action C (Option Response)
  drop_links count none = lift (ok none)
  drop_links count (some inode) = do
    _ ← propose_checked inode (Request.decrement_inode inode count none)
    lift (ok (some Response.empty))

  -- "It's just for debuggability": a removed directory has two links.
  unfoldable pub check_hardlinks : Option ℕ → Action C (Unit {0})
  check_hardlinks none = lift (ok tt)
  check_hardlinks (some inode) = do attrs ← getattrs inode; lift (assert (attrs.hardlinks == 2))

  unfoldable pub rmdir_transaction :
      (rounds parent : ℕ) (name : String) → UserContext → Action C (Option Response)
  rmdir_transaction rounds parent name context = do
    inode ← lookup parent name context
    removed ← remove_loop rounds has_entries parent name context (inode, false)
    _ ← check_hardlinks removed
    drop_links 2 removed

  unfoldable pub unlink_transaction :
      (rounds parent : ℕ) (name : String) → UserContext → Action C (Option Response)
  unlink_transaction rounds parent name context = do
    removed ← remove_link parent name none none context
    inode ← remove_loop rounds (λ _. false) parent name context removed
    drop_links 1 inode

  -- A request that undoes the first step, and the error of the second.
  unfoldable pub rollback : {A : Type 0} → ℕ → Request → ErrorCode → Action C A
  rollback inode request e = propose_checked inode request >> lift (err e)

  unfoldable pub finish_create : EntryMetadata → Outcome Response → Action C Response
  finish_create created (ok _) = lift (ok (Response.entry_metadata created))
  finish_create created (err e) =
      rollback created.inode (Request.decrement_inode created.inode created.hard_links none) e
  finish_create created panic = lift panic

  unfoldable pub create_transaction :
      (raft_group parent : ℕ) (name : String) (uid gid mode : ℕ) → FileKind → Action C Response
  create_transaction raft_group parent name uid gid mode kind = do
    created_data ←
        ask_remote (
          Call.group_proposal raft_group (Request.create_inode raft_group parent uid gid mode kind))
    response ← lift (response_or_error created_data)
    created ← lift (unwrap (as_attr_response response))
    linked ← catch (
        propose parent (
          Request.create_link parent name created.inode kind none
            (record { uid = uid; gid = gid })))
    finish_create created linked

  -- The rollback of an answer that is an error.
  unfoldable pub rollback_if_error : ℕ → Request → Outcome Response → Action C (Unit {0})
  rollback_if_error inode request (err _) = propose_checked inode request
  rollback_if_error inode request _ = lift (ok tt)

  unfoldable pub finish_hardlink :
      ℕ → Timestamp × EntryMetadata → Outcome Response → Action C Response
  finish_hardlink inode (time, attrs) (ok response_data) = do
    _ ←
        rollback_if_error inode (Request.hardlink_rollback inode time)
          (response_or_error response_data)
    lift (ok (Response.entry_metadata attrs))
  finish_hardlink inode (time, attrs) (err e) =
      rollback inode (Request.hardlink_rollback inode time) e
  finish_hardlink inode started panic = lift panic

  unfoldable pub hardlink_transaction :
      (inode new_parent : ℕ) (new_name : String) → UserContext → Action C Response
  hardlink_transaction inode new_parent new_name context = do
    response_data ← propose inode (Request.hardlink_increment inode)
    response ← lift (response_or_error response_data)
    started ← lift (as_hardlink response)
    linked ← catch (
        propose new_parent
          (Request.create_link new_parent new_name inode started.1.kind none context))
    finish_hardlink inode started linked
