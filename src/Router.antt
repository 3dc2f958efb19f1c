-- ===== src/Router.antt =====
-- `request_router` of src/storage/message_handlers/router.rs: a request is forwarded to a node that can
-- handle it, or handled here: by the group of its inode, or as a transaction. The groups of this node,
-- the handler of FilesystemCheck and FilesystemChecksum, the random choice of a group, the order of a
-- hash set and the bound on the rounds of a loop are parameters. `none` is a loop that was cut off.
-- The commit that the peers of a read have to reach is left to the read.
pub mod Returns
mod Tests
use fleetfs.Prelude.{ℕ, Bool, true, false, Option, none, some, List, [], ◌∷◌, if◌then◌else◌}
use fleetfs.Base.Outcome.{Outcome, ok, err, panic, assert, unwrap, uncategorized}
use fleetfs.Base.Types.{FileKind}
use fleetfs.Base.Request.{Request, RequestMetaInfo, DistributionRequirement, meta_info}
use fleetfs.Base.Response.{Response}
use fleetfs.Coordinator.{Cluster, Call, Action, ◌>>=◌, ◌>>◌, lift, catch, ask}
use fleetfs.RaftGroups.{LocalRaftGroupManager, can_handle_locally}
use fleetfs.Coordinator.Calls.{ask_remote}
use fleetfs.Coordinator.Rename.{rename_transaction}
use fleetfs.Coordinator.Links.{
  rmdir_transaction, unlink_transaction, create_transaction, hardlink_transaction,
}

-- `Err(error_code)` is sent as a response of its own.
abbrev pub to_error_response : Outcome (Option Response) → Outcome (Option Response)
to_error_response (ok response) = ok response
to_error_response (err e) = ok (some (Response.error_occurred e))
to_error_response panic = panic

-- Any failure to forward is the same error.
abbrev pub forwarded_answer : Outcome Response → Outcome (Option Response)
forwarded_answer (ok response) = ok (some response)
forwarded_answer (err e) = err uncategorized
forwarded_answer panic = panic

-- The parameters.
pub record Choices (C : Cluster) : Type 0 where
  pub local_groups : List ℕ
  pub check : Request → Action C Response
  pub statfs : Response
  pub raft_group : ℕ
  pub drain : List (ℕ × ℕ) → List (ℕ × ℕ)
  pub rounds : ℕ

module _ {C : Cluster} where
  abbrev pub done : Response → Action C (Option Response)
  done response = lift (ok (some response))

  -- `raft.all_groups().next().unwrap()`, and the `statfs` of that group.
  abbrev pub first_group_statfs : List ℕ → Response → Action C (Option Response)
  first_group_statfs [] response = lift panic
  first_group_statfs (_ ∷ _) response = done response

  abbrev pub answered_by : Action C Response → Action C (Option Response)
  answered_by action = action >>= done

  -- `raft.lookup_by_inode(inode)` and `raft.lookup_by_raft_group(group)`, which panic if the group is not
  -- on this node.
  abbrev pub at_inode : ℕ → Action C Response → Action C (Option Response)
  at_inode inode action = lift (assert (C.inode_stored_locally inode)) >> answered_by action

  abbrev pub at_group : ℕ → Action C Response → Action C (Option Response)
  at_group group action = lift (assert (C.has_raft_group group)) >> answered_by action

  -- `lookup_by_inode(inode).propose_raw(request_data)`
  abbrev pub propose_raw : ℕ → Request → Action C (Option Response)
  propose_raw inode request = at_inode inode (ask (Call.local_proposal inode request))

  -- A read of this node's files, after the barrier.
  abbrev pub read_here : ℕ → Request → Action C (Option Response)
  read_here inode request =
      at_inode inode (ask (Call.read_barrier inode) >>= λ _. ask (Call.local_read request))

  unfoldable pub all_barriers : List ℕ → Action C (Unit {0})
  all_barriers [] = lift (ok tt)
  all_barriers (group ∷ groups) = do _ ← ask (Call.group_barrier group); all_barriers groups

  unfoldable pub request_router_inner : Choices C → Request → Action C (Option Response)
  request_router_inner c Request.filesystem_ready = do
    _ ← all_barriers c.local_groups
    _ ← ask_remote Call.wait_for_ready
    done Response.empty
  request_router_inner c Request.filesystem_information = first_group_statfs c.local_groups c.statfs
  request_router_inner c Request.filesystem_check = answered_by (c.check Request.filesystem_check)
  request_router_inner c Request.filesystem_checksum =
      answered_by (c.check Request.filesystem_checksum)
  request_router_inner c (Request.create_inode group parent uid gid mode kind) =
      at_group group (
        ask (Call.local_group_proposal group (Request.create_inode group parent uid gid mode kind)))
  request_router_inner c (Request.create_link parent name inode kind lock_id context) =
      propose_raw parent (Request.create_link parent name inode kind lock_id context)
  request_router_inner c (Request.remove_link parent name link lock_id context) =
      propose_raw parent (Request.remove_link parent name link lock_id context)
  request_router_inner c (Request.replace_link parent name inode kind lock_id context) =
      propose_raw parent (Request.replace_link parent name inode kind lock_id context)
  request_router_inner c (Request.hardlink_rollback inode time) =
      propose_raw inode (Request.hardlink_rollback inode time)
  request_router_inner c (Request.hardlink_increment inode) =
      propose_raw inode (Request.hardlink_increment inode)
  request_router_inner c (Request.decrement_inode inode count lock_id) =
      propose_raw inode (Request.decrement_inode inode count lock_id)
  request_router_inner c (Request.update_parent inode parent lock_id) =
      propose_raw inode (Request.update_parent inode parent lock_id)
  request_router_inner c (Request.update_metadata_changed_time inode lock_id) =
      propose_raw inode (Request.update_metadata_changed_time inode lock_id)
  request_router_inner c (Request.write inode offset bytes) =
      propose_raw inode (Request.write inode offset bytes)
  request_router_inner c (Request.lock inode) = propose_raw inode (Request.lock inode)
  request_router_inner c (Request.unlock inode lock_id) =
      propose_raw inode (Request.unlock inode lock_id)
  request_router_inner c (Request.fsync inode) = propose_raw inode (Request.fsync inode)
  request_router_inner c (Request.chmod inode mode context) =
      propose_raw inode (Request.chmod inode mode context)
  request_router_inner c (Request.chown inode uid gid context) =
      propose_raw inode (Request.chown inode uid gid context)
  request_router_inner c (Request.truncate inode length context) =
      propose_raw inode (Request.truncate inode length context)
  request_router_inner c (Request.set_xattr inode key value context) =
      propose_raw inode (Request.set_xattr inode key value context)
  request_router_inner c (Request.remove_xattr inode key context) =
      propose_raw inode (Request.remove_xattr inode key context)
  request_router_inner c (Request.utimens inode atime mtime context) =
      propose_raw inode (Request.utimens inode atime mtime context)
  request_router_inner c (Request.unlink parent name context) =
      unlink_transaction c.rounds parent name context
  request_router_inner c (Request.read inode offset size) = at_inode inode (
      ask (Call.read_barrier inode) >>= λ _. ask (Call.latest_commit_of inode) >>= λ _.
      ask (Call.local_read (Request.read inode offset size)))
  request_router_inner c (Request.read_raw commit inode offset size) = at_inode inode (
      ask (Call.wait_for_commit inode commit.index) >>= λ _.
      ask (Call.local_read (Request.read_raw commit inode offset size)))
  request_router_inner c (Request.rmdir parent name context) =
      rmdir_transaction c.rounds parent name context
  request_router_inner c (Request.mkdir parent name uid gid mode) =
      answered_by (create_transaction c.raft_group parent name uid gid mode FileKind.directory)
  request_router_inner c (Request.create parent name uid gid mode kind) =
      answered_by (create_transaction c.raft_group parent name uid gid mode kind)
  request_router_inner c (Request.lookup parent name context) =
      read_here parent (Request.lookup parent name context)
  request_router_inner c (Request.get_xattr inode key context) =
      read_here inode (Request.get_xattr inode key context)
  request_router_inner c (Request.hardlink inode new_parent new_name context) =
      answered_by (hardlink_transaction inode new_parent new_name context)
  request_router_inner c (Request.rename parent name new_parent new_name context) =
      answered_by (rename_transaction c.drain parent name new_parent new_name context)
  request_router_inner c (Request.get_attr inode) = read_here inode (Request.get_attr inode)
  request_router_inner c (Request.list_dir inode) = read_here inode (Request.list_dir inode)
  request_router_inner c (Request.list_xattrs inode) = read_here inode (Request.list_xattrs inode)
  request_router_inner c (Request.latest_commit group) =
      at_group group (ask (Call.latest_commit group))
  request_router_inner c (Request.raft_group_leader group) =
      at_group group (ask (Call.group_barrier group) >>= λ _. ask (Call.leader group))
  request_router_inner c (Request.consensus_message group bytes) =
      at_group group (ask (Call.apply_message group bytes) >>= λ _. lift (ok Response.empty))

  abbrev pub forward_request : Request → Action C (Option Response)
  forward_request request = do
    answer ← catch (ask (Call.forwarded request))
    lift (to_error_response (forwarded_answer answer))

  -- The manager of the groups of this node says where a request goes.
  unfoldable pub request_router :
      {Node : Type 0}
      → Choices C
      → LocalRaftGroupManager Node
      → Request
      → Action C (Option Response)
  request_router c m request = do
    here ← lift (can_handle_locally (meta_info request) m)
    if here
        then (do answer ← catch (request_router_inner c request); lift (to_error_response answer))
        else forward_request request
