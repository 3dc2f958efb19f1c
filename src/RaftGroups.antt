-- ===== src/RaftGroups.antt =====
-- Which groups a node stores: `node_contains_raft_group` of src/base/utils.rs, the manager of
-- src/storage/raft_group_manager.rs, and `can_handle_locally` of src/storage/message_handlers/router.rs.
-- A division by zero is a panic.
pub mod Assignment
pub mod Lookup
mod Tests
use fleetfs.Prelude.{
  ℕ, zero, suc, ◌+◌, length, List, ◌∷◌, ◌/◌, ◌%◌, ◌^◌, Bool, true, false, not, Option, none, some,
  is_some, ◌==◌, if◌then◌else◌,
}
use fleetfs.Prelude.HashMap
use fleetfs.Prelude.HashMap.{HashMap}
use fleetfs.Base.Outcome.{Outcome, ok, panic, assert, unwrap, ◌>>=◌, ◌>>◌}
use fleetfs.DataStorage.Files.{sort, position}
use fleetfs.Base.Request.{RequestMetaInfo, DistributionRequirement}

unfoldable pub node_contains_raft_group :
    (node_index total_nodes raft_group_id replicas_per_raft_group : ℕ) → Outcome Bool
node_contains_raft_group node_index total_nodes raft_group_id replicas_per_raft_group = do
  assert (not (replicas_per_raft_group == 0))
  assert (total_nodes % replicas_per_raft_group == 0)
  let node_group = node_index / replicas_per_raft_group
  let node_groups = total_nodes / replicas_per_raft_group
  assert (not (node_groups % 2 ^ 16 == 0))
  let assigned_node_group = raft_group_id % (node_groups % 2 ^ 16)
  ok (node_group == assigned_node_group)

-- `LocalContext` of src/base/local_context.rs: the nodes by their ids, which are made from addresses.
pub record LocalContext : Type 0 where
  pub peers : List ℕ
  pub node_id : ℕ
  pub replicas_per_raft_group : ℕ

unfoldable pub total_nodes : LocalContext → ℕ
total_nodes context = length context.peers + 1

unfoldable pub node_index : LocalContext → Outcome ℕ
node_index context = unwrap (position context.node_id (sort (context.node_id ∷ context.peers)))

abbrev pub contains : LocalContext → ℕ → Outcome Bool
contains context raft_group_id = do
  index ← node_index context
  node_contains_raft_group index (total_nodes context) raft_group_id context.replicas_per_raft_group

pub record LocalRaftGroupManager (Node : Type 0) : Type 0 where
  pub context : LocalContext
  pub total_raft_groups : ℕ
  pub groups : HashMap Node

module _ {Node : Type 0} where
  -- The loop over `0..rgroups`, in its order; a node is made for each group that is stored here.
  unfoldable pub new_groups : (make : ℕ → Node) → LocalContext → ℕ → Outcome (HashMap Node)
  new_groups make context zero = ok HashMap.empty
  new_groups make context (suc i) = do
    groups ← new_groups make context i
    stored ← contains context i
    ok (if stored then HashMap.insert groups i (make i) else groups)

  unfoldable pub new : (make : ℕ → Node) → ℕ → LocalContext → Outcome (LocalRaftGroupManager Node)
  new make rgroups context = do
    groups ← new_groups make context rgroups
    ok (record { context = context; total_raft_groups = rgroups; groups = groups })

  unfoldable pub inode_stored_locally : LocalRaftGroupManager Node → ℕ → Outcome Bool
  inode_stored_locally m inode = do
    assert (not (m.total_raft_groups == 0))
    contains m.context (inode % m.total_raft_groups % 2 ^ 16)

  unfoldable pub has_raft_group : LocalRaftGroupManager Node → ℕ → Bool
  has_raft_group m raft_group = is_some (m.groups raft_group)

  unfoldable pub lookup_by_raft_group : LocalRaftGroupManager Node → ℕ → Outcome Node
  lookup_by_raft_group m raft_group = unwrap (m.groups raft_group)

  unfoldable pub lookup_by_inode : LocalRaftGroupManager Node → ℕ → Outcome Node
  lookup_by_inode m inode = do
    assert (not (m.total_raft_groups == 0))
    let raft_group_id = inode % m.total_raft_groups % 2 ^ 16
    stored ← contains m.context raft_group_id
    assert stored
    unwrap (m.groups raft_group_id)

  abbrev pub in_raft_group : LocalRaftGroupManager Node → Option ℕ → Option ℕ → Outcome Bool
  in_raft_group m (some group) inode = ok (has_raft_group m group)
  in_raft_group m none inode = do i ← unwrap inode; inode_stored_locally m i

  abbrev pub meets :
      LocalRaftGroupManager Node → RequestMetaInfo → DistributionRequirement → Outcome Bool
  meets m meta DistributionRequirement.any = ok true
  meets m meta DistributionRequirement.transaction_coordinator = ok true
  meets m meta DistributionRequirement.node = ok true
  meets m meta DistributionRequirement.raft_group = in_raft_group m meta.raft_group meta.inode

  unfoldable pub can_handle_locally : RequestMetaInfo → LocalRaftGroupManager Node → Outcome Bool
  can_handle_locally meta m = meets m meta meta.distribution_requirement
