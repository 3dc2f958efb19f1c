-- ===== src/RaftGroups/Tests.antt =====
-- Concrete nodes and groups.
use fleetfs.Prelude.{ℕ, ◌+◌, ◌≤◌, ◌&&◌, ltb, leb, true, [], ◌∷◌, ◌≡◌, refl, arith}
use fleetfs.Prelude.HashMap
use fleetfs.Base.Outcome.{ok}
use fleetfs.DataStorage.Files.{sort, insert_sorted, position}
use fleetfs.RaftGroups.{
  LocalContext, LocalRaftGroupManager, total_nodes, node_index, node_contains_raft_group,
  new_groups, new, inode_stored_locally, lookup_by_inode,
}
use fleetfs.RaftGroups.Assignment.{node_contains_raft_group_lem}
use fleetfs.RaftGroups.Lookup.{lookup_by_inode_lem}

-- Group 5 of a cluster of six nodes, two for each group: nodes 4 and 5 store it.
node_contains_raft_group_test : node_contains_raft_group 4 6 5 2 ≡ ok true
unfolding node_contains_raft_group
node_contains_raft_group_test = refl

node_contains_raft_group_lem_example :
    (4 + 2 ≤ 6) × (node_contains_raft_group 3 6 5 2 ≡ ok (leb 4 3 && ltb 3 (4 + 2)))
node_contains_raft_group_lem_example =
    node_contains_raft_group_lem 6 2 (omega arith) refl (omega arith) (omega arith) 3 5

-- The second of two nodes, and four groups: those with an odd number are here.
abbrev second : LocalContext
second = record { peers = 10 ∷ []; node_id = 20; replicas_per_raft_group = 1 }

abbrev made : LocalRaftGroupManager ℕ
made = record {
  context = second;
  total_raft_groups = 4;
  groups = HashMap.insert (HashMap.insert HashMap.empty 1 1) 3 3;
}

lookup_by_inode_lem_example : lookup_by_inode made 7 ≡ ok 3
unfolding new new_groups node_index total_nodes sort insert_sorted position node_contains_raft_group
    inode_stored_locally
lookup_by_inode_lem_example = lookup_by_inode_lem (λ i. i) second 4 made 7 (omega arith) refl refl
