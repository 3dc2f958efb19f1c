-- ===== src/Router/Tests.antt =====
-- A request that is handled on the only node of a cluster.
use fleetfs.Prelude.{ℕ, true, false, [], ◌∷◌, ◌≡◌, refl, some}
use fleetfs.Prelude.HashMap
use fleetfs.Base.Outcome.{ok}
use fleetfs.Base.Request.{Request, meta_info}
use fleetfs.Base.Response.{Response}
use fleetfs.DataStorage.Files.{sort, insert_sorted, position}
use fleetfs.Coordinator.{Cluster, Session, continue, caught, ask}
use fleetfs.Coordinator.Answers.{is_panic}
use fleetfs.RaftGroups.{
  LocalRaftGroupManager, total_nodes, node_index, node_contains_raft_group, inode_stored_locally,
  can_handle_locally,
}
use fleetfs.Router.{Choices, request_router_inner, request_router}
use fleetfs.Router.Returns.{is_transaction, request_router_inner_returns}

abbrev quiet : Cluster
quiet = record {
  State = Unit {0};
  inode_stored_locally = λ i. true;
  has_raft_group = λ g. true;
  answer = λ call s. (ok Response.empty, s);
}

abbrev session : Session quiet
session = record { state = tt; events = []; lock_guard = [] }

abbrev manager : LocalRaftGroupManager ℕ
manager = record {
  context = record { peers = []; node_id = 20; replicas_per_raft_group = 1 };
  total_raft_groups = 1;
  groups = HashMap.insert HashMap.empty 0 0;
}

abbrev choices : Choices quiet
choices = record {
  local_groups = 0 ∷ [];
  check = λ request s. (ok Response.empty, s);
  statfs = Response.filesystem_information 512 255;
  raft_group = 0;
  drain = λ locks. locks;
  rounds = 3;
}

abbrev owner_only : Request
owner_only = Request.chmod 4 0o700 (record { uid = 7; gid = 7 })

request_router_test :
    (request_router choices manager owner_only session).0 ≡ ok (some Response.empty)
unfolding request_router can_handle_locally meta_info inode_stored_locally node_index total_nodes
    sort insert_sorted position node_contains_raft_group request_router_inner continue caught ask
request_router_test = refl

request_router_inner_returns_example :
    is_panic (request_router_inner choices owner_only session).0 ≡ false
unfolding can_handle_locally meta_info inode_stored_locally node_index total_nodes sort
    insert_sorted position node_contains_raft_group is_transaction
request_router_inner_returns_example =
    request_router_inner_returns (λ call s. refl) manager choices owner_only session
      (record { inodes = λ i h. refl; groups = λ g h. refl }) refl refl refl
