-- ===== src/Router/Returns.antt =====
-- Requests that src/storage/message_handlers/router.rs finds to be handled on this node.
use fleetfs.Prelude.{ℕ, Bool, true, false, some, ◌≡◌, refl}
use fleetfs.Base.Outcome.{Outcome, ok, err, panic, assert}
use fleetfs.Base.Outcome.Laws.{ok-injective}
use fleetfs.Base.Request.{Request, meta_info, raft_group}
use fleetfs.Base.Response.{Response}
use fleetfs.Coordinator.{Cluster, Call, Session, Action, continue, ask, lift, ◌>>=◌, ◌>>◌}
use fleetfs.Coordinator.Answers.{is_panic}
use fleetfs.RaftGroups.{
  LocalRaftGroupManager, inode_stored_locally, has_raft_group, can_handle_locally,
}
use fleetfs.Router.{Choices, propose_raw, read_here, request_router_inner}

-- The two requests to a group that are run as transactions.
unfoldable pub is_transaction : Request → Bool
is_transaction (Request.unlink parent name context) = true
is_transaction (Request.rmdir parent name context) = true
is_transaction request = false

-- The groups that answer are those that the manager of this node has.
pub record Serves {Node : Type 0} (C : Cluster) (m : LocalRaftGroupManager Node) : Type 0 where
  pub inodes : (i : ℕ) → inode_stored_locally m i ≡ ok true → C.inode_stored_locally i ≡ true
  pub groups : (g : ℕ) → has_raft_group m g ≡ true → C.has_raft_group g ≡ true

module _ {C : Cluster} where
  -- No panic.
  record Calm {A : Type 0} (r : Outcome A × Session C) : Type 0 where
    calm : is_panic r.0 ≡ false

  continue-Calm :
      {A B : Type 0} (r : Outcome A × Session C) (next : A → Action C B)
      → Calm r
      → ((a : A) (s : Session C) → Calm (next a s))
      → Calm (continue r next)
  unfolding continue
  continue-Calm (ok a, s) next h k = k a s
  continue-Calm (err e, s) next h k = record { calm = refl }
  continue-Calm (panic, s) next h k = absurd (cc h.calm)

  asserted : (b : Bool) (s : Session C) → b ≡ true → Calm {A = Unit {0}} (lift (assert b) s)
  asserted true s h = record { calm = refl }
  asserted false s h = absurd (cc h)

  module _
      (answers : (call : Call) (state : C.State) → is_panic (C.answer call state).0 ≡ false) where
    ask-Calm : (call : Call) (s : Session C) → Calm (ask call s)
    unfolding ask
    ask-Calm call s = record { calm = answers call s.state }

    twice-Calm : (first second : Call) (s : Session C) → Calm ((ask first >>= λ _. ask second) s)
    twice-Calm first second s = continue-Calm _ _ (ask-Calm first s) λ _ s'. ask-Calm second s'

    found-Calm :
        (b : Bool) (action : Action C Response) (s : Session C)
        → b ≡ true
        → ((s : Session C) → Calm (action s))
        → Calm ((lift (assert b) >> (action >>= λ a. lift (ok (some a)))) s)
    found-Calm b action s h k =
        continue-Calm _ _ (asserted b s h)
          λ _ s1. continue-Calm _ _ (k s1) λ a s2. record { calm = refl }

    propose_raw-Calm :
        (i : ℕ) (q : Request) (s : Session C)
        → C.inode_stored_locally i ≡ true
        → Calm (propose_raw i q s)
    propose_raw-Calm i q s h = found-Calm (C.inode_stored_locally i) _ s h (ask-Calm _)

    read_here-Calm :
        (i : ℕ) (q : Request) (s : Session C)
        → C.inode_stored_locally i ≡ true
        → Calm (read_here i q s)
    read_here-Calm i q s h = found-Calm (C.inode_stored_locally i) _ s h (twice-Calm _ _)

    request_router_inner-Calm :
        {Node : Type 0} (m : LocalRaftGroupManager Node) (c : Choices C) (q : Request)
        (s : Session C)
        → Serves C m
        → (meta_info q).distribution_requirement ≡ raft_group
        → is_transaction q ≡ false
        → can_handle_locally (meta_info q) m ≡ ok true
        → Calm (request_router_inner c q s)
    unfolding request_router_inner can_handle_locally meta_info is_transaction
    request_router_inner-Calm m c (Request.fsync x1) s w r t h =
        propose_raw-Calm x1 _ s (w.inodes x1 h)
    request_router_inner-Calm m c (Request.hardlink_rollback x1 x2) s w r t h =
        propose_raw-Calm x1 _ s (w.inodes x1 h)
    request_router_inner-Calm m c (Request.utimens x1 x2 x3 x4) s w r t h =
        propose_raw-Calm x1 _ s (w.inodes x1 h)
    request_router_inner-Calm m c (Request.set_xattr x1 x2 x3 x4) s w r t h =
        propose_raw-Calm x1 _ s (w.inodes x1 h)
    request_router_inner-Calm m c (Request.remove_xattr x1 x2 x3) s w r t h =
        propose_raw-Calm x1 _ s (w.inodes x1 h)
    request_router_inner-Calm m c (Request.chmod x1 x2 x3) s w r t h =
        propose_raw-Calm x1 _ s (w.inodes x1 h)
    request_router_inner-Calm m c (Request.chown x1 x2 x3 x4) s w r t h =
        propose_raw-Calm x1 _ s (w.inodes x1 h)
    request_router_inner-Calm m c (Request.truncate x1 x2 x3) s w r t h =
        propose_raw-Calm x1 _ s (w.inodes x1 h)
    request_router_inner-Calm m c (Request.write x1 x2 x3) s w r t h =
        propose_raw-Calm x1 _ s (w.inodes x1 h)
    request_router_inner-Calm m c (Request.remove_link x1 x2 x3 x4 x5) s w r t h =
        propose_raw-Calm x1 _ s (w.inodes x1 h)
    request_router_inner-Calm m c (Request.replace_link x1 x2 x3 x4 x5 x6) s w r t h =
        propose_raw-Calm x1 _ s (w.inodes x1 h)
    request_router_inner-Calm m c (Request.create_link x1 x2 x3 x4 x5 x6) s w r t h =
        propose_raw-Calm x1 _ s (w.inodes x1 h)
    request_router_inner-Calm m c (Request.hardlink_increment x1) s w r t h =
        propose_raw-Calm x1 _ s (w.inodes x1 h)
    request_router_inner-Calm m c (Request.update_parent x1 x2 x3) s w r t h =
        propose_raw-Calm x1 _ s (w.inodes x1 h)
    request_router_inner-Calm m c (Request.update_metadata_changed_time x1 x2) s w r t h =
        propose_raw-Calm x1 _ s (w.inodes x1 h)
    request_router_inner-Calm m c (Request.decrement_inode x1 x2 x3) s w r t h =
        propose_raw-Calm x1 _ s (w.inodes x1 h)
    request_router_inner-Calm m c (Request.lock x1) s w r t h =
        propose_raw-Calm x1 _ s (w.inodes x1 h)
    request_router_inner-Calm m c (Request.unlock x1 x2) s w r t h =
        propose_raw-Calm x1 _ s (w.inodes x1 h)
    request_router_inner-Calm m c (Request.lookup x1 x2 x3) s w r t h =
        read_here-Calm x1 _ s (w.inodes x1 h)
    request_router_inner-Calm m c (Request.get_xattr x1 x2 x3) s w r t h =
        read_here-Calm x1 _ s (w.inodes x1 h)
    request_router_inner-Calm m c (Request.get_attr x1) s w r t h =
        read_here-Calm x1 _ s (w.inodes x1 h)
    request_router_inner-Calm m c (Request.list_dir x1) s w r t h =
        read_here-Calm x1 _ s (w.inodes x1 h)
    request_router_inner-Calm m c (Request.list_xattrs x1) s w r t h =
        read_here-Calm x1 _ s (w.inodes x1 h)
    request_router_inner-Calm m c (Request.read_raw x0 x1 x2 x3) s w r t h =
        found-Calm (C.inode_stored_locally x1) _ s (w.inodes x1 h) (twice-Calm _ _)
    request_router_inner-Calm m c (Request.read x1 x2 x3) s w r t h =
        found-Calm (C.inode_stored_locally x1) _ s (w.inodes x1 h)
          λ s1. continue-Calm _ _ (ask-Calm _ s1) λ _ s2. twice-Calm _ _ s2
    request_router_inner-Calm m c (Request.create_inode g x2 x3 x4 x5 x6) s w r t h =
        found-Calm (C.has_raft_group g) _ s (w.groups g (ok-injective h)) (ask-Calm _)
    request_router_inner-Calm m c (Request.latest_commit g) s w r t h =
        found-Calm (C.has_raft_group g) _ s (w.groups g (ok-injective h)) (ask-Calm _)
    request_router_inner-Calm m c (Request.raft_group_leader g) s w r t h =
        found-Calm (C.has_raft_group g) _ s (w.groups g (ok-injective h)) (twice-Calm _ _)
    request_router_inner-Calm m c (Request.consensus_message g x2) s w r t h =
        found-Calm (C.has_raft_group g) _ s (w.groups g (ok-injective h))
          λ s1. continue-Calm _ _ (ask-Calm _ s1) λ _ s2. record { calm = refl }
    request_router_inner-Calm m c (Request.unlink x1 x2 x3) s w r t h = absurd (cc t)
    request_router_inner-Calm m c (Request.rmdir x1 x2 x3) s w r t h = absurd (cc t)
    request_router_inner-Calm m c Request.filesystem_ready s w r t h = absurd (cc r)
    request_router_inner-Calm m c Request.filesystem_information s w r t h = absurd (cc r)
    request_router_inner-Calm m c Request.filesystem_check s w r t h = absurd (cc r)
    request_router_inner-Calm m c Request.filesystem_checksum s w r t h = absurd (cc r)
    request_router_inner-Calm m c (Request.create x1 x2 x3 x4 x5 x6) s w r t h = absurd (cc r)
    request_router_inner-Calm m c (Request.mkdir x1 x2 x3 x4 x5) s w r t h = absurd (cc r)
    request_router_inner-Calm m c (Request.rename x1 x2 x3 x4 x5) s w r t h = absurd (cc r)
    request_router_inner-Calm m c (Request.hardlink x1 x2 x3 x4) s w r t h = absurd (cc r)

    -- A request to a group that the router finds to be handled on this node, and that is not a
    -- transaction, does not panic, if the calls that it makes do not: the group that the handler looks
    -- up is always one of this node.
    pub request_router_inner_returns :
        {Node : Type 0} (m : LocalRaftGroupManager Node) (c : Choices C) (q : Request)
        (s : Session C)
        → Serves C m
        → (meta_info q).distribution_requirement ≡ raft_group
        → is_transaction q ≡ false
        → can_handle_locally (meta_info q) m ≡ ok true
        → is_panic (request_router_inner c q s).0 ≡ false
    request_router_inner_returns m c q s w r t h = (request_router_inner-Calm m c q s w r t h).calm
