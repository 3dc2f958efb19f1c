-- ===== src/Coordinator/Kept.antt =====
-- What the single calls of src/storage/message_handlers/transaction_coordinator.rs do to the locks held:
-- only the two for locks change them.
use fleetfs.Prelude.{ℕ, String, Option, List, ◌∷◌, ◌≡◌, ◌∙◌}
use fleetfs.Base.Outcome.{ErrorCode, Outcome, ok, err, panic}
use fleetfs.Base.Types.{FileKind, UserContext}
use fleetfs.Base.Request.{Request}
use fleetfs.Base.Response.{Response}
use fleetfs.Coordinator.{Cluster, Call, Session, continue, lift, response_or_error}
use fleetfs.Coordinator.Calls.{
  ask_remote, propose, propose_empty, lock_response, lock_inode, unlock_inode, getattrs, lookup,
  remove_link, replace_link, update_parent, update_metadata_changed_time, decrement_inode,
}
use fleetfs.Coordinator.Locks.{after, after_call, held, without}
use fleetfs.Coordinator.Calls
use fleetfs.Coordinator.Answers.{
  Ends, Now, Proposed, ended, continue-Ends, caught-Ends, expect-Ends, if-Ends, Proposed-Ends,
  ask-Ends, propose-Proposed,
}

module _ {C : Cluster} where
  -- What `lock_inode` may come back with.
  pub data Locked (inode : ℕ) (s : Session C) : Outcome ℕ × Session C → Type 0 where
    took :
        (lock_id : ℕ) (s' : Session C)
        → held s'.events ≡ (inode, lock_id) ∷ held s.events
        → s'.lock_guard ≡ s.lock_guard
        → Locked inode s (ok lock_id, s')
    refused :
        (e : ErrorCode) (s' : Session C)
        → held s'.events ≡ held s.events
        → s'.lock_guard ≡ s.lock_guard
        → Locked inode s (err e, s')
    crashed : (s' : Session C) → Locked inode s (panic, s')

  abbrev lock_answer : Outcome Response × Session C → Outcome ℕ × Session C
  lock_answer r = continue r λ response_data s.
      continue (response_or_error response_data, s) λ response. lift (lock_response response)

  accepted-Locked :
      (inode : ℕ) (s : Session C) (a : Response) (s' : Session C)
      → held s'.events ≡ after (Request.lock inode) (ok a) (held s.events)
      → s'.lock_guard ≡ s.lock_guard
      → Locked inode s (lock_answer (ok a, s'))
  unfolding continue response_or_error after
  accepted-Locked inode s (Response.lock x) s' e g = Locked.took x s' e g
  accepted-Locked inode s (Response.filesystem_information x y) s' e g = Locked.crashed s'
  accepted-Locked inode s (Response.node_id x) s' e g = Locked.crashed s'
  accepted-Locked inode s (Response.inode x) s' e g = Locked.crashed s'
  accepted-Locked inode s (Response.removed_inode x y) s' e g = Locked.crashed s'
  accepted-Locked inode s (Response.written x) s' e g = Locked.crashed s'
  accepted-Locked inode s (Response.xattrs x) s' e g = Locked.crashed s'
  accepted-Locked inode s (Response.read x) s' e g = Locked.crashed s'
  accepted-Locked inode s (Response.latest_commit x y) s' e g = Locked.crashed s'
  accepted-Locked inode s (Response.directory_listing x) s' e g = Locked.crashed s'
  accepted-Locked inode s (Response.entry_metadata x) s' e g = Locked.crashed s'
  accepted-Locked inode s (Response.hardlink_transaction x y) s' e g = Locked.crashed s'
  accepted-Locked inode s Response.empty s' e g = Locked.crashed s'
  accepted-Locked inode s (Response.checksums x) s' e g = Locked.crashed s'
  accepted-Locked inode s (Response.error_occurred x) s' e g = Locked.refused x s' e g

  lock_answer-Locked :
      (inode : ℕ) (s : Session C) (r : Outcome Response × Session C)
      → Proposed (Request.lock inode) s r
      → Locked inode s (lock_answer r)
  unfolding continue
  lock_answer-Locked inode s r (Proposed.accepted a s' e g _ _) = accepted-Locked inode s a s' e g
  lock_answer-Locked inode s r (Proposed.refused code answer s' same e g _ _ _) =
      Locked.refused code s' (e ∙ same inode _) g
  lock_answer-Locked inode s r (Proposed.crashed s' _) = Locked.crashed s'

  pub lock_inode-Locked : (inode : ℕ) (s : Session C) → Locked inode s (lock_inode inode s)
  unfolding lock_inode
  lock_inode-Locked inode s = lock_answer-Locked inode s _ (propose-Proposed inode _ s)

  module _ (I : List (ℕ × ℕ) → List (ℕ × ℕ) → Type 0) where
    pub propose-Ends :
        (inode : ℕ) (q : Request) (s : Session C)
        → ((answer : Outcome Response) → I (after q answer (held s.events)) s.lock_guard)
        → Ends I (propose inode q s)
    propose-Ends inode q s h = Proposed-Ends I q s _ (propose-Proposed inode q s) h

    -- A proposal whose answer is looked at, and turned into a result.
    pub proposal-Ends :
        {A : Type 0} (inode : ℕ) (q : Request) (s : Session C) (result : Response → Outcome A)
        → ((answer : Outcome Response) → I (after q answer (held s.events)) s.lock_guard)
        → Ends I (
            continue
              (propose inode q s)
              (λ a s'. continue (response_or_error a, s') (λ x. lift (result x))))
    proposal-Ends inode q s result h =
        continue-Ends I _ _ (propose-Ends inode q s h)
          λ a s1 h1. continue-Ends I _ _ (ended I _ s1 h1) λ x s2 h2. ended I _ s2 h2

    pub unlock_inode-Ends :
        (inode lock_id : ℕ) (s : Session C)
        → I (without (inode, lock_id) (held s.events)) s.lock_guard
        → Ends I (unlock_inode inode lock_id s)
    unfolding unlock_inode after
    unlock_inode-Ends inode lock_id s h = proposal-Ends inode _ s _ (λ _. h)

    pub replace_link-Ends :
        (parent : ℕ) (name : String) (i : ℕ) (kind : FileKind) (lock_id : ℕ) (context : UserContext)
        (s : Session C)
        → Now I s
        → Ends I (replace_link parent name i kind lock_id context s)
    unfolding replace_link after
    replace_link-Ends parent name i kind lock_id context s h = proposal-Ends parent _ s _ (λ _. h)

    pub remove_link-Ends :
        (parent : ℕ) (name : String) (link : Option (ℕ × ℕ)) (lock_id : Option ℕ)
        (context : UserContext) (s : Session C)
        → Now I s
        → Ends I (remove_link parent name link lock_id context s)
    unfolding remove_link after
    remove_link-Ends parent name link lock_id context s h = proposal-Ends parent _ s _ (λ _. h)

    pub update_parent-Ends :
        (inode new_parent : ℕ) (lock_id : Option ℕ) (s : Session C)
        → Now I s
        → Ends I (update_parent inode new_parent lock_id s)
    unfolding update_parent after
    update_parent-Ends inode new_parent lock_id s h = proposal-Ends inode _ s _ (λ _. h)

    pub update_metadata_changed_time-Ends :
        (inode : ℕ) (lock_id : Option ℕ) (s : Session C)
        → Now I s
        → Ends I (update_metadata_changed_time inode lock_id s)
    unfolding update_metadata_changed_time after
    update_metadata_changed_time-Ends inode lock_id s h = proposal-Ends inode _ s _ (λ _. h)

    pub decrement_inode-Ends :
        (inode count : ℕ) (lock_id : Option ℕ) (s : Session C)
        → Now I s
        → Ends I (decrement_inode inode count lock_id s)
    unfolding decrement_inode after
    decrement_inode-Ends inode count lock_id s h =
        continue-Ends I _ _ (caught-Ends I _ (propose-Ends inode _ s (λ _. h))) λ a s1 h1.
          continue-Ends I _ _ (expect-Ends I a s1 h1)
            λ b s2 h2. continue-Ends I _ _ (expect-Ends I _ s2 h2) λ c s3 h3. ended I _ s3 h3

    -- A read, from this node or another.
    read_local-Ends :
        (inode : ℕ) (q : Request) (s : Session C) → Now I s → Ends I (Calls.read_local inode q s)
    unfolding after_call
    read_local-Ends inode q s h =
        continue-Ends I _ _ (ask-Ends I _ s (λ _. h)) λ a s' k. ask-Ends I _ s' (λ _. k)

    forwarded-Ends :
        (q : Request) (s : Session C) → Now I s → Ends I (ask_remote (Call.forwarded q) s)
    unfolding after_call
    forwarded-Ends q s h =
        continue-Ends I _ _ (caught-Ends I _ (ask-Ends I _ s (λ _. h))) λ a s' k. ended I _ s' k

    pub getattrs-Ends : (inode : ℕ) (s : Session C) → Now I s → Ends I (getattrs inode s)
    unfolding getattrs
    getattrs-Ends inode s h =
        if-Ends I (C.inode_stored_locally inode) _ _ s
          (continue-Ends I _ _ (read_local-Ends inode _ s h)
            λ a s1 h1. continue-Ends I _ _ (ended I _ s1 h1) λ b s2 h2. ended I _ s2 h2)
          (continue-Ends I _ _ (forwarded-Ends _ s h) λ a s1 h1.
            continue-Ends I _ _ (ended I _ s1 h1)
              λ b s2 h2. continue-Ends I _ _ (ended I _ s2 h2) λ c s3 h3. ended I _ s3 h3)

    pub lookup-Ends :
        (parent : ℕ) (name : String) (context : UserContext) (s : Session C)
        → Now I s
        → Ends I (lookup parent name context s)
    unfolding lookup
    lookup-Ends parent name context s h =
        if-Ends I (C.inode_stored_locally parent) _ _ s
          (continue-Ends I _ _ (read_local-Ends parent _ s h) λ a s1 h1. ended I _ s1 h1)
          (continue-Ends I _ _ (forwarded-Ends _ s h)
            λ a s1 h1. continue-Ends I _ _ (ended I _ s1 h1) λ b s2 h2. ended I _ s2 h2)
