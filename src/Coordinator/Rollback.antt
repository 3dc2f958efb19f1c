-- ===== src/Coordinator/Rollback.antt =====
-- The two transactions of src/storage/message_handlers/transaction_coordinator.rs that undo their first
-- step when the second is refused: `create_transaction` and `hardlink_transaction`.
use fleetfs.Prelude.{ℕ, false, String, none, ◌∷◌, ◌≡◌, ◌≢◌, refl, ap, ◌∙◌}
use fleetfs.Base.Outcome.{ErrorCode, Outcome, ok, err, panic, unwrap}
use fleetfs.Base.Types.{FileKind, EntryMetadata}
use fleetfs.Base.Request.{Request}
use fleetfs.Base.Response.{Response}
use fleetfs.Coordinator.{
  Cluster, Session, Action, continue, caught, lift, ask, hide_error, response_or_error,
  as_attr_response, ◌>>=◌,
}
use fleetfs.Coordinator.Calls.{propose}
use fleetfs.Coordinator.Links.{propose_checked, rollback, finish_create, create_transaction}
use fleetfs.Coordinator.Exchanges.{Exchanges, exchange, exchanges, is_refusal, ErrorOf}
use fleetfs.Coordinator.Answers.{Proposed, propose-Proposed}

pub response_or_error-accepted :
    (a : Response) → is_refusal (ok a) ≡ false → response_or_error a ≡ ok a
unfolding is_refusal response_or_error
response_or_error-accepted (Response.entry_metadata x) h = refl
response_or_error-accepted (Response.lock x) h = refl
response_or_error-accepted (Response.filesystem_information x y) h = refl
response_or_error-accepted (Response.node_id x) h = refl
response_or_error-accepted (Response.inode x) h = refl
response_or_error-accepted (Response.removed_inode x y) h = refl
response_or_error-accepted (Response.written x) h = refl
response_or_error-accepted (Response.xattrs x) h = refl
response_or_error-accepted (Response.read x) h = refl
response_or_error-accepted (Response.latest_commit x y) h = refl
response_or_error-accepted (Response.directory_listing x) h = refl
response_or_error-accepted (Response.hardlink_transaction x y) h = refl
response_or_error-accepted Response.empty h = refl
response_or_error-accepted (Response.checksums x) h = refl
response_or_error-accepted (Response.error_occurred e) h = absurd (cc h)

module _ {C : Cluster} where
  -- What proposing a rollback after the error `e` comes to: it is accepted, and that error is returned;
  -- it is refused or its call fails, and the error of that is returned; or the call panicked.
  pub data Undone (q : Request) (e : ErrorCode) (s : Session C)
      : Outcome Response × Session C → Type 0 where
    undone :
        (answer : Response) (s' : Session C)
        → is_refusal (ok answer) ≡ false
        → exchanges s'.events ≡ (q, ok answer) ∷ exchanges s.events
        → Undone q e s (err e, s')
    left_over :
        (failure : Outcome Response) (e' : ErrorCode) (s' : Session C)
        → ErrorOf e' failure
        → exchanges s'.events ≡ (q, failure) ∷ exchanges s.events
        → Undone q e s (err e', s')
    crashed :
        (s' : Session C)
        → exchanges s'.events ≡ (q, panic) ∷ exchanges s.events
        → Undone q e s (panic, s')

  abbrev give_up : ErrorCode → Outcome (Unit {0}) × Session C → Outcome Response × Session C
  give_up e r = continue r λ _. lift (err e)

  checked-Undone :
      (q : Request) (s : Session C) (e : ErrorCode) (answer : Response) (x : Outcome Response)
      (s' : Session C)
      → is_refusal (ok answer) ≡ false
      → exchanges s'.events ≡ (q, ok answer) ∷ exchanges s.events
      → x ≡ ok answer
      → Undone q e s (give_up e (continue (x, s') (λ _. lift (ok tt))))
  unfolding continue
  checked-Undone q s e answer (ok a) s' accepted h k = Undone.undone answer s' accepted h
  checked-Undone q s e answer (err e') s' accepted h k = absurd (cc k)
  checked-Undone q s e answer panic s' accepted h k = absurd (cc k)

  Proposed-Undone :
      (q : Request) (s : Session C) (e : ErrorCode) (r : Outcome Response × Session C)
      → Proposed q s r
      → Undone q e s
          (give_up e (continue r (λ a s'. continue (response_or_error a, s') (λ _. lift (ok tt)))))
  unfolding continue
  Proposed-Undone q s e r (Proposed.accepted a s' _ _ h k) =
      checked-Undone q s e a (response_or_error a) s' k h (response_or_error-accepted a k)
  Proposed-Undone q s e r (Proposed.refused code answer s' _ _ _ h _ k) =
      Undone.left_over answer code s' k h
  Proposed-Undone q s e r (Proposed.crashed s' h) = Undone.crashed s' h

  pub rollback-Undone :
      (inode : ℕ) (q : Request) (e : ErrorCode) (s : Session C)
      → Undone q e s (rollback {A = Response} inode q e s)
  unfolding rollback propose_checked
  rollback-Undone inode q e s = Proposed-Undone q s e _ (propose-Proposed inode q s)

module _ (raft_group parent : ℕ) (name : String) (uid gid mode : ℕ) (kind : FileKind) where
  abbrev creation : Request
  creation = Request.create_inode raft_group parent uid gid mode kind

  abbrev linking : EntryMetadata → Request
  linking created =
      Request.create_link parent name created.inode kind none (record { uid = uid; gid = gid })

  abbrev undoing : EntryMetadata → Request
  undoing created = Request.decrement_inode created.inode created.hard_links none

  -- An inode was made, as the group answered.
  abbrev Made : Exchanges → EntryMetadata → Exchanges
  Made before created = (creation, ok (Response.entry_metadata created)) ∷ before

  -- How a creation may end, by the proposals made, the latest first, and their answers.
  pub data CreateRun (before now : Exchanges) : Outcome Response → Type 0 where
    not_created :
        (answer : Outcome Response) (e : ErrorCode)
        → ErrorOf e answer
        → now ≡ (creation, answer) ∷ before
        → CreateRun before now (err e)
    linked :
        (created : EntryMetadata) (answer : Response)
        → is_refusal (ok answer) ≡ false
        → now ≡ (linking created, ok answer) ∷ Made before created
        → CreateRun before now (ok (Response.entry_metadata created))
    undone :
        (created : EntryMetadata) (refusal : Outcome Response) (answer : Response) (e : ErrorCode)
        → ErrorOf e refusal
        → is_refusal (ok answer) ≡ false
        → now ≡ (undoing created, ok answer) ∷ (linking created, refusal) ∷ Made before created
        → CreateRun before now (err e)
    left_over :
        (created : EntryMetadata) (refusal failure : Outcome Response) (e e' : ErrorCode)
        → ErrorOf e refusal
        → ErrorOf e' failure
        → now ≡ (undoing created, failure) ∷ (linking created, refusal) ∷ Made before created
        → CreateRun before now (err e')
    unexpected :
        (answer : Response)
        → is_refusal (ok answer) ≡ false
        → ((created : EntryMetadata) → answer ≢ Response.entry_metadata created)
        → now ≡ (creation, ok answer) ∷ before
        → CreateRun before now panic
    creation_crashed : now ≡ (creation, panic) ∷ before → CreateRun before now panic
    link_crashed :
        (created : EntryMetadata)
        → now ≡ (linking created, panic) ∷ Made before created
        → CreateRun before now panic
    rollback_crashed :
        (created : EntryMetadata) (refusal : Outcome Response) (e : ErrorCode)
        → ErrorOf e refusal
        → now ≡ (undoing created, panic) ∷ (linking created, refusal) ∷ Made before created
        → CreateRun before now panic

  module _ {C : Cluster} where
    Undone-CreateRun :
        (s s1 s2 : Session C) (created : EntryMetadata) (refusal : Outcome Response) (e : ErrorCode)
        (r : Outcome Response × Session C)
        → exchanges s1.events ≡ Made (exchanges s.events) created
        → ErrorOf e refusal
        → exchanges s2.events ≡ (linking created, refusal) ∷ exchanges s1.events
        → Undone (undoing created) e s2 r
        → CreateRun (exchanges s.events) (exchanges r.1.events) r.0
    Undone-CreateRun s s1 s2 created refusal e r m h k (Undone.undone answer s' accepted u) =
        CreateRun.undone created refusal answer e h accepted (
          u
          ∙ ap (λ x. (undoing created, ok answer) ∷ x)
              (k ∙ ap (λ x. (linking created, refusal) ∷ x) m))
    Undone-CreateRun s s1 s2 created refusal e r m h k (Undone.left_over failure e' s' f u) =
        CreateRun.left_over created refusal failure e e' h f (
          u
          ∙ ap (λ x. (undoing created, failure) ∷ x)
              (k ∙ ap (λ x. (linking created, refusal) ∷ x) m))
    Undone-CreateRun s s1 s2 created refusal e r m h k (Undone.crashed s' u) =
        CreateRun.rollback_crashed created refusal e h (
          u
          ∙ ap (λ x. (undoing created, panic) ∷ x) (k ∙ ap (λ x. (linking created, refusal) ∷ x) m))

    linked-CreateRun :
        (s s1 : Session C) (created : EntryMetadata) (r : Outcome Response × Session C)
        → exchanges s1.events ≡ Made (exchanges s.events) created
        → Proposed (linking created) s1 r
        → CreateRun
            (exchanges s.events)
            (exchanges (continue (caught r) (λ x. finish_create created x)).1.events)
            (continue (caught r) (λ x. finish_create created x)).0
    unfolding continue caught finish_create
    linked-CreateRun s s1 created r m (Proposed.accepted a s' _ _ k h) =
        CreateRun.linked created a h (k ∙ ap (λ x. (linking created, ok a) ∷ x) m)
    linked-CreateRun s s1 created r m (Proposed.refused e answer s' _ _ _ k _ h) =
        Undone-CreateRun s s1 s' created answer e _ m h k (rollback-Undone created.inode _ e s')
    linked-CreateRun s s1 created r m (Proposed.crashed s' k) =
        CreateRun.link_crashed created (k ∙ ap (λ x. (linking created, panic) ∷ x) m)

    -- What follows the answer to the creation.
    abbrev after_creation : Response → Action C Response
    after_creation created_data = lift (response_or_error created_data) >>= λ response.
        lift (unwrap (as_attr_response response)) >>= λ created.
        (λ s. caught (propose parent (linking created) s)) >>= λ linked.
        finish_create created linked

    created-CreateRun :
        (s : Session C) (answer : Outcome Response) (s1 : Session C)
        → exchanges s1.events ≡ (creation, answer) ∷ exchanges s.events
        → CreateRun
            (exchanges s.events)
            (exchanges
              (continue
                (continue (caught (answer, s1)) (λ a. lift (hide_error a)))
                after_creation).1.events)
            (continue (continue (caught (answer, s1)) (λ a. lift (hide_error a))) after_creation).0
    unfolding continue caught response_or_error is_refusal
    created-CreateRun s (ok (Response.entry_metadata created)) s1 h =
        linked-CreateRun s s1 created _ h (propose-Proposed parent (linking created) s1)
    created-CreateRun s (ok (Response.error_occurred e)) s1 h =
        CreateRun.not_created (ok (Response.error_occurred e)) e (ErrorOf.answered_error e) h
    created-CreateRun s (err e) s1 h = CreateRun.not_created (err e) _ (ErrorOf.remote_failure e) h
    created-CreateRun s panic s1 h = CreateRun.creation_crashed h
    created-CreateRun s (ok (Response.lock x)) s1 h = CreateRun.unexpected _ refl (λ _ e. cc e) h
    created-CreateRun s (ok (Response.filesystem_information x y)) s1 h =
        CreateRun.unexpected _ refl (λ _ e. cc e) h
    created-CreateRun s (ok (Response.node_id x)) s1 h = CreateRun.unexpected _ refl (λ _ e. cc e) h
    created-CreateRun s (ok (Response.inode x)) s1 h = CreateRun.unexpected _ refl (λ _ e. cc e) h
    created-CreateRun s (ok (Response.removed_inode x y)) s1 h =
        CreateRun.unexpected _ refl (λ _ e. cc e) h
    created-CreateRun s (ok (Response.written x)) s1 h = CreateRun.unexpected _ refl (λ _ e. cc e) h
    created-CreateRun s (ok (Response.xattrs x)) s1 h = CreateRun.unexpected _ refl (λ _ e. cc e) h
    created-CreateRun s (ok (Response.read x)) s1 h = CreateRun.unexpected _ refl (λ _ e. cc e) h
    created-CreateRun s (ok (Response.latest_commit x y)) s1 h =
        CreateRun.unexpected _ refl (λ _ e. cc e) h
    created-CreateRun s (ok (Response.directory_listing x)) s1 h =
        CreateRun.unexpected _ refl (λ _ e. cc e) h
    created-CreateRun s (ok Response.empty) s1 h = CreateRun.unexpected _ refl (λ _ e. cc e) h
    created-CreateRun s (ok (Response.checksums x)) s1 h =
        CreateRun.unexpected _ refl (λ _ e. cc e) h
    created-CreateRun s (ok (Response.hardlink_transaction x y)) s1 h =
        CreateRun.unexpected _ refl (λ _ e. cc e) h

    -- Every run of `create_transaction`, whatever the groups answer, is one of these. The creation is
    -- answered with an error, or the call fails, so that it is not known whether an inode was made: that
    -- error is returned, or only that there was one. Or an inode is made and its link accepted: the
    -- attributes of the inode are returned. Or the link is refused, or its call fails: then it is proposed
    -- to take all links that the new inode has from it again; if that is accepted, the error of the link
    -- is returned; if it is refused or its call fails, which may leave the inode behind, the error of that
    -- proposal is returned instead. A panic comes only of a call that panics, or of an answer to the
    -- creation that is neither an error nor attributes.
    pub create_transaction-CreateRun :
        (s : Session C)
        → CreateRun
            (exchanges s.events)
            (exchanges (create_transaction raft_group parent name uid gid mode kind s).1.events)
            (create_transaction raft_group parent name uid gid mode kind s).0
    unfolding create_transaction ask exchange exchanges
    create_transaction-CreateRun s = created-CreateRun s _ _ refl
