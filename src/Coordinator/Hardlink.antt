-- ===== src/Coordinator/Hardlink.antt =====
-- `hardlink_transaction` of src/storage/message_handlers/transaction_coordinator.rs and its rollback.
use fleetfs.Prelude.{ℕ, false, String, none, ◌∷◌, ◌≡◌, ◌≢◌, refl, ap, ◌∙◌}
use fleetfs.Base.Outcome.{ErrorCode, Outcome, ok, err, panic}
use fleetfs.Base.Types.{UserContext, EntryMetadata, Timestamp}
use fleetfs.Base.Request.{Request}
use fleetfs.Base.Response.{Response}
use fleetfs.Coordinator.{Cluster, Session, Action, continue, caught, lift, response_or_error, ◌>>=◌}
use fleetfs.Coordinator.Calls.{propose}
use fleetfs.Coordinator.Links.{
  as_hardlink, rollback_if_error, finish_hardlink, hardlink_transaction,
}
use fleetfs.Coordinator.Exchanges.{Exchanges, exchanges, is_refusal, ErrorOf}
use fleetfs.Coordinator.Answers.{Proposed, propose-Proposed}
use fleetfs.Coordinator.Rollback.{Undone, rollback-Undone, response_or_error-accepted}

module _ (inode new_parent : ℕ) (new_name : String) (context : UserContext) where
  abbrev increment : Request
  increment = Request.hardlink_increment inode

  abbrev linking : EntryMetadata → Request
  linking attrs = Request.create_link new_parent new_name inode attrs.kind none context

  abbrev undoing : Timestamp → Request
  undoing time = Request.hardlink_rollback inode time

  abbrev started : Timestamp → EntryMetadata → Outcome Response
  started time attrs = ok (Response.hardlink_transaction time attrs)

  -- The links of the inode were counted up, as the group answered.
  abbrev Counted : Exchanges → Timestamp → EntryMetadata → Exchanges
  Counted before time attrs = (increment, started time attrs) ∷ before

  -- How it may end, by the proposals made, the latest first, and their answers.
  pub data HardlinkRun (before now : Exchanges) : Outcome Response → Type 0 where
    not_started :
        (answer : Outcome Response) (e : ErrorCode)
        → ErrorOf e answer
        → now ≡ (increment, answer) ∷ before
        → HardlinkRun before now (err e)
    unexpected :
        (answer : Response)
        → is_refusal (ok answer) ≡ false
        → ((time : Timestamp) (attrs : EntryMetadata) → ok answer ≢ started time attrs)
        → now ≡ (increment, ok answer) ∷ before
        → HardlinkRun before now (err ErrorCode.bad_response)
    linked :
        (time : Timestamp) (attrs : EntryMetadata) (answer : Response)
        → is_refusal (ok answer) ≡ false
        → now ≡ (linking attrs, ok answer) ∷ Counted before time attrs
        → HardlinkRun before now (ok (Response.entry_metadata attrs))
    undone :
        (time : Timestamp) (attrs : EntryMetadata) (refusal : Outcome Response) (answer : Response)
        (e : ErrorCode)
        → ErrorOf e refusal
        → is_refusal (ok answer) ≡ false
        → now ≡ (undoing time, ok answer) ∷ (linking attrs, refusal) ∷ Counted before time attrs
        → HardlinkRun before now (err e)
    left_over :
        (time : Timestamp) (attrs : EntryMetadata) (refusal failure : Outcome Response)
        (e e' : ErrorCode)
        → ErrorOf e refusal
        → ErrorOf e' failure
        → now ≡ (undoing time, failure) ∷ (linking attrs, refusal) ∷ Counted before time attrs
        → HardlinkRun before now (err e')
    count_crashed : now ≡ (increment, panic) ∷ before → HardlinkRun before now panic
    link_crashed :
        (time : Timestamp) (attrs : EntryMetadata)
        → now ≡ (linking attrs, panic) ∷ Counted before time attrs
        → HardlinkRun before now panic
    rollback_crashed :
        (time : Timestamp) (attrs : EntryMetadata) (refusal : Outcome Response) (e : ErrorCode)
        → ErrorOf e refusal
        → now ≡ (undoing time, panic) ∷ (linking attrs, refusal) ∷ Counted before time attrs
        → HardlinkRun before now panic

  module _ {C : Cluster} where
    abbrev Started : Session C → Session C → Timestamp → EntryMetadata → Type 0
    Started s s' time attrs = exchanges s'.events ≡ Counted (exchanges s.events) time attrs

    Undone-HardlinkRun :
        (s s1 s2 : Session C) (time : Timestamp) (attrs : EntryMetadata)
        (refusal : Outcome Response) (e : ErrorCode) (r : Outcome Response × Session C)
        → Started s s1 time attrs
        → ErrorOf e refusal
        → exchanges s2.events ≡ (linking attrs, refusal) ∷ exchanges s1.events
        → Undone (undoing time) e s2 r
        → HardlinkRun (exchanges s.events) (exchanges r.1.events) r.0
    Undone-HardlinkRun s s1 s2 time attrs refusal e r m h k (Undone.undone answer s' accepted u) =
        HardlinkRun.undone time attrs refusal answer e h accepted (
          u
          ∙ ap (λ x. (undoing time, ok answer) ∷ x) (k ∙ ap (λ x. (linking attrs, refusal) ∷ x) m))
    Undone-HardlinkRun s s1 s2 time attrs refusal e r m h k (Undone.left_over failure e' s' f u) =
        HardlinkRun.left_over time attrs refusal failure e e' h f
          (u ∙ ap (λ x. (undoing time, failure) ∷ x) (k ∙ ap (λ x. (linking attrs, refusal) ∷ x) m))
    Undone-HardlinkRun s s1 s2 time attrs refusal e r m h k (Undone.crashed s' u) =
        HardlinkRun.rollback_crashed time attrs refusal e h
          (u ∙ ap (λ x. (undoing time, panic) ∷ x) (k ∙ ap (λ x. (linking attrs, refusal) ∷ x) m))

    -- An accepted link is not rolled back.
    accepted-HardlinkRun :
        (s s1 s2 : Session C) (time : Timestamp) (attrs : EntryMetadata) (a : Response)
        (x : Outcome Response)
        → Started s s1 time attrs
        → is_refusal (ok a) ≡ false
        → exchanges s2.events ≡ (linking attrs, ok a) ∷ exchanges s1.events
        → x ≡ ok a
        → HardlinkRun
            (exchanges s.events)
            (exchanges
              (continue
                (rollback_if_error inode (undoing time) x s2)
                (λ _. lift (ok (Response.entry_metadata attrs)))).1.events)
            (continue
              (rollback_if_error inode (undoing time) x s2)
              (λ _. lift (ok (Response.entry_metadata attrs)))).0
    unfolding continue rollback_if_error
    accepted-HardlinkRun s s1 s2 time attrs a (ok b) m h k e =
        HardlinkRun.linked time attrs a h (k ∙ ap (λ x. (linking attrs, ok a) ∷ x) m)
    accepted-HardlinkRun s s1 s2 time attrs a (err b) m h k e = absurd (cc e)
    accepted-HardlinkRun s s1 s2 time attrs a panic m h k e = absurd (cc e)

    linked-HardlinkRun :
        (s s1 : Session C) (time : Timestamp) (attrs : EntryMetadata)
        (r : Outcome Response × Session C)
        → Started s s1 time attrs
        → Proposed (linking attrs) s1 r
        → HardlinkRun
            (exchanges s.events)
            (exchanges (continue (caught r) (λ x. finish_hardlink inode (time, attrs) x)).1.events)
            (continue (caught r) (λ x. finish_hardlink inode (time, attrs) x)).0
    unfolding continue caught finish_hardlink
    linked-HardlinkRun s s1 time attrs r m (Proposed.accepted a s' _ _ k h) =
        accepted-HardlinkRun s s1 s' time attrs a _ m h k (response_or_error-accepted a h)
    linked-HardlinkRun s s1 time attrs r m (Proposed.refused e answer s' _ _ _ k _ h) =
        Undone-HardlinkRun s s1 s' time attrs answer e _ m h k (rollback-Undone inode _ e s')
    linked-HardlinkRun s s1 time attrs r m (Proposed.crashed s' k) =
        HardlinkRun.link_crashed time attrs (k ∙ ap (λ x. (linking attrs, panic) ∷ x) m)

    -- What follows the count.
    abbrev after_count : Response → Action C Response
    after_count response_data = lift (response_or_error response_data) >>= λ response.
        lift (as_hardlink response) >>= λ begun.
        (λ s. caught (propose new_parent (linking begun.1) s)) >>= λ linked.
        finish_hardlink inode begun linked

    counted-HardlinkRun :
        (s s1 : Session C) (a : Response)
        → exchanges s1.events ≡ (increment, ok a) ∷ exchanges s.events
        → HardlinkRun
            (exchanges s.events)
            (exchanges (after_count a s1).1.events)
            (after_count a s1).0
    unfolding continue response_or_error is_refusal
    counted-HardlinkRun s s1 (Response.hardlink_transaction time attrs) h =
        linked-HardlinkRun s s1 time attrs _ h (propose-Proposed new_parent (linking attrs) s1)
    counted-HardlinkRun s s1 (Response.lock x) h = HardlinkRun.unexpected _ refl (λ _ _ e. cc e) h
    counted-HardlinkRun s s1 (Response.filesystem_information x y) h =
        HardlinkRun.unexpected _ refl (λ _ _ e. cc e) h
    counted-HardlinkRun s s1 (Response.node_id x) h =
        HardlinkRun.unexpected _ refl (λ _ _ e. cc e) h
    counted-HardlinkRun s s1 (Response.inode x) h = HardlinkRun.unexpected _ refl (λ _ _ e. cc e) h
    counted-HardlinkRun s s1 (Response.removed_inode x y) h =
        HardlinkRun.unexpected _ refl (λ _ _ e. cc e) h
    counted-HardlinkRun s s1 (Response.written x) h =
        HardlinkRun.unexpected _ refl (λ _ _ e. cc e) h
    counted-HardlinkRun s s1 (Response.xattrs x) h = HardlinkRun.unexpected _ refl (λ _ _ e. cc e) h
    counted-HardlinkRun s s1 (Response.read x) h = HardlinkRun.unexpected _ refl (λ _ _ e. cc e) h
    counted-HardlinkRun s s1 (Response.latest_commit x y) h =
        HardlinkRun.unexpected _ refl (λ _ _ e. cc e) h
    counted-HardlinkRun s s1 (Response.directory_listing x) h =
        HardlinkRun.unexpected _ refl (λ _ _ e. cc e) h
    counted-HardlinkRun s s1 Response.empty h = HardlinkRun.unexpected _ refl (λ _ _ e. cc e) h
    counted-HardlinkRun s s1 (Response.checksums x) h =
        HardlinkRun.unexpected _ refl (λ _ _ e. cc e) h
    counted-HardlinkRun s s1 (Response.entry_metadata x) h =
        HardlinkRun.unexpected _ refl (λ _ _ e. cc e) h
    counted-HardlinkRun s s1 (Response.error_occurred x) h =
        HardlinkRun.not_started _ x (ErrorOf.answered_error x) h

    started-HardlinkRun :
        (s : Session C) (r : Outcome Response × Session C)
        → Proposed increment s r
        → HardlinkRun
            (exchanges s.events)
            (exchanges (continue r after_count).1.events)
            (continue r after_count).0
    unfolding continue
    started-HardlinkRun s r (Proposed.accepted a s' _ _ k h) = counted-HardlinkRun s s' a k
    started-HardlinkRun s r (Proposed.refused e answer s' _ _ _ k _ h) =
        HardlinkRun.not_started answer e h k
    started-HardlinkRun s r (Proposed.crashed s' k) = HardlinkRun.count_crashed k

    -- Every run of `hardlink_transaction`, whatever the groups answer, is one of these. The count of the
    -- links is answered with an error, or the call fails, so that it is not known whether they were
    -- counted up: that error is returned, or only that there was one. The answer is no error and not what
    -- a count answers either: a bad response is reported and nothing is undone. Or the links are counted
    -- up and the new link is accepted: the attributes that the count answered are returned. Or the new
    -- link is refused, or its call fails: then a rollback with the time that the count answered is
    -- proposed; if that is accepted, the error of the link is returned; if it is refused or its call
    -- fails, which may leave the count up, the error of that proposal is returned instead. A panic comes
    -- only of a call that panics.
    pub hardlink_transaction-HardlinkRun :
        (s : Session C)
        → HardlinkRun
            (exchanges s.events)
            (exchanges (hardlink_transaction inode new_parent new_name context s).1.events)
            (hardlink_transaction inode new_parent new_name context s).0
    unfolding hardlink_transaction
    hardlink_transaction-HardlinkRun s =
        started-HardlinkRun s _ (propose-Proposed inode increment s)
