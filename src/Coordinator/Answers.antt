-- ===== src/Coordinator/Answers.antt =====
-- What a proposal of src/storage/message_handlers/transaction_coordinator.rs may come back with, for any
-- answers of the groups, and the rules for what holds when a sequence of calls has returned.
use fleetfs.Prelude.{ℕ, Bool, true, false, if◌then◌else◌, List, ◌∷◌, ◌≡◌, refl, subst, sym}
use fleetfs.Base.Outcome.{ErrorCode, Outcome, ok, err, panic}
use fleetfs.Base.Request.{Request}
use fleetfs.Base.Response.{Response}
use fleetfs.Coordinator.{
  Cluster, Call, Session, Action, continue, caught, lift, expect, ask, hide_error,
  response_or_error,
}
use fleetfs.Coordinator.Calls.{propose}
use fleetfs.Coordinator.Exchanges.{exchanges, is_refusal, ErrorOf}
use fleetfs.Coordinator.Locks.{after, after_call, held}

abbrev pub is_panic : {A : Type 0} → Outcome A → Bool
is_panic (ok a) = false
is_panic (err e) = false
is_panic panic = true

pub moved :
    (I : List (ℕ × ℕ) → List (ℕ × ℕ) → Type 0) {locks locks' guard guard' : List (ℕ × ℕ)}
    → locks' ≡ locks
    → guard' ≡ guard
    → I locks guard
    → I locks' guard'
moved I {locks = locks} {guard' = guard'} e g h =
    subst (λ x. I x guard') (sym e) (subst (I locks) (sym g) h)

module _ {C : Cluster} where
  -- Unless it panicked, the locks held and the locks guarded satisfy `I`.
  pub record Ends (I : List (ℕ × ℕ) → List (ℕ × ℕ) → Type 0) {A : Type 0}
      (r : Outcome A × Session C) : Type 0 where
    pub ends : is_panic r.0 ≡ false → I (held r.1.events) r.1.lock_guard

  -- The calls so far hold, and guard, locks that satisfy `I`.
  abbrev pub Now : (List (ℕ × ℕ) → List (ℕ × ℕ) → Type 0) → Session C → Type 0
  Now I s = I (held s.events) s.lock_guard

  pub data Proposed (q : Request) (s : Session C) : Outcome Response × Session C → Type 0 where
    accepted :
        (a : Response) (s' : Session C)
        → held s'.events ≡ after q (ok a) (held s.events)
        → s'.lock_guard ≡ s.lock_guard
        → exchanges s'.events ≡ (q, ok a) ∷ exchanges s.events
        → is_refusal (ok a) ≡ false
        → Proposed q s (ok a, s')
    refused :
        (e : ErrorCode) (answer : Outcome Response) (s' : Session C)
        → ((inode : ℕ) (locks : List (ℕ × ℕ)) → after (Request.lock inode) answer locks ≡ locks)
        → held s'.events ≡ after q answer (held s.events)
        → s'.lock_guard ≡ s.lock_guard
        → exchanges s'.events ≡ (q, answer) ∷ exchanges s.events
        → is_refusal answer ≡ true
        → ErrorOf e answer
        → Proposed q s (err e, s')
    crashed :
        (s' : Session C)
        → exchanges s'.events ≡ (q, panic) ∷ exchanges s.events
        → Proposed q s (panic, s')

  module _ (I : List (ℕ × ℕ) → List (ℕ × ℕ) → Type 0) where
    pub ended : {A : Type 0} (r : Outcome A) (s : Session C) → Now I s → Ends I (r, s)
    ended r s h = record { ends = λ _. h }

    -- After a step that cannot fail.
    pub passed-Ends :
        {A B : Type 0} (a : A) (s : Session C) (next : A → Action C B)
        → Ends I (next a s)
        → Ends I (continue (ok a, s) next)
    unfolding continue
    passed-Ends a s next h = h

    pub failed-Ends :
        {A B : Type 0} (e : ErrorCode) (s : Session C) (next : A → Action C B)
        → Now I s
        → Ends I (continue (err e, s) next)
    unfolding continue
    failed-Ends e s next h = record { ends = λ _. h }

    pub crashed-Ends :
        {A B : Type 0} (s : Session C) (next : A → Action C B) → Ends I (continue (panic, s) next)
    unfolding continue
    crashed-Ends s next = record { ends = λ e. absurd (cc e) }

    pub continue-Ends :
        {A B : Type 0} (r : Outcome A × Session C) (next : A → Action C B)
        → Ends I r
        → ((a : A) (s : Session C) → Now I s → Ends I (next a s))
        → Ends I (continue r next)
    unfolding continue
    continue-Ends (ok a, s) next h k = k a s (h.ends refl)
    continue-Ends (err e, s) next h k = record { ends = λ _. h.ends refl }
    continue-Ends (panic, s) next h k = record { ends = λ e. absurd (cc e) }

    pub caught-Ends : {A : Type 0} (r : Outcome A × Session C) → Ends I r → Ends I (caught r)
    unfolding caught
    caught-Ends (ok a, s) h = record { ends = λ _. h.ends refl }
    caught-Ends (err e, s) h = record { ends = λ _. h.ends refl }
    caught-Ends (panic, s) h = record { ends = λ e. absurd (cc e) }

    pub expect-Ends : {A : Type 0} (r : Outcome A) (s : Session C) → Now I s → Ends I (expect r s)
    expect-Ends (ok a) s h = record { ends = λ _. h }
    expect-Ends (err e) s h = record { ends = λ _. h }
    expect-Ends panic s h = record { ends = λ _. h }

    pub if-Ends :
        {A : Type 0} (b : Bool) (m n : Action C A) (s : Session C)
        → Ends I (m s)
        → Ends I (n s)
        → Ends I ((if b then m else n) s)
    if-Ends true m n s h k = h
    if-Ends false m n s h k = k

    pub Proposed-Ends :
        (q : Request) (s : Session C) (r : Outcome Response × Session C)
        → Proposed q s r
        → ((answer : Outcome Response) → I (after q answer (held s.events)) s.lock_guard)
        → Ends I r
    Proposed-Ends q s r (Proposed.accepted a s' e g _ _) h =
        ended (ok a) s' (moved I e g (h (ok a)))
    Proposed-Ends q s r (Proposed.refused e answer s' _ l g _ _ _) h =
        ended (err e) s' (moved I l g (h answer))
    Proposed-Ends q s r (Proposed.crashed s' _) h = record { ends = λ e. absurd (cc e) }

    pub ask-Ends :
        (call : Call) (s : Session C)
        → ((answer : Outcome Response) → I (after_call call answer (held s.events)) s.lock_guard)
        → Ends I (ask call s)
    unfolding ask held
    ask-Ends call s h = record { ends = λ _. h _ }

  -- After a result that is matched on, or expected, there is no error to return.
  module _ (I J : List (ℕ × ℕ) → List (ℕ × ℕ) → Type 0) where
    pub matched-Ends :
        {A B : Type 0} (r : Outcome A × Session C) (next : Outcome A → Action C B)
        → Ends I r
        → ((a : Outcome A) (s : Session C) → Now I s → Ends J (next a s))
        → Ends J (continue (caught r) next)
    unfolding continue caught
    matched-Ends (ok a, s) next h k = k (ok a) s (h.ends refl)
    matched-Ends (err e, s) next h k = k (err e) s (h.ends refl)
    matched-Ends (panic, s) next h k = record { ends = λ e. absurd (cc e) }

    pub expected-Ends :
        {A B : Type 0} (r : Outcome A) (s : Session C) (next : A → Action C B)
        → Now I s
        → ((a : A) (s : Session C) → Now I s → Ends J (next a s))
        → Ends J (continue (expect r s) next)
    unfolding continue
    expected-Ends (ok a) s next h k = k a s h
    expected-Ends (err e) s next h k = record { ends = λ e. absurd (cc e) }
    expected-Ends panic s next h k = record { ends = λ e. absurd (cc e) }

  checked-Proposed :
      (q : Request) (s : Session C) (a : Response) (s' : Session C)
      → held s'.events ≡ after q (ok a) (held s.events)
      → s'.lock_guard ≡ s.lock_guard
      → exchanges s'.events ≡ (q, ok a) ∷ exchanges s.events
      → Proposed q s (response_or_error a, s')
  unfolding response_or_error after is_refusal
  checked-Proposed q s (Response.lock x) s' e g k = Proposed.accepted _ s' e g k refl
  checked-Proposed q s (Response.filesystem_information x y) s' e g k =
      Proposed.accepted _ s' e g k refl
  checked-Proposed q s (Response.node_id x) s' e g k = Proposed.accepted _ s' e g k refl
  checked-Proposed q s (Response.inode x) s' e g k = Proposed.accepted _ s' e g k refl
  checked-Proposed q s (Response.removed_inode x y) s' e g k = Proposed.accepted _ s' e g k refl
  checked-Proposed q s (Response.written x) s' e g k = Proposed.accepted _ s' e g k refl
  checked-Proposed q s (Response.xattrs x) s' e g k = Proposed.accepted _ s' e g k refl
  checked-Proposed q s (Response.read x) s' e g k = Proposed.accepted _ s' e g k refl
  checked-Proposed q s (Response.latest_commit x y) s' e g k = Proposed.accepted _ s' e g k refl
  checked-Proposed q s (Response.directory_listing x) s' e g k = Proposed.accepted _ s' e g k refl
  checked-Proposed q s (Response.entry_metadata x) s' e g k = Proposed.accepted _ s' e g k refl
  checked-Proposed q s (Response.hardlink_transaction x y) s' e g k =
      Proposed.accepted _ s' e g k refl
  checked-Proposed q s Response.empty s' e g k = Proposed.accepted _ s' e g k refl
  checked-Proposed q s (Response.checksums x) s' e g k = Proposed.accepted _ s' e g k refl
  checked-Proposed q s (Response.error_occurred code) s' e g k =
      Proposed.refused code (ok (Response.error_occurred code)) s' (λ _ _. refl) e g k refl
        (ErrorOf.answered_error code)

  local_answer :
      (q : Request) (s : Session C) (answer : Outcome Response) (s' : Session C)
      → held s'.events ≡ after q answer (held s.events)
      → s'.lock_guard ≡ s.lock_guard
      → exchanges s'.events ≡ (q, answer) ∷ exchanges s.events
      → Proposed q s (continue (answer, s') (λ a. lift (response_or_error a)))
  unfolding continue after is_refusal
  local_answer q s (ok a) s' e g k = checked-Proposed q s a s' e g k
  local_answer q s (err code) s' e g k =
      Proposed.refused code (err code) s' (λ _ _. refl) e g k refl (ErrorOf.local_failure code)
  local_answer q s panic s' e g k = Proposed.crashed s' k

  remote_answer :
      (q : Request) (s : Session C) (answer : Outcome Response) (s' : Session C)
      → held s'.events ≡ after q answer (held s.events)
      → s'.lock_guard ≡ s.lock_guard
      → exchanges s'.events ≡ (q, answer) ∷ exchanges s.events
      → Proposed q s (
          continue
            (continue (caught (answer, s')) (λ a. lift (hide_error a)))
            (λ a. lift (response_or_error a)))
  unfolding continue caught after is_refusal
  remote_answer q s (ok a) s' e g k = checked-Proposed q s a s' e g k
  remote_answer q s (err code) s' e g k =
      Proposed.refused _ (err code) s' (λ _ _. refl) e g k refl (ErrorOf.remote_failure code)
  remote_answer q s panic s' e g k = Proposed.crashed s' k

  if-Proposed :
      (q : Request) (s : Session C) (b : Bool) (m n : Action C Response)
      → Proposed q s (m s)
      → Proposed q s (n s)
      → Proposed q s ((if b then m else n) s)
  if-Proposed q s true m n h k = h
  if-Proposed q s false m n h k = k

  pub propose-Proposed :
      (inode : ℕ) (q : Request) (s : Session C) → Proposed q s (propose inode q s)
  unfolding propose ask held after_call exchanges
  propose-Proposed inode q s =
      if-Proposed q s (C.inode_stored_locally inode) _ _ (local_answer q s _ _ refl refl refl)
        (remote_answer q s _ _ refl refl refl)
