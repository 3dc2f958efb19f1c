-- ===== src/Coordinator/LinkLocks.antt =====
-- The locks of `rmdir_transaction` and `unlink_transaction` of
-- src/storage/message_handlers/transaction_coordinator.rs.
use fleetfs.Prelude.{
  ℕ, zero, suc, Bool, true, false, String, Option, none, some, List, [], ◌∷◌, ◌≡◌, refl, ap, ◌∙◌,
  if◌then◌else◌,
}
use fleetfs.Base.Outcome.{Outcome, ok, err, panic}
use fleetfs.Base.Types.{UserContext}
use fleetfs.Base.Request.{Request}
use fleetfs.Coordinator.{Cluster, Session, continue, catch, ◌>>=◌, same_lock}
use fleetfs.Coordinator.Calls.{FileOrDirAttrs, getattrs}
use fleetfs.Coordinator.Links.{
  propose_checked, unlock_and, remove_locked, remove_round, remove_loop, drop_links,
  check_hardlinks, rmdir_transaction, unlink_transaction, has_entries,
}
use fleetfs.Coordinator.Locks.{after, held, without, same_lock_refl}
use fleetfs.Coordinator.Answers.{
  is_panic, Ends, Now, ended, continue-Ends, if-Ends, matched-Ends, passed-Ends, failed-Ends,
  crashed-Ends,
}
use fleetfs.Coordinator.Kept.{
  Locked, lock_inode-Locked, propose-Ends, unlock_inode-Ends, remove_link-Ends, getattrs-Ends,
  lookup-Ends,
}
use fleetfs.Coordinator.RenameLocks.{Released}

-- One lock is held.
abbrev Holding : ℕ × ℕ → List (ℕ × ℕ) → List (ℕ × ℕ) → Type 0
Holding lock locks guard = locks ≡ lock ∷ []

without_if : (lock : ℕ × ℕ) (b : Bool) → b ≡ true → (if b then [] else lock ∷ []) ≡ []
without_if lock true e = refl
without_if lock false e = absurd (cc e)

without_one : (lock : ℕ × ℕ) (locks : List (ℕ × ℕ)) → locks ≡ lock ∷ [] → without lock locks ≡ []
unfolding without
without_one lock locks h =
    ap (without lock) h ∙ without_if lock (same_lock lock lock) (same_lock_refl lock)

module _ {C : Cluster} where
  propose_checked-Ends :
      (inode : ℕ) (count : ℕ) (s : Session C)
      → held s.events ≡ []
      → Ends Released (propose_checked inode (Request.decrement_inode inode count none) s)
  unfolding propose_checked after
  propose_checked-Ends inode count s h =
      continue-Ends Released _ _ (propose-Ends Released inode _ s (λ _. h)) λ a s1 h1.
        continue-Ends Released _ _ (ended Released _ s1 h1) λ _ s2 h2. ended Released _ s2 h2

  unlock_and-Ends :
      {A : Type 0} (inode lock_id : ℕ) (result : Outcome A) (s : Session C)
      → Now (Holding (inode, lock_id)) s
      → Ends Released (unlock_and inode lock_id result s)
  unfolding unlock_and
  unlock_and-Ends inode lock_id result s h =
      continue-Ends Released _ _
        (unlock_inode-Ends Released inode lock_id s (without_one (inode, lock_id) _ h))
        λ _ s' h'. ended Released _ s' h'

  remove_locked-Ends :
      (refused : FileOrDirAttrs → Bool) (parent : ℕ) (name : String) (context : UserContext)
      (inode lock_id : ℕ) (attrs : Outcome FileOrDirAttrs) (s : Session C)
      → Now (Holding (inode, lock_id)) s
      → Ends Released (remove_locked refused parent name context inode lock_id attrs s)
  unfolding remove_locked
  remove_locked-Ends refused parent name context inode lock_id (err e) s h =
      unlock_and-Ends inode lock_id _ s h
  remove_locked-Ends refused parent name context inode lock_id panic s h = record {
    ends = λ e. absurd (cc e);
  }
  remove_locked-Ends refused parent name context inode lock_id (ok attrs) s h =
      if-Ends Released (refused attrs) _ _ s (unlock_and-Ends inode lock_id _ s h) (
        matched-Ends (Holding (inode, lock_id)) Released _ _
          (remove_link-Ends (Holding (inode, lock_id)) parent name _ none context s h)
          λ removed s1 h1. unlock_and-Ends inode lock_id removed s1 h1)

  Locked-round-Ends :
      (refused : FileOrDirAttrs → Bool) (parent : ℕ) (name : String) (context : UserContext)
      (inode : ℕ) (s : Session C) (r : Outcome ℕ × Session C)
      → Locked inode s r
      → held s.events ≡ []
      → Ends Released (
          continue r (λ lock_id. catch (getattrs inode) >>= λ attrs.
          remove_locked refused parent name context inode lock_id attrs))
  Locked-round-Ends refused parent name context inode s r (Locked.took lock_id s' e g) h =
      passed-Ends Released lock_id s' _ (
        matched-Ends (Holding (inode, lock_id)) Released _ _
          (getattrs-Ends (Holding (inode, lock_id)) inode s' (e ∙ ap (λ l. (inode, lock_id) ∷ l) h))
          λ attrs s1 h1. remove_locked-Ends refused parent name context inode lock_id attrs s1 h1)
  Locked-round-Ends refused parent name context inode s r (Locked.refused code s' e g) h =
      failed-Ends Released code s' _ (e ∙ h)
  Locked-round-Ends refused parent name context inode s r (Locked.crashed s') h =
      crashed-Ends Released s' _

  pub remove_round-Ends :
      (refused : FileOrDirAttrs → Bool) (parent : ℕ) (name : String) (context : UserContext)
      (inode : ℕ) (s : Session C)
      → held s.events ≡ []
      → Ends Released (remove_round refused parent name context inode s)
  unfolding remove_round
  remove_round-Ends refused parent name context inode s h =
      Locked-round-Ends refused parent name context inode s _ (lock_inode-Locked inode s) h

  remove_loop-Ends :
      (rounds : ℕ) (refused : FileOrDirAttrs → Bool) (parent : ℕ) (name : String)
      (context : UserContext) (removed : ℕ × Bool) (s : Session C)
      → held s.events ≡ []
      → Ends Released (remove_loop rounds refused parent name context removed s)
  unfolding remove_loop
  remove_loop-Ends rounds refused parent name context (inode, true) s h = ended Released _ s h
  remove_loop-Ends zero refused parent name context (inode, false) s h = ended Released _ s h
  remove_loop-Ends (suc rounds) refused parent name context (inode, false) s h =
      continue-Ends Released _ _ (remove_round-Ends refused parent name context inode s h)
        λ removed s1 h1. remove_loop-Ends rounds refused parent name context removed s1 h1

  drop_links-Ends :
      (count : ℕ) (inode : Option ℕ) (s : Session C)
      → held s.events ≡ []
      → Ends Released (drop_links count inode s)
  unfolding drop_links
  drop_links-Ends count none s h = ended Released _ s h
  drop_links-Ends count (some inode) s h =
      continue-Ends Released _ _ (propose_checked-Ends inode count s h)
        λ _ s1 h1. ended Released _ s1 h1

  check_hardlinks-Ends :
      (inode : Option ℕ) (s : Session C)
      → held s.events ≡ []
      → Ends Released (check_hardlinks inode s)
  unfolding check_hardlinks
  check_hardlinks-Ends none s h = ended Released _ s h
  check_hardlinks-Ends (some inode) s h =
      continue-Ends Released _ _ (getattrs-Ends Released inode s h)
        λ _ s1 h1. ended Released _ s1 h1

  -- An `rmdir` that starts without a lock and returns, whatever the groups answer and after any number of
  -- rounds of its loop, has asked to release every lock that it took.
  pub rmdir_transaction-releases :
      (rounds parent : ℕ) (name : String) (context : UserContext) (s : Session C)
      → held s.events ≡ []
      → is_panic (rmdir_transaction rounds parent name context s).0 ≡ false
      → held (rmdir_transaction rounds parent name context s).1.events ≡ []
  unfolding rmdir_transaction
  rmdir_transaction-releases rounds parent name context s h returned =
      (continue-Ends Released _ _ (lookup-Ends Released parent name context s h) λ inode s1 h1.
          continue-Ends Released _ _
            (remove_loop-Ends rounds has_entries parent name context (inode, false) s1 h1)
            λ removed s2 h2.
              continue-Ends Released _ _ (check_hardlinks-Ends removed s2 h2)
                λ _ s3 h3. drop_links-Ends 2 removed s3 h3).ends
        returned

  -- An `unlink` that starts without a lock and returns, whatever the groups answer and after any number of
  -- rounds of its loop, has asked to release every lock that it took.
  pub unlink_transaction-releases :
      (rounds parent : ℕ) (name : String) (context : UserContext) (s : Session C)
      → held s.events ≡ []
      → is_panic (unlink_transaction rounds parent name context s).0 ≡ false
      → held (unlink_transaction rounds parent name context s).1.events ≡ []
  unfolding unlink_transaction
  unlink_transaction-releases rounds parent name context s h returned =
      (continue-Ends Released _ _ (remove_link-Ends Released parent name none none context s h)
          λ removed s1 h1.
            continue-Ends Released _ _
              (remove_loop-Ends rounds (λ _. false) parent name context removed s1 h1)
              λ inode s2 h2. drop_links-Ends 1 inode s2 h2).ends
        returned
