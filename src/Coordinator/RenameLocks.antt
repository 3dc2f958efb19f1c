-- ===== src/Coordinator/RenameLocks.antt =====
-- The locks of `rename_transaction` of src/storage/message_handlers/transaction_coordinator.rs.
use fleetfs.Prelude.{
  ℕ, ◌==◌, false, String, Option, none, some, List, [], ◌∷◌, ◌≡◌, refl, subst, sym,
}
use fleetfs.Base.Outcome.{Outcome, ok}
use fleetfs.Base.Types.{FileKind, UserContext, is_directory}
use fleetfs.Coordinator.{
  holds_lock, Cluster, Session, Action, continue, lift, ◌>>=◌, remember, forget_locks, locks_taken,
  insert_lock,
}
use fleetfs.Coordinator.Calls.{FileOrDirAttrs, getattrs}
use fleetfs.Coordinator.Rename.{
  lock_guarded, if_present, drop_replaced, put_link, rename_transaction_lock_context, unlock_all,
  rename_transaction,
}
use fleetfs.Coordinator.Locks.{
  after, held, without_all, Covered, Covered-insert_lock, Covered-released,
}
use fleetfs.Coordinator.Answers.{
  is_panic, moved, Ends, Now, ended, continue-Ends, if-Ends, matched-Ends, expected-Ends,
  passed-Ends,
}
use fleetfs.Coordinator.Kept.{
  Locked, lock_inode-Locked, propose-Ends, unlock_inode-Ends, replace_link-Ends, remove_link-Ends,
  update_parent-Ends, update_metadata_changed_time-Ends, decrement_inode-Ends, getattrs-Ends,
  lookup-Ends,
}

-- No lock is held.
abbrev pub Released : List (ℕ × ℕ) → List (ℕ × ℕ) → Type 0
Released locks guard = locks ≡ []

module _ {C : Cluster} where
  guarded-Ends :
      (inode : ℕ) (s : Session C) (r : Outcome ℕ × Session C)
      → Locked inode s r
      → Now Covered s
      → Ends Covered (continue r (λ lock_id. remember (inode, lock_id) >>= λ _. lift (ok lock_id)))
  unfolding continue remember
  guarded-Ends inode s r (Locked.took lock_id s' e g) h = ended Covered _ _ (
      moved Covered e refl (
        subst (λ x. Covered ((inode, lock_id) ∷ held s.events) (insert_lock (inode, lock_id) x))
          (sym g) (Covered-insert_lock (inode, lock_id) _ _ h)))
  guarded-Ends inode s r (Locked.refused code s' e g) h = ended Covered _ s' (moved Covered e g h)
  guarded-Ends inode s r (Locked.crashed s') h = record { ends = λ e. absurd (cc e) }

  lock_guarded-Ends :
      (inode : ℕ) (s : Session C) → Now Covered s → Ends Covered (lock_guarded inode s)
  unfolding lock_guarded
  lock_guarded-Ends inode s h = guarded-Ends inode s _ (lock_inode-Locked inode s) h

  module _ (I : List (ℕ × ℕ) → List (ℕ × ℕ) → Type 0) where
    if_present-Ends :
        {A : Type 0} (action : ℕ → Action C A) (inode : Option ℕ) (s : Session C)
        → ((i : ℕ) (s : Session C) → Now I s → Ends I (action i s))
        → Now I s
        → Ends I (if_present action inode s)
    unfolding if_present
    if_present-Ends action none s k h = ended I _ s h
    if_present-Ends action (some inode) s k h =
        continue-Ends I _ _ (k inode s h) λ a s' h'. ended I _ s' h'

    drop_replaced-Ends :
        (inode : ℕ) (lock_id : Option ℕ) (attrs : FileOrDirAttrs) (s : Session C)
        → Now I s
        → Ends I (drop_replaced inode lock_id attrs s)
    unfolding drop_replaced
    drop_replaced-Ends inode lock_id attrs s h =
        if-Ends I (is_directory attrs.kind) _ _ s
          (continue-Ends I _ _ (ended I _ s h)
            λ _ s' h'. decrement_inode-Ends I inode 2 lock_id s' h')
          (decrement_inode-Ends I inode 1 lock_id s h)

    put_link-Ends :
        (new_parent : ℕ) (new_name : String) (inode : ℕ) (kind : FileKind) (lock : ℕ)
        (context : UserContext) (found : Option ℕ) (lock_id : Option ℕ)
        (attrs : Option FileOrDirAttrs) (s : Session C)
        → Now I s
        → Ends I (put_link new_parent new_name inode kind lock context found lock_id attrs s)
    unfolding put_link after
    put_link-Ends new_parent new_name inode kind lock context none lock_id attrs s h =
        continue-Ends I _ _ (propose-Ends I new_parent _ s (λ _. h))
          λ a s1 h1. continue-Ends I _ _ (ended I _ s1 h1) λ _ s2 h2. ended I _ s2 h2
    put_link-Ends new_parent new_name inode kind lock context (some i) lock_id attrs s h =
        continue-Ends I _ _ (replace_link-Ends I new_parent new_name inode kind lock context s h)
          λ old s1 h1. continue-Ends I _ _ (ended I _ s1 h1) λ _ s2 h2.
            continue-Ends I _ _ (ended I _ s2 h2) λ a s3 h3. drop_replaced-Ends old lock_id a s3 h3

    unlock_all-Ends :
        (released : List (ℕ × ℕ)) (s : Session C)
        → I (without_all released (held s.events)) s.lock_guard
        → Ends I (unlock_all released s)
    unfolding unlock_all without_all
    unlock_all-Ends [] s h = ended I _ s h
    unlock_all-Ends ((inode, lock_id) ∷ released) s h =
        let J : List (ℕ × ℕ) → List (ℕ × ℕ) → Type 0 = λ o g. I (without_all released o) g in
        matched-Ends J I _ _ (unlock_inode-Ends J inode lock_id s h)
          λ a s1 h1. expected-Ends J I a s1 _ h1 λ _ s2 h2. unlock_all-Ends released s2 h2

  rename_transaction_lock_context-Ends :
      (parent : ℕ) (name : String) (new_parent : ℕ) (new_name : String) (context : UserContext)
      (s : Session C)
      → Now Covered s
      → Ends Covered (rename_transaction_lock_context parent name new_parent new_name context s)
  unfolding rename_transaction_lock_context
  rename_transaction_lock_context-Ends parent name new_parent new_name context s h =
      continue-Ends Covered _ _ (lock_guarded-Ends parent s h) λ pl s1 h1.
        continue-Ends Covered _ _
          (if-Ends Covered (parent == new_parent) _ _ s1 (ended Covered _ s1 h1)
            (lock_guarded-Ends new_parent s1 h1))
          λ npl s2 h2.
            continue-Ends Covered _ _ (lookup-Ends Covered parent name context s2 h2) λ i s3 h3.
              continue-Ends Covered _ _ (lock_guarded-Ends i s3 h3) λ il s4 h4.
                matched-Ends Covered Covered _ _
                  (lookup-Ends Covered new_parent new_name context s4 h4)
                  λ found s5 h5. continue-Ends Covered _ _ (ended Covered _ s5 h5) λ dest s6 h6.
                    continue-Ends Covered _ _
                      (if_present-Ends Covered lock_guarded dest s6 lock_guarded-Ends h6)
                      λ dl s7 h7.
                        continue-Ends Covered _ _ (getattrs-Ends Covered parent s7 h7) λ pa s8 h8.
                          continue-Ends Covered _ _ (getattrs-Ends Covered new_parent s8 h8)
                            λ npa s9 h9.
                              continue-Ends Covered _ _ (getattrs-Ends Covered i s9 h9)
                                λ ia s10 h10.
                                  continue-Ends Covered _ _
                                    (if_present-Ends Covered getattrs dest s10
                                      (getattrs-Ends Covered) h10)
                                    λ da s11 h11.
                                      continue-Ends Covered _ _ (ended Covered _ s11 h11)
                                        λ _ s12 h12.
                                          continue-Ends Covered _ _
                                            (put_link-Ends Covered new_parent new_name i ia.kind npl
                                              context dest dl da s12 h12)
                                            λ _ s13 h13.
                                              continue-Ends Covered _ _
                                                (remove_link-Ends Covered parent name _ (some pl)
                                                  context s13 h13)
                                                λ _ s14 h14.
                                                  continue-Ends Covered _ _
                                                    (if-Ends Covered (is_directory ia.kind) _ _ s14
                                                      (update_parent-Ends Covered i new_parent
                                                        (some il) s14 h14)
                                                      (ended Covered _ s14 h14))
                                                    λ _ s15 h15.
                                                      continue-Ends Covered _ _
                                                        (update_metadata_changed_time-Ends Covered i
                                                          (some il) s15 h15)
                                                        λ _ s16 h16. ended Covered _ s16 h16

  rename_transaction-Ends :
      (drain : List (ℕ × ℕ) → List (ℕ × ℕ)) (parent : ℕ) (name : String) (new_parent : ℕ)
      (new_name : String) (context : UserContext) (s : Session C)
      → ((locks : List (ℕ × ℕ)) → Covered locks (drain locks))
      → held s.events ≡ []
      → Ends Released (rename_transaction drain parent name new_parent new_name context s)
  unfolding rename_transaction forget_locks locks_taken holds_lock
  rename_transaction-Ends drain parent name new_parent new_name context s complete h =
      passed-Ends Released tt _ _ (
        matched-Ends Covered Released _ _
          (rename_transaction_lock_context-Ends parent name new_parent new_name context _
            (record { covered = λ p e. absurd (cc (e, h)) }))
          λ result s1 h1. passed-Ends Released s1.lock_guard s1 _ (
            continue-Ends Released _ _
              (unlock_all-Ends Released (drain s1.lock_guard) s1
                (Covered-released _ _ _ h1 (complete s1.lock_guard)))
              λ _ s2 h2. ended Released _ s2 h2))

  -- A rename that starts without a lock and returns, with success or with any error, at any of its steps
  -- and whatever the groups answer, has asked to release every lock that it took. The set of locks may be
  -- drained in any order that has all of them.
  pub rename_transaction-releases :
      (drain : List (ℕ × ℕ) → List (ℕ × ℕ)) (parent : ℕ) (name : String) (new_parent : ℕ)
      (new_name : String) (context : UserContext) (s : Session C)
      → ((locks : List (ℕ × ℕ)) → Covered locks (drain locks))
      → held s.events ≡ []
      → is_panic (rename_transaction drain parent name new_parent new_name context s).0 ≡ false
      → held (rename_transaction drain parent name new_parent new_name context s).1.events ≡ []
  rename_transaction-releases drain parent name new_parent new_name context s complete h returned =
      (rename_transaction-Ends drain parent name new_parent new_name context s complete h).ends
        returned
