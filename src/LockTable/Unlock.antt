-- ===== src/LockTable/Unlock.antt =====
-- `unlock` hands out the queue up to the first lock request, which is granted, and keeps the rest.
use fleetfs.Prelude.{
  ℕ, suc, ◌+◌, ◌%◌, ◌^◌, ◌≡◌, ◌≢◌, refl, ap, subst, inl, inr, ◌∙◌, Bool, true, false, Option, none,
  some, List, [], ◌∷◌, ◌++◌, length, take, drop, All, arith, Bool-cases, ◌==◌, ==_iff,
  take-append-drop,
}
use mathlib.Core.List.{append-nil}
use fleetfs.Prelude.HashMap
use fleetfs.Prelude.HashMap.{HashMap}
use fleetfs.Base.Outcome.{ok, assert, unwrap, ◌>>=◌}
use fleetfs.Base.Outcome.Laws.{>>=-eq-ok, ok-injective, unwrap-eq-ok, assert-eq-ok}
use fleetfs.Base.Types.{Bytes}
use fleetfs.Base.Request.{Request}
use fleetfs.LockTable.{
  LockTable, PendingRequest, FileLockType, exclusive_metadata_write_concurrent_reads_allowed,
  waiting, or_empty, lock, scan, grant, release, unlock,
}
use fleetfs.LockTable.Scan.{IsLock, IsNoLock, Scanned, Decodes, scan-Scanned, scan_total}

take-length {ℓ} :
    {A : Type ℓ} (xs ys : List A) (x : A) → take (suc (length xs)) (xs ++ x ∷ ys) ≡ xs ++ x ∷ []
take-length [] ys x = refl
take-length (y ∷ xs) ys x = ap (λ l. y ∷ l) (take-length xs ys x)

take_all {ℓ} : {A : Type ℓ} (xs : List A) → take (length xs) xs ≡ xs
take_all [] = refl
take_all (x ∷ xs) = ap (λ l. x ∷ l) (take_all xs)

drop_all {ℓ} : {A : Type ℓ} (xs : List A) → drop (length xs) xs ≡ []
drop_all [] = refl
drop_all (x ∷ xs) = drop_all xs

pub i==i : (i : ℕ) → (i == i) ≡ true
i==i i = ground arith

-- What one table and the next agree on, away from one inode.
pub record SameElsewhere (i : ℕ) (t t' : LockTable) : Type 0 where
  pub queues : (j : ℕ) → j ≢ i → waiting t' j ≡ waiting t j
  pub locks : (j : ℕ) → j ≢ i → t'.lock_ids j ≡ t.lock_ids j

module _ (decode_request : Bytes → Option Request) where
  -- Who has the lock after an `unlock`: nobody, and then nobody waits, or the first lock request of
  -- the queue, under a fresh id, after every request that stood before it.
  abbrev pub Handover : ℕ → ℕ → LockTable → List PendingRequest → Option ℕ → Type 0
  Handover next i t' released none =
      All (IsNoLock decode_request) released
      × (t'.lock_ids i ≡ none)
      × (waiting t' i ≡ [])
      × (t'.next_id ≡ next)
  Handover next i t' released (some g) =
      (before : List PendingRequest) × (last : PendingRequest) × (released ≡ before ++ last ∷ [])
      × All (IsNoLock decode_request) before
      × IsLock decode_request last
      × (t'.lock_ids i ≡ some (g, exclusive_metadata_write_concurrent_reads_allowed))
      × (g ≡ next)
      × (t'.next_id ≡ (next + 1) % 2 ^ 64)

  pub record Released (t : LockTable) (i : ℕ) (r : LockTable × List PendingRequest × Option ℕ)
      : Type 0 where
    pub order : r.1 ++ waiting r.0 i ≡ waiting t i
    pub elsewhere : SameElsewhere i t r.0
    pub handover : Handover t.next_id i r.0 r.1 r.2

  module _ (t : LockTable) (i : ℕ) (free : t.lock_ids i ≡ none) where
    -- the state that `release` leaves, whoever has the lock in `t'`
    abbrev left : LockTable → List PendingRequest → LockTable
    left t' rest = record t' { pending_requests = HashMap.insert t'.pending_requests i rest }

    abbrev granted : LockTable
    granted = record t {
      lock_ids =
          HashMap.insert t.lock_ids i
            (t.next_id, exclusive_metadata_write_concurrent_reads_allowed);
      next_id = (t.next_id + 1) % 2 ^ 64;
    }

    drained_lem :
        (pending : List PendingRequest) (n : ℕ)
        → t.pending_requests i ≡ some pending
        → Scanned decode_request pending n false
        → Released t i (left t (drop n pending), take n pending, none)
    drained_lem pending n e (plain, count) = rw count (record {
      order = rw (i==i i, e, take_all pending, drop_all pending) (append-nil pending);
      elsewhere = record { queues = λ j ne. ground (arith); locks = λ j ne. refl };
      handover = (rw take_all plain, free, rw (i==i i) (drop_all pending), refl);
    })

    granted_lem :
        (pending : List PendingRequest) (n : ℕ)
        → t.pending_requests i ≡ some pending
        → Scanned decode_request pending n true
        → Released t i (left granted (drop n pending), take n pending, some t.next_id)
    granted_lem pending n e (before, x, after, split, plain, now, count) = rw count (record {
      order = rw (i==i i, e) (take-append-drop (suc (length before)) pending);
      elsewhere = record { queues = λ j ne. ground arith; locks = λ j ne. ground arith };
      handover =
          (before, x, rw (split, take-length before after x), plain, now, rw (i==i i), refl, refl);
    })

    grant-true : grant decode_request t i true ≡ ok (granted, some t.next_id)
    unfolding grant lock
    grant-true = rw free

    grant-false : grant decode_request t i false ≡ ok (t, none)
    unfolding grant
    grant-false = refl

    release_total :
        (p : Option (List PendingRequest))
        → All (Decodes decode_request) (or_empty p)
        → (r : LockTable × List PendingRequest × Option ℕ) × (release decode_request t i p ≡ ok r)
    unfolding release
    release_total none h = ((t, [], none), refl)
    release_total (some pending) h =
        let (q, e) = scan_total decode_request pending h in
        elim (Bool-cases q.1) [
          | inl found ↦ (
            (left granted (drop q.0 pending), take q.0 pending, some t.next_id),
            rw (e, found, grant-true),
          )
          | inr missing ↦
              ((left t (drop q.0 pending), take q.0 pending, none), rw (e, missing, grant-false))
        ]

    release_lem :
        (p : Option (List PendingRequest)) (r : LockTable × List PendingRequest × Option ℕ)
        → t.pending_requests i ≡ p
        → release decode_request t i p ≡ ok r
        → Released t i r
    unfolding release
    release_lem none r e h = subst (Released t i) (ok-injective h) (record {
      order = refl;
      elsewhere = record { queues = λ j ne. refl; locks = λ j ne. refl };
      handover = (tt, free, rw e, refl);
    })
    release_lem (some pending) r e h =
        let (q, scanned, rest) = >>=-eq-ok (scan decode_request pending) _ h in
        granting q (scan-Scanned decode_request pending q scanned) rest
      where
        granting :
            (q : ℕ × Bool)
            → Scanned decode_request pending q.0 q.1
            → (grant decode_request t i q.1 >>= λ g.
                ok (left g.0 (drop q.0 pending), take q.0 pending, g.1))
              ≡ ok r
            → Released t i r
        granting (n, true) sc h' =
            subst (Released t i) (ok-injective (rw grant-true at h')) (granted_lem pending n e sc)
        granting (n, false) sc h' =
            subst (Released t i) (ok-injective (rw grant-false at h')) (drained_lem pending n e sc)

  pub record Unlocked (t : LockTable) (i lock_id : ℕ)
      (r : LockTable × List PendingRequest × Option ℕ) : Type 0 where
    pub held : (kind : FileLockType) × (t.lock_ids i ≡ some (lock_id, kind))
    pub order : r.1 ++ waiting r.0 i ≡ waiting t i
    pub elsewhere : SameElsewhere i t r.0
    pub handover : Handover t.next_id i r.0 r.1 r.2

  removed : (t : LockTable) (i : ℕ) → HashMap.remove t.lock_ids i i ≡ none
  removed t i = rw (i==i i)

  -- A successful `unlock` was asked by the holder. The requests that it hands out are the front of
  -- the queue and what it keeps is the rest, in order. Either the queue has no lock request, then
  -- all of it is handed out and the inode is free; or it is handed out up to its first lock request,
  -- which stands last and has the lock under a fresh id. Other inodes are as before.
  pub unlock_lem :
      (t : LockTable) (i lock_id : ℕ) (r : LockTable × List PendingRequest × Option ℕ)
      → unlock decode_request t i lock_id ≡ ok r
      → Unlocked t i lock_id r
  unfolding unlock
  unlock_lem t i lock_id r h =
      let (q, e, rest) = >>=-eq-ok (unwrap (t.lock_ids i)) _ h in
      let (_, same, rest') = >>=-eq-ok (assert (q.0 == lock_id)) _ rest in
      let holder : q.0 ≡ lock_id = (==_iff q.0 lock_id).0 (assert-eq-ok (q.0 == lock_id) same) in
      let free : LockTable = record t { lock_ids = HashMap.remove t.lock_ids i } in
      let done = release_lem free i (removed t i) (t.pending_requests i) r refl rest' in
      record {
        held = (q.1, unwrap-eq-ok (t.lock_ids i) e ∙ ap (λ (k : ℕ). some (k, q.1)) holder);
        order = done.order;
        elsewhere = record {
          queues = done.elsewhere.queues;
          locks = λ j ne. done.elsewhere.locks j ne ∙ ground (arith, ne);
        };
        handover = done.handover;
      }

  -- The holder's `unlock` returns, if the requests that wait can be decoded.
  pub unlock_total :
      (t : LockTable) (i lock_id : ℕ) (kind : FileLockType)
      → t.lock_ids i ≡ some (lock_id, kind)
      → All (Decodes decode_request) (waiting t i)
      → (r : LockTable × List PendingRequest × Option ℕ) × (unlock decode_request t i lock_id
          ≡ ok r)
  unfolding unlock
  unlock_total t i lock_id kind held h =
      let free : LockTable = record t { lock_ids = HashMap.remove t.lock_ids i } in
      let (r, e) = release_total free i (removed t i) (t.pending_requests i) h in
      (r, rw (held, i==i lock_id) e)
