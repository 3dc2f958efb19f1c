-- ===== src/Consensus/Process.antt =====
-- The lock table across one command.
use fleetfs.Prelude.{
  ℕ, ◌≡◌, refl, ◌∙◌, ap, subst, false, Option, none, some, is_some, [], ◌∷◌, ◌++◌, arith, inl, inr,
  ◌⊎◌, Bool-cases,
}
use fleetfs.Base.Outcome.{ok, assert, unwrap}
use fleetfs.Base.Outcome.Laws.{>>=-eq-ok, ok-injective}
use fleetfs.Base.Types.{Bytes}
use fleetfs.Base.Request.{Request, RequestMetaInfo, meta_info, AccessType, no_access}
use fleetfs.LockTable.{
  LockTable, FileLockType, PendingRequest, waiting, is_locked, locked_by, lock, wait_for_lock,
  unlock,
}
use fleetfs.LockTable.Unlock.{unlock_lem, i==i}
use fleetfs.LockTable.Invariant.{
  IsWellFormed, HasRoom, lock-IsWellFormed, wait_for_lock-IsWellFormed, unlock-IsWellFormed,
}
use fleetfs.Consensus.{Processed, admit, queue_or_admit, hand_over, process_lock_table}

module _ (decode_request : Bytes → Option Request) (t : LockTable) (w : IsWellFormed t)
    (room : HasRoom t) where
  admit-IsWellFormed :
      (request : Request) (bytes : Bytes) (pending : Option ℕ) (r : Processed)
      → admit decode_request t request bytes pending ≡ ok r
      → IsWellFormed r.0
  unfolding admit
  admit-IsWellFormed (Request.lock i) bytes pending r h =
      let (q, e, last) = >>=-eq-ok (lock t i) _ h in
      subst (λ (r : Processed). IsWellFormed r.0) (ok-injective last)
        (lock-IsWellFormed t i q w room e)
  admit-IsWellFormed (Request.unlock i id) bytes pending r h =
      let (q, e, rest) = >>=-eq-ok (unlock decode_request t i id) _ h in
      let (_, _, last) = >>=-eq-ok (hand_over decode_request q.1 q.2) _ rest in
      subst (λ (r : Processed). IsWellFormed r.0) (ok-injective last)
        (unlock-IsWellFormed decode_request t i id q w room (unlock_lem decode_request t i id q e))
  admit-IsWellFormed _ bytes pending r h =
      subst (λ (r : Processed). IsWellFormed r.0) (ok-injective h) w

  queue_or_admit-IsWellFormed :
      (request : Request) (bytes : Bytes) (pending i : Option ℕ) (r : Processed)
      → queue_or_admit decode_request t request bytes pending i ≡ ok r
      → IsWellFormed r.0
  queue_or_admit-IsWellFormed request bytes pending none r h =
      subst (λ (r : Processed). IsWellFormed r.0) (ok-injective h) w
  queue_or_admit-IsWellFormed request bytes pending (some i) r h =
      let (blocked, _, rest) = >>=-eq-ok (is_locked t (meta_info request)) _ h in
      elim (Bool-cases blocked) [
        | inl b ↦
            let (t', e, last) = >>=-eq-ok (wait_for_lock t i (bytes, pending)) _ (rw b at rest) in
            subst (λ (r : Processed). IsWellFormed r.0) (ok-injective last)
              (wait_for_lock-IsWellFormed t i (bytes, pending) t' w e)
        | inr b ↦ admit-IsWellFormed request bytes pending r (rw b at rest)
      ]

  -- If the lock table is well formed and its counter of lock ids is not about to wrap around
  -- (`next_id + 1 < 2^64`), a command that is processed keeps it well formed: lock ids stay below the
  -- counter and distinct, and no request is left waiting for an inode that nobody has locked.
  pub process_lock_table-IsWellFormed :
      (bytes : Bytes) (pending : Option ℕ) (r : Processed)
      → process_lock_table decode_request t bytes pending ≡ ok r
      → IsWellFormed r.0
  unfolding process_lock_table
  process_lock_table-IsWellFormed bytes pending r h =
      let (request, _, rest) = >>=-eq-ok (unwrap (decode_request bytes)) _ h in
      queue_or_admit-IsWellFormed request bytes pending (meta_info request).inode r rest

is_locked_at :
    (t : LockTable) (meta : RequestMetaInfo) (i : ℕ)
    → meta.inode ≡ some i
    → is_locked t meta ≡ locked_by (t.lock_ids i) meta.lock_id meta.access_type
unfolding is_locked
is_locked_at t meta i e = rw (e, is_locked)

-- The request stands last in the queue of its inode, and nothing else happened.
abbrev pub IsQueued : LockTable → ℕ → PendingRequest → Processed → Type 0
IsQueued t i p r =
    (r.1 ≡ []) × (r.2 ≡ []) × (waiting r.0 i ≡ waiting t i ++ p ∷ []) × (r.0.lock_ids ≡ t.lock_ids)

wait_for_lock-IsQueued :
    (t t' : LockTable) (i : ℕ) (p : PendingRequest)
    → wait_for_lock t i p ≡ ok t'
    → IsQueued t i p (t', [], [])
unfolding wait_for_lock
wait_for_lock-IsQueued t t' i p h =
    let (_, _, last) = >>=-eq-ok (assert (is_some (t.lock_ids i))) _ h in
    subst (λ (u : LockTable). IsQueued t i p (u, [], [])) (ok-injective last)
      (refl, refl, rw (i==i i), refl)

let_through :
    (id : ℕ) (kind : FileLockType) (l : Option ℕ) (a : AccessType)
    → locked_by (some (id, kind)) l a ≡ ok false
    → (l ≡ some id) ⊎ (a ≡ no_access)
let_through id kind l a e = ground arith

-- A command for an inode that somebody has locked is queued behind those that wait, and nothing is
-- applied or granted; unless it names the lock id of the holder, or its access needs no lock.
pub process_lock_table_exclusive :
    (decode_request : Bytes → Option Request) (t : LockTable) (bytes : Bytes) (pending : Option ℕ)
    (r : Processed) (request : Request) (i id : ℕ) (kind : FileLockType)
    → decode_request bytes ≡ some request
    → (meta_info request).inode ≡ some i
    → t.lock_ids i ≡ some (id, kind)
    → process_lock_table decode_request t bytes pending ≡ ok r
    → IsQueued t i (bytes, pending) r
      ⊎ ((meta_info request).lock_id ≡ some id)
      ⊎ ((meta_info request).access_type ≡ no_access)
unfolding process_lock_table
process_lock_table_exclusive decode_request t bytes pending r request i id kind decoded inode held
      h =
    let meta = meta_info request in
    let step : queue_or_admit decode_request t request bytes pending (some i) ≡ ok r =
      rw (decoded, inode) at h in
    let (blocked, e, rest) = >>=-eq-ok (is_locked t meta) _ step in
    let seen : locked_by (some (id, kind)) meta.lock_id meta.access_type ≡ ok blocked =
      rw (is_locked_at t meta i inode, held) at e in
    elim (Bool-cases blocked) [
      | inl b ↦
          let (t', e', last) = >>=-eq-ok (wait_for_lock t i (bytes, pending)) _ (rw b at rest) in
          inl (
            subst (IsQueued t i (bytes, pending)) (ok-injective last)
              (wait_for_lock-IsQueued t t' i (bytes, pending) e'))
      | inr b ↦ inr (let_through id kind meta.lock_id meta.access_type (seen ∙ ap ok b))
    ]
