-- ===== src/LockTable/Invariant.antt =====
-- The invariant of the lock table: lock ids are fresh and unique, and nobody waits for an inode that
-- is free.
use fleetfs.Prelude.{
  ℕ, ◌+◌, ◌^◌, ◌<◌, ◌≡◌, refl, sym, ◌∙◌, ap, subst, not, is_some, Option, none, some, List, [],
  arith, ℕ_discrete,
}
use fleetfs.Base.Outcome.{ok, assert}
use fleetfs.Base.Outcome.Laws.{>>=-eq-ok, ok-injective, assert-eq-ok}
use fleetfs.Base.Types.{Bytes}
use fleetfs.Base.Request.{Request}
use fleetfs.LockTable.{
  LockTable, FileLockType, exclusive_metadata_write_concurrent_reads_allowed, PendingRequest,
  waiting, new, lock, wait_for_lock,
}
use fleetfs.LockTable.Unlock.{SameElsewhere, Unlocked, Handover, i==i}

pub record IsWellFormed (t : LockTable) : Type 0 where
  pub fresh : (i id : ℕ) (kind : FileLockType) → t.lock_ids i ≡ some (id, kind) → id < t.next_id
  pub unique :
      (i j id : ℕ) (kind kind' : FileLockType)
      → t.lock_ids i ≡ some (id, kind)
      → t.lock_ids j ≡ some (id, kind')
      → i ≡ j
  pub served : (i : ℕ) → t.lock_ids i ≡ none → waiting t i ≡ []

pub new-IsWellFormed : IsWellFormed new
new-IsWellFormed = record {
  fresh = λ i id kind e. cc;
  unique = λ i j id kind kind' e f. cc;
  served = λ i e. refl;
}

-- The next lock id does not wrap around.
abbrev pub HasRoom : LockTable → Type 0
HasRoom t = t.next_id + 1 < 2 ^ 64

-- A table that differs from a well-formed one at the inode `i` only.
module _ (t t' : LockTable) (i : ℕ) (w : IsWellFormed t) (rest : SameElsewhere i t t') where
  freed-IsWellFormed :
      t'.lock_ids i ≡ none → waiting t' i ≡ [] → t'.next_id ≡ t.next_id → IsWellFormed t'
  freed-IsWellFormed free idle next = record {
    fresh = λ j id kind e. elim (ℕ_discrete j i) [
      | yes p ↦ absurd (cc (ap t'.lock_ids p))
      | no n ↦ ground (arith, rest.locks j n, w.fresh j id kind)
    ];
    unique = λ j k id kind kind' e f. elim (ℕ_discrete j i) [
      | yes p ↦ absurd (cc (ap t'.lock_ids p))
      | no n ↦ elim (ℕ_discrete k i) [
        | yes p ↦ absurd (cc (ap t'.lock_ids p))
        | no m ↦ w.unique j k id kind kind' (sym (rest.locks j n) ∙ e) (sym (rest.locks k m) ∙ f)
      ]
    ];
    served = λ j e. elim (ℕ_discrete j i) [
      | yes p ↦ cc (ap (waiting t') p)
      | no n ↦ rest.queues j n ∙ w.served j (sym (rest.locks j n) ∙ e)
    ];
  }

  taken-IsWellFormed :
      (kind : FileLockType)
      → t'.lock_ids i ≡ some (t.next_id, kind)
      → t'.next_id ≡ t.next_id + 1
      → IsWellFormed t'
  taken-IsWellFormed taken held next = record {
    fresh = λ j id kind e. elim (ℕ_discrete j i) [
      | yes p ↦ ground (arith, ap t'.lock_ids p)
      | no n ↦ ground (arith, rest.locks j n, w.fresh j id kind)
    ];
    unique = λ j k id kind kind' e f. elim (ℕ_discrete j i) [
      | yes p ↦ elim (ℕ_discrete k i) [
        | yes q ↦ cc (p, q)
        | no m ↦ ground (arith, ap t'.lock_ids p, rest.locks k m, w.fresh k id kind')
      ]
      | no n ↦ elim (ℕ_discrete k i) [
        | yes q ↦ ground (arith, ap t'.lock_ids q, rest.locks j n, w.fresh j id kind)
        | no m ↦ w.unique j k id kind kind' (sym (rest.locks j n) ∙ e) (sym (rest.locks k m) ∙ f)
      ]
    ];
    served = λ j e. elim (ℕ_discrete j i) [
      | yes p ↦ absurd (cc (ap t'.lock_ids p))
      | no n ↦ rest.queues j n ∙ w.served j (sym (rest.locks j n) ∙ e)
    ];
  }

pub lock-IsWellFormed :
    (t : LockTable) (i : ℕ) (r : LockTable × ℕ)
    → IsWellFormed t
    → HasRoom t
    → lock t i ≡ ok r
    → IsWellFormed r.0
unfolding lock
lock-IsWellFormed t i r w room h =
    let (_, free, last) = >>=-eq-ok (assert (not (is_some (t.lock_ids i)))) _ h in
    subst (λ (q : LockTable × ℕ). IsWellFormed q.0) (ok-injective last)
      (taken-IsWellFormed t _ i w (record { queues = λ j ne. refl; locks = λ j ne. ground arith })
        exclusive_metadata_write_concurrent_reads_allowed (rw (i==i i)) (omega arith))

pub wait_for_lock-IsWellFormed :
    (t : LockTable) (i : ℕ) (p : PendingRequest) (t' : LockTable)
    → IsWellFormed t
    → wait_for_lock t i p ≡ ok t'
    → IsWellFormed t'
unfolding wait_for_lock
wait_for_lock-IsWellFormed t i p t' w h =
    let (_, held, last) = >>=-eq-ok (assert (is_some (t.lock_ids i))) _ h in
    let locked = assert-eq-ok (is_some (t.lock_ids i)) held in
    subst IsWellFormed (ok-injective last) (record {
      fresh = w.fresh;
      unique = w.unique;
      served = λ j e. elim (ℕ_discrete j i) [
        | yes q ↦ absurd (cc (locked, ap t.lock_ids q))
        | no n ↦ ground (arith, w.served j e, n)
      ];
    })

pub unlock-IsWellFormed :
    (decode_request : Bytes → Option Request) (t : LockTable) (i lock_id : ℕ)
    (r : LockTable × List PendingRequest × Option ℕ)
    → IsWellFormed t
    → HasRoom t
    → Unlocked decode_request t i lock_id r
    → IsWellFormed r.0
unlock-IsWellFormed decode_request t i lock_id r w room u = by_case r.2 u.handover
  where
    by_case : (g : Option ℕ) → Handover decode_request t.next_id i r.0 r.1 g → IsWellFormed r.0
    by_case none (_, free, idle, next) = freed-IsWellFormed t r.0 i w u.elsewhere free idle next
    by_case (some g) (_, _, _, _, _, held, same, next) =
        taken-IsWellFormed t r.0 i w u.elsewhere exclusive_metadata_write_concurrent_reads_allowed
          (held ∙ ap (λ k. some (k, exclusive_metadata_write_concurrent_reads_allowed)) same)
          (omega arith)
