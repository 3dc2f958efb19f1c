-- ===== src/LockTable.antt =====
-- src/storage/lock_table.rs: which inodes are locked, by which lock id, and the requests that wait
-- for an unlock, in order of arrival. A request is queued as its bytes, with the channel that its
-- reply goes to (a number) if this node proposed it. Decoding is a parameter of `unlock`.
mod Scan
pub mod Unlock
pub mod Invariant
use fleetfs.Prelude.{
  ℕ, ◌+◌, ◌%◌, ◌^◌, Bool, true, false, not, Option, none, some, is_some, List, [], ◌∷◌, ◌++◌, ◌==◌,
  take, drop, if◌then◌else◌,
}
use fleetfs.Prelude.HashMap
use fleetfs.Prelude.HashMap.{HashMap}
use fleetfs.Base.Outcome.{Outcome, ok, panic, assert, unwrap, ◌>>=◌, ◌>>◌}
use fleetfs.Base.Types.{Bytes}
use fleetfs.Base.Request.{
  Request, RequestMetaInfo, AccessType, read_data, read_metadata, lock_metadata, write_metadata,
  write_data_and_metadata, no_access,
}

pub data FileLockType : Type 0 where
  exclusive_metadata_write_concurrent_reads_allowed : FileLockType

abbrev pub PendingRequest : Type 0
PendingRequest = Bytes × Option ℕ

pub record LockTable : Type 0 where
  pub pending_requests : HashMap (List PendingRequest)
  pub lock_ids : HashMap (ℕ × FileLockType)
  pub next_id : ℕ

abbrev pub new : LockTable
new = record { pending_requests = HashMap.empty; lock_ids = HashMap.empty; next_id = 0 }

-- The match on the access type, under a lock that somebody else holds.
abbrev pub excludes : FileLockType → AccessType → Outcome Bool
excludes exclusive_metadata_write_concurrent_reads_allowed read_data = panic
excludes exclusive_metadata_write_concurrent_reads_allowed read_metadata = panic
excludes exclusive_metadata_write_concurrent_reads_allowed lock_metadata = ok true
excludes exclusive_metadata_write_concurrent_reads_allowed write_metadata = ok true
excludes exclusive_metadata_write_concurrent_reads_allowed write_data_and_metadata = ok true
excludes exclusive_metadata_write_concurrent_reads_allowed no_access = ok false

-- What is held on the inode, the lock id of the request, its access. A request that names a lock
-- id reads the map by index, so it panics if there is no lock.
abbrev pub locked_by : Option (ℕ × FileLockType) → Option ℕ → AccessType → Outcome Bool
locked_by none (some id) _ = panic
locked_by (some (held, _)) (some id) _ = do assert (held == id); ok false
locked_by none none _ = ok false
locked_by (some (_, lock_type)) none wanted = excludes lock_type wanted

unfoldable pub is_locked : LockTable → RequestMetaInfo → Outcome Bool
is_locked t meta = elim meta.inode [
  | none ↦ ok false
  | some i ↦ locked_by (t.lock_ids i) meta.lock_id meta.access_type
]

-- The queue of an inode; a key that is missing has an empty one.
abbrev pub or_empty : Option (List PendingRequest) → List PendingRequest
or_empty none = []
or_empty (some l) = l

abbrev pub waiting : LockTable → ℕ → List PendingRequest
waiting t i = or_empty (t.pending_requests i)

unfoldable pub wait_for_lock : LockTable → ℕ → PendingRequest → Outcome LockTable
wait_for_lock t i request = do
  assert (is_some (t.lock_ids i))
  ok (record t {
    pending_requests = HashMap.insert t.pending_requests i (waiting t i ++ request ∷ []);
  })

unfoldable pub lock : LockTable → ℕ → Outcome (LockTable × ℕ)
lock t i = do
  assert (not (is_some (t.lock_ids i)))
  ok (
    record t {
      lock_ids =
          HashMap.insert t.lock_ids i
            (t.next_id, exclusive_metadata_write_concurrent_reads_allowed);
      next_id = (t.next_id + 1) % 2 ^ 64;
    },
    t.next_id,
  )

-- `matches!(request, Request::Lock { .. })`
abbrev pub is_lock_request : Request → Bool
is_lock_request (Request.lock _) = true
is_lock_request _ = false

module _ (decode_request : Bytes → Option Request) where
  -- The loop of `unlock` over the queue: how many requests leave it, and whether the last of them is
  -- a lock request.
  unfoldable pub scan : List PendingRequest → Outcome (ℕ × Bool)
  scan [] = ok (0, false)
  scan ((bytes, _) ∷ rest) = do
    request ← unwrap (decode_request bytes)
    if is_lock_request request
        then ok (1, true)
        else do (count, found) ← scan rest; ok (count + 1, found)

  unfoldable pub grant : LockTable → ℕ → Bool → Outcome (LockTable × Option ℕ)
  grant t i true = do (t', id) ← lock t i; ok (t', some id)
  grant t i false = ok (t, none)

  unfoldable pub release :
      LockTable
      → ℕ
      → Option (List PendingRequest)
      → Outcome (LockTable × List PendingRequest × Option ℕ)
  release t i none = ok (t, [], none)
  release t i (some pending) = do
    (count, found) ← scan pending
    (t', id) ← grant t i found
    ok (
      record t' { pending_requests = HashMap.insert t'.pending_requests i (drop count pending) },
      take count pending,
      id,
    )

  unfoldable pub unlock : LockTable → ℕ → ℕ → Outcome (LockTable × List PendingRequest × Option ℕ)
  unlock t i lock_id = do
    (existing, _) ← unwrap (t.lock_ids i)
    assert (existing == lock_id)
    release (record t { lock_ids = HashMap.remove t.lock_ids i }) i (t.pending_requests i)
