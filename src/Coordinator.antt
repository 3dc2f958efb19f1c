-- ===== src/Coordinator.antt =====
-- src/storage/message_handlers/transaction_coordinator.rs: requests that touch several inodes, and so
-- several groups, are run as transactions of smaller requests, each decided by the group of an inode.
-- The groups and the network are a parameter: they may answer every call in any way. An action records
-- the calls that it made and their answers, the latest first.
pub mod Calls
pub mod Rename
pub mod Links
pub mod Locks
pub mod Exchanges
pub mod Answers
pub mod Kept
pub mod RenameLocks
pub mod LinkLocks
pub mod Rollback
pub mod Hardlink
mod Tests
use fleetfs.Prelude.{
  ℕ, ◌==◌, ◌&&◌, ◌||◌, if◌then◌else◌, Bool, true, false, Option, none, some, List, [], ◌∷◌, is_some,
}
use fleetfs.Base.Outcome.{ErrorCode, Outcome, ok, err, panic, uncategorized}
use fleetfs.Base.Types.{Bytes, EntryMetadata}
use fleetfs.Base.Request.{Request}
use fleetfs.Base.Response.{Response}

-- What the coordinator asks for: a proposal to the group of an inode on this node or another, or to a
-- group, a read from this node's files or another's, the barrier before a local read. The router also
-- asks a group of this node for its leader, for the last commit, or to wait for one.
pub data Call : Type 0 where
  local_proposal remote_proposal : (inode : ℕ) (request : Request) → Call
  group_proposal : (raft_group : ℕ) (request : Request) → Call
  read_barrier : (inode : ℕ) → Call
  local_read forwarded : (request : Request) → Call
  local_group_proposal : (raft_group : ℕ) (request : Request) → Call
  group_barrier leader latest_commit : (raft_group : ℕ) → Call
  latest_commit_of : (inode : ℕ) → Call
  wait_for_commit : (inode index : ℕ) → Call
  wait_for_ready : Call
  apply_message : (raft_group : ℕ) (bytes : Bytes) → Call

pub record Cluster : Type 1 where
  pub State : Type 0
  pub inode_stored_locally : ℕ → Bool
  pub has_raft_group : ℕ → Bool
  pub answer : Call → State → Outcome Response × State

pub record Event : Type 0 where
  pub call : Call
  pub answer : Outcome Response

-- The run of one transaction: the rest of the cluster, the calls made, and the set of locks that
-- `rename_transaction` shares with its inner function.
pub record Session (C : Cluster) : Type 0 where
  pub state : C.State
  pub events : List Event
  pub lock_guard : List (ℕ × ℕ)

abbrev pub Action : Cluster → Type 0 → Type 0
Action C A = Session C → Outcome A × Session C

-- `decode_response(buffer)`, and its error as an `Err`.
unfoldable pub response_or_error : Response → Outcome Response
response_or_error (Response.error_occurred e) = err e
response_or_error response = ok response

-- `.map_err(|_| ErrorCode::Uncategorized)`
abbrev pub hide_error : {A : Type 0} → Outcome A → Outcome A
hide_error (ok a) = ok a
hide_error (err e) = err uncategorized
hide_error panic = panic

abbrev pub as_inode_response : Response → Option ℕ
as_inode_response (Response.inode id) = some id
as_inode_response _ = none

abbrev pub as_empty_response : Response → Option (Unit {0})
as_empty_response Response.empty = some tt
as_empty_response _ = none

abbrev pub as_attr_response : Response → Option EntryMetadata
as_attr_response (Response.entry_metadata metadata) = some metadata
as_attr_response _ = none

-- What follows a call: an `Err` is returned, a panic ends the run.
unfoldable pub continue :
    {C : Cluster} {A B : Type 0} → Outcome A × Session C → (A → Action C B) → Outcome B × Session C
continue (ok a, s) next = next a s
continue (err e, s) next = (err e, s)
continue (panic, s) next = (panic, s)

infixl 5 ◌>>=◌ ◌>>◌
abbrev pub ◌>>=◌ : {C : Cluster} {A B : Type 0} → Action C A → (A → Action C B) → Action C B
(m >>= next) s = continue (m s) next

abbrev pub ◌>>◌ : {C : Cluster} {B : Type 0} → Action C (Unit {0}) → Action C B → Action C B
m >> k = m >>= λ _. k

abbrev pub lift : {C : Cluster} {A : Type 0} → Outcome A → Action C A
lift r s = (r, s)

-- A result that is matched on, not returned with `?`.
unfoldable pub caught :
    {C : Cluster} {A : Type 0} → Outcome A × Session C → Outcome (Outcome A) × Session C
caught (ok a, s) = (ok (ok a), s)
caught (err e, s) = (ok (err e), s)
caught (panic, s) = (panic, s)

abbrev pub catch : {C : Cluster} {A : Type 0} → Action C A → Action C (Outcome A)
catch m s = caught (m s)

-- `.expect(..)` on a result.
abbrev pub expect : {C : Cluster} {A : Type 0} → Outcome A → Action C A
expect (ok a) s = (ok a, s)
expect (err e) s = (panic, s)
expect panic s = (panic, s)

abbrev pub answered :
    {C : Cluster} → Call → Session C → Outcome Response × C.State → Outcome Response × Session C
answered call s (answer, state) = (
  answer,
  record s { state = state; events = record { call = call; answer = answer } ∷ s.events },
)

unfoldable pub ask : {C : Cluster} → Call → Action C Response
ask {C = C} call s = answered call s (C.answer call s.state)

-- Pairs of an inode and a lock of it.
abbrev pub same_lock : ℕ × ℕ → ℕ × ℕ → Bool
same_lock (i, k) (j, l) = (i == j) && (k == l)

unfoldable pub holds_lock : ℕ × ℕ → List (ℕ × ℕ) → Bool
holds_lock lock [] = false
holds_lock lock (x ∷ locks) = same_lock lock x || holds_lock lock locks

-- Insertion into a set of locks, which has no duplicates.
unfoldable pub insert_lock : ℕ × ℕ → List (ℕ × ℕ) → List (ℕ × ℕ)
insert_lock lock locks = if holds_lock lock locks then locks else lock ∷ locks

-- `lock_guard.lock().unwrap().insert((inode, lock_id))`
unfoldable pub remember : {C : Cluster} → ℕ × ℕ → Action C (Unit {0})
remember lock s = (ok tt, record s { lock_guard = insert_lock lock s.lock_guard })

-- `Arc::new(Mutex::new(HashSet::new()))`
unfoldable pub forget_locks : {C : Cluster} → Action C (Unit {0})
forget_locks s = (ok tt, record s { lock_guard = [] })

unfoldable pub locks_taken : {C : Cluster} → Action C (List (ℕ × ℕ))
locks_taken s = (ok s.lock_guard, s)
