-- ===== src/Consensus/Replicas.antt =====
-- Replicas that apply the same commands keep the same state, whoever proposed them: what a reply
-- channel is does not reach the lock table or the file storage.
use fleetfs.Prelude.{
  ℕ, zero, suc, ◌≡◌, refl, sym, ap, ◌∙◌, Bool, true, false, not, Option, none, some, is_some, List,
  [], ◌∷◌, ◌++◌, map, take, drop, inl, inr, Bool-cases, Option-cases, ◌==◌, if◌then◌else◌,
}
use mathlib.Core.Option
use mathlib.Core.Path.{fun_ext}
use mathlib.Core.List.{map-append}
use fleetfs.Prelude.HashMap
use fleetfs.Prelude.HashMap.{HashMap}
use fleetfs.Base.Outcome.{Outcome, ok, err, panic, assert, unwrap, ◌>>=◌}
use fleetfs.Base.Types.{Bytes}
use fleetfs.Base.Request.{Request, meta_info}
use fleetfs.LockTable.{
  LockTable, PendingRequest, waiting, is_lock_request, is_locked, lock, wait_for_lock, scan, grant,
  release, unlock,
}
use fleetfs.Consensus.{
  Processed, Replies, pop, admit, queue_or_admit, hand_over, process_lock_table,
}

abbrev pub then_ok {ℓ κ} : {A : Type ℓ} {B : Type κ} → (A → B) → Outcome A → Outcome B
then_ok f (ok a) = ok (f a)
then_ok f (err e) = err e
then_ok f panic = panic

-- Two runs of a block agree step by step, up to `g` and `h`.
pub then_ok-bind {ℓ κ μ ν} :
    {A : Type ℓ} {B : Type κ} {A' : Type μ} {B' : Type ν} (g : A → A') (h : B → B') (m : Outcome A)
    (m' : Outcome A') (f : A → Outcome B) (f' : A' → Outcome B')
    → m' ≡ then_ok g m
    → ((a : A) → f' (g a) ≡ then_ok h (f a))
    → (m' >>= f') ≡ then_ok h (m >>= f)
then_ok-bind g h (ok a) m' f f' e k = rw e (k a)
then_ok-bind g h (err c) m' f f' e k = rw e
then_ok-bind g h panic m' f f' e k = rw e

-- A step that the channels do not reach.
pub same_bind {ℓ κ ν} :
    {A : Type ℓ} {B : Type κ} {B' : Type ν} (h : B → B') (m : Outcome A) (f : A → Outcome B)
    (f' : A → Outcome B')
    → ((a : A) → f' a ≡ then_ok h (f a))
    → (m >>= f') ≡ then_ok h (m >>= f)
same_bind h (ok a) f f' k = k a
same_bind h (err c) f f' k = refl
same_bind h panic f f' k = refl

-- The same without the reply channels.
abbrev pub mute : PendingRequest → PendingRequest
mute p = (p.0, none)

abbrev pub mute_queue : Option (List PendingRequest) → Option (List PendingRequest)
mute_queue none = none
mute_queue (some l) = some (map mute l)

abbrev pub mute_table : LockTable → LockTable
mute_table t = record t { pending_requests = λ j. mute_queue (t.pending_requests j) }

mute_insert :
    (m : HashMap (List PendingRequest)) (i : ℕ) (l : List PendingRequest)
    → ◌≡◌ {A = HashMap (List PendingRequest)}
        (λ j. mute_queue (HashMap.insert m i l j))
        (HashMap.insert (λ j. mute_queue (m j)) i (map mute l))
mute_insert m i l = fun_ext λ j. at j (i == j)
  where
    at :
        (j : ℕ) (b : Bool)
        → mute_queue (if j == i then some l else m j)
          ≡ (if j == i then some (map mute l) else mute_queue (m j))
    at j b = elim (Bool-cases (j == i)) [ inl e ↦ rw e | inr e ↦ rw e ]

map-take : (n : ℕ) (l : List PendingRequest) → map mute (take n l) ≡ take n (map mute l)
map-take zero l = refl
map-take (suc n) [] = refl
map-take (suc n) (x ∷ l) = ap (λ k. mute x ∷ k) (map-take n l)

map-drop : (n : ℕ) (l : List PendingRequest) → map mute (drop n l) ≡ drop n (map mute l)
map-drop zero l = refl
map-drop (suc n) [] = refl
map-drop (suc n) (x ∷ l) = map-drop n l

waiting-mute : (t : LockTable) (i : ℕ) → waiting (mute_table t) i ≡ map mute (waiting t i)
waiting-mute t i = elim (Option-cases (t.pending_requests i)) [ inl e ↦ rw e | inr (l, e) ↦ rw e ]

abbrev mute_popped : List PendingRequest × PendingRequest → List PendingRequest × PendingRequest
mute_popped (l, p) = (map mute l, mute p)

pop-map : (l : List PendingRequest) → pop (map mute l) ≡ Option.map mute_popped (pop l)
unfolding pop
pop-map [] = refl
pop-map (x ∷ l) = rw (pop-map l) (last (pop l))
  where
    last :
        (o : Option (List PendingRequest × PendingRequest))
        → elim (Option.map mute_popped o) [
          | none ↦ some ([], mute x)
          | some (ys, y) ↦ some (mute x ∷ ys, y)
        ]
          ≡ Option.map mute_popped
              (elim o [ none ↦ some ([], x) | some (ys, y) ↦ some (x ∷ ys, y) ])
    last none = refl
    last (some q) = refl

unwrap-pop-mute :
    (l : List PendingRequest) → unwrap (pop (map mute l)) ≡ then_ok mute_popped (unwrap (pop l))
unwrap-pop-mute l = rw (pop-map l) (at (pop l))
  where
    at :
        (o : Option (List PendingRequest × PendingRequest))
        → unwrap (Option.map mute_popped o) ≡ then_ok mute_popped (unwrap o)
    at none = refl
    at (some q) = refl

lock-mute :
    (t : LockTable) (i : ℕ)
    → lock (mute_table t) i ≡ then_ok (λ (r : LockTable × ℕ). (mute_table r.0, r.1)) (lock t i)
unfolding lock
lock-mute t i = same_bind _ (assert (not (is_some (t.lock_ids i)))) _ _ (λ _. refl)

wait_for_lock-mute :
    (t : LockTable) (i : ℕ) (p : PendingRequest)
    → wait_for_lock (mute_table t) i (mute p) ≡ then_ok mute_table (wait_for_lock t i p)
unfolding wait_for_lock
wait_for_lock-mute t i p = same_bind _ (assert (is_some (t.lock_ids i))) _ _ λ _.
    ap (λ (m : HashMap (List PendingRequest)). ok (record t { pending_requests = m }))
      (ap (HashMap.insert (λ j. mute_queue (t.pending_requests j)) i) (
          ap (λ l. l ++ mute p ∷ []) (waiting-mute t i)
          ∙ sym (map-append mute (waiting t i) (p ∷ [])))
        ∙ sym (mute_insert t.pending_requests i (waiting t i ++ p ∷ [])))

abbrev mute_released :
    LockTable × List PendingRequest × Option ℕ → LockTable × List PendingRequest × Option ℕ
mute_released (t, l, g) = (mute_table t, map mute l, g)

abbrev pub mute_processed : Processed → Processed
mute_processed (t, replies, l) = (mute_table t, [], map mute l)

module _ (decode_request : Bytes → Option Request) where
  scan-mute : (l : List PendingRequest) → scan decode_request (map mute l) ≡ scan decode_request l
  unfolding scan
  scan-mute [] = refl
  scan-mute (p ∷ l) = simp (scan-mute l)

  grant-mute :
      (t : LockTable) (i : ℕ) (found : Bool)
      → grant decode_request (mute_table t) i found
        ≡ then_ok
            (λ (r : LockTable × Option ℕ). (mute_table r.0, r.1))
            (grant decode_request t i found)
  unfolding grant
  grant-mute t i true = then_ok-bind _ _ (lock t i) _ _ _ (lock-mute t i) (λ _. refl)
  grant-mute t i false = refl

  release-mute :
      (t : LockTable) (i : ℕ) (p : Option (List PendingRequest))
      → release decode_request (mute_table t) i (mute_queue p)
        ≡ then_ok mute_released (release decode_request t i p)
  unfolding release
  release-mute t i none = refl
  release-mute t i (some l) = rw (scan-mute l) (
      same_bind _ (scan decode_request l) _ _ λ q.
        then_ok-bind _ _ (grant decode_request t i q.1) _ _ _ (grant-mute t i q.1) λ r.
          rw (← map-drop q.0 l, ← map-take q.0 l)
            (ap
              (λ (m : HashMap (List PendingRequest)).
                ok (record r.0 { pending_requests = m }, map mute (take q.0 l), r.1))
              (sym (mute_insert r.0.pending_requests i (drop q.0 l)))))

  unlock-mute :
      (t : LockTable) (i id : ℕ)
      → unlock decode_request (mute_table t) i id
        ≡ then_ok mute_released (unlock decode_request t i id)
  unfolding unlock
  unlock-mute t i id = same_bind _ (unwrap (t.lock_ids i)) _ _ λ q.
      same_bind _ (assert (q.0 == id)) _ _ λ _.
        release-mute (record t { lock_ids = HashMap.remove t.lock_ids i }) i (t.pending_requests i)

  hand_over-mute :
      (l : List PendingRequest) (g : Option ℕ)
      → hand_over decode_request (map mute l) g
        ≡ then_ok
            (λ (r : Replies × List PendingRequest). ([], map mute r.1))
            (hand_over decode_request l g)
  unfolding hand_over
  hand_over-mute l none = refl
  hand_over-mute l (some id) =
      then_ok-bind mute_popped _ (unwrap (pop l)) _ _ _ (unwrap-pop-mute l) λ q.
        same_bind _ (unwrap (decode_request q.1.0)) _ _
          λ r. same_bind _ (assert (is_lock_request r)) _ _ λ _. refl

  admit-mute :
      (t : LockTable) (request : Request) (bytes : Bytes) (pending : Option ℕ)
      → admit decode_request (mute_table t) request bytes none
        ≡ then_ok mute_processed (admit decode_request t request bytes pending)
  unfolding admit
  admit-mute t (Request.lock i) bytes pending =
      then_ok-bind _ _ (lock t i) _ _ _ (lock-mute t i) λ _. refl
  admit-mute t (Request.unlock i id) bytes pending =
      then_ok-bind _ _ (unlock decode_request t i id) _ _ _ (unlock-mute t i id) λ q.
        then_ok-bind _ _ (hand_over decode_request q.1 q.2) _ _ _ (hand_over-mute q.1 q.2) λ _. refl
  admit-mute t _ bytes pending = refl

  queue_or_admit-mute :
      (t : LockTable) (request : Request) (bytes : Bytes) (pending i : Option ℕ)
      → queue_or_admit decode_request (mute_table t) request bytes none i
        ≡ then_ok mute_processed (queue_or_admit decode_request t request bytes pending i)
  unfolding is_locked
  queue_or_admit-mute t request bytes pending none = refl
  queue_or_admit-mute t request bytes pending (some i) =
      same_bind _ (is_locked t (meta_info request)) _ _ (λ b. branch b)
    where
      branch :
          (b : Bool)
          → (if b
              then (wait_for_lock (mute_table t) i (bytes, none) >>= λ t'. ok (t', [], []))
              else admit decode_request (mute_table t) request bytes none)
            ≡ then_ok mute_processed (
                if b
                then (wait_for_lock t i (bytes, pending) >>= λ t'. ok (t', [], []))
                else admit decode_request t request bytes pending)
      branch true =
          then_ok-bind _ _ (wait_for_lock t i (bytes, pending)) _ _ _
            (wait_for_lock-mute t i (bytes, pending)) λ _. refl
      branch false = admit-mute t request bytes pending

  pub process_lock_table-mute :
      (t : LockTable) (bytes : Bytes) (pending : Option ℕ)
      → process_lock_table decode_request (mute_table t) bytes none
        ≡ then_ok mute_processed (process_lock_table decode_request t bytes pending)
  unfolding process_lock_table
  process_lock_table-mute t bytes pending =
      same_bind _ (unwrap (decode_request bytes)) _ _
        λ request. queue_or_admit-mute t request bytes pending (meta_info request).inode
