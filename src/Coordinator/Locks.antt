-- ===== src/Coordinator/Locks.antt =====
-- Which locks a transaction of src/storage/message_handlers/transaction_coordinator.rs has taken and not
-- released, from the calls that it made.
use fleetfs.Prelude.{
  ℕ, Bool, true, false, ◌&&◌, ◌||◌, ◌==◌, if◌then◌else◌, Bool-cases, List, [], ◌∷◌, ◌≡◌, ◌≢◌, refl,
  sym, ◌∙◌, ap, inl, inr, subst, arith,
}
use fleetfs.Base.Outcome.{Outcome, ok}
use fleetfs.Base.Request.{Request}
use fleetfs.Base.Response.{Response}
use fleetfs.Coordinator.{Call, Event, same_lock, holds_lock, insert_lock}

unfoldable pub without : ℕ × ℕ → List (ℕ × ℕ) → List (ℕ × ℕ)
without lock [] = []
without lock (x ∷ locks) =
    let rest = without lock locks in if same_lock lock x then rest else x ∷ rest

-- A lock is taken by the answer to its request; asking to unlock it releases it, whatever the answer.
unfoldable pub after : Request → Outcome Response → List (ℕ × ℕ) → List (ℕ × ℕ)
after (Request.lock inode) (ok (Response.lock lock_id)) locks = (inode, lock_id) ∷ locks
after (Request.unlock inode lock_id) answer locks = without (inode, lock_id) locks
after request answer locks = locks

unfoldable pub after_call : Call → Outcome Response → List (ℕ × ℕ) → List (ℕ × ℕ)
unfolding after
after_call (Call.local_proposal inode request) answer locks = after request answer locks
after_call (Call.remote_proposal inode request) answer locks = after request answer locks
after_call call answer locks = locks

-- The locks that are held after some calls, the latest first.
unfoldable pub held : List Event → List (ℕ × ℕ)
unfolding after_call
held [] = []
held (e ∷ events) = after_call e.call e.answer (held events)

same_numbers : (i k j l : ℕ) → ((i == j) && (k == l)) ≡ true → (i ≡ j) × (k ≡ l)
same_numbers i k j l h = ground arith

pub same_lock_sound : (p q : ℕ × ℕ) → same_lock p q ≡ true → p ≡ q
same_lock_sound (i, k) (j, l) h =
    ap (λ x. (x, k)) (same_numbers i k j l h).0 ∙ ap (λ x. (j, x)) (same_numbers i k j l h).1

pub same_lock_refl : (p : ℕ × ℕ) → same_lock p p ≡ true
same_lock_refl (i, k) = ground arith

or_false : (a b : Bool) → (a || b) ≡ true → a ≡ false → b ≡ true
or_false true b h e = absurd (cc e)
or_false false b h e = h

or_left : (a b : Bool) → a ≡ true → (a || b) ≡ true
or_left true b h = refl
or_left false b h = absurd (cc h)

both_false : (a b : Bool) → a ≡ false → b ≡ false → (a || b) ≡ false
both_false true b h k = absurd (cc h)
both_false false b h k = k

same_lock_sym : (p q : ℕ × ℕ) → same_lock p q ≡ false → same_lock q p ≡ false
same_lock_sym (i, k) (j, l) h = ground arith

or_right : (a b : Bool) → b ≡ true → (a || b) ≡ true
or_right true b h = refl
or_right false b h = h

insert_if :
    (p q : ℕ × ℕ) (locks : List (ℕ × ℕ)) (b : Bool)
    → holds_lock q locks ≡ b
    → holds_lock p (q ∷ locks) ≡ true
    → holds_lock p (if b then locks else q ∷ locks) ≡ true
unfolding holds_lock
insert_if p q locks false e h = h
insert_if p q locks true e h = elim (Bool-cases (same_lock p q)) [
  | inl same ↦ subst (λ x. holds_lock x locks ≡ true) (sym (same_lock_sound p q same)) e
  | inr other ↦ or_false _ _ h other
]

pub holds_lock-insert_lock :
    (p q : ℕ × ℕ) (locks : List (ℕ × ℕ))
    → holds_lock p (q ∷ locks) ≡ true
    → holds_lock p (insert_lock q locks) ≡ true
unfolding insert_lock
holds_lock-insert_lock p q locks h = insert_if p q locks (holds_lock q locks) refl h

without_if :
    (p q x : ℕ × ℕ) (rest locks : List (ℕ × ℕ)) (b : Bool)
    → same_lock q x ≡ b
    → (holds_lock p rest ≡ true → (holds_lock p locks ≡ true) × (same_lock q p ≡ false))
    → holds_lock p (if b then rest else x ∷ rest) ≡ true
    → (holds_lock p (x ∷ locks) ≡ true) × (same_lock q p ≡ false)
unfolding holds_lock
without_if p q x rest locks true e ih h = (or_right _ _ (ih h).0, (ih h).1)
without_if p q x rest locks false e ih h = elim (Bool-cases (same_lock p x)) [
  | inl same ↦
      (or_left _ _ same, subst (λ y. same_lock q y ≡ false) (sym (same_lock_sound p x same)) e)
  | inr other ↦ (or_right _ _ (ih (or_false _ _ h other)).0, (ih (or_false _ _ h other)).1)
]

pub holds_lock-without :
    (p q : ℕ × ℕ) (locks : List (ℕ × ℕ))
    → holds_lock p (without q locks) ≡ true
    → (holds_lock p locks ≡ true) × (same_lock q p ≡ false)
unfolding holds_lock without
holds_lock-without p q [] h = absurd (cc h)
holds_lock-without p q (x ∷ locks) h =
    without_if p q x _ locks (same_lock q x) refl (holds_lock-without p q locks) h

pub nothing_held : (locks : List (ℕ × ℕ)) → ((p : ℕ × ℕ) → holds_lock p locks ≢ true) → locks ≡ []
unfolding holds_lock
nothing_held [] h = refl
nothing_held (x ∷ locks) h = absurd (h x (or_left _ _ (same_lock_refl x)))

-- The locks left after some are released.
unfoldable pub without_all : List (ℕ × ℕ) → List (ℕ × ℕ) → List (ℕ × ℕ)
without_all [] locks = locks
without_all (x ∷ released) locks = without_all released (without x locks)

pub holds_lock-without_all :
    (p : ℕ × ℕ) (released locks : List (ℕ × ℕ))
    → holds_lock p (without_all released locks) ≡ true
    → (holds_lock p locks ≡ true) × (holds_lock p released ≡ false)
unfolding without_all holds_lock
holds_lock-without_all p [] locks h = (h, refl)
holds_lock-without_all p (x ∷ released) locks h =
    let rest = holds_lock-without_all p released (without x locks) h in
    let here = holds_lock-without p x locks rest.0 in
    (here.0, both_false _ _ (same_lock_sym x p here.1) rest.1)

-- The set of locks to release contains those that are held.
pub record Covered (locks guard : List (ℕ × ℕ)) : Type 0 where
  pub covered : (p : ℕ × ℕ) → holds_lock p locks ≡ true → holds_lock p guard ≡ true

pub Covered-insert_lock :
    (p : ℕ × ℕ) (locks guard : List (ℕ × ℕ))
    → Covered locks guard
    → Covered (p ∷ locks) (insert_lock p guard)
unfolding holds_lock
Covered-insert_lock p locks guard h = record {
  covered = λ q k. holds_lock-insert_lock q p guard (elim (Bool-cases (same_lock q p)) [
    | inl same ↦ or_left _ _ same
    | inr other ↦ or_right _ _ (h.covered q (or_false _ _ k other))
  ]);
}

pub Covered-released :
    (locks guard released : List (ℕ × ℕ))
    → Covered locks guard
    → Covered guard released
    → without_all released locks ≡ []
Covered-released locks guard released h k = nothing_held _ λ p e.
    let left = holds_lock-without_all p released locks e in
    cc (left.1, k.covered p (h.covered p left.0))
