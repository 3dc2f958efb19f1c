-- ===== src/Metadata/Kinds/Inodes.antt =====
-- What making and deleting inodes changes in the kinds of the inodes.
use fleetfs.Prelude.{
  ℕ, ◌≡◌, refl, sym, ap, subst, ◌∙◌, Bool, true, false, Option, none, some, inl, inr, Bool-cases,
  ◌==◌, ==_iff, if◌then◌else◌,
}
use mathlib.Core.Option.{some-injective}
use fleetfs.Base.Outcome.{ErrorCode, Outcome, ok, err, panic, assert, ok_or, inode_does_not_exist}
use fleetfs.Base.Outcome.Laws.{>>=-eq-ok, ok-injective, ok_or-eq-ok}
use fleetfs.Base.Types.{FileKind, is_directory}
use fleetfs.Redb.{Redb}
use fleetfs.Redb.Laws.{get-remove}
use fleetfs.Metadata.{
  MetadataStorage, InodeAttributes, Clock, write_txn, close, put_attrs, durability_tick,
}
use fleetfs.Metadata.Read.{next_key}
use fleetfs.Metadata.Inodes.{
  create_inode, decrement_inode_link_count, delete_inode, links_left, new_attributes, is_empty,
  put_parent,
}
use fleetfs.Metadata.Txn.{write_txn_live, write_txn_poisoned}
use fleetfs.Metadata.Kinds.{SameKinds, stored, stored-SameKinds}

module _ {db : Redb} (s : MetadataStorage db) where
  -- A transaction that returned a value with `Q`, or that left the inodes as they were.
  pub data Ending {A : Type 0} (Q : A → MetadataStorage db → Type 0)
      : Outcome A × MetadataStorage db → Type 0 where
    committed : (a : A) (t : MetadataStorage db) → Q a t → Ending Q (ok a, t)
    dropped : (e : ErrorCode) (t : MetadataStorage db) → t.attrs ≡ s.attrs → Ending Q (err e, t)
    crashed : (t : MetadataStorage db) → t.attrs ≡ s.attrs → Ending Q (panic, t)

  closed-Ending :
      {A : Type 0} (Q : A → MetadataStorage db → Type 0) (m : Outcome (A × MetadataStorage db))
      → ((a : A) (t : MetadataStorage db) → m ≡ ok (a, t) → Q a t)
      → Ending Q (close (durability_tick s).1 m)
  unfolding durability_tick
  closed-Ending Q (ok (a, t)) commits = Ending.committed a t (commits a t refl)
  closed-Ending Q (err e) commits = Ending.dropped e _ refl
  closed-Ending Q panic commits = Ending.crashed _ refl

  txn-Ending :
      {A : Type 0} (Q : A → MetadataStorage db → Type 0) (e : ErrorCode)
      (body : MetadataStorage db → Outcome (A × MetadataStorage db))
      → ((a : A) (t : MetadataStorage db) → body (durability_tick s).1 ≡ ok (a, t) → Q a t)
      → Ending Q (write_txn (err e) body s)
  txn-Ending Q e body commits = elim (Bool-cases s.poisoned) [
    | inl h ↦ rw (write_txn_poisoned (err e) body s h) (Ending.dropped e s refl)
    | inr h ↦
        rw (write_txn_live (err e) body s h) (closed-Ending Q (body (durability_tick s).1) commits)
  ]

  -- An inode was made.
  abbrev pub Added : FileKind → ℕ × InodeAttributes → MetadataStorage db → Type 0
  Added kind x t = (x.1.kind ≡ kind) × (t.attrs ≡ db.insert s.attrs x.1.inode x.1)

  put_parent-attrs :
      (t : MetadataStorage db) (i p : ℕ) (b : Bool) → (put_parent t i p b).attrs ≡ t.attrs
  put_parent-attrs t i p true = refl
  put_parent-attrs t i p false = refl

  pub create_inode-Ending :
      (parent uid gid mode : ℕ) (kind : FileKind) (now : Clock)
      → Ending (Added kind) (create_inode parent uid gid mode kind now s)
  unfolding create_inode durability_tick
  create_inode-Ending parent uid gid mode kind now = txn-Ending (Added kind) _ _ λ x t h.
      let a = new_attributes s.next_inode uid gid mode kind now in
      let made : (s.next_inode, a) ≡ x =
        ap (λ (r : (ℕ × InodeAttributes) × MetadataStorage db). r.0) (ok-injective h) in
      let same : t.attrs ≡ db.insert s.attrs s.next_inode a =
        stored s h ∙ put_parent-attrs _ s.next_inode parent (is_directory kind) in
      subst (λ x. Added kind x t) made (refl, same)

  -- The inode that is returned, if any, is gone, and no inode has changed its kind.
  pub record Dropped (deleted : Option ℕ) (t : MetadataStorage db) : Type 0 where
    pub gone : (j : ℕ) → deleted ≡ some j → db.get t.attrs j ≡ none
    pub others : SameKinds s t

  removed-SameKinds :
      (i : ℕ) (t : MetadataStorage db) → t.attrs ≡ db.remove s.attrs i → SameKinds s t
  removed-SameKinds i t e = record {
    kinds = λ j b h.
        let h' = ap (λ attrs. db.get attrs j) (sym e) ∙ h in
        elim (Bool-cases (i == j)) [
          | inl p ↦ absurd (cc (rw (get-remove db s.attrs i j, p) at h'))
          | inr n ↦ (b, rw (get-remove db s.attrs i j, n) at h', refl)
        ];
  }

  removed-Dropped :
      (i : ℕ) (deleted : Option ℕ) (t : MetadataStorage db)
      → ((j : ℕ) → deleted ≡ some j → i ≡ j)
      → t.attrs ≡ db.remove s.attrs i
      → Dropped deleted t
  removed-Dropped i deleted t only e = record {
    gone = λ j h. rw (e, get-remove db s.attrs i j, (==_iff i j).1 (only j h)) refl;
    others = removed-SameKinds i t e;
  }

  delete_inode-Dropped :
      (i : ℕ) (b : Bool) (r : Option ℕ × MetadataStorage db)
      → delete_inode (durability_tick s).1 i b ≡ ok r
      → Dropped r.0 r.1
  unfolding durability_tick
  delete_inode-Dropped i false r h =
      let answer : r.0 ≡ some i =
        sym (ap (λ (r : Option ℕ × MetadataStorage db). r.0) (ok-injective h)) in
      removed-Dropped i r.0 r.1 (λ j e. some-injective i j (sym answer ∙ e)) (stored s h)
  delete_inode-Dropped i true r h =
      let (_, _, last) = >>=-eq-ok (assert (is_empty (db.range s.directory i (next_key i)))) _ h in
      let answer : r.0 ≡ none =
        sym (ap (λ (r : Option ℕ × MetadataStorage db). r.0) (ok-injective last)) in
      removed-Dropped i r.0 r.1 (λ j e. absurd (cc (answer, e))) (stored s last)

  decremented-Dropped :
      (i count : ℕ) (now : Clock) (a : InodeAttributes) (r : Option ℕ × MetadataStorage db)
      → db.get s.attrs i ≡ some a
      → (if links_left a count == 0
          then delete_inode (durability_tick s).1 i (is_directory a.kind)
          else ok (
            none,
            put_attrs
                (durability_tick s).1
                i
                (record a { hardlinks = links_left a count; last_metadata_changed = now 0 }),
          ))
        ≡ ok r
      → Dropped r.0 r.1
  unfolding durability_tick
  decremented-Dropped i count now a r e h = elim (Bool-cases (links_left a count == 0)) [
    | inl b ↦ delete_inode-Dropped i (is_directory a.kind) r (rw b at h)
    | inr b ↦
        let last = rw b at h in
        let answer : r.0 ≡ none =
          sym (ap (λ (r : Option ℕ × MetadataStorage db). r.0) (ok-injective last)) in
        record {
          gone = λ j f. absurd (cc (answer, f));
          others = stored-SameKinds s i a _ r.1 e refl (stored s last);
        }
  ]

  pub decrement_inode_link_count-Ending :
      (i count : ℕ) (now : Clock) → Ending Dropped (decrement_inode_link_count i count now s)
  unfolding decrement_inode_link_count durability_tick
  decrement_inode_link_count-Ending i count now = txn-Ending Dropped _ _ λ x t h.
      let (a, found, rest) = >>=-eq-ok (ok_or (db.get s.attrs i) inode_does_not_exist) _ h in
      decremented-Dropped i count now a (x, t)
        (ok_or-eq-ok (db.get s.attrs i) inode_does_not_exist found) rest
