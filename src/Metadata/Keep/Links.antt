-- ===== src/Metadata/Keep/Links.antt =====
-- The operations on directory entries keep the invariant.
use fleetfs.Prelude.{
  ℕ, ◌≡◌, refl, subst, Bool, true, Option, none, some, inl, inr, Bool-cases, String,
}
use fleetfs.Base.Outcome.{
  Outcome, ok, err, panic, ok_or, unwrap, assert, access_denied, does_not_exist, already_exists,
}
use fleetfs.Base.Outcome.Laws.{>>=-eq-ok, ok-injective}
use fleetfs.Base.Types.{UserContext, FileKind, is_directory}
use fleetfs.Redb.{Redb}
use fleetfs.Metadata.{MetadataStorage, InodeAttributes, Clock, durability_tick}
use fleetfs.Metadata.Read.{lookup}
use fleetfs.Metadata.Links.{
  may_write, link_txn, create_link, replace_link, remove_link, update_parent, is_stale,
  sticky_verdict, remove_entry, Verdict, refused, allowed, undecided,
}
use fleetfs.Metadata.Invariant.{RaftGroup, IsWellFormed, parents-IsWellFormed}
use fleetfs.Metadata.Keep.{
  txn-IsWellFormed, edit-IsWellFormed, stored-IsWellFormed, same_mode, past_guard,
}

module _ {db : Redb} (g : RaftGroup) (s : MetadataStorage db) (w : IsWellFormed g s) where
  link_txn-IsWellFormed :
      (i parent : ℕ) (name : String) (context : UserContext) (kind : FileKind) (now : Clock)
      → IsWellFormed g (link_txn i parent name context kind now s).1
  unfolding link_txn durability_tick
  link_txn-IsWellFormed i parent name context kind now =
      edit-IsWellFormed g s w parent _ _ _ λ a r e h.
        let last = past_guard (may_write a context) access_denied _ r h in
        stored-IsWellFormed g
          (record s { directory = db.insert s.directory (parent, name) (i, kind) }) w parent a _ tt
          r e (same_mode g s w a _ parent refl refl refl) last

  pub create_link-IsWellFormed :
      (i parent : ℕ) (name : String) (context : UserContext) (kind : FileKind) (now : Clock)
      → IsWellFormed g (create_link i parent name context kind now s).1
  unfolding create_link
  create_link-IsWellFormed i parent name context kind now = after (lookup parent name context s)
    where
      after :
          (m : Outcome (Option ℕ))
          → IsWellFormed g
              (let r : Outcome (Unit {0}) × MetadataStorage db = elim m [
                | ok none ↦ link_txn i parent name context kind now s
                | ok (some _) ↦ (err already_exists, s)
                | err e ↦ (err e, s)
                | panic ↦ (panic, s)
              ] in
                r).1
      after (ok none) = link_txn-IsWellFormed i parent name context kind now
      after (ok (some j)) = w
      after (err e) = w
      after panic = w

  pub replace_link-IsWellFormed :
      (parent : ℕ) (name : String) (new_inode : ℕ) (kind : FileKind) (context : UserContext)
      (now : Clock)
      → IsWellFormed g (replace_link parent name new_inode kind context now s).1
  unfolding replace_link durability_tick
  replace_link-IsWellFormed parent name new_inode kind context now =
      edit-IsWellFormed g s w parent _ _ _ λ a r e h.
        let rest = past_guard (may_write a context) access_denied _ r h in
        let (old, _, last) = >>=-eq-ok (unwrap (db.get s.directory (parent, name))) _ rest in
        stored-IsWellFormed g
          (record s { directory = db.insert s.directory (parent, name) (new_inode, kind) }) w parent
          a _ old.0 r e (same_mode g s w a _ parent refl refl refl) last

  remove_entry-IsWellFormed :
      (parent : ℕ) (name : String) (inode : ℕ) (a : InodeAttributes) (now : Clock) (v : Verdict)
      (r : (ℕ × Bool) × MetadataStorage db)
      → db.get s.attrs parent ≡ some a
      → remove_entry (durability_tick s).1 parent name inode a now v ≡ ok r
      → IsWellFormed g r.1
  unfolding durability_tick
  remove_entry-IsWellFormed parent name inode a now refused r e h = absurd (cc h)
  remove_entry-IsWellFormed parent name inode a now undecided r e h =
      subst (λ (r : (ℕ × Bool) × MetadataStorage db). IsWellFormed g r.1) (ok-injective h) w
  remove_entry-IsWellFormed parent name inode a now allowed r e h =
      stored-IsWellFormed g (record s { directory = db.remove s.directory (parent, name) }) w parent
        a _ (inode, true) r e (same_mode g s w a _ parent refl refl refl) h

  pub remove_link-IsWellFormed :
      (parent : ℕ) (name : String) (link : Option (ℕ × ℕ)) (context : UserContext) (now : Clock)
      → IsWellFormed g (remove_link parent name link context now s).1
  unfolding remove_link durability_tick
  remove_link-IsWellFormed parent name link context now =
      edit-IsWellFormed g s w parent _ _ _ λ a r e h.
        let (entry, _, rest) =
          >>=-eq-ok (ok_or (db.get s.directory (parent, name)) does_not_exist) _ h in
        elim (Bool-cases (is_stale link entry.0)) [
          | inl b ↦
              subst (λ (r : (ℕ × Bool) × MetadataStorage db). IsWellFormed g r.1)
                (ok-injective (rw b at rest)) w
          | inr b ↦
              remove_entry-IsWellFormed parent name entry.0 a now
                (sticky_verdict a context.uid link) r e
                (past_guard (may_write a context) access_denied _ r (rw b at rest))
        ]

  pub update_parent-IsWellFormed :
      (i new_parent : ℕ) → IsWellFormed g (update_parent i new_parent s).1
  unfolding update_parent durability_tick
  update_parent-IsWellFormed i new_parent = txn-IsWellFormed g s w _ _ λ x t h.
      let (a, _, rest) = >>=-eq-ok (unwrap (db.get s.attrs i)) _ h in
      let (_, _, last) = >>=-eq-ok (assert (is_directory a.kind)) _ rest in
      subst (λ (r : Unit {0} × MetadataStorage db). IsWellFormed g r.1) (ok-injective last)
        (parents-IsWellFormed g s w i new_parent)
