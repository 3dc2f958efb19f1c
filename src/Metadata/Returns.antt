-- ===== src/Metadata/Returns.antt =====
-- When operations of the metadata return: what they ask for is enough.
use mathlib.Core.Option
use fleetfs.Prelude.{
  ℕ, ◌≡◌, ◌≢◌, refl, ◌∙◌, String, true, false, Option, none, some, ◌⊎◌, inl, inr, Bool-cases, ◌==◌,
  ==_iff, arith,
}
use fleetfs.Base.Access.{w_ok}
use fleetfs.Base.Access.Laws.{Grants, class_bits, check_access-Grants, check_access_root}
use fleetfs.Base.Outcome.{ok, panic}
use fleetfs.Base.Types.{FileKind, UserContext}
use fleetfs.Redb.{Redb}
use fleetfs.Metadata.{MetadataStorage, InodeAttributes, Clock, durability_tick, put_attrs}
use fleetfs.Metadata.Links.{
  remove_link, may_write, is_stale, sticky_verdict, allowed, is_sticky, by_owner,
}
use fleetfs.Metadata.Txn.{write_txn_live}
use fleetfs.Metadata.Entries.{Entered}

-- An inode that the caller named, if any, is the entry's.
named-fresh :
    (link : Option (ℕ × ℕ)) (inode : ℕ)
    → (link ≡ none) ⊎ ((owner : ℕ) × (link ≡ some (inode, owner)))
    → is_stale link inode ≡ false
named-fresh link inode (inl e) = rw e refl
named-fresh link inode (inr (owner, e)) = rw (e, (==_iff inode inode).1 refl) refl

writer-may_write :
    (a : InodeAttributes) (context : UserContext)
    → (context.uid ≡ 0) ⊎ Grants w_ok (class_bits a.uid a.gid a.mode context.uid context.gid)
    → may_write a context ≡ true
writer-may_write a context h = elim (Bool-cases (context.uid == 0)) [
  | inl root ↦
      rw ((==_iff context.uid 0).0 root)
        ((check_access_root a.uid a.gid a.mode context.gid w_ok (omega arith)).1 (omega arith))
  | inr user ↦ writer h (λ e. cc (user, (==_iff context.uid 0).1 e))
]
  where
    writer :
        (context.uid ≡ 0) ⊎ Grants w_ok (class_bits a.uid a.gid a.mode context.uid context.gid)
        → context.uid ≢ 0
        → may_write a context ≡ true
    writer (inl root) nonroot = absurd (nonroot root)
    writer (inr granted) nonroot =
        (check_access-Grants a.uid a.gid a.mode context.uid context.gid w_ok nonroot
            (omega arith)).1
          granted

owner-allowed :
    (a : InodeAttributes) (uid : ℕ) (link : Option (ℕ × ℕ))
    → (is_sticky a.mode ≡ false) ⊎ (uid ≡ a.uid) ⊎ (uid ≡ 0) ⊎ ((i : ℕ) × (link ≡ some (i, uid)))
    → sticky_verdict a uid link ≡ allowed
unfolding sticky_verdict
owner-allowed a uid link h = elim (Bool-cases (is_sticky a.mode)) [
  | inr b ↦ rw b refl
  | inl b ↦ elim (Bool-cases (uid == a.uid)) [
    | inl own ↦ rw (b, own) refl
    | inr other ↦ elim (Bool-cases (uid == 0)) [
      | inl root ↦ rw (b, other, root) refl
      | inr user ↦ rw (b, other, user) (owned h b other user)
    ]
  ]
]
  where
    owned :
        (is_sticky a.mode ≡ false) ⊎ (uid ≡ a.uid) ⊎ (uid ≡ 0) ⊎ ((i : ℕ) × (link ≡ some (i, uid)))
        → is_sticky a.mode ≡ true
        → (uid == a.uid) ≡ false
        → (uid == 0) ≡ false
        → by_owner uid link ≡ allowed
    owned (inl e) b other user = absurd (cc (e, b))
    owned (inr (inl e)) b other user = absurd (cc ((==_iff uid a.uid).1 e, other))
    owned (inr (inr (inl e))) b other user = absurd (cc ((==_iff uid 0).1 e, user))
    owned (inr (inr (inr (i, e)))) b other user = rw (e, (==_iff uid uid).1 refl) refl

module _ {db : Redb} (s : MetadataStorage db) (live : s.poisoned ≡ false) (context : UserContext)
    (now : Clock) (parent : ℕ) (name : String) (a : InodeAttributes)
    (found : db.get s.attrs parent ≡ some a) where
  -- `remove_link` removes an entry if the mutex is not poisoned, the directory and the entry are there,
  -- the caller named no inode or the entry's, the caller is root or has write permission by the bits of
  -- its class (owner, group or other), and the directory is not sticky, or the caller owns it, is root,
  -- or was named as the owner of the inode. It returns the inode of the entry; the entry is gone then, and
  -- no other entry has changed.
  pub remove_link_returns :
      (link : Option (ℕ × ℕ)) (inode : ℕ) (kind : FileKind)
      → db.get s.directory (parent, name) ≡ some (inode, kind)
      → (link ≡ none) ⊎ ((owner : ℕ) × (link ≡ some (inode, owner)))
      → (context.uid ≡ 0) ⊎ Grants w_ok (class_bits a.uid a.gid a.mode context.uid context.gid)
      → (is_sticky a.mode ≡ false)
        ⊎ (context.uid ≡ a.uid)
        ⊎ (context.uid ≡ 0)
        ⊎ ((i : ℕ) × (link ≡ some (i, context.uid)))
      → (t : MetadataStorage db) × (remove_link parent name link context now s
          ≡ (ok (inode, true), t))
        × Entered s t parent name none
  unfolding remove_link durability_tick
  remove_link_returns link inode kind entry named writer owner =
      let fresh : is_stale link inode ≡ false = named-fresh link inode named in
      let granted : may_write a context ≡ true = writer-may_write a context writer in
      let verdict : sticky_verdict a context.uid link ≡ allowed =
        owner-allowed a context.uid link owner in
      let t : MetadataStorage db =
        record (put_attrs (durability_tick s).1 parent
          (record a { last_metadata_changed = now 0; last_modified = now 1 })) {
            directory = db.remove s.directory (parent, name);
          } in
      (
        t,
        write_txn_live panic _ s live ∙ rw (found, entry, fresh, granted, verdict) refl,
        record {
          here = db.get-remove_self s.directory (parent, name);
          elsewhere = λ k other. db.get-remove_ne s.directory (parent, name) k other;
        },
      )
