-- ===== src/Metadata/Removal.antt =====
-- What `remove_link` removes, and when it refuses.
use fleetfs.Prelude.{
  ℕ, ◌≡◌, refl, sym, ap, subst, ◌∙◌, String, Bool, true, false, not, ◌&&◌, Option, none, some, ◌⊎◌,
  inl, inr, Bool-cases, ◌==◌, ==_iff, if◌then◌else◌,
}
use fleetfs.Base.Outcome.{
  ok, panic, guard, ok_or, access_denied, does_not_exist, inode_does_not_exist, ◌>>◌,
}
use fleetfs.Base.Outcome.Laws.{>>=-eq-ok, ok-injective, ok_or-eq-ok}
use fleetfs.Base.Types.{FileKind, UserContext}
use fleetfs.Redb.{Redb}
use fleetfs.Metadata.{MetadataStorage, InodeAttributes, Clock, durability_tick, put_attrs}
use fleetfs.Metadata.Links.{
  remove_link, may_write, is_sticky, is_stale, sticky_verdict, Verdict, refused, allowed, undecided,
  remove_entry, by_owner,
}
use fleetfs.Metadata.Txn.{SameTables, ticked, edit-eq-ok, through}
use fleetfs.Metadata.Entries.{Entered}

-- The two ways in which the sticky bit lets an entry go.
sticky_verdict-allowed :
    (a : InodeAttributes) (uid : ℕ) (link : Option (ℕ × ℕ))
    → sticky_verdict a uid link ≡ allowed
    → is_sticky a.mode ≡ true
    → (uid ≡ a.uid) ⊎ (uid ≡ 0) ⊎ ((i : ℕ) × (link ≡ some (i, uid)))
unfolding sticky_verdict
sticky_verdict-allowed a uid link h bit = elim (Bool-cases (uid == a.uid)) [
  | inl own ↦ inl ((==_iff uid a.uid).0 own)
  | inr other ↦ elim (Bool-cases (uid == 0)) [
    | inl root ↦ inr (inl ((==_iff uid 0).0 root))
    | inr user ↦ inr (inr (owned link (rw user at (rw other at (rw bit at h)))))
  ]
]
  where
    owned : (l : Option (ℕ × ℕ)) → by_owner uid l ≡ allowed → (i : ℕ) × (l ≡ some (i, uid))
    owned none e = absurd (cc e)
    owned (some (i, owner)) e = elim (Bool-cases (uid == owner)) [
      | inl same ↦ (i, ap (λ u. some (i, u)) (sym ((==_iff uid owner).0 same)))
      | inr differs ↦ absurd (cc (rw differs at e))
    ]

&&-true : (b c : Bool) → (b && c) ≡ true → (b ≡ true) × (c ≡ true)
&&-true true c h = (refl, h)
&&-true false c h = absurd (cc h)

sticky_verdict-undecided :
    (a : InodeAttributes) (uid : ℕ) (link : Option (ℕ × ℕ))
    → sticky_verdict a uid link ≡ undecided
    → (link ≡ none) × (is_sticky a.mode ≡ true)
unfolding sticky_verdict
sticky_verdict-undecided a uid link h =
    elim (Bool-cases (is_sticky a.mode && not (uid == a.uid) && not (uid == 0))) [
      | inl e ↦ (unowned link (rw e at h), (&&-true _ _ (&&-true _ _ e).0).0)
      | inr e ↦ absurd (cc (rw e at h))
    ]
  where
    unowned : (l : Option (ℕ × ℕ)) → by_owner uid l ≡ undecided → l ≡ none
    unowned none e = refl
    unowned (some (i, owner)) e = elim (Bool-cases (uid == owner)) [
      | inl same ↦ absurd (cc (rw same at e))
      | inr differs ↦ absurd (cc (rw differs at e))
    ]

module _ {db : Redb} (parent : ℕ) (name : String) (link : Option (ℕ × ℕ)) (context : UserContext)
    (now : Clock) (s t : MetadataStorage db) where
  -- The state after a complete removal.
  abbrev removed : InodeAttributes → MetadataStorage db
  unfolding durability_tick
  removed a =
      record (put_attrs (durability_tick s).1 parent
        (record a { last_metadata_changed = now 0; last_modified = now 1 })) {
          directory = db.remove s.directory (parent, name);
        }

  gone : (a : InodeAttributes) → Entered s (removed a) parent name none
  unfolding removed
  gone a = record {
    here = db.get-remove_self s.directory (parent, name);
    elsewhere = λ k other. db.get-remove_ne s.directory (parent, name) k other;
  }

  -- What a removal that returns has read, and what it still does.
  removal :
      (inode : ℕ) (complete : Bool)
      → remove_link parent name link context now s ≡ (ok (inode, complete), t)
      → (a : InodeAttributes) × (entry : ℕ × FileKind) × (db.get s.attrs parent ≡ some a)
        × (db.get s.directory (parent, name) ≡ some entry)
        × ((if is_stale link entry.0
              then ok ((entry.0, false), (durability_tick s).1)
              else (guard (may_write a context) access_denied
                  >> remove_entry
                      (durability_tick s).1
                      parent
                      name
                      entry.0
                      a
                      now
                      (sticky_verdict a context.uid link)))
            ≡ ok ((inode, complete), t))
  unfolding remove_link durability_tick
  removal inode complete h =
      let (live, a, found, rest) =
        edit-eq-ok parent panic inode_does_not_exist _ s t (inode, complete) (λ b e. absurd (cc e))
          h in
      let (entry, at_entry, last) =
        >>=-eq-ok (ok_or (db.get s.directory (parent, name)) does_not_exist) _ rest in
      (
        a,
        entry,
        found,
        ok_or-eq-ok (db.get s.directory (parent, name)) does_not_exist at_entry,
        last,
      )

  complete_entry :
      (i inode : ℕ) (a : InodeAttributes) (v : Verdict)
      → remove_entry (durability_tick s).1 parent name i a now v ≡ ok ((inode, true), t)
      → (v ≡ allowed) × (i ≡ inode) × (removed a ≡ t)
  unfolding durability_tick
  complete_entry i inode a refused h = absurd (cc h)
  complete_entry i inode a undecided h = absurd (cc (ok-injective h))
  complete_entry i inode a allowed h = (
    refl,
    ap (λ (r : (ℕ × Bool) × MetadataStorage db). r.0.0) (ok-injective h),
    ap (λ (r : (ℕ × Bool) × MetadataStorage db). r.1) (ok-injective h),
  )

  incomplete_entry :
      (i inode : ℕ) (a : InodeAttributes) (v : Verdict)
      → remove_entry (durability_tick s).1 parent name i a now v ≡ ok ((inode, false), t)
      → (v ≡ undecided) × (i ≡ inode) × ((durability_tick s).1 ≡ t)
  unfolding durability_tick
  incomplete_entry i inode a refused h = absurd (cc h)
  incomplete_entry i inode a undecided h = (
    refl,
    ap (λ (r : (ℕ × Bool) × MetadataStorage db). r.0.0) (ok-injective h),
    ap (λ (r : (ℕ × Bool) × MetadataStorage db). r.1) (ok-injective h),
  )
  incomplete_entry i inode a allowed h = absurd (cc (ok-injective h))

  -- If `remove_link` removes an entry, the entry was there and is the inode that is returned; the
  -- caller may write the directory; an inode that the caller named is the entry's; if the directory is
  -- sticky, the caller owns it, is root, or was named as the owner of the inode. The entry is gone, and
  -- no other entry has changed.
  pub remove_link_complete :
      (inode : ℕ)
      → remove_link parent name link context now s ≡ (ok (inode, true), t)
      → (a : InodeAttributes) × (kind : FileKind) × (db.get s.attrs parent ≡ some a)
        × (db.get s.directory (parent, name) ≡ some (inode, kind))
        × (may_write a context ≡ true)
        × (is_stale link inode ≡ false)
        × (is_sticky a.mode ≡ true
            → (context.uid ≡ a.uid)
              ⊎ (context.uid ≡ 0)
              ⊎ ((i : ℕ) × (link ≡ some (i, context.uid))))
        × Entered s t parent name none
  remove_link_complete inode h =
      let (a, entry, found, at_entry, last) = removal inode true h in
      elim (Bool-cases (is_stale link entry.0)) [
        | inl stale ↦ absurd (cc (ok-injective (rw stale at last)))
        | inr fresh ↦
            let (granted, rest) =
              through (may_write a context) access_denied _ _ (rw fresh at last) in
            let (verdict, named, result) =
              complete_entry entry.0 inode a (sticky_verdict a context.uid link) rest in
            (
              a,
              entry.1,
              found,
              at_entry ∙ ap (λ i. some (i, entry.1)) named,
              granted,
              subst (λ i. is_stale link i ≡ false) named fresh,
              sticky_verdict-allowed a context.uid link verdict,
              subst (λ (r : MetadataStorage db). Entered s r parent name none) result (gone a),
            )
      ]

  -- If `remove_link` returns without removing the entry, nothing has changed: the entry is the inode
  -- that is returned, and the caller named another inode, or named none and the directory is sticky.
  pub remove_link_incomplete :
      (inode : ℕ)
      → remove_link parent name link context now s ≡ (ok (inode, false), t)
      → (a : InodeAttributes) × (kind : FileKind) × (db.get s.attrs parent ≡ some a)
        × (db.get s.directory (parent, name) ≡ some (inode, kind))
        × ((is_stale link inode ≡ true) ⊎ ((link ≡ none) × (is_sticky a.mode ≡ true)))
        × SameTables s t
  remove_link_incomplete inode h =
      let (a, entry, found, at_entry, last) = removal inode false h in
      elim (Bool-cases (is_stale link entry.0)) [
        | inl stale ↦
            let result = ok-injective (rw stale at last) in
            let named : entry.0 ≡ inode =
              ap (λ (r : (ℕ × Bool) × MetadataStorage db). r.0.0) result in
            (
              a,
              entry.1,
              found,
              at_entry ∙ ap (λ i. some (i, entry.1)) named,
              inl (subst (λ i. is_stale link i ≡ true) named stale),
              subst (SameTables s) (ap (λ (r : (ℕ × Bool) × MetadataStorage db). r.1) result)
                  (ticked s),
            )
        | inr fresh ↦
            let (granted, rest) =
              through (may_write a context) access_denied _ _ (rw fresh at last) in
            let (verdict, named, result) =
              incomplete_entry entry.0 inode a (sticky_verdict a context.uid link) rest in
            (
              a,
              entry.1,
              found,
              at_entry ∙ ap (λ i. some (i, entry.1)) named,
              inr (sticky_verdict-undecided a context.uid link verdict),
              subst (SameTables s) result (ticked s),
            )
      ]
