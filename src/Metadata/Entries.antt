-- ===== src/Metadata/Entries.antt =====
-- What the operations on directory entries do to the table of entries.
use mathlib.Core.Option
use mathlib.Core.Option.{some-injective}
use fleetfs.Prelude.{
  ℕ, ◌≡◌, ◌≢◌, refl, sym, ap, subst, ◌∙◌, String, Bool, true, false, Option, none, some, inl, inr,
  Bool-cases, ltb,
}
use Prim.Native.String.{len}
use fleetfs.Base.Outcome.{
  Outcome, ok, err, panic, corrupted, ok_or, access_denied, inode_does_not_exist,
}
use fleetfs.Base.Outcome.Laws.{>>=-eq-ok, ok-injective, ok_or-eq-ok}
use fleetfs.Base.Types.{FileKind, UserContext}
use fleetfs.Base.Access.{check_access, x_ok}
use fleetfs.Redb.{Redb}
use fleetfs.Metadata.{
  MetadataStorage, InodeAttributes, Clock, durability_tick, max_name_length, read_txn,
}
use fleetfs.Metadata.Read.{lookup}
use fleetfs.Metadata.Links.{link_txn, create_link, may_write, touch_parent}
use fleetfs.Metadata.Txn.{edit-eq-ok, no_value, through}

-- Whether a user may search a directory.
abbrev pub may_search : InodeAttributes → UserContext → Bool
may_search a context = check_access a.uid a.gid a.mode context.uid context.gid x_ok

module _ {db : Redb} (s t : MetadataStorage db) where
  -- The table of entries after a write to one of its keys.
  pub record Entered (parent : ℕ) (name : String) (value : Option (ℕ × FileKind)) : Type 0 where
    pub here : db.get t.directory (parent, name) ≡ value
    pub elsewhere :
        (k : ℕ × String)
        → ◌≢◌ {A = ℕ × String} (parent, name) k
        → db.get t.directory k ≡ db.get s.directory k

module _ {db : Redb} where
  -- What a lookup that returns has read.
  pub lookup-eq-ok :
      (parent : ℕ) (name : String) (context : UserContext) (s : MetadataStorage db) (o : Option ℕ)
      → lookup parent name context s ≡ ok o
      → (ltb max_name_length (len name) ≡ false)
        × (s.poisoned ≡ false)
        × (a : InodeAttributes) × (db.get s.attrs parent ≡ some a)
        × (may_search a context ≡ true)
        × (Option.map (λ (e : ℕ × FileKind). e.0) (db.get s.directory (parent, name)) ≡ o)
  unfolding lookup read_txn
  lookup-eq-ok parent name context s o h = elim (Bool-cases (ltb max_name_length (len name))) [
    | inl long ↦ absurd (cc (rw long at h))
    | inr short ↦ elim (Bool-cases s.poisoned) [
      | inl stopped ↦ absurd (cc (rw stopped at (rw short at h)))
      | inr live ↦
          let (a, found, rest) =
            >>=-eq-ok (ok_or (db.get s.attrs parent) inode_does_not_exist) _
              (rw live at (rw short at h)) in
          let (searched, last) = through (may_search a context) access_denied _ o rest in
          (
            short,
            live,
            a,
            ok_or-eq-ok (db.get s.attrs parent) inode_does_not_exist found,
            searched,
            ok-injective last,
          )
    ]
  ]

  -- And the other way round.
  pub lookup_reads :
      (parent : ℕ) (name : String) (context : UserContext) (s : MetadataStorage db)
      (a : InodeAttributes)
      → s.poisoned ≡ false
      → ltb max_name_length (len name) ≡ false
      → db.get s.attrs parent ≡ some a
      → may_search a context ≡ true
      → lookup parent name context s
        ≡ ok (Option.map (λ (e : ℕ × FileKind). e.0) (db.get s.directory (parent, name)))
  unfolding lookup read_txn
  lookup_reads parent name context s a live short found searched =
      rw short (rw live (rw found (rw searched refl)))

  linked :
      (inode parent : ℕ) (name : String) (context : UserContext) (kind : FileKind) (now : Clock)
      (s t : MetadataStorage db)
      → link_txn inode parent name context kind now s ≡ (ok tt, t)
      → (a : InodeAttributes) × (db.get s.attrs parent ≡ some a)
        × (may_write a context ≡ true)
        × (record (touch_parent (durability_tick s).1 parent a now) {
          directory = db.insert s.directory (parent, name) (inode, kind);
        }
            ≡ t)
  unfolding link_txn durability_tick
  linked inode parent name context kind now s t h =
      let (live, a, found, rest) =
        edit-eq-ok parent (err corrupted) inode_does_not_exist _ s t tt (no_value corrupted) h in
      let (granted, last) = through (may_write a context) access_denied _ (tt, t) rest in
      (a, found, granted, ap (λ (r : Unit {0} × MetadataStorage db). r.1) (ok-injective last))

  -- `create_link` gets as far as its transaction only if the lookup found nothing.
  create_link-eq-ok :
      (inode parent : ℕ) (name : String) (context : UserContext) (kind : FileKind) (now : Clock)
      (s t : MetadataStorage db) (o : Outcome (Option ℕ))
      → lookup parent name context s ≡ o
      → create_link inode parent name context kind now s ≡ (ok tt, t)
      → (o ≡ ok none) × (link_txn inode parent name context kind now s ≡ (ok tt, t))
  unfolding create_link
  create_link-eq-ok inode parent name context kind now s t (ok none) e h =
      (refl, rw (create_link, e) at h)
  create_link-eq-ok inode parent name context kind now s t (ok (some i)) e h =
      absurd
        (cc (ap (λ (r : Outcome (Unit {0}) × MetadataStorage db). r.0) (rw (create_link, e) at h)))
  create_link-eq-ok inode parent name context kind now s t (err c) e h =
      absurd
        (cc (ap (λ (r : Outcome (Unit {0}) × MetadataStorage db). r.0) (rw (create_link, e) at h)))
  create_link-eq-ok inode parent name context kind now s t panic e h =
      absurd
        (cc (ap (λ (r : Outcome (Unit {0}) × MetadataStorage db). r.0) (rw (create_link, e) at h)))

  looked_up :
      (inode parent : ℕ) (name : String) (context : UserContext) (kind : FileKind) (now : Clock)
      (s t : MetadataStorage db) (a : InodeAttributes)
      → s.poisoned ≡ false
      → ltb max_name_length (len name) ≡ false
      → may_search a context ≡ true
      → record (touch_parent (durability_tick s).1 parent a now) {
        directory = db.insert s.directory (parent, name) (inode, kind);
      }
        ≡ t
      → Entered s t parent name (some (inode, kind))
        × (lookup parent name context t ≡ ok (some inode))
  unfolding durability_tick
  looked_up inode parent name context kind now s t a live short searched e =
      let attrs' : InodeAttributes = record a {
        last_modified = now 0;
        last_metadata_changed = now 1;
      } in
      let entry : ℕ × FileKind = (inode, kind) in
      subst
        (λ (r : MetadataStorage db).
          Entered s r parent name (some entry) × (lookup parent name context r ≡ ok (some inode)))
        e
        (
          record {
            here = db.get-insert_self s.directory (parent, name) entry;
            elsewhere = λ k other. db.get-insert_ne s.directory (parent, name) k entry other;
          },
          lookup_reads parent name context
                (record (touch_parent (durability_tick s).1 parent a now) {
                  directory = db.insert s.directory (parent, name) entry;
                })
                attrs' live short (db.get-insert_self s.attrs parent attrs') searched
              ∙ ap (λ (o : Option (ℕ × FileKind)). ok (Option.map (λ (e : ℕ × FileKind). e.0) o))
                  (db.get-insert_self s.directory (parent, name) entry),
        )

  -- If `create_link` returns, its lookup found no entry of the name; from then on the same lookup finds
  -- the inode, and no other entry has changed.
  pub create_link-lookup :
      (inode parent : ℕ) (name : String) (context : UserContext) (kind : FileKind) (now : Clock)
      (s t : MetadataStorage db)
      → create_link inode parent name context kind now s ≡ (ok tt, t)
      → (lookup parent name context s ≡ ok none)
        × Entered s t parent name (some (inode, kind))
        × (lookup parent name context t ≡ ok (some inode))
  create_link-lookup inode parent name context kind now s t h =
      let (absent, ran) = create_link-eq-ok inode parent name context kind now s t _ refl h in
      let (a, found, granted, result) = linked inode parent name context kind now s t ran in
      let (short, live, b, found', searched, _) = lookup-eq-ok parent name context s none absent in
      let searched' =
        subst (λ x. may_search x context ≡ true) (some-injective b a (sym found' ∙ found))
          searched in
      let (entered, found_after) =
        looked_up inode parent name context kind now s t a live short searched' result in
      (absent, entered, found_after)
