-- ===== src/RaftGroups/Lookup.antt =====
-- Lookups in the manager of src/storage/raft_group_manager.rs.
use fleetfs.Prelude.{
  ℕ, zero, suc, ◌%◌, ◌^◌, ◌<◌, ◌≤◌, Bool, true, false, not, ◌==◌, ==_iff, if◌then◌else◌, some, ◌≡◌,
  ◌≢◌, refl, sym, ap, subst, arith,
}
use native.Mathlib.Nat.{mod-lt, mod-eq_of_lt}
use fleetfs.Prelude.HashMap
use fleetfs.Prelude.HashMap.{HashMap}
use fleetfs.Base.Outcome.{ok, assert}
use fleetfs.Base.Outcome.Laws.{>>=-eq-ok, ok-injective, assert-eq-ok}
use fleetfs.RaftGroups.{
  LocalContext, contains, LocalRaftGroupManager, new_groups, new, inode_stored_locally,
  lookup_by_inode,
}

module _ {Node : Type 0} (make : ℕ → Node) (context : LocalContext) where
  inserted :
      (groups : HashMap Node) (k g : ℕ) (b : Bool)
      → (g == k) ≡ b
      → (g ≢ k → groups g ≡ some (make g))
      → (if b then some (make k) else groups g) ≡ some (make g)
  inserted groups k g true e h = ap (λ x. some (make x)) (sym ((==_iff g k).0 e))
  inserted groups k g false e h = h (λ same. cc (e, (==_iff g k).1 same))

  -- A round of the loop: what is at each key afterwards.
  if_stored :
      (stored : Bool) (groups : HashMap Node) (k g : ℕ)
      → contains context k ≡ ok stored
      → (g < k → groups g ≡ some (make g))
      → g < suc k
      → contains context g ≡ ok true
      → (if stored then HashMap.insert groups k (make k) else groups) g ≡ some (make g)
  if_stored true groups k g e ih h c =
      inserted groups k g (g == k) refl λ other. ih (omega (arith, other))
  if_stored false groups k g e ih h c =
      let other : g ≢ k = λ same. cc (e, c, ap (contains context) same) in ih (omega (arith, other))

  new_groups-stored :
      (k : ℕ) (groups : HashMap Node)
      → new_groups make context k ≡ ok groups
      → (g : ℕ) → g < k
      → contains context g ≡ ok true
      → groups g ≡ some (make g)
  unfolding new_groups
  new_groups-stored zero groups e g h c = absurd (omega arith)
  new_groups-stored (suc k) groups e g h c =
      let (before, e1, rest) = >>=-eq-ok (new_groups make context k) _ e in
      let (stored, e2, last) = >>=-eq-ok (contains context k) _ rest in
      subst (λ (m : HashMap Node). m g ≡ some (make g)) (ok-injective last)
        (if_stored stored before k g e2 (λ below. new_groups-stored k before e1 g below c) h c)

  module _ (rgroups : ℕ) (bounded : rgroups ≤ 2 ^ 16) where
    abbrev manager : HashMap Node → LocalRaftGroupManager Node
    manager groups = record { context = context; total_raft_groups = rgroups; groups = groups }

    -- The group of an inode, as a `u16`.
    group_lem : (inode : ℕ) → 0 < rgroups → inode % rgroups % 2 ^ 16 ≡ inode % rgroups
    group_lem inode h = mod-eq_of_lt (omega (arith, bounded, mod-lt inode h))

    lookup_stored :
        (groups : HashMap Node) (inode : ℕ)
        → new_groups make context rgroups ≡ ok groups
        → inode_stored_locally (manager groups) inode ≡ ok true
        → lookup_by_inode (manager groups) inode ≡ ok (make (inode % rgroups))
    unfolding inode_stored_locally lookup_by_inode
    lookup_stored groups inode made h =
        let (_, e, c) = >>=-eq-ok (assert (not (rgroups == 0))) _ h in
        let some_groups : not (rgroups == 0) ≡ true = assert-eq-ok _ e in
        let pos : 0 < rgroups = ground (arith, some_groups) in
        let g : inode % rgroups % 2 ^ 16 ≡ inode % rgroups = group_lem inode pos in
        let stored : contains context (inode % rgroups) ≡ ok true = rw g at c in
        let found =
          new_groups-stored rgroups groups made (inode % rgroups) (mod-lt inode pos) stored in
        rw (some_groups, g, stored, found) refl

  -- An inode that is stored on this node has its group here: that of its number modulo the number of
  -- groups, of which there are at most 2^16. So neither the assertion nor the index of
  -- `lookup_by_inode` fails.
  pub lookup_by_inode_lem :
      (rgroups : ℕ) (m : LocalRaftGroupManager Node) (inode : ℕ)
      → rgroups ≤ 2 ^ 16
      → new make rgroups context ≡ ok m
      → inode_stored_locally m inode ≡ ok true
      → lookup_by_inode m inode ≡ ok (make (inode % rgroups))
  unfolding new
  lookup_by_inode_lem rgroups m inode bounded made =
      let (groups, e, last) = >>=-eq-ok (new_groups make context rgroups) _ made in
      subst
        (λ (x : LocalRaftGroupManager Node).
          inode_stored_locally x inode ≡ ok true
          → lookup_by_inode x inode ≡ ok (make (inode % rgroups)))
        (ok-injective last) (lookup_stored rgroups bounded groups inode e)
