-- ===== src/Fsck/Agreement.antt =====
-- What `fsck` of src/storage/message_handlers/fsck_handler.rs finds out.
use fleetfs.Prelude.{
  ℕ, Bool, true, false, ◌==◌, ◌&&◌, ==_iff, if◌then◌else◌, Option, none, some, List, [], ◌∷◌, ◌≡◌,
  refl, ap, ◌∙◌, subst, arith,
}
use fleetfs.Prelude.HashMap
use fleetfs.Base.Outcome.{Outcome, ok, err, panic, guard, corrupted}
use fleetfs.Base.Outcome.Laws.{>>=-eq-ok, ok-injective, guard-eq-ok}
use fleetfs.Base.Types.{Bytes}
use fleetfs.Base.Response.{Response}
use fleetfs.Fsck.{
  Checksums, LocalGroup, same_bytes, local_checksums, or_insert, compare_peer, compare_peers, fsck,
}

numbers_same : (x y : ℕ) (b : Bool) → ((x == y) && b) ≡ true → (x ≡ y) × (b ≡ true)
numbers_same x y b h = ground arith

same_bytes_sound : (a b : Bytes) → same_bytes a b ≡ true → a ≡ b
unfolding same_bytes
same_bytes_sound [] [] h = refl
same_bytes_sound [] (y ∷ ys) h = absurd (cc h)
same_bytes_sound (x ∷ xs) [] h = absurd (cc h)
same_bytes_sound (x ∷ xs) (y ∷ ys) h =
    let (e, rest) = numbers_same x y (same_bytes xs ys) h in
    ap (λ z. z ∷ xs) e ∙ ap (λ l. y ∷ l) (same_bytes_sound xs ys rest)

-- Every checksum of a list stands in the map.
pub data Agrees (all : Checksums) : List (ℕ × Bytes) → Type 0 where
  none_left : Agrees all []
  one_more :
      {group : ℕ} {checksum : Bytes} {rest : List (ℕ × Bytes)}
      → all group ≡ some checksum
      → Agrees all rest
      → Agrees all ((group, checksum) ∷ rest)

-- The lists of all peers, each of which answered.
pub data AllAgree (all : Checksums) : List (Outcome (List (ℕ × Bytes))) → Type 0 where
  no_peer : AllAgree all []
  one_peer :
      {sums : List (ℕ × Bytes)} {rest : List (Outcome (List (ℕ × Bytes)))}
      → Agrees all sums
      → AllAgree all rest
      → AllAgree all (ok sums ∷ rest)

-- A map keeps what another has.
abbrev pub Extends : Checksums → Checksums → Type 0
Extends new old =
    (group : ℕ) (checksum : Bytes) → old group ≡ some checksum → new group ≡ some checksum

Agrees-Extends :
    (new old : Checksums) (l : List (ℕ × Bytes)) → Extends new old → Agrees old l → Agrees new l
Agrees-Extends new old l h Agrees.none_left = Agrees.none_left
Agrees-Extends new old ((group, checksum) ∷ rest) h (Agrees.one_more e k) =
    Agrees.one_more (h group checksum e) (Agrees-Extends new old rest h k)

insert_if :
    (b : Bool) (group i : ℕ) (x y : Bytes) (all : Checksums)
    → (i == group) ≡ b
    → all group ≡ none
    → all i ≡ some y
    → (if b then some x else all i) ≡ some y
insert_if true group i x y all e h k = absurd (cc (h, k, ap all ((==_iff i group).0 e)))
insert_if false group i x y all e h k = k

or_insert-Extends :
    (o : Option Bytes) (all : Checksums) (group : ℕ) (x : Bytes)
    → all group ≡ o
    → Extends (or_insert o all group x).1 all
or_insert-Extends none all group x h = λ i y k. insert_if (i == group) group i x y all refl h k
or_insert-Extends (some e) all group x h = λ i y k. k

or_insert-entry :
    (o : Option Bytes) (all : Checksums) (group : ℕ) (x : Bytes)
    → all group ≡ o
    → (or_insert o all group x).1 group ≡ some (or_insert o all group x).0
or_insert-entry none all group x h = rw ((==_iff group group).1 refl) refl
or_insert-entry (some e) all group x h = h

compare_peer-Agrees :
    (l : List (ℕ × Bytes)) (all all' : Checksums)
    → compare_peer l all ≡ ok all'
    → Extends all' all × Agrees all' l
unfolding compare_peer
compare_peer-Agrees [] all all' h =
    (λ i y k. subst (λ (m : Checksums). m i ≡ some y) (ok-injective h) k, Agrees.none_left)
compare_peer-Agrees ((group, x) ∷ rest) all all' h =
    let r = or_insert (all group) all group x in
    let (_, g, last) = >>=-eq-ok (guard (same_bytes r.0 x) corrupted) _ h in
    let e : r.0 ≡ x = same_bytes_sound r.0 x (guard-eq-ok _ corrupted g) in
    let (more, agree) = compare_peer-Agrees rest r.1 all' last in
    (
      λ i y k. more i y (or_insert-Extends (all group) all group x refl i y k),
      Agrees.one_more
          (more group x (or_insert-entry (all group) all group x refl ∙ ap (λ z. some z) e)) agree,
    )

compare_peers-AllAgree :
    (l : List (Outcome (List (ℕ × Bytes)))) (all all' : Checksums)
    → compare_peers l all ≡ ok all'
    → Extends all' all × AllAgree all' l
unfolding compare_peers
compare_peers-AllAgree [] all all' h =
    (λ i y k. subst (λ (m : Checksums). m i ≡ some y) (ok-injective h) k, AllAgree.no_peer)
compare_peers-AllAgree (ok sums ∷ rest) all all' h =
    let (next, e, last) = >>=-eq-ok (compare_peer sums all) _ h in
    let (kept, agree) = compare_peer-Agrees sums all next e in
    let (more, others) = compare_peers-AllAgree rest next all' last in
    (
      λ i y k. more i y (kept i y k),
      AllAgree.one_peer (Agrees-Extends all' next sums more agree) others,
    )
compare_peers-AllAgree (err code ∷ rest) all all' h = absurd (cc h)
compare_peers-AllAgree (panic ∷ rest) all all' h = absurd (cc h)

-- If `fsck` succeeds then all peers answered, and there is one checksum for each group with which every
-- node that stores the group agrees: the local checksums, and all that the peers sent.
pub fsck-AllAgree :
    (groups : List LocalGroup) (peers : List (Outcome (List (ℕ × Bytes))))
    → fsck groups peers ≡ ok Response.empty
    → (local : Checksums) × (all : Checksums) × (local_checksums groups HashMap.empty ≡ ok local)
      × Extends all local
      × AllAgree all peers
unfolding fsck
fsck-AllAgree groups peers h =
    let (local, e, rest) = >>=-eq-ok (local_checksums groups HashMap.empty) _ h in
    let (all, k, last) = >>=-eq-ok (compare_peers peers local) _ rest in
    let (more, agree) = compare_peers-AllAgree peers local all k in (local, all, e, more, agree)
