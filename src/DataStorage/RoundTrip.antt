-- ===== src/DataStorage/RoundTrip.antt =====
-- A write that every node has applied is read back from any of them.
use fleetfs.Prelude.{
  ℕ, zero, suc, ◌+◌, ◌-◌, ◌*◌, ◌%◌, ◌^◌, ◌<◌, ◌≤◌, ◌≡◌, refl, ap, ◌∙◌, true, false, [], ◌∷◌, ◌++◌,
  min, ◌==◌, leb, if◌then◌else◌, length, length-append, take, drop, arith,
}
use fleetfs.Prelude.Slices.{length-take, take-append, drop-append}
use fleetfs.Base.Outcome.{ok}
use fleetfs.Base.Types.{Bytes}
use fleetfs.DataStorage.{to_local_index_ceiling, stores_index}
use fleetfs.DataStorage.Blocks.{slice, local_data}
use fleetfs.DataStorage.Index.{stored_below, to_local_index_ceiling-stored_below}
use fleetfs.DataStorage.Stripe.{stored}
use fleetfs.DataStorage.Scatter.{local_data-stored}
use fleetfs.DataStorage.Files.{
  DataStorage, total_nodes, zeros, pad, write_at, contents, written_file, write_local_blocks,
  read_raw,
}

length-zeros : (k : ℕ) → length (zeros k) ≡ k
length-zeros zero = refl
length-zeros (suc k) = ap suc (length-zeros k)

length-pad : (k : ℕ) (l : Bytes) → k ≤ length (pad k l)
unfolding pad
length-pad k l = omega (arith, length-append l (zeros (k - length l)), length-zeros (k - length l))

-- A file holds what was written into it.
slice-write_at :
    (k : ℕ) (written old : Bytes)
    → take (length written) (drop k (write_at k written old)) ≡ written
unfolding write_at
slice-write_at k written old =
    let front : length (take k (pad k old)) ≡ k =
      omega (arith, length-take k (pad k old), length-pad k old) in
    ap (λ l. take (length written) l)
      (drop-append k (take k (pad k old)) (written ++ drop (k + length written) old) front)
    ∙ take-append (length written) written (drop (k + length written) old) refl

length-write_at :
    (k : ℕ) (written old : Bytes) → k + length written ≤ length (write_at k written old)
unfolding write_at
length-write_at k written old = omega (
  arith,
  length-append (take k (pad k old)) (written ++ drop (k + length written) old),
  length-append written (drop (k + length written) old),
  length-take k (pad k old),
  length-pad k old,
)

-- The number of bytes of a share is the difference of the ends' local indices.
share_count :
    (r n g : ℕ) (l : Bytes)
    → stored_below (g + length l) r n ≡ stored_below g r n + length (stored r n g l)
unfolding stored stored_below
share_count r n g [] =
    let e : g + 0 ≡ g = omega arith in ap (λ i. stored_below i r n) e ∙ omega arith
share_count r n g (x ∷ l) =
    let e : g + suc (length l) ≡ g + 1 + length l = omega arith in
    let s : g + 1 ≡ suc g = omega arith in
    let here : stored_below (g + 1) r n
        ≡ (if stores_index g r n then 1 else 0) + stored_below g r n =
      ap (λ i. stored_below i r n) s in
    ap (λ i. stored_below i r n) e ∙ share_count r n (g + 1) l ∙ ground (arith, here)

-- What a node reads behind its start of a write, up to the write's end.
piece :
    (start : ℕ) (local old : Bytes)
    → (let whole = written_file start local old in
        slice whole start (start + (min (start + length local) (length whole) - start)) ≡ local)
unfolding written_file
piece start [] old =
    let count : (whole : ℕ) → start + (min (start + 0) whole - start) - start ≡ 0 =
      λ (w : ℕ). omega arith in
    ap (λ k. take k (drop start (written_file start [] old)))
      (count (length (written_file start [] old)))
piece start (x ∷ local) old =
    let whole = write_at start (x ∷ local) old in
    let reach = length-write_at start (x ∷ local) old in
    let count : start + (min (start + suc (length local)) (length whole) - start) - start
        ≡ suc (length local) =
      omega arith in
    ap (λ k. take k (drop start whole)) count ∙ slice-write_at start (x ∷ local) old

module _ (inode offset : ℕ) (bytes : Bytes) (d : DataStorage) (file : (inode == 1) ≡ false)
    (room : offset + length bytes + total_nodes d * 512 < 2 ^ 64)
    (h : d.local_rank < total_nodes d) where
  abbrev start : ℕ
  start = to_local_index_ceiling offset d.local_rank (total_nodes d)

  abbrev local : Bytes
  local = local_data offset d.local_rank (total_nodes d) bytes

  range_end :
      to_local_index_ceiling ((offset + length bytes) % 2 ^ 64) d.local_rank (total_nodes d)
      ≡ start + length local
  range_end =
      let r = d.local_rank in
      let n = total_nodes d in
      let small : (offset + length bytes) % 2 ^ 64 ≡ offset + length bytes = omega arith in
      let share = ap length (local_data-stored r n (omega arith) offset bytes (omega arith) h) in
      omega (
        arith,
        ap (λ i. to_local_index_ceiling i r n) small,
        to_local_index_ceiling-stored_below (offset + length bytes) r n (omega arith) h,
        to_local_index_ceiling-stored_below offset r n (omega arith) h,
        share_count r n offset bytes,
        share,
      )

  -- A node's part of the range after the write is its share of the bytes.
  pub read_raw-write_local_blocks :
      read_raw inode offset (length bytes) (write_local_blocks inode offset bytes d).1
      ≡ ok (stored d.local_rank (total_nodes d) offset bytes)
  unfolding read_raw write_local_blocks
  read_raw-write_local_blocks =
      let ordered : leb start (start + length local) ≡ true = ground arith in
      let here : (inode == inode) ≡ true = ground arith in
      let share =
        local_data-stored d.local_rank (total_nodes d) (omega arith) offset bytes (omega arith) h in
      rw (file, range_end, ordered, here)
        (ap (λ x. ok x) (piece start local (contents (d.files inode)) ∙ share))
