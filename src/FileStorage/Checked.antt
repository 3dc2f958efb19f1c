-- ===== src/FileStorage/Checked.antt =====
-- `local_data_checksum` of src/storage/local/file_storage.rs returns exactly if no file is missing.
use fleetfs.Prelude.{
  ℕ, ◌≡◌, ◌↔◌, refl, sym, ap, ◌∙◌, true, false, Option, some, List, [], ◌∷◌, inl, inr, Bool-cases,
}
use mathlib.Core.List.{Memᴰ}
use fleetfs.Base.Outcome.{ok, corrupted}
use fleetfs.Base.Outcome.Laws.{>>=-eq-ok, ok-injective}
use fleetfs.Base.Types.{Bytes, is_directory}
use fleetfs.Redb.{Redb}
use fleetfs.Metadata.{InodeAttributes, read_txn}
use fleetfs.Metadata.Txn.{through}
use fleetfs.Metadata.Read.{keep_files, non_directory_inodes}
use fleetfs.DataStorage.Files.{DataStorage, file_inode_exists}
use fleetfs.FileStorage.{FileStorage}
use fleetfs.FileStorage.Reads.{check_files, local_data_checksum}
use fleetfs.FileStorage.HasFiles.{HasFiles}

-- Every entry that is no directory has its file.
abbrev AllThere : DataStorage → List (ℕ × InodeAttributes) → Type 0
AllThere d l =
    (i : ℕ) (a : InodeAttributes)
    → Memᴰ (i, a) l
    → is_directory a.kind ≡ false
    → file_inode_exists i d ≡ true

check_files-keep_files :
    (d : DataStorage) (l : List (ℕ × InodeAttributes))
    → AllThere d l
    → check_files d (keep_files l) ≡ ok tt
unfolding check_files keep_files
check_files-keep_files d [] h = refl
check_files-keep_files d ((i, a) ∷ l) h =
    let rest = check_files-keep_files d l (λ j b m. h j b (Memᴰ.tail m)) in
    elim (Bool-cases (is_directory a.kind)) [
      | inl p ↦ rw p rest
      | inr n ↦ rw (n, h i a (Memᴰ.head refl) n, rest) refl
    ]

-- The check of one entry.
AllThere-∷ :
    (d : DataStorage) (i : ℕ) (a : InodeAttributes) (l : List (ℕ × InodeAttributes))
    → (is_directory a.kind ≡ false → file_inode_exists i d ≡ true)
    → AllThere d l
    → AllThere d ((i, a) ∷ l)
AllThere-∷ d i a l h rest j b (Memᴰ.head e) k =
    let same = ap (λ (x : ℕ × InodeAttributes). x.0) e in
    let kind = ap (λ (x : ℕ × InodeAttributes). is_directory x.1.kind) e in
    ap (λ n. file_inode_exists n d) same ∙ h (sym kind ∙ k)
AllThere-∷ d i a l h rest j b (Memᴰ.tail m) k = rest j b m k

checked-AllThere :
    (d : DataStorage) (l : List (ℕ × InodeAttributes))
    → check_files d (keep_files l) ≡ ok tt
    → AllThere d l
unfolding check_files keep_files
checked-AllThere d [] h = λ i a m k. elim m [ ]
checked-AllThere d ((i, a) ∷ l) h = elim (Bool-cases (is_directory a.kind)) [
  | inl p ↦ AllThere-∷ d i a l (λ n. absurd (cc (p, n))) (checked-AllThere d l (rw p at h))
  | inr n ↦
      let (there, rest) = through (file_inode_exists i d) corrupted _ _ (rw n at h) in
      AllThere-∷ d i a l (λ _. there) (checked-AllThere d l rest)
]

module _ {db : Redb} (checksum : DataStorage → Option Bytes) (f : FileStorage db)
    (hash : Bytes) where
  -- Where the mutex of the metadata is not poisoned and the files can be hashed, `local_data_checksum`
  -- returns the hash exactly if every inode that is no directory has its file in the data storage.
  pub local_data_checksum-HasFiles :
      f.metadata_storage.poisoned ≡ false
      → checksum f.data_storage ≡ some hash
      → (local_data_checksum checksum f ≡ ok hash) ↔ HasFiles f
  unfolding local_data_checksum non_directory_inodes read_txn
  local_data_checksum-HasFiles live hashed = (
    λ h.
        let (inodes, listed, rest) = >>=-eq-ok (non_directory_inodes f.metadata_storage) _ h in
        let (_, checked, _) = >>=-eq-ok (check_files f.data_storage inodes) _ rest in
        let same : keep_files (db.iter f.metadata_storage.attrs) ≡ inodes =
          ok-injective (rw live at listed) in
        let there =
          checked-AllThere f.data_storage _ (ap (check_files f.data_storage) same ∙ checked) in
        record { files = λ i a e k. there i a ((db.mem-iter f.metadata_storage.attrs i a).1 e) k },
    λ h.
        let there =
          check_files-keep_files f.data_storage _
            λ i a m. h.files i a ((db.mem-iter f.metadata_storage.attrs i a).0 m) in
        rw (live, there, hashed) refl,
  )
