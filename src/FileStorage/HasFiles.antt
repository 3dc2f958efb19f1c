-- ===== src/FileStorage/HasFiles.antt =====
-- Every inode that is no directory has its file in the data storage of the node: what
-- `local_data_checksum` of src/storage/local/file_storage.rs checks, and what the parts of its
-- operations do to it.
use fleetfs.Prelude.{
  ℕ, ◌≡◌, refl, sym, ap, subst, ◌∙◌, Bool, true, false, Option, none, some, is_some, inl, inr, ◌==◌,
  ==_iff, Bool-cases, ◌⊎◌,
}
use mathlib.Core.Option.{some-injective}
use fleetfs.Prelude.HashMap
use fleetfs.Base.Outcome.{ok, err, panic, does_not_exist}
use fleetfs.Base.Types.{Bytes, FileKind, is_directory}
use fleetfs.Redb.{Redb}
use fleetfs.Redb.Laws.{get-insert}
use fleetfs.Metadata.{MetadataStorage, InodeAttributes}
use fleetfs.Metadata.Kinds.{SameKinds}
use fleetfs.Metadata.Kinds.Inodes.{Added, Dropped}
use fleetfs.DataStorage.Files
use fleetfs.DataStorage.Files.{DataStorage, file_inode_exists, put_file}
use fleetfs.FileStorage.{FileStorage}
use fleetfs.FileStorage.Updates.{new_data, deleted, delete_data}

put_file-exists :
    (d : DataStorage) (i j : ℕ) (bytes : Bytes)
    → (i ≡ j) ⊎ (file_inode_exists j d ≡ true)
    → file_inode_exists j (put_file d i bytes) ≡ true
unfolding file_inode_exists
put_file-exists d i j bytes h = elim (Bool-cases (j == i)) [
  | inl e ↦ rw e refl
  | inr n ↦ rw n (elsewhere h n)
]
  where
    elsewhere :
        (i ≡ j) ⊎ (is_some (d.files j) ≡ true) → (j == i) ≡ false → is_some (d.files j) ≡ true
    elsewhere (inl e) n = absurd (cc ((==_iff j i).1 (sym e), n))
    elsewhere (inr old) n = old

module _ {db : Redb} where
  pub record HasFiles (f : FileStorage db) : Type 0 where
    pub files :
        (i : ℕ) (a : InodeAttributes)
        → db.get f.metadata_storage.attrs i ≡ some a
        → is_directory a.kind ≡ false
        → file_inode_exists i f.data_storage ≡ true

  pub HasFiles-SameKinds :
      (f : FileStorage db) (t : MetadataStorage db)
      → HasFiles f
      → SameKinds f.metadata_storage t
      → HasFiles (record f { metadata_storage = t })
  HasFiles-SameKinds f t h same = record {
    files = λ i b e k.
        let (a, found, kind) = same.kinds i b e in
        h.files i a found (ap is_directory (sym kind) ∙ k);
  }

  -- A file is written, or made.
  pub put_file-HasFiles :
      (f : FileStorage db) (i : ℕ) (bytes : Bytes)
      → HasFiles f
      → HasFiles (record f { data_storage = put_file f.data_storage i bytes })
  put_file-HasFiles f i bytes h = record {
    files = λ j a e k. put_file-exists f.data_storage i j bytes (inr (h.files j a e k));
  }

  -- An inode was added, and its data.
  made-HasFiles :
      (f : FileStorage db) (t : MetadataStorage db) (i : ℕ) (a : InodeAttributes) (b : Bool)
      → HasFiles f
      → t.attrs ≡ db.insert f.metadata_storage.attrs i a
      → is_directory a.kind ≡ b
      → HasFiles (new_data i b (record f { metadata_storage = t }))
  unfolding new_data Files.truncate
  made-HasFiles f t i a true h e k = record {
    files = λ j c found file.
        let found' = ap (λ attrs. db.get attrs j) (sym e) ∙ found in
        elim (Bool-cases (i == j)) [
          | inl p ↦
              let same : a ≡ c =
                some-injective a c
                  (rw (get-insert db f.metadata_storage.attrs i j a, p) at found') in
              absurd (cc (k, ap (λ (c : InodeAttributes). is_directory c.kind) same, file))
          | inr n ↦
              h.files j c (rw (get-insert db f.metadata_storage.attrs i j a, n) at found') file
        ];
  }
  made-HasFiles f t i a false h e k = record {
    files = λ j c found file.
        let found' = ap (λ attrs. db.get attrs j) (sym e) ∙ found in
        put_file-exists f.data_storage i j _ (elim (Bool-cases (i == j)) [
          | inl p ↦ inl ((==_iff i j).0 p)
          | inr n ↦
              inr
                (h.files j c (rw (get-insert db f.metadata_storage.attrs i j a, n) at found') file)
        ]);
  }

  pub new_data-HasFiles :
      (f : FileStorage db) (t : MetadataStorage db) (kind : FileKind) (x : ℕ × InodeAttributes)
      → HasFiles f
      → Added f.metadata_storage kind x t
      → HasFiles (new_data x.1.inode (is_directory kind) (record f { metadata_storage = t }))
  new_data-HasFiles f t kind x h (same, e) =
      made-HasFiles f t x.1.inode x.1 (is_directory kind) h e (ap is_directory same)

  -- The file of an inode that is gone is deleted.
  removed-HasFiles :
      (f : FileStorage db) (i : ℕ)
      → HasFiles f
      → db.get f.metadata_storage.attrs i ≡ none
      → HasFiles (record f {
        data_storage = record f.data_storage { files = HashMap.remove f.data_storage.files i };
      })
  unfolding file_inode_exists
  removed-HasFiles f i h gone = record {
    files = λ j a found file. elim (Bool-cases (j == i)) [
      | inl p ↦
          absurd (cc (gone, ap (λ k. db.get f.metadata_storage.attrs k) ((==_iff j i).0 p), found))
      | inr n ↦ rw n (h.files j a found file)
    ];
  }

  delete-HasFiles :
      (f : FileStorage db) (i : ℕ) (b : Bool) (o : Option Bytes)
      → HasFiles f
      → db.get f.metadata_storage.attrs i ≡ none
      → (i == 1) ≡ b
      → f.data_storage.files i ≡ o
      → HasFiles (deleted (Files.delete i f.data_storage) f).1
  unfolding Files.delete deleted
  delete-HasFiles f i true o h gone p e =
      let result : Files.delete i f.data_storage ≡ (panic, f.data_storage) =
        rw (p, Files.delete) refl in
      subst (λ r. HasFiles (deleted r f).1) (sym result) h
  delete-HasFiles f i false none h gone p e =
      let result : Files.delete i f.data_storage ≡ (err does_not_exist, f.data_storage) =
        rw (p, e, Files.delete) refl in
      subst (λ r. HasFiles (deleted r f).1) (sym result) h
  delete-HasFiles f i false (some bytes) h gone p e =
      let d : DataStorage = record f.data_storage {
        files = HashMap.remove f.data_storage.files i;
      } in
      let result : Files.delete i f.data_storage ≡ (ok tt, d) = rw (p, e, Files.delete) refl in
      subst (λ r. HasFiles (deleted r f).1) (sym result) (removed-HasFiles f i h gone)

  pub delete_data-HasFiles :
      (f : FileStorage db) (t : MetadataStorage db) (i : Option ℕ)
      → HasFiles f
      → Dropped f.metadata_storage i t
      → HasFiles (delete_data i (record f { metadata_storage = t })).1
  unfolding delete_data
  delete_data-HasFiles f t none h d = HasFiles-SameKinds f t h d.others
  delete_data-HasFiles f t (some i) h d =
      delete-HasFiles (record f { metadata_storage = t }) i (i == 1) (f.data_storage.files i)
        (HasFiles-SameKinds f t h d.others) (d.gone i refl) refl refl
