-- ===== src/Yugabyte/Store/Indexing/Answers.antt =====
-- The reads of the index directory over Cassandra after `AddIndex`.
use txcartool.Common.{
  ℕ, ◌≡◌, ◌≢◌, refl, ap, ◌∙◌, Bool, true, false, not, ◌&&◌, ◌||◌, ◌==◌, Option, none, some, List,
  [], ◌∷◌, Bytes, ok, bytes_eq, bytes_eq_iff, bytes_eq_refl, any, any-const, any-ext, arith, inl,
}
use txcartool.Ldb.Model.{Cid, Multihash, Time, Record, OffsetSize}
use txcartool.Yugabyte.Db.{MetadataRow, Cassandra, Texts, Entry}
use txcartool.Yugabyte.Errors.{trim_multihash}
use txcartool.Yugabyte.Settings.{Settings}
use txcartool.Yugabyte.Works.{
  Works, Reads, put_metadata, set_indexed, updated_row, unless_there, new_row,
}
use txcartool.Yugabyte.Works.Entries.{
  os_eq, is_block, is_other_block, is_holder, inserted, blocks-inserted_ne, blocks-inserted,
  holders-inserted,
}
use txcartool.Yugabyte.Store.{
  get_offset_size, pieces_containing_multihash, is_indexed, indexed_at, is_complete_index,
  get_metadata_row, piece_metadata_version,
}
use txcartool.Yugabyte.Store.Indexing.{piece_entry, block_entry, add_index}
use txcartool.Yugabyte.Store.Reads.{
  listed, listed-pieces_containing_multihash, get_metadata_row_lem, row_or_absent,
}
use txcartool.Yugabyte.Store.Indexing.Found.{
  sent_entries, any-sent_entries, indexed_tables, add_index-tables,
}

module _ {S : Type 0} (db : Cassandra S) (works : Works db) (tx : Texts) (settings : Settings)
    (schedule schedule' : List ℕ) (pc : Cid) (r : Record) (recs : List Record) (complete : Bool)
    (created now : Time) (s : S) where
  abbrev pub after : S
  after = (add_index db tx settings schedule schedule' pc (r ∷ recs) complete created now s).1

  abbrev pub pieces : List Entry
  pieces = sent_entries db works tx settings schedule (piece_entry db tx settings pc) (r ∷ recs)

  abbrev pub blocks : List Entry
  blocks = sent_entries db works tx settings schedule' (block_entry db tx settings pc) (r ∷ recs)

  abbrev pub of_hash : Multihash → Record → Bool
  of_hash m rec = bytes_eq (tx.cid_hash rec.cid) m

  -- a record of the multihash with another offset or size
  abbrev pub differs : Multihash → OffsetSize → Record → Bool
  differs m os rec = of_hash m rec && not (os_eq rec.offset_size os)

  after-tables :
      works.tables after
      ≡ indexed_tables db works tx settings schedule schedule' pc
          (r ∷ recs)
          complete
          created
          now
          (works.tables s)
  unfolding add_index
  after-tables =
      (add_index-tables db works tx settings schedule schedule' pc r recs complete created now s).1

  -- On databases that work, for a piece with records and whatever the order in which the batches
  -- of the goroutines arrive: after the piece has been indexed, a multihash of its records is
  -- looked up with its offset and size, where all records that have it agree on them.
  pub get_offset_size-add_index_scheduled :
      (m : Multihash) (os : OffsetSize)
      → any (of_hash m) (r ∷ recs) ≡ true
      → any (differs m os) (r ∷ recs) ≡ false
      → get_offset_size db tx pc m after ≡ ok os
  unfolding get_offset_size indexed_tables put_metadata set_indexed
  get_offset_size-add_index_scheduled m os h k = rw (works.select_offset_size_works pc m after) (
      rw after-tables (
        rw
          (blocks-inserted blocks (inserted pieces (works.tables s)) pc m os
            (any-sent_entries db works tx settings (is_other_block pc m os) schedule'
                (block_entry db tx settings pc) (r ∷ recs)
              ∙ any-ext (λ rec. is_other_block pc m os (block_entry db tx settings pc rec))
                  (differs m os) (r ∷ recs) (λ rec. ground (arith, bytes_eq_refl pc))
              ∙ k)
            (inl (
              any-sent_entries db works tx settings (is_block pc m) schedule'
                (block_entry db tx settings pc) (r ∷ recs)
              ∙ any-ext (λ rec. is_block pc m (block_entry db tx settings pc rec)) (of_hash m)
                  (r ∷ recs) (λ rec. ground (arith, bytes_eq_refl pc))
              ∙ h)))
          refl))

  -- On databases that work: indexing a piece that has records leaves what is looked up for any
  -- multihash in every other piece, the error of a missing one included.
  pub get_offset_size-add_index_apart :
      (qc : Cid) (m : Multihash)
      → pc ≢ qc
      → get_offset_size db tx qc m after ≡ get_offset_size db tx qc m s
  unfolding get_offset_size indexed_tables put_metadata set_indexed
  get_offset_size-add_index_apart qc m ne = rw (works.select_offset_size_works qc m after) (
      rw (works.select_offset_size_works qc m s) (
        rw after-tables (
          rw
            (blocks-inserted_ne blocks (inserted pieces (works.tables s)) qc m (
              any-sent_entries db works tx settings (is_block qc m) schedule'
                (block_entry db tx settings pc) (r ∷ recs)
              ∙ any-ext (λ rec. is_block qc m (block_entry db tx settings pc rec)) (λ rec. false)
                  (r ∷ recs) (λ rec. ground (arith, bytes_eq_iff pc qc))
              ∙ any-const (r ∷ recs)))
            (rw
              (blocks-inserted_ne pieces (works.tables s) qc m (
                any-sent_entries db works tx settings (is_block qc m) schedule
                  (piece_entry db tx settings pc) (r ∷ recs)
                ∙ any-const (r ∷ recs)))
              refl))))

  abbrev pub of_trimmed : Multihash → Record → Bool
  of_trimmed m rec = bytes_eq (trim_multihash (tx.cid_hash rec.cid)) (trim_multihash m)

  -- On databases that work, where cids and multihashes are read back: after a piece with records
  -- has been indexed, a piece is returned for a multihash exactly if it was before, or it is the
  -- piece and one of its records has a multihash with the same last 24 bytes.
  pub pieces_containing_multihash-add_index :
      (reads : Reads tx) (m : Multihash) (qc : Cid)
      → listed qc (pieces_containing_multihash db tx m after) ≡ (
          listed qc (pieces_containing_multihash db tx m s)
          || (bytes_eq pc qc && any (of_trimmed m) (r ∷ recs)))
  unfolding indexed_tables put_metadata set_indexed
  pieces_containing_multihash-add_index reads m qc =
      let t = trim_multihash m in
      listed-pieces_containing_multihash db works tx after reads m qc
      ∙ rw after-tables (
          rw (listed-pieces_containing_multihash db works tx s reads m qc) (
            holders-inserted blocks (inserted pieces (works.tables s)) t qc
            ∙ rw (holders-inserted pieces (works.tables s) t qc) (
                rw
                  (any-sent_entries db works tx settings (is_holder t qc) schedule'
                      (block_entry db tx settings pc) (r ∷ recs)
                    ∙ any-const (r ∷ recs))
                  (rw
                    (any-sent_entries db works tx settings (is_holder t qc) schedule
                      (piece_entry db tx settings pc) (r ∷ recs))
                    (both t (bytes_eq pc qc) ((works.tables s).holders t qc) (r ∷ recs))))))
    where
      both :
          (t : Bytes) (same held : Bool) (xs : List Record)
          → ((held || any (λ rec. bytes_eq (trim_multihash (tx.cid_hash rec.cid)) t && same) xs)
              || false)
            ≡ (held || (same && any (λ rec. bytes_eq (trim_multihash (tx.cid_hash rec.cid)) t) xs))
      both t same held [] = ground arith
      both t same held (x ∷ xs) = ground (arith, both t same held xs)

  abbrev IsMarked : MetadataRow → Type 0
  IsMarked md = (md.indexed_at ≡ now) × (md.complete_index ≡ complete)

  IsMarked-row :
      (version : Bytes) (o : Option (MetadataRow × Time))
      → (md : MetadataRow) × (row_or_absent
            (some (updated_row now complete (unless_there o (new_row version created))))
          ≡ ok md)
        × IsMarked md
  IsMarked-row version none = (_, refl, (refl, refl))
  IsMarked-row version (some row) = (_, refl, (refl, refl))

  get_metadata_row-add_index :
      (md : MetadataRow) × (get_metadata_row db tx pc after ≡ ok md) × IsMarked md
  unfolding indexed_tables put_metadata set_indexed
  get_metadata_row-add_index =
      let v = inserted blocks (inserted pieces (works.tables s)) in
      let h = IsMarked-row piece_metadata_version (v.metadata (tx.cid_string pc)) in
      (
        h.0,
        rw (get_metadata_row_lem db works tx after pc)
            (rw after-tables (rw (bytes_eq_refl (tx.cid_string pc)) h.1)),
        h.2,
      )

  pub is_indexed-add_index_scheduled :
      now ≢ 0
      → (is_indexed db tx pc after ≡ ok true) × (is_complete_index db tx pc after ≡ ok complete)
  unfolding is_indexed indexed_at is_complete_index
  is_indexed-add_index_scheduled ne =
      let h = get_metadata_row-add_index in
      (rw h.1 (ap (λ t. ok (not (t == 0))) h.2.0 ∙ ap ok (ground arith)), rw h.1 (ap ok h.2.1))
