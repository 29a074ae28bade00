-- ===== src/Yugabyte/Store/Indexing/Found.antt =====
-- What the index directory over Cassandra answers after `AddIndex`.
use txcartool.Common.{ℕ, ◌≡◌, ap, ◌∙◌, Bool, List, ◌∷◌, map, ok, ◌>>◌, any, any-map, concat}
use txcartool.Ldb.Model.{Cid, Time, Record}
use txcartool.Yugabyte.Db.{Cassandra, Texts, Entry}
use txcartool.Yugabyte.Settings.{Settings}
use txcartool.Yugabyte.Batches.{run_threads}
use txcartool.Yugabyte.Batches.Cover.{concat-threads}
use txcartool.Yugabyte.Batches.Order.{
  order, apply_all, any-order_batches, then-works, run_threads-order,
}
use txcartool.Yugabyte.Works.{Works, Tables, put_entry, put_metadata, set_indexed}
use txcartool.Yugabyte.Works.Entries.{inserted, inserted-concat}
use txcartool.Yugabyte.Store.{piece_metadata_version, create_piece_metadata}
use txcartool.Yugabyte.Store.Indexing.{
  piece_entry, block_entry, entry_threads, add_multihashes_to_pieces, add_piece_infos, add_records,
  add_index,
}

module _ {S : Type 0} (db : Cassandra S) (works : Works db) (tx : Texts) (settings : Settings) where
  -- the entries in the order in which they reach the database
  unfoldable pub sent_entries : List ℕ → (Record → Entry) → List Record → List Entry
  unfolding order entry_threads
  sent_entries schedule entry_of recs =
      concat (order schedule (entry_threads db tx settings entry_of recs))

  pub any-sent_entries :
      (p : Entry → Bool) (schedule : List ℕ) (entry_of : Record → Entry) (recs : List Record)
      → any p (sent_entries schedule entry_of recs) ≡ any (λ r. p (entry_of r)) recs
  unfolding sent_entries entry_threads
  any-sent_entries p schedule entry_of recs =
      any-order_batches p schedule (entry_threads db tx settings entry_of recs)
      ∙ ap (any p) (
          concat-threads settings.insert_concurrency settings.insert_batch_size (map entry_of recs))
      ∙ any-map entry_of p recs

  sent-works :
      (schedule : List ℕ) (entry_of : Record → Entry) (recs : List Record) (s : S)
      → let after =
          run_threads db.execute_batch schedule
            (entry_threads db tx settings entry_of recs)
            (ok tt)
            s in
        (after.0 ≡ ok tt)
        × (works.tables after.1 ≡ inserted (sent_entries schedule entry_of recs) (works.tables s))
  unfolding sent_entries
  sent-works schedule entry_of recs s =
      let ts = entry_threads db tx settings entry_of recs in
      let h =
        run_threads-order db.execute_batch works.tables (apply_all put_entry)
          works.execute_batch_works schedule ts s in
      (h.0, h.1 ∙ inserted-concat (order schedule ts) (works.tables s))

  -- the tables after the records of a piece were added to them
  unfoldable pub indexed_tables :
      List ℕ → List ℕ → Cid → List Record → Bool → Time → Time → Tables → Tables
  unfolding sent_entries
  indexed_tables schedule schedule' pc recs complete created now v =
      set_indexed now complete (tx.cid_string pc) (
        put_metadata (tx.cid_string pc) piece_metadata_version created (
          inserted (sent_entries schedule' (block_entry db tx settings pc) recs)
            (inserted (sent_entries schedule (piece_entry db tx settings pc) recs) v)))

  pub add_index-tables :
      (schedule schedule' : List ℕ) (pc : Cid) (r : Record) (recs : List Record) (complete : Bool)
      (created now : Time) (s : S)
      → let after =
          add_index db tx settings schedule schedule' pc (r ∷ recs) complete created now s in
        (after.0 ≡ ok tt)
        × (works.tables after.1
            ≡ indexed_tables schedule schedule' pc (r ∷ recs) complete created now (works.tables s))
  unfolding add_index add_records add_multihashes_to_pieces add_piece_infos create_piece_metadata
      indexed_tables
  add_index-tables schedule schedule' pc r recs complete created now s =
      let k = tx.cid_string pc in
      let pieces = sent_entries schedule (piece_entry db tx settings pc) (r ∷ recs) in
      let blocks = sent_entries schedule' (block_entry db tx settings pc) (r ∷ recs) in
      let m1 = add_multihashes_to_pieces db tx settings schedule pc (r ∷ recs) in
      let m2 = add_piece_infos db tx settings schedule' pc (r ∷ recs) in
      let m3 = db.insert_metadata k piece_metadata_version created in
      let m4 = db.update_metadata now complete k in
      let s1 = (m1 s).1 in
      let s2 = (m2 s1).1 in
      let s3 = (m3 s2).1 in
      then-works works.tables m1 (m2 >> (m3 >> m4)) (inserted pieces)
        (λ v.
          set_indexed now complete k
            (put_metadata k piece_metadata_version created (inserted blocks v)))
        s (sent-works schedule (piece_entry db tx settings pc) (r ∷ recs) s)
        (then-works works.tables m2 (m3 >> m4) (inserted blocks)
          (λ v. set_indexed now complete k (put_metadata k piece_metadata_version created v)) s1
          (sent-works schedule' (block_entry db tx settings pc) (r ∷ recs) s1)
          (then-works works.tables m3 m4 (put_metadata k piece_metadata_version created)
            (set_indexed now complete k) s2
            (works.insert_metadata_works k piece_metadata_version created s2)
            (works.update_metadata_works now complete k s3)))
