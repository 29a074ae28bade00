-- ===== src/Yugabyte/Store/Indexing.antt =====
-- `AddIndex` of lib/boostd-data/yugabyte/service.go and its goroutine. Of the progress that it
-- reports, what is kept is how it ends; the fractions are left out. The two schedules give the order
-- in which the batches of the goroutines reach the database.
pub mod Found
pub mod Answers
use txcartool.Common.{
  ℕ, Bool, List, [], ◌∷◌, map, Result, ok, err, panic, Exec, pure, continue, ◌>>=◌, ◌>>◌,
}
use txcartool.Ldb.Model.{Cid, Time, Record}
use txcartool.Yugabyte.Db.{Cassandra, Texts, Entry, to_piece, block_at}
use txcartool.Yugabyte.Errors.{trim_multihash}
use txcartool.Yugabyte.Settings.{Settings}
use txcartool.Yugabyte.Batches.{threads, run_threads}
use txcartool.Yugabyte.Store.{create_piece_metadata}

module _ {S : Type 0} (db : Cassandra S) (tx : Texts) (settings : Settings) where
  abbrev pub piece_entry : Cid → Record → Entry
  piece_entry piece_cid rec = to_piece (trim_multihash (tx.cid_hash rec.cid)) piece_cid

  abbrev pub block_entry : Cid → Record → Entry
  block_entry piece_cid rec = block_at piece_cid (tx.cid_hash rec.cid) rec.offset_size

  -- the batches of the goroutines, each filled from the records of its slice
  unfoldable pub entry_threads : (Record → Entry) → List Record → List (List (List Entry))
  entry_threads entry_of recs =
      threads settings.insert_concurrency settings.insert_batch_size (map entry_of recs)

  unfoldable pub add_multihashes_to_pieces : List ℕ → Cid → List Record → Exec S (Unit {0})
  add_multihashes_to_pieces schedule piece_cid recs =
      run_threads db.execute_batch schedule (entry_threads (piece_entry piece_cid) recs) (ok tt)

  unfoldable pub add_piece_infos : List ℕ → Cid → List Record → Exec S (Unit {0})
  add_piece_infos schedule piece_cid recs =
      run_threads db.execute_batch schedule (entry_threads (block_entry piece_cid) recs) (ok tt)

  -- the goroutine; the clock is read when the metadata is created and when it is updated
  unfoldable pub add_records :
      List ℕ → List ℕ → Cid → List Record → Bool → Time → Time → Exec S (Unit {0})
  add_records schedule schedule' piece_cid recs is_complete_index created now = do
    add_multihashes_to_pieces schedule piece_cid recs
    add_piece_infos schedule' piece_cid recs
    create_piece_metadata db tx piece_cid created
    db.update_metadata now is_complete_index (tx.cid_string piece_cid)

  -- With no records nothing is written, and the progress ends at 1.
  unfoldable pub add_index :
      List ℕ → List ℕ → Cid → List Record → Bool → Time → Time → Exec S (Unit {0})
  add_index schedule schedule' piece_cid [] is_complete_index created now = pure tt
  add_index schedule schedule' piece_cid (r ∷ recs) is_complete_index created now =
      add_records schedule schedule' piece_cid (r ∷ recs) is_complete_index created now
