-- ===== src/Yugabyte/Store/Removal.antt =====
-- `RemoveDealForPiece`, `RemovePieceMetadata` and `RemoveIndexes` of
-- lib/boostd-data/yugabyte/service.go.
pub mod Gone
pub mod LastDeal
pub mod Shared
use txcartool.Common.{
  ℕ, List, [], ◌∷◌, Bytes, Result, ok, err, panic, Exec, pure, gets, continue, ◌>>=◌, ◌>>◌,
}
use txcartool.Ldb.Model.{Cid, Multihash, DealInfo}
use txcartool.Yugabyte.Db.{Cassandra, Texts}
use txcartool.Yugabyte.Errors.{trim_multihash}
use txcartool.Yugabyte.Settings.{Settings}
use txcartool.Yugabyte.Queue.{exec_with_concurrency}
use txcartool.Yugabyte.Store.{IndexRecord, indexed, index_error, get_index, get_piece_deals}

module _ {S : Type 0} (db : Cassandra S) (tx : Texts) (settings : Settings) where
  -- The loop does not look at the error of a record: the cid of such a record is undefined, the
  -- empty string in go-cid.
  abbrev pub multihash_of : IndexRecord → Multihash
  multihash_of (indexed rec) = tx.cid_hash rec.cid
  multihash_of (index_error e) = tx.cid_hash []

  unfoldable pub remove_record : Cid → IndexRecord → Exec S (Unit {0})
  remove_record piece_cid rec = do
    db.delete_to_piece (trim_multihash (multihash_of rec)) piece_cid
    db.delete_block (multihash_of rec) piece_cid

  unfoldable pub remove_indexes : Cid → Exec S (Unit {0})
  remove_indexes piece_cid = do
    recs ← gets (get_index db tx piece_cid)
    exec_with_concurrency (remove_record piece_cid) recs settings.payload_pieces_parallelism

  unfoldable pub remove_piece_metadata : Cid → Exec S (Unit {0})
  remove_piece_metadata piece_cid = db.delete_metadata (tx.cid_string piece_cid)

  -- A piece with deals left keeps its index.
  abbrev pub remove_piece_if : List DealInfo → Cid → Exec S (Unit {0})
  remove_piece_if [] piece_cid = remove_indexes piece_cid >> remove_piece_metadata piece_cid
  remove_piece_if (dl ∷ dls) piece_cid = pure tt

  unfoldable pub remove_deal_for_piece : Cid → Bytes → Exec S (Unit {0})
  remove_deal_for_piece piece_cid deal_id = do
    db.delete_deal deal_id
    dls ← gets (get_piece_deals db tx piece_cid)
    remove_piece_if dls piece_cid
