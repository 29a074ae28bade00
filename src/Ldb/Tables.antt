-- ===== src/Ldb/Tables.antt =====
-- The rows of lib/boostd-data/ldb/db.go that are kept by piece: its metadata and its flag.
pub mod Laws
use txcartool.Common.{◌≡◌, Result, ok, err, panic, Exec, pure, lift, gets, continue, ◌>>=◌, Bytes}
use txcartool.Ldb.Model.{Cid, Address, LeveldbMetadata, LeveldbFlaggedMetadata, to_wire, of_wire}
use txcartool.Ldb.Env.{Env}
use txcartool.Ldb.Keys.{metadata_key, piece_cid_to_flagged_key}

module _ {S : Type 0} (env : Env S) where
  unfoldable pub set_piece_cid_to_metadata : Cid → LeveldbMetadata → Exec S (Unit {0})
  set_piece_cid_to_metadata piece_cid md = do
    b ← lift (env.marshal_metadata (to_wire md))
    env.put (metadata_key env piece_cid) b

  unfoldable pub get_piece_cid_to_metadata : Cid → Exec S LeveldbMetadata
  get_piece_cid_to_metadata piece_cid = do
    b ← gets (env.get (metadata_key env piece_cid))
    w ← lift (env.unmarshal_metadata b)
    pure (of_wire w)

  unfoldable pub set_piece_cid_to_flagged :
      Cid → Address → LeveldbFlaggedMetadata → Exec S (Unit {0})
  set_piece_cid_to_flagged piece_cid maddr fm = do
    b ← lift (env.marshal_flagged fm)
    env.put (piece_cid_to_flagged_key env maddr piece_cid) b

  unfoldable pub get_piece_cid_to_flagged : Cid → Address → Exec S LeveldbFlaggedMetadata
  get_piece_cid_to_flagged piece_cid maddr = do
    b ← gets (env.get (piece_cid_to_flagged_key env maddr piece_cid))
    lift (env.unmarshal_flagged b)

  unfoldable pub delete_piece_cid_to_flagged : Cid → Address → Exec S (Unit {0})
  delete_piece_cid_to_flagged piece_cid maddr =
      env.delete (piece_cid_to_flagged_key env maddr piece_cid)
