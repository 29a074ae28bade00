-- ===== src/Ldb/Store.antt =====
-- The service of lib/boostd-data/ldb/service.go. A method holds the store's lock while it runs, so
-- it is one step on the database. `now` is what the clock says in it. The log, the metrics and the
-- tracing are left out.
pub mod Deals
pub mod Indexed
pub mod Reads
pub mod AfterIndex
pub mod Indexing
pub mod Removal
pub mod Scans
pub mod Start
pub mod Cursors
pub mod Sharing
pub mod Flags
pub mod Histories
pub mod Missing
use txcartool.Common.{
  ℕ, Bool, true, false, not, ◌==◌, Option, none, some, List, [], ◌∷◌, ◌++◌, Result, ok, err, panic,
  Error, not_found, absent, failed, Exec, pure, lift, gets, catch_not_found, if_found, continue,
  ◌>>=◌, ◌>>◌, if◌then◌else◌,
}
use txcartool.Ldb.Model.{
  Cid, Multihash, Address, Time, DealInfo, Metadata, LeveldbMetadata, LeveldbFlaggedMetadata,
  OffsetSize, Record, new_leveldb_metadata, deal_eq,
}
use txcartool.Ldb.Env.{Env}
use txcartool.Ldb.Keys.{key_cursor_prefix}
use txcartool.Ldb.Cursor.{init_cursor}
use txcartool.Ldb.Tables.{
  set_piece_cid_to_metadata, get_piece_cid_to_metadata, set_piece_cid_to_flagged,
  get_piece_cid_to_flagged, delete_piece_cid_to_flagged,
}
use txcartool.Ldb.Index
use txcartool.Ldb.Index.{get_piece_cids_by_multihash}

-- the test of the loop of `AddDealForPiece`
unfoldable pub has_deal : List DealInfo → DealInfo → Bool
has_deal [] d = false
has_deal (dl ∷ deals) d = if deal_eq dl d then true else has_deal deals d

-- `normalizePieceCidError` and `normalizeMultihashError`: the text of a missing key is replaced,
-- and what comes out is no longer go-datastore's error.
unfoldable pub normalize_error : Error → Error
normalize_error not_found = absent
normalize_error absent = absent
normalize_error (failed t) = failed t

abbrev pub normalized : {A : Type 0} → Result A → Result A
normalized (ok a) = ok a
normalized (err e) = err (normalize_error e)
normalized panic = panic

abbrev pub normalize : {S A : Type 0} → Exec S A → Exec S A
normalize m s = let (r, s') = m s in (normalized r, s')

abbrev pub or_new : Option LeveldbMetadata → LeveldbMetadata
or_new none = new_leveldb_metadata
or_new (some md) = md

-- a new flag, or the one there is
abbrev pub flag_of : Address → Time → Option LeveldbFlaggedMetadata → LeveldbFlaggedMetadata
flag_of maddr now none = record {
  created_at = now;
  updated_at = 0;
  has_unsealed_copy = false;
  miner_addr = maddr;
}
flag_of maddr now (some fm) = fm

module _ {S : Type 0} (env : Env S) where
  -- `Start`, on a database that is open
  unfoldable pub start : Exec S (Unit {0})
  start = init_cursor env

  unfoldable pub add_deal_for_piece : Cid → DealInfo → Exec S (Unit {0})
  add_deal_for_piece piece_cid deal_info = do
    found ← catch_not_found (get_piece_cid_to_metadata env piece_cid)
    let md = or_new found
    if has_deal md.deals deal_info
        then pure tt
        else set_piece_cid_to_metadata env piece_cid
            (record md { metadata = record md.metadata { deals = md.deals ++ deal_info ∷ [] } })

  unfoldable pub get_offset_size : Cid → Multihash → Exec S OffsetSize
  get_offset_size piece_cid hash = do
    md ← normalize (get_piece_cid_to_metadata env piece_cid)
    Index.get_offset_size env (key_cursor_prefix md.cursor) hash

  unfoldable pub get_piece_metadata : Cid → Exec S Metadata
  get_piece_metadata piece_cid = do
    md ← normalize (get_piece_cid_to_metadata env piece_cid)
    pure md.metadata

  unfoldable pub get_piece_deals : Cid → Exec S (List DealInfo)
  get_piece_deals piece_cid = do
    md ← normalize (get_piece_cid_to_metadata env piece_cid)
    pure md.deals

  unfoldable pub pieces_containing_multihash : Multihash → Exec S (List Cid)
  pieces_containing_multihash m = normalize (get_piece_cids_by_multihash env m)

  -- The records go into a channel that is closed behind them.
  unfoldable pub get_index : Cid → Exec S (List Record)
  get_index piece_cid = do
    md ← normalize (get_piece_cid_to_metadata env piece_cid)
    normalize (Index.all_records env md.cursor)

  abbrev time_of : Option LeveldbMetadata → Time
  time_of none = 0
  time_of (some md) = md.indexed_at

  -- A piece with no metadata has the zero time.
  unfoldable pub indexed_at : Cid → Exec S Time
  indexed_at piece_cid = do
    found ← catch_not_found (get_piece_cid_to_metadata env piece_cid)
    pure (time_of found)

  unfoldable pub is_indexed : Cid → Exec S Bool
  is_indexed piece_cid = do t ← indexed_at piece_cid; pure (not (t == 0))

  unfoldable pub is_complete_index : Cid → Exec S Bool
  is_complete_index piece_cid = do
    md ← normalize (get_piece_cid_to_metadata env piece_cid)
    pure md.complete_index

  unfoldable pub flag_piece : Cid → Bool → Address → Time → Exec S (Unit {0})
  flag_piece piece_cid has_unsealed_copy maddr now = do
    found ← catch_not_found (get_piece_cid_to_flagged env piece_cid maddr)
    set_piece_cid_to_flagged env piece_cid maddr (record (flag_of maddr now found) {
      updated_at = now;
      has_unsealed_copy = has_unsealed_copy;
    })

  unfoldable pub unflag_piece : Cid → Address → Exec S (Unit {0})
  unflag_piece piece_cid maddr = delete_piece_cid_to_flagged env piece_cid maddr

  -- LevelDB keeps no table of tracked pieces.
  unfoldable pub untrack_piece : Cid → Address → Exec S (Unit {0})
  untrack_piece piece_cid maddr = pure tt
