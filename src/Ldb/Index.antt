-- ===== src/Ldb/Index.antt =====
-- The index rows of lib/boostd-data/ldb/db.go: from a multihash to the pieces that hold it, and from
-- a cursor and a multihash to an offset and a size.
pub mod Remove
use txcartool.Common.{
  ℕ, zero, suc, ◌+◌, Bool, true, false, ◌||◌, Option, none, some, List, [], ◌∷◌, ◌++◌, Bytes,
  Result, Exec, pure, lift, gets, if_found, continue, ◌>>=◌, ◌>>◌, bytes_eq, if◌then◌else◌,
  slice_from, length,
}
use txcartool.Ldb.Model.{Cid, Multihash, Record, OffsetSize}
use txcartool.Ldb.Uvarint.{encode_offset_size, decode_offset_size}
use txcartool.Ldb.Env.{Env, Row, BatchOp, batch_put}
use txcartool.Ldb.Keys.{
  mh_key, record_key, key_cursor_prefix, uvarint_buffer, prefix_mh_to_piece_cids,
}

-- `has`: whether the list holds the cid.
unfoldable pub has : List Cid → Cid → Bool
has [] v = false
has (l ∷ list) v = bytes_eq l v || has list v

module _ {S : Type 0} (env : Env S) where
  unfoldable pub get_piece_cids_by_multihash : Multihash → Exec S (List Cid)
  get_piece_cids_by_multihash mh = do
    val ← gets (env.get (mh_key env mh))
    lift (env.unmarshal_cids val)

  abbrev stage_cids : Bytes → List Cid → Exec S (List BatchOp)
  stage_cids key pcids = do
    b ← lift (env.marshal_cids pcids)
    lift (env.stage (batch_put key b))
    pure (batch_put key b ∷ [])

  -- the writes for one record, once its row has been looked for
  unfoldable pub stage_piece_cid : Bytes → Cid → Option Bytes → Exec S (List BatchOp)
  stage_piece_cid key piece_cid none = stage_cids key (piece_cid ∷ [])
  stage_piece_cid key piece_cid (some val) = do
    pcids ← lift (env.unmarshal_cids val)
    if has pcids piece_cid then pure [] else stage_cids key (pcids ++ piece_cid ∷ [])

  -- the loop over the records
  unfoldable pub stage_records : List Cid → Cid → Exec S (List BatchOp)
  stage_records [] piece_cid = pure []
  stage_records (c ∷ recs) piece_cid = do
    let key = mh_key env (env.cid_hash c)
    found ← gets (λ s. if_found (env.get key s))
    ops ← stage_piece_cid key piece_cid found
    more ← stage_records recs piece_cid
    pure (ops ++ more)

  unfoldable pub set_multihashes_to_piece_cid : List Cid → Cid → Exec S (Unit {0})
  set_multihashes_to_piece_cid recs piece_cid = do
    gets env.batch
    ops ← stage_records recs piece_cid
    env.commit ops
    env.sync (env.new_key (uvarint_buffer prefix_mh_to_piece_cids))

  unfoldable pub read_records : ℕ → List Row → Exec S (List Record)
  read_records skip [] = pure []
  read_records skip ((key, val) ∷ rows) = do
    k ← lift (slice_from skip key)
    m ← lift (env.mh_from_hex k)
    os ← lift (decode_offset_size val)
    records ← read_records skip rows
    pure (record { cid = env.new_raw_cid m; offset_size = os } ∷ records)

  -- The query's prefix is `<cursor>/`, and a key begins with a slash before it.
  unfoldable pub all_records : ℕ → Exec S (List Record)
  all_records cursor = do
    let prefix = key_cursor_prefix cursor
    rows ← gets (env.query (record { prefix = prefix; keys_only = false; limit = 0; offset = 0 }))
    read_records (length prefix + 1) rows

  unfoldable pub add_index_record : Bytes → Record → Exec S (Unit {0})
  add_index_record cursor_prefix rec =
      env.put (record_key env cursor_prefix (env.cid_hash rec.cid))
        (encode_offset_size rec.offset_size)

  unfoldable pub get_offset_size : Bytes → Multihash → Exec S OffsetSize
  get_offset_size cursor_prefix m = do
    b ← gets (env.get (record_key env cursor_prefix m))
    lift (decode_offset_size b)
