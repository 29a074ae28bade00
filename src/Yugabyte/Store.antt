-- ===== src/Yugabyte/Store.antt =====
-- The service of lib/boostd-data/yugabyte/service.go: what adds a deal and what reads. `now` is what
-- the clock says. The log, the metrics and the tracing are left out.
pub mod Indexing
pub mod Removal
pub mod Reads
use txcartool.Common.{
  ℕ, Bool, true, false, not, ◌==◌, Option, none, some, List, [], ◌∷◌, Bytes, codes, Result, ok, err,
  panic, Error, absent, failed, Exec, pure, raise, lift, gets, continue, ◌>>=◌, ◌>>◌, bind_result,
  if◌then◌else◌,
}
use txcartool.Ldb.Model.{Cid, Multihash, Time, DealInfo, Metadata, OffsetSize, Record}
use txcartool.Yugabyte.Db.{Cassandra, Texts, Iter, MetadataRow, IndexRow}
use txcartool.Yugabyte.Errors.{normalized, is_not_found_err, trim_multihash}

-- The loop of `iter.Scan`, which returns at the first row that cannot be read, and `iter.Close`.
unfoldable pub scan_rows : {A B : Type 0} → (A → Result B) → List A → Option Error → Result (List B)
scan_rows f [] none = ok []
scan_rows f [] (some e) = err e
scan_rows f (a ∷ rows) closed =
    let rest = scan_rows f rows closed in bind_result (f a) λ b. bind_result rest λ bs. ok (b ∷ bs)

abbrev pub scan : {A B : Type 0} → (A → Result B) → Iter A → Result (List B)
scan f (rows, closed) = scan_rows f rows closed

-- `types.IndexRecord`
pub data IndexRecord : Type 0 where
  indexed : Record → IndexRecord
  index_error : Error → IndexRecord

-- what a row sends on the channel, and what comes after it
abbrev pub send_record :
    (Multihash → Cid)
    → OffsetSize
    → Result Multihash
    → Result (List IndexRecord)
    → Result (List IndexRecord)
send_record cid_of os (ok pmh) rest =
    bind_result rest λ recs. ok (indexed (record { cid = cid_of pmh; offset_size = os }) ∷ recs)
send_record cid_of os (err e) rest = ok (index_error e ∷ [])
send_record cid_of os panic rest = panic

-- an error that is not wrapped: its text takes the place of the cause
abbrev pub with_error : {S : Type 0} → Error → Exec S (Unit {0}) → Exec S (Unit {0})
with_error e m s = let (r, s') = m s in (elim r [ ok u ↦ ok u | err d ↦ err e | panic ↦ panic ], s')

abbrev pub piece_metadata_version : Bytes
piece_metadata_version = codes "1"

abbrev pub zero_if_missing : Result MetadataRow → Result Time
zero_if_missing (ok md) = ok md.indexed_at
zero_if_missing (err e) = if is_not_found_err e then ok 0 else err e
zero_if_missing panic = panic

abbrev pub false_if_missing : Result Time → Result Bool
false_if_missing (ok t) = ok (not (t == 0))
false_if_missing (err e) = if is_not_found_err e then ok false else err e
false_if_missing panic = panic

-- `MHFromBytes` in the goroutine of `GetIndex`
unfoldable pub send_records : Texts → List IndexRow → Option Error → Result (List IndexRecord)
send_records tx [] none = ok []
send_records tx [] (some e) = ok (index_error e ∷ [])
send_records tx (row ∷ rows) closed =
    let rest = send_records tx rows closed in
    send_record tx.new_raw_cid row.offset_size (tx.mh_from_bytes row.payload_multihash) rest

module _ {S : Type 0} (db : Cassandra S) (tx : Texts) where
  unfoldable pub create_piece_metadata : Cid → Time → Exec S (Unit {0})
  create_piece_metadata piece_cid now =
      db.insert_metadata (tx.cid_string piece_cid) piece_metadata_version now

  unfoldable pub add_deal_for_piece : Cid → DealInfo → Time → Exec S (Unit {0})
  add_deal_for_piece piece_cid deal_info now = do
    create_piece_metadata piece_cid now
    with_error (failed (codes "inserting deal")) (
        db.insert_deal piece_cid
          (record deal_info { miner_addr = tx.addr_string deal_info.miner_addr }))

  unfoldable pub get_offset_size : Cid → Multihash → S → Result OffsetSize
  get_offset_size piece_cid hash s = normalized (db.select_offset_size piece_cid hash s)

  -- the private `getPieceMetadata`, with no deals
  unfoldable pub get_metadata_row : Cid → S → Result MetadataRow
  get_metadata_row piece_cid s = normalized (db.select_metadata (tx.cid_string piece_cid) s)

  abbrev pub read_deal : DealInfo → Result DealInfo
  read_deal row =
      bind_result (tx.addr_parse row.miner_addr) λ ma. ok (record row { miner_addr = ma })

  -- Where nothing was found, the metadata tells a piece with none from a piece that is not there.
  unfoldable pub checked : {A : Type 0} → Cid → List A → S → Result (List A)
  checked piece_cid [] s = bind_result (get_metadata_row piece_cid s) λ md. ok []
  checked piece_cid (a ∷ as') s = ok (a ∷ as')

  unfoldable pub get_piece_deals : Cid → S → Result (List DealInfo)
  get_piece_deals piece_cid s =
      bind_result (scan read_deal (db.select_deals piece_cid s)) λ deals. checked piece_cid deals s

  unfoldable pub get_piece_metadata : Cid → S → Result Metadata
  get_piece_metadata piece_cid s = bind_result (get_metadata_row piece_cid s) λ md.
      bind_result (get_piece_deals piece_cid s) λ deals. ok (record {
        version = md.version;
        indexed_at = md.indexed_at;
        complete_index = md.complete_index;
        deals = deals;
      })

  abbrev pub some_found : List Cid → Result (List Cid)
  some_found [] = err absent
  some_found (c ∷ cs) = ok (c ∷ cs)

  unfoldable pub pieces_containing_multihash : Multihash → S → Result (List Cid)
  pieces_containing_multihash m s =
      bind_result (scan tx.cid_cast (db.select_holders (trim_multihash m) s)) some_found

  -- whether a first row was scanned
  abbrev pub piece_has_records : Iter IndexRow → Bool
  piece_has_records ([], closed) = false
  piece_has_records (row ∷ rows, closed) = true

  unfoldable pub get_index : Cid → S → Result (List IndexRecord)
  get_index piece_cid s =
      let it = db.select_index piece_cid s in
      let recs = send_records tx it.0 it.1 in
      if piece_has_records it then recs else bind_result (get_metadata_row piece_cid s) λ md. recs

  unfoldable pub is_complete_index : Cid → S → Result Bool
  is_complete_index piece_cid s =
      bind_result (get_metadata_row piece_cid s) λ md. ok md.complete_index

  unfoldable pub indexed_at : Cid → S → Result Time
  indexed_at piece_cid s = zero_if_missing (get_metadata_row piece_cid s)

  unfoldable pub is_indexed : Cid → S → Result Bool
  is_indexed piece_cid s = false_if_missing (indexed_at piece_cid s)

  unfoldable pub list_pieces : S → Result (List Cid)
  list_pieces s = scan tx.cid_decode (db.select_pieces s)
