-- ===== src/Tests/LdbRuns.antt =====
-- The theorems about the local index directory at concrete inputs.
use txcartool.Common.{◌∷◌, [], List, ◌≡◌, ok, true, false, arith, none}
use txcartool.Common.{◌+◌, ◌⊎◌, some}
use txcartool.Ldb.Store.Missing.{IsMissing, get_piece_deals-run_writes}
use txcartool.Ldb.Store.Histories.{deals_after}
use txcartool.Ldb.Store.Removal.{remove_deal}
use txcartool.Ldb.Store.Removal.Deals.{count, weight, first_deal, count-remove_deal}
use txcartool.Ldb.Model.{DealInfo}
use txcartool.Tests.Inputs.{writes, after_writes}
use txcartool.Ldb.Model.{Cid, new_leveldb_metadata}
use txcartool.Ldb.Uvarint.{encode_offset_size, decode_offset_size}
use txcartool.Ldb.Uvarint.RoundTrip.{decode-encode}
use txcartool.Ldb.Index.{has}
use txcartool.Ldb.View.{View, Represents}
use txcartool.Ldb.Store.{
  add_deal_for_piece, get_piece_deals, get_offset_size, pieces_containing_multihash,
  is_complete_index,
}
use txcartool.Ldb.Store.Start.{no_pieces}
use txcartool.Ldb.Store.Deals.{get_piece_deals-add_deal, insert_deal}
use txcartool.Ldb.Store.Indexing.{add_index, progress}
use txcartool.Ldb.Store.Indexed.{add_index-Represents}
use txcartool.Ldb.Store.AfterIndex.{
  get_offset_size-add_index, pieces_containing-add_index, is_complete_index-add_index,
}
use txcartool.Ldb.Store.Cursors.{HasOwnCursors, add_index-HasOwnCursors}
use txcartool.Ldb.Store.Sharing.{get_offset_size-add_index_ne, get_offset_size-shared}
use txcartool.Tests.Memory.{contents-empty, memory, memory-Works, memory-Named}
use txcartool.Tests.Inputs.{
  piece_a, piece_b, block_x, at_x, records, deal, first_db, first_db-Represents, given-IsU64,
  second_db, second_view, second_db-Represents, second_view-HasOwnCursors, other_records, last_x,
  mentions_x, second_next, b_ne_a, metadata_a, second_a, second_x, not_there, shared_view,
  shared_db, shared_db-Represents, shared_a, shared_cursor,
}

add_index-Represents_example :
    ((add_index memory piece_a records true 9 first_db).0
      ≡ progress 45 ∷ progress 90 ∷ progress 95 ∷ progress 100 ∷ [])
    × Represents memory memory-Works second_db second_view
add_index-Represents_example =
    add_index-Represents memory memory-Works memory-Named piece_a records true 9 first_db no_pieces
      first_db-Represents (given-IsU64 piece_a)

get_offset_size-add_index_example : (get_offset_size memory piece_a block_x second_db).0 ≡ ok at_x
get_offset_size-add_index_example =
    get_offset_size-add_index memory memory-Works memory-Named piece_a records true 9 first_db
      no_pieces first_db-Represents (given-IsU64 piece_a) block_x at_x last_x (omega arith)
      (omega arith)

pieces_containing-add_index_example :
    (cs : List Cid) × ((pieces_containing_multihash memory block_x second_db).0 ≡ ok cs)
    × (has cs piece_a ≡ true)
pieces_containing-add_index_example =
    pieces_containing-add_index memory memory-Works memory-Named piece_a records true 9 first_db
      no_pieces first_db-Represents (given-IsU64 piece_a) block_x mentions_x

is_complete_index-add_index_example : (is_complete_index memory piece_a second_db).0 ≡ ok false
is_complete_index-add_index_example =
    is_complete_index-add_index memory memory-Works memory-Named piece_a records true 9 first_db
      no_pieces first_db-Represents (given-IsU64 piece_a)

add_index-HasOwnCursors_example :
    (w : View) × Represents memory memory-Works
      (add_index memory piece_b records false 11 second_db).1
      w
    × HasOwnCursors w
add_index-HasOwnCursors_example =
    add_index-HasOwnCursors memory memory-Works memory-Named piece_b records false 11 second_db
      second_view second_db-Represents second_view-HasOwnCursors second_next

-- `piece_b` is indexed with other records, and `piece_a` still answers with its own.
get_offset_size-add_index_ne_example :
    (get_offset_size memory piece_a block_x
      (add_index memory piece_b other_records false 11 second_db).1).0
    ≡ ok at_x
get_offset_size-add_index_ne_example =
    get_offset_size-add_index_ne memory memory-Works memory-Named piece_b piece_a other_records
      false 11 second_db second_view second_db-Represents b_ne_a second_view-HasOwnCursors
      second_next block_x metadata_a at_x second_a second_x (omega arith) (omega arith)

-- Both pieces have cursor 0, as after `AddDealForPiece`.
get_offset_size-shared_example :
    (get_offset_size memory piece_a block_x
      (add_index memory piece_b records false 11 shared_db).1).0
    ≡ ok at_x
unfolding new_leveldb_metadata
get_offset_size-shared_example =
    get_offset_size-shared memory memory-Works memory-Named piece_b piece_a records false 11
      shared_db shared_view shared_db-Represents b_ne_a block_x new_leveldb_metadata at_x shared_a
      shared_cursor (omega arith) last_x (omega arith) (omega arith)

get_piece_deals-add_deal_example :
    ((add_deal_for_piece memory piece_a deal []).0 ≡ ok tt)
    × ((get_piece_deals memory piece_a (add_deal_for_piece memory piece_a deal []).1).0
        ≡ ok (insert_deal [] deal))
unfolding new_leveldb_metadata
get_piece_deals-add_deal_example =
    get_piece_deals-add_deal memory memory-Works piece_a deal [] none not_there

decode-encode_example : decode_offset_size (encode_offset_size at_x) ≡ ok at_x
decode-encode_example = decode-encode at_x (omega arith) (omega arith)

get_piece_deals-run_writes_example :
    ((ds : List DealInfo) × (deals_after writes piece_a none ≡ some ds)
      × (get_piece_deals memory piece_a after_writes ≡ (ok ds, after_writes)))
    ⊎ ((deals_after writes piece_a none ≡ none) × IsMissing memory piece_a after_writes)
get_piece_deals-run_writes_example =
    get_piece_deals-run_writes memory memory-Works memory-Named writes [] contents-empty piece_a

count-remove_deal_example :
    count (λ (d : DealInfo). d.is_legacy) (deal ∷ deal ∷ [])
    ≡ count (λ (d : DealInfo). d.is_legacy) (remove_deal deal.deal_uuid (deal ∷ deal ∷ []))
      + weight (λ (d : DealInfo). d.is_legacy) (first_deal deal.deal_uuid (deal ∷ deal ∷ []))
count-remove_deal_example =
    count-remove_deal (λ (d : DealInfo). d.is_legacy) deal.deal_uuid (deal ∷ deal ∷ [])
