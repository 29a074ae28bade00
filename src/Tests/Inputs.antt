-- ===== src/Tests/Inputs.antt =====
-- Pieces, records and databases for the examples.
use txcartool.Common.{
  ◌∷◌, [], List, ◌≡◌, refl, ok, codes, true, false, ◌+◌, arith, some, none, map, ◌≢◌, if_found,
  bytes_eq,
}
use txcartool.Common.{ap}
use txcartool.Ldb.Tables.Laws.{get_metadata-set_self}
use txcartool.Ldb.Model.{Cid, Record, DealInfo, LeveldbMetadata, OffsetSize, new_leveldb_metadata}
use txcartool.Ldb.Uvarint.{IsU64}
use txcartool.Ldb.View.{View, Represents, put_piece, put_block}
use txcartool.Ldb.Store.{start}
use txcartool.Ldb.Store.Histories.{Write, deal_added, piece_indexed, run_writes}
use txcartool.Ldb.Store.Start.{no_pieces, start-Represents}
use txcartool.Ldb.Store.Indexing.{add_index}
use txcartool.Ldb.Store.Indexed.{
  index_piece, given_metadata, put_blocks, next_after, add_index-Represents,
}
use txcartool.Ldb.Store.Cursors.{HasOwnCursors, index_piece-HasOwnCursors}
use txcartool.Ldb.View.Multihashes.{index_holders, mentions}
use txcartool.Ldb.View.Writes.{Represents-put_piece}
use txcartool.Ldb.Store.Reads.{last_block}
use txcartool.Ldb.Tables.{get_piece_cid_to_metadata}
use txcartool.Ldb.Tables.Laws.{after_set}
use txcartool.Tests.Memory.{Rows, lookup, memory, memory-Works, memory-Named, contents-empty}

abbrev pub piece_a : Cid
piece_a = 1 ∷ 2 ∷ []

abbrev pub piece_b : Cid
piece_b = 3 ∷ []

abbrev pub block_x : Cid
block_x = 7 ∷ []

abbrev pub at_x : OffsetSize
at_x = record { offset = 61; size = 300 }

abbrev pub records : List Record
records =
    record { cid = 8 ∷ []; offset_size = record { offset = 0; size = 60 } }
    ∷ record { cid = block_x; offset_size = at_x }
    ∷ []

abbrev pub deal : DealInfo
deal = record {
  deal_uuid = codes "deal";
  is_legacy = false;
  chain_deal_id = 42;
  miner_addr = 1 ∷ [];
  sector_id = 5;
  piece_offset = 0;
  piece_length = 1024;
  car_length = 900;
  is_direct_deal = true;
}

abbrev pub first_db : Rows
first_db = (start memory []).1

pub first_db-Represents : Represents memory memory-Works first_db no_pieces
first_db-Represents = (start-Represents memory memory-Works memory-Named [] contents-empty).1

pub given-IsU64 :
    (pc : Cid) → IsU64 (given_metadata true (no_pieces.pieces pc) no_pieces.next).cursor
unfolding given_metadata
given-IsU64 pc = omega arith

pub no_pieces-HasOwnCursors : HasOwnCursors no_pieces
no_pieces-HasOwnCursors = record { below = λ pc md e. cc; apart = λ pc qc md nd e e' c. cc }

-- the database with the piece `piece_a` indexed, and its view
abbrev pub second_db : Rows
second_db = (add_index memory piece_a records true 9 first_db).1

abbrev pub second_view : View
second_view = index_piece memory piece_a records true 9 no_pieces

pub second_db-Represents : Represents memory memory-Works second_db second_view
second_db-Represents =
    (add_index-Represents memory memory-Works memory-Named piece_a records true 9 first_db no_pieces
      first_db-Represents (given-IsU64 piece_a)).1

pub second_view-HasOwnCursors : HasOwnCursors second_view
second_view-HasOwnCursors =
    index_piece-HasOwnCursors memory piece_a records true 9 no_pieces no_pieces-HasOwnCursors
      (omega arith)

abbrev pub other_records : List Record
other_records = record { cid = block_x; offset_size = record { offset = 5; size = 6 } } ∷ []

pub last_x : last_block memory records block_x ≡ some at_x
unfolding last_block memory bytes_eq
last_x = refl

pub mentions_x : mentions memory (map (λ r. r.cid) records) block_x ≡ true
unfolding mentions memory bytes_eq
mentions_x = refl

pub second_next : IsU64 (second_view.next + 1)
unfolding index_piece put_piece given_metadata put_blocks put_block index_holders next_after
second_next = omega arith

pub b_ne_a : piece_b ≢ piece_a
b_ne_a e = cc

abbrev pub metadata_a : LeveldbMetadata
unfolding given_metadata
metadata_a =
    let md = given_metadata true none 100 in
    record md { metadata = record md.metadata { indexed_at = 9 } }

pub second_a : second_view.pieces piece_a ≡ some metadata_a
unfolding index_piece put_piece given_metadata bytes_eq
second_a = refl

pub second_x : second_view.blocks metadata_a.cursor block_x ≡ some at_x
unfolding index_piece put_piece given_metadata put_blocks put_block index_holders bytes_eq memory
second_x = refl

pub not_there : if_found (get_piece_cid_to_metadata memory piece_a []).0 ≡ ok none
unfolding get_piece_cid_to_metadata memory lookup
not_there = refl

-- A database in which both pieces have metadata with the cursor 0, as `AddDealForPiece` writes it.
abbrev pub shared_view : View
shared_view =
    put_piece piece_b new_leveldb_metadata (put_piece piece_a new_leveldb_metadata no_pieces)

abbrev pub shared_db : Rows
shared_db =
    after_set memory memory-Works piece_b new_leveldb_metadata
      (after_set memory memory-Works piece_a new_leveldb_metadata first_db)

pub shared_db-Represents : Represents memory memory-Works shared_db shared_view
shared_db-Represents =
    Represents-put_piece memory memory-Works memory-Named
      (after_set memory memory-Works piece_a new_leveldb_metadata first_db)
      (put_piece piece_a new_leveldb_metadata no_pieces)
      (Represents-put_piece memory memory-Works memory-Named first_db no_pieces first_db-Represents
        piece_a new_leveldb_metadata)
      piece_b new_leveldb_metadata

pub shared_a : shared_view.pieces piece_a ≡ some new_leveldb_metadata
unfolding put_piece bytes_eq
shared_a = refl

pub shared_cursor :
    (given_metadata false (shared_view.pieces piece_b) shared_view.next).cursor
    ≡ new_leveldb_metadata.cursor
unfolding put_piece bytes_eq given_metadata new_leveldb_metadata
shared_cursor = refl

-- The deal is added twice for the piece, and another piece is indexed.
abbrev pub writes : List Write
writes =
    deal_added piece_a deal
    ∷ piece_indexed piece_b other_records true 9
    ∷ deal_added piece_a deal
    ∷ []

abbrev pub after_writes : Rows
after_writes = run_writes memory writes (start memory []).1

pub there :
    if_found (get_piece_cid_to_metadata memory piece_b shared_db).0 ≡ ok (some new_leveldb_metadata)
unfolding new_leveldb_metadata
there =
    ap (λ r. if_found r.0)
      (get_metadata-set_self memory memory-Works piece_b new_leveldb_metadata
        (after_set memory memory-Works piece_a new_leveldb_metadata first_db))
