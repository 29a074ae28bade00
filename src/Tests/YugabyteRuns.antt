-- ===== src/Tests/YugabyteRuns.antt =====
-- The theorems about the index directory over Cassandra and Postgres at concrete inputs.
use txcartool.Common.{
  ℕ, ◌+◌, ◌≡◌, ◌≢◌, refl, ap, subst, true, false, some, List, [], ◌∷◌, Bytes, codes, ok, err,
  absent, bytes_eq, bytes_eq_iff, bytes_eq_refl, ◌∙◌, any, arith, concat, All, ◌&&◌, ◌||◌,
}
use txcartool.Ldb.Model.{DealInfo, Record, Time}
use txcartool.Yugabyte.Db.{MetadataRow, Texts}
use txcartool.Yugabyte.Settings.{Settings}
use txcartool.Yugabyte.Errors.{trim_multihash}
use txcartool.Yugabyte.Batches.{threads}
use txcartool.Yugabyte.Batches.Cover.{Fits, threads_lem}
use txcartool.Yugabyte.Works.{Reads, is_deal_of}
use txcartool.Yugabyte.Store.{
  scan_rows, add_deal_for_piece, get_offset_size, pieces_containing_multihash, get_metadata_row,
}
use txcartool.Yugabyte.Store.Reads.{listed}
use txcartool.Yugabyte.Store.Indexing.{add_index}
use txcartool.Yugabyte.Store.Indexing.Answers.{
  get_offset_size-add_index_scheduled, get_offset_size-add_index_apart,
  pieces_containing_multihash-add_index,
}
use txcartool.Yugabyte.Store.Removal.{remove_deal_for_piece}
use txcartool.Yugabyte.Store.Removal.LastDeal.{remove_deal_for_piece-last}
use txcartool.Yugabyte.Store.Removal.Shared.{remove_deal_for_piece-shared}
use txcartool.Yugabyte.Works.{drop_deal}
use txcartool.Yugabyte.Postgres.{FlaggedRow, int}
use txcartool.Yugabyte.Tracker.{
  next_pieces_to_check, copy_new_pieces, new_pieces, with_miners, miners_of_piece, append_miners,
  last_scanned, insert_tracked, get_piece_check_period, piece_check_period,
}
use txcartool.Yugabyte.Queue.{exec_with_concurrency, exec_queue}
use txcartool.Yugabyte.Tracker.Copies.{AllCids}
use txcartool.Yugabyte.Tracker.Period.{next_pieces_to_check-apart}
use txcartool.Yugabyte.Flags.{FlaggedPiecesListFilter, list_query}
use txcartool.Yugabyte.Flags.Query.{arg, selects, before_cursor, passes, list_query_lem}
use txcartool.Yugabyte.Works.Entries.{os_eq}
use txcartool.Tests.CassandraRows.{Rows, no_rows, cassandra, tables}
use txcartool.Tests.CassandraWorks.{cassandra-Works, tables-cassandra}
use txcartool.Tests.PostgresRows.{postgres, postgres-TrackerWorks, claimed, due}
use txcartool.Tests.Inputs.{piece_a, piece_b, block_x, at_x, deal}
use txcartool.Tests.Tables.{first, collect, nub, erase}

abbrev texts : Texts
texts = record {
  cid_string = λ c. c;
  cid_decode = λ t. ok t;
  cid_cast = λ t. ok t;
  cid_hash = λ c. c;
  new_raw_cid = λ m. m;
  mh_from_bytes = λ t. ok t;
  addr_string = λ a. a;
  addr_parse = λ t. ok t;
  addr_empty = λ a. bytes_eq a [];
}

texts-Reads : Reads texts
texts-Reads = record {
  cid_cast_works = λ c. refl;
  hash_raw = λ m. refl;
  mh_from_bytes_works = λ m. refl;
  cid_injective = λ c d e. e;
}

abbrev settings : Settings
settings = record {
  payload_pieces_parallelism = 2;
  cql_timeout = 60;
  insert_batch_size = 1;
  insert_concurrency = 2;
}

abbrev first_record : Record
first_record = record { cid = 8 ∷ []; offset_size = record { offset = 0; size = 60 } }

abbrev later_records : List Record
later_records = record { cid = block_x; offset_size = at_x } ∷ []

-- The second goroutine comes first.
abbrev schedule : List ℕ
schedule = 1 ∷ 0 ∷ []

abbrev dealt : Rows
dealt = (add_deal_for_piece cassandra texts piece_a deal 5 no_rows).1

abbrev indexed : Rows
indexed =
    (add_index cassandra texts settings schedule [] piece_a (first_record ∷ later_records) true 6 9
      dealt).1

abbrev numbers : List ℕ
numbers = 3 ∷ 4 ∷ 5 ∷ 6 ∷ 7 ∷ []

threads_lem_example :
    (concat (concat (threads 2 2 numbers)) ≡ numbers) × All (Fits 2) (concat (threads 2 2 numbers))
threads_lem_example = threads_lem 2 2 numbers (omega arith)

get_offset_size-add_index_scheduled_example :
    get_offset_size cassandra texts piece_a block_x indexed ≡ ok at_x
unfolding bytes_eq os_eq
get_offset_size-add_index_scheduled_example =
    get_offset_size-add_index_scheduled cassandra cassandra-Works texts settings schedule [] piece_a
      first_record later_records true 6 9 dealt block_x at_x refl refl

pieces_apart : piece_a ≢ piece_b
unfolding bytes_eq
pieces_apart e = ground (arith, (bytes_eq_iff piece_a piece_b).1 e)

get_offset_size-add_index_apart_example :
    get_offset_size cassandra texts piece_b block_x
      (add_index cassandra texts settings schedule [] piece_a
        (first_record ∷ later_records)
        true
        6
        9
        indexed).1
    ≡ get_offset_size cassandra texts piece_b block_x indexed
get_offset_size-add_index_apart_example =
    get_offset_size-add_index_apart cassandra cassandra-Works texts settings schedule [] piece_a
      first_record later_records true 6 9 indexed piece_b block_x pieces_apart

pieces_containing_multihash-add_index_example :
    listed piece_a (pieces_containing_multihash cassandra texts block_x indexed) ≡ (
      listed piece_a (pieces_containing_multihash cassandra texts block_x dealt)
      || (bytes_eq piece_a piece_a
          && any
              (λ r. bytes_eq (trim_multihash (texts.cid_hash r.cid)) (trim_multihash block_x))
              (first_record ∷ later_records)))
pieces_containing_multihash-add_index_example =
    pieces_containing_multihash-add_index cassandra cassandra-Works texts settings schedule []
      piece_a first_record later_records true 6 9 dealt texts-Reads block_x piece_a

abbrev other_deal : DealInfo
other_deal = record deal { deal_uuid = codes "other" }

abbrev row_a : MetadataRow
row_a = record { version = codes "1"; indexed_at = 9; complete_index = true }

-- A piece with one deal, and its block.
abbrev held : Rows
held = record no_rows {
  metadata = record { key = piece_a; row = (row_a, 5) } ∷ [];
  deals = (piece_a, deal) ∷ [];
  holders = (block_x, piece_a) ∷ [];
  blocks = record { piece = piece_a; multihash = block_x; offset_size = at_x } ∷ [];
}

only_deal :
    (u : Bytes)
    → is_deal_of piece_a ((cassandra-Works.tables held).deals u) ≡ true
    → u ≡ codes "deal"
unfolding tables first
only_deal u h =
    let k = subst (λ v. is_deal_of piece_a (v.deals u) ≡ true) (tables-cassandra held) h in
    ground (arith, k, bytes_eq_iff (codes "deal") u)

remove_deal_for_piece-last_example :
    let after = remove_deal_for_piece cassandra texts settings piece_a (codes "deal") held in
    (after.0 ≡ ok tt)
    × (get_metadata_row cassandra texts piece_a after.1 ≡ err absent)
    × (get_offset_size cassandra texts piece_a block_x after.1 ≡ err absent)
unfolding tables first bytes_eq
remove_deal_for_piece-last_example =
    remove_deal_for_piece-last cassandra cassandra-Works texts texts-Reads settings (omega arith)
      piece_a (codes "deal") held (row_a, 5) (ap (λ v. v.metadata piece_a) (tables-cassandra held))
      only_deal block_x

-- The piece with another deal, of which one is removed.
abbrev shared : Rows
shared = record held { deals = (piece_a, deal) ∷ (piece_a, other_deal) ∷ [] }

-- Another piece beside it.
abbrev beside : Rows
beside = record held {
  metadata = record { key = piece_b; row = (row_a, 5) } ∷ held.metadata;
  holders = (block_x, piece_b) ∷ held.holders;
  blocks = record { piece = piece_b; multihash = block_x; offset_size = at_x } ∷ held.blocks;
}

only_deal_beside :
    (u : Bytes)
    → is_deal_of piece_a ((cassandra-Works.tables beside).deals u) ≡ true
    → u ≡ codes "deal"
unfolding tables first
only_deal_beside u h =
    let k = subst (λ v. is_deal_of piece_a (v.deals u) ≡ true) (tables-cassandra beside) h in
    ground (arith, k, bytes_eq_iff (codes "deal") u)

codes_apart : codes "other" ≢ codes "deal"
unfolding bytes_eq
codes_apart e = ground (arith, (bytes_eq_iff (codes "other") (codes "deal")).1 e)

remove_deal_for_piece-shared_example :
    cassandra-Works.tables
      (remove_deal_for_piece cassandra texts settings piece_a (codes "deal") shared).1
    ≡ drop_deal (codes "deal") (cassandra-Works.tables shared)
unfolding tables first bytes_eq
remove_deal_for_piece-shared_example =
    remove_deal_for_piece-shared cassandra cassandra-Works texts settings piece_a (codes "deal")
      shared (codes "other") codes_apart
      (ap (λ v. is_deal_of piece_a (v.deals (codes "other"))) (tables-cassandra shared))

all_cids : AllCids cassandra postgres postgres-TrackerWorks texts held
all_cids m p row e = (p, refl)

abbrev first_check : Time
first_check = 1000000000000

abbrev checked_once : Rows
checked_once = record held {
  tracker =
      record {
        miner = 1 ∷ [];
        piece = piece_a;
        row = record { created_at = 5; updated_at = first_check };
      }
      ∷ [];
}

first_run :
    next_pieces_to_check cassandra postgres texts (1 ∷ []) first_check held
    ≡ (ok (piece_a ∷ []), checked_once)
unfolding next_pieces_to_check copy_new_pieces new_pieces with_miners miners_of_piece append_miners
    last_scanned insert_tracked get_piece_check_period piece_check_period exec_with_concurrency
    exec_queue scan_rows cassandra postgres collect nub erase first claimed due bytes_eq
first_run = refl

second_run :
    (next_pieces_to_check cassandra postgres texts
      (1 ∷ [])
      (first_check + 60000000000)
      checked_once).0
    ≡ ok []
unfolding next_pieces_to_check copy_new_pieces new_pieces with_miners miners_of_piece append_miners
    last_scanned insert_tracked get_piece_check_period piece_check_period exec_with_concurrency
    exec_queue scan_rows cassandra postgres collect nub erase first claimed due bytes_eq
second_run = refl

-- The piece is returned, and a minute later it is not.
next_pieces_to_check-apart_example : any (bytes_eq piece_a) [] ≡ false
next_pieces_to_check-apart_example =
    next_pieces_to_check-apart cassandra postgres postgres-TrackerWorks texts (λ c. refl) (1 ∷ [])
      first_check (first_check + 60000000000) held (piece_a ∷ []) [] piece_a all_cids
      (ap (λ r. r.0) first_run)
      (ap
          (λ r.
            (next_pieces_to_check cassandra postgres texts (1 ∷ []) (first_check + 60000000000)
              r.1).0)
          first_run
        ∙ second_run)
      (omega arith) (rw (bytes_eq_refl piece_a) refl)

abbrev filter : FlaggedPiecesListFilter
filter = record { miner_addr = 1 ∷ []; has_unsealed_copy = true }

abbrev flagged : FlaggedRow
flagged = record {
  miner_addr = 1 ∷ [];
  piece_cid = piece_a;
  created_at = 4;
  updated_at = 6;
  has_unsealed_copy = true;
}

list_query_lem_example :
    let q = list_query texts (some filter) (some 5) 20 10 in
    (selects q flagged ≡ (before_cursor (some 5) flagged && passes texts (some filter) flagged))
    × (arg q.args q.limit_at ≡ some (int 10))
    × (arg q.args q.offset_at ≡ some (int 20))
list_query_lem_example = list_query_lem texts (some filter) (some 5) 20 10 flagged
