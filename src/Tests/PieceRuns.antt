-- ===== src/Tests/PieceRuns.antt =====
-- The theorems about the piece directory at concrete inputs.
use txcartool.Common.{
  ℕ, ◌≡◌, ◌⊎◌, refl, true, false, Option, none, some, [], ◌∷◌, List, Bytes, Result, ok, err, failed,
  arith, length, map, ◌==◌, ◌-◌, if◌then◌else◌, bytes_eq,
}
use txcartool.Ldb.Model.{Cid, new_leveldb_metadata}
use txcartool.Ldb.Store.{get_piece_deals, is_indexed}
use txcartool.Ldb.Store.Deals.{insert_deal}
use txcartool.Pieces.{Libraries}
use txcartool.Pieces
use txcartool.Pieces.SharedReader.{Shared, Event, Reached, handle}
use txcartool.Pieces.SharedReader.Invariant.{IsSound, Reached-IsSound}
use txcartool.Pieces.Readers.{
  SectorAccessor, Parsers, get_reader, first_reader, get_piece_reader, add_deal_for_piece,
}
use txcartool.Pieces.Readers.Unindexed.{directory, is_indexed-add_deal}
use txcartool.Pieces.Blocks.{read_block, first_block, blockstore_get}
use txcartool.Pieces.Blocks.Hashes.{WasRead, IsDigest, blockstore_get-WasRead}
use txcartool.Pieces.Segments.{
  BlockMetadata, Verdict, Next, Packages, valid_segments, validate_entries, parse_records_from_car,
}
use txcartool.Pieces.Segments.Chunks.{to_option, valid_segments-validate_entries}
use txcartool.Pieces.Segments.Ends.{Yields, record_of, parse_records_from_car-Yields}
use txcartool.Common.{take, drop}
use txcartool.Car.{read_at}
use txcartool.Pieces.Blockstore.{CarPackages, bytes_reader, payload_reader}
use txcartool.Pieces.Blockstore.Offsets.{bytes_reader-Serves, payload_reader-read_at}
use txcartool.Tests.Memory.{memory, memory-Works}
use txcartool.Tests.Inputs.{piece_a, deal, not_there}

-- Another caller finds the reader, which is opened, given to one of them and evicted.
abbrev evicted_shared : Shared
evicted_shared = record {
  reader = record {
    ready = true;
    has_err = false;
    has_cancel = true;
    refs = 2;
    expired = true;
    cancels = 0;
    nil_cancels = 0;
  };
  is_cached = false;
  callback_pending = false;
  opening = false;
  waiting = 1;
  checking = 0;
  given = 1;
}

evicted_shared-Reached : Reached evicted_shared
unfolding handle
evicted_shared-Reached =
    Reached.later Event.called_back
      (Reached.later Event.evicted
        (Reached.later Event.check_err
          (Reached.later (Event.opened false)
            (Reached.later Event.found_in_cache Reached.created refl) refl)
          refl)
        refl)
      refl

Reached-IsSound_example : IsSound evicted_shared
Reached-IsSound_example = Reached-IsSound evicted_shared evicted_shared-Reached

abbrev libraries : Libraries
libraries = record {
  multi_error = λ es. failed [];
  hash = λ c. c;
  decode_multihash = λ m. ok (18, m);
  identity_code = 0;
}

-- a reader is the bytes of its sector
abbrev accessor : SectorAccessor Bytes
accessor = record {
  is_unsealed = λ sector offset size. ok true;
  unseal_sector_at = λ sector offset size. ok (sector ∷ []);
  unpadded = λ n. n;
}

abbrev parsers : Parsers Bytes
parsers = record {
  parse_piece_with_data_segment_index = λ r size. ok [];
  seek_start = λ r. ok tt;
  parse_records_from_car = λ r. ok [];
}

is_indexed-add_deal_example :
    ((add_deal_for_piece (directory memory) libraries accessor parsers piece_a deal []).0 ≡ ok tt)
    × (((get_piece_deals memory piece_a
            (add_deal_for_piece (directory memory) libraries accessor parsers piece_a deal []).1).0
          ≡ ok (insert_deal [] deal))
        × ((is_indexed memory piece_a
              (add_deal_for_piece
                (directory memory)
                libraries
                accessor
                parsers
                piece_a
                deal
                []).1).0
            ≡ ok false))
unfolding new_leveldb_metadata get_reader
is_indexed-add_deal_example =
    is_indexed-add_deal memory memory-Works libraries accessor parsers piece_a deal [] none
      (deal.sector_id ∷ []) [] not_there refl refl refl

-- a directory that knows one piece with one block
abbrev one_piece : Pieces.Store (Unit {0})
one_piece = record {
  get_piece_metadata = λ pc s. (err (failed []), s);
  get_piece_deals = λ pc s. (ok (deal ∷ []), s);
  get_offset_size = λ pc m s. (ok (record { offset = 61; size = 300 }), s);
  pieces_containing_multihash = λ m s. (ok (piece_a ∷ []), s);
  is_indexed = λ pc s. (ok true, s);
  is_complete_index = λ pc s. (ok true, s);
  add_deal_for_piece = λ pc d s. (ok tt, s);
  remove_deal_for_piece = λ pc u s. (ok tt, s);
}

abbrev nothing_cached : Cid → Option (Result Bytes)
nothing_cached pc = none

-- the node at an offset, with the offset as its data
abbrev read_node : Bytes → ℕ → ℕ → Result (Cid × Bytes)
read_node reader offset buffer = ok (7 ∷ [], offset ∷ [])

blockstore_get-WasRead_example :
    WasRead one_piece libraries accessor parsers nothing_cached read_node (7 ∷ []) (61 ∷ [])
    ⊎ IsDigest one_piece libraries accessor parsers nothing_cached read_node (7 ∷ []) (61 ∷ [])
unfolding blockstore_get get_reader bytes_eq get_piece_reader first_reader read_block first_block
blockstore_get-WasRead_example =
    blockstore_get-WasRead one_piece libraries accessor parsers nothing_cached read_node (7 ∷ []) tt
      (61 ∷ []) refl

-- Six segments, of which the third is not valid; a block reader gives as many blocks as its number.
abbrev packages : Packages ℕ Bytes ℕ
packages = record {
  validate = λ d. if d == 3 then Verdict.invalid else Verdict.valid;
  unpadded_offset = λ d. d;
  unpadded_length = λ d. 1;
  index_start = λ size. 0;
  parse_index = λ r. ok (1 ∷ 2 ∷ 3 ∷ 4 ∷ 5 ∷ 6 ∷ []);
  seek_end = λ r. ok tt;
  seek_start = λ r n. ok tt;
  section = λ r offset size. r;
  new_block_reader = λ r. ok (length r);
  skip_next = λ n.
      if n == 0
      then Next.eof
      else Next.block (record { cid = n ∷ []; source_offset = n; size = 1 }) (n - 1);
  num_cpu = 2;
  first_error = λ es. failed [];
}

valid_segments-validate_entries_example :
    to_option (valid_segments packages (1 ∷ 2 ∷ 3 ∷ 4 ∷ 5 ∷ 6 ∷ []))
    ≡ to_option (validate_entries packages (1 ∷ 2 ∷ 3 ∷ 4 ∷ 5 ∷ 6 ∷ []))
valid_segments-validate_entries_example =
    valid_segments-validate_entries packages (1 ∷ 2 ∷ 3 ∷ 4 ∷ 5 ∷ 6 ∷ [])

abbrev two_blocks : List BlockMetadata
two_blocks =
    record { cid = 2 ∷ []; source_offset = 2; size = 1 }
    ∷ record { cid = 1 ∷ []; source_offset = 1; size = 1 }
    ∷ []

parse_records_from_car-Yields_example :
    parse_records_from_car packages 3 (9 ∷ 9 ∷ []) ≡ some (ok (map record_of two_blocks))
parse_records_from_car-Yields_example =
    parse_records_from_car-Yields packages 3 (9 ∷ 9 ∷ []) 2 two_blocks refl
      (Yields.gives refl (Yields.gives refl (Yields.ends refl))) (omega arith)

abbrev car_packages : CarPackages ℕ Bytes (Unit {0})
car_packages = record {
  read_version = λ r. ok 2;
  v2_payload = λ r. ok (3, 6);
  read_header = λ r. ok (6 ∷ []);
  write_header = λ h. ok h;
  seek_start = λ r. ok tt;
  is_iterable = λ i. true;
  new_read_only = λ source i. ok tt;
}

-- a header of three bytes, and a payload whose own header is one byte
abbrev v2_piece : Bytes
v2_piece = 1 ∷ 2 ∷ 3 ∷ 6 ∷ 11 ∷ 12 ∷ 13 ∷ 14 ∷ 15 ∷ []

payload_reader-read_at_example :
    read_at 4 (payload_reader car_packages (bytes_reader v2_piece) 3 6 (6 ∷ [])) 2 5
    ≡ some (take 2 (drop 5 v2_piece), none)
payload_reader-read_at_example =
    payload_reader-read_at car_packages (bytes_reader v2_piece) v2_piece
      (bytes_reader-Serves v2_piece (omega arith)) 3 6 (6 ∷ []) 2 5 (omega arith) (omega arith)
      (omega arith) (omega arith) (omega arith) (omega arith)
