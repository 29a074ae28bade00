-- ===== src/Pieces/Segments.antt =====
-- The records of a piece of data segments: `parsePieceWithDataSegmentIndex`, `parseDataSegmentIndex`,
-- `validateEntries` and `parseRecordsFromCar` in lib/boost/piecedirectory/piecedirectory.go. The
-- packages go-data-segment and go-car, and the reader, are parameters.
pub mod Chunks
pub mod Ends
use txcartool.Common.{
  ℕ, zero, suc, ◌+◌, ◌-◌, ◌*◌, ◌/◌, ◌%◌, ◌^◌, Option, none, some, List, [], ◌∷◌, ◌++◌, map, Error,
  failed, codes, ltb, ◌==◌, if◌then◌else◌, length, take, drop, Result, ok, err, panic, bind_result,
}
use txcartool.Ldb.Model.{Cid, Record}

-- what `Validate` says: nil, an `ErrValidation`, or another error
pub data Verdict : Type 0 where
  valid : Verdict
  invalid : Verdict
  unknown : Error → Verdict

pub record BlockMetadata : Type 0 where
  pub cid : Cid
  pub source_offset : ℕ
  pub size : ℕ

-- `SkipNext`: a block, the end, or another error
pub data Next (B : Type 0) : Type 0 where
  block : BlockMetadata → B → Next B
  eof : Next B
  broken : Error → Next B

pub record Packages (D R B : Type 0) : Type 0 where
  -- `Validate`, `UnpaddedOffest` and `UnpaddedLength` of a segment
  pub validate : D → Verdict
  pub unpadded_offset : D → ℕ
  pub unpadded_length : D → ℕ
  -- `DataSegmentIndexStartOffset` of a piece's padded size, and `ParseDataSegmentIndex`
  pub index_start : ℕ → ℕ
  pub parse_index : R → Result (List D)
  -- the reader: its seeks, and `io.NewSectionReader`
  pub seek_end : R → Result (Unit {0})
  pub seek_start : R → ℕ → Result (Unit {0})
  pub section : R → ℕ → ℕ → R
  -- `carv2.NewBlockReader` and `SkipNext`
  pub new_block_reader : R → Result B
  pub skip_next : B → Next B
  -- `runtime.NumCPU`, and the error that is the first of those of an `errgroup`
  pub num_cpu : ℕ
  pub first_error : List Error → Error

abbrev pub podsi_max_concurrency : ℕ
podsi_max_concurrency = 32

abbrev pub podsi_min_concurrency : ℕ
podsi_min_concurrency = 4

abbrev pub at_least : ℕ → ℕ → ℕ
at_least low n = if ltb n low then low else n

abbrev pub at_most : ℕ → ℕ → ℕ
at_most high n = if ltb high n then high else n

-- the concurrency for a count of entries
unfoldable pub concurrency : ℕ → ℕ → ℕ
concurrency num_cpu count =
    at_most count (at_most podsi_max_concurrency (at_least podsi_min_concurrency num_cpu))

-- the chunks from the one with the number on, of as many as are left
unfoldable pub chunks_from : {D : Type 0} → List D → ℕ → ℕ → ℕ → List (List D)
chunks_from entries chunk_size i zero = []
chunks_from entries chunk_size i (suc zero) =
    take (length entries - i * chunk_size) (drop (i * chunk_size) entries) ∷ []
chunks_from entries chunk_size i (suc (suc left)) =
    take chunk_size (drop (i * chunk_size) entries)
    ∷ chunks_from entries chunk_size (suc i) (suc left)

module _ {D R B : Type 0} (p : Packages D R B) where
  abbrev pub keep_valid : D → Verdict → Result (List D) → Result (List D)
  keep_valid e valid rest = bind_result rest λ res. ok (e ∷ res)
  keep_valid e invalid rest = rest
  keep_valid e (unknown x) rest = err x

  unfoldable pub validate_entries : List D → Result (List D)
  validate_entries [] = ok []
  validate_entries (e ∷ entries) = keep_valid e (p.validate e) (validate_entries entries)

  -- the results of the goroutines: their errors, and their values one after another
  abbrev pub add_result : Result (List D) → List Error × List D → List Error × List D
  add_result (ok res) (es, all) = (es, res ++ all)
  add_result (err e) (es, all) = (e ∷ es, all)
  add_result panic (es, all) = (es, all)

  unfoldable pub collect : List (List D) → List Error × List D
  unfolding validate_entries
  collect [] = ([], [])
  collect (chunk ∷ chunks) = add_result (validate_entries chunk) (collect chunks)

  abbrev pub wait : List Error × List D → Result (List D)
  wait ([], all) = ok all
  wait (e ∷ es, all) = err (p.first_error (e ∷ es))

  unfoldable pub valid_segments : List D → Result (List D)
  unfolding concurrency chunks_from collect
  valid_segments entries =
      let n = concurrency p.num_cpu (length entries) in
      wait (collect (chunks_from entries (length entries / n) 0 n))

  -- The loop over the blocks, on fuel: `none` is a loop that has not ended.
  abbrev pub cons_record :
      BlockMetadata → Option (Result (List Record)) → Option (Result (List Record))
  cons_record b none = none
  cons_record b (some rest) = some (
      bind_result rest λ recs. ok (
        record { cid = b.cid; offset_size = record { offset = b.source_offset; size = b.size } }
        ∷ recs))

  abbrev pub on_next : (B → Option (Result (List Record))) → Next B → Option (Result (List Record))
  on_next again (block b reader) = cons_record b (again reader)
  on_next again eof = some (ok [])
  on_next again (broken e) = some (err e)

  unfoldable pub read_blocks : ℕ → B → Option (Result (List Record))
  read_blocks zero reader = none
  read_blocks (suc fuel) reader = on_next (read_blocks fuel) (p.skip_next reader)

  abbrev pub read_opened : ℕ → Result B → Option (Result (List Record))
  read_opened fuel (ok reader) = read_blocks fuel reader
  read_opened fuel (err e) = some (err e)
  read_opened fuel panic = some panic

  unfoldable pub parse_records_from_car : ℕ → R → Option (Result (List Record))
  unfolding read_blocks
  parse_records_from_car fuel reader = read_opened fuel (p.new_block_reader reader)

  -- A panic of the parser of the index is turned into an error.
  abbrev pub recovered : Result (List D) → Result (List D)
  recovered (ok entries) = ok entries
  recovered (err e) = err e
  recovered panic = err (failed (codes "internal panic"))

  abbrev pub non_empty : Error → List D → Result (List D)
  non_empty x [] = err x
  non_empty x (e ∷ entries) = ok (e ∷ entries)

  -- the offset of a record in the piece, from that in its segment
  abbrev pub relocate : ℕ → Record → Record
  relocate seg_offset r = record r {
    offset_size = record r.offset_size { offset = (r.offset_size.offset + seg_offset) % 2 ^ 64 };
  }

  module _ (parse_car : R → Result (List Record)) where
    unfoldable pub segment_records : R → List D → Result (List Record)
    segment_records r [] = ok []
    segment_records r (s ∷ segments) =
        bind_result (parse_car (p.section r (p.unpadded_offset s) (p.unpadded_length s))) λ recs.
          bind_result (segment_records r segments)
            λ rest. ok (map (relocate (p.unpadded_offset s)) recs ++ rest)

    unfoldable pub parse_piece_with_data_segment_index : R → ℕ → Result (List Record)
    unfolding valid_segments segment_records
    parse_piece_with_data_segment_index r unpadded_size = bind_result (p.seek_end r) λ _.
        bind_result (p.seek_start r (p.index_start unpadded_size)) λ _.
          bind_result (recovered (p.parse_index r)) λ entries.
            bind_result (non_empty (failed (codes "no data segments found")) entries)
              λ some_entries. bind_result (valid_segments some_entries) λ segments.
                bind_result (non_empty (failed (codes "no valid data segments found")) segments)
                  λ some_segments. segment_records r some_segments
