-- ===== src/Pieces/Segments/Ends.antt =====
-- The loop over the blocks of a CAR file in lib/boost/piecedirectory/piecedirectory.go ends.
use txcartool.Common.{ℕ, zero, suc, ◌<◌, ◌≡◌, refl, ap, some, List, [], ◌∷◌, map, length, ok, arith}
use txcartool.Ldb.Model.{Record}
use txcartool.Pieces.Segments.{
  BlockMetadata, Next, Packages, cons_record, read_blocks, parse_records_from_car,
}

abbrev pub record_of : BlockMetadata → Record
record_of b = record {
  cid = b.cid;
  offset_size = record { offset = b.source_offset; size = b.size };
}

module _ {D R B : Type 0} (p : Packages D R B) where
  -- The block reader gives these blocks, and then the end.
  pub data Yields : B → List BlockMetadata → Type 0 where
    ends : {reader : B} → p.skip_next reader ≡ Next.eof → Yields reader []
    gives :
        {reader next : B} {b : BlockMetadata} {bs : List BlockMetadata}
        → p.skip_next reader ≡ Next.block b next
        → Yields next bs
        → Yields reader (b ∷ bs)

  read_blocks-Yields :
      (fuel : ℕ) (reader : B) (bs : List BlockMetadata)
      → Yields reader bs
      → length bs < fuel
      → read_blocks p fuel reader ≡ some (ok (map record_of bs))
  unfolding read_blocks
  read_blocks-Yields zero reader bs y h = absurd (omega arith)
  read_blocks-Yields (suc fuel) reader [] (ends e) h = rw e refl
  read_blocks-Yields (suc fuel) reader (b ∷ bs) (gives {next = next} e y) h =
      rw e (ap (cons_record p b) (read_blocks-Yields fuel next bs y (omega arith)))

  -- Where a reader opens, gives some blocks and then the end, the loop ends within one round more
  -- than there are blocks, and returns a record of each block, in their order.
  pub parse_records_from_car-Yields :
      (fuel : ℕ) (r : R) (reader : B) (bs : List BlockMetadata)
      → p.new_block_reader r ≡ ok reader
      → Yields reader bs
      → length bs < fuel
      → parse_records_from_car p fuel r ≡ some (ok (map record_of bs))
  unfolding parse_records_from_car
  parse_records_from_car-Yields fuel r reader bs e y h =
      rw e (read_blocks-Yields fuel reader bs y h)
