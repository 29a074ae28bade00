-- ===== src/Pieces/Blockstore.antt =====
-- `GetBlockstore` of lib/boost/piecedirectory/piecedirectory.go, and the readers of Go's library that
-- it puts together: `bytes.NewReader` and `io.NewSectionReader`. The packages go-car and its
-- blockstore are parameters. Offsets and sizes are below 2^63, and a payload is no shorter than its
-- header.
pub mod Offsets
use txcartool.Common.{
  ℕ, ◌+◌, ◌-◌, Bool, true, false, Option, none, some, List, [], ◌∷◌, Bytes, Error, failed, codes,
  ltb, leb, ◌==◌, if◌then◌else◌, length, take, drop, replicate, Result, ok, err, bind_result, Exec,
  lift, ◌>>=◌,
}
use txcartool.Ldb.Model.{Cid}
use txcartool.Car.{ReaderAtSize, MultiReaderAt, new_multi_reader_at}

abbrev pub eof : Error
eof = failed (codes "EOF")

abbrev pub or_eof : Bytes × Option Error → Bytes × Option Error
or_eof (bs, none) = (bs, some eof)
or_eof (bs, some e) = (bs, some e)

-- `bytes.NewReader`, as far as `ReadAt` and `Size` go
unfoldable pub bytes_reader : Bytes → ReaderAtSize
bytes_reader d = record {
  size = length d;
  read_at = λ count off.
      if leb (length d) off
      then ([], some eof)
      else (take count (drop off d), if ltb (length d - off) count then some eof else none);
}

-- `io.NewSectionReader`
unfoldable pub section_reader : ReaderAtSize → ℕ → ℕ → ReaderAtSize
section_reader r base n = record {
  size = n;
  read_at = λ count off.
      if leb n off
      then ([], some eof)
      else (if ltb (n - off) count
          then or_eof (r.read_at (n - off) (base + off))
          else r.read_at count (base + off));
}

-- what is given to `blockstore.NewReadOnly`: the piece's reader, or one that is put together
pub data Source : Type 0 where
  plain : ReaderAtSize → Source
  parts : MultiReaderAt → Source

-- `I` is the index of a piece, `H` the header of a CAR file, `S'` the blockstore.
pub record CarPackages (I H S' : Type 0) : Type 0 where
  -- `carv2.ReadVersion`, and the `DataOffset` and `DataSize` of the header that `NewReader` reads
  pub read_version : ReaderAtSize → Result ℕ
  pub v2_payload : ReaderAtSize → Result (ℕ × ℕ)
  -- `car.ReadHeader` and `car.WriteHeader`
  pub read_header : ReaderAtSize → Result H
  pub write_header : H → Result Bytes
  pub seek_start : ReaderAtSize → Result (Unit {0})
  pub is_iterable : I → Bool
  pub new_read_only : Source → I → Result S'

module _ {I H S' : Type 0} (p : CarPackages I H S') where
  -- the header of the payload, as many bytes as stand before the payload, and the payload behind its
  -- header
  unfoldable pub payload_reader : ReaderAtSize → ℕ → ℕ → Bytes → MultiReaderAt
  unfolding bytes_reader section_reader
  payload_reader reader data_offset data_size header = new_multi_reader_at (
      bytes_reader header
      ∷ bytes_reader (replicate data_offset 0)
      ∷ section_reader reader (data_offset + length header) (data_size - length header)
      ∷ [])

  unfoldable pub v2_source : ReaderAtSize → Result Source
  unfolding payload_reader
  v2_source reader = bind_result (p.v2_payload reader) λ (data_offset, data_size).
      bind_result (p.read_header (section_reader reader data_offset data_size)) λ car_header.
        bind_result (p.write_header car_header)
          λ header. ok (parts (payload_reader reader data_offset data_size header))

  unfoldable pub source_of : ReaderAtSize → ℕ → Result Source
  unfolding v2_source
  source_of reader car_version =
      if car_version == 2
      then v2_source reader
      else bind_result (p.seek_start reader) λ _. ok (plain reader)

  -- `GetIterableIndex`
  unfoldable pub iterable : I → Result I
  iterable idx =
      if p.is_iterable idx then ok idx else err (failed (codes "expected index to be iterable"))

  module _ {S : Type 0} (get_piece_reader : Cid → Exec S ReaderAtSize)
      (get_index : Cid → Exec S I) where
    unfoldable pub get_iterable_index : Cid → Exec S I
    unfolding iterable
    get_iterable_index piece_cid = get_index piece_cid >>= λ idx. lift (iterable idx)

    -- `GetBlockstore`
    unfoldable pub get_blockstore : Cid → Exec S S'
    unfolding get_iterable_index source_of
    get_blockstore piece_cid = get_piece_reader piece_cid >>= λ reader.
        get_iterable_index piece_cid >>= λ idx. lift (p.read_version reader) >>= λ car_version.
        lift (source_of reader car_version) >>= λ source. lift (p.new_read_only source idx)
