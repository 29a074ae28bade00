-- ===== src/Pieces/Readers.antt =====
-- Readers of pieces, and the building of an index, in lib/boost/piecedirectory/piecedirectory.go.
-- Readers do not change the index directory. A call of `addIndexForPieceThrottled` is the call that
-- it makes in its turn.
pub mod Unindexed
use txcartool.Common.{
  ℕ, zero, suc, ◌++◌, Bool, true, false, not, Option, none, some, List, [], ◌∷◌, Bytes, Error,
  failed, codes, Result, ok, err, panic, bind_result, Exec, pure, raise, lift, continue, ◌>>=◌,
  ◌>>◌, if◌then◌else◌,
}
use txcartool.Ldb.Model.{Cid, Address, DealInfo, Record}
use txcartool.Pieces.{Store, Libraries, recover, or_else, keep_error}

-- `sa.SectorAccessor`, whose offsets and lengths are unpadded ones
pub record SectorAccessor (R : Type 0) : Type 0 where
  pub is_unsealed : ℕ → ℕ → ℕ → Result Bool
  pub unseal_sector_at : ℕ → ℕ → ℕ → Result R
  -- `PaddedPieceSize.Unpadded`
  pub unpadded : ℕ → ℕ

abbrev pub err_sealed : Error
err_sealed = failed (codes "sector is not unsealed")

abbrev pub if_unsealed : {R : Type 0} → Bool → Result R → Result R
if_unsealed true r = r
if_unsealed false r = err err_sealed

-- `SectorAccessorAsPieceReader.GetReader`
unfoldable pub get_reader : {R : Type 0} → SectorAccessor R → DealInfo → Result R
get_reader sa dl =
    bind_result
      (sa.is_unsealed dl.sector_id (sa.unpadded dl.piece_offset) (sa.unpadded dl.piece_length))
      λ unsealed. if_unsealed unsealed (
        sa.unseal_sector_at dl.sector_id (sa.unpadded dl.piece_offset)
          (sa.unpadded dl.piece_length))

-- How the records of a piece are read: as segments with an index, or else as one CAR file.
pub record Parsers (R : Type 0) : Type 0 where
  pub parse_piece_with_data_segment_index : R → ℕ → Result (List Record)
  pub seek_start : R → Result (Unit {0})
  pub parse_records_from_car : R → Result (List Record)

module _ {S R : Type 0} (store : Store S) (lib : Libraries) (sa : SectorAccessor R)
    (parsers : Parsers R) where
  unfoldable pub first_reader : ℕ → List Error → List DealInfo → Exec S R
  first_reader i merr [] = raise (lib.multi_error merr)
  first_reader i merr (dl ∷ deals) =
      or_else (lift (get_reader sa dl)) λ e. first_reader (suc i) (keep_error i merr e) deals

  abbrev pub reader_of_deals : List DealInfo → Exec S R
  reader_of_deals [] = raise (failed (codes "no deals found for piece cid"))
  reader_of_deals (dl ∷ deals) = first_reader 0 [] (dl ∷ deals)

  -- `GetPieceReader`
  unfoldable pub get_piece_reader : Cid → Exec S R
  unfolding first_reader
  get_piece_reader piece_cid = store.get_piece_deals piece_cid >>= λ deals. reader_of_deals deals

  abbrev pub or_car : R → Result (List Record) → Result (List Record)
  or_car r (ok recs) = ok recs
  or_car r (err e) = bind_result (parsers.seek_start r) λ _. parsers.parse_records_from_car r
  or_car r panic = panic

  -- `addIndexForPiece`: the call that would add the records to the index directory is commented out.
  unfoldable pub add_index_for_piece : DealInfo → Exec S (Unit {0})
  add_index_for_piece dl = lift (get_reader sa dl) >>= λ reader.
      lift (
        or_car reader
          (parsers.parse_piece_with_data_segment_index reader (sa.unpadded dl.piece_length)))
      >>= λ recs. pure tt

  unfoldable pub first_indexed : List Error → List DealInfo → Exec S (Unit {0})
  unfolding add_index_for_piece
  first_indexed merr [] = raise (lib.multi_error merr)
  first_indexed merr (dl ∷ deals) =
      or_else (add_index_for_piece dl) λ e. first_indexed (merr ++ e ∷ []) deals

  abbrev pub index_of_deals : List DealInfo → Exec S (Unit {0})
  index_of_deals [] = raise (failed (codes "no deals found for piece"))
  index_of_deals (dl ∷ deals) = first_indexed [] (dl ∷ deals)

  -- `BuildIndexForPiece`
  unfoldable pub build_index_for_piece : Cid → Exec S (Unit {0})
  build_index_for_piece piece_cid =
      store.get_piece_deals piece_cid >>= λ deals. index_of_deals deals

  -- `AddDealForPiece`
  unfoldable pub add_deal_for_piece : Cid → DealInfo → Exec S (Unit {0})
  add_deal_for_piece piece_cid deal_info = store.is_indexed piece_cid >>= λ is_indexed.
      (if not is_indexed then add_index_for_piece deal_info else pure tt) >>= λ _.
      store.add_deal_for_piece piece_cid deal_info

  -- `TxAddDealForPiece`
  unfoldable pub tx_add_deal_for_piece : Cid → DealInfo → Exec S (Unit {0})
  tx_add_deal_for_piece piece_cid deal_info =
      store.is_indexed piece_cid >>= λ is_indexed. add_index_for_piece deal_info
