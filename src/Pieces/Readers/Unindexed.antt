-- ===== src/Pieces/Readers/Unindexed.antt =====
-- `AddDealForPiece` of lib/boost/piecedirectory/piecedirectory.go over the index directory.
use txcartool.Common.{
  ◌≡◌, refl, ap, false, Option, none, some, List, ok, if_found, Bool-cases, inl, inr,
}
use txcartool.Ldb.Model.{Cid, DealInfo, LeveldbMetadata, Record}
use txcartool.Ldb.Env.{Env}
use txcartool.Ldb.Works.{Works}
use txcartool.Ldb.Tables.{get_piece_cid_to_metadata}
use txcartool.Ldb.Tables.Laws.{stored, after_set, get_metadata-set_self}
use txcartool.Ldb.Store.{is_indexed, indexed_at, or_new, has_deal, get_piece_deals}
use txcartool.Ldb.Store
use txcartool.Ldb.Store.Removal.{remove_deal_for_piece}
use txcartool.Ldb.Store.Deals.{
  row, read, add_known, add_unknown, with_deal, insert_deal, get_piece_deals-add_deal,
}
use txcartool.Pieces.{Libraries}
use txcartool.Pieces
use txcartool.Pieces.Readers.{
  SectorAccessor, Parsers, get_reader, or_car, add_index_for_piece, add_deal_for_piece,
}

abbrev pub directory : {S : Type 0} → Env S → Pieces.Store S
directory env = record {
  get_piece_metadata = Store.get_piece_metadata env;
  get_piece_deals = get_piece_deals env;
  get_offset_size = Store.get_offset_size env;
  pieces_containing_multihash = Store.pieces_containing_multihash env;
  is_indexed = is_indexed env;
  is_complete_index = Store.is_complete_index env;
  add_deal_for_piece = Store.add_deal_for_piece env;
  remove_deal_for_piece = remove_deal_for_piece env;
}

not_indexed :
    {S : Type 0} (env : Env S) (works : Works env) (pc : Cid) (d : DealInfo) (s : S)
    (found : Option LeveldbMetadata)
    → if_found (row env works pc d s) ≡ ok found
    → (or_new found).indexed_at ≡ 0
    → is_indexed env pc s ≡ (ok false, s)
unfolding is_indexed indexed_at
not_indexed env works pc d s none e z = rw (read env works pc d s) (rw e refl)
not_indexed env works pc d s (some md) e z = rw (read env works pc d s) (rw e (rw z refl))

-- The row that adding a deal leaves has no time of an index either.
still_not_indexed :
    {S : Type 0} (env : Env S) (works : Works env) (pc : Cid) (d : DealInfo) (s : S)
    (found : Option LeveldbMetadata)
    → if_found (row env works pc d s) ≡ ok found
    → (or_new found).indexed_at ≡ 0
    → (is_indexed env pc (Store.add_deal_for_piece env pc d s).1).0 ≡ ok false
still_not_indexed env works pc d s found e z = elim (Bool-cases (has_deal (or_new found).deals d)) [
  | inl old ↦
      rw (add_known env works pc d s found e old) (rw (not_indexed env works pc d s found e z) refl)
  | inr new ↦
      let md = with_deal (or_new found) d in
      rw (add_unknown env works pc d s found e new) (
        ap (λ r. r.0)
          (not_indexed env works pc d (after_set env works pc md s) (some (stored md))
            (ap (λ r. if_found r.0) (get_metadata-set_self env works pc md s)) (stored_time md z)))
]
  where
    stored_time : (md : LeveldbMetadata) → md.indexed_at ≡ 0 → (stored md).indexed_at ≡ 0
    stored_time md z' = z'

module _ {S R : Type 0} (env : Env S) (works : Works env) (lib : Libraries) (sa : SectorAccessor R)
    (parsers : Parsers R) where
  -- On a datastore that works, where the row of the piece can be read or is absent and has no time
  -- of an index, and where the deal's sector can be read and its records parsed: adding a deal for
  -- a piece returns no error and records the deal, and the piece is not indexed then either.
  pub is_indexed-add_deal :
      (pc : Cid) (d : DealInfo) (s : S) (found : Option LeveldbMetadata) (r : R)
      (recs : List Record)
      → if_found (get_piece_cid_to_metadata env pc s).0 ≡ ok found
      → (or_new found).indexed_at ≡ 0
      → get_reader sa d ≡ ok r
      → or_car
          (directory env)
          lib
          sa
          parsers
          r
          (parsers.parse_piece_with_data_segment_index r (sa.unpadded d.piece_length))
        ≡ ok recs
      → ((add_deal_for_piece (directory env) lib sa parsers pc d s).0 ≡ ok tt)
        × (((get_piece_deals env pc (add_deal_for_piece (directory env) lib sa parsers pc d s).1).0
              ≡ ok (insert_deal (or_new found).deals d))
            × ((is_indexed env pc (add_deal_for_piece (directory env) lib sa parsers pc d s).1).0
                ≡ ok false))
  unfolding add_deal_for_piece add_index_for_piece
  is_indexed-add_deal pc d s found r recs e z reads parses =
      let (added, deals) = get_piece_deals-add_deal env works pc d s found e in
      rw (not_indexed env works pc d s found e z)
        (rw reads (rw parses (added, (deals, still_not_indexed env works pc d s found e z))))
