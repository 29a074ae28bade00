-- ===== src/Yugabyte/Store/Removal/LastDeal.antt =====
-- `RemoveDealForPiece` for the last deal of a piece, and for a deal that is not the last.
use txcartool.Common.{
  ◌<◌, ◌≡◌, ◌≢◌, refl, sym, ap, ◌∙◌, true, false, Option, none, some, List, [], ◌∷◌, Bytes, Result,
  ok, err, absent, bytes_eq, bytes_eq_iff, bytes_eq_refl, any, arith, inl, inr, Bool-cases,
  if◌then◌else◌,
}
use txcartool.Ldb.Model.{Cid, Multihash, DealInfo, OffsetSize, Time}
use txcartool.Yugabyte.Db.{Cassandra, Texts, MetadataRow}
use txcartool.Yugabyte.Errors.{trim_multihash}
use txcartool.Yugabyte.Settings.{Settings}
use txcartool.Yugabyte.Batches.Order.{then-works}
use txcartool.Yugabyte.Works.{
  Works, Reads, Tables, drop_deal, drop_metadata, is_deal_of, of_uuid, of_multihash, is_some,
}
use txcartool.Yugabyte.Store.{
  scan_rows, get_piece_deals, checked, get_metadata_row, get_offset_size,
  pieces_containing_multihash,
}
use txcartool.Yugabyte.Store.Reads.{
  get_metadata_row_lem, row_or_absent, get_offset_size_lem, or_absent, listed,
  listed-pieces_containing_multihash,
}
use txcartool.Yugabyte.Store.Removal.{remove_indexes, remove_piece_metadata, remove_deal_for_piece}
use txcartool.Yugabyte.Store.Removal.Gone.{
  metadata-dropped, dropped, rows_at, remove_indexes-works, blocks-dropped, holders-dropped,
  holders-dropped_ne,
}

module _ {S : Type 0} (db : Cassandra S) (works : Works db) (tx : Texts) (reads : Reads tx)
    (settings : Settings) (pos : 0 < settings.payload_pieces_parallelism) (pc : Cid)
    (deal_id : Bytes) (s : S) (row : MetadataRow × Time)
    (there : (works.tables s).metadata (tx.cid_string pc) ≡ some row)
    (last : (u : Bytes) → is_deal_of pc ((works.tables s).deals u) ≡ true → u ≡ deal_id) where
  abbrev pub after : Result (Unit {0}) × S
  after = remove_deal_for_piece db tx settings pc deal_id s

  -- the state when the deal is deleted
  abbrev undealt : S
  undealt = (db.delete_deal deal_id s).1

  -- the tables with nothing of the piece in them
  abbrev emptied : Tables
  emptied = drop_metadata (tx.cid_string pc) (
      dropped pc (rows_at db works tx reads settings pc undealt)
        (drop_deal deal_id (works.tables s)))

  metadata-undealt : get_metadata_row db tx pc undealt ≡ ok row.0
  unfolding drop_deal
  metadata-undealt =
      get_metadata_row_lem db works tx undealt pc
      ∙ rw (works.delete_deal_works deal_id s).1 (rw there refl)

  no-deals : (db.select_deals pc undealt).0 ≡ []
  unfolding drop_deal
  no-deals =
      go (db.select_deals pc undealt).0 (λ u. (works.select_deals_works pc undealt).1 u ∙ other u)
    where
      other : (u : Bytes) → is_deal_of pc ((works.tables undealt).deals u) ≡ false
      other u = rw (works.delete_deal_works deal_id s).1 (elim (Bool-cases (bytes_eq deal_id u)) [
        | inl e ↦ rw e refl
        | inr e ↦ rw e (ground (arith, last u, bytes_eq_refl deal_id))
      ])

      go : (rows : List DealInfo) → ((u : Bytes) → any (of_uuid u) rows ≡ false) → rows ≡ []
      go [] h = refl
      go (d ∷ rows) h = ground (arith, h d.deal_uuid, bytes_eq_refl d.deal_uuid)

  get_piece_deals-undealt : get_piece_deals db tx pc undealt ≡ ok []
  unfolding get_piece_deals scan_rows checked
  get_piece_deals-undealt =
      rw no-deals (rw (works.select_deals_works pc undealt).0 (rw metadata-undealt refl))

  after-works : (after.0 ≡ ok tt) × (works.tables after.1 ≡ emptied)
  unfolding remove_deal_for_piece remove_piece_metadata
  after-works =
      let k = tx.cid_string pc in
      let rows = rows_at db works tx reads settings pc undealt in
      let h = works.delete_deal_works deal_id s in
      let m1 = remove_indexes db tx settings pc in
      let removed =
        then-works works.tables m1 (db.delete_metadata k) (dropped pc rows) (drop_metadata k)
          undealt
          (remove_indexes-works db works tx reads settings pc row.0 undealt metadata-undealt pos)
          (works.delete_metadata_works k (m1 undealt).1) in
      rw h.0 (
        rw get_piece_deals-undealt
          (removed.0, removed.1 ∙ ap (λ v. drop_metadata k (dropped pc rows v)) h.1))

  -- whether the database listed a block of the piece
  row-listed :
      (m : Multihash)
      → any (of_multihash m) (rows_at db works tx reads settings pc undealt)
        ≡ is_some ((works.tables s).blocks pc m)
  unfolding drop_deal
  row-listed m =
      (works.select_index_works pc undealt).1 m ∙ rw (works.delete_deal_works deal_id s).1 refl

  -- On databases that work, where the piece has metadata and the deal is its last, and removals
  -- have a goroutine: removing the deal returns no error, and the piece then has no metadata and
  -- no multihash has an offset and size in it.
  pub remove_deal_for_piece-last :
      (m : Multihash)
      → (after.0 ≡ ok tt)
        × (get_metadata_row db tx pc after.1 ≡ err absent)
        × (get_offset_size db tx pc m after.1 ≡ err absent)
  unfolding drop_metadata drop_deal
  remove_deal_for_piece-last m =
      let rows = rows_at db works tx reads settings pc undealt in
      let v = drop_deal deal_id (works.tables s) in
      (
        after-works.0,
        get_metadata_row_lem db works tx after.1 pc
            ∙ rw after-works.1 (rw (bytes_eq_refl (tx.cid_string pc)) refl),
        get_offset_size_lem db works tx after.1 pc m
            ∙ rw after-works.1 (
                rw (blocks-dropped pc rows v pc m)
                  (rw (row-listed m) (rw (bytes_eq_refl pc) (go ((works.tables s).blocks pc m))))),
      )
    where
      go : (o : Option OffsetSize) → or_absent (if is_some o then none else o) ≡ err absent
      go none = refl
      go (some os) = refl

  -- The piece is then not returned for a multihash that had an offset and size in it.
  pub pieces_containing_multihash-remove_deal_for_piece :
      (m : Multihash) (os : OffsetSize)
      → get_offset_size db tx pc m s ≡ ok os
      → listed pc (pieces_containing_multihash db tx m after.1) ≡ false
  unfolding drop_metadata drop_deal
  pieces_containing_multihash-remove_deal_for_piece m os e =
      let rows = rows_at db works tx reads settings pc undealt in
      let v = drop_deal deal_id (works.tables s) in
      listed-pieces_containing_multihash db works tx after.1 reads m pc
      ∙ rw after-works.1 (
          holders-dropped pc rows v m (
            row-listed m
            ∙ go ((works.tables s).blocks pc m) (sym (get_offset_size_lem db works tx s pc m) ∙ e)))
    where
      go : (o : Option OffsetSize) → or_absent o ≡ ok os → is_some o ≡ true
      go none h = ground arith
      go (some b) h = refl

  -- On databases that work, where the piece has metadata and the deal is its last, and removals
  -- have a goroutine: removing the deal leaves of every other piece its metadata, its offsets and
  -- sizes, and whether it is returned for a multihash.
  pub remove_deal_for_piece-ne :
      (qc : Cid) (m : Multihash)
      → pc ≢ qc
      → (get_metadata_row db tx qc after.1 ≡ get_metadata_row db tx qc s)
        × (get_offset_size db tx qc m after.1 ≡ get_offset_size db tx qc m s)
        × (listed qc (pieces_containing_multihash db tx m after.1)
            ≡ listed qc (pieces_containing_multihash db tx m s))
  unfolding drop_metadata drop_deal
  remove_deal_for_piece-ne qc m ne =
      let rows = rows_at db works tx reads settings pc undealt in
      let v = drop_deal deal_id (works.tables s) in
      let apart : bytes_eq pc qc ≡ false = ground (arith, bytes_eq_iff pc qc) in
      let k = tx.cid_string pc in
      let apart_keys : bytes_eq k (tx.cid_string qc) ≡ false =
        ground (arith, bytes_eq_iff k (tx.cid_string qc), reads.cid_injective pc qc) in
      (
        rw (get_metadata_row_lem db works tx after.1 qc) (
            rw (get_metadata_row_lem db works tx s qc) (
              rw after-works.1 (
                rw apart_keys (ap row_or_absent (metadata-dropped pc rows v (tx.cid_string qc)))))),
        rw (get_offset_size_lem db works tx after.1 qc m) (
            rw (get_offset_size_lem db works tx s qc m)
              (rw after-works.1 (rw (blocks-dropped pc rows v qc m) (rw apart refl)))),
        rw (listed-pieces_containing_multihash db works tx after.1 reads m qc) (
            rw (listed-pieces_containing_multihash db works tx s reads m qc)
              (rw after-works.1 (holders-dropped_ne pc rows v (trim_multihash m) qc apart))),
      )
