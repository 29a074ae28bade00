-- ===== src/Pieces/SectorAccess/Fills.antt =====
-- The readers of pieces over the sector accessor: which proof type the two calls of lotus name.
use txcartool.Common.{
  ℕ, ◌≡◌, refl, ap, ◌∙◌, sym, true, false, ok, bind_result-ok, arith, Bool-cases, inl, inr,
}
use txcartool.Ldb.Model.{Address, DealInfo}
use txcartool.Pieces.Readers.{SectorAccessor, get_reader, if_unsealed}
use txcartool.Pieces.SectorAccess.{
  Lotus, SectorInfo, SectorRef, sectors_status, unseal_sector_at, is_unsealed, sector_ref,
  cid_or_undef,
}

module _ {R : Type 0} (lotus : Lotus R) (maddr : Address) (unpadded : ℕ → ℕ) where
  unfoldable pub accessor : SectorAccessor R
  accessor = record {
    is_unsealed = is_unsealed lotus maddr;
    unseal_sector_at = unseal_sector_at lotus maddr;
    unpadded = unpadded;
  }

  -- what lotus is asked of a deal's piece
  abbrev pub SaysUnsealed : DealInfo → Type 0
  SaysUnsealed dl =
      (ref : SectorRef) × (ref.id.number ≡ dl.sector_id)
      × (lotus.id_from_address maddr ≡ ok ref.id.miner)
      × (lotus.is_unsealed ref (unpadded dl.piece_offset) (unpadded dl.piece_length) ≡ ok true)

  abbrev pub WasRead : DealInfo → R → Type 0
  WasRead dl r =
      (ref : SectorRef) × (si : SectorInfo) × (ref.id.number ≡ dl.sector_id)
      × (lotus.id_from_address maddr ≡ ok ref.id.miner)
      × (lotus.sectors_status dl.sector_id ≡ ok si)
      × (lotus.read_piece ref (unpadded dl.piece_offset) (unpadded dl.piece_length) si.ticket
            (cid_or_undef si.comm_d)
          ≡ ok r)

  is_unsealed-SaysUnsealed :
      (dl : DealInfo)
      → is_unsealed lotus maddr dl.sector_id (unpadded dl.piece_offset) (unpadded dl.piece_length)
        ≡ ok true
      → SaysUnsealed dl
  unfolding is_unsealed
  is_unsealed-SaysUnsealed dl e =
      let (si, status, e1) =
        bind_result-ok (sectors_status lotus maddr dl.sector_id true) _ true e in
      let (mid, actor, asked) = bind_result-ok (lotus.id_from_address maddr) _ true e1 in
      (sector_ref lotus maddr mid dl.sector_id si, refl, actor, asked)

  unseal_sector_at-WasRead :
      (dl : DealInfo) (r : R)
      → unseal_sector_at lotus maddr dl.sector_id
          (unpadded dl.piece_offset)
          (unpadded dl.piece_length)
        ≡ ok r
      → WasRead dl r
  unfolding unseal_sector_at sectors_status
  unseal_sector_at-WasRead dl r e =
      let (si, status, e1) = bind_result-ok (sectors_status lotus maddr dl.sector_id false) _ r e in
      let (si', known, same) = bind_result-ok (lotus.sectors_status dl.sector_id) _ si status in
      let (mid, actor, read) = bind_result-ok (lotus.id_from_address maddr) _ r e1 in
      (sector_ref lotus maddr mid dl.sector_id si, si, refl, actor, known ∙ same, read)

  -- A reader of the piece of a deal is given only where lotus said of the sector of the deal, for
  -- the actor of the miner, that it is unsealed at the offset and the length of the piece, and it
  -- is what lotus then read there, with the ticket and the data commitment of the sector.
  pub get_reader-WasRead :
      (dl : DealInfo) (r : R) → get_reader accessor dl ≡ ok r → SaysUnsealed dl × WasRead dl r
  unfolding get_reader accessor
  get_reader-WasRead dl r e =
      let read =
        unseal_sector_at lotus maddr dl.sector_id (unpadded dl.piece_offset)
          (unpadded dl.piece_length) in
      let (unsealed, asked, given) =
        bind_result-ok
          (is_unsealed lotus maddr dl.sector_id (unpadded dl.piece_offset)
            (unpadded dl.piece_length))
          _ r e in
      elim (Bool-cases unsealed) [
        | inl said ↦ (
          is_unsealed-SaysUnsealed dl (asked ∙ ap ok said),
          unseal_sector_at-WasRead dl r (sym (ap (λ u. if_unsealed u read) said) ∙ given),
        )
        | inr denied ↦ absurd (ground (arith, given, denied))
      ]
