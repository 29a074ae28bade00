-- ===== src/Reseal/Stages/Whole.antt =====
-- A whole run of one sector of cmd/reseal.go, and a run on the wrong piece.
use txcartool.Common.{
  ◌≡◌, refl, Bool, true, false, [], ◌∷◌, Bytes, ok, codes, bytes_eq, bytes_eq_iff, if◌then◌else◌,
}
use txcartool.Reseal.{SectorSealInfo, SectorMeta}
use txcartool.Reseal.Stages.{
  PieceInfo, no_piece, Call, World, Trace, add_piece, precommit1, precommit2, finalize, sector_meta,
  redo_sector,
}

module _ {Uuid : Type 0} (w : World Uuid) (info : SectorSealInfo Uuid) (meta : SectorMeta) where
  -- The database has the sector, and the piece of its file can be made.
  pub record HasPiece (piece : PieceInfo) (orig : Bytes) : Type 0 where
    pub has_row : sector_meta w info.sid ≡ ok meta
    pub has_orig : w.decode meta.orig_unsealed_cid ≡ ok orig
    pub has_car : w.create_car info.car_key ≡ ok piece

  -- Each step up to the second part of the sealing works.
  pub record Works (piece : PieceInfo) (out sealed orig_sealed : Bytes) : Type 0 where
    pub car : HasPiece piece piece.piece_cid
    pub has_unsealed : w.create_unsealed info.car_key ≡ ok tt
    pub has_done : w.has_done info.sid ≡ true
    pub acquires : w.acquire info.sid ≡ ok tt
    pub renames : w.rename info.sid ≡ ok tt
    pub seals1 : w.seal1 info.sid meta.ticket_value (piece ∷ []) ≡ ok out
    pub seals2 : w.seal2 info.sid out ≡ ok sealed
    pub has_orig_sealed : w.decode meta.orig_sealed_cid ≡ ok orig_sealed
    pub same_sealed : w.cid_text sealed ≡ w.cid_text orig_sealed

  -- The calls of the three stages before the last.
  abbrev pub sealing_calls : PieceInfo → Bytes → Trace Uuid
  sealing_calls piece out =
      Call.create_car_file info.car_key
      ∷ Call.create_tx_unsealed
      ∷ Call.acquire_sector info.sid
      ∷ Call.rename_unsealed
      ∷ Call.seal_pre_commit1 info.sid meta.ticket_value (piece ∷ [])
      ∷ Call.seal_pre_commit2 info.sid out
      ∷ []

  -- Where each step works and the CIDs are those of the database, a worker whose seal type names
  -- no earlier stage makes the calls of the three stages in their order, with the piece of the
  -- file and the ticket of the database, and then finalizes.
  pub redo_sector-whole :
      (piece : PieceInfo) (out sealed orig_sealed : Bytes)
      → Works piece out sealed orig_sealed
      → bytes_eq info.seal_type (codes "AP") ≡ false
      → bytes_eq info.seal_type (codes "P1") ≡ false
      → bytes_eq info.seal_type (codes "P2") ≡ false
      → redo_sector w info [] ≡ finalize w info.sid (sealing_calls piece out)
  unfolding redo_sector add_piece precommit1 precommit2
  redo_sector-whole piece out sealed orig_sealed h not_ap not_p1 not_p2 =
      rw
        (
          h.car.has_row, h.car.has_orig, h.car.has_car, same, h.has_unsealed, h.has_done,
          h.acquires, h.renames, not_ap, h.seals1, not_p1, h.has_orig_sealed, h.seals2, same_text,
          not_p2,
        )
        refl
    where
      same : bytes_eq piece.piece_cid piece.piece_cid ≡ true
      same = (bytes_eq_iff _ _).1 refl

      same_text : bytes_eq (w.cid_text sealed) (w.cid_text orig_sealed) ≡ true
      same_text = (bytes_eq_iff _ _).1 h.same_sealed

  abbrev wrong_piece_calls : Bool → Trace Uuid
  wrong_piece_calls true = Call.create_car_file info.car_key ∷ []
  wrong_piece_calls false =
      Call.create_car_file info.car_key
      ∷ Call.seal_pre_commit1 info.sid meta.ticket_value (no_piece ∷ [])
      ∷ []

  -- Where the piece of the file is not that of the database, there is no error: a worker that is
  -- to stop after the first stage returns none, and one that is to stop after the second has
  -- called the first part of the sealing with the empty piece, if that call works.
  pub redo_sector-wrong_piece :
      (piece : PieceInfo) (orig out : Bytes) (first : Bool)
      → HasPiece piece orig
      → bytes_eq piece.piece_cid orig ≡ false
      → w.seal1 info.sid meta.ticket_value (no_piece ∷ []) ≡ ok out
      → info.seal_type ≡ (if first then codes "AP" else codes "P1")
      → redo_sector w info [] ≡ (ok tt, wrong_piece_calls first)
  unfolding redo_sector add_piece precommit1 bytes_eq
  redo_sector-wrong_piece piece orig out true h differs seals1 seal_type =
      rw (h.has_row, h.has_orig, h.has_car, differs, seal_type) refl
  redo_sector-wrong_piece piece orig out false h differs seals1 seal_type =
      rw (h.has_row, h.has_orig, h.has_car, differs, seal_type, seals1) refl
