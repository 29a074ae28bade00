-- ===== src/Ldb/Store/Missing.antt =====
-- Which pieces the methods of lib/boostd-data/ldb/service.go know after a sequence of calls, and
-- what they return for the others.
use txcartool.Common.{
  ◌≡◌, refl, sym, ◌∙◌, false, none, some, List, Bytes, ok, err, not_found, absent, Option-cases,
  ◌⊎◌, inl, inr,
}
use txcartool.Ldb.Model.{Cid, Multihash, DealInfo, LeveldbMetadata}
use txcartool.Ldb.Env.{Env}
use txcartool.Ldb.Works.{Works, Named}
use txcartool.Ldb.Tables.{get_piece_cid_to_metadata}
use txcartool.Ldb.Tables.Laws.{stored, get_metadata_lem, decode_metadata}
use txcartool.Ldb.Store.{
  start, get_offset_size, get_piece_metadata, get_piece_deals, get_index, indexed_at, is_indexed,
  is_complete_index, normalize_error,
}
use txcartool.Ldb.Store.Reads.{row_of}
use txcartool.Ldb.Store.Removal.{remove_deal_for_piece, remove_indexes}
use txcartool.Ldb.Store.Histories.{Write, deals_after, run_writes, run_writes-Holds}

module _ {S : Type 0} (env : Env S) where
  -- Every read of the piece says that it is missing and changes nothing: of its metadata, deals,
  -- blocks and index and of the mark of a complete index, with the error of a missing piece; it is
  -- not indexed; the removal of a deal is no error, and that of its index the error of a missing
  -- key.
  pub record IsMissing (pc : Cid) (s : S) : Type 0 where
    pub no_metadata : get_piece_metadata env pc s ≡ (err absent, s)
    pub no_deals : get_piece_deals env pc s ≡ (err absent, s)
    pub no_blocks : (m : Multihash) → get_offset_size env pc m s ≡ (err absent, s)
    pub no_index : get_index env pc s ≡ (err absent, s)
    pub no_mark : is_complete_index env pc s ≡ (err absent, s)
    pub not_indexed : is_indexed env pc s ≡ (ok false, s)
    pub no_deal : (uuid : Bytes) → remove_deal_for_piece env pc uuid s ≡ (ok tt, s)
    pub no_rows : remove_indexes env pc s ≡ (err not_found, s)

  no_row-IsMissing :
      (pc : Cid) (s : S) → get_piece_cid_to_metadata env pc s ≡ (err not_found, s) → IsMissing pc s
  unfolding get_piece_metadata get_piece_deals get_offset_size get_index is_complete_index
      is_indexed indexed_at remove_deal_for_piece remove_indexes normalize_error
  no_row-IsMissing pc s e = record {
    no_metadata = rw e;
    no_deals = rw e;
    no_blocks = λ m. rw e;
    no_index = rw e;
    no_mark = rw e;
    not_indexed = rw e;
    no_deal = λ uuid. rw e;
    no_rows = rw e;
  }

  deals-row :
      (pc : Cid) (s : S) (md : LeveldbMetadata)
      → get_piece_cid_to_metadata env pc s ≡ (ok (stored md), s)
      → get_piece_deals env pc s ≡ (ok md.deals, s)
  unfolding get_piece_deals
  deals-row pc s md e = rw e

  -- On a datastore that works: after a start on an empty database and any calls of
  -- `AddDealForPiece` and `AddIndex`, a piece that one of the calls is for has the deals that were
  -- added for it, each once and in the order of their coming; for every other piece, the reads of
  -- its metadata, of its deals, of any block, of its index and of the mark of a complete index
  -- return the error of a missing piece, it is not indexed, the removal of a deal does nothing and
  -- returns no error, and the removal of its index returns the error of a missing key. None of
  -- these changes the database.
  pub get_piece_deals-run_writes :
      (works : Works env) (named : Named env) (ws : List Write) (s : S)
      → ((k : Bytes) → works.contents k s ≡ none)
      → (pc : Cid)
      → let t = run_writes env ws (start env s).1 in
        ((ds : List DealInfo) × (deals_after ws pc none ≡ some ds)
          × (get_piece_deals env pc t ≡ (ok ds, t)))
        ⊎ ((deals_after ws pc none ≡ none) × IsMissing pc t)
  get_piece_deals-run_writes works named ws s empty pc =
      let t = run_writes env ws (start env s).1 in
      let h = run_writes-Holds env works named ws s empty in
      elim (Option-cases (h.view.pieces pc)) [
        | inl no_piece ↦ inr (
          sym (h.pieces_in pc) ∙ rw no_piece,
          no_row-IsMissing pc t (
              get_metadata_lem env works pc t
              ∙ rw (h.represents.pieces_at pc) (rw no_piece (unfold decode_metadata in refl))),
        )
        | inr (md, there) ↦ inl (
          md.deals,
          sym (h.pieces_in pc) ∙ rw there,
          deals-row pc t md (row_of env works t h.view h.represents pc md there),
        )
      ]
