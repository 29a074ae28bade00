-- ===== src/Ldb/Store/AfterIndex.antt =====
-- What the reads of lib/boostd-data/ldb/service.go return after `AddIndex`.
use txcartool.Common.{
  ◌≡◌, ◌≢◌, ap, ◌∙◌, Bool, true, false, Option, some, List, map, ok, bytes_eq_refl, arith,
}
use txcartool.Ldb.Model.{Cid, Multihash, Time, Record, OffsetSize, LeveldbMetadata}
use txcartool.Ldb.Uvarint.{IsU64}
use txcartool.Ldb.Env.{Env}
use txcartool.Ldb.Works.{Works, Named}
use txcartool.Ldb.Index.{has}
use txcartool.Ldb.View.{View, Represents, put_piece, insert_cid}
use txcartool.Ldb.View.Multihashes.{index_holders, mentions}
use txcartool.Ldb.Store.{
  get_offset_size, pieces_containing_multihash, is_complete_index, is_indexed,
}
use txcartool.Ldb.Store.Indexing.{add_index}
use txcartool.Ldb.Store.Indexed.{given_metadata, index_piece, add_index-Represents}
use txcartool.Ldb.Store.Reads.{
  last_block, blocks-put_blocks, holders-put_blocks, get_offset_size_lem, is_complete_index_lem,
  is_indexed_lem, holders_lem, has-insert_cid,
}

module _ {S : Type 0} (env : Env S) (works : Works env) (named : Named env) (pc : Cid)
    (records : List Record) (complete : Bool) (now : Time) (s : S) (v : View)
    (rep : Represents env works s v)
    (fits : IsU64 (given_metadata complete (v.pieces pc) v.next).cursor) where
  abbrev after : S
  after = (add_index env pc records complete now s).1

  abbrev given : LeveldbMetadata
  given = given_metadata complete (v.pieces pc) v.next

  abbrev view_after : View
  view_after = index_piece env pc records complete now v

  rep_after : Represents env works after view_after
  rep_after = (add_index-Represents env works named pc records complete now s v rep fits).1

  piece_after :
      view_after.pieces pc
      ≡ some (record given { metadata = record given.metadata { indexed_at = now } })
  unfolding index_piece put_piece
  piece_after = rw (bytes_eq_refl pc)

  -- On a datastore that works and holds a view, where the cursor of the piece fits in 64 bits:
  -- after a piece has been indexed, each multihash of its records is looked up with the offset and
  -- size of the last record that has it, if these fit in 64 bits.
  pub get_offset_size-add_index :
      (m : Multihash) (os : OffsetSize)
      → last_block env records m ≡ some os
      → IsU64 os.offset
      → IsU64 os.size
      → (get_offset_size env pc m after).0 ≡ ok os
  get_offset_size-add_index m os e ho hz =
      get_offset_size_lem env works after view_after rep_after pc m _ os piece_after fits
        (block_after m os e) ho hz
    where
      block_after :
          (m : Multihash) (os : OffsetSize)
          → last_block env records m ≡ some os
          → view_after.blocks given.cursor m ≡ some os
      block_after m os e =
          unfold index_piece put_piece in (blocks-put_blocks env given.cursor records _ m ∙ rw e)

  -- On a datastore that works and holds a view, where the cursor of the piece fits in 64 bits:
  -- after a piece has been indexed, it is among the pieces that are returned for the multihash of
  -- any of its records.
  pub pieces_containing-add_index :
      (m : Multihash)
      → mentions env (map (λ r. r.cid) records) m ≡ true
      → (cs : List Cid) × ((pieces_containing_multihash env m after).0 ≡ ok cs) × (has cs pc ≡ true)
  pieces_containing-add_index m e = (
    insert_cid pc (v.holders m),
    holders_lem env works after view_after rep_after m (insert_cid pc (v.holders m)) (held m e),
    has-insert_cid pc (v.holders m),
  )
    where
      held :
          (m : Multihash)
          → mentions env (map (λ r. r.cid) records) m ≡ true
          → view_after.holders m ≡ some (insert_cid pc (v.holders m))
      held m e =
          unfold index_piece put_piece in
          (ap (λ (h : Multihash → Option (List Cid)). h m)
              (holders-put_blocks env given.cursor records _)
            ∙ unfold index_holders in rw e)

  -- On a datastore that works and holds a view, where the cursor of the piece fits in 64 bits:
  -- after a piece has been indexed at a time other than zero, it is an indexed piece.
  pub is_indexed-add_index : now ≢ 0 → (is_indexed env pc after).0 ≡ ok true
  is_indexed-add_index h =
      is_indexed_lem env works after view_after rep_after pc _ piece_after ∙ ground arith

  -- On a datastore that works and holds a view, where the cursor of the piece fits in 64 bits:
  -- after a piece has been indexed as complete or not, `IsCompleteIndex` says that its index is
  -- not complete.
  pub is_complete_index-add_index : (is_complete_index env pc after).0 ≡ ok false
  is_complete_index-add_index =
      is_complete_index_lem env works after view_after rep_after pc _ piece_after
