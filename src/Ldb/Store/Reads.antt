-- ===== src/Ldb/Store/Reads.antt =====
-- What the reads of lib/boostd-data/ldb/service.go return on a database that holds a view, and after
-- a piece has been indexed.
use txcartool.Common.{
  ℕ, ◌≡◌, refl, ◌∙◌, true, false, not, Option, none, some, List, [], ◌∷◌, ◌++◌, ok, bytes_eq,
  bytes_eq_refl, if◌then◌else◌, ◌==◌, arith,
}
use txcartool.Ldb.Model.{Cid, Multihash, Record, OffsetSize, LeveldbMetadata}
use txcartool.Ldb.Uvarint.{IsU64}
use txcartool.Ldb.Uvarint.RoundTrip.{decode-encode}
use txcartool.Ldb.Env.{Env}
use txcartool.Ldb.Works.{Works}
use txcartool.Ldb.Keys.{record_key, mh_key, key_cursor_prefix}
use txcartool.Ldb.Tables.{get_piece_cid_to_metadata}
use txcartool.Ldb.Tables.Laws.{stored, get_metadata_lem, decode-metadata_bytes}
use txcartool.Ldb.Index
use txcartool.Ldb.Index.{has, get_piece_cids_by_multihash}
use txcartool.Ldb.View.{View, Represents, put_block, insert_cid}
use txcartool.Ldb.Store.{
  get_offset_size, pieces_containing_multihash, is_complete_index, indexed_at, is_indexed,
}
use txcartool.Ldb.Store.Indexed.{put_blocks}

-- the offset and size of the last record with the multihash
unfoldable pub last_block : {S : Type 0} → Env S → List Record → Multihash → Option OffsetSize
last_block env [] m = none
last_block env (r ∷ rs) m = elim (last_block env rs m) [
  | some os ↦ some os
  | none ↦ if bytes_eq (env.cid_hash r.cid) m then some r.offset_size else none
]

module _ {S : Type 0} (env : Env S) where
  pub blocks-put_blocks :
      (c : ℕ) (rs : List Record) (v : View) (m : Multihash)
      → (put_blocks env c rs v).blocks c m
        ≡ elim (last_block env rs m) [ some os ↦ some os | none ↦ v.blocks c m ]
  unfolding put_blocks last_block
  blocks-put_blocks c [] v m = refl
  blocks-put_blocks c (r ∷ rs) v m =
      blocks-put_blocks c rs (put_block c (env.cid_hash r.cid) r.offset_size v) m
      ∙ unfold put_block in ground arith

  pub pieces-put_blocks :
      (c : ℕ) (rs : List Record) (v : View) → (put_blocks env c rs v).pieces ≡ v.pieces
  unfolding put_blocks put_block
  pieces-put_blocks c [] v = refl
  pieces-put_blocks c (r ∷ rs) v =
      pieces-put_blocks c rs (put_block c (env.cid_hash r.cid) r.offset_size v)

  pub holders-put_blocks :
      (c : ℕ) (rs : List Record) (v : View) → (put_blocks env c rs v).holders ≡ v.holders
  unfolding put_blocks put_block
  holders-put_blocks c [] v = refl
  holders-put_blocks c (r ∷ rs) v =
      holders-put_blocks c rs (put_block c (env.cid_hash r.cid) r.offset_size v)

  module _ (works : Works env) (s : S) (v : View) (rep : Represents env works s v) where
    -- the metadata row of a piece that the view has
    pub row_of :
        (pc : Cid) (md : LeveldbMetadata)
        → v.pieces pc ≡ some md
        → get_piece_cid_to_metadata env pc s ≡ (ok (stored md), s)
    row_of pc md e =
        rw (get_metadata_lem env works pc s)
          (rw (rep.pieces_at pc) (rw e (rw (decode-metadata_bytes env works md))))

    pub get_offset_size_lem :
        (pc : Cid) (m : Multihash) (md : LeveldbMetadata) (os : OffsetSize)
        → v.pieces pc ≡ some md
        → IsU64 md.cursor
        → v.blocks md.cursor m ≡ some os
        → IsU64 os.offset
        → IsU64 os.size
        → (get_offset_size env pc m s).0 ≡ ok os
    unfolding get_offset_size Index.get_offset_size
    get_offset_size_lem pc m md os e hc hb ho hz = rw (row_of pc md e) (
        rw (works.get_works (record_key env (key_cursor_prefix md.cursor) m) s)
          (rw (rep.blocks_at md.cursor m hc) (rw hb (rw (decode-encode os ho hz)))))

    -- `IsCompleteIndex` of a piece with metadata is false, whatever was written.
    pub is_complete_index_lem :
        (pc : Cid) (md : LeveldbMetadata)
        → v.pieces pc ≡ some md
        → (is_complete_index env pc s).0 ≡ ok false
    unfolding is_complete_index
    is_complete_index_lem pc md e = rw (row_of pc md e)

    pub is_indexed_lem :
        (pc : Cid) (md : LeveldbMetadata)
        → v.pieces pc ≡ some md
        → (is_indexed env pc s).0 ≡ ok (not (md.indexed_at == 0))
    unfolding is_indexed indexed_at
    is_indexed_lem pc md e = rw (row_of pc md e)

    pub holders_lem :
        (m : Multihash) (cs : List Cid)
        → v.holders m ≡ some cs
        → (pieces_containing_multihash env m s).0 ≡ ok cs
    unfolding pieces_containing_multihash get_piece_cids_by_multihash
    holders_lem m cs e =
        rw (works.get_works (mh_key env m) s)
          (rw (rep.holders_at m) (rw e (rw (works.unmarshal_cids_works cs))))

has-append : (cs : List Cid) (pc : Cid) → has (cs ++ pc ∷ []) pc ≡ true
unfolding has
has-append [] pc = rw (bytes_eq_refl pc)
has-append (c ∷ cs) pc = ground (arith, has-append cs pc)

pub has-insert_cid : (pc : Cid) (o : Option (List Cid)) → has (insert_cid pc o) pc ≡ true
unfolding insert_cid
has-insert_cid pc none = has-append [] pc
has-insert_cid pc (some cs) = ground (arith, has-append cs pc)
