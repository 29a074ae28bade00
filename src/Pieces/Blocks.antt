-- ===== src/Pieces/Blocks.antt =====
-- The reads of blocks in lib/boost/piecedirectory/piecedirectory.go. A shared reader is the one that
-- the cache has, or else the piece's own; `util.ReadNode` of go-car, on a reader at an offset with a
-- buffer, is a parameter.
pub mod Hashes
use txcartool.Common.{
  ℕ, zero, suc, ◌++◌, Bool, true, false, ◌&&◌, Option, none, some, List, [], ◌∷◌, Bytes, Error,
  failed, codes, bytes_eq, ltb, ◌==◌, Result, ok, err, panic, bind_result, Exec, pure, raise, lift,
  continue, ◌>>=◌, ◌>>◌, if◌then◌else◌, length,
}
use txcartool.Ldb.Model.{Cid, DealInfo, OffsetSize}
use txcartool.Pieces.{Store, Libraries, recover, or_else, keep_error}
use txcartool.Pieces.Readers.{SectorAccessor, Parsers, get_piece_reader, build_index_for_piece}

-- `format.ErrNotFound`, which bitswap looks for
abbrev pub ipld_not_found : Error
ipld_not_found = failed (codes "ipld: could not find")

module _ {S R : Type 0} (store : Store S) (lib : Libraries) (sa : SectorAccessor R)
    (parsers : Parsers R) (cached : Cid → Option (Result R))
    (read_node : R → ℕ → ℕ → Result (Cid × Bytes)) where
  abbrev pub or_open : Cid → Option (Result R) → Exec S R
  or_open piece_cid none = get_piece_reader store lib sa parsers piece_cid
  or_open piece_cid (some r) = lift r

  -- `isIdentity`: the digest, and whether it is that of an identity
  unfoldable pub is_identity : Cid → Result (Bytes × Bool)
  is_identity c =
      bind_result (lib.decode_multihash (lib.hash c))
        λ (code, digest). ok (digest, code == lib.identity_code)

  abbrev pub buffer_size : OffsetSize → ℕ
  buffer_size os = if ltb os.size 4096 then os.size else 4096

  abbrev pub same_hash : Cid → Cid × Bytes → Result Bytes
  same_hash c (read_cid, block_data) =
      if bytes_eq (lib.hash read_cid) (lib.hash c)
      then ok block_data
      else err (failed (codes "read block from reader, but expected another"))

  -- the function that is called for each of the pieces
  unfoldable pub read_block : Cid → Cid → Exec S Bytes
  read_block c piece_cid = or_open piece_cid (cached piece_cid) >>= λ reader.
      store.get_offset_size piece_cid (lib.hash c) >>= λ os.
      lift (bind_result (read_node reader os.offset (buffer_size os)) (same_hash c))

  unfoldable pub first_block : Cid → ℕ → List Error → List Cid → Exec S Bytes
  unfolding read_block
  first_block c i merr [] = raise (lib.multi_error merr)
  first_block c i merr (piece_cid ∷ pieces) =
      or_else (read_block c piece_cid) λ e. first_block c (suc i) (keep_error i merr e) pieces

  abbrev pub block_of : Cid → List Cid → Exec S Bytes
  block_of c [] = raise (failed (codes "no pieces with cid found"))
  block_of c (piece_cid ∷ pieces) = first_block c 0 [] (piece_cid ∷ pieces)

  -- where the pieces of a cid cannot be found
  abbrev pub if_identity : Error → Result (Bytes × Bool) → Result Bytes
  if_identity e (ok (digest, true)) = ok digest
  if_identity e (ok (digest, false)) = err e
  if_identity e (err iderr) = err e
  if_identity e panic = panic

  abbrev pub found_pieces : Cid → Result (List Cid) → Exec S Bytes
  found_pieces c (ok pieces) = block_of c pieces
  found_pieces c (err e) = lift (if_identity e (is_identity c))
  found_pieces c panic = lift panic

  -- `BlockstoreGet`
  unfoldable pub blockstore_get : Cid → Exec S Bytes
  unfolding first_block is_identity
  blockstore_get c s =
      let (r, s') = store.pieces_containing_multihash (lib.hash c) s in found_pieces c r s'

  -- the size of a block in one of its pieces, whose index is built where it may be incomplete
  unfoldable pub block_size : Cid → Cid → Exec S ℕ
  block_size c piece_cid = store.get_offset_size piece_cid (lib.hash c) >>= λ os.
      if ltb 0 os.size
      then pure os.size
      else (store.is_complete_index piece_cid >>= λ is_complete.
          if is_complete
          then pure os.size
          else (build_index_for_piece store lib sa parsers piece_cid >>= λ _.
              store.get_offset_size piece_cid (lib.hash c) >>= λ built. pure built.size))

  unfoldable pub first_size : Cid → List Error → List Cid → Exec S ℕ
  unfolding block_size
  first_size c merr [] = raise (lib.multi_error merr)
  first_size c merr (piece_cid ∷ pieces) =
      or_else (block_size c piece_cid) λ e. first_size c (merr ++ e ∷ []) pieces

  abbrev pub size_of : Cid → List Cid → Exec S ℕ
  size_of c [] = raise ipld_not_found
  size_of c (piece_cid ∷ pieces) = first_size c [] (piece_cid ∷ pieces)

  -- `BlockstoreGetSize`
  unfoldable pub blockstore_get_size : Cid → Exec S ℕ
  unfolding first_size
  blockstore_get_size c =
      store.pieces_containing_multihash (lib.hash c) >>= λ pieces. size_of c pieces

  -- `BlockstoreHas`
  unfoldable pub blockstore_has : Cid → Exec S Bool
  blockstore_has c =
      store.pieces_containing_multihash (lib.hash c) >>= λ pieces. pure (ltb 0 (length pieces))
