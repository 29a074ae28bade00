-- ===== src/Ldb/Store/Sharing.antt =====
-- `GetOffsetSize` of one piece after `AddIndex` of another.
use txcartool.Common.{
  ◌+◌, ◌≡◌, ◌≢◌, sym, ◌∙◌, Bool, some, List, ok, bytes_eq, bytes_eq_iff, arith, Bool-cases, inl,
  inr, subst,
}
use txcartool.Ldb.Model.{Cid, Multihash, Time, Record, OffsetSize, LeveldbMetadata}
use txcartool.Ldb.Uvarint.{IsU64}
use txcartool.Ldb.Env.{Env}
use txcartool.Ldb.Works.{Works, Named}
use txcartool.Ldb.View.{View, Represents}
use txcartool.Ldb.Store.{get_offset_size}
use txcartool.Ldb.Store.Indexing.{add_index}
use txcartool.Ldb.Store.Indexed.{given_metadata, index_piece, add_index-Represents}
use txcartool.Ldb.Store.Reads.{last_block, get_offset_size_lem}
use txcartool.Ldb.Store.Cursors.{
  HasOwnCursors, given-apart, given-fits, blocks-index_piece_self, pieces-index_piece,
  blocks-index_piece,
}

module _ {S : Type 0} (env : Env S) (works : Works env) (named : Named env) (pc qc : Cid)
    (records : List Record) (complete : Bool) (now : Time) (s : S) (v : View)
    (rep : Represents env works s v) (ne : pc ≢ qc) where
  abbrev given : LeveldbMetadata
  given = given_metadata complete (v.pieces pc) v.next

  other-piece :
      (nd : LeveldbMetadata)
      → v.pieces qc ≡ some nd
      → (index_piece env pc records complete now v).pieces qc ≡ some nd
  other-piece nd e = elim (Bool-cases (bytes_eq pc qc)) [
    | inl same ↦ absurd (ne ((bytes_eq_iff pc qc).0 same))
    | inr apart ↦ rw (pieces-index_piece env pc records complete now v qc) (rw apart e)
  ]

  -- On a datastore that works and holds a view: while the cursors of the pieces are apart and the
  -- next cursor is below the last of the 64 bits, indexing a piece leaves the lookups of every
  -- other piece: a multihash that has an offset and size there keeps them.
  pub get_offset_size-add_index_ne :
      HasOwnCursors v
      → IsU64 (v.next + 1)
      → (m : Multihash) (nd : LeveldbMetadata) (os : OffsetSize) → v.pieces qc ≡ some nd
      → v.blocks nd.cursor m ≡ some os
      → IsU64 os.offset
      → IsU64 os.size
      → (get_offset_size env qc m (add_index env pc records complete now s).1).0 ≡ ok os
  get_offset_size-add_index_ne own fits m nd os e hb ho hz =
      get_offset_size_lem env works _ _
        (add_index-Represents env works named pc records complete now s v rep
          (given-fits env pc records complete now v own fits)).1
        qc m nd os (other-piece nd e) (omega (arith, own.below qc nd e, fits))
        (blocks-index_piece env pc records complete now v nd.cursor m
            (λ same. ne (given-apart env pc records complete now v own fits qc nd e same))
          ∙ hb)
        ho hz

  -- On a datastore that works and holds a view: where two pieces share a cursor, indexing one of
  -- them overwrites the lookups of the other: for a multihash of the records whose offset and size
  -- fit in 64 bits, the other piece then answers with the offset and size of the last such record
  -- of the piece that was indexed.
  pub get_offset_size-shared :
      (m : Multihash) (nd : LeveldbMetadata) (os : OffsetSize)
      → v.pieces qc ≡ some nd
      → given.cursor ≡ nd.cursor
      → IsU64 nd.cursor
      → last_block env records m ≡ some os
      → IsU64 os.offset
      → IsU64 os.size
      → (get_offset_size env qc m (add_index env pc records complete now s).1).0 ≡ ok os
  get_offset_size-shared m nd os e same fits el ho hz =
      get_offset_size_lem env works _ _
        (add_index-Represents env works named pc records complete now s v rep
          (subst IsU64 (sym same) fits)).1
        qc m nd os (other-piece nd e) fits
        (blocks-index_piece_self env pc records complete now v nd.cursor m os same el) ho hz
