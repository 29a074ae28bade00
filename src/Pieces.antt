-- ===== src/Pieces.antt =====
-- The piece directory of lib/boost/piecedirectory/piecedirectory.go: what it uses, and the combinators
-- of its loops.
pub mod SharedReader
pub mod Throttle
pub mod Readers
pub mod Blocks
pub mod Segments
pub mod Blockstore
pub mod SectorAccess
use txcartool.Common.{
  ℕ, suc, ◌++◌, Bool, List, [], ◌∷◌, Bytes, Error, Result, ok, err, panic, Exec, ltb, if◌then◌else◌,
}
use txcartool.Ldb.Model.{Cid, Multihash, Address, DealInfo, Metadata, OffsetSize, Record}

-- the operations of the index directory that are called
pub record Store (S : Type 0) : Type 0 where
  pub get_piece_metadata : Cid → Exec S Metadata
  pub get_piece_deals : Cid → Exec S (List DealInfo)
  pub get_offset_size : Cid → Multihash → Exec S OffsetSize
  pub pieces_containing_multihash : Multihash → Exec S (List Cid)
  pub is_indexed : Cid → Exec S Bool
  pub is_complete_index : Cid → Exec S Bool
  pub add_deal_for_piece : Cid → DealInfo → Exec S (Unit {0})
  pub remove_deal_for_piece : Cid → Bytes → Exec S (Unit {0})

-- Other packages: go-multierror, go-cid and go-multihash.
pub record Libraries : Type 0 where
  pub multi_error : List Error → Error
  pub hash : Cid → Multihash
  -- the code and the digest of a multihash, and the code of the identity
  pub decode_multihash : Multihash → Result (ℕ × Bytes)
  pub identity_code : ℕ

module _ {S A : Type 0} where
  abbrev pub recover : Result A → (Error → Exec S A) → Exec S A
  recover (ok a) h s = (ok a, s)
  recover (err e) h s = h e s
  recover panic h s = (panic, s)

  -- what is done where the first part returns an error
  abbrev pub or_else : Exec S A → (Error → Exec S A) → Exec S A
  or_else m h s = let (r, s') = m s in recover r h s'

-- The errors of the first three rounds are kept.
abbrev pub keep_error : ℕ → List Error → Error → List Error
keep_error i merr e = if ltb i 3 then merr ++ e ∷ [] else merr
