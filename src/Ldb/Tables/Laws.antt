-- ===== src/Ldb/Tables/Laws.antt =====
-- What a read of a piece's rows returns after a write, on a datastore that works.
use txcartool.Common.{
  ◌≡◌, ◌≢◌, ap, false, Option, none, some, Bytes, Result, ok, err, not_found, bytes_eq,
  bytes_eq_iff, bytes_eq_refl, arith, Bool-cases, inl, inr, if◌then◌else◌, bind_result,
}
use txcartool.Ldb.Model.{
  Cid, Address, LeveldbMetadata, LeveldbFlaggedMetadata, to_wire, of_wire, of_wire-to_wire,
}
use txcartool.Ldb.Env.{Env}
use txcartool.Ldb.Works.{Works, Named, found_in}
use txcartool.Ldb.Keys.{metadata_key, piece_cid_to_flagged_key}
use txcartool.Ldb.Keys.Distinct.{metadata_key-eq, metadata-flagged}
use txcartool.Ldb.Tables.{
  set_piece_cid_to_metadata, get_piece_cid_to_metadata, get_piece_cid_to_flagged,
}

-- what the database keeps of a row
abbrev pub stored : LeveldbMetadata → LeveldbMetadata
stored md = record md { metadata = record md.metadata { complete_index = false } }

bytes_ne : (a b : Bytes) → a ≢ b → bytes_eq a b ≡ false
bytes_ne a b h = elim (Bool-cases (bytes_eq a b)) [
  | inl e ↦ absurd (h ((bytes_eq_iff a b).0 e))
  | inr e ↦ e
]

module _ {S : Type 0} (env : Env S) (works : Works env) where
  -- what is read at a metadata key
  unfoldable pub decode_metadata : Option Bytes → Result LeveldbMetadata
  decode_metadata none = err not_found
  decode_metadata (some b) = bind_result (env.unmarshal_metadata b) (λ w. ok (of_wire w))

  unfoldable pub decode_flagged : Option Bytes → Result LeveldbFlaggedMetadata
  decode_flagged none = err not_found
  decode_flagged (some b) = env.unmarshal_flagged b

  read_metadata_at :
      (pc : Cid) (s : S) (o : Option Bytes)
      → env.get (metadata_key env pc) s ≡ found_in o
      → get_piece_cid_to_metadata env pc s ≡ (decode_metadata o, s)
  unfolding get_piece_cid_to_metadata decode_metadata
  read_metadata_at pc s none e = rw e
  read_metadata_at pc s (some b) e = rw e (ground arith)

  -- A read changes nothing and returns what the row holds.
  pub get_metadata_lem :
      (pc : Cid) (s : S)
      → get_piece_cid_to_metadata env pc s
        ≡ (decode_metadata (works.contents (metadata_key env pc) s), s)
  get_metadata_lem pc s = read_metadata_at pc s _ (works.get_works _ s)

  read_flagged_at :
      (pc : Cid) (a : Address) (s : S) (o : Option Bytes)
      → env.get (piece_cid_to_flagged_key env a pc) s ≡ found_in o
      → get_piece_cid_to_flagged env pc a s ≡ (decode_flagged o, s)
  unfolding get_piece_cid_to_flagged decode_flagged
  read_flagged_at pc a s none e = rw e
  read_flagged_at pc a s (some b) e = rw e

  pub get_flagged_lem :
      (pc : Cid) (a : Address) (s : S)
      → get_piece_cid_to_flagged env pc a s
        ≡ (decode_flagged (works.contents (piece_cid_to_flagged_key env a pc) s), s)
  get_flagged_lem pc a s = read_flagged_at pc a s _ (works.get_works _ s)

  -- the database after a row is written
  abbrev pub after_set : Cid → LeveldbMetadata → S → S
  after_set pc md s = (env.put (metadata_key env pc) (works.metadata_bytes (to_wire md)) s).1

  pub set_metadata_lem :
      (pc : Cid) (md : LeveldbMetadata) (s : S)
      → set_piece_cid_to_metadata env pc md s ≡ (ok tt, after_set pc md s)
  unfolding set_piece_cid_to_metadata
  set_metadata_lem pc md s =
      rw (works.marshal_metadata_works (to_wire md)) (
        ground (arith, works.put_works (metadata_key env pc) (works.metadata_bytes (to_wire md)) s))

  pub contents-after_set :
      (pc : Cid) (md : LeveldbMetadata) (s : S) (j : Bytes)
      → works.contents j (after_set pc md s) ≡ (
          if bytes_eq (metadata_key env pc) j
          then some (works.metadata_bytes (to_wire md))
          else works.contents j s)
  contents-after_set pc md s j = works.contents-put _ _ s j

  pub decode-metadata_bytes :
      (md : LeveldbMetadata)
      → decode_metadata (some (works.metadata_bytes (to_wire md))) ≡ ok (stored md)
  unfolding decode_metadata
  decode-metadata_bytes md =
      rw (works.unmarshal_metadata_works (to_wire md)) (ap ok (of_wire-to_wire md))

  -- A row that is written is read back, without the mark of a complete index.
  pub get_metadata-set_self :
      (pc : Cid) (md : LeveldbMetadata) (s : S)
      → get_piece_cid_to_metadata env pc (after_set pc md s) ≡ (ok (stored md), after_set pc md s)
  get_metadata-set_self pc md s = rw (get_metadata_lem pc (after_set pc md s)) (
      rw (contents-after_set pc md s (metadata_key env pc))
        (rw (bytes_eq_refl (metadata_key env pc)) (rw (decode-metadata_bytes md))))

  module _ (named : Named env) where
    pub get_metadata-set_ne :
        (pc qc : Cid) (md : LeveldbMetadata) (s : S)
        → pc ≢ qc
        → (get_piece_cid_to_metadata env qc (after_set pc md s)).0
          ≡ (get_piece_cid_to_metadata env qc s).0
    get_metadata-set_ne pc qc md s ne =
        rw (get_metadata_lem qc (after_set pc md s), get_metadata_lem qc s)
          (rw (contents-after_set pc md s (metadata_key env qc))
            (rw (metadata_key-eq env named pc qc) (rw (bytes_ne pc qc ne))))

    pub get_flagged-set_metadata :
        (pc qc : Cid) (a : Address) (md : LeveldbMetadata) (s : S)
        → (get_piece_cid_to_flagged env qc a (after_set pc md s)).0
          ≡ (get_piece_cid_to_flagged env qc a s).0
    get_flagged-set_metadata pc qc a md s =
        rw (get_flagged_lem qc a (after_set pc md s), get_flagged_lem qc a s)
          (rw (contents-after_set pc md s (piece_cid_to_flagged_key env a qc))
            (rw (metadata-flagged env named pc a qc)))
