-- ===== src/Ldb/View.antt =====
-- The abstract state of the local index directory: four maps, where the database has one map from
-- key texts to value texts.
pub mod Writes
pub mod Multihashes
use txcartool.Common.{
  ℕ, ◌≡◌, Bool, ◌&&◌, Option, none, some, List, [], ◌∷◌, ◌++◌, Bytes, bytes_eq, if◌then◌else◌, ◌==◌,
}
use mathlib.Core.Option
use txcartool.Ldb.Model.{Cid, Multihash, LeveldbMetadata, OffsetSize, to_wire}
use txcartool.Ldb.Uvarint.{encode_offset_size, IsU64}
use txcartool.Ldb.Env.{Env}
use txcartool.Ldb.Works.{Works}
use txcartool.Ldb.Keys.{
  metadata_key, mh_key, record_key, key_cursor_prefix, dskey_next_cursor, uvarint_buffer,
}
use txcartool.Ldb.Index.{has}

pub record View : Type 0 where
  -- the metadata of each piece
  pub pieces : Cid → Option LeveldbMetadata
  -- the pieces that hold a multihash
  pub holders : Multihash → Option (List Cid)
  -- the offset and size of a multihash under a cursor
  pub blocks : ℕ → Multihash → Option OffsetSize
  -- the next free cursor
  pub next : ℕ

abbrev pub encoded : {A : Type 0} → (A → Bytes) → Option A → Option Bytes
encoded f none = none
encoded f (some a) = some (f a)

-- The database holds a view.
pub record Represents {S : Type 0} (env : Env S) (works : Works env) (s : S) (v : View)
    : Type 0 where
  pub pieces_at :
      (pc : Cid)
      → works.contents (metadata_key env pc) s
        ≡ encoded (λ md. works.metadata_bytes (to_wire md)) (v.pieces pc)
  pub holders_at :
      (m : Multihash) → works.contents (mh_key env m) s ≡ encoded works.cids_bytes (v.holders m)
  pub blocks_at :
      (c : ℕ) (m : Multihash)
      → IsU64 c
      → works.contents (record_key env (key_cursor_prefix c) m) s
        ≡ encoded encode_offset_size (v.blocks c m)
  pub next_at : works.contents (dskey_next_cursor env) s ≡ some (uvarint_buffer v.next)
  pub next_IsU64 : IsU64 v.next

unfoldable pub put_piece : Cid → LeveldbMetadata → View → View
put_piece pc md v = record v { pieces = λ qc. if bytes_eq pc qc then some md else v.pieces qc }

unfoldable pub put_block : ℕ → Multihash → OffsetSize → View → View
put_block c m os v = record v {
  blocks = λ d n. if (c == d) && bytes_eq m n then some os else v.blocks d n;
}

-- A piece is added behind the pieces that hold the multihash, unless it is among them.
unfoldable pub insert_cid : Cid → Option (List Cid) → List Cid
insert_cid pc none = pc ∷ []
insert_cid pc (some cs) = if has cs pc then cs else cs ++ pc ∷ []
