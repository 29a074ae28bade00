-- ===== src/Yugabyte/Db.antt =====
-- What the index directory takes from other packages: the statements that gocql sends to Cassandra
-- and pgx to Postgres, and the text forms of cids and addresses. A field is a statement of the
-- source with its arguments; what the databases do with it is not code of the repository.
use txcartool.Common.{ℕ, Bool, Option, List, Bytes, Result, Error, Exec}
use txcartool.Ldb.Model.{Cid, Multihash, Time, DealInfo, OffsetSize}

-- A scan of several rows: the rows, and the error that `Close` or `Err` returns after them.
abbrev pub Iter : Type 0 → Type 0
Iter A = List A × Option Error

-- `SELECT Version, IndexedAt, CompleteIndex`; a column that is null is scanned into its zero value.
pub record MetadataRow : Type 0 where
  pub version : Bytes
  pub indexed_at : Time
  pub complete_index : Bool

pub record IndexRow : Type 0 where
  pub payload_multihash : Bytes
  pub offset_size : OffsetSize

-- The entries of the two kinds of batch: `INSERT INTO PayloadToPieces (PayloadMultihash, PieceCid)`
-- and `INSERT INTO PieceBlockOffsetSize (PieceCid, PayloadMultihash, BlockOffset, BlockSize)`.
pub data Entry : Type 0 where
  to_piece : Bytes → Cid → Entry
  block_at : Cid → Multihash → OffsetSize → Entry

pub record Cassandra (S : Type 0) : Type 0 where
  -- `INSERT INTO PieceMetadata ... IF NOT EXISTS`
  pub insert_metadata : Bytes → Bytes → Time → Exec S (Unit {0})
  -- `INSERT INTO PieceDeal ... IF NOT EXISTS`; the miner is its text.
  pub insert_deal : Cid → DealInfo → Exec S (Unit {0})
  pub select_offset_size : Cid → Multihash → S → Result OffsetSize
  pub select_metadata : Bytes → S → Result MetadataRow
  pub select_deals : Cid → S → Iter DealInfo
  -- `SELECT PieceCid FROM PayloadToPieces`
  pub select_holders : Bytes → S → Iter Bytes
  pub select_index : Cid → S → Iter IndexRow
  -- `SELECT PieceCid FROM PieceMetadata`
  pub select_pieces : S → Iter Bytes
  pub execute_batch : List Entry → Exec S (Unit {0})
  -- `UPDATE PieceMetadata SET IndexedAt = ?, CompleteIndex = ?`
  pub update_metadata : Time → Bool → Bytes → Exec S (Unit {0})
  pub delete_deal : Bytes → Exec S (Unit {0})
  pub delete_metadata : Bytes → Exec S (Unit {0})
  -- `DELETE FROM PayloadToPieces`
  pub delete_to_piece : Bytes → Cid → Exec S (Unit {0})
  -- `DELETE FROM PieceBlockOffsetSize`
  pub delete_block : Multihash → Cid → Exec S (Unit {0})
  -- `SELECT PieceCid, CreatedAt from PieceMetadata WHERE CreatedAt >= ?`
  pub select_since : Time → S → Iter (Bytes × Time)
  -- `SELECT MinerAddr FROM PieceDeal`
  pub select_miners : Cid → S → Iter Bytes
  -- `SELECT COUNT(*) FROM PieceDeal WHERE MinerAddr = ?`
  pub count_deals : Bytes → S → Result ℕ

-- go-cid, go-multihash and go-address
pub record Texts : Type 0 where
  pub cid_string : Cid → Bytes
  -- `cid.Parse` of a text and of bytes
  pub cid_decode : Bytes → Result Cid
  pub cid_cast : Bytes → Result Cid
  pub cid_hash : Cid → Multihash
  pub new_raw_cid : Multihash → Cid
  pub mh_from_bytes : Bytes → Result Multihash
  pub addr_string : Bytes → Bytes
  pub addr_parse : Bytes → Result Bytes
  pub addr_empty : Bytes → Bool
