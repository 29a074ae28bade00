-- ===== src/Yugabyte/Postgres.antt =====
-- The statements of lib/boostd-data/yugabyte/piecedoctor.go on Postgres, which pgx sends, with their
-- arguments. What the database does with them is not code of the repository.
use txcartool.Common.{ℕ, Bool, Option, List, Bytes, Result, Exec}
use txcartool.Ldb.Model.{Time}
use txcartool.Yugabyte.Db.{Iter}

-- The conditions of a `WHERE` on `PieceFlagged`, each with the number of its placeholder.
pub data Condition : Type 0 where
  created_before : ℕ → Condition
  miner_is : ℕ → Condition
  unsealed_is : ℕ → Condition

-- An argument by its Go type: a `time.Time`, a `string`, an `address.Address`, a `bool`, an `int`.
pub data Arg : Type 0 where
  time : Time → Arg
  text : Bytes → Arg
  address : Bytes → Arg
  flag : Bool → Arg
  int : ℕ → Arg

-- The conditions are joined by AND.
pub record CountQuery : Type 0 where
  pub conditions : List Condition
  pub args : List Arg

-- `... WHERE conditions ORDER BY CreatedAt desc LIMIT $l OFFSET $o`
pub record ListQuery : Type 0 where
  pub conditions : List Condition
  pub limit_at : ℕ
  pub offset_at : ℕ
  pub args : List Arg

pub record FlaggedRow : Type 0 where
  pub miner_addr : Bytes
  pub piece_cid : Bytes
  pub created_at : Time
  pub updated_at : Time
  pub has_unsealed_copy : Bool

pub record Postgres (S : Type 0) : Type 0 where
  -- `SELECT MAX(CreatedAt) FROM PieceTracker`, null where there is no row
  pub max_created : S → Result (Option Time)
  -- `INSERT INTO PieceTracker (MinerAddr, PieceCid, CreatedAt, UpdatedAt) ... ON CONFLICT DO NOTHING`
  pub insert_tracker : Bytes → Bytes → Time → Time → Exec S (Unit {0})
  -- `SELECT Count(*) FROM PieceTracker`
  pub count_tracker : S → Result ℕ
  -- `WITH cte AS (SELECT ... WHERE MinerAddr = $1 AND UpdatedAt < $2 LIMIT $3) UPDATE PieceTracker
  -- ... SET UpdatedAt = $4 ... RETURNING pt.PieceCid`
  pub claim_tracker : Bytes → Time → ℕ → Time → Exec S (Iter Bytes)
  -- `SELECT COUNT(*) FROM PieceTracker WHERE MinerAddr = $1`, and with `AND UpdatedAt > 'epoch'`
  pub count_tracked : Bytes → S → Result ℕ
  pub count_scanned : Bytes → S → Result ℕ
  -- `SELECT MAX(UpdatedAt) FROM PieceTracker WHERE MinerAddr = $1`
  pub max_updated : Bytes → S → Result (Option Time)
  -- `DELETE FROM PieceTracker WHERE MinerAddr = $1 AND PieceCid = $2`
  pub delete_tracker : Bytes → Bytes → Exec S (Unit {0})
  -- `INSERT INTO PieceFlagged (MinerAddr, PieceCid, CreatedAt, UpdatedAt, HasUnsealedCopy) ...
  -- ON CONFLICT (MinerAddr, PieceCid) DO UPDATE SET UpdatedAt = excluded.UpdatedAt`
  pub insert_flagged : Bytes → Bytes → Time → Time → Bool → Exec S (Unit {0})
  -- `DELETE FROM PieceFlagged WHERE MinerAddr = $1 AND PieceCid = $2`
  pub delete_flagged : Bytes → Bytes → Exec S (Unit {0})
  pub select_flagged : ListQuery → S → Result (Iter FlaggedRow)
  pub count_flagged : CountQuery → S → Result ℕ
