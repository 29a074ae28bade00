-- ===== src/Ldb/Env.antt =====
-- What the local index directory takes from other packages: the datastore (go-datastore over
-- goleveldb), the text forms of cids, multihashes and addresses, and the JSON of the stored values.
use txcartool.Common.{ℕ, Bool, List, Bytes, Result, Exec}
use txcartool.Ldb.Model.{Cid, Multihash, Address, WireMetadata, LeveldbFlaggedMetadata}

-- `query.Query`; a limit of 0 is no limit.
pub record Query : Type 0 where
  pub prefix : Bytes
  pub keys_only : Bool
  pub limit : ℕ
  pub offset : ℕ

-- A key and its value.
abbrev pub Row : Type 0
Row = Bytes × Bytes

-- The pending writes of a `Batch`.
pub data BatchOp : Type 0 where
  batch_put : Bytes → Bytes → BatchOp
  batch_delete : Bytes → BatchOp

pub record Env (S : Type 0) : Type 0 where
  -- the datastore
  pub get : Bytes → S → Result Bytes
  pub put : Bytes → Bytes → Exec S (Unit {0})
  pub delete : Bytes → Exec S (Unit {0})
  pub query : Query → S → Result (List Row)
  pub batch : S → Result (Unit {0})
  -- a write put into a batch
  pub stage : BatchOp → Result (Unit {0})
  pub commit : List BatchOp → Exec S (Unit {0})
  pub sync : Bytes → Exec S (Unit {0})
  pub new_key : Bytes → Bytes
  -- text forms
  pub cid_string : Cid → Bytes
  pub cid_parse : Bytes → Result Cid
  pub cid_hash : Cid → Multihash
  pub new_raw_cid : Multihash → Cid
  pub mh_string : Multihash → Bytes
  pub mh_from_hex : Bytes → Result Multihash
  pub addr_string : Address → Bytes
  pub addr_empty : Address → Bool
  -- JSON
  pub marshal_metadata : WireMetadata → Result Bytes
  pub unmarshal_metadata : Bytes → Result WireMetadata
  pub marshal_flagged : LeveldbFlaggedMetadata → Result Bytes
  pub unmarshal_flagged : Bytes → Result LeveldbFlaggedMetadata
  pub marshal_cids : List Cid → Result Bytes
  pub unmarshal_cids : Bytes → Result (List Cid)
