-- ===== src/Reseal.antt =====
-- The reseal command of cmd/reseal.go: the shared types. `sb`, `actor` and `spt` are the same for
-- all sectors and are left out of the results that pass them on.
pub mod SidFile
pub mod Stages
pub mod Pool
use txcartool.Common.{ℕ, Bool, Bytes}

-- `carKey` is nil where the sector has no deal data.
pub record SectorSealInfo (Uuid : Type 0) : Type 0 where
  pub sid : ℕ
  pub seal_type : Bytes
  pub is_dc : Bool
  pub car_key : Uuid

-- the columns of `SectorMeta` that the command reads
pub record SectorMeta : Type 0 where
  pub ticket_value : Bytes
  pub orig_unsealed_cid : Bytes
  pub orig_sealed_cid : Bytes
