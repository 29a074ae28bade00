-- ===== src/Pieces/SectorAccess.antt =====
-- lib/boost/markets/sectoraccessor/sectoraccessor.go: the sector accessor that the readers of pieces
-- use. The sealer, the piece provider, the chain and the miner's actor id are parameters.
pub mod Fills
use txcartool.Common.{
  ℕ, Bool, true, false, not, Option, none, some, [], Bytes, Result, ok, err, panic, Error,
  bind_result,
}
use txcartool.Ldb.Model.{Cid, Address}
use txcartool.Sectors.{SectorId}

-- `api.SectorInfo`, as far as the accessor sets and reads it
pub record SectorInfo : Type 0 where
  pub seal_proof : ℕ
  pub comm_d : Option Cid
  pub ticket : Bytes
  pub activation : ℕ
  pub expiration : ℕ
  pub deal_weight : ℕ
  pub verified_deal_weight : ℕ
  pub initial_pledge : ℕ
  pub on_time : ℕ
  pub early : ℕ

-- `SectorOnChainInfo` and `SectorExpiration`
pub record OnChainInfo : Type 0 where
  pub seal_proof : ℕ
  pub activation : ℕ
  pub expiration : ℕ
  pub deal_weight : ℕ
  pub verified_deal_weight : ℕ
  pub initial_pledge : ℕ

pub record SectorExpiration : Type 0 where
  pub on_time : ℕ
  pub early : ℕ

-- `storiface.SectorRef`
pub record SectorRef : Type 0 where
  pub id : SectorId
  pub proof_type : ℕ

pub record Lotus (R : Type 0) : Type 0 where
  -- `SectorsStatus` of the sector builder, without what the chain has
  pub sectors_status : ℕ → Result SectorInfo
  -- the chain, at its head
  pub state_sector_get_info : Address → ℕ → Result (Option OnChainInfo)
  pub state_sector_expiration : Address → ℕ → Result SectorExpiration
  -- the piece provider: a piece by its offset and length
  pub read_piece : SectorRef → ℕ → ℕ → Bytes → Cid → Result R
  pub is_unsealed : SectorRef → ℕ → ℕ → Result Bool
  pub id_from_address : Address → Result ℕ

abbrev pub with_info : SectorInfo → OnChainInfo → SectorInfo
with_info s c = record s {
  seal_proof = c.seal_proof;
  activation = c.activation;
  expiration = c.expiration;
  deal_weight = c.deal_weight;
  verified_deal_weight = c.verified_deal_weight;
  initial_pledge = c.initial_pledge;
}

-- An expiration that cannot be read is left out, and there is no error.
abbrev pub with_expiration : SectorInfo → Result SectorExpiration → Result SectorInfo
with_expiration s (ok ex) = ok (record s { on_time = ex.on_time; early = ex.early })
with_expiration s (err e) = ok s
with_expiration s panic = panic

-- the empty cid
abbrev pub cid_or_undef : Option Cid → Cid
cid_or_undef none = []
cid_or_undef (some c) = c

module _ {R : Type 0} (lotus : Lotus R) (maddr : Address) where
  abbrev pub with_chain : ℕ → SectorInfo → Option OnChainInfo → Result SectorInfo
  with_chain sid s none = ok s
  with_chain sid s (some c) =
      with_expiration (with_info s c) (lotus.state_sector_expiration maddr sid)

  abbrev pub shown : ℕ → SectorInfo → Bool → Result SectorInfo
  shown sid s false = ok s
  shown sid s true = bind_result (lotus.state_sector_get_info maddr sid) λ c. with_chain sid s c

  unfoldable pub sectors_status : ℕ → Bool → Result SectorInfo
  sectors_status sid show_on_chain_info =
      bind_result (lotus.sectors_status sid) λ s. shown sid s show_on_chain_info

  abbrev pub sector_ref : ℕ → ℕ → SectorInfo → SectorRef
  sector_ref mid sector_id si = record {
    id = record { miner = mid; number = sector_id };
    proof_type = si.seal_proof;
  }

  unfoldable pub unseal_sector_at : ℕ → ℕ → ℕ → Result R
  unseal_sector_at sector_id piece_offset len = bind_result (sectors_status sector_id false) λ si.
      bind_result (lotus.id_from_address maddr) λ mid.
        lotus.read_piece (sector_ref mid sector_id si) piece_offset len si.ticket
          (cid_or_undef si.comm_d)

  unfoldable pub unseal_sector : ℕ → ℕ → ℕ → Result R
  unseal_sector sector_id piece_offset len = unseal_sector_at sector_id piece_offset len

  unfoldable pub is_unsealed : ℕ → ℕ → ℕ → Result Bool
  is_unsealed sector_id offset len = bind_result (sectors_status sector_id true) λ si.
      bind_result (lotus.id_from_address maddr)
        λ mid. lotus.is_unsealed (sector_ref mid sector_id si) offset len
