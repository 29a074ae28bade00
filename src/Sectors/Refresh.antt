-- ===== src/Sectors/Refresh.antt =====
-- `refreshState` and `checkForUpdates` of lib/boost/sectorstatemgr/sectorstatemgr.go. The lotus node,
-- its miner and the SQL database are parameters.
use txcartool.Common.{
  ℕ, Bool, List, [], ◌∷◌, Result, ok, err, panic, Exec, pure, lift, ◌>>=◌, ◌>>◌, if◌then◌else◌,
}
use txcartool.Ldb.Model.{Time}
use txcartool.Sectors.{
  SectorId, SealState, SectorState, Decl, FileTypes, SectorMap, merge_storage, sector_updates,
}
use txcartool.Sectors.PubSub.{PubSub, publish}

pub record SectorStateUpdates : Type 0 where
  pub updates : SectorMap
  pub active_sectors : List SectorId
  pub sector_with_deals : List SectorId
  pub sector_states : SectorMap
  pub updated_at : Time

-- `SectorOnChainInfo`: the number, and whether the deal weight is more than zero
pub record SectorInfo : Type 0 where
  pub number : ℕ
  pub has_deal_weight : Bool

pub record Api (S : Type 0) : Type 0 where
  pub file_types : FileTypes
  pub redeclare_on_refresh : Bool
  pub storage_redeclare_local : Exec S (Unit {0})
  pub storage_list : Exec S (List (List Decl))
  -- `SectorStateDB.List` and `SectorStateDB.Update`
  pub list_states : Exec S (List SectorState)
  pub update_state : SectorId → SealState → Exec S (Unit {0})
  pub chain_head : Exec S ℕ
  pub miner_active_sectors : ℕ → Exec S (List SectorInfo)
  pub miner_sectors : ℕ → Exec S (List SectorInfo)
  -- `address.IDFromAddress` of the miner's address
  pub miner_id : Result ℕ

-- An error that is only logged.
abbrev pub logged : Result (Unit {0}) → Result (Unit {0})
logged (ok u) = ok tt
logged (err e) = ok tt
logged panic = panic

abbrev pub ignore_error : {S : Type 0} → Exec S (Unit {0}) → Exec S (Unit {0})
ignore_error m s = let (r, s') = m s in (logged r, s')

unfoldable pub sector_ids : ℕ → List SectorInfo → List SectorId
sector_ids mid [] = []
sector_ids mid (info ∷ infos) = record { miner = mid; number = info.number } ∷ sector_ids mid infos

unfoldable pub with_deals : ℕ → List SectorInfo → List SectorId
with_deals mid [] = []
with_deals mid (info ∷ infos) =
    let rest = with_deals mid infos in
    if info.has_deal_weight then record { miner = mid; number = info.number } ∷ rest else rest

module _ {S : Type 0} (api : Api S) where
  unfoldable pub redeclare : Exec S (Unit {0})
  redeclare = if api.redeclare_on_refresh then ignore_error api.storage_redeclare_local else pure tt

  unfoldable pub refresh_state : Time → Exec S SectorStateUpdates
  unfolding redeclare
  refresh_state now = do
    redeclare
    storage_list ← api.storage_list
    let states = merge_storage api.file_types storage_list ([], [])
    previous ← api.list_states
    let updates = sector_updates states.0 previous
    head ← api.chain_head
    active_set ← api.miner_active_sectors head
    all_set ← api.miner_sectors head
    mid ← lift api.miner_id
    pure (record {
      updates = updates;
      active_sectors = sector_ids mid active_set;
      sector_with_deals = with_deals mid all_set;
      sector_states = states.1;
      updated_at = now;
    })

  unfoldable pub write_updates : SectorMap → Exec S (Unit {0})
  write_updates [] = pure tt
  write_updates ((i, a) ∷ updates) = do api.update_state i a; write_updates updates

  abbrev pub publish_if :
      Result SectorStateUpdates
      → S
      → PubSub SectorStateUpdates
      → Result (Unit {0}) × (S × PubSub SectorStateUpdates)
  publish_if (ok ssu) s ps = (ok tt, (s, publish ssu ps))
  publish_if (err e) s ps = (err e, (s, ps))
  publish_if panic s ps = (panic, (s, ps))

  -- The updates are written one by one, and published once all are written.
  unfoldable pub check_for_updates : Time → Exec (S × PubSub SectorStateUpdates) (Unit {0})
  check_for_updates now (s, ps) =
      let (r, s') = (refresh_state now >>= λ ssu. write_updates ssu.updates >> pure ssu) s in
      publish_if r s' ps
