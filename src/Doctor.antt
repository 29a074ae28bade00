-- ===== src/Doctor.antt =====
-- The piece doctor of lib/boost/piecedirectory/doctor.go. The index directory is behind a record of
-- its operations; the chain, the miner's actor id and the clock's ticks are parameters.
pub mod Verdicts
pub mod Directory
use txcartool.Common.{
  ℕ, Bool, true, false, not, ◌&&◌, ◌||◌, Option, none, some, List, [], ◌∷◌, ◌++◌, Bytes, codes,
  Result, ok, err, panic, bind_result, Error, not_found, absent, failed, Exec, pure, lift, gets,
  continue, ◌>>=◌, ◌>>◌, bytes_eq, if◌then◌else◌, ◌==◌,
}
use txcartool.Ldb.Model.{Cid, Address, DealInfo, Metadata}
use txcartool.Sectors.{SectorId, SealState, unsealed, sector_eq, lookup, state_eq}
use txcartool.Sectors.Refresh.{SectorStateUpdates}

-- the operations of the index directory that the doctor calls
pub record Store (S : Type 0) : Type 0 where
  pub get_piece_metadata : Cid → Exec S Metadata
  pub is_indexed : Cid → Exec S Bool
  pub flag_piece : Cid → Bool → Address → Exec S (Unit {0})
  pub unflag_piece : Cid → Address → Exec S (Unit {0})
  pub untrack_piece : Cid → Address → Exec S (Unit {0})

-- `api.FullNode`, as far as a check asks it at one head
pub record FullNode : Type 0 where
  -- the sectors of the miner's claims
  pub claims : List ℕ
  -- `StateMarketStorageDeal`
  pub market_deal : ℕ → Result (Unit {0})

pub record Doctor : Type 0 where
  pub maddr : Address
  -- nil in tests
  pub fullnode_api : Option FullNode
  -- `address.IDFromAddress`
  pub id_from_address : Address → Result ℕ

has_front : Bytes → Bytes → Bool
has_front [] t = true
has_front (p ∷ ps) [] = false
has_front (p ∷ ps) (c ∷ t) = p == c && has_front ps t

contains : Bytes → Bytes → Bool
contains [] p = has_front p []
contains (c ∷ t) p = has_front p (c ∷ t) || contains t p

-- `strings.Contains(err.Error(), "not found")`: the texts of both errors for a missing key have it.
unfoldable pub says_not_found : Error → Bool
unfolding contains has_front
says_not_found not_found = true
says_not_found absent = true
says_not_found (failed t) = contains t (codes "not found")

unfoldable pub is_active : List SectorId → SectorId → Bool
is_active [] i = false
is_active (j ∷ js) i = sector_eq j i || is_active js i

-- what the first loop has found
pub record Found : Type 0 where
  pub has_deals : Bool
  pub lacks_active_sector : Bool
  pub chain_deals : List DealInfo

unfoldable pub is_unsealed : Option SealState → Bool
is_unsealed none = false
is_unsealed (some a) = state_eq a unsealed

module _ (d : Doctor) where
  unfoldable pub sector_of : DealInfo → Result SectorId
  sector_of dl =
      bind_result (d.id_from_address dl.miner_addr)
        λ mid. ok (record { miner = mid; number = dl.sector_id })

  -- the loop over the deals for active sectors
  unfoldable pub find_active : SectorStateUpdates → List DealInfo → Found → Result Found
  unfolding is_active
  find_active lu [] f = ok f
  find_active lu (dl ∷ deals) f =
      let skipped = find_active lu deals f in
      let counted = bind_result (sector_of dl) λ i.
        if is_active lu.active_sectors i
        then find_active lu deals (record {
          has_deals = true;
          lacks_active_sector = false;
          chain_deals = f.chain_deals ++ dl ∷ [];
        })
        else find_active lu deals (record f { has_deals = true }) in
      if not (bytes_eq d.maddr dl.miner_addr) then skipped else counted

  unfoldable pub has_claim : List ℕ → ℕ → Bool
  has_claim [] sector = false
  has_claim (v ∷ claims) sector = (v == sector) || has_claim claims sector

  abbrev pub is_ok : Result (Unit {0}) → Bool
  is_ok (ok u) = true
  is_ok (err e) = false
  is_ok panic = false

  -- The loop over the deals in active sectors: a market deal that is found ends it.
  unfoldable pub find_on_chain : FullNode → List DealInfo → Bool → Bool
  unfolding has_claim
  find_on_chain api [] found = found
  find_on_chain api (dl ∷ deals) found =
      let direct = find_on_chain api deals (found || has_claim api.claims dl.sector_id) in
      let market = find_on_chain api deals found in
      if dl.is_direct_deal
      then direct
      else if is_ok (api.market_deal dl.chain_deal_id)
      then true
      else market

  -- the loop over the deals for a sector that is unsealed
  unfoldable pub find_unsealed : SectorStateUpdates → List DealInfo → Result Bool
  unfolding is_unsealed
  find_unsealed lu [] = ok false
  find_unsealed lu (dl ∷ deals) =
      let rest = find_unsealed lu deals in
      if not (bytes_eq d.maddr dl.miner_addr)
      then rest
      else bind_result (sector_of dl)
          λ i. if is_unsealed (lookup lu.sector_states i) then ok true else rest

  abbrev on_chain : Option FullNode → List DealInfo → Bool
  on_chain none deals = true
  on_chain (some api) deals = find_on_chain api deals false

  module _ {S : Type 0} (store : Store S) where
    -- a piece with no metadata
    unfoldable pub drop_missing : Cid → Error → Exec S (Unit {0})
    drop_missing piece_cid e =
        if says_not_found e
        then (store.unflag_piece piece_cid d.maddr >> store.untrack_piece piece_cid d.maddr)
        else (λ s. (err e, s))

    -- the last part, for a piece with a deal in an active sector
    unfoldable pub judge : Cid → SectorStateUpdates → Metadata → Exec S (Unit {0})
    judge piece_cid lu md = do
      has_unsealed_copy ← lift (find_unsealed lu md.deals)
      is_indexed ← store.is_indexed piece_cid
      if not is_indexed || not has_unsealed_copy
          then store.flag_piece piece_cid has_unsealed_copy d.maddr
          else store.unflag_piece piece_cid d.maddr

    unfoldable pub check_metadata : Cid → SectorStateUpdates → Metadata → Exec S (Unit {0})
    unfolding judge
    check_metadata piece_cid lu md = do
      f ← lift (
          find_active lu md.deals
            (record { has_deals = false; lacks_active_sector = true; chain_deals = [] }))
      if not f.has_deals
          then pure tt
          else if f.lacks_active_sector
          then store.unflag_piece piece_cid d.maddr
          else if not (on_chain d.fullnode_api f.chain_deals)
          then store.unflag_piece piece_cid d.maddr
          else judge piece_cid lu md

    abbrev check_found : Cid → SectorStateUpdates → Result Metadata → Exec S (Unit {0})
    check_found piece_cid lu (ok md) = check_metadata piece_cid lu md
    check_found piece_cid lu (err e) = drop_missing piece_cid e
    check_found piece_cid lu panic = λ s. (panic, s)

    unfoldable pub check_piece : Cid → SectorStateUpdates → Exec S (Unit {0})
    unfolding check_metadata drop_missing
    check_piece piece_cid lu s =
        let (r, s') = store.get_piece_metadata piece_cid s in check_found piece_cid lu r s'

    -- The loop of `Run` over the pieces of one tick: an error that says that the doctor was stopped
    -- ends it, any other is logged.
    unfoldable pub check_pieces : (Error → Bool) → SectorStateUpdates → List Cid → Exec S (Unit {0})
    check_pieces is_canceled lu [] s = (ok tt, s)
    check_pieces is_canceled lu (pcid ∷ pcids) s =
        let (r, s') = check_piece pcid lu s in
        let rest = check_pieces is_canceled lu pcids s' in
        elim r [
          | ok u ↦ rest
          | err e ↦ if is_canceled e then (err e, s') else rest
          | panic ↦ (panic, s')
        ]
