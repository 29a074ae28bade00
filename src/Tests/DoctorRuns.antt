-- ===== src/Tests/DoctorRuns.antt =====
-- The theorems about the doctor at concrete inputs.
use txcartool.Common.{
  ◌≡◌, refl, true, false, not, none, some, [], ◌∷◌, ok, if_found, ◌==◌, ap, ◌∙◌, bytes_eq, err,
  not_found,
}
use txcartool.Ldb.Model.{LeveldbMetadata, new_leveldb_metadata}
use txcartool.Ldb.Tables.{get_piece_cid_to_metadata, get_piece_cid_to_flagged}
use txcartool.Ldb.Tables.Laws.{after_set, get_metadata-set_self, get_flagged-set_metadata}
use txcartool.Ldb.Store.{get_piece_metadata, is_indexed, indexed_at}
use txcartool.Sectors.{SectorId, unsealed, sector_eq, state_eq}
use txcartool.Sectors
use txcartool.Sectors.Refresh.{SectorStateUpdates}
use txcartool.Doctor.{Doctor, check_piece, is_active, has_claim, is_unsealed}
use txcartool.Doctor.Verdicts.{verdict, any, perform, check_piece_lem, flag}
use txcartool.Doctor.Directory.{ldb_store, flag_after, check_piece-flag}
use txcartool.Tests.Memory.{Rows, memory, memory-Works, memory-Named, lookup}
use txcartool.Tests.Inputs.{piece_a, deal}

abbrev doctor : Doctor
doctor = record {
  maddr = 1 ∷ [];
  fullnode_api = some (record { claims = 5 ∷ []; market_deal = λ id. ok tt });
  id_from_address = λ a. ok 1000;
}

abbrev sector_5 : SectorId
sector_5 = record { miner = 1000; number = 5 }

abbrev latest : SectorStateUpdates
latest = record {
  updates = [];
  active_sectors = sector_5 ∷ [];
  sector_with_deals = [];
  sector_states = (sector_5, unsealed) ∷ [];
  updated_at = 3;
}

-- a piece with a deal in an active sector, not indexed
abbrev with_deal : LeveldbMetadata
unfolding new_leveldb_metadata
with_deal = record new_leveldb_metadata {
  metadata = record new_leveldb_metadata.metadata { deals = deal ∷ [] };
}

abbrev deal_db : Rows
deal_db = after_set memory memory-Works piece_a with_deal []

row : get_piece_cid_to_metadata memory piece_a deal_db ≡ (ok with_deal, deal_db)
unfolding new_leveldb_metadata
row = get_metadata-set_self memory memory-Works piece_a with_deal []

no_row : (get_piece_cid_to_flagged memory piece_a (1 ∷ []) []).0 ≡ err not_found
unfolding memory lookup get_piece_cid_to_flagged
no_row = refl

none_flagged : if_found (get_piece_cid_to_flagged memory piece_a (1 ∷ []) []).0 ≡ ok none
unfolding memory lookup get_piece_cid_to_flagged
none_flagged = refl

not_flagged : if_found (get_piece_cid_to_flagged memory piece_a (1 ∷ []) deal_db).0 ≡ ok none
not_flagged =
    ap if_found (
      get_flagged-set_metadata memory memory-Works memory-Named piece_a piece_a (1 ∷ []) with_deal
        [])
    ∙ none_flagged

check_piece_lem_example :
    check_piece doctor (ldb_store memory 50) piece_a latest deal_db
    ≡ perform doctor
        (ldb_store memory 50)
        piece_a
        (verdict doctor 1000 latest (deal ∷ []) false)
        deal_db
unfolding with_deal memory
check_piece_lem_example =
    check_piece_lem doctor 1000 latest refl (ldb_store memory 50) piece_a with_deal.metadata false
      deal_db (unfold get_piece_metadata in rw row) (unfold is_indexed indexed_at in rw row)

check_piece-flag_example :
    ((check_piece doctor (ldb_store memory 50) piece_a latest deal_db).0 ≡ ok tt)
    × (if_found
          (get_piece_cid_to_flagged memory piece_a doctor.maddr
            (check_piece doctor (ldb_store memory 50) piece_a latest deal_db).1).0
        ≡ ok (
            flag_after
              (verdict doctor 1000 latest with_deal.deals (not (with_deal.indexed_at == 0)))
              (1 ∷ [])
              50
              none))
check_piece-flag_example =
    check_piece-flag memory memory-Works doctor 1000 latest piece_a with_deal 50 deal_db none refl
      row not_flagged

verdict_runs : verdict doctor 1000 latest (deal ∷ []) false ≡ flag true
unfolding verdict any bytes_eq is_active sector_eq has_claim is_unsealed Sectors.lookup state_eq
verdict_runs = refl
