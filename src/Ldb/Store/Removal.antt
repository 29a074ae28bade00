-- ===== src/Ldb/Store/Removal.antt =====
-- `RemoveDealForPiece`, `RemovePieceMetadata` and `RemoveIndexes` of
-- lib/boostd-data/ldb/service.go.
pub mod Deals
use txcartool.Common.{
  ℕ, suc, ◌-◌, Option, none, some, List, [], ◌∷◌, Bytes, Exec, pure, catch_not_found, ◌>>=◌, ◌>>◌,
  bytes_eq, if◌then◌else◌, length, get_elem?, set, take,
}
use txcartool.Ldb.Model.{Cid, DealInfo, LeveldbMetadata}
use txcartool.Ldb.Env.{Env}
use txcartool.Ldb.Tables.{set_piece_cid_to_metadata, get_piece_cid_to_metadata}
use txcartool.Ldb.Index.Remove

-- The loop that stops at the first deal with the id: the last deal takes its place.
unfoldable pub deal_index : Bytes → List DealInfo → Option ℕ
deal_index uuid [] = none
deal_index uuid (v ∷ deals) =
    if bytes_eq v.deal_uuid uuid
    then some 0
    else elim (deal_index uuid deals) [ none ↦ none | some i ↦ some (suc i) ]

abbrev move_last : ℕ → List DealInfo → Option DealInfo → List DealInfo
move_last i deals none = deals
move_last i deals (some last) = take (length deals - 1) (set deals i last)

abbrev remove_at : List DealInfo → Option ℕ → List DealInfo
remove_at deals none = deals
remove_at deals (some i) = move_last i deals (get_elem? deals (length deals - 1))

unfoldable pub remove_deal : Bytes → List DealInfo → List DealInfo
remove_deal uuid deals = remove_at deals (deal_index uuid deals)

module _ {S : Type 0} (env : Env S) where
  -- what is written of the deals that are left
  unfoldable pub keep_deals : Cid → LeveldbMetadata → List DealInfo → Exec S (Unit {0})
  keep_deals piece_cid md [] = Remove.remove_piece_metadata env piece_cid
  keep_deals piece_cid md (d ∷ deals) =
      set_piece_cid_to_metadata env piece_cid
        (record md { metadata = record md.metadata { deals = d ∷ deals } })

  abbrev remove_deal_found : Cid → Bytes → Option LeveldbMetadata → Exec S (Unit {0})
  remove_deal_found piece_cid uuid none = pure tt
  remove_deal_found piece_cid uuid (some md) = keep_deals piece_cid md (remove_deal uuid md.deals)

  unfoldable pub remove_deal_for_piece : Cid → Bytes → Exec S (Unit {0})
  unfolding keep_deals
  remove_deal_for_piece piece_cid deal_uuid = do
    found ← catch_not_found (get_piece_cid_to_metadata env piece_cid)
    remove_deal_found piece_cid deal_uuid found

  unfoldable pub remove_piece_metadata : Cid → Exec S (Unit {0})
  remove_piece_metadata piece_cid = Remove.remove_piece_metadata env piece_cid

  unfoldable pub remove_indexes : Cid → Exec S (Unit {0})
  remove_indexes piece_cid = do
    md ← get_piece_cid_to_metadata env piece_cid
    Remove.remove_indexes env md.cursor piece_cid
    set_piece_cid_to_metadata env piece_cid
        (record md { metadata = record md.metadata { indexed_at = 0 } })
