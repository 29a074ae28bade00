-- ===== src/Tests/SectorRuns.antt =====
-- A table of sector states in memory, and the theorems about the sector states at concrete inputs.
use txcartool.Common.{ℕ, ◌≡◌, refl, true, some, List, [], ◌∷◌, ok, ◌==◌, ◌∙◌}
use txcartool.Sectors.{
  SectorId, sealed, unsealed, removed, SectorState, Decl, FileTypes, SectorMap, lookup, assign,
  lookup-assign, sector_eq,
}
use txcartool.Sectors.Merge.{strongest, level, any_of, flatten}
use txcartool.Sectors.Diff.{known, HasOwnRows, HasOwnKeys, expected, assign-HasOwnKeys}
use txcartool.Sectors.PubSub.{new_pub_sub, publish}
use txcartool.Sectors.Refresh.{Api, SectorInfo, SectorStateUpdates, check_for_updates}
use txcartool.Sectors.Updates.{Works, next_state, redeclared, check_for_updates_lem}

abbrev Table : Type 0
Table = (m : SectorMap) × HasOwnKeys m

table_rows : SectorMap → List SectorState
table_rows [] = []
table_rows ((i, a) ∷ m) = record { sector_id = i; updated_at = 0; seal_state = a } ∷ table_rows m

known-rows : (m : SectorMap) (i : SectorId) → known (table_rows m) i ≡ lookup m i
unfolding known table_rows lookup
known-rows [] i = refl
known-rows ((j, a) ∷ m) i = rw (known-rows m i)

own_rows : (m : SectorMap) → HasOwnKeys m → HasOwnRows (table_rows m)
unfolding HasOwnRows HasOwnKeys table_rows
own_rows [] h = tt
own_rows ((i, a) ∷ m) h = (known-rows m i ∙ h.0, own_rows m h.1)

abbrev sector : ℕ → SectorId
sector n = record { miner = 1000; number = n }

-- 1 is an unsealed file, 2 a sealed one and 4 a cache
abbrev file_types : FileTypes
file_types = record { has_unsealed = λ t. t == 1; has_sealed = λ t. t == 2 }

abbrev storage : List (List Decl)
storage =
    (record { sector_id = sector 1; file_type = 2 }
      ∷ record { sector_id = sector 2; file_type = 4 }
      ∷ [])
    ∷ (record { sector_id = sector 1; file_type = 1 }
        ∷ record { sector_id = sector 3; file_type = 2 }
        ∷ [])
    ∷ []

abbrev infos : List SectorInfo
infos = record { number = 1; has_deal_weight = true } ∷ []

unfoldable node : Api Table
node = record {
  file_types = file_types;
  redeclare_on_refresh = true;
  storage_redeclare_local = λ s. (ok tt, s);
  storage_list = λ s. (ok storage, s);
  list_states = λ s. (ok (table_rows s.0), s);
  update_state = λ i a s. (ok tt, (assign s.0 i a, assign-HasOwnKeys s.0 i a s.1));
  chain_head = λ s. (ok 12, s);
  miner_active_sectors = λ h s. (ok infos, s);
  miner_sectors = λ h s. (ok infos, s);
  miner_id = ok 1000;
}

node-Works : Works node
unfolding node
node-Works = record {
  contents = λ i s. lookup s.0 i;
  redeclare_works = λ s. refl;
  contents-redeclare = λ i s. refl;
  declared = λ s. storage;
  storage_list_works = λ s. refl;
  rows = λ s. table_rows s.0;
  rows-HasOwnRows = λ s. own_rows s.0 s.1;
  known-rows = λ s i. known-rows s.0 i;
  list_states_works = λ s. refl;
  update_state_works = λ i a s. refl;
  contents-update_state = λ i j a s. lookup-assign s.0 i j a;
  head = λ s. 12;
  chain_head_works = λ s. refl;
  active = λ s. infos;
  active_works = λ s. refl;
  sectors = λ s. infos;
  sectors_works = λ s. refl;
  id = 1000;
  miner_id_works = refl;
}

abbrev table : SectorMap
table = (sector 2, unsealed) ∷ (sector 4, sealed) ∷ []

table-HasOwnKeys : HasOwnKeys table
unfolding HasOwnKeys lookup sector_eq
table-HasOwnKeys = (refl, (refl, tt))

abbrev db : Table
db = (table, table-HasOwnKeys)

check_for_updates_lem_example :
    (ssu : SectorStateUpdates) × (t : Table) × (check_for_updates node 77 (db, new_pub_sub)
      ≡ (ok tt, (t, publish ssu new_pub_sub)))
    × ((i : SectorId)
        → (lookup ssu.updates i
            ≡ expected (node-Works.contents i db) (
                strongest node.file_types
                  (flatten (node-Works.declared (redeclared node node-Works db)))
                  i))
          × (node-Works.contents i t
              ≡ next_state (node-Works.contents i db) (
                  strongest node.file_types
                    (flatten (node-Works.declared (redeclared node node-Works db)))
                    i)))
check_for_updates_lem_example = check_for_updates_lem node node-Works 77 db new_pub_sub

-- An unsealed file wins over the sealed one, and a sealed sector that is not listed is removed.
strongest_runs : strongest file_types (flatten storage) (sector 1) ≡ some unsealed
unfolding strongest level any_of flatten sector_eq
strongest_runs = refl

removed_runs :
    next_state (some sealed) (strongest file_types (flatten storage) (sector 4)) ≡ some removed
unfolding next_state strongest level any_of flatten sector_eq
removed_runs = refl
