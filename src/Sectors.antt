-- ===== src/Sectors.antt =====
-- The sector states of lib/boost/db/sectors.go and the maps and loops of `refreshState` in
-- lib/boost/sectorstatemgr/sectorstatemgr.go. A Go map is a list of its entries, and the order of
-- the list stands for the order in which a loop meets them.
pub mod Merge
pub mod PubSub
pub mod Refresh
pub mod Keys
pub mod Updates
pub mod Diff
use txcartool.Common.{
  ℕ, ◌≡◌, refl, ap, Bool, true, false, not, ◌&&◌, ◌||◌, Option, none, some, List, [], ◌∷◌, ◌==◌,
  ◌↔◌, if◌then◌else◌, arith,
}
use txcartool.Ldb.Model.{Time}

pub record SectorId : Type 0 where
  pub miner : ℕ
  pub number : ℕ

pub data SealState : Type 0 where
  sealed unsealed removed cache : SealState

pub record SectorState : Type 0 where
  pub sector_id : SectorId
  pub updated_at : Time
  pub seal_state : SealState

-- `storiface.Decl`, with the set of its files
pub record Decl : Type 0 where
  pub sector_id : SectorId
  pub file_type : ℕ

-- `SectorFileType.Has` of `FTUnsealed` and of `FTSealed`
pub record FileTypes : Type 0 where
  pub has_unsealed : ℕ → Bool
  pub has_sealed : ℕ → Bool

unfoldable pub sector_eq : SectorId → SectorId → Bool
sector_eq a b = a.miner == b.miner && a.number == b.number

pub sector_eq_iff : (a b : SectorId) → (sector_eq a b ≡ true) ↔ (a ≡ b)
unfolding sector_eq
sector_eq_iff a b = ground arith

unfoldable pub state_eq : SealState → SealState → Bool
state_eq sealed sealed = true
state_eq unsealed unsealed = true
state_eq removed removed = true
state_eq cache cache = true
state_eq _ _ = false

abbrev pub SectorMap : Type 0
SectorMap = List (SectorId × SealState)

unfoldable pub lookup : SectorMap → SectorId → Option SealState
lookup [] i = none
lookup ((j, a) ∷ m) i = if sector_eq j i then some a else lookup m i

-- `m[i] = a`
unfoldable pub assign : SectorMap → SectorId → SealState → SectorMap
assign [] i a = (i, a) ∷ []
assign ((j, b) ∷ m) i a =
    let rest = assign m i a in if sector_eq j i then (j, a) ∷ m else (j, b) ∷ rest

-- `delete(m, i)`
unfoldable pub discard : SectorMap → SectorId → SectorMap
discard [] i = []
discard ((j, b) ∷ m) i = let rest = discard m i in if sector_eq j i then rest else (j, b) ∷ rest

pub lookup-assign :
    (m : SectorMap) (i j : SectorId) (a : SealState)
    → lookup (assign m i a) j ≡ (if sector_eq i j then some a else lookup m j)
unfolding lookup assign
lookup-assign [] i j a = refl
lookup-assign ((k, b) ∷ m) i j a =
    ground (arith, lookup-assign m i j a, sector_eq_iff k i, sector_eq_iff i j, sector_eq_iff k j)

pub lookup-discard :
    (m : SectorMap) (i j : SectorId)
    → lookup (discard m i) j ≡ (if sector_eq i j then none else lookup m j)
unfolding lookup discard
lookup-discard [] i j = ground arith
lookup-discard ((k, b) ∷ m) i j =
    ground (arith, lookup-discard m i j, sector_eq_iff k i, sector_eq_iff i j, sector_eq_iff k j)

-- the state that a sealed file gives to a sector
unfoldable pub seal : Option SealState → SealState
seal (some unsealed) = unsealed
seal _ = sealed

unfoldable pub or_cache : Option SealState → SealState
or_cache none = cache
or_cache (some a) = a

-- One declaration of the loop over the storage list: the map `sectorStates`.
unfoldable pub merge_decl : FileTypes → SectorMap → Decl → SectorMap
unfolding seal or_cache
merge_decl ft states d =
    let i = d.sector_id in
    if ft.has_unsealed d.file_type
    then assign states i unsealed
    else if ft.has_sealed d.file_type
    then assign states i (seal (lookup states i))
    else assign states i (or_cache (lookup states i))

-- The declarations of one location, with `sectorStates` and `allSectorStates`.
unfoldable pub merge_location :
    FileTypes → List Decl → SectorMap × SectorMap → SectorMap × SectorMap
merge_location ft [] m = m
merge_location ft (d ∷ ds) (states, all) =
    let merged = merge_decl ft states d in
    merge_location ft ds (merged, assign all d.sector_id (or_cache (lookup merged d.sector_id)))

unfoldable pub merge_storage :
    FileTypes → List (List Decl) → SectorMap × SectorMap → SectorMap × SectorMap
merge_storage ft [] m = m
merge_storage ft (loc ∷ locs) m = merge_storage ft locs (merge_location ft loc m)

-- a sector whose state was known and is listed
unfoldable pub changed : SealState → SealState → Bool
changed previous current = not (state_eq previous current) && not (state_eq current cache)

-- One round of the loop over the previous states, with what `sectorStates` has of the sector.
unfoldable pub compare_one :
    SectorState → Option SealState → SectorMap × SectorMap → SectorMap × SectorMap
unfolding changed
compare_one pss (some a) (states, updates) = (
  discard states pss.sector_id,
  if changed pss.seal_state a then assign updates pss.sector_id a else updates,
)
compare_one pss none (states, updates) = (states, assign updates pss.sector_id removed)

-- The loop over the previous states: what is left of `sectorStates`, and `sectorUpdates`.
unfoldable pub compare_previous : List SectorState → SectorMap × SectorMap → SectorMap × SectorMap
compare_previous [] m = m
compare_previous (pss ∷ previous) m =
    compare_previous previous (compare_one pss (lookup m.0 pss.sector_id) m)

-- the loop over the sectors that were not known before
unfoldable pub add_new : SectorMap → SectorMap → SectorMap
add_new [] updates = updates
add_new ((i, a) ∷ states) updates = add_new states (assign updates i a)

unfoldable pub sector_updates : SectorMap → List SectorState → SectorMap
sector_updates states previous =
    let (left, updates) = compare_previous previous (states, []) in add_new left updates
