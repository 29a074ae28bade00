-- ===== src/Sectors/Keys.antt =====
-- The maps of `refreshState` have one entry for each sector.
use txcartool.Common.{Bool, true, false, Option, none, some, List, [], ◌∷◌, if◌then◌else◌}
use txcartool.Sectors.{
  SealState, unsealed, SectorState, Decl, FileTypes, SectorMap, lookup, seal, or_cache, changed,
  merge_decl, merge_location, merge_storage, compare_one, compare_previous, add_new, sector_updates,
}
use txcartool.Sectors.Diff.{HasOwnKeys, assign-HasOwnKeys}

if-HasOwnKeys :
    (b : Bool) (m n : SectorMap) → HasOwnKeys m → HasOwnKeys n → HasOwnKeys (if b then m else n)
if-HasOwnKeys true m n h k = h
if-HasOwnKeys false m n h k = k

merge_decl-HasOwnKeys :
    (ft : FileTypes) (d : Decl) (m : SectorMap) → HasOwnKeys m → HasOwnKeys (merge_decl ft m d)
unfolding merge_decl
merge_decl-HasOwnKeys ft d m h =
    if-HasOwnKeys (ft.has_unsealed d.file_type) _ _ (assign-HasOwnKeys m d.sector_id unsealed h) (
      if-HasOwnKeys (ft.has_sealed d.file_type) _ _
        (assign-HasOwnKeys m d.sector_id (seal (lookup m d.sector_id)) h)
        (assign-HasOwnKeys m d.sector_id (or_cache (lookup m d.sector_id)) h))

merge_location-HasOwnKeys :
    (ft : FileTypes) (ds : List Decl) (m : SectorMap × SectorMap)
    → HasOwnKeys m.0
    → HasOwnKeys (merge_location ft ds m).0
unfolding merge_location
merge_location-HasOwnKeys ft [] m h = h
merge_location-HasOwnKeys ft (d ∷ ds) m h =
    merge_location-HasOwnKeys ft ds _ (merge_decl-HasOwnKeys ft d m.0 h)

pub merge_storage-HasOwnKeys :
    (ft : FileTypes) (locs : List (List Decl)) (m : SectorMap × SectorMap)
    → HasOwnKeys m.0
    → HasOwnKeys (merge_storage ft locs m).0
unfolding merge_storage
merge_storage-HasOwnKeys ft [] m h = h
merge_storage-HasOwnKeys ft (loc ∷ locs) m h =
    merge_storage-HasOwnKeys ft locs _ (merge_location-HasOwnKeys ft loc m h)

pub add_new-HasOwnKeys :
    (states updates : SectorMap) → HasOwnKeys updates → HasOwnKeys (add_new states updates)
unfolding add_new
add_new-HasOwnKeys [] updates h = h
add_new-HasOwnKeys ((i, a) ∷ states) updates h =
    add_new-HasOwnKeys states _ (assign-HasOwnKeys updates i a h)

pub compare-HasOwnKeys :
    (previous : List SectorState) (m : SectorMap × SectorMap)
    → HasOwnKeys m.1
    → HasOwnKeys (compare_previous previous m).1
unfolding compare_previous compare_one
compare-HasOwnKeys [] m h = h
compare-HasOwnKeys (pss ∷ previous) (states, updates) h =
    compare-HasOwnKeys previous _ (one_round (lookup states pss.sector_id))
  where
    one_round : (o : Option SealState) → HasOwnKeys (compare_one pss o (states, updates)).1
    one_round none = assign-HasOwnKeys updates _ _ h
    one_round (some a) =
        if-HasOwnKeys (changed pss.seal_state a) _ _ (assign-HasOwnKeys updates pss.sector_id a h) h

pub sector_updates-HasOwnKeys :
    (states : SectorMap) (previous : List SectorState) → HasOwnKeys (sector_updates states previous)
unfolding sector_updates HasOwnKeys
sector_updates-HasOwnKeys states previous =
    add_new-HasOwnKeys _ _ (compare-HasOwnKeys previous (states, []) tt)
