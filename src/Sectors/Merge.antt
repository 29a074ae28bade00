-- ===== src/Sectors/Merge.antt =====
-- What the storage list says of a sector, whatever the order of its declarations.
use txcartool.Common.{
  ◌≡◌, refl, sym, ap, ◌∙◌, Bool, true, false, ◌||◌, ◌&&◌, Option, none, some, List, [], ◌∷◌, ◌++◌,
  if◌then◌else◌, arith, Bool-cases, inl, inr,
}
use txcartool.Sectors.{
  SectorId, SealState, sealed, unsealed, removed, cache, Decl, FileTypes, SectorMap, sector_eq,
  sector_eq_iff, lookup, assign, lookup-assign, seal, or_cache, merge_decl, merge_location,
  merge_storage,
}

-- whether one of the declarations of the sector passes the test
unfoldable pub any_of : (Decl → Bool) → SectorId → List Decl → Bool
any_of test i [] = false
any_of test i (d ∷ ds) = (sector_eq d.sector_id i && test d) || any_of test i ds

unfoldable pub flatten : List (List Decl) → List Decl
flatten [] = []
flatten (loc ∷ locs) = loc ++ flatten locs

unfoldable pub level : Bool → Bool → Bool → Option SealState
level true s p = some unsealed
level false true p = some sealed
level false false true = some cache
level false false false = none

-- The strongest state of a sector: an unsealed file, or else a sealed one, or else any.
unfoldable pub strongest : FileTypes → List Decl → SectorId → Option SealState
strongest ft ds i =
    level (any_of (λ d. ft.has_unsealed d.file_type) i ds)
      (any_of (λ d. ft.has_sealed d.file_type) i ds) (any_of (λ d. true) i ds)

-- the state that `before` becomes with the strongest state of more declarations
unfoldable pub join : Option SealState → Option SealState → Option SealState
join none b = b
join (some unsealed) b = some unsealed
join (some a) (some unsealed) = some unsealed
join (some a) (some sealed) = some sealed
join (some a) b = some a

join-level :
    (o : Option SealState) (u s p u' s' p' : Bool)
    → join (join o (level u s p)) (level u' s' p') ≡ join o (level (u || u') (s || s') (p || p'))
unfolding join level
join-level none u s p u' s' p' = ground arith
join-level (some unsealed) u s p u' s' p' = ground arith
join-level (some sealed) u s p u' s' p' = ground arith
join-level (some removed) u s p u' s' p' = ground arith
join-level (some cache) u s p u' s' p' = ground arith

pick : Bool → Bool → Option SealState → SealState
pick true s o = unsealed
pick false true o = seal o
pick false false o = or_cache o

some-pick : (u s : Bool) (o : Option SealState) → some (pick u s o) ≡ join o (level u s true)
unfolding pick join level seal or_cache
some-pick true s none = refl
some-pick true s (some unsealed) = refl
some-pick true s (some sealed) = refl
some-pick true s (some removed) = refl
some-pick true s (some cache) = refl
some-pick false true none = refl
some-pick false true (some unsealed) = refl
some-pick false true (some sealed) = refl
some-pick false true (some removed) = refl
some-pick false true (some cache) = refl
some-pick false false none = refl
some-pick false false (some unsealed) = refl
some-pick false false (some sealed) = refl
some-pick false false (some removed) = refl
some-pick false false (some cache) = refl

join-none : (o : Option SealState) → join o none ≡ o
unfolding join
join-none none = refl
join-none (some unsealed) = refl
join-none (some sealed) = refl
join-none (some removed) = refl
join-none (some cache) = refl

join_if :
    (b u s : Bool) (o : Option SealState)
    → (if b then some (pick u s o) else o) ≡ join o (level (b && u) (b && s) (b && true))
unfolding level
join_if true u s o = some-pick u s o
join_if false u s o = sym (join-none o)

module _ (ft : FileTypes) where
  merge_decl-pick :
      (d : Decl) (states : SectorMap) (u s : Bool)
      → ft.has_unsealed d.file_type ≡ u
      → ft.has_sealed d.file_type ≡ s
      → merge_decl ft states d ≡ assign states d.sector_id (pick u s (lookup states d.sector_id))
  unfolding merge_decl pick
  merge_decl-pick d states true s eu es = rw eu
  merge_decl-pick d states false true eu es = rw eu (rw es)
  merge_decl-pick d states false false eu es = rw eu (rw es)

  lookup-merge_decl :
      (d : Decl) (i : SectorId) (states : SectorMap)
      → lookup (merge_decl ft states d) i
        ≡ join (lookup states i) (
            level
              (sector_eq d.sector_id i && ft.has_unsealed d.file_type)
              (sector_eq d.sector_id i && ft.has_sealed d.file_type)
              (sector_eq d.sector_id i && true))
  lookup-merge_decl d i states = rw (merge_decl-pick d states _ _ refl refl) (
      rw (lookup-assign states d.sector_id i _)
        (at_same ∙ join_if (sector_eq d.sector_id i) _ _ (lookup states i)))
    where
      at_same :
          (if sector_eq d.sector_id i
            then some (
                pick
                  (ft.has_unsealed d.file_type)
                  (ft.has_sealed d.file_type)
                  (lookup states d.sector_id))
            else lookup states i)
          ≡ (if sector_eq d.sector_id i
              then some
                  (pick (ft.has_unsealed d.file_type) (ft.has_sealed d.file_type) (lookup states i))
              else lookup states i)
      at_same = elim (Bool-cases (sector_eq d.sector_id i)) [
        | inl same ↦ rw ((sector_eq_iff d.sector_id i).0 same)
        | inr ne ↦ rw ne
      ]

  lookup-merge_location :
      (ds : List Decl) (m : SectorMap × SectorMap) (i : SectorId)
      → lookup (merge_location ft ds m).0 i ≡ join (lookup m.0 i) (strongest ft ds i)
  unfolding merge_location strongest any_of
  lookup-merge_location [] m i = unfold level in sym (join-none (lookup m.0 i))
  lookup-merge_location (d ∷ ds) (states, all) i =
      lookup-merge_location ds (merge_decl ft states d, _) i
      ∙ ap (λ o. join o (strongest ft ds i)) (lookup-merge_decl d i states)
      ∙ join-level (lookup states i) _ _ _ _ _ _

  any_of-append :
      (test : Decl → Bool) (i : SectorId) (ds es : List Decl)
      → any_of test i (ds ++ es) ≡ (any_of test i ds || any_of test i es)
  unfolding any_of
  any_of-append test i [] es = refl
  any_of-append test i (d ∷ ds) es = ground (arith, any_of-append test i ds es)

  lookup-merge_all :
      (locs : List (List Decl)) (m : SectorMap × SectorMap) (i : SectorId)
      → lookup (merge_storage ft locs m).0 i ≡ join (lookup m.0 i) (strongest ft (flatten locs) i)
  unfolding merge_storage flatten strongest
  lookup-merge_all [] m i = unfold level any_of in sym (join-none (lookup m.0 i))
  lookup-merge_all (loc ∷ locs) m i =
      lookup-merge_all locs (merge_location ft loc m) i
      ∙ ap (λ o. join o (strongest ft (flatten locs) i)) (lookup-merge_location loc m i)
      ∙ join-level (lookup m.0 i) _ _ _ _ _ _
      ∙ rw (
        any_of-append (λ d. ft.has_unsealed d.file_type) i loc (flatten locs),
        any_of-append (λ d. ft.has_sealed d.file_type) i loc (flatten locs),
        any_of-append (λ d. true) i loc (flatten locs),
      )

  -- The map of the sector states has, for every sector, the strongest of what is declared of it in
  -- any location (unsealed, then sealed, then cache), and no entry for a sector that is not
  -- declared.
  pub lookup-merge_storage :
      (locs : List (List Decl)) (i : SectorId)
      → lookup (merge_storage ft locs ([], [])).0 i ≡ strongest ft (flatten locs) i
  lookup-merge_storage locs i = lookup-merge_all locs ([], []) i ∙ unfold join lookup in refl

  or_cache-lookup :
      (d : Decl) (states : SectorMap)
      → some (or_cache (lookup (merge_decl ft states d) d.sector_id))
        ≡ lookup (merge_decl ft states d) d.sector_id
  unfolding or_cache
  or_cache-lookup d states = rw (merge_decl-pick d states _ _ refl refl) (
      rw (lookup-assign states d.sector_id d.sector_id _)
        (rw ((sector_eq_iff d.sector_id d.sector_id).1 refl)))

  -- A map with the entries of the other.
  abbrev Agree : SectorMap × SectorMap → Type 0
  Agree m = (i : SectorId) → lookup m.1 i ≡ lookup m.0 i

  location-Agree :
      (ds : List Decl) (m : SectorMap × SectorMap) → Agree m → Agree (merge_location ft ds m)
  unfolding merge_location
  location-Agree [] m h = h
  location-Agree (d ∷ ds) (states, all) h = location-Agree ds _ one
    where
      one :
          (i : SectorId)
          → lookup
              (assign all d.sector_id (or_cache (lookup (merge_decl ft states d) d.sector_id)))
              i
            ≡ lookup (merge_decl ft states d) i
      one i = rw (lookup-assign all d.sector_id i _) (elim (Bool-cases (sector_eq d.sector_id i)) [
        | inl same ↦ rw same (
            or_cache-lookup d states
            ∙ ap (lookup (merge_decl ft states d)) ((sector_eq_iff d.sector_id i).0 same))
        | inr ne ↦ rw ne (
            h i
            ∙ sym (
                rw (merge_decl-pick d states _ _ refl refl)
                  (rw (lookup-assign states d.sector_id i _) (rw ne))))
      ])

  storage-Agree :
      (locs : List (List Decl)) (m : SectorMap × SectorMap)
      → Agree m
      → Agree (merge_storage ft locs m)
  unfolding merge_storage
  storage-Agree [] m h = h
  storage-Agree (loc ∷ locs) m h = storage-Agree locs _ (location-Agree loc m h)

  -- The map of all sector states, which the updates carry, has for every sector the strongest of
  -- what is declared of it.
  pub lookup-all_states :
      (locs : List (List Decl)) (i : SectorId)
      → lookup (merge_storage ft locs ([], [])).1 i ≡ strongest ft (flatten locs) i
  lookup-all_states locs i = storage-Agree locs ([], []) (λ j. refl) i ∙ lookup-merge_storage locs i
