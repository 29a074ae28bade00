-- ===== src/Sectors/Updates.antt =====
-- What `checkForUpdates` leaves in the table of sector states, when nothing fails.
use txcartool.Common.{
  ℕ, ◌≡◌, refl, sym, ap, ◌∙◌, true, false, Option, none, some, List, [], ◌∷◌, ok, if◌then◌else◌,
  Bool-cases, ◌⊎◌, inl, inr,
}
use txcartool.Ldb.Model.{Time}
use txcartool.Sectors.{
  SectorId, SealState, removed, cache, SectorState, Decl, SectorMap, sector_eq, sector_eq_iff,
  lookup, merge_storage, sector_updates, sealed, unsealed,
}
use txcartool.Sectors.Merge.{strongest, flatten, lookup-merge_storage}
use txcartool.Sectors.Diff.{known, HasOwnRows, HasOwnKeys, expected, lookup-sector_updates, or_else}
use txcartool.Sectors.Keys.{merge_storage-HasOwnKeys, sector_updates-HasOwnKeys}
use txcartool.Sectors.PubSub.{PubSub, publish}
use txcartool.Sectors.Refresh.{
  SectorStateUpdates, SectorInfo, Api, redeclare, refresh_state, write_updates, check_for_updates,
  sector_ids, with_deals,
}

-- Calls that do not fail. `contents` is the table of the sector states.
pub record Works {S : Type 0} (api : Api S) : Type 0 where
  pub contents : SectorId → S → Option SealState
  pub redeclare_works : (s : S) → (api.storage_redeclare_local s).0 ≡ ok tt
  pub contents-redeclare :
      (i : SectorId) (s : S) → contents i (api.storage_redeclare_local s).1 ≡ contents i s
  pub declared : S → List (List Decl)
  pub storage_list_works : (s : S) → api.storage_list s ≡ (ok (declared s), s)
  pub rows : S → List SectorState
  pub rows-HasOwnRows : (s : S) → HasOwnRows (rows s)
  pub known-rows : (s : S) (i : SectorId) → known (rows s) i ≡ contents i s
  pub list_states_works : (s : S) → api.list_states s ≡ (ok (rows s), s)
  pub update_state_works :
      (i : SectorId) (a : SealState) (s : S) → (api.update_state i a s).0 ≡ ok tt
  pub contents-update_state :
      (i j : SectorId) (a : SealState) (s : S)
      → contents j (api.update_state i a s).1 ≡ (if sector_eq i j then some a else contents j s)
  pub head : S → ℕ
  pub chain_head_works : (s : S) → api.chain_head s ≡ (ok (head s), s)
  pub active : S → List SectorInfo
  pub active_works : (s : S) → api.miner_active_sectors (head s) s ≡ (ok (active s), s)
  pub sectors : S → List SectorInfo
  pub sectors_works : (s : S) → api.miner_sectors (head s) s ≡ (ok (sectors s), s)
  pub id : ℕ
  pub miner_id_works : api.miner_id ≡ ok id

-- The state of a sector in the table after a refresh: what it has now, but a sector that was known
-- keeps its state where only its cache is left, and is `removed` where nothing is.
unfoldable pub next_state : Option SealState → Option SealState → Option SealState
next_state none current = current
next_state (some p) none = some removed
next_state (some p) (some cache) = some p
next_state (some p) (some a) = some a

expected-next : (p o : Option SealState) → or_else (expected p o) p ≡ next_state p o
unfolding or_else expected next_state
expected-next none none = refl
expected-next none (some a) = refl
expected-next (some p) none = refl
expected-next (some sealed) (some sealed) = refl
expected-next (some sealed) (some unsealed) = refl
expected-next (some sealed) (some removed) = refl
expected-next (some sealed) (some cache) = refl
expected-next (some unsealed) (some sealed) = refl
expected-next (some unsealed) (some unsealed) = refl
expected-next (some unsealed) (some removed) = refl
expected-next (some unsealed) (some cache) = refl
expected-next (some removed) (some sealed) = refl
expected-next (some removed) (some unsealed) = refl
expected-next (some removed) (some removed) = refl
expected-next (some removed) (some cache) = refl
expected-next (some cache) (some sealed) = refl
expected-next (some cache) (some unsealed) = refl
expected-next (some cache) (some removed) = refl
expected-next (some cache) (some cache) = refl

module _ {S : Type 0} (api : Api S) (works : Works api) where
  write_lem :
      (updates : SectorMap) (s : S)
      → HasOwnKeys updates
      → (t : S) × (write_updates api updates s ≡ (ok tt, t))
        × ((i : SectorId) → works.contents i t ≡ or_else (lookup updates i) (works.contents i s))
  unfolding write_updates lookup or_else HasOwnKeys
  write_lem [] s h = (s, refl, λ i. refl)
  write_lem ((j, a) ∷ updates) s h =
      let u = (api.update_state j a s).1 in
      let (t, e, at_t) = write_lem updates u h.1 in
      (
        t,
        rw (works.update_state_works j a s) e,
        λ i.
            at_t i ∙ rw (works.contents-update_state j i a s) (meet i (Bool-cases (sector_eq j i))),
      )
    where
      meet :
          (i : SectorId)
          → (sector_eq j i ≡ true) ⊎ (sector_eq j i ≡ false)
          → or_else (lookup updates i) (if sector_eq j i then some a else works.contents i s)
            ≡ or_else (if sector_eq j i then some a else lookup updates i) (works.contents i s)
      meet i (inl same) =
          rw (ap (lookup updates) (sym ((sector_eq_iff j i).0 same)) ∙ h.0) (rw same)
      meet i (inr ne) = rw ne

  -- the state after the storage has been declared again
  abbrev pub redeclared : S → S
  redeclared s = (redeclare api s).1

  abbrev states : S → SectorMap × SectorMap
  states s = merge_storage api.file_types (works.declared (redeclared s)) ([], [])

  abbrev result : Time → S → SectorStateUpdates
  result now s = record {
    updates = sector_updates (states s).0 (works.rows (redeclared s));
    active_sectors = sector_ids works.id (works.active (redeclared s));
    sector_with_deals = with_deals works.id (works.sectors (redeclared s));
    sector_states = (states s).1;
    updated_at = now;
  }

  redeclare_lem :
      (s : S)
      → ((redeclare api s).0 ≡ ok tt)
        × ((i : SectorId) → works.contents i (redeclared s) ≡ works.contents i s)
  unfolding redeclare
  redeclare_lem s = elim (Bool-cases api.redeclare_on_refresh) [
    | inl e ↦ rw e (rw (works.redeclare_works s) (refl, λ i. works.contents-redeclare i s))
    | inr e ↦ rw e (refl, λ i. refl)
  ]

  refresh_lem : (now : Time) (s : S) → refresh_state api now s ≡ (ok (result now s), redeclared s)
  unfolding refresh_state
  refresh_lem now s =
      let t = redeclared s in
      rw (redeclare_lem s).0 (
        rw (works.storage_list_works t) (
          rw (works.list_states_works t) (
            rw (works.chain_head_works t)
              (rw (works.active_works t) (rw (works.sectors_works t) (rw works.miner_id_works))))))

  updates_at :
      (now : Time) (s : S) (i : SectorId)
      → lookup (result now s).updates i
        ≡ expected
            (works.contents i s)
            (strongest api.file_types (flatten (works.declared (redeclared s))) i)
  updates_at now s i =
      let t = redeclared s in
      lookup-sector_updates (states s).0 (works.rows t) i
        (merge_storage-HasOwnKeys api.file_types (works.declared t) ([], [])
          (unfold HasOwnKeys in tt))
        (works.rows-HasOwnRows t)
      ∙ rw (
        works.known-rows t i,
        (redeclare_lem s).1 i,
        lookup-merge_storage api.file_types (works.declared t) i,
      )

  -- When no call fails, the check returns no error; for every sector, the updates that are
  -- published and the state in the table afterwards are those that `expected` and `next_state`
  -- give of its state in the table before and of the strongest state that any storage location
  -- declares of it.
  pub check_for_updates_lem :
      (now : Time) (s : S) (ps : PubSub SectorStateUpdates)
      → (ssu : SectorStateUpdates) × (t : S) × (check_for_updates api now (s, ps)
          ≡ (ok tt, (t, publish ssu ps)))
        × ((i : SectorId)
            → (lookup ssu.updates i
                ≡ expected
                    (works.contents i s)
                    (strongest api.file_types (flatten (works.declared (redeclared s))) i))
              × (works.contents i t
                  ≡ next_state
                      (works.contents i s)
                      (strongest api.file_types (flatten (works.declared (redeclared s))) i)))
  unfolding check_for_updates
  check_for_updates_lem now s ps =
      let (t, e, at_t) =
        write_lem (result now s).updates (redeclared s)
          (sector_updates-HasOwnKeys (states s).0 (works.rows (redeclared s))) in
      (
        result now s,
        t,
        rw (refresh_lem now s) (rw e),
        λ i. (
          updates_at now s i,
          at_t i
              ∙ rw (updates_at now s i, (redeclare_lem s).1 i)
                  (expected-next (works.contents i s)
                    (strongest api.file_types (flatten (works.declared (redeclared s))) i)),
        ),
      )
