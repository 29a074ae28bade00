-- ===== src/Sectors/Diff.antt =====
-- The updates of a refresh: what the previous states and the present ones say of each sector.
use txcartool.Common.{
  ◌≡◌, refl, sym, ap, ◌∙◌, true, false, Option, none, some, List, [], ◌∷◌, if◌then◌else◌, arith,
  Bool-cases, ◌⊎◌, inl, inr,
}
use txcartool.Sectors.{
  SectorId, SealState, sealed, unsealed, removed, cache, state_eq, SectorState, SectorMap,
  sector_eq, sector_eq_iff, lookup, assign, discard, lookup-assign, lookup-discard, changed,
  compare_one, compare_previous, add_new, sector_updates,
}

-- the state of a sector in the table
unfoldable pub known : List SectorState → SectorId → Option SealState
known [] i = none
known (pss ∷ previous) i =
    if sector_eq pss.sector_id i then some pss.seal_state else known previous i

-- A sector has one row, as the primary key of the table says.
unfoldable pub HasOwnRows : List SectorState → Type 0
HasOwnRows [] = Unit
HasOwnRows (pss ∷ previous) = (known previous pss.sector_id ≡ none) × HasOwnRows previous

unfoldable pub HasOwnKeys : SectorMap → Type 0
HasOwnKeys [] = Unit
HasOwnKeys ((i, a) ∷ m) = (lookup m i ≡ none) × HasOwnKeys m

-- What a refresh is to write for a sector: its present state, if it was not known; `removed`, if it
-- is not there any more; and the present state, if it is another one than before and not `cache`.
unfoldable pub expected : Option SealState → Option SealState → Option SealState
expected none current = current
expected (some p) none = some removed
expected (some p) (some cache) = none
expected (some sealed) (some sealed) = none
expected (some unsealed) (some unsealed) = none
expected (some removed) (some removed) = none
expected (some p) (some a) = some a

-- The test of the loop is that of the table above.
changed-expected :
    (p a : SealState) → (if changed p a then some a else none) ≡ expected (some p) (some a)
unfolding expected changed state_eq
changed-expected sealed sealed = refl
changed-expected sealed unsealed = refl
changed-expected sealed removed = refl
changed-expected sealed cache = refl
changed-expected unsealed sealed = refl
changed-expected unsealed unsealed = refl
changed-expected unsealed removed = refl
changed-expected unsealed cache = refl
changed-expected removed sealed = refl
changed-expected removed unsealed = refl
changed-expected removed removed = refl
changed-expected removed cache = refl
changed-expected cache sealed = refl
changed-expected cache unsealed = refl
changed-expected cache removed = refl
changed-expected cache cache = refl

update_of : Option SealState → Option SealState → Option SealState → Option SealState
update_of none current u = u
update_of (some p) none u = some removed
update_of (some p) (some a) u = if changed p a then some a else u

left_of : Option SealState → Option SealState → Option SealState
left_of none current = current
left_of (some p) current = none

pub assign-HasOwnKeys :
    (m : SectorMap) (i : SectorId) (a : SealState) → HasOwnKeys m → HasOwnKeys (assign m i a)
unfolding HasOwnKeys assign lookup
assign-HasOwnKeys [] i a h = (refl, tt)
assign-HasOwnKeys ((j, b) ∷ m) i a h = elim (Bool-cases (sector_eq j i)) [
  | inl same ↦ rw same h
  | inr ne ↦ rw ne (rw (lookup-assign m i j a) (rw (flip i j ne) h.0), assign-HasOwnKeys m i a h.1)
]
  where
    flip : (i j : SectorId) → sector_eq j i ≡ false → sector_eq i j ≡ false
    flip i j ne = ground (arith, sector_eq_iff i j, sector_eq_iff j i)

pub discard-HasOwnKeys : (m : SectorMap) (i : SectorId) → HasOwnKeys m → HasOwnKeys (discard m i)
unfolding HasOwnKeys discard
discard-HasOwnKeys [] i h = tt
discard-HasOwnKeys ((j, b) ∷ m) i h = elim (Bool-cases (sector_eq j i)) [
  | inl same ↦ rw same (discard-HasOwnKeys m i h.1)
  | inr ne ↦ rw ne (rw (lookup-discard m i j) (at_none j h.0), discard-HasOwnKeys m i h.1)
]
  where
    at_none :
        (j : SectorId) → lookup m j ≡ none → (if sector_eq i j then none else lookup m j) ≡ none
    at_none j e = ground arith

one_lem :
    (pss : SectorState) (o : Option SealState) (states updates : SectorMap) (i : SectorId)
    → lookup states pss.sector_id ≡ o
    → (lookup (compare_one pss o (states, updates)).0 i
        ≡ (if sector_eq pss.sector_id i then none else lookup states i))
      × (lookup (compare_one pss o (states, updates)).1 i ≡ (
          if sector_eq pss.sector_id i
          then update_of (some pss.seal_state) (lookup states i) (lookup updates i)
          else lookup updates i))
unfolding compare_one update_of
one_lem pss none states updates i e = (
  ground (arith, sector_eq_iff pss.sector_id i),
  lookup-assign updates pss.sector_id i removed ∙ ground (arith, sector_eq_iff pss.sector_id i),
)
one_lem pss (some a) states updates i e = (
  lookup-discard states pss.sector_id i,
  ground (arith, sector_eq_iff pss.sector_id i, lookup-assign updates pss.sector_id i a),
)

compare_lem :
    (previous : List SectorState) (states updates : SectorMap) (i : SectorId)
    → HasOwnRows previous
    → (lookup (compare_previous previous (states, updates)).0 i
        ≡ left_of (known previous i) (lookup states i))
      × (lookup (compare_previous previous (states, updates)).1 i
          ≡ update_of (known previous i) (lookup states i) (lookup updates i))
unfolding compare_previous known HasOwnRows left_of update_of
compare_lem [] states updates i h = (refl, refl)
compare_lem (pss ∷ previous) states updates i h =
    let o = lookup states pss.sector_id in
    let m = compare_one pss o (states, updates) in
    let (rest0, rest1) = compare_lem previous m.0 m.1 i h.1 in
    let (one0, one1) = one_lem pss o states updates i refl in
    elim (Bool-cases (sector_eq pss.sector_id i)) [
      | inl same ↦
          let absent = ap (known previous) (sym ((sector_eq_iff pss.sector_id i).0 same)) ∙ h.0 in
          (rest0 ∙ rw (absent, same) (one0 ∙ rw same), rest1 ∙ rw (absent, same) (one1 ∙ rw same))
      | inr ne ↦
          let e0 : lookup m.0 i ≡ lookup states i = one0 ∙ rw ne in
          let e1 : lookup m.1 i ≡ lookup updates i = one1 ∙ rw ne in
          (rest0 ∙ rw ne (rw e0), rest1 ∙ rw ne (rw (e0, e1)))
    ]

unfoldable pub or_else : Option SealState → Option SealState → Option SealState
or_else none u = u
or_else (some a) u = some a

add_lem :
    (states updates : SectorMap) (i : SectorId)
    → HasOwnKeys states
    → lookup (add_new states updates) i ≡ or_else (lookup states i) (lookup updates i)
unfolding add_new HasOwnKeys or_else
add_lem [] updates i h = unfold lookup in refl
add_lem ((j, a) ∷ states) updates i h =
    add_lem states (assign updates j a) i h.1
    ∙ rw (lookup-assign updates j i a) (unfold lookup in at_key (Bool-cases (sector_eq j i)))
  where
    at_key :
        (sector_eq j i ≡ true) ⊎ (sector_eq j i ≡ false)
        → or_else (lookup states i) (if sector_eq j i then some a else lookup updates i)
          ≡ or_else (if sector_eq j i then some a else lookup states i) (lookup updates i)
    at_key (inl same) = rw (ap (lookup states) (sym ((sector_eq_iff j i).0 same)) ∙ h.0) (rw same)
    at_key (inr ne) = rw ne

-- no states are left twice
compare-HasOwnKeys :
    (previous : List SectorState) (states updates : SectorMap)
    → HasOwnKeys states
    → HasOwnKeys (compare_previous previous (states, updates)).0
unfolding compare_previous compare_one
compare-HasOwnKeys [] states updates h = h
compare-HasOwnKeys (pss ∷ previous) states updates h =
    compare-HasOwnKeys previous _ _ (one_round (lookup states pss.sector_id))
  where
    one_round : (o : Option SealState) → HasOwnKeys (compare_one pss o (states, updates)).0
    one_round none = h
    one_round (some a) = discard-HasOwnKeys states pss.sector_id h

-- Where every sector has one row of previous states and one entry of present states, the updates
-- have for each sector what `expected` says of the two.
pub lookup-sector_updates :
    (states : SectorMap) (previous : List SectorState) (i : SectorId)
    → HasOwnKeys states
    → HasOwnRows previous
    → lookup (sector_updates states previous) i ≡ expected (known previous i) (lookup states i)
unfolding sector_updates or_else left_of update_of expected lookup
lookup-sector_updates states previous i hk hp =
    let (rest0, rest1) = compare_lem previous states [] i hp in
    let m = compare_previous previous (states, []) in
    add_lem m.0 m.1 i (compare-HasOwnKeys previous states [] hk)
    ∙ rw (rest0, rest1) (meet (known previous i) (lookup states i))
  where
    meet :
        (p o : Option SealState)
        → or_else (left_of p o) (update_of p o (lookup [] i)) ≡ expected p o
    meet none none = refl
    meet none (some a) = refl
    meet (some p) none = refl
    meet (some p) (some a) = changed-expected p a
