-- ===== src/Ldb/Store/Removal/Deals.antt =====
-- The deals that `RemoveDealForPiece` of lib/boostd-data/ldb/service.go leaves.
use txcartool.Common.{
  ℕ, zero, suc, ◌+◌, ◌-◌, ◌≡◌, refl, sym, ap, ◌∙◌, Bool, Option, none, some, List, [], ◌∷◌, Bytes,
  bytes_eq, if◌then◌else◌, length, get_elem?, set, take, arith, Bool-cases, Option-cases, inl, inr,
}
use txcartool.Ldb.Model.{DealInfo}
use txcartool.Ldb.Store.Removal.{deal_index, remove_deal}

-- how many of the deals pass a test
unfoldable pub count : (DealInfo → Bool) → List DealInfo → ℕ
count test [] = 0
count test (d ∷ ds) = let n = count test ds in if test d then suc n else n

-- the first deal with the id
unfoldable pub first_deal : Bytes → List DealInfo → Option DealInfo
first_deal uuid [] = none
first_deal uuid (d ∷ ds) = if bytes_eq d.deal_uuid uuid then some d else first_deal uuid ds

unfoldable pub weight : (DealInfo → Bool) → Option DealInfo → ℕ
weight test none = 0
weight test (some d) = if test d then 1 else 0

abbrev last_of : List DealInfo → Option DealInfo
last_of ds = get_elem? ds (length ds - 1)

count-last :
    (test : DealInfo → Bool) (d : DealInfo) (ds : List DealInfo)
    → count test (d ∷ ds)
      ≡ count test (take (length ds) (d ∷ ds)) + weight test (get_elem? (d ∷ ds) (length ds))
unfolding count weight
count-last test d [] = ground arith
count-last test d (e ∷ ds) = ground (arith, count-last test e ds)

-- The last deal takes the place of the first with the id.
swap_lem :
    (test : DealInfo → Bool) (uuid : Bytes) (d : DealInfo) (ds : List DealInfo) (i : ℕ)
    (x last : DealInfo)
    → deal_index uuid (d ∷ ds) ≡ some i
    → first_deal uuid (d ∷ ds) ≡ some x
    → get_elem? (d ∷ ds) (length ds) ≡ some last
    → count test (d ∷ ds)
      ≡ count test (take (length ds) (set (d ∷ ds) i last)) + weight test (some x)
unfolding count weight deal_index first_deal
swap_lem test uuid d [] zero x last ei ex el = ground arith
swap_lem test uuid d [] (suc i) x last ei ex el = ground arith
swap_lem test uuid d (e ∷ ds) zero x last ei ex el = ground (arith, count-last test e ds)
swap_lem test uuid d (e ∷ ds) (suc i) x last ei ex el =
    ground (arith, swap_lem test uuid e ds i x last)

last_exists :
    (d : DealInfo) (ds : List DealInfo) → (x : DealInfo) × (get_elem? (d ∷ ds) (length ds) ≡ some x)
last_exists d [] = (d, refl)
last_exists d (e ∷ ds) = last_exists e ds

index_none :
    (uuid : Bytes) (ds : List DealInfo) → deal_index uuid ds ≡ none → first_deal uuid ds ≡ none
unfolding deal_index first_deal
index_none uuid [] e = refl
index_none uuid (d ∷ ds) e = ground (arith, index_none uuid ds)

index_some :
    (uuid : Bytes) (ds : List DealInfo) (i : ℕ)
    → deal_index uuid ds ≡ some i
    → (x : DealInfo) × (first_deal uuid ds ≡ some x)
unfolding deal_index first_deal
index_some uuid [] i e = cc
index_some uuid (d ∷ ds) i e = elim (Bool-cases (bytes_eq d.deal_uuid uuid)) [
  | inl same ↦ (d, rw same)
  | inr other ↦ elim (Option-cases (deal_index uuid ds)) [
    | inl no_index ↦ absurd (clash (sym (rw other (rw no_index)) ∙ e))
    | inr (j, at_j) ↦ let (x, ex) = index_some uuid ds j at_j in (x, rw other ex)
  ]
]
  where
    clash : ◌≡◌ {A = Option ℕ} none (some i) → ⊥
    clash h = cc

-- Removing a deal takes the first deal with the id off the deals, and leaves each other as often
-- as it was there, in whatever order: for any test, the deals that pass it are those that are left
-- and pass it, and the first deal with the id if there is one and it passes.
pub count-remove_deal :
    (test : DealInfo → Bool) (uuid : Bytes) (deals : List DealInfo)
    → count test deals ≡ count test (remove_deal uuid deals) + weight test (first_deal uuid deals)
unfolding remove_deal
count-remove_deal test uuid [] = unfold count weight first_deal deal_index in omega arith
count-remove_deal test uuid (d ∷ ds) = elim (Option-cases (deal_index uuid (d ∷ ds))) [
  | inl e ↦ rw (e, index_none uuid (d ∷ ds) e) (unfold weight in omega arith)
  | inr (i, e) ↦
      let (x, ex) = index_some uuid (d ∷ ds) i e in
      let (last, el) = last_exists d ds in
      rw (e, ex)
        (rw (ap (λ n. get_elem? (d ∷ ds) n) less ∙ el)
          (rw less (swap_lem test uuid d ds i x last e ex el)))
]
  where
    less : suc (length ds) - 1 ≡ length ds
    less = omega arith
