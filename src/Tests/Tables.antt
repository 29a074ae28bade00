-- ===== src/Tests/Tables.antt =====
-- Tables as lists of rows, of which the first of a key counts.
use txcartool.Common.{
  ℕ, zero, suc, ◌<◌, ◌≡◌, refl, ap, Bool, true, false, not, ◌&&◌, ◌↔◌, Option, none, some, List, [],
  ◌∷◌, arith, if◌then◌else◌, any, take, length, Bool-cases, inl, inr,
}

abbrev pub either_of {ℓ} : {A : Type ℓ} → Option A → (A → Bool) → Bool
either_of none q = false
either_of (some v) q = q v

unfoldable pub collect : {V R : Type 0} → (V → Bool) → (V → R) → List V → List R
collect p f [] = []
collect p f (v ∷ vs) = let rest = collect p f vs in if p v then f v ∷ rest else rest

pub any-collect :
    {V R : Type 0} (p : V → Bool) (f : V → R) (q : R → Bool) (vs : List V)
    → any q (collect p f vs) ≡ any (λ v. p v && q (f v)) vs
unfolding collect
any-collect p f q [] = refl
any-collect p f q (v ∷ vs) = ground (arith, any-collect p f q vs)

pub any-take :
    {V : Type 0} (q : V → Bool) (n : ℕ) (vs : List V) → any q (take n vs) ≡ true → any q vs ≡ true
any-take q zero vs h = ground arith
any-take q (suc n) [] h = h
any-take q (suc n) (v ∷ vs) h = ground (arith, h, any-take q n vs)

pub take-all : {V : Type 0} (n : ℕ) (vs : List V) → length (take n vs) < n → take n vs ≡ vs
take-all zero vs h = absurd (omega (arith, h))
take-all (suc n) [] h = refl
take-all (suc n) (v ∷ vs) h = ap (◌∷◌ v) (take-all n vs (omega (arith, h)))

module _ {K V : Type 0} (eq : K → K → Bool) (eq_iff : (j k : K) → (eq j k ≡ true) ↔ (j ≡ k))
    (key : V → K) where
  unfoldable pub first : K → List V → Option V
  first k [] = none
  first k (v ∷ vs) = if eq (key v) k then some v else first k vs

  unfoldable pub erase : K → List V → List V
  erase k [] = []
  erase k (v ∷ vs) = let rest = erase k vs in if eq (key v) k then rest else v ∷ rest

  -- the rows that count
  unfoldable pub nub : List V → List V
  nub [] = []
  nub (v ∷ vs) = v ∷ erase (key v) (nub vs)

  pub first-erase :
      (j k : K) (vs : List V) → first k (erase j vs) ≡ (if eq j k then none else first k vs)
  unfolding first erase
  first-erase j k [] = ground arith
  first-erase j k (v ∷ vs) =
      ground (arith, first-erase j k vs, eq_iff (key v) j, eq_iff (key v) k, eq_iff j k)

  any-erase :
      (j k : K) (q : V → Bool) (vs : List V)
      → any (λ v. eq (key v) k && q v) (erase j vs)
        ≡ (not (eq j k) && any (λ v. eq (key v) k && q v) vs)
  unfolding erase
  any-erase j k q [] = ground arith
  any-erase j k q (v ∷ vs) =
      ground (arith, any-erase j k q vs, eq_iff (key v) j, eq_iff (key v) k, eq_iff j k)

  pub any-nub :
      (k : K) (q : V → Bool) (vs : List V)
      → any (λ v. eq (key v) k && q v) (nub vs) ≡ either_of (first k vs) q
  unfolding nub first
  any-nub k q [] = refl
  any-nub k q (v ∷ vs) =
      let ih = any-nub k q vs in
      let gone = any-erase (key v) k q (nub vs) in
      elim (Bool-cases (eq (key v) k)) [
        | inl e ↦ rw gone (rw e (ground arith))
        | inr e ↦ rw gone (rw e ih)
      ]
