-- ===== src/Car/Slices.antt =====
-- A read of lib/boost/car/multi_reader_at.go is a slice of the parts' contents, one after another.
use txcartool.Common.{
  ℕ, zero, suc, ◌+◌, ◌-◌, ◌≤◌, ◌<◌, ◌⊎◌, ◌≡◌, refl, ap, ◌∙◌, none, List, [], ◌∷◌, ◌++◌, Bytes,
  length, take, drop, arith,
}
use txcartool.Car.{ReaderAtSize}

-- A part that reads its contents: from an offset within them, all that is wanted and no error. A
-- reader of Go may give an error at its end, also where nothing is wanted.
pub record Serves (p : ReaderAtSize) (d : Bytes) : Type 0 where
  pub has_size : p.size ≡ length d
  pub read_works :
      (count off : ℕ)
      → off + count ≤ length d
      → (off < length d) ⊎ (length d ≡ 0)
      → p.read_at count off ≡ (take count (drop off d), none)

unfoldable pub AllServe : List ReaderAtSize → List Bytes → Type 0
AllServe [] [] = Unit
AllServe [] (d ∷ ds) = ⊥
AllServe (p ∷ parts) [] = ⊥
AllServe (p ∷ parts) (d ∷ ds) = Serves p d × AllServe parts ds

unfoldable pub concat : List Bytes → Bytes
concat [] = []
concat (d ∷ ds) = d ++ concat ds

pub length-take : (n : ℕ) (xs : Bytes) → n ≤ length xs → length (take n xs) ≡ n
length-take zero xs h = refl
length-take (suc n) [] h = absurd (omega arith)
length-take (suc n) (x ∷ xs) h = omega (arith, length-take n xs (omega arith))

pub length-drop : (n : ℕ) (xs : Bytes) → length (drop n xs) ≡ length xs - n
length-drop zero xs = omega arith
length-drop (suc n) [] = omega arith
length-drop (suc n) (x ∷ xs) = omega (arith, length-drop n xs)

pub take-all : (xs : Bytes) (n : ℕ) → length xs ≡ n → take n xs ≡ xs
take-all [] zero h = refl
take-all [] (suc n) h = refl
take-all (x ∷ xs) zero h = absurd (omega arith)
take-all (x ∷ xs) (suc n) h = ap (◌∷◌ x) (take-all xs n (omega arith))

pub take_within : (n : ℕ) (xs ys : Bytes) → n ≤ length xs → take n (xs ++ ys) ≡ take n xs
take_within zero xs ys h = refl
take_within (suc n) [] ys h = absurd (omega arith)
take_within (suc n) (x ∷ xs) ys h = ap (◌∷◌ x) (take_within n xs ys (omega arith))

pub take_beyond :
    (n : ℕ) (xs ys : Bytes) → length xs ≤ n → take n (xs ++ ys) ≡ xs ++ take (n - length xs) ys
take_beyond n [] ys h = ap (λ m. take m ys) (omega arith)
take_beyond zero (x ∷ xs) ys h = absurd (omega arith)
take_beyond (suc n) (x ∷ xs) ys h =
    ap (◌∷◌ x) (take_beyond n xs ys (omega arith) ∙ ap (λ m. xs ++ take m ys) (omega arith))

pub drop_within : (n : ℕ) (xs ys : Bytes) → n ≤ length xs → drop n (xs ++ ys) ≡ drop n xs ++ ys
drop_within zero xs ys h = refl
drop_within (suc n) [] ys h = absurd (omega arith)
drop_within (suc n) (x ∷ xs) ys h = drop_within n xs ys (omega arith)

pub drop_beyond :
    (n : ℕ) (xs ys : Bytes) → length xs ≤ n → drop n (xs ++ ys) ≡ drop (n - length xs) ys
drop_beyond n [] ys h = ap (λ m. drop m ys) (omega arith)
drop_beyond zero (x ∷ xs) ys h = absurd (omega arith)
drop_beyond (suc n) (x ∷ xs) ys h =
    drop_beyond n xs ys (omega arith) ∙ ap (λ m. drop m ys) (omega arith)
