-- ===== src/Reseal/SidFile/Texts.antt =====
-- Numbers and separators in the texts that cmd/reseal.go reads.
use txcartool.Common.{
  ℕ, zero, suc, ◌+◌, ◌-◌, ◌*◌, ◌/◌, ◌%◌, ◌^◌, ◌<◌, ◌≤◌, ◌≡◌, ◌≢◌, refl, ap, ◌∙◌, true, false, ◌&&◌,
  some, List, [], ◌∷◌, ◌++◌, Bytes, ok, ltb, leb, ◌==◌, if◌then◌else◌, All, All-append, arith,
  Bool-cases, inl, inr,
}
use txcartool.Reseal.SidFile.{
  split, cons_part, drop_cr, without_last_empty, is_blank, digits, positive, parse_sid,
}

-- the decimal digits of a number, on as much fuel as the number and one
unfoldable pub decimal_digits : ℕ → ℕ → Bytes
decimal_digits zero n = []
decimal_digits (suc fuel) n =
    let rest = decimal_digits fuel (n / 10) in
    if ltb n 10 then (48 + n) ∷ [] else rest ++ (48 + n % 10) ∷ []

abbrev pub decimal : ℕ → Bytes
decimal n = decimal_digits (suc n) n

unfoldable pub IsDigit : ℕ → Type 0
IsDigit c = (48 ≤ c) × (c ≤ 57)

-- neither a space, a colon nor the end of a line
abbrev pub IsWordByte : ℕ → Type 0
IsWordByte c = (c ≢ 10) × ((c ≢ 13) × ((c ≢ 32) × (c ≢ 58)))

digits_snoc :
    (a m d : ℕ) (xs : Bytes)
    → digits a xs ≡ some m
    → 48 ≤ d
    → d ≤ 57
    → digits a (xs ++ d ∷ []) ≡ some (m * 10 + (d - 48))
unfolding digits
digits_snoc a m d [] e lo hi = ground arith
digits_snoc a m d (x ∷ xs) e lo hi = elim (Bool-cases (leb 48 x && leb x 57)) [
  | inl digit ↦ rw digit (digits_snoc (a * 10 + (x - 48)) m d xs (ground arith) lo hi)
  | inr not_digit ↦ ground arith
]

pub digits-decimal_digits : (fuel n : ℕ) → n < fuel → digits 0 (decimal_digits fuel n) ≡ some n
unfolding decimal_digits
digits-decimal_digits zero n h = absurd (omega arith)
digits-decimal_digits (suc fuel) n h = elim (Bool-cases (ltb n 10)) [
  | inl small ↦ rw small (unfold digits in ground arith)
  | inr large ↦ rw large (
      digits_snoc 0 (n / 10) (48 + n % 10) (decimal_digits fuel (n / 10))
        (digits-decimal_digits fuel (n / 10) (ground arith)) (omega arith) (omega arith)
      ∙ ap (λ (m : ℕ). some m) (omega arith))
]

pub decimal_digits-AllIsDigit : (fuel n : ℕ) → All IsDigit (decimal_digits fuel n)
unfolding decimal_digits IsDigit
decimal_digits-AllIsDigit zero n = tt
decimal_digits-AllIsDigit (suc fuel) n = elim (Bool-cases (ltb n 10)) [
  | inl small ↦ rw small ((omega arith, ground arith), tt)
  | inr large ↦ rw large (
      All-append IsDigit (decimal_digits fuel (n / 10)) _ (decimal_digits-AllIsDigit fuel (n / 10))
        ((omega arith, omega arith), tt))
]

-- `Starts bs` where the text begins with a digit
unfoldable pub Starts : Bytes → Type 0
Starts [] = ⊥
Starts (b ∷ bs) = IsDigit b

pub Starts-append : (xs ys : Bytes) → Starts xs → Starts (xs ++ ys)
unfolding Starts
Starts-append [] ys h = absurd h
Starts-append (x ∷ xs) ys h = h

pub decimal_digits-Starts : (fuel n : ℕ) → n < fuel → Starts (decimal_digits fuel n)
unfolding decimal_digits Starts IsDigit
decimal_digits-Starts zero n h = absurd (omega arith)
decimal_digits-Starts (suc fuel) n h = elim (Bool-cases (ltb n 10)) [
  | inl small ↦ rw small (omega arith, ground arith)
  | inr large ↦ rw large (
      Starts-append (decimal_digits fuel (n / 10)) ((48 + n % 10) ∷ [])
        (decimal_digits-Starts fuel (n / 10) (ground arith)))
]

pub parse_sid-digits :
    (bs : Bytes) (n : ℕ) → Starts bs → n < 2 ^ 63 → digits 0 bs ≡ some n → parse_sid bs ≡ ok n
unfolding parse_sid Starts IsDigit
parse_sid-digits [] n s h e = absurd s
parse_sid-digits (b ∷ bs) n s h e = rw not_plus (rw not_minus (ap positive e ∙ ground arith))
  where
    not_plus : (b == 43) ≡ false
    not_plus = ground (arith, s)

    not_minus : (b == 45) ≡ false
    not_minus = ground (arith, s)

pub Starts-is_blank : (bs : Bytes) → Starts bs → is_blank bs ≡ false
unfolding is_blank Starts IsDigit
Starts-is_blank [] s = absurd s
Starts-is_blank (b ∷ bs) s = ground (arith, s)

pub split_last : (c : ℕ) (xs : Bytes) → All (λ b. b ≢ c) xs → split c xs ≡ xs ∷ []
unfolding split
split_last c [] h = refl
split_last c (x ∷ xs) h =
    let differs : (x == c) ≡ false = ground (arith, h.0) in
    rw differs (ap (cons_part x) (split_last c xs h.1))

pub split_next :
    (c : ℕ) (xs ys : Bytes) → All (λ b. b ≢ c) xs → split c (xs ++ c ∷ ys) ≡ xs ∷ split c ys
unfolding split
split_next c [] ys h = let same : (c == c) ≡ true = ground arith in rw same refl
split_next c (x ∷ xs) ys h =
    let differs : (x == c) ≡ false = ground (arith, h.0) in
    rw differs (ap (cons_part x) (split_next c xs ys h.1))

pub drop_cr-none : (xs : Bytes) → All (λ b. b ≢ 13) xs → drop_cr xs ≡ xs
unfolding drop_cr
drop_cr-none [] h = refl
drop_cr-none (x ∷ []) h = let differs : (x == 13) ≡ false = ground (arith, h.0) in rw differs refl
drop_cr-none (x ∷ y ∷ xs) h = ap (◌∷◌ x) (drop_cr-none (y ∷ xs) h.1)

pub without_last_empty-snoc : (lines : List Bytes) → without_last_empty (lines ++ [] ∷ []) ≡ lines
unfolding without_last_empty
without_last_empty-snoc [] = refl
without_last_empty-snoc (line ∷ []) = last line
  where
    last : (l : Bytes) → without_last_empty (l ∷ [] ∷ []) ≡ l ∷ []
    last [] = refl
    last (b ∷ bs) = refl
without_last_empty-snoc (line ∷ next ∷ lines) =
    more line (ap (◌∷◌ line) (without_last_empty-snoc (next ∷ lines)))
  where
    more :
        (l : Bytes)
        → l ∷ without_last_empty ((next ∷ lines) ++ [] ∷ []) ≡ l ∷ next ∷ lines
        → without_last_empty ((l ∷ next ∷ lines) ++ [] ∷ []) ≡ l ∷ next ∷ lines
    more [] e = e
    more (b ∷ bs) e = e
