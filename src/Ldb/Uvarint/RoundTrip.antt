-- ===== src/Ldb/Uvarint/RoundTrip.antt =====
-- What `Uvarint` reads of the bytes that `PutUvarint` wrote.
use txcartool.Common.{
  ℕ, zero, suc, ◌+◌, ◌*◌, ◌/◌, ◌%◌, ◌^◌, ◌<◌, ◌≡◌, refl, sym, ap, ◌∙◌, ◌⊎◌, inl, inr, false, ◌&&◌,
  [], ◌∷◌, ◌++◌, arith, Bytes, ltb, ◌==◌, Bool-cases, ==_iff, subst, length, drop, ok,
}
use mathlib.Core.List.{append-nil}
use native.Mathlib.Nat.{pow-suc}
use native.Mathlib.Numerals.{add-one}
use txcartool.Ldb.Model.{OffsetSize}
use txcartool.Ldb.Uvarint.{
  put_loop, get_loop, done, value, put_uvarint, uvarint, encode_offset_size, decode_offset_size,
  IsU64,
}

-- a step of the two loops, where the number has more than seven bits
shift_value : (x acc m : ℕ) → acc + (x % 128) * m + (x / 128) * (m * 128) ≡ acc + x * m
shift_value x acc m =
    let e : (128 * (x / 128) + x % 128) * m ≡ x * m = ap (λ (t : ℕ). t * m) (omega arith) in
    omega (arith, e)

shift_bound : (x m n : ℕ) → x * m < n → (x / 128) * (m * 128) < n
shift_bound x m n h =
    let e : (128 * (x / 128) + x % 128) * m ≡ x * m = ap (λ (t : ℕ). t * m) (omega arith) in
    omega (arith, e)

pos_times : (x m n : ℕ) → 0 < x → x * m < n → m < n
pos_times x m n p h = grind arith

-- the tenth byte holds one bit
no_overflow : (i x m : ℕ) → m ≡ 128 ^ i → x * m < 2 ^ 64 → ((i == 9) && ltb 1 x) ≡ false
no_overflow i x m hm lt = elim (Bool-cases (i == 9)) [
  | inr ne ↦ rw ne
  | inl eq ↦
      let hm' : m ≡ 128 ^ 9 = subst (λ (t : ℕ). m ≡ 128 ^ t) ((==_iff i 9).0 eq) hm in
      let small : x * 128 ^ 9 < 2 ^ 64 = subst (λ (t : ℕ). x * t < 2 ^ 64) hm' lt in ground arith
]

high_byte : (x : ℕ) → ltb (x % 128 + 128) 128 ≡ false
high_byte x = ground arith

low_bits : (x : ℕ) → (x % 128 + 128) % 128 ≡ x % 128
low_bits x = omega arith

pos_quotient : (x : ℕ) → ltb x 128 ≡ false → 0 < x / 128
pos_quotient x h = ground arith

done_eq : {v w m n : ℕ} → v ≡ w → m ≡ n → done v m ≡ done w n
done_eq p q = cc

get-put_loop :
    (f i x acc m : ℕ) (rest : Bytes)
    → f + i ≡ 10
    → m ≡ 128 ^ i
    → x * m < 2 ^ 64
    → (0 < x) ⊎ (i ≡ 0)
    → get_loop (put_loop f x ++ rest) i acc m ≡ done (acc + x * m) (i + length (put_loop f x))
unfolding put_loop get_loop
get-put_loop zero i x acc m rest e hm lt (inl p) =
    let hm' : m ≡ 128 ^ 10 = subst (λ (t : ℕ). m ≡ 128 ^ t) {y = 10} (omega arith) hm in
    absurd (omega (arith, pos_times x m (2 ^ 64) p lt))
get-put_loop zero i x acc m rest e hm lt (inr z) = absurd (omega arith)
get-put_loop (suc f) i x acc m rest e hm lt p = elim (Bool-cases (ltb x 128)) [
  | inl small ↦
      rw small (rw (ne_10 (omega arith)) (rw small (rw (no_overflow i x m hm lt) (ground arith))))
  | inr big ↦
      let ih =
        get-put_loop f (i + 1) (x / 128) (acc + (x % 128) * m) (m * 128) rest (omega arith)
          (rw hm (sym (pow_one 128 i))) (shift_bound x m (2 ^ 64) lt) (inl (pos_quotient x big)) in
      rw big (
        rw (ne_10 (omega arith))
          (rw (high_byte x) (rw (low_bits x) (ih ∙ done_eq (shift_value x acc m) (omega arith)))))
]
  where
    ne_10 : i < 10 → (i == 10) ≡ false
    ne_10 h = ground arith

    pow_one : (b n : ℕ) → b ^ (n + 1) ≡ b ^ n * b
    pow_one b n = rw add-one (rw pow-suc)

-- A number that is put is got back, with the count of its bytes.
pub uvarint-put :
    (x : ℕ) (rest : Bytes)
    → IsU64 x
    → uvarint (put_uvarint x ++ rest) ≡ done x (length (put_uvarint x))
unfolding uvarint put_uvarint
uvarint-put x rest h =
    get-put_loop 10 0 x 0 1 rest refl refl (omega arith) (inr refl) ∙ ground arith

value-put : (x : ℕ) → IsU64 x → value (uvarint (put_uvarint x)) ≡ x
value-put x h = ap value (
    subst (λ (b : Bytes). uvarint b ≡ done x (length (put_uvarint x))) (append-nil (put_uvarint x))
      (uvarint-put x [] h))

drop-append : (xs ys : Bytes) → drop (length xs) (xs ++ ys) ≡ ys
drop-append [] ys = refl
drop-append (x ∷ xs) ys = drop-append xs ys

-- An offset and a size below 2 to the 64 that are encoded are decoded to the same pair.
pub decode-encode :
    (os : OffsetSize)
    → IsU64 os.offset
    → IsU64 os.size
    → decode_offset_size (encode_offset_size os) ≡ ok os
unfolding decode_offset_size encode_offset_size
decode-encode os ho hs =
    rw (uvarint-put os.offset (put_uvarint os.size) ho)
      (rw (drop-append (put_uvarint os.offset) (put_uvarint os.size)) (rw (value-put os.size hs)))
