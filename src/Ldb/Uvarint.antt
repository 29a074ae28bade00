-- ===== src/Ldb/Uvarint.antt =====
-- Go's binary.PutUvarint and binary.Uvarint, and the pairs of offset and size that
-- lib/boostd-data writes with them.
pub mod RoundTrip
use txcartool.Common.{
  ℕ, zero, suc, ◌+◌, ◌-◌, ◌*◌, ◌/◌, ◌%◌, ◌^◌, ◌≤◌, ◌<◌, ◌≡◌, refl, sym, ap, ◌∙◌, ◌⊎◌, inl, inr,
  Bool, true, false, ◌&&◌, List, [], ◌∷◌, ◌++◌, arith, Bytes, ltb, ◌==◌, if◌then◌else◌, Bool-cases,
  length, length-append, drop, replicate, Result, ok, err, panic,
}
use txcartool.Ldb.Model.{OffsetSize}

-- `binary.MaxVarintLen64`
abbrev pub max_varint_len : ℕ
max_varint_len = 10

put_loop : ℕ → ℕ → Bytes
put_loop zero x = []
put_loop (suc f) x =
    let rest = put_loop f (x / 128) in if ltb x 128 then x ∷ [] else (x % 128 + 128) ∷ rest

-- The bytes that `PutUvarint` writes for a number below 2 ^ 64: at most ten.
unfoldable pub put_uvarint : ℕ → Bytes
unfolding put_loop
put_uvarint x = put_loop max_varint_len x

-- What `Uvarint` returns: a value with the bytes read, (0, 0) or (0, a negative count).
pub data Uvarint : Type 0 where
  done : ℕ → ℕ → Uvarint
  short : Uvarint
  overflow : Uvarint

-- `m` is 2 to the power of the shift.
get_loop : Bytes → ℕ → ℕ → ℕ → Uvarint
get_loop [] i x m = short
get_loop (b ∷ bs) i x m =
    let more = get_loop bs (i + 1) (x + (b % 128) * m) (m * 128) in
    if i == max_varint_len
    then overflow
    else if ltb b 128
    then (if (i == max_varint_len - 1) && ltb 1 b then overflow else done (x + b * m) (i + 1))
    else more

unfoldable pub uvarint : Bytes → Uvarint
unfolding get_loop
uvarint bs = get_loop bs 0 0 1

abbrev pub value : Uvarint → ℕ
value (done v n) = v
value short = 0
value overflow = 0

unfoldable pub encode_offset_size : OffsetSize → Bytes
encode_offset_size os = put_uvarint os.offset ++ put_uvarint os.size

-- `b[n:]` with a negative `n` panics.
abbrev size_after : Uvarint → Bytes → Result OffsetSize
size_after (done v n) bs = ok (record { offset = v; size = value (uvarint (drop n bs)) })
size_after short bs = ok (record { offset = 0; size = value (uvarint bs) })
size_after overflow bs = panic

unfoldable pub decode_offset_size : Bytes → Result OffsetSize
decode_offset_size bs = size_after (uvarint bs) bs

abbrev pub IsU64 : ℕ → Type 0
IsU64 x = x < 2 ^ 64
