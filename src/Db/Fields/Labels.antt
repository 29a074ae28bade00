-- ===== src/Db/Fields/Labels.antt =====
-- The round trip of deal labels.
use txcartool.Common.{
  ℕ, ◌+◌, ◌*◌, ◌/◌, ◌%◌, ◌≡◌, ◌≢◌, ◌<◌, refl, ap, some, [], ◌∷◌, Bytes, codes, ok, err, failed,
  bytes_eq, All, arith,
}
use txcartool.Db.Fields.{
  DealLabel, label_text, label_bytes, Libraries, hex_digit, from_hex_digit, hex_encode, hex_decode,
  label_marshall, label_unmarshall,
}

digit_lem : (n : ℕ) → n < 16 → from_hex_digit (hex_digit n) ≡ ok n
digit_lem n h = ground arith

hex_decode-hex_encode : (bs : Bytes) → All (λ b. b < 256) bs → hex_decode (hex_encode bs) ≡ ok bs
unfolding hex_decode hex_encode
hex_decode-hex_encode [] h = refl
hex_decode-hex_encode (b ∷ bs) h = rw (digit_lem (b / 16) (omega (arith, h.0))) (
    rw (digit_lem (b % 16) (omega arith)) (
      rw (hex_decode-hex_encode bs h.1)
        (ap (λ x. ok (x ∷ bs)) {x = b / 16 * 16 + b % 16} {y = b} (omega arith))))

-- A label that go-state-types makes: its text or its bytes are accepted.
abbrev pub IsAccepted : Libraries → DealLabel → Type 0
IsAccepted lib (label_text s) = lib.label_from_string s ≡ ok (label_text s)
IsAccepted lib (label_bytes bz) =
    All (λ b. b < 256) bz × (lib.label_from_bytes bz ≡ ok (label_bytes bz))

-- A deal label whose text or bytes go-state-types accepts, and which is not that of no bytes, is
-- read back from the column that it is written into, whatever the field had.
pub label_unmarshall-label_marshall :
    (lib : Libraries) (l old : DealLabel)
    → IsAccepted lib l
    → l ≢ label_bytes []
    → label_unmarshall lib (label_marshall (some l)) old ≡ ok l
unfolding label_unmarshall label_marshall bytes_eq hex_encode
label_unmarshall-label_marshall lib (label_text []) old h ne = refl
label_unmarshall-label_marshall lib (label_text (c ∷ s)) old h ne = h
label_unmarshall-label_marshall lib (label_bytes []) old h ne = absurd (ne refl)
label_unmarshall-label_marshall lib (label_bytes (b ∷ bz)) old h ne =
    rw (hex_decode-hex_encode (b ∷ bz) h.0) h.1

-- Empty bytes are written as a text that is not read back.
pub label_unmarshall-empty_bytes :
    (lib : Libraries) (old : DealLabel)
    → label_unmarshall lib (label_marshall (some (label_bytes []))) old
      ≡ err (failed (codes "cannot unmarshall empty string to hex"))
unfolding label_unmarshall label_marshall hex_encode bytes_eq
label_unmarshall-empty_bytes lib old = refl
