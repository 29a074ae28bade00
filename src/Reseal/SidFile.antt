-- ===== src/Reseal/SidFile.antt =====
-- The file of sectors of cmd/reseal.go: `ReadSectorSealInfos`. The file is its text, in ASCII; the
-- parser of a UUID is a library's, and is a parameter.
pub mod Texts
pub mod RoundTrip
use txcartool.Common.{
  ℕ, zero, suc, ◌+◌, ◌-◌, ◌*◌, ◌^◌, ◌%◌, Bool, true, false, ◌&&◌, ◌||◌, Option, none, some, List,
  [], ◌∷◌, Bytes, Error, failed, Result, ok, err, panic, bind_result, codes, bytes_eq, ltb, leb,
  ◌==◌, if◌then◌else◌, length, get_elem?,
}
use txcartool.Reseal.{SectorSealInfo}

-- `strings.Split` at one byte
abbrev pub cons_part : ℕ → List Bytes → List Bytes
cons_part b [] = (b ∷ []) ∷ []
cons_part b (part ∷ parts) = (b ∷ part) ∷ parts

unfoldable pub split : ℕ → Bytes → List Bytes
split c [] = [] ∷ []
split c (b ∷ bs) = let rest = split c bs in if b == c then [] ∷ rest else cons_part b rest

-- `bufio.ScanLines`: a carriage return at the end of a line is dropped, and a last line that is
-- empty is none.
unfoldable pub drop_cr : Bytes → Bytes
drop_cr [] = []
drop_cr (b ∷ []) = if b == 13 then [] else b ∷ []
drop_cr (b ∷ c ∷ bs) = b ∷ drop_cr (c ∷ bs)

unfoldable pub without_last_empty : List Bytes → List Bytes
without_last_empty [] = []
without_last_empty ([] ∷ []) = []
without_last_empty ((b ∷ line) ∷ []) = (b ∷ line) ∷ []
without_last_empty (line ∷ next ∷ lines) = line ∷ without_last_empty (next ∷ lines)

abbrev pub scan_lines : Bytes → List Bytes
scan_lines text = without_last_empty (split 10 text)

-- `strings.TrimSpace(line) == ""`
abbrev pub is_space : ℕ → Bool
is_space b = (leb 9 b && leb b 13) || (b == 32)

unfoldable pub is_blank : Bytes → Bool
is_blank [] = true
is_blank (b ∷ bs) = is_space b && is_blank bs

-- `strconv.Atoi` on the digits: the value, or none for a byte that is not a digit
unfoldable pub digits : ℕ → Bytes → Option ℕ
digits n [] = some n
digits n (b ∷ bs) =
    let rest = digits (n * 10 + (b - 48)) bs in if leb 48 b && leb b 57 then rest else none

abbrev pub syntax_error : Error
syntax_error = failed (codes "invalid syntax")

abbrev pub range_error : Error
range_error = failed (codes "value out of range")

abbrev pub positive : Option ℕ → Result ℕ
positive none = err syntax_error
positive (some n) = if ltb n (2 ^ 63) then ok n else err range_error

-- A negative number turns into the sector number 2^64 less it.
abbrev pub negative : Option ℕ → Result ℕ
negative none = err syntax_error
negative (some n) = if leb n (2 ^ 63) then ok ((2 ^ 64 - n) % 2 ^ 64) else err range_error

abbrev pub unsigned : Bytes → Option ℕ
unsigned [] = none
unsigned (b ∷ bs) = digits 0 (b ∷ bs)

-- `abi.SectorNumber(strconv.Atoi(s))`
unfoldable pub parse_sid : Bytes → Result ℕ
parse_sid [] = err syntax_error
parse_sid (b ∷ bs) =
    if b == 43
    then positive (unsigned bs)
    else (if b == 45 then negative (unsigned bs) else positive (unsigned (b ∷ bs)))

-- `parts[i]`
abbrev pub index : List Bytes → ℕ → Result Bytes
index parts i = elim (get_elem? parts i) [ none ↦ panic | some p ↦ ok p ]

module _ (Uuid : Type 0) (no_key : Uuid) (parse_uuid : Bytes → Result Uuid) where
  unfoldable pub parse_car_key : Bool → List Bytes → Result Uuid
  parse_car_key true dc_parts = bind_result (index dc_parts 1) parse_uuid
  parse_car_key false dc_parts = ok no_key

  -- the third part of a line: whether the sector has deal data, and its key
  unfoldable pub parse_dc : Bytes → Result (Bool × Uuid)
  unfolding parse_car_key
  parse_dc dc_str =
      let dc_parts = split 58 dc_str in
      bind_result (index dc_parts 0) λ kind.
        let is_dc = bytes_eq kind (codes "DC") in
        bind_result (parse_car_key is_dc dc_parts) λ car_key. ok (is_dc, car_key)

  abbrev pub with_parts : ℕ → Result Bytes → Result Bytes → Result (SectorSealInfo Uuid)
  with_parts sid seal_part dc_part = bind_result seal_part λ seal_type.
      bind_result dc_part λ dc_str. bind_result (parse_dc dc_str) λ (is_dc, car_key).
        ok (record { sid = sid; seal_type = seal_type; is_dc = is_dc; car_key = car_key })

  unfoldable pub parse_line : Bytes → Result (SectorSealInfo Uuid)
  unfolding parse_dc
  parse_line line =
      let line_parts = split 32 line in
      bind_result (index line_parts 0) λ sid_str.
        bind_result (parse_sid sid_str)
          λ sid. with_parts sid (index line_parts 1) (index line_parts 2)

  abbrev pub cons_info :
      SectorSealInfo Uuid
      → Result (List (SectorSealInfo Uuid))
      → Result (List (SectorSealInfo Uuid))
  cons_info info rest = bind_result rest λ infos. ok (info ∷ infos)

  -- The loop over the lines. The scanner's buffer holds 65,536 bytes: a longer line is its error.
  unfoldable pub read_lines : List Bytes → Result (List (SectorSealInfo Uuid))
  read_lines [] = ok []
  read_lines (line ∷ lines) =
      let rest = read_lines lines in
      if ltb (length line) 65536
      then (if is_blank line
          then rest
          else bind_result (parse_line (drop_cr line)) λ info. cons_info info rest)
      else err (failed (codes "bufio.Scanner: token too long"))

  unfoldable pub read_sector_seal_infos : Bytes → Result (List (SectorSealInfo Uuid))
  read_sector_seal_infos text = read_lines (scan_lines text)
