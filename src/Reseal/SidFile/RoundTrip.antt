-- ===== src/Reseal/SidFile/RoundTrip.antt =====
-- The file of sectors of cmd/reseal.go, written in the form its reader expects, is read back.
use txcartool.Common.{
  ℕ, ◌^◌, ◌<◌, ◌≤◌, ◌≡◌, ◌≢◌, refl, ap, ◌∙◌, Bool, true, false, List, [], ◌∷◌, ◌++◌, Bytes, Result,
  ok, length, ltb, All, All-append, All-imp, bytes_eq, arith, map,
}
use txcartool.Reseal.{SectorSealInfo}
use txcartool.Reseal.SidFile.{
  split, drop_cr, without_last_empty, is_blank, parse_sid, parse_car_key, parse_dc, parse_line,
  read_lines, read_sector_seal_infos,
}
use txcartool.Reseal.SidFile.Texts.{
  IsDigit, IsWordByte, decimal, digits-decimal_digits, decimal_digits-AllIsDigit,
  decimal_digits-Starts, parse_sid-digits, Starts-is_blank, Starts-append, split_last, split_next,
  drop_cr-none, without_last_empty-snoc,
}

module _ (Uuid : Type 0) (no_key : Uuid) (parse_uuid : Bytes → Result Uuid)
    (print_uuid : Uuid → Bytes) where
  abbrev Info : Type 0
  Info = SectorSealInfo Uuid

  abbrev pub dc_text : Bool → Uuid → Bytes
  dc_text true key = 68 ∷ 67 ∷ 58 ∷ print_uuid key
  dc_text false key = 67 ∷ 67 ∷ []

  -- one line of the file: the number, the seal type, and `DC:` with the key or `CC`
  abbrev pub line_text : Info → Bytes
  line_text info = decimal info.sid ++ 32 ∷ (info.seal_type ++ 32 ∷ dc_text info.is_dc info.car_key)

  unfoldable pub file_text : List Info → Bytes
  file_text [] = []
  file_text (info ∷ infos) = line_text info ++ 10 ∷ file_text infos

  abbrev pub KeyIsRead : Bool → Uuid → Type 0
  KeyIsRead true key = All IsWordByte (print_uuid key) × (parse_uuid (print_uuid key) ≡ ok key)
  KeyIsRead false key = key ≡ no_key

  -- A sector that fits in a line: the number in 63 bits, words without separators, a key that the
  -- parser of UUIDs reads, and a line that fits in the buffer.
  pub record CanBeWritten (info : Info) : Type 0 where
    pub sid_bound : info.sid < 2 ^ 63
    pub word : All IsWordByte info.seal_type
    pub key : KeyIsRead info.is_dc info.car_key
    pub short : length (line_text info) < 65536

  word_byte : (c : ℕ) → 65 ≤ c → IsWordByte c
  word_byte c h = (λ e. omega arith, (λ e. omega arith, (λ e. omega arith, λ e. omega arith)))

  -- what each byte of a word satisfies, and a colon too
  dc_text-All :
      (P : ℕ → Type 0)
      → ((c : ℕ) → IsWordByte c → P c)
      → P 58
      → (is_dc : Bool) (key : Uuid) → KeyIsRead is_dc key
      → All P (dc_text is_dc key)
  dc_text-All P word colon true key k = (
    word 68 (word_byte 68 (omega arith)),
    (word 67 (word_byte 67 (omega arith)), (colon, All-imp IsWordByte P (print_uuid key) word k.0)),
  )
  dc_text-All P word colon false key k =
      (word 67 (word_byte 67 (omega arith)), (word 67 (word_byte 67 (omega arith)), tt))

  line_text-All :
      (P : ℕ → Type 0)
      → ((c : ℕ) → IsWordByte c → P c)
      → ((c : ℕ) → IsDigit c → P c)
      → P 58
      → P 32
      → (info : Info) → CanBeWritten info
      → All P (line_text info)
  line_text-All P word digit colon space info can =
      All-append P (decimal info.sid) _
        (All-imp IsDigit P (decimal info.sid) digit (decimal_digits-AllIsDigit _ info.sid))
        (
          space,
          All-append P info.seal_type _ (All-imp IsWordByte P info.seal_type word can.word)
              (space, dc_text-All P word colon info.is_dc info.car_key can.key),
        )

  differs_digit : (d : ℕ) → d < 48 → (c : ℕ) → IsDigit c → c ≢ d
  unfolding IsDigit
  differs_digit d h c i e = omega (arith, i.0)

  line_text-split :
      (info : Info)
      → CanBeWritten info
      → split 32 (line_text info)
        ≡ decimal info.sid ∷ info.seal_type ∷ dc_text info.is_dc info.car_key ∷ []
  line_text-split info can =
      split_next 32 (decimal info.sid) _ (
        All-imp IsDigit (λ c. c ≢ 32) (decimal info.sid) (differs_digit 32 (omega arith))
          (decimal_digits-AllIsDigit _ info.sid))
      ∙ ap (◌∷◌ (decimal info.sid)) (
          split_next 32 info.seal_type _
            (All-imp IsWordByte (λ c. c ≢ 32) info.seal_type (λ c w. w.1.1.0) can.word)
          ∙ ap (◌∷◌ info.seal_type) (
              split_last 32 (dc_text info.is_dc info.car_key) (
                dc_text-All (λ c. c ≢ 32) (λ c w. w.1.1.0) (λ e. omega arith) info.is_dc
                  info.car_key can.key)))

  parse_dc-dc_text :
      (is_dc : Bool) (key : Uuid)
      → KeyIsRead is_dc key
      → parse_dc Uuid no_key parse_uuid (dc_text is_dc key) ≡ ok (is_dc, key)
  unfolding parse_dc parse_car_key bytes_eq
  parse_dc-dc_text true key k = rw parts (rw k.1 refl)
    where
      parts : split 58 (dc_text true key) ≡ (68 ∷ 67 ∷ []) ∷ print_uuid key ∷ []
      parts =
          split_next 58 (68 ∷ 67 ∷ []) (print_uuid key) (λ e. omega arith, (λ e. omega arith, tt))
          ∙ ap (◌∷◌ (68 ∷ 67 ∷ [])) (
              split_last 58 (print_uuid key)
                (All-imp IsWordByte (λ c. c ≢ 58) (print_uuid key) (λ c w. w.1.1.1) k.0))
  parse_dc-dc_text false key k =
      rw (split_last 58 (67 ∷ 67 ∷ []) (λ e. omega arith, (λ e. omega arith, tt))) (rw k refl)

  parse_line-line_text :
      (info : Info)
      → CanBeWritten info
      → parse_line Uuid no_key parse_uuid (line_text info) ≡ ok info
  unfolding parse_line
  parse_line-line_text info can =
      rw (line_text-split info can)
        (rw number (rw (parse_dc-dc_text info.is_dc info.car_key can.key) refl))
    where
      number : parse_sid (decimal info.sid) ≡ ok info.sid
      number =
          parse_sid-digits (decimal info.sid) info.sid
            (decimal_digits-Starts _ info.sid (omega arith)) can.sid_bound
            (digits-decimal_digits _ info.sid (omega arith))

  no_end :
      (d : ℕ)
      → d < 16
      → (info : Info) → CanBeWritten info
      → ((c : ℕ) → IsWordByte c → c ≢ d)
      → All (λ c. c ≢ d) (line_text info)
  no_end d h info can word =
      line_text-All (λ c. c ≢ d) word (differs_digit d (omega arith)) (λ e. omega arith)
        (λ e. omega arith) info can

  file_text-split :
      (infos : List Info)
      → All CanBeWritten infos
      → split 10 (file_text infos) ≡ map line_text infos ++ [] ∷ []
  unfolding file_text split
  file_text-split [] h = refl
  file_text-split (info ∷ infos) h =
      split_next 10 (line_text info) (file_text infos)
        (no_end 10 (omega arith) info h.0 (λ c w. w.0))
      ∙ ap (◌∷◌ (line_text info)) (file_text-split infos h.1)

  read_lines-map :
      (infos : List Info)
      → All CanBeWritten infos
      → read_lines Uuid no_key parse_uuid (map line_text infos) ≡ ok infos
  unfolding read_lines
  read_lines-map [] h = refl
  read_lines-map (info ∷ infos) h = rw fits (
      rw not_blank
        (rw whole (rw (parse_line-line_text info h.0) (rw (read_lines-map infos h.1) refl))))
    where
      fits : ltb (length (line_text info)) 65536 ≡ true
      fits = ground (arith, h.0.short)

      not_blank : is_blank (line_text info) ≡ false
      not_blank =
          Starts-is_blank (line_text info)
            (Starts-append (decimal info.sid) _ (decimal_digits-Starts _ info.sid (omega arith)))

      whole : drop_cr (line_text info) ≡ line_text info
      whole = drop_cr-none (line_text info) (no_end 13 (omega arith) info h.0 (λ c w. w.1.0))

  -- A file with a line for each sector is read back as the sectors, in their order, where each
  -- fits in a line: its number in 63 bits, its words without separators, its key as the parser of
  -- UUIDs reads it, and the line in the buffer.
  pub read_sector_seal_infos-file_text :
      (infos : List Info)
      → All CanBeWritten infos
      → read_sector_seal_infos Uuid no_key parse_uuid (file_text infos) ≡ ok infos
  unfolding read_sector_seal_infos
  read_sector_seal_infos-file_text infos h =
      ap (λ ls. read_lines Uuid no_key parse_uuid (without_last_empty ls)) (file_text-split infos h)
      ∙ ap (read_lines Uuid no_key parse_uuid) (without_last_empty-snoc (map line_text infos))
      ∙ read_lines-map infos h
