-- ===== src/Car.antt =====
-- The reader of lib/boost/car/multi_reader_at.go, which reads parts as one. The buffer is the count
-- of the bytes wanted and the bytes that are put into it; offsets are not negative.

pub mod Slices
pub mod Reads
use txcartool.Common.{
  ℕ, zero, suc, ◌+◌, ◌-◌, Bool, true, false, Option, none, some, List, [], ◌∷◌, ◌++◌, Bytes, Error,
  failed, codes, ltb, ◌==◌, if◌then◌else◌, length,
}

-- a part: its size, and the bytes of `ReadAt` for a count and an offset, with its error
pub record ReaderAtSize : Type 0 where
  pub size : ℕ
  pub read_at : ℕ → ℕ → Bytes × Option Error

pub record ReaderAtOffset : Type 0 where
  pub off : ℕ
  pub reader : ReaderAtSize

pub record MultiReaderAt : Type 0 where
  pub parts : List ReaderAtOffset
  pub size : ℕ

-- the loop of the constructor: the parts with their offsets, and the offset behind them
unfoldable pub place_parts : ℕ → List ReaderAtSize → List ReaderAtOffset × ℕ
place_parts off [] = ([], off)
place_parts off (p ∷ parts) =
    let (placed, end_off) = place_parts (off + p.size) parts in
    (record { off = off; reader = p } ∷ placed, end_off)

unfoldable pub new_multi_reader_at : List ReaderAtSize → MultiReaderAt
unfolding place_parts
new_multi_reader_at parts =
    let (placed, end_off) = place_parts 0 parts in record { parts = placed; size = end_off }

-- `sort.Search` for the first part that ends behind the offset, and the parts from it on
unfoldable pub skip_parts : ℕ → List ReaderAtOffset → List ReaderAtOffset
skip_parts off [] = []
skip_parts off (p ∷ parts) =
    let rest = skip_parts off parts in if ltb off (p.off + p.reader.size) then p ∷ parts else rest

unfoldable pub unexpected_eof : Error
unexpected_eof = failed (codes "unexpected EOF")

-- the bytes of one part before those of the parts behind it
abbrev pub after : Bytes → Option (Bytes × Option Error) → Option (Bytes × Option Error)
after bs none = none
after bs (some (more, e)) = some (bs ++ more, e)

-- One round of the loop: what is done with the bytes of a part, and how it goes on behind its end
-- and within it.
unfoldable pub one_round :
    ℕ
    → ℕ
    → (ℕ → Option (Bytes × Option Error))
    → (ℕ → Option (Bytes × Option Error))
    → Bytes × Option Error
    → Option (Bytes × Option Error)
one_round part_size need_skip next again (bs, some e) = some ([], some e)
one_round part_size need_skip next again (bs, none) =
    after bs (if length bs + need_skip == part_size then next (length bs) else again (length bs))

-- The loop over the parts, on fuel: `none` is a loop that has not ended.
unfoldable pub read_parts : ℕ → List ReaderAtOffset → ℕ → ℕ → Option (Bytes × Option Error)
read_parts zero parts want need_skip = none
read_parts (suc fuel) [] want need_skip = some ([], none)
read_parts (suc fuel) (p ∷ parts) want need_skip =
    let part_size = p.reader.size in
    let count = if ltb (part_size - need_skip) want then part_size - need_skip else want in
    let next = λ (pn : ℕ). read_parts fuel parts (want - pn) 0 in
    let again = λ (pn : ℕ). read_parts fuel (p ∷ parts) (want - pn) 0 in
    if want == 0
    then some ([], none)
    else one_round part_size need_skip next again (p.reader.read_at count need_skip)

abbrev pub first_off : List ReaderAtOffset → ℕ
first_off [] = 0
first_off (p ∷ parts) = p.off

-- the error of the end of `ReadAt`
abbrev pub finish : ℕ → Bytes × Option Error → Bytes × Option Error
finish want (bs, some e) = (bs, some e)
finish want (bs, none) = (bs, if length bs == want then none else some unexpected_eof)

abbrev pub finish_read : ℕ → Option (Bytes × Option Error) → Option (Bytes × Option Error)
finish_read want none = none
finish_read want (some r) = some (finish want r)

unfoldable pub read_at : ℕ → MultiReaderAt → ℕ → ℕ → Option (Bytes × Option Error)
read_at fuel m want off =
    let parts = skip_parts off m.parts in
    finish_read want (read_parts fuel parts want (off - first_off parts))
