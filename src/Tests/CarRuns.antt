-- ===== src/Tests/CarRuns.antt =====
-- The theorem about the reader of many parts at a concrete input.
use txcartool.Common.{
  ◌+◌, ◌≡◌, refl, none, some, List, [], ◌∷◌, Bytes, failed, length, take, drop, if◌then◌else◌, ◌==◌,
  leb, arith,
}
use txcartool.Car.{ReaderAtSize, new_multi_reader_at, read_at, unexpected_eof}
use txcartool.Car.Slices.{Serves, AllServe, concat}
use txcartool.Car.Reads.{read_at-slice}

-- a part in memory
abbrev in_memory : Bytes → ReaderAtSize
in_memory d = record {
  size = length d;
  read_at = λ count off.
      if leb (off + count) (length d)
      then (take count (drop off d), none)
      else ([], some (failed []));
}

in_memory-Serves : (d : Bytes) → Serves (in_memory d) d
in_memory-Serves d = record { has_size = refl; read_works = λ count off h l. ground arith }

abbrev front : Bytes
front = 1 ∷ 2 ∷ 3 ∷ []

abbrev back : Bytes
back = 4 ∷ 5 ∷ []

abbrev parts : List ReaderAtSize
parts = in_memory front ∷ in_memory back ∷ []

parts-AllServe : AllServe parts (front ∷ back ∷ [])
unfolding AllServe
parts-AllServe = (in_memory-Serves front, (in_memory-Serves back, tt))

read_at-slice_example :
    read_at 3 (new_multi_reader_at parts) 3 1
    ≡ some (
      take 3 (drop 1 (concat (front ∷ back ∷ []))),
      if length (take 3 (drop 1 (concat (front ∷ back ∷ [])))) == 3
          then none
          else some unexpected_eof,
    )
read_at-slice_example = read_at-slice parts (front ∷ back ∷ []) 2 3 1 parts-AllServe (omega arith)
