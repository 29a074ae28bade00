-- ===== src/Pieces/Blockstore/Offsets.antt =====
-- The reader that `GetBlockstore` of lib/boost/piecedirectory/piecedirectory.go puts together keeps
-- the offsets of the piece.
use txcartool.Common.{
  ℕ, ◌+◌, ◌-◌, ◌≤◌, ◌<◌, ◌≡◌, refl, sym, ap, ◌∙◌, true, false, none, some, [], ◌∷◌, ◌++◌, List,
  Bytes, ltb, leb, ◌==◌, length, take, drop, replicate, drop-drop, take-drop-take, length-replicate,
  arith, ◌⊎◌, inl, inr,
}
use mathlib.Core.List.{append-nil}
use txcartool.Car.{ReaderAtSize, read_at}
use txcartool.Car.Slices.{Serves, AllServe, concat, length-take, length-drop, drop_beyond}
use txcartool.Car.Reads.{read_at-slice}
use txcartool.Pieces.Blockstore.{bytes_reader, section_reader, CarPackages, payload_reader}

pub bytes_reader-Serves : (d : Bytes) → 1 ≤ length d → Serves (bytes_reader d) d
unfolding bytes_reader
bytes_reader-Serves d h = record {
  has_size = refl;
  read_works = λ count off le live. reads count off le live;
}
  where
    reads :
        (count off : ℕ)
        → off + count ≤ length d
        → (off < length d) ⊎ (length d ≡ 0)
        → (bytes_reader d).read_at count off ≡ (take count (drop off d), none)
    reads count off le (inl inside) =
        let a : leb (length d) off ≡ false = ground arith in
        let b : ltb (length d - off) count ≡ false = ground arith in rw (a, b) refl
    reads count off le (inr empty) = absurd (omega arith)

section_reader-Serves :
    (r : ReaderAtSize) (whole : Bytes) (base n : ℕ)
    → Serves r whole
    → 1 ≤ n
    → base + n ≤ length whole
    → Serves (section_reader r base n) (take n (drop base whole))
unfolding section_reader
section_reader-Serves r whole base n serves pos fits = record {
  has_size = sym size_eq;
  read_works = λ count off le live. reads count off (omega (arith, size_eq)) (inside off live);
}
  where
    size_eq : length (take n (drop base whole)) ≡ n
    size_eq = length-take n (drop base whole) (omega (arith, length-drop base whole))

    inside :
        (off : ℕ)
        → (off < length (take n (drop base whole))) ⊎ (length (take n (drop base whole)) ≡ 0)
        → off < n
    inside off (inl lt) = omega (arith, size_eq)
    inside off (inr empty) = omega (arith, size_eq)

    reads :
        (count off : ℕ)
        → off + count ≤ n
        → off < n
        → (section_reader r base n).read_at count off
          ≡ (take count (drop off (take n (drop base whole))), none)
    reads count off le lt =
        let a : leb n off ≡ false = ground arith in
        let b : ltb (n - off) count ≡ false = ground arith in
        rw (a, b)
          (serves.read_works count (base + off) (omega arith) (inl (omega arith))
            ∙ ap (λ (bs : Bytes). (bs, none))
                (ap (take count) (sym (drop-drop off base whole))
                  ∙ sym (take-drop-take count off n (drop base whole) le)))

module _ {I H S' : Type 0} (p : CarPackages I H S') (reader : ReaderAtSize) (whole : Bytes)
    (serves : Serves reader whole) where
  -- Where a reader reads the piece, and the payload of a CARv2 lies in the piece behind a header
  -- of its own and is longer than the CARv1 header that it begins with: a read behind that header
  -- and within the payload gives what the piece has at the same offset, all that is wanted and no
  -- error.
  pub payload_reader-read_at :
      (data_offset data_size : ℕ) (header : Bytes) (want off : ℕ)
      → 1 ≤ data_offset
      → 1 ≤ length header
      → length header < data_size
      → data_offset + data_size ≤ length whole
      → data_offset + length header ≤ off
      → off + want ≤ data_offset + data_size
      → read_at 4 (payload_reader p reader data_offset data_size header) want off
        ≡ some (take want (drop off whole), none)
  unfolding payload_reader concat AllServe
  payload_reader-read_at data_offset data_size header want off dpos hpos hshort fits behind within =
      read_at-slice readers contents 3 want off all_serve (omega arith) ∙ rw (slice, full) refl
    where
      zeros : Bytes
      zeros = replicate data_offset 0

      base : ℕ
      base = data_offset + length header

      payload : Bytes
      payload = take (data_size - length header) (drop base whole)

      readers : List ReaderAtSize
      readers =
          bytes_reader header
          ∷ bytes_reader zeros
          ∷ section_reader reader base (data_size - length header)
          ∷ []

      contents : List Bytes
      contents = header ∷ zeros ∷ payload ∷ []

      zeros_length : length zeros ≡ data_offset
      zeros_length = length-replicate data_offset 0

      all_serve : AllServe readers contents
      all_serve = (
        bytes_reader-Serves header hpos,
        (
          bytes_reader-Serves zeros (omega (arith, zeros_length)),
          (
            section_reader-Serves reader whole base (data_size - length header) serves (omega arith)
                (omega arith),
            tt,
          ),
        ),
      )

      -- the offset in the payload behind its header
      inner : ℕ
      inner = off - length header - length zeros

      skipped : drop off (concat contents) ≡ drop inner payload
      skipped =
          drop_beyond off header (zeros ++ (payload ++ [])) (omega arith)
          ∙ drop_beyond (off - length header) zeros (payload ++ []) (omega (arith, zeros_length))
          ∙ ap (drop inner) (append-nil payload)

      slice : take want (drop off (concat contents)) ≡ take want (drop off whole)
      slice =
          ap (take want) skipped
          ∙ take-drop-take want inner (data_size - length header) (drop base whole)
              (omega (arith, zeros_length))
          ∙ ap (take want) (drop-drop inner base whole)
          ∙ ap (λ k. take want (drop k whole)) (omega (arith, zeros_length))

      full : (length (take want (drop off whole)) == want) ≡ true
      full =
          let exact : length (take want (drop off whole)) ≡ want =
            length-take want (drop off whole) (omega (arith, length-drop off whole)) in
          ground arith
