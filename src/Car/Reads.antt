-- ===== src/Car/Reads.antt =====
-- A read of lib/boost/car/multi_reader_at.go, part by part.
use txcartool.Common.{
  ℕ, zero, suc, ◌+◌, ◌-◌, ◌≤◌, ◌<◌, ◌≡◌, ◌≢◌, refl, sym, ap, ◌∙◌, true, false, Option, none, some,
  List, [], ◌∷◌, ◌++◌, Bytes, Error, ltb, ◌==◌, if◌then◌else◌, length, take, drop, arith,
  Bool-cases, ◌⊎◌, inl, inr,
}
use mathlib.Core.List.{append-nil}
use txcartool.Car.{
  ReaderAtSize, ReaderAtOffset, place_parts, new_multi_reader_at, skip_parts, unexpected_eof, after,
  one_round, read_parts, first_off, read_at,
}
use txcartool.Car.Slices.{
  Serves, AllServe, concat, length-take, length-drop, take-all, take_within, take_beyond,
  drop_within, drop_beyond,
}

module _ (fuel : ℕ) (p : ReaderAtSize) (off : ℕ) (parts : List ReaderAtOffset) (d : Bytes)
    (k want : ℕ) (serves : Serves p d) (inside : k ≤ length d)
    (live : (k < length d) ⊎ (length d ≡ 0)) where
  abbrev here : ReaderAtOffset
  here = record { off = off; reader = p }

  abbrev count : ℕ
  count = if ltb (p.size - k) want then p.size - k else want

  read_nothing : want ≡ 0 → read_parts (suc fuel) (here ∷ parts) want k ≡ some ([], none)
  unfolding read_parts
  read_nothing e = rw e

  -- the rest of the part is wanted
  read_rest :
      want ≢ 0
      → length d - k ≤ want
      → read_parts (suc fuel) (here ∷ parts) want k
        ≡ after (drop k d) (read_parts fuel parts (want - (length d - k)) 0)
  unfolding read_parts
  read_rest nz h = rw nonzero (rw read_eq (unfold one_round in rw at_end (rw (length-drop k d))))
    where
      read_eq : p.read_at count k ≡ (drop k d, none)
      read_eq =
          ap (λ c. p.read_at c k) (count_eq ∙ refl)
          ∙ serves.read_works (length d - k) k (omega (arith, inside)) live
          ∙ ap (λ (b : Bytes). (b, none)) (take-all (drop k d) (length d - k) (length-drop k d))
        where
          count_eq : count ≡ length d - k
          count_eq = ground (arith, serves.has_size, h)

      nonzero : (want == 0) ≡ false
      nonzero = ground arith

      at_end : (length (drop k d) + k == p.size) ≡ true
      at_end = ground (arith, serves.has_size, length-drop k d, inside)

  -- all that is wanted is in the part
  read_part :
      want ≢ 0
      → want < length d - k
      → read_parts (suc fuel) (here ∷ parts) want k
        ≡ after (take want (drop k d)) (read_parts fuel (here ∷ parts) 0 0)
  unfolding read_parts
  read_part nz h = rw nonzero (
      rw read_eq (
        unfold one_round in
        rw not_end
          (rw (length-take want (drop k d) (omega (arith, length-drop k d, h)), self_minus))))
    where
      count_eq : count ≡ want
      count_eq = ground (arith, serves.has_size, h)

      read_eq : p.read_at count k ≡ (take want (drop k d), none)
      read_eq =
          ap (λ c. p.read_at c k) count_eq
          ∙ serves.read_works want k (omega (arith, inside, h)) live

      nonzero : (want == 0) ≡ false
      nonzero = ground arith

      not_end : (length (take want (drop k d)) + k == p.size) ≡ false
      not_end = ground (
        arith,
        serves.has_size,
        inside,
        h,
        length-take want (drop k d) (omega (arith, length-drop k d, h)),
      )

      self_minus : want - want ≡ 0
      self_minus = omega arith

some_or_none : (d : Bytes) → (0 < length d) ⊎ (length d ≡ 0)
some_or_none [] = inr refl
some_or_none (b ∷ d) = inl (omega arith)

-- From `k` on in a part, and on through the parts behind it, which are read by `behind`.
read_here :
    (fuel b : ℕ) (p : ReaderAtSize) (parts : List ReaderAtOffset) (d ds : Bytes) (k want : ℕ)
    → Serves p d
    → k ≤ length d
    → (k < length d) ⊎ (length d ≡ 0)
    → ((more : ℕ) → read_parts (suc fuel) parts more 0 ≡ some (take more ds, none))
    → read_parts (suc (suc fuel)) (record { off = b; reader = p } ∷ parts) want k
      ≡ some (take want (drop k d ++ ds), none)
read_here fuel b p parts d ds k want serves inside live behind = elim (Bool-cases (want == 0)) [
  | inl nothing ↦
      let zero_want : want ≡ 0 = ground arith in
      read_nothing (suc fuel) p b parts d k want serves inside live zero_want ∙ rw zero_want
  | inr some_want ↦ elim (Bool-cases (ltb want (length d - k))) [
    | inl short ↦
        let less : want < length d - k = ground arith in
        read_part (suc fuel) p b parts d k want serves inside live (λ e. ground arith) less
        ∙ ap (after (take want (drop k d)))
            (read_nothing fuel p b parts d 0 0 serves (omega arith) (some_or_none d) refl)
        ∙ ap (λ (bs : Bytes). found bs)
            (append-nil (take want (drop k d))
              ∙ sym (take_within want (drop k d) ds (omega (arith, less, length-drop k d))))
    | inr long ↦
        let more : length d - k ≤ want = ground arith in
        read_rest (suc fuel) p b parts d k want serves inside live (λ e. ground arith) more
        ∙ ap (after (drop k d)) (behind (want - (length d - k)))
        ∙ ap (λ (bs : Bytes). found bs)
            (ap (λ n. drop k d ++ take (want - n) ds) (sym (length-drop k d))
              ∙ sym (take_beyond want (drop k d) ds (omega (arith, more, length-drop k d))))
  ]
]
  where
    found : Bytes → Option (Bytes × Option Error)
    found bs = some (bs, none)

take_none : (n : ℕ) → ◌≡◌ {A = Bytes} [] (take n [])
take_none zero = refl
take_none (suc n) = refl

take_drop_none : (n m : ℕ) → ◌≡◌ {A = Bytes} [] (take n (drop m []))
take_drop_none n zero = take_none n
take_drop_none n (suc m) = take_none n

-- All parts, from the start of the first on.
read_all :
    (parts : List ReaderAtSize) (ds : List Bytes) (fuel b want : ℕ)
    → AllServe parts ds
    → length parts ≤ fuel
    → read_parts (suc fuel) (place_parts b parts).0 want 0 ≡ some (take want (concat ds), none)
unfolding place_parts AllServe concat
read_all [] [] fuel b want h e =
    unfold read_parts in ap (λ (bs : Bytes). some (bs, none)) (take_none want)
read_all [] (d ∷ ds) fuel b want h e = absurd h
read_all (p ∷ parts) [] fuel b want h e = absurd h
read_all (p ∷ parts) (d ∷ ds) zero b want h e = absurd (omega arith)
read_all (p ∷ parts) (d ∷ ds) (suc fuel) b want h e =
    read_here fuel b p (place_parts (b + p.size) parts).0 d (concat ds) 0 want h.0 (omega arith)
      (some_or_none d) (λ more. read_all parts ds fuel (b + p.size) more h.1 (omega arith))

-- The parts from the one with the offset on.
read_skipped :
    (parts : List ReaderAtSize) (ds : List Bytes) (fuel b off want : ℕ)
    → AllServe parts ds
    → length parts ≤ fuel
    → b ≤ off
    → read_parts
        (suc fuel)
        (skip_parts off (place_parts b parts).0)
        want
        (off - first_off (skip_parts off (place_parts b parts).0))
      ≡ some (take want (drop (off - b) (concat ds)), none)
unfolding place_parts AllServe concat skip_parts
read_skipped [] [] fuel b off want h e le =
    unfold read_parts in ap (λ (bs : Bytes). some (bs, none)) (take_drop_none want (off - b))
read_skipped [] (d ∷ ds) fuel b off want h e le = absurd h
read_skipped (p ∷ parts) [] fuel b off want h e le = absurd h
read_skipped (p ∷ parts) (d ∷ ds) zero b off want h e le = absurd (omega arith)
read_skipped (p ∷ parts) (d ∷ ds) (suc fuel) b off want h e le =
    elim (Bool-cases (ltb off (b + p.size))) [
      | inl here ↦ rw here (
          read_here fuel b p (place_parts (b + p.size) parts).0 d (concat ds) (off - b) want h.0
            (within here) (inl (inside here))
            (λ more. read_all parts ds fuel (b + p.size) more h.1 (omega arith))
          ∙ ap (λ (bs : Bytes). some (take want bs, none))
              (sym (drop_within (off - b) d (concat ds) (within here))))
      | inr beyond ↦ rw beyond (
          read_skipped parts ds (suc fuel) (b + p.size) off want h.1 (omega arith) (ground arith)
          ∙ ap (λ (bs : Bytes). some (take want bs, none))
              (ap (λ n. drop n (concat ds)) (omega (arith, h.0.has_size))
                ∙ sym (drop_beyond (off - b) d (concat ds) (past beyond))))
    ]
  where
    inside : ltb off (b + p.size) ≡ true → off - b < length d
    inside here = ground (arith, h.0.has_size)

    within : ltb off (b + p.size) ≡ true → off - b ≤ length d
    within here = ground (arith, h.0.has_size)

    past : ltb off (b + p.size) ≡ false → length d ≤ off - b
    past beyond = ground (arith, h.0.has_size)

-- Where every part reads its contents, a read of any count at any offset ends within as many
-- rounds as there are parts and one, and gives the slice of the contents, one after another, with
-- the error of an unexpected end exactly if the slice is shorter than what is wanted.
pub read_at-slice :
    (parts : List ReaderAtSize) (ds : List Bytes) (fuel want off : ℕ)
    → AllServe parts ds
    → length parts ≤ fuel
    → read_at (suc fuel) (new_multi_reader_at parts) want off
      ≡ some (
        take want (drop off (concat ds)),
        if length (take want (drop off (concat ds))) == want then none else some unexpected_eof,
      )
unfolding read_at new_multi_reader_at
read_at-slice parts ds fuel want off serve e =
    rw (read_skipped parts ds fuel 0 off want serve e (omega arith)) (rw same)
  where
    same : off - 0 ≡ off
    same = omega arith
