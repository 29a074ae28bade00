-- ===== src/Pieces/Segments/Chunks.antt =====
-- The entries of a piece of data segments in lib/boost/piecedirectory/piecedirectory.go are validated
-- in chunks, and none is lost or taken twice.
use txcartool.Common.{
  ℕ, zero, suc, ◌-◌, ◌*◌, ◌/◌, ◌≤◌, ◌≡◌, refl, sym, ap, ◌∙◌, Option, none, some, List, [], ◌∷◌,
  ◌++◌, Error, length, take, drop, drop-drop, Result, ok, err, panic, arith,
}
use mathlib.Core.List.{append-nil}
use native.Mathlib.Nat.{suc-mul}
use txcartool.Pieces.Segments.{
  Verdict, Packages, concurrency, chunks_from, keep_valid, validate_entries, add_result, collect,
  wait, valid_segments,
}

module _ {D : Type 0} where
  take-drop : (n : ℕ) (xs : List D) → take n xs ++ drop n xs ≡ xs
  take-drop zero xs = refl
  take-drop (suc n) [] = refl
  take-drop (suc n) (x ∷ xs) = ap (◌∷◌ x) (take-drop n xs)

  take-length : (n : ℕ) (xs : List D) → n ≡ length xs → take n xs ≡ xs
  take-length zero [] h = refl
  take-length (suc n) [] h = refl
  take-length zero (x ∷ xs) h = absurd (omega arith)
  take-length (suc n) (x ∷ xs) h = ap (◌∷◌ x) (take-length n xs (omega arith))

  length-drop : (n : ℕ) (xs : List D) → length xs - n ≡ length (drop n xs)
  length-drop zero xs = omega arith
  length-drop (suc n) [] = omega arith
  length-drop (suc n) (x ∷ xs) = omega (arith, length-drop n xs)

  abbrev flatten : List (List D) → List D
  flatten [] = []
  flatten (chunk ∷ chunks) = chunk ++ flatten chunks

  flatten-chunks_from :
      (entries : List D) (chunk_size i left : ℕ)
      → flatten (chunks_from entries chunk_size i (suc left)) ≡ drop (i * chunk_size) entries
  unfolding chunks_from
  flatten-chunks_from entries chunk_size i zero =
      append-nil _ ∙ take-length _ _ (length-drop (i * chunk_size) entries)
  flatten-chunks_from entries chunk_size i (suc left) =
      ap (λ xs. take chunk_size (drop (i * chunk_size) entries) ++ xs)
        (flatten-chunks_from entries chunk_size (suc i) left
          ∙ ap (λ k. drop k entries) (suc-mul i chunk_size)
          ∙ sym (drop-drop chunk_size (i * chunk_size) entries))
      ∙ take-drop chunk_size (drop (i * chunk_size) entries)

whole_chunks :
    {D : Type 0} (entries : List D) (chunk_size n : ℕ)
    → 1 ≤ n
    → flatten (chunks_from entries chunk_size 0 n) ≡ entries
whole_chunks entries chunk_size zero h = absurd (omega arith)
whole_chunks entries chunk_size (suc left) h =
    flatten-chunks_from entries chunk_size 0 left
    ∙ ap (λ k. drop k entries) {x = 0 * chunk_size} {y = 0} (omega arith)

concurrency_zero : (num_cpu : ℕ) → concurrency num_cpu 0 ≡ 0
unfolding concurrency
concurrency_zero num_cpu = ground arith

concurrency_pos : (num_cpu count : ℕ) → 1 ≤ count → 1 ≤ concurrency num_cpu count
unfolding concurrency
concurrency_pos num_cpu count h = ground arith

abbrev pub to_option {ℓ} : {A : Type ℓ} → Result A → Option A
to_option (ok a) = some a
to_option (err e) = none
to_option panic = none

module _ {D R B : Type 0} (p : Packages D R B) where
  -- what an earlier part of the entries leaves to a later one
  abbrev both : Option (List D) → Option (List D) → Option (List D)
  both none o = none
  both (some xs) none = none
  both (some xs) (some ys) = some (xs ++ ys)

  abbrev keep_option : D → Verdict → Option (List D) → Option (List D)
  keep_option e Verdict.valid none = none
  keep_option e Verdict.valid (some res) = some (e ∷ res)
  keep_option e Verdict.invalid o = o
  keep_option e (Verdict.unknown x) o = none

  keep_valid-option :
      (e : D) (v : Verdict) (r : Result (List D))
      → to_option (keep_valid p e v r) ≡ keep_option e v (to_option r)
  keep_valid-option e Verdict.valid (ok res) = refl
  keep_valid-option e Verdict.valid (err x) = refl
  keep_valid-option e Verdict.valid panic = refl
  keep_valid-option e Verdict.invalid r = refl
  keep_valid-option e (Verdict.unknown x) r = refl

  keep_option-both :
      (e : D) (v : Verdict) (a b : Option (List D))
      → keep_option e v (both a b) ≡ both (keep_option e v a) b
  keep_option-both e Verdict.valid none b = refl
  keep_option-both e Verdict.valid (some xs) none = refl
  keep_option-both e Verdict.valid (some xs) (some ys) = refl
  keep_option-both e Verdict.invalid a b = refl
  keep_option-both e (Verdict.unknown x) a b = refl

  both-nothing : (o : Option (List D)) → o ≡ both (some []) o
  both-nothing none = refl
  both-nothing (some xs) = refl

  validate_entries-append :
      (xs ys : List D)
      → to_option (validate_entries p (xs ++ ys))
        ≡ both (to_option (validate_entries p xs)) (to_option (validate_entries p ys))
  unfolding validate_entries
  validate_entries-append [] ys = both-nothing _
  validate_entries-append (e ∷ xs) ys =
      keep_valid-option e (p.validate e) (validate_entries p (xs ++ ys))
      ∙ ap (keep_option e (p.validate e)) (validate_entries-append xs ys)
      ∙ keep_option-both e (p.validate e) _ _
      ∙ ap (λ o. both o (to_option (validate_entries p ys)))
          (sym (keep_valid-option e (p.validate e) (validate_entries p xs)))

  NoPanic : Result (List D) → Type 0
  NoPanic (ok a) = Unit
  NoPanic (err e) = Unit
  NoPanic panic = ⊥

  validate_entries-NoPanic : (xs : List D) → NoPanic (validate_entries p xs)
  unfolding validate_entries NoPanic
  validate_entries-NoPanic [] = tt
  validate_entries-NoPanic (e ∷ xs) =
      kept (p.validate e) (validate_entries p xs) (validate_entries-NoPanic xs)
    where
      kept : (v : Verdict) (r : Result (List D)) → NoPanic r → NoPanic (keep_valid p e v r)
      kept Verdict.valid (ok a) h = tt
      kept Verdict.valid (err x) h = tt
      kept Verdict.valid panic h = absurd h
      kept Verdict.invalid r h = h
      kept (Verdict.unknown x) r h = tt

  add_result-both :
      (r : Result (List D)) (c : List Error × List D)
      → NoPanic r
      → to_option (wait p (add_result p r c)) ≡ both (to_option r) (to_option (wait p c))
  unfolding NoPanic
  add_result-both (ok res) ([], all) h = refl
  add_result-both (ok res) (x ∷ es, all) h = refl
  add_result-both (err e) (es, all) h = refl
  add_result-both panic c h = absurd h

  collect-flatten :
      (chunks : List (List D))
      → to_option (wait p (collect p chunks)) ≡ to_option (validate_entries p (flatten chunks))
  unfolding collect validate_entries
  collect-flatten [] = refl
  collect-flatten (chunk ∷ chunks) =
      add_result-both (validate_entries p chunk) (collect p chunks) (validate_entries-NoPanic chunk)
      ∙ ap (both (to_option (validate_entries p chunk))) (collect-flatten chunks)
      ∙ sym (validate_entries-append chunk (flatten chunks))

  -- Whatever the processors and the count of the entries, the validation in chunks that run side
  -- by side gives the valid entries that one pass over all entries gives, in their order, and
  -- gives an error exactly if that gives one.
  pub valid_segments-validate_entries :
      (entries : List D)
      → to_option (valid_segments p entries) ≡ to_option (validate_entries p entries)
  unfolding valid_segments
  valid_segments-validate_entries [] =
      rw (concurrency_zero p.num_cpu) (unfold chunks_from collect in refl)
  valid_segments-validate_entries (e ∷ entries) =
      collect-flatten
        (chunks_from (e ∷ entries) size 0 (concurrency p.num_cpu (length (e ∷ entries))))
      ∙ ap (λ es. to_option (validate_entries p es))
          (whole_chunks (e ∷ entries) size (concurrency p.num_cpu (length (e ∷ entries)))
            (concurrency_pos p.num_cpu (length (e ∷ entries)) (omega arith)))
    where
      size : ℕ
      size = length (e ∷ entries) / concurrency p.num_cpu (length (e ∷ entries))
