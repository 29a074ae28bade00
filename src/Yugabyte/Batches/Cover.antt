-- ===== src/Yugabyte/Batches/Cover.antt =====
-- That the batches of all goroutines are the records, each once and in their order.
use txcartool.Common.{
  ℕ, zero, suc, ◌≤◌, ◌<◌, ◌≡◌, refl, ap, ◌∙◌, List, [], ◌∷◌, ◌++◌, ◌==◌, length, take, drop, concat,
  All, append_assoc, append_nil, concat-append, take-append-drop, length-drop, length-append,
  Bool-cases, inl, inr, arith, All-append,
}
use txcartool.Yugabyte.Batches.{thread_batch, slices, batches, slices_batches, threads}

thread_batch_pos : (c n : ℕ) → 0 < n → 0 < thread_batch c n
unfolding thread_batch
thread_batch_pos c n h = ground arith

module _ {ℓ} {A : Type ℓ} where
  -- A batch has records, and not more than the limit.
  abbrev pub Fits : ℕ → List A → Type 0
  Fits size b = (0 < length b) × (length b ≤ size)

  concat-slices :
      (fuel t : ℕ) (recs : List A) → 0 < t → length recs ≤ fuel → concat (slices fuel t recs) ≡ recs
  unfolding slices
  concat-slices zero t [] h k = refl
  concat-slices zero t (r ∷ recs) h k = absurd (omega arith)
  concat-slices (suc fuel) t [] h k = refl
  concat-slices (suc fuel) t (r ∷ recs) h k =
      ap (◌++◌ (take t (r ∷ recs)))
        (concat-slices fuel t (drop t (r ∷ recs)) h (omega (arith, length-drop t (r ∷ recs))))
      ∙ take-append-drop t (r ∷ recs)

  concat-batches :
      (size : ℕ) (batch : List A) (r : A) (recs : List A)
      → concat (batches size batch (r ∷ recs)) ≡ batch ++ r ∷ recs
  unfolding batches
  concat-batches size batch r [] = append_nil (batch ++ r ∷ [])
  concat-batches size batch r (q ∷ recs) =
      let sent = concat-batches size [] q recs in
      let kept = concat-batches size (batch ++ r ∷ []) q recs in
      elim (Bool-cases (length (batch ++ r ∷ []) == size)) [
        | inl e ↦ rw e (ap (◌++◌ (batch ++ r ∷ [])) sent ∙ append_assoc batch (r ∷ []) (q ∷ recs))
        | inr e ↦ rw e (kept ∙ append_assoc batch (r ∷ []) (q ∷ recs))
      ]

  Fits-batches :
      (size : ℕ) (batch recs : List A)
      → length batch < size
      → All (Fits size) (batches size batch recs)
  unfolding batches
  Fits-batches size batch [] h = tt
  Fits-batches size batch (r ∷ []) h = (
    (omega (arith, length-append batch (r ∷ [])), omega (arith, length-append batch (r ∷ []))),
    tt,
  )
  Fits-batches size batch (r ∷ q ∷ recs) h =
      let sent = Fits-batches size [] (q ∷ recs) in
      let kept = Fits-batches size (batch ++ r ∷ []) (q ∷ recs) in
      let n = length-append batch (r ∷ []) in
      elim (Bool-cases (length (batch ++ r ∷ []) == size)) [
        | inl e ↦ rw e (((omega (arith, n)), omega (arith, n)), sent (omega (arith, h)))
        | inr e ↦ rw e (kept (ground (arith, n)))
      ]

  slices_batches-concat :
      (size : ℕ) (sls : List (List A)) → concat (concat (slices_batches size sls)) ≡ concat sls
  unfolding batches
  slices_batches-concat size [] = refl
  slices_batches-concat size ([] ∷ sls) = slices_batches-concat size sls
  slices_batches-concat size ((r ∷ sl) ∷ sls) =
      concat-append (batches size [] (r ∷ sl)) (concat (slices_batches size sls))
      ∙ rw (concat-batches size [] r sl) (ap (◌++◌ (r ∷ sl)) (slices_batches-concat size sls))

  slices_batches-Fits :
      (size : ℕ) (sls : List (List A))
      → 0 < size
      → All (Fits size) (concat (slices_batches size sls))
  unfolding batches
  slices_batches-Fits size [] h = tt
  slices_batches-Fits size (sl ∷ sls) h =
      All-append (Fits size) (batches size [] sl) (concat (slices_batches size sls))
        (Fits-batches size [] sl h) (slices_batches-Fits size sls h)

  pub concat-threads : (c size : ℕ) (recs : List A) → concat (concat (threads c size recs)) ≡ recs
  unfolding threads slices
  concat-threads c size [] = refl
  concat-threads c size (r ∷ recs) =
      let n = length (r ∷ recs) in
      slices_batches-concat size (slices n (thread_batch c n) (r ∷ recs))
      ∙ concat-slices n (thread_batch c n) (r ∷ recs) (thread_batch_pos c n (omega arith))
          (omega arith)

  Fits-threads :
      (c size : ℕ) (recs : List A) → 0 < size → All (Fits size) (concat (threads c size recs))
  unfolding threads
  Fits-threads c size recs h =
      slices_batches-Fits size (slices (length recs) (thread_batch c (length recs)) recs) h

  -- Whatever the number of goroutines, the batches that they send are together the records, each
  -- once and in their order, and each batch has one record at least and no more than the limit,
  -- where that is not 0.
  pub threads_lem :
      (c size : ℕ) (recs : List A)
      → 0 < size
      → (concat (concat (threads c size recs)) ≡ recs)
        × All (Fits size) (concat (threads c size recs))
  threads_lem c size recs h = (concat-threads c size recs, Fits-threads c size recs h)
