-- ===== src/Yugabyte/Batches.antt =====
-- How `addMultihashesToPieces` and `addPieceInfos` of lib/boostd-data/yugabyte/service.go split their
-- records: into slices, one for each goroutine, and a slice into batches. The goroutines run at the
-- same time, so their batches reach the database in an order that a schedule gives.
pub mod Cover
pub mod Order
use txcartool.Common.{
  continue, ◌>>=◌, ◌>>◌, ℕ, zero, suc, ◌+◌, ◌-◌, ◌/◌, Bool, true, false, ◌||◌, Option, none, some,
  List, [], ◌∷◌, ◌++◌, Result, ok, err, panic, Error, Exec, if◌then◌else◌, ◌==◌, ltb, leb, length,
  take, drop, set, get_elem?,
}

-- `threadBatch`, the length of a slice
unfoldable pub thread_batch : ℕ → ℕ → ℕ
thread_batch insert_concurrency n = let t = n / insert_concurrency in if t == 0 then n else t

module _ {ℓ} {A : Type ℓ} where
  -- `recs[i:j]` for each `i`: the loop of `i += threadBatch`
  unfoldable pub slices : (fuel t : ℕ) → List A → List (List A)
  slices zero t recs = []
  slices (suc fuel) t [] = []
  slices (suc fuel) t (r ∷ recs) = take t (r ∷ recs) ∷ slices fuel t (drop t (r ∷ recs))

  -- the loop over a slice, with the batch that is being filled: it is sent when it is full or the
  -- record was the last
  unfoldable pub batches : (size : ℕ) → List A → List A → List (List A)
  batches size batch [] = []
  batches size batch (r ∷ []) = (batch ++ r ∷ []) ∷ []
  batches size batch (r ∷ q ∷ recs) =
      let sent = batches size [] (q ∷ recs) in
      let kept = batches size (batch ++ r ∷ []) (q ∷ recs) in
      if length (batch ++ r ∷ []) == size then (batch ++ r ∷ []) ∷ sent else kept

  abbrev slices_batches : ℕ → List (List A) → List (List (List A))
  slices_batches size [] = []
  slices_batches size (sl ∷ sls) = batches size [] sl ∷ slices_batches size sls

  -- the batches of each goroutine
  unfoldable pub threads : (insert_concurrency size : ℕ) → List A → List (List (List A))
  unfolding slices batches thread_batch
  threads insert_concurrency size recs =
      slices_batches size
        (slices (length recs) (thread_batch insert_concurrency (length recs)) recs)

-- What `eg.Wait` returns: the first error. A panic of a goroutine ends the process.
abbrev pub note : Result (Unit {0}) → Result (Unit {0}) → Result (Unit {0})
note (ok u) r = r
note (err e) (ok u) = err e
note (err e) (err d) = err e
note (err e) panic = panic
note panic r = panic

-- A goroutine that has an error returns: its other batches are dropped.
abbrev pub rest_after {ℓ} : {B : Type ℓ} → Result (Unit {0}) → List B → List B
rest_after (ok u) bs = bs
rest_after (err e) bs = []
rest_after panic bs = []

module _ {B S : Type 0} (execute : B → Exec S (Unit {0})) where
  -- one goroutine to its end
  unfoldable pub run_thread : List B → Exec S (Unit {0})
  run_thread [] s = (ok tt, s)
  run_thread (b ∷ bs) s = (execute b >> run_thread bs) s

  unfoldable pub run_all : List (List B) → Result (Unit {0}) → Exec S (Unit {0})
  unfolding run_thread
  run_all [] r s = (r, s)
  run_all (t ∷ ts) r s = let (r', s') = run_thread t s in run_all ts (note r r') s'

  -- the next batch of a goroutine, if it has one left
  abbrev pub take_turn :
      Option (List B)
      → ℕ
      → List (List B)
      → Result (Unit {0})
      → S
      → List (List B) × Result (Unit {0}) × S
  take_turn none i ts r s = (ts, r, s)
  take_turn (some []) i ts r s = (ts, r, s)
  take_turn (some (b ∷ bs)) i ts r s =
      let (r', s') = execute b s in (set ts i (rest_after r' bs), note r r', s')

  -- The schedule names the goroutine whose next batch reaches the database. What it leaves is done
  -- at its end, so that every schedule, the empty one too, comes to the end of all goroutines.
  unfoldable pub run_threads : List ℕ → List (List B) → Result (Unit {0}) → Exec S (Unit {0})
  unfolding run_all
  run_threads [] ts r s = run_all ts r s
  run_threads (i ∷ schedule) ts r s =
      let (ts', r', s') = take_turn (get_elem? ts i) i ts r s in run_threads schedule ts' r' s'
