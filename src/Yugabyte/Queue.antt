-- ===== src/Yugabyte/Queue.antt =====
-- `execWithConcurrency` of lib/boostd-data/yugabyte/piecedoctor.go, and the same loop in
-- `RemoveIndexes` of service.go: goroutines that take items from a closed queue. An item is one step
-- here. The context is not cancelled.
pub mod Keeps
use txcartool.Common.{ℕ, zero, suc, List, [], ◌∷◌, Result, ok, err, panic, Exec}
use txcartool.Yugabyte.Batches.{note}

module _ {A S : Type 0} (exec : A → Exec S (Unit {0})) where
  -- A goroutine that has an error returns. The others go on, while there is one.
  abbrev pub still : Result (Unit {0}) → ℕ → ℕ
  still (ok u) live = suc live
  still (err e) live = live
  still panic live = live

  unfoldable pub exec_queue : ℕ → List A → Result (Unit {0}) → Exec S (Unit {0})
  exec_queue live [] r s = (r, s)
  exec_queue zero (x ∷ xs) r s = (r, s)
  exec_queue (suc live) (x ∷ xs) r s =
      let (r', s') = exec x s in exec_queue (still r' live) xs (note r r') s'

  unfoldable pub exec_with_concurrency : List A → ℕ → Exec S (Unit {0})
  unfolding exec_queue
  exec_with_concurrency items concurrency s = exec_queue concurrency items (ok tt) s
