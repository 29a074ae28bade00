-- ===== src/Yugabyte/Queue/Keeps.antt =====
-- What every item of a queue keeps, the queue keeps, whether items fail or not.
use txcartool.Common.{ℕ, zero, suc, List, [], ◌∷◌, Result, ok, err, panic, Exec, continue, ◌>>=◌}
use txcartool.Yugabyte.Batches.{note}
use txcartool.Yugabyte.Queue.{exec_queue, still}

pub exec_queue-keeps {κ} :
    {A S : Type 0} (P : S → Type κ) (exec : A → Exec S (Unit {0}))
    → ((a : A) (s : S) → P s → P (exec a s).1)
    → (live : ℕ) (items : List A) (r : Result (Unit {0})) (s : S) → P s
    → P (exec_queue exec live items r s).1
unfolding exec_queue
exec_queue-keeps P exec keeps live [] r s h = h
exec_queue-keeps P exec keeps zero (x ∷ xs) r s h = h
exec_queue-keeps P exec keeps (suc live) (x ∷ xs) r s h =
    let (r', s') = exec x s in
    exec_queue-keeps P exec keeps (still exec r' live) xs (note r r') s' (keeps x s h)

pub bind-keeps {κ} :
    {S A B : Type 0} (P : S → Type κ) (m : Exec S A) (f : A → Exec S B) (s : S)
    → P (m s).1
    → ((a : A) (t : S) → P t → P (f a t).1)
    → P ((m >>= f) s).1
bind-keeps P m f s h k = go (m s).0
  where
    go : (r : Result _) → P (continue r f (m s).1).1
    go (ok a) = k a (m s).1 h
    go (err e) = h
    go panic = h
