-- ===== src/Reseal/Pool.antt =====
-- The workers of `Reseal` in cmd/reseal.go, one for each sector, and the channels that bound how
-- many of them are at work and in each stage. A channel is the number of the values in it. A step
-- is one worker's: whether its work goes on from there is the `Bool` that the step is given.
pub mod Moves
pub mod Bounds
pub mod Termination
pub mod Search
pub mod Progress
use txcartool.Common.{
  ℕ, zero, suc, ◌+◌, ◌-◌, Bool, true, false, Option, none, some, List, [], ◌∷◌, ltb, if◌then◌else◌,
  get_elem?, set, ◌≡◌,
}

pub data Stage : Type 0 where
  add_piece : Stage
  pre_commit1 : Stage
  pre_commit2 : Stage
  fin : Stage

-- Where a worker is: before its value is in `sectorsThrottle`, at its row of the database, before a
-- stage, in it, and at its end with the value still in `sectorsThrottle`.
pub data Phase : Type 0 where
  queued : Phase
  selecting : Phase
  waiting : Stage → Phase
  inside : Stage → Phase
  leaving : Phase
  ended : Phase

pub record Limits : Type 0 where
  pub smax : ℕ
  pub p1max : ℕ

abbrev pub capacity : Limits → Stage → ℕ
capacity l add_piece = 1
capacity l pre_commit1 = l.p1max
capacity l pre_commit2 = 1
capacity l fin = 1

pub record Channels : Type 0 where
  pub sectors : ℕ
  pub ap : ℕ
  pub p1 : ℕ
  pub p2 : ℕ
  pub fin : ℕ

abbrev pub in_stage : Channels → Stage → ℕ
in_stage c add_piece = c.ap
in_stage c pre_commit1 = c.p1
in_stage c pre_commit2 = c.p2
in_stage c Stage.fin = c.fin

abbrev pub put_stage : Channels → Stage → ℕ → Channels
put_stage c add_piece n = record c { ap = n }
put_stage c pre_commit1 n = record c { p1 = n }
put_stage c pre_commit2 n = record c { p2 = n }
put_stage c Stage.fin n = record c { fin = n }

-- where a worker goes from a stage whose work went well
abbrev pub after_stage : Stage → Phase
after_stage add_piece = waiting pre_commit1
after_stage pre_commit1 = waiting pre_commit2
after_stage pre_commit2 = waiting fin
after_stage fin = leaving

-- A worker whose work does not go on, for an error or for its seal type, leaves. A value is put into
-- a channel only where there is room, and one is taken out only where there is one.
unfoldable pub advance : Limits → Channels → Phase → Bool → Option (Channels × Phase)
advance l c queued go =
    if ltb c.sectors l.smax then some (record c { sectors = suc c.sectors }, selecting) else none
advance l c selecting go = some (c, if go then waiting add_piece else leaving)
advance l c (waiting s) go =
    if ltb (in_stage c s) (capacity l s)
    then some (put_stage c s (suc (in_stage c s)), inside s)
    else none
advance l c (inside s) go =
    if ltb 0 (in_stage c s)
    then some (put_stage c s (in_stage c s - 1), if go then after_stage s else leaving)
    else none
advance l c leaving go =
    if ltb 0 c.sectors then some (record c { sectors = c.sectors - 1 }, ended) else none
advance l c ended go = none

pub record Pool : Type 0 where
  pub channels : Channels
  pub workers : List Phase

abbrev pub put_worker : Pool → ℕ → Option (Channels × Phase) → Option Pool
put_worker p i none = none
put_worker p i (some (c, ph)) = some (record { channels = c; workers = set p.workers i ph })

abbrev pub step_worker : Limits → Pool → ℕ → Bool → Option Phase → Option Pool
step_worker l p i go none = none
step_worker l p i go (some ph) = put_worker p i (advance l p.channels ph go)

-- One step of the worker with the index; `none` is a worker that is blocked or has ended.
unfoldable pub step : Limits → Pool → ℕ → Bool → Option Pool
step l p i go = step_worker l p i go (get_elem? p.workers i)

abbrev pub no_channels : Channels
no_channels = record { sectors = 0; ap = 0; p1 = 0; p2 = 0; fin = 0 }

-- Runs of some length, from the start, where each worker is queued.
pub data Run (l : Limits) (p : Pool) : ℕ → Pool → Type 0 where
  start : Run l p 0 p
  more :
      {n : ℕ} {q r : Pool} (i : ℕ) (go : Bool)
      → Run l p n q
      → step l q i go ≡ some r
      → Run l p (suc n) r
