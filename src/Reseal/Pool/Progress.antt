-- ===== src/Reseal/Pool/Progress.antt =====
-- The workers of cmd/reseal.go never block each other for good.
use txcartool.Common.{
  ℕ, ◌≤◌, ◌<◌, ◌≡◌, refl, Bool, true, false, Option, none, some, ltb, if◌then◌else◌, get_elem?, set,
  All, All-imp, arith, ◌⊎◌, inl, inr,
}
use txcartool.Reseal.Pool.{
  Stage, Phase, Limits, capacity, Channels, in_stage, advance, Pool, step, Run,
}
use txcartool.Reseal.Pool.Moves.{is_active, is_inside}
use txcartool.Reseal.Pool.Search.{
  in_some_stage, is_started, is_queued, find, total-ge, total-zero, inside_zero, active_zero,
  same_stage_refl, All-get, idle_ended,
}
use txcartool.Reseal.Pool.Bounds.{IsCounted, start_pool, Run-IsCounted}

unfoldable pub CanStep : Limits → Pool → Type 0
CanStep l p = (i : ℕ) × (q : Pool) × (step l p i true ≡ some q)

Advances : Limits → Channels → Phase → Type 0
Advances l c ph = (o : Channels × Phase) × (advance l c ph true ≡ some o)

step_of :
    (l : Limits) (p : Pool) (i : ℕ) (ph : Phase)
    → get_elem? p.workers i ≡ some ph
    → Advances l p.channels ph
    → CanStep l p
unfolding step CanStep Advances
step_of l p i ph e ((c, ph'), a) =
    (i, record { channels = c; workers = set p.workers i ph' }, rw (e, a) refl)

if_some :
    {o : Channels × Phase} {b : Bool}
    → b ≡ true
    → ◌≡◌ {A = Option (Channels × Phase)} (if b then some o else none) (some o)
if_some h = rw h refl

inside-Advances :
    (l : Limits) (c : Channels) (t : Stage) → 0 < in_stage c t → Advances l c (Phase.inside t)
unfolding advance Advances
inside-Advances l c t h = (_, if_some some_in)
  where
    some_in : ltb 0 (in_stage c t) ≡ true
    some_in = ground arith

waiting-Advances :
    (l : Limits) (c : Channels) (t : Stage)
    → in_stage c t < capacity l t
    → Advances l c (Phase.waiting t)
unfolding advance Advances
waiting-Advances l c t h = (_, if_some room)
  where
    room : ltb (in_stage c t) (capacity l t) ≡ true
    room = ground arith

leaving-Advances : (l : Limits) (c : Channels) → 0 < c.sectors → Advances l c Phase.leaving
unfolding advance Advances
leaving-Advances l c h = (_, if_some some_in)
  where
    some_in : ltb 0 c.sectors ≡ true
    some_in = ground arith

queued-Advances : (l : Limits) (c : Channels) → c.sectors < l.smax → Advances l c Phase.queued
unfolding advance Advances
queued-Advances l c h = (_, if_some room)
  where
    room : ltb c.sectors l.smax ≡ true
    room = ground arith

capacity_pos : (l : Limits) (s : Stage) → 1 ≤ l.p1max → 1 ≤ capacity l s
capacity_pos l Stage.add_piece h = omega arith
capacity_pos l Stage.pre_commit1 h = h
capacity_pos l Stage.pre_commit2 h = omega arith
capacity_pos l Stage.fin h = omega arith

module _ (l : Limits) (p : Pool) (counted : IsCounted l p) where
  -- A worker in a stage can leave it.
  inside_steps :
      (i : ℕ) (ph : Phase)
      → get_elem? p.workers i ≡ some ph
      → in_some_stage ph ≡ true
      → Advances l p.channels ph
  inside_steps i Phase.queued e h = ground arith
  inside_steps i Phase.selecting e h = ground arith
  inside_steps i (Phase.waiting t) e h = ground arith
  inside_steps i (Phase.inside t) e h = inside-Advances l p.channels t (
      omega (
        arith,
        counted.stage_count t,
        total-ge (is_inside t) p.workers i (Phase.inside t) e,
        same_stage_refl t,
      ))
  inside_steps i Phase.leaving e h = ground arith
  inside_steps i Phase.ended e h = ground arith

  -- Where no worker is in a stage, each that has begun can go on.
  started_steps :
      1 ≤ l.p1max
      → All (λ ph. in_some_stage ph ≡ false) p.workers
      → (i : ℕ) (ph : Phase) → get_elem? p.workers i ≡ some ph
      → is_started ph ≡ true
      → in_some_stage ph ≡ false
      → Advances l p.channels ph
  unfolding advance Advances
  started_steps room outside i Phase.queued e h n = ground arith
  started_steps room outside i Phase.selecting e h n = (_, refl)
  started_steps room outside i (Phase.waiting t) e h n = waiting-Advances l p.channels t (
      omega (
        arith,
        counted.stage_count t,
        capacity_pos l t room,
        total-zero (is_inside t) p.workers (
            All-imp (λ ph. in_some_stage ph ≡ false) (λ ph. is_inside t ph ≡ 0) p.workers
              (inside_zero t) outside),
      ))
  started_steps room outside i (Phase.inside t) e h n = ground arith
  started_steps room outside i Phase.leaving e h n =
      leaving-Advances l p.channels
        (omega (arith, counted.sectors_count, total-ge is_active p.workers i Phase.leaving e))
  started_steps room outside i Phase.ended e h n = ground arith

  -- Where no worker has begun, one that is queued can begin.
  queued_steps :
      1 ≤ l.smax
      → All (λ ph. is_started ph ≡ false) p.workers
      → (ph : Phase) → is_queued ph ≡ true
      → Advances l p.channels ph
  queued_steps room idle Phase.queued h = queued-Advances l p.channels (
      omega (
        arith,
        counted.sectors_count,
        total-zero is_active p.workers (
            All-imp (λ ph. is_started ph ≡ false) (λ ph. is_active ph ≡ 0) p.workers active_zero
              idle),
      ))
  queued_steps room idle Phase.selecting h = ground arith
  queued_steps room idle (Phase.waiting t) h = ground arith
  queued_steps room idle (Phase.inside t) h = ground arith
  queued_steps room idle Phase.leaving h = ground arith
  queued_steps room idle Phase.ended h = ground arith

pub counted-CanStep :
    (l : Limits) (p : Pool)
    → IsCounted l p
    → 1 ≤ l.smax
    → 1 ≤ l.p1max
    → All (λ ph. ph ≡ Phase.ended) p.workers ⊎ CanStep l p
counted-CanStep l p counted sroom proom = elim (find in_some_stage p.workers) [
  | inl f ↦ inr (steps f.i f.ph f.at (inside_steps l p counted f.i f.ph f.at f.passes))
  | inr outside ↦ elim (find is_started p.workers) [
    | inl f ↦ inr (
        steps f.i f.ph f.at (
          started_steps l p counted proom outside f.i f.ph f.at f.passes
            (All-get (λ ph. in_some_stage ph ≡ false) p.workers f.i f.ph outside f.at)))
    | inr idle ↦ elim (find is_queued p.workers) [
      | inl f ↦ inr (steps f.i f.ph f.at (queued_steps l p counted sroom idle f.ph f.passes))
      | inr none_queued ↦ inl (idle_ended p.workers idle none_queued)
    ]
  ]
]
  where
    steps :
        (i : ℕ) (ph : Phase)
        → get_elem? p.workers i ≡ some ph
        → Advances l p.channels ph
        → CanStep l p
    steps i ph e a = step_of l p i ph e a

-- With room for one sector and for one in the second stage at least: after any steps of any
-- workers in any order, either each worker has ended or one of them can make a step. They never
-- wait for each other for good.
pub Run-CanStep :
    (l : Limits) (n k : ℕ) (q : Pool)
    → Run l (start_pool n) k q
    → 1 ≤ l.smax
    → 1 ≤ l.p1max
    → All (λ ph. ph ≡ Phase.ended) q.workers ⊎ CanStep l q
Run-CanStep l n k q r sroom proom = counted-CanStep l q (Run-IsCounted l n k q r) sroom proom
