-- ===== src/Reseal/Pool/Bounds.antt =====
-- The channels of cmd/reseal.go count the workers that hold a value in them, and bound them.
use txcartool.Common.{
  ℕ, zero, suc, ◌+◌, ◌≤◌, ◌≡◌, refl, ap, ◌∙◌, subst, Bool, Option, none, some, get_elem?, set,
  replicate, arith,
}
use txcartool.Reseal.Pool.{
  Stage, Phase, Limits, capacity, Channels, in_stage, advance, Pool, step, put_worker, step_worker,
  no_channels, Run,
}
use txcartool.Reseal.Pool.Moves.{
  is_active, is_inside, total, total-set, Moves, IsMove, advance-IsMove,
}

-- Each channel holds as many values as workers that have put one in, and no more than its capacity.
pub record IsCounted (l : Limits) (p : Pool) : Type 0 where
  pub sectors_count : p.channels.sectors ≡ total is_active p.workers
  pub sectors_bound : p.channels.sectors ≤ l.smax
  pub stage_count : (s : Stage) → in_stage p.channels s ≡ total (is_inside s) p.workers
  pub stage_bound : (s : Stage) → in_stage p.channels s ≤ capacity l s

-- What a step is: one worker's phase and the channels are moved on.
pub record OneMove (l : Limits) (p q : Pool) (i : ℕ) (go : Bool) : Type 0 where
  pub ph : Phase
  pub ph' : Phase
  pub from_phase : get_elem? p.workers i ≡ some ph
  pub advances : advance l p.channels ph go ≡ some (q.channels, ph')
  pub to_workers : q.workers ≡ set p.workers i ph'

pub step-OneMove :
    (l : Limits) (p q : Pool) (i : ℕ) (go : Bool) → step l p i go ≡ some q → OneMove l p q i go
unfolding step
step-OneMove l p q i go e = found (get_elem? p.workers i) refl e
  where
    moved :
        (ph : Phase) (o : Option (Channels × Phase))
        → get_elem? p.workers i ≡ some ph
        → advance l p.channels ph go ≡ o
        → put_worker p i o ≡ some q
        → OneMove l p q i go
    moved ph none is_ph is_o e' = ground arith
    moved ph (some (c, ph')) is_ph is_o e' =
        let same : ◌≡◌ {A = Pool} (record { channels = c; workers = set p.workers i ph' }) q =
          ground arith in
        subst (λ r. OneMove l p r i go) same
          (record { ph = ph; ph' = ph'; from_phase = is_ph; advances = is_o; to_workers = refl })

    found :
        (o : Option Phase)
        → get_elem? p.workers i ≡ o
        → step_worker l p i go o ≡ some q
        → OneMove l p q i go
    found none is_none e' = ground arith
    found (some ph) is_ph e' = moved ph (advance l p.channels ph go) is_ph refl e'

pub OneMove-Moves :
    {l : Limits} {p q : Pool} {i : ℕ} {go : Bool} (m : OneMove l p q i go)
    → Moves l p.channels m.ph q.channels m.ph'
OneMove-Moves {l} {p} {q} {i} {go} m =
    subst (IsMove l p.channels m.ph) m.advances (advance-IsMove l p.channels m.ph go)

pub step-IsCounted :
    (l : Limits) (p q : Pool) (i : ℕ) (go : Bool)
    → step l p i go ≡ some q
    → IsCounted l p
    → IsCounted l q
step-IsCounted l p q i go e h =
    let m = step-OneMove l p q i go e in
    let moves = OneMove-Moves m in
    record {
      sectors_count = omega (arith, moves.sectors_move, h.sectors_count, counts m is_active);
      sectors_bound = moves.sectors_room h.sectors_bound;
      stage_count = λ s. omega (arith, moves.stage_move s, h.stage_count s, counts m (is_inside s));
      stage_bound = λ s. moves.stage_room s (h.stage_bound s);
    }
  where
    counts :
        (m : OneMove l p q i go) (f : Phase → ℕ)
        → total f q.workers + f m.ph ≡ total f p.workers + f m.ph'
    counts m f =
        ap (λ ws. total f ws + f m.ph) m.to_workers
        ∙ total-set f p.workers i m.ph m.ph' m.from_phase

-- the pool before the first step, with a worker for each of the sectors
abbrev pub start_pool : ℕ → Pool
start_pool n = record { channels = no_channels; workers = replicate n Phase.queued }

total-start : (f : Phase → ℕ) (n : ℕ) → f Phase.queued ≡ 0 → total f (replicate n Phase.queued) ≡ 0
unfolding total
total-start f zero e = refl
total-start f (suc n) e = omega (arith, total-start f n e)

start-IsCounted : (l : Limits) (n : ℕ) → IsCounted l (start_pool n)
start-IsCounted l n = record {
  sectors_count = omega (arith, total-start is_active n refl);
  sectors_bound = omega arith;
  stage_count = λ s. counts s (omega (arith, total-start (is_inside s) n refl));
  stage_bound = λ s. bounds s;
}
  where
    counts :
        (s : Stage)
        → 0 ≡ total (is_inside s) (replicate n Phase.queued)
        → in_stage no_channels s ≡ total (is_inside s) (replicate n Phase.queued)
    counts Stage.add_piece e = e
    counts Stage.pre_commit1 e = e
    counts Stage.pre_commit2 e = e
    counts Stage.fin e = e

    bounds : (s : Stage) → in_stage no_channels s ≤ capacity l s
    bounds Stage.add_piece = omega arith
    bounds Stage.pre_commit1 = omega arith
    bounds Stage.pre_commit2 = omega arith
    bounds Stage.fin = omega arith

-- After any steps of the workers of any sectors, in any order and however their work ends, each
-- channel holds as many values as there are workers that have put one in and not taken it out, and
-- no more than its capacity: so many sectors are at work and in each stage at most.
pub Run-IsCounted : (l : Limits) (n k : ℕ) (q : Pool) → Run l (start_pool n) k q → IsCounted l q
Run-IsCounted l n zero q Run.start = start-IsCounted l n
Run-IsCounted l n (suc k) q (Run.more i go r e) =
    step-IsCounted l _ q i go e (Run-IsCounted l n k _ r)
