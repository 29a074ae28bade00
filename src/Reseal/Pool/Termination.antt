-- ===== src/Reseal/Pool/Termination.antt =====
-- The workers of cmd/reseal.go end: each step brings one of them nearer to its end, and nothing is
-- left in the channels.
use txcartool.Common.{
  ℕ, zero, suc, ◌+◌, ◌*◌, ◌≤◌, ◌<◌, ◌≡◌, refl, ap, ◌∙◌, subst, Bool, true, false, Option, none,
  some, ltb, if◌then◌else◌, replicate, All, All-imp, arith, Bool-cases, inl, inr, ◌⊎◌,
}
use txcartool.Reseal.Pool.{
  Stage, Phase, Limits, capacity, Channels, in_stage, after_stage, advance, Pool, step, Run,
  no_channels,
}
use txcartool.Reseal.Pool.Moves.{total, total-set, is_active, is_inside}
use txcartool.Reseal.Pool.Search.{total-zero}
use txcartool.Reseal.Pool.Bounds.{
  step-OneMove, start_pool, IsCounted, step-IsCounted, Run-IsCounted,
}
use txcartool.Reseal.Pool.Progress.{CanStep, counted-CanStep}

-- how many steps a worker has left at most
abbrev pub steps_left : Phase → ℕ
steps_left Phase.queued = 11
steps_left Phase.selecting = 10
steps_left (Phase.waiting Stage.add_piece) = 9
steps_left (Phase.inside Stage.add_piece) = 8
steps_left (Phase.waiting Stage.pre_commit1) = 7
steps_left (Phase.inside Stage.pre_commit1) = 6
steps_left (Phase.waiting Stage.pre_commit2) = 5
steps_left (Phase.inside Stage.pre_commit2) = 4
steps_left (Phase.waiting Stage.fin) = 3
steps_left (Phase.inside Stage.fin) = 2
steps_left Phase.leaving = 1
steps_left Phase.ended = 0

abbrev Lowers : Phase → Option (Channels × Phase) → Type 0
Lowers ph none = Unit
Lowers ph (some (c, ph')) = steps_left ph' < steps_left ph

enter_lowers : (t : Stage) → steps_left (Phase.inside t) < steps_left (Phase.waiting t)
enter_lowers Stage.add_piece = omega arith
enter_lowers Stage.pre_commit1 = omega arith
enter_lowers Stage.pre_commit2 = omega arith
enter_lowers Stage.fin = omega arith

leave_lowers :
    (t : Stage) (go : Bool)
    → steps_left (if go then after_stage t else Phase.leaving) < steps_left (Phase.inside t)
leave_lowers Stage.add_piece true = omega arith
leave_lowers Stage.pre_commit1 true = omega arith
leave_lowers Stage.pre_commit2 true = omega arith
leave_lowers Stage.fin true = omega arith
leave_lowers Stage.add_piece false = omega arith
leave_lowers Stage.pre_commit1 false = omega arith
leave_lowers Stage.pre_commit2 false = omega arith
leave_lowers Stage.fin false = omega arith

advance-Lowers :
    (l : Limits) (c : Channels) (ph : Phase) (go : Bool) → Lowers ph (advance l c ph go)
unfolding advance
advance-Lowers l c Phase.queued go = elim (Bool-cases (ltb c.sectors l.smax)) [
  | inl h ↦ rw h (omega arith)
  | inr h ↦ rw h tt
]
advance-Lowers l c Phase.selecting true = omega arith
advance-Lowers l c Phase.selecting false = omega arith
advance-Lowers l c (Phase.waiting t) go = elim (Bool-cases (ltb (in_stage c t) (capacity l t))) [
  | inl h ↦ rw h (enter_lowers t)
  | inr h ↦ rw h tt
]
advance-Lowers l c (Phase.inside t) go = elim (Bool-cases (ltb 0 (in_stage c t))) [
  | inl h ↦ rw h (leave_lowers t go)
  | inr h ↦ rw h tt
]
advance-Lowers l c Phase.leaving go = elim (Bool-cases (ltb 0 c.sectors)) [
  | inl h ↦ rw h (omega arith)
  | inr h ↦ rw h tt
]
advance-Lowers l c Phase.ended go = tt

step-lowers :
    (l : Limits) (p q : Pool) (i : ℕ) (go : Bool)
    → step l p i go ≡ some q
    → total steps_left q.workers < total steps_left p.workers
step-lowers l p q i go e =
    let m = step-OneMove l p q i go e in
    let lower : steps_left m.ph' < steps_left m.ph =
      subst (Lowers m.ph) m.advances (advance-Lowers l p.channels m.ph go) in
    let sum : total steps_left q.workers + steps_left m.ph
        ≡ total steps_left p.workers + steps_left m.ph' =
      ap (λ ws. total steps_left ws + steps_left m.ph) m.to_workers
      ∙ total-set steps_left p.workers i m.ph m.ph' m.from_phase in
    omega (arith, lower, sum)

total-start : (n : ℕ) → total steps_left (replicate n Phase.queued) ≡ 11 * n
unfolding total
total-start zero = omega arith
total-start (suc n) = omega (arith, total-start n)

Run-lowers :
    (l : Limits) (p : Pool) (k : ℕ) (q : Pool)
    → Run l p k q
    → k + total steps_left q.workers ≤ total steps_left p.workers
Run-lowers l p zero q Run.start = omega arith
Run-lowers l p (suc k) r (Run.more {q = q} i go run e) =
    omega (arith, Run-lowers l p k q run, step-lowers l q r i go e)

-- Each worker has ended and every channel is empty.
pub record IsFinished (p : Pool) : Type 0 where
  pub all_ended : All (λ ph. ph ≡ Phase.ended) p.workers
  pub all_empty : p.channels ≡ no_channels

-- Steps from a pool to one that is finished.
pub record Completion (l : Limits) (q : Pool) : Type 0 where
  pub left : ℕ
  pub last : Pool
  pub run : Run l q left last
  pub finished : IsFinished last

no_channels_lem :
    (c : Channels) → c.sectors ≡ 0 → ((s : Stage) → in_stage c s ≡ 0) → c ≡ no_channels
no_channels_lem c e h = λ i. record {
  sectors = e i;
  ap = h Stage.add_piece i;
  p1 = h Stage.pre_commit1 i;
  p2 = h Stage.pre_commit2 i;
  fin = h Stage.fin i;
}

-- Where each worker has ended, no channel holds a value.
ended_empty :
    (l : Limits) (p : Pool)
    → IsCounted l p
    → All (λ ph. ph ≡ Phase.ended) p.workers
    → p.channels ≡ no_channels
ended_empty l p counted ended =
    no_channels_lem p.channels (counted.sectors_count ∙ none_at is_active refl)
      (λ s. counted.stage_count s ∙ none_at (is_inside s) refl)
  where
    none_at : (f : Phase → ℕ) → f Phase.ended ≡ 0 → total f p.workers ≡ 0
    none_at f e = total-zero f p.workers (
        All-imp (λ ph. ph ≡ Phase.ended) (λ ph. f ph ≡ 0) p.workers (λ ph same. ap f same ∙ e)
          ended)

-- A worker can make a step, unless all is finished.
IsFinished-or_step :
    (l : Limits) (p : Pool) → IsCounted l p → 1 ≤ l.smax → 1 ≤ l.p1max → IsFinished p ⊎ CanStep l p
IsFinished-or_step l p counted sroom proom = elim (counted-CanStep l p counted sroom proom) [
  | inl ended ↦ inl (record { all_ended = ended; all_empty = ended_empty l p counted ended })
  | inr more ↦ inr more
]

-- Whichever worker can make a step makes it, and `m` such steps are enough.
complete :
    (l : Limits) (q : Pool)
    → 1 ≤ l.smax
    → 1 ≤ l.p1max
    → (m i : ℕ) (p : Pool) → Run l q i p
    → IsCounted l p
    → total steps_left p.workers ≤ m
    → Completion l q
unfolding CanStep
complete l q sroom proom zero i p run counted enough =
    elim (IsFinished-or_step l p counted sroom proom) [
      | inl ended ↦ record { left = i; last = p; run = run; finished = ended }
      | inr (w, r, e) ↦ absurd (omega (arith, enough, step-lowers l p r w true e))
    ]
complete l q sroom proom (suc m) i p run counted enough =
    elim (IsFinished-or_step l p counted sroom proom) [
      | inl ended ↦ record { left = i; last = p; run = run; finished = ended }
      | inr (w, r, e) ↦
          complete l q sroom proom m (suc i) r (Run.more w true run e)
            (step-IsCounted l p r w true e counted)
            (omega (arith, enough, step-lowers l p r w true e))
    ]

-- With room for one sector and for one in the second stage at least: after any steps of any
-- workers, in any order and however their work ends, a worker can make a step unless each worker
-- has ended and every channel is empty, there are further steps after which that is so, and all
-- these steps together are eleven for each sector at most.
pub Run-completes :
    (l : Limits) (n k : ℕ) (q : Pool)
    → Run l (start_pool n) k q
    → 1 ≤ l.smax
    → 1 ≤ l.p1max
    → (IsFinished q ⊎ CanStep l q) × (c : Completion l q) × (k + c.left ≤ 11 * n)
Run-completes l n k q run sroom proom =
    let counted = Run-IsCounted l n k q run in
    let c =
      complete l q sroom proom (total steps_left q.workers) 0 q Run.start counted (omega arith) in
    (
      IsFinished-or_step l q counted sroom proom,
      c,
      omega (
        arith,
        Run-lowers l (start_pool n) k q run,
        Run-lowers l q c.left c.last c.run,
        total-start n,
      ),
    )
