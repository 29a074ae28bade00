-- ===== src/Reseal/Pool/Moves.antt =====
-- What one step of a worker of cmd/reseal.go does to the channels.
use txcartool.Common.{
  ℕ, zero, suc, ◌+◌, ◌-◌, ◌≤◌, ◌≡◌, refl, ap, Bool, true, false, Option, none, some, List, [], ◌∷◌,
  ltb, if◌then◌else◌, get_elem?, set, arith, Bool-cases, ◌⊎◌, inl, inr,
}
use txcartool.Reseal.Pool.{
  Stage, Phase, Limits, capacity, Channels, in_stage, put_stage, after_stage, advance,
}

abbrev pub is_active : Phase → ℕ
is_active Phase.queued = 0
is_active Phase.selecting = 1
is_active (Phase.waiting s) = 1
is_active (Phase.inside s) = 1
is_active Phase.leaving = 1
is_active Phase.ended = 0

abbrev pub same_stage : Stage → Stage → ℕ
same_stage Stage.add_piece Stage.add_piece = 1
same_stage Stage.pre_commit1 Stage.pre_commit1 = 1
same_stage Stage.pre_commit2 Stage.pre_commit2 = 1
same_stage Stage.fin Stage.fin = 1
same_stage _ _ = 0

abbrev pub is_inside : Stage → Phase → ℕ
is_inside s Phase.queued = 0
is_inside s Phase.selecting = 0
is_inside s (Phase.waiting t) = 0
is_inside s (Phase.inside t) = same_stage s t
is_inside s Phase.leaving = 0
is_inside s Phase.ended = 0

unfoldable pub total : (Phase → ℕ) → List Phase → ℕ
total f [] = 0
total f (ph ∷ workers) = f ph + total f workers

pub total-set :
    (f : Phase → ℕ) (workers : List Phase) (i : ℕ) (ph ph' : Phase)
    → get_elem? workers i ≡ some ph
    → total f (set workers i ph') + f ph ≡ total f workers + f ph'
unfolding total
total-set f [] i ph ph' e = ground arith
total-set f (w ∷ workers) zero ph ph' e = let same : w ≡ ph = ground arith in rw same (omega arith)
total-set f (w ∷ workers) (suc i) ph ph' e = omega (arith, total-set f workers i ph ph' e)

-- What one step of a worker does to the channels.
pub record Moves (l : Limits) (c : Channels) (ph : Phase) (c' : Channels) (ph' : Phase)
    : Type 0 where
  pub sectors_move : c'.sectors + is_active ph ≡ c.sectors + is_active ph'
  pub sectors_room : c.sectors ≤ l.smax → c'.sectors ≤ l.smax
  pub stage_move : (s : Stage) → in_stage c' s + is_inside s ph ≡ in_stage c s + is_inside s ph'
  pub stage_room : (s : Stage) → in_stage c s ≤ capacity l s → in_stage c' s ≤ capacity l s

stage_cases :
    (c : Channels) (n : ℕ) (s t : Stage)
    → ((in_stage (put_stage c t n) s ≡ in_stage c s) × (same_stage s t ≡ 0))
      ⊎ ((s ≡ t) × ((in_stage (put_stage c t n) s ≡ n) × (same_stage s t ≡ 1)))
stage_cases c n Stage.add_piece Stage.add_piece = inr (refl, (refl, refl))
stage_cases c n Stage.pre_commit1 Stage.pre_commit1 = inr (refl, (refl, refl))
stage_cases c n Stage.pre_commit2 Stage.pre_commit2 = inr (refl, (refl, refl))
stage_cases c n Stage.fin Stage.fin = inr (refl, (refl, refl))
stage_cases c n _ _ = inl (refl, refl)

put_stage-sectors : (c : Channels) (n : ℕ) (t : Stage) → (put_stage c t n).sectors ≡ c.sectors
put_stage-sectors c n Stage.add_piece = refl
put_stage-sectors c n Stage.pre_commit1 = refl
put_stage-sectors c n Stage.pre_commit2 = refl
put_stage-sectors c n Stage.fin = refl

enter_stage-Moves :
    (l : Limits) (c : Channels) (t : Stage)
    → ltb (in_stage c t) (capacity l t) ≡ true
    → Moves l c (Phase.waiting t) (put_stage c t (suc (in_stage c t))) (Phase.inside t)
enter_stage-Moves l c t h = record {
  sectors_move = rw put_stage-sectors refl;
  sectors_room = λ le. rw put_stage-sectors le;
  stage_move = λ s. elim (stage_cases c (suc (in_stage c t)) s t) [
    | inl d ↦ rw (d.0, d.1) refl
    | inr e ↦ rw (e.1.0, e.1.1, e.0) (omega arith)
  ];
  stage_room = λ s le. elim (stage_cases c (suc (in_stage c t)) s t) [
    | inl d ↦ rw d.0 le
    | inr e ↦ rw (e.1.0, e.0) (ground arith)
  ];
}

leave_stage-Moves :
    (l : Limits) (c : Channels) (t : Stage) (ph : Phase)
    → ltb 0 (in_stage c t) ≡ true
    → is_active ph ≡ 1
    → ((s : Stage) → is_inside s ph ≡ 0)
    → Moves l c (Phase.inside t) (put_stage c t (in_stage c t - 1)) ph
leave_stage-Moves l c t ph h a f = record {
  sectors_move = rw (put_stage-sectors, a) refl;
  sectors_room = λ le. rw put_stage-sectors le;
  stage_move = λ s. elim (stage_cases c (in_stage c t - 1) s t) [
    | inl d ↦ rw (d.0, d.1, f s) refl
    | inr e ↦ rw (e.1.0, e.1.1, f s, e.0) (ground arith)
  ];
  stage_room = λ s le. elim (stage_cases c (in_stage c t - 1) s t) [
    | inl d ↦ rw d.0 le
    | inr e ↦ omega (arith, le, e.1.0, ap (in_stage c) e.0)
  ];
}

after_stage-active :
    (t : Stage) (go : Bool) → is_active (if go then after_stage t else Phase.leaving) ≡ 1
after_stage-active t false = refl
after_stage-active Stage.add_piece true = refl
after_stage-active Stage.pre_commit1 true = refl
after_stage-active Stage.pre_commit2 true = refl
after_stage-active Stage.fin true = refl

after_stage-inside :
    (t : Stage) (go : Bool) (s : Stage)
    → is_inside s (if go then after_stage t else Phase.leaving) ≡ 0
after_stage-inside t false s = refl
after_stage-inside Stage.add_piece true s = refl
after_stage-inside Stage.pre_commit1 true s = refl
after_stage-inside Stage.pre_commit2 true s = refl
after_stage-inside Stage.fin true s = refl

-- the sector's channel alone
sectors-Moves :
    (l : Limits) (c : Channels) (n : ℕ) (ph ph' : Phase)
    → n + is_active ph ≡ c.sectors + is_active ph'
    → (c.sectors ≤ l.smax → n ≤ l.smax)
    → ((s : Stage) → (is_inside s ph ≡ 0) × (is_inside s ph' ≡ 0))
    → Moves l c ph (record c { sectors = n }) ph'
sectors-Moves l c n ph ph' e le f = record {
  sectors_move = e;
  sectors_room = le;
  stage_move = λ s. rw ((f s).0, (f s).1) (ap (λ (m : ℕ). m + 0) (in_stage_same s));
  stage_room = λ s h. rw (in_stage_same s) h;
}
  where
    in_stage_same : (s : Stage) → in_stage (record c { sectors = n }) s ≡ in_stage c s
    in_stage_same Stage.add_piece = refl
    in_stage_same Stage.pre_commit1 = refl
    in_stage_same Stage.pre_commit2 = refl
    in_stage_same Stage.fin = refl

abbrev pub IsMove : Limits → Channels → Phase → Option (Channels × Phase) → Type 0
IsMove l c ph none = Unit
IsMove l c ph (some (c', ph')) = Moves l c ph c' ph'

pub advance-IsMove :
    (l : Limits) (c : Channels) (ph : Phase) (go : Bool) → IsMove l c ph (advance l c ph go)
unfolding advance
advance-IsMove l c Phase.queued go = elim (Bool-cases (ltb c.sectors l.smax)) [
  | inl h ↦ rw h (sectors-Moves l c _ _ _ (omega arith) (λ le. ground arith) (λ s. (refl, refl)))
  | inr h ↦ rw h tt
]
advance-IsMove l c Phase.selecting true =
    sectors-Moves l c _ _ _ refl (λ le. le) (λ s. (refl, refl))
advance-IsMove l c Phase.selecting false =
    sectors-Moves l c _ _ _ refl (λ le. le) (λ s. (refl, refl))
advance-IsMove l c (Phase.waiting t) go = elim (Bool-cases (ltb (in_stage c t) (capacity l t))) [
  | inl h ↦ rw h (enter_stage-Moves l c t h)
  | inr h ↦ rw h tt
]
advance-IsMove l c (Phase.inside t) go = elim (Bool-cases (ltb 0 (in_stage c t))) [
  | inl h ↦ rw h (leave_stage-Moves l c t _ h (after_stage-active t go) (after_stage-inside t go))
  | inr h ↦ rw h tt
]
advance-IsMove l c Phase.leaving go = elim (Bool-cases (ltb 0 c.sectors)) [
  | inl h ↦ rw h (sectors-Moves l c _ _ _ (ground arith) (λ le. omega arith) (λ s. (refl, refl)))
  | inr h ↦ rw h tt
]
advance-IsMove l c Phase.ended go = tt
