-- ===== src/Reseal/Pool/Search.antt =====
-- The search for a worker of cmd/reseal.go at some place.
use txcartool.Common.{
  ℕ, zero, suc, ◌≤◌, ◌≡◌, refl, subst, Bool, true, false, some, List, [], ◌∷◌, get_elem?, All,
  arith, Bool-cases, ◌⊎◌, inl, inr,
}
use txcartool.Reseal.Pool.{Stage, Phase}
use txcartool.Reseal.Pool.Moves.{is_active, is_inside, same_stage, total}

abbrev pub in_some_stage : Phase → Bool
in_some_stage (Phase.inside s) = true
in_some_stage _ = false

abbrev pub is_started : Phase → Bool
is_started Phase.queued = false
is_started Phase.ended = false
is_started _ = true

abbrev pub is_queued : Phase → Bool
is_queued Phase.queued = true
is_queued _ = false

-- a worker that passes a test
pub record Found (f : Phase → Bool) (workers : List Phase) : Type 0 where
  pub i : ℕ
  pub ph : Phase
  pub at : get_elem? workers i ≡ some ph
  pub passes : f ph ≡ true

pub find :
    (f : Phase → Bool) (workers : List Phase) → Found f workers ⊎ All (λ ph. f ph ≡ false) workers
find f [] = inr tt
find f (ph ∷ workers) = elim (Bool-cases (f ph)) [
  | inl h ↦ inl (record { i = 0; ph = ph; at = refl; passes = h })
  | inr h ↦ elim (find f workers) [
    | inl found ↦
        inl (record { i = suc found.i; ph = found.ph; at = found.at; passes = found.passes })
    | inr rest ↦ inr (h, rest)
  ]
]

pub total-ge :
    (f : Phase → ℕ) (workers : List Phase) (i : ℕ) (ph : Phase)
    → get_elem? workers i ≡ some ph
    → f ph ≤ total f workers
unfolding total
total-ge f [] i ph e = ground arith
total-ge f (w ∷ workers) zero ph e = let same : w ≡ ph = ground arith in rw same (omega arith)
total-ge f (w ∷ workers) (suc i) ph e = omega (arith, total-ge f workers i ph e)

pub total-zero :
    (f : Phase → ℕ) (workers : List Phase) → All (λ ph. f ph ≡ 0) workers → total f workers ≡ 0
unfolding total
total-zero f [] h = refl
total-zero f (ph ∷ workers) h = omega (arith, h.0, total-zero f workers h.1)

pub inside_zero : (s : Stage) (ph : Phase) → in_some_stage ph ≡ false → is_inside s ph ≡ 0
inside_zero s Phase.queued h = refl
inside_zero s Phase.selecting h = refl
inside_zero s (Phase.waiting t) h = refl
inside_zero s (Phase.inside t) h = ground arith
inside_zero s Phase.leaving h = refl
inside_zero s Phase.ended h = refl

pub active_zero : (ph : Phase) → is_started ph ≡ false → is_active ph ≡ 0
active_zero Phase.queued h = refl
active_zero Phase.selecting h = ground arith
active_zero (Phase.waiting t) h = ground arith
active_zero (Phase.inside t) h = ground arith
active_zero Phase.leaving h = ground arith
active_zero Phase.ended h = refl

pub same_stage_refl : (s : Stage) → same_stage s s ≡ 1
same_stage_refl Stage.add_piece = refl
same_stage_refl Stage.pre_commit1 = refl
same_stage_refl Stage.pre_commit2 = refl
same_stage_refl Stage.fin = refl

pub All-get :
    (P : Phase → Type 0) (workers : List Phase) (i : ℕ) (ph : Phase)
    → All P workers
    → get_elem? workers i ≡ some ph
    → P ph
All-get P [] i ph h e = ground arith
All-get P (w ∷ workers) zero ph h e = let same : w ≡ ph = ground arith in subst P same h.0
All-get P (w ∷ workers) (suc i) ph h e = All-get P workers i ph h.1 e

pub idle_ended :
    (workers : List Phase)
    → All (λ ph. is_started ph ≡ false) workers
    → All (λ ph. is_queued ph ≡ false) workers
    → All (λ ph. ph ≡ Phase.ended) workers
idle_ended [] h k = tt
idle_ended (Phase.queued ∷ workers) h k = ground (arith, k.0)
idle_ended (Phase.selecting ∷ workers) h k = ground (arith, h.0)
idle_ended (Phase.waiting t ∷ workers) h k = ground (arith, h.0)
idle_ended (Phase.inside t ∷ workers) h k = ground (arith, h.0)
idle_ended (Phase.leaving ∷ workers) h k = ground (arith, h.0)
idle_ended (Phase.ended ∷ workers) h k = (refl, idle_ended workers h.1 k.1)
