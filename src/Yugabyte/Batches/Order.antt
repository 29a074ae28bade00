-- ===== src/Yugabyte/Batches/Order.antt =====
-- The order in which the batches reach the database, where no batch fails.
use txcartool.Common.{
  ℕ, zero, suc, ◌≡◌, refl, sym, ap, ◌∙◌, Bool, ◌||◌, Option, none, some, List, [], ◌∷◌, ◌++◌,
  Result, ok, Exec, ◌>>◌, get_elem?, set, concat, any, any-append, Option-cases, inl, inr, arith,
}
use txcartool.Yugabyte.Batches.{run_thread, run_all, take_turn, run_threads}

module _ {B : Type 0} where
  abbrev pub sent : Option (List B) → List B
  sent none = []
  sent (some []) = []
  sent (some (b ∷ bs)) = b ∷ []

  abbrev pub left : Option (List B) → ℕ → List (List B) → List (List B)
  left none i ts = ts
  left (some []) i ts = ts
  left (some (b ∷ bs)) i ts = set ts i bs

  unfoldable pub order : List ℕ → List (List B) → List B
  order [] ts = concat ts
  order (i ∷ schedule) ts = sent (get_elem? ts i) ++ order schedule (left (get_elem? ts i) i ts)

  any-set :
      (p : B → Bool) (ts : List (List B)) (i : ℕ) (b : B) (bs : List B)
      → get_elem? ts i ≡ some (b ∷ bs)
      → any p (concat ts) ≡ (p b || any p (concat (set ts i bs)))
  any-set p [] i b bs e = ground arith
  any-set p (t ∷ ts) zero b bs e = ground arith
  any-set p (t ∷ ts) (suc i) b bs e = ground (
    arith,
    any-set p ts i b bs e,
    any-append p t (concat ts),
    any-append p t (concat (set ts i bs)),
  )

  -- Every batch is sent, whatever the schedule.
  pub any-order :
      (p : B → Bool) (schedule : List ℕ) (ts : List (List B))
      → any p (order schedule ts) ≡ any p (concat ts)
  unfolding order
  any-order p [] ts = refl
  any-order p (i ∷ schedule) ts =
      let same = any-order p schedule ts in
      let after = λ (bs : List B). any-order p schedule (set ts i bs) in
      elim (Option-cases (get_elem? ts i)) [
        | inl e ↦ rw e same
        | inr ([], e) ↦ rw e same
        | inr (b ∷ bs, e) ↦ rw e (ap (◌||◌ (p b)) (after bs) ∙ sym (any-set p ts i b bs e))
      ]

  any-concat : (p : B → Bool) (bss : List (List B)) → any (any p) bss ≡ any p (concat bss)
  any-concat p [] = refl
  any-concat p (bs ∷ bss) = ground (arith, any-concat p bss, any-append p bs (concat bss))

module _ {B : Type 0} where
  pub any-order_batches :
      (p : B → Bool) (schedule : List ℕ) (ts : List (List (List B)))
      → any p (concat (order schedule ts)) ≡ any p (concat (concat ts))
  any-order_batches p schedule ts =
      sym (any-concat p (order schedule ts))
      ∙ any-order (any p) schedule ts
      ∙ any-concat p (concat ts)

-- What the batches of a list do, one after the other.
unfoldable pub apply_all : {B T : Type 0} → (B → T → T) → List B → T → T
apply_all effect [] t = t
apply_all effect (b ∷ bs) t = apply_all effect bs (effect b t)

-- One action after another, each of which succeeds and does what a function on views says.
pub then-works :
    {S T : Type 0} (view : S → T) (m n : Exec S (Unit {0})) (f g : T → T) (s : S)
    → ((m s).0 ≡ ok tt) × (view (m s).1 ≡ f (view s))
    → ((n (m s).1).0 ≡ ok tt) × (view (n (m s).1).1 ≡ g (view (m s).1))
    → (((m >> n) s).0 ≡ ok tt) × (view ((m >> n) s).1 ≡ g (f (view s)))
then-works view m n f g s h k = rw h.0 (k.0, k.1 ∙ ap g h.1)

module _ {B S T : Type 0} (execute : B → Exec S (Unit {0})) (view : S → T) (effect : B → T → T)
    (works : (b : B) (s : S)
      → ((execute b s).0 ≡ ok tt) × (view (execute b s).1 ≡ effect b (view s))) where
  abbrev pub Does : List B → S → Result (Unit {0}) × S → Type 0
  Does bs s r = (r.0 ≡ ok tt) × (view r.1 ≡ apply_all effect bs (view s))

  run_thread-Does : (bs : List B) (s : S) → Does bs s (run_thread execute bs s)
  unfolding run_thread apply_all
  run_thread-Does [] s = (refl, refl)
  run_thread-Does (b ∷ bs) s =
      let h = works b s in
      let k = run_thread-Does bs (execute b s).1 in
      rw h.0 (k.0, k.1 ∙ ap (λ t. apply_all effect bs t) h.1)

  apply_all-append :
      (bs cs : List B) (t : T)
      → apply_all effect (bs ++ cs) t ≡ apply_all effect cs (apply_all effect bs t)
  unfolding apply_all
  apply_all-append [] cs t = refl
  apply_all-append (b ∷ bs) cs t = apply_all-append bs cs (effect b t)

  run_all-Does : (ts : List (List B)) (s : S) → Does (concat ts) s (run_all execute ts (ok tt) s)
  unfolding run_all apply_all
  run_all-Does [] s = (refl, refl)
  run_all-Does (t ∷ ts) s =
      let h = run_thread-Does t s in
      let k = run_all-Does ts (run_thread execute t s).1 in
      rw (run_all, h.0)
        (
          k.0,
          k.1
              ∙ ap (λ u. apply_all effect (concat ts) u) h.1
              ∙ sym (apply_all-append t (concat ts) (view s)),
        )

  abbrev Goes : List ℕ → Type 0
  Goes schedule =
      (ts : List (List B)) (s : S)
      → Does (order schedule ts) s (run_threads execute schedule ts (ok tt) s)

  turn-Does :
      (schedule : List ℕ)
      → Goes schedule
      → (o : Option (List B)) (i : ℕ) (ts : List (List B)) (s : S)
      → Does (sent o ++ order schedule (left o i ts)) s (
          let (ts', r', s') = take_turn execute o i ts (ok tt) s in
          run_threads execute schedule ts' r' s')
  unfolding run_threads order apply_all
  turn-Does schedule ih none i ts s = ih ts s
  turn-Does schedule ih (some []) i ts s = ih ts s
  turn-Does schedule ih (some (b ∷ bs)) i ts s =
      let h = works b s in
      let k = ih (set ts i bs) (execute b s).1 in
      rw h.0 (k.0, k.1 ∙ ap (λ t. apply_all effect (order schedule (set ts i bs)) t) h.1)

  -- Where no batch fails, none is left out and the result is no error.
  pub run_threads-order :
      (schedule : List ℕ) (ts : List (List B)) (s : S)
      → Does (order schedule ts) s (run_threads execute schedule ts (ok tt) s)
  unfolding run_threads order
  run_threads-order [] ts s = run_all-Does ts s
  run_threads-order (i ∷ schedule) ts s =
      turn-Does schedule (run_threads-order schedule) (get_elem? ts i) i ts s
