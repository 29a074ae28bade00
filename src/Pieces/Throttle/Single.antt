-- ===== src/Pieces/Throttle/Single.antt =====
-- The callers of `addIndexForPieceThrottled` in lib/boost/piecedirectory/piecedirectory.go never make
-- two operations for one piece at the same time.
use txcartool.Common.{
  ℕ, zero, suc, ◌-◌, ◌≡◌, ◌≢◌, refl, sym, ap, ◌∙◌, subst, Bool, true, false, Option, none, some,
  List, [], ◌∷◌, Error, bytes_eq, bytes_eq_iff, bytes_eq_refl, ltb, get_elem?, set, arith,
  Bool-cases, ◌⊎◌, inl, inr,
}
use txcartool.Ldb.Model.{Cid}
use txcartool.Pieces.Throttle.{
  Phase, Caller, Throttle, Event, put_op, in_phase, load_op, result_of, see, act, act_caller,
  handle, fresh_callers, Reached,
}

-- a caller whose operation is in the map
abbrev pub owns : Phase → Bool
owns Phase.calling = false
owns Phase.queued = true
owns Phase.running = true
owns (Phase.finishing e) = true
owns (Phase.waiting j) = false
owns (Phase.returned e) = false

get-set :
    (callers : List Caller) (i k : ℕ) (v c : Caller)
    → get_elem? (set callers i v) k ≡ some c
    → ((k ≡ i) × (c ≡ v)) ⊎ ((k ≢ i) × (get_elem? callers k ≡ some c))
get-set [] i k v c e = ground arith
get-set (x ∷ xs) zero zero v c e = inl (refl, ground arith)
get-set (x ∷ xs) zero (suc k) v c e = inr (λ h. omega arith, e)
get-set (x ∷ xs) (suc i) zero v c e = inr (λ h. omega arith, e)
get-set (x ∷ xs) (suc i) (suc k) v c e = elim (get-set xs i k v c e) [
  | inl same ↦ inl (omega (arith, same.0), same.1)
  | inr other ↦ inr (λ h. other.0 (omega arith), other.1)
]

record IsMapped (t : Throttle) : Type 0 where
  at :
      (i : ℕ) (c : Caller)
      → get_elem? t.callers i ≡ some c
      → owns c.phase ≡ true
      → t.op_by_cid c.piece_cid ≡ some i

abbrev MappedAfter : Option Throttle → Type 0
MappedAfter none = Unit
MappedAfter (some t) = IsMapped t

module _ (t : Throttle) (h : IsMapped t) (i : ℕ) (pc : Cid) where
  -- The map stays, and a caller that owns an operation now has owned it before.
  move-IsMapped :
      (n : ℕ) (ph : Phase)
      → (owns ph ≡ true → t.op_by_cid pc ≡ some i)
      → IsMapped (record t { slots = n; callers = in_phase t i pc ph })
  move-IsMapped n ph own = record {
    at = λ k c e o. elim (get-set t.callers i k (record { piece_cid = pc; phase = ph }) c e) [
      | inl same ↦
          ap (λ (x : Caller). t.op_by_cid x.piece_cid) same.1
          ∙ own (sym (ap (λ (x : Caller). owns x.phase) same.1) ∙ o)
          ∙ ap (λ (n : ℕ). some n) (sym same.0)
      | inr other ↦ h.at k c other.1 o
    ];
  }

  store-IsMapped :
      t.op_by_cid pc ≡ none
      → IsMapped (record t {
        op_by_cid = put_op t.op_by_cid pc (some i);
        callers = in_phase t i pc Phase.queued;
      })
  store-IsMapped free = record {
    at = λ k c e o.
        elim (get-set t.callers i k (record { piece_cid = pc; phase = Phase.queued }) c e) [
          | inl same ↦
              ap (λ (x : Caller). put_op t.op_by_cid pc (some i) x.piece_cid) same.1
              ∙ rw (bytes_eq_refl pc) (ap (λ (n : ℕ). some n) (sym same.0))
          | inr other ↦ elim (Bool-cases (bytes_eq c.piece_cid pc)) [
            | inl eq ↦
                let own : t.op_by_cid c.piece_cid ≡ some k = h.at k c other.1 o in
                let nothing : t.op_by_cid c.piece_cid ≡ none =
                  ap t.op_by_cid ((bytes_eq_iff _ _).0 eq) ∙ free in
                ground arith
            | inr ne ↦ rw ne (h.at k c other.1 o)
          ]
        ];
  }

  delete-IsMapped :
      (e : Option Error)
      → t.op_by_cid pc ≡ some i
      → IsMapped (record t {
        op_by_cid = put_op t.op_by_cid pc none;
        callers = in_phase t i pc (Phase.returned e);
      })
  delete-IsMapped e mine = record {
    at = λ k c g o.
        elim (get-set t.callers i k (record { piece_cid = pc; phase = Phase.returned e }) c g) [
          | inl same ↦
              let no : false ≡ true = sym (ap (λ (x : Caller). owns x.phase) same.1) ∙ o in
              ground arith
          | inr other ↦ elim (Bool-cases (bytes_eq c.piece_cid pc)) [
            | inl eq ↦
                let own : t.op_by_cid c.piece_cid ≡ some k = h.at k c other.1 o in
                let his : t.op_by_cid c.piece_cid ≡ some i =
                  ap t.op_by_cid ((bytes_eq_iff _ _).0 eq) ∙ mine in
                let clash : k ≡ i = ground arith in absurd (other.0 clash)
            | inr ne ↦ rw ne (h.at k c other.1 o)
          ]
        ];
  }

  seen-IsMapped : (o : Option (Option Error)) → MappedAfter (see t i pc o)
  seen-IsMapped none = tt
  seen-IsMapped (some e) = move-IsMapped t.slots (Phase.returned e) (λ o. ground arith)

  load-IsMapped : (o : Option ℕ) → t.op_by_cid pc ≡ o → IsMapped (load_op t i pc o)
  load-IsMapped (some j) e = move-IsMapped t.slots (Phase.waiting j) (λ o. ground arith)
  load-IsMapped none e = store-IsMapped e

  act-IsMapped :
      (size : ℕ) (ph : Phase) (e : Event)
      → get_elem? t.callers i ≡ some (record { piece_cid = pc; phase = ph })
      → MappedAfter (act size t i pc ph e)
  unfolding act
  act-IsMapped size Phase.calling Event.load_or_store g = load-IsMapped (t.op_by_cid pc) refl
  act-IsMapped size Phase.queued Event.take_slot g = elim (Bool-cases (ltb t.slots size)) [
    | inl room ↦ rw room (move-IsMapped (suc t.slots) Phase.running (λ o. h.at i _ g refl))
    | inr full ↦ rw full tt
  ]
  act-IsMapped size Phase.queued (Event.ctx_done e) g =
      move-IsMapped t.slots (Phase.finishing (some e)) (λ o. h.at i _ g refl)
  act-IsMapped size Phase.running (Event.added e) g =
      move-IsMapped (t.slots - 1) (Phase.finishing e) (λ o. h.at i _ g refl)
  act-IsMapped size (Phase.finishing e) Event.deleted g = delete-IsMapped e (h.at i _ g refl)
  act-IsMapped size (Phase.waiting j) (Event.ctx_done e) g =
      move-IsMapped t.slots (Phase.returned (some e)) (λ o. ground arith)
  act-IsMapped size (Phase.waiting j) Event.seen_done g =
      seen-IsMapped (result_of (get_elem? t.callers j))
  act-IsMapped size _ _ g = tt

handle-IsMapped :
    (size : ℕ) (t : Throttle) (i : ℕ) (e : Event) → IsMapped t → MappedAfter (handle size t i e)
unfolding handle
handle-IsMapped size t i e h = go (get_elem? t.callers i) refl
  where
    go : (o : Option Caller) → get_elem? t.callers i ≡ o → MappedAfter (act_caller size t i e o)
    go none g = tt
    go (some c) g = act-IsMapped t h i c.piece_cid size c.phase e g

fresh_calling :
    (pcs : List Cid) (i : ℕ) (c : Caller)
    → get_elem? (fresh_callers pcs) i ≡ some c
    → owns c.phase ≡ false
fresh_calling [] i c e = ground arith
fresh_calling (pc ∷ pcs) zero c e =
    let same : ◌≡◌ {A = Caller} (record { piece_cid = pc; phase = Phase.calling }) c =
      ground arith in
    sym (ap (λ (x : Caller). owns x.phase) same)
fresh_calling (pc ∷ pcs) (suc i) c e = fresh_calling pcs i c e

Reached-IsMapped : (size : ℕ) (pcs : List Cid) (t : Throttle) → Reached size pcs t → IsMapped t
Reached-IsMapped size pcs t Reached.created = record {
  at = λ i c e o. let fresh : owns c.phase ≡ false = fresh_calling pcs i c e in ground arith;
}
Reached-IsMapped size pcs t (Reached.later {t = before} i e r after) =
    subst MappedAfter after (handle-IsMapped size before i e (Reached-IsMapped size pcs before r))

-- After any events of any callers in any order, a caller whose operation is in progress is the one
-- that the map of the operations has for its piece: no piece has two operations at the same time.
pub op_by_cid-Reached :
    (size : ℕ) (pcs : List Cid) (t : Throttle) (i : ℕ) (c : Caller)
    → Reached size pcs t
    → get_elem? t.callers i ≡ some c
    → owns c.phase ≡ true
    → t.op_by_cid c.piece_cid ≡ some i
op_by_cid-Reached size pcs t i c r e o = (Reached-IsMapped size pcs t r).at i c e o
