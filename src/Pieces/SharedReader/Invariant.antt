-- ===== src/Pieces/SharedReader/Invariant.antt =====
-- The shared reader of lib/boost/piecedirectory/piecedirectory.go is ended once, and not before all
-- are done with it.
use txcartool.Common.{
  ℕ, suc, ◌+◌, ◌-◌, ◌≡◌, refl, subst, Bool, true, false, not, ◌&&◌, Option, none, some, ltb, ◌==◌,
  if◌then◌else◌, arith, Bool-cases, inl, inr,
}
use txcartool.Pieces.SharedReader.{cancel, close, expire_callback, Shared, Event, handle, Reached}

abbrev count : Bool → ℕ
count true = 1
count false = 0

abbrev pub holders : Shared → ℕ
holders s = count s.opening + s.waiting + s.checking + s.given

-- The references are the holders; and the context is cancelled once, when the entry has left the
-- cache and nobody holds the reader, and never before it is opened.
pub record IsSound (s : Shared) : Type 0 where
  pub refs_holders : s.reader.refs ≡ holders s
  pub cancels_once : s.reader.cancels ≡ (if s.reader.expired && (holders s == 0) then 1 else 0)
  pub no_nil : s.reader.nil_cancels ≡ 0
  pub has_opened : s.reader.has_cancel ≡ not s.opening
  pub ready_opened : s.reader.ready ≡ not s.opening
  pub expired_out : (s.reader.expired && s.is_cached) ≡ false
  pub expired_called : (s.reader.expired && s.callback_pending) ≡ false
  pub pending_out : (s.callback_pending && s.is_cached) ≡ false

abbrev SoundAfter : Option Shared → Type 0
SoundAfter none = Unit
SoundAfter (some s) = IsSound s

found-IsSound : (s : Shared) → IsSound s → SoundAfter (handle Event.found_in_cache s)
unfolding handle
found-IsSound s h = elim (Bool-cases s.is_cached) [
  | inl c ↦ rw c (record {
    refs_holders = ground arith;
    cancels_once = ground arith;
    no_nil = h.no_nil;
    has_opened = h.has_opened;
    ready_opened = h.ready_opened;
    expired_out = ground arith;
    expired_called = h.expired_called;
    pending_out = ground arith;
  })
  | inr n ↦ rw n tt
]

opened-IsSound :
    (failed : Bool) (s : Shared) → IsSound s → SoundAfter (handle (Event.opened failed) s)
unfolding handle
opened-IsSound failed s h = elim (Bool-cases s.opening) [
  | inl c ↦ rw c (record {
    refs_holders = ground arith;
    cancels_once = ground arith;
    no_nil = h.no_nil;
    has_opened = refl;
    ready_opened = refl;
    expired_out = h.expired_out;
    expired_called = h.expired_called;
    pending_out = h.pending_out;
  })
  | inr n ↦ rw n tt
]

seen_ready-IsSound : (s : Shared) → IsSound s → SoundAfter (handle Event.seen_ready s)
unfolding handle
seen_ready-IsSound s h = elim (Bool-cases (ltb 0 s.waiting && s.reader.ready)) [
  | inl c ↦ rw c (record {
    refs_holders = ground arith;
    cancels_once = ground arith;
    no_nil = h.no_nil;
    has_opened = h.has_opened;
    ready_opened = h.ready_opened;
    expired_out = h.expired_out;
    expired_called = h.expired_called;
    pending_out = h.pending_out;
  })
  | inr n ↦ rw n tt
]

-- One holder, wherever it has come to, closes the reader.
release-IsSound :
    (s : Shared) (w c g : ℕ)
    → IsSound s
    → suc (count s.opening + w + c + g) ≡ holders s
    → IsSound (record s { reader = close s.reader; waiting = w; checking = c; given = g })
unfolding close cancel
release-IsSound s w c g h e = elim (Bool-cases ((s.reader.refs - 1 == 0) && s.reader.expired)) [
  | inl last ↦
      let open' : s.reader.has_cancel ≡ true = ground arith in
      rw (last, open')
        (record {
          refs_holders = ground arith;
          cancels_once = ground arith;
          no_nil = h.no_nil;
          has_opened = ground arith;
          ready_opened = h.ready_opened;
          expired_out = h.expired_out;
          expired_called = h.expired_called;
          pending_out = h.pending_out;
        })
  | inr held ↦ rw held (record {
    refs_holders = ground arith;
    cancels_once = ground arith;
    no_nil = h.no_nil;
    has_opened = h.has_opened;
    ready_opened = h.ready_opened;
    expired_out = h.expired_out;
    expired_called = h.expired_called;
    pending_out = h.pending_out;
  })
]

timed_out-IsSound : (s : Shared) → IsSound s → SoundAfter (handle Event.timed_out s)
unfolding handle
timed_out-IsSound s h = elim (Bool-cases (ltb 0 s.waiting)) [
  | inl c ↦ rw c (release-IsSound s (s.waiting - 1) s.checking s.given h (ground arith))
  | inr n ↦ rw n tt
]

user_close-IsSound : (s : Shared) → IsSound s → SoundAfter (handle Event.user_close s)
unfolding handle
user_close-IsSound s h = elim (Bool-cases (ltb 0 s.given)) [
  | inl c ↦ rw c (release-IsSound s s.waiting s.checking (s.given - 1) h (ground arith))
  | inr n ↦ rw n tt
]

check_err-IsSound : (s : Shared) → IsSound s → SoundAfter (handle Event.check_err s)
unfolding handle
check_err-IsSound s h = elim (Bool-cases (ltb 0 s.checking)) [
  | inl c ↦ rw c (
      either s.reader.has_err _ _
        (release-IsSound s s.waiting (s.checking - 1) s.given h (ground arith))
        (record {
          refs_holders = ground arith;
          cancels_once = ground arith;
          no_nil = h.no_nil;
          has_opened = h.has_opened;
          ready_opened = h.ready_opened;
          expired_out = h.expired_out;
          expired_called = h.expired_called;
          pending_out = h.pending_out;
        }))
  | inr n ↦ rw n tt
]
  where
    either : (b : Bool) (x y : Shared) → IsSound x → IsSound y → IsSound (if b then x else y)
    either true x y hx hy = hx
    either false x y hx hy = hy

evicted-IsSound : (s : Shared) → IsSound s → SoundAfter (handle Event.evicted s)
unfolding handle
evicted-IsSound s h = elim (Bool-cases s.is_cached) [
  | inl c ↦ rw c (record {
    refs_holders = h.refs_holders;
    cancels_once = h.cancels_once;
    no_nil = h.no_nil;
    has_opened = h.has_opened;
    ready_opened = h.ready_opened;
    expired_out = ground arith;
    expired_called = ground arith;
    pending_out = refl;
  })
  | inr n ↦ rw n tt
]

called_back-IsSound : (s : Shared) → IsSound s → SoundAfter (handle Event.called_back s)
unfolding handle expire_callback cancel
called_back-IsSound s h = elim (Bool-cases s.callback_pending) [
  | inl c ↦ rw c (elim (Bool-cases (s.reader.refs == 0)) [
    | inl last ↦
        let open' : s.reader.has_cancel ≡ true = ground arith in
        rw (last, open')
          (record {
            refs_holders = h.refs_holders;
            cancels_once = ground arith;
            no_nil = h.no_nil;
            has_opened = ground arith;
            ready_opened = h.ready_opened;
            expired_out = ground arith;
            expired_called = refl;
            pending_out = refl;
          })
    | inr held ↦ rw held (record {
      refs_holders = h.refs_holders;
      cancels_once = ground arith;
      no_nil = h.no_nil;
      has_opened = h.has_opened;
      ready_opened = h.ready_opened;
      expired_out = ground arith;
      expired_called = refl;
      pending_out = refl;
    })
  ])
  | inr n ↦ rw n tt
]

handle-IsSound : (e : Event) (s : Shared) → IsSound s → SoundAfter (handle e s)
handle-IsSound Event.found_in_cache s h = found-IsSound s h
handle-IsSound (Event.opened failed) s h = opened-IsSound failed s h
handle-IsSound Event.seen_ready s h = seen_ready-IsSound s h
handle-IsSound Event.timed_out s h = timed_out-IsSound s h
handle-IsSound Event.check_err s h = check_err-IsSound s h
handle-IsSound Event.user_close s h = user_close-IsSound s h
handle-IsSound Event.evicted s h = evicted-IsSound s h
handle-IsSound Event.called_back s h = called_back-IsSound s h

-- After any events in any order, the references are the callers that hold the reader; its context
-- has been cancelled once if the entry has left the cache, its callback has run and nobody holds
-- it, and not at all before; and the function that cancels it was there when it was called.
pub Reached-IsSound : (s : Shared) → Reached s → IsSound s
Reached-IsSound s Reached.created = record {
  refs_holders = refl;
  cancels_once = refl;
  no_nil = refl;
  has_opened = refl;
  ready_opened = refl;
  expired_out = refl;
  expired_called = refl;
  pending_out = refl;
}
Reached-IsSound s (Reached.later {s = before} e r after) =
    subst SoundAfter after (handle-IsSound e before (Reached-IsSound before r))
