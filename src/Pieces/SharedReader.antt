-- ===== src/Pieces/SharedReader.antt =====
-- A reader of a piece that its callers share: `GetSharedPieceReader`, `cachedSectionReader` and the
-- callback of the cache in lib/boost/piecedirectory/piecedirectory.go. The state is one entry of the
-- cache from its creation on, with the callers that hold it and the place that each has come to. An
-- event is what one of them, or the cache, does under one lock or without one.
pub mod Invariant
use txcartool.Common.{
  ℕ, zero, suc, ◌+◌, ◌-◌, Bool, true, false, not, ◌&&◌, Option, none, some, ltb, ◌==◌,
  if◌then◌else◌, ◌≡◌,
}

-- `ready` is a closed channel and `has_err` an `err` that is not nil. The calls of `cancel` are
-- counted: those of the function, and those of a nil one, which would panic.
pub record CachedSectionReader : Type 0 where
  pub ready : Bool
  pub has_err : Bool
  pub has_cancel : Bool
  pub refs : ℕ
  pub expired : Bool
  pub cancels : ℕ
  pub nil_cancels : ℕ

unfoldable pub cancel : CachedSectionReader → CachedSectionReader
cancel r =
    if r.has_cancel
    then record r { cancels = suc r.cancels }
    else record r { nil_cancels = suc r.nil_cancels }

-- Each caller that calls `Close` is counted in `refs`, which is not 0 then.
unfoldable pub close : CachedSectionReader → CachedSectionReader
unfolding cancel
close r =
    let s = record r { refs = r.refs - 1 } in if (s.refs == 0) && s.expired then cancel s else s

-- `expireCallback`
unfoldable pub expire_callback : CachedSectionReader → CachedSectionReader
unfolding cancel
expire_callback r = let s = record r { expired = true } in if s.refs == 0 then cancel s else s

abbrev pub new_reader : CachedSectionReader
new_reader = record {
  ready = false;
  has_err = false;
  has_cancel = false;
  refs = 1;
  expired = false;
  cancels = 0;
  nil_cancels = 0;
}

-- Who holds the reader: the caller that opens it, those that wait for it, those that are to look at
-- its error, and those that have been given it.
pub record Shared : Type 0 where
  pub reader : CachedSectionReader
  pub is_cached : Bool
  pub callback_pending : Bool
  pub opening : Bool
  pub waiting : ℕ
  pub checking : ℕ
  pub given : ℕ

-- `opened` is the end of `GetPieceReader`, with or without an error; `timed_out` the end of a
-- waiting caller's context.
pub data Event : Type 0 where
  found_in_cache : Event
  opened : Bool → Event
  seen_ready : Event
  timed_out : Event
  check_err : Event
  user_close : Event
  evicted : Event
  called_back : Event

abbrev pub when : Bool → Shared → Option Shared
when true s = some s
when false s = none

-- `none` is an event that cannot be.
unfoldable pub handle : Event → Shared → Option Shared
unfolding close expire_callback
handle found_in_cache s =
    when s.is_cached
      (record s { reader = record s.reader { refs = suc s.reader.refs }; waiting = suc s.waiting })
handle (opened failed) s = when s.opening (record s {
  reader = record s.reader { has_err = failed; has_cancel = true; ready = true };
  opening = false;
  checking = suc s.checking;
})
handle seen_ready s =
    when (ltb 0 s.waiting && s.reader.ready)
      (record s { waiting = s.waiting - 1; checking = suc s.checking })
handle timed_out s =
    when (ltb 0 s.waiting) (record s { reader = close s.reader; waiting = s.waiting - 1 })
handle check_err s = when (ltb 0 s.checking) (
    if s.reader.has_err
    then record s { reader = close s.reader; checking = s.checking - 1 }
    else record s { checking = s.checking - 1; given = suc s.given })
handle user_close s =
    when (ltb 0 s.given) (record s { reader = close s.reader; given = s.given - 1 })
handle evicted s = when s.is_cached (record s { is_cached = false; callback_pending = true })
handle called_back s =
    when s.callback_pending
      (record s { reader = expire_callback s.reader; callback_pending = false })

-- after the caller that did not find a reader has put its own into the cache
abbrev pub new_shared : Shared
new_shared = record {
  reader = new_reader;
  is_cached = true;
  callback_pending = false;
  opening = true;
  waiting = 0;
  checking = 0;
  given = 0;
}

pub data Reached : Shared → Type 0 where
  created : Reached new_shared
  later : {s s' : Shared} (e : Event) → Reached s → handle e s ≡ some s' → Reached s'
