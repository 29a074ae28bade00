-- ===== src/Pieces/Throttle.antt =====
-- `addIndexForPieceThrottled` of lib/boost/piecedirectory/piecedirectory.go: callers that add the
-- index of pieces, the map of the operations in progress and the channel that bounds them. The result
-- of an operation is kept with the caller that makes it; an event is one caller's.
pub mod Single
use txcartool.Common.{
  ℕ, zero, suc, ◌+◌, ◌-◌, ◌≡◌, Bool, true, false, Option, none, some, List, [], ◌∷◌, Bytes, Error,
  bytes_eq, ltb, if◌then◌else◌, get_elem?, set,
}
use txcartool.Ldb.Model.{Cid}

-- Where a caller is: before the map, before the throttle, in it, behind it with its operation still
-- in the map, waiting for the operation of another caller, and at its end. A result is nil or an error.
pub data Phase : Type 0 where
  calling : Phase
  queued : Phase
  running : Phase
  finishing : Option Error → Phase
  waiting : ℕ → Phase
  returned : Option Error → Phase

pub record Caller : Type 0 where
  pub piece_cid : Cid
  pub phase : Phase

pub record Throttle : Type 0 where
  pub slots : ℕ
  -- `addIdxOpByCid`: the caller whose operation it is
  pub op_by_cid : Cid → Option ℕ
  pub callers : List Caller

-- `ctx_done` has the error of the context, `added` the result of `addIndexForPiece`.
pub data Event : Type 0 where
  load_or_store : Event
  take_slot : Event
  ctx_done : Error → Event
  added : Option Error → Event
  deleted : Event
  seen_done : Event

abbrev pub put_op : (Cid → Option ℕ) → Cid → Option ℕ → Cid → Option ℕ
put_op ops pc o qc = if bytes_eq qc pc then o else ops qc

abbrev pub in_phase : Throttle → ℕ → Cid → Phase → List Caller
in_phase t i pc ph = set t.callers i (record { piece_cid = pc; phase = ph })

abbrev pub load_op : Throttle → ℕ → Cid → Option ℕ → Throttle
load_op t i pc (some j) = record t { callers = in_phase t i pc (waiting j) }
load_op t i pc none = record t {
  op_by_cid = put_op t.op_by_cid pc (some i);
  callers = in_phase t i pc queued;
}

-- the result of an operation whose `done` is closed
abbrev pub phase_result : Phase → Option (Option Error)
phase_result calling = none
phase_result queued = none
phase_result running = none
phase_result (finishing e) = some e
phase_result (waiting j) = none
phase_result (returned e) = some e

abbrev pub result_of : Option Caller → Option (Option Error)
result_of none = none
result_of (some c) = phase_result c.phase

abbrev pub see : Throttle → ℕ → Cid → Option (Option Error) → Option Throttle
see t i pc none = none
see t i pc (some e) = some (record t { callers = in_phase t i pc (returned e) })

-- `none` is an event that cannot be.
unfoldable pub act : ℕ → Throttle → ℕ → Cid → Phase → Event → Option Throttle
act size t i pc calling load_or_store = some (load_op t i pc (t.op_by_cid pc))
act size t i pc queued take_slot =
    if ltb t.slots size
    then some (record t { slots = suc t.slots; callers = in_phase t i pc running })
    else none
act size t i pc queued (ctx_done e) =
    some (record t { callers = in_phase t i pc (finishing (some e)) })
act size t i pc running (added e) =
    some (record t { slots = t.slots - 1; callers = in_phase t i pc (finishing e) })
act size t i pc (finishing e) deleted =
    some
      (record t { op_by_cid = put_op t.op_by_cid pc none; callers = in_phase t i pc (returned e) })
act size t i pc (waiting j) (ctx_done e) =
    some (record t { callers = in_phase t i pc (returned (some e)) })
act size t i pc (waiting j) seen_done = see t i pc (result_of (get_elem? t.callers j))
act size t i pc _ _ = none

abbrev pub act_caller : ℕ → Throttle → ℕ → Event → Option Caller → Option Throttle
act_caller size t i e none = none
act_caller size t i e (some c) = act size t i c.piece_cid c.phase e

unfoldable pub handle : ℕ → Throttle → ℕ → Event → Option Throttle
unfolding act
handle size t i e = act_caller size t i e (get_elem? t.callers i)

abbrev pub fresh_callers : List Cid → List Caller
fresh_callers [] = []
fresh_callers (pc ∷ pcs) = record { piece_cid = pc; phase = calling } ∷ fresh_callers pcs

abbrev pub new_throttle : List Cid → Throttle
new_throttle pcs = record { slots = 0; op_by_cid = λ pc. none; callers = fresh_callers pcs }

pub data Reached (size : ℕ) (pcs : List Cid) : Throttle → Type 0 where
  created : Reached size pcs (new_throttle pcs)
  later :
      {t t' : Throttle} (i : ℕ) (e : Event)
      → Reached size pcs t
      → handle size t i e ≡ some t'
      → Reached size pcs t'
