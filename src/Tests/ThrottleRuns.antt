-- ===== src/Tests/ThrottleRuns.antt =====
-- The theorem about the operations on the index of a piece at a concrete input.
use txcartool.Common.{◌≡◌, refl, none, some, List, [], ◌∷◌, bytes_eq}
use txcartool.Ldb.Model.{Cid}
use txcartool.Pieces.Throttle.{Phase, Caller, Throttle, Event, put_op, act, handle, Reached}
use txcartool.Pieces.Throttle.Single.{op_by_cid-Reached}
use txcartool.Tests.Inputs.{piece_a}

abbrev pieces : List Cid
pieces = piece_a ∷ piece_a ∷ []

abbrev first_caller : Caller
first_caller = record { piece_cid = piece_a; phase = Phase.running }

-- The first caller is in the throttle, and the second waits for it.
abbrev one_waits : Throttle
one_waits = record {
  slots = 1;
  op_by_cid = put_op (λ pc. none) piece_a (some 0);
  callers = first_caller ∷ record { piece_cid = piece_a; phase = Phase.waiting 0 } ∷ [];
}

one_waits-Reached : Reached 2 pieces one_waits
unfolding handle act bytes_eq
one_waits-Reached =
    Reached.later 0 Event.take_slot
      (Reached.later 1 Event.load_or_store
        (Reached.later 0 Event.load_or_store Reached.created refl) refl)
      refl

op_by_cid-Reached_example : one_waits.op_by_cid piece_a ≡ some 0
unfolding bytes_eq
op_by_cid-Reached_example =
    op_by_cid-Reached 2 pieces one_waits 0 first_caller one_waits-Reached refl refl
