-- ===== src/Sectors/PubSub.antt =====
-- lib/boost/sectorstatemgr/pubsub.go. A channel has no buffer, so a message is received by a
-- subscriber that waits for one at that moment.
use txcartool.Common.{
  Bool, true, false, Option, none, some, List, [], ◌∷◌, ◌++◌, if◌then◌else◌, map,
}

pub record Subscriber (A : Type 0) : Type 0 where
  pub waiting : Bool
  pub received : List A
  pub is_closed : Bool

pub record PubSub (A : Type 0) : Type 0 where
  pub subs : List (Subscriber A)
  pub closed : Bool

module _ {A : Type 0} where
  unfoldable pub new_pub_sub : PubSub A
  new_pub_sub = record { subs = []; closed = false }

  -- `select { case ch <- msg: default: }`
  unfoldable pub send_to : A → Subscriber A → Subscriber A
  send_to msg ch =
      if ch.waiting then record ch { waiting = false; received = ch.received ++ msg ∷ [] } else ch

  unfoldable pub publish : A → PubSub A → PubSub A
  unfolding send_to
  publish msg b = if b.closed then b else record b { subs = map (send_to msg) b.subs }

  -- The channel is at the end of the list. There is none once the broker is closed.
  unfoldable pub subscribe : PubSub A → Option (Subscriber A) × PubSub A
  subscribe b =
      if b.closed
      then (none, b)
      else (let ch : Subscriber A = record { waiting = false; received = []; is_closed = false } in
          (some ch, record b { subs = b.subs ++ ch ∷ [] }))

  unfoldable pub close : PubSub A → PubSub A
  close b = if b.closed then b else record {
    subs = map {A = Subscriber A} (λ ch. record ch { is_closed = true }) b.subs;
    closed = true;
  }
