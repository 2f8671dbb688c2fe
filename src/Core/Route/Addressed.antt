-- ===== src/Core/Route/Addressed.antt =====
-- route_message of src/core/route.c and the users that a message addresses.
use uhub.Prelude.{
  ℕ, ◌+◌, ◌^◌, ◌<◌, ◌≡◌, Bool, true, false, ◌&&◌, ◌||◌, Option, none, some, ◌==◌, if◌then◌else◌,
  length, Bytes, get_or,
}
use uhub.Core.Transport.{Transport}
use uhub.Core.Queue.Stream.{IsQueue, NonEmpty}
use uhub.Core.User.{HubUser}
use uhub.Core.Route.{Limits, Table, Users, do_send, route_to_user}
use uhub.Core.Route.Delivery.{Delivers}
use uhub.Core.Route.Recipients.{member, Visited}
use uhub.Adc.Message.{AdcMessage}

module _ {C : Type 0} (net : Transport C) (limits : Limits) where
  -- Every user can take one message of this length.
  unfoldable pub Ready : Table C → Bytes → Type 0
  Ready table text =
      (s : ℕ) (u : HubUser C)
      → table s ≡ some u
      → IsQueue u.send_queue × (u.send_queue.size + length text < 2 ^ 64)

  abbrev pub Takes : Bytes → HubUser C → HubUser C → Type 0
  Takes text u u' = Delivers net limits u text u'

  abbrev pub TakesOne : AdcMessage → HubUser C → HubUser C → Type 0
  TakesOne msg u u' = Visited (Takes msg.cache) (do_send u msg) (some u) (some u')

  abbrev pub wants : AdcMessage → Option (HubUser C) → Bool
  wants msg none = false
  wants msg (some u) = do_send u msg

  abbrev pub present : Option (HubUser C) → Bool
  present none = false
  present (some u) = true

  -- Whom a message addresses: a broadcast all that are logged in, a direct message its target, an
  -- echoed one its target and its sender if the target is there, a feature message those logged in
  -- that want it.
  abbrev pub addressed : Users C → ℕ → AdcMessage → ℕ → Bool
  addressed users sender msg s =
      let kind = get_or msg.cache 0 0 in
      if kind == b'B'
      then member s users.list
      else if kind == b'D'
      then s == msg.target
      else if kind == b'E'
      then present (users.table msg.target) && (s == msg.target || s == sender)
      else if kind == b'F'
      then member s users.list && wants msg (users.table s)
      else false

  pub record Routed (users : Users C) (msg : AdcMessage) (to : ℕ → Bool) (after : Option (Table C))
      : Type 0 where
    pub table' : Table C
    pub ends : after ≡ some table'
    pub entries : (s : ℕ) → Visited (Takes msg.cache) (to s) (users.table s) (table' s)

  module _ (users : Users C) (msg : AdcMessage) (ready : Ready users.table msg.cache)
      (n : NonEmpty msg.cache) where
    send : HubUser C → Option (HubUser C)
    send u = route_to_user net limits u msg.cache
