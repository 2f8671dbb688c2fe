-- ===== src/Core/EventQueue.antt =====
-- src/core/eventqueue.c: the queue of hub events.
-- Allocation succeeds. The callback is a parameter: what it does to the rest of the hub, and the
-- events that it posts while it handles one.
pub mod History
use uhub.Prelude.{Bool, true, false, not, List, [], ◌∷◌, ◌++◌, if◌then◌else◌}

pub record EventQueue (E : Type 0) : Type 0 where
  pub locked : Bool
  pub q1 : List E
  pub q2 : List E

module _ {E : Type 0} where
  unfoldable pub event_queue_initialize : EventQueue E
  event_queue_initialize = record { locked = false; q1 = []; q2 = [] }

  unfoldable pub event_queue_post : EventQueue E → E → EventQueue E
  event_queue_post queue message =
      if not queue.locked
      then record queue { q1 = queue.q1 ++ message ∷ [] }
      else record queue { q2 = queue.q2 ++ message ∷ [] }

  unfoldable pub post_all : EventQueue E → List E → EventQueue E
  unfolding event_queue_post
  post_all queue [] = queue
  post_all queue (message ∷ rest) = post_all (event_queue_post queue message) rest

  -- The end of a round: the primary queue is cleared, unlocked, and takes over the secondary one.
  unfoldable pub end_round : EventQueue E → EventQueue E
  end_round queue = record { locked = false; q1 = [] ++ queue.q2; q2 = [] }

  pub any_events : List E → Bool
  any_events [] = false
  any_events (message ∷ rest) = true

module _ {E S : Type 0} (callback : S → E → S × List E) where
  -- The loop over the events of the primary queue.
  unfoldable pub run_events : EventQueue E → S → List E → EventQueue E × S
  unfolding post_all
  run_events queue s [] = (queue, s)
  run_events queue s (event ∷ rest) =
      let (s', posted) = callback s event in run_events (post_all queue posted) s' rest

  unfoldable pub close_round : EventQueue E × S → EventQueue E × S × Bool
  unfolding end_round any_events
  close_round (queue, s) = (end_round queue, s, any_events (end_round queue).q1)

  -- The result is whether there are more events.
  unfoldable pub event_queue_process : EventQueue E → S → EventQueue E × S × Bool
  unfolding run_events close_round
  event_queue_process queue s = elim queue.locked [
    | true ↦ (queue, s, false)
    | false ↦ close_round (run_events (record queue { locked = true }) s queue.q1)
  ]
