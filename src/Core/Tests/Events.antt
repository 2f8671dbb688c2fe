-- ===== src/Core/Tests/Events.antt =====
-- Runs of the model of src/core/eventqueue.c, with a callback that posts another event.
use uhub.Prelude.{ℕ, zero, suc, ◌≡◌, false, List, [], ◌∷◌, ◌++◌}
use uhub.Core.EventQueue.{EventQueue, event_queue_initialize, event_queue_post, event_queue_process}
use uhub.Core.EventQueue.History.{
  IsIdle, History, created, posts, processes, event_queue_process-in_order,
}

-- The event `suc n` posts `n`, and the state is the events handled.
abbrev count_down : List ℕ → ℕ → List ℕ × List ℕ
count_down done zero = (done ++ 0 ∷ [], [])
count_down done (suc n) = (done ++ suc n ∷ [], n ∷ [])

abbrev two_events : EventQueue ℕ
two_events = record { locked = false; q1 = 2 ∷ 0 ∷ []; q2 = [] }

in_order_events : History count_down (2 ∷ 0 ∷ []) [] two_events []
unfolding event_queue_initialize event_queue_post
in_order_events = posts 0 (posts 2 (created []))

abbrev all_posted : List ℕ
all_posted = 2 ∷ 0 ∷ 1 ∷ []

abbrev all_handled : List ℕ
all_handled = 2 ∷ 0 ∷ []

events_in_order_example :
    (all_posted ≡ all_handled ++ (event_queue_process count_down two_events []).0.q1)
    × IsIdle (event_queue_process count_down two_events []).0
unfolding event_queue_process
events_in_order_example =
    event_queue_process-in_order count_down all_posted all_handled
      (event_queue_process count_down two_events []).0 all_handled (processes in_order_events)
