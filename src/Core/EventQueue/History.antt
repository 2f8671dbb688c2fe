-- ===== src/Core/EventQueue/History.antt =====
-- The order in which the events of src/core/eventqueue.c are handled.
use uhub.Prelude.{
  ◌≡◌, refl, sym, ap, ◌∙◌, Bool, true, false, List, [], ◌∷◌, ◌++◌, append_assoc, append-nil,
}
use uhub.Core.EventQueue.{
  EventQueue, event_queue_initialize, event_queue_post, post_all, end_round, any_events, run_events,
  close_round, event_queue_process,
}

module _ {E : Type 0} where
  -- Between two rounds nothing is locked and nothing waits in the secondary queue.
  pub record IsIdle (queue : EventQueue E) : Type 0 where
    pub unlocked : queue.locked ≡ false
    pub second : queue.q2 ≡ []

  abbrev busy_queue : List E → List E → EventQueue E
  busy_queue q1 q2 = record { locked = true; q1 = q1; q2 = q2 }

  post_all-busy_queue :
      (q1 q2 es : List E) → post_all (busy_queue q1 q2) es ≡ busy_queue q1 (q2 ++ es)
  unfolding post_all event_queue_post
  post_all-busy_queue q1 q2 [] = ap (busy_queue q1) (sym (append-nil q2))
  post_all-busy_queue q1 q2 (e ∷ es) =
      post_all-busy_queue q1 (q2 ++ e ∷ []) es ∙ ap (busy_queue q1) (append_assoc q2 (e ∷ []) es)

module _ {E S : Type 0} (callback : S → E → S × List E) where
  -- What a list of events does, and all that is posted meanwhile.
  abbrev pub handle_events : S → List E → S × List E
  handle_events s [] = (s, [])
  handle_events s (e ∷ es) =
      let (s', posted) = callback s e in
      let (s'', more) = handle_events s' es in (s'', posted ++ more)

  run_events-busy_queue :
      (q1 q2 : List E) (s : S) (es : List E)
      → run_events callback (busy_queue q1 q2) s es
        ≡ (busy_queue q1 (q2 ++ (handle_events s es).1), (handle_events s es).0)
  unfolding run_events
  run_events-busy_queue q1 q2 s [] = ap (λ q. (busy_queue q1 q, s)) (sym (append-nil q2))
  run_events-busy_queue q1 q2 s (e ∷ es) =
      ap (λ q. run_events callback q (callback s e).0 es)
        (post_all-busy_queue q1 q2 (callback s e).1)
      ∙ run_events-busy_queue q1 (q2 ++ (callback s e).1) (callback s e).0 es
      ∙ ap (λ q. (busy_queue q1 q, (handle_events (callback s e).0 es).0))
          (append_assoc q2 (callback s e).1 (handle_events (callback s e).0 es).1)

  -- One round handles the events that were waiting, in order, and leaves exactly those that were
  -- posted in the meantime, in order; the result tells whether there are any.
  pub event_queue_process-round :
      (queue : EventQueue E) (s : S)
      → IsIdle queue
      → event_queue_process callback queue s ≡ (
        record { locked = false; q1 = (handle_events s queue.q1).1; q2 = [] },
        (handle_events s queue.q1).0,
        any_events (handle_events s queue.q1).1,
      )
  unfolding event_queue_process close_round end_round
  event_queue_process-round queue s idle = go queue.locked queue.q2 idle.unlocked idle.second
    where
      go :
          (locked : Bool) (q2 : List E)
          → locked ≡ false
          → q2 ≡ []
          → event_queue_process callback (record { locked = locked; q1 = queue.q1; q2 = q2 }) s ≡ (
            record { locked = false; q1 = (handle_events s queue.q1).1; q2 = [] },
            (handle_events s queue.q1).0,
            any_events (handle_events s queue.q1).1,
          )
      go locked q2 u e =
          rw (u, e) (ap (close_round callback) (run_events-busy_queue queue.q1 [] s queue.q1))

  -- A life of the queue, with all that was posted and all that was handled.
  pub data History : List E → List E → EventQueue E → S → Type 0 where
    created : (s : S) → History [] [] event_queue_initialize s
    posts :
        {p h : List E} {q : EventQueue E} {s : S} (e : E)
        → History p h q s
        → History (p ++ e ∷ []) h (event_queue_post q e) s
    processes :
        {p h : List E} {q : EventQueue E} {s : S}
        → History p h q s
        → History
            (p ++ (handle_events s q.q1).1)
            (h ++ q.q1)
            (event_queue_process callback q s).0
            (event_queue_process callback q s).1

  -- At any time between two rounds, the events handled so far and those still waiting are together
  -- all that were posted, in the order of their posting.
  pub event_queue_process-in_order :
      (p h : List E) (q : EventQueue E) (s : S) → History p h q s → (p ≡ h ++ q.q1) × IsIdle q
  unfolding event_queue_initialize event_queue_post
  event_queue_process-in_order p h q s (created _) =
      (refl, record { unlocked = refl; second = refl })
  event_queue_process-in_order p h q s (posts {p = p₀} {q = q₀} e before) =
      let (order, idle) = event_queue_process-in_order p₀ h q₀ s before in
      rw (idle.unlocked, order)
        (append_assoc h q₀.q1 (e ∷ []), record { unlocked = refl; second = idle.second })
  event_queue_process-in_order p h q s (processes {p = p₀} {h = h₀} {q = q₀} {s = s₀} before) =
      let (order, idle) = event_queue_process-in_order p₀ h₀ q₀ s₀ before in
      rw (event_queue_process-round q₀ s₀ idle)
        (ap (λ x. x ++ (handle_events s₀ q₀.q1).1) order, record { unlocked = refl; second = refl })
