-- ===== src/Core/NetWrite/Runs.antt =====
-- The life of a send queue: messages are added, and write events drain it, in any order.
use uhub.Prelude.{
  ◌+◌, ◌<◌, ◌^◌, ◌≡◌, sym, ap, ◌∙◌, some, List, [], ◌∷◌, ◌++◌, length, append-nil, append_assoc,
  Bytes, subst,
}
use uhub.Core.Transport.{Transport}
use uhub.Core.Queue.{IoqSend, ioq_send_create, ioq_send_add}
use uhub.Core.Queue.Stream.{
  IsQueue, pending, concat, NonEmpty, concat-append, ioq_send_add-pending, ioq_send_add-IsQueue,
  ioq_send_create-IsQueue,
}
use uhub.Core.NetWrite.{NetWrite, handle_net_write}
use uhub.Core.NetWrite.Drain.{Finished, handle_net_write-Finished}

module _ {ℓ} {C : Type ℓ} (net : Transport C) where
  -- The queue and the connection that are reached when some messages have been added.
  pub data Reached : List Bytes → IoqSend → C → Type ℓ where
    opened : (con : C) → net.written con ≡ [] → Reached [] ioq_send_create con
    added :
        {ms : List Bytes} {q : IoqSend} {con : C} (msg : Bytes)
        → Reached ms q con
        → NonEmpty msg
        → q.size + length msg < 2 ^ 64
        → Reached (ms ++ msg ∷ []) (ioq_send_add q msg) con
    wrote :
        {ms : List Bytes} {q q' : IoqSend} {con con' : C} {event : NetWrite}
        → Reached ms q con
        → handle_net_write net q con ≡ some (q', con', event)
        → Reached ms q' con'

  -- From an empty queue and a fresh connection, whatever non-empty messages are added, below a
  -- total of 2^64 bytes in the queue, and whenever the connection can take some of them, what it
  -- was given and what is pending are together exactly those messages, in their order.
  pub handle_net_write-in_order :
      (ms : List Bytes) (q : IoqSend) (con : C)
      → Reached ms q con
      → (net.written con ++ pending q ≡ concat ms) × IsQueue q
  handle_net_write-in_order ms q con (opened _ e) =
      let (h, none_left) = ioq_send_create-IsQueue in (rw (e, none_left), h)
  handle_net_write-in_order ms q con (added {ms = before} {q = q₀} msg r n room) =
      let (stream, h) = handle_net_write-in_order before q₀ con r in
      (
        rw (ioq_send_add-pending q₀ msg h, concat-append before (msg ∷ []), append-nil msg)
            (sym (append_assoc (net.written con) (pending q₀) msg) ∙ ap (λ t. t ++ msg) stream),
        ioq_send_add-IsQueue q₀ msg h n room,
      )
  handle_net_write-in_order ms q con (wrote {q = q₀} {con = con₀} r e) =
      let (stream, h) = handle_net_write-in_order ms q₀ con₀ r in
      let f = subst (Finished net q₀ con₀) e (handle_net_write-Finished net q₀ con₀ h) in
      (f.0.stream ∙ stream, f.0.kept)
