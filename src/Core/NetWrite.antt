-- ===== src/Core/NetWrite.antt =====
-- src/core/netevent.c: writing the send queue of a user to its connection.
pub mod Drain
pub mod Runs
use uhub.Prelude.{ℕ, suc, zero, Bool, true, false, Option, none, some, List, ◌==◌, length}
use uhub.Core.Transport.{Transport}
use uhub.Core.Queue.{
  IoqSend, ioq_send_send, ioq_send_get_bytes, Progress, message_sent, waiting, broken,
}

-- How the call ends: `quit_socket_error`, or 0 after it has asked for the events it waits for.
pub data NetWrite : Type 0 where
  socket_error : NetWrite
  want_write : NetWrite
  want_read : NetWrite

pub next_event : IoqSend → NetWrite
unfolding ioq_send_get_bytes
next_event q = elim (ioq_send_get_bytes q == 0) [ true ↦ want_read | false ↦ want_write ]

module _ {ℓ} {C : Type ℓ} (net : Transport C) where
  -- The loop, with the last return value of `ioq_send_send`; `none` is fuel run out.
  pub write_loop : ℕ → IoqSend → C → Progress → Option (IoqSend × C × Progress)
  unfolding ioq_send_get_bytes
  write_loop zero q con ret = elim (ioq_send_get_bytes q == 0) [
    | true ↦ some (q, con, ret)
    | false ↦ none
  ]
  write_loop (suc fuel) q con ret = elim (ioq_send_get_bytes q == 0) [
    | true ↦ some (q, con, ret)
    | false ↦
        let (next, con₁, ret₁) = ioq_send_send net q con in
        elim ret₁ [
          | message_sent ↦ write_loop fuel next con₁ message_sent
          | waiting ↦ some (next, con₁, waiting)
          | broken ↦ some (next, con₁, broken)
        ]
  ]

  pub write_end : IoqSend × C × Progress → IoqSend × C × NetWrite
  write_end (q, con, broken) = (q, con, socket_error)
  write_end (q, con, message_sent) = (q, con, next_event q)
  write_end (q, con, waiting) = (q, con, next_event q)

  -- Every round but the last takes a message off the queue.
  unfoldable pub handle_net_write : IoqSend → C → Option (IoqSend × C × NetWrite)
  unfolding write_loop write_end next_event ioq_send_get_bytes
  handle_net_write q con = elim (write_loop (length q.queue) q con waiting) [
    | none ↦ none
    | some r ↦ some (write_end r)
  ]
