-- ===== src/Core/Queue.antt =====
-- src/core/ioqueue.c: the send queue and the receive queue of a user.
-- A queued message is its text: nothing changes a message that others may hold as well, and the
-- count of its references is in Adc/Message. `size` and `offset` are of type size_t.
pub mod Stream
pub mod Send
use uhub.Prelude.{
  ℕ, suc, ◌+◌, ◌-◌, ◌%◌, ◌^◌, Bool, true, false, List, [], ◌∷◌, ◌++◌, ltb, ◌==◌, if◌then◌else◌,
  length, drop, Bytes,
}
use uhub.Core.Transport.{Transport, Sent, accepted, blocked, failed}

pub record IoqSend : Type 0 where
  pub size : ℕ
  pub offset : ℕ
  pub queue : List Bytes

unfoldable pub ioq_send_create : IoqSend
ioq_send_create = record { size = 0; offset = 0; queue = [] }

-- The test of an empty message is an assertion.
unfoldable pub ioq_send_add : IoqSend → Bytes → IoqSend
ioq_send_add q msg = record q { queue = q.queue ++ msg ∷ []; size = (q.size + length msg) % 2 ^ 64 }

-- The message removed is the first of the queue, and `list_remove` takes the first entry that is it.
unfoldable pub ioq_send_remove : IoqSend → Bytes → List Bytes → IoqSend
ioq_send_remove q msg rest = record q {
  queue = rest;
  size = (q.size + (2 ^ 64 - length msg)) % 2 ^ 64;
  offset = 0;
}

-- The return value of `ioq_send_send`: 1, 0 or a negative number.
pub data Progress : Type 0 where
  message_sent : Progress
  waiting : Progress
  broken : Progress

module _ {ℓ} {C : Type ℓ} (net : Transport C) where
  -- What follows the call of `net_con_send`; the unsigned difference of length and offset is 0
  -- exactly when they are equal.
  unfoldable pub after_send : IoqSend → Bytes → List Bytes → Sent → IoqSend × Progress
  unfolding ioq_send_remove
  after_send q msg rest (accepted ret) =
      let sent = record q { offset = q.offset + ret } in
      if length msg == sent.offset
      then (ioq_send_remove sent msg rest, message_sent)
      else (sent, waiting)
  after_send q msg rest blocked = (q, waiting)
  after_send q msg rest failed = (q, broken)

  unfoldable pub ioq_send_send : IoqSend → C → IoqSend × C × Progress
  unfolding after_send
  ioq_send_send q con = elim q.queue [
    | [] ↦ (q, con, waiting)
    | msg ∷ rest ↦
        let (next, ret) = net.send con (drop q.offset msg) in
        let (after, progress) = after_send q msg rest ret in (after, next, progress)
  ]

unfoldable pub ioq_send_get_bytes : IoqSend → ℕ
ioq_send_get_bytes q = (q.size + (2 ^ 64 - q.offset)) % 2 ^ 64

unfoldable pub ioq_send_is_empty : IoqSend → Bool
ioq_send_is_empty q = (q.size + (2 ^ 64 - q.offset)) % 2 ^ 64 == 0

-- A null buffer has the size 0.
pub record IoqRecv : Type 0 where
  pub buf : Bytes

-- The bytes copied out, and the queue after it; that they fit is an assertion.
pub ioq_recv_get : IoqRecv → Bytes × IoqRecv
ioq_recv_get q = (q.buf, record { buf = [] })

pub ioq_recv_set : IoqRecv → Bytes → IoqRecv
ioq_recv_set q buf = record { buf = buf }
