-- ===== src/Core/Queue/Stream.antt =====
-- The send queue of src/core/ioqueue.c as a stream of bytes.
use uhub.Prelude.{
  true, ◌%◌, ℕ, ◌+◌, ◌-◌, ◌^◌, ◌≤◌, ◌<◌, ◌≡◌, refl, sym, List, [], ◌∷◌, ◌++◌, ◌==◌, length, drop,
  Bytes, All, All-append, length-append, append_assoc, append-nil, arith, drop-append, length-drop,
  ==_iff,
}
use uhub.Core.Queue.{IoqSend, ioq_send_create, ioq_send_add, ioq_send_get_bytes, ioq_send_is_empty}

abbrev pub concat : List Bytes → Bytes
concat [] = []
concat (m ∷ ms) = m ++ concat ms

-- What the queue still owes to the connection.
abbrev pub pending : IoqSend → Bytes
pending q = drop q.offset (concat q.queue)

-- The offset lies within the first message.
abbrev pub Within : ℕ → List Bytes → Type 0
Within offset [] = offset ≡ 0
Within offset (m ∷ ms) = offset < length m

abbrev pub NonEmpty : Bytes → Type 0
NonEmpty m = 0 < length m

pub record IsQueue (q : IoqSend) : Type 0 where
  pub sized : q.size ≡ length (concat q.queue)
  pub bounded : q.size < 2 ^ 64
  pub messages : All NonEmpty q.queue
  pub within : Within q.offset q.queue

pub concat-append : (xs ys : List Bytes) → concat (xs ++ ys) ≡ concat xs ++ concat ys
concat-append [] ys = refl
concat-append (x ∷ xs) ys = rw (concat-append xs ys) (sym (append_assoc x (concat xs) (concat ys)))

pub Within-le : (offset : ℕ) (q : List Bytes) → Within offset q → offset ≤ length (concat q)
Within-le offset [] h = omega arith
Within-le offset (m ∷ ms) h = omega (arith, length-append m (concat ms))

Within-append :
    (offset : ℕ) (q : List Bytes) (m : Bytes)
    → NonEmpty m
    → Within offset q
    → Within offset (q ++ m ∷ [])
Within-append offset [] m n h = omega arith
Within-append offset (x ∷ q) m n h = h

pub ioq_send_add-pending :
    (q : IoqSend) (msg : Bytes) → IsQueue q → pending (ioq_send_add q msg) ≡ pending q ++ msg
unfolding ioq_send_add
ioq_send_add-pending q msg h =
    rw (concat-append q.queue (msg ∷ []), append-nil msg)
      (drop-append q.offset (concat q.queue) msg (Within-le q.offset q.queue h.within))

pub ioq_send_add-IsQueue :
    (q : IoqSend) (msg : Bytes)
    → IsQueue q
    → NonEmpty msg
    → q.size + length msg < 2 ^ 64
    → IsQueue (ioq_send_add q msg)
unfolding ioq_send_add
ioq_send_add-IsQueue q msg h n room = record {
  sized =
      rw (concat-append q.queue (msg ∷ []), append-nil msg)
        (omega (arith, h.sized, length-append (concat q.queue) msg));
  bounded = omega arith;
  messages = All-append NonEmpty q.queue (msg ∷ []) h.messages (n, tt);
  within = Within-append q.offset q.queue msg n h.within;
}

abbrev pub made : ℕ → ℕ → List Bytes → IoqSend
made size offset queue = record { size = size; offset = offset; queue = queue }

pub ioq_send_get_bytes-pending :
    (q : IoqSend) → IsQueue q → ioq_send_get_bytes q ≡ length (pending q)
unfolding ioq_send_get_bytes
ioq_send_get_bytes-pending q h = omega (
  arith,
  h.sized,
  h.bounded,
  Within-le q.offset q.queue h.within,
  length-drop q.offset (concat q.queue),
)

pub ioq_send_create-IsQueue : IsQueue ioq_send_create × (pending ioq_send_create ≡ [])
unfolding ioq_send_create
ioq_send_create-IsQueue =
    (record { sized = refl; bounded = omega arith; messages = tt; within = refl }, refl)

pub ioq_send_add-size :
    (q : IoqSend) (msg : Bytes)
    → q.size + length msg < 2 ^ 64
    → (ioq_send_add q msg).size ≡ q.size + length msg
unfolding ioq_send_add
ioq_send_add-size q msg room = omega arith

-- A queue that counts as empty has no messages.
pub empty-size : (q : IoqSend) → IsQueue q → ioq_send_is_empty q ≡ true → q.size ≡ 0
unfolding ioq_send_is_empty
empty-size q h e = go q.queue q.size q.offset h e
  where
    go :
        (queue : List Bytes) (size offset : ℕ)
        → IsQueue (made size offset queue)
        → ((size + (2 ^ 64 - offset)) % 2 ^ 64 == 0) ≡ true
        → size ≡ 0
    go [] size offset h e = h.sized
    go (m ∷ ms) size offset h e =
        absurd (
          omega
            (arith, h.sized, h.bounded, h.within, length-append m (concat ms), (==_iff _ 0).0 e))
