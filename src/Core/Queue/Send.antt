-- ===== src/Core/Queue/Send.antt =====
-- One call of ioq_send_send of src/core/ioqueue.c.
use uhub.Prelude.{
  ℕ, ◌+◌, ◌-◌, ◌≤◌, ◌<◌, ◌≡◌, refl, ap, sym, ◌∙◌, List, [], ◌∷◌, ◌++◌, ◌==◌, length, take, drop,
  Bytes, All, length-append, append_assoc, arith, inl, inr, take-drop, drop-append, drop-drop,
  length-drop, take_all, Bool-cases, ==_iff,
}
use uhub.Core.Transport.{Transport, Sent, accepted, blocked, failed, accepted_bytes}
use uhub.Core.Queue.{
  IoqSend, ioq_send_remove, after_send, ioq_send_send, Progress, message_sent, waiting, broken,
}
use uhub.Core.Queue.Stream.{concat, pending, Within, NonEmpty, IsQueue, made}

pending-front :
    (size offset : ℕ) (msg : Bytes) (rest : List Bytes)
    → offset < length msg
    → pending (made size offset (msg ∷ rest)) ≡ drop offset msg ++ concat rest
pending-front size offset msg rest h = drop-append offset msg (concat rest) (omega arith)

-- One call hands the front of what is pending to the connection.
record Sends (q : IoqSend) (n : ℕ) (msg : Bytes) (r : IoqSend × Progress) : Type 0 where
  handed : take n (drop q.offset msg) ++ pending r.0 ≡ pending q
  kept : IsQueue r.0
  smaller : r.0.size ≤ q.size

module _ {ℓ} {C : Type ℓ} (net : Transport C) where
  partly_sent :
      (size offset n : ℕ) (msg : Bytes) (rest : List Bytes)
      → IsQueue (made size offset (msg ∷ rest))
      → offset + n < length msg
      → Sends (made size offset (msg ∷ rest)) n msg (made size (offset + n) (msg ∷ rest), waiting)
  partly_sent size offset n msg rest h lt = record {
    handed =
        rw
          (
            pending-front size (offset + n) msg rest lt,
            pending-front size offset msg rest h.within,
            ← drop-drop offset n msg,
          )
          (sym (append_assoc (take n (drop offset msg)) (drop n (drop offset msg)) (concat rest))
            ∙ ap (λ t. t ++ concat rest) (take-drop n (drop offset msg)));
    kept = record { sized = h.sized; bounded = h.bounded; messages = h.messages; within = lt };
    smaller = omega arith;
  }

  Within-first : (rest : List Bytes) → All NonEmpty rest → Within 0 rest
  Within-first [] h = refl
  Within-first (m ∷ rest) h = h.0

  wholly_sent :
      (size offset n : ℕ) (msg : Bytes) (rest : List Bytes)
      → IsQueue (made size offset (msg ∷ rest))
      → offset + n ≡ length msg
      → Sends
          (made size offset (msg ∷ rest))
          n
          msg
          (ioq_send_remove (made size (offset + n) (msg ∷ rest)) msg rest, message_sent)
  unfolding ioq_send_remove
  wholly_sent size offset n msg rest h e = record {
    handed = rw (
      pending-front size offset msg rest h.within,
      take_all n (drop offset msg) (omega (arith, length-drop offset msg, e)),
    );
    kept = record {
      sized = omega (arith, h.sized, h.bounded, length-append msg (concat rest));
      bounded = omega arith;
      messages = h.messages.1;
      within = Within-first rest h.messages.1;
    };
    smaller = omega (arith, h.sized, h.bounded, length-append msg (concat rest));
  }

  unsent :
      (size offset : ℕ) (msg : Bytes) (rest : List Bytes) (p : Progress)
      → IsQueue (made size offset (msg ∷ rest))
      → Sends (made size offset (msg ∷ rest)) 0 msg (made size offset (msg ∷ rest), p)
  unsent size offset msg rest p h = record { handed = refl; kept = h; smaller = omega arith }

  after_send-Sends :
      (size offset : ℕ) (msg : Bytes) (rest : List Bytes) (ret : Sent)
      → IsQueue (made size offset (msg ∷ rest))
      → accepted_bytes ret ≤ length (drop offset msg)
      → Sends
          (made size offset (msg ∷ rest))
          (accepted_bytes ret)
          msg
          (after_send net (made size offset (msg ∷ rest)) msg rest ret)
  unfolding after_send
  after_send-Sends size offset msg rest (accepted n) h le =
      let most : n ≤ length msg - offset = omega (arith, le, length-drop offset msg) in
      elim (Bool-cases (length msg == offset + n)) [
        | inl e ↦ rw (e) (
            wholly_sent size offset n msg rest h
              (let k = (==_iff (length msg) (offset + n)).0 e in sym k))
        | inr ne ↦ rw (ne) (
            partly_sent size offset n msg rest h
              (let w : offset < length msg = h.within in ground arith))
      ]
  after_send-Sends size offset msg rest blocked h le = unsent size offset msg rest waiting h
  after_send-Sends size offset msg rest failed h le = unsent size offset msg rest broken h

  -- One call of `ioq_send_send` on a well-formed queue keeps it well formed, and moves bytes from
  -- the front of what is pending to the end of what the connection was given, losing and repeating none.
  pub ioq_send_send-stream :
      (q : IoqSend) (con : C)
      → IsQueue q
      → (let (q', con', p) = ioq_send_send net q con in
          (net.written con' ++ pending q' ≡ net.written con ++ pending q) × IsQueue q')
  unfolding ioq_send_send
  ioq_send_send-stream q con h = go q.queue q.size q.offset h
    where
      go :
          (queue : List Bytes) (size offset : ℕ)
          → IsQueue (made size offset queue)
          → (let (q', con', p) = ioq_send_send net (made size offset queue) con in
              (net.written con' ++ pending q' ≡ net.written con ++ pending (made size offset queue))
              × IsQueue q')
      go [] size offset h = (refl, h)
      go (msg ∷ rest) size offset h =
          let buf = drop offset msg in
          let s =
            after_send-Sends size offset msg rest (net.send con buf).1 h
              (net.accepted_most con buf) in
          (
            rw (net.written_next con buf, append_assoc) (ap (λ t. net.written con ++ t) s.handed),
            s.kept,
          )

  pub ioq_send_send-smaller :
      (q : IoqSend) (con : C) → IsQueue q → (ioq_send_send net q con).0.size ≤ q.size
  unfolding ioq_send_send
  ioq_send_send-smaller q con h = go q.queue q.size q.offset h
    where
      go :
          (queue : List Bytes) (size offset : ℕ)
          → IsQueue (made size offset queue)
          → (ioq_send_send net (made size offset queue) con).0.size ≤ size
      go [] size offset h = omega arith
      go (msg ∷ rest) size offset h =
          let buf = drop offset msg in
          let s =
            after_send-Sends size offset msg rest (net.send con buf).1 h
              (net.accepted_most con buf) in
          s.smaller

  -- A call that sent a whole message leaves one fewer in the queue.
  pub ioq_send_send-shorter :
      (q : IoqSend) (con : C)
      → (ioq_send_send net q con).2 ≡ message_sent
      → length (ioq_send_send net q con).0.queue + 1 ≡ length q.queue
  unfolding ioq_send_send after_send ioq_send_remove
  ioq_send_send-shorter q con e = go q.queue refl e
    where
      after :
          (size offset : ℕ) (msg : Bytes) (rest : List Bytes) (ret : Sent)
          → (after_send net (made size offset (msg ∷ rest)) msg rest ret).1 ≡ message_sent
          → length (after_send net (made size offset (msg ∷ rest)) msg rest ret).0.queue
            ≡ length rest
      after size offset msg rest (accepted n) e = ground arith
      after size offset msg rest blocked e = ground arith
      after size offset msg rest failed e = ground arith

      go :
          (queue : List Bytes)
          → q.queue ≡ queue
          → (ioq_send_send net (made q.size q.offset queue) con).2 ≡ message_sent
          → length (ioq_send_send net (made q.size q.offset queue) con).0.queue + 1 ≡ length queue
      go [] f e = ground arith
      go (msg ∷ rest) f e = omega (arith, after q.size q.offset msg rest _ e)
