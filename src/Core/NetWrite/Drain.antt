-- ===== src/Core/NetWrite/Drain.antt =====
-- One call of handle_net_write of src/core/netevent.c, on a well-formed queue.
use uhub.Prelude.{
  ℕ, suc, zero, ◌≤◌, ◌≡◌, ◌≢◌, refl, ap, ◌∙◌, Option, none, some, List, [], ◌∷◌, ◌++◌, ◌==◌, length,
  drop, length-drop, Bytes, arith, Bool-cases, inl, inr, ◌⊎◌,
}
use uhub.Core.Transport.{Transport}
use uhub.Core.Queue.{
  IoqSend, ioq_send_send, ioq_send_get_bytes, Progress, message_sent, waiting, broken,
}
use uhub.Core.Queue.Stream.{IsQueue, pending, concat, ioq_send_get_bytes-pending}
use uhub.Core.Queue.Send.{ioq_send_send-stream, ioq_send_send-shorter, ioq_send_send-smaller}
use uhub.Core.NetWrite.{
  NetWrite, want_write, want_read, write_loop, write_end, next_event, handle_net_write,
}

Progress-cases : (p : Progress) → (p ≡ message_sent) ⊎ ((p ≡ waiting) ⊎ (p ≡ broken))
Progress-cases message_sent = inl refl
Progress-cases waiting = inr (inl refl)
Progress-cases broken = inr (inr refl)

no_messages : (q : IoqSend) → IsQueue q → length q.queue ≤ 0 → ioq_send_get_bytes q ≡ 0
no_messages q h le = ioq_send_get_bytes-pending q h ∙ none_pending q.queue q.offset le
  where
    none_pending :
        (queue : List Bytes) (offset : ℕ)
        → length queue ≤ 0
        → length (drop offset (concat queue)) ≡ 0
    none_pending [] offset le = omega (arith, length-drop offset (concat []))
    none_pending (m ∷ ms) offset le = elim le [ ]

module _ {ℓ} {C : Type ℓ} (net : Transport C) where
  pub record Drained (q : IoqSend) (con : C) (q' : IoqSend) (con' : C) : Type 0 where
    pub stream : net.written con' ++ pending q' ≡ net.written con ++ pending q
    pub kept : IsQueue q'
    pub smaller : q'.size ≤ q.size

  abbrev Looped : IoqSend → C → Option (IoqSend × C × Progress) → Type 0
  Looped q con none = ⊥
  Looped q con (some (q', con', ret)) =
      Drained q con q' con' × (ret ≡ message_sent → ioq_send_get_bytes q' ≡ 0)

  same : (q : IoqSend) (con : C) → IsQueue q → Drained q con q con
  same q con h = record { stream = refl; kept = h; smaller = omega arith }

  one_call :
      (q : IoqSend) (con : C)
      → IsQueue q
      → Drained q con (ioq_send_send net q con).0 (ioq_send_send net q con).1
  one_call q con h =
      let s = ioq_send_send-stream net q con h in
      record { stream = s.0; kept = s.1; smaller = ioq_send_send-smaller net q con h }

  Looped-then :
      (q q₁ : IoqSend) (con con₁ : C) (r : Option (IoqSend × C × Progress))
      → Drained q con q₁ con₁
      → Looped q₁ con₁ r
      → Looped q con r
  Looped-then q q₁ con con₁ none d e = e
  Looped-then q q₁ con con₁ (some (q', con', ret)) d (e, done) = (
    record {
      stream = e.stream ∙ d.stream;
      kept = e.kept;
      smaller = omega (arith, e.smaller, d.smaller);
    },
    done,
  )

  loop :
      (fuel : ℕ) (q : IoqSend) (con : C) (ret : Progress)
      → IsQueue q
      → length q.queue ≤ fuel
      → Looped q con (write_loop net fuel q con ret)
  unfolding write_loop
  loop zero q con ret h le = elim (Bool-cases (ioq_send_get_bytes q == 0)) [
    | inl e ↦ rw (e, write_loop) (same q con h, λ sent. ground (arith, e))
    | inr ne ↦ absurd (ground (arith, ne, no_messages q h le))
  ]
  loop (suc fuel) q con ret h le = elim (Bool-cases (ioq_send_get_bytes q == 0)) [
    | inl e ↦ rw (e, write_loop) (same q con h, λ sent. ground (arith, e))
    | inr ne ↦ elim (Progress-cases (ioq_send_send net q con).2) [
      | inl sent ↦
          let d = one_call q con h in
          let less = ioq_send_send-shorter net q con sent in
          rw (ne, sent, write_loop)
            (Looped-then _ _ _ _ _ d (loop fuel _ _ message_sent d.kept (omega (arith, less, le))))
      | inr (inl wait) ↦ rw (ne, wait, write_loop) (one_call q con h, λ sent. ground (arith))
      | inr (inr bad) ↦ rw (ne, bad, write_loop) (one_call q con h, λ sent. ground (arith))
    ]
  ]

  -- What a whole call has done: an outcome is there, the stream is kept, and the events asked for
  -- tell whether anything is left to write.
  abbrev pub Finished : IoqSend → C → Option (IoqSend × C × NetWrite) → Type 0
  Finished q con none = ⊥
  Finished q con (some (q', con', event)) =
      Drained q con q' con'
      × (event ≡ want_read → pending q' ≡ [])
      × (event ≡ want_write → pending q' ≢ [])

  no_bytes : (xs : Bytes) → length xs ≡ 0 → xs ≡ []
  no_bytes [] e = refl
  no_bytes (x ∷ xs) e = absurd (ground (arith, e))

  next_event-pending :
      (q : IoqSend)
      → IsQueue q
      → (next_event q ≡ want_read → pending q ≡ []) × (next_event q ≡ want_write → pending q ≢ [])
  unfolding next_event
  next_event-pending q h = elim (Bool-cases (ioq_send_get_bytes q == 0)) [
    | inl e ↦
        rw (e, next_event)
          (
            λ w. no_bytes (pending q) (ground (arith, e, ioq_send_get_bytes-pending q h)),
            λ w. ground arith,
          )
    | inr ne ↦
        rw (ne, next_event)
          (
            λ w. ground arith,
            λ w f. ground (arith, ne, ioq_send_get_bytes-pending q h, ap length f),
          )
  ]

  finish :
      (q q' : IoqSend) (con con' : C) (ret : Progress)
      → Drained q con q' con'
      → Finished q con (some (write_end net (q', con', ret)))
  unfolding write_end
  finish q q' con con' broken d = (d, λ e. ground arith, λ e. ground arith)
  finish q q' con con' message_sent d = let e = next_event-pending q' d.kept in (d, e.0, e.1)
  finish q q' con con' waiting d = let e = next_event-pending q' d.kept in (d, e.0, e.1)

  -- On a well-formed queue the loop always ends, and the stream of bytes is kept; the call then
  -- waits for reading only if nothing is left to write, and for writing only if something is.
  pub handle_net_write-Finished :
      (q : IoqSend) (con : C) → IsQueue q → Finished q con (handle_net_write net q con)
  unfolding handle_net_write
  handle_net_write-Finished q con h = go _ (loop (length q.queue) q con waiting h (omega arith))
    where
      go :
          (r : Option (IoqSend × C × Progress))
          → Looped q con r
          → Finished q con (elim r [ none ↦ none | some r ↦ some (write_end net r) ])
      go none e = e
      go (some (q', con', ret)) (d, done) = finish q q' con con' ret d
