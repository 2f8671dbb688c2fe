-- ===== src/Core/Route/Delivery.antt =====
-- route_to_user of src/core/route.c and the stream of bytes for one user.
use uhub.Prelude.{
  ℕ, ◌+◌, ◌%◌, ◌^◌, ◌≤◌, ◌<◌, ◌≡◌, refl, sym, ap, ◌∙◌, Bool, true, false, ◌&&◌, not, ◌++◌, Option,
  none, some, ltb, length, Bytes, arith, ◌⊎◌, inl, inr, Bool-cases, append_assoc, ltb→lt,
  ltb-false→le,
}
use uhub.Core.Transport.{Transport}
use uhub.Core.Queue.{IoqSend, ioq_send_add, ioq_send_is_empty}
use uhub.Core.Queue.Stream.{
  IsQueue, NonEmpty, pending, ioq_send_add-IsQueue, ioq_send_add-pending, ioq_send_add-size,
  empty-size,
}
use uhub.Core.NetWrite.{NetWrite}
use uhub.Core.NetWrite.Drain.{Finished, handle_net_write-Finished}
use uhub.Core.User.{
  HubUser, flag_user_list, flag_pipeline, flag_choke, user_flag_get, user_flag_set, user_flag_unset,
  user_net_io_want_write,
}
use uhub.Core.Route.{
  Limits, check_send_queue, wrote_user, write_user, queue_user, checked_user, route_to_user,
}

module _ {ℓ} {C : Type ℓ} (net : Transport C) (limits : Limits) where
  -- What a user's connection was given, and what its queue still owes.
  abbrev pub stream_of : Option C → IoqSend → Bytes
  stream_of none q = pending q
  stream_of (some con) q = net.written con ++ pending q

  abbrev pub stream : HubUser C → Bytes
  stream u = stream_of u.connection u.send_queue

  -- The two reasons to drop a message.
  pub Dropped : HubUser C → Bytes → Type ℓ
  Dropped u msg =
      (u.connection ≡ none)
      ⊎ ((user_flag_get u flag_user_list ≡ false)
          × (limits.max_send_buffer < u.send_queue.size + length msg))

  pub record Delivers (u : HubUser C) (msg : Bytes) (u' : HubUser C) : Type ℓ where
    pub kept : IsQueue u'.send_queue
    pub whole : (stream u' ≡ stream u ++ msg) ⊎ ((stream u' ≡ stream u) × Dropped u msg)
    pub grows : u'.send_queue.size ≤ u.send_queue.size + length msg
    pub bounded :
        user_flag_get u flag_user_list ≡ false
        → (u'.send_queue.size ≤ u.send_queue.size)
          ⊎ ((u'.send_queue.size ≤ limits.max_send_buffer) ⊎ (u'.send_queue.size ≤ length msg))

  queue_user-fields :
      (u : HubUser C) (msg : Bytes)
      → ((queue_user net limits u msg).send_queue ≡ ioq_send_add u.send_queue msg)
        × ((queue_user net limits u msg).connection ≡ u.connection)
  unfolding queue_user user_net_io_want_write
  queue_user-fields u msg = elim (Bool-cases (user_flag_get u flag_pipeline)) [
    | inl e ↦ (rw (e), rw (e))
    | inr e ↦ (rw (e), rw (e))
  ]

  module _ (u : HubUser C) (msg : Bytes) (h : IsQueue u.send_queue) (n : NonEmpty msg)
      (room : u.send_queue.size + length msg < 2 ^ 64) where
    added : IsQueue (ioq_send_add u.send_queue msg)
    added = ioq_send_add-IsQueue u.send_queue msg h n room

    stream-add :
        (c : Option C)
        → stream_of c (ioq_send_add u.send_queue msg) ≡ stream_of c u.send_queue ++ msg
    stream-add none = ioq_send_add-pending u.send_queue msg h
    stream-add (some con) =
        ap (λ t. net.written con ++ t) (ioq_send_add-pending u.send_queue msg h)
        ∙ sym (append_assoc (net.written con) (pending u.send_queue) msg)

    -- The message is queued, after the check has changed the flags.
    queued-Delivers :
        (f : ℕ → Bool)
        → (user_flag_get u flag_user_list ≡ false
            → u.send_queue.size + length msg ≤ limits.max_send_buffer)
        → Delivers u msg (queue_user net limits (record u { flags = f }) msg)
    queued-Delivers f fits =
        let (q, c) = queue_user-fields (record u { flags = f }) msg in
        record {
          kept = rw (q) added;
          whole = inl (rw (q, c) (stream-add u.connection));
          grows = rw (q) (omega (arith, ioq_send_add-size u.send_queue msg room));
          bounded = λ e.
              inr (inl (rw (q) (omega (arith, fits e, ioq_send_add-size u.send_queue msg room))));
        }

    checked-Delivers : Delivers u msg (checked_user net limits msg (check_send_queue limits u msg))
    unfolding Dropped check_send_queue user_flag_set user_flag_unset checked_user
    checked-Delivers = elim (Bool-cases (user_flag_get u flag_user_list)) [
      | inl e ↦ rw (e) (queued-Delivers u.flags (λ f. ground (arith, e, f)))
      | inr e ↦
          elim (Bool-cases
            (ltb limits.max_send_buffer ((u.send_queue.size + length msg) % 2 ^ 64))) [
              | inl over ↦
                  let w = ltb→lt _ _ over in
                  rw (e, over)
                    (record {
                      kept = h;
                      whole = inr (refl, inr (e, omega (arith, w, room)));
                      grows = omega arith;
                      bounded = λ f. inl (omega arith);
                    })
              | inr fits ↦
                  let w = ltb-false→le _ _ fits in
                  let le : u.send_queue.size + length msg ≤ limits.max_send_buffer =
                    omega (arith, w, room) in
                  elim (Bool-cases (ltb limits.max_send_buffer_soft u.send_queue.size)) [
                    | inl soft ↦
                        rw (e, fits, soft)
                          (queued-Delivers (user_flag_set u flag_choke).flags (λ f. le))
                    | inr ok ↦
                        rw (e, fits, ok)
                          (queued-Delivers (user_flag_unset u flag_choke).flags (λ f. le))
                  ]
            ]
    ]

  record Wrote (u : HubUser C) (con : C) (u' : HubUser C) : Type ℓ where
    kept : IsQueue u'.send_queue
    whole : stream u' ≡ net.written con ++ pending u.send_queue
    smaller : u'.send_queue.size ≤ u.send_queue.size

  write_user-Wrote :
      (u : HubUser C) (con : C)
      → IsQueue u.send_queue
      → (u' : HubUser C) × (write_user net limits u con ≡ some u') × Wrote u con u'
  unfolding write_user
  write_user-Wrote u con h = go _ (handle_net_write-Finished net u.send_queue con h)
    where
      go :
          (r : Option (IoqSend × C × NetWrite))
          → Finished net u.send_queue con r
          → (u' : HubUser C) × (wrote_user u r ≡ some u') × Wrote u con u'
      go none f = elim f [ ]
      go (some (q, con', event)) (d, read, write) =
          (_, refl, record { kept = d.kept; whole = d.stream; smaller = d.smaller })

  may_write_now : HubUser C → Bool
  may_write_now u = ioq_send_is_empty u.send_queue && not (user_flag_get u flag_pipeline)

  route_now :
      (u : HubUser C) (msg : Bytes) (con : C)
      → u.connection ≡ some con
      → may_write_now u ≡ true
      → route_to_user net limits u msg
        ≡ write_user net limits (record u { send_queue = ioq_send_add u.send_queue msg }) con
  unfolding route_to_user may_write_now
  route_now u msg con e now = simp (e, now, route_to_user)

  route_later :
      (u : HubUser C) (msg : Bytes) (con : C)
      → u.connection ≡ some con
      → may_write_now u ≡ false
      → route_to_user net limits u msg
        ≡ some (checked_user net limits msg (check_send_queue limits u msg))
  unfolding route_to_user may_write_now
  route_later u msg con e later = simp (e, later, route_to_user)

  empty_now : (u : HubUser C) → may_write_now u ≡ true → ioq_send_is_empty u.send_queue ≡ true
  unfolding may_write_now
  empty_now u now = ground (arith, now)

  pub route_to_user-Delivers :
      (u : HubUser C) (msg : Bytes)
      → IsQueue u.send_queue
      → NonEmpty msg
      → u.send_queue.size + length msg < 2 ^ 64
      → (u' : HubUser C) × (route_to_user net limits u msg ≡ some u') × Delivers u msg u'
  unfolding route_to_user Dropped
  route_to_user-Delivers u msg h n room = go u.connection refl
    where
      go :
          (c : Option C)
          → u.connection ≡ c
          → (u' : HubUser C) × (route_to_user net limits u msg ≡ some u') × Delivers u msg u'
      go none e = (
        u,
        simp (e, route_to_user),
        record {
          kept = h;
          whole = inr (refl, inl e);
          grows = omega arith;
          bounded = λ f. inl (omega arith);
        },
      )
      go (some con) e = elim (Bool-cases (may_write_now u)) [
        | inl now ↦
            let queued : HubUser C = record u { send_queue = ioq_send_add u.send_queue msg } in
            let (u', w, d) = write_user-Wrote queued con (added u msg h n room) in
            (
              u',
              route_now u msg con e now ∙ w,
              record {
                kept = d.kept;
                whole = inl (d.whole ∙ rw (e) (stream-add u msg h n room (some con)));
                grows = omega (arith, d.smaller, ioq_send_add-size u.send_queue msg room);
                bounded = λ f. inr (
                    inr (
                      omega (
                        arith,
                        d.smaller,
                        ioq_send_add-size u.send_queue msg room,
                        empty-size u.send_queue h (empty_now u now),
                      )));
              },
            )
        | inr later ↦ (_, route_later u msg con e later, checked-Delivers u msg h n room)
      ]
