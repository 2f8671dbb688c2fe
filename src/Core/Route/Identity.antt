-- ===== src/Core/Route/Identity.antt =====
-- The routing of src/core/route.c changes the queues of users, and nothing of who they are.
use uhub.Prelude.{
  ◌≡◌, refl, sym, ◌∙◌, Bool, true, false, ◌&&◌, not, Option, none, some, Bytes, ltb, ◌+◌, ◌%◌, ◌^◌,
  length, if◌then◌else◌, Bool-cases, inl, inr, none≢some, subst,
}
use uhub.Core.Transport.{Transport}
use uhub.Core.Queue.{IoqSend, ioq_send_add, ioq_send_is_empty}
use uhub.Core.NetWrite.{NetWrite}
use uhub.Core.User.{
  HubUser, UserFlag, flag_choke, flag_user_list, flag_pipeline, user_flag_get, user_flag_set,
  user_flag_unset, user_net_io_want_write,
}
use uhub.Core.Route.{
  Limits, QueueCheck, queue_ok, soft_overflow, overflow, check_send_queue, wrote_user, write_user,
  queue_user, checked_user, route_to_user,
}

-- The names, the state, the information and the address of a user.
pub record SameIdentity {ℓ} {C : Type ℓ} (u u' : HubUser C) : Type ℓ where
  pub same_sid : u'.sid ≡ u.sid
  pub same_nick : u'.nick ≡ u.nick
  pub same_cid : u'.cid ≡ u.cid
  pub same_state : u'.state ≡ u.state
  pub same_info : u'.info ≡ u.info
  pub same_address : u'.address ≡ u.address

some-eq {ℓ} : {A : Type ℓ} {a b : A} → ◌≡◌ {A = Option A} (some a) (some b) → a ≡ b
some-eq e = cc

module _ {ℓ} {C : Type ℓ} where
  pub identity_refl : (u : HubUser C) → SameIdentity u u
  identity_refl u = record {
    same_sid = refl;
    same_nick = refl;
    same_cid = refl;
    same_state = refl;
    same_info = refl;
    same_address = refl;
  }

  pub identity_trans : {u v w : HubUser C} → SameIdentity u v → SameIdentity v w → SameIdentity u w
  identity_trans a b = record {
    same_sid = b.same_sid ∙ a.same_sid;
    same_nick = b.same_nick ∙ a.same_nick;
    same_cid = b.same_cid ∙ a.same_cid;
    same_state = b.same_state ∙ a.same_state;
    same_info = b.same_info ∙ a.same_info;
    same_address = b.same_address ∙ a.same_address;
  }

  pub flag_set-Same : (u : HubUser C) (f : UserFlag) → SameIdentity u (user_flag_set u f)
  unfolding user_flag_set
  flag_set-Same u f = record {
    same_sid = refl;
    same_nick = refl;
    same_cid = refl;
    same_state = refl;
    same_info = refl;
    same_address = refl;
  }

  wrote-Same :
      (u u' : HubUser C) (o : Option (IoqSend × C × NetWrite))
      → wrote_user u o ≡ some u'
      → SameIdentity u u'
  wrote-Same u u' none e = absurd (none≢some e)
  wrote-Same u u' (some (q, con, event)) e = subst (SameIdentity u) (some-eq e) (record {
    same_sid = refl;
    same_nick = refl;
    same_cid = refl;
    same_state = refl;
    same_info = refl;
    same_address = refl;
  })

module _ {ℓ} {C : Type ℓ} (net : Transport C) (limits : Limits) where
  check-Same : (u : HubUser C) (msg : Bytes) → SameIdentity u (check_send_queue limits u msg).0
  unfolding check_send_queue user_flag_set user_flag_unset
  check-Same u msg =
      go (user_flag_get u flag_user_list)
        (ltb limits.max_send_buffer ((u.send_queue.size + length msg) % 2 ^ 64))
        (ltb limits.max_send_buffer_soft u.send_queue.size)
    where
      go :
          (a b c : Bool)
          → SameIdentity u
              (if◌then◌else◌ {A = HubUser C × QueueCheck} a
                (u, queue_ok)
                (if◌then◌else◌ {A = HubUser C × QueueCheck} b
                  (user_flag_set u flag_choke, overflow)
                  (if◌then◌else◌ {A = HubUser C × QueueCheck} c
                    (user_flag_set u flag_choke, soft_overflow)
                    (user_flag_unset u flag_choke, queue_ok)))).0
      go true b c = identity_refl u
      go false true c = record {
        same_sid = refl;
        same_nick = refl;
        same_cid = refl;
        same_state = refl;
        same_info = refl;
        same_address = refl;
      }
      go false false true = record {
        same_sid = refl;
        same_nick = refl;
        same_cid = refl;
        same_state = refl;
        same_info = refl;
        same_address = refl;
      }
      go false false false = record {
        same_sid = refl;
        same_nick = refl;
        same_cid = refl;
        same_state = refl;
        same_info = refl;
        same_address = refl;
      }

  queue-Same : (u : HubUser C) (msg : Bytes) → SameIdentity u (queue_user net limits u msg)
  unfolding queue_user user_net_io_want_write
  queue-Same u msg = elim (Bool-cases (user_flag_get u flag_pipeline)) [
    | inl e ↦ record {
      same_sid = rw (e) refl;
      same_nick = rw (e) refl;
      same_cid = rw (e) refl;
      same_state = rw (e) refl;
      same_info = rw (e) refl;
      same_address = rw (e) refl;
    }
    | inr e ↦ record {
      same_sid = rw (e) refl;
      same_nick = rw (e) refl;
      same_cid = rw (e) refl;
      same_state = rw (e) refl;
      same_info = rw (e) refl;
      same_address = rw (e) refl;
    }
  ]

  checked-Same :
      (msg : Bytes) (p : HubUser C × QueueCheck) → SameIdentity p.0 (checked_user net limits msg p)
  unfolding checked_user
  checked-Same msg (u, overflow) = identity_refl u
  checked-Same msg (u, soft_overflow) = queue-Same u msg
  checked-Same msg (u, queue_ok) = queue-Same u msg

  queued-Same :
      (u u' : HubUser C) (q : IoqSend)
      → SameIdentity (record u { send_queue = q }) u'
      → SameIdentity u u'
  queued-Same u u' q s = record {
    same_sid = s.same_sid;
    same_nick = s.same_nick;
    same_cid = s.same_cid;
    same_state = s.same_state;
    same_info = s.same_info;
    same_address = s.same_address;
  }

  pub route_to_user-Same :
      (u u' : HubUser C) (msg : Bytes)
      → route_to_user net limits u msg ≡ some u'
      → SameIdentity u u'
  unfolding route_to_user write_user
  route_to_user-Same u u' msg e = go u.connection refl
    where
      go : (c : Option C) → u.connection ≡ c → SameIdentity u u'
      go none f = subst (SameIdentity u) (some-eq (simp (f, route_to_user) at e)) (identity_refl u)
      go (some con) f =
          elim (Bool-cases
            (ioq_send_is_empty u.send_queue && not (user_flag_get u flag_pipeline))) [
              | inl g ↦
                  queued-Same u u' (ioq_send_add u.send_queue msg)
                    (wrote-Same _ u' _ (simp (f, g, route_to_user, write_user) at e))
              | inr g ↦
                  let h : route_to_user net limits u msg
                      ≡ some (checked_user net limits msg (check_send_queue limits u msg)) =
                    simp (f, g, route_to_user) in
                  subst (SameIdentity u) (some-eq (sym h ∙ e)) (
                    identity_trans (check-Same u msg)
                      (checked-Same msg (check_send_queue limits u msg)))
            ]
