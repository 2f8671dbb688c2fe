-- ===== src/Core/Hub/Login/Entered.antt =====
-- A login that succeeds, in src/core/hubevent.c, returns and keeps the lists of src/core/usermanager.c.
use uhub.Prelude.{
  ◌≤◌, ◌⊎◌, length, arith, Bytes, ℕ, ◌+◌, ◌<◌, ◌^◌, ◌≡◌, refl, ap, sym, ◌∙◌, Bool, true, false,
  none, some, inl, inr, Bool-cases, ◌==◌, subst,
}
use uhub.Adc.Message.{AdcMessage}
use uhub.Core.Transport.{Transport}
use uhub.Core.Queue.{IoqSend}
use uhub.Core.Queue.Stream.{IsQueue}
use uhub.Core.User.Kept.{OnLine}
use uhub.Core.Route.Recipients.{member}
use uhub.Core.User.{
  HubUser, state_normal, user_set_state, user_is_logged_in, user_flag_set, flag_user_list,
}
use uhub.Core.Route.{Limits, Table}
use uhub.Core.Route.Identity.{flag_set-Same, SameIdentity, identity_trans}
use uhub.Core.UserManager.{uman_add, list_append, uman_send_user_list, send_infos}
use uhub.Core.UserManager.Maps.{member-append}
use uhub.Core.UserManager.Registered.{IsRegister}
use uhub.Core.UserManager.Routed.{SameNames-IsRegister}
use uhub.Core.Hub.Login.Sent.{send_infos-Same, route_info-SameNames}
use uhub.Core.Inf.Update.{entry_or}
use uhub.Core.Hub.Login.Ends.{OnLine-NonEmpty, Present, listing, send_infos-ends, route_info-ends}
use uhub.Core.Hub.Login.Listed.{normal-Renamed, with_user, enter-with_user, enter-IsRegister}
use uhub.Core.Hub.{Hub, with_table}
use uhub.Core.Hub.Login.{
  check_duplicate_logins_ok, enter, announce, on_login_success, route_info_message,
}

-- What the login of a user needs for its sending to end: the user has information that is a line,
-- the queues of the user and of everybody on the list are well formed, everybody on the list has
-- information, and there is room for the list and for a message of the given length, which is
-- at least that of the information of the user with its address.
pub record CanEnter {C : Type 0} (longest : ℕ) (hub : Hub C) (user : HubUser C) : Type 0 where
  pub info : AdcMessage
  pub offset : ℕ
  pub informed : user.info ≡ some info
  pub line : OnLine offset info
  pub queue : IsQueue user.send_queue
  pub short : length info.cache + length user.address + 4 ≤ longest
  pub room :
      user.send_queue.size + listing hub.manager.users.table hub.manager.users.list + longest
      < 2 ^ 64
  pub others :
      (s : ℕ) → member s hub.manager.users.list ≡ true → Present longest (hub.manager.users.table s)

module _ {C : Type 0} (longest : ℕ) (hub : Hub C) (user listed : HubUser C)
    (c : CanEnter longest hub user) (same : SameIdentity user listed)
    (kept : IsQueue listed.send_queue)
    (low : listed.send_queue.size
      ≤ user.send_queue.size + listing hub.manager.users.table hub.manager.users.list) where
  abbrev normal : HubUser C
  normal = user_set_state listed state_normal

  normal-informed : normal.info ≡ some c.info
  normal-informed = (normal-Renamed listed).info ∙ same.same_info ∙ c.informed

  normal-Present : Present longest (some normal)
  normal-Present =
      let queued = sym (normal-Renamed listed).send_queue in
      record {
        user = normal;
        found = refl;
        info = c.info;
        informed = normal-informed;
        not_empty = OnLine-NonEmpty c.offset c.info c.line;
        queue = subst IsQueue queued kept;
        room =
            subst (λ (q : IoqSend). q.size + longest < 2 ^ 64) queued (omega (arith, low, c.room));
      }

  -- Everybody on the list with the new user on it.
  with_user-Present :
      (s : ℕ)
      → member s (with_user hub.manager normal).users.list ≡ true
      → Present longest ((with_user hub.manager normal).users.table s)
  unfolding uman_add
  with_user-Present s m = elim (Bool-cases (s == normal.sid)) [
    | inl e ↦ rw (e) normal-Present
    | inr e ↦
        let old = sym (member-append s normal.sid hub.manager.users.list) ∙ m in
        rw (e) (c.others s (simp (e) at old))
  ]

module _ {C : Type 0} (net : Transport C) (limits : Limits) where
  announce-returns :
      (hub : Hub C) (user : HubUser C) (table : Table C)
      → route_info_message net limits hub.manager.users user ≡ some table
      → IsRegister hub.manager
      → (hub' : Hub C) × (user' : HubUser C) × (announce net limits (hub, user)
          ≡ some (hub', user'))
        × IsRegister hub'.manager
        × (hub'.manager.users.list ≡ hub.manager.users.list)
  unfolding announce
  announce-returns hub user table g h = elim (Bool-cases (user_is_logged_in user)) [
    | inr f ↦ (hub, user, rw (f, announce) refl, h, refl)
    | inl f ↦ (
      with_table hub table,
      entry_or (table user.sid) user,
      rw (f, g, announce) refl,
      SameNames-IsRegister hub.manager table
          (route_info-SameNames net limits hub.manager.users user table g) h,
      refl,
    )
  ]

  entered-returns :
      (longest : ℕ) (hub : Hub C) (user listed : HubUser C)
      → CanEnter longest hub user
      → SameIdentity user listed
      → IsQueue listed.send_queue
      → listed.send_queue.size
        ≤ user.send_queue.size + listing hub.manager.users.table hub.manager.users.list
      → hub.manager.users.table user.sid ≡ some user
      → IsRegister (enter hub listed).0.manager
      → (hub' : Hub C) × (user' : HubUser C) × (announce net limits (enter hub listed)
          ≡ some (hub', user'))
        × IsRegister hub'.manager
        × (hub'.manager.users.list ≡ list_append hub.manager.users.list user.sid)
  unfolding enter uman_add
  entered-returns longest hub user listed c same kept low here reg =
      let place = enter-with_user hub user listed here same in
      let normal = user_set_state listed state_normal in
      let renamed = normal-Renamed listed in
      let registered = subst (λ (after : Hub C). IsRegister after.manager) place reg in
      let (table, g) =
        route_info-ends net limits longest (with_user hub.manager normal).users normal c.info
          c.offset (normal-informed longest hub user listed c same kept low) c.line
          (subst (λ (a : Bytes). length c.info.cache + length a + 4 ≤ longest)
            (sym (renamed.address ∙ same.same_address)) c.short)
          registered.distinct (with_user-Present longest hub user listed c same kept low) in
      let (hub', user', e, r, l) =
        announce-returns (record hub { manager = with_user hub.manager normal }) normal table g
          registered in
      (
        hub',
        user',
        ap (λ (after : Hub C). announce net limits (after, normal)) place ∙ e,
        r,
        l ∙ ap (list_append hub.manager.users.list) (renamed.sid ∙ same.same_sid),
      )

  -- The login of a user that has an entry and whose nick and CID are in no map returns, below 2^64
  -- users, if the list, the count and the maps agree, the user's information is a line, everybody on
  -- the list has information, and the send queues are well formed, with room for the list and for
  -- the announcement of the user. In the hub that it returns the list, the count and the maps agree
  -- too, whatever the sending did to the users; it is the old hub, or has the user at the end of
  -- its list.
  pub on_login_success-IsRegister :
      (longest : ℕ) (hub : Hub C) (user : HubUser C)
      → IsRegister hub.manager
      → hub.manager.users.table user.sid ≡ some user
      → check_duplicate_logins_ok hub.manager user ≡ none
      → hub.manager.count + 1 < 2 ^ 64
      → CanEnter longest hub user
      → (hub' : Hub C) × (user' : HubUser C) × (on_login_success net limits hub user
          ≡ some (hub', user'))
        × IsRegister hub'.manager
        × ((hub' ≡ hub) ⊎ (hub'.manager.users.list ≡ list_append hub.manager.users.list user.sid))
  unfolding on_login_success uman_send_user_list user_flag_set
  on_login_success-IsRegister longest hub user h here free room c =
      let (listed, all, f, kept, low) =
        send_infos-ends net limits longest hub.manager.users.table hub.manager.users.list
          (user_flag_set user flag_user_list) c.others c.queue (omega (arith, c.room)) in
      let same = identity_trans (flag_set-Same user flag_user_list) (
        send_infos-Same net limits hub.manager.users.table hub.manager.users.list
          (user_flag_set user flag_user_list) listed all f) in
      go listed all f kept low same
    where
      go :
          (listed : HubUser C) (all : Bool)
          → send_infos net limits hub.manager.users.table hub.manager.users.list
              (user_flag_set user flag_user_list)
            ≡ some (listed, all)
          → IsQueue listed.send_queue
          → listed.send_queue.size
            ≤ user.send_queue.size + listing hub.manager.users.table hub.manager.users.list
          → SameIdentity user listed
          → (hub' : Hub C) × (user' : HubUser C) × (on_login_success net limits hub user
              ≡ some (hub', user'))
            × IsRegister hub'.manager
            × ((hub' ≡ hub)
                ⊎ (hub'.manager.users.list ≡ list_append hub.manager.users.list user.sid))
      go listed false f kept low same = (hub, listed, rw (f, on_login_success) refl, h, inl refl)
      go listed true f kept low same =
          let (hub', user', e, r, l) =
            entered-returns longest hub user listed c same kept low here
              (enter-IsRegister hub user listed h here same free room) in
          (hub', user', rw (f, on_login_success) e, r, inr l)
