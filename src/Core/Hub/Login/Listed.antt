-- ===== src/Core/Hub/Login/Listed.antt =====
-- A user that enters, in src/core/hubevent.c, is put on the lists of src/core/usermanager.c.
use uhub.Prelude.{
  ◌+◌, ◌<◌, ◌^◌, ◌≡◌, refl, ap, sym, ◌∙◌, true, none, some, inl, inr, ◌==◌, ==_iff, Option-cases,
  none≢some, subst,
}
use uhub.Core.User.{HubUser, UserState, state_normal, user_set_state}
use uhub.Core.Route.{Table, put}
use uhub.Core.Route.Identity.{SameIdentity}
use uhub.Core.UserManager.{
  UserManager, rb_tree_get, uman_add, uman_get_user_by_nick, uman_get_user_by_cid,
}
use uhub.Core.UserManager.Registered.{IsRegister, uman_add-IsRegister}
use uhub.Core.UserManager.Routed.{put-SameNames, SameNames-IsRegister}
use uhub.Core.Hub.{Hub, write_back, with_table}
use uhub.Core.Hub.Login.{check_duplicate_logins_ok, enter}

module _ {ℓ} {C : Type ℓ} where
  -- A change of the state changes no name.
  pub record Renamed (u u' : HubUser C) : Type 0 where
    pub sid : u'.sid ≡ u.sid
    pub nick : u'.nick ≡ u.nick
    pub cid : u'.cid ≡ u.cid
    pub info : u'.info ≡ u.info
    pub address : u'.address ≡ u.address
    pub send_queue : u'.send_queue ≡ u.send_queue

  pub normal-Renamed : (u : HubUser C) → Renamed u (user_set_state u state_normal)
  unfolding user_set_state
  normal-Renamed u = go u.state
    where
      go :
          (s : UserState)
          → Renamed (record u { state = s }) (user_set_state (record u { state = s }) state_normal)
      go UserState.state_protocol = record {
        sid = refl;
        nick = refl;
        cid = refl;
        info = refl;
        address = refl;
        send_queue = refl;
      }
      go UserState.state_identify = record {
        sid = refl;
        nick = refl;
        cid = refl;
        info = refl;
        address = refl;
        send_queue = refl;
      }
      go UserState.state_verify = record {
        sid = refl;
        nick = refl;
        cid = refl;
        info = refl;
        address = refl;
        send_queue = refl;
      }
      go UserState.state_normal = record {
        sid = refl;
        nick = refl;
        cid = refl;
        info = refl;
        address = refl;
        send_queue = refl;
      }
      go UserState.state_cleanup = record {
        sid = refl;
        nick = refl;
        cid = refl;
        info = refl;
        address = refl;
        send_queue = refl;
      }
      go UserState.state_disconnected = record {
        sid = refl;
        nick = refl;
        cid = refl;
        info = refl;
        address = refl;
        send_queue = refl;
      }

  -- No user with the nick or the CID is in the maps.
  unique_names :
      (manager : UserManager C) (user : HubUser C)
      → check_duplicate_logins_ok manager user ≡ none
      → (rb_tree_get manager.nickmap user.nick ≡ none)
        × (rb_tree_get manager.cidmap user.cid ≡ none)
  unfolding check_duplicate_logins_ok uman_get_user_by_nick uman_get_user_by_cid
  unique_names manager user e = elim (Option-cases (rb_tree_get manager.nickmap user.nick)) [
    | inr (other, f) ↦ absurd (none≢some (sym (simp (f, check_duplicate_logins_ok) at e)))
    | inl f ↦ elim (Option-cases (rb_tree_get manager.cidmap user.cid)) [
      | inr (other, g) ↦ absurd (none≢some (sym (simp (f, g, check_duplicate_logins_ok) at e)))
      | inl g ↦ (f, g)
    ]
  ]

  write_back-put :
      (hub : Hub C) (user old : HubUser C)
      → hub.manager.users.table user.sid ≡ some old
      → write_back hub user ≡ with_table hub (put hub.manager.users.table user.sid user)
  unfolding write_back
  write_back-put hub user old e = rw (e, write_back) refl

  -- The manager after a user has entered.
  abbrev pub with_user : UserManager C → HubUser C → UserManager C
  with_user manager normal =
      uman_add
        (record manager {
          users = record manager.users { table = put manager.users.table normal.sid normal };
        })
        normal

  entered_at :
      (hub : Hub C) (user listed : HubUser C)
      → hub.manager.users.table user.sid ≡ some user
      → SameIdentity user listed
      → hub.manager.users.table (user_set_state listed state_normal).sid ≡ some user
  entered_at hub user listed here same =
      ap hub.manager.users.table ((normal-Renamed listed).sid ∙ same.same_sid) ∙ here

  pub enter-with_user :
      (hub : Hub C) (user listed : HubUser C)
      → hub.manager.users.table user.sid ≡ some user
      → SameIdentity user listed
      → (enter hub listed).0
        ≡ record hub { manager = with_user hub.manager (user_set_state listed state_normal) }
  unfolding enter write_back uman_add
  enter-with_user hub user listed here same =
      let normal = user_set_state listed state_normal in
      write_back-put (record hub { manager = uman_add hub.manager normal }) normal user
        (entered_at hub user listed here same)

  pub enter-IsRegister :
      (hub : Hub C) (user listed : HubUser C)
      → IsRegister hub.manager
      → hub.manager.users.table user.sid ≡ some user
      → SameIdentity user listed
      → check_duplicate_logins_ok hub.manager user ≡ none
      → hub.manager.count + 1 < 2 ^ 64
      → IsRegister (enter hub listed).0.manager
  unfolding enter write_back uman_add
  enter-IsRegister hub user listed h here same free room =
      subst (λ (after : Hub C). IsRegister after.manager) (sym entered)
        (uman_add-IsRegister written normal agree (found (==_iff normal.sid normal.sid).1)
          (subst (λ n. rb_tree_get hub.manager.nickmap n ≡ none) (sym nick) names.0)
          (subst (λ n. rb_tree_get hub.manager.cidmap n ≡ none) (sym cid) names.1) room)
    where
      normal : HubUser C
      normal = user_set_state listed state_normal

      names :
          (rb_tree_get hub.manager.nickmap user.nick ≡ none)
          × (rb_tree_get hub.manager.cidmap user.cid ≡ none)
      names = unique_names hub.manager user free

      nick : normal.nick ≡ user.nick
      nick = (normal-Renamed listed).nick ∙ same.same_nick

      cid : normal.cid ≡ user.cid
      cid = (normal-Renamed listed).cid ∙ same.same_cid

      there : hub.manager.users.table normal.sid ≡ some user
      there = entered_at hub user listed here same

      table' : Table C
      table' = put hub.manager.users.table normal.sid normal

      written : UserManager C
      written = record hub.manager { users = record hub.manager.users { table = table' } }

      agree : IsRegister written
      agree =
          SameNames-IsRegister hub.manager table'
            (put-SameNames hub.manager.users.table normal.sid user normal there nick cid) h

      found :
          (normal.sid ≡ normal.sid → (normal.sid == normal.sid) ≡ true)
          → table' normal.sid ≡ some normal
      found e = rw (e refl) refl

      entered : (enter hub listed).0 ≡ record hub { manager = uman_add written normal }
      entered = enter-with_user hub user listed here same
