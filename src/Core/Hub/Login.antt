-- ===== src/Core/Hub/Login.antt =====
-- The way into the hub in src/core/hub.c and src/core/hubevent.c: the password, the events of users,
-- and what a login does; with route_info_message of src/core/route.c.
-- The check of a password and the challenge are parameters. Timeouts are not modelled.
pub mod Verified
pub mod Sent
pub mod Ends
pub mod Listed
pub mod Entered
use uhub.Prelude.{
  ℕ, suc, zero, Bool, true, false, not, List, [], ◌∷◌, Option, none, some, ◌==◌, if◌then◌else◌,
  Bytes,
}
use uhub.Adc.Message.{AdcMessage, adc_msg_copy, fourcc}
use uhub.Adc.Message.Build.{adc_msg_construct, adc_msg_add_argument, adc_msg_add_named_argument}
use uhub.Adc.Message.Arguments.{adc_msg_remove_named_argument}
use uhub.Adc.Message.Position.{adc_msg_get_argument}
use uhub.Core.Transport.{Transport}
use uhub.Core.User.{
  HubUser, UserState, state_verify, state_normal, user_set_state, user_is_logged_in,
  user_is_disconnecting, user_flag_get, flag_nat,
}
use uhub.Core.Route.{Limits, Table, Users, for_each, route_to_user, route_to_all}
use uhub.Core.UserManager.{
  UserManager, uman_add, uman_remove, uman_get_user_by_nick, uman_get_user_by_cid,
  uman_send_user_list, uman_send_quit_message,
}
use uhub.Core.Hub.{
  Hub, HubEvent, StatusMessage, user_join, user_quit, user_destroy, hub_shutdown, nick_taken,
  cid_taken, invalid_password, write_back, with_table, hub_schedule_destroy_user,
}
use uhub.Core.Hub.Status.{on_login_failure}
use uhub.Core.Inf.Update.{Handled, handled, finished, routed}

-- The message with the address of the user in the place of what it says.
unfoldable pub nat_message : Bytes → AdcMessage → Option AdcMessage
unfolding adc_msg_copy
nat_message address info = elim (adc_msg_remove_named_argument (adc_msg_copy info) b'I' b'4') [
  | none ↦ none
  | some (removed, n) ↦ some (adc_msg_add_named_argument removed b'I' b'4' address)
]

module _ {ℓ} {C : Type ℓ} where
  unfoldable pub user_is_nat_override : HubUser C → Bool
  unfolding user_flag_get
  user_is_nat_override user = user_flag_get user flag_nat

  unfoldable pub check_duplicate_logins_ok : UserManager C → HubUser C → Option StatusMessage
  unfolding uman_get_user_by_nick uman_get_user_by_cid
  check_duplicate_logins_ok manager user = elim (uman_get_user_by_nick manager user.nick) [
    | some lookup1 ↦ some nick_taken
    | none ↦ elim (uman_get_user_by_cid manager user.cid) [
      | some lookup2 ↦ some cid_taken
      | none ↦ none
    ]
  ]

  -- The user logged in and on the lists, in the hub that its entry is written to.
  unfoldable pub enter : Hub C → HubUser C → Hub C × HubUser C
  unfolding user_set_state uman_add write_back
  enter hub user =
      let normal = user_set_state user state_normal in
      (write_back (record hub { manager = uman_add hub.manager normal }) normal, normal)

module _ {ℓ} {C : Type ℓ} (net : Transport C) (limits : Limits) where
  -- `none` is the write loop out of fuel, or a user without information.
  unfoldable pub route_info_message : Users C → HubUser C → Option (Table C)
  unfolding route_to_all for_each route_to_user user_is_nat_override nat_message
  route_info_message users u = elim u.info [
    | none ↦ none
    | some info ↦ elim (user_is_nat_override u) [
      | false ↦ route_to_all net limits users info
      | true ↦ elim (nat_message u.address info) [
        | none ↦ none
        | some cmd ↦
            for_each
              (λ user.
                route_to_user net limits user
                  (if user_is_nat_override user then cmd.cache else info.cache))
              users.list users.table
      ]
    ]
  ]

  unfoldable pub announce : Hub C × HubUser C → Option (Hub C × HubUser C)
  unfolding route_info_message user_is_logged_in
  announce (hub, user) = elim (user_is_logged_in user) [
    | false ↦ some (hub, user)
    | true ↦ routed hub user (route_info_message hub.manager.users user)
  ]

  -- A user whose connection is gone before it has the list of users does not enter.
  unfoldable pub on_login_success : Hub C → HubUser C → Option (Hub C × HubUser C)
  unfolding uman_send_user_list enter announce
  on_login_success hub user = elim (uman_send_user_list net limits hub.manager user) [
    | none ↦ none
    | some (listed, false) ↦ some (hub, listed)
    | some (listed, true) ↦ announce (enter hub listed)
  ]

  module _ (acl_password_verify : Hub C → HubUser C → Option Bytes → Bool) where
    abbrev pub awaits_password : UserState → Bool
    awaits_password state_verify = true
    awaits_password _ = false

    unfoldable pub hub_handle_password : Hub C → HubUser C → AdcMessage → Option (Handled C)
    unfolding adc_msg_get_argument on_login_success on_login_failure
    hub_handle_password hub user cmd = elim (adc_msg_get_argument cmd 0) [
      | none ↦ none
      | some (cmd', password) ↦ elim (awaits_password user.state) [
        | false ↦ some (handled false (hub, user))
        | true ↦ elim (acl_password_verify hub user password) [
          | true ↦ finished false (on_login_success hub user)
          | false ↦ finished true (on_login_failure net limits hub user invalid_password)
        ]
      ]
    ]

  module _ (challenge : Hub C → HubUser C → Bytes) where
    unfoldable pub hub_send_password_challenge : Hub C → HubUser C → Option (HubUser C)
    unfolding user_set_state route_to_user fourcc
    hub_send_password_challenge hub user =
        let igpa =
          adc_msg_add_argument (adc_msg_construct (fourcc b'I' b'G' b'P' b'A') 38)
            (challenge hub user) in
        route_to_user net limits (user_set_state user state_verify) igpa.cache

    unfoldable pub stored : Hub C → Option (HubUser C) → Option (Hub C)
    unfolding write_back
    stored hub none = none
    stored hub (some user) = some (write_back hub user)

    unfoldable pub stored_both : Option (Hub C × HubUser C) → Option (Hub C)
    unfolding write_back
    stored_both none = none
    stored_both (some (hub, user)) = some (write_back hub user)

    unfoldable pub join_user : Hub C → HubUser C → Bool → Option (Hub C)
    unfolding hub_send_password_challenge check_duplicate_logins_ok on_login_success
        on_login_failure user_is_disconnecting stored stored_both
    join_user hub user needs_password = elim (user_is_disconnecting user) [
      | true ↦ some hub
      | false ↦ elim needs_password [
        | true ↦ stored hub (hub_send_password_challenge hub user)
        | false ↦ elim (check_duplicate_logins_ok hub.manager user) [
          | none ↦ stored_both (on_login_success hub user)
          | some failure ↦ stored_both (on_login_failure net limits hub user failure)
        ]
      ]
    ]

    unfoldable pub quit_user : Hub C → HubUser C → Option (Hub C)
    unfolding uman_remove uman_send_quit_message hub_schedule_destroy_user
    quit_user hub user =
        let removed = record hub { manager = uman_remove hub.manager user } in
        elim (uman_send_quit_message net limits removed.manager user) [
          | none ↦ none
          | some table ↦ some (hub_schedule_destroy_user (with_table removed table) user)
        ]

    -- The end of the hub is not modelled; a user that is destroyed has no entry any more.
    unfoldable pub hub_event_dispatcher : Hub C → HubEvent → Option (Hub C)
    unfolding join_user quit_user
    hub_event_dispatcher hub (user_join sid needs_password) = elim (hub.manager.users.table sid) [
      | none ↦ some hub
      | some user ↦ join_user hub user needs_password
    ]
    hub_event_dispatcher hub (user_quit sid) = elim (hub.manager.users.table sid) [
      | none ↦ some hub
      | some user ↦ quit_user hub user
    ]
    hub_event_dispatcher hub (user_destroy sid) = some hub
    hub_event_dispatcher hub hub_shutdown = some hub
