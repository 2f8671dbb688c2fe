-- ===== src/Core/Hub.antt =====
-- src/core/hub.h and the parts of src/core/hub.c that end a session: the state of the hub.
-- The user that a call is about is a value of its own, and its entry in the table of users is
-- written again where the code reads the user through the table.
pub mod Status
pub mod Login
pub mod Chat
pub mod Support
pub mod Command
pub mod Message
use uhub.Prelude.{
  ℕ, suc, ◌+◌, ◌*◌, ◌%◌, ◌^◌, Bool, true, false, ◌&&◌, Option, none, some, ◌==◌, if◌then◌else◌,
  Bytes,
}
use uhub.Core.EventQueue.{EventQueue, event_queue_post}
use uhub.Core.Profile.{UserQuitReason}
use uhub.Core.User.{
  HubUser, state_cleanup, user_set_state, user_is_disconnecting, user_is_logged_in,
}
use uhub.Core.Route.{Table, Users, put}
use uhub.Core.UserManager.{UserManager}

pub data HubState : Type 0 where
  hub_status_uninitialized hub_status_running hub_status_restart hub_status_shutdown : HubState
  hub_status_stopped hub_status_disabled : HubState

pub data StatusMessage : Type 0 where
  hub_full hub_disabled hub_registered_users_only nick_missing nick_multiple : StatusMessage
  nick_invalid nick_long nick_short nick_spaces nick_bad_chars nick_not_utf8 : StatusMessage
  nick_taken nick_restricted cid_invalid cid_missing cid_taken pid_missing : StatusMessage
  pid_invalid ban_permanently ban_temporarily invalid_password user_not_found : StatusMessage
  no_memory share_size_low share_size_high slots_low slots_high hub_limit_low : StatusMessage
  hub_limit_high no_common_hash obsolete_adc0 : StatusMessage

-- The fields of `hub_config` that the models read, none of them negative. `message_text` is the
-- field of the text for a status.
pub record HubConfig : Type 0 where
  pub max_users : ℕ
  pub registered_users_only : Bool
  pub low_bandwidth_mode : Bool
  pub obsolete_clients : Bool
  pub limit_min_share : ℕ
  pub limit_max_share : ℕ
  pub limit_min_slots : ℕ
  pub limit_max_slots : ℕ
  pub limit_min_hubs : ℕ
  pub limit_max_hubs : ℕ
  pub limit_min_hubs_user : ℕ
  pub limit_max_hubs_user : ℕ
  pub limit_min_hubs_reg : ℕ
  pub limit_max_hubs_reg : ℕ
  pub limit_min_hubs_op : ℕ
  pub limit_max_hubs_op : ℕ
  pub flood_ctl_interval : ℕ
  pub flood_ctl_chat : ℕ
  pub flood_ctl_connect : ℕ
  pub flood_ctl_search : ℕ
  pub flood_ctl_update : ℕ
  pub flood_ctl_extras : ℕ
  pub msg_user_flood_chat : Bytes
  pub msg_user_flood_connect : Bytes
  pub msg_user_flood_search : Bytes
  pub msg_user_flood_update : Bytes
  pub msg_user_flood_extras : Bytes
  pub redirect_addr : Bytes
  pub message_text : StatusMessage → Bytes

-- The events, with the identifier of the user that `ptr` points to. The flag of a join is whether
-- the user must give a password.
pub data HubEvent : Type 0 where
  user_join : ℕ → Bool → HubEvent
  user_quit user_destroy : ℕ → HubEvent
  hub_shutdown : HubEvent

pub record Hub {ℓ} (C : Type ℓ) : Type ℓ where
  pub status : HubState
  pub config : HubConfig
  pub manager : UserManager C
  pub queue : EventQueue HubEvent

-- The sizes of the configuration are in MiB.
abbrev pub mebibytes : ℕ → ℕ
mebibytes n = n * 2 ^ 20 % 2 ^ 64

unfoldable pub hub_get_min_share : HubConfig → ℕ
hub_get_min_share config = mebibytes config.limit_min_share

unfoldable pub hub_get_max_share : HubConfig → ℕ
hub_get_max_share config = mebibytes config.limit_max_share

abbrev pub is_running : HubState → Bool
is_running hub_status_running = true
is_running _ = false

module _ {ℓ} {C : Type ℓ} where
  abbrev pub with_table : Hub C → Table C → Hub C
  with_table hub table = record hub {
    manager = record hub.manager { users = record hub.manager.users { table = table } };
  }

  -- The entry of the user in the table, written again; a user without an identifier has none.
  unfoldable pub write_back : Hub C → HubUser C → Hub C
  write_back hub user = elim (hub.manager.users.table user.sid) [
    | none ↦ hub
    | some old ↦ with_table hub (put hub.manager.users.table user.sid user)
  ]

  unfoldable pub post_event : Hub C → HubEvent → Hub C
  unfolding event_queue_post
  post_event hub event = record hub { queue = event_queue_post hub.queue event }

  abbrev pub vacate : Table C → ℕ → Table C
  vacate table sid = λ s. if s == sid then none else table s

  unfoldable pub hub_schedule_destroy_user : Hub C → HubUser C → Hub C
  unfolding post_event
  hub_schedule_destroy_user hub user =
      let posted = post_event hub (user_destroy user.sid) in
      if user.sid == 0
      then posted
      else with_table posted (vacate posted.manager.users.table user.sid)

  unfoldable pub hub_disconnect_user : Hub C → HubUser C → UserQuitReason → Hub C × HubUser C
  unfolding user_is_disconnecting user_is_logged_in user_set_state write_back post_event
      hub_schedule_destroy_user
  hub_disconnect_user hub user reason =
      let need_notify = user_is_logged_in user && is_running hub.status in
      let left =
        user_set_state (record user { connection = none; quit_reason = reason }) state_cleanup in
      let written = write_back hub left in
      if user_is_disconnecting user
      then (hub, user)
      else if need_notify
      then (post_event written (user_quit left.sid), left)
      else (hub_schedule_destroy_user written left, left)
