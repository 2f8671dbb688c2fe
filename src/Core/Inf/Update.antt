-- ===== src/Core/Inf/Update.antt =====
-- hub_handle_info of src/core/inf.c, for a user that logs in and for one that is logged in.
-- The build does not define ALLOW_CHANGE_NICK.
pub mod Stripped
use uhub.Prelude.{
  ℕ, suc, zero, Bool, true, false, List, [], ◌∷◌, Option, none, some, Bytes, if◌then◌else◌,
}
use uhub.Adc.Message.{AdcMessage, adc_msg_copy, adc_msg_is_empty}
use uhub.Adc.Message.Arguments.{adc_msg_has_named_argument}
use uhub.Core.Transport.{Transport}
use uhub.Core.User.{HubUser, user_is_connecting}
use uhub.Core.User.Info.{user_update_info, release_info}
use uhub.Core.Route.{Limits, Table, route_message}
use uhub.Core.Hub.{Hub, StatusMessage, write_back, with_table, post_event, user_join}
use uhub.Core.Hub.Status.{on_login_failure, on_update_failure}
use uhub.Core.Inf.Names.{
  remove_names, hub_handle_info_common, hub_handle_info_low_bandwidth, strip_network,
}
use uhub.Core.Inf.Identity.{Acl, Outcome, passed}
use uhub.Core.Inf.Limits.{check_limits}
use uhub.Core.Inf.Login.{inf_check, hub_handle_info_login}

unfoldable pub remove_nick : AdcMessage → Option AdcMessage
unfolding remove_names
remove_nick cmd = elim (adc_msg_has_named_argument cmd b'N' b'I') [
  | none ↦ none
  | some zero ↦ some cmd
  | some (suc n) ↦ remove_names ((b'N', b'I') ∷ []) cmd
]

-- What an update may not set is taken out before the limits are checked.
unfoldable pub strip_identity : AdcMessage → Option AdcMessage
unfolding remove_names remove_nick
strip_identity cmd = elim (remove_names ((b'P', b'D') ∷ (b'I', b'D') ∷ []) cmd) [
  | none ↦ none
  | some removed ↦ remove_nick removed
]

-- The hub and the user after a handler, and whether it returned an error.
pub record Handled {ℓ} (C : Type ℓ) : Type ℓ where
  pub hub : Hub C
  pub user : HubUser C
  pub failed : Bool

module _ {ℓ} {C : Type ℓ} where
  abbrev pub handled : Bool → Hub C × HubUser C → Handled C
  handled failed (hub, user) = record { hub = hub; user = user; failed = failed }

  abbrev pub finished : Bool → Option (Hub C × HubUser C) → Option (Handled C)
  finished failed none = none
  finished failed (some after) = some (handled failed after)

  abbrev pub entry_or : Option (HubUser C) → HubUser C → HubUser C
  entry_or none user = user
  entry_or (some entry) user = entry

  -- The hub and the user after a message was routed.
  abbrev pub routed : Hub C → HubUser C → Option (Table C) → Option (Hub C × HubUser C)
  routed hub user none = none
  routed hub user (some table) = some (with_table hub table, entry_or (table user.sid) user)

  abbrev pub replaced : Hub C → HubUser C → Option AdcMessage → Option (Outcome C)
  replaced hub user none = none
  replaced hub user (some cmd) = some (passed hub user cmd)

  unfoldable pub strip_update : Hub C → HubUser C → AdcMessage → Option (Outcome C)
  unfolding strip_network hub_handle_info_low_bandwidth
  strip_update hub user cmd = elim (strip_network cmd) [
    | none ↦ none
    | some stripped ↦
        replaced hub user (hub_handle_info_low_bandwidth hub.config.low_bandwidth_mode stripped)
  ]

  -- An update up to the message that is sent on, and that `user_update_info` takes the new arguments
  -- of the kept information from.
  unfoldable pub prepare_update : Hub C → HubUser C → AdcMessage → Option (Outcome C)
  unfolding strip_identity check_limits strip_update
  prepare_update hub user cmd = elim (strip_identity cmd) [
    | none ↦ none
    | some removed ↦ inf_check (check_limits hub user removed) strip_update
  ]

module _ {ℓ} {C : Type ℓ} (net : Transport C) (limits : Limits) where
  unfoldable pub send_update : Hub C → HubUser C → AdcMessage → Option (Hub C × HubUser C)
  unfolding route_message write_back
  send_update hub user cmd = elim (adc_msg_is_empty cmd) [
    | none ↦ some (hub, user)
    | some true ↦ some (hub, user)
    | some false ↦
        let written = write_back hub user in
        routed written user (route_message net limits written.manager.users user.sid cmd)
  ]

  unfoldable pub hub_handle_info_update : Hub C → HubUser C → AdcMessage → Option (Handled C)
  unfolding prepare_update on_update_failure user_update_info send_update
  hub_handle_info_update hub user cmd = elim (prepare_update hub user cmd) [
    | none ↦ none
    | some o ↦ elim o.failure [
      | some failure ↦ finished true (on_update_failure net limits o.hub o.user failure)
      | none ↦ elim (user_update_info o.user o.cmd) [
        | none ↦ none
        | some (user', cmd') ↦ finished false (send_update o.hub user' cmd')
      ]
    ]
  ]

  module _ (hash_pid : Bytes → Bytes) (acl : Acl) where
    unfoldable pub hub_handle_info_connecting : Hub C → HubUser C → AdcMessage → Option (Handled C)
    unfolding hub_handle_info_login on_login_failure post_event release_info
    hub_handle_info_connecting hub user cmd =
        elim (hub_handle_info_login hash_pid acl hub user cmd) [
          | none ↦ none
          | some (o, code) ↦ elim o.failure [
            | some failure ↦ finished true (on_login_failure net limits o.hub o.user failure)
            | none ↦
                some (
                  handled false (post_event o.hub (user_join o.user.sid code), release_info o.user))
          ]
        ]

    -- A second message while a user logs in is passed over.
    unfoldable pub hub_handle_info : Hub C → HubUser C → AdcMessage → Option (Handled C)
    unfolding hub_handle_info_common hub_handle_info_connecting hub_handle_info_update
        user_is_connecting adc_msg_copy
    hub_handle_info hub user cmd_unmodified =
        let copied = record (adc_msg_copy cmd_unmodified) { priority = 1 } in
        elim (hub_handle_info_common user copied) [
          | none ↦ none
          | some (user', cmd) ↦ elim (user_is_connecting user') [
            | false ↦ hub_handle_info_update hub user' cmd
            | true ↦ elim user'.info [
              | some info ↦ some (handled false (hub, user'))
              | none ↦ hub_handle_info_connecting hub user' cmd
            ]
          ]
        ]
