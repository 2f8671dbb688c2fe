-- ===== src/Core/Hub/Chat.antt =====
-- hub_handle_chat_message and hub_handle_support of src/core/hub.c.
-- The verdicts of the plugins and of a chat command, and the handshake that the hub sends, are
-- parameters; the verdicts change nothing of the hub.
use uhub.Prelude.{
  ℕ, ◌+◌, Bool, true, false, not, ◌&&◌, ◌||◌, ◌++◌, Option, none, some, ◌==◌, if◌then◌else◌, take,
  drop, get_or, Bytes,
}
use uhub.Adc.Escape.{adc_msg_unescape}
use uhub.Adc.Message.{AdcMessage, adc_msg_get_arg_offset}
use uhub.Adc.Message.Position.{adc_msg_get_argument}
use uhub.Core.Transport.{Transport}
use uhub.Core.User.{HubUser, user_is_logged_in, user_flag_get, flag_muted}
use uhub.Core.Route.{Limits, route_message}
use uhub.Core.Hub.{Hub, write_back}
use uhub.Core.Inf.Update.{Handled, handled, finished, routed}

-- The verdicts of the plugins, true for `st_deny`, and whether a chat command lets its line pass.
pub record Plugins {ℓ} (C : Type ℓ) : Type ℓ where
  pub command_invoke : HubUser C → Bytes → Bool
  pub denies_chat : HubUser C → Bytes → Bool
  pub denies_private : HubUser C → HubUser C → Bytes → Bool
  pub denies_search : HubUser C → Bytes → Bool
  pub denies_result : HubUser C → Option (HubUser C) → Bytes → Bool
  pub denies_connect : HubUser C → Option (HubUser C) → Bool
  pub denies_revconnect : HubUser C → Option (HubUser C) → Bool

-- `cmd` without the byte behind the space of its first argument.
unfoldable pub without_prefix : AdcMessage → AdcMessage
unfolding adc_msg_get_arg_offset
without_prefix cmd = elim (adc_msg_get_arg_offset cmd) [
  | none ↦ cmd
  | some offset ↦ record cmd { cache = take (offset + 1) cmd.cache ++ drop (offset + 2) cmd.cache }
]

abbrev pub is_command : Bytes → Bool
is_command message = get_or message 0 0 == b'!' || get_or message 0 0 == b'+'

abbrev pub is_private : ℕ → Bool
is_private kind = kind == b'D' || kind == b'E'

module _ {ℓ} {C : Type ℓ} (plugins : Plugins C) where
  -- The message as it is to be sent on, and whether it is.
  unfoldable pub run_command : HubUser C → AdcMessage → Bytes → Bytes → AdcMessage × Bool
  unfolding without_prefix
  run_command user cmd message decoded =
      if get_or cmd.cache 0 0 == b'B' && is_command message
      then if get_or message 1 0 == get_or message 0 0
        then (without_prefix cmd, true)
        else (cmd, plugins.command_invoke user decoded)
      else (cmd, true)

  -- Whether a line that is to be relayed passes the mute and the plugins.
  unfoldable pub lets_pass : Hub C → HubUser C → AdcMessage → Bytes → Bool
  unfolding user_flag_get
  lets_pass hub user cmd decoded =
      if get_or cmd.cache 0 0 == b'B'
      then not (user_flag_get user flag_muted) && not (plugins.denies_chat user decoded)
      else if is_private (get_or cmd.cache 0 0)
      then elim (hub.manager.users.table cmd.target) [
        | none ↦ false
        | some target ↦ not (plugins.denies_private user target decoded)
      ]
      else true

module _ {ℓ} {C : Type ℓ} (net : Transport C) (limits : Limits) where
  -- A message of a user, from the table that has the user as it is.
  unfoldable pub route_from : Hub C → HubUser C → AdcMessage → Option (Hub C × HubUser C)
  unfolding write_back route_message
  route_from hub user cmd =
      let written = write_back hub user in
      routed written user (route_message net limits written.manager.users user.sid cmd)

  module _ (plugins : Plugins C) where
    unfoldable pub relay_chat : Hub C → HubUser C → AdcMessage × Bool → Bytes → Option (Handled C)
    unfolding lets_pass route_from
    relay_chat hub user (cmd, relay) decoded =
        elim (relay && lets_pass plugins hub user cmd decoded) [
          | false ↦ some (handled false (hub, user))
          | true ↦ finished false (route_from hub user cmd)
        ]

    unfoldable pub hub_handle_chat_message : Hub C → HubUser C → AdcMessage → Option (Handled C)
    unfolding adc_msg_get_argument run_command relay_chat user_is_logged_in
    hub_handle_chat_message hub user cmd = elim (adc_msg_get_argument cmd 0) [
      | none ↦ none
      | some (cmd', none) ↦ some (handled false (hub, user))
      | some (cmd', some message) ↦ elim (user_is_logged_in user) [
        | false ↦ some (handled false (hub, user))
        | true ↦
            let decoded = adc_msg_unescape message in
            relay_chat hub user (run_command plugins user cmd' message decoded) decoded
      ]
    ]
