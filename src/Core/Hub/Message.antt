-- ===== src/Core/Hub/Message.antt =====
-- hub_handle_message of src/core/hub.c: what the hub does with a line of a client.
-- The result is the hub, the user and whether -1 is returned; `none` is a loop out of fuel or a
-- message with no argument offset.
pub mod Flood
pub mod Guard
use uhub.Prelude.{Bool, true, false, not, Option, none, some, ℕ, if◌then◌else◌, Bytes}
use uhub.Adc.Message.{AdcMessage}
use uhub.Adc.Message.Parse.{Sender, adc_msg_parse_verify}
use uhub.Core.Transport.{Transport}
use uhub.Core.User.{HubUser, user_is_logged_in, user_is_disconnecting}
use uhub.Core.Route.{Limits}
use uhub.Core.Hub.{Hub}
use uhub.Core.Hub.Command.{
  CommandKind, support, password, info, forbidden, chat, search, spam, search_result, revconnect,
  connect, command, other, command_kind, of_chat, of_connect, of_search, of_update, of_extras,
  route_msg, unless_flood,
}
use uhub.Core.Hub.Login.{hub_handle_password}
use uhub.Core.Hub.Chat.{Plugins, hub_handle_chat_message}
use uhub.Core.Hub.Support.{hub_handle_support}
use uhub.Core.Inf.Identity.{Acl}
use uhub.Core.Inf.Update.{Handled, handled, hub_handle_info}

-- What the handlers ask of the rest of the program.
pub record Services {ℓ} (C : Type ℓ) : Type ℓ where
  pub plugins : Plugins C
  pub acl : Acl
  pub hash_pid : Bytes → Bytes
  pub send_handshake : Hub C → HubUser C → Option (Hub C × HubUser C)
  pub password_verify : Hub C → HubUser C → Option Bytes → Bool

module _ {ℓ} {C : Type ℓ} (net : Transport C) (limits : Limits) (services : Services C)
    (now : ℕ) where
  -- A message is ignored after the flood check.
  abbrev pub ignored : Hub C → HubUser C → Option (Handled C)
  ignored hub user = some (handled false (hub, user))

  -- A message that a plugin may deny before anything else happens.
  abbrev pub unless_denied : Bool → Hub C → HubUser C → Option (Handled C) → Option (Handled C)
  unless_denied denied hub user next = if denied then ignored hub user else next

  -- The cases of the `switch`. The priority of a message is that which routing reads, none.
  unfoldable pub dispatch : CommandKind → Hub C → HubUser C → AdcMessage → Option (Handled C)
  unfolding unless_flood route_msg hub_handle_support hub_handle_password hub_handle_info
      hub_handle_chat_message
  dispatch support hub u cmd =
      unless_flood net limits now of_extras false hub u
        λ u. hub_handle_support net limits services.send_handshake hub u cmd
  dispatch password hub u cmd =
      unless_flood net limits now of_extras false hub u
        λ u. hub_handle_password net limits services.password_verify hub u cmd
  dispatch info hub u cmd =
      unless_flood net limits now of_update true hub u
        λ u. hub_handle_info net limits services.hash_pid services.acl hub u cmd
  dispatch forbidden hub u cmd = unless_flood net limits now of_extras true hub u (ignored hub)
  dispatch chat hub u cmd =
      unless_flood net limits now of_chat true hub u
        λ u. hub_handle_chat_message net limits services.plugins hub u cmd
  dispatch search hub u cmd =
      unless_denied (services.plugins.denies_search u cmd.cache) hub u
        (unless_flood net limits now of_search true hub u λ u. route_msg net limits hub u cmd)
  dispatch spam hub u cmd = unless_flood net limits now of_extras true hub u (ignored hub)
  dispatch search_result hub u cmd =
      unless_denied
        (services.plugins.denies_result u (hub.manager.users.table cmd.target) cmd.cache) hub u
        (route_msg net limits hub u cmd)
  dispatch revconnect hub u cmd =
      unless_denied (services.plugins.denies_revconnect u (hub.manager.users.table cmd.target)) hub
        u (unless_flood net limits now of_connect true hub u λ u. route_msg net limits hub u cmd)
  dispatch connect hub u cmd =
      unless_denied (services.plugins.denies_connect u (hub.manager.users.table cmd.target)) hub u
        (unless_flood net limits now of_connect true hub u λ u. route_msg net limits hub u cmd)
  dispatch command hub u cmd = unless_flood net limits now of_extras true hub u (ignored hub)
  dispatch other hub u cmd =
      unless_flood net limits now of_extras true hub u λ u. route_msg net limits hub u cmd

  abbrev pub sender : HubUser C → Sender
  sender u = record { sid = u.sid; credentials = u.credentials }

  unfoldable pub hub_handle_message : Hub C → HubUser C → Bytes → Option (Handled C)
  unfolding dispatch command_kind adc_msg_parse_verify user_is_disconnecting user_is_logged_in
  hub_handle_message hub u line = elim (user_is_disconnecting u) [
    | true ↦ some (handled true (hub, u))
    | false ↦ elim (adc_msg_parse_verify (some (sender u)) line) [
      | none ↦ some (handled (not (user_is_logged_in u)) (hub, u))
      | some cmd ↦ dispatch (command_kind cmd.cmd) hub u cmd
    ]
  ]
