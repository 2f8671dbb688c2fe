-- ===== src/Core/Hub/Support.antt =====
-- hub_handle_support of src/core/hub.c: the protocol features of a client, and the handshake.
-- The messages of the handshake are a parameter.
pub mod Ends
use uhub.Prelude.{
  ℕ, suc, zero, ◌+◌, Bool, true, false, not, ◌&&◌, [], ◌∷◌, Option, none, some, ◌==◌, if◌then◌else◌,
  length, Bytes,
}
use uhub.Adc.Escape.{adc_msg_escape}
use uhub.Adc.Message.{AdcMessage, fourcc}
use uhub.Adc.Message.Build.{adc_msg_construct, adc_msg_add_argument}
use uhub.Adc.Message.Position.{adc_msg_get_argument}
use uhub.Core.Transport.{Transport}
use uhub.Core.Profile.{quit_logon_error, quit_protocol_error}
use uhub.Core.User.{
  HubUser, UserState, state_protocol, user_flag_get, user_support_add, user_support_remove,
  feature_base, feature_bas0, feature_tiger,
}
use uhub.Core.Route.{Limits, route_to_user}
use uhub.Core.Hub.{
  Hub, HubState, HubConfig, hub_status_disabled, hub_disabled, no_common_hash, obsolete_adc0,
  hub_disconnect_user,
}
use uhub.Core.Hub.Status.{hub_send_status, on_login_failure, status_level_fatal, leave}
use uhub.Core.Inf.Update.{Handled, handled, finished}

-- One argument: "AD" or "RM" and the name of a feature.
module _ {ℓ} {C : Type ℓ} where
  -- The user, and whether the argument was well formed.
  unfoldable pub support_argument : HubUser C → Bytes → HubUser C × Bool
  unfolding fourcc
  support_argument user (p ∷ q ∷ a ∷ b ∷ c ∷ d ∷ []) =
      if p == b'A' && q == b'D'
      then (user_support_add user (fourcc a b c d), true)
      else if p == b'R' && q == b'M'
      then (user_support_remove user (fourcc a b c d), true)
      else (user, false)
  support_argument user _ = (user, false)

  abbrev pub and_so_far : Bool → HubUser C × Bool → HubUser C × Bool
  and_so_far ok (user, fine) = (user, ok && fine)

  -- The loop over the arguments, with the number of those read. Each has a number below the length
  -- of the buffer, so fuel of one more is enough; `none` is also fuel run out.
  unfoldable pub support_loop :
      ℕ → AdcMessage → ℕ → HubUser C × Bool → Option (HubUser C × Bool × ℕ)
  unfolding adc_msg_get_argument support_argument
  support_loop zero cmd index (user, ok) = none
  support_loop (suc fuel) cmd index (user, ok) = elim (adc_msg_get_argument cmd index) [
    | none ↦ none
    | some (cmd', none) ↦ some (user, ok, index)
    | some (cmd', some argument) ↦
        support_loop fuel cmd' (index + 1) (and_so_far ok (support_argument user argument))
  ]

abbrev pub is_protocol : UserState → Bool
is_protocol state_protocol = true
is_protocol _ = false

abbrev pub is_disabled : HubState → Bool
is_disabled hub_status_disabled = true
is_disabled _ = false

module _ {ℓ} {C : Type ℓ} (net : Transport C) (limits : Limits) where
  -- What a client of the obsolete protocol is told.
  unfoldable pub tell_obsolete : HubConfig → HubUser C → Option (HubUser C)
  unfolding route_to_user fourcc
  tell_obsolete config user =
      let tmp = adc_msg_escape (config.message_text obsolete_adc0) in
      let message =
        adc_msg_add_argument (adc_msg_construct (fourcc b'I' b'M' b'S' b'G') (6 + length tmp))
          tmp in
      route_to_user net limits user message.cache

  module _ (hub_send_handshake : Hub C → HubUser C → Option (Hub C × HubUser C)) where
    -- The answer to a client that has told its features.
    unfoldable pub answer_support : Hub C → HubUser C → Option (Hub C × HubUser C)
    unfolding user_flag_get hub_send_status tell_obsolete hub_disconnect_user
    answer_support hub user =
        if user_flag_get user feature_base
        then if user_flag_get user feature_tiger
          then hub_send_handshake hub user
          else leave net limits hub quit_protocol_error
              (hub_send_status net limits hub.config user no_common_hash status_level_fatal)
        else if user_flag_get user feature_bas0
        then if hub.config.obsolete_clients
          then hub_send_handshake hub user
          else leave net limits hub quit_protocol_error (tell_obsolete hub.config user)
        else some (hub_disconnect_user hub user quit_logon_error)

    unfoldable pub after_support : Hub C → HubUser C × Bool × ℕ → Option (Handled C)
    unfolding answer_support hub_disconnect_user
    after_support hub (user, ok, index) =
        if is_protocol user.state
        then if ok && not (index == 0)
          then finished false (answer_support hub user)
          else some (handled true (hub_disconnect_user hub user quit_logon_error))
        else some (handled false (hub, user))

    unfoldable pub hub_handle_support : Hub C → HubUser C → AdcMessage → Option (Handled C)
    unfolding support_loop after_support on_login_failure
    hub_handle_support hub user cmd =
        if is_disabled hub.status && is_protocol user.state
        then finished true (on_login_failure net limits hub user hub_disabled)
        else elim (support_loop (length cmd.cache + 1) cmd 0 (user, true)) [
          | none ↦ none
          | some result ↦ after_support hub result
        ]
