-- ===== src/Core/Inf/Login.antt =====
-- The login and the update of a user by its information message in src/core/inf.c, the credentials
-- that a nick gets, and the information that src/core/user.c keeps.
pub mod Checks
pub mod Keeping
pub mod Private
use uhub.Prelude.{
  ℕ, suc, zero, ◌+◌, Bool, true, false, not, ◌&&◌, List, [], ◌∷◌, Option, none, some, ltb, leb,
  ◌==◌, if◌then◌else◌, length, drop, get_or, Bytes, codes,
}
use uhub.Util.Credentials.{
  AuthCredentials, cred_none, guest, bot, ubot, operator, opbot, opubot, super, link, admin,
}
use uhub.Adc.Message.{AdcMessage, adc_msg_copy, adc_msg_free, adc_msg_incref, adc_msg_is_empty}
use uhub.Adc.Message.Build.{adc_msg_add_argument}
use uhub.Core.User.Info.{user_set_info}
use uhub.Core.User.{HubUser, user_is_connecting, user_is_protected, user_is_registered}
use uhub.Core.Hub.{
  Hub, HubConfig, StatusMessage, hub_full, hub_registered_users_only, post_event, user_join,
}
use uhub.Core.Inf.Names.{
  remove_names, hub_handle_info_common, hub_handle_info_low_bandwidth, strip_network,
}
use uhub.Core.Inf.Identity.{
  Acl, Outcome, passed, refused, judged, check_required_login_flags, check_cid, check_nick,
  check_acl,
}
use uhub.Core.Inf.Presence.{check_network, check_user_agent, check_logged_in}
use uhub.Core.Inf.Limits.{check_limits}

-- The client type that the hub says a user has.
unfoldable pub client_type : AuthCredentials → Option Bytes
client_type bot = some (codes "CT1")
client_type ubot = some (codes "CT1")
client_type AuthCredentials.user = some (codes "CT2")
client_type operator = some (codes "CT4")
client_type opbot = some (codes "CT5")
client_type opubot = some (codes "CT5")
client_type super = some (codes "CT12")
client_type admin = some (codes "CT20")
client_type cred_none = none
client_type guest = none
client_type link = none

abbrev pub typed : AdcMessage → Option Bytes → AdcMessage
typed cmd none = cmd
typed cmd (some argument) = adc_msg_add_argument cmd argument

abbrev pub found_credentials : Option AuthCredentials → AuthCredentials
found_credentials none = guest
found_credentials (some credentials) = credentials

abbrev pub is_found : Option AuthCredentials → Bool
is_found none = false
is_found (some credentials) = true

module _ {ℓ} {C : Type ℓ} where
  -- The user and the message, and whether a password is needed.
  unfoldable pub set_credentials : Acl → HubUser C → AdcMessage → HubUser C × AdcMessage × Bool
  unfolding client_type
  set_credentials acl user cmd =
      let info = acl.access_info user.nick in
      let credentials = found_credentials info in
      (
        record user { credentials = credentials },
        typed cmd (client_type credentials),
        is_found info,
      )

  unfoldable pub check_is_hub_full : Hub C → HubUser C → Bool
  unfolding user_is_protected
  check_is_hub_full hub user =
      not (hub.config.max_users == 0)
      && (leb hub.config.max_users hub.manager.count && not (user_is_protected user))

  unfoldable pub check_registered_users_only : Hub C → HubUser C → Bool
  unfolding user_is_registered
  check_registered_users_only hub user =
      hub.config.registered_users_only && not (user_is_registered user)

  -- `INF_CHECK`: the next step, unless the one before failed.
  abbrev pub inf_check :
      Option (Outcome C)
      → (Hub C → HubUser C → AdcMessage → Option (Outcome C))
      → Option (Outcome C)
  inf_check none next = none
  inf_check (some o) next = elim o.failure [
    | some failure ↦ some o
    | none ↦ next o.hub o.user o.cmd
  ]

  abbrev pub coded : Bool → Option (Outcome C) → Option (Outcome C × Bool)
  coded code none = none
  coded code (some o) = some (o, code)

  unfoldable pub required : Hub C → HubUser C → AdcMessage → Option (Outcome C)
  unfolding check_required_login_flags
  required hub user cmd = elim (check_required_login_flags cmd) [
    | none ↦ none
    | some failure ↦ some (judged hub user cmd failure)
  ]

  -- The end of a login that the limits allow.
  unfoldable pub accept_info : Hub C → HubUser C → AdcMessage → Option (Outcome C)
  unfolding hub_handle_info_low_bandwidth user_set_info
  accept_info hub user cmd =
      elim (hub_handle_info_low_bandwidth hub.config.low_bandwidth_mode cmd) [
        | none ↦ none
        | some stripped ↦ some (passed hub (user_set_info user stripped) stripped)
      ]

  -- Whether a user with its credentials may enter.
  unfoldable pub judge_user : Hub C → HubUser C → AdcMessage → Option (Outcome C)
  unfolding check_is_hub_full check_registered_users_only check_limits accept_info
  judge_user hub user cmd =
      if check_is_hub_full hub user
      then some (refused hub user cmd hub_full)
      else if check_registered_users_only hub user
      then some (refused hub user cmd hub_registered_users_only)
      else inf_check (check_limits hub user cmd) accept_info

  module _ (hash_pid : Bytes → Bytes) (acl : Acl) where
    unfoldable pub hub_perform_login_checks : Hub C → HubUser C → AdcMessage → Option (Outcome C)
    unfolding required check_cid check_nick check_network check_user_agent check_acl check_logged_in
    hub_perform_login_checks hub user cmd =
        let identified = inf_check (required hub user cmd) (check_cid hash_pid) in
        let named = inf_check identified check_nick in
        let networked = inf_check named (check_network acl) in
        let agent = inf_check networked check_user_agent in
        let allowed =
          inf_check agent (λ hub user cmd. some (judged hub user cmd (check_acl acl user))) in
        inf_check allowed (λ hub user cmd. some (check_logged_in hub user cmd))

    -- What follows the login checks; whether a password is needed comes with it.
    unfoldable pub admit_user : Hub C → HubUser C → AdcMessage → Option (Outcome C × Bool)
    unfolding set_credentials judge_user
    admit_user hub user cmd =
        let (user', typed, code) = set_credentials acl user cmd in
        coded code (judge_user hub user' typed)

    -- A private identifier must not be sent to anyone.
    unfoldable pub hub_handle_info_login :
        Hub C → HubUser C → AdcMessage → Option (Outcome C × Bool)
    unfolding hub_perform_login_checks admit_user remove_names
    hub_handle_info_login hub user cmd = elim (hub_perform_login_checks hub user cmd) [
      | none ↦ none
      | some checked ↦ elim checked.failure [
        | some failure ↦ some (checked, false)
        | none ↦ elim (remove_names ((b'P', b'D') ∷ []) checked.cmd) [
          | none ↦ none
          | some removed ↦ admit_user checked.hub checked.user removed
        ]
      ]
    ]
