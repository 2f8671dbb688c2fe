-- ===== src/Core/Inf/Presence.antt =====
-- The checks of src/core/inf.c on a user's address, its user agent, and who is logged in already.
use uhub.Prelude.{
  ℕ, Bool, true, false, not, ◌&&◌, [], ◌∷◌, Option, none, some, ◌==◌, if◌then◌else◌, Bytes, codes,
  bytes_eq,
}
use uhub.Adc.Message.{AdcMessage}
use uhub.Adc.Message.Build.{adc_msg_add_named_argument}
use uhub.Adc.Message.Arguments.{adc_msg_get_named_argument, index_of}
use uhub.Core.Profile.{quit_ghost_timeout}
use uhub.Core.User.{HubUser, user_flag_get, user_flag_set, flag_choke, flag_nat}
use uhub.Core.UserManager.{uman_get_user_by_nick, uman_get_user_by_cid}
use uhub.Core.Hub.{Hub, hub_disconnect_user, nick_taken, cid_taken}
use uhub.Core.Inf.Names.{remove_names}
use uhub.Core.Inf.Identity.{Acl, Outcome, passed, refused, user_agent_of}

-- `client_given_ip && strcmp(client_given_ip, "0.0.0.0") != 0`
abbrev pub gives_address : Option Bytes → Bool
gives_address none = false
gives_address (some given) = not (bytes_eq given (codes "0.0.0.0"))

abbrev pub contains : ℕ → Bytes → Bool
contains c text = elim (index_of c text) [ none ↦ false | some i ↦ true ]

abbrev pub and_added : ℕ → ℕ → Bytes → Option AdcMessage → Option AdcMessage
and_added p q value none = none
and_added p q value (some cmd) = some (adc_msg_add_named_argument cmd p q value)

-- The address as the hub sees it takes the place of what the message says.
unfoldable pub correct_address : Bytes → AdcMessage → Option AdcMessage
unfolding remove_names index_of
correct_address address cmd =
    let ipv4 = remove_names ((b'I', b'6') ∷ (b'U', b'6') ∷ (b'I', b'4') ∷ []) cmd in
    let ipv6 = remove_names ((b'I', b'4') ∷ (b'U', b'4') ∷ (b'I', b'6') ∷ []) cmd in
    if contains b'.' address
    then and_added b'I' b'4' address ipv4
    else if contains b':' address
    then and_added b'I' b'6' address ipv6
    else some cmd

abbrev pub overrides : Acl → Bytes → Option Bytes → Bool
overrides acl address given = acl.is_ip_nat_override address && gives_address given

module _ {ℓ} {C : Type ℓ} where
  abbrev pub readdressed : Hub C → HubUser C → Option AdcMessage → Option (Outcome C)
  readdressed hub user none = none
  readdressed hub user (some cmd) = some (passed hub user cmd)

  unfoldable pub check_network : Acl → Hub C → HubUser C → AdcMessage → Option (Outcome C)
  unfolding correct_address remove_names user_flag_set
  check_network acl hub user cmd = elim (adc_msg_get_named_argument cmd b'I' b'4') [
    | none ↦ none
    | some given ↦ elim (overrides acl user.address given) [
      | true ↦
          readdressed hub (user_flag_set user flag_nat)
            (remove_names ((b'I', b'6') ∷ (b'U', b'6') ∷ []) cmd)
      | false ↦ readdressed hub user (correct_address user.address cmd)
    ]
  ]

  unfoldable pub check_user_agent : Hub C → HubUser C → AdcMessage → Option (Outcome C)
  unfolding user_agent_of
  check_user_agent hub user cmd = elim (adc_msg_get_named_argument cmd b'A' b'P') [
    | none ↦ none
    | some name ↦ elim (adc_msg_get_named_argument cmd b'V' b'E') [
      | none ↦ none
      | some version ↦
          some (passed hub (record user { user_agent = user_agent_of name version }) cmd)
    ]
  ]

  -- The same user twice: an old connection that takes no data is closed.
  unfoldable pub check_ghost : Hub C → HubUser C → AdcMessage → ℕ → Outcome C
  unfolding user_flag_get hub_disconnect_user
  check_ghost hub user cmd lookup = elim (hub.manager.users.table lookup) [
    | none ↦ refused hub user cmd cid_taken
    | some old ↦ elim (user_flag_get old flag_choke) [
      | true ↦ passed (hub_disconnect_user hub old quit_ghost_timeout).0 user cmd
      | false ↦ refused hub user cmd cid_taken
    ]
  ]

  -- A user is the one that a map holds when it has its identifier.
  unfoldable pub check_logged_in : Hub C → HubUser C → AdcMessage → Outcome C
  unfolding uman_get_user_by_nick uman_get_user_by_cid check_ghost
  check_logged_in hub user cmd = elim (uman_get_user_by_nick hub.manager user.nick) [
    | none ↦ elim (uman_get_user_by_cid hub.manager user.cid) [
      | none ↦ passed hub user cmd
      | some lookup2 ↦ refused hub user cmd cid_taken
    ]
    | some lookup1 ↦ elim (uman_get_user_by_cid hub.manager user.cid) [
      | none ↦ if lookup1 == user.sid then passed hub user cmd else refused hub user cmd nick_taken
      | some lookup2 ↦
          if lookup1 == user.sid
          then passed hub user cmd
          else if lookup1 == lookup2
          then check_ghost hub user cmd lookup1
          else refused hub user cmd nick_taken
    ]
  ]
