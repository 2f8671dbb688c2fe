-- ===== src/Core/Hub/Command.antt =====
-- The commands that hub_handle_message of src/core/hub.c tells apart, and its two macros: the check of
-- a flood and the routing of a message.
use uhub.Prelude.{
  ℕ, Bool, true, false, not, ◌&&◌, ◌||◌, List, [], ◌∷◌, Option, none, some, ◌==◌, if◌then◌else◌,
  Bytes,
}
use uhub.Util.Flood.{FloodControl, flood_control_check}
use uhub.Util.Credentials.{auth_cred_is_unrestricted}
use uhub.Adc.Message.{AdcMessage, fourcc}
use uhub.Core.Transport.{Transport}
use uhub.Core.User.{HubUser, user_is_logged_in}
use uhub.Core.Route.{Limits}
use uhub.Core.Hub.{Hub, HubConfig}
use uhub.Core.Hub.Status.{hub_send_flood_warning}
use uhub.Core.Hub.Chat.{route_from}
use uhub.Core.Inf.Update.{Handled, handled, finished}

-- The cases of the `switch`.
pub data CommandKind : Type 0 where
  support password info forbidden chat search spam search_result : CommandKind
  revconnect connect command other : CommandKind

abbrev pub one_of : ℕ → List ℕ → Bool
one_of code [] = false
one_of code (c ∷ codes) = code == c || one_of code codes

-- The four characters of a command as a number.
unfoldable pub command_kind : ℕ → CommandKind
unfolding fourcc
command_kind code =
    if code == fourcc b'H' b'S' b'U' b'P'
    then support
    else if code == fourcc b'H' b'P' b'A' b'S'
    then password
    else if code == fourcc b'B' b'I' b'N' b'F'
    then info
    else if one_of code (
        fourcc b'D' b'I' b'N' b'F'
        ∷ fourcc b'E' b'I' b'N' b'F'
        ∷ fourcc b'F' b'I' b'N' b'F'
        ∷ fourcc b'B' b'Q' b'U' b'I'
        ∷ fourcc b'D' b'Q' b'U' b'I'
        ∷ fourcc b'E' b'Q' b'U' b'I'
        ∷ fourcc b'F' b'Q' b'U' b'I'
        ∷ [])
    then forbidden
    else if one_of code (
        fourcc b'E' b'M' b'S' b'G'
        ∷ fourcc b'D' b'M' b'S' b'G'
        ∷ fourcc b'B' b'M' b'S' b'G'
        ∷ fourcc b'F' b'M' b'S' b'G'
        ∷ [])
    then chat
    else if one_of code (
        fourcc b'B' b'S' b'C' b'H'
        ∷ fourcc b'D' b'S' b'C' b'H'
        ∷ fourcc b'E' b'S' b'C' b'H'
        ∷ fourcc b'F' b'S' b'C' b'H'
        ∷ [])
    then search
    else if one_of code
        (fourcc b'F' b'R' b'E' b'S' ∷ fourcc b'B' b'R' b'E' b'S' ∷ fourcc b'E' b'R' b'E' b'S' ∷ [])
    then spam
    else if code == fourcc b'D' b'R' b'E' b'S'
    then search_result
    else if code == fourcc b'D' b'R' b'C' b'M'
    then revconnect
    else if code == fourcc b'D' b'C' b'T' b'M'
    then connect
    else if one_of code (
        fourcc b'B' b'C' b'M' b'D'
        ∷ fourcc b'D' b'C' b'M' b'D'
        ∷ fourcc b'E' b'C' b'M' b'D'
        ∷ fourcc b'F' b'C' b'M' b'D'
        ∷ fourcc b'H' b'C' b'M' b'D'
        ∷ [])
    then command
    else other

-- The counters of the flood control.
pub data FloodType : Type 0 where
  of_chat of_connect of_search of_update of_extras : FloodType

module _ {ℓ} {C : Type ℓ} where
  unfoldable pub flood_of : FloodType → HubUser C → FloodControl
  flood_of of_chat user = user.flood_chat
  flood_of of_connect user = user.flood_connect
  flood_of of_search user = user.flood_search
  flood_of of_update user = user.flood_update
  flood_of of_extras user = user.flood_extras

  unfoldable pub set_flood : FloodType → FloodControl → HubUser C → HubUser C
  set_flood of_chat control user = record user { flood_chat = control }
  set_flood of_connect control user = record user { flood_connect = control }
  set_flood of_search control user = record user { flood_search = control }
  set_flood of_update control user = record user { flood_update = control }
  set_flood of_extras control user = record user { flood_extras = control }

unfoldable pub flood_limit : HubConfig → FloodType → ℕ
flood_limit config of_chat = config.flood_ctl_chat
flood_limit config of_connect = config.flood_ctl_connect
flood_limit config of_search = config.flood_ctl_search
flood_limit config of_update = config.flood_ctl_update
flood_limit config of_extras = config.flood_ctl_extras

unfoldable pub flood_text : HubConfig → FloodType → Bytes
flood_text config of_chat = config.msg_user_flood_chat
flood_text config of_connect = config.msg_user_flood_connect
flood_text config of_search = config.msg_user_flood_search
flood_text config of_update = config.msg_user_flood_update
flood_text config of_extras = config.msg_user_flood_extras

module _ {ℓ} {C : Type ℓ} (net : Transport C) (limits : Limits) where
  abbrev pub warned : Option (HubUser C) → Option (HubUser C × Bool)
  warned none = none
  warned (some user) = some (user, true)

  -- `CHECK_FLOOD`: the user, and whether the message is dropped.
  unfoldable pub check_flood :
      HubConfig → ℕ → FloodType → Bool → HubUser C → Option (HubUser C × Bool)
  unfolding flood_control_check flood_of set_flood flood_limit flood_text hub_send_flood_warning
  check_flood config now kind warn user =
      let (control, flood) =
        flood_control_check (flood_of kind user) (flood_limit config kind) config.flood_ctl_interval
          now in
      let counted = set_flood kind control user in
      elim (flood && not (auth_cred_is_unrestricted user.credentials)) [
        | false ↦ some (counted, false)
        | true ↦ elim warn [
          | false ↦ some (counted, true)
          | true ↦ warned (hub_send_flood_warning net limits counted (flood_text config kind))
        ]
      ]

  -- `ROUTE_MSG`
  unfoldable pub route_msg : Hub C → HubUser C → AdcMessage → Option (Handled C)
  unfolding route_from user_is_logged_in
  route_msg hub user cmd = elim (user_is_logged_in user) [
    | true ↦ finished false (route_from net limits hub user cmd)
    | false ↦ some (handled true (hub, user))
  ]

  -- A case that goes on after its flood check.
  unfoldable pub unless_flood :
      ℕ
      → FloodType
      → Bool
      → Hub C
      → HubUser C
      → (HubUser C → Option (Handled C))
      → Option (Handled C)
  unfolding check_flood
  unless_flood now kind warn hub user next = elim (check_flood hub.config now kind warn user) [
    | none ↦ none
    | some (user', true) ↦ some (handled false (hub, user'))
    | some (user', false) ↦ next user'
  ]
