-- ===== src/Core/User.antt =====
-- src/core/user.c and src/core/user.h: the states, the flags and the features of a user.
-- The record has the fields of `hub_user` that the modelled operations read or write.
pub mod States
pub mod Info
pub mod Kept
use uhub.Prelude.{
  ℕ, suc, zero, ◌+◌, Bool, true, false, ◌&&◌, ◌||◌, not, List, [], ◌∷◌, ◌++◌, Option, none, some,
  ◌==◌, if◌then◌else◌, length, take, Bytes, codes, bytes_eq,
}
use uhub.Util.Credentials.{AuthCredentials, auth_cred_is_protected, auth_cred_is_registered}
use uhub.Core.Queue.{IoqSend, IoqRecv}
use uhub.Core.NetWrite.{NetWrite, want_read, want_write}
use uhub.Adc.Message.{AdcMessage, fourcc}
use uhub.Util.Flood.{FloodControl}
use uhub.Core.Profile.{UserLimits, UserQuitReason}

pub data UserState : Type 0 where
  state_protocol state_identify state_verify state_normal state_cleanup state_disconnected :
      UserState

pub data UserFlag : Type 0 where
  feature_base feature_auto feature_bbs feature_ucmd feature_zlif feature_tiger : UserFlag
  feature_bloom feature_ping feature_link feature_adcs feature_bas0 feature_hbri : UserFlag
  feature_dht flag_flood flag_muted flag_ignore flag_maxbuf flag_choke : UserFlag
  flag_want_read flag_want_write flag_user_list flag_pipeline flag_nat : UserFlag

-- The number of the one bit that is set in the flag's value.
pub flag_bit : UserFlag → ℕ
flag_bit feature_base = 0
flag_bit feature_auto = 1
flag_bit feature_bbs = 2
flag_bit feature_ucmd = 3
flag_bit feature_zlif = 4
flag_bit feature_tiger = 5
flag_bit feature_bloom = 6
flag_bit feature_ping = 7
flag_bit feature_link = 8
flag_bit feature_adcs = 9
flag_bit feature_bas0 = 10
flag_bit feature_hbri = 11
flag_bit feature_dht = 12
flag_bit flag_flood = 22
flag_bit flag_muted = 23
flag_bit flag_ignore = 24
flag_bit flag_maxbuf = 25
flag_bit flag_choke = 26
flag_bit flag_want_read = 27
flag_bit flag_want_write = 28
flag_bit flag_user_list = 29
flag_bit flag_pipeline = 30
flag_bit flag_nat = 31

-- `flags` is the word by its bits, `address` is the text of the address, and `events` is what the connection was last asked to wait for.
pub record HubUser {ℓ} (C : Type ℓ) : Type ℓ where
  pub sid : ℕ
  pub credentials : AuthCredentials
  pub state : UserState
  pub flags : ℕ → Bool
  pub feature_cast : Option (List Bytes)
  pub nick : Bytes
  pub cid : Bytes
  pub user_agent : Bytes
  pub address : Bytes
  pub info : Option AdcMessage
  pub limits : UserLimits
  pub quit_reason : UserQuitReason
  pub flood_chat : FloodControl
  pub flood_connect : FloodControl
  pub flood_search : FloodControl
  pub flood_update : FloodControl
  pub flood_extras : FloodControl
  pub recv_queue : IoqRecv
  pub send_queue : IoqSend
  pub connection : Option C
  pub events : NetWrite

-- The flag that a feature's name sets, if it is known.
pub convert_support_fourcc : ℕ → Option UserFlag
unfolding fourcc
convert_support_fourcc code =
    if code == fourcc b'B' b'A' b'S' b'0'
    then some feature_bas0
    else if code == fourcc b'B' b'A' b'S' b'E'
    then some feature_base
    else if code == fourcc b'A' b'U' b'T' b'0'
    then some feature_auto
    else if code == fourcc b'U' b'C' b'M' b'0' || code == fourcc b'U' b'C' b'M' b'D'
    then some feature_ucmd
    else if code == fourcc b'Z' b'L' b'I' b'F'
    then some feature_zlif
    else if code == fourcc b'B' b'B' b'S' b'0'
    then some feature_bbs
    else if code == fourcc b'T' b'I' b'G' b'R'
    then some feature_tiger
    else if code == fourcc b'B' b'L' b'O' b'M' || code == fourcc b'B' b'L' b'O' b'0'
    then some feature_bloom
    else if code == fourcc b'P' b'I' b'N' b'G'
    then some feature_ping
    else if code == fourcc b'H' b'B' b'R' b'I'
    then some feature_hbri
    else if code == fourcc b'L' b'I' b'N' b'K'
    then some feature_link
    else if code == fourcc b'A' b'D' b'C' b'S'
    then some feature_adcs
    else if code == fourcc b'D' b'H' b'T' b'0'
    then some feature_dht
    else none

-- `strncmp(tmp, feature, 4) == 0`
unfoldable pub same_feature : Bytes → Bytes → Bool
same_feature tmp feature = bytes_eq (take 4 tmp) (take 4 feature)

unfoldable pub any_feature : List Bytes → Bytes → Bool
unfolding same_feature
any_feature [] feature = false
any_feature (tmp ∷ rest) feature =
    if same_feature tmp feature then true else any_feature rest feature

abbrev pub or_empty : Option (List Bytes) → List Bytes
or_empty none = []
or_empty (some list) = list

module _ {ℓ} {C : Type ℓ} where
  unfoldable pub user_flag_get : HubUser C → UserFlag → Bool
  unfolding flag_bit
  user_flag_get user flag = user.flags (flag_bit flag)

  unfoldable pub user_flag_set : HubUser C → UserFlag → HubUser C
  unfolding flag_bit
  user_flag_set user flag = record user {
    flags = λ bit. if bit == flag_bit flag then true else user.flags bit;
  }

  unfoldable pub user_flag_unset : HubUser C → UserFlag → HubUser C
  unfolding flag_bit
  user_flag_unset user flag = record user {
    flags = λ bit. if bit == flag_bit flag then false else user.flags bit;
  }

  pub user_support_add : HubUser C → ℕ → HubUser C
  unfolding convert_support_fourcc user_flag_set
  user_support_add user code = elim (convert_support_fourcc code) [
    | none ↦ user
    | some feature ↦ user_flag_set user feature
  ]

  pub user_support_remove : HubUser C → ℕ → HubUser C
  unfolding convert_support_fourcc user_flag_unset
  user_support_remove user code = elim (convert_support_fourcc code) [
    | none ↦ user
    | some feature ↦ user_flag_unset user feature
  ]

  -- A null list has no features.
  unfoldable pub user_have_feature_cast_support : HubUser C → Bytes → Bool
  unfolding any_feature same_feature
  user_have_feature_cast_support user feature = elim user.feature_cast [
    | none ↦ false
    | some list ↦ any_feature list feature
  ]

  unfoldable pub user_set_feature_cast_support : HubUser C → Bytes → HubUser C
  user_set_feature_cast_support u feature = record u {
    feature_cast = some (or_empty u.feature_cast ++ take 4 feature ∷ []);
  }

  unfoldable pub user_clear_feature_cast_support : HubUser C → HubUser C
  user_clear_feature_cast_support u = record u { feature_cast = none }

  -- Nothing leaves `state_disconnected`, and only that follows `state_cleanup`.
  unfoldable pub user_set_state : HubUser C → UserState → HubUser C
  user_set_state user state = elim user.state [
    | state_disconnected ↦ user
    | state_cleanup ↦ elim state [
      | state_disconnected ↦ record user { state = state_disconnected }
      | _ ↦ user
    ]
    | _ ↦ record user { state = state }
  ]

  unfoldable pub user_is_logged_in : HubUser C → Bool
  user_is_logged_in user = elim user.state [ state_normal ↦ true | _ ↦ false ]

  unfoldable pub user_is_connecting : HubUser C → Bool
  user_is_connecting user = elim user.state [
    | state_protocol ↦ true
    | state_identify ↦ true
    | state_verify ↦ true
    | _ ↦ false
  ]

  unfoldable pub user_is_disconnecting : HubUser C → Bool
  user_is_disconnecting user = elim user.state [
    | state_cleanup ↦ true
    | state_disconnected ↦ true
    | _ ↦ false
  ]

  unfoldable pub user_is_protected : HubUser C → Bool
  user_is_protected user = auth_cred_is_protected user.credentials

  unfoldable pub user_is_registered : HubUser C → Bool
  user_is_registered user = auth_cred_is_registered user.credentials

  unfoldable pub user_net_io_want_write : HubUser C → HubUser C
  user_net_io_want_write user = record user { events = want_write }

  unfoldable pub user_net_io_want_read : HubUser C → HubUser C
  user_net_io_want_read user = record user { events = want_read }
