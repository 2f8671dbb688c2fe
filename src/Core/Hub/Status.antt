-- ===== src/Core/Hub/Status.antt =====
-- hub_send_status of src/core/hub.c, and src/core/hubevent.c on failures.
use uhub.Prelude.{
  ℕ, ◌+◌, ◌/◌, ◌%◌, Bool, true, false, not, ◌&&◌, [], ◌∷◌, ◌++◌, Option, none, some, ltb,
  if◌then◌else◌, take, Bytes, codes,
}
use uhub.Adc.Escape.{adc_msg_escape}
use uhub.Adc.Sid.{sid_to_string}
use uhub.Adc.Message.{AdcMessage, fourcc}
use uhub.Adc.Message.Build.{adc_msg_construct, adc_msg_add_argument, adc_msg_add_argument_string}
use uhub.Core.Transport.{Transport}
use uhub.Core.Profile.{UserQuitReason, quit_logon_error, quit_update_error}
use uhub.Core.User.{HubUser, flag_flood, user_flag_get, user_flag_set}
use uhub.Core.Route.{Limits, route_to_user}
use uhub.Core.Hub.{
  Hub, HubConfig, StatusMessage, hub_disconnect_user, hub_full, hub_disabled,
  hub_registered_users_only, nick_missing, nick_multiple, nick_invalid, nick_long, nick_short,
  nick_spaces, nick_bad_chars, nick_not_utf8, nick_taken, nick_restricted, cid_invalid, cid_missing,
  cid_taken, pid_missing, pid_invalid, ban_permanently, ban_temporarily, invalid_password,
  user_not_found, no_memory, share_size_low, share_size_high, slots_low, slots_high, hub_limit_low,
  hub_limit_high, no_common_hash, obsolete_adc0,
}

-- The code, the flag, the argument "TL" with the time, and whether to redirect.
pub record StatusRow : Type 0 where
  pub code : ℕ
  pub flag : Option Bytes
  pub reconnect_time : Option Bytes
  pub redirect : Bool

abbrev row : ℕ → Option Bytes → Option Bytes → Bool → StatusRow
row code flag time redirect = record {
  code = code;
  flag = flag;
  reconnect_time = time;
  redirect = redirect;
}

unfoldable pub status_row : StatusMessage → StatusRow
status_row hub_full = row 11 none (some (codes "TL600")) true
status_row hub_disabled = row 12 none (some (codes "TL-1")) true
status_row hub_registered_users_only = row 26 none none true
status_row nick_missing = row 43 none none false
status_row nick_multiple = row 43 none none false
status_row nick_invalid = row 21 none none false
status_row nick_long = row 21 none none false
status_row nick_short = row 21 none none false
status_row nick_spaces = row 21 none none false
status_row nick_bad_chars = row 21 none none false
status_row nick_not_utf8 = row 21 none none false
status_row nick_taken = row 22 none none false
status_row nick_restricted = row 21 none none false
status_row cid_invalid = row 43 (some (codes "FBID")) none false
status_row cid_missing = row 43 (some (codes "FMID")) none false
status_row cid_taken = row 24 none none false
status_row pid_missing = row 43 (some (codes "FMPD")) none false
status_row pid_invalid = row 27 (some (codes "FBPD")) none false
status_row ban_permanently = row 31 none none false
status_row ban_temporarily = row 32 (some (codes "TL600")) (some (codes "TL600")) false
status_row invalid_password = row 23 none none false
status_row user_not_found = row 20 none none false
status_row no_memory = row 30 none none true
status_row share_size_low = row 43 (some (codes "FBSS")) none true
status_row share_size_high = row 43 (some (codes "FBSS")) none true
status_row slots_low = row 43 (some (codes "FBSL")) none true
status_row slots_high = row 43 (some (codes "FBSL")) none true
status_row hub_limit_low = row 43 none none true
status_row hub_limit_high = row 43 none none true
status_row no_common_hash = row 47 none (some (codes "TL-1")) true
status_row obsolete_adc0 = row 40 none (some (codes "TL-1")) true

-- The level, a digit, and the two digits of the code.
unfoldable pub set_status_code : ℕ → ℕ → Bytes
set_status_code level code = (b'0' + level) ∷ (b'0' + code / 10) ∷ (b'0' + code % 10) ∷ []

abbrev pub with_argument : AdcMessage → Option Bytes → AdcMessage
with_argument cmd none = cmd
with_argument cmd (some argument) = adc_msg_add_argument cmd argument

unfoldable pub status_message : HubConfig → StatusMessage → ℕ → AdcMessage
unfolding status_row set_status_code fourcc
status_message config msg level =
    let coded =
      adc_msg_add_argument (adc_msg_construct (fourcc b'I' b'S' b'T' b'A') 6)
        (set_status_code level (status_row msg).code) in
    let told = adc_msg_add_argument coded (adc_msg_escape (config.message_text msg)) in
    with_argument told (status_row msg).flag

abbrev pub is_empty : Bytes → Bool
is_empty [] = true
is_empty (c ∷ cs) = false

-- `snprintf` cuts the text and the address to the sizes of its buffer.
unfoldable pub quit_message : HubConfig → StatusMessage → ℕ → AdcMessage
unfolding status_row fourcc
quit_message config msg sid =
    let of_user =
      adc_msg_add_argument (adc_msg_construct (fourcc b'I' b'Q' b'U' b'I') 512)
        (sid_to_string sid) in
    let told =
      adc_msg_add_argument of_user
        (take 229 (codes "MS" ++ adc_msg_escape (config.message_text msg))) in
    let timed = with_argument told (status_row msg).reconnect_time in
    if (status_row msg).redirect && not (is_empty config.redirect_addr)
    then adc_msg_add_argument timed (take 254 (codes "RD" ++ config.redirect_addr))
    else timed

-- `status_level_fatal`
abbrev pub status_level_fatal : ℕ
status_level_fatal = 2

module _ {ℓ} {C : Type ℓ} (net : Transport C) (limits : Limits) where
  -- `none` is the write loop out of fuel.
  unfoldable pub hub_send_status : HubConfig → HubUser C → StatusMessage → ℕ → Option (HubUser C)
  unfolding status_message quit_message route_to_user
  hub_send_status config user msg level =
      elim (route_to_user net limits user (status_message config msg level).cache) [
        | none ↦ none
        | some told ↦ elim (ltb level status_level_fatal) [
          | true ↦ some told
          | false ↦ route_to_user net limits told (quit_message config msg user.sid).cache
        ]
      ]

  abbrev pub leave : Hub C → UserQuitReason → Option (HubUser C) → Option (Hub C × HubUser C)
  leave hub reason none = none
  leave hub reason (some user) = some (hub_disconnect_user hub user reason)

  -- The plugins only log a failure.
  unfoldable pub on_login_failure : Hub C → HubUser C → StatusMessage → Option (Hub C × HubUser C)
  unfolding hub_send_status hub_disconnect_user
  on_login_failure hub user msg =
      leave hub quit_logon_error (hub_send_status hub.config user msg status_level_fatal)

  unfoldable pub on_update_failure : Hub C → HubUser C → StatusMessage → Option (Hub C × HubUser C)
  unfolding hub_send_status hub_disconnect_user
  on_update_failure hub user msg =
      leave hub quit_update_error (hub_send_status hub.config user msg status_level_fatal)

  -- A user is warned of a flood once.
  unfoldable pub hub_send_flood_warning : HubUser C → Bytes → Option (HubUser C)
  unfolding route_to_user user_flag_get user_flag_set fourcc
  hub_send_flood_warning user message = elim (user_flag_get user flag_flood) [
    | true ↦ some user
    | false ↦
        let msg =
          adc_msg_add_argument_string
            (adc_msg_add_argument (adc_msg_construct (fourcc b'I' b'S' b'T' b'A') 128)
              (codes "110"))
            message in
        elim (route_to_user net limits user msg.cache) [
          | none ↦ none
          | some told ↦ some (user_flag_set told flag_flood)
        ]
  ]
