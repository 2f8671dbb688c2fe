-- ===== src/Core/Inf/Identity.antt =====
-- The checks of src/core/inf.c on who a user claims to be: its CID and PID, its nick, its address,
-- its user agent, and who is there already.
-- The hash of a PID (base32 and Tiger) and the access lists are parameters.
pub mod Nick
use uhub.Prelude.{
  ℕ, suc, zero, ◌+◌, ◌-◌, Bool, true, false, not, ◌&&◌, ◌||◌, List, [], ◌∷◌, ◌++◌, Option, none,
  some, ltb, leb, ◌==◌, if◌then◌else◌, length, take, Bytes, codes, bytes_eq, map,
}
use uhub.Util.Chars.{is_valid_base32_char}
use uhub.Util.Utf8.{is_valid_utf8_str}
use uhub.Util.Credentials.{AuthCredentials}
use uhub.Adc.Escape.{adc_msg_unescape}
use uhub.Adc.Message.{AdcMessage}
use uhub.Adc.Message.Build.{adc_msg_add_named_argument}
use uhub.Adc.Message.Arguments.{adc_msg_has_named_argument, adc_msg_get_named_argument, index_of}
use uhub.Core.Profile.{quit_ghost_timeout}
use uhub.Core.User.{HubUser, user_flag_get, user_flag_set, flag_choke, flag_nat, user_is_connecting}
use uhub.Core.UserManager.{uman_get_user_by_nick, uman_get_user_by_cid}
use uhub.Core.Hub.{
  Hub, StatusMessage, hub_disconnect_user, nick_missing, nick_multiple, nick_long, nick_short,
  nick_spaces, nick_bad_chars, nick_not_utf8, nick_taken, nick_restricted, cid_invalid, cid_missing,
  cid_taken, pid_missing, pid_invalid, ban_permanently, no_memory,
}
use uhub.Core.Inf.Names.{remove_names}

-- src/core/auth.c: the access lists, and the credentials that are kept for a nick.
pub record Acl : Type 0 where
  pub is_cid_banned : Bytes → Bool
  pub is_user_banned : Bytes → Bool
  pub is_user_denied : Bytes → Bool
  pub is_ip_nat_override : Bytes → Bool
  pub access_info : Bytes → Option AuthCredentials

-- What a check leaves: the hub, the user and the message as it changed them, and its return value,
-- where `none` is 0.
pub record Outcome {ℓ} (C : Type ℓ) : Type ℓ where
  pub hub : Hub C
  pub user : HubUser C
  pub cmd : AdcMessage
  pub failure : Option StatusMessage

abbrev pub max_cid_len : ℕ
max_cid_len = 39

abbrev pub max_nick_len : ℕ
max_nick_len = 64

abbrev pub max_ua_len : ℕ
max_ua_len = 32

-- The number of a required argument must be one.
abbrev pub exactly_one : Option ℕ → StatusMessage → StatusMessage → Option (Option StatusMessage)
exactly_one none missing wrong = none
exactly_one (some zero) missing wrong = some (some missing)
exactly_one (some (suc zero)) missing wrong = some none
exactly_one (some (suc (suc n))) missing wrong = some (some wrong)

-- The next test, if the one before found nothing wrong.
abbrev pub or_else :
    Option (Option StatusMessage) → Option (Option StatusMessage) → Option (Option StatusMessage)
or_else none later = none
or_else (some none) later = later
or_else (some (some failure)) later = some (some failure)

unfoldable pub check_required_login_flags : AdcMessage → Option (Option StatusMessage)
check_required_login_flags cmd =
    or_else (exactly_one (adc_msg_has_named_argument cmd b'I' b'D') cid_missing cid_invalid) (
      or_else (exactly_one (adc_msg_has_named_argument cmd b'P' b'D') pid_missing pid_invalid)
        (exactly_one (adc_msg_has_named_argument cmd b'N' b'I') nick_missing nick_multiple))

-- `tolower` in the C locale.
unfoldable pub tolower : ℕ → ℕ
tolower c = if leb b'A' c && leb c b'Z' then c + 32 else c

-- `strncasecmp(x, y, n) == 0`, for texts of at least that many bytes.
unfoldable pub same_letters : Bytes → Bytes → Bool
unfolding tolower
same_letters [] [] = true
same_letters (a ∷ x) (b ∷ y) = tolower a == tolower b && same_letters x y
same_letters _ _ = false

-- The loop over the characters of both, which are equally long.
unfoldable pub base32_loop : Bytes → Bytes → Option StatusMessage
unfolding is_valid_base32_char
base32_loop (c ∷ cid) (p ∷ pid) =
    let later = base32_loop cid pid in
    if not (is_valid_base32_char c)
    then some cid_invalid
    else if not (is_valid_base32_char p)
    then some pid_invalid
    else later
base32_loop _ _ = none

module _ (hash_pid : Bytes → Bytes) where
  unfoldable pub check_hash_tiger : Bytes → Bytes → Bool
  unfolding same_letters
  check_hash_tiger cid pid = same_letters (take max_cid_len (hash_pid pid)) (take max_cid_len cid)

  -- What is wrong with a CID and a PID; the CID that is kept otherwise is this one.
  unfoldable pub cid_failure : Bytes → Bytes → Option StatusMessage
  unfolding base32_loop check_hash_tiger
  cid_failure cid pid =
      if not (length cid == max_cid_len)
      then some cid_invalid
      else if not (length pid == max_cid_len)
      then some pid_invalid
      else elim (base32_loop cid pid) [
        | some failure ↦ some failure
        | none ↦ if not (check_hash_tiger cid pid) then some cid_invalid else none
      ]

abbrev pub nick_length_ok : Bytes → Option StatusMessage
nick_length_ok nick =
    if leb (length nick) 1
    then some nick_short
    else if ltb max_nick_len (length nick)
    then some nick_long
    else none

-- A `char` above 127 is negative, so it is not below 32 and above 0.
abbrev pub has_control : Bytes → Bool
has_control [] = false
has_control (c ∷ cs) = (ltb c 32 && ltb 0 c) || has_control cs

abbrev pub starts_with_space : Bytes → Bool
starts_with_space [] = false
starts_with_space (c ∷ cs) = c == b' '

abbrev pub nick_bad_characters : Bytes → Option StatusMessage
nick_bad_characters nick =
    if starts_with_space nick
    then some nick_spaces
    else if has_control nick
    then some nick_bad_chars
    else none

unfoldable pub nick_failure : Bytes → Option StatusMessage
unfolding is_valid_utf8_str
nick_failure nick = elim (nick_length_ok nick) [
  | some failure ↦ some failure
  | none ↦ elim (nick_bad_characters nick) [
    | some failure ↦ some failure
    | none ↦ if is_valid_utf8_str nick then none else some nick_not_utf8
  ]
]

-- The name and the version, cut to the room of `max_ua_len` bytes.
unfoldable pub user_agent_of : Option Bytes → Option Bytes → Bytes
user_agent_of name version =
    named name ++ versioned (min_len (length (unescaped name)) (max_ua_len + 1)) version
  where
    unescaped : Option Bytes → Bytes
    unescaped none = []
    unescaped (some text) = adc_msg_unescape text

    min_len : ℕ → ℕ → ℕ
    min_len offset len = if ltb len offset then len else offset

    named : Option Bytes → Bytes
    named name = take max_ua_len (unescaped name)

    versioned : ℕ → Option Bytes → Bytes
    versioned offset none = []
    versioned offset (some text) =
        take (max_ua_len + 1 - offset - 1)
          ((if offset == 0 then [] else b' ' ∷ []) ++ adc_msg_unescape text)

module _ {ℓ} {C : Type ℓ} where
  abbrev pub passed : Hub C → HubUser C → AdcMessage → Outcome C
  passed hub user cmd = record { hub = hub; user = user; cmd = cmd; failure = none }

  abbrev pub refused : Hub C → HubUser C → AdcMessage → StatusMessage → Outcome C
  refused hub user cmd failure = record {
    hub = hub;
    user = user;
    cmd = cmd;
    failure = some failure;
  }

  abbrev pub judged : Hub C → HubUser C → AdcMessage → Option StatusMessage → Outcome C
  judged hub user cmd failure = record { hub = hub; user = user; cmd = cmd; failure = failure }

  -- A missing argument is what the code takes for an allocation that failed.
  unfoldable pub cid_outcome :
      (Bytes → Bytes) → Hub C → HubUser C → AdcMessage → Option Bytes → Option Bytes → Outcome C
  unfolding cid_failure
  cid_outcome hash_pid hub user cmd none pid = refused hub user cmd no_memory
  cid_outcome hash_pid hub user cmd (some cid) none = refused hub user cmd no_memory
  cid_outcome hash_pid hub user cmd (some cid) (some pid) = elim (cid_failure hash_pid cid pid) [
    | some failure ↦ refused hub user cmd failure
    | none ↦ passed hub (record user { cid = cid }) cmd
  ]

  unfoldable pub check_cid : (Bytes → Bytes) → Hub C → HubUser C → AdcMessage → Option (Outcome C)
  unfolding cid_outcome
  check_cid hash_pid hub user cmd = elim (adc_msg_get_named_argument cmd b'I' b'D') [
    | none ↦ none
    | some cid ↦ elim (adc_msg_get_named_argument cmd b'P' b'D') [
      | none ↦ none
      | some pid ↦ some (cid_outcome hash_pid hub user cmd cid pid)
    ]
  ]

  unfoldable pub nick_outcome : Hub C → HubUser C → AdcMessage → Option Bytes → Outcome C
  unfolding nick_failure user_is_connecting
  nick_outcome hub user cmd none = passed hub user cmd
  nick_outcome hub user cmd (some escaped) =
      let nick = adc_msg_unescape escaped in
      elim (nick_failure nick) [
        | some failure ↦ refused hub user cmd failure
        | none ↦
            passed hub (if user_is_connecting user then record user { nick = nick } else user) cmd
      ]

  unfoldable pub check_nick : Hub C → HubUser C → AdcMessage → Option (Outcome C)
  unfolding nick_outcome
  check_nick hub user cmd = elim (adc_msg_get_named_argument cmd b'N' b'I') [
    | none ↦ none
    | some escaped ↦ some (nick_outcome hub user cmd escaped)
  ]

  unfoldable pub check_acl : Acl → HubUser C → Option StatusMessage
  check_acl acl user =
      if acl.is_cid_banned user.cid
      then some ban_permanently
      else if acl.is_user_banned user.nick
      then some ban_permanently
      else if acl.is_user_denied user.nick
      then some nick_restricted
      else none
