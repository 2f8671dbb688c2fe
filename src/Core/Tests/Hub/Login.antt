-- ===== src/Core/Tests/Hub/Login.antt =====
-- Logins in the model of src/core/inf.c and src/core/hub.c, on the hub of the runs.
use uhub.Prelude.{
  subst, ◌⊎◌, if◌then◌else◌, ◌==◌, arith, Bool, ◌≡◌, ◌↔◌, refl, true, [], ◌∷◌, ◌++◌, Option, none,
  some, Bytes, codes, All,
}
use uhub.Adc.Message.{AdcMessage, zeroed, adc_msg_get_arg_offset}
use uhub.Adc.Message.Line.{IsLine}
use uhub.Adc.Message.Arguments.{adc_msg_has_named_argument}
use uhub.Core.User.{HubUser, UserState, user_is_logged_in}
use uhub.Core.Queue.{ioq_send_send}
use uhub.Core.Hub.{cid_invalid, Hub}
use uhub.Core.Hub.Login.{hub_handle_password, on_login_success, check_duplicate_logins_ok}
use uhub.Core.Hub.Login.Entered.{CanEnter, on_login_success-IsRegister}
use uhub.Core.Hub.Login.Ends.{Present}
use uhub.Core.UserManager.{UserManager, rb_tree_get, uman_add, list_append}
use uhub.Core.UserManager.Registered.{IsRegister, uman_add-IsRegister}
use uhub.Core.Tests.Managers.{no_keys}
use uhub.Core.Hub.Login.Verified.{IsVerified, hub_handle_password-IsVerified}
use uhub.Core.Inf.Names.{hub_handle_info_common}
use uhub.Core.Inf.Common.{hub_only}
use uhub.Core.Inf.Identity.{Outcome, nick_failure, cid_failure}
use uhub.Core.Inf.Identity.Nick.{IsNick, nick_failure-IsNick, IsIdentity, cid_failure-IsIdentity}
use uhub.Core.Inf.Limits.{limits_failure}
use uhub.Core.Inf.Limits.Within.{WithinLimits, limits_failure-WithinLimits}
use uhub.Core.Inf.Login.{hub_handle_info_login}
use uhub.Core.Inf.Login.Keeping.{IsSolid}
use uhub.Core.Inf.Login.Private.{hub_handle_info_login-private}
use uhub.Core.Inf.Update.{Handled, handled, prepare_update}
use uhub.Core.Inf.Update.Stripped.{never_updated, prepare_update-stripped}
use uhub.Core.Tests.{slow}
use uhub.Core.Tests.Routing.{idle-IsQueue, no_limits, limits}
use uhub.Core.Tests.Hub.{config, entrant, hub, acl}

abbrev info_line : Bytes
info_line = codes "BINF AAAB NIann PDxyz"

abbrev info_command : AdcMessage
info_command = record zeroed {
  cmd = 0x42494e46;
  source = 1;
  cache = info_line ++ b'\n' ∷ [];
  capacity = 32;
  references = 1;
}

info-IsLine : IsLine info_command info_line 9
unfolding adc_msg_get_arg_offset
info-IsLine = record {
  text = refl;
  one_line = omega arith;
  offset_is = refl;
  positive = omega arith;
  within = omega arith;
}

entrant-IsSolid : IsSolid entrant.address
entrant-IsSolid = record { no_space = omega arith; one_line = omega arith }

login_private_example :
    (user' : HubUser Bytes) × (cmd' : AdcMessage) × (o : Outcome Bytes) × (code : Bool)
    × (hub_handle_info_common entrant info_command ≡ some (user', cmd'))
    × (hub_handle_info_login (λ pid. pid) acl hub user' cmd' ≡ some (o, code))
    × (o.failure ≡ none
        → (m : AdcMessage) × (o.user.info ≡ some m)
          × All (λ n. adc_msg_has_named_argument m n.0 n.1 ≡ some 0) ((b'P', b'D') ∷ hub_only))
login_private_example =
    hub_handle_info_login-private (λ pid. pid) acl hub entrant info_command info_line 9 info-IsLine
      entrant-IsSolid

stripped_example :
    (user' : HubUser Bytes) × (cmd' : AdcMessage) × (o : Outcome Bytes) × (hub_handle_info_common
        entrant info_command
      ≡ some (user', cmd'))
    × (prepare_update hub user' cmd' ≡ some o)
    × (o.failure ≡ none
        → All (λ n. adc_msg_has_named_argument o.cmd n.0 n.1 ≡ some 0) never_updated)
stripped_example = prepare_update-stripped hub entrant info_command info_line 9 info-IsLine

within_example :
    (limits_failure config (record no_limits { upload_slots = 3 }) ≡ none)
    ↔ WithinLimits config (record no_limits { upload_slots = 3 })
within_example = limits_failure-WithinLimits config (record no_limits { upload_slots = 3 })

nick_example : (nick_failure (codes "ann") ≡ none) ↔ IsNick (codes "ann")
nick_example = nick_failure-IsNick (codes "ann")

abbrev own_id : Bytes
own_id = codes "ABCDEFGHIJKLMNOPQRSTUVWXYZ234567ABCDEFG"

-- The letters of the hash may be small.
abbrev small_id : Bytes
small_id = codes "abcdefghijklmnopqrstuvwxyz234567abcdefg"

cid_example :
    (cid_failure (λ pid. small_id) own_id own_id ≡ none)
    ↔ IsIdentity (λ pid. small_id) own_id own_id
cid_example = cid_failure-IsIdentity (λ pid. small_id) own_id own_id

cid_accepted : cid_failure (λ pid. small_id) own_id own_id ≡ none
unfolding cid_failure
cid_accepted = refl

cid_of_another : cid_failure (λ pid. b'A' ∷ small_id) own_id own_id ≡ some cid_invalid
unfolding cid_failure
cid_of_another = refl

abbrev asked : HubUser Bytes
asked = record entrant {
  state = UserState.state_verify;
  cid = codes "AB2";
  info = some info_command;
}

abbrev password_command : AdcMessage
password_command = record zeroed {
  cmd = 0x48504153;
  source = 1;
  cache = codes "HPAS pw\n";
  capacity = 16;
  references = 1;
}

abbrev verify : Hub Bytes → HubUser Bytes → Option Bytes → Bool
verify h user password = true

abbrev welcomed : Handled Bytes
welcomed = elim (hub_handle_password slow limits verify hub asked password_command) [
  | none ↦ handled true (hub, asked)
  | some r ↦ r
]

password_run : hub_handle_password slow limits verify hub asked password_command ≡ some welcomed
unfolding hub_handle_password adc_msg_get_arg_offset ioq_send_send
password_run = refl

password_example : IsVerified slow limits verify hub asked password_command
unfolding hub_handle_password user_is_logged_in adc_msg_get_arg_offset ioq_send_send
password_example =
    hub_handle_password-IsVerified slow limits verify hub asked password_command welcomed refl
      password_run refl

-- A user that is there already.
abbrev member_user : HubUser Bytes
member_user = record entrant {
  sid = 2;
  state = UserState.state_normal;
  nick = codes "bob";
  cid = codes "AB3";
  info = some (record info_command { source = 2; cache = codes "BINF AAAC NIbob\n" });
}

abbrev bare : UserManager Bytes
bare = record hub.manager {
  users = record {
    table = λ s. if s == 1 then some asked else if s == 2 then some member_user else none;
    list = [];
  };
}

abbrev waiting : Hub Bytes
waiting = record hub { manager = uman_add bare member_user }

waiting-IsRegister : IsRegister waiting.manager
unfolding rb_tree_get
waiting-IsRegister =
    uman_add-IsRegister bare member_user
      (record { distinct = tt; counted = refl; nicks = no_keys _; cids = no_keys _ }) refl refl refl
      (omega arith)

member-Present : Present 50 (waiting.manager.users.table 2)
unfolding uman_add
member-Present = record {
  user = member_user;
  found = refl;
  info = record info_command { source = 2; cache = codes "BINF AAAC NIbob\n" };
  informed = refl;
  not_empty = omega arith;
  queue = idle-IsQueue;
  room = omega arith;
}

asked-CanEnter : CanEnter 50 waiting asked
unfolding uman_add
asked-CanEnter = record {
  info = info_command;
  offset = 9;
  informed = refl;
  line = (info_line, info-IsLine);
  queue = idle-IsQueue;
  short = omega arith;
  room = omega arith;
  others = λ s m.
      let two : 2 ≡ s = ground (arith, m) in
      subst (λ s. Present 50 (waiting.manager.users.table s)) two member-Present;
}

entered_example :
    (hub' : Hub Bytes) × (user' : HubUser Bytes) × (on_login_success slow limits waiting asked
      ≡ some (hub', user'))
    × IsRegister hub'.manager
    × ((hub' ≡ waiting) ⊎ (hub'.manager.users.list ≡ list_append waiting.manager.users.list 1))
unfolding uman_add check_duplicate_logins_ok
entered_example =
    on_login_success-IsRegister slow limits 50 waiting asked waiting-IsRegister refl refl
      (omega arith) asked-CanEnter
