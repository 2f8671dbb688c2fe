-- ===== src/Core/Tests/Hub.antt =====
-- Runs of the model of src/core/hub.c and its login on one hub.
mod Login
use uhub.Prelude.{
  inl, inr, ◌+◌, ◌^◌, ◌<◌, ◌≡◌, refl, true, false, [], ◌∷◌, Option, none, some, arith, length,
  Bytes, codes, subst, sym, ◌∙◌, ◌==◌, if◌then◌else◌, ℕ,
}
use uhub.Util.Credentials.{AuthCredentials}
use uhub.Adc.Message.{
  AdcMessage, zeroed, fourcc, adc_msg_grow, adc_msg_terminate, adc_msg_cache_append,
  adc_msg_unterminate, ends_with_newline,
}
use uhub.Adc.Message.Parse.{adc_msg_parse, adc_msg_parse_verify}
use uhub.Core.EventQueue.{EventQueue}
use uhub.Core.User.{HubUser, UserState, user_is_logged_in}
use uhub.Core.Route.{Limits, Table, Users}
use uhub.Core.UserManager.{UserManager}
use uhub.Core.Hub.{Hub, HubConfig, HubState, HubEvent, StatusMessage}
use uhub.Core.Inf.Update.{Handled}
use uhub.Adc.Message.Build.{adc_msg_construct, adc_msg_add_argument, adc_msg_add_argument_string}
use uhub.Adc.Escape.{adc_msg_escape, escape_byte}
use uhub.Core.Hub.Command.{flood_text, CommandKind, FloodType, command_kind}
use uhub.Core.Hub.Chat.{Plugins}
use uhub.Core.Hub.Message.{Services, hub_handle_message, sender}
use uhub.Core.Hub.Message.Flood.{Warnable, Quiet, flood_warning}
use uhub.Core.Hub.Message.Guard.{
  before_login, hub_handle_message-unlogged, hub_handle_message-withheld,
}
use uhub.Core.Inf.Identity.{Acl}
use uhub.Core.Tests.{slow}
use uhub.Core.Tests.Routing.{user_with, idle, idle-IsQueue, limits}

abbrev pub config : HubConfig
config = record {
  max_users = 10;
  registered_users_only = false;
  low_bandwidth_mode = true;
  obsolete_clients = false;
  limit_min_share = 0;
  limit_max_share = 0;
  limit_min_slots = 1;
  limit_max_slots = 10;
  limit_min_hubs = 0;
  limit_max_hubs = 50;
  limit_min_hubs_user = 0;
  limit_max_hubs_user = 0;
  limit_min_hubs_reg = 0;
  limit_max_hubs_reg = 0;
  limit_min_hubs_op = 0;
  limit_max_hubs_op = 0;
  flood_ctl_interval = 60;
  flood_ctl_chat = 10;
  flood_ctl_connect = 10;
  flood_ctl_search = 10;
  flood_ctl_update = 10;
  flood_ctl_extras = 10;
  msg_user_flood_chat = codes "slow";
  msg_user_flood_connect = codes "slow";
  msg_user_flood_search = codes "slow";
  msg_user_flood_update = codes "slow";
  msg_user_flood_extras = codes "slow";
  redirect_addr = [];
  message_text = λ msg. codes "no";
}

abbrev pub entrant : HubUser Bytes
entrant = record (user_with idle) { state = UserState.state_identify }

abbrev pub hub : Hub Bytes
hub = record {
  status = HubState.hub_status_running;
  config = config;
  manager = record {
    users = record { table = λ s. if s == 1 then some entrant else none; list = [] };
    nickmap = [];
    cidmap = [];
    count = 0;
    count_peak = 0;
    shared_size = 0;
    shared_files = 0;
  };
  queue = record { locked = false; q1 = []; q2 = [] };
}

abbrev pub acl : Acl
acl = record {
  is_cid_banned = λ cid. false;
  is_user_banned = λ nick. false;
  is_user_denied = λ nick. false;
  is_ip_nat_override = λ address. false;
  access_info = λ nick. some AuthCredentials.operator;
}

abbrev plugins : Plugins Bytes
plugins = record {
  command_invoke = λ user line. false;
  denies_chat = λ user line. false;
  denies_private = λ user target line. false;
  denies_search = λ user line. false;
  denies_result = λ user target line. false;
  denies_connect = λ user target. false;
  denies_revconnect = λ user target. false;
}

abbrev services : Services Bytes
services = record {
  plugins = plugins;
  acl = acl;
  hash_pid = λ pid. pid;
  send_handshake = λ hub user. some (hub, user);
  password_verify = λ hub user password. true;
}

room : (kind : FloodType) → 0 + length (flood_warning config kind) < 2 ^ 64
unfolding flood_warning flood_text adc_msg_add_argument_string adc_msg_add_argument
    adc_msg_construct fourcc adc_msg_terminate adc_msg_cache_append adc_msg_unterminate
    adc_msg_escape escape_byte ends_with_newline adc_msg_grow
room FloodType.of_chat = omega arith
room FloodType.of_connect = omega arith
room FloodType.of_search = omega arith
room FloodType.of_update = omega arith
room FloodType.of_extras = omega arith

entrant-Warnable : Warnable config entrant
entrant-Warnable = record { queue = idle-IsQueue; room = room }

some-eq {ℓ} : {A : Type ℓ} {a b : A} → ◌≡◌ {A = Option A} (some a) (some b) → a ≡ b
some-eq e = cc

abbrev chat_line : Bytes
chat_line = codes "BMSG AAAB hi"

abbrev chat_command : AdcMessage
chat_command = record zeroed {
  cmd = 0x424d5347;
  source = 1;
  cache = codes "BMSG AAAB hi\n";
  capacity = 16;
  references = 1;
}

chat_parsed :
    adc_msg_parse_verify (some (sender slow limits services 100 entrant)) chat_line
    ≡ some chat_command
unfolding adc_msg_parse_verify adc_msg_parse
chat_parsed = refl

-- A chat message of a client that has not logged in.
unlogged_example :
    (r : Handled Bytes) × (hub_handle_message slow limits services 100 hub entrant chat_line
      ≡ some r)
    × (r.hub ≡ hub)
unfolding user_is_logged_in command_kind
unlogged_example =
    hub_handle_message-unlogged slow limits services 100 hub entrant chat_line refl
      (λ cmd e.
        subst (λ m. before_login (command_kind m.cmd) ≡ false) (some-eq (sym chat_parsed ∙ e)) refl)
      entrant-Warnable

abbrev member_user : HubUser Bytes
member_user = record entrant { state = UserState.state_normal }

abbrev quit_line : Bytes
quit_line = codes "BQUI AAAB x"

abbrev quit_command : AdcMessage
quit_command = record zeroed {
  cmd = 0x42515549;
  source = 1;
  cache = codes "BQUI AAAB x\n";
  capacity = 16;
  references = 1;
}

quit_parsed :
    adc_msg_parse_verify (some (sender slow limits services 100 member_user)) quit_line
    ≡ some quit_command
unfolding adc_msg_parse_verify adc_msg_parse
quit_parsed = refl

-- A quit message of a user that is logged in.
withheld_example :
    (r : Handled Bytes) × (hub_handle_message slow limits services 100 hub member_user quit_line
      ≡ some r)
    × (r.hub ≡ hub)
withheld_example =
    hub_handle_message-withheld slow limits services 100 hub member_user quit_line quit_command
      quit_parsed (inr (inr (inr (inl refl))))
      (record { queue = idle-IsQueue; room = entrant-Warnable.room })
