-- ===== src/Core/Tests/Routing.antt =====
-- Runs of the models of src/core/user.c and src/core/route.c on two users.
use uhub.Prelude.{
  ◌≡◌, ◌↔◌, refl, true, false, [], ◌∷◌, none, some, arith, Bytes, codes, ◌==◌, if◌then◌else◌,
}
use uhub.Util.Credentials.{AuthCredentials}
use uhub.Core.Queue.{IoqSend}
use uhub.Core.Queue.Stream.{IsQueue}
use uhub.Core.NetWrite.{want_read}
use uhub.Core.User.{HubUser, UserState}
use uhub.Core.Route.{Limits, Users, do_send}
use uhub.Core.Route.Recipients.{Subscribed, do_send-Subscribed}
use uhub.Adc.Message.{AdcMessage, zeroed}
use uhub.Util.Flood.{flood_control_reset}
use uhub.Core.Profile.{UserLimits, UserQuitReason}
use uhub.Core.Tests.{two_lines}

abbrev pub idle : IoqSend
idle = record { size = 0; offset = 0; queue = [] }

pub idle-IsQueue : IsQueue idle
idle-IsQueue = record { sized = refl; bounded = omega arith; messages = tt; within = refl }

abbrev pub no_limits : UserLimits
no_limits = record {
  shared_size = 0;
  shared_files = 0;
  upload_slots = 0;
  hub_count_user = 0;
  hub_count_registered = 0;
  hub_count_operator = 0;
  hub_count_total = 0;
}

abbrev pub user_with : IoqSend → HubUser Bytes
user_with q = record {
  sid = 1;
  credentials = AuthCredentials.guest;
  state = UserState.state_normal;
  flags = λ bit. false;
  feature_cast = some (codes "TCP4" ∷ []);
  nick = codes "ann";
  cid = [];
  user_agent = [];
  address = codes "192.0.2.1";
  info = none;
  limits = no_limits;
  quit_reason = UserQuitReason.quit_unknown;
  flood_chat = flood_control_reset;
  flood_connect = flood_control_reset;
  flood_search = flood_control_reset;
  flood_update = flood_control_reset;
  flood_extras = flood_control_reset;
  recv_queue = record { buf = [] };
  send_queue = q;
  connection = some [];
  events = want_read;
}

abbrev pub limits : Limits
limits = record { max_send_buffer = 100; max_send_buffer_soft = 80 }

abbrev two_users : Users Bytes
two_users = record {
  table = λ s.
      if s == 1 then some (user_with idle) else if s == 2 then some (user_with two_lines) else none;
  list = 1 ∷ 2 ∷ [];
}

abbrev broadcast : AdcMessage
broadcast = record zeroed { cache = codes "BMSG AAAB hi\n"; source = 1 }

do_send-Subscribed_example :
    (do_send (user_with idle) broadcast ≡ true) ↔ Subscribed (user_with idle) broadcast
do_send-Subscribed_example = do_send-Subscribed (user_with idle) broadcast

abbrev leaving : HubUser Bytes
leaving = record (user_with idle) { state = UserState.state_cleanup }
