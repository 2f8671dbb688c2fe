-- ===== src/Core/Inf/Limits.antt =====
-- check_limits of src/core/inf.c: the numbers that a client gives, and the limits of the hub on them.
-- `atoi` and `atoll` are those of the C library, with the saturation of `strtol` on 64 bits.
pub mod Within
use uhub.Prelude.{
  ℕ, suc, zero, ◌+◌, ◌-◌, ◌*◌, ◌%◌, ◌^◌, Bool, true, false, not, ◌&&◌, ◌||◌, List, [], ◌∷◌, Option,
  none, some, ltb, leb, ◌==◌, if◌then◌else◌, Bytes, min,
}
use uhub.Util.Chars.{is_num}
use uhub.Adc.Message.{AdcMessage}
use uhub.Adc.Message.Arguments.{adc_msg_get_named_argument}
use uhub.Core.Profile.{UserLimits}
use uhub.Core.User.{HubUser, user_is_logged_in, user_is_protected}
use uhub.Core.UserManager.{UserManager}
use uhub.Core.Hub.{
  Hub, HubConfig, StatusMessage, hub_get_min_share, hub_get_max_share, share_size_low,
  share_size_high, slots_low, slots_high, hub_limit_low, hub_limit_high,
}
use uhub.Core.Inf.Identity.{Outcome}

-- The digits at the beginning, after those that gave `acc`.
pub digits_from : ℕ → Bytes → ℕ
unfolding is_num
digits_from acc [] = acc
digits_from acc (c ∷ cs) =
    let more = digits_from (acc * 10 + (c - b'0')) cs in if is_num c then more else acc

-- A number with its sign: true is negative.
abbrev pub signed_number : Bytes → Bool × ℕ
signed_number [] = (false, 0)
signed_number (c ∷ cs) =
    if c == b'-'
    then (true, digits_from 0 cs)
    else if c == b'+'
    then (false, digits_from 0 cs)
    else (false, digits_from 0 (c ∷ cs))

-- `isspace`
abbrev pub is_blank : ℕ → Bool
is_blank c = c == b' ' || (leb 9 c && leb c 13)

pub parse_number : Bytes → Bool × ℕ
unfolding digits_from
parse_number [] = (false, 0)
parse_number (c ∷ cs) =
    let rest = parse_number cs in if is_blank c then rest else signed_number (c ∷ cs)

-- `atoll`, with 0 for a negative number.
abbrev pub floor_long : Bool × ℕ → ℕ
floor_long (true, n) = 0
floor_long (false, n) = min n (2 ^ 63 - 1)

-- `atoi`, with 0 for a negative number: `strtol` cut to 32 bits.
abbrev pub long_word : Bool × ℕ → ℕ
long_word (true, n) = 2 ^ 64 - min n (2 ^ 63)
long_word (false, n) = min n (2 ^ 63 - 1)

abbrev pub floor_int : Bool × ℕ → ℕ
floor_int number = let word = long_word number % 2 ^ 32 in if ltb word (2 ^ 31) then word else 0

unfoldable pub atoll_floor : Bytes → ℕ
unfolding parse_number
atoll_floor text = floor_long (parse_number text)

unfoldable pub atoi_floor : Bytes → ℕ
unfolding parse_number
atoi_floor text = floor_int (parse_number text)

-- A number that the message gives, or the old one.
abbrev pub given_or : (Bytes → ℕ) → Option Bytes → ℕ → ℕ
given_or read none old = old
given_or read (some text) old = read text

-- The six numbers of a message, as texts.
pub record Given : Type 0 where
  pub shared_size : Option Bytes
  pub shared_files : Option Bytes
  pub hub_count_user : Option Bytes
  pub hub_count_registered : Option Bytes
  pub hub_count_operator : Option Bytes
  pub upload_slots : Option Bytes

abbrev pub with_given : {A : Type 0} → Option (Option Bytes) → (Option Bytes → Option A) → Option A
with_given none k = none
with_given (some text) k = k text

unfoldable pub read_given : AdcMessage → Option Given
read_given cmd = with_given (adc_msg_get_named_argument cmd b'S' b'S') λ size.
    with_given (adc_msg_get_named_argument cmd b'S' b'F') λ files.
      with_given (adc_msg_get_named_argument cmd b'H' b'N') λ normal.
        with_given (adc_msg_get_named_argument cmd b'H' b'R') λ registered.
          with_given (adc_msg_get_named_argument cmd b'H' b'O') λ operator.
            with_given (adc_msg_get_named_argument cmd b'S' b'L') λ slots. some (record {
              shared_size = size;
              shared_files = files;
              hub_count_user = normal;
              hub_count_registered = registered;
              hub_count_operator = operator;
              upload_slots = slots;
            })

unfoldable pub new_limits : Given → UserLimits → UserLimits
unfolding atoll_floor atoi_floor
new_limits given old =
    let user = given_or atoi_floor given.hub_count_user old.hub_count_user in
    let registered = given_or atoi_floor given.hub_count_registered old.hub_count_registered in
    let operator = given_or atoi_floor given.hub_count_operator old.hub_count_operator in
    record {
      shared_size = given_or atoll_floor given.shared_size old.shared_size;
      shared_files = given_or atoi_floor given.shared_files old.shared_files;
      upload_slots = given_or atoi_floor given.upload_slots old.upload_slots;
      hub_count_user = user;
      hub_count_registered = registered;
      hub_count_operator = operator;
      hub_count_total = (user + registered + operator) % 2 ^ 64;
    }

-- A limit of 0 is none.
abbrev pub above : ℕ → ℕ → Bool
above n limit = ltb limit n && not (limit == 0)

abbrev pub below : ℕ → ℕ → Bool
below n limit = ltb n limit && not (limit == 0)

unfoldable pub limits_failure : HubConfig → UserLimits → Option StatusMessage
unfolding hub_get_min_share hub_get_max_share
limits_failure config l =
    if below l.shared_size (hub_get_min_share config)
    then some share_size_low
    else if above l.shared_size (hub_get_max_share config)
    then some share_size_high
    else if above l.hub_count_user config.limit_max_hubs_user
        || (above l.hub_count_registered config.limit_max_hubs_reg
            || (above l.hub_count_operator config.limit_max_hubs_op
                || above l.hub_count_total config.limit_max_hubs))
    then some hub_limit_high
    else if below l.hub_count_user config.limit_min_hubs_user
        || (below l.hub_count_registered config.limit_min_hubs_reg
            || (below l.hub_count_operator config.limit_min_hubs_op
                || below l.hub_count_total config.limit_min_hubs))
    then some hub_limit_low
    else if below l.upload_slots config.limit_min_slots
    then some slots_low
    else if above l.upload_slots config.limit_max_slots
    then some slots_high
    else none

-- The totals of the hub follow a user that is logged in.
abbrev pub follow : ℕ → ℕ → ℕ → ℕ
follow total old new = (total + 2 ^ 64 - old + new) % 2 ^ 64

module _ {ℓ} {C : Type ℓ} where
  unfoldable pub count_shares : Bool → UserManager C → UserLimits → UserLimits → UserManager C
  count_shares false manager old new = manager
  count_shares true manager old new = record manager {
    shared_size = follow manager.shared_size old.shared_size new.shared_size;
    shared_files = follow manager.shared_files old.shared_files new.shared_files;
  }

  unfoldable pub check_limits : Hub C → HubUser C → AdcMessage → Option (Outcome C)
  unfolding read_given new_limits limits_failure count_shares user_is_logged_in user_is_protected
  check_limits hub user cmd = elim (read_given cmd) [
    | none ↦ none
    | some given ↦
        let limits = new_limits given user.limits in
        some (record {
          hub = record hub {
            manager = count_shares (user_is_logged_in user) hub.manager user.limits limits;
          };
          user = record user { limits = limits };
          cmd = cmd;
          failure = if user_is_protected user then none else limits_failure hub.config limits;
        })
  ]
