-- ===== src/Core/Inf/Limits/Within.antt =====
-- The limits of src/core/inf.c on the numbers of a user, and that a line always gets a verdict.
use uhub.Prelude.{
  ℕ, ◌≡◌, ◌≤◌, ◌≢◌, ◌↔◌, refl, Bool, true, false, ◌||◌, Option, none, some, arith, if◌then◌else◌,
  none≢some, sym,
}
use uhub.Adc.Message.{AdcMessage}
use uhub.Adc.Message.Line.{IsLine}
use uhub.Core.Route.Recipients.{true≢false}
use uhub.Adc.Message.Arguments.Without.{get_named-some}
use uhub.Core.Profile.{UserLimits}
use uhub.Core.User.{HubUser, user_is_logged_in, user_is_protected}
use uhub.Core.Hub.{Hub, HubConfig, StatusMessage, hub_get_min_share, hub_get_max_share}
use uhub.Core.Inf.Identity.{Outcome}
use uhub.Core.Inf.Limits.{
  Bytes, Given, read_given, new_limits, limits_failure, count_shares, check_limits, above, below,
}

read_given-some :
    (cmd : AdcMessage) (body : Bytes) (offset : ℕ)
    → IsLine cmd body offset
    → (given : Given) × (read_given cmd ≡ some given)
unfolding read_given
read_given-some cmd body offset l =
    let (size, a) = get_named-some cmd body offset b'S' b'S' l in
    let (files, b) = get_named-some cmd body offset b'S' b'F' l in
    let (normal, c) = get_named-some cmd body offset b'H' b'N' l in
    let (registered, d) = get_named-some cmd body offset b'H' b'R' l in
    let (operator, e) = get_named-some cmd body offset b'H' b'O' l in
    let (slots, f) = get_named-some cmd body offset b'S' b'L' l in
    (
      record {
        shared_size = size;
        shared_files = files;
        hub_count_user = normal;
        hub_count_registered = registered;
        hub_count_operator = operator;
        upload_slots = slots;
      },
      rw (a, b, c, d, e, f, read_given) refl,
    )

module _ {ℓ} {C : Type ℓ} where
  pub check_limits-some :
      (hub : Hub C) (user : HubUser C) (cmd : AdcMessage) (body : Bytes) (offset : ℕ)
      → IsLine cmd body offset
      → (o : Outcome C) × (check_limits hub user cmd ≡ some o)
        × (o.cmd ≡ cmd)
        × (o.user.address ≡ user.address)
  unfolding check_limits
  check_limits-some hub user cmd body offset l =
      let (given, e) = read_given-some cmd body offset l in
      let limits = new_limits given user.limits in
      (
        record {
          hub = record hub {
            manager = count_shares (user_is_logged_in user) hub.manager user.limits limits;
          };
          user = record user { limits = limits };
          cmd = cmd;
          failure = if user_is_protected user then none else limits_failure hub.config limits;
        },
        rw (e, check_limits) refl,
        refl,
        refl,
      )

-- Between two limits, of which 0 is none.
pub record Between (low high n : ℕ) : Type 0 where
  pub at_least : low ≤ n
  pub at_most : high ≢ 0 → n ≤ high

-- Within all limits of the hub.
pub record WithinLimits (config : HubConfig) (l : UserLimits) : Type 0 where
  pub share : Between (hub_get_min_share config) (hub_get_max_share config) l.shared_size
  pub user_hubs : Between config.limit_min_hubs_user config.limit_max_hubs_user l.hub_count_user
  pub registered_hubs :
      Between config.limit_min_hubs_reg config.limit_max_hubs_reg l.hub_count_registered
  pub operator_hubs : Between config.limit_min_hubs_op config.limit_max_hubs_op l.hub_count_operator
  pub all_hubs : Between config.limit_min_hubs config.limit_max_hubs l.hub_count_total
  pub slots : Between config.limit_min_slots config.limit_max_slots l.upload_slots

Between-iff :
    (low high n : ℕ) → ((below n low ≡ false) × (above n high ≡ false)) ↔ Between low high n
Between-iff low high n = ground arith

passed_if :
    (b : Bool) (failure : StatusMessage) (rest : Option StatusMessage)
    → (if b then some failure else rest) ≡ none
    → (b ≡ false) × (rest ≡ none)
passed_if true failure rest e = absurd (none≢some (sym e))
passed_if false failure rest e = (refl, e)

if_passed :
    (b : Bool) (failure : StatusMessage) (rest : Option StatusMessage)
    → b ≡ false
    → rest ≡ none
    → (if b then some failure else rest) ≡ none
if_passed true failure rest e f = absurd (true≢false e)
if_passed false failure rest e f = f

four_false :
    (a b c d : Bool)
    → (a || (b || (c || d))) ≡ false
    → (a ≡ false) × (b ≡ false) × (c ≡ false) × (d ≡ false)
four_false true b c d e = absurd (true≢false e)
four_false false true c d e = absurd (true≢false e)
four_false false false true d e = absurd (true≢false e)
four_false false false false d e = (refl, refl, refl, e)

none_of :
    {a b c d : Bool}
    → a ≡ false
    → b ≡ false
    → c ≡ false
    → d ≡ false
    → (a || (b || (c || d))) ≡ false
none_of e f g h = rw (e, f, g, h) refl

-- The limits find no fault with the numbers of a user exactly if its share, its slots and its counts
-- of hubs, each kind and all together, are at least the lower limit of the configuration and,
-- unless that is 0, at most the upper one.
pub limits_failure-WithinLimits :
    (config : HubConfig) (l : UserLimits) → (limits_failure config l ≡ none) ↔ WithinLimits config l
unfolding limits_failure
limits_failure-WithinLimits config l = (forward, backward)
  where
    forward : limits_failure config l ≡ none → WithinLimits config l
    forward e =
        let (share_low, e2) = passed_if _ _ _ e in
        let (share_high, e3) = passed_if _ _ _ e2 in
        let (hubs_high, e4) = passed_if _ _ _ e3 in
        let (hubs_low, e5) = passed_if _ _ _ e4 in
        let (slots_low, e6) = passed_if _ _ _ e5 in
        let (slots_high, e7) = passed_if _ _ _ e6 in
        let (h1, h2, h3, h4) = four_false _ _ _ _ hubs_high in
        let (l1, l2, l3, l4) = four_false _ _ _ _ hubs_low in
        record {
          share = (Between-iff _ _ _).0 (share_low, share_high);
          user_hubs = (Between-iff _ _ _).0 (l1, h1);
          registered_hubs = (Between-iff _ _ _).0 (l2, h2);
          operator_hubs = (Between-iff _ _ _).0 (l3, h3);
          all_hubs = (Between-iff _ _ _).0 (l4, h4);
          slots = (Between-iff _ _ _).0 (slots_low, slots_high);
        }

    backward : WithinLimits config l → limits_failure config l ≡ none
    backward w =
        let (a, b) = (Between-iff _ _ _).1 w.share in
        let (l1, h1) = (Between-iff _ _ _).1 w.user_hubs in
        let (l2, h2) = (Between-iff _ _ _).1 w.registered_hubs in
        let (l3, h3) = (Between-iff _ _ _).1 w.operator_hubs in
        let (l4, h4) = (Between-iff _ _ _).1 w.all_hubs in
        let (c, d) = (Between-iff _ _ _).1 w.slots in
        if_passed _ _ _ a (
          if_passed _ _ _ b (
            if_passed _ _ _ (none_of h1 h2 h3 h4)
              (if_passed _ _ _ (none_of l1 l2 l3 l4) (if_passed _ _ _ c (if_passed _ _ _ d refl)))))
