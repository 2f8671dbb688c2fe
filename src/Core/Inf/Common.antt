-- ===== src/Core/Inf/Common.antt =====
-- hub_handle_info_common of src/core/inf.c: the arguments that only the hub may give are gone after it.
use uhub.Prelude.{
  true, false, Bool, true, Bool, All, ◌++◌, ℕ, suc, zero, ◌≡◌, refl, List, [], ◌∷◌, Option, none,
  some, Bytes,
}
use uhub.Adc.Message.{AdcMessage}
use uhub.Adc.Message.Line.{IsLine}
use uhub.Adc.Message.Arguments.{adc_msg_has_named_argument, adc_msg_get_named_argument}
use uhub.Adc.Message.Arguments.Named.{Lacks}
use uhub.Adc.Message.Arguments.Without.{get_named-some, has_named-some}
use uhub.Core.User.{HubUser, user_set_feature_cast_support, user_clear_feature_cast_support}
use uhub.Core.Inf.Names.{
  low_bandwidth, hub_handle_info_low_bandwidth, server_restricted, remove_server_restricted_flags,
  feature_loop, set_feature_cast_supports, hub_handle_info_common,
}
use uhub.Core.Inf.Lacking.{
  Without-weaken, all_plain, Without, remove_names-Without, all_plain-Plain,
}

-- What no client can put into the information that the hub keeps of it or sends on.
abbrev pub hub_only : List (ℕ × ℕ)
hub_only =
    (b'R', b'F')
    ∷ (b'T', b'O')
    ∷ (b'H', b'I')
    ∷ (b'H', b'U')
    ∷ (b'O', b'P')
    ∷ (b'R', b'G')
    ∷ (b'B', b'O')
    ∷ []

front :
    (P : ℕ × ℕ → Type 0) (last : ℕ × ℕ) (names : List (ℕ × ℕ))
    → All P (names ++ last ∷ [])
    → All P names
front P last [] h = tt
front P last (n ∷ names) h = (h.0, front P last names h.1)

-- What the features leave alone of a user.
record SameUser {ℓ} {C : Type ℓ} (user user' : HubUser C) : Type ℓ where
  same_address : user'.address ≡ user.address
  same_info : user'.info ≡ user.info
  same_state : user'.state ≡ user.state

module _ {ℓ} {C : Type ℓ} where
  feature_loop-same : (user : HubUser C) (list : Bytes) → SameUser user (feature_loop user list)
  unfolding feature_loop user_set_feature_cast_support
  feature_loop-same user (a ∷ b ∷ c ∷ d ∷ e ∷ rest) =
      let s = feature_loop-same (user_set_feature_cast_support user (a ∷ b ∷ c ∷ d ∷ [])) rest in
      record { same_address = s.same_address; same_info = s.same_info; same_state = s.same_state }
  feature_loop-same user [] = record { same_address = refl; same_info = refl; same_state = refl }
  feature_loop-same user (a ∷ []) = record {
    same_address = refl;
    same_info = refl;
    same_state = refl;
  }
  feature_loop-same user (a ∷ b ∷ []) = record {
    same_address = refl;
    same_info = refl;
    same_state = refl;
  }
  feature_loop-same user (a ∷ b ∷ c ∷ []) = record {
    same_address = refl;
    same_info = refl;
    same_state = refl;
  }
  feature_loop-same user (a ∷ b ∷ c ∷ d ∷ []) = record {
    same_address = refl;
    same_info = refl;
    same_state = refl;
  }

  features-same :
      (user : HubUser C) (cmd : AdcMessage) (body : Bytes) (offset : ℕ)
      → IsLine cmd body offset
      → (user' : HubUser C) × (set_feature_cast_supports user cmd ≡ some user')
        × SameUser user user'
  unfolding set_feature_cast_supports user_clear_feature_cast_support
  features-same user cmd body offset l =
      let (n, e) = has_named-some cmd body offset b'S' b'U' l in
      let (list, f) = get_named-some cmd body offset b'S' b'U' l in go n list e f
    where
      go :
          (n : ℕ) (list : Option Bytes)
          → adc_msg_has_named_argument cmd b'S' b'U' ≡ some n
          → adc_msg_get_named_argument cmd b'S' b'U' ≡ some list
          → (user' : HubUser C) × (set_feature_cast_supports user cmd ≡ some user')
            × SameUser user user'
      go zero list e f = (
        user,
        rw (e, set_feature_cast_supports) refl,
        record { same_address = refl; same_info = refl; same_state = refl },
      )
      go (suc n) none e f = (
        user,
        rw (e, f, set_feature_cast_supports) refl,
        record { same_address = refl; same_info = refl; same_state = refl },
      )
      go (suc n) (some list) e f =
          let cleared = user_clear_feature_cast_support user in
          let s = feature_loop-same cleared list in
          (
            feature_loop cleared list,
            rw (e, f, set_feature_cast_supports) refl,
            record {
              same_address = s.same_address;
              same_info = s.same_info;
              same_state = s.same_state;
            },
          )

  -- A line stays a line.
  pub hub_handle_info_common-Without :
      (user : HubUser C) (cmd : AdcMessage) (body : Bytes) (offset : ℕ)
      → IsLine cmd body offset
      → (user' : HubUser C) × (m : AdcMessage) × (hub_handle_info_common user cmd ≡ some (user', m))
        × (user'.address ≡ user.address)
        × (user'.info ≡ user.info)
        × (user'.state ≡ user.state)
        × Without hub_only offset m
  unfolding hub_handle_info_common remove_server_restricted_flags
  hub_handle_info_common-Without user cmd body offset l =
      let plain = all_plain-Plain server_restricted refl in
      let (m, e, w) =
        remove_names-Without server_restricted [] offset cmd plain tt
          (record { body = body; line = l; lacks = tt }) in
      let (user', f, s) = features-same user m w.body offset w.line in
      let k = w.lacks in
      (
        user',
        m,
        rw (e, f, hub_handle_info_common, remove_server_restricted_flags) refl,
        s.same_address,
        s.same_info,
        s.same_state,
        record {
          body = w.body;
          line = w.line;
          lacks = front (λ n. Lacks n.0 n.1 m offset) (b'C', b'T') hub_only k;
        },
      )

-- Low bandwidth mode takes more arguments out and brings none in.
pub low_bandwidth-Without :
    (gone : List (ℕ × ℕ)) (offset : ℕ) (mode : Bool) (cmd : AdcMessage)
    → all_plain gone ≡ true
    → Without gone offset cmd
    → (m : AdcMessage) × (hub_handle_info_low_bandwidth mode cmd ≡ some m) × Without gone offset m
unfolding hub_handle_info_low_bandwidth
low_bandwidth-Without gone offset false cmd e w = (cmd, refl, w)
low_bandwidth-Without gone offset true cmd e w =
    let (m, f, v) =
      remove_names-Without low_bandwidth gone offset cmd (all_plain-Plain low_bandwidth refl)
        (all_plain-Plain gone e) w in
    (m, f, Without-weaken low_bandwidth gone offset m v)
