-- ===== src/Core/Inf/Names.antt =====
-- The arguments that src/core/inf.c takes out of an information message, and its feature list.
use uhub.Prelude.{ℕ, suc, zero, Bool, List, [], ◌∷◌, Option, none, some, Bytes, if◌then◌else◌}
use uhub.Core.User.{HubUser, user_clear_feature_cast_support, user_set_feature_cast_support}
use uhub.Adc.Message.{AdcMessage}
use uhub.Adc.Message.Arguments.{
  adc_msg_has_named_argument, adc_msg_get_named_argument, adc_msg_remove_named_argument,
}

-- Calls of `adc_msg_remove_named_argument`, one after the other; the numbers are not used.
unfoldable pub remove_names : List (ℕ × ℕ) → AdcMessage → Option AdcMessage
remove_names [] cmd = some cmd
remove_names ((p, q) ∷ rest) cmd = elim (adc_msg_remove_named_argument cmd p q) [
  | none ↦ none
  | some (removed, n) ↦ remove_names rest removed
]

abbrev pub server_restricted : List (ℕ × ℕ)
server_restricted =
    (b'C', b'T')
    ∷ (b'B', b'O')
    ∷ (b'R', b'G')
    ∷ (b'O', b'P')
    ∷ (b'H', b'U')
    ∷ (b'H', b'I')
    ∷ (b'T', b'O')
    ∷ (b'R', b'F')
    ∷ []

unfoldable pub remove_server_restricted_flags : AdcMessage → Option AdcMessage
unfolding remove_names
remove_server_restricted_flags cmd = remove_names server_restricted cmd

abbrev pub low_bandwidth : List (ℕ × ℕ)
low_bandwidth =
    (b'V', b'E')
    ∷ (b'A', b'P')
    ∷ (b'S', b'F')
    ∷ (b'H', b'N')
    ∷ (b'H', b'R')
    ∷ (b'H', b'O')
    ∷ (b'U', b'S')
    ∷ (b'D', b'S')
    ∷ (b'A', b'S')
    ∷ (b'A', b'M')
    ∷ (b'A', b'W')
    ∷ (b'D', b'E')
    ∷ (b'E', b'M')
    ∷ []

-- The mode is the hub's `low_bandwidth_mode`.
unfoldable pub hub_handle_info_low_bandwidth : Bool → AdcMessage → Option AdcMessage
unfolding remove_names
hub_handle_info_low_bandwidth mode cmd = if mode then remove_names low_bandwidth cmd else some cmd

unfoldable pub strip_network : AdcMessage → Option AdcMessage
unfolding remove_names
strip_network cmd = remove_names ((b'I', b'6') ∷ (b'I', b'4') ∷ []) cmd

module _ {ℓ} {C : Type ℓ} where
  -- The loop over the list: four bytes, a separator, and what is left.
  unfoldable pub feature_loop : HubUser C → Bytes → HubUser C
  unfolding user_set_feature_cast_support
  feature_loop user (a ∷ b ∷ c ∷ d ∷ e ∷ rest) =
      feature_loop (user_set_feature_cast_support user (a ∷ b ∷ c ∷ d ∷ [])) rest
  feature_loop user [] = user
  feature_loop user (a ∷ rest) = user_set_feature_cast_support user (a ∷ rest)

  unfoldable pub set_feature_cast_supports : HubUser C → AdcMessage → Option (HubUser C)
  unfolding user_clear_feature_cast_support feature_loop
  set_feature_cast_supports user cmd = elim (adc_msg_has_named_argument cmd b'S' b'U') [
    | none ↦ none
    | some zero ↦ some user
    | some (suc n) ↦ elim (adc_msg_get_named_argument cmd b'S' b'U') [
      | none ↦ none
      | some none ↦ some user
      | some (some list) ↦ some (feature_loop (user_clear_feature_cast_support user) list)
    ]
  ]

  unfoldable pub hub_handle_info_common : HubUser C → AdcMessage → Option (HubUser C × AdcMessage)
  unfolding remove_server_restricted_flags set_feature_cast_supports
  hub_handle_info_common user cmd = elim (remove_server_restricted_flags cmd) [
    | none ↦ none
    | some removed ↦ elim (set_feature_cast_supports user removed) [
      | none ↦ none
      | some user' ↦ some (user', removed)
    ]
  ]
