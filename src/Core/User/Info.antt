-- ===== src/Core/User/Info.antt =====
-- The information message that src/core/user.c keeps of a user. A message that is shared between the
-- user and a caller carries the count of both.
use uhub.Prelude.{ℕ, suc, zero, ◌+◌, ◌∷◌, Option, none, some, length, Bytes}
use uhub.Adc.Message.{AdcMessage, adc_msg_copy, adc_msg_free, adc_msg_incref}
use uhub.Adc.Message.Arguments.{adc_msg_replace_named_argument}
use uhub.Adc.Message.Position.{adc_msg_get_argument}
use uhub.Core.User.{HubUser}

-- `adc_msg_replace_named_argument` with an argument as it stands in a message; shorter than a name
-- it is passed over. `none` is a message with no argument offset, or the removal out of fuel.
unfoldable pub replace_with : AdcMessage → Bytes → Option AdcMessage
unfolding adc_msg_replace_named_argument
replace_with info (p ∷ q ∷ value) = adc_msg_replace_named_argument info p q value
replace_with info _ = some info

-- The loop over the arguments of `cmd`. Each has a number below the length of its buffer, so fuel of
-- one more is enough.
unfoldable pub update_loop : ℕ → AdcMessage → ℕ → AdcMessage → Option (AdcMessage × AdcMessage)
unfolding adc_msg_get_argument replace_with
update_loop zero cmd n info = none
update_loop (suc fuel) cmd n info = elim (adc_msg_get_argument cmd n) [
  | none ↦ none
  | some (cmd', none) ↦ some (cmd', info)
  | some (cmd', some argument) ↦ elim (replace_with info argument) [
    | none ↦ none
    | some info' ↦ update_loop fuel cmd' (n + 1) info'
  ]
]

module _ {ℓ} {C : Type ℓ} where
  unfoldable pub user_set_info : HubUser C → AdcMessage → HubUser C
  unfolding adc_msg_incref
  user_set_info user cmd = record user { info = some (adc_msg_incref cmd) }

  -- The caller's reference to the message of the user is given back.
  unfoldable pub release_info : HubUser C → HubUser C
  unfolding adc_msg_free
  release_info user = elim user.info [
    | none ↦ user
    | some info ↦ record user { info = adc_msg_free info }
  ]

  -- The user and the message after it, for a user that has an information message.
  unfoldable pub user_update_info : HubUser C → AdcMessage → Option (HubUser C × AdcMessage)
  unfolding update_loop adc_msg_copy user_set_info release_info
  user_update_info user cmd = elim user.info [
    | none ↦ some (user, cmd)
    | some old ↦ elim (update_loop (length cmd.cache + 1) cmd 0 (adc_msg_copy old)) [
      | none ↦ none
      | some (cmd', info) ↦ some (release_info (user_set_info user info), cmd')
    ]
  ]
