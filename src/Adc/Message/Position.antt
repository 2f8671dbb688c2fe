-- ===== src/Adc/Message/Position.antt =====
-- The arguments of a message by their number, and the number of a named argument, in
-- src/adc/message.c. As for the other searches, a message holds no NUL.
-- `none` as a result is a message with no argument offset, where the code indexes before the buffer.
pub mod Words
pub mod Numbered
pub mod Plain
use uhub.Prelude.{
  ℕ, zero, suc, ◌+◌, ◌-◌, Bool, true, false, not, ◌&&◌, [], ◌∷◌, Option, none, some, ltb, ◌==◌,
  if◌then◌else◌, length, take, drop, Bytes,
}
use uhub.Adc.Message.{AdcMessage, adc_msg_get_arg_offset, adc_msg_terminate, adc_msg_unterminate}
use uhub.Adc.Message.Arguments.{index_of, strip_newline, starts_with}

abbrev pub non_empty : Bytes → Option Bytes
non_empty [] = none
non_empty (c ∷ cs) = some (c ∷ cs)

abbrev pub first_of : Option Bytes → Option Bytes → Option Bytes
first_of none later = later
first_of (some argument) later = some argument

-- The loop of `adc_msg_get_argument`, from the byte behind a space on. Each round passes a space, so
-- fuel for every byte is enough.
unfoldable pub argument_loop : ℕ → Bytes → ℕ → ℕ → Option Bytes
unfolding index_of
argument_loop zero start count offset = none
argument_loop (suc fuel) start count offset = elim (index_of b' ' start) [
  | none ↦ if count == offset then non_empty (strip_newline start) else none
  | some end ↦
      let later = argument_loop fuel (drop (suc end) start) (count + 1) offset in
      if count == offset then first_of (non_empty (take end start)) later else later
]

-- What a loop finds that starts behind the first space, if there is one.
unfoldable pub behind_space {ℓ} : {A : Type ℓ} → (Bytes → Option A) → Bytes → Option A
unfolding index_of
behind_space loop text = elim (index_of b' ' text) [
  | none ↦ none
  | some i ↦ loop (drop (suc i) text)
]

-- The message, which ends with a newline afterwards, and the argument or NULL.
unfoldable pub adc_msg_get_argument : AdcMessage → ℕ → Option (AdcMessage × Option Bytes)
unfolding argument_loop behind_space
adc_msg_get_argument cmd offset = elim (adc_msg_get_arg_offset cmd) [
  | none ↦ none
  | some first ↦
      let bare = adc_msg_unterminate cmd in
      let loop : Bytes → Option Bytes = λ start. argument_loop (length start + 1) start 0 offset in
      some (adc_msg_terminate bare, behind_space loop (drop (first - 1) bare.cache))
]

-- `len > 2 && strncmp(start, prefix, 2) == 0`
abbrev pub is_named : ℕ → ℕ → Bytes → Bool
is_named p q word = ltb 2 (length word) && starts_with (p ∷ q ∷ []) word

unfoldable pub index_loop : ℕ → Bytes → ℕ → ℕ → ℕ → Option ℕ
unfolding index_of starts_with
index_loop zero start count p q = none
index_loop (suc fuel) start count p q = elim (index_of b' ' start) [
  | none ↦ if is_named p q start then some count else none
  | some end ↦
      let later = index_loop fuel (drop (suc end) start) (count + 1) p q in
      if is_named p q (take end start) then some count else later
]

-- The message, and the number of the argument; the inner `none` is -1.
unfoldable pub adc_msg_get_named_argument_index :
    AdcMessage → ℕ → ℕ → Option (AdcMessage × Option ℕ)
unfolding index_loop behind_space
adc_msg_get_named_argument_index cmd p q = elim (adc_msg_get_arg_offset cmd) [
  | none ↦ none
  | some first ↦
      let bare = adc_msg_unterminate cmd in
      let loop : Bytes → Option ℕ = λ start. index_loop (length start + 1) start 0 p q in
      some (adc_msg_terminate bare, behind_space loop (drop (first - 1) bare.cache))
]
