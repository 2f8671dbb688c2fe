-- ===== src/Adc/Message/Build.antt =====
-- Building messages: `adc_msg_construct`, its variants and the arguments that they add.
use uhub.Prelude.{
  length-append, inr, inl, Bool-cases, ℕ, ◌+◌, ◌/◌, ◌%◌, ◌^◌, ◌<◌, ◌≡◌, [], ◌∷◌, ◌==◌,
  if◌then◌else◌, Bytes, arith,
}
use uhub.Adc.Sid.{sid_to_string}
use uhub.Adc.Escape.{adc_msg_escape}
use uhub.Adc.Message.{
  true, ends_with_newline, length, AdcMessage, zeroed, adc_msg_grow, adc_msg_cache_append,
  adc_msg_terminate, adc_msg_unterminate,
}

pub adc_msg_grow-roomy : (msg : AdcMessage) (size : ℕ) → size < (adc_msg_grow msg size).capacity
unfolding adc_msg_grow
adc_msg_grow-roomy msg size = ground arith

pub adc_msg_grow-same :
    (msg : AdcMessage) (size : ℕ)
    → ((adc_msg_grow msg size).source ≡ msg.source)
      × ((adc_msg_grow msg size).target ≡ msg.target)
      × ((adc_msg_grow msg size).cache ≡ msg.cache)
unfolding adc_msg_grow
adc_msg_grow-same msg size = ground arith

-- The bytes of the code, then the newline; a zero code leaves the buffer empty.
unfoldable pub adc_msg_construct : ℕ → ℕ → AdcMessage
adc_msg_construct code size =
    let grown = adc_msg_grow zeroed (4 + size + 1) in
    let text =
      code / 2 ^ 24 % 256 ∷ code / 2 ^ 16 % 256 ∷ code / 2 ^ 8 % 256 ∷ code % 256 ∷ b'\n' ∷ [] in
    record grown { cmd = code; cache = if code == 0 then [] else text; references = 1 }

unfoldable pub adc_msg_add_argument : AdcMessage → Bytes → AdcMessage
adc_msg_add_argument cmd string =
    let bare = adc_msg_unterminate cmd in
    let spaced = adc_msg_cache_append bare (b' ' ∷ []) in
    adc_msg_terminate (adc_msg_cache_append spaced string)

unfoldable pub adc_msg_add_argument_string : AdcMessage → Bytes → AdcMessage
adc_msg_add_argument_string cmd string = adc_msg_add_argument cmd (adc_msg_escape string)

pub adc_msg_construct_source : ℕ → ℕ → ℕ → AdcMessage
adc_msg_construct_source code source size =
    let msg = adc_msg_construct code (size + 4 + 1) in
    record (adc_msg_add_argument msg (sid_to_string source)) { source = source }

pub adc_msg_construct_source_dest : ℕ → ℕ → ℕ → ℕ → AdcMessage
adc_msg_construct_source_dest code source dest size =
    let msg = adc_msg_construct code (size + 4 + 4 + 1) in
    let from = adc_msg_add_argument msg (sid_to_string source) in
    record (adc_msg_add_argument from (sid_to_string dest)) { source = source; target = dest }

-- `prefix` is two bytes.
unfoldable pub adc_msg_add_named_argument : AdcMessage → ℕ → ℕ → Bytes → AdcMessage
adc_msg_add_named_argument cmd p q string =
    let bare = adc_msg_unterminate cmd in
    let spaced = adc_msg_cache_append bare (b' ' ∷ []) in
    let named = adc_msg_cache_append spaced (p ∷ q ∷ []) in
    adc_msg_terminate (adc_msg_cache_append named string)

pub adc_msg_add_named_argument_string : AdcMessage → ℕ → ℕ → Bytes → AdcMessage
adc_msg_add_named_argument_string cmd p q string =
    adc_msg_add_named_argument cmd p q (adc_msg_escape string)

-- A message with an argument is not empty.
terminate_positive : (cmd : AdcMessage) → 0 < length (adc_msg_terminate cmd).cache
unfolding adc_msg_terminate adc_msg_cache_append
terminate_positive cmd = elim (Bool-cases (ends_with_newline cmd.cache)) [
  | inl e ↦ rw (e) (ended cmd.cache e)
  | inr e ↦ rw (e) (omega (arith, length-append (adc_msg_grow cmd _).cache (b'\n' ∷ [])))
]
  where
    ended : (s : Bytes) → ends_with_newline s ≡ true → 0 < length s
    ended [] e = unfold ends_with_newline in ground arith
    ended (c ∷ s) e = omega arith

pub add_named_argument-positive :
    (cmd : AdcMessage) (p q : ℕ) (string : Bytes)
    → 0 < length (adc_msg_add_named_argument cmd p q string).cache
unfolding adc_msg_add_named_argument
add_named_argument-positive cmd p q string = terminate_positive _

pub add_argument_string-positive :
    (cmd : AdcMessage) (string : Bytes) → 0 < length (adc_msg_add_argument_string cmd string).cache
unfolding adc_msg_add_argument_string adc_msg_add_argument
add_argument_string-positive cmd string = terminate_positive _
