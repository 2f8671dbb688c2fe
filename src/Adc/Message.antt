-- ===== src/Adc/Message.antt =====
-- The message type of src/adc/message.c: its buffer, its reference count and its first argument.
-- `cache` is the first `length` bytes of the buffer; the NUL behind them is not a byte of the list.
-- Allocations succeed, and sizes are below 2^64.
pub mod Parse
pub mod Arguments
pub mod Position
pub mod Build
pub mod Line
use uhub.Prelude.{
  ℕ, zero, suc, ◌+◌, ◌-◌, ◌*◌, ◌%◌, ◌^◌, Bool, true, false, ◌||◌, List, [], ◌∷◌, ◌++◌, Option, none,
  some, ltb, leb, ◌==◌, if◌then◌else◌, length, get_or, bit_or, Bytes, ◌≡◌, ◌<◌, ◌≤◌, refl, arith,
}

pub record AdcMessage : Type 0 where
  pub cmd : ℕ
  pub source : ℕ
  pub target : ℕ
  pub cache : Bytes
  pub capacity : ℕ
  pub priority : ℕ
  pub references : ℕ
  pub feature_cast_include : Option (List Bytes)
  pub feature_cast_exclude : Option (List Bytes)

-- What `msg_malloc_zero` gives.
abbrev pub zeroed : AdcMessage
zeroed = record {
  cmd = 0;
  source = 0;
  target = 0;
  cache = [];
  capacity = 0;
  priority = 0;
  references = 0;
  feature_cast_include = none;
  feature_cast_exclude = none;
}

-- A `char` above 127 is negative, and its conversion to `fourcc_t` fills the upper bytes with ones.
abbrev sign_extended : ℕ → ℕ
sign_extended c = if ltb c 128 then c else c + 0xffffff00

unfoldable pub fourcc : ℕ → ℕ → ℕ → ℕ → ℕ
fourcc a b c d =
    bit_or
      (bit_or (bit_or (sign_extended a * 2 ^ 24 % 2 ^ 32) (sign_extended b * 2 ^ 16 % 2 ^ 32))
        (sign_extended c * 2 ^ 8 % 2 ^ 32))
      (sign_extended d)

-- `size_t` is 64 bits, and `%` is taken of the wrapped difference.
unfoldable pub adc_msg_grow : AdcMessage → ℕ → AdcMessage
adc_msg_grow msg size =
    let newsize = size + 2 in
    let padding = (8 + 2 ^ 64 - newsize) % 2 ^ 64 % 8 in
    if ltb size msg.capacity then msg else record msg { capacity = newsize + padding }

unfoldable pub adc_msg_cache_append : AdcMessage → Bytes → AdcMessage
adc_msg_cache_append msg string =
    let grown = adc_msg_grow msg (length msg.cache + length string) in
    record grown { cache = grown.cache ++ string }

unfoldable pub adc_msg_incref : AdcMessage → AdcMessage
adc_msg_incref msg = record msg { references = (msg.references + 1) % 2 ^ 64 }

-- `none` is a message whose last reference is gone: its memory is freed.
unfoldable pub adc_msg_free : AdcMessage → Option AdcMessage
adc_msg_free msg =
    let references = (msg.references + (2 ^ 64 - 1)) % 2 ^ 64 in
    if references == 0 then none else some (record msg { references = references })

unfoldable pub adc_msg_copy : AdcMessage → AdcMessage
unfolding adc_msg_grow
adc_msg_copy cmd = adc_msg_grow (record cmd { capacity = 0; references = 1 }) (length cmd.cache)

abbrev list_size : Option (List Bytes) → ℕ
list_size none = 0
list_size (some xs) = length xs

-- `none` is -1.
unfoldable pub adc_msg_get_arg_offset : AdcMessage → Option ℕ
adc_msg_get_arg_offset msg =
    let kind = get_or msg.cache 0 0 in
    if kind == b'U' || kind == b'C'
    then some 4
    else if kind == b'I' || kind == b'H'
    then some 4
    else if kind == b'B'
    then some 9
    else if kind == b'F'
    then some (10 + list_size msg.feature_cast_include * 5 + list_size msg.feature_cast_exclude * 5)
    else if kind == b'D' || kind == b'E'
    then some 14
    else none

-- `none` is -1, for a message with no argument offset.
pub adc_msg_is_empty : AdcMessage → Option Bool
unfolding adc_msg_get_arg_offset
adc_msg_is_empty msg = elim (adc_msg_get_arg_offset msg) [
  | none ↦ none
  | some offset ↦ some (length msg.cache - 1 == offset)
]

-- The last byte is the newline.
unfoldable pub ends_with_newline : Bytes → Bool
ends_with_newline [] = false
ends_with_newline (c ∷ []) = c == b'\n'
ends_with_newline (c ∷ d ∷ cs) = ends_with_newline (d ∷ cs)

abbrev drop_last : Bytes → Bytes
drop_last [] = []
drop_last (c ∷ []) = []
drop_last (c ∷ d ∷ cs) = c ∷ drop_last (d ∷ cs)

unfoldable pub adc_msg_terminate : AdcMessage → AdcMessage
unfolding ends_with_newline adc_msg_cache_append adc_msg_grow
adc_msg_terminate cmd =
    if ends_with_newline cmd.cache then cmd else adc_msg_cache_append cmd (b'\n' ∷ [])

unfoldable pub adc_msg_unterminate : AdcMessage → AdcMessage
unfolding ends_with_newline
adc_msg_unterminate cmd =
    if ends_with_newline cmd.cache then record cmd { cache = drop_last cmd.cache } else cmd
