-- ===== src/Adc/Message/Arguments.antt =====
-- The named arguments of a message in src/adc/message.c: a space, two bytes of name, the value.
-- `none` as a result is a message with no argument offset, where the code indexes before the buffer.
pub mod Search
pub mod Named
pub mod Length
pub mod Without
use uhub.Prelude.{
  ℕ, zero, suc, ◌+◌, ◌-◌, Bool, true, false, not, ◌&&◌, List, [], ◌∷◌, ◌++◌, Option, none, some,
  ltb, ◌==◌, if◌then◌else◌, length, take, drop, Bytes,
}
use uhub.Adc.Message.{
  AdcMessage, adc_msg_get_arg_offset, adc_msg_terminate, adc_msg_unterminate, ends_with_newline,
  drop_last,
}
use uhub.Adc.Message.Build.{adc_msg_add_named_argument}

-- `memcmp(hay, needle, len(needle)) == 0`, where the haystack is long enough.
unfoldable pub starts_with : Bytes → Bytes → Bool
starts_with [] hay = true
starts_with (n ∷ ns) [] = false
starts_with (n ∷ ns) (h ∷ hs) = n == h && starts_with ns hs

abbrev later : Option ℕ → Option ℕ
later none = none
later (some i) = some (suc i)

-- The offset of the first occurrence; the needle is not empty.
pub memmem : Bytes → Bytes → Option ℕ
unfolding starts_with
memmem needle [] = none
memmem needle (h ∷ hs) =
    let rest = memmem needle hs in if starts_with needle (h ∷ hs) then some 0 else later rest

-- `memchr` and `strchr`: the offset of the first such byte.
unfoldable pub index_of : ℕ → Bytes → Option ℕ
index_of c [] = none
index_of c (h ∷ hs) = let rest = index_of c hs in if h == c then some 0 else later rest

-- The prefix that the code searches for.
abbrev pub argument_name : ℕ → ℕ → Bytes
argument_name p q = b' ' ∷ p ∷ q ∷ []

-- The later searches of `adc_msg_has_named_argument`, which reach up to the NUL.
pub count_loop : ℕ → Bytes → Bytes → ℕ
count_loop zero needle hay = 0
count_loop (suc fuel) needle hay = elim (memmem needle hay) [
  | none ↦ 0
  | some i ↦ suc (count_loop fuel needle (drop (i + 1) hay))
]

pub count_named : Bytes → Bytes → ℕ
unfolding count_loop
count_named needle tail = elim (memmem needle tail) [
  | none ↦ 0
  | some i ↦ suc (count_loop (length tail + 1) needle (drop (i + 1) (tail ++ 0 ∷ [])))
]

unfoldable pub adc_msg_has_named_argument : AdcMessage → ℕ → ℕ → Option ℕ
adc_msg_has_named_argument cmd p q = elim (adc_msg_get_arg_offset cmd) [
  | none ↦ none
  | some offset ↦ some (count_named (argument_name p q) (drop offset cmd.cache))
]

-- The removal loop on the bytes from the argument offset on, unterminated. Each round takes at least
-- one byte away, so the fuel is one more than their number.
pub remove_loop : ℕ → Bytes → Bytes → ℕ → Bytes × ℕ
remove_loop zero needle tail found = (tail, found)
remove_loop (suc fuel) needle tail found = elim (memmem needle tail) [
  | none ↦ (tail, found)
  | some i ↦ elim (index_of b' ' (drop (i + 1) tail)) [
    | none ↦ (take i tail, found + 1)
    | some k ↦ remove_loop fuel needle (take i tail ++ drop (i + 1 + k) tail) (found + 1)
  ]
]

-- The message, and the number of arguments removed.
pub adc_msg_remove_named_argument : AdcMessage → ℕ → ℕ → Option (AdcMessage × ℕ)
adc_msg_remove_named_argument cmd p q = elim (adc_msg_get_arg_offset cmd) [
  | none ↦ none
  | some offset ↦
      let bare = adc_msg_unterminate cmd in
      let tail = drop offset bare.cache in
      let removed = remove_loop (length tail + 1) (argument_name p q) tail 0 in
      some
        (adc_msg_terminate (record bare { cache = take offset bare.cache ++ removed.0 }), removed.1)
]

abbrev value_until : Bytes → Option ℕ → Bytes
value_until start none = start
value_until start (some i) = take i start

abbrev pub strip_newline : Bytes → Bytes
strip_newline s = if ends_with_newline s then drop_last s else s

-- The outer `none` is no argument offset, the inner one NULL.
unfoldable pub adc_msg_get_named_argument : AdcMessage → ℕ → ℕ → Option (Option Bytes)
adc_msg_get_named_argument cmd p q = elim (adc_msg_get_arg_offset cmd) [
  | none ↦ none
  | some offset ↦ elim (memmem (argument_name p q) (drop offset cmd.cache)) [
    | none ↦ some none
    | some i ↦
        let start = drop (offset + i + 3) cmd.cache in
        some (some (strip_newline (value_until start (index_of b' ' start))))
  ]
]

-- `while (adc_msg_has_named_argument(cmd, prefix)) adc_msg_remove_named_argument(cmd, prefix)`;
-- `none` is also fuel run out.
pub remove_all : ℕ → AdcMessage → ℕ → ℕ → Option AdcMessage
remove_all zero cmd p q = none
remove_all (suc fuel) cmd p q = elim (adc_msg_has_named_argument cmd p q) [
  | none ↦ none
  | some zero ↦ some cmd
  | some (suc n) ↦ elim (adc_msg_remove_named_argument cmd p q) [
    | none ↦ none
    | some (removed, found) ↦ remove_all fuel removed p q
  ]
]

-- One removal leaves nothing to remove, so two rounds of the test are enough.
unfoldable pub adc_msg_replace_named_argument : AdcMessage → ℕ → ℕ → Bytes → Option AdcMessage
adc_msg_replace_named_argument cmd p q string = elim (remove_all 2 cmd p q) [
  | none ↦ none
  | some removed ↦ some (adc_msg_add_named_argument removed p q string)
]
