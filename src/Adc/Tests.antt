-- ===== src/Adc/Tests.antt =====
-- Runs of the models of src/adc on concrete inputs, and the theorems applied there.

use uhub.Prelude.{
  none, false, ◌==◌, ℕ, ◌+◌, ◌<◌, ◌≤◌, ◌^◌, ◌≡◌, ◌≢◌, ◌↔◌, refl, subst, true, false, [], ◌∷◌, ◌++◌,
  Option, some, arith, length, Bytes, codes, take,
}
use uhub.Util.Chars
use uhub.Util.Credentials.{AuthCredentials}
use uhub.Adc.Sid.{
  is_set, vacant, reserved, held, SidPool, sid_alloc, sid_free, sid_lookup, sid_to_string,
  string_to_sid, overrun,
}
use uhub.Adc.Sid.Codec.{string_to_sid-sid_to_string, sid_to_string-string_to_sid}
use uhub.Adc.Sid.Scan.{cell, IsPool}
use uhub.Adc.Sid.Pool.{Allocates, sid_alloc-Allocates, sid_alloc-overrun, sid_free-IsPool}
use uhub.Adc.Escape.{adc_msg_escape, adc_msg_unescape, adc_msg_unescape_to_target}
use uhub.Adc.Escape.Target.{unescaped, adc_msg_unescape_to_target-take}
use uhub.Adc.Escape.RoundTrip.{adc_msg_unescape-adc_msg_escape}
use uhub.Adc.Message.{AdcMessage, zeroed, adc_msg_get_arg_offset}
use uhub.Adc.Message.Line.{IsLine}
use uhub.Adc.Message.Parse.{adc_msg_parse, adc_msg_parse_verify, Sender}
use uhub.Adc.Message.Parse.Sound.{
  IsParsed, IsEntitled, adc_msg_parse-IsParsed, adc_msg_parse_verify-IsEntitled,
}
use uhub.Adc.Message.Arguments.{
  adc_msg_has_named_argument, adc_msg_remove_named_argument, adc_msg_get_named_argument,
  adc_msg_replace_named_argument,
}
use uhub.Adc.Message.Position.{adc_msg_get_argument, adc_msg_get_named_argument_index, is_named}
use uhub.Adc.Message.Position.Words.{arguments, word_at, filled}
use uhub.Adc.Message.Position.Numbered.{
  Found, adc_msg_get_argument-words, adc_msg_get_named_argument_index-Found,
}
use uhub.Adc.Message.Arguments.Named.{
  adc_msg_remove_named_argument-has, adc_msg_replace_named_argument-get,
}

round_trip_example : string_to_sid (some (sid_to_string 1234)) ≡ 1234
round_trip_example = string_to_sid-sid_to_string 1234 (omega arith)

text_round_trip_example :
    (string_to_sid (some (codes "AB2Z")) < 32 ^ 4)
    × (sid_to_string (string_to_sid (some (codes "AB2Z"))) ≡ codes "AB2Z")
unfolding Chars.is_valid_base32_char
text_round_trip_example = sid_to_string-string_to_sid b'A' b'B' b'2' b'Z' refl refl refl refl

-- Three identifiers, of which the first was freed again.
abbrev used_pool : SidPool ℕ
used_pool = record { min = 1; max = 4; count = 2; map = reserved ∷ vacant ∷ held 8 ∷ held 9 ∷ [] }

used_pool-IsPool : IsPool used_pool
used_pool-IsPool = record {
  min_is = refl;
  sized = refl;
  room = omega arith;
  first = refl;
  counted = refl;
}

alloc_example : Allocates used_pool 7 (sid_alloc used_pool 7)
alloc_example = sid_alloc-Allocates used_pool 7 used_pool-IsPool

overrun_example : (n : ℕ) × (sid_alloc used_pool 7 ≡ overrun n) × (4 ≤ n)
overrun_example = sid_alloc-overrun used_pool 7 used_pool-IsPool (omega arith) busy
  where
    busy : (i : ℕ) → 2 < i → i < 4 → is_set (cell used_pool i) ≡ true
    busy i a b =
        subst (λ i. is_set (cell used_pool i) ≡ true) (let e : 3 ≡ i = omega arith in e) refl

free_example :
    (q : SidPool ℕ) × (sid_free used_pool 3 ≡ some q)
    × IsPool q
    × (q.count + 1 ≡ 2)
    × (sid_lookup q 3 ≡ vacant)
    × ((s : ℕ) → s ≢ 3 → sid_lookup q s ≡ sid_lookup used_pool s)
unfolding sid_lookup
free_example = sid_free-IsPool used_pool 3 9 used_pool-IsPool refl

escape_round_trip_example : adc_msg_unescape (adc_msg_escape (codes "a b\\c")) ≡ codes "a b\\c"
escape_round_trip_example = adc_msg_unescape-adc_msg_escape (codes "a b\\c")

unescape_short_target_example :
    ((adc_msg_unescape_to_target (codes "a\\sbc") 3).0 ≡ take 2 (unescaped false (codes "a\\sbc")))
    × ((adc_msg_unescape_to_target (codes "a\\sbc") 3).1
        ≡ length (adc_msg_unescape_to_target (codes "a\\sbc") 3).0 + 1)
    × ((adc_msg_unescape_to_target (codes "a\\sbc") 3).1 ≤ 3)
unescape_short_target_example = adc_msg_unescape_to_target-take (codes "a\\sbc") 3 (omega arith)

abbrev chat_line : Bytes
chat_line = codes "BMSG AAAB hi\\sall TShello"

abbrev chat : AdcMessage
chat = record zeroed {
  cmd = 1112363847;
  source = 1;
  cache = chat_line ++ b'\n' ∷ [];
  capacity = 32;
  references = 1;
}

parse-chat : adc_msg_parse chat_line ≡ some chat
unfolding adc_msg_parse
parse-chat = refl

adc_msg_parse-IsParsed_example : IsParsed chat_line chat
adc_msg_parse-IsParsed_example = adc_msg_parse-IsParsed chat_line chat parse-chat

abbrev sender : Option Sender
sender = some (record { sid = 1; credentials = AuthCredentials.guest })

source_example :
    (adc_msg_parse_verify sender chat_line ≡ some chat)
    ↔ ((adc_msg_parse chat_line ≡ some chat) × IsEntitled sender chat.source)
source_example = adc_msg_parse_verify-IsEntitled sender chat_line chat

-- A message under the identifier of the hub, from a guest.
hub_id_accepted :
    elim (adc_msg_parse_verify sender (codes "BMSG AAAA hi")) [
      | none ↦ false
      | some m ↦ m.source == 0
    ]
    ≡ true
unfolding adc_msg_parse_verify adc_msg_parse
hub_id_accepted = refl

chat-IsLine : IsLine chat chat_line 9
unfolding adc_msg_get_arg_offset
chat-IsLine = record {
  text = refl;
  one_line = omega arith;
  offset_is = refl;
  positive = omega arith;
  within = omega arith;
}

remove_example :
    (m : AdcMessage) × (n : ℕ) × (adc_msg_remove_named_argument chat b'T' b'S' ≡ some (m, n))
    × (adc_msg_has_named_argument m b'T' b'S' ≡ some 0)
    × ((b : Bytes) × IsLine m b 9)
remove_example =
    adc_msg_remove_named_argument-has b'T' b'S' chat chat_line 9 chat-IsLine (omega arith)

replace_example :
    (m : AdcMessage) × (adc_msg_replace_named_argument chat b'T' b'S' (codes "bye") ≡ some m)
    × (adc_msg_get_named_argument m b'T' b'S' ≡ some (some (codes "bye")))
    × ((b : Bytes) × IsLine m b 9)
replace_example =
    adc_msg_replace_named_argument-get b'T' b'S' chat chat_line 9 (codes "bye") chat-IsLine
      (omega arith) (omega arith) (omega arith) (omega arith)

argument_example :
    (m : AdcMessage) × (adc_msg_get_argument chat 1
      ≡ some (m, filled (word_at (arguments chat_line 9) 1)))
    × IsLine m chat_line 9
argument_example = adc_msg_get_argument-words chat chat_line 9 chat-IsLine 1

index_example :
    (m : AdcMessage) × (i : Option ℕ) × (adc_msg_get_named_argument_index chat b'T' b'S'
      ≡ some (m, i))
    × Found (is_named b'T' b'S') (arguments chat_line 9) i
    × IsLine m chat_line 9
index_example = adc_msg_get_named_argument_index-Found chat chat_line 9 chat-IsLine b'T' b'S'
