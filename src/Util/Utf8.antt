-- ===== src/Util/Utf8.antt =====
-- The UTF-8 checks of src/util/misc.c.
pub mod Tables
pub mod Grammar
use uhub.Prelude.{
  ℕ, zero, suc, ◌+◌, Bool, true, false, ◌&&◌, ◌||◌, not, List, [], ◌∷◌, ltb, leb, ◌==◌,
  if◌then◌else◌, length, get_or, bit_and, Bytes,
}
use uhub.Util.Chars.{is_printable}

-- `for (div = 0x40; div > 0x08; div /= 2)`: the continuation bytes announced and the last `div`.
pub count_expect : ℕ → List ℕ → ℕ → ℕ × ℕ
count_expect c [] expect = (expect, 0x08)
count_expect c (div ∷ divs) expect =
    if bit_and c div == 0 then (expect, div) else count_expect c divs (expect + 1)

-- The switch on `expect`: the overlong forms, surrogates and values past U+10FFFF that it refuses.
pub out_of_range : ℕ → ℕ → ℕ → Bool
out_of_range zero c next = true
out_of_range (suc zero) c next = ltb c 0xC2
out_of_range (suc (suc zero)) c next = (c == 0xE0 && ltb next 0xA0) || (c == 0xED && ltb 0x9F next)
out_of_range (suc (suc (suc zero))) c next =
    (c == 0xF0 && ltb next 0x90) || (ltb 0xF4 c || (c == 0xF4 && ltb 0x8F next))
out_of_range (suc (suc (suc (suc _)))) c next = false

-- The loop from one position on: `expect` continuation bytes are still due.
pub valid_from : ℕ → Bytes → Bool
valid_from expect [] = true
valid_from (suc expect) (c ∷ cs) = if bit_and c 0xC0 == 0x80 then valid_from expect cs else false
valid_from zero (c ∷ cs) =
    let (expect, div) = count_expect c (0x40 ∷ 0x20 ∷ 0x10 ∷ []) 0 in
    let more = valid_from expect cs in
    if bit_and c 0x80 == 0
    then valid_from 0 cs
    else if not (bit_and c div == 0) || ltb (length cs) expect
    then false
    else if out_of_range expect c (get_or cs 0 0)
    then false
    else more

unfoldable pub is_valid_utf8_str : Bytes → Bool
unfolding valid_from count_expect out_of_range
is_valid_utf8_str s = valid_from 0 s

all_printable : Bytes → Bool
all_printable [] = true
all_printable (c ∷ cs) = if not (is_printable c) then false else all_printable cs

unfoldable pub is_printable_utf8 : Bytes → Bool
unfolding all_printable is_valid_utf8_str valid_from count_expect out_of_range is_printable
is_printable_utf8 s = if all_printable s then is_valid_utf8_str s else false
