-- ===== src/Adc/Escape/RoundTrip.antt =====
-- Escaping and unescaping: the round trip, and the shape of an escaped text.
use uhub.Prelude.{
  ℕ, ◌+◌, ◌≡◌, ◌≢◌, refl, true, false, [], ◌∷◌, ◌++◌, arith, ◌==◌, ◌||◌, if◌then◌else◌, length,
  Bytes, All, ap, ◌∙◌, length-append, All-append,
}
use uhub.Adc.Escape.{
  msg_check_escapes, adc_msg_escape_length, escapes_added, escape_byte, adc_msg_escape,
  unescape_byte, adc_msg_unescape,
}
use uhub.Adc.Escape.Target.{unescaped, adc_msg_unescape-unescaped}

unescaped-escape_byte :
    (c : ℕ) (rest : Bytes) → unescaped false (escape_byte c ++ rest) ≡ c ∷ unescaped false rest
unfolding unescaped escape_byte unescape_byte
unescaped-escape_byte c rest = ground arith

unescaped-escape : (s : Bytes) → unescaped false (adc_msg_escape s) ≡ s
unfolding adc_msg_escape
unescaped-escape [] = unfold unescaped in refl
unescaped-escape (c ∷ cs) =
    unescaped-escape_byte c (adc_msg_escape cs) ∙ ap (◌∷◌ c) (unescaped-escape cs)

-- Unescaping an escaped text gives the text back.
pub adc_msg_unescape-adc_msg_escape : (s : Bytes) → adc_msg_unescape (adc_msg_escape s) ≡ s
adc_msg_unescape-adc_msg_escape s =
    (adc_msg_unescape-unescaped (adc_msg_escape s)).0 ∙ unescaped-escape s

length-escape_byte :
    (c : ℕ)
    → length (escape_byte c) ≡ 1 + (if c == b' ' || (c == b'\n' || c == b'\\') then 1 else 0)
unfolding escape_byte
length-escape_byte c = ground arith

length-escape : (s : Bytes) → length (adc_msg_escape s) ≡ length s + escapes_added s
unfolding adc_msg_escape escapes_added
length-escape [] = refl
length-escape (c ∷ cs) = omega (
  arith,
  length-append (escape_byte c) (adc_msg_escape cs),
  length-escape cs,
  length-escape_byte c,
)

abbrev pub IsToken : Bytes → Type 0
IsToken = All (λ c. (c ≢ b' ') × (c ≢ b'\n'))

IsToken-escape_byte : (c : ℕ) → IsToken (escape_byte c)
unfolding escape_byte
IsToken-escape_byte c = ground arith

IsToken-escape : (s : Bytes) → IsToken (adc_msg_escape s)
unfolding adc_msg_escape
IsToken-escape [] = tt
IsToken-escape (c ∷ cs) =
    All-append _ (escape_byte c) (adc_msg_escape cs) (IsToken-escape_byte c) (IsToken-escape cs)

check-escape_byte :
    (c : ℕ) (rest : Bytes) → msg_check_escapes (escape_byte c ++ rest) ≡ msg_check_escapes rest
unfolding escape_byte msg_check_escapes
check-escape_byte c [] = ground arith
check-escape_byte c (d ∷ rest) = ground arith

check-escape : (s : Bytes) → msg_check_escapes (adc_msg_escape s) ≡ true
unfolding adc_msg_escape
check-escape [] = unfold msg_check_escapes in refl
check-escape (c ∷ cs) = check-escape_byte c (adc_msg_escape cs) ∙ check-escape cs

-- An escaped text has the length that was computed for its buffer, holds no space and no newline,
-- and passes the escape check of the message parser.
pub adc_msg_escape-IsToken :
    (s : Bytes)
    → (length (adc_msg_escape s) ≡ adc_msg_escape_length s)
      × IsToken (adc_msg_escape s)
      × (msg_check_escapes (adc_msg_escape s) ≡ true)
unfolding adc_msg_escape_length
adc_msg_escape-IsToken s = (length-escape s, IsToken-escape s, check-escape s)
