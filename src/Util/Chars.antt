-- ===== src/Util/Chars.antt =====
-- The character classes and the base32 tables of src/util/misc.c.
-- A `char` is its byte; none of the tests tells a signed `char` from an unsigned one.
use package.uhub.Prelude.{
  ℕ, suc, zero, ◌+◌, ◌<◌, ◌≡◌, refl, Bool, true, false, ◌&&◌, ◌||◌, not, Option, none, some, List,
  [], ◌∷◌, ◌++◌, arith, leb, passes, passes-test, ltb, ◌==◌, get_or, replicate, codes, Bytes,
}

unfoldable pub is_space : ℕ → Bool
is_space c = c == b' '

unfoldable pub is_white_space : ℕ → Bool
is_white_space c = c == b' ' || c == b'\t' || c == b'\r'

unfoldable pub is_printable : ℕ → Bool
is_printable c = (leb 32 c && not (c == 0x7f)) || (c == b'\t' || c == b'\r' || c == b'\n')

unfoldable pub is_valid_base32_char : ℕ → Bool
is_valid_base32_char c = (leb b'A' c && leb c b'Z') || (leb b'2' c && leb c b'7')

unfoldable pub is_num : ℕ → Bool
is_num c = leb b'0' c && leb c b'9'

abbrev pub base32_alphabet : Bytes
base32_alphabet = codes "ABCDEFGHIJKLMNOPQRSTUVWXYZ234567"

abbrev count_up : ℕ → ℕ → List (Option ℕ)
count_up from zero = []
count_up from (suc n) = some from ∷ count_up (from + 1) n

-- `none` is the -1 of a byte that is no base32 character.
abbrev pub base32_values : List (Option ℕ)
base32_values =
    replicate 50 none
    ++ (count_up 26 6 ++ (replicate 9 none ++ (count_up 0 26 ++ replicate 37 none)))

-- `BASE32_ALPHABET[x]`, for x < 32
unfoldable pub base32_char : ℕ → ℕ
base32_char x = get_or base32_alphabet x 0

-- `BASE32_VALUES[c]`, for c < 128
unfoldable pub base32_value : ℕ → Option ℕ
base32_value c = get_or base32_values c none

abbrev value_is : ℕ → Option ℕ → Bool
value_is x none = false
value_is x (some y) = y == x

value_is-eq : (x : ℕ) (o : Option ℕ) → value_is x o ≡ true → o ≡ some x
value_is-eq x none h = ground arith
value_is-eq x (some y) h = ground arith

abbrev decodes : ℕ → Bool
decodes x = value_is x (base32_value (base32_char x)) && ltb (base32_char x) 128

decodes_table : passes decodes 32 ≡ true
unfolding passes base32_char base32_value
decodes_table = refl

pub base32_value-char : (x : ℕ) → x < 32 → base32_value (base32_char x) ≡ some x
base32_value-char x h =
    value_is-eq x (base32_value (base32_char x))
      (ground (arith, passes-test decodes 32 x h decodes_table))

pub base32_char-lt : (x : ℕ) → x < 32 → base32_char x < 128
base32_char-lt x h = ground (arith, passes-test decodes 32 x h decodes_table)

abbrev encodes : ℕ → Bool
encodes c = elim (base32_value c) [
  | none ↦ not (is_valid_base32_char c)
  | some x ↦ is_valid_base32_char c && (ltb x 32 && base32_char x == c)
]

encodes_table : passes encodes 128 ≡ true
unfolding passes base32_char base32_value is_valid_base32_char
encodes_table = refl

-- The value table decides the character class, and the alphabet inverts it.
pub base32_value_of :
    (c : ℕ)
    → is_valid_base32_char c ≡ true
    → (x : ℕ) × (base32_value c ≡ some x) × (x < 32) × (base32_char x ≡ c) × (c < 128)
base32_value_of c h = go (base32_value c) refl
  where
    small : c < 128
    small = unfold is_valid_base32_char in ground arith

    go :
        (o : Option ℕ)
        → base32_value c ≡ o
        → (x : ℕ) × (base32_value c ≡ some x) × (x < 32) × (base32_char x ≡ c) × (c < 128)
    go none e = absurd (ground (arith, passes-test encodes 128 c small encodes_table))
    go (some x) e = (
      x,
      e,
      ground (arith, passes-test encodes 128 c small encodes_table),
      ground (arith, passes-test encodes 128 c small encodes_table),
      small,
    )
