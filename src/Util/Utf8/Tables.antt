-- ===== src/Util/Utf8/Tables.antt =====
-- The bit tests on a byte, as ranges.
use uhub.Prelude.{
  ℕ, ◌<◌, ◌≡◌, refl, Bool, true, ◌&&◌, ◌||◌, not, [], ◌∷◌, arith, ltb, leb, ◌==◌, if◌then◌else◌,
  bit_and, passes, passes-test, false,
}
use uhub.Util.Utf8.{count_expect}

abbrev same : Bool → Bool → Bool
same a b = if a then b else not b

same-eq : (a b : Bool) → same a b ≡ true → a ≡ b
same-eq a b h = ground arith

abbrev ranges : ℕ → Bool
ranges c =
    same (bit_and c 0xC0 == 0x80) (leb 0x80 c && leb c 0xBF)
    && same (bit_and c 0x80 == 0) (ltb c 0x80)

ranges_table : passes ranges 256 ≡ true
unfolding passes
ranges_table = refl

pub is_continuation : (c : ℕ) → c < 256 → (bit_and c 0xC0 == 0x80) ≡ (leb 0x80 c && leb c 0xBF)
is_continuation c h = same-eq _ _ (ground (arith, passes-test ranges 256 c h ranges_table))

pub is_ascii : (c : ℕ) → c < 256 → (bit_and c 0x80 == 0) ≡ ltb c 0x80
is_ascii c h = same-eq _ _ (ground (arith, passes-test ranges 256 c h ranges_table))

-- The continuation bytes that a lead byte announces, and the bit that must then be clear.
abbrev pub announced : ℕ → ℕ × ℕ
announced c =
    if ltb c 0xC0
    then (0, 0x40)
    else if ltb c 0xE0
    then (1, 0x20)
    else if ltb c 0xF0
    then (2, 0x10)
    else (3, 0x08)

abbrev leads : ℕ → Bool
leads c =
    ltb c 0x80
    || (((count_expect c (0x40 ∷ 0x20 ∷ 0x10 ∷ []) 0).0 == (announced c).0
          && (count_expect c (0x40 ∷ 0x20 ∷ 0x10 ∷ []) 0).1 == (announced c).1)
        && same (bit_and c (announced c).1 == 0) (ltb c 0xF8))

leads_table : passes leads 256 ≡ true
unfolding passes count_expect
leads_table = refl

pair_eq : (p q : ℕ × ℕ) → (p.0 == q.0) ≡ true → (p.1 == q.1) ≡ true → p ≡ q
pair_eq p q h k = ground arith

pub count_expect-announced :
    (c : ℕ)
    → c < 256
    → ltb c 0x80 ≡ false
    → (count_expect c (0x40 ∷ 0x20 ∷ 0x10 ∷ []) 0 ≡ announced c)
      × ((bit_and c (announced c).1 == 0) ≡ ltb c 0xF8)
count_expect-announced c h hi = (
  pair_eq _ _ (ground (arith, passes-test leads 256 c h leads_table))
      (ground (arith, passes-test leads 256 c h leads_table)),
  same-eq _ _ (ground (arith, passes-test leads 256 c h leads_table)),
)
