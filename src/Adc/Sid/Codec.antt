-- ===== src/Adc/Sid/Codec.antt =====
-- The two directions of the textual form of a session identifier.
use uhub.Prelude.{ℕ, ◌+◌, ◌*◌, ◌%◌, ◌/◌, ◌^◌, ◌<◌, ◌≡◌, ap, true, some, [], ◌∷◌, arith, Bytes, ◌∙◌}
use uhub.Util.Chars.{
  is_valid_base32_char, base32_char, base32_value, base32_value-char, base32_char-lt,
  base32_value_of,
}
use uhub.Adc.Sid.{sid_to_string, string_to_sid, decode_chars, or_zero}

decode_chars-cons :
    (nsid c x : ℕ) (cs : Bytes)
    → c < 128
    → base32_value c ≡ some x
    → decode_chars nsid (c ∷ cs) ≡ decode_chars ((nsid * 32 + x) % 2 ^ 32) cs
unfolding decode_chars
decode_chars-cons nsid c x cs h e = ground arith

decode_four :
    (a b c d w x y z : ℕ)
    → (a < 128) × (base32_value a ≡ some w) × (w < 32)
    → (b < 128) × (base32_value b ≡ some x) × (x < 32)
    → (c < 128) × (base32_value c ≡ some y) × (y < 32)
    → (d < 128) × (base32_value d ≡ some z) × (z < 32)
    → string_to_sid (some (a ∷ b ∷ c ∷ d ∷ [])) ≡ ((w * 32 + x) * 32 + y) * 32 + z
unfolding string_to_sid
decode_four a b c d w x y z p q r s = ap or_zero (
    decode_chars-cons 0 a w (b ∷ c ∷ d ∷ []) p.0 p.1
    ∙ decode_chars-cons _ b x (c ∷ d ∷ []) q.0 q.1
    ∙ decode_chars-cons _ c y (d ∷ []) r.0 r.1
    ∙ decode_chars-cons _ d z [] s.0 s.1
    ∙ ap some (omega arith))

digit :
    (x : ℕ) → x < 32 → (base32_char x < 128) × (base32_value (base32_char x) ≡ some x) × (x < 32)
digit x h = (base32_char-lt x h, base32_value-char x h, h)

-- Every identifier below 32^4 is read back from its text.
pub string_to_sid-sid_to_string :
    (sid : ℕ) → sid < 32 ^ 4 → string_to_sid (some (sid_to_string sid)) ≡ sid
unfolding sid_to_string
string_to_sid-sid_to_string sid h =
    decode_four _ _ _ _ _ _ _ _ (digit (sid / 32 / 32 / 32 % 32) (omega arith))
      (digit (sid / 32 / 32 % 32) (omega arith)) (digit (sid / 32 % 32) (omega arith))
      (digit (sid % 32) (omega arith))
    ∙ omega arith

-- Every text of four base32 characters is printed back from its identifier, which is below 32^4.
pub sid_to_string-string_to_sid :
    (a b c d : ℕ)
    → is_valid_base32_char a ≡ true
    → is_valid_base32_char b ≡ true
    → is_valid_base32_char c ≡ true
    → is_valid_base32_char d ≡ true
    → (string_to_sid (some (a ∷ b ∷ c ∷ d ∷ [])) < 32 ^ 4)
      × (sid_to_string (string_to_sid (some (a ∷ b ∷ c ∷ d ∷ []))) ≡ a ∷ b ∷ c ∷ d ∷ [])
unfolding sid_to_string
sid_to_string-string_to_sid a b c d p q r s =
    let (w, ew, lw, cw, ha) = base32_value_of a p in
    let (x, ex, lx, cx, hb) = base32_value_of b q in
    let (y, ey, ly, cy, hc) = base32_value_of c r in
    let (z, ez, lz, cz, hd) = base32_value_of d s in
    let e = decode_four a b c d w x y z (ha, ew, lw) (hb, ex, lx) (hc, ey, ly) (hd, ez, lz) in
    rw e (
      omega arith,
      ap₄ (ap base32_char (omega arith) ∙ cw) (ap base32_char (omega arith) ∙ cx)
          (ap base32_char (omega arith) ∙ cy) (ap base32_char (omega arith) ∙ cz),
    )
  where
    ap₄ :
        {a' b' c' d' a b c d : ℕ}
        → a' ≡ a
        → b' ≡ b
        → c' ≡ c
        → d' ≡ d
        → ◌≡◌ {A = Bytes} (a' ∷ b' ∷ c' ∷ d' ∷ []) (a ∷ b ∷ c ∷ d ∷ [])
    ap₄ p q r s = cc
