-- ===== src/Network/Ip/Quad.antt =====
-- The texts that ip_is_valid_ipv4 accepts.
use uhub.Prelude.{
  ℕ, suc, zero, ◌+◌, ◌-◌, ◌*◌, ◌≤◌, ◌<◌, ◌≡◌, refl, sym, ap, ◌∙◌, Bool, true, false, ◌||◌, not, [],
  ◌∷◌, ◌++◌, ltb, ◌==◌, if◌then◌else◌, length, length-append, Bytes, All, arith, Bool-cases, inl,
  inr, ◌↔◌, append-nil,
}
use uhub.Util.Chars.{is_num}
use uhub.Network.Ip.{quad_from, ip_is_valid_ipv4}

abbrev pub Digits : Bytes → Type 0
Digits = All (λ c. is_num c ≡ true)

-- The number that further digits make of one.
abbrev pub decimal : ℕ → Bytes → ℕ
decimal o [] = o
decimal o (c ∷ cs) = decimal (o * 10 + (c - b'0')) cs

-- The rest of an octet of which `n` digits with the value `o` are read: in all one to three digits
-- of a number below 256, with leading zeros allowed.
pub record Octet (o n : ℕ) (s : Bytes) : Type 0 where
  pub digits : Digits s
  pub some_digit : 1 ≤ n + length s
  pub three_digits : n + length s ≤ 3
  pub byte : decimal o s ≤ 255

-- The rest of an octet, and `k` further octets, each behind a dot.
abbrev pub Octets : ℕ → ℕ → ℕ → Bytes → Type 0
Octets zero o n s = Octet o n s
Octets (suc k) o n s =
    (t : Bytes) × (r : Bytes) × (s ≡ t ++ b'.' ∷ r) × Octet o n t × Octets k 0 0 r

too_many : (o n d : ℕ) (s : Bytes) → 3 < d → quad_from o n d s ≡ false
unfolding quad_from
too_many o n d [] h = ground arith
too_many o n d (c ∷ cs) h =
    ground (arith, too_many (o * 10 + (c - b'0')) (n + 1) d cs h, too_many 0 0 (d + 1) cs)

digit_more :
    (o n c : ℕ) (s : Bytes)
    → is_num c ≡ true
    → Octet (o * 10 + (c - b'0')) (n + 1) s
    → Octet o n (c ∷ s)
digit_more o n c s e h = record {
  digits = (e, h.digits);
  some_digit = omega (arith, h.some_digit);
  three_digits = omega (arith, h.three_digits);
  byte = h.byte;
}

digit_Octets :
    (k o n c : ℕ) (s : Bytes)
    → is_num c ≡ true
    → Octets k (o * 10 + (c - b'0')) (n + 1) s
    → Octets k o n (c ∷ s)
digit_Octets zero o n c s e h = digit_more o n c s e h
digit_Octets (suc k) o n c s e (t, r, f, h, g) =
    (c ∷ t, r, ap (λ x. c ∷ x) f, digit_more o n c t e h, g)

-- What the loop asks for at a dot and at the end.
complete_octet : ℕ → ℕ → Bool
complete_octet o n = not ((n == 0 || ltb 3 n) || ltb 255 o)

ended-Octet : (o n : ℕ) → complete_octet o n ≡ true → Octet o n []
unfolding complete_octet
ended-Octet o n e = record {
  digits = tt;
  some_digit = ground (arith, e);
  three_digits = ground (arith, e);
  byte = ground (arith, e);
}

at_digit :
    (o n d c : ℕ) (cs : Bytes)
    → is_num c ≡ true
    → quad_from o n d (c ∷ cs) ≡ quad_from (o * 10 + (c - b'0')) (n + 1) d cs
unfolding quad_from
at_digit o n d c cs e = rw (e)

at_other :
    (o n d c : ℕ) (cs : Bytes)
    → is_num c ≡ false
    → quad_from o n d (c ∷ cs) ≡ true
    → (c ≡ b'.') × (complete_octet o n ≡ true) × (quad_from 0 0 (d + 1) cs ≡ true)
unfolding quad_from complete_octet
at_other o n d c cs e h = ground (arith, e, h)

quad_from-Octets : (k o n d : ℕ) (s : Bytes) → d + k ≡ 3 → quad_from o n d s ≡ true → Octets k o n s
unfolding quad_from complete_octet
quad_from-Octets zero o n d [] e h = ended-Octet o n (ground (arith, e, h))
quad_from-Octets (suc k) o n d [] e h = absurd (ground (arith, e, h))
quad_from-Octets k o n d (c ∷ cs) e h = elim (Bool-cases (is_num c)) [
  | inl num ↦
      digit_Octets k o n c cs num (
        quad_from-Octets k (o * 10 + (c - b'0')) (n + 1) d cs e (sym (at_digit o n d c cs num) ∙ h))
  | inr other ↦ at_dot (λ k. quad_from-Octets k 0 0 (d + 1) cs) k e (at_other o n d c cs other h)
]
  where
    at_dot :
        ((k : ℕ) → d + 1 + k ≡ 3 → quad_from 0 0 (d + 1) cs ≡ true → Octets k 0 0 cs)
        → (k : ℕ) → d + k ≡ 3
        → (c ≡ b'.') × (complete_octet o n ≡ true) × (quad_from 0 0 (d + 1) cs ≡ true)
        → Octets k o n (c ∷ cs)
    at_dot further zero e (dot, full, g) = absurd (ground (arith, g, too_many 0 0 (d + 1) cs))
    at_dot further (suc k) e (dot, full, g) =
        ([], cs, ap (λ x. x ∷ cs) dot, ended-Octet o n full, further k (omega arith) g)

-- The loop over the digits of an octet.
Digits-read :
    (o n d : ℕ) (t r : Bytes)
    → Digits t
    → quad_from o n d (t ++ r) ≡ quad_from (decimal o t) (n + length t) d r
Digits-read o n d [] r h = let e : n ≡ n + 0 = omega arith in ap (λ m. quad_from o m d r) e
Digits-read o n d (c ∷ t) r (e, h) =
    at_digit o n d c (t ++ r) e
    ∙ Digits-read (o * 10 + (c - b'0')) (n + 1) d t r h
    ∙ (let f : n + 1 + length t ≡ n + suc (length t) = omega arith in
        ap (λ m. quad_from (decimal (o * 10 + (c - b'0')) t) m d r) f)

whole-Octet :
    (o n : ℕ) (t : Bytes) → Octet o n t → complete_octet (decimal o t) (n + length t) ≡ true
unfolding complete_octet
whole-Octet o n t h = ground (arith, h.some_digit, h.three_digits, h.byte)

at_end : (o n : ℕ) → complete_octet o n ≡ true → quad_from o n 3 [] ≡ true
unfolding quad_from complete_octet
at_end o n e = ground (arith, e)

passes_test : (b x y : Bool) → not b ≡ true → (if b then x else y) ≡ y
passes_test true x y e = absurd (ground (arith, e))
passes_test false x y e = refl

past_dot :
    (o n d : ℕ) (r : Bytes)
    → complete_octet o n ≡ true
    → quad_from o n d (b'.' ∷ r) ≡ quad_from 0 0 (d + 1) r
unfolding quad_from complete_octet is_num
past_dot o n d r e = passes_test _ _ _ e

Octets-quad_from : (k o n d : ℕ) (s : Bytes) → d + k ≡ 3 → Octets k o n s → quad_from o n d s ≡ true
Octets-quad_from zero o n d s e h =
    let f : d ≡ 3 = omega arith in
    ap (λ s. quad_from o n d s) (sym (append-nil s))
    ∙ Digits-read o n d s [] h.digits
    ∙ ap (λ d. quad_from (decimal o s) (n + length s) d []) f
    ∙ at_end _ _ (whole-Octet o n s h)
Octets-quad_from (suc k) o n d s e (t, r, f, h, g) =
    ap (λ s. quad_from o n d s) f
    ∙ Digits-read o n d t (b'.' ∷ r) h.digits
    ∙ past_dot _ _ d r (whole-Octet o n t h)
    ∙ Octets-quad_from k 0 0 (d + 1) r (omega arith) g

Octets-length :
    (k : ℕ) (s : Bytes) → Octets k 0 0 s → (2 * k + 1 ≤ length s) × (length s ≤ 4 * k + 3)
Octets-length zero s h = (omega (arith, h.some_digit), omega (arith, h.three_digits))
Octets-length (suc k) s (t, r, f, h, g) =
    let (low, high) = Octets-length k r g in
    let e = ap length f ∙ length-append t (b'.' ∷ r) in
    (omega (arith, e, low, h.some_digit), omega (arith, e, high, h.three_digits))

-- A text is accepted exactly if it is four octets with dots between them, each of one to three
-- digits and below 256.
pub ip_is_valid_ipv4-Octets : (s : Bytes) → (ip_is_valid_ipv4 s ≡ true) ↔ Octets 3 0 0 s
unfolding ip_is_valid_ipv4
ip_is_valid_ipv4-Octets s = (
  λ e. quad_from-Octets 3 0 0 0 s (omega arith) (ground (arith, e)),
  λ h.
      let (low, high) = Octets-length 3 s h in
      let fits : (ltb 15 (length s) || ltb (length s) 7) ≡ false = ground (arith, low, high) in
      rw (fits) (Octets-quad_from 3 0 0 0 s (omega arith) h),
)
