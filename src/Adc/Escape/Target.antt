-- ===== src/Adc/Escape/Target.antt =====
-- What unescaping writes: all of it, or as much as the target holds.
use uhub.Prelude.{
  take_all, ℕ, zero, suc, ◌+◌, ◌-◌, ◌<◌, ◌≤◌, ◌≡◌, refl, Bool, true, false, [], ◌∷◌, arith, ltb,
  ◌==◌, if◌then◌else◌, length, take, Bytes, Bool-cases, inl, inr, ap, sym, ◌∙◌, subst, tests,
}
use uhub.Adc.Escape.{
  escapes_from, adc_msg_unescape_length, unescape_byte, unescape_from, adc_msg_unescape_to_target,
  adc_msg_unescape,
}

-- Unescaping with no bound on the target, as a description of the result.
unfoldable pub unescaped : Bool → Bytes → Bytes
unescaped escaped [] = []
unescaped true (c ∷ cs) = unescape_byte c ∷ unescaped false cs
unescaped false (c ∷ cs) = if c == b'\\' then unescaped true cs else c ∷ unescaped false cs

length-unescaped : (e : Bool) (s : Bytes) → length (unescaped e s) + escapes_from e s ≡ length s
unfolding unescaped escapes_from
length-unescaped e [] = refl
length-unescaped true (c ∷ cs) = omega (arith, length-unescaped false cs)
length-unescaped false (c ∷ cs) =
    ground (arith, length-unescaped true cs, length-unescaped false cs)

length-take-le : (n : ℕ) (xs : Bytes) → length (take n xs) ≤ n
length-take-le zero xs = omega arith
length-take-le (suc n) [] = omega arith
length-take-le (suc n) (x ∷ xs) = omega (arith, length-take-le n xs)

abbrev Writes : ℕ → Bool → ℕ → Bytes → Bytes × ℕ → Type 0
Writes size e w s r = (r.0 ≡ take (size - 1 - w) (unescaped e s)) × (r.1 ≡ w + length r.0)

take_next : (w n x : ℕ) (xs : Bytes) → w < n → take (n - w) (x ∷ xs) ≡ x ∷ take (n - (w + 1)) xs
take_next w n x xs h =
    subst (λ k. take k (x ∷ xs) ≡ x ∷ take (n - (w + 1)) xs)
      (let e : suc (n - (w + 1)) ≡ n - w = omega arith in e) refl

take_stop : (w n : ℕ) (xs : Bytes) → n ≤ w → take (n - w) xs ≡ []
take_stop w n xs h = subst (λ k. take k xs ≡ []) (let e : 0 ≡ n - w = omega arith in e) refl

take_nil : (n : ℕ) → take n [] ≡ (let r : Bytes = [] in r)
take_nil zero = refl
take_nil (suc n) = refl

pub unescape_from-Writes :
    (size : ℕ) (e : Bool) (w : ℕ) (s : Bytes) → Writes size e w s (unescape_from size e w s)
unfolding unescape_from unescaped
unescape_from-Writes size e w [] = (sym (take_nil (size - 1 - w)), omega arith)
unescape_from-Writes size true w (c ∷ cs) = elim (Bool-cases (ltb w (size - 1))) [
  | inl go ↦
      let ih = unescape_from-Writes size false (w + 1) cs in
      rw go (
        ap (◌∷◌ (unescape_byte c)) ih.0 ∙ sym (take_next w (size - 1) _ _ (omega tests)),
        omega (arith, ih.1),
      )
  | inr stop ↦ rw stop (sym (take_stop w (size - 1) _ (ground arith)), omega arith)
]
unescape_from-Writes size false w (c ∷ cs) = elim (Bool-cases (ltb w (size - 1))) [
  | inl go ↦ elim (Bool-cases (c == b'\\')) [
    | inl slash ↦ rw (go, slash) (unescape_from-Writes size true w cs)
    | inr plain ↦
        let ih = unescape_from-Writes size false (w + 1) cs in
        rw (go, plain)
          (ap (◌∷◌ c) ih.0 ∙ sym (take_next w (size - 1) _ _ (omega tests)), omega (arith, ih.1))
  ]
  | inr stop ↦ rw stop (sym (take_stop w (size - 1) _ (ground arith)), omega arith)
]

-- Into a target of at least one byte, unescaping writes the longest prefix of the unescaped text
-- that leaves room for the NUL, and returns the number of bytes written with the NUL, which is
-- within the target's size, also when the target is too small for the whole text: it never returns
-- -1.
pub adc_msg_unescape_to_target-take :
    (str : Bytes) (target_size : ℕ)
    → 0 < target_size
    → ((adc_msg_unescape_to_target str target_size).0
        ≡ take (target_size - 1) (unescaped false str))
      × ((adc_msg_unescape_to_target str target_size).1
          ≡ length (adc_msg_unescape_to_target str target_size).0 + 1)
      × ((adc_msg_unescape_to_target str target_size).1 ≤ target_size)
unfolding adc_msg_unescape_to_target
adc_msg_unescape_to_target-take str size h =
    let r = unescape_from-Writes size false 0 str in
    let all : size - 1 - 0 ≡ size - 1 = omega arith in
    let text = r.0 ∙ ap (λ n. take n (unescaped false str)) all in
    (
      text,
      omega (arith, r.1),
      omega (arith, r.1, ap length text, length-take-le (size - 1) (unescaped false str)),
    )

-- The buffer that `adc_msg_unescape` allocates is exactly large enough: nothing is cut off.
pub adc_msg_unescape-unescaped :
    (str : Bytes)
    → (adc_msg_unescape str ≡ unescaped false str)
      × (length (adc_msg_unescape str) ≡ adc_msg_unescape_length str)
unfolding adc_msg_unescape adc_msg_unescape_length
adc_msg_unescape-unescaped str =
    let r = unescape_from-Writes (adc_msg_unescape_length str + 1) false 0 str in
    let fits = length-unescaped false str in
    let whole = r.0 ∙ take_all _ (unescaped false str) (omega (arith, fits)) in
    (whole, ap length whole ∙ omega (arith, fits))
