-- ===== src/Adc/Message/Arguments/Length.antt =====
-- How long a message of src/adc/message.c gets when named arguments are removed and added.
use uhub.Prelude.{
  ℕ, zero, suc, ◌+◌, ◌≤◌, ◌≡◌, ap, ◌∙◌, [], ◌∷◌, ◌++◌, some, arith, length, length-append,
  length-drop, take, drop, Bytes, Option-cases, Bool-cases, inl, inr,
}
use uhub.Adc.Message.{
  AdcMessage, adc_msg_grow, adc_msg_cache_append, adc_msg_terminate, adc_msg_unterminate,
  ends_with_newline, drop_last,
}
use uhub.Adc.Message.Build.{adc_msg_add_named_argument}
use uhub.Adc.Message.Line.{IsLine, unterminate-Becomes}
use uhub.Adc.Message.Arguments.{
  memmem, index_of, argument_name, remove_loop, adc_msg_remove_named_argument,
}
use uhub.Adc.Message.Arguments.Named.{remove-IsLine}

length-take_le : (n : ℕ) (s : Bytes) → length (take n s) ≤ length s
length-take_le zero s = omega arith
length-take_le (suc n) [] = omega arith
length-take_le (suc n) (c ∷ s) = omega (arith, length-take_le n s)

-- Cutting bytes out of the middle makes no text longer.
length-cut : (i j : ℕ) (s : Bytes) → i ≤ j → length (take i s ++ drop j s) ≤ length s
length-cut zero j s h = omega (arith, length-drop j s)
length-cut (suc i) zero s h = elim h [ ]
length-cut (suc i) (suc j) [] h = omega arith
length-cut (suc i) (suc j) (c ∷ s) h = omega (arith, length-cut i j s (omega arith))

length-remove_loop :
    (fuel : ℕ) (needle tail : Bytes) (found : ℕ)
    → length (remove_loop fuel needle tail found).0 ≤ length tail
unfolding remove_loop
length-remove_loop zero needle tail found = omega arith
length-remove_loop (suc fuel) needle tail found = elim (Option-cases (memmem needle tail)) [
  | inl e ↦ rw (e, remove_loop) (omega arith)
  | inr (i, e) ↦ elim (Option-cases (index_of b' ' (drop (i + 1) tail))) [
    | inl f ↦ rw (e, f, remove_loop) (length-take_le i tail)
    | inr (k, f) ↦
        let shorter = take i tail ++ drop (i + 1 + k) tail in
        let rest = length-remove_loop fuel needle shorter (found + 1) in
        let cut = length-cut i (i + 1 + k) tail (omega arith) in
        rw (e, f, remove_loop) (omega (arith, rest, cut))
  ]
]

-- Removing the arguments of a name makes no line longer.
pub remove-shorter :
    (p q : ℕ) (cmd : AdcMessage) (body : Bytes) (offset : ℕ)
    → IsLine cmd body offset
    → (m : AdcMessage) × (n : ℕ) × (adc_msg_remove_named_argument cmd p q ≡ some (m, n))
      × (length m.cache ≤ length cmd.cache)
remove-shorter p q cmd body offset l =
    let (m, n, left, e, line, rest) = remove-IsLine p q cmd body offset l in
    let bare = (unterminate-Becomes cmd body l.text).text_is in
    let tail = drop offset (adc_msg_unterminate cmd).cache in
    let low = line.within in
    let kept = length-drop offset left in
    let was = length-drop offset body in
    let same : length tail ≡ length (drop offset body) =
      ap (λ (s : Bytes). length (drop offset s)) bare in
    let less = length-remove_loop (length tail + 1) (argument_name p q) tail 0 in
    let left_is = ap length rest in
    let long = ap length l.text ∙ length-append body (b'\n' ∷ []) in
    let short = ap length line.text ∙ length-append left (b'\n' ∷ []) in
    (m, n, e, omega (arith, low, l.within, kept, was, same, less, left_is, long, short))

length-cache_append :
    (m : AdcMessage) (s : Bytes)
    → length (adc_msg_cache_append m s).cache ≡ length m.cache + length s
unfolding adc_msg_cache_append adc_msg_grow
length-cache_append m s = ground (arith, length-append m.cache s)

length-drop_last : (s : Bytes) → length (drop_last s) ≤ length s
length-drop_last [] = omega arith
length-drop_last (c ∷ []) = omega arith
length-drop_last (c ∷ d ∷ s) = omega (arith, length-drop_last (d ∷ s))

length-unterminate : (m : AdcMessage) → length (adc_msg_unterminate m).cache ≤ length m.cache
unfolding adc_msg_unterminate
length-unterminate m = elim (Bool-cases (ends_with_newline m.cache)) [
  | inl e ↦ rw (e) (length-drop_last m.cache)
  | inr e ↦ rw (e) (omega arith)
]

length-terminate : (m : AdcMessage) → length (adc_msg_terminate m).cache ≤ length m.cache + 1
unfolding adc_msg_terminate
length-terminate m = elim (Bool-cases (ends_with_newline m.cache)) [
  | inl e ↦ rw (e) (omega arith)
  | inr e ↦ rw (e) (omega (arith, length-cache_append m (b'\n' ∷ [])))
]

-- An argument with its name adds its length and at most four bytes.
pub length-add_named :
    (m : AdcMessage) (p q : ℕ) (s : Bytes)
    → length (adc_msg_add_named_argument m p q s).cache ≤ length m.cache + length s + 4
unfolding adc_msg_add_named_argument
length-add_named m p q s =
    let bare = adc_msg_unterminate m in
    let spaced = adc_msg_cache_append bare (b' ' ∷ []) in
    let named = adc_msg_cache_append spaced (p ∷ q ∷ []) in
    omega (
      arith,
      length-unterminate m,
      length-cache_append bare (b' ' ∷ []),
      length-cache_append spaced (p ∷ q ∷ []),
      length-cache_append named s,
      length-terminate (adc_msg_cache_append named s),
    )
