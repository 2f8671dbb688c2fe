-- ===== src/Adc/Message/Arguments/Without.antt =====
-- Messages without a named argument: what the changes of src/adc/message.c keep out of them.
use uhub.Prelude.{
  drop-append, ℕ, zero, suc, ◌+◌, ◌≡◌, ◌≢◌, refl, ap, sym, ◌∙◌, false, [], ◌∷◌, ◌++◌, Option, none,
  some, arith, take, drop, Bytes, Option-cases, inl, inr, subst, Bool-cases, ◌==◌, take-drop,
  none≢some, drop-drop,
}
use uhub.Adc.Message.{AdcMessage}
use uhub.Adc.Message.Line.{IsLine, unterminate-Becomes}
use uhub.Adc.Message.Arguments.{
  memmem, index_of, argument_name, remove_loop, adc_msg_has_named_argument, starts_with, later,
  adc_msg_get_named_argument, count_named, strip_newline, value_until,
  adc_msg_remove_named_argument,
}
use uhub.Adc.Message.Arguments.Search.{
  memmem-append, memmem-cons-none, memmem-miss, memmem-joined, index_of-miss, index_of-hit,
  later-zero, later-suc, zero≢suc,
}
use uhub.Adc.Message.Arguments.Named.{Lacks, remove-IsLine, NoSpace}

memmem-drop :
    (needle : Bytes) (j : ℕ) (s : Bytes) → memmem needle s ≡ none → memmem needle (drop j s) ≡ none
memmem-drop needle zero s e = e
memmem-drop needle (suc j) [] e = e
memmem-drop needle (suc j) (c ∷ s) e = memmem-drop needle j s (memmem-cons-none needle c s e).1

memmem-take-none :
    (needle : Bytes) (i : ℕ) (s : Bytes) → memmem needle s ≡ none → memmem needle (take i s) ≡ none
memmem-take-none needle i s e =
    memmem-append needle (take i s) (drop i s) (ap (memmem needle) (take-drop i s) ∙ e)

index_of-drop :
    (c : ℕ) (s : Bytes) (k : ℕ) → index_of c s ≡ some k → (r : Bytes) × (drop k s ≡ c ∷ r)
index_of-drop c [] k e = unfold index_of in absurd (none≢some e)
index_of-drop c (x ∷ s) zero e = elim (Bool-cases (x == c)) [
  | inl hit ↦ (s, ap (λ d. d ∷ s) (ground arith))
  | inr miss ↦ absurd (later-zero _ (sym (index_of-miss c x s miss) ∙ e))
]
index_of-drop c (x ∷ s) (suc k) e = elim (Bool-cases (x == c)) [
  | inl hit ↦ absurd (zero≢suc k (sym (index_of-hit c x s hit) ∙ e))
  | inr miss ↦ index_of-drop c s k (later-suc _ k (sym (index_of-miss c x s miss) ∙ e))
]

some-fst :
    (m m' : AdcMessage) (n n' : ℕ)
    → ◌≡◌ {A = Option (AdcMessage × ℕ)} (some (m, n)) (some (m', n'))
    → m ≡ m'
some-fst m m' n n' e = cc

module _ (p q : ℕ) (p_plain : p ≢ b' ') (q_plain : q ≢ b' ') where
  abbrev name : Bytes
  name = argument_name p q

  -- Taking arguments of any name out brings no other one in.
  remove_loop-keeps :
      (fuel : ℕ) (needle tail : Bytes) (found : ℕ)
      → memmem name tail ≡ none
      → memmem name (remove_loop fuel needle tail found).0 ≡ none
  unfolding remove_loop
  remove_loop-keeps zero needle tail found h = h
  remove_loop-keeps (suc fuel) needle tail found h = elim (Option-cases (memmem needle tail)) [
    | inl e ↦ rw (e, remove_loop) h
    | inr (i, e) ↦ elim (Option-cases (index_of b' ' (drop (i + 1) tail))) [
      | inl f ↦ rw (e, f, remove_loop) (memmem-take-none name i tail h)
      | inr (k, f) ↦
          let (r, g) = index_of-drop b' ' (drop (i + 1) tail) k f in
          let at : drop (i + 1 + k) tail ≡ b' ' ∷ r = sym (drop-drop (i + 1) k tail) ∙ g in
          rw (e, f, remove_loop)
            (remove_loop-keeps fuel needle (take i tail ++ drop (i + 1 + k) tail) (found + 1) (
              ap (λ t. memmem name (take i tail ++ t)) at
              ∙ memmem-joined p q p_plain q_plain r (take i tail) (memmem-take-none name i tail h)
                  (ap (memmem name) (sym at) ∙ memmem-drop name (i + 1 + k) tail h)))
    ]
  ]

  -- A removal keeps a line a line, and every absent argument absent.
  pub remove-keeps :
      (cmd m : AdcMessage) (offset a b n : ℕ)
      → Lacks p q cmd offset
      → adc_msg_remove_named_argument cmd a b ≡ some (m, n)
      → Lacks p q m offset
  remove-keeps cmd m offset a b n l e =
      let (m', n', left, e', line, rest) = remove-IsLine a b cmd l.body offset l.line in
      let u = unterminate-Becomes cmd l.body l.line.text in
      subst (λ m. Lacks p q m offset) (some-fst m' m n' n (sym e' ∙ e))
        (record {
          body = left;
          line = line;
          absent =
              ap (memmem name) rest
              ∙ remove_loop-keeps _ (argument_name a b) _ 0
                  (ap (λ t. memmem name (drop offset t)) u.text_is ∙ l.absent);
        })

  starts_with-NoSpace : (s : Bytes) → NoSpace s → starts_with name s ≡ false
  unfolding starts_with
  starts_with-NoSpace [] h = refl
  starts_with-NoSpace (c ∷ s) h = ground arith

  memmem-NoSpace : (s : Bytes) → NoSpace s → memmem name s ≡ none
  memmem-NoSpace [] h = unfold memmem in refl
  memmem-NoSpace (c ∷ s) h =
      memmem-miss name c s (starts_with-NoSpace (c ∷ s) h) ∙ ap later (memmem-NoSpace s h.1)

  other_name :
      (a b : ℕ) (v : Bytes) → (a ≡ p → b ≡ q → ⊥) → starts_with name (b' ' ∷ a ∷ b ∷ v) ≡ false
  unfolding starts_with
  other_name a b v other = ground arith

  -- An argument of another name, whose value has no space, keeps an absent one absent where it is
  -- put behind a line.
  pub grown-keeps :
      (cmd m : AdcMessage) (offset : ℕ) (a b : ℕ) (v : Bytes)
      → Lacks p q cmd offset
      → (a ≡ p → b ≡ q → ⊥)
      → NoSpace (a ∷ b ∷ v)
      → ((body : Bytes) → IsLine cmd body offset → IsLine m (body ++ (b' ' ∷ a ∷ b ∷ v)) offset)
      → Lacks p q m offset
  grown-keeps cmd m offset a b v l other solid grows = record {
    body = l.body ++ (b' ' ∷ a ∷ b ∷ v);
    line = grows l.body l.line;
    absent =
        ap (memmem name) (drop-append offset l.body _ l.line.within)
        ∙ memmem-joined p q p_plain q_plain (a ∷ b ∷ v) (drop offset l.body) l.absent (
            memmem-miss name b' ' (a ∷ b ∷ v) (other_name a b v other)
            ∙ ap later (memmem-NoSpace (a ∷ b ∷ v) solid));
  }

-- A line has an answer to every search.
pub get_named-some :
    (cmd : AdcMessage) (body : Bytes) (offset p q : ℕ)
    → IsLine cmd body offset
    → (v : Option Bytes) × (adc_msg_get_named_argument cmd p q ≡ some v)
unfolding adc_msg_get_named_argument
get_named-some cmd body offset p q l =
    elim (Option-cases (memmem (argument_name p q) (drop offset cmd.cache))) [
      | inl e ↦ (none, rw (l.offset_is, e, adc_msg_get_named_argument) refl)
      | inr (i, e) ↦
          let start = drop (offset + i + 3) cmd.cache in
          (
            some (strip_newline (value_until start (index_of b' ' start))),
            rw (l.offset_is, e, adc_msg_get_named_argument) refl,
          )
    ]

pub has_named-some :
    (cmd : AdcMessage) (body : Bytes) (offset p q : ℕ)
    → IsLine cmd body offset
    → (n : ℕ) × (adc_msg_has_named_argument cmd p q ≡ some n)
unfolding adc_msg_has_named_argument
has_named-some cmd body offset p q l = (
  count_named (argument_name p q) (drop offset cmd.cache),
  rw (l.offset_is, adc_msg_has_named_argument) refl,
)
