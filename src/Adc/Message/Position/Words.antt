-- ===== src/Adc/Message/Position/Words.antt =====
-- The arguments of src/adc/message.c by their number as the words of the text behind the header.
use uhub.Prelude.{
  ℕ, zero, suc, ◌+◌, ◌-◌, ◌<◌, ◌≡◌, refl, ap, sym, ◌∙◌, Bool, true, false, List, [], ◌∷◌, Option,
  none, some, ◌==◌, if◌then◌else◌, length, take, drop, Bytes, arith, inl, inr, Option-cases,
  Bool-cases, length-drop, none≢some,
}
use uhub.Adc.Message.Line.{NoNewline, ends_with_newline-NoNewline}
use uhub.Adc.Message.Arguments.{index_of, strip_newline}
use uhub.Adc.Message.Arguments.Named.{NoNewline-drop}
use uhub.Adc.Message.Arguments.Search.{
  index_of-miss, index_of-hit, later-none, later-zero, later-suc, zero≢suc,
}
use uhub.Adc.Message.Position.{
  first_of, non_empty, argument_loop, behind_space, is_named, index_loop,
}

abbrev pub extend : ℕ → List Bytes → List Bytes
extend c [] = (c ∷ []) ∷ []
extend c (word ∷ rest) = (c ∷ word) ∷ rest

-- A text cut at every space.
unfoldable pub words : Bytes → List Bytes
words [] = [] ∷ []
words (c ∷ cs) = let rest = words cs in if c == b' ' then [] ∷ rest else extend c rest

abbrev pub word_at : List Bytes → ℕ → Option Bytes
word_at [] n = none
word_at (word ∷ rest) zero = some word
word_at (word ∷ rest) (suc n) = word_at rest n

abbrev pub filled : Option Bytes → Option Bytes
filled none = none
filled (some word) = non_empty word

-- The number of the first word that the test holds of, counted from `n`.
abbrev pub find_word : (Bytes → Bool) → ℕ → List Bytes → Option ℕ
find_word test n [] = none
find_word test n (word ∷ rest) =
    let more = find_word test (n + 1) rest in if test word then some n else more

words-miss : (c : ℕ) (cs : Bytes) → (c == b' ') ≡ false → words (c ∷ cs) ≡ extend c (words cs)
unfolding words
words-miss c cs e = rw e

words-hit : (c : ℕ) (cs : Bytes) → (c == b' ') ≡ true → words (c ∷ cs) ≡ [] ∷ words cs
unfolding words
words-hit c cs e = rw e

words-last : (s : Bytes) → index_of b' ' s ≡ none → words s ≡ s ∷ []
words-last [] e = unfold words in refl
words-last (c ∷ cs) e = elim (Bool-cases (c == b' ')) [
  | inl hit ↦ absurd (none≢some (sym e ∙ index_of-hit b' ' c cs hit))
  | inr miss ↦
      words-miss c cs miss
      ∙ ap (extend c) (words-last cs (later-none _ (sym (index_of-miss b' ' c cs miss) ∙ e)))
]

words-next :
    (s : Bytes) (k : ℕ) → index_of b' ' s ≡ some k → words s ≡ take k s ∷ words (drop (suc k) s)
words-next [] k e = unfold index_of in absurd (none≢some e)
words-next (c ∷ cs) zero e = elim (Bool-cases (c == b' ')) [
  | inl hit ↦ words-hit c cs hit
  | inr miss ↦ absurd (later-zero _ (sym (index_of-miss b' ' c cs miss) ∙ e))
]
words-next (c ∷ cs) (suc k) e = elim (Bool-cases (c == b' ')) [
  | inl hit ↦ absurd (zero≢suc k (sym (index_of-hit b' ' c cs hit) ∙ e))
  | inr miss ↦
      words-miss c cs miss
      ∙ ap (extend c) (words-next cs k (later-suc _ k (sym (index_of-miss b' ' c cs miss) ∙ e)))
]

strip_newline-same : (s : Bytes) → NoNewline s → strip_newline s ≡ s
strip_newline-same s h = rw (ends_with_newline-NoNewline s h)

filled-only : (s : Bytes) (n : ℕ) → filled (word_at (s ∷ []) (suc n)) ≡ none
filled-only s n = refl

argument_loop-last :
    (fuel : ℕ) (start : Bytes) (count offset : ℕ)
    → index_of b' ' start ≡ none
    → argument_loop (suc fuel) start count offset
      ≡ (if count == offset then non_empty (strip_newline start) else none)
unfolding argument_loop
argument_loop-last fuel start count offset e = rw (e, argument_loop)

argument_loop-next :
    (fuel : ℕ) (start : Bytes) (count offset : ℕ) (k : ℕ)
    → index_of b' ' start ≡ some k
    → argument_loop (suc fuel) start count offset ≡ (
        if count == offset
        then first_of
            (non_empty (take k start))
            (argument_loop fuel (drop (suc k) start) (count + 1) offset)
        else argument_loop fuel (drop (suc k) start) (count + 1) offset)
unfolding argument_loop
argument_loop-next fuel start count offset k e = rw (e, argument_loop)

-- Past the number looked for, nothing is found.
argument_loop-past :
    (fuel : ℕ) (start : Bytes) (count offset : ℕ)
    → offset < count
    → argument_loop fuel start count offset ≡ none
argument_loop-past zero start count offset h = unfold argument_loop in refl
argument_loop-past (suc fuel) start count offset h =
    let other : (count == offset) ≡ false = ground arith in
    elim (Option-cases (index_of b' ' start)) [
      | inl e ↦ argument_loop-last fuel start count offset e ∙ rw other refl
      | inr (k, e) ↦
          argument_loop-next fuel start count offset k e
          ∙ rw other (argument_loop-past fuel (drop (suc k) start) (count + 1) offset (omega arith))
    ]

first_of-none : (o : Option Bytes) → first_of o none ≡ o
first_of-none none = refl
first_of-none (some x) = refl

drop-shorter : (k : ℕ) (s : Bytes) → index_of b' ' s ≡ some k → length (drop (suc k) s) < length s
drop-shorter k [] e = unfold index_of in absurd (none≢some e)
drop-shorter k (c ∷ s) e = omega (arith, length-drop k s)

argument_loop-words :
    (fuel : ℕ) (start : Bytes) (count n : ℕ)
    → length start < fuel
    → NoNewline start
    → argument_loop fuel start count (count + n) ≡ filled (word_at (words start) n)
argument_loop-words zero start count n h plain = elim h [ ]
argument_loop-words (suc fuel) start count zero h plain =
    let same : (count == (count + 0)) ≡ true = ground arith in
    elim (Option-cases (index_of b' ' start)) [
      | inl e ↦
          argument_loop-last fuel start count (count + 0) e
          ∙ rw (same, words-last start e) (ap non_empty (strip_newline-same start plain))
      | inr (k, e) ↦
          argument_loop-next fuel start count (count + 0) k e
          ∙ rw
              (
                same,
                words-next start k e,
                argument_loop-past fuel (drop (suc k) start) (count + 1) (count + 0) (omega arith),
              )
              (first_of-none (non_empty (take k start)))
    ]
argument_loop-words (suc fuel) start count (suc n) h plain =
    let other : (count == (count + suc n)) ≡ false = ground arith in
    elim (Option-cases (index_of b' ' start)) [
      | inl e ↦
          argument_loop-last fuel start count (count + suc n) e
          ∙ rw (other, words-last start e) refl
      | inr (k, e) ↦
          let further : count + suc n ≡ count + 1 + n = omega arith in
          argument_loop-next fuel start count (count + suc n) k e
          ∙ rw (other, words-next start k e, further)
              (argument_loop-words fuel (drop (suc k) start) (count + 1) n
                (omega (arith, drop-shorter k start e)) (NoNewline-drop (suc k) start plain))
    ]

index_loop-words :
    (fuel : ℕ) (start : Bytes) (count p q : ℕ)
    → length start < fuel
    → index_loop fuel start count p q ≡ find_word (is_named p q) count (words start)
unfolding index_loop
index_loop-words zero start count p q h = elim h [ ]
index_loop-words (suc fuel) start count p q h = elim (Option-cases (index_of b' ' start)) [
  | inl e ↦ rw (e, words-last start e, index_loop) refl
  | inr (k, e) ↦
      let more =
        index_loop-words fuel (drop (suc k) start) (count + 1) p q
          (omega (arith, drop-shorter k start e)) in
      rw (e, words-next start k e, more, index_loop) refl
]

abbrev pub behind : List Bytes → List Bytes
behind [] = []
behind (header ∷ rest) = rest

-- The words behind the header of a message with this body and argument offset.
unfoldable pub arguments : Bytes → ℕ → List Bytes
unfolding words
arguments body first = behind (words (drop (first - 1) body))

pub behind_space-argument :
    (text : Bytes) (n : ℕ)
    → NoNewline text
    → behind_space (λ start. argument_loop (length start + 1) start 0 n) text
      ≡ filled (word_at (behind (words text)) n)
unfolding behind_space
behind_space-argument text n plain = elim (Option-cases (index_of b' ' text)) [
  | inl e ↦ rw (e, words-last text e, behind_space) refl
  | inr (k, e) ↦
      let start = drop (suc k) text in
      rw (e, words-next text k e, behind_space)
        (ap (argument_loop (length start + 1) start 0) (let z : n ≡ 0 + n = omega arith in z)
          ∙ argument_loop-words (length start + 1) start 0 n (omega arith)
              (NoNewline-drop (suc k) text plain))
]

pub behind_space-index :
    (text : Bytes) (p q : ℕ)
    → behind_space (λ start. index_loop (length start + 1) start 0 p q) text
      ≡ find_word (is_named p q) 0 (behind (words text))
unfolding behind_space
behind_space-index text p q = elim (Option-cases (index_of b' ' text)) [
  | inl e ↦ rw (e, words-last text e, behind_space) refl
  | inr (k, e) ↦
      let start = drop (suc k) text in
      rw (e, words-next text k e, behind_space)
        (index_loop-words (length start + 1) start 0 p q (omega arith))
]
