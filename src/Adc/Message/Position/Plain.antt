-- ===== src/Adc/Message/Position/Plain.antt =====
-- The words of a line in src/adc/message.c: how many there are, and what is not in them.
use uhub.Prelude.{
  ℕ, zero, suc, ◌+◌, ◌-◌, ◌<◌, ◌≤◌, ◌≡◌, ◌≢◌, List, [], ◌∷◌, Option, none, some, length, drop,
  Bytes, All, arith, inl, inr, Bool-cases, none≢some, subst, ◌==◌,
}
use uhub.Adc.Message.Line.{NoNewline}
use uhub.Adc.Message.Arguments.Named.{NoSpace, NoNewline-drop}
use uhub.Adc.Message.Position.Words.{words, extend, behind, arguments, word_at, filled}

some-eq {ℓ} : {A : Type ℓ} {a b : A} → ◌≡◌ {A = Option A} (some a) (some b) → a ≡ b
some-eq e = cc

-- A word of an argument.
abbrev pub IsWord : Bytes → Type 0
IsWord w = NoSpace w × NoNewline w

length-extend : (c : ℕ) (list : List Bytes) → length (extend c list) ≤ length list + 1
length-extend c [] = omega arith
length-extend c (word ∷ rest) = omega arith

length-words : (s : Bytes) → length (words s) ≤ length s + 1
unfolding words
length-words [] = omega arith
length-words (c ∷ cs) = ground (arith, length-words cs, length-extend c (words cs))

extend-IsWord :
    (c : ℕ) (list : List Bytes)
    → c ≢ b' '
    → c ≢ b'\n'
    → All IsWord list
    → All IsWord (extend c list)
extend-IsWord c [] e f h = (((e, tt), (f, tt)), tt)
extend-IsWord c (word ∷ rest) e f h = (((e, h.0.0), (f, h.0.1)), h.1)

words-IsWord : (s : Bytes) → NoNewline s → All IsWord (words s)
unfolding words
words-IsWord [] h = ((tt, tt), tt)
words-IsWord (c ∷ cs) h = elim (Bool-cases (c == b' ')) [
  | inl e ↦ rw (e) ((tt, tt), words-IsWord cs h.1)
  | inr e ↦ rw (e) (extend-IsWord c (words cs) (ground arith) h.0 (words-IsWord cs h.1))
]

behind-All : (list : List Bytes) → All IsWord list → All IsWord (behind list)
behind-All [] h = tt
behind-All (word ∷ rest) h = h.1

length-behind : (list : List Bytes) → length (behind list) ≤ length list - 1
length-behind [] = omega arith
length-behind (word ∷ rest) = omega arith

length-drop_le : (n : ℕ) (s : Bytes) → length (drop n s) ≤ length s
length-drop_le zero s = omega arith
length-drop_le (suc n) [] = omega arith
length-drop_le (suc n) (c ∷ s) = omega (arith, length-drop_le n s)

pub length-arguments : (body : Bytes) (first : ℕ) → length (arguments body first) ≤ length body
unfolding arguments
length-arguments body first = omega (
  arith,
  length-behind (words (drop (first - 1) body)),
  length-words (drop (first - 1) body),
  length-drop_le (first - 1) body,
)

word_at-All :
    (list : List Bytes) (n : ℕ) (w : Bytes)
    → word_at list n ≡ some w
    → All IsWord list
    → (n < length list) × IsWord w
word_at-All [] n w e h = absurd (none≢some e)
word_at-All (word ∷ rest) zero w e h = (omega arith, subst IsWord (some-eq e) h.0)
word_at-All (word ∷ rest) (suc n) w e h =
    let (a, b) = word_at-All rest n w e h.1 in (omega arith, b)

filled-some : (o : Option Bytes) (w : Bytes) → filled o ≡ some w → o ≡ some w
filled-some none w e = e
filled-some (some []) w e = absurd (none≢some e)
filled-some (some (c ∷ cs)) w e = e

-- An argument that is there has a number below their count, no space and no newline.
pub argument-IsWord :
    (body : Bytes) (first n : ℕ) (w : Bytes)
    → NoNewline body
    → filled (word_at (arguments body first) n) ≡ some w
    → (n < length (arguments body first)) × IsWord w
unfolding arguments
argument-IsWord body first n w h e =
    word_at-All (arguments body first) n w (filled-some _ w e)
      (behind-All _ (words-IsWord (drop (first - 1) body) (NoNewline-drop (first - 1) body h)))
