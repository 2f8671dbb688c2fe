-- ===== src/Adc/Message/Position/Numbered.antt =====
-- The numbers of arguments in src/adc/message.c: what they find among the words of a line.
use uhub.Prelude.{
  ℕ, zero, suc, ◌+◌, ◌-◌, ◌<◌, ◌≡◌, refl, Bool, true, false, List, [], ◌∷◌, Option, none, some,
  drop, Bytes, arith, inl, inr, Bool-cases, none≢some, subst,
}
use uhub.Adc.Message.{
  length, adc_msg_get_arg_offset, AdcMessage, adc_msg_terminate, adc_msg_unterminate,
}
use uhub.Adc.Message.Line.{IsLine, unterminate-Becomes, terminate-Becomes, Becomes-IsLine}
use uhub.Adc.Message.Arguments.Named.{NoNewline-drop}
use uhub.Adc.Message.Position.{
  argument_loop, behind_space, adc_msg_get_argument, is_named, adc_msg_get_named_argument_index,
}
use uhub.Adc.Message.Position.Words.{
  words, word_at, filled, find_word, behind, arguments, behind_space-argument, behind_space-index,
}

find_word-none :
    (test : Bytes → Bool) (n : ℕ) (list : List Bytes)
    → find_word test n list ≡ none
    → (i : ℕ) (w : Bytes) → word_at list i ≡ some w
    → test w ≡ false
find_word-none test n [] e i w f = absurd (none≢some f)
find_word-none test n (word ∷ rest) e zero w f = ground arith
find_word-none test n (word ∷ rest) e (suc i) w f =
    find_word-none test (n + 1) rest (ground arith) i w f

-- A word that is found passes the test, and those before it do not.
record FoundAt (test : Bytes → Bool) (list : List Bytes) (k : ℕ) : Type 0 where
  word : Bytes
  is_there : word_at list k ≡ some word
  passes_test : test word ≡ true
  first_one : (i : ℕ) (w : Bytes) → i < k → word_at list i ≡ some w → test w ≡ false

find_word-some :
    (test : Bytes → Bool) (n r : ℕ) (list : List Bytes)
    → find_word test n list ≡ some r
    → (k : ℕ) × (r ≡ n + k) × FoundAt test list k
find_word-some test n r [] e = absurd (none≢some e)
find_word-some test n r (word ∷ rest) e = elim (Bool-cases (test word)) [
  | inl hit ↦ (
    0,
    ground arith,
    record { word = word; is_there = refl; passes_test = hit; first_one = λ i w h f. elim h [ ] },
  )
  | inr miss ↦
      let (k, at, found) = find_word-some test (n + 1) r rest (ground arith) in
      (
        suc k,
        omega arith,
        record {
          word = found.word;
          is_there = found.is_there;
          passes_test = found.passes_test;
          first_one = λ i w h f. earlier found i w h f miss;
        },
      )
]
  where
    earlier :
        {k : ℕ}
        → FoundAt test rest k
        → (i : ℕ) (w : Bytes) → i < suc k
        → word_at (word ∷ rest) i ≡ some w
        → test word ≡ false
        → test w ≡ false
    earlier found zero w h f miss = ground arith
    earlier found (suc i) w h f miss = found.first_one i w (omega arith) f

-- What the number of a named argument says of the words.
pub Found : (Bytes → Bool) → List Bytes → Option ℕ → Type 0
Found test list none = (i : ℕ) (w : Bytes) → word_at list i ≡ some w → test w ≡ false
Found test list (some n) = FoundAt test list n

find_word-Found :
    (test : Bytes → Bool) (list : List Bytes) (i : Option ℕ)
    → find_word test 0 list ≡ i
    → Found test list i
unfolding Found
find_word-Found test list none e = find_word-none test 0 list e
find_word-Found test list (some r) e =
    let (k, at, found) = find_word-some test 0 r list e in
    subst (FoundAt test list) (let z : k ≡ r = omega arith in z) found

module _ (cmd : AdcMessage) (body : Bytes) (first : ℕ) (l : IsLine cmd body first) where
  -- On a message with a line, the argument of a number is the word of that number behind the first
  -- argument's space, and nothing if there is no such word or it is empty; the message keeps its
  -- line.
  pub adc_msg_get_argument-words :
      (n : ℕ)
      → (m : AdcMessage) × (adc_msg_get_argument cmd n
          ≡ some (m, filled (word_at (arguments body first) n)))
        × IsLine m body first
  unfolding adc_msg_get_argument arguments
  adc_msg_get_argument-words n =
      let u = unterminate-Becomes cmd body l.text in
      (
        adc_msg_terminate (adc_msg_unterminate cmd),
        rw (l.offset_is, u.text_is, adc_msg_get_argument)
            (rw
              (behind_space-argument (drop (first - 1) body) n
                (NoNewline-drop (first - 1) body l.one_line))
              refl),
        Becomes-IsLine l (terminate-Becomes u l.one_line) l.one_line l.within refl,
      )

  -- On a message with a line, the number of a named argument is that of the first word of more than
  -- two bytes that begins with the name, and it is -1 only if there is no such word; the message
  -- keeps its line.
  pub adc_msg_get_named_argument_index-Found :
      (p q : ℕ)
      → (m : AdcMessage) × (i : Option ℕ) × (adc_msg_get_named_argument_index cmd p q ≡ some (m, i))
        × Found (is_named p q) (arguments body first) i
        × IsLine m body first
  unfolding adc_msg_get_named_argument_index arguments
  adc_msg_get_named_argument_index-Found p q =
      let u = unterminate-Becomes cmd body l.text in
      let list = behind (words (drop (first - 1) body)) in
      (
        adc_msg_terminate (adc_msg_unterminate cmd),
        find_word (is_named p q) 0 list,
        rw (l.offset_is, u.text_is, adc_msg_get_named_argument_index)
            (rw (behind_space-index (drop (first - 1) body) p q) refl),
        find_word-Found (is_named p q) list _ refl,
        Becomes-IsLine l (terminate-Becomes u l.one_line) l.one_line l.within refl,
      )

-- A message with an argument offset has an answer for every number.
pub get_argument-some :
    (cmd : AdcMessage) (n offset : ℕ)
    → adc_msg_get_arg_offset cmd ≡ some offset
    → (m : AdcMessage) × (argument : Option Bytes) × (adc_msg_get_argument cmd n
        ≡ some (m, argument))
unfolding adc_msg_get_argument
get_argument-some cmd n offset e =
    let bare = adc_msg_unterminate cmd in
    (
      adc_msg_terminate bare,
      behind_space (λ start. argument_loop (length start + 1) start 0 n)
          (drop (offset - 1) bare.cache),
      rw (e, adc_msg_get_argument) refl,
    )
