-- ===== src/Adc/Message/Arguments/Named.antt =====
-- Removing, adding and replacing named arguments of a line.
use uhub.Prelude.{
  drop-append, ℕ, zero, suc, ◌+◌, ◌<◌, ◌≤◌, ◌≡◌, ◌≢◌, refl, ap, sym, ◌∙◌, [], ◌∷◌, ◌++◌, none, some,
  arith, length, get_or, take, drop, Bytes, All, All-append, append_assoc, Option-cases, inl, inr,
  subst,
}
use uhub.Adc.Message.{
  Option, AdcMessage, adc_msg_get_arg_offset, adc_msg_terminate, adc_msg_unterminate,
}
use uhub.Adc.Message.Build.{adc_msg_add_named_argument}
use uhub.Adc.Message.Line.{
  NoNewline, IsLine, Becomes, unterminate-Becomes, terminate-Becomes, Becomes-IsLine,
  add_named-IsLine, ends_with_newline-snoc, drop_last-snoc,
}
use uhub.Adc.Message.Arguments.{
  memmem, index_of, argument_name, remove_loop, count_named, adc_msg_has_named_argument,
  adc_msg_remove_named_argument, adc_msg_get_named_argument, remove_all,
  adc_msg_replace_named_argument, strip_newline, value_until,
}
use uhub.Adc.Message.Arguments.Search.{
  memmem-snoc, memmem-behind, remove_loop-none, count_named-zero, count_named-zero_iff,
  memmem-append,
}

drop-take-append : (o : ℕ) (xs t : Bytes) → o ≤ length xs → drop o (take o xs ++ t) ≡ t
drop-take-append zero xs t h = refl
drop-take-append (suc o) [] t h = elim h [ ]
drop-take-append (suc o) (x ∷ xs) t h = drop-take-append o xs t (omega arith)

get_or-take :
    (o : ℕ) (xs t : Bytes) → 0 < o → o ≤ length xs → get_or (take o xs ++ t) 0 0 ≡ get_or xs 0 0
get_or-take zero xs t h k = elim h [ ]
get_or-take (suc o) [] t h k = elim k [ ]
get_or-take (suc o) (x ∷ xs) t h k = refl

length-take : (o : ℕ) (xs t : Bytes) → o ≤ length xs → o ≤ length (take o xs ++ t)
length-take zero xs t h = omega arith
length-take (suc o) [] t h = elim h [ ]
length-take (suc o) (x ∷ xs) t h = omega (arith, length-take o xs t (omega arith))

NoNewline-take : (i : ℕ) (xs : Bytes) → NoNewline xs → NoNewline (take i xs)
NoNewline-take zero xs h = tt
NoNewline-take (suc i) [] h = tt
NoNewline-take (suc i) (x ∷ xs) h = (h.0, NoNewline-take i xs h.1)

pub NoNewline-drop : (i : ℕ) (xs : Bytes) → NoNewline xs → NoNewline (drop i xs)
NoNewline-drop zero xs h = h
NoNewline-drop (suc i) [] h = tt
NoNewline-drop (suc i) (x ∷ xs) h = NoNewline-drop i xs h.1

NoNewline-remove_loop :
    (fuel : ℕ) (needle tail : Bytes) (found : ℕ)
    → NoNewline tail
    → NoNewline (remove_loop fuel needle tail found).0
unfolding remove_loop
NoNewline-remove_loop zero needle tail found h = h
NoNewline-remove_loop (suc fuel) needle tail found h = elim (Option-cases (memmem needle tail)) [
  | inl e ↦ rw (e, remove_loop) h
  | inr (i, e) ↦ elim (Option-cases (index_of b' ' (drop (i + 1) tail))) [
    | inl f ↦ rw (e, f, remove_loop) (NoNewline-take i tail h)
    | inr (k, f) ↦
        rw (e, f, remove_loop)
          (NoNewline-remove_loop fuel needle _ (found + 1) (
            All-append _ (take i tail) (drop (i + 1 + k) tail) (NoNewline-take i tail h)
              (NoNewline-drop (i + 1 + k) tail h)))
  ]
]

abbrev pub NoSpace : Bytes → Type 0
NoSpace = All (λ c. c ≢ b' ')

module _ (p q : ℕ) where
  -- A line in which the argument does not occur.
  pub record Lacks (cmd : AdcMessage) (offset : ℕ) : Type 0 where
    pub body : Bytes
    pub line : IsLine cmd body offset
    pub absent : memmem (argument_name p q) (drop offset body) ≡ none

  pub Lacks-count :
      {cmd : AdcMessage} {offset : ℕ}
      → q ≢ b'\n'
      → Lacks cmd offset
      → adc_msg_has_named_argument cmd p q ≡ some 0
  unfolding adc_msg_has_named_argument
  Lacks-count {cmd} {offset} ne l =
      let tail =
        ap (drop offset) l.line.text ∙ drop-append offset l.body (b'\n' ∷ []) l.line.within in
      let none_left = memmem-snoc p q b'\n' ne (drop offset l.body) l.absent in
      rw (l.line.offset_is, adc_msg_has_named_argument)
        (ap some (
          ap (count_named (argument_name p q)) tail
          ∙ count_named-zero (argument_name p q) _ none_left))

  -- One removal runs the loop on the bytes behind the header, and leaves a line.
  pub remove-IsLine :
      (cmd : AdcMessage) (body : Bytes) (offset : ℕ)
      → IsLine cmd body offset
      → (m : AdcMessage) × (n : ℕ) × (left : Bytes) × (adc_msg_remove_named_argument cmd p q
          ≡ some (m, n))
        × IsLine m left offset
        × (drop offset left
            ≡ (remove_loop
                (length (drop offset (adc_msg_unterminate cmd).cache) + 1)
                (argument_name p q)
                (drop offset (adc_msg_unterminate cmd).cache)
                0).0)
  unfolding adc_msg_remove_named_argument
  remove-IsLine cmd body offset l =
      let bare = adc_msg_unterminate cmd in
      let u = unterminate-Becomes cmd body l.text in
      let tail = drop offset bare.cache in
      let removed = remove_loop (length tail + 1) (argument_name p q) tail 0 in
      let left = take offset body ++ removed.0 in
      let plain =
        All-append _ (take offset body) removed.0 (NoNewline-take offset body l.one_line) (
          NoNewline-remove_loop _ _ tail 0
            (NoNewline-drop offset bare.cache (subst NoNewline (sym u.text_is) l.one_line))) in
      let b : Becomes cmd left (record bare { cache = take offset bare.cache ++ removed.0 }) =
        record {
          text_is = ap (λ (s : Bytes). take offset s ++ removed.0) u.text_is;
          same_include = u.same_include;
          same_exclude = u.same_exclude;
        } in
      (
        adc_msg_terminate (record bare { cache = take offset bare.cache ++ removed.0 }),
        removed.1,
        left,
        rw (l.offset_is, adc_msg_remove_named_argument),
        Becomes-IsLine l (terminate-Becomes b plain) plain
            (length-take offset body removed.0 l.within)
            (get_or-take offset body removed.0 l.positive l.within),
        drop-take-append offset body removed.0 l.within,
      )

  -- One removal takes every occurrence away.
  pub remove-Lacks :
      (cmd : AdcMessage) (body : Bytes) (offset : ℕ)
      → IsLine cmd body offset
      → (m : AdcMessage) × (n : ℕ) × (adc_msg_remove_named_argument cmd p q ≡ some (m, n))
        × Lacks m offset
  remove-Lacks cmd body offset l =
      let (m, n, left, e, line, rest) = remove-IsLine cmd body offset l in
      (
        m,
        n,
        e,
        record {
          body = left;
          line = line;
          absent =
              ap (memmem (argument_name p q)) rest
              ∙ remove_loop-none _ (argument_name p q) _ 0 (omega arith);
        },
      )

  index_of-NoSpace : (s : Bytes) → NoSpace s → index_of b' ' (s ++ b'\n' ∷ []) ≡ none
  unfolding index_of
  index_of-NoSpace [] h = refl
  index_of-NoSpace (c ∷ s) h = ground (arith, index_of-NoSpace s h.1)

  drop-length : (s t : Bytes) (k : ℕ) → drop (length s + k) (s ++ t) ≡ drop k t
  drop-length [] t k = ap (λ n. drop n t) (omega arith)
  drop-length (c ∷ s) t k = drop-suc ∙ drop-length s t k
    where
      drop-suc : drop (suc (length s) + k) (c ∷ (s ++ t)) ≡ drop (length s + k) (s ++ t)
      drop-suc =
          ap (λ n. drop n (c ∷ (s ++ t)))
            (let e : suc (length s) + k ≡ suc (length s + k) = omega arith in e)

  length-drop : (o : ℕ) (s : Bytes) → o ≤ length s → o + length (drop o s) ≡ length s
  length-drop zero s h = omega arith
  length-drop (suc o) [] h = elim h [ ]
  length-drop (suc o) (c ∷ s) h = omega (arith, length-drop o s (omega arith))

  -- Reading a named argument that was just put behind a line without it.
  get-add :
      {cmd : AdcMessage} {offset : ℕ} (v : Bytes)
      → Lacks cmd offset
      → p ≢ b' '
      → q ≢ b' '
      → NoNewline (p ∷ q ∷ v)
      → NoSpace v
      → adc_msg_get_named_argument (adc_msg_add_named_argument cmd p q v) p q ≡ some (some v)
  unfolding adc_msg_get_named_argument
  get-add {cmd} {offset} v l hp hq h plain =
      let m = adc_msg_add_named_argument cmd p q v in
      let line = add_named-IsLine cmd l.body offset p q v l.line h in
      let text : m.cache ≡ l.body ++ (b' ' ∷ p ∷ q ∷ (v ++ b'\n' ∷ [])) =
        line.text ∙ append_assoc l.body (b' ' ∷ p ∷ q ∷ v) (b'\n' ∷ []) in
      let found : memmem (argument_name p q) (drop offset m.cache)
          ≡ some (length (drop offset l.body)) =
        ap (memmem (argument_name p q))
          (ap (drop offset) text ∙ drop-append offset l.body _ l.line.within)
        ∙ memmem-behind p q hp hq (v ++ b'\n' ∷ []) (drop offset l.body) l.absent in
      let start : drop (offset + length (drop offset l.body) + 3) m.cache ≡ v ++ b'\n' ∷ [] =
        ap (λ n. drop (n + 3) m.cache) (length-drop offset l.body l.line.within)
        ∙ ap (drop (length l.body + 3)) text
        ∙ drop-length l.body (b' ' ∷ p ∷ q ∷ (v ++ b'\n' ∷ [])) 3 in
      rw (line.offset_is, found, adc_msg_get_named_argument)
        (ap some (
          ap some
            (ap (λ (s : Bytes). strip_newline (value_until s (index_of b' ' s))) start ∙ value_of)))
    where
      value_of : strip_newline (value_until (v ++ b'\n' ∷ []) (index_of b' ' (v ++ b'\n' ∷ []))) ≡ v
      value_of = rw (index_of-NoSpace v plain, ends_with_newline-snoc v) (drop_last-snoc v b'\n')

  -- Removing a named argument from a line, the second byte of its name being no newline, leaves a
  -- line on which it counts no occurrence.
  pub adc_msg_remove_named_argument-has :
      (cmd : AdcMessage) (body : Bytes) (offset : ℕ)
      → IsLine cmd body offset
      → q ≢ b'\n'
      → (m : AdcMessage) × (n : ℕ) × (adc_msg_remove_named_argument cmd p q ≡ some (m, n))
        × (adc_msg_has_named_argument m p q ≡ some 0)
        × ((b : Bytes) × IsLine m b offset)
  adc_msg_remove_named_argument-has cmd body offset l ne =
      let (m, n, e, lacks) = remove-Lacks cmd body offset l in
      (m, n, e, Lacks-count ne lacks, (lacks.body, lacks.line))

  has-count :
      (cmd : AdcMessage) (offset : ℕ)
      → adc_msg_get_arg_offset cmd ≡ some offset
      → adc_msg_has_named_argument cmd p q
        ≡ some (count_named (argument_name p q) (drop offset cmd.cache))
  unfolding adc_msg_has_named_argument
  has-count cmd offset e = rw (e, adc_msg_has_named_argument)

  -- An argument of which no occurrence is counted is absent.
  pub count-Lacks :
      (cmd : AdcMessage) (body : Bytes) (offset : ℕ)
      → IsLine cmd body offset
      → adc_msg_has_named_argument cmd p q ≡ some 0
      → Lacks cmd offset
  count-Lacks cmd body offset l e = record {
    body = body;
    line = l;
    absent = memmem-append (argument_name p q) (drop offset body) (b'\n' ∷ []) (
        ap (memmem (argument_name p q))
          (sym (ap (drop offset) l.text ∙ drop-append offset body (b'\n' ∷ []) l.within))
        ∙ count_named-zero_iff (argument_name p q) _
            (some-number (sym (has-count cmd offset l.offset_is) ∙ e)));
  }
    where
      some-number : {m n : ℕ} → ◌≡◌ {A = Option ℕ} (some m) (some n) → m ≡ n
      some-number e = cc

  remove_all-Lacks :
      (cmd : AdcMessage) (body : Bytes) (offset : ℕ)
      → IsLine cmd body offset
      → q ≢ b'\n'
      → (m : AdcMessage) × (remove_all 2 cmd p q ≡ some m) × Lacks m offset
  unfolding remove_all
  remove_all-Lacks cmd body offset l ne = go (count_named name (drop offset cmd.cache)) refl
    where
      name : Bytes
      name = argument_name p q

      counted : adc_msg_has_named_argument cmd p q ≡ some (count_named name (drop offset cmd.cache))
      counted = has-count cmd offset l.offset_is

      go :
          (n : ℕ)
          → count_named name (drop offset cmd.cache) ≡ n
          → (m : AdcMessage) × (remove_all 2 cmd p q ≡ some m) × Lacks m offset
      go zero e = (
        cmd,
        rw (counted ∙ ap some e, remove_all),
        count-Lacks cmd body offset l (counted ∙ ap some e),
      )
      go (suc n) e =
          let (m, k, removed, lacks) = remove-Lacks cmd body offset l in
          (m, rw (counted ∙ ap some e, removed, Lacks-count ne lacks, remove_all), lacks)

  -- After a replacement the named argument of a line reads as the new value, which is again on a
  -- line, if neither the name nor the value has a space or a newline.
  pub adc_msg_replace_named_argument-get :
      (cmd : AdcMessage) (body : Bytes) (offset : ℕ) (v : Bytes)
      → IsLine cmd body offset
      → p ≢ b' '
      → q ≢ b' '
      → NoNewline (p ∷ q ∷ v)
      → NoSpace v
      → (m : AdcMessage) × (adc_msg_replace_named_argument cmd p q v ≡ some m)
        × (adc_msg_get_named_argument m p q ≡ some (some v))
        × ((b : Bytes) × IsLine m b offset)
  unfolding adc_msg_replace_named_argument
  adc_msg_replace_named_argument-get cmd body offset v l hp hq h plain =
      let (r, e, lacks) = remove_all-Lacks cmd body offset l h.1.0 in
      (
        adc_msg_add_named_argument r p q v,
        rw (e, adc_msg_replace_named_argument),
        get-add v lacks hp hq h plain,
        (_, add_named-IsLine r lacks.body offset p q v lacks.line h),
      )
