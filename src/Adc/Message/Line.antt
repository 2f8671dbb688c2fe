-- ===== src/Adc/Message/Line.antt =====
-- A message as one line: a body with no newline in it, then the newline.
use uhub.Prelude.{
  ℕ, zero, suc, ◌+◌, ◌<◌, ◌≤◌, ◌≡◌, ◌≢◌, refl, ap, sym, ◌∙◌, true, false, [], ◌∷◌, ◌++◌, some,
  arith, length, get_or, Bytes, All, All-append, append_assoc, length-append, subst,
}
use uhub.Adc.Message.{
  AdcMessage, adc_msg_grow, adc_msg_cache_append, adc_msg_get_arg_offset, adc_msg_terminate,
  adc_msg_unterminate, ends_with_newline, drop_last,
}
use uhub.Adc.Message.Build.{adc_msg_add_argument, adc_msg_add_named_argument}

abbrev pub NoNewline : Bytes → Type 0
NoNewline = All (λ c. c ≢ b'\n')

pub record IsLine (cmd : AdcMessage) (body : Bytes) (offset : ℕ) : Type 0 where
  pub text : cmd.cache ≡ body ++ b'\n' ∷ []
  pub one_line : NoNewline body
  pub offset_is : adc_msg_get_arg_offset cmd ≡ some offset
  pub positive : 0 < offset
  pub within : offset ≤ length body

pub ends_with_newline-snoc : (s : Bytes) → ends_with_newline (s ++ b'\n' ∷ []) ≡ true
unfolding ends_with_newline
ends_with_newline-snoc [] = refl
ends_with_newline-snoc (c ∷ []) = refl
ends_with_newline-snoc (c ∷ d ∷ s) = ends_with_newline-snoc (d ∷ s)

pub drop_last-snoc : (s : Bytes) (c : ℕ) → drop_last (s ++ c ∷ []) ≡ s
drop_last-snoc [] c = refl
drop_last-snoc (a ∷ []) c = refl
drop_last-snoc (a ∷ b ∷ s) c = ap (◌∷◌ a) (drop_last-snoc (b ∷ s) c)

pub ends_with_newline-NoNewline : (s : Bytes) → NoNewline s → ends_with_newline s ≡ false
unfolding ends_with_newline
ends_with_newline-NoNewline [] h = refl
ends_with_newline-NoNewline (c ∷ []) h = ground arith
ends_with_newline-NoNewline (c ∷ d ∷ s) h = ends_with_newline-NoNewline (d ∷ s) h.1

pub get_or-append : (s t : Bytes) (i : ℕ) → i < length s → get_or (s ++ t) i 0 ≡ get_or s i 0
get_or-append [] t i h = elim h [ ]
get_or-append (c ∷ s) t zero h = refl
get_or-append (c ∷ s) t (suc i) h = get_or-append s t i (omega arith)

-- The offset depends on the first byte and the feature lists alone.
pub offset_same :
    (m n : AdcMessage)
    → get_or n.cache 0 0 ≡ get_or m.cache 0 0
    → n.feature_cast_include ≡ m.feature_cast_include
    → n.feature_cast_exclude ≡ m.feature_cast_exclude
    → adc_msg_get_arg_offset n ≡ adc_msg_get_arg_offset m
unfolding adc_msg_get_arg_offset
offset_same m n e f g = rw (e, f, g)

-- `n` is `m` with this text and the same feature lists.
pub record Becomes (m : AdcMessage) (text : Bytes) (n : AdcMessage) : Type 0 where
  pub text_is : n.cache ≡ text
  pub same_include : n.feature_cast_include ≡ m.feature_cast_include
  pub same_exclude : n.feature_cast_exclude ≡ m.feature_cast_exclude

grow_Becomes : (m : AdcMessage) (size : ℕ) → Becomes m m.cache (adc_msg_grow m size)
unfolding adc_msg_grow
grow_Becomes m size = ground arith

Becomes-text : {m n : AdcMessage} {s t : Bytes} → s ≡ t → Becomes m s n → Becomes m t n
Becomes-text {m} {n} e b = subst (λ t. Becomes m t n) e b

module _ {m n : AdcMessage} {text : Bytes} (b : Becomes m text n) where
  pub append-Becomes : (s : Bytes) → Becomes m (text ++ s) (adc_msg_cache_append n s)
  unfolding adc_msg_cache_append
  append-Becomes s =
      let g = grow_Becomes n (length n.cache + length s) in
      record {
        text_is = ap (λ (t : Bytes). t ++ s) (g.text_is ∙ b.text_is);
        same_include = g.same_include ∙ b.same_include;
        same_exclude = g.same_exclude ∙ b.same_exclude;
      }

  pub terminate-Becomes : NoNewline text → Becomes m (text ++ b'\n' ∷ []) (adc_msg_terminate n)
  unfolding adc_msg_terminate
  terminate-Becomes h =
      let open_end = ap ends_with_newline b.text_is ∙ ends_with_newline-NoNewline text h in
      rw open_end (append-Becomes (b'\n' ∷ []))

pub unterminate-Becomes :
    (m : AdcMessage) (body : Bytes)
    → m.cache ≡ body ++ b'\n' ∷ []
    → Becomes m body (adc_msg_unterminate m)
unfolding adc_msg_unterminate
unterminate-Becomes m body e =
    let ended = ap ends_with_newline e ∙ ends_with_newline-snoc body in
    rw ended (record {
      text_is = ap drop_last e ∙ drop_last-snoc body b'\n';
      same_include = refl;
      same_exclude = refl;
    })

-- A text that begins like the line's body keeps its argument offset.
pub Becomes-IsLine :
    {cmd n : AdcMessage} {body text : Bytes} {offset : ℕ}
    → IsLine cmd body offset
    → Becomes cmd (text ++ b'\n' ∷ []) n
    → NoNewline text
    → offset ≤ length text
    → get_or text 0 0 ≡ get_or body 0 0
    → IsLine n text offset
Becomes-IsLine {cmd} {n} {body} {text} l b h within same = record {
  text = b.text_is;
  one_line = h;
  offset_is =
      offset_same cmd n
        (ap (λ (s : Bytes). get_or s 0 0) b.text_is
          ∙ get_or-append text (b'\n' ∷ []) 0 (omega (arith, l.positive))
          ∙ same
          ∙ sym (get_or-append body (b'\n' ∷ []) 0 (omega (arith, l.positive, l.within)))
          ∙ ap (λ (s : Bytes). get_or s 0 0) (sym l.text))
        b.same_include b.same_exclude
      ∙ l.offset_is;
  positive = l.positive;
  within = within;
}

-- Adding a named argument to a line puts it behind the body.
pub add_named-IsLine :
    (cmd : AdcMessage) (body : Bytes) (offset p q : ℕ) (v : Bytes)
    → IsLine cmd body offset
    → NoNewline (p ∷ q ∷ v)
    → IsLine (adc_msg_add_named_argument cmd p q v) (body ++ (b' ' ∷ p ∷ q ∷ v)) offset
unfolding adc_msg_add_named_argument
add_named-IsLine cmd body offset p q v l h =
    let bare = unterminate-Becomes cmd body l.text in
    let valued = append-Becomes (append-Becomes (append-Becomes bare (b' ' ∷ [])) (p ∷ q ∷ [])) v in
    let one_line = All-append _ body (b' ' ∷ p ∷ q ∷ v) l.one_line ((λ e. omega arith), h) in
    Becomes-IsLine l (terminate-Becomes (Becomes-text joined valued) one_line) one_line
      (omega (arith, l.within, length-append body (b' ' ∷ p ∷ q ∷ v)))
      (get_or-append body _ 0 (omega (arith, l.positive, l.within)))
  where
    joined : ((body ++ b' ' ∷ []) ++ p ∷ q ∷ []) ++ v ≡ body ++ (b' ' ∷ p ∷ q ∷ v)
    joined = simp append_assoc

-- So does adding a plain argument.
pub add_argument-IsLine :
    (cmd : AdcMessage) (body : Bytes) (offset : ℕ) (v : Bytes)
    → IsLine cmd body offset
    → NoNewline v
    → IsLine (adc_msg_add_argument cmd v) (body ++ (b' ' ∷ v)) offset
unfolding adc_msg_add_argument
add_argument-IsLine cmd body offset v l h =
    let bare = unterminate-Becomes cmd body l.text in
    let valued = append-Becomes (append-Becomes bare (b' ' ∷ [])) v in
    let one_line = All-append _ body (b' ' ∷ v) l.one_line ((λ e. omega arith), h) in
    Becomes-IsLine l (terminate-Becomes (Becomes-text joined valued) one_line) one_line
      (omega (arith, l.within, length-append body (b' ' ∷ v)))
      (get_or-append body _ 0 (omega (arith, l.positive, l.within)))
  where
    joined : (body ++ b' ' ∷ []) ++ v ≡ body ++ (b' ' ∷ v)
    joined = simp append_assoc
