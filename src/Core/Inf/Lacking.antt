-- ===== src/Core/Inf/Lacking.antt =====
-- Messages from which src/core/inf.c took arguments: they are lines still, and stay without them.
use uhub.Prelude.{
  get_or, ap, ◌∙◌, arith, Bool, true, not, ◌&&◌, ◌==◌, ℕ, ◌≡◌, ◌≢◌, refl, List, [], ◌∷◌, ◌++◌, some,
  Bytes, All,
}
use uhub.Adc.Message.{AdcMessage}
use uhub.Adc.Message.Build.{adc_msg_add_argument, adc_msg_add_named_argument}
use uhub.Adc.Message.Line.{offset_same, IsLine, NoNewline, add_named-IsLine, add_argument-IsLine}
use uhub.Adc.Message.Arguments.{adc_msg_has_named_argument, adc_msg_remove_named_argument}
use uhub.Adc.Message.Arguments.Named.{Lacks, Lacks-count, remove-Lacks, NoSpace}
use uhub.Adc.Message.Arguments.Without.{remove-keeps, grown-keeps}
use uhub.Core.Inf.Names.{remove_names}

-- A name that an argument can be searched by.
abbrev pub PlainName : ℕ × ℕ → Type 0
PlainName (p, q) = (p ≢ b' ') × (q ≢ b' ') × (q ≢ b'\n')

abbrev plain_name : ℕ × ℕ → Bool
plain_name (p, q) = not (p == b' ') && (not (q == b' ') && not (q == b'\n'))

abbrev pub all_plain : List (ℕ × ℕ) → Bool
all_plain [] = true
all_plain (n ∷ names) = plain_name n && all_plain names

pub all_plain-Plain : (names : List (ℕ × ℕ)) → all_plain names ≡ true → All PlainName names
all_plain-Plain [] e = tt
all_plain-Plain ((p, q) ∷ names) e = (ground arith, all_plain-Plain names (ground arith))

-- A line with this argument offset that holds none of the named arguments.
pub record Without (names : List (ℕ × ℕ)) (offset : ℕ) (cmd : AdcMessage) : Type 0 where
  pub body : Bytes
  pub line : IsLine cmd body offset
  pub lacks : All (λ n. Lacks n.0 n.1 cmd offset) names

keeps-All :
    (names : List (ℕ × ℕ)) (offset : ℕ) (cmd m : AdcMessage) (a b n : ℕ)
    → All PlainName names
    → adc_msg_remove_named_argument cmd a b ≡ some (m, n)
    → All (λ n. Lacks n.0 n.1 cmd offset) names
    → All (λ n. Lacks n.0 n.1 m offset) names
keeps-All [] offset cmd m a b n plain e l = tt
keeps-All ((p, q) ∷ names) offset cmd m a b n plain e l = (
  remove-keeps p q plain.0.0 plain.0.1 cmd m offset a b n l.0 e,
  keeps-All names offset cmd m a b n plain.1 e l.1,
)

-- The names of one list put before another, the last one first.
abbrev pub push : List (ℕ × ℕ) → List (ℕ × ℕ) → List (ℕ × ℕ)
push [] gone = gone
push (n ∷ names) gone = push names (n ∷ gone)

-- Taking arguments out leaves none of them, and brings none back that was absent.
pub remove_names-Without :
    (names gone : List (ℕ × ℕ)) (offset : ℕ) (cmd : AdcMessage)
    → All PlainName names
    → All PlainName gone
    → Without gone offset cmd
    → (m : AdcMessage) × (remove_names names cmd ≡ some m) × Without (push names gone) offset m
unfolding remove_names
remove_names-Without [] gone offset cmd plain rest w = (cmd, refl, w)
remove_names-Without ((p, q) ∷ names) gone offset cmd plain rest w =
    let (m, n, e, l) = remove-Lacks p q cmd w.body offset w.line in
    let (r, f, w') =
      remove_names-Without names ((p, q) ∷ gone) offset m plain.1 (plain.0, rest)
        (record {
          body = l.body;
          line = l.line;
          lacks = (l, keeps-All gone offset cmd m p q n rest e w.lacks);
        }) in
    (r, rw (e, remove_names) f, w')

push-weaken :
    (P : ℕ × ℕ → Type 0) (names gone : List (ℕ × ℕ)) → All P (push names gone) → All P gone
push-weaken P [] gone h = h
push-weaken P (n ∷ names) gone h = (push-weaken P names (n ∷ gone) h).1

pub Without-weaken :
    (names gone : List (ℕ × ℕ)) (offset : ℕ) (cmd : AdcMessage)
    → Without (push names gone) offset cmd
    → Without gone offset cmd
Without-weaken names gone offset cmd w = record {
  body = w.body;
  line = w.line;
  lacks = push-weaken _ names gone w.lacks;
}

-- Another name than each of these.
abbrev pub IsOther : ℕ → ℕ → List (ℕ × ℕ) → Type 0
IsOther a b = All (λ n. a ≡ n.0 → b ≡ n.1 → ⊥)

abbrev pub no_name : ℕ → ℕ → List (ℕ × ℕ) → Bool
no_name a b [] = true
no_name a b ((p, q) ∷ names) = not (a == p && b == q) && no_name a b names

pub no_name-IsOther :
    (a b : ℕ) (names : List (ℕ × ℕ)) → no_name a b names ≡ true → IsOther a b names
no_name-IsOther a b [] e = tt
no_name-IsOther a b ((p, q) ∷ names) e =
    ((λ f g. ground arith), no_name-IsOther a b names (ground arith))

-- An argument put behind a line keeps the absent ones absent.
pub grown-Without :
    (gone : List (ℕ × ℕ)) (offset : ℕ) (cmd m : AdcMessage) (a b : ℕ) (v : Bytes)
    → All PlainName gone
    → IsOther a b gone
    → NoSpace (a ∷ b ∷ v)
    → ((body : Bytes) → IsLine cmd body offset → IsLine m (body ++ (b' ' ∷ a ∷ b ∷ v)) offset)
    → Without gone offset cmd
    → Without gone offset m
grown-Without gone offset cmd m a b v plain other solid grows w = record {
  body = _;
  line = grows w.body w.line;
  lacks = each gone plain other w.lacks;
}
  where
    each :
        (names : List (ℕ × ℕ))
        → All PlainName names
        → IsOther a b names
        → All (λ n. Lacks n.0 n.1 cmd offset) names
        → All (λ n. Lacks n.0 n.1 m offset) names
    each [] plain other l = tt
    each ((p, q) ∷ names) plain other l = (
      grown-keeps p q plain.0.0 plain.0.1 cmd m offset a b v l.0 other.0 solid grows,
      each names plain.1 other.1 l.1,
    )

pub add_named-Without :
    (gone : List (ℕ × ℕ)) (offset : ℕ) (cmd : AdcMessage) (a b : ℕ) (v : Bytes)
    → All PlainName gone
    → IsOther a b gone
    → NoNewline (a ∷ b ∷ v)
    → NoSpace (a ∷ b ∷ v)
    → Without gone offset cmd
    → Without gone offset (adc_msg_add_named_argument cmd a b v)
add_named-Without gone offset cmd a b v plain other one_line solid w =
    grown-Without gone offset cmd _ a b v plain other solid
      (λ body l. add_named-IsLine cmd body offset a b v l one_line) w

pub add_argument-Without :
    (gone : List (ℕ × ℕ)) (offset : ℕ) (cmd : AdcMessage) (a b : ℕ) (v : Bytes)
    → All PlainName gone
    → IsOther a b gone
    → NoNewline (a ∷ b ∷ v)
    → NoSpace (a ∷ b ∷ v)
    → Without gone offset cmd
    → Without gone offset (adc_msg_add_argument cmd (a ∷ b ∷ v))
add_argument-Without gone offset cmd a b v plain other one_line solid w =
    grown-Without gone offset cmd _ a b v plain other solid
      (λ body l. add_argument-IsLine cmd body offset (a ∷ b ∷ v) l one_line) w

-- No occurrence of an absent argument is counted.
pub Without-has :
    (names : List (ℕ × ℕ)) (offset : ℕ) (cmd : AdcMessage)
    → All PlainName names
    → Without names offset cmd
    → All (λ n. adc_msg_has_named_argument cmd n.0 n.1 ≡ some 0) names
Without-has names offset cmd plain w = each names plain w.lacks
  where
    each :
        (names : List (ℕ × ℕ))
        → All PlainName names
        → All (λ n. Lacks n.0 n.1 cmd offset) names
        → All (λ n. adc_msg_has_named_argument cmd n.0 n.1 ≡ some 0) names
    each [] plain l = tt
    each ((p, q) ∷ names) plain l = (Lacks-count p q plain.0.2 l.0, each names plain.1 l.1)

-- Only the text of a message and its feature lists matter.
pub same-Without :
    (names : List (ℕ × ℕ)) (offset : ℕ) (cmd m : AdcMessage)
    → m.cache ≡ cmd.cache
    → m.feature_cast_include ≡ cmd.feature_cast_include
    → m.feature_cast_exclude ≡ cmd.feature_cast_exclude
    → Without names offset cmd
    → Without names offset m
same-Without names offset cmd m e f g w = record {
  body = w.body;
  line = same w.line;
  lacks = each names w.lacks;
}
  where
    same : {body : Bytes} → IsLine cmd body offset → IsLine m body offset
    same l = record {
      text = e ∙ l.text;
      one_line = l.one_line;
      offset_is = offset_same cmd m (ap (λ (s : Bytes). get_or s 0 0) e) f g ∙ l.offset_is;
      positive = l.positive;
      within = l.within;
    }

    each :
        (names : List (ℕ × ℕ))
        → All (λ n. Lacks n.0 n.1 cmd offset) names
        → All (λ n. Lacks n.0 n.1 m offset) names
    each [] l = tt
    each ((p, q) ∷ names) l =
        (record { body = l.0.body; line = same l.0.line; absent = l.0.absent }, each names l.1)
