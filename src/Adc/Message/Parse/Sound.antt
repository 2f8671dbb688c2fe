-- ===== src/Adc/Message/Parse/Sound.antt =====
-- What holds of every message that the parser lets through.
use uhub.Prelude.{
  ℕ, ◌<◌, ◌≤◌, ◌≡◌, ◌⊎◌, ◌↔◌, ◌&&◌, inl, inr, refl, ap, sym, ◌∙◌, Bool, true, false, not, ◌||◌, [],
  ◌∷◌, ◌++◌, Option, none, some, arith, ltb, ◌==◌, if◌then◌else◌, length, get_or, Bytes, Bool-cases,
  subst, none≢some, ltb-false→le,
}
use uhub.Util.Utf8.{is_printable_utf8}
use uhub.Util.Credentials.{auth_cred_is_unrestricted}
use uhub.Adc.Escape.{msg_check_escapes}
use uhub.Adc.Message.{AdcMessage, zeroed, adc_msg_grow, adc_msg_get_arg_offset, ends_with_newline}
use uhub.Adc.Message.Build.{adc_msg_grow-roomy, adc_msg_grow-same}
use uhub.Adc.Message.Parse.{
  extract_sid, parse_header, parse_source, parse_target, parse_features, and_then,
  check_termination, parse_buffer, adc_msg_parse, Sender, adc_msg_parse_verify, may_send,
}

-- Where the message says that it comes from.
abbrev pub Origin : Bytes → AdcMessage → Type 0
Origin line m =
    (((get_or line 0 0 ≡ b'I') ⊎ (get_or line 0 0 ≡ b'H')) × (m.source ≡ 0) × (m.target ≡ 0))
    ⊎ ((((get_or line 0 0 ≡ b'B') ⊎ (get_or line 0 0 ≡ b'F'))
          × (m.target ≡ 0)
          × (extract_sid line 4 ≡ some m.source))
        ⊎ (((get_or line 0 0 ≡ b'D') ⊎ (get_or line 0 0 ≡ b'E'))
            × (extract_sid line 4 ≡ some m.source)
            × (extract_sid line 9 ≡ some m.target)))

-- What a step of the header leaves alone.
abbrev Keeps : AdcMessage → AdcMessage → Type 0
Keeps c m =
    (m.cache ≡ c.cache)
    × (m.capacity ≡ c.capacity)
    × (m.references ≡ c.references)
    × (m.cmd ≡ c.cmd)

parse_source-Keeps :
    (line : Bytes) (c m : AdcMessage)
    → parse_source line c ≡ some m
    → Keeps c m × (m.target ≡ c.target) × (extract_sid line 4 ≡ some m.source)
unfolding parse_source
parse_source-Keeps line c m e = ground arith

parse_target-Keeps :
    (line : Bytes) (c m : AdcMessage)
    → parse_target line c ≡ some m
    → Keeps c m × (m.source ≡ c.source) × (extract_sid line 9 ≡ some m.target)
unfolding parse_target
parse_target-Keeps line c m e = ground arith

parse_features-Keeps :
    (line : Bytes) (c m : AdcMessage)
    → parse_features line c ≡ some m
    → Keeps c m × (m.source ≡ c.source) × (m.target ≡ c.target)
unfolding parse_features
parse_features-Keeps line c m e = ground arith

and_then-eq-some :
    (o : Option AdcMessage) (f : AdcMessage → Option AdcMessage) {m : AdcMessage}
    → and_then o f ≡ some m
    → (c : AdcMessage) × (o ≡ some c) × (f c ≡ some m)
and_then-eq-some none f e = cc
and_then-eq-some (some c) f e = (c, refl, e)

grow_zeroed : (size : ℕ) → (adc_msg_grow zeroed size).source ≡ 0
grow_zeroed size = (adc_msg_grow-same zeroed size).0

grow_zeroed_target : (size : ℕ) → (adc_msg_grow zeroed size).target ≡ 0
grow_zeroed_target size = (adc_msg_grow-same zeroed size).1

record Header (line : Bytes) (c m : AdcMessage) : Type 0 where
  keeps : Keeps c m
  origin : c.source ≡ 0 → c.target ≡ 0 → Origin line m

parse_header-Header :
    (line : Bytes) (c m : AdcMessage) → parse_header line c ≡ some m → Header line c m
unfolding parse_header
parse_header-Header line c m e =
    elim (Bool-cases (get_or line 0 0 == b'I' || get_or line 0 0 == b'H')) [
      | inl p ↦ record { keeps = ground arith; origin = λ s t. ground arith }
      | inr p ↦ elim (Bool-cases (get_or line 0 0 == b'B')) [
        | inl q ↦
            let h = parse_source-Keeps line c m (rw (p, q) at e) in
            record { keeps = h.0; origin = λ s t. ground arith }
        | inr q ↦ elim (Bool-cases (get_or line 0 0 == b'F')) [
          | inl r ↦
              let (d, e₁, e₂) = and_then-eq-some _ _ (rw (p, q, r) at e) in
              let h = parse_source-Keeps line c d e₁ in
              let k = parse_features-Keeps line d m e₂ in
              record { keeps = ground arith; origin = λ s t. ground arith }
          | inr r ↦ elim (Bool-cases (get_or line 0 0 == b'D' || get_or line 0 0 == b'E')) [
            | inl u ↦
                let (d, e₁, e₂) = and_then-eq-some _ _ (rw (p, q, r, u) at e) in
                let h = parse_source-Keeps line c d e₁ in
                let k = parse_target-Keeps line d m e₂ in
                record { keeps = ground arith; origin = λ s t. ground arith }
            | inr u ↦ absurd (none≢some (rw (p, q, r, u) at e))
          ]
        ]
      ]
    ]

-- The argument offset lies in the line, at a space or at the newline.
abbrev pub AtArguments : Bytes → AdcMessage → Type 0
AtArguments line m =
    (n : ℕ) × (adc_msg_get_arg_offset m ≡ some n)
    × (n < length line)
    × ((get_or m.cache n 0 ≡ b' ') ⊎ (get_or m.cache n 0 ≡ b'\n'))

at_arguments :
    (line : Bytes) (c m : AdcMessage) (o : Option ℕ)
    → adc_msg_get_arg_offset c ≡ o
    → check_termination line c ≡ some m
    → (m ≡ c) × AtArguments line c
unfolding check_termination
at_arguments line c m none h e = absurd (none≢some (rw (h, check_termination) at e))
at_arguments line c m (some n) h e =
    let k = rw (h, check_termination) at e in (ground arith, (n, h, ground arith, ground arith))

pub record IsParsed (line : Bytes) (m : AdcMessage) : Type 0 where
  pub long_enough : 4 ≤ length line
  pub text : m.cache ≡ (if ends_with_newline line then line else line ++ b'\n' ∷ [])
  pub roomy : length m.cache < m.capacity
  pub one_reference : m.references ≡ 1
  pub printable : is_printable_utf8 line ≡ true
  pub escaped : msg_check_escapes line ≡ true
  pub origin : Origin line m
  pub arguments : AtArguments line m

gates :
    (line : Bytes) (m : AdcMessage)
    → adc_msg_parse line ≡ some m
    → (and_then (parse_header line (parse_buffer line)) (check_termination line) ≡ some m)
      × (4 ≤ length line)
      × (is_printable_utf8 line ≡ true)
      × (msg_check_escapes line ≡ true)
unfolding adc_msg_parse
gates line m e = elim (Bool-cases (ltb (length line) 4)) [
  | inl short ↦ absurd (none≢some (rw (short, adc_msg_parse) at e))
  | inr long ↦ elim (Bool-cases (is_printable_utf8 line)) [
    | inr p ↦ absurd (none≢some (rw (long, p, adc_msg_parse) at e))
    | inl p ↦ elim (Bool-cases (msg_check_escapes line)) [
      | inr q ↦ absurd (none≢some (rw (long, p, q, adc_msg_parse) at e))
      | inl q ↦ (rw (long, p, q, adc_msg_parse) at e, ltb-false→le _ _ long, p, q)
    ]
  ]
]

buffer_fresh :
    (line : Bytes)
    → ((parse_buffer line).source ≡ 0)
      × ((parse_buffer line).target ≡ 0)
      × ((parse_buffer line).references ≡ 1)
      × ((parse_buffer line).cache ≡ (if ends_with_newline line then line else line ++ b'\n' ∷ []))
unfolding parse_buffer
buffer_fresh line = (grow_zeroed _, grow_zeroed_target _, refl, refl)

buffer_roomy : (line : Bytes) → length (parse_buffer line).cache < (parse_buffer line).capacity
unfolding parse_buffer
buffer_roomy line = adc_msg_grow-roomy zeroed _

-- A message that the parser accepts holds the line with its newline, in a buffer with room for the
-- NUL, and one reference. The line has at least four bytes, is printable UTF-8 with valid escapes
-- only, its prefix decides which session identifiers were read from it, and the arguments of the
-- message start within the line, at a space or at the newline.
pub adc_msg_parse-IsParsed :
    (line : Bytes) (m : AdcMessage) → adc_msg_parse line ≡ some m → IsParsed line m
unfolding adc_msg_parse
adc_msg_parse-IsParsed line m e =
    let (passed, long, printable, escaped) = gates line m e in
    let (c, e₁, e₂) = and_then-eq-some _ _ passed in
    let h = parse_header-Header line (parse_buffer line) c e₁ in
    let (same, args) = at_arguments line c m (adc_msg_get_arg_offset c) refl e₂ in
    subst (IsParsed line) (sym same) (record {
      long_enough = long;
      text = h.keeps.0 ∙ (buffer_fresh line).3;
      roomy = omega (arith, ap length h.keeps.0, h.keeps.1, buffer_roomy line);
      one_reference = h.keeps.2 ∙ (buffer_fresh line).2;
      printable = printable;
      escaped = escaped;
      origin = h.origin (buffer_fresh line).0 (buffer_fresh line).1;
      arguments = args;
    })

abbrev pub IsEntitled : Option Sender → ℕ → Type 0
IsEntitled u source =
    (source ≡ 0)
    ⊎ ((s : Sender) × (u ≡ some s)
        × ((source ≡ s.sid) ⊎ (auth_cred_is_unrestricted s.credentials ≡ true)))

may_send-IsEntitled :
    (u : Option Sender) (source : ℕ)
    → ((not (source == 0) && not (may_send u source)) ≡ false) ↔ IsEntitled u source
may_send-IsEntitled none source = (
  λ e. inl (ground arith),
  λ k. elim k [ inl z ↦ ground arith | inr (s, e, _) ↦ absurd (none≢some e) ],
)
may_send-IsEntitled (some s) source = (to, from)
  where
    to :
        ((not (source == 0) && not (may_send (some s) source)) ≡ false) → IsEntitled (some s) source
    to e = elim (Bool-cases (source == 0)) [
      | inl z ↦ inl (ground arith)
      | inr n ↦ inr (s, refl, ground arith)
    ]

    from :
        IsEntitled (some s) source → (not (source == 0) && not (may_send (some s) source)) ≡ false
    from (inl z) = ground arith
    from (inr (r, e, k)) = ground arith

if-none-some :
    (b : Bool) (c : AdcMessage) {m : AdcMessage}
    → (if b then none else some c) ≡ some m
    → (b ≡ false) × (c ≡ m)
if-none-some true c e = absurd (none≢some e)
if-none-some false c e = (refl, cc)

-- The verified parser accepts exactly those parsed messages whose source is 0, or the sender's
-- identifier, or any at all if the sender's credentials are unrestricted. Source 0 is that of a
-- message without a source, and also that of one under the identifier AAAA, which is the hub's: it
-- is accepted from every sender.
pub adc_msg_parse_verify-IsEntitled :
    (u : Option Sender) (line : Bytes) (m : AdcMessage)
    → (adc_msg_parse_verify u line ≡ some m)
      ↔ ((adc_msg_parse line ≡ some m) × IsEntitled u m.source)
unfolding adc_msg_parse_verify
adc_msg_parse_verify-IsEntitled u line m = (
  λ e.
      let (c, parsed, passed) = and_then-eq-some (adc_msg_parse line) _ e in
      let (good, same) = if-none-some (not (c.source == 0) && not (may_send u c.source)) c passed in
      (
        parsed ∙ ap some same,
        subst (λ (d : AdcMessage). IsEntitled u d.source) same
            ((may_send-IsEntitled u c.source).0 good),
      ),
  λ (parsed, entitled). rw (parsed, and_then, (may_send-IsEntitled u m.source).1 entitled),
)
