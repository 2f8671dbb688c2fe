-- ===== src/Core/User/Kept.antt =====
-- The update of a user's information in src/core/user.c takes every argument of a message in.
use uhub.Prelude.{
  ℕ, zero, suc, ◌+◌, ◌<◌, ◌≤◌, ◌≡◌, refl, ap, ◌∙◌, [], ◌∷◌, some, length, length-append, get_or,
  ltb, Bytes, arith, inl, inr, Option-cases, Bool-cases,
}
use uhub.Adc.Message.{AdcMessage, adc_msg_copy, adc_msg_grow}
use uhub.Adc.Message.Line.{IsLine, offset_same}
use uhub.Adc.Message.Arguments.Named.{adc_msg_replace_named_argument-get}
use uhub.Adc.Message.Position.Words.{arguments, word_at, filled}
use uhub.Adc.Message.Position.Numbered.{adc_msg_get_argument-words}
use uhub.Adc.Message.Position.Plain.{IsWord, length-arguments, argument-IsWord}
use uhub.Core.User.{HubUser}
use uhub.Core.User.Info.{replace_with, update_loop, user_update_info, release_info, user_set_info}

-- A message that is a line, with the argument offset kept.
abbrev pub OnLine : ℕ → AdcMessage → Type 0
OnLine offset m = (body : Bytes) × IsLine m body offset

replace_with-OnLine :
    (info : AdcMessage) (offset : ℕ) (argument : Bytes)
    → OnLine offset info
    → IsWord argument
    → (m : AdcMessage) × (replace_with info argument ≡ some m) × OnLine offset m
unfolding replace_with
replace_with-OnLine info offset [] l w = (info, refl, l)
replace_with-OnLine info offset (p ∷ []) l w = (info, refl, l)
replace_with-OnLine info offset (p ∷ q ∷ value) l w =
    let (m, e, got, line) =
      adc_msg_replace_named_argument-get p q info l.0 offset value l.1 w.0.0 w.0.1.0 w.1 w.0.1.1 in
    (m, e, line)

-- The fuel of one more than the arguments that are left is enough.
update_loop-OnLine :
    (fuel : ℕ) (cmd : AdcMessage) (body : Bytes) (first n : ℕ) (info : AdcMessage) (offset : ℕ)
    → IsLine cmd body first
    → OnLine offset info
    → n ≤ length (arguments body first)
    → length (arguments body first) < n + fuel
    → (cmd' info' : AdcMessage) × (update_loop fuel cmd n info ≡ some (cmd', info'))
      × IsLine cmd' body first
      × OnLine offset info'
unfolding update_loop
update_loop-OnLine zero cmd body first n info offset l i low room = absurd (omega arith)
update_loop-OnLine (suc fuel) cmd body first n info offset l i low room =
    let (m, e, line) = adc_msg_get_argument-words cmd body first l n in
    elim (Option-cases (filled (word_at (arguments body first) n))) [
      | inl f ↦ (m, info, rw (e, f, update_loop) refl, line, i)
      | inr (argument, f) ↦
          let (small, word) = argument-IsWord body first n argument line.one_line f in
          let (info', g, i') = replace_with-OnLine info offset argument i word in
          let (cmd', last, h, line', i'') =
            update_loop-OnLine fuel m body first (n + 1) info' offset line i' (omega arith)
              (omega arith) in
          (cmd', last, rw (e, f, g, update_loop) h, line', i'')
    ]

alike-OnLine :
    (cmd m : AdcMessage) (offset : ℕ)
    → m.cache ≡ cmd.cache
    → m.feature_cast_include ≡ cmd.feature_cast_include
    → m.feature_cast_exclude ≡ cmd.feature_cast_exclude
    → OnLine offset cmd
    → OnLine offset m
alike-OnLine cmd m offset e f g (body, l) = (
  body,
  record {
    text = e ∙ l.text;
    one_line = l.one_line;
    offset_is = offset_same cmd m (ap (λ (s : Bytes). get_or s 0 0) e) f g ∙ l.offset_is;
    positive = l.positive;
    within = l.within;
  },
)

grow-OnLine :
    (m : AdcMessage) (size offset : ℕ) → OnLine offset m → OnLine offset (adc_msg_grow m size)
unfolding adc_msg_grow
grow-OnLine m size offset h = elim (Bool-cases (ltb size m.capacity)) [
  | inl e ↦ rw (e, adc_msg_grow) h
  | inr e ↦ rw (e, adc_msg_grow) (alike-OnLine m _ offset refl refl refl h)
]

pub copy-OnLine :
    (cmd : AdcMessage) (offset : ℕ) → OnLine offset cmd → OnLine offset (adc_msg_copy cmd)
unfolding adc_msg_copy
copy-OnLine cmd offset h =
    grow-OnLine (record cmd { capacity = 0; references = 1 }) (length cmd.cache) offset
      (alike-OnLine cmd (record cmd { capacity = 0; references = 1 }) offset refl refl refl h)

module _ {ℓ} {C : Type ℓ} where
  -- An update with a message that is a line ends, for a user whose information is one, and leaves
  -- both so: the message as it was, the information with its argument offset.
  pub user_update_info-OnLine :
      (user : HubUser C) (old cmd : AdcMessage) (body : Bytes) (first offset : ℕ)
      → user.info ≡ some old
      → OnLine offset old
      → IsLine cmd body first
      → (cmd' info' : AdcMessage) × (user_update_info user cmd
          ≡ some (release_info (user_set_info user info'), cmd'))
        × IsLine cmd' body first
        × OnLine offset info'
  unfolding user_update_info
  user_update_info-OnLine user old cmd body first offset e i l =
      let (cmd', info', f, line, kept) =
        update_loop-OnLine (length cmd.cache + 1) cmd body first 0 (adc_msg_copy old) offset l
          (copy-OnLine old offset i) (omega arith)
          (omega (
            arith,
            length-arguments body first,
            ap length l.text,
            length-append body (b'\n' ∷ []),
          )) in
      (cmd', info', rw (e, f, user_update_info) refl, line, kept)
