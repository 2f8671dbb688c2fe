-- ===== src/Util/Utf8/Grammar.antt =====
-- Well-formed UTF-8 as a grammar, after table 3-7 of the Unicode standard, and the loop against it.
use uhub.Prelude.{
  ℕ, zero, suc, ◌<◌, ◌≤◌, ◌≡◌, ◌↔◌, refl, true, false, not, ◌&&◌, ◌||◌, [], ◌∷◌, arith, ltb, leb,
  if◌then◌else◌, Bytes, All, length, get_or, Bool-cases, inl, inr, ◌∙◌, ◌⊎◌, lt→ltb, tests, subst,
  ap, ltb→lt,
}
use native.Mathlib.Decide.{ℕ_discrete}
use uhub.Util.Utf8.{out_of_range, valid_from, is_valid_utf8_str}
use uhub.Util.Utf8.Tables.{is_continuation, is_ascii, announced, count_expect-announced}

abbrev pub Between : ℕ → ℕ → ℕ → Type 0
Between lo c hi = (lo ≤ c) × (c ≤ hi)

-- The second byte of a sequence of three and of four bytes.
pub data Second3 (c d : ℕ) : Type 0 where
  after_e0 : c ≡ 0xE0 → Between 0xA0 d 0xBF → Second3 c d
  after_ed : c ≡ 0xED → Between 0x80 d 0x9F → Second3 c d
  after_other : Between 0xE1 c 0xEF → (c ≡ 0xED → ⊥) → Between 0x80 d 0xBF → Second3 c d

pub data Second4 (c d : ℕ) : Type 0 where
  after_f0 : c ≡ 0xF0 → Between 0x90 d 0xBF → Second4 c d
  after_f4 : c ≡ 0xF4 → Between 0x80 d 0x8F → Second4 c d
  after_other : Between 0xF1 c 0xF3 → Between 0x80 d 0xBF → Second4 c d

pub data Utf8 : Bytes → Type 0 where
  done : Utf8 []
  one : {c : ℕ} {cs : Bytes} → c < 0x80 → Utf8 cs → Utf8 (c ∷ cs)
  two :
      {c d : ℕ} {cs : Bytes}
      → Between 0xC2 c 0xDF
      → Between 0x80 d 0xBF
      → Utf8 cs
      → Utf8 (c ∷ d ∷ cs)
  three :
      {c d e : ℕ} {cs : Bytes} → Second3 c d → Between 0x80 e 0xBF → Utf8 cs → Utf8 (c ∷ d ∷ e ∷ cs)
  four :
      {c d e f : ℕ} {cs : Bytes}
      → Second4 c d
      → Between 0x80 e 0xBF
      → Between 0x80 f 0xBF
      → Utf8 cs
      → Utf8 (c ∷ d ∷ e ∷ f ∷ cs)

abbrev IsByte : ℕ → Type 0
IsByte c = c < 256

step_continuation :
    (n c : ℕ) (cs : Bytes)
    → c < 256
    → valid_from (suc n) (c ∷ cs) ≡ (if leb 0x80 c && leb c 0xBF then valid_from n cs else false)
unfolding valid_from
step_continuation n c cs h = rw (is_continuation c h)

step_ascii : (c : ℕ) (cs : Bytes) → c < 0x80 → valid_from 0 (c ∷ cs) ≡ valid_from 0 cs
unfolding valid_from
step_ascii c cs h = rw (is_ascii c (omega arith), lt→ltb c 0x80 h)

step_lead :
    (c : ℕ) (cs : Bytes)
    → c < 256
    → ltb c 0x80 ≡ false
    → valid_from 0 (c ∷ cs) ≡ (
        if not (ltb c 0xF8) || ltb (length cs) (announced c).0
        then false
        else if out_of_range (announced c).0 c (get_or cs 0 0)
        then false
        else valid_from (announced c).0 cs)
unfolding valid_from
step_lead c cs h hi =
    let (e, clear) = count_expect-announced c h hi in rw (is_ascii c h, hi, e, clear)

lead_false :
    (c : ℕ) (cs : Bytes)
    → c < 256
    → ltb c 0x80 ≡ false
    → (c < 0xC2) ⊎ (0xF4 < c)
    → valid_from 0 (c ∷ cs) ≡ false
unfolding out_of_range
lead_false c cs h hi k = rw (step_lead c cs h hi) (ground arith)

-- A due continuation byte is there and in range.
record Tail (n : ℕ) (cs : Bytes) : Type 0 where
  byte : ℕ
  rest : Bytes
  splits : cs ≡ byte ∷ rest
  in_range : Between 0x80 byte 0xBF
  bytes : All IsByte rest
  goes_on : valid_from n rest ≡ true

tail :
    (n : ℕ) (cs : Bytes) → All IsByte cs → n < length cs → valid_from (suc n) cs ≡ true → Tail n cs
tail n [] b h v = elim h [ ]
tail n (d ∷ cs) b h v =
    let w = rw (step_continuation n d cs b.0) at v in
    record {
      byte = d;
      rest = cs;
      splits = refl;
      in_range = ground arith;
      bytes = b.1;
      goes_on = ground arith;
    }

-- What a passed lead byte says of itself and of what follows.
record Led (c : ℕ) (cs : Bytes) : Type 0 where
  lower : 0xC2 ≤ c
  upper : c ≤ 0xF4
  enough : (announced c).0 ≤ length cs
  allowed : out_of_range (announced c).0 c (get_or cs 0 0) ≡ false
  goes_on : valid_from (announced c).0 cs ≡ true

led : (c : ℕ) (cs : Bytes) → c < 256 → ltb c 0x80 ≡ false → valid_from 0 (c ∷ cs) ≡ true → Led c cs
unfolding out_of_range
led c cs h hi v =
    let w = rw (step_lead c cs h hi) at v in
    record {
      lower = ground arith;
      upper = ground arith;
      enough = ground arith;
      allowed = ground arith;
      goes_on = ground arith;
    }

second3 :
    (c d : ℕ) → 0xE0 ≤ c → c < 0xF0 → Between 0x80 d 0xBF → out_of_range 2 c d ≡ false → Second3 c d
unfolding out_of_range
second3 c d lo hi b r = elim (ℕ_discrete c 0xE0) [
  | yes p ↦ after_e0 p (ground arith)
  | no p ↦ elim (ℕ_discrete c 0xED) [
    | yes q ↦ after_ed q (ground arith)
    | no q ↦ after_other (omega arith) q b
  ]
]

second4 :
    (c d : ℕ) → 0xF0 ≤ c → c ≤ 0xF4 → Between 0x80 d 0xBF → out_of_range 3 c d ≡ false → Second4 c d
unfolding out_of_range
second4 c d lo hi b r = elim (ℕ_discrete c 0xF0) [
  | yes p ↦ after_f0 p (ground arith)
  | no p ↦ elim (ℕ_discrete c 0xF4) [
    | yes q ↦ after_f4 q (ground arith)
    | no q ↦ after_other (omega arith) b
  ]
]

module _ (k : ℕ)
    (ih : (r : Bytes) → length r ≤ k → All IsByte r → valid_from 0 r ≡ true → Utf8 r) where
  sound_two :
      (c : ℕ) (cs : Bytes) → length cs ≤ k → All IsByte cs → Led c cs → c < 0xE0 → Utf8 (c ∷ cs)
  sound_two c cs s b l h =
      let e : (announced c).0 ≡ 1 = ground (arith, l.lower) in
      let t =
        tail 0 cs b (omega (arith, l.enough)) (subst (λ n. valid_from n cs ≡ true) e l.goes_on) in
      rw t.splits (
        two (omega (arith, l.lower)) t.in_range
          (ih t.rest (omega (arith, ap length t.splits)) t.bytes t.goes_on))

  sound_three :
      (c : ℕ) (cs : Bytes)
      → length cs ≤ k
      → All IsByte cs
      → Led c cs
      → 0xE0 ≤ c
      → c < 0xF0
      → Utf8 (c ∷ cs)
  unfolding out_of_range
  sound_three c cs s b l lo hi =
      let e : (announced c).0 ≡ 2 = ground arith in
      let t =
        tail 1 cs b (omega (arith, l.enough)) (subst (λ n. valid_from n cs ≡ true) e l.goes_on) in
      let u = tail 0 t.rest t.bytes (omega (arith, l.enough, ap length t.splits)) t.goes_on in
      let refused = subst (λ n. out_of_range n c (get_or cs 0 0) ≡ false) e l.allowed in
      let second = ap (λ (r : Bytes). get_or r 0 0) t.splits in
      rw (t.splits, u.splits)
        (three
          (second3 c t.byte lo hi t.in_range
            (subst (λ d. out_of_range 2 c d ≡ false) second refused))
          u.in_range
          (ih u.rest (omega (arith, ap length t.splits, ap length u.splits)) u.bytes u.goes_on))

  sound_four :
      (c : ℕ) (cs : Bytes) → length cs ≤ k → All IsByte cs → Led c cs → 0xF0 ≤ c → Utf8 (c ∷ cs)
  unfolding out_of_range
  sound_four c cs s b l lo =
      let e : (announced c).0 ≡ 3 = ground arith in
      let t =
        tail 2 cs b (omega (arith, l.enough)) (subst (λ n. valid_from n cs ≡ true) e l.goes_on) in
      let u = tail 1 t.rest t.bytes (omega (arith, l.enough, ap length t.splits)) t.goes_on in
      let w =
        tail 0 u.rest u.bytes (omega (arith, l.enough, ap length t.splits, ap length u.splits))
          u.goes_on in
      let refused = subst (λ n. out_of_range n c (get_or cs 0 0) ≡ false) e l.allowed in
      let second = ap (λ (r : Bytes). get_or r 0 0) t.splits in
      rw (t.splits, u.splits, w.splits)
        (four
          (second4 c t.byte lo l.upper t.in_range
            (subst (λ d. out_of_range 3 c d ≡ false) second refused))
          u.in_range w.in_range
          (ih w.rest (omega (arith, ap length t.splits, ap length u.splits, ap length w.splits))
            w.bytes w.goes_on))

  sound-Led : (c : ℕ) (cs : Bytes) → length cs ≤ k → All IsByte cs → Led c cs → Utf8 (c ∷ cs)
  sound-Led c cs s b l = elim (Bool-cases (ltb c 0xE0)) [
    | inl h ↦ sound_two c cs s b l (omega tests)
    | inr h ↦ elim (Bool-cases (ltb c 0xF0)) [
      | inl k ↦ sound_three c cs s b l (ground arith) (omega tests)
      | inr k ↦ sound_four c cs s b l (ground arith)
    ]
  ]

sound_below : (k : ℕ) (s : Bytes) → length s ≤ k → All IsByte s → valid_from 0 s ≡ true → Utf8 s
sound_below k [] h b v = done
sound_below zero (c ∷ cs) h b v = absurd (omega arith)
sound_below (suc k) (c ∷ cs) h b v = elim (Bool-cases (ltb c 0x80)) [
  | inl lo ↦
      let low : c < 0x80 = ltb→lt c 0x80 lo in
      one low (sound_below k cs (omega arith) b.1 (rw (step_ascii c cs low) at v))
  | inr hi ↦ sound-Led k (λ r l. sound_below k r l) c cs (omega arith) b.1 (led c cs b.0 hi v)
]

step_in_range :
    (n d : ℕ) (cs : Bytes) → Between 0x80 d 0xBF → valid_from (suc n) (d ∷ cs) ≡ valid_from n cs
step_in_range n d cs b = step_continuation n d cs (omega arith) ∙ ground arith

step_past_lead :
    (c : ℕ) (cs : Bytes)
    → 0xC2 ≤ c
    → c ≤ 0xF4
    → (announced c).0 ≤ length cs
    → out_of_range (announced c).0 c (get_or cs 0 0) ≡ false
    → valid_from 0 (c ∷ cs) ≡ valid_from (announced c).0 cs
step_past_lead c cs lo hi len ok = step_lead c cs (omega arith) (ground arith) ∙ ground arith

allowed3 :
    (c d : ℕ)
    → Second3 c d
    → Between 0xE0 c 0xEF × Between 0x80 d 0xBF × (out_of_range 2 c d ≡ false)
unfolding out_of_range
allowed3 c d (after_e0 e b) = ground arith
allowed3 c d (after_ed e b) = ground arith
allowed3 c d (after_other r n b) = ground arith

allowed4 :
    (c d : ℕ)
    → Second4 c d
    → Between 0xF0 c 0xF4 × Between 0x80 d 0xBF × (out_of_range 3 c d ≡ false)
unfolding out_of_range
allowed4 c d (after_f0 e b) = ground arith
allowed4 c d (after_f4 e b) = ground arith
allowed4 c d (after_other r b) = ground arith

complete : {s : Bytes} → Utf8 s → valid_from 0 s ≡ true
complete done = unfold valid_from in refl
complete (one {c} {cs} h t) = step_ascii c cs h ∙ complete t
complete (two {c} {d} {cs} h k t) =
    let e : announced c ≡ (1, 0x20) = ground arith in
    step_past_lead c (d ∷ cs) (omega arith) (omega arith) (rw e (omega arith))
      (rw e (unfold out_of_range in ground arith))
    ∙ rw e (step_in_range 0 d cs k ∙ complete t)
complete (three {c} {d} {e} {cs} h k t) =
    let (r, s, a) = allowed3 c d h in
    let p : announced c ≡ (2, 0x10) = ground arith in
    step_past_lead c (d ∷ e ∷ cs) (omega arith) (omega arith) (rw p (omega arith)) (rw p a)
    ∙ rw p (step_in_range 1 d (e ∷ cs) s ∙ step_in_range 0 e cs k ∙ complete t)
complete (four {c} {d} {e} {f} {cs} h k l t) =
    let (r, s, a) = allowed4 c d h in
    let p : announced c ≡ (3, 0x08) = ground arith in
    step_past_lead c (d ∷ e ∷ f ∷ cs) (omega arith) (omega arith) (rw p (omega arith)) (rw p a)
    ∙ rw p (
        step_in_range 2 d (e ∷ f ∷ cs) s
        ∙ step_in_range 1 e (f ∷ cs) k
        ∙ step_in_range 0 f cs l
        ∙ complete t)

-- Over bytes, the loop accepts exactly the well-formed sequences of the Unicode standard.
pub is_valid_utf8_str-Utf8 : (s : Bytes) → All IsByte s → (is_valid_utf8_str s ≡ true) ↔ Utf8 s
unfolding is_valid_utf8_str
is_valid_utf8_str-Utf8 s b = (sound_below (length s) s (omega arith) b, complete)
