-- ===== src/Adc/Message/Arguments/Search.antt =====
-- The first occurrence of an argument's name, in parts of a text and behind it.
use uhub.Prelude.{
  sym, ◌==◌, true, Option, length-drop, ℕ, zero, suc, ◌+◌, ◌<◌, ◌≤◌, ◌≡◌, ◌≢◌, refl, ap, ◌∙◌, false,
  [], ◌∷◌, ◌++◌, none, some, arith, length, take, drop, Bytes, Option-cases, inl, inr, none≢some,
  length-append,
}
use uhub.Adc.Message.Arguments.{
  starts_with, memmem, index_of, argument_name, remove_loop, count_named, later,
}

-- The steps of the search for a byte.
pub index_of-miss :
    (c x : ℕ) (s : Bytes) → (x == c) ≡ false → index_of c (x ∷ s) ≡ later (index_of c s)
unfolding index_of
index_of-miss c x s e = rw e

pub index_of-hit : (c x : ℕ) (s : Bytes) → (x == c) ≡ true → index_of c (x ∷ s) ≡ some 0
unfolding index_of
index_of-hit c x s e = rw e

pub later-none : (o : Option ℕ) → later o ≡ none → o ≡ none
later-none none e = refl
later-none (some k) e = absurd (none≢some (sym e))

pub later-zero : (o : Option ℕ) → later o ≢ some 0
later-zero none e = none≢some e
later-zero (some k) e = cc

pub later-suc : (o : Option ℕ) (k : ℕ) → later o ≡ some (suc k) → o ≡ some k
later-suc none k e = absurd (none≢some e)
later-suc (some j) k e = cc

pub zero≢suc : (k : ℕ) → some 0 ≢ some (suc k)
zero≢suc k e = omega (arith, ap (λ (o : Option ℕ). get o) e)
  where
    get : Option ℕ → ℕ
    get none = 0
    get (some n) = n

starts_with-take :
    (needle hay : Bytes) (i : ℕ)
    → starts_with needle hay ≡ false
    → starts_with needle (take i hay) ≡ false
unfolding starts_with
starts_with-take [] hay i e = e
starts_with-take (n ∷ ns) hay zero e = refl
starts_with-take (n ∷ ns) [] (suc i) e = refl
starts_with-take (n ∷ ns) (h ∷ hs) (suc i) e = ground (arith, starts_with-take ns hs i)

-- What a search for `needle` at the head of a text says.
pub memmem-cons-none :
    (needle : Bytes) (h : ℕ) (hs : Bytes)
    → memmem needle (h ∷ hs) ≡ none
    → (starts_with needle (h ∷ hs) ≡ false) × (memmem needle hs ≡ none)
unfolding memmem
memmem-cons-none needle h hs e = ground arith

memmem-cons-some :
    (needle : Bytes) (h : ℕ) (hs : Bytes) (i : ℕ)
    → memmem needle (h ∷ hs) ≡ some (suc i)
    → (starts_with needle (h ∷ hs) ≡ false) × (memmem needle hs ≡ some i)
unfolding memmem
memmem-cons-some needle h hs i e = ground arith

pub memmem-miss :
    (needle : Bytes) (h : ℕ) (hs : Bytes)
    → starts_with needle (h ∷ hs) ≡ false
    → memmem needle (h ∷ hs) ≡ later (memmem needle hs)
unfolding memmem
memmem-miss needle h hs e = rw e

-- Nothing is found before the first occurrence.
pub memmem-take :
    (needle hay : Bytes) (i : ℕ) → memmem needle hay ≡ some i → memmem needle (take i hay) ≡ none
memmem-take needle hay zero e = unfold memmem in refl
memmem-take needle [] (suc i) e = unfold memmem in refl
memmem-take needle (h ∷ hs) (suc i) e =
    let (miss, rest) = memmem-cons-some needle h hs i e in
    memmem-miss needle h (take i hs) (starts_with-take needle (h ∷ hs) (suc i) miss)
    ∙ ap later (memmem-take needle hs i rest)

pub memmem-lt : (needle hay : Bytes) (i : ℕ) → memmem needle hay ≡ some i → i < length hay
unfolding memmem
memmem-lt needle [] i e = absurd (none≢some e)
memmem-lt needle (h ∷ hs) zero e = omega arith
memmem-lt needle (h ∷ hs) (suc i) e =
    omega (arith, memmem-lt needle hs i (memmem-cons-some needle h hs i e).1)

-- A byte that no occurrence ends with can be put behind a text.
module _ (p q : ℕ) (c : ℕ) (other : q ≢ c) where
  starts_with-snoc :
      (hay : Bytes)
      → starts_with (argument_name p q) hay ≡ false
      → starts_with (argument_name p q) (hay ++ c ∷ []) ≡ false
  unfolding starts_with
  starts_with-snoc [] e = ground arith
  starts_with-snoc (x ∷ []) e = ground arith
  starts_with-snoc (x ∷ y ∷ []) e = ground arith
  starts_with-snoc (x ∷ y ∷ z ∷ hay) e = ground arith

  pub memmem-snoc :
      (hay : Bytes)
      → memmem (argument_name p q) hay ≡ none
      → memmem (argument_name p q) (hay ++ c ∷ []) ≡ none
  memmem-snoc [] e = unfold memmem starts_with in ground arith
  memmem-snoc (h ∷ hs) e =
      let (miss, rest) = memmem-cons-none (argument_name p q) h hs e in
      memmem-miss (argument_name p q) h (hs ++ c ∷ []) (starts_with-snoc (h ∷ hs) miss)
      ∙ ap later (memmem-snoc hs rest)

-- The name put behind a text that does not hold it is found there.
module _ (p q : ℕ) (p_plain : p ≢ b' ') (q_plain : q ≢ b' ') (rest : Bytes) where
  pub starts_with-behind :
      (hay : Bytes)
      → hay ≢ []
      → starts_with (argument_name p q) hay ≡ false
      → starts_with (argument_name p q) (hay ++ (b' ' ∷ rest)) ≡ false
  unfolding starts_with
  starts_with-behind [] ne e = absurd (ne refl)
  starts_with-behind (x ∷ []) ne e = ground arith
  starts_with-behind (x ∷ y ∷ []) ne e = ground arith
  starts_with-behind (x ∷ y ∷ z ∷ hay) ne e = ground arith

  -- Two texts are joined at a space without an occurrence across it.
  pub memmem-joined :
      (hay : Bytes)
      → memmem (argument_name p q) hay ≡ none
      → memmem (argument_name p q) (b' ' ∷ rest) ≡ none
      → memmem (argument_name p q) (hay ++ (b' ' ∷ rest)) ≡ none
  memmem-joined [] e f = f
  memmem-joined (h ∷ hs) e f =
      let (miss, more) = memmem-cons-none (argument_name p q) h hs e in
      memmem-miss (argument_name p q) h (hs ++ (b' ' ∷ rest))
        (starts_with-behind (h ∷ hs) (λ z. cc) miss)
      ∙ ap later (memmem-joined hs more f)

module _ (p q : ℕ) (p_plain : p ≢ b' ') (q_plain : q ≢ b' ') (rest : Bytes) where
  pub memmem-behind :
      (hay : Bytes)
      → memmem (argument_name p q) hay ≡ none
      → memmem (argument_name p q) (hay ++ (b' ' ∷ p ∷ q ∷ rest)) ≡ some (length hay)
  memmem-behind [] e = unfold memmem starts_with in ground arith
  memmem-behind (h ∷ hs) e =
      let (miss, more) = memmem-cons-none (argument_name p q) h hs e in
      memmem-miss (argument_name p q) h (hs ++ (b' ' ∷ p ∷ q ∷ rest))
        (starts_with-behind p q p_plain q_plain (p ∷ q ∷ rest) (h ∷ hs) (λ z. cc) miss)
      ∙ ap later (memmem-behind hs more)

length-take-le : (i : ℕ) (xs : Bytes) → length (take i xs) ≤ i
length-take-le zero xs = omega arith
length-take-le (suc i) [] = omega arith
length-take-le (suc i) (x ∷ xs) = omega (arith, length-take-le i xs)

-- With fuel for every byte the removal loop ends by its test: no occurrence is left.
pub remove_loop-none :
    (fuel : ℕ) (needle tail : Bytes) (found : ℕ)
    → length tail < fuel
    → memmem needle (remove_loop fuel needle tail found).0 ≡ none
unfolding remove_loop
remove_loop-none zero needle tail found h = elim h [ ]
remove_loop-none (suc fuel) needle tail found h = elim (Option-cases (memmem needle tail)) [
  | inl e ↦ rw (e, remove_loop) e
  | inr (i, e) ↦ elim (Option-cases (index_of b' ' (drop (i + 1) tail))) [
    | inl f ↦ rw (e, f, remove_loop) (memmem-take needle tail i e)
    | inr (k, f) ↦
        rw (e, f, remove_loop)
          (remove_loop-none fuel needle (take i tail ++ drop (i + 1 + k) tail) (found + 1) (
            omega (
              arith,
              length-append (take i tail) (drop (i + 1 + k) tail),
              length-take-le i tail,
              length-drop (i + 1 + k) tail,
              memmem-lt needle tail i e,
            )))
  ]
]

pub count_named-zero :
    (needle tail : Bytes) → memmem needle tail ≡ none → count_named needle tail ≡ 0
unfolding count_named
count_named-zero needle tail e = rw (e, count_named)

pub count_named-zero_iff :
    (needle tail : Bytes) → count_named needle tail ≡ 0 → memmem needle tail ≡ none
unfolding count_named
count_named-zero_iff needle tail e = elim (Option-cases (memmem needle tail)) [
  | inl f ↦ f
  | inr (i, f) ↦ absurd (omega (arith, rw (f, count_named) at e))
]

starts_with-append :
    (needle hay rest : Bytes)
    → starts_with needle (hay ++ rest) ≡ false
    → starts_with needle hay ≡ false
unfolding starts_with
starts_with-append [] hay rest e = e
starts_with-append (n ∷ ns) [] rest e = refl
starts_with-append (n ∷ ns) (h ∷ hs) rest e = ground (arith, starts_with-append ns hs rest)

-- What a text does not hold, its beginnings do not hold.
pub memmem-append :
    (needle hay rest : Bytes) → memmem needle (hay ++ rest) ≡ none → memmem needle hay ≡ none
memmem-append needle [] rest e = unfold memmem in refl
memmem-append needle (h ∷ hs) rest e =
    let (miss, more) = memmem-cons-none needle h (hs ++ rest) e in
    memmem-miss needle h hs (starts_with-append needle (h ∷ hs) rest miss)
    ∙ ap later (memmem-append needle hs rest more)
