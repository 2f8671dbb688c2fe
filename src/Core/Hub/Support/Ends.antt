-- ===== src/Core/Hub/Support/Ends.antt =====
-- The loop over the features of a client in src/core/hub.c ends, at the first empty argument or at
-- the end of the line.
use uhub.Prelude.{
  ℕ, zero, suc, ◌+◌, ◌<◌, ◌≤◌, ◌≡◌, refl, ap, Bool, true, [], ◌∷◌, none, some, length,
  length-append, Bytes, arith, inl, inr, Option-cases, Bool-cases, ◌==◌, ==_iff, subst, sym,
}
use uhub.Adc.Message.{AdcMessage}
use uhub.Adc.Message.Line.{IsLine}
use uhub.Adc.Message.Position.Words.{arguments, word_at, filled}
use uhub.Adc.Message.Position.Numbered.{adc_msg_get_argument-words}
use uhub.Adc.Message.Position.Plain.{length-arguments, argument-IsWord}
use uhub.Core.User.{HubUser}
use uhub.Core.Hub.Support.{support_loop, support_argument, and_so_far}

-- How many arguments are read: all from the first number on are there, and the last is not.
pub record ReadTo (body : Bytes) (first from index : ℕ) : Type 0 where
  pub read :
      (i : ℕ)
      → from ≤ i
      → i < index
      → (w : Bytes) × (filled (word_at (arguments body first) i) ≡ some w)
  pub last : filled (word_at (arguments body first) index) ≡ none
  pub onward : from ≤ index

read_one :
    (body : Bytes) (first n index : ℕ) (argument : Bytes)
    → filled (word_at (arguments body first) n) ≡ some argument
    → ReadTo body first (n + 1) index
    → ReadTo body first n index
read_one body first n index argument f to = record {
  read = λ i a b. elim (Bool-cases (i == n)) [
    | inl e ↦ (
      argument,
      subst (λ k. filled (word_at (arguments body first) k) ≡ some argument)
          (sym ((==_iff i n).0 e)) f,
    )
    | inr e ↦ to.read i (ground arith) b
  ];
  last = to.last;
  onward = omega (arith, to.onward);
}

module _ {ℓ} {C : Type ℓ} (body : Bytes) (first : ℕ) where
  support_loop-ReadTo :
      (fuel : ℕ) (cmd : AdcMessage) (n : ℕ) (user : HubUser C) (ok : Bool)
      → IsLine cmd body first
      → n ≤ length (arguments body first)
      → length (arguments body first) < n + fuel
      → (user' : HubUser C) × (ok' : Bool) × (index : ℕ) × (support_loop fuel cmd n (user, ok)
          ≡ some (user', ok', index))
        × ReadTo body first n index
  unfolding support_loop
  support_loop-ReadTo zero cmd n user ok l low room = absurd (omega arith)
  support_loop-ReadTo (suc fuel) cmd n user ok l low room =
      let (m, e, line) = adc_msg_get_argument-words cmd body first l n in
      elim (Option-cases (filled (word_at (arguments body first) n))) [
        | inl f ↦ (
          user,
          ok,
          n,
          rw (e, f, support_loop) refl,
          record { read = λ i a b. absurd (omega arith); last = f; onward = omega arith },
        )
        | inr (argument, f) ↦
            let (small, word) = argument-IsWord body first n argument line.one_line f in
            let next = and_so_far ok (support_argument user argument) in
            let (user', ok', index, g, to) =
              support_loop-ReadTo fuel m (n + 1) next.0 next.1 line (omega arith) (omega arith) in
            (
              user',
              ok',
              index,
              rw (e, f, support_loop) g,
              read_one body first n index argument f to,
            )
      ]

  -- On a message that is a line the loop of hub_handle_support ends with its fuel.
  pub hub_handle_support-ReadTo :
      (cmd : AdcMessage) (user : HubUser C)
      → IsLine cmd body first
      → (user' : HubUser C) × (ok : Bool) × (index : ℕ) × (support_loop
            (length cmd.cache + 1)
            cmd
            0
            (user, true)
          ≡ some (user', ok, index))
        × ReadTo body first 0 index
  hub_handle_support-ReadTo cmd user l =
      support_loop-ReadTo (length cmd.cache + 1) cmd 0 user true l (omega arith) (
        omega
          (arith, length-arguments body first, ap length l.text, length-append body (b'\n' ∷ [])))
