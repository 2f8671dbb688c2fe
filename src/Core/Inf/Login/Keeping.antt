-- ===== src/Core/Inf/Login/Keeping.antt =====
-- The steps of a login in src/core/inf.c that change the message: they bring in no argument but
-- those that the hub gives.
use uhub.Prelude.{
  ◌<◌, ℕ, ◌≡◌, ◌≢◌, refl, sym, true, List, [], ◌∷◌, Option, some, Bytes, arith, Bool-cases, inl,
  inr, subst,
}
use uhub.Adc.Message.{AdcMessage}
use uhub.Adc.Message.Line.{NoNewline}
use uhub.Adc.Message.Arguments.Named.{NoSpace}
use uhub.Adc.Message.Arguments.Without.{get_named-some}
use uhub.Core.User.{flag_nat, user_flag_set, HubUser}
use uhub.Core.Hub.{Hub}
use uhub.Core.Inf.Lacking.{
  no_name-IsOther, all_plain-Plain, no_name, all_plain, Without, remove_names-Without,
  Without-weaken, add_named-Without, add_argument-Without,
}
use uhub.Core.Inf.Identity.{Acl, Outcome, passed}
use uhub.Core.Inf.Presence.{contains, check_network, correct_address, overrides}
use uhub.Core.Inf.Names.{remove_names}
use uhub.Core.Inf.Login.{typed, AuthCredentials, client_type, inf_check, hub_perform_login_checks}
use uhub.Adc.Message.Build.{adc_msg_add_argument, adc_msg_add_named_argument}
use uhub.Core.Inf.Login.Checks.{
  Checked, Checks, inf_check-Checked, required-Checked, cid-Checks, nick-Checks, agent-Checks,
  acl-Checks, logged_in-Checks,
}

-- An address that can be put into a message.
pub record IsSolid (address : Bytes) : Type 0 where
  pub no_space : NoSpace address
  pub one_line : NoNewline address

-- Names that the hub does not give arguments of its own.
pub record NotGiven (names : List (ℕ × ℕ)) : Type 0 where
  pub plain : all_plain names ≡ true
  pub not_ipv4 : no_name b'I' b'4' names ≡ true
  pub not_ipv6 : no_name b'I' b'6' names ≡ true
  pub not_type : no_name b'C' b'T' names ≡ true

module _ (gone : List (ℕ × ℕ)) (g : NotGiven gone) (offset : ℕ) where
  -- Taking arguments out, whatever they are.
  pub drop_names :
      (names : List (ℕ × ℕ)) (cmd : AdcMessage)
      → all_plain names ≡ true
      → Without gone offset cmd
      → (m : AdcMessage) × (remove_names names cmd ≡ some m) × Without gone offset m
  drop_names names cmd e w =
      let (m, f, w') =
        remove_names-Without names gone offset cmd (all_plain-Plain names e)
          (all_plain-Plain gone g.plain) w in
      (m, f, Without-weaken names gone offset m w')

  add_address :
      (cmd : AdcMessage) (q : ℕ) (address : Bytes)
      → no_name b'I' q gone ≡ true
      → q ≢ b' '
      → q ≢ b'\n'
      → IsSolid address
      → Without gone offset cmd
      → Without gone offset (adc_msg_add_named_argument cmd b'I' q address)
  add_address cmd q address e a b solid w =
      add_named-Without gone offset cmd b'I' q address (all_plain-Plain gone g.plain)
        (no_name-IsOther b'I' q gone e) ((λ z. omega arith), (b, solid.one_line))
        ((λ z. omega arith), (a, solid.no_space)) w

  correct_address-Without :
      (address : Bytes) (cmd : AdcMessage)
      → IsSolid address
      → Without gone offset cmd
      → (m : AdcMessage) × (correct_address address cmd ≡ some m) × Without gone offset m
  unfolding correct_address
  correct_address-Without address cmd solid w =
      let (m4, e4, w4) = drop_names ((b'I', b'6') ∷ (b'U', b'6') ∷ (b'I', b'4') ∷ []) cmd refl w in
      let (m6, e6, w6) = drop_names ((b'I', b'4') ∷ (b'U', b'4') ∷ (b'I', b'6') ∷ []) cmd refl w in
      elim (Bool-cases (contains b'.' address)) [
        | inl a ↦ (
          adc_msg_add_named_argument m4 b'I' b'4' address,
          rw (a, e4) refl,
          add_address m4 b'4' address g.not_ipv4 (λ z. omega arith) (λ z. omega arith) solid w4,
        )
        | inr a ↦ elim (Bool-cases (contains b':' address)) [
          | inl b ↦ (
            adc_msg_add_named_argument m6 b'I' b'6' address,
            rw (a, b, e6) refl,
            add_address m6 b'6' address g.not_ipv6 (λ z. omega arith) (λ z. omega arith) solid w6,
          )
          | inr b ↦ (cmd, rw (a, b) refl, w)
        ]
      ]

  pub add_type :
      (cmd : AdcMessage) (credentials : AuthCredentials)
      → Without gone offset cmd
      → Without gone offset (typed cmd (client_type credentials))
  unfolding client_type
  add_type cmd credentials w = go credentials
    where
      with_type :
          (v : Bytes)
          → NoNewline v
          → NoSpace v
          → Without gone offset (adc_msg_add_argument cmd (b'C' ∷ b'T' ∷ v))
      with_type v a b =
          add_argument-Without gone offset cmd b'C' b'T' v (all_plain-Plain gone g.plain)
            (no_name-IsOther b'C' b'T' gone g.not_type)
            ((λ z. omega arith), ((λ z. omega arith), a))
            ((λ z. omega arith), ((λ z. omega arith), b)) w

      digit : (c : ℕ) → 40 < c → NoNewline (c ∷ []) × NoSpace (c ∷ [])
      digit c h = (((λ z. omega arith), tt), ((λ z. omega arith), tt))

      digits : (c d : ℕ) → 40 < c → 40 < d → NoNewline (c ∷ d ∷ []) × NoSpace (c ∷ d ∷ [])
      digits c d h k = (
        ((λ z. omega arith), ((λ z. omega arith), tt)),
        ((λ z. omega arith), ((λ z. omega arith), tt)),
      )

      one : (c : ℕ) → 40 < c → Without gone offset (adc_msg_add_argument cmd (b'C' ∷ b'T' ∷ c ∷ []))
      one c h = with_type (c ∷ []) (digit c h).0 (digit c h).1

      two :
          (c d : ℕ)
          → 40 < c
          → 40 < d
          → Without gone offset (adc_msg_add_argument cmd (b'C' ∷ b'T' ∷ c ∷ d ∷ []))
      two c d h k = with_type (c ∷ d ∷ []) (digits c d h k).0 (digits c d h k).1

      go : (c : AuthCredentials) → Without gone offset (typed cmd (client_type c))
      go AuthCredentials.cred_none = w
      go AuthCredentials.guest = w
      go AuthCredentials.user = one b'2' (omega arith)
      go AuthCredentials.bot = one b'1' (omega arith)
      go AuthCredentials.ubot = one b'1' (omega arith)
      go AuthCredentials.operator = one b'4' (omega arith)
      go AuthCredentials.opbot = one b'5' (omega arith)
      go AuthCredentials.opubot = one b'5' (omega arith)
      go AuthCredentials.super = two b'1' b'2' (omega arith) (omega arith)
      go AuthCredentials.link = w
      go AuthCredentials.admin = two b'2' b'0' (omega arith) (omega arith)

  module _ {ℓ} {C : Type ℓ} (address : Bytes) (solid : IsSolid address) where
    network-Checks : (acl : Acl) → Checks C gone offset address (check_network acl)
    unfolding check_network user_flag_set
    network-Checks acl hub user cmd w same =
        let (given, e) = get_named-some cmd w.body offset b'I' b'4' w.line in
        let (m, f, v) = drop_names ((b'I', b'6') ∷ (b'U', b'6') ∷ []) cmd refl w in
        let (n, k, u) =
          correct_address-Without user.address cmd (subst IsSolid (sym same) solid) w in
        elim (Bool-cases (overrides acl user.address given)) [
          | inl a ↦ record {
            outcome = passed hub (user_flag_set user flag_nat) m;
            is_some = rw (e, a, f, check_network) refl;
            without = v;
            same_address = same;
          }
          | inr a ↦ record {
            outcome = passed hub user n;
            is_some = rw (e, a, k, check_network) refl;
            without = u;
            same_address = same;
          }
        ]

    pub login-Checks-Checked :
        (hash_pid : Bytes → Bytes) (acl : Acl)
        → Checks C gone offset address (hub_perform_login_checks hash_pid acl)
    unfolding hub_perform_login_checks
    login-Checks-Checked hash_pid acl hub user cmd w same =
        after
          (after
            (after
              (after
                (after
                  (after (required-Checked C gone offset address hub user cmd w same)
                    (cid-Checks C gone offset address hash_pid))
                  (nick-Checks C gone offset address))
                (network-Checks acl))
              (agent-Checks C gone offset address))
            (acl-Checks C gone offset address acl))
          (logged_in-Checks C gone offset address)
      where
        after :
            {before : Option (Outcome C)}
            → {next : Hub C → HubUser C → AdcMessage → Option (Outcome C)}
            → Checked C gone offset address before
            → Checks C gone offset address next
            → Checked C gone offset address (inf_check before next)
        after {before} {next} b n = inf_check-Checked C gone offset address before next b n
