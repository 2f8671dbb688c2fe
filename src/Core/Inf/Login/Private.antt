-- ===== src/Core/Inf/Login/Private.antt =====
-- What a login in src/core/inf.c leaves in the information that is kept of a user.
use uhub.Prelude.{
  ℕ, ◌≡◌, refl, ap, sym, ◌∙◌, Bool, false, List, [], ◌∷◌, Option, none, some, Bytes, All,
  Option-cases, Bool-cases, inl, inr, subst, none≢some,
}
use uhub.Adc.Message.{adc_msg_incref, AdcMessage}
use uhub.Adc.Message.Line.{IsLine}
use uhub.Adc.Message.Arguments.{adc_msg_has_named_argument}
use uhub.Core.User.Info.{user_set_info}
use uhub.Core.User.{HubUser}
use uhub.Core.Hub.{hub_registered_users_only, hub_full, Hub, StatusMessage}
use uhub.Core.Inf.Lacking.{
  Without-has, same-Without, all_plain-Plain, Without, remove_names-Without,
}
use uhub.Core.Inf.Identity.{Acl, Outcome, passed, refused}
use uhub.Core.Inf.Limits.{check_limits}
use uhub.Core.Inf.Limits.Within.{check_limits-some}
use uhub.Core.Inf.Common.{low_bandwidth-Without, hub_only, hub_handle_info_common-Without}
use uhub.Core.Inf.Login.{
  coded, is_found, hub_handle_info_common, found_credentials, set_credentials, admit_user,
  check_registered_users_only, check_is_hub_full, judge_user, user_set_info, accept_info, typed,
  client_type, inf_check, hub_handle_info_login,
}
use uhub.Core.Inf.Login.Checks.{passed_check, failed_check}
use uhub.Core.Inf.Login.Keeping.{IsSolid, NotGiven, add_type, login-Checks-Checked}

record Accepted {ℓ} {C : Type ℓ} (names : List (ℕ × ℕ)) (offset : ℕ) (result : Option (Outcome C))
    : Type ℓ where
  outcome : Outcome C
  is_some : result ≡ some outcome
  kept :
      outcome.failure ≡ none
      → (m : AdcMessage) × (outcome.user.info ≡ some m) × Without names offset m

module _ {ℓ} {C : Type ℓ} (gone : List (ℕ × ℕ)) (g : NotGiven gone) (offset : ℕ) where
  accept-Accepted :
      (hub : Hub C) (user : HubUser C) (cmd : AdcMessage)
      → Without gone offset cmd
      → Accepted gone offset (accept_info hub user cmd)
  unfolding accept_info user_set_info adc_msg_incref
  accept-Accepted hub user cmd w =
      let (m, e, v) =
        low_bandwidth-Without gone offset hub.config.low_bandwidth_mode cmd g.plain w in
      record {
        outcome = passed hub (user_set_info user m) m;
        is_some = rw (e, accept_info) refl;
        kept = λ z. (adc_msg_incref m, refl, same-Without gone offset m _ refl refl refl v);
      }

  judge-Accepted :
      (hub : Hub C) (user : HubUser C) (cmd : AdcMessage)
      → Without gone offset cmd
      → Accepted gone offset (judge_user hub user cmd)
  unfolding judge_user
  judge-Accepted hub user cmd w = elim (Bool-cases (check_is_hub_full hub user)) [
    | inl a ↦ refusal hub_full (rw (a, judge_user) refl)
    | inr a ↦ elim (Bool-cases (check_registered_users_only hub user)) [
      | inl b ↦ refusal hub_registered_users_only (rw (a, b, judge_user) refl)
      | inr b ↦ limited (rw (a, b, judge_user) refl)
    ]
  ]
    where
      refusal :
          (failure : StatusMessage)
          → judge_user hub user cmd ≡ some (refused hub user cmd failure)
          → Accepted gone offset (judge_user hub user cmd)
      refusal failure e = record {
        outcome = refused hub user cmd failure;
        is_some = e;
        kept = λ z. absurd (none≢some (sym z));
      }

      limited :
          judge_user hub user cmd ≡ inf_check (check_limits hub user cmd) accept_info
          → Accepted gone offset (judge_user hub user cmd)
      limited e =
          let (o, f, same, address) = check_limits-some hub user cmd w.body offset w.line in
          elim (Option-cases o.failure) [
            | inr (failure, z) ↦ record {
              outcome = o;
              is_some =
                  e ∙ ap (λ b. inf_check b accept_info) f ∙ failed_check o accept_info failure z;
              kept = λ y. absurd (none≢some (sym y ∙ z));
            }
            | inl z ↦
                let a =
                  accept-Accepted o.hub o.user o.cmd (subst (Without gone offset) (sym same) w) in
                record {
                  outcome = a.outcome;
                  is_some =
                      e
                      ∙ ap (λ b. inf_check b accept_info) f
                      ∙ passed_check o accept_info z
                      ∙ a.is_some;
                  kept = a.kept;
                }
          ]

no_own : NotGiven hub_only
no_own = record { plain = refl; not_ipv4 = refl; not_ipv6 = refl; not_type = refl }

no_own_pid : NotGiven ((b'P', b'D') ∷ hub_only)
no_own_pid = record { plain = refl; not_ipv4 = refl; not_ipv6 = refl; not_type = refl }

module _ {ℓ} {C : Type ℓ} where
  login-Accepted :
      (hash_pid : Bytes → Bytes) (acl : Acl) (hub : Hub C) (user : HubUser C) (cmd : AdcMessage)
      (offset : ℕ)
      → IsSolid user.address
      → Without hub_only offset cmd
      → (o : Outcome C) × (code : Bool) × (hub_handle_info_login hash_pid acl hub user cmd
          ≡ some (o, code))
        × (o.failure ≡ none
            → (m : AdcMessage) × (o.user.info ≡ some m)
              × Without ((b'P', b'D') ∷ hub_only) offset m)
  unfolding hub_handle_info_login admit_user set_credentials
  login-Accepted hash_pid acl hub user cmd offset solid w =
      let c =
        login-Checks-Checked hub_only no_own offset user.address solid hash_pid acl hub user cmd w
          refl in
      elim (Option-cases c.outcome.failure) [
        | inr (failure, e) ↦ (
          c.outcome,
          false,
          rw (c.is_some, e, hub_handle_info_login) refl,
          λ z. absurd (none≢some (sym z ∙ e)),
        )
        | inl e ↦
            let checked = c.outcome in
            let (m, f, v) =
              remove_names-Without ((b'P', b'D') ∷ []) hub_only offset checked.cmd
                (all_plain-Plain ((b'P', b'D') ∷ []) refl) (all_plain-Plain hub_only refl)
                c.without in
            let info = acl.access_info checked.user.nick in
            let known = record checked.user { credentials = found_credentials info } in
            let told = typed m (client_type (found_credentials info)) in
            let a =
              judge-Accepted ((b'P', b'D') ∷ hub_only) no_own_pid offset checked.hub known told (
                add_type ((b'P', b'D') ∷ hub_only) no_own_pid offset m (found_credentials info)
                  v) in
            (
              a.outcome,
              is_found info,
              rw (c.is_some, e, f, hub_handle_info_login) (ap (coded (is_found info)) a.is_some),
              a.kept,
            )
      ]

  -- A login with a line of a message and an address without spaces gets a verdict, and unless it is
  -- a refusal, the information that the hub then keeps of the user has no private identifier and
  -- none of the arguments "BO", "RG", "OP", "HU", "HI", "TO" and "RF", whatever the message had.
  pub hub_handle_info_login-private :
      (hash_pid : Bytes → Bytes) (acl : Acl) (hub : Hub C) (user : HubUser C) (cmd : AdcMessage)
      (body : Bytes) (offset : ℕ)
      → IsLine cmd body offset
      → IsSolid user.address
      → (user' : HubUser C) × (cmd' : AdcMessage) × (o : Outcome C) × (code : Bool)
        × (hub_handle_info_common user cmd ≡ some (user', cmd'))
        × (hub_handle_info_login hash_pid acl hub user' cmd' ≡ some (o, code))
        × (o.failure ≡ none
            → (m : AdcMessage) × (o.user.info ≡ some m)
              × All (λ n. adc_msg_has_named_argument m n.0 n.1 ≡ some 0) ((b'P', b'D') ∷ hub_only))
  hub_handle_info_login-private hash_pid acl hub user cmd body offset l solid =
      let (user', m, e, same, info, state, w) =
        hub_handle_info_common-Without user cmd body offset l in
      let (o, code, f, kept) =
        login-Accepted hash_pid acl hub user' m offset (subst IsSolid (sym same) solid) w in
      (
        user',
        m,
        o,
        code,
        e,
        f,
        λ z.
            let (info, is_info, v) = kept z in
            (
              info,
              is_info,
              Without-has ((b'P', b'D') ∷ hub_only) offset info
                  (all_plain-Plain ((b'P', b'D') ∷ hub_only) refl) v,
            ),
      )
