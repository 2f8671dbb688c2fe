-- ===== src/Core/Hub/Login/Verified.antt =====
-- Who gets into the hub by the password message of src/core/hub.c.
use uhub.Prelude.{
  ◌≡◌, refl, sym, ◌∙◌, Bool, true, false, ◌&&◌, [], Option, none, some, Bytes, Bool-cases,
  Option-cases, inl, inr, none≢some, subst,
}
use uhub.Adc.Message.{AdcMessage}
use uhub.Adc.Message.Position.{adc_msg_get_argument}
use uhub.Core.Transport.{Transport}
use uhub.Core.Profile.{UserQuitReason, quit_logon_error}
use uhub.Core.User.States.{set_states, user_set_state-final}
use uhub.Core.Hub.{is_running}
use uhub.Core.User.{
  HubUser, UserState, state_protocol, state_identify, state_verify, state_normal, state_cleanup,
  state_disconnected, user_is_logged_in, user_is_disconnecting, user_set_state,
}
use uhub.Core.Route.{Limits}
use uhub.Core.Route.Recipients.{true≢false}
use uhub.Core.Hub.{Hub, hub_disconnect_user}
use uhub.Core.Hub.Status.{leave, on_login_failure}
use uhub.Core.Hub.Login.{awaits_password, hub_handle_password}
use uhub.Core.Inf.Update.{Handled, handled, finished}

some-eq {ℓ} : {A : Type ℓ} {a b : A} → ◌≡◌ {A = Option A} (some a) (some b) → a ≡ b
some-eq e = cc

module _ {ℓ} {C : Type ℓ} where
  cleaned-out : (user : HubUser C) → user_is_logged_in (user_set_state user state_cleanup) ≡ false
  unfolding user_is_logged_in user_set_state
  cleaned-out user = go user.state
    where
      go :
          (s : UserState)
          → user_is_logged_in (user_set_state (record user { state = s }) state_cleanup) ≡ false
      go state_protocol = refl
      go state_identify = refl
      go state_verify = refl
      go state_normal = refl
      go state_cleanup = refl
      go state_disconnected = refl

  -- Nobody is logged in after a disconnection.
  pub disconnected-out :
      (hub : Hub C) (user : HubUser C) (reason : UserQuitReason)
      → user_is_logged_in (hub_disconnect_user hub user reason).1 ≡ false
  unfolding hub_disconnect_user set_states
  disconnected-out hub user reason =
      let left =
        user_set_state (record user { connection = none; quit_reason = reason }) state_cleanup in
      let out = cleaned-out (record user { connection = none; quit_reason = reason }) in
      elim (Bool-cases (user_is_disconnecting user)) [
        | inl e ↦ rw (e) (user_set_state-final user [] e).1
        | inr e ↦ elim (Bool-cases (user_is_logged_in user && is_running hub.status)) [
          | inl n ↦ rw (e, n) out
          | inr n ↦ rw (e, n) out
        ]
      ]

module _ {ℓ} {C : Type ℓ} (net : Transport C) (limits : Limits) where
  left-out :
      (hub : Hub C) (reason : UserQuitReason) (o : Option (HubUser C)) (r : Handled C)
      → finished true (leave net limits hub reason o) ≡ some r
      → user_is_logged_in r.user ≡ false
  left-out hub reason none r e = absurd (none≢some e)
  left-out hub reason (some u) r e =
      subst (λ (h : Handled C). user_is_logged_in h.user ≡ false) (some-eq e)
        (disconnected-out hub u reason)

  module _ (verify : Hub C → HubUser C → Option Bytes → Bool) where
    -- What must have happened for a user to be let in by a message.
    pub record IsVerified (hub : Hub C) (user : HubUser C) (cmd : AdcMessage) : Type ℓ where
      pub awaited : awaits_password net limits verify user.state ≡ true
      pub message : AdcMessage
      pub password : Option Bytes
      pub given : adc_msg_get_argument cmd 0 ≡ some (message, password)
      pub verified : verify hub user password ≡ true

    -- A password message lets in a user that was not logged in only if the hub had asked this user
    -- for a password and the first argument of the message passes the verification.
    pub hub_handle_password-IsVerified :
        (hub : Hub C) (user : HubUser C) (cmd : AdcMessage) (r : Handled C)
        → user_is_logged_in user ≡ false
        → hub_handle_password net limits verify hub user cmd ≡ some r
        → user_is_logged_in r.user ≡ true
        → IsVerified hub user cmd
    unfolding hub_handle_password on_login_failure
    hub_handle_password-IsVerified hub user cmd r out e inside =
        elim (Option-cases (adc_msg_get_argument cmd 0)) [
          | inl f ↦ absurd (none≢some (simp (f, hub_handle_password) at e))
          | inr ((m, password), f) ↦
              elim (Bool-cases (awaits_password net limits verify user.state)) [
                | inr g ↦
                    absurd
                      (true≢false (sym inside ∙ kept_out (simp (f, g, hub_handle_password) at e)))
                | inl g ↦ elim (Bool-cases (verify hub user password)) [
                  | inl v ↦ record {
                    awaited = g;
                    message = m;
                    password = password;
                    given = f;
                    verified = v;
                  }
                  | inr v ↦ absurd (
                      true≢false (
                        sym inside
                        ∙ left-out hub quit_logon_error _ r
                            (simp (f, g, v, hub_handle_password, on_login_failure) at e)))
                ]
              ]
        ]
      where
        kept_out :
            ◌≡◌ {A = Option (Handled C)} (some (handled false (hub, user))) (some r)
            → user_is_logged_in r.user ≡ false
        kept_out f = subst (λ (h : Handled C). user_is_logged_in h.user ≡ false) (some-eq f) out
