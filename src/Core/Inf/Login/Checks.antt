-- ===== src/Core/Inf/Login/Checks.antt =====
-- The login checks of src/core/inf.c on a message from which arguments were taken.
use uhub.Prelude.{
  ℕ, suc, zero, ◌≡◌, refl, ap, sym, ◌∙◌, List, Option, none, some, Bytes, arith, Option-cases, inl,
  inr, subst,
}
use uhub.Adc.Message.{AdcMessage}
use uhub.Adc.Message.Line.{IsLine}
use uhub.Adc.Message.Arguments.Without.{get_named-some, has_named-some}
use uhub.Core.User.{HubUser}
use uhub.Core.Hub.{
  Hub, StatusMessage, cid_missing, cid_invalid, pid_missing, pid_invalid, nick_missing,
  nick_multiple,
}
use uhub.Core.Inf.Lacking.{Without}
use uhub.Core.Inf.Identity.{
  Acl, Outcome, passed, check_required_login_flags, check_cid, check_nick, check_acl, cid_outcome,
  nick_outcome, judged, user_agent_of, or_else, exactly_one,
}
use uhub.Core.Inf.Presence.{check_user_agent, check_logged_in, check_ghost}
use uhub.Core.Inf.Login.{required, inf_check}

module _ {ℓ} {C : Type ℓ} where
  pub failed_check :
      (o : Outcome C) (next : Hub C → HubUser C → AdcMessage → Option (Outcome C))
      (failure : StatusMessage)
      → o.failure ≡ some failure
      → inf_check (some o) next ≡ some o
  failed_check o next failure e = simp e

  pub passed_check :
      (o : Outcome C) (next : Hub C → HubUser C → AdcMessage → Option (Outcome C))
      → o.failure ≡ none
      → inf_check (some o) next ≡ next o.hub o.user o.cmd
  passed_check o next e = simp e

  cid_same :
      (hash_pid : Bytes → Bytes) (hub : Hub C) (user : HubUser C) (cmd : AdcMessage)
      (cid pid : Option Bytes)
      → ((cid_outcome hash_pid hub user cmd cid pid).cmd ≡ cmd)
        × ((cid_outcome hash_pid hub user cmd cid pid).user.address ≡ user.address)
  unfolding cid_outcome
  cid_same hash_pid hub user cmd none pid = (refl, refl)
  cid_same hash_pid hub user cmd (some cid) none = (refl, refl)
  cid_same hash_pid hub user cmd (some cid) (some pid) = ground arith

  nick_same :
      (hub : Hub C) (user : HubUser C) (cmd : AdcMessage) (nick : Option Bytes)
      → ((nick_outcome hub user cmd nick).cmd ≡ cmd)
        × ((nick_outcome hub user cmd nick).user.address ≡ user.address)
  unfolding nick_outcome
  nick_same hub user cmd none = (refl, refl)
  nick_same hub user cmd (some nick) = ground arith

  logged_in_same :
      (hub : Hub C) (user : HubUser C) (cmd : AdcMessage)
      → ((check_logged_in hub user cmd).cmd ≡ cmd)
        × ((check_logged_in hub user cmd).user.address ≡ user.address)
  unfolding check_logged_in check_ghost
  logged_in_same hub user cmd = ground arith

required_flags-some :
    (cmd : AdcMessage) (body : Bytes) (offset : ℕ)
    → IsLine cmd body offset
    → (m : Option StatusMessage) × (check_required_login_flags cmd ≡ some m)
unfolding check_required_login_flags
required_flags-some cmd body offset l =
    let (id, e) = has_named-some cmd body offset b'I' b'D' l in
    let (pd, f) = has_named-some cmd body offset b'P' b'D' l in
    let (ni, g) = has_named-some cmd body offset b'N' b'I' l in
    rw (e, f, g, check_required_login_flags) (go id pd ni)
  where
    go :
        (a b c : ℕ)
        → (m : Option StatusMessage) × (or_else (exactly_one (some a) cid_missing cid_invalid) (
              or_else
                (exactly_one (some b) pid_missing pid_invalid)
                (exactly_one (some c) nick_missing nick_multiple))
            ≡ some m)
    go zero b c = (_, refl)
    go (suc (suc a)) b c = (_, refl)
    go (suc zero) zero c = (_, refl)
    go (suc zero) (suc (suc b)) c = (_, refl)
    go (suc zero) (suc zero) zero = (_, refl)
    go (suc zero) (suc zero) (suc zero) = (_, refl)
    go (suc zero) (suc zero) (suc (suc c)) = (_, refl)

module _ {ℓ} (C : Type ℓ) (gone : List (ℕ × ℕ)) (offset : ℕ) (address : Bytes) where
  -- A check has a result, in which the message is a line without these arguments and the user has
  -- this address.
  pub record Checked (result : Option (Outcome C)) : Type ℓ where
    pub outcome : Outcome C
    pub is_some : result ≡ some outcome
    pub without : Without gone offset outcome.cmd
    pub same_address : outcome.user.address ≡ address

  abbrev pub Checks : (Hub C → HubUser C → AdcMessage → Option (Outcome C)) → Type ℓ
  Checks check =
      (hub : Hub C) (user : HubUser C) (cmd : AdcMessage)
      → Without gone offset cmd
      → user.address ≡ address
      → Checked (check hub user cmd)

  pub inf_check-Checked :
      (before : Option (Outcome C)) (next : Hub C → HubUser C → AdcMessage → Option (Outcome C))
      → Checked before
      → Checks next
      → Checked (inf_check before next)
  inf_check-Checked before next c n = elim (Option-cases c.outcome.failure) [
    | inl e ↦
        let after = n c.outcome.hub c.outcome.user c.outcome.cmd c.without c.same_address in
        record {
          outcome = after.outcome;
          is_some = rw (c.is_some, e) after.is_some;
          without = after.without;
          same_address = after.same_address;
        }
    | inr (failure, e) ↦ record {
      outcome = c.outcome;
      is_some = ap (λ b. inf_check b next) c.is_some ∙ failed_check c.outcome next failure e;
      without = c.without;
      same_address = c.same_address;
    }
  ]

  -- A check that leaves the message and the address alone.
  pub unchanged :
      (user : HubUser C) (cmd : AdcMessage) (o : Outcome C) (result : Option (Outcome C))
      → Without gone offset cmd
      → user.address ≡ address
      → result ≡ some o
      → o.cmd ≡ cmd
      → o.user.address ≡ user.address
      → Checked result
  unchanged user cmd o result w same e f g = record {
    outcome = o;
    is_some = e;
    without = subst (Without gone offset) (sym f) w;
    same_address = g ∙ same;
  }

  pub required-Checked :
      (hub : Hub C) (user : HubUser C) (cmd : AdcMessage)
      → Without gone offset cmd
      → user.address ≡ address
      → Checked (required hub user cmd)
  unfolding required
  required-Checked hub user cmd w same =
      let (m, e) = required_flags-some cmd w.body offset w.line in
      unchanged user cmd (judged hub user cmd m) _ w same (rw (e, required) refl) refl refl

  pub cid-Checks : (hash_pid : Bytes → Bytes) → Checks (check_cid hash_pid)
  unfolding check_cid
  cid-Checks hash_pid hub user cmd w same =
      let (cid, e) = get_named-some cmd w.body offset b'I' b'D' w.line in
      let (pid, f) = get_named-some cmd w.body offset b'P' b'D' w.line in
      let (g, h) = cid_same hash_pid hub user cmd cid pid in
      unchanged user cmd (cid_outcome hash_pid hub user cmd cid pid) _ w same
        (rw (e, f, check_cid) refl) g h

  pub nick-Checks : Checks check_nick
  unfolding check_nick
  nick-Checks hub user cmd w same =
      let (nick, e) = get_named-some cmd w.body offset b'N' b'I' w.line in
      let (g, h) = nick_same hub user cmd nick in
      unchanged user cmd (nick_outcome hub user cmd nick) _ w same (rw (e, check_nick) refl) g h

  pub agent-Checks : Checks check_user_agent
  unfolding check_user_agent
  agent-Checks hub user cmd w same =
      let (name, e) = get_named-some cmd w.body offset b'A' b'P' w.line in
      let (version, f) = get_named-some cmd w.body offset b'V' b'E' w.line in
      unchanged user cmd (passed hub (record user { user_agent = user_agent_of name version }) cmd)
        _ w same (rw (e, f, check_user_agent) refl) refl refl

  pub acl-Checks :
      (acl : Acl) → Checks (λ hub user cmd. some (judged hub user cmd (check_acl acl user)))
  acl-Checks acl hub user cmd w same = unchanged user cmd _ _ w same refl refl refl

  pub logged_in-Checks : Checks (λ hub user cmd. some (check_logged_in hub user cmd))
  logged_in-Checks hub user cmd w same =
      let (g, h) = logged_in_same hub user cmd in unchanged user cmd _ _ w same refl g h
