-- ===== src/Core/Inf/Update/Stripped.antt =====
-- What an update in src/core/inf.c sends on, and takes the new information from.
use uhub.Prelude.{
  ℕ, suc, zero, ◌≡◌, refl, sym, ◌∙◌, List, [], ◌∷◌, none, some, Bytes, All, Option-cases, inl, inr,
  subst, none≢some,
}
use uhub.Adc.Message.{AdcMessage}
use uhub.Adc.Message.Line.{IsLine}
use uhub.Adc.Message.Arguments.{adc_msg_has_named_argument}
use uhub.Adc.Message.Arguments.Named.{count-Lacks}
use uhub.Adc.Message.Arguments.Without.{has_named-some}
use uhub.Core.User.{HubUser}
use uhub.Core.Hub.{Hub}
use uhub.Core.Inf.Names.{
  remove_names, hub_handle_info_common, hub_handle_info_low_bandwidth, strip_network,
}
use uhub.Core.Inf.Lacking.{
  Without, push, remove_names-Without, Without-has, all_plain, all_plain-Plain,
}
use uhub.Core.Inf.Common.{low_bandwidth-Without, hub_only, hub_handle_info_common-Without}
use uhub.Core.Inf.Identity.{Outcome, passed}
use uhub.Core.Inf.Limits.Within.{check_limits-some}
use uhub.Core.Inf.Login.Checks.{failed_check, passed_check}
use uhub.Core.Inf.Update.{true, remove_nick, strip_identity, strip_update, prepare_update}

-- Taking arguments out of a message that lacks others.
take_out :
    (names gone : List (ℕ × ℕ)) (offset : ℕ) (cmd : AdcMessage)
    → all_plain names ≡ true
    → all_plain gone ≡ true
    → Without gone offset cmd
    → (m : AdcMessage) × (remove_names names cmd ≡ some m) × Without (push names gone) offset m
take_out names gone offset cmd e f w =
    remove_names-Without names gone offset cmd (all_plain-Plain names e) (all_plain-Plain gone f) w

-- The identifiers and the nick are gone.
abbrev identity : List (ℕ × ℕ)
identity = (b'N', b'I') ∷ (b'I', b'D') ∷ (b'P', b'D') ∷ hub_only

strip_identity-Without :
    (offset : ℕ) (cmd : AdcMessage)
    → Without hub_only offset cmd
    → (m : AdcMessage) × (strip_identity cmd ≡ some m) × Without identity offset m
unfolding strip_identity remove_nick
strip_identity-Without offset cmd w =
    let (m, e, v) = take_out ((b'P', b'D') ∷ (b'I', b'D') ∷ []) hub_only offset cmd refl refl w in
    let (n, f) = has_named-some m v.body offset b'N' b'I' v.line in
    let (r, g, u) = nick m v n f in (r, rw (e, strip_identity) g, u)
  where
    nick :
        (m : AdcMessage)
        → Without ((b'I', b'D') ∷ (b'P', b'D') ∷ hub_only) offset m
        → (n : ℕ) → adc_msg_has_named_argument m b'N' b'I' ≡ some n
        → (r : AdcMessage) × (remove_nick m ≡ some r) × Without identity offset r
    nick m v zero f = (
      m,
      rw (f, remove_nick) refl,
      record {
        body = v.body;
        line = v.line;
        lacks = (count-Lacks b'N' b'I' m v.body offset v.line f, v.lacks);
      },
    )
    nick m v (suc n) f =
        let (r, g, u) =
          take_out ((b'N', b'I') ∷ []) ((b'I', b'D') ∷ (b'P', b'D') ∷ hub_only) offset m refl refl
            v in
        (r, rw (f, remove_nick) g, u)

-- What an update neither sends nor takes over.
abbrev pub never_updated : List (ℕ × ℕ)
never_updated = (b'I', b'4') ∷ (b'I', b'6') ∷ identity

module _ {ℓ} {C : Type ℓ} where
  strip_update-Without :
      (hub : Hub C) (user : HubUser C) (offset : ℕ) (cmd : AdcMessage)
      → Without identity offset cmd
      → (o : Outcome C) × (strip_update hub user cmd ≡ some o) × Without never_updated offset o.cmd
  unfolding strip_update strip_network hub_handle_info_low_bandwidth
  strip_update-Without hub user offset cmd w =
      let (m, e, v) = take_out ((b'I', b'6') ∷ (b'I', b'4') ∷ []) identity offset cmd refl refl w in
      let (r, f, u) =
        low_bandwidth-Without never_updated offset hub.config.low_bandwidth_mode m refl v in
      (passed hub user r, rw (e, f, strip_update, strip_network) refl, u)

  prepare_update-Without :
      (hub : Hub C) (user : HubUser C) (offset : ℕ) (cmd : AdcMessage)
      → Without hub_only offset cmd
      → (o : Outcome C) × (prepare_update hub user cmd ≡ some o)
        × (o.failure ≡ none → Without never_updated offset o.cmd)
  unfolding prepare_update
  prepare_update-Without hub user offset cmd w =
      let (m, e, v) = strip_identity-Without offset cmd w in
      let (o, f, same, address) = check_limits-some hub user m v.body offset v.line in
      elim (Option-cases o.failure) [
        | inr (failure, z) ↦ (
          o,
          rw (e, f, prepare_update) (failed_check o strip_update failure z),
          λ y. absurd (none≢some (sym y ∙ z)),
        )
        | inl z ↦
            let (r, g, u) =
              strip_update-Without o.hub o.user offset o.cmd
                (subst (Without identity offset) (sym same) v) in
            (r, rw (e, f, prepare_update) (passed_check o strip_update z ∙ g), λ y. u)
      ]

  -- An update with a line of a message gets a verdict from the limits. Unless it is a refusal, the
  -- message that `prepare_update` makes of the update, the one that is handed to `user_update_info`
  -- and then to the other users, has no "PD", "ID", "NI", "I4" and "I6" and none of "BO", "RG",
  -- "OP", "HU", "HI", "TO" and "RF", whatever the client wrote. Nothing is said of the information
  -- that is kept of the user, which has an "ID", an "NI" and an address of its own.
  pub prepare_update-stripped :
      (hub : Hub C) (user : HubUser C) (cmd : AdcMessage) (body : Bytes) (offset : ℕ)
      → IsLine cmd body offset
      → (user' : HubUser C) × (cmd' : AdcMessage) × (o : Outcome C) × (hub_handle_info_common user
            cmd
          ≡ some (user', cmd'))
        × (prepare_update hub user' cmd' ≡ some o)
        × (o.failure ≡ none
            → All (λ n. adc_msg_has_named_argument o.cmd n.0 n.1 ≡ some 0) never_updated)
  prepare_update-stripped hub user cmd body offset l =
      let (user', m, e, same, info, state, w) =
        hub_handle_info_common-Without user cmd body offset l in
      let (o, f, kept) = prepare_update-Without hub user' offset m w in
      (
        user',
        m,
        o,
        e,
        f,
        λ z. Without-has never_updated offset o.cmd (all_plain-Plain never_updated refl) (kept z),
      )
