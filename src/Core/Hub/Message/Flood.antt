-- ===== src/Core/Hub/Message/Flood.antt =====
-- The flood check of hub_handle_message in src/core/hub.c leaves the hub alone.
use uhub.Prelude.{
  [], ◌∷◌, ℕ, ◌+◌, ◌^◌, ◌<◌, ◌≡◌, refl, sym, ap, Bool, true, false, not, ◌&&◌, Option, some, arith,
  length, Bytes, Bool-cases, inl, inr, subst,
}
use uhub.Util.Flood.{FloodControl, flood_control_check}
use uhub.Util.Credentials.{auth_cred_is_unrestricted}
use uhub.Adc.Message.{fourcc}
use uhub.Adc.Message.Build.{
  add_argument_string-positive, adc_msg_construct, adc_msg_add_argument,
  adc_msg_add_argument_string,
}
use uhub.Core.Transport.{Transport}
use uhub.Core.Queue.Stream.{IsQueue, NonEmpty}
use uhub.Core.User.{HubUser, user_flag_get, user_flag_set, flag_flood}
use uhub.Core.Route.{Limits}
use uhub.Core.Route.Delivery.{route_to_user-Delivers}
use uhub.Core.Queue.{IoqSend}
use uhub.Core.Hub.{Hub, HubConfig}
use uhub.Core.Hub.Status.{hub_send_flood_warning}
use uhub.Core.Hub.Command.{
  of_chat, of_connect, of_search, of_update, of_extras, FloodType, flood_of, set_flood, flood_limit,
  flood_text, check_flood, unless_flood,
}
use uhub.Core.Inf.Update.{Handled, handled}

-- The message that warns of a flood.
unfoldable pub flood_warning : HubConfig → FloodType → Bytes
flood_warning config kind =
    (adc_msg_add_argument_string
      (adc_msg_add_argument (adc_msg_construct (fourcc b'I' b'S' b'T' b'A') 128)
        (b'1' ∷ b'1' ∷ b'0' ∷ []))
      (flood_text config kind)).cache

pub flood_warning-NonEmpty :
    (config : HubConfig) (kind : FloodType) → NonEmpty (flood_warning config kind)
unfolding flood_warning
flood_warning-NonEmpty config kind = add_argument_string-positive _ _

module _ {C : Type 0} where
  -- The user has room for a warning of a flood.
  pub record Warnable (config : HubConfig) (user : HubUser C) : Type 0 where
    pub queue : IsQueue user.send_queue
    pub room :
        (kind : FloodType) → user.send_queue.size + length (flood_warning config kind) < 2 ^ 64

  -- A handler that leaves the hub as it is.
  abbrev pub Quiet : Hub C → Option (Handled C) → Type 0
  Quiet hub result = (r : Handled C) × (result ≡ some r) × (r.hub ≡ hub)

module _ {C : Type 0} (net : Transport C) (limits : Limits) where
  set_flood-same :
      (kind : FloodType) (control : FloodControl) (user : HubUser C)
      → ((set_flood kind control user).send_queue ≡ user.send_queue)
        × ((set_flood kind control user).state ≡ user.state)
  unfolding set_flood
  set_flood-same of_chat control user = (refl, refl)
  set_flood-same of_connect control user = (refl, refl)
  set_flood-same of_search control user = (refl, refl)
  set_flood-same of_update control user = (refl, refl)
  set_flood-same of_extras control user = (refl, refl)

  warning-some :
      (config : HubConfig) (kind : FloodType) (user : HubUser C)
      → Warnable config user
      → (u' : HubUser C) × (hub_send_flood_warning net limits user (flood_text config kind)
          ≡ some u')
  unfolding hub_send_flood_warning flood_warning
  warning-some config kind user h = elim (Bool-cases (user_flag_get user flag_flood)) [
    | inl e ↦ (user, rw (e, hub_send_flood_warning) refl)
    | inr e ↦
        let (told, f, d) =
          route_to_user-Delivers net limits user (flood_warning config kind) h.queue
            (flood_warning-NonEmpty config kind) (h.room kind) in
        (user_flag_set told flag_flood, rw (e, f, hub_send_flood_warning) refl)
  ]

  flooded : ℕ → HubConfig → FloodType → HubUser C → Bool
  flooded now config kind user =
      (flood_control_check (flood_of kind user) (flood_limit config kind) config.flood_ctl_interval
        now).1
      && not (auth_cred_is_unrestricted user.credentials)

  module _ (now : ℕ) (config : HubConfig) (kind : FloodType) (user : HubUser C) where
    counted : HubUser C
    counted =
        set_flood kind
          (flood_control_check (flood_of kind user) (flood_limit config kind)
            config.flood_ctl_interval now).0
          user

    check_flood-passed :
        (warn : Bool)
        → flooded now config kind user ≡ false
        → check_flood net limits config now kind warn user ≡ some (counted, false)
    unfolding check_flood flooded counted
    check_flood-passed warn e = rw (e, check_flood) refl

    counted-state : counted.state ≡ user.state
    unfolding counted
    counted-state = (set_flood-same kind _ user).1

    counted-Warnable : Warnable config user → Warnable config counted
    unfolding counted
    counted-Warnable h =
        let same = (set_flood-same kind _ user).0 in
        record {
          queue = subst IsQueue (sym same) h.queue;
          room = λ kind. omega (arith, h.room kind, ap (λ (q : IoqSend). q.size) same);
        }

    check_flood-dropped :
        (warn : Bool)
        → Warnable config user
        → flooded now config kind user ≡ true
        → (u : HubUser C) × (check_flood net limits config now kind warn user ≡ some (u, true))
    unfolding check_flood flooded counted
    check_flood-dropped false h e = (counted, rw (e, check_flood) refl)
    check_flood-dropped true h e =
        let (u, f) = warning-some config kind counted (counted-Warnable h) in
        (u, rw (e, f, check_flood) refl)

  module _ (now : ℕ) (kind : FloodType) (warn : Bool) (hub : Hub C) where
    -- The flood check itself is quiet, and it passes on a user in the same state.
    pub unless_flood-Quiet :
        (user : HubUser C) (next : HubUser C → Option (Handled C))
        → Warnable hub.config user
        → ((u : HubUser C) → u.state ≡ user.state → Quiet hub (next u))
        → Quiet hub (unless_flood net limits now kind warn hub user next)
    unfolding unless_flood
    unless_flood-Quiet user next h quiet = elim (Bool-cases (flooded now hub.config kind user)) [
      | inl e ↦
          let (u, f) = check_flood-dropped now hub.config kind user warn h e in
          (handled false (hub, u), rw (f, unless_flood) refl, refl)
      | inr e ↦
          let (r, f, g) =
            quiet (counted now hub.config kind user) (counted-state now hub.config kind user) in
          (r, rw (check_flood-passed now hub.config kind user warn e, unless_flood) f, g)
    ]
