-- ===== src/Core/Hub/Login/Sent.antt =====
-- What a login sends, in src/core/hubevent.c and src/core/route.c: the information of the users that
-- are there, and the new user's own to them. It changes nobody's names.
use uhub.Prelude.{
  ℕ, ◌≡◌, ap, Bool, List, [], ◌∷◌, some, inl, inr, Bool-cases, Option-cases, none≢some, subst,
  if◌then◌else◌,
}
use uhub.Core.Transport.{Transport}
use uhub.Core.User.{HubUser, user_is_logged_in}
use uhub.Core.Route.{Limits, Table, Users, route_to_user, route_to_all}
use uhub.Core.Route.Identity.{SameIdentity, identity_refl, identity_trans, route_to_user-Same}
use uhub.Core.UserManager.{send_infos}
use uhub.Core.UserManager.Maps.{some-eq}
use uhub.Core.UserManager.Routed.{SameNames, for_each-SameNames}
use uhub.Core.Hub.Login.{route_info_message, nat_message, user_is_nat_override}

module _ {ℓ} {C : Type ℓ} (net : Transport C) (limits : Limits) where
  pub send_infos-Same :
      (table : Table C) (list : List ℕ) (target target' : HubUser C) (all : Bool)
      → send_infos net limits table list target ≡ some (target', all)
      → SameIdentity target target'
  unfolding send_infos
  send_infos-Same table [] target target' all e =
      subst (SameIdentity target) (ap (λ (p : HubUser C × Bool). p.0) (some-eq e))
        (identity_refl target)
  send_infos-Same table (sid ∷ rest) target target' all e = elim (Option-cases (table sid)) [
    | inl f ↦ absurd (none≢some (simp (f, send_infos) at e))
    | inr (user, f) ↦ elim (Bool-cases (user_is_logged_in user)) [
      | inr g ↦ send_infos-Same table rest target target' all (simp (f, g, send_infos) at e)
      | inl g ↦ elim (Option-cases target.connection) [
        | inl h ↦
            subst (SameIdentity target)
              (ap (λ (p : HubUser C × Bool). p.0) (some-eq (simp (f, g, h, send_infos) at e)))
              (identity_refl target)
        | inr (con, h) ↦ elim (Option-cases user.info) [
          | inl i ↦ absurd (none≢some (simp (f, g, h, i, send_infos) at e))
          | inr (info, i) ↦ elim (Option-cases (route_to_user net limits target info.cache)) [
            | inl j ↦ absurd (none≢some (simp (f, g, h, i, j, send_infos) at e))
            | inr (sent, j) ↦
                identity_trans (route_to_user-Same net limits target sent info.cache j) (
                  send_infos-Same table rest sent target' all
                    (simp (f, g, h, i, j, send_infos) at e))
          ]
        ]
      ]
    ]
  ]

  pub route_info-SameNames :
      (users : Users C) (u : HubUser C) (table' : Table C)
      → route_info_message net limits users u ≡ some table'
      → SameNames users.table table'
  unfolding route_info_message route_to_all
  route_info-SameNames users u table' e = elim (Option-cases u.info) [
    | inl f ↦ absurd (none≢some (simp (f, route_info_message) at e))
    | inr (info, f) ↦ elim (Bool-cases (user_is_nat_override u)) [
      | inr g ↦
          for_each-SameNames (λ user. route_to_user net limits user info.cache)
            (λ v v' h. route_to_user-Same net limits v v' info.cache h) users.list users.table
            table' (simp (f, g, route_info_message) at e)
      | inl g ↦ elim (Option-cases (nat_message u.address info)) [
        | inl h ↦ absurd (none≢some (simp (f, g, h, route_info_message) at e))
        | inr (cmd, h) ↦
            for_each-SameNames
              (λ user.
                route_to_user net limits user
                  (if user_is_nat_override user then cmd.cache else info.cache))
              (λ v v' i. route_to_user-Same net limits v v' _ i) users.list users.table table'
              (simp (f, g, h, route_info_message) at e)
      ]
    ]
  ]
