-- ===== src/Core/UserManager/Routed.antt =====
-- Routing leaves the lists of src/core/usermanager.c in agreement: it changes nobody's names.
use uhub.Prelude.{
  ◌⊎◌, ℕ, ◌≡◌, refl, ap, sym, ◌∙◌, true, false, List, [], ◌∷◌, Option, some, Bytes, ◌==◌, ==_iff,
  inl, inr, Bool-cases, Option-cases, none≢some, subst,
}
use uhub.Core.User.{HubUser}
use uhub.Core.Route.{Table, put, at_user, for_each}
use uhub.Core.Route.Identity.{SameIdentity}
use uhub.Core.UserManager.{Map, UserManager}
use uhub.Core.UserManager.Maps.{some-eq}
use uhub.Core.UserManager.Registered.{Indexed, IsRegister, nick_of, cid_of}

Indexed-same :
    (map : Map) (key key' : ℕ → Option Bytes) (list : List ℕ)
    → ((s : ℕ) → key' s ≡ key s)
    → Indexed map key list
    → Indexed map key' list
Indexed-same map key key' list e h = record {
  listed = λ s m. let (k, is, at) = h.listed s m in (k, e s ∙ is, at);
  mapped = λ k s at. let (m, is) = h.mapped k s at in (m, e s ∙ is);
}

module _ {ℓ} {C : Type ℓ} where
  -- Two tables with the same names.
  pub record SameNames (table table' : Table C) : Type 0 where
    pub nicks : (s : ℕ) → nick_of (table' s) ≡ nick_of (table s)
    pub cids : (s : ℕ) → cid_of (table' s) ≡ cid_of (table s)

  pub names_refl : (table : Table C) → SameNames table table
  names_refl table = record { nicks = λ s. refl; cids = λ s. refl }

  names_trans : {a b c : Table C} → SameNames a b → SameNames b c → SameNames a c
  names_trans f g = record { nicks = λ s. g.nicks s ∙ f.nicks s; cids = λ s. g.cids s ∙ f.cids s }

  pub put-SameNames :
      (table : Table C) (sid : ℕ) (u u' : HubUser C)
      → table sid ≡ some u
      → u'.nick ≡ u.nick
      → u'.cid ≡ u.cid
      → SameNames table (put table sid u')
  put-SameNames table sid u u' here nick cid = record {
    nicks = λ s. at_nick s (Bool-cases (s == sid));
    cids = λ s. at_cid s (Bool-cases (s == sid));
  }
    where
      at_nick :
          (s : ℕ)
          → ((s == sid) ≡ true) ⊎ ((s == sid) ≡ false)
          → nick_of (put table sid u' s) ≡ nick_of (table s)
      at_nick s (inr n) = rw (n) refl
      at_nick s (inl e) =
          rw (e) (ap some nick ∙ sym (ap nick_of (ap table ((==_iff s sid).0 e) ∙ here)))

      at_cid :
          (s : ℕ)
          → ((s == sid) ≡ true) ⊎ ((s == sid) ≡ false)
          → cid_of (put table sid u' s) ≡ cid_of (table s)
      at_cid s (inr n) = rw (n) refl
      at_cid s (inl e) =
          rw (e) (ap some cid ∙ sym (ap cid_of (ap table ((==_iff s sid).0 e) ∙ here)))

  module _ (f : HubUser C → Option (HubUser C))
      (same : (u u' : HubUser C) → f u ≡ some u' → SameIdentity u u') where
    at_user-SameNames :
        (sid : ℕ) (table table' : Table C)
        → at_user f sid table ≡ some table'
        → SameNames table table'
    unfolding at_user
    at_user-SameNames sid table table' e = elim (Option-cases (table sid)) [
      | inl g ↦ subst (SameNames table) (some-eq (simp (g, at_user) at e)) (names_refl table)
      | inr (u, g) ↦ elim (Option-cases (f u)) [
        | inl h ↦ absurd (none≢some (simp (g, h, at_user) at e))
        | inr (u', h) ↦
            subst (SameNames table) (some-eq (simp (g, h, at_user) at e))
              (put-SameNames table sid u u' g (same u u' h).same_nick (same u u' h).same_cid)
      ]
    ]

    pub for_each-SameNames :
        (list : List ℕ) (table table' : Table C)
        → for_each f list table ≡ some table'
        → SameNames table table'
    unfolding for_each
    for_each-SameNames [] table table' e = subst (SameNames table) (some-eq e) (names_refl table)
    for_each-SameNames (sid ∷ rest) table table' e = elim (Option-cases (at_user f sid table)) [
      | inl g ↦ absurd (none≢some (simp (g, for_each) at e))
      | inr (between, g) ↦
          names_trans (at_user-SameNames sid table between g)
            (for_each-SameNames rest between table' (simp (g, for_each) at e))
    ]

  -- The lists still agree with a table of the same names.
  pub SameNames-IsRegister :
      (manager : UserManager C) (table' : Table C)
      → SameNames manager.users.table table'
      → IsRegister manager
      → IsRegister (record manager { users = record manager.users { table = table' } })
  SameNames-IsRegister manager table' same h = record {
    distinct = h.distinct;
    counted = h.counted;
    nicks = Indexed-same manager.nickmap _ _ manager.users.list same.nicks h.nicks;
    cids = Indexed-same manager.cidmap _ _ manager.users.list same.cids h.cids;
  }
