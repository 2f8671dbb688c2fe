-- ===== src/Core/User/States.antt =====
-- What a sequence of calls does to the state of a user, and to its list of features.
use uhub.Prelude.{
  ◌≡◌, refl, Bool, true, false, List, [], ◌∷◌, ◌++◌, Bytes, take, ap, ◌∙◌, ◌||◌, arith, ℕ, zero,
  suc, Option, none, some, if◌then◌else◌, bytes_eq,
}
use uhub.Core.User.{
  HubUser, UserState, state_protocol, state_identify, state_verify, state_normal, state_cleanup,
  state_disconnected, user_set_state, user_is_logged_in, user_is_connecting, user_is_disconnecting,
  user_have_feature_cast_support, user_set_feature_cast_support, any_feature, same_feature,
  or_empty,
}

module _ {ℓ} {C : Type ℓ} where
  -- The states that are set on a user, one after the other.
  unfoldable pub set_states : HubUser C → List UserState → HubUser C
  unfolding user_set_state
  set_states user [] = user
  set_states user (state ∷ later) = set_states (user_set_state user state) later

  set_disconnecting :
      (user : HubUser C) (state : UserState)
      → user_is_disconnecting user ≡ true
      → user_is_disconnecting (user_set_state user state) ≡ true
  unfolding user_is_disconnecting user_set_state
  set_disconnecting user state e = go user.state state e
    where
      go :
          (s : UserState) (state : UserState)
          → user_is_disconnecting (record user { state = s }) ≡ true
          → user_is_disconnecting (user_set_state (record user { state = s }) state) ≡ true
      go state_cleanup state_disconnected e = refl
      go state_cleanup state_protocol e = refl
      go state_cleanup state_identify e = refl
      go state_cleanup state_verify e = refl
      go state_cleanup state_normal e = refl
      go state_cleanup state_cleanup e = refl
      go state_disconnected state e = refl
      go state_protocol state e = ground arith
      go state_identify state e = ground arith
      go state_verify state e = ground arith
      go state_normal state e = ground arith

  apart :
      (user : HubUser C)
      → user_is_disconnecting user ≡ true
      → (user_is_logged_in user ≡ false) × (user_is_connecting user ≡ false)
  unfolding user_is_disconnecting user_is_logged_in user_is_connecting
  apart user e = go user.state e
    where
      go :
          (s : UserState)
          → user_is_disconnecting (record user { state = s }) ≡ true
          → (user_is_logged_in (record user { state = s }) ≡ false)
            × (user_is_connecting (record user { state = s }) ≡ false)
      go state_cleanup e = (refl, refl)
      go state_disconnected e = (refl, refl)
      go state_protocol e = ground arith
      go state_identify e = ground arith
      go state_verify e = ground arith
      go state_normal e = ground arith

  -- A user that is disconnecting stays so whatever states are set on it, and is neither logged in
  -- nor connecting again.
  pub user_set_state-final :
      (user : HubUser C) (states : List UserState)
      → user_is_disconnecting user ≡ true
      → (user_is_disconnecting (set_states user states) ≡ true)
        × (user_is_logged_in (set_states user states) ≡ false)
        × (user_is_connecting (set_states user states) ≡ false)
  unfolding set_states
  user_set_state-final user [] e = (e, (apart user e).0, (apart user e).1)
  user_set_state-final user (state ∷ later) e =
      user_set_state-final (user_set_state user state) later (set_disconnecting user state e)

one : (b : Bool) → (if b then true else false) ≡ (b || false)
one true = refl
one false = refl

last_or : (a b c d : Bool) → d ≡ (b || c) → (if a then true else d) ≡ (b || (if a then true else c))
last_or true true c d e = refl
last_or true false c d e = refl
last_or false b c d e = e

any_feature-snoc :
    (list : List Bytes) (f g : Bytes)
    → any_feature (list ++ f ∷ []) g ≡ (same_feature f g || any_feature list g)
unfolding any_feature
any_feature-snoc [] f g = one (same_feature f g)
any_feature-snoc (x ∷ list) f g =
    last_or (same_feature x g) (same_feature f g) (any_feature list g) _ (any_feature-snoc list f g)

take-take : (n : ℕ) (f : Bytes) → take n (take n f) ≡ take n f
take-take zero f = refl
take-take (suc n) [] = refl
take-take (suc n) (c ∷ f) = ap (λ t. c ∷ t) (take-take n f)

same_feature-take : (f g : Bytes) → same_feature (take 4 f) g ≡ same_feature f g
unfolding same_feature
same_feature-take f g = ap (λ t. bytes_eq t (take 4 g)) (take-take 4 f)

module _ {ℓ} {C : Type ℓ} where
  -- After a feature is added, a user has it and those that it had, compared by their first four
  -- bytes, and no other.
  pub user_set_feature_cast_support-have :
      (u : HubUser C) (f g : Bytes)
      → user_have_feature_cast_support (user_set_feature_cast_support u f) g
        ≡ (same_feature f g || user_have_feature_cast_support u g)
  unfolding user_have_feature_cast_support user_set_feature_cast_support
  user_set_feature_cast_support-have u f g = go u.feature_cast
    where
      go :
          (list : Option (List Bytes))
          → any_feature (or_empty list ++ take 4 f ∷ []) g ≡ (
              same_feature f g
              || user_have_feature_cast_support (record u { feature_cast = list }) g)
      go none = any_feature-snoc [] (take 4 f) g ∙ ap (λ b. b || false) (same_feature-take f g)
      go (some list) =
          any_feature-snoc list (take 4 f) g
          ∙ ap (λ b. b || any_feature list g) (same_feature-take f g)
