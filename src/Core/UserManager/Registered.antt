-- ===== src/Core/UserManager/Registered.antt =====
-- The lists and maps of src/core/usermanager.c agree on who is logged in.
use uhub.Prelude.{
  ℕ, ◌+◌, ◌^◌, ◌<◌, ◌≡◌, ◌⊎◌, ap, sym, ◌∙◌, true, false, ◌||◌, List, ◌∷◌, Option, none, some, arith,
  length, Bytes, bytes_eq, bytes_eq_iff, ◌==◌, ==_iff, inl, inr, Bool-cases, none≢some, subst,
}
use uhub.Core.User.{HubUser}
use uhub.Core.Route.Recipients.{member, Distinct, true≢false}
use uhub.Core.UserManager.{
  Map, UserManager, rb_tree_get, rb_tree_insert, rb_tree_remove, list_append, list_remove, uman_add,
  uman_remove,
}
use uhub.Core.UserManager.Maps.{
  bytes_eq_refl, get-hit, get-miss, some-eq, or-true, insert-fresh, remove_self, remove-other,
  member-append, member-remove, member-remove_self, Distinct-remove, Distinct-append,
  length-append_one, length-remove,
}

-- A map takes exactly the keys of the users of the list to those users.
pub record Indexed (map : Map) (key : ℕ → Option Bytes) (list : List ℕ) : Type 0 where
  pub listed :
      (s : ℕ) → member s list ≡ true → (k : Bytes) × (key s ≡ some k) × (rb_tree_get map k ≡ some s)
  pub mapped :
      (k : Bytes) (s : ℕ) → rb_tree_get map k ≡ some s → (member s list ≡ true) × (key s ≡ some k)

module _ (map : Map) (key : ℕ → Option Bytes) (list : List ℕ) (h : Indexed map key list) where
  -- A user whose key is in no pair is not on the list.
  fresh-listed :
      (t : ℕ) (k : Bytes) → key t ≡ some k → rb_tree_get map k ≡ none → member t list ≡ false
  fresh-listed t k is free = elim (Bool-cases (member t list)) [
    | inr n ↦ n
    | inl m ↦
        let (k', is', at) = h.listed t m in
        let same : k' ≡ k = some-eq (sym is' ∙ is) in
        absurd (none≢some (sym free ∙ ap (rb_tree_get map) (sym same) ∙ at))
  ]

  Indexed-insert :
      (t : ℕ) (k : Bytes)
      → key t ≡ some k
      → rb_tree_get map k ≡ none
      → Indexed (rb_tree_insert map k t) key (list_append list t)
  Indexed-insert t k is free =
      subst (λ m. Indexed m key (list_append list t)) (sym (insert-fresh map k t free))
        (record {
          listed = λ s m. from_list s m (Bool-cases (s == t));
          mapped = λ k' s e. from_map k' s e (Bool-cases (bytes_eq k k'));
        })
    where
      from_list :
          (s : ℕ)
          → member s (list_append list t) ≡ true
          → ((s == t) ≡ true) ⊎ ((s == t) ≡ false)
          → (k' : Bytes) × (key s ≡ some k') × (rb_tree_get ((k, t) ∷ map) k' ≡ some s)
      from_list s m (inl e) =
          let same : t ≡ s = sym ((==_iff s t).0 e) in
          (k, ap key (sym same) ∙ is, get-hit map k k t (bytes_eq_refl k) ∙ ap some same)
      from_list s m (inr ne) =
          let (k', is', at) =
            h.listed s
              (ap (λ b. b || member s list) (sym ne) ∙ (sym (member-append s t list) ∙ m)) in
          (
            k',
            is',
            elim (Bool-cases (bytes_eq k k')) [
              | inr n ↦ get-miss map k k' t n ∙ at
              | inl e ↦
                  absurd
                    (none≢some (sym free ∙ ap (rb_tree_get map) ((bytes_eq_iff k k').0 e) ∙ at))
            ],
          )

      from_map :
          (k' : Bytes) (s : ℕ)
          → rb_tree_get ((k, t) ∷ map) k' ≡ some s
          → (bytes_eq k k' ≡ true) ⊎ (bytes_eq k k' ≡ false)
          → (member s (list_append list t) ≡ true) × (key s ≡ some k')
      from_map k' s e (inl hit) =
          let same : t ≡ s = some-eq (sym (get-hit map k k' t hit) ∙ e) in
          (
            member-append s t list ∙ ap (λ b. b || member s list) ((==_iff s t).1 (sym same)),
            ap key (sym same) ∙ is ∙ ap some ((bytes_eq_iff k k').0 hit),
          )
      from_map k' s e (inr miss) =
          let (m, is') = h.mapped k' s (sym (get-miss map k k' t miss) ∙ e) in
          (member-append s t list ∙ ap (λ b. s == t || b) m ∙ or-true (s == t), is')

  Indexed-remove :
      (t : ℕ) (k : Bytes)
      → Distinct list
      → key t ≡ some k
      → member t list ≡ true
      → Indexed (rb_tree_remove map k) key (list_remove list t)
  Indexed-remove t k d is m = record {
    listed = λ s e. from_list s e (Bool-cases (s == t));
    mapped = λ k' s e. from_map k' s e (Bool-cases (bytes_eq k k'));
  }
    where
      at_key : rb_tree_get map k ≡ some t
      at_key =
          let (k', is', at) = h.listed t m in ap (rb_tree_get map) (some-eq (sym is ∙ is')) ∙ at

      apart :
          (s : ℕ) (k' : Bytes)
          → rb_tree_get map k' ≡ some s
          → (s == t) ≡ false
          → bytes_eq k k' ≡ false
      apart s k' at ne = elim (Bool-cases (bytes_eq k k')) [
        | inr n ↦ n
        | inl e ↦
            let same : t ≡ s =
              some-eq (sym at_key ∙ ap (rb_tree_get map) ((bytes_eq_iff k k').0 e) ∙ at) in
            absurd (true≢false (sym ((==_iff s t).1 (sym same)) ∙ ne))
      ]

      from_list :
          (s : ℕ)
          → member s (list_remove list t) ≡ true
          → ((s == t) ≡ true) ⊎ ((s == t) ≡ false)
          → (k' : Bytes) × (key s ≡ some k') × (rb_tree_get (rb_tree_remove map k) k' ≡ some s)
      from_list s e (inl hit) = absurd (
          true≢false (
            sym e
            ∙ ap (λ x. member x (list_remove list t)) ((==_iff s t).0 hit)
            ∙ member-remove_self t list d))
      from_list s e (inr ne) =
          let (k', is', at) = h.listed s (sym (member-remove s t list ne) ∙ e) in
          (k', is', remove-other map k k' (apart s k' at ne) ∙ at)

      from_map :
          (k' : Bytes) (s : ℕ)
          → rb_tree_get (rb_tree_remove map k) k' ≡ some s
          → (bytes_eq k k' ≡ true) ⊎ (bytes_eq k k' ≡ false)
          → (member s (list_remove list t) ≡ true) × (key s ≡ some k')
      from_map k' s e (inl hit) = absurd (
          none≢some (
            sym (remove_self map k)
            ∙ ap (rb_tree_get (rb_tree_remove map k)) ((bytes_eq_iff k k').0 hit)
            ∙ e))
      from_map k' s e (inr miss) =
          let at = sym (remove-other map k k' miss) ∙ e in
          let (m', is') = h.mapped k' s at in
          (
            member-remove s t list (elim (Bool-cases (s == t)) [
              | inr ne ↦ ne
              | inl hit ↦
                  let same = some-eq (sym is ∙ ap key (sym ((==_iff s t).0 hit)) ∙ is') in
                  absurd (true≢false (sym ((bytes_eq_iff k k').1 same) ∙ miss))
            ])
                ∙ m',
            is',
          )

abbrev pub nick_of {ℓ} : {C : Type ℓ} → Option (HubUser C) → Option Bytes
nick_of none = none
nick_of (some user) = some user.nick

abbrev pub cid_of {ℓ} : {C : Type ℓ} → Option (HubUser C) → Option Bytes
cid_of none = none
cid_of (some user) = some user.cid

-- The list has no user twice, the count is its length, and each map is an index of it.
pub record IsRegister {ℓ} {C : Type ℓ} (manager : UserManager C) : Type 0 where
  pub distinct : Distinct manager.users.list
  pub counted : manager.count ≡ length manager.users.list
  pub nicks : Indexed manager.nickmap (λ s. nick_of (manager.users.table s)) manager.users.list
  pub cids : Indexed manager.cidmap (λ s. cid_of (manager.users.table s)) manager.users.list

module _ {ℓ} {C : Type ℓ} (manager : UserManager C) (user : HubUser C) where
  -- If the list has no user twice, the count is its length and each map takes exactly the nicks or
  -- the CIDs of its users to them, then that still holds after a user of the table is added whose
  -- nick and CID are in neither map, below 2^64 users.
  pub uman_add-IsRegister :
      IsRegister manager
      → manager.users.table user.sid ≡ some user
      → rb_tree_get manager.nickmap user.nick ≡ none
      → rb_tree_get manager.cidmap user.cid ≡ none
      → manager.count + 1 < 2 ^ 64
      → IsRegister (uman_add manager user)
  unfolding uman_add
  uman_add-IsRegister h here free_nick free_cid room =
      let new =
        fresh-listed manager.nickmap _ _ h.nicks user.sid user.nick (ap nick_of here) free_nick in
      record {
        distinct = Distinct-append user.sid manager.users.list new h.distinct;
        counted = omega (arith, h.counted, length-append_one user.sid manager.users.list);
        nicks =
            Indexed-insert manager.nickmap _ _ h.nicks user.sid user.nick (ap nick_of here)
              free_nick;
        cids = Indexed-insert manager.cidmap _ _ h.cids user.sid user.cid (ap cid_of here) free_cid;
      }

  -- If the list has no user twice, the count is its length and each map takes exactly the nicks or
  -- the CIDs of its users to them, then that still holds after a user of the list is removed, and
  -- neither its nick nor its CID nor the user itself is found any more.
  pub uman_remove-IsRegister :
      IsRegister manager
      → manager.users.table user.sid ≡ some user
      → member user.sid manager.users.list ≡ true
      → IsRegister (uman_remove manager user)
        × (rb_tree_get (uman_remove manager user).nickmap user.nick ≡ none)
        × (rb_tree_get (uman_remove manager user).cidmap user.cid ≡ none)
        × (member user.sid (uman_remove manager user).users.list ≡ false)
  unfolding uman_remove
  uman_remove-IsRegister h here m = (
    record {
      distinct = Distinct-remove user.sid manager.users.list h.distinct;
      counted = omega (arith, h.counted, length-remove user.sid manager.users.list m);
      nicks =
          Indexed-remove manager.nickmap _ _ h.nicks user.sid user.nick h.distinct (ap nick_of here)
            m;
      cids =
          Indexed-remove manager.cidmap _ _ h.cids user.sid user.cid h.distinct (ap cid_of here) m;
    },
    remove_self manager.nickmap user.nick,
    remove_self manager.cidmap user.cid,
    member-remove_self user.sid manager.users.list h.distinct,
  )
