-- ===== src/Core/Route/Recipients.antt =====
-- The loops of src/core/route.c over users and features, entry by entry.
use uhub.Prelude.{
  ℕ, ◌≡◌, ◌≢◌, ◌↔◌, refl, sym, ◌∙◌, Bool, true, false, ◌||◌, List, [], ◌∷◌, Option, none, some,
  ◌==◌, ==_iff, Bytes, arith, inl, inr, Bool-cases, Option-cases, none≢some, subst, All,
}
use uhub.Core.User.{HubUser, user_have_feature_cast_support, or_empty}
use uhub.Core.Route.{Table, put, at_user, for_each, has_all, has_none, do_send}
use uhub.Adc.Message.{AdcMessage}

abbrev pub member : ℕ → List ℕ → Bool
member s [] = false
member s (x ∷ xs) = s == x || member s xs

abbrev pub Distinct : List ℕ → Type 0
Distinct [] = Unit
Distinct (x ∷ xs) = (member x xs ≡ false) × Distinct xs

pub true≢false : true ≢ false
true≢false e = ground arith

other : (s x : ℕ) (xs : List ℕ) → member s xs ≡ true → member x xs ≡ false → (s == x) ≡ false
other s x xs m n = elim (Bool-cases (s == x)) [
  | inr ne ↦ ne
  | inl e ↦
      absurd (true≢false (sym m ∙ subst (λ y. member y xs ≡ false) (sym ((==_iff s x).0 e)) n))
]

module _ {C : Type 0} where
  -- The entry of a user before and after.
  abbrev pub Related :
      (HubUser C → HubUser C → Type 0) → Option (HubUser C) → Option (HubUser C) → Type 0
  Related D none none = Unit
  Related D (some u) (some u') = D u u'
  Related D none (some u') = ⊥
  Related D (some u) none = ⊥

  -- An entry that was visited is related, and any other is as it was.
  abbrev pub Visited :
      (HubUser C → HubUser C → Type 0) → Bool → Option (HubUser C) → Option (HubUser C) → Type 0
  Visited D true o o' = Related D o o'
  Visited D false o o' = o' ≡ o

  -- The routine answers for the user of an identifier, if there is one.
  abbrev pub Answers :
      (HubUser C → HubUser C → Type 0)
      → (HubUser C → Option (HubUser C))
      → Option (HubUser C)
      → Type 0
  Answers D f none = Unit
  Answers D f (some u) = (u' : HubUser C) × (f u ≡ some u') × D u u'

  module _ (D : HubUser C → HubUser C → Type 0) (f : HubUser C → Option (HubUser C)) where
    pub record Step (sid : ℕ) (table : Table C) (after : Option (Table C)) : Type 0 where
      pub table' : Table C
      pub ends : after ≡ some table'
      pub there : Related D (table sid) (table' sid)
      pub elsewhere : (s : ℕ) → (s == sid) ≡ false → table' s ≡ table s

    pub at_user-Step :
        (sid : ℕ) (table : Table C) → Answers D f (table sid) → Step sid table (at_user f sid table)
    unfolding at_user
    at_user-Step sid table a = go (table sid) refl a
      where
        go :
            (o : Option (HubUser C))
            → table sid ≡ o
            → Answers D f o
            → Step sid table (at_user f sid table)
        go none e a = record {
          table' = table;
          ends = rw (e, at_user);
          there = rw (e) tt;
          elsewhere = λ s ne. refl;
        }
        go (some u) e (u', done, d) = record {
          table' = put table sid u';
          ends = rw (e, done, at_user);
          there = rw (e, (let i : (sid == sid) ≡ true = ground arith in i)) d;
          elsewhere = λ s ne. rw (ne);
        }

    Visited-first :
        (o o' : Option (HubUser C)) (x : ℕ) (xs : List ℕ)
        → Related D o o'
        → Visited D (member x (x ∷ xs)) o o'
    Visited-first o o' x xs r = rw (let i : (x == x) ≡ true = ground arith in i) r

    pub record Round (list : List ℕ) (table : Table C) (after : Option (Table C)) : Type 0 where
      pub table' : Table C
      pub ends : after ≡ some table'
      pub entries : (s : ℕ) → Visited D (member s list) (table s) (table' s)

    pub for_each-Round :
        (list : List ℕ) (table : Table C)
        → Distinct list
        → ((s : ℕ) → member s list ≡ true → Answers D f (table s))
        → Round list table (for_each f list table)
    unfolding for_each
    for_each-Round [] table dis a = record { table' = table; ends = refl; entries = λ s. refl }
    for_each-Round (x ∷ xs) table (new, dis) a =
        let here = at_user-Step x table (a x (ground arith)) in
        let later : (s : ℕ) → member s xs ≡ true → Answers D f (here.table' s) = λ s m.
          subst (Answers D f) (sym (here.elsewhere s (other s x xs m new)))
            (a s (ground (arith, m))) in
        let rest = for_each-Round xs here.table' dis later in
        record {
          table' = rest.table';
          ends = rw (here.ends, for_each) rest.ends;
          entries = λ s. elim (Bool-cases (s == x)) [
            | inr ne ↦ rw (ne) (
                subst (λ o. Visited D (member s xs) o (rest.table' s)) (here.elsewhere s ne)
                  (rest.entries s))
            | inl e ↦
                subst (λ s. Visited D (member s (x ∷ xs)) (table s) (rest.table' s))
                  (sym ((==_iff s x).0 e))
                  (Visited-first (table x) (rest.table' x) x xs (
                    subst (Related D (table x))
                      (sym (
                        subst (λ b. Visited D b (here.table' x) (rest.table' x)) new
                          (rest.entries x)))
                      here.there))
          ];
        }

module _ {C : Type 0} where
  -- The features that a message asks for and those it excludes, against those that a user has.
  pub record Subscribed (u : HubUser C) (msg : AdcMessage) : Type 0 where
    features : u.feature_cast ≢ none
    included :
        All (λ f. user_have_feature_cast_support u f ≡ true) (or_empty msg.feature_cast_include)
    excluded :
        All (λ f. user_have_feature_cast_support u f ≡ false) (or_empty msg.feature_cast_exclude)

  has_all-All :
      (u : HubUser C) (fs : List Bytes)
      → (has_all u fs ≡ true) ↔ All (λ f. user_have_feature_cast_support u f ≡ true) fs
  unfolding has_all
  has_all-All u [] = (λ e. tt, λ a. refl)
  has_all-All u (f ∷ fs) = elim (Bool-cases (user_have_feature_cast_support u f)) [
    | inl e ↦ (
      λ h. (e, (has_all-All u fs).0 (rw (e, has_all) at h)),
      λ a. rw (e, has_all) ((has_all-All u fs).1 a.1),
    )
    | inr e ↦ (
      λ h. absurd (true≢false (sym (rw (e, has_all) at h))),
      λ a. absurd (true≢false (sym a.0 ∙ e)),
    )
  ]

  has_none-All :
      (u : HubUser C) (fs : List Bytes)
      → (has_none u fs ≡ true) ↔ All (λ f. user_have_feature_cast_support u f ≡ false) fs
  unfolding has_none
  has_none-All u [] = (λ e. tt, λ a. refl)
  has_none-All u (f ∷ fs) = elim (Bool-cases (user_have_feature_cast_support u f)) [
    | inr e ↦ (
      λ h. (e, (has_none-All u fs).0 (rw (e, has_none) at h)),
      λ a. rw (e, has_none) ((has_none-All u fs).1 a.1),
    )
    | inl e ↦ (
      λ h. absurd (true≢false (sym (rw (e, has_none) at h))),
      λ a. absurd (true≢false (sym e ∙ a.0)),
    )
  ]

  -- The loops over the features decide that a user has some features, has every feature that the
  -- message includes, and none that it excludes.
  pub do_send-Subscribed :
      (u : HubUser C) (msg : AdcMessage) → (do_send u msg ≡ true) ↔ Subscribed u msg
  unfolding do_send
  do_send-Subscribed u msg = elim (Option-cases u.feature_cast) [
    | inl e ↦ (λ h. absurd (true≢false (sym (simp (e, do_send) at h))), λ s. absurd (s.features e))
    | inr (fs, e) ↦ elim (Bool-cases (has_all u (or_empty msg.feature_cast_include))) [
      | inr lacks ↦ (
        λ h. absurd (true≢false (sym (simp (e, lacks, do_send) at h))),
        λ s. absurd (true≢false (sym ((has_all-All u _).1 s.included) ∙ lacks)),
      )
      | inl every ↦ (
        λ h. record {
          features = λ n. none≢some (sym n ∙ e);
          included = (has_all-All u _).0 every;
          excluded = (has_none-All u _).0 (simp (e, every, do_send) at h);
        },
        λ s. simp (e, every, do_send) ((has_none-All u _).1 s.excluded),
      )
    ]
  ]
