-- ===== src/Util/RbTree/Insert.antt =====
-- What an insertion of src/util/rbtree.c makes of a balanced tree.
use uhub.Prelude.{
  All-append, append_assoc, inl, ℕ, suc, zero, ◌≡◌, refl, sym, ap, ◌∙◌, Bool, true, false, Option,
  none, some, List, [], ◌∷◌, ◌++◌, none≢some,
}
use uhub.Util.RbTree.{
  Order, less, same, more, Node, null, node, is_red, set_link, repair, tree_search,
  rb_tree_insert_r, repaired,
}
use uhub.Util.RbTree.Sorted.{
  IsOrder, Below, Above, Sorted, Sorted-around, Below-weaken, Above-weaken,
}
use uhub.Core.Route.Recipients.{true≢false}
use uhub.Util.RbTree.Balance.{
  entries, Balanced, Almost, Repaired, repair-black_right, repair-black_left, repair-red_right,
  repair-red_left,
}

module _ {K V : Type 0} (compare : K → K → Order) (order : IsOrder compare) where
  -- The tree below which an entry was put, where its order wants it.
  pub record Grown (t : Node K V) (n : ℕ) (key : K) (value : V) (result : Option (Node K V))
      : Type 0 where
    pub tree : Node K V
    pub is_some : result ≡ some tree
    pub almost : Almost tree n
    pub black : is_red t ≡ false → Balanced tree n
    pub before : List (K × V)
    pub after : List (K × V)
    pub old : entries t ≡ before ++ after
    pub new : entries tree ≡ before ++ (key, value) ∷ after
    pub below : Below compare order key before
    pub above : Above compare order key after

  Almost-black : (t : Node K V) (n : ℕ) → Balanced t n → Almost t n
  unfolding Almost Balanced
  Almost-black null n h = h
  Almost-black (node true k v a b) n h = (inl h.0, h.2, h.3)
  Almost-black (node false k v a b) n h = h

  go_right :
      (red : Bool) (k : K) (v : V) (a b : Node K V) (n m : ℕ) (key : K) (value : V)
      (result : Option (Node K V))
      → Below compare order k (entries a)
      → compare k key ≡ less
      → (g : Grown b m key value result) → (P : Node K V → Type 0)
      → ((t : Node K V) → P t → Almost t n × (red ≡ false → Balanced t n))
      → Repaired (node red k v a g.tree) P (repair true (node red k v a g.tree))
      → Grown (node red k v a b) n key value (repaired true (node red k v a b) result)
  unfolding set_link entries is_red
  go_right red k v a b n m key value result low e g P use_P r = record {
    tree = r.tree;
    is_some = rw (g.is_some) r.is_some;
    almost = (use_P r.tree r.holds).0;
    black = (use_P r.tree r.holds).1;
    before = entries a ++ (k, v) ∷ g.before;
    after = g.after;
    old =
        ap (λ es. entries a ++ (k, v) ∷ es) g.old
        ∙ sym (append_assoc (entries a) ((k, v) ∷ g.before) g.after);
    new =
        r.kept
        ∙ ap (λ es. entries a ++ (k, v) ∷ es) g.new
        ∙ sym (append_assoc (entries a) ((k, v) ∷ g.before) ((key, value) ∷ g.after));
    below =
        All-append (λ (x : K × V). compare x.0 key ≡ less) (entries a) ((k, v) ∷ g.before)
          (Below-weaken compare order k key (entries a) e low) (e, g.below);
    above = g.above;
  }

  go_left :
      (red : Bool) (k : K) (v : V) (a b : Node K V) (n m : ℕ) (key : K) (value : V)
      (result : Option (Node K V))
      → Above compare order k (entries b)
      → compare k key ≡ more
      → (g : Grown a m key value result) → (P : Node K V → Type 0)
      → ((t : Node K V) → P t → Almost t n × (red ≡ false → Balanced t n))
      → Repaired (node red k v g.tree b) P (repair false (node red k v g.tree b))
      → Grown (node red k v a b) n key value (repaired false (node red k v a b) result)
  unfolding set_link entries is_red
  go_left red k v a b n m key value result high e g P use_P r = record {
    tree = r.tree;
    is_some = rw (g.is_some) r.is_some;
    almost = (use_P r.tree r.holds).0;
    black = (use_P r.tree r.holds).1;
    before = g.before;
    after = g.after ++ (k, v) ∷ entries b;
    old =
        ap (λ es. es ++ (k, v) ∷ entries b) g.old
        ∙ append_assoc g.before g.after ((k, v) ∷ entries b);
    new =
        r.kept
        ∙ ap (λ es. es ++ (k, v) ∷ entries b) g.new
        ∙ append_assoc g.before ((key, value) ∷ g.after) ((k, v) ∷ entries b);
    below = g.below;
    above =
        All-append (λ (x : K × V). compare key x.0 ≡ less) g.after ((k, v) ∷ entries b) g.above
          (
            order.flip_more k key e,
            Above-weaken compare order key k (entries b) (order.flip_more k key e) high,
          );
  }

  -- What is known of the two subtrees is used on the way that the comparison says.
  go_down :
      (red : Bool) (k : K) (v : V) (a b : Node K V) (n : ℕ) (key : K) (value : V)
      → tree_search compare (node red k v a b) key ≡ none
      → (compare k key ≡ less
          → tree_search compare b key ≡ none
          → Grown
              (node red k v a b)
              n
              key
              value
              (repaired true (node red k v a b) (rb_tree_insert_r compare b key value)))
      → (compare k key ≡ more
          → tree_search compare a key ≡ none
          → Grown
              (node red k v a b)
              n
              key
              value
              (repaired false (node red k v a b) (rb_tree_insert_r compare a key value)))
      → Grown (node red k v a b) n key value (rb_tree_insert_r compare (node red k v a b) key value)
  unfolding tree_search rb_tree_insert_r
  go_down red k v a b n key value e right left = go (compare k key) refl e
    where
      go :
          (o : Order)
          → compare k key ≡ o
          → (elim o as (λ _. Option V) [
            | same ↦ some v
            | less ↦ tree_search compare b key
            | more ↦ tree_search compare a key
          ])
            ≡ none
          → Grown (node red k v a b) n key value (elim o as (λ _. Option (Node K V)) [
            | same ↦ none
            | less ↦ repaired true (node red k v a b) (rb_tree_insert_r compare b key value)
            | more ↦ repaired false (node red k v a b) (rb_tree_insert_r compare a key value)
          ])
      go same f e = absurd (none≢some (sym e))
      go less f e = right f e
      go more f e = left f e

  pub rb_tree_insert_r-Grown :
      (t : Node K V) (n : ℕ) (key : K) (value : V)
      → Balanced t n
      → Sorted compare order (entries t)
      → tree_search compare t key ≡ none
      → Grown t n key value (rb_tree_insert_r compare t key value)
  unfolding Balanced Almost is_red rb_tree_insert_r entries
  rb_tree_insert_r-Grown null n key value h s e = record {
    tree = node true key value null null;
    is_some = refl;
    almost = (inl refl, h, h);
    black = λ f. (refl, refl, h, h);
    before = [];
    after = [];
    old = refl;
    new = refl;
    below = tt;
    above = tt;
  }
  rb_tree_insert_r-Grown (node true k v a b) n key value h s e =
      let (sa, low, high, sb) = Sorted-around compare order (entries a) (k, v) (entries b) s in
      go_down true k v a b n key value e
        (λ f g.
          let grown = rb_tree_insert_r-Grown b n key value h.3 sb g in
          go_right true k v a b n n key value _ low f grown (λ t. Almost t n)
            (λ t p. (p, λ z. absurd (true≢false z)))
            (repair-red_right k v a grown.tree n h.0 h.2 (grown.black h.1)))
        (λ f g.
          let grown = rb_tree_insert_r-Grown a n key value h.2 sa g in
          go_left true k v a b n n key value _ high f grown (λ t. Almost t n)
            (λ t p. (p, λ z. absurd (true≢false z)))
            (repair-red_left k v grown.tree b n h.1 (grown.black h.0) h.3))
  rb_tree_insert_r-Grown (node false k v a b) zero key value h s e = absurd h
  rb_tree_insert_r-Grown (node false k v a b) (suc m) key value h s e =
      let (sa, low, high, sb) = Sorted-around compare order (entries a) (k, v) (entries b) s in
      go_down false k v a b (suc m) key value e
        (λ f g.
          let grown = rb_tree_insert_r-Grown b m key value h.1 sb g in
          go_right false k v a b (suc m) m key value _ low f grown (λ t. Balanced t (suc m))
            (λ t p. (Almost-black t (suc m) p, λ z. p))
            (repair-black_right k v a grown.tree m h.0 grown.almost))
        (λ f g.
          let grown = rb_tree_insert_r-Grown a m key value h.0 sa g in
          go_left false k v a b (suc m) m key value _ high f grown (λ t. Balanced t (suc m))
            (λ t p. (Almost-black t (suc m) p, λ z. p))
            (repair-black_left k v grown.tree b m grown.almost h.1))
