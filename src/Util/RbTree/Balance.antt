-- ===== src/Util/RbTree/Balance.antt =====
-- Insertion into the trees of src/util/rbtree.c keeps them balanced.
use uhub.Prelude.{
  ℕ, suc, zero, ◌≡◌, ◌⊎◌, List, [], ◌∷◌, ◌++◌, append_assoc, refl, sym, ◌∙◌, true, false, Option,
  some, Bool-cases, inl, inr,
}
use uhub.Core.Route.Recipients.{true≢false}
use uhub.Util.RbTree.{
  Node, null, node, is_red, link_of, set_link, set_red, rb_tree_rotate_single,
  rb_tree_rotate_double, repair,
}

module _ {K V : Type 0} where
  -- Every way down has the same number of black nodes, and no red node has a red child.
  unfoldable pub Balanced : Node K V → ℕ → Type 0
  unfolding is_red
  Balanced null n = n ≡ 0
  Balanced (node true k v a b) n =
      (is_red a ≡ false) × (is_red b ≡ false) × Balanced a n × Balanced b n
  Balanced (node false k v a b) zero = ⊥
  Balanced (node false k v a b) (suc n) = Balanced a n × Balanced b n

  -- The same but for a red root, of which one child may be red.
  unfoldable pub Almost : Node K V → ℕ → Type 0
  unfolding Balanced
  Almost null n = n ≡ 0
  Almost (node true k v a b) n =
      ((is_red a ≡ false) ⊎ (is_red b ≡ false)) × Balanced a n × Balanced b n
  Almost (node false k v a b) n = Balanced (node false k v a b) n

  -- What a tree holds, in its order.
  unfoldable pub entries : Node K V → List (K × V)
  entries null = []
  entries (node red k v a b) = entries a ++ (k, v) ∷ entries b

  -- A repair ends, with such a tree of the same entries.
  pub record Repaired (old : Node K V) (P : Node K V → Type 0) (result : Option (Node K V))
      : Type 0 where
    pub tree : Node K V
    pub is_some : result ≡ some tree
    pub kept : entries tree ≡ entries old
    pub holds : P tree

  other_black :
      (a b : Node K V)
      → (is_red a ≡ false) ⊎ (is_red b ≡ false)
      → is_red b ≡ true
      → is_red a ≡ false
  other_black a b (inl e) f = e
  other_black a b (inr e) f = absurd (true≢false (sym f ∙ e))

  -- A red right child of a black node whose left child is not red.
  turn_right :
      (k : K) (v : V) (a : Node K V) (j : K) (w : V) (c d : Node K V) (m : ℕ)
      → is_red a ≡ false
      → Balanced a m
      → Almost (node true j w c d) m
      → Repaired
          (node false k v a (node true j w c d))
          (λ t. Balanced t (suc m))
          (repair true (node false k v a (node true j w c d)))
  unfolding entries Almost Balanced is_red repair link_of rb_tree_rotate_single
      rb_tree_rotate_double set_link
  turn_right k v a j w c d m e h g = elim (Bool-cases (is_red d)) [
    | inl f ↦ record {
      tree = node false j w (node true k v a c) d;
      is_some = rw (e, f) refl;
      kept = simp (append_assoc);
      holds = ((e, other_black c d g.0 f, h, g.1), g.2);
    }
    | inr f ↦ inner c f g
  ]
    where
      inner :
          (c : Node K V)
          → is_red d ≡ false
          → Almost (node true j w c d) m
          → Repaired
              (node false k v a (node true j w c d))
              (λ t. Balanced t (suc m))
              (repair true (node false k v a (node true j w c d)))
      inner null f g = record {
        tree = node false k v a (node true j w null d);
        is_some = rw (e, f) refl;
        kept = refl;
        holds = (h, (refl, f, g.1, g.2));
      }
      inner (node false i u x y) f g = record {
        tree = node false k v a (node true j w (node false i u x y) d);
        is_some = rw (e, f) refl;
        kept = simp (append_assoc);
        holds = (h, (refl, f, g.1, g.2));
      }
      inner (node true i u x y) f g = record {
        tree = node false i u (node true k v a x) (node true j w y d);
        is_some = rw (e, f) refl;
        kept = simp (append_assoc);
        holds = ((e, g.1.0, h, g.1.2), (g.1.1, f, g.1.3, g.2));
      }

  -- A red left child of a black node whose right child is not red.
  turn_left :
      (k : K) (v : V) (j : K) (w : V) (c d b : Node K V) (m : ℕ)
      → is_red b ≡ false
      → Almost (node true j w c d) m
      → Balanced b m
      → Repaired
          (node false k v (node true j w c d) b)
          (λ t. Balanced t (suc m))
          (repair false (node false k v (node true j w c d) b))
  unfolding entries Almost Balanced is_red repair link_of rb_tree_rotate_single
      rb_tree_rotate_double set_link
  turn_left k v j w c d b m e g h = elim (Bool-cases (is_red c)) [
    | inl f ↦ record {
      tree = node false j w c (node true k v d b);
      is_some = rw (e, f) refl;
      kept = simp (append_assoc);
      holds = (g.1, (other_black d c (swapped g.0) f, e, g.2, h));
    }
    | inr f ↦ inner d f g
  ]
    where
      swapped : (is_red c ≡ false) ⊎ (is_red d ≡ false) → (is_red d ≡ false) ⊎ (is_red c ≡ false)
      swapped (inl x) = inr x
      swapped (inr x) = inl x

      inner :
          (d : Node K V)
          → is_red c ≡ false
          → Almost (node true j w c d) m
          → Repaired
              (node false k v (node true j w c d) b)
              (λ t. Balanced t (suc m))
              (repair false (node false k v (node true j w c d) b))
      inner null f g = record {
        tree = node false k v (node true j w c null) b;
        is_some = rw (e, f) refl;
        kept = simp (append_assoc);
        holds = ((f, refl, g.1, g.2), h);
      }
      inner (node false i u x y) f g = record {
        tree = node false k v (node true j w c (node false i u x y)) b;
        is_some = rw (e, f) refl;
        kept = simp (append_assoc);
        holds = ((f, refl, g.1, g.2), h);
      }
      inner (node true i u x y) f g = record {
        tree = node false i u (node true j w c x) (node true k v y b);
        is_some = rw (e, f) refl;
        kept = simp (append_assoc);
        holds = ((f, g.2.0, g.1, g.2.2), (g.2.1, e, g.2.3, h));
      }

  -- The node over the link that grew is black.
  pub repair-black_right :
      (k : K) (v : V) (a b : Node K V) (m : ℕ)
      → Balanced a m
      → Almost b m
      → Repaired (node false k v a b) (λ t. Balanced t (suc m)) (repair true (node false k v a b))
  unfolding entries Almost Balanced is_red repair link_of set_red set_link
  repair-black_right k v a null m h g = record {
    tree = node false k v a null;
    is_some = refl;
    kept = refl;
    holds = (h, g);
  }
  repair-black_right k v a (node false j w c d) m h g = record {
    tree = node false k v a (node false j w c d);
    is_some = refl;
    kept = refl;
    holds = (h, g);
  }
  repair-black_right k v null (node true j w c d) m h g = turn_right k v null j w c d m refl h g
  repair-black_right k v (node false i u x y) (node true j w c d) m h g =
      turn_right k v (node false i u x y) j w c d m refl h g
  repair-black_right k v (node true i u x y) (node true j w c d) m h g = record {
    tree = node true k v (node false i u x y) (node false j w c d);
    is_some = refl;
    kept = simp (append_assoc);
    holds = (refl, refl, (h.2, h.3), (g.1, g.2));
  }

  pub repair-black_left :
      (k : K) (v : V) (a b : Node K V) (m : ℕ)
      → Almost a m
      → Balanced b m
      → Repaired (node false k v a b) (λ t. Balanced t (suc m)) (repair false (node false k v a b))
  unfolding entries Almost Balanced is_red repair link_of set_red set_link
  repair-black_left k v null b m g h = record {
    tree = node false k v null b;
    is_some = refl;
    kept = refl;
    holds = (g, h);
  }
  repair-black_left k v (node false j w c d) b m g h = record {
    tree = node false k v (node false j w c d) b;
    is_some = refl;
    kept = refl;
    holds = (g, h);
  }
  repair-black_left k v (node true j w c d) null m g h = turn_left k v j w c d null m refl g h
  repair-black_left k v (node true j w c d) (node false i u x y) m g h =
      turn_left k v j w c d (node false i u x y) m refl g h
  repair-black_left k v (node true j w c d) (node true i u x y) m g h = record {
    tree = node true k v (node false j w c d) (node false i u x y);
    is_some = refl;
    kept = simp (append_assoc);
    holds = (refl, refl, (g.1, g.2), (h.2, h.3));
  }

  -- The node is red, and was balanced before: the link that grew was not red.
  pub repair-red_right :
      (k : K) (v : V) (a b : Node K V) (n : ℕ)
      → is_red a ≡ false
      → Balanced a n
      → Balanced b n
      → Repaired (node true k v a b) (λ t. Almost t n) (repair true (node true k v a b))
  unfolding entries Almost Balanced is_red repair link_of
  repair-red_right k v a null n e h g = record {
    tree = node true k v a null;
    is_some = refl;
    kept = refl;
    holds = (inl e, h, g);
  }
  repair-red_right k v a (node false j w c d) n e h g = record {
    tree = node true k v a (node false j w c d);
    is_some = refl;
    kept = refl;
    holds = (inl e, h, g);
  }
  repair-red_right k v a (node true j w c d) n e h g = record {
    tree = node true k v a (node true j w c d);
    is_some = rw (e, g.0, g.1) refl;
    kept = refl;
    holds = (inl e, h, g);
  }

  pub repair-red_left :
      (k : K) (v : V) (a b : Node K V) (n : ℕ)
      → is_red b ≡ false
      → Balanced a n
      → Balanced b n
      → Repaired (node true k v a b) (λ t. Almost t n) (repair false (node true k v a b))
  unfolding entries Almost Balanced is_red repair link_of
  repair-red_left k v null b n e g h = record {
    tree = node true k v null b;
    is_some = refl;
    kept = refl;
    holds = (inr e, g, h);
  }
  repair-red_left k v (node false j w c d) b n e g h = record {
    tree = node true k v (node false j w c d) b;
    is_some = refl;
    kept = refl;
    holds = (inr e, g, h);
  }
  repair-red_left k v (node true j w c d) b n e g h = record {
    tree = node true k v (node true j w c d) b;
    is_some = rw (e, g.0, g.1) refl;
    kept = simp (append_assoc);
    holds = (inr e, g, h);
  }
