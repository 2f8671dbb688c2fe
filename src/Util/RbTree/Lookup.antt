-- ===== src/Util/RbTree/Lookup.antt =====
-- The trees of src/util/rbtree.c as maps: what a search finds after an insertion.
use uhub.Prelude.{
  ℕ, suc, ◌+◌, ◌%◌, ◌^◌, ◌<◌, ◌≡◌, refl, sym, ap, ◌∙◌, Bool, true, false, Option, none, some, ◌∷◌,
  ◌++◌, length, length-append, arith, Option-cases, inl, inr, subst,
}
use uhub.Util.RbTree.{
  Order, Node, null, node, RbTree, is_red, set_red, tree_search, rb_tree_insert, rb_tree_get,
}
use uhub.Util.RbTree.Balance.{Balanced, Almost, entries}
use uhub.Util.RbTree.Sorted.{
  IsOrder, Sorted, Sorted-join, find, find-insert, tree_search-find, other_or, Sorted-without,
}
use uhub.Util.RbTree.Insert.{rb_tree_insert_r-Grown}

-- What is found under a key after another was inserted, from what was found under each.
abbrev pub inserted : {V : Type 0} → Option V → Order → V → Option V → Option V
inserted none o value old = other_or o (some value) old
inserted (some found) o value old = old

module _ {K V : Type 0} (compare : K → K → Order) (order : IsOrder compare) where
  -- A search tree with its keys in order, balanced, its root black and its entries counted.
  pub record IsTree (tree : RbTree K V) : Type 0 where
    pub height : ℕ
    pub black : is_red tree.root ≡ false
    pub balanced : Balanced tree.root height
    pub sorted : Sorted compare order (entries tree.root)
    pub counted : tree.elements ≡ length (entries tree.root)

  blackened :
      (t : Node K V) (n : ℕ)
      → Almost t n
      → (is_red (set_red false t) ≡ false)
        × (entries (set_red false t) ≡ entries t)
        × (m : ℕ) × Balanced (set_red false t) m
  unfolding Almost Balanced set_red is_red entries
  blackened null n h = (refl, refl, n, h)
  blackened (node true k v a b) n h = (refl, refl, suc n, (h.1, h.2))
  blackened (node false k v a b) n h = (refl, refl, n, h)

  -- Below 2^64 entries, an insertion ends, with a tree that is again balanced and in order, in
  -- which every key is found that was, with its value, and the new key with the new value unless it
  -- was there before.
  pub rb_tree_insert-IsTree :
      (tree : RbTree K V) (key : K) (value : V)
      → IsTree tree
      → tree.elements + 1 < 2 ^ 64
      → (tree' : RbTree K V) × (fresh : Bool) × (rb_tree_insert compare tree key value
          ≡ some (tree', fresh))
        × IsTree tree'
        × ((k : K)
            → rb_tree_get compare tree' k
              ≡ inserted
                  (rb_tree_get compare tree key)
                  (compare key k)
                  value
                  (rb_tree_get compare tree k))
  unfolding rb_tree_insert rb_tree_get
  rb_tree_insert-IsTree tree key value h room =
      elim (Option-cases (tree_search compare tree.root key)) [
        | inr (found, e) ↦ (tree, false, rw (e, rb_tree_insert) refl, h, λ k. rw (e) refl)
        | inl e ↦
            let g =
              rb_tree_insert_r-Grown compare order tree.root h.height key value h.balanced h.sorted
                e in
            let (black, same_entries, height, balanced) = blackened g.tree h.height g.almost in
            let now : entries (set_red false g.tree) ≡ g.before ++ (key, value) ∷ g.after =
              same_entries ∙ g.new in
            let halves =
              Sorted-without compare order g.before g.after
                (subst (Sorted compare order) g.old h.sorted) in
            let in_order = subst (Sorted compare order) (sym now) (
              Sorted-join compare order g.before (key, value) g.after halves.0 g.below g.above
                halves.1) in
            (
              record { root = set_red false g.tree; elements = (tree.elements + 1) % 2 ^ 64 },
              true,
              rw (e, g.is_some, rb_tree_insert) refl,
              record {
                height = height;
                black = black;
                balanced = balanced;
                sorted = in_order;
                counted = omega (
                  arith,
                  h.counted,
                  room,
                  ap length g.old,
                  ap length now,
                  length-append g.before g.after,
                  length-append g.before ((key, value) ∷ g.after),
                );
              },
              λ k.
                  tree_search-find compare order (set_red false g.tree) k in_order
                  ∙ ap (find compare order k) now
                  ∙ find-insert compare order key k value g.before g.after g.below
                  ∙ ap (other_or (compare key k) (some value)) (
                      sym (
                        tree_search-find compare order tree.root k h.sorted
                        ∙ ap (find compare order k) g.old))
                  ∙ ap (λ o. inserted o (compare key k) value (tree_search compare tree.root k))
                      (sym e),
            )
      ]
