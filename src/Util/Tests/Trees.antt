-- ===== src/Util/Tests/Trees.antt =====
-- An insertion of the model of src/util/rbtree.c that turns the tree.
use uhub.Prelude.{ℕ, ◌≡◌, refl, true, false, Bool, some, arith, Bytes, codes}
use uhub.Util.RbTree.{RbTree, null, node, is_red, rb_tree_insert, rb_tree_get}
use uhub.Util.RbTree.Balance.{Balanced, entries}
use uhub.Util.RbTree.Strcmp.{uman_map_compare, uman_map_compare-IsOrder}
use uhub.Util.RbTree.Lookup.{IsTree, inserted, rb_tree_insert-IsTree}

abbrev names : RbTree Bytes ℕ
names = record {
  root = node false (codes "ann") 1 null (node true (codes "bob") 2 null null);
  elements = 2;
}

names-IsTree : IsTree uman_map_compare uman_map_compare-IsOrder names
unfolding is_red Balanced entries uman_map_compare
names-IsTree = record {
  height = 1;
  black = refl;
  balanced = (refl, (refl, refl, refl, refl));
  sorted = ((refl, tt), (tt, tt));
  counted = refl;
}

tree_example :
    (tree' : RbTree Bytes ℕ) × (fresh : Bool) × (rb_tree_insert uman_map_compare names
        (codes "eve")
        3
      ≡ some (tree', fresh))
    × IsTree uman_map_compare uman_map_compare-IsOrder tree'
    × ((k : Bytes)
        → rb_tree_get uman_map_compare tree' k
          ≡ inserted
              (rb_tree_get uman_map_compare names (codes "eve"))
              (uman_map_compare (codes "eve") k)
              3
              (rb_tree_get uman_map_compare names k))
tree_example =
    rb_tree_insert-IsTree uman_map_compare uman_map_compare-IsOrder names (codes "eve") 3
      names-IsTree (omega arith)
