-- ===== src/Util/RbTree.antt =====
-- The red-black trees of src/util/rbtree.c: search and insertion. A node is the tree below it; the
-- key's comparison is a parameter, as it is a function of the tree.
-- `none` as a result is a null pointer that the code follows, or the failed insertion of a key that
-- is already there.
pub mod Balance
pub mod Sorted
pub mod Insert
pub mod Strcmp
pub mod Lookup
use uhub.Prelude.{
  ℕ, ◌+◌, ◌%◌, ◌^◌, Bool, true, false, not, Option, none, some, List, [], ◌∷◌, ◌++◌, if◌then◌else◌,
}

-- The sign of a comparison.
pub data Order : Type 0 where
  less same more : Order

-- A node has its colour, true for red, its key, its value, and its links 0 and 1.
pub data Node (K V : Type 0) : Type 0 where
  null : Node K V
  node : Bool → K → V → Node K V → Node K V → Node K V

pub record RbTree (K V : Type 0) : Type 0 where
  pub root : Node K V
  pub elements : ℕ

module _ {K V : Type 0} where
  unfoldable pub is_red : Node K V → Bool
  is_red null = false
  is_red (node red k v a b) = red

  -- `link[dir]` of a node, and of no node none.
  unfoldable pub link_of : Bool → Node K V → Node K V
  link_of dir null = null
  link_of false (node red k v a b) = a
  link_of true (node red k v a b) = b

  unfoldable pub set_link : Bool → Node K V → Node K V → Node K V
  set_link dir null child = null
  set_link false (node red k v a b) child = node red k v child b
  set_link true (node red k v a b) child = node red k v a child

  unfoldable pub set_red : Bool → Node K V → Node K V
  set_red red null = null
  set_red red (node old k v a b) = node red k v a b

  unfoldable pub rb_tree_rotate_single : Node K V → Bool → Option (Node K V)
  rb_tree_rotate_single null dir = none
  rb_tree_rotate_single (node r k v null c) true = none
  rb_tree_rotate_single (node r k v (node s j w a b) c) true =
      some (node false j w a (node true k v b c))
  rb_tree_rotate_single (node r k v a null) false = none
  rb_tree_rotate_single (node r k v a (node s j w b c)) false =
      some (node false j w (node true k v a b) c)

  unfoldable pub rb_tree_rotate_double : Node K V → Bool → Option (Node K V)
  unfolding rb_tree_rotate_single link_of set_link
  rb_tree_rotate_double n dir = elim (rb_tree_rotate_single (link_of (not dir) n) (not dir)) [
    | none ↦ none
    | some child ↦ rb_tree_rotate_single (set_link (not dir) n child) dir
  ]

  -- What an insertion does to a node after its link in the direction is set.
  unfoldable pub repair : Bool → Node K V → Option (Node K V)
  unfolding is_red link_of set_red set_link rb_tree_rotate_single rb_tree_rotate_double
  repair dir n =
      let grown = link_of dir n in
      let beside = link_of (not dir) n in
      if is_red grown
      then if is_red beside
        then some (
            set_red true
              (set_link dir (set_link (not dir) n (set_red false beside)) (set_red false grown)))
        else if is_red (link_of dir grown)
        then rb_tree_rotate_single n (not dir)
        else if is_red (link_of (not dir) grown)
        then rb_tree_rotate_double n (not dir)
        else some n
      else some n

  abbrev pub repaired : Bool → Node K V → Option (Node K V) → Option (Node K V)
  repaired dir n none = none
  repaired dir n (some child) = repair dir (set_link dir n child)

  module _ (compare : K → K → Order) where
    unfoldable pub tree_search : Node K V → K → Option V
    tree_search null key = none
    tree_search (node red k v a b) key = elim (compare k key) [
      | same ↦ some v
      | less ↦ tree_search b key
      | more ↦ tree_search a key
    ]

    unfoldable pub rb_tree_insert_r : Node K V → K → V → Option (Node K V)
    unfolding repair set_link
    rb_tree_insert_r null key value = some (node true key value null null)
    rb_tree_insert_r (node red k v a b) key value = elim (compare k key) [
      | same ↦ none
      | less ↦ repaired true (node red k v a b) (rb_tree_insert_r b key value)
      | more ↦ repaired false (node red k v a b) (rb_tree_insert_r a key value)
    ]

    -- The tree, and whether the key was new.
    unfoldable pub rb_tree_insert : RbTree K V → K → V → Option (RbTree K V × Bool)
    unfolding tree_search rb_tree_insert_r set_red
    rb_tree_insert tree key value = elim (tree_search tree.root key) [
      | some found ↦ some (tree, false)
      | none ↦ elim (rb_tree_insert_r tree.root key value) [
        | none ↦ none
        | some root ↦
            some
              (record { root = set_red false root; elements = (tree.elements + 1) % 2 ^ 64 }, true)
      ]
    ]

    unfoldable pub rb_tree_get : RbTree K V → K → Option V
    unfolding tree_search
    rb_tree_get tree key = tree_search tree.root key
