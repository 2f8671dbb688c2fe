-- ===== src/Util/RbTree/Sorted.antt =====
-- The search of src/util/rbtree.c on a tree whose keys are in order.
use uhub.Prelude.{
  subst, ◌≡◌, refl, sym, ap, ◌∙◌, Option, none, some, List, [], ◌∷◌, ◌++◌, All, All-append,
}
use uhub.Util.RbTree.{Order, less, same, more, Node, null, node, tree_search}
use uhub.Util.RbTree.Balance.{entries}

-- A comparison of keys is a strict order: `strcmp` on names is one.
pub record IsOrder {K : Type 0} (compare : K → K → Order) : Type 0 where
  pub same_key : (x y : K) → compare x y ≡ same → x ≡ y
  pub flip_more : (x y : K) → compare x y ≡ more → compare y x ≡ less
  pub flip_less : (x y : K) → compare x y ≡ less → compare y x ≡ more
  pub less_trans : (x y z : K) → compare x y ≡ less → compare y z ≡ less → compare x z ≡ less

abbrev pub other_or {ℓ} : {A : Type ℓ} → Order → A → A → A
other_or same a b = a
other_or less a b = b
other_or more a b = b

All-split {ℓ} :
    {A : Type ℓ} → (P : A → Type 0) (xs ys : List A) → All P (xs ++ ys) → All P xs × All P ys
All-split P [] ys h = (tt, h)
All-split P (x ∷ xs) ys h = let (a, b) = All-split P xs ys h.1 in ((h.0, a), b)

module _ {K V : Type 0} (compare : K → K → Order) (order : IsOrder compare) where
  abbrev pub Below : K → List (K × V) → Type 0
  Below key = All (λ (e : K × V). compare e.0 key ≡ less)

  abbrev pub Above : K → List (K × V) → Type 0
  Above key = All (λ (e : K × V). compare key e.0 ≡ less)

  -- The keys are in order, and none is there twice.
  abbrev pub Sorted : List (K × V) → Type 0
  Sorted [] = Unit
  Sorted (e ∷ es) = Above e.0 es × Sorted es

  -- The value of a key in a list.
  abbrev pub find : K → List (K × V) → Option V
  find key [] = none
  find key (e ∷ es) = other_or (compare e.0 key) (some e.1) (find key es)

  pub Above-weaken : (x y : K) (es : List (K × V)) → compare x y ≡ less → Above y es → Above x es
  Above-weaken x y [] h a = tt
  Above-weaken x y (e ∷ es) h a = (order.less_trans x y e.0 h a.0, Above-weaken x y es h a.1)

  pub Below-weaken : (x y : K) (es : List (K × V)) → compare x y ≡ less → Below x es → Below y es
  Below-weaken x y [] h a = tt
  Below-weaken x y (e ∷ es) h a = (order.less_trans e.0 x y a.0 h, Below-weaken x y es h a.1)

  -- The parts of a sorted list around one of its entries.
  pub Sorted-around :
      (xs : List (K × V)) (e : K × V) (ys : List (K × V))
      → Sorted (xs ++ e ∷ ys)
      → Sorted xs × Below e.0 xs × Above e.0 ys × Sorted ys
  Sorted-around [] e ys h = (tt, tt, h.0, h.1)
  Sorted-around (x ∷ xs) e ys h =
      let (a, b, c, d) = Sorted-around xs e ys h.1 in
      let parts = All-split (λ (y : K × V). compare x.0 y.0 ≡ less) xs (e ∷ ys) h.0 in
      ((parts.0, a), (parts.1.0, b), c, d)

  pub Sorted-join :
      (xs : List (K × V)) (e : K × V) (ys : List (K × V))
      → Sorted xs
      → Below e.0 xs
      → Above e.0 ys
      → Sorted ys
      → Sorted (xs ++ e ∷ ys)
  Sorted-join [] e ys a b c d = (c, d)
  Sorted-join (x ∷ xs) e ys a b c d = (
    All-append (λ (y : K × V). compare x.0 y.0 ≡ less) xs (e ∷ ys) a.0
        (b.0, Above-weaken x.0 e.0 ys b.0 c),
    Sorted-join xs e ys a.1 b.1 c d,
  )

  -- What is below or above a key has not got it.
  pub find-Below :
      (key : K) (xs ys : List (K × V)) → Below key xs → find key (xs ++ ys) ≡ find key ys
  find-Below key [] ys h = refl
  find-Below key (x ∷ xs) ys h =
      ap (λ o. other_or o (some x.1) (find key (xs ++ ys))) h.0 ∙ find-Below key xs ys h.1

  pub find-Above :
      (key : K) (xs ys : List (K × V)) → Above key ys → find key (xs ++ ys) ≡ find key xs
  find-Above key [] [] h = refl
  find-Above key [] (y ∷ ys) h =
      ap (λ o. other_or o (some y.1) (find key ys)) (order.flip_less key y.0 h.0)
      ∙ find-Above key [] ys h.1
  find-Above key (x ∷ xs) ys h =
      ap (λ r. other_or (compare x.0 key) (some x.1) r) (find-Above key xs ys h)

  -- An entry put behind lower ones is found under its key, and changes nothing for another key.
  pub find-insert :
      (key key' : K) (value : V) (xs ys : List (K × V))
      → Below key xs
      → find key' (xs ++ (key, value) ∷ ys)
        ≡ other_or (compare key key') (some value) (find key' (xs ++ ys))
  find-insert key key' value [] ys h = refl
  find-insert key key' value (x ∷ xs) ys h =
      step (compare x.0 key') refl (find-insert key key' value xs ys h.1)
    where
      step :
          (o : Order)
          → compare x.0 key' ≡ o
          → find key' (xs ++ (key, value) ∷ ys)
            ≡ other_or (compare key key') (some value) (find key' (xs ++ ys))
          → other_or o (some x.1) (find key' (xs ++ (key, value) ∷ ys))
            ≡ other_or
                (compare key key')
                (some value)
                (other_or o (some x.1) (find key' (xs ++ ys)))
      step same e rest = sym (
          ap (λ o. other_or o (some value) (some x.1))
            (subst (λ y. compare key y ≡ more) (order.same_key x.0 key' e)
              (order.flip_less x.0 key h.0)))
      step less e rest = rest
      step more e rest = rest

  -- The search goes the way to the key.
  pub tree_search-find :
      (t : Node K V) (key : K)
      → Sorted (entries t)
      → tree_search compare t key ≡ find key (entries t)
  unfolding tree_search entries
  tree_search-find null key h = refl
  tree_search-find (node r k v a b) key h =
      let (sa, below, above, sb) = Sorted-around (entries a) (k, v) (entries b) h in
      step (compare k key) refl below above (tree_search-find a key sa) (tree_search-find b key sb)
    where
      step :
          (o : Order)
          → compare k key ≡ o
          → Below k (entries a)
          → Above k (entries b)
          → tree_search compare a key ≡ find key (entries a)
          → tree_search compare b key ≡ find key (entries b)
          → (elim o as (λ _. Option V) [
            | same ↦ some v
            | less ↦ tree_search compare b key
            | more ↦ tree_search compare a key
          ])
            ≡ find key (entries a ++ (k, v) ∷ entries b)
      step same e below above ea eb = sym (
          find-Below key (entries a) ((k, v) ∷ entries b)
            (subst (λ x. Below x (entries a)) (order.same_key k key e) below)
          ∙ ap (λ o. other_or o (some v) (find key (entries b))) e)
      step less e below above ea eb =
          eb
          ∙ sym (
              find-Below key (entries a) ((k, v) ∷ entries b)
                (Below-weaken k key (entries a) e below)
              ∙ ap (λ o. other_or o (some v) (find key (entries b))) e)
      step more e below above ea eb =
          ea
          ∙ sym (
              find-Above key (entries a) ((k, v) ∷ entries b) (
                order.flip_more k key e,
                Above-weaken key k (entries b) (order.flip_more k key e) above,
              ))

  pub Sorted-without : (xs ys : List (K × V)) → Sorted (xs ++ ys) → Sorted xs × Sorted ys
  Sorted-without [] ys h = (tt, h)
  Sorted-without (x ∷ xs) ys h =
      let (a, b) = Sorted-without xs ys h.1 in
      (((All-split (λ (y : K × V). compare x.0 y.0 ≡ less) xs ys h.0).0, a), b)
