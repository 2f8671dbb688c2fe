-- ===== src/Util/RbTree/Strcmp.antt =====
-- The order of the trees in src/core/usermanager.c, and that it is one.
use uhub.Prelude.{◌≡◌, refl, [], ◌∷◌, arith, ltb, if◌then◌else◌, Bytes}
use uhub.Util.RbTree.{Order, less, same, more}
use uhub.Util.RbTree.Sorted.{IsOrder}

-- `strcmp`, by the first bytes that differ, and the shorter of two texts before the longer.
unfoldable pub uman_map_compare : Bytes → Bytes → Order
uman_map_compare [] [] = same
uman_map_compare [] (d ∷ ds) = less
uman_map_compare (c ∷ cs) [] = more
uman_map_compare (c ∷ cs) (d ∷ ds) =
    let rest = uman_map_compare cs ds in if ltb c d then less else if ltb d c then more else rest

same_text : (x y : Bytes) → uman_map_compare x y ≡ same → x ≡ y
unfolding uman_map_compare
same_text [] [] e = refl
same_text [] (d ∷ ds) e = ground arith
same_text (c ∷ cs) [] e = ground arith
same_text (c ∷ cs) (d ∷ ds) e = grind (arith, same_text cs ds)

flipped_more : (x y : Bytes) → uman_map_compare x y ≡ more → uman_map_compare y x ≡ less
unfolding uman_map_compare
flipped_more [] [] e = ground arith
flipped_more [] (d ∷ ds) e = ground arith
flipped_more (c ∷ cs) [] e = refl
flipped_more (c ∷ cs) (d ∷ ds) e = ground (arith, flipped_more cs ds)

flipped_less : (x y : Bytes) → uman_map_compare x y ≡ less → uman_map_compare y x ≡ more
unfolding uman_map_compare
flipped_less [] [] e = ground arith
flipped_less [] (d ∷ ds) e = refl
flipped_less (c ∷ cs) [] e = ground arith
flipped_less (c ∷ cs) (d ∷ ds) e = ground (arith, flipped_less cs ds)

transitive :
    (x y z : Bytes)
    → uman_map_compare x y ≡ less
    → uman_map_compare y z ≡ less
    → uman_map_compare x z ≡ less
unfolding uman_map_compare
transitive [] [] z e f = f
transitive [] (d ∷ ds) [] e f = ground arith
transitive [] (d ∷ ds) (b ∷ bs) e f = refl
transitive (c ∷ cs) [] z e f = ground arith
transitive (c ∷ cs) (d ∷ ds) [] e f = ground arith
transitive (c ∷ cs) (d ∷ ds) (b ∷ bs) e f = ground (arith, transitive cs ds bs)

pub uman_map_compare-IsOrder : IsOrder uman_map_compare
uman_map_compare-IsOrder = record {
  same_key = same_text;
  flip_more = flipped_more;
  flip_less = flipped_less;
  less_trans = transitive;
}
