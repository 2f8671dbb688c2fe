-- ===== src/Core/UserManager/Maps.antt =====
-- The single operations on the lists and the maps of src/core/usermanager.c.
use uhub.Prelude.{
  ℕ, suc, ◌≡◌, refl, ap, sym, ◌∙◌, Bool, true, false, ◌||◌, List, [], ◌∷◌, Option, none, some,
  arith, length, Bytes, bytes_eq, bytes_eq_iff, ◌==◌, ==_iff, inl, inr, Bool-cases, subst,
}
use uhub.Core.Route.Recipients.{member, Distinct, true≢false}
use uhub.Core.UserManager.{
  Map, rb_tree_get, rb_tree_insert, rb_tree_remove, list_append, list_remove,
}

pub bytes_eq_refl : (k : Bytes) → bytes_eq k k ≡ true
bytes_eq_refl k = (bytes_eq_iff k k).1 refl

pub get-hit :
    (map : Map) (key k : Bytes) (sid : ℕ)
    → bytes_eq key k ≡ true
    → rb_tree_get ((key, sid) ∷ map) k ≡ some sid
unfolding rb_tree_get
get-hit map key k sid e = rw e refl

pub get-miss :
    (map : Map) (key k : Bytes) (sid : ℕ)
    → bytes_eq key k ≡ false
    → rb_tree_get ((key, sid) ∷ map) k ≡ rb_tree_get map k
unfolding rb_tree_get
get-miss map key k sid e = rw e refl

pub some-eq {ℓ} : {A : Type ℓ} → {a b : A} → ◌≡◌ {A = Option A} (some a) (some b) → a ≡ b
some-eq e = cc

pub or-true : (b : Bool) → (b || true) ≡ true
or-true true = refl
or-true false = refl

pub insert-fresh :
    (map : Map) (key : Bytes) (sid : ℕ)
    → rb_tree_get map key ≡ none
    → rb_tree_insert map key sid ≡ (key, sid) ∷ map
unfolding rb_tree_insert
insert-fresh map key sid e = rw (e, rb_tree_insert) refl

pub remove_self : (map : Map) (key : Bytes) → rb_tree_get (rb_tree_remove map key) key ≡ none
unfolding rb_tree_get rb_tree_remove
remove_self [] key = refl
remove_self ((k, sid) ∷ rest) key = ground (arith, remove_self rest key)

pub remove-other :
    (map : Map) (key other : Bytes)
    → bytes_eq key other ≡ false
    → rb_tree_get (rb_tree_remove map key) other ≡ rb_tree_get map other
unfolding rb_tree_get rb_tree_remove
remove-other [] key other ne = refl
remove-other ((k, sid) ∷ rest) key other ne = elim (Bool-cases (bytes_eq k key)) [
  | inl e ↦
      let same : k ≡ key = (bytes_eq_iff k key).0 e in
      let apart : bytes_eq k other ≡ false = subst (λ x. bytes_eq x other ≡ false) (sym same) ne in
      rw (e, apart) (remove-other rest key other ne)
  | inr n ↦ elim (Bool-cases (bytes_eq k other)) [
    | inl f ↦ rw (n, f) refl
    | inr f ↦ rw (n, f) (remove-other rest key other ne)
  ]
]

pub member-append :
    (s t : ℕ) (list : List ℕ) → member s (list_append list t) ≡ (s == t || member s list)
unfolding list_append
member-append s t [] = refl
member-append s t (x ∷ list) = ground (arith, member-append s t list)

pub member-remove :
    (s t : ℕ) (list : List ℕ) → (s == t) ≡ false → member s (list_remove list t) ≡ member s list
unfolding list_remove
member-remove s t [] ne = refl
member-remove s t (x ∷ list) ne = ground (arith, member-remove s t list ne)

pub member-remove_self :
    (t : ℕ) (list : List ℕ) → Distinct list → member t (list_remove list t) ≡ false
unfolding list_remove
member-remove_self t [] d = refl
member-remove_self t (x ∷ list) d = elim (Bool-cases (x == t)) [
  | inl e ↦ rw e (subst (λ y. member y list ≡ false) ((==_iff x t).0 e) d.0)
  | inr ne ↦ rw ne (ground (arith, member-remove_self t list d.1))
]

pub member-remove_le :
    (s t : ℕ) (list : List ℕ) → member s list ≡ false → member s (list_remove list t) ≡ false
unfolding list_remove
member-remove_le s t [] e = refl
member-remove_le s t (x ∷ list) e = ground (arith, member-remove_le s t list)

pub Distinct-remove : (t : ℕ) (list : List ℕ) → Distinct list → Distinct (list_remove list t)
unfolding list_remove
Distinct-remove t [] d = tt
Distinct-remove t (x ∷ list) d = elim (Bool-cases (x == t)) [
  | inl e ↦ rw e d.1
  | inr ne ↦ rw ne (member-remove_le x t list d.0, Distinct-remove t list d.1)
]

pub Distinct-append :
    (t : ℕ) (list : List ℕ) → member t list ≡ false → Distinct list → Distinct (list_append list t)
unfolding list_append
Distinct-append t [] n d = (refl, tt)
Distinct-append t (x ∷ list) n d =
    (member-append x t list ∙ ground arith, Distinct-append t list (ground arith) d.1)

pub length-append_one : (t : ℕ) (list : List ℕ) → length (list_append list t) ≡ suc (length list)
unfolding list_append
length-append_one t [] = refl
length-append_one t (x ∷ list) = ap suc (length-append_one t list)

pub length-remove :
    (t : ℕ) (list : List ℕ) → member t list ≡ true → suc (length (list_remove list t)) ≡ length list
unfolding list_remove
length-remove t [] m = absurd (true≢false (sym m))
length-remove t (x ∷ list) m = elim (Bool-cases (x == t)) [
  | inl e ↦ rw e refl
  | inr ne ↦ rw ne (ap suc (length-remove t list (ground arith)))
]
