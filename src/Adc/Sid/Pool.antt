-- ===== src/Adc/Sid/Pool.antt =====
-- The pool of session identifiers: what an allocation does, and what keeps the pool well formed.
use uhub.Prelude.{
  ℕ, zero, suc, ◌+◌, ◌-◌, ◌%◌, ◌^◌, ◌≤◌, ◌<◌, ◌≡◌, ◌≢◌, inl, inr, refl, sym, ◌∙◌, subst, true,
  false, some, List, [], ◌∷◌, arith, length, get_or, set, replicate, length-set, length-replicate,
  get_or-set_self, tests, ltb→lt, lt→ltb, get_or-set_ne, if◌then◌else◌, leb, ltb, ◌==◌, Bool-cases,
  ◌||◌,
}
use native.Mathlib.Numerals.{add-one}
use native.Mathlib.Nat.{mod-eq_of_lt}
use uhub.Adc.Sid.{
  Slot, vacant, reserved, held, SidPool, is_set, sid_pool_create, Alloc, full, allocated, overrun,
  diverged, store_slot, sid_alloc, sid_free, sid_lookup,
}
use uhub.Adc.Sid.Scan.{
  count_set, cell, IsPool, count_set-set_held, Found, IsFresh, store-IsFresh, search_slot-total,
}

-- What an allocation does: it finds the pool full, hands out a fresh identifier, or overruns the map.
pub data Allocates {ℓ} {U : Type ℓ} (pool : SidPool U) (user : U) : Alloc U → Type ℓ where
  is_full : pool.max ≤ pool.count + 1 → Allocates pool user full
  is_fresh :
      {q : SidPool U} {n : ℕ}
      → pool.count + 1 < pool.max
      → IsFresh pool user q n
      → Allocates pool user (allocated q n)
  is_overrun :
      {n : ℕ}
      → pool.count + 1 < pool.max
      → pool.max ≤ n
      → ((i : ℕ) → pool.count < i → i < pool.max → is_set (cell pool i) ≡ true)
      → Allocates pool user (overrun n)

count_set-replicate {ℓ} : (U : Type ℓ) (n : ℕ) → count_set (replicate {A = Slot U} n vacant) ≡ 0
count_set-replicate U zero = refl
count_set-replicate U (suc n) = omega (arith, count_set-replicate U n)

module _ {ℓ} {U : Type ℓ} where
  store-Allocates :
      (pool : SidPool U) (user : U)
      → IsPool pool
      → pool.count + 1 < pool.max
      → (n : ℕ) → pool.count + 1 ≤ n
      → is_set (cell pool (n % pool.max)) ≡ false
      → ((i : ℕ) → pool.count + 1 ≤ i → i < n → is_set (cell pool (i % pool.max)) ≡ true)
      → Allocates pool user (store_slot (record pool { count = pool.count + 1 }) user (some n))
  unfolding store_slot
  store-Allocates pool user v less n le free before = elim (Bool-cases (ltb n pool.max)) [
    | inl lt ↦
        let small : n < pool.max = ltb→lt n pool.max lt in
        rw lt (
          is_fresh less (
            store-IsFresh pool user n v less small (omega arith)
              (subst (λ i. is_set (cell pool i) ≡ false) (mod-eq_of_lt small) free)))
    | inr ge ↦
        let large : pool.max ≤ n = ground arith in
        rw ge (
          is_overrun less large λ i a b.
            subst (λ i. is_set (cell pool i) ≡ true) (mod-eq_of_lt b)
              (before i (omega arith) (omega arith)))
  ]

  -- In a well-formed pool the scan for a free cell always ends, and the allocation reports that
  -- the pool is full exactly when no identifier is left, hands out a free non-zero identifier
  -- whose lookup gives the user, leaving every other lookup and the pool's form as they were, or
  -- writes past the map, in which case every cell above the old count is taken.
  pub sid_alloc-Allocates :
      (pool : SidPool U) (user : U) → IsPool pool → Allocates pool user (sid_alloc pool user)
  unfolding sid_alloc Found
  sid_alloc-Allocates pool user v = elim (Bool-cases (leb (pool.max - pool.min) pool.count)) [
    | inl e ↦ rw e (is_full (omega (tests, v.min_is)))
    | inr e ↦
        let less : pool.count + 1 < pool.max = ground (arith, v.min_is) in
        let (n, found, le, free, before) = search_slot-total pool v less in
        rw (e, found) (store-Allocates pool user v less n le free before)
  ]

  -- When an identifier is left but every cell above the old count is taken, the allocation
  -- always writes past the end of the map.
  pub sid_alloc-overrun :
      (pool : SidPool U) (user : U)
      → IsPool pool
      → pool.count + 1 < pool.max
      → ((i : ℕ) → pool.count < i → i < pool.max → is_set (cell pool i) ≡ true)
      → (n : ℕ) × (sid_alloc pool user ≡ overrun n) × (pool.max ≤ n)
  sid_alloc-overrun pool user v less busy =
      go (sid_alloc pool user) refl (sid_alloc-Allocates pool user v)
    where
      go :
          (a : Alloc U)
          → sid_alloc pool user ≡ a
          → Allocates pool user a
          → (n : ℕ) × (sid_alloc pool user ≡ overrun n) × (pool.max ≤ n)
      go full e (is_full h) = absurd (omega arith)
      go (allocated q n) e (is_fresh h f) =
          absurd (unfold sid_lookup in ground (arith, busy n f.1 f.2, f.5))
      go diverged e a = elim a [ ]
      go (overrun n) e (is_overrun h le b) = (n, e, le)

  count_set-le : (ss : List (Slot U)) → count_set ss ≤ length ss
  count_set-le [] = omega arith
  count_set-le (s ∷ ss) = ground (arith, count_set-le ss)

  get_or-replicate : (n i : ℕ) → get_or (replicate {A = Slot U} n vacant) i vacant ≡ vacant
  get_or-replicate zero i = refl
  get_or-replicate (suc n) zero = refl
  get_or-replicate (suc n) (suc i) = get_or-replicate n i

  -- Cell 0 and the cell of a user are two.
  count_set-two :
      (ss : List (Slot U)) (i : ℕ) (u : U)
      → 0 < i
      → get_or ss 0 vacant ≡ reserved
      → get_or ss i vacant ≡ held u
      → 1 < count_set ss
  count_set-two [] i u h f e = cc
  count_set-two (s ∷ ss) zero u h f e = elim h [ ]
  count_set-two (s ∷ ss) (suc i) u h f e = ground (arith, count_set-set_held ss i u e)

  held_cell :
      (pool : SidPool U) (sid : ℕ) (user : U)
      → sid_lookup pool sid ≡ held user
      → (0 < sid) × (sid < pool.max) × (cell pool sid ≡ held user)
  unfolding sid_lookup
  held_cell pool sid user e = ground arith

  -- Freeing the identifier of a user keeps the pool well formed, vacates that identifier alone and
  -- lowers the count by one.
  pub sid_free-IsPool :
      (pool : SidPool U) (sid : ℕ) (user : U)
      → IsPool pool
      → sid_lookup pool sid ≡ held user
      → (q : SidPool U) × (sid_free pool sid ≡ some q)
        × IsPool q
        × (q.count + 1 ≡ pool.count)
        × (sid_lookup q sid ≡ vacant)
        × ((s : ℕ) → s ≢ sid → sid_lookup q s ≡ sid_lookup pool s)
  unfolding sid_free sid_lookup
  sid_free-IsPool pool sid user v e =
      let (pos, lt, at) = held_cell pool sid user e in
      let used = count_set-set_held pool.map sid user at in
      let small : pool.count < 2 ^ 32 =
        omega (arith, v.room, v.counted, v.sized, count_set-le pool.map) in
      let some_user : 0 < pool.count =
        omega (arith, v.counted, count_set-two pool.map sid user pos v.first at) in
      (
        record pool { map = set pool.map sid vacant; count = (pool.count + (2 ^ 32 - 1)) % 2 ^ 32 },
        rw (lt→ltb sid pool.max lt),
        record {
          min_is = v.min_is;
          sized = length-set pool.map sid vacant ∙ v.sized;
          room = v.room;
          first = get_or-set_ne pool.map sid 0 vacant vacant (omega arith) ∙ v.first;
          counted = omega (arith, v.counted);
        },
        omega arith,
        ground (arith, v.sized, get_or-set_self pool.map sid vacant vacant),
        λ s ne. ground (arith, get_or-set_ne pool.map sid s vacant vacant (λ e. ne (sym e))),
      )

  -- A fresh pool is well formed, counts no user, and every lookup in it is null.
  pub sid_pool_create-IsPool :
      (max : ℕ)
      → max < 2 ^ 31
      → IsPool (sid_pool_create {U = U} max)
        × ((s : ℕ) → sid_lookup (sid_pool_create {U = U} max) s ≡ vacant)
  unfolding sid_pool_create sid_lookup
  sid_pool_create-IsPool max h = rw add-one (
    record {
      min_is = refl;
      sized = omega (arith, length-replicate {A = Slot U} max vacant);
      room = omega arith;
      first = refl;
      counted = omega (arith, count_set-replicate U max);
    },
    λ s. lookup_fresh max s,
  )
    where
      lookup_fresh :
          (max s : ℕ)
          → (if s == 0 || leb (suc max) s
              then vacant
              else get_or {A = Slot U} (reserved ∷ replicate max vacant) s vacant)
            ≡ vacant
      lookup_fresh max zero = refl
      lookup_fresh max (suc s) = ground (arith, get_or-replicate max s)
