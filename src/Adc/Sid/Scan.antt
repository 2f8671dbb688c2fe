-- ===== src/Adc/Sid/Scan.antt =====
-- The search of sid_alloc for a free cell, and what it leaves in the map.
use uhub.Prelude.{
  ℕ, zero, suc, ◌+◌, ◌-◌, ◌*◌, ◌%◌, ◌^◌, ◌≤◌, ◌<◌, ◌≡◌, ◌≢◌, inl, inr, refl, sym, ◌∙◌, subst, true,
  false, some, List, [], ◌∷◌, arith, length, get_or, set, length-set, get_or-set_self,
  get_or-set_ne, if◌then◌else◌, Bool-cases,
}
use native.Mathlib.Decide.{ℕ_discrete}
use uhub.Adc.Sid.{Slot, vacant, reserved, held, SidPool, is_set, search_slot, sid_lookup}

module _ {ℓ} {U : Type ℓ} where
  abbrev pub count_set : List (Slot U) → ℕ
  count_set [] = 0
  count_set (s ∷ ss) = (if is_set s then 1 else 0) + count_set ss

  abbrev pub cell : SidPool U → ℕ → Slot U
  cell pool n = get_or pool.map n vacant

  -- `count` is the number of users in the map, cell 0 is taken, and no counter can wrap.
  pub record IsPool (pool : SidPool U) : Type ℓ where
    pub min_is : pool.min ≡ 1
    pub sized : length pool.map ≡ pool.max
    pub room : pool.max ≤ 2 ^ 31
    pub first : cell pool 0 ≡ reserved
    pub counted : count_set pool.map ≡ pool.count + 1

  pub count_set-set_vacant :
      (ss : List (Slot U)) (i : ℕ) (u : U)
      → i < length ss
      → is_set (get_or ss i vacant) ≡ false
      → count_set (set ss i (held u)) ≡ count_set ss + 1
  count_set-set_vacant [] i u h e = elim h [ ]
  count_set-set_vacant (s ∷ ss) zero u h e = ground arith
  count_set-set_vacant (s ∷ ss) (suc i) u h e =
      omega (arith, count_set-set_vacant ss i u (omega arith) e)

  pub count_set-set_held :
      (ss : List (Slot U)) (i : ℕ) (u : U)
      → get_or ss i vacant ≡ held u
      → count_set (set ss i vacant) + 1 ≡ count_set ss
  count_set-set_held [] i u e = cc
  count_set-set_held (s ∷ ss) zero u e = ground arith
  count_set-set_held (s ∷ ss) (suc i) u e = omega (arith, count_set-set_held ss i u e)

  -- A map with fewer set cells than cells has a free one.
  pub free_cell :
      (ss : List (Slot U))
      → count_set ss < length ss
      → (j : ℕ) × (j < length ss) × (is_set (get_or ss j vacant) ≡ false)
  free_cell [] h = elim h [ ]
  free_cell (s ∷ ss) h = elim (Bool-cases (is_set s)) [
    | inl e ↦ let (j, lt, free) = free_cell ss (ground arith) in (suc j, omega arith, free)
    | inr e ↦ (0, omega arith, e)
  ]

  unfoldable pub Found : SidPool U → ℕ → ℕ → Type 0
  Found pool fuel n =
      (m : ℕ) × (search_slot fuel pool n ≡ some m)
      × (n ≤ m)
      × (is_set (cell pool (m % pool.max)) ≡ false)
      × ((i : ℕ) → n ≤ i → i < m → is_set (cell pool (i % pool.max)) ≡ true)

  pub Found-here :
      (pool : SidPool U) (fuel n : ℕ)
      → is_set (cell pool (n % pool.max)) ≡ false
      → Found pool (suc fuel) n
  unfolding Found search_slot
  Found-here pool fuel n free = (n, rw free, omega arith, free, λ i a b. absurd (omega arith))

  pub Found-next :
      (pool : SidPool U) (fuel n : ℕ)
      → is_set (cell pool (n % pool.max)) ≡ true
      → Found pool fuel (n + 1)
      → Found pool (suc fuel) n
  unfolding Found search_slot
  Found-next pool fuel n busy (m, found, le, free, before) = (
    m,
    rw busy found,
    omega arith,
    free,
    λ i a b. elim (ℕ_discrete n i) [
      | yes p ↦ subst (λ i. is_set (cell pool (i % pool.max)) ≡ true) p busy
      | no p ↦ before i (omega arith) b
    ],
  )

  -- The scan stops at the first free residue, which `k` bounds.
  pub search_slot-Found :
      (pool : SidPool U) (fuel n k : ℕ)
      → k < fuel
      → is_set (cell pool ((n + k) % pool.max)) ≡ false
      → Found pool fuel n
  search_slot-Found pool zero n k h e = elim h [ ]
  search_slot-Found pool (suc fuel) n zero h e =
      Found-here pool fuel n
        (subst (λ i. is_set (cell pool (i % pool.max)) ≡ false) (omega arith) e)
  search_slot-Found pool (suc fuel) n (suc k) h e =
      elim (Bool-cases (is_set (cell pool (n % pool.max)))) [
        | inl busy ↦ Found-next pool fuel n busy (
            search_slot-Found pool fuel (n + 1) k (omega arith)
              (subst (λ i. is_set (cell pool (i % pool.max)) ≡ false) (omega arith) e))
        | inr free ↦ Found-here pool fuel n free
      ]

  -- A cell beyond the map is not set, and cell 0 of a pool is.
  pub below_max : (pool : SidPool U) → IsPool pool → (j : ℕ) → is_set (cell pool j) ≡ false → 0 < j
  below_max pool v zero e = absurd (ground (arith, v.first))
  below_max pool v (suc j) e = omega arith

  abbrev pub IsFresh : SidPool U → U → SidPool U → ℕ → Type ℓ
  IsFresh pool user q n =
      IsPool q
      × (pool.count < n)
      × (n < pool.max)
      × (q.count ≡ pool.count + 1)
      × (q.max ≡ pool.max)
      × (sid_lookup pool n ≡ vacant)
      × (sid_lookup q n ≡ held user)
      × ((s : ℕ) → s ≢ n → sid_lookup q s ≡ sid_lookup pool s)

  pub is_set-vacant : (s : Slot U) → is_set s ≡ false → s ≡ vacant
  is_set-vacant vacant e = refl
  is_set-vacant reserved e = cc
  is_set-vacant (held u) e = cc

  pub store-IsFresh :
      (pool : SidPool U) (user : U) (n : ℕ)
      → IsPool pool
      → pool.count + 1 < pool.max
      → n < pool.max
      → pool.count < n
      → is_set (cell pool n) ≡ false
      → IsFresh pool user
          (record pool { count = pool.count + 1; map = set pool.map n (held user) })
          n
  unfolding sid_lookup
  store-IsFresh pool user n v less lt above free = (
    record {
      min_is = v.min_is;
      sized = length-set pool.map n (held user) ∙ v.sized;
      room = v.room;
      first =
          get_or-set_ne pool.map n 0 (held user) vacant (omega (arith, below_max pool v n free))
          ∙ v.first;
      counted = omega (
        arith,
        v.counted,
        v.sized,
        count_set-set_vacant pool.map n user (omega (arith, v.sized)) free,
      );
    },
    above,
    lt,
    refl,
    refl,
    ground (arith, is_set-vacant (cell pool n) free),
    ground (arith, below_max pool v n free, v.sized, get_or-set_self pool.map n (held user) vacant),
    λ s ne. ground (arith, get_or-set_ne pool.map n s (held user) vacant (λ e. ne (sym e))),
  )

  pub free_round :
      (pool : SidPool U)
      → IsPool pool
      → pool.count + 1 < pool.max
      → (k : ℕ) × (k < 2 * pool.max)
        × (is_set (cell pool ((pool.count + 1 + k) % pool.max)) ≡ false)
  free_round pool v less =
      let (j, lt, free) = free_cell pool.map (omega (arith, v.counted, v.sized)) in
      (
        j + pool.max - (pool.count + 1),
        omega (arith, v.sized),
        subst (λ i. is_set (cell pool i) ≡ false)
            (around j pool.max (pool.count + 1) (omega (arith, v.sized)) less) free,
      )
    where
      around : (j max n : ℕ) → j < max → n < max → j ≡ (n + (j + max - n)) % max
      around j max n h g = grind arith

  pub search_slot-total :
      (pool : SidPool U)
      → IsPool pool
      → pool.count + 1 < pool.max
      → Found (record pool { count = pool.count + 1 }) (2 * pool.max) (pool.count + 1)
  search_slot-total pool v less =
      let (k, lt, free) = free_round pool v less in
      search_slot-Found (record pool { count = pool.count + 1 }) (2 * pool.max) (pool.count + 1) k
        lt free
