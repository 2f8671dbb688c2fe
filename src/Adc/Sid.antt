-- ===== src/Adc/Sid.antt =====
-- src/adc/sid.c: the textual session identifiers and the pool that hands them out.
pub mod Codec
pub mod Scan
pub mod Pool
use uhub.Prelude.{
  ℕ, zero, suc, ◌+◌, ◌-◌, ◌*◌, ◌/◌, ◌%◌, ◌^◌, Bool, true, false, ◌||◌, not, Option, none, some,
  List, [], ◌∷◌, leb, ltb, ◌==◌, if◌then◌else◌, length, get_or, set, replicate, Bytes,
}
use uhub.Util.Chars.{base32_char, base32_value}

-- `uhub_assert(sid == 0)` at the end is the caller's duty to pass sid < 32^4.
unfoldable pub sid_to_string : ℕ → Bytes
sid_to_string sid =
    let d = sid % 32 in
    let sid₁ = sid / 32 in
    let c = sid₁ % 32 in
    let sid₂ = sid₁ / 32 in
    let b = sid₂ % 32 in
    let sid₃ = sid₂ / 32 in
    let a = sid₃ % 32 in base32_char a ∷ base32_char b ∷ base32_char c ∷ base32_char d ∷ []

-- The loop over the characters, `none` for its early `return 0`; `sid_t` is a uint32_t.
decode_chars : ℕ → Bytes → Option ℕ
decode_chars nsid [] = some nsid
decode_chars nsid (c ∷ cs) =
    if leb 128 c
    then none
    else elim (base32_value c) [ none ↦ none | some x ↦ decode_chars ((nsid * 32 + x) % 2 ^ 32) cs ]

abbrev or_zero : Option ℕ → ℕ
or_zero none = 0
or_zero (some n) = n

-- `none` is the NULL pointer.
unfoldable pub string_to_sid : Option Bytes → ℕ
unfolding decode_chars base32_value
string_to_sid none = 0
string_to_sid (some s) = if not (length s == 4) then 0 else or_zero (decode_chars 0 s)

-- A cell of `map`: a null pointer, the pool itself in cell 0, or a user.
pub data Slot {ℓ} (U : Type ℓ) : Type ℓ where
  vacant : Slot U
  reserved : Slot U
  held : U → Slot U

pub record SidPool {ℓ} (U : Type ℓ) : Type ℓ where
  pub min : ℕ
  pub max : ℕ
  pub count : ℕ
  pub map : List (Slot U)

-- What a call of `sid_alloc` does: `overrun n` is a write to map[n] with n past the end.
pub data Alloc {ℓ} (U : Type ℓ) : Type ℓ where
  full : Alloc U
  allocated : SidPool U → ℕ → Alloc U
  overrun : ℕ → Alloc U
  diverged : Alloc U

module _ {ℓ} {U : Type ℓ} where
  abbrev pub is_set : Slot U → Bool
  is_set vacant = false
  is_set reserved = true
  is_set (held u) = true

  pub sid_pool_create : ℕ → SidPool U
  sid_pool_create max = record {
    min = 1;
    max = max + 1;
    count = 0;
    map = set (replicate (max + 1) vacant) 0 reserved;
  }

  -- `for (; map[n % max]; n++)`: the first n that ends it; `none` is fuel run out.
  pub search_slot : ℕ → SidPool U → ℕ → Option ℕ
  search_slot zero pool n = none
  search_slot (suc fuel) pool n =
      let rest = search_slot fuel pool (n + 1) in
      if is_set (get_or pool.map (n % pool.max) vacant) then rest else some n

  store_slot : SidPool U → U → Option ℕ → Alloc U
  store_slot pool user none = diverged
  store_slot pool user (some n) =
      if ltb n pool.max
      then allocated (record pool { map = set pool.map n (held user) }) n
      else overrun n

  -- The scan visits every cell within two rounds.
  unfoldable pub sid_alloc : SidPool U → U → Alloc U
  unfolding store_slot search_slot
  sid_alloc pool user =
      if leb (pool.max - pool.min) pool.count
      then full
      else let counted = record pool { count = pool.count + 1 } in
        store_slot counted user (search_slot (2 * pool.max) counted (pool.count + 1))

  -- `none` is a write past the end; `count` is unsigned and wraps.
  pub sid_free : SidPool U → ℕ → Option (SidPool U)
  sid_free pool sid =
      if ltb sid pool.max
      then some (record pool {
        map = set pool.map sid vacant;
        count = (pool.count + (2 ^ 32 - 1)) % 2 ^ 32;
      })
      else none

  unfoldable pub sid_lookup : SidPool U → ℕ → Slot U
  sid_lookup pool sid = if sid == 0 || leb pool.max sid then vacant else get_or pool.map sid vacant
