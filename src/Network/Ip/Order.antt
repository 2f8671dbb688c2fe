-- ===== src/Network/Ip/Order.antt =====
-- What ip_in_range accepts.
use uhub.Prelude.{ℕ, ◌+◌, ◌^◌, ◌≤◌, ◌<◌, ◌≡◌, ◌↔◌, ◌⊎◌, true, false, arith}
use uhub.Network.Ip.{in4, IpRange, ip_compare, ip_in_range}

abbrev pub range4 : ℕ → ℕ → IpRange
range4 lo hi = record { lo = in4 lo; hi = in4 hi }

-- For IPv4 ranges that span less than 2^31 addresses, an address is accepted exactly if it lies
-- between the bounds, or if the range is one address and the other lies exactly 2^31 from it.
pub ip_in_range-narrow :
    (lo hi a : ℕ)
    → lo ≤ hi
    → hi < lo + 2 ^ 31
    → hi < 2 ^ 32
    → a < 2 ^ 32
    → (ip_in_range (in4 a) (range4 lo hi) ≡ true)
      ↔ (((lo ≤ a) × (a ≤ hi)) ⊎ ((lo ≡ hi) × ((a ≡ lo + 2 ^ 31) ⊎ (lo ≡ a + 2 ^ 31))))
unfolding ip_in_range ip_compare
ip_in_range-narrow lo hi a le small h k = ground arith

-- An IPv4 range that spans more than 2^31 + 1 addresses refuses its own bounds.
pub ip_in_range-wide :
    (lo hi : ℕ)
    → lo + 2 ^ 31 < hi
    → hi < 2 ^ 32
    → (ip_in_range (in4 lo) (range4 lo hi) ≡ false) × (ip_in_range (in4 hi) (range4 lo hi) ≡ false)
unfolding ip_in_range ip_compare
ip_in_range-wide lo hi wide h = (ground arith, ground arith)
