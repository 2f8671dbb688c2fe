-- ===== src/Network/Tests.antt =====
-- Runs of the model of src/network/ipcalc.c on concrete addresses.
use uhub.Prelude.{ℕ, ◌+◌, ◌^◌, ◌≤◌, ◌≡◌, ◌↔◌, ◌⊎◌, refl, true, false, arith, codes}
use uhub.Network.Ip.{in4, ip_in_range, ip_is_valid_ipv4}
use uhub.Network.Ip.Order.{range4, ip_in_range-narrow, ip_in_range-wide}
use uhub.Network.Ip.Quad.{Octets, ip_is_valid_ipv4-Octets}

-- 10.0.0.1 and 138.0.0.1
abbrev lone : ℕ
lone = 0x0a000001

abbrev far : ℕ
far = 0x8a000001

-- The range is 10.0.0.1 alone, and the address is 138.0.0.1.
narrow_example : (ip_in_range (in4 far) (range4 lone lone) ≡ true) ↔ (
    ((lone ≤ far) × (far ≤ lone))
    ⊎ ((lone ≡ lone) × ((far ≡ lone + 2 ^ 31) ⊎ (lone ≡ far + 2 ^ 31))))
narrow_example =
    ip_in_range-narrow lone lone far (omega arith) (omega arith) (omega arith) (omega arith)

far_off : ip_in_range (in4 far) (range4 lone lone) ≡ true
unfolding ip_in_range
far_off = refl

-- The range is every address.
wide_example :
    (ip_in_range (in4 0) (range4 0 0xffffffff) ≡ false)
    × (ip_in_range (in4 0xffffffff) (range4 0 0xffffffff) ≡ false)
wide_example = ip_in_range-wide 0 0xffffffff (omega arith) (omega arith)

quad_example : (ip_is_valid_ipv4 (codes "192.168.0.1") ≡ true) ↔ Octets 3 0 0 (codes "192.168.0.1")
quad_example = ip_is_valid_ipv4-Octets (codes "192.168.0.1")
