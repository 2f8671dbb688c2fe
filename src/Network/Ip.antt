-- ===== src/Network/Ip.antt =====
-- src/network/ipcalc.c: IPv4 text, the order of addresses, and ranges.
pub mod Order
pub mod Quad
use uhub.Prelude.{
  ℕ, suc, zero, ◌+◌, ◌-◌, ◌*◌, ◌%◌, ◌^◌, Bool, true, false, ◌&&◌, ◌||◌, not, List, [], ◌∷◌, ltb,
  leb, ◌==◌, if◌then◌else◌, length, Bytes,
}
use uhub.Util.Chars.{is_num}

-- An IPv4 address in the host's byte order, as `ntohl` gives it, or the 16 bytes of an IPv6 one.
pub data IpAddrEncap : Type 0 where
  in4 : ℕ → IpAddrEncap
  in6 : Bytes → IpAddrEncap

pub record IpRange : Type 0 where
  pub lo : IpAddrEncap
  pub hi : IpAddrEncap

-- The result is an `int`, here its 32 bits; of a negative or positive `memcmp` one value stands
-- for all of that sign.
unfoldable pub memcmp : Bytes → Bytes → ℕ
memcmp (a ∷ xs) (b ∷ ys) =
    let rest = memcmp xs ys in if ltb a b then 2 ^ 32 - 1 else if ltb b a then 1 else rest
memcmp [] ys = 0
memcmp (a ∷ xs) [] = 0

-- That both addresses are of one family is an assertion, without which the result is 0.
unfoldable pub ip_compare : IpAddrEncap → IpAddrEncap → ℕ
unfolding memcmp
ip_compare (in4 a) (in4 b) = (a + (2 ^ 32 - b)) % 2 ^ 32
ip_compare (in6 a) (in6 b) = memcmp a b
ip_compare (in4 a) (in6 b) = 0
ip_compare (in6 a) (in4 b) = 0

-- `result <= 0` of an `int`
abbrev pub not_positive : ℕ → Bool
not_positive result = result == 0 || leb (2 ^ 31) result

abbrev pub same_family : IpAddrEncap → IpAddrEncap → Bool
same_family (in4 a) (in4 b) = true
same_family (in6 a) (in6 b) = true
same_family (in4 a) (in6 b) = false
same_family (in6 a) (in4 b) = false

unfoldable pub ip_in_range : IpAddrEncap → IpRange → Bool
unfolding ip_compare
ip_in_range addr range =
    same_family addr range.lo
    && (not_positive (ip_compare range.lo addr) && not_positive (ip_compare addr range.hi))

-- The loop over the characters with its counters: the octet, its digits and the dots so far.
-- An `int` octet may overflow only after more than three digits, which are refused anyway.
unfoldable pub quad_from : ℕ → ℕ → ℕ → Bytes → Bool
unfolding is_num
quad_from o n d [] = not (((n == 0 || ltb 3 n) || ltb 255 o) || not (d == 3))
quad_from o n d (c ∷ cs) =
    let digit = quad_from (o * 10 + (c - b'0')) (n + 1) d cs in
    let dot = quad_from 0 0 (d + 1) cs in
    if is_num c
    then digit
    else if c == b'.'
    then if (n == 0 || ltb 3 n) || ltb 255 o then false else dot
    else false

unfoldable pub ip_is_valid_ipv4 : Bytes → Bool
unfolding quad_from
ip_is_valid_ipv4 address =
    if ltb 15 (length address) || ltb (length address) 7 then false else quad_from 0 0 0 address
