-- ===== src/Address/Ports.antt =====
-- The ports of the addresses of src/address.cc.
use async_rpc.Base.{ℕ, ◌+◌, ◌*◌, ◌/◌, ◌%◌, ◌^◌, ◌<◌, ◌≡◌, refl, ap, ◌∙◌, arith, List}
use async_rpc.Codec.{Endian, little, big, byte_swap, le_bytes, from_le}
use async_rpc.Address.{Ipv4Address, endian_cast, ipv4, get_port, set_port}
use async_rpc.Address.Ipv6.{Ipv6Address, ipv6}
use async_rpc.Address.Ipv6

swap_two : (v : ℕ) → byte_swap 2 v ≡ v / 256 % 256 + 256 * (v % 256)
unfolding byte_swap le_bytes from_le
swap_two v = omega arith

swap_four : (v : ℕ) → v < 2 ^ 16 → byte_swap 4 v % 2 ^ 16 ≡ 0
unfolding byte_swap le_bytes from_le
swap_four v h = omega arith

endian_cast_twice :
    (host : Endian) (v : ℕ) → v < 2 ^ 16 → endian_cast host 2 (endian_cast host 2 v) ≡ v
unfolding endian_cast
endian_cast_twice big v h = refl
endian_cast_twice little v h = swap_two (byte_swap 2 v) ∙ omega (arith, swap_two v)

-- Both kinds of address give back the lower 16 bits of the port that was set.
pub get_port-set_port :
    (host : Endian) (a : Ipv4Address) (b : Ipv6Address) (v : ℕ)
    → (get_port host (set_port host a v) ≡ v % 2 ^ 16)
      × (Ipv6.get_port host (Ipv6.set_port host b v) ≡ v % 2 ^ 16)
unfolding get_port set_port Ipv6.get_port Ipv6.set_port
get_port-set_port host a b v = (
  endian_cast_twice host (v % 2 ^ 16) (omega arith),
  endian_cast_twice host (v % 2 ^ 16) (omega arith),
)

-- On a little-endian host an IPv6 address made with any port of 16 bits has the port 0.
pub get_port-ipv6 :
    (address : List ℕ) (v : ℕ) → v < 2 ^ 16 → Ipv6.get_port little (ipv6 little address v) ≡ 0
unfolding Ipv6.get_port ipv6 endian_cast
get_port-ipv6 address v h = ap (byte_swap 2) (swap_four v h) ∙ swap_two 0

-- An IPv4 address gives back the port that it was made with.
pub get_port-ipv4 :
    (host : Endian) (address v : ℕ) → v < 2 ^ 16 → get_port host (ipv4 host address v) ≡ v
unfolding get_port ipv4
get_port-ipv4 host address v h = endian_cast_twice host v h
