-- ===== src/Address.antt =====
-- src/address.cc: socket addresses, as the numbers and bytes of the sockaddr structures.
pub mod Order
pub mod Ipv6
pub mod Lookup
pub mod Ports
use async_rpc.Base.{
  ℕ, zero, suc, ◌+◌, ◌-◌, ◌*◌, ◌/◌, ◌%◌, ◌^◌, ◌<◌, ltb, leb, ◌==◌, bit_and, bit_or,
}
use async_rpc.Base.{
  if◌then◌else◌, Bool, true, false, not, ◌&&◌, List, [], ◌∷◌, ◌++◌, length, replicate, take, min,
}
use async_rpc.Base.{Option, none, some, Result, ok, err, ◌>>=◌, bad_shift}
use async_rpc.Codec.{Endian, little, big, byte_swap, to_memory}

-- EndianCast of an `n`-byte number, and HostToNetwork and NetworkToHost, which are that.
unfoldable pub endian_cast : Endian → ℕ → ℕ → ℕ
endian_cast big n v = v
endian_cast little n v = if n == 1 then v else byte_swap n v

-- CreateMask for a type of `width` bits. The arithmetic is that of int, which is undefined for a
-- shift by a negative number or by 31 and more.
unfoldable pub create_mask : ℕ → ℕ → Result ℕ
create_mask width bit =
    if ltb width bit
    then err bad_shift
    else if ltb (width - bit) 31
    then ok ((2 ^ (width - bit) - 1) % 2 ^ width)
    else err bad_shift

-- The loop of CountBytes: a step takes the lowest bit out. `fuel` bounds the steps.
unfoldable pub count_bytes : ℕ → ℕ → ℕ
count_bytes zero v = 0
count_bytes (suc fuel) v =
    let rest = count_bytes fuel (bit_and v (v - 1)) in if v == 0 then 0 else suc rest

-- sockaddr_in: sin_family, and sin_port and sin_addr.s_addr as the host reads their memory.
pub record Ipv4Address : Type 0 where
  pub family : ℕ
  pub port : ℕ
  pub addr : ℕ

abbrev pub af_inet : ℕ
af_inet = 2

-- The decimal digits of a number, with `fuel` + 1 digits at most.
unfoldable pub decimal : ℕ → ℕ → List ℕ
decimal zero n = (48 + n % 10) ∷ []
decimal (suc fuel) n =
    let front = decimal fuel (n / 10) in
    if ltb n 10 then (48 + n) ∷ [] else front ++ (48 + n % 10) ∷ []

-- The byte of a 32-bit number that `(addr >> shift) & 0xff` takes.
abbrev pub byte_at : ℕ → ℕ → ℕ
byte_at shift v = v / 2 ^ shift % 256

-- The four bytes in decimal, with points, which are 46.
unfoldable pub dotted : ℕ → List ℕ
dotted addr =
    decimal 2 (byte_at 24 addr)
    ++ 46
      ∷ (decimal 2 (byte_at 16 addr)
          ++ 46 ∷ (decimal 2 (byte_at 8 addr) ++ 46 ∷ decimal 2 (byte_at 0 addr)))

module _ (host : Endian) where
  -- IPv4Address(uint32_t, uint16_t)
  unfoldable pub ipv4 : ℕ → ℕ → Ipv4Address
  ipv4 address port = record {
    family = af_inet;
    port = endian_cast host 2 port;
    addr = endian_cast host 4 address;
  }

  unfoldable pub broadcast_address : Ipv4Address → ℕ → Result (Option Ipv4Address)
  broadcast_address a prefix_len = if ltb 32 prefix_len then ok none else (do
    mask ← create_mask 32 prefix_len
    ok (some (record a { addr = bit_or a.addr (endian_cast host 4 mask) })))

  unfoldable pub network_address : Ipv4Address → ℕ → Result (Option Ipv4Address)
  network_address a prefix_len = if ltb 32 prefix_len then ok none else (do
    mask ← create_mask 32 prefix_len
    ok (some (record a { addr = bit_and a.addr (endian_cast host 4 mask) })))

  -- `~` on a uint32_t is 2^32 - 1 less the number.
  unfoldable pub subnet_mask : ℕ → Result (Option Ipv4Address)
  subnet_mask prefix_len = if ltb 32 prefix_len then ok none else (do
    mask ← create_mask 32 prefix_len
    ok (
        some (record {
          family = af_inet;
          port = 0;
          addr = bit_or 0 (2 ^ 32 - 1 - endian_cast host 4 mask);
        })))

  unfoldable pub get_port : Ipv4Address → ℕ
  get_port a = endian_cast host 2 a.port

  -- The parameter is a uint16_t, to which a longer number is cut.
  unfoldable pub set_port : Ipv4Address → ℕ → Ipv4Address
  set_port a v = record a { port = endian_cast host 2 (v % 2 ^ 16) }

  -- insert: the dotted address, and the port behind a colon, which is 58.
  unfoldable pub insert : Ipv4Address → List ℕ
  insert a = dotted (endian_cast host 4 a.addr) ++ 58 ∷ decimal 4 (endian_cast host 2 a.port)

  -- getSockAddr with getSockAddrLen: the bytes of the structure, the last eight of them zero.
  unfoldable pub sock_addr : Ipv4Address → List ℕ
  sock_addr a =
      to_memory host 2 a.family
      ++ to_memory host 2 a.port
      ++ to_memory host 4 a.addr
      ++ replicate 8 0
