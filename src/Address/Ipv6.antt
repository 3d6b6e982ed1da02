-- ===== src/Address/Ipv6.antt =====
-- IPv6Address of src/address.cc: sixteen bytes and a port.
use async_rpc.Base.{ℕ, zero, suc, ◌+◌, ◌-◌, ◌*◌, ◌/◌, ◌%◌, ◌^◌, ltb, ◌==◌, bit_and, bit_or}
use async_rpc.Base.{
  if◌then◌else◌, Bool, true, false, not, ◌&&◌, List, [], ◌∷◌, ◌++◌, length, replicate, take,
}
use async_rpc.Base.{get_elem?, set, Option, none, some, Result, ok, err, ◌>>=◌, bad_index}
use async_rpc.Codec.{Endian}
use async_rpc.Address.{endian_cast, create_mask, decimal}

-- sockaddr_in6: sin6_family, sin6_port as the host reads its memory, and s6_addr.
pub record Ipv6Address : Type 0 where
  pub family : ℕ
  pub port : ℕ
  pub addr : List ℕ

abbrev pub af_inet6 : ℕ
af_inet6 = 10

unfoldable pub at : Option ℕ → Result ℕ
at none = err bad_index
at (some b) = ok b

-- The loops over the bytes behind the one that holds the prefix's end.
unfoldable pub fill_behind : ℕ → ℕ → List ℕ → List ℕ
fill_behind i v bytes = take i bytes ++ replicate (length bytes - i) v

-- A change of the byte of the prefix's end, past the array for a prefix of 128 bits and more.
unfoldable pub with_end : (ℕ → ℕ → ℕ) → ℕ → ℕ → List ℕ → Result (List ℕ)
with_end change behind prefix_len bytes = do
  b ← at (get_elem? bytes (prefix_len / 8))
  mask ← create_mask 8 (prefix_len % 8)
  ok (fill_behind (prefix_len / 8 + 1) behind (set bytes (prefix_len / 8) (change b mask)))

unfoldable pub broadcast_address : Ipv6Address → ℕ → Result Ipv6Address
broadcast_address a prefix_len = do
  bytes ← with_end bit_or 0xff prefix_len a.addr
  ok (record a { addr = bytes })

unfoldable pub network_address : Ipv6Address → ℕ → Result Ipv6Address
network_address a prefix_len = do
  bytes ← with_end bit_and 0x00 prefix_len a.addr
  ok (record a { addr = bytes })

-- The bytes of the prefix are 0xff, and its end is the complement of the mask in a byte.
unfoldable pub subnet_mask : ℕ → Result Ipv6Address
subnet_mask prefix_len = do
  b ← at (get_elem? (replicate 16 0) (prefix_len / 8))
  mask ← create_mask 8 (prefix_len % 8)
  ok (record {
    family = af_inet6;
    port = 0;
    addr =
        replicate (prefix_len / 8) 0xff ++ (255 - mask) ∷ replicate (16 - (prefix_len / 8 + 1)) 0;
  })

-- The digits of a number in base 16, with `fuel` + 1 digits at most.
abbrev hex_digit : ℕ → ℕ
hex_digit n = if ltb n 10 then 48 + n else 87 + n

unfoldable pub hex : ℕ → ℕ → List ℕ
hex zero n = hex_digit (n % 16) ∷ []
hex (suc fuel) n =
    let front = hex fuel (n / 16) in
    if ltb n 16 then hex_digit n ∷ [] else front ++ hex_digit (n % 16) ∷ []

-- The 16-bit words that NetworkToHost makes of the bytes, two by two.
unfoldable pub words : List ℕ → List ℕ
words [] = []
words (b ∷ []) = []
words (b ∷ b' ∷ bytes) = (b * 256 + b') ∷ words bytes

-- The loop of insert behind word `previous`, none at the first word: the text, and used_zeros.
unfoldable pub insert_words : Option ℕ → Bool → List ℕ → List ℕ × Bool
insert_words previous used [] = ([], used)
insert_words previous used (w ∷ ws) =
    let after_zero = is_zero previous && not used in
    let skipped = insert_words (some w) used ws in
    let (text, used') = insert_words (some w) (if after_zero then true else used) ws in
    if (w == 0) && not used then skipped else (
      (if after_zero then 58 ∷ [] else [])
          ++ (if is_first previous then [] else 58 ∷ [])
          ++ hex 3 w
          ++ text,
      used',
    )
  where
    is_zero : Option ℕ → Bool
    is_zero none = false
    is_zero (some w) = w == 0

    is_first : Option ℕ → Bool
    is_first none = true
    is_first (some w) = false

module _ (host : Endian) where
  -- IPv6Address(const uint8_t *, uint32_t): the port is cut to 16 bits behind its change of order.
  unfoldable pub ipv6 : List ℕ → ℕ → Ipv6Address
  ipv6 address port = record {
    family = af_inet6;
    port = endian_cast host 4 port % 2 ^ 16;
    addr = address;
  }

  unfoldable pub get_port : Ipv6Address → ℕ
  get_port a = endian_cast host 2 a.port

  unfoldable pub set_port : Ipv6Address → ℕ → Ipv6Address
  set_port a v = record a { port = endian_cast host 2 (v % 2 ^ 16) }

  -- insert: 91, 93 and 58 are the brackets and the colon.
  unfoldable pub insert : Ipv6Address → List ℕ
  insert a =
      let (text, used) = insert_words none false (words a.addr) in
      let last_zero = get_elem? (words a.addr) 7 in
      91 ∷ text
      ++ (if not used && is_zero_word last_zero then 58 ∷ 58 ∷ [] else [])
      ++ 93 ∷ 58 ∷ decimal 4 (endian_cast host 2 a.port)
    where
      is_zero_word : Option ℕ → Bool
      is_zero_word none = false
      is_zero_word (some w) = w == 0
