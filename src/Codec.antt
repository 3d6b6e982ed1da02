-- ===== src/Codec.antt =====
-- src/byte_array.cc: numbers and texts in the serialisation buffer. A signed number is its two's
-- complement bit pattern; a float or double is the bit pattern that memcpy takes it for.
pub mod Memory
pub mod Varint
pub mod Zigzag
pub mod Fixed
pub mod Text
use mathlib.Core.List.{reverse}
use async_rpc.Base.{ℕ, zero, suc, ◌+◌, ◌-◌, ◌*◌, ◌/◌, ◌%◌, ◌^◌, Bool, true, false, ltb, leb, ◌==◌}
use async_rpc.Base.{if◌then◌else◌, List, [], ◌∷◌, length, bit_and, bit_or, bit_xor}
use async_rpc.Base.{Result, ok, err, ◌>>=◌, bad_index}
use async_rpc.ByteArray.{ByteArray, read, write}

-- The byte order of the host, RPC_BYTE_ORDER of include/utils.h.
pub data Endian : Type 0 where
  little big : Endian

unfoldable pub le_bytes : ℕ → ℕ → List ℕ
le_bytes zero v = []
le_bytes (suc n) v = v % 256 ∷ le_bytes n (v / 256)

unfoldable pub from_le : List ℕ → ℕ
from_le [] = 0
from_le (b ∷ bs) = b + 256 * from_le bs

-- The bytes of an `n`-byte number in the memory of the host, and back.
unfoldable pub to_memory : Endian → ℕ → ℕ → List ℕ
to_memory little n v = le_bytes n v
to_memory big n v = reverse (le_bytes n v)

unfoldable pub from_memory : Endian → List ℕ → ℕ
from_memory little bs = from_le bs
from_memory big bs = from_le (reverse bs)

-- ByteSwap of include/utils.h
unfoldable pub byte_swap : ℕ → ℕ → ℕ
byte_swap n v = from_le (reverse (le_bytes n v))

-- endian_: the constructor sets it, and nothing changes it.
abbrev pub endian : Endian
endian = little

unfoldable pub to_host : Endian → Endian → ℕ → ℕ → ℕ
to_host little little n v = v
to_host big big n v = v
to_host little big n v = byte_swap n v
to_host big little n v = byte_swap n v

module _ (host : Endian) where
  -- write(&value, sizeof(value))
  unfoldable pub write_fixed : ℕ → ByteArray → ℕ → Result ByteArray
  write_fixed n a v = write a (to_memory host n v)

  -- The macro XX: a read in the byte order of the host, swapped if that is not endian_.
  unfoldable pub read_fixed : ℕ → ByteArray → Result (ℕ × ByteArray)
  read_fixed n a = do (bs, a') ← read a n; ok (to_host endian host n (from_memory host bs), a')

  -- readFint8 and readFuint8 do not look at the byte order.
  unfoldable pub read_byte : ByteArray → Result (ℕ × ByteArray)
  read_byte a = do (bs, a') ← read a 1; ok (from_memory host bs, a')

  unfoldable pub write_fint8 : ByteArray → ℕ → Result ByteArray
  write_fint8 = write_fixed 1

  unfoldable pub write_fint16 : ByteArray → ℕ → Result ByteArray
  write_fint16 = write_fixed 2

  unfoldable pub write_fint32 : ByteArray → ℕ → Result ByteArray
  write_fint32 = write_fixed 4

  unfoldable pub write_fint64 : ByteArray → ℕ → Result ByteArray
  write_fint64 = write_fixed 8

  unfoldable pub write_fuint8 : ByteArray → ℕ → Result ByteArray
  write_fuint8 = write_fixed 1

  unfoldable pub write_fuint16 : ByteArray → ℕ → Result ByteArray
  write_fuint16 = write_fixed 2

  unfoldable pub write_fuint32 : ByteArray → ℕ → Result ByteArray
  write_fuint32 = write_fixed 4

  unfoldable pub write_fuint64 : ByteArray → ℕ → Result ByteArray
  write_fuint64 = write_fixed 8

  unfoldable pub read_fint8 : ByteArray → Result (ℕ × ByteArray)
  read_fint8 = read_byte

  unfoldable pub read_fuint8 : ByteArray → Result (ℕ × ByteArray)
  read_fuint8 = read_byte

  unfoldable pub read_fint16 : ByteArray → Result (ℕ × ByteArray)
  read_fint16 = read_fixed 2

  unfoldable pub read_fint32 : ByteArray → Result (ℕ × ByteArray)
  read_fint32 = read_fixed 4

  unfoldable pub read_fint64 : ByteArray → Result (ℕ × ByteArray)
  read_fint64 = read_fixed 8

  unfoldable pub read_fuint16 : ByteArray → Result (ℕ × ByteArray)
  read_fuint16 = read_fixed 2

  unfoldable pub read_fuint32 : ByteArray → Result (ℕ × ByteArray)
  read_fuint32 = read_fixed 4

  unfoldable pub read_fuint64 : ByteArray → Result (ℕ × ByteArray)
  read_fuint64 = read_fixed 8

  -- The loop of readUint32 and readUint64 at a width, with the rounds left and the shift `i`.
  unfoldable pub read_varint : ℕ → ℕ → ℕ → ℕ → ByteArray → Result (ℕ × ByteArray)
  read_varint width zero i value a = ok (value, a)
  read_varint width (suc rounds) i value a = do
    (temp, a') ← read_fuint8 a
    let next =
        read_varint width rounds (i + 7) (bit_or value (bit_and temp 0x7f * 2 ^ i % 2 ^ width)) a'
    if ltb temp 0x80 then ok (bit_or value (temp * 2 ^ i % 2 ^ width), a') else next

  -- i = 0, 7, …, 28
  unfoldable pub read_uint32 : ByteArray → Result (ℕ × ByteArray)
  read_uint32 = read_varint 32 5 0 0

  -- i = 0, 7, …, 63
  unfoldable pub read_uint64 : ByteArray → Result (ℕ × ByteArray)
  read_uint64 = read_varint 64 10 0 0

-- The loop of writeUint32 and writeUint64 with the room that is left in `temp`.
unfoldable pub varint : ℕ → ℕ → Result (List ℕ)
varint zero v = err bad_index
varint (suc room) v =
    let more = do bs ← varint room (v / 2 ^ 7); ok (bit_or (bit_and v 0x7f) 0x80 ∷ bs)
    in if leb 0x80 v then more else ok (v ∷ [])

unfoldable pub write_uint32 : ByteArray → ℕ → Result ByteArray
write_uint32 a v = do bs ← varint 5 v; write a bs

unfoldable pub write_uint64 : ByteArray → ℕ → Result ByteArray
write_uint64 a v = do bs ← varint 10 v; write a bs

-- `value >> 31` and `value >> 63` of a signed number: all ones or zero.
abbrev pub sign_mask : ℕ → ℕ → ℕ
sign_mask width v = if leb (2 ^ (width - 1)) v then 2 ^ width - 1 else 0

-- `-b` of an unsigned number
abbrev pub negate : ℕ → ℕ → ℕ
negate width b = (2 ^ width - b) % 2 ^ width

unfoldable pub encode_zigzag32 : ℕ → ℕ
encode_zigzag32 v = bit_xor (v * 2 % 2 ^ 32) (sign_mask 32 v)

unfoldable pub encode_zigzag64 : ℕ → ℕ
encode_zigzag64 v = bit_xor (v * 2 % 2 ^ 64) (sign_mask 64 v)

unfoldable pub decode_zigzag32 : ℕ → ℕ
decode_zigzag32 u = bit_xor (u / 2) (negate 32 (bit_and u 1))

unfoldable pub decode_zigzag64 : ℕ → ℕ
decode_zigzag64 u = bit_xor (u / 2) (negate 64 (bit_and u 1))

unfoldable pub write_int32 : ByteArray → ℕ → Result ByteArray
write_int32 a v = write_uint32 a (encode_zigzag32 v)

unfoldable pub write_int64 : ByteArray → ℕ → Result ByteArray
write_int64 a v = write_uint64 a (encode_zigzag64 v)

-- `read(&value[0], len)` into a string of that size
unfoldable pub read_text : ℕ × ByteArray → Result (List ℕ × ByteArray)
read_text (len, a) = read a len

module _ (host : Endian) where
  unfoldable pub read_int32 : ByteArray → Result (ℕ × ByteArray)
  read_int32 a = do (u, a') ← read_uint32 host a; ok (decode_zigzag32 u, a')

  unfoldable pub read_int64 : ByteArray → Result (ℕ × ByteArray)
  read_int64 a = do (u, a') ← read_uint64 host a; ok (decode_zigzag64 u, a')

  unfoldable pub write_float : ByteArray → ℕ → Result ByteArray
  write_float = write_fuint32 host

  unfoldable pub write_double : ByteArray → ℕ → Result ByteArray
  write_double = write_fuint64 host

  unfoldable pub read_float : ByteArray → Result (ℕ × ByteArray)
  read_float = read_fuint32 host

  unfoldable pub read_double : ByteArray → Result (ℕ × ByteArray)
  read_double = read_fuint64 host

  -- The size is cut to the width of the number that is written.
  unfoldable pub write_string_f16 : ByteArray → List ℕ → Result ByteArray
  write_string_f16 a s = do a' ← write_fuint16 host a (length s % 2 ^ 16); write a' s

  unfoldable pub write_string_f32 : ByteArray → List ℕ → Result ByteArray
  write_string_f32 a s = do a' ← write_fuint32 host a (length s % 2 ^ 32); write a' s

  unfoldable pub write_string_f64 : ByteArray → List ℕ → Result ByteArray
  write_string_f64 a s = do a' ← write_fuint64 host a (length s % 2 ^ 64); write a' s

  unfoldable pub read_string_f16 : ByteArray → Result (List ℕ × ByteArray)
  read_string_f16 a = do r ← read_fuint16 host a; read_text r

  unfoldable pub read_string_f32 : ByteArray → Result (List ℕ × ByteArray)
  read_string_f32 a = do r ← read_fuint32 host a; read_text r

  unfoldable pub read_string_f64 : ByteArray → Result (List ℕ × ByteArray)
  read_string_f64 a = do r ← read_fuint64 host a; read_text r

  unfoldable pub read_string_vint : ByteArray → Result (List ℕ × ByteArray)
  read_string_vint a = do r ← read_uint64 host a; read_text r

unfoldable pub write_string_vint : ByteArray → List ℕ → Result ByteArray
write_string_vint a s = do a' ← write_uint64 a (length s); write a' s

unfoldable pub write_string_without_length : ByteArray → List ℕ → Result ByteArray
write_string_without_length a s = write a s
