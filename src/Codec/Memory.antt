-- ===== src/Codec/Memory.antt =====
-- Numbers as bytes in memory: include/utils.h and the memcpy of src/byte_array.cc.
use mathlib.Core.List.{reverse, reverse-cons, reverse-reverse}
use native.Mathlib.Nat.{pow-suc}
use async_rpc.Base.{ℕ, zero, suc, ◌/◌, ◌^◌, ◌<◌, ◌≡◌, refl, ap, ◌∙◌, arith}
use async_rpc.Base.{List, [], ◌∷◌, length, length-append}
use async_rpc.Codec.{Endian, little, big, le_bytes, from_le, to_memory, from_memory}

pub length-le_bytes : (n v : ℕ) → length (le_bytes n v) ≡ n
unfolding le_bytes
length-le_bytes zero v = refl
length-le_bytes (suc n) v = ap suc (length-le_bytes n (v / 256))

pub from_le-le_bytes : (n v : ℕ) → v < 256 ^ n → from_le (le_bytes n v) ≡ v
unfolding le_bytes from_le
from_le-le_bytes zero v h = omega arith
from_le-le_bytes (suc n) v h =
    omega (arith, from_le-le_bytes n (v / 256) (ground (arith, pow-suc 256 n)))

length-reverse : (xs : List ℕ) → length (reverse xs) ≡ length xs
length-reverse [] = refl
length-reverse (x ∷ xs) =
    ap length (reverse-cons x xs)
    ∙ length-append (reverse xs) (x ∷ [])
    ∙ omega (arith, length-reverse xs)

pub length-to_memory : (host : Endian) (n v : ℕ) → length (to_memory host n v) ≡ n
unfolding to_memory
length-to_memory little n v = length-le_bytes n v
length-to_memory big n v = length-reverse (le_bytes n v) ∙ length-le_bytes n v

-- Memory gives back what was put there, in either byte order.
pub from_memory-to_memory :
    (host : Endian) (n v : ℕ) → v < 256 ^ n → from_memory host (to_memory host n v) ≡ v
unfolding to_memory from_memory
from_memory-to_memory little n v h = from_le-le_bytes n v h
from_memory-to_memory big n v h =
    ap from_le (reverse-reverse (le_bytes n v)) ∙ from_le-le_bytes n v h
