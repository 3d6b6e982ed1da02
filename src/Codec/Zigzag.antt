-- ===== src/Codec/Zigzag.antt =====
-- EncodeZigzag and DecodeZigzag of src/byte_array.cc against the integers that they code.
use async_rpc.Base.{ℕ, ◌-◌, ◌*◌, ◌/◌, ◌%◌, ◌^◌, ◌<◌, leb, if◌then◌else◌, arith}
use async_rpc.Base.{◌≡◌, ap, ◌∙◌, inl, inr, Bool-cases, bit_and}
use async_rpc.Base.Bits.{bit_and-one, bit_xor-zero, bit_xor-ones}
use async_rpc.Codec.{encode_zigzag32, encode_zigzag64, decode_zigzag32, decode_zigzag64, negate}

-- Of the number n that the pattern `v` stands for: 2 n if n is not negative, else -2 n - 1.
abbrev pub zigzag : ℕ → ℕ → ℕ
zigzag width v = if leb (2 ^ (width - 1)) v then (2 ^ width - v) * 2 - 1 else v * 2

-- EncodeZigzag32 of a 32-bit pattern is 2 n when it stands for a number n that is not negative,
-- and - 2 n - 1 when n is negative.
pub encode_zigzag32_lem : (v : ℕ) → v < 2 ^ 32 → encode_zigzag32 v ≡ zigzag 32 v
unfolding encode_zigzag32
encode_zigzag32_lem v h = elim (Bool-cases (leb (2 ^ 31) v)) [
  | inl negative ↦ rw negative (ground (arith, bit_xor-ones 32 (v * 2 % 2 ^ 32) (omega arith)))
  | inr positive ↦ rw positive (ground (arith, bit_xor-zero (v * 2 % 2 ^ 32)))
]

pub encode_zigzag64_lem : (v : ℕ) → v < 2 ^ 64 → encode_zigzag64 v ≡ zigzag 64 v
unfolding encode_zigzag64
encode_zigzag64_lem v h = elim (Bool-cases (leb (2 ^ 63) v)) [
  | inl negative ↦ rw negative (ground (arith, bit_xor-ones 64 (v * 2 % 2 ^ 64) (omega arith)))
  | inr positive ↦ rw positive (ground (arith, bit_xor-zero (v * 2 % 2 ^ 64)))
]

-- The odd codes are those of the negative numbers.
abbrev pub unzigzag : ℕ → ℕ → ℕ
unzigzag width u = if leb (u % 2) 0 then u / 2 else 2 ^ width - 1 - u / 2

pub decode_zigzag32_lem : (u : ℕ) → u < 2 ^ 32 → decode_zigzag32 u ≡ unzigzag 32 u
unfolding decode_zigzag32
decode_zigzag32_lem u h = elim (Bool-cases (leb (u % 2) 0)) [
  | inl even ↦
      let e : negate 32 (bit_and u 1) ≡ 0 = ground (arith, bit_and-one u) in
      rw (even, e) (bit_xor-zero (u / 2))
  | inr odd ↦
      let e : negate 32 (bit_and u 1) ≡ 2 ^ 32 - 1 = ground (arith, bit_and-one u) in
      rw (odd, e) (bit_xor-ones 32 (u / 2) (omega arith))
]

pub decode_zigzag64_lem : (u : ℕ) → u < 2 ^ 64 → decode_zigzag64 u ≡ unzigzag 64 u
unfolding decode_zigzag64
decode_zigzag64_lem u h = elim (Bool-cases (leb (u % 2) 0)) [
  | inl even ↦
      let e : negate 64 (bit_and u 1) ≡ 0 = ground (arith, bit_and-one u) in
      rw (even, e) (bit_xor-zero (u / 2))
  | inr odd ↦
      let e : negate 64 (bit_and u 1) ≡ 2 ^ 64 - 1 = ground (arith, bit_and-one u) in
      rw (odd, e) (bit_xor-ones 64 (u / 2) (omega arith))
]

pub zigzag32-lt : (v : ℕ) → v < 2 ^ 32 → zigzag 32 v < 2 ^ 32
zigzag32-lt v h = ground arith

pub zigzag64-lt : (v : ℕ) → v < 2 ^ 64 → zigzag 64 v < 2 ^ 64
zigzag64-lt v h = ground arith

unzigzag32-zigzag : (v : ℕ) → v < 2 ^ 32 → unzigzag 32 (zigzag 32 v) ≡ v
unzigzag32-zigzag v h = ground arith

unzigzag64-zigzag : (v : ℕ) → v < 2 ^ 64 → unzigzag 64 (zigzag 64 v) ≡ v
unzigzag64-zigzag v h = ground arith

pub decode_zigzag32-encode_zigzag32 : (v : ℕ) → v < 2 ^ 32 → decode_zigzag32 (encode_zigzag32 v) ≡ v
decode_zigzag32-encode_zigzag32 v h =
    ap decode_zigzag32 (encode_zigzag32_lem v h)
    ∙ decode_zigzag32_lem (zigzag 32 v) (zigzag32-lt v h)
    ∙ unzigzag32-zigzag v h

-- DecodeZigzag64 undoes EncodeZigzag64 on every 64-bit pattern.
pub decode_zigzag64-encode_zigzag64 : (v : ℕ) → v < 2 ^ 64 → decode_zigzag64 (encode_zigzag64 v) ≡ v
decode_zigzag64-encode_zigzag64 v h =
    ap decode_zigzag64 (encode_zigzag64_lem v h)
    ∙ decode_zigzag64_lem (zigzag 64 v) (zigzag64-lt v h)
    ∙ unzigzag64-zigzag v h
