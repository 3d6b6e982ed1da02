-- ===== src/Codec/Varint.antt =====
-- writeUint32, readUint32 and their 64-bit kin of src/byte_array.cc: seven bits a byte, lowest first.
use native.Mathlib.Nat.{pow-suc, div-add-mod, mod-eq_of_lt}
use native.Mathlib.Numerals.{towards_suc}
use async_rpc.Base.{ℕ, zero, suc, ◌+◌, ◌*◌, ◌/◌, ◌%◌, ◌^◌, ◌≤◌, ◌<◌, ltb, leb, lt→ltb, arith}
use async_rpc.Base.{◌≡◌, refl, ap, ◌∙◌, inl, inr, Bool-cases, true, false, if◌then◌else◌, subst}
use async_rpc.Base.{List, [], ◌∷◌, length, ok, bit_and, bit_or}
use async_rpc.Base.Bits.{bit_and_7f, bit_or-shifted, bit_or_top}
use async_rpc.ByteArray.Stream.{Writes, Reads, write-Writes, ok-Reads, >>=-Reads}
use async_rpc.Codec.{
  Endian, varint, read_varint, read_fuint8, read_byte, write_uint32, write_uint64,
}
use async_rpc.Codec.{read_uint32, read_uint64}
use async_rpc.Codec.Fixed.{read_byte-Reads, to_memory-byte}

-- The format: the low seven bits with the top bit set, until less than seven bits are left.
unfoldable pub groups : ℕ → ℕ → List ℕ
groups zero v = v ∷ []
groups (suc k) v =
    let rest = groups k (v / 128) in if ltb v 128 then v ∷ [] else (v % 128 + 128) ∷ rest

pub length-groups : (k v : ℕ) → length (groups k v) ≤ k + 1
unfolding groups
length-groups zero v = omega arith
length-groups (suc k) v = ground (arith, length-groups k (v / 128))

group_byte : (v : ℕ) → bit_or (bit_and v 0x7f) 0x80 ≡ v % 128 + 128
group_byte v = ap (λ t. bit_or t 0x80) (bit_and_7f v) ∙ bit_or_top (v % 128) (omega arith)

varint_step :
    (k v : ℕ) {bs : List ℕ}
    → leb 0x80 v ≡ true
    → varint k (v / 2 ^ 7) ≡ ok bs
    → varint (suc k) v ≡ ok ((v % 128 + 128) ∷ bs)
unfolding varint
varint_step k v {bs} more e = rw (more, e) (ap (λ b. ok (b ∷ bs)) (group_byte v))

-- For a number below 128 ^ (k + 1) the loop of writeUint32 and writeUint64 ends within k + 1 bytes
-- of temp and fills in exactly the number's 7-bit groups.
pub varint-groups : (k v : ℕ) → v < 128 ^ suc k → varint (suc k) v ≡ ok (groups k v)
unfolding groups
varint-groups zero v h = unfold varint in ground arith
varint-groups (suc k) v h = elim (Bool-cases (leb 0x80 v)) [
  | inl more ↦
      let e : ltb v 128 ≡ false = ground arith in
      rw e (
        varint_step (suc k) v more
          (varint-groups k (v / 128) (ground (arith, pow-suc 128 (suc k)))))
  | inr last ↦ let e : ltb v 128 ≡ true = ground arith in rw e (unfold varint in rw last refl)
]

pow_seven : (i : ℕ) → 2 ^ (i + 7) ≡ 128 * 2 ^ i
pow_seven i = simp towards_suc (omega arith)

-- The lowest group of `v` and the rest, both shifted by `i`.
split_shifted : (v i : ℕ) → v * 2 ^ i ≡ v % 128 * 2 ^ i + v / 128 * 2 ^ (i + 7)
split_shifted v i = omega (
  arith,
  ap (λ (t : ℕ). t * 2 ^ i) (div-add-mod v 128),
  ap (λ (t : ℕ). v / 128 * t) (pow_seven i),
)

next_small : (value t i : ℕ) → value < 2 ^ i → t < 128 → value + t * 2 ^ i < 2 ^ (i + 7)
next_small value t i lt ht = grind (arith, pow_seven i)

module _ (host : Endian) (width : ℕ) where
  byte-Reads : (b : ℕ) → b < 256 → Reads (read_fuint8 host) (b ∷ []) b
  unfolding read_fuint8
  byte-Reads b h =
      subst (λ bs. Reads (read_byte host) bs b) (to_memory-byte host b h) (read_byte-Reads host b h)

  -- `value |= t << i` adds, where nothing is cut off.
  or_group :
      (value t i : ℕ)
      → value < 2 ^ i
      → value + t * 2 ^ i < 2 ^ width
      → bit_or value (t * 2 ^ i % 2 ^ width) ≡ value + t * 2 ^ i
  or_group value t i lt fits =
      ap (bit_or value) (mod-eq_of_lt (omega arith)) ∙ bit_or-shifted i value t lt

  read_last :
      (rounds i value t : ℕ)
      → t < 128
      → value < 2 ^ i
      → value + t * 2 ^ i < 2 ^ width
      → Reads (read_varint host width (suc rounds) i value) (t ∷ []) (value + t * 2 ^ i)
  unfolding read_varint
  read_last rounds i value t ht lt fits =
      >>=-Reads _ (byte-Reads t (omega arith))
        (rw (lt→ltb t 128 ht, or_group value t i lt fits) (ok-Reads (value + t * 2 ^ i)))

  read_next :
      (rounds i value t : ℕ) {bs : List ℕ} {r : ℕ}
      → t < 128
      → value < 2 ^ i
      → value + t * 2 ^ i < 2 ^ width
      → Reads (read_varint host width rounds (i + 7) (value + t * 2 ^ i)) bs r
      → Reads (read_varint host width (suc rounds) i value) ((t + 128) ∷ bs) r
  unfolding read_varint
  read_next rounds i value t ht lt fits rest =
      >>=-Reads _ (byte-Reads (t + 128) (omega arith))
        (rw (high, low, or_group value t i lt fits) rest)
    where
      high : ltb (t + 128) 128 ≡ false
      high = ground arith

      low : bit_and (t + 128) 0x7f ≡ t
      low = omega (arith, bit_and_7f (t + 128))

  -- `v` is what is still to be read, and it counts from bit `i` on.
  pub read_varint-groups :
      (k v rounds i value : ℕ)
      → v < 128 ^ suc k
      → k < rounds
      → value < 2 ^ i
      → value + v * 2 ^ i < 2 ^ width
      → Reads (read_varint host width rounds i value) (groups k v) (value + v * 2 ^ i)
  unfolding groups
  read_varint-groups k v zero i value h room lt fits = absurd (omega arith)
  read_varint-groups zero v (suc rounds) i value h room lt fits =
      read_last rounds i value v (omega arith) lt fits
  read_varint-groups (suc k) v (suc rounds) i value h room lt fits = elim (Bool-cases (ltb v 128)) [
    | inl last ↦ rw last (read_last rounds i value v (ground arith) lt fits)
    | inr more ↦ rw more (
        read_next rounds i value (v % 128) (omega arith) lt (omega (arith, split_shifted v i)) (
          subst
            (λ r.
              Reads (read_varint host width rounds (i + 7) (value + v % 128 * 2 ^ i))
                (groups k (v / 128)) r)
            (omega (arith, split_shifted v i))
            (read_varint-groups k (v / 128) rounds (i + 7) (value + v % 128 * 2 ^ i)
              (ground (arith, pow-suc 128 (suc k))) (omega arith)
              (next_small value (v % 128) i lt (omega arith)) (omega (arith, split_shifted v i)))))
  ]

pub write_uint32-Writes : (v : ℕ) → v < 2 ^ 32 → Writes (λ a. write_uint32 a v) (groups 4 v)
unfolding write_uint32
write_uint32-Writes v h = rw (varint-groups 4 v (omega arith)) (write-Writes (groups 4 v))

pub write_uint64-Writes : (v : ℕ) → v < 2 ^ 64 → Writes (λ a. write_uint64 a v) (groups 9 v)
unfolding write_uint64
write_uint64-Writes v h = rw (varint-groups 9 v (omega arith)) (write-Writes (groups 9 v))

module _ (host : Endian) where
  -- readUint32 reads back every uint32_t that writeUint32 wrote.
  pub read_uint32-Reads : (v : ℕ) → v < 2 ^ 32 → Reads (read_uint32 host) (groups 4 v) v
  unfolding read_uint32
  read_uint32-Reads v h =
      subst (λ r. Reads (read_varint host 32 5 0 0) (groups 4 v) r) (omega arith)
        (read_varint-groups host 32 4 v 5 0 0 (omega arith) (omega arith) (omega arith)
          (omega arith))

  -- On data that begin with the 7-bit groups of any number below 2^64, readUint64 succeeds with
  -- the number and leaves what follows, on any host.
  pub read_uint64-Reads : (v : ℕ) → v < 2 ^ 64 → Reads (read_uint64 host) (groups 9 v) v
  unfolding read_uint64
  read_uint64-Reads v h =
      subst (λ r. Reads (read_varint host 64 10 0 0) (groups 9 v) r) (omega arith)
        (read_varint-groups host 64 9 v 10 0 0 (omega arith) (omega arith) (omega arith)
          (omega arith))
