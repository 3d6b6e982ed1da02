-- ===== src/Serializer/Laws.antt =====
-- Round trips of include/rpc/serializer.h, on a little-endian host: each type's operators, from
-- those of its parts.
use async_rpc.Base.{ℕ, ◌^◌, ◌<◌, sym, arith, subst}
use async_rpc.Base.{List, length, Bool, true, false}
use async_rpc.Base.{if◌then◌else◌, ◌==◌}
use async_rpc.ByteArray.Stream.{Writes, Reads, map-Reads}
use async_rpc.Codec.{
  little, to_memory, write_fixed, decode_zigzag32, decode_zigzag64, encode_zigzag32,
  encode_zigzag64, write_fint8, write_fuint8, write_fint16, write_fuint16, read_fint8, read_fuint8,
  read_fint16, read_fuint16, write_int32, write_int64, read_int32, read_int64, write_float,
  write_double, read_float, read_double, write_fuint32, write_fuint64, read_fuint32, read_fuint64,
}
use async_rpc.Codec.Fixed.{write_fixed-Writes, read_byte-Reads, little-Reads}
use async_rpc.Codec.Varint.{
  groups, write_uint32-Writes, write_uint64-Writes, read_uint32-Reads, read_uint64-Reads,
}
use async_rpc.Codec.Zigzag.{
  encode_zigzag32_lem, encode_zigzag64_lem, zigzag32-lt, zigzag64-lt,
  decode_zigzag32-encode_zigzag32, decode_zigzag64-encode_zigzag64,
}
use async_rpc.Codec.Text.{vint_bytes, write_string_vint-Writes, read_string_vint-Reads}
use async_rpc.Serializer.{
  Serial, bool, float, double, int8, uint8, int16, uint16, int32, uint32, int64, uint64, string,
  write_bool, read_bool, bool_bit,
}

-- What << writes for the values in range, and that >> into a new variable gives the value back.
pub record Lawful {A : Type 0} (s : Serial A) (Fits : A → Type 0) (bytes : A → List ℕ)
    : Type 0 where
  pub writes : (x : A) → Fits x → Writes (λ a. s.put a x) (bytes x)
  pub reads : (x : A) → Fits x → Reads (s.get s.initial) (bytes x) x

fixed-Writes : (n v : ℕ) → Writes (λ a. write_fixed little n a v) (to_memory little n v)
fixed-Writes = write_fixed-Writes little

abbrev pub Below : ℕ → ℕ → Type 0
Below n v = v < n

pub uint32-Lawful : Lawful (uint32 little) (Below (2 ^ 32)) (groups 4)
uint32-Lawful = record { writes = write_uint32-Writes; reads = read_uint32-Reads little }

pub uint64-Lawful : Lawful (uint64 little) (Below (2 ^ 64)) (groups 9)
uint64-Lawful = record { writes = write_uint64-Writes; reads = read_uint64-Reads little }

int32-Writes : (v : ℕ) → v < 2 ^ 32 → Writes (λ a. write_int32 a v) (groups 4 (encode_zigzag32 v))
unfolding write_int32
int32-Writes v h =
    write_uint32-Writes (encode_zigzag32 v)
      (subst (Below (2 ^ 32)) (sym (encode_zigzag32_lem v h)) (zigzag32-lt v h))

int32-Reads : (v : ℕ) → v < 2 ^ 32 → Reads (read_int32 little) (groups 4 (encode_zigzag32 v)) v
unfolding read_int32
int32-Reads v h =
    subst (Reads (read_int32 little) (groups 4 (encode_zigzag32 v)))
      (decode_zigzag32-encode_zigzag32 v h)
      (map-Reads decode_zigzag32 (
        read_uint32-Reads little (encode_zigzag32 v)
          (subst (Below (2 ^ 32)) (sym (encode_zigzag32_lem v h)) (zigzag32-lt v h))))

int64-Writes : (v : ℕ) → v < 2 ^ 64 → Writes (λ a. write_int64 a v) (groups 9 (encode_zigzag64 v))
unfolding write_int64
int64-Writes v h =
    write_uint64-Writes (encode_zigzag64 v)
      (subst (Below (2 ^ 64)) (sym (encode_zigzag64_lem v h)) (zigzag64-lt v h))

int64-Reads : (v : ℕ) → v < 2 ^ 64 → Reads (read_int64 little) (groups 9 (encode_zigzag64 v)) v
unfolding read_int64
int64-Reads v h =
    subst (Reads (read_int64 little) (groups 9 (encode_zigzag64 v)))
      (decode_zigzag64-encode_zigzag64 v h)
      (map-Reads decode_zigzag64 (
        read_uint64-Reads little (encode_zigzag64 v)
          (subst (Below (2 ^ 64)) (sym (encode_zigzag64_lem v h)) (zigzag64-lt v h))))

pub int32-Lawful : Lawful (int32 little) (Below (2 ^ 32)) (λ v. groups 4 (encode_zigzag32 v))
int32-Lawful = record { writes = int32-Writes; reads = int32-Reads }

pub int64-Lawful : Lawful (int64 little) (Below (2 ^ 64)) (λ v. groups 9 (encode_zigzag64 v))
int64-Lawful = record { writes = int64-Writes; reads = int64-Reads }

pub uint8-Lawful : Lawful (uint8 little) (Below (2 ^ 8)) (to_memory little 1)
unfolding read_fuint8 write_fuint8
uint8-Lawful = record {
  writes = λ v h. fixed-Writes 1 v;
  reads = λ v h. read_byte-Reads little v h;
}

pub int8-Lawful : Lawful (int8 little) (Below (2 ^ 8)) (to_memory little 1)
unfolding read_fint8 write_fint8
int8-Lawful = record { writes = λ v h. fixed-Writes 1 v; reads = λ v h. read_byte-Reads little v h }

pub uint16-Lawful : Lawful (uint16 little) (Below (2 ^ 16)) (to_memory little 2)
unfolding read_fuint16 write_fuint16
uint16-Lawful = record { writes = λ v h. fixed-Writes 2 v; reads = λ v h. little-Reads 2 v h }

pub int16-Lawful : Lawful (int16 little) (Below (2 ^ 16)) (to_memory little 2)
unfolding read_fint16 write_fint16
int16-Lawful = record { writes = λ v h. fixed-Writes 2 v; reads = λ v h. little-Reads 2 v h }

pub float-Lawful : Lawful (float little) (Below (2 ^ 32)) (to_memory little 4)
unfolding read_float read_fuint32 write_float write_fuint32
float-Lawful = record { writes = λ v h. fixed-Writes 4 v; reads = λ v h. little-Reads 4 v h }

pub double-Lawful : Lawful (double little) (Below (2 ^ 64)) (to_memory little 8)
unfolding read_double read_fuint64 write_double write_fuint64
double-Lawful = record { writes = λ v h. fixed-Writes 8 v; reads = λ v h. little-Reads 8 v h }

bool-Reads : (b : Bool) → Reads (read_bool little) (to_memory little 1 (bool_bit b)) b
unfolding read_bool read_fint8
bool-Reads true =
    map-Reads (λ v. if v == 0 then false else true) (read_byte-Reads little 1 (omega arith))
bool-Reads false =
    map-Reads (λ v. if v == 0 then false else true) (read_byte-Reads little 0 (omega arith))

pub bool-Lawful : Lawful (bool little) (λ b. Unit {0}) (λ b. to_memory little 1 (bool_bit b))
unfolding write_bool write_fint8
bool-Lawful = record { writes = λ b h. fixed-Writes 1 (bool_bit b); reads = λ b h. bool-Reads b }

pub string-Lawful : Lawful (string little) (λ s. length s < 2 ^ 64) (vint_bytes)
string-Lawful = record { writes = write_string_vint-Writes; reads = read_string_vint-Reads little }
