-- ===== src/Codec/Text.antt =====
-- The texts of src/byte_array.cc: a length, then the bytes.
use native.Mathlib.Nat.{mod-eq_of_lt}
use async_rpc.Base.{ℕ, ◌%◌, ◌^◌, ◌<◌, refl, sym, subst}
use async_rpc.Base.{List, ◌++◌, length, ◌>>=◌}
use async_rpc.ByteArray.{write}
use async_rpc.ByteArray.Stream.{Writes, Reads, write-Writes, read-Reads, >>=-Writes, >>=-Reads}
use async_rpc.Codec.{Endian, little, to_memory, write_fuint16, write_fuint32, write_fuint64}
use async_rpc.Codec.{read_fuint16, read_fuint32, read_fuint64, read_text, write_fixed, read_fixed}
use async_rpc.Codec.{write_string_f16, write_string_f32, write_string_f64, write_string_vint}
use async_rpc.Codec.{read_string_f16, read_string_f32, read_string_f64, read_string_vint}
use async_rpc.Codec.Fixed.{write_fixed-Writes, little-Reads}
use async_rpc.Codec.Varint.{groups, write_uint64-Writes, read_uint64-Reads}

-- The bytes of a text behind a length of `n` bytes, on a little-endian host.
abbrev pub text_bytes : ℕ → List ℕ → List ℕ
text_bytes n s = to_memory little n (length s) ++ s

-- The same behind a variable-length number.
abbrev pub vint_bytes : List ℕ → List ℕ
vint_bytes s = groups 9 (length s) ++ s

read_text-Reads : (s : List ℕ) → Reads (λ a. read_text (length s, a)) s s
unfolding read_text
read_text-Reads s = read-Reads s (length s) refl

counted-Writes :
    (n : ℕ) (s : List ℕ)
    → length s < 256 ^ n
    → Writes
        (λ a. write_fixed little n a (length s % 256 ^ n) >>= λ a'. write a' s)
        (text_bytes n s)
counted-Writes n s h =
    >>=-Writes (λ a. write a s)
      (subst (λ m. Writes (λ a. write_fixed little n a m) (to_memory little n (length s)))
        (sym (mod-eq_of_lt h)) (write_fixed-Writes little n (length s)))
      (write-Writes s)

counted-Reads :
    (n : ℕ) (s : List ℕ)
    → length s < 256 ^ n
    → Reads (λ a. read_fixed little n a >>= read_text) (text_bytes n s) s
counted-Reads n s h = >>=-Reads read_text (little-Reads n (length s) h) (read_text-Reads s)

pub write_string_f16-Writes :
    (s : List ℕ) → length s < 2 ^ 16 → Writes (λ a. write_string_f16 little a s) (text_bytes 2 s)
unfolding write_string_f16 write_fuint16
write_string_f16-Writes s h = counted-Writes 2 s h

pub write_string_f32-Writes :
    (s : List ℕ) → length s < 2 ^ 32 → Writes (λ a. write_string_f32 little a s) (text_bytes 4 s)
unfolding write_string_f32 write_fuint32
write_string_f32-Writes s h = counted-Writes 4 s h

pub write_string_f64-Writes :
    (s : List ℕ) → length s < 2 ^ 64 → Writes (λ a. write_string_f64 little a s) (text_bytes 8 s)
unfolding write_string_f64 write_fuint64
write_string_f64-Writes s h = counted-Writes 8 s h

pub read_string_f16-Reads :
    (s : List ℕ) → length s < 2 ^ 16 → Reads (read_string_f16 little) (text_bytes 2 s) s
unfolding read_string_f16 read_fuint16
read_string_f16-Reads s h = counted-Reads 2 s h

pub read_string_f32-Reads :
    (s : List ℕ) → length s < 2 ^ 32 → Reads (read_string_f32 little) (text_bytes 4 s) s
unfolding read_string_f32 read_fuint32
read_string_f32-Reads s h = counted-Reads 4 s h

pub read_string_f64-Reads :
    (s : List ℕ) → length s < 2 ^ 64 → Reads (read_string_f64 little) (text_bytes 8 s) s
unfolding read_string_f64 read_fuint64
read_string_f64-Reads s h = counted-Reads 8 s h

pub write_string_vint-Writes :
    (s : List ℕ) → length s < 2 ^ 64 → Writes (λ a. write_string_vint a s) (vint_bytes s)
unfolding write_string_vint
write_string_vint-Writes s h =
    >>=-Writes (λ a. write a s) (write_uint64-Writes (length s) h) (write-Writes s)

-- On data that begin with a varint of the length, below 2^64, and the bytes of a string,
-- readStringVint succeeds with the string and leaves what follows.
pub read_string_vint-Reads :
    (host : Endian) (s : List ℕ)
    → length s < 2 ^ 64
    → Reads (read_string_vint host) (vint_bytes s) s
unfolding read_string_vint
read_string_vint-Reads host s h =
    >>=-Reads read_text (read_uint64-Reads host (length s) h) (read_text-Reads s)
