-- ===== src/Codec/Fixed.antt =====
-- The fixed-width numbers of src/byte_array.cc.
use async_rpc.Base.{ℕ, subst, ◌^◌, ◌<◌, ◌≡◌, sym, ap, [], ◌∷◌, arith}
use async_rpc.ByteArray.Stream.{Writes, Reads, write-Writes, read-Reads, map-Reads}
use async_rpc.Codec.{Endian, little, big, le_bytes, to_memory, from_memory, to_host, write_fixed}
use async_rpc.Codec.{read_fixed, read_byte}
use async_rpc.Codec.Memory.{length-to_memory, from_memory-to_memory}

module _ (host : Endian) where
  pub write_fixed-Writes : (n v : ℕ) → Writes (λ a. write_fixed host n a v) (to_memory host n v)
  unfolding write_fixed
  write_fixed-Writes n v = write-Writes (to_memory host n v)

  -- On data that begin with the bytes which a host wrote for a number of fixed length, the reader
  -- of the same host succeeds and leaves what follows; its result is the number with its bytes
  -- swapped on a big-endian host, and the number itself on a little-endian one.
  pub read_fixed-Reads :
      (n v : ℕ)
      → v < 256 ^ n
      → Reads (read_fixed host n) (to_memory host n v) (to_host little host n v)
  unfolding read_fixed
  read_fixed-Reads n v h =
      subst (λ u. Reads (read_fixed host n) (to_memory host n v) (to_host little host n u))
        (from_memory-to_memory host n v h)
        (map-Reads (λ bs. to_host little host n (from_memory host bs))
          (read-Reads (to_memory host n v) n (sym (length-to_memory host n v))))

  pub read_byte-Reads : (v : ℕ) → v < 256 → Reads (read_byte host) (to_memory host 1 v) v
  unfolding read_byte
  read_byte-Reads v h =
      subst (λ u. Reads (read_byte host) (to_memory host 1 v) u) (from_memory-to_memory host 1 v h)
        (map-Reads (from_memory host)
          (read-Reads (to_memory host 1 v) 1 (sym (length-to_memory host 1 v))))

-- On one byte the order does not matter.
pub to_memory-byte : (host : Endian) (v : ℕ) → v < 256 → to_memory host 1 v ≡ v ∷ []
unfolding to_memory le_bytes
to_memory-byte little v h = ap (λ u. u ∷ []) (omega arith)
to_memory-byte big v h = ap (λ u. u ∷ []) (omega arith)

-- On a little-endian host every number reads back as it was written.
pub little-Reads : (n v : ℕ) → v < 256 ^ n → Reads (read_fixed little n) (to_memory little n v) v
unfolding to_host
little-Reads n v h = read_fixed-Reads little n v h
