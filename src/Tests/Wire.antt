-- ===== src/Tests/Wire.antt =====
-- The theorems on the buffer, the codecs, the protocol and the serializer at concrete inputs.
use async_rpc.Base.{ℕ, ◌≤◌, arith, ◌≡◌, refl}
use async_rpc.Base.{List, [], ◌∷◌, ◌++◌, length, some, ok, ◌>>=◌}
use async_rpc.ByteArray.{ByteArray, make, write, read, read_at, scan, scan_at, to_string, readable}
use async_rpc.ByteArray.Invariant.{IsValid}
use async_rpc.ByteArray.View.{Wrote, Left, write-Wrote, read-Left}
use async_rpc.ByteArray.Buffers.{Iovec, get_read_buffers, pieces_of, get_read_buffers-read}
use async_rpc.ByteArray.Stream.{Reads}
use async_rpc.Codec.{little, big, read_uint64}
use async_rpc.Codec.Varint.{groups, read_uint64-Reads}
use async_rpc.Codec.Zigzag.{}
use async_rpc.Protocol.{Protocol, default_size, empty, encode, decode}
use async_rpc.Protocol.RoundTrip.{Fits, decode-encode}
use async_rpc.Serializer.{container, sequence, uint32, from_content, reset}
use async_rpc.Serializer.Laws.{uint32-Lawful}
use async_rpc.Serializer.Composite.{container_bytes, sequence-Lawful, get-put}

-- Five bytes in two nodes of three, read up to the second one, and the same at their end.
abbrev array : ByteArray
array = record {
  nodes = (1 ∷ 2 ∷ 3 ∷ []) ∷ (4 ∷ 5 ∷ 6 ∷ []) ∷ [];
  curr = some 0;
  base_size = 3;
  position = 1;
  capacity = 6;
  size = 5;
  fresh = λ i. 0;
}

array-IsValid : IsValid array
array-IsValid = record {
  base_pos = omega arith;
  uniform = (refl, (refl, tt));
  has_head = omega arith;
  all_counted = refl;
  position_le = omega arith;
  size_le = omega arith;
  at_position = refl;
}

array-readable : 4 ≤ readable array
unfolding readable
array-readable = omega arith

array-Left : Left array ((2 ∷ 3 ∷ 4 ∷ []) ++ (5 ∷ []))
array-Left = record { valid = array-IsValid; within = omega arith; bytes = refl }

abbrev at_end : ByteArray
at_end = record {
  nodes = (1 ∷ 2 ∷ 3 ∷ []) ∷ (4 ∷ 5 ∷ 6 ∷ []) ∷ [];
  curr = some 1;
  base_size = 3;
  position = 5;
  capacity = 6;
  size = 5;
  fresh = λ i. 0;
}

at_end-Wrote : Wrote at_end (1 ∷ 2 ∷ 3 ∷ 4 ∷ 5 ∷ [])
at_end-Wrote = record {
  valid = record {
    base_pos = omega arith;
    uniform = (refl, (refl, tt));
    has_head = omega arith;
    all_counted = refl;
    position_le = omega arith;
    size_le = omega arith;
    at_position = refl;
  };
  at_end = refl;
  bytes = refl;
}

abbrev message : Protocol
message = record {
  magic = 0xcc;
  version = 1;
  type = 2;
  sequence_id = 70000;
  content_length = 3;
  content = 97 ∷ 98 ∷ 99 ∷ [];
}

message-Fits : Fits message
message-Fits = record {
  magic_fits = omega arith;
  version_fits = omega arith;
  type_fits = omega arith;
  id_fits = omega arith;
  content_fits = omega arith;
  length_right = refl;
}

abbrev three : List ℕ
three = 2 ∷ 3 ∷ 4 ∷ []

abbrev numbers : List ℕ
numbers = 300 ∷ 5 ∷ []

decode-encode_example :
    (a a' : ByteArray) × (encode little (λ i. 7) message ≡ ok a)
    × (decode little empty a ≡ ok (message, a'))
    × Left a' []
decode-encode_example = decode-encode (λ i. 7) message empty message-Fits

get-put_example :
    (a b c : ByteArray) × (((container little (uint32 little) (sequence ℕ)).put
          (make (λ i. 7) default_size)
          numbers
        >>= reset)
      ≡ ok a)
    × (to_string a ≡ ok ((container_bytes (sequence ℕ) (groups 4)) numbers))
    × (from_content (λ i. 8) ((container_bytes (sequence ℕ) (groups 4)) numbers) ≡ ok b)
    × ((container little (uint32 little) (sequence ℕ)).get
          (container little (uint32 little) (sequence ℕ)).initial
          b
        ≡ ok (numbers, c))
    × Left c []
get-put_example =
    get-put (sequence-Lawful uint32-Lawful) (λ i. 7) (λ i. 8) numbers
      (omega arith, (omega arith, (omega arith, tt)))

write-Wrote_example :
    (a' : ByteArray) × (write at_end (6 ∷ 7 ∷ []) ≡ ok a')
    × Wrote a' ((1 ∷ 2 ∷ 3 ∷ 4 ∷ 5 ∷ []) ++ (6 ∷ 7 ∷ []))
write-Wrote_example = write-Wrote (6 ∷ 7 ∷ []) at_end-Wrote

read-Left_example :
    (a' : ByteArray) × (read array (length three) ≡ ok (three, a')) × Left a' (5 ∷ [])
read-Left_example = read-Left three (5 ∷ []) array-Left

get_read_buffers-read_example :
    (vs : List Iovec) × (get_read_buffers array 4 ≡ ok (4, vs))
    × (pieces_of (array.nodes) vs ≡ (2 ∷ 3 ∷ 4 ∷ 5 ∷ []))
unfolding read read_at scan_at scan
get_read_buffers-read_example =
    get_read_buffers-read array _ 4 (2 ∷ 3 ∷ 4 ∷ 5 ∷ []) (omega arith) array-readable refl

read_uint64-Reads_example : Reads (read_uint64 big) (groups 9 300) 300
read_uint64-Reads_example = read_uint64-Reads big 300 (omega arith)
