-- ===== src/Serializer/Content.antt =====
-- Serializers of include/rpc/serializer.h and the strings that they are made from and give.
use async_rpc.Base.{ℕ, ◌≡◌, refl, ap, ◌∙◌, arith, List, [], Result, ok, ◌>>=◌}
use async_rpc.ByteArray.{ByteArray, make, to_string}
use async_rpc.ByteArray.Invariant.{make-IsValid}
use async_rpc.ByteArray.View.{Left, to_string-Left}
use async_rpc.ByteArray.Stream.{Writes, write-Writes, Writes-rewind}
use async_rpc.Serializer.{from_content, reset}
use async_rpc.Protocol.{default_size}

-- A serializer over a string has the string left to read.
pub from_content-Left :
    (fresh : ℕ → ℕ) (xs : List ℕ) → (b : ByteArray) × (from_content fresh xs ≡ ok b) × Left b xs
unfolding from_content
from_content-Left fresh xs = Writes-rewind fresh default_size (omega arith) (write-Writes xs)

-- What is written on a new serializer is its string after reset.
pub to_string-reset :
    (fresh : ℕ → ℕ) {w : ByteArray → Result ByteArray} {bs : List ℕ}
    → Writes w bs
    → (((w (make fresh default_size)) >>= reset) >>= to_string) ≡ ok bs
unfolding reset
to_string-reset fresh p =
    let (a, e, l) = Writes-rewind fresh default_size (omega arith) p in
    ap (λ r. r >>= to_string) e ∙ to_string-Left l

-- A new serializer has nothing to read.
pub make-Left : (fresh : ℕ → ℕ) → Left (make fresh default_size) []
make-Left fresh = record {
  valid = make-IsValid fresh default_size (omega arith);
  within = unfold make in omega arith;
  bytes = unfold make in refl;
}
