-- ===== src/ByteArray.antt =====
-- include/byte_array.h and src/byte_array.cc: the serialisation buffer, a linked list of memory
-- nodes of one size.
pub mod Walk
pub mod Invariant
pub mod Growth
pub mod Access
pub mod Reading
pub mod View
pub mod Stream
pub mod Buffers
pub mod Scatter
use async_rpc.Base.{ℕ, zero, suc, ◌+◌, ◌-◌, ◌*◌, ◌/◌, ◌%◌, ◌^◌, Bool, true, false, ltb, leb, ◌==◌}
use async_rpc.Base.{if◌then◌else◌, List, [], ◌∷◌, ◌++◌, length, take, drop, replicate, memcpy}
use async_rpc.Base.{Option, none, some, Result, ok, err, ◌>>=◌, null_pointer, out_of_range}

-- A node is its bytes; `next` is the order of the list. `curr` is the index of the node that
-- curr_ points to, `none` for a null pointer. `fresh` is no field of the class: byte `i` of it is
-- what the i-th byte of the nodes holds when `new char[]` returns it.
pub record ByteArray : Type 0 where
  pub nodes : List (List ℕ)
  pub curr : Option ℕ
  pub base_size : ℕ
  pub position : ℕ
  pub capacity : ℕ
  pub size : ℕ
  pub fresh : ℕ → ℕ

-- ByteArray::Node::Node(size_t): `n` bytes, the first of them byte `i` of the fresh memory.
unfoldable pub new_node : (ℕ → ℕ) → ℕ → ℕ → List ℕ
new_node fresh i zero = []
new_node fresh i (suc n) = fresh i ∷ new_node fresh (i + 1) n

-- `count` nodes of `base` bytes, the first of them node `k` of the array.
unfoldable pub new_nodes : (ℕ → ℕ) → ℕ → ℕ → ℕ → List (List ℕ)
new_nodes fresh base k zero = []
new_nodes fresh base k (suc count) =
    new_node fresh (k * base) base ∷ new_nodes fresh base (k + 1) count

-- ByteArray::ByteArray(size_t)
unfoldable pub make : (ℕ → ℕ) → ℕ → ByteArray
make fresh size = record {
  nodes = new_node fresh 0 size ∷ [];
  curr = some 0;
  base_size = size;
  position = 0;
  capacity = size;
  size = 0;
  fresh = fresh;
}

-- The pointer to node `k` of `n` nodes: null behind the last.
abbrev pub pointer : ℕ → ℕ → Option ℕ
pointer n k = if ltb k n then some k else none

-- ceil(1.0 * size / base): exact in a double while the size is below 2^53.
abbrev pub ceil_div : ℕ → ℕ → ℕ
ceil_div size base = (size + base - 1) / base

-- getCapacity: what is left behind the position, which never passes the capacity.
abbrev pub get_capacity : ByteArray → ℕ
get_capacity a = a.capacity - a.position

-- The new nodes, behind the last one; curr_ moves to the first of them only if nothing was left.
unfoldable pub grow : ByteArray → ℕ → ByteArray
grow a count = record a {
  nodes = a.nodes ++ new_nodes a.fresh a.base_size (length a.nodes) count;
  capacity = a.capacity + count * a.base_size;
  curr = if get_capacity a == 0 then pointer (length a.nodes + count) (length a.nodes) else a.curr;
}

unfoldable pub add_capacity : ByteArray → ℕ → ByteArray
add_capacity a size =
    if size == 0
    then a
    else if leb size (get_capacity a)
    then a
    else grow a (ceil_div (size - get_capacity a) a.base_size)

-- The loop of `write` from the node of curr_ on: the nodes after it, and how many nodes curr_ moved.
-- `npos` is below the node's size, so `ncap` does not wrap.
unfoldable pub fill : List (List ℕ) → ℕ → List ℕ → Result (List (List ℕ) × ℕ)
fill [] npos bs = err null_pointer
fill (n ∷ ns) npos bs =
    let ncap = length n - npos in
    let rest = do
      (ns', k) ← fill ns 0 (drop ncap bs)
      ok (memcpy n npos (take ncap bs) ∷ ns', suc k)
    in if leb (length bs) ncap
      then ok (memcpy n npos bs ∷ ns, if length n == length bs + npos then 1 else 0)
      else rest

unfoldable pub fill_at : ℕ → List (List ℕ) → ℕ → List ℕ → Result (List (List ℕ) × ℕ)
fill_at zero ns npos bs = fill ns npos bs
fill_at (suc k) [] npos bs = err null_pointer
fill_at (suc k) (n ∷ ns) npos bs = do (ns', j) ← fill_at k ns npos bs; ok (n ∷ ns', suc j)

-- The write once the capacity is there.
unfoldable pub write_at : Option ℕ → ByteArray → List ℕ → Result ByteArray
write_at none a bs = err null_pointer
write_at (some k) a bs = do
  (ns, j) ← fill_at k a.nodes (a.position % a.base_size) bs
  let pos = a.position + length bs
  ok (record a {
    nodes = ns;
    curr = pointer (length ns) j;
    position = pos;
    size = if ltb a.size pos then pos else a.size;
  })

unfoldable pub write : ByteArray → List ℕ → Result ByteArray
write a bs =
    if length bs == 0 then ok a else (let a' = add_capacity a (length bs) in write_at a'.curr a' bs)

-- The loop of `read`: the bytes, and how many nodes the pointer moved.
unfoldable pub scan : List (List ℕ) → ℕ → ℕ → Result (List ℕ × ℕ)
scan [] npos size = err null_pointer
scan (n ∷ ns) npos size =
    let ncap = length n - npos in
    let rest = do (bs, k) ← scan ns 0 (size - ncap); ok (take ncap (drop npos n) ++ bs, suc k)
    in if leb size ncap
      then ok (take size (drop npos n), if length n == npos + size then 1 else 0)
      else rest

unfoldable pub scan_at : ℕ → List (List ℕ) → ℕ → ℕ → Result (List ℕ × ℕ)
scan_at zero ns npos size = scan ns npos size
scan_at (suc k) [] npos size = err null_pointer
scan_at (suc k) (n ∷ ns) npos size = do (bs, j) ← scan_at k ns npos size; ok (bs, suc j)

unfoldable pub read_at : Option ℕ → ByteArray → ℕ → Result (List ℕ × ByteArray)
read_at none a size = err null_pointer
read_at (some k) a size = do
  (bs, j) ← scan_at k a.nodes (a.position % a.base_size) size
  ok (bs, record a { curr = pointer (length a.nodes) j; position = a.position + size })

-- read(void *, size_t): the size of the data is not looked at.
unfoldable pub read : ByteArray → ℕ → Result (List ℕ × ByteArray)
read a size = if size == 0 then ok ([], a) else read_at a.curr a size

-- getReadableSize: size_t arithmetic, which wraps if the position is behind the data.
unfoldable pub readable : ByteArray → ℕ
readable a = if leb a.position a.size then a.size - a.position else 2 ^ 64 + a.size - a.position

-- read(void *, size_t, size_t) const, from the node of curr_; `none` is the logged refusal, which
-- leaves the buffer as it was.
unfoldable pub peek_at : Option ℕ → ByteArray → ℕ → ℕ → Result (Option (List ℕ))
peek_at none a size position = err null_pointer
peek_at (some k) a size position = do
  (bs, j) ← scan_at k a.nodes (position % a.base_size) size
  ok (some bs)

unfoldable pub peek : ByteArray → ℕ → ℕ → Result (Option (List ℕ))
peek a size position =
    let left = if leb position a.size then a.size - position else 2 ^ 64 + a.size - position in
    if ltb left size then ok none else peek_at a.curr a size position

abbrev pub filled_or : Option (List ℕ) → List ℕ → List ℕ
filled_or none zeros = zeros
filled_or (some bs) zeros = bs

unfoldable pub to_string : ByteArray → Result (List ℕ)
to_string a =
    let size = readable a in
    let some_bytes = do r ← peek a size a.position; ok (filled_or r (replicate size 0))
    in if size == 0 then ok [] else some_bytes

-- The loop of `setPosition` from the head on: the index of the node that holds byte `v`.
unfoldable pub seek : List (List ℕ) → ℕ → Result ℕ
seek [] v = err null_pointer
seek (n ∷ ns) v =
    let rest = (do k ← seek ns (v - length n); ok (suc k)) in
    if ltb (length n) v then rest else if v == length n then ok 1 else ok 0

unfoldable pub set_position : ByteArray → ℕ → Result ByteArray
set_position a v =
    let moved = do
      k ← seek a.nodes v
      ok (record a {
        position = v;
        size = if ltb a.size v then v else a.size;
        curr = pointer (length a.nodes) k;
      })
    in if ltb a.capacity v then err out_of_range else moved

unfoldable pub clear : ByteArray → ByteArray
clear a = record a {
  nodes = take 1 a.nodes;
  curr = some 0;
  position = 0;
  capacity = a.base_size;
  size = 0;
}
