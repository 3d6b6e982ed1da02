-- ===== src/ByteArray/Buffers.antt =====
-- getReadBuffers and getWriteBuffers of src/byte_array.cc: the pieces of the nodes that a system
-- call reads from or writes into.
use async_rpc.Base.{
  ℕ, zero, suc, ◌+◌, ◌-◌, ◌%◌, ◌<◌, ◌≤◌, ltb, leb, ◌==◌, if◌then◌else◌, arith, true, false,
  Bool-cases, ◌≡◌, refl, sym, ap, ◌∙◌, inl, inr,
}
use async_rpc.Base.{
  List, [], ◌∷◌, ◌++◌, append-nil, map, length, take, drop, get_or, Option, none, some, Result, ok,
  err, ◌>>=◌, >>=-eq-ok, ok_inj, if_true, if_false, length-map, subst, null_pointer, bad_index,
}
use async_rpc.ByteArray.{ByteArray, add_capacity, scan, scan_at, read_at, read, readable}

-- An iovec: a node, where the piece begins in it, and the piece's length.
pub record Iovec : Type 0 where
  pub node : ℕ
  pub iov_base : ℕ
  pub iov_len : ℕ

abbrev pub deeper : Iovec → Iovec
deeper v = record { node = suc (v.node); iov_base = v.iov_base; iov_len = v.iov_len }

-- The loop that the three functions share, from a node on.
unfoldable pub gather : List (List ℕ) → ℕ → ℕ → Result (List Iovec)
gather [] npos len = err null_pointer
gather (n ∷ ns) npos len =
    let ncap = length n - npos in
    let rest = do
      vs ← gather ns 0 (len - ncap)
      ok (record { node = 0; iov_base = npos; iov_len = ncap } ∷ map deeper vs)
    in if leb len ncap then ok (record { node = 0; iov_base = npos; iov_len = len } ∷ []) else rest

unfoldable pub gather_at : ℕ → List (List ℕ) → ℕ → ℕ → Result (List Iovec)
gather_at zero ns npos len = gather ns npos len
gather_at (suc k) [] npos len = err null_pointer
gather_at (suc k) (n ∷ ns) npos len = do vs ← gather_at k ns npos len; ok (map deeper vs)

unfoldable pub gather_from : Option ℕ → ByteArray → ℕ → ℕ → Result (List Iovec)
gather_from none a position len = err null_pointer
gather_from (some k) a position len = gather_at k (a.nodes) (position % a.base_size) len

-- getReadBuffers(buffers, len, position): the pieces begin in the node of curr_, whatever the
-- position. The result is the number returned and the pieces added.
unfoldable pub get_read_buffers_at : ByteArray → ℕ → ℕ → Result (ℕ × List Iovec)
get_read_buffers_at a len position =
    let size = if ltb (readable a) len then readable a else len in
    let pieces = do vs ← gather_from (a.curr) a position size; ok (size, vs)
    in if size == 0 then ok (0, []) else pieces

-- getReadBuffers(buffers, len)
unfoldable pub get_read_buffers : ByteArray → ℕ → Result (ℕ × List Iovec)
get_read_buffers a len =
    let size = if ltb (readable a) len then readable a else len in
    let pieces = do vs ← gather_from (a.curr) a (a.position) size; ok (size, vs)
    in if size == 0 then ok (0, []) else pieces

-- No more pieces than nodes.
gather-length :
    (ns : List (List ℕ)) (npos len : ℕ) (vs : List Iovec)
    → gather ns npos len ≡ ok vs
    → length vs ≤ length ns
unfolding gather
gather-length [] npos len vs run = cc
gather-length (n ∷ ns) npos len vs run = elim (Bool-cases (leb len (length n - npos))) [
  | inl e ↦
      let same : record { node = 0; iov_base = npos; iov_len = len } ∷ [] ≡ vs =
        ok_inj (sym (if_true _ _ e) ∙ run) in
      omega (arith, ap length same)
  | inr e ↦
      let (ws, run', last) =
        >>=-eq-ok (gather ns 0 (len - (length n - npos))) _ (sym (if_false _ _ e) ∙ run) in
      omega (
        arith,
        gather-length ns 0 (len - (length n - npos)) ws run',
        ap length (ok_inj last),
        length-map ws deeper,
      )
]

gather_at-length :
    (k : ℕ) (ns : List (List ℕ)) (npos len : ℕ) (vs : List Iovec)
    → gather_at k ns npos len ≡ ok vs
    → length vs ≤ length ns
unfolding gather_at
gather_at-length zero ns npos len vs run = gather-length ns npos len vs run
gather_at-length (suc k) [] npos len vs run = cc
gather_at-length (suc k) (n ∷ ns) npos len vs run =
    let (ws, run', last) = >>=-eq-ok (gather_at k ns npos len) _ run in
    omega
      (arith, gather_at-length k ns npos len ws run', ap length (ok_inj last), length-map ws deeper)

gather_from-length :
    (o : Option ℕ) (a : ByteArray) (position len : ℕ) (vs : List Iovec)
    → gather_from o a position len ≡ ok vs
    → length vs ≤ length a.nodes
unfolding gather_from
gather_from-length none a position len vs run = cc
gather_from-length (some k) a position len vs run = gather_at-length k a.nodes _ len vs run

pub get_read_buffers-length :
    (a : ByteArray) (len n : ℕ) (vs : List Iovec)
    → get_read_buffers a len ≡ ok (n, vs)
    → length vs ≤ length a.nodes
unfolding get_read_buffers
get_read_buffers-length a len n vs run =
    let size = if ltb (readable a) len then readable a else len in
    elim (Bool-cases (size == 0)) [
      | inl e ↦
          let same : [] ≡ vs = ap (λ r. r.1) (ok_inj (sym (if_true _ _ e) ∙ run)) in
          omega (arith, ap length same)
      | inr e ↦
          let (ws, run', last) =
            >>=-eq-ok (gather_from a.curr a a.position size) _ (sym (if_false _ _ e) ∙ run) in
          subst (λ us. length us ≤ length a.nodes) (ap (λ r. r.1) (ok_inj last))
            (gather_from-length a.curr a a.position size ws run')
    ]

-- getWriteBuffers, with the array after it.
unfoldable pub get_write_buffers : ByteArray → ℕ → Result (ℕ × List Iovec × ByteArray)
get_write_buffers a len =
    let a' = add_capacity a len in
    let pieces = do vs ← gather_from (a'.curr) a' (a'.position) len; ok (len, vs, a')
    in if len == 0 then ok (0, [], a) else pieces

-- The loop of writeToFile: it goes on to the next node in each round. A length that wraps below 0
-- reaches far behind the node.
unfoldable pub write_nodes : ℕ → List (List ℕ) → (read_size pos : ℕ) → Result (List ℕ)
write_nodes base [] read_size pos = if read_size == 0 then ok [] else err null_pointer
write_nodes base (n ∷ ns) read_size pos =
    let diff = pos % base in
    let most = if ltb base read_size then base else read_size in
    let len = most - diff in
    let rest = write_nodes base ns (read_size - len) (pos + len) in
    if read_size == 0
    then ok []
    else if ltb most diff
    then err bad_index
    else (do bs ← rest; ok (take len (drop diff n) ++ bs))

-- writeToFile, once the file is open: what it writes.
unfoldable pub write_to_file : ByteArray → Result (List ℕ)
write_to_file a = elim (a.curr) [
  | none ↦ if readable a == 0 then ok [] else err null_pointer
  | some k ↦ write_nodes (a.base_size) (drop k (a.nodes)) (readable a) (a.position)
]

-- The bytes of a piece, and of pieces one after the other.
abbrev pub piece : List (List ℕ) → Iovec → List ℕ
piece nodes v = take (v.iov_len) (drop (v.iov_base) (get_or nodes (v.node) []))

abbrev pub pieces_of : List (List ℕ) → List Iovec → List ℕ
pieces_of nodes [] = []
pieces_of nodes (v ∷ vs) = piece nodes v ++ pieces_of nodes vs

pieces_of-deeper :
    (n : List ℕ) (ns : List (List ℕ)) (vs : List Iovec)
    → pieces_of (n ∷ ns) (map deeper vs) ≡ pieces_of ns vs
pieces_of-deeper n ns [] = refl
pieces_of-deeper n ns (v ∷ vs) = ap (λ l. piece ns v ++ l) (pieces_of-deeper n ns vs)

-- Pieces with the bytes that a read copies.
abbrev Holds : List (List ℕ) → List ℕ → Result (List Iovec) → Type 0
Holds ns bs r = (vs : List Iovec) × (r ≡ ok vs) × (pieces_of ns vs ≡ bs)

gather_rest :
    (n : List ℕ) (ns : List (List ℕ)) (npos len : ℕ)
    → leb len (length n - npos) ≡ false
    → gather (n ∷ ns) npos len ≡ (
        gather ns 0 (len - (length n - npos)) >>= λ vs.
        ok (record { node = 0; iov_base = npos; iov_len = length n - npos } ∷ map deeper vs))
unfolding gather
gather_rest n ns npos len e = rw (e) refl

scan_rest :
    (n : List ℕ) (ns : List (List ℕ)) (npos len : ℕ)
    → leb len (length n - npos) ≡ false
    → scan (n ∷ ns) npos len ≡ (
        scan ns 0 (len - (length n - npos)) >>= λ r.
        ok (take (length n - npos) (drop npos n) ++ r.0, suc (r.1)))
unfolding scan
scan_rest n ns npos len e = rw (e) refl

bytes_of :
    {A : Type 0} {x bs : List ℕ} {b c : A} (r : Result (List ℕ × A))
    → r ≡ ok (x, b)
    → r ≡ ok (bs, c)
    → x ≡ bs
bytes_of r g h = cc

gather_one :
    (n : List ℕ) (ns : List (List ℕ)) (npos len : ℕ)
    → leb len (length n - npos) ≡ true
    → gather (n ∷ ns) npos len ≡ ok (record { node = 0; iov_base = npos; iov_len = len } ∷ [])
unfolding gather
gather_one n ns npos len e = rw (e) refl

scan_one :
    (n : List ℕ) (ns : List (List ℕ)) (npos len : ℕ)
    → leb len (length n - npos) ≡ true
    → ok (take len (drop npos n), if length n == npos + len then 1 else 0) ≡ scan (n ∷ ns) npos len
unfolding scan
scan_one n ns npos len e = rw (e) refl

gather_lem :
    (ns : List (List ℕ)) (npos len : ℕ) (bs : List ℕ) (k : ℕ)
    → scan ns npos len ≡ ok (bs, k)
    → Holds ns bs (gather ns npos len)
unfolding gather scan
gather_lem [] npos len bs k h = cc
gather_lem (n ∷ ns) npos len bs k h = elim (Bool-cases (leb len (length n - npos))) [
  | inl e ↦
      (let same : take len (drop npos n) ≡ bs = bytes_of _ refl (scan_one n ns npos len e ∙ h) in
        (
          record { node = 0; iov_base = npos; iov_len = len } ∷ [],
          gather_one n ns npos len e,
          append-nil _ ∙ same,
        ))
  | inr e ↦
      (let (r, inner, outer) =
          >>=-eq-ok (scan ns 0 (len - (length n - npos))) _ (sym (scan_rest n ns npos len e) ∙ h) in
        let (vs, run, held) = gather_lem ns 0 (len - (length n - npos)) (r.0) (r.1) inner in
        (
          record { node = 0; iov_base = npos; iov_len = length n - npos } ∷ map deeper vs,
          gather_rest n ns npos len e
              ∙ ap
                  (λ m. m >>= λ ws. ok (
                    record { node = 0; iov_base = npos; iov_len = length n - npos }
                    ∷ map deeper ws))
                  run,
          ap (λ l. take (length n - npos) (drop npos n) ++ l) (pieces_of-deeper n ns vs ∙ held)
              ∙ bytes_of _ refl outer,
        ))
]

gather_at_lem :
    (j : ℕ) (ns : List (List ℕ)) (npos len : ℕ) (bs : List ℕ) (k : ℕ)
    → scan_at j ns npos len ≡ ok (bs, k)
    → Holds ns bs (gather_at j ns npos len)
unfolding gather_at scan_at
gather_at_lem zero ns npos len bs k h = gather_lem ns npos len bs k h
gather_at_lem (suc j) [] npos len bs k h = cc
gather_at_lem (suc j) (n ∷ ns) npos len bs k h =
    let (r, inner, outer) = >>=-eq-ok (scan_at j ns npos len) _ h in
    let (vs, run, held) = gather_at_lem j ns npos len (r.0) (r.1) inner in
    (
      map deeper vs,
      ap (λ m. m >>= λ ws. ok (map deeper ws)) run,
      pieces_of-deeper n ns vs ∙ held ∙ bytes_of _ refl outer,
    )

gather_from_lem :
    (c : Option ℕ) (a a' : ByteArray) (len : ℕ) (bs : List ℕ)
    → read_at c a len ≡ ok (bs, a')
    → Holds (a.nodes) bs (gather_from c a (a.position) len)
unfolding gather_from read_at
gather_from_lem none a a' len bs h = cc
gather_from_lem (some k) a a' len bs h =
    let (r, inner, outer) = >>=-eq-ok (scan_at k (a.nodes) (a.position % a.base_size) len) _ h in
    let (vs, run, held) =
      gather_at_lem k (a.nodes) (a.position % a.base_size) len (r.0) (r.1) inner in
    (vs, run, held ∙ bytes_of _ refl outer)

read_some : (a : ByteArray) (len : ℕ) → (len == 0) ≡ false → read a len ≡ read_at (a.curr) a len
unfolding read
read_some a len e = rw (e) refl

buffers_some :
    (a : ByteArray) (len : ℕ)
    → (len == 0) ≡ false
    → ltb (readable a) len ≡ false
    → get_read_buffers a len ≡ (gather_from (a.curr) a (a.position) len >>= λ vs. ok (len, vs))
unfolding get_read_buffers
buffers_some a len e f = rw (f, e) refl

-- When a read of at least one byte and at most getReadableSize succeeds, getReadBuffers for that
-- many bytes returns that number and pieces of the nodes that hold, one after the other, exactly
-- the bytes read.
pub get_read_buffers-read :
    (a a' : ByteArray) (len : ℕ) (bs : List ℕ)
    → 0 < len
    → len ≤ readable a
    → read a len ≡ ok (bs, a')
    → (vs : List Iovec) × (get_read_buffers a len ≡ ok (len, vs)) × (pieces_of (a.nodes) vs ≡ bs)
get_read_buffers-read a a' len bs p le h =
    let ne : (len == 0) ≡ false = ground arith in
    let lt : ltb (readable a) len ≡ false = ground arith in
    let (vs, run, held) = gather_from_lem (a.curr) a a' len bs (sym (read_some a len ne) ∙ h) in
    (vs, buffers_some a len ne lt ∙ ap (λ m. m >>= λ ws. ok (len, ws)) run, held)
