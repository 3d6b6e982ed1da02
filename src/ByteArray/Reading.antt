-- ===== src/ByteArray/Reading.antt =====
-- `read`, `toString` and `setPosition` of src/byte_array.cc on a well-formed buffer: each succeeds
-- within the capacity, keeps the buffer well formed and leaves the bytes as they are.
use native.Mathlib.Nat.{mod-lt}
use async_rpc.Base.{ℕ, zero, suc, ◌+◌, ◌-◌, ◌≤◌, ◌<◌, ltb, ◌==◌, max, arith}
use async_rpc.Base.{◌≡◌, refl, sym, ap, ◌∙◌, inl, inr, Bool-cases, suc-==-zero, false, subst}
use async_rpc.Base.{List, [], length, take, drop}
use async_rpc.Base.{ok, err, out_of_range}
use async_rpc.Base.{some, if◌then◌else◌}
use async_rpc.ByteArray.{ByteArray, pointer, read_at, read}
use async_rpc.ByteArray.{peek, peek_at, readable, to_string, set_position}
use async_rpc.ByteArray.Walk.{EndsIn, scan_at_lem, seek_lem}
use async_rpc.ByteArray.Invariant.{IsValid, contents, div-EndsIn}
use async_rpc.ByteArray.Access.{node, offset, node_offset, curr_node}

read_step :
    (a : ByteArray) (n : ℕ) {k : ℕ} → a.curr ≡ some k → read a (suc n) ≡ read_at (some k) a (suc n)
read_step a n e = unfold read in rw (suc-==-zero n) (ap (λ c. read_at c a (suc n)) e)

pub readable_lem : (a : ByteArray) → a.position ≤ a.size → readable a ≡ a.size - a.position
unfolding readable
readable_lem a h = ground arith

module _ {a : ByteArray} (v : IsValid a) where
  -- A `read` of `size` bytes gives the bytes at the position and moves it behind them.
  pub record Consumed (size : ℕ) (a' : ByteArray) : Type 0 where
    pub valid : IsValid a'
    pub same_base : a'.base_size ≡ a.base_size
    pub same_fresh : (i : ℕ) → a'.fresh i ≡ a.fresh i
    pub moved : a'.position ≡ a.position + size
    pub sized : a'.size ≡ a.size
    pub bytes : contents a' ≡ contents a

  read_at-Consumed :
      (size : ℕ)
      → 0 < size
      → a.position + size ≤ a.capacity
      → (a' : ByteArray) × (read_at (some (node v)) a size
          ≡ ok (take size (drop a.position (contents a)), a'))
        × Consumed size a'
  unfolding read_at
  read_at-Consumed size some_bytes fits =
      let (j, e, ends) =
        scan_at_lem a.base_size (node v) a.nodes (offset v) size v.uniform
          (mod-lt a.position v.base_pos) some_bytes (omega (arith, node_offset v, v.all_counted)) in
      (
        record a { curr = pointer (length a.nodes) j; position = a.position + size },
        rw e (
            ap
              (λ p. ok (
                take size (drop p (contents a)),
                record a { curr = pointer (length a.nodes) j; position = a.position + size },
              ))
              (node_offset v)),
        consumed j (subst (λ p. EndsIn a.base_size j (p + size)) (node_offset v) ends),
      )
    where
      consumed :
          (j : ℕ)
          → EndsIn a.base_size j (a.position + size)
          → Consumed size
              (record a { curr = pointer (length a.nodes) j; position = a.position + size })
      consumed j ends = record {
        valid = record {
          base_pos = v.base_pos;
          uniform = v.uniform;
          has_head = v.has_head;
          all_counted = v.all_counted;
          size_le = v.size_le;
          position_le = fits;
          at_position =
              ap (pointer (length a.nodes))
                (sym (div-EndsIn a.base_size j (a.position + size) ends));
        };
        same_base = refl;
        same_fresh = λ i. refl;
        moved = refl;
        sized = refl;
        bytes = refl;
      }

  pub read_lem :
      (size : ℕ)
      → a.position + size ≤ a.capacity
      → (a' : ByteArray) × (read a size ≡ ok (take size (drop a.position (contents a)), a'))
        × Consumed size a'
  read_lem zero fits = (
    a,
    unfold read in refl,
    record {
      valid = v;
      same_base = refl;
      same_fresh = λ i. refl;
      moved = omega arith;
      sized = refl;
      bytes = refl;
    },
  )
  read_lem (suc n) fits =
      let (a', e, c) = read_at-Consumed (suc n) (omega arith) fits in
      (a', read_step a n (curr_node v (omega arith)) ∙ e, c)

  peek_at_lem :
      (size : ℕ)
      → 0 < size
      → a.position + size ≤ a.capacity
      → peek_at (some (node v)) a size a.position
        ≡ ok (some (take size (drop a.position (contents a))))
  unfolding peek_at
  peek_at_lem size some_bytes fits =
      let (j, e, ends) =
        scan_at_lem a.base_size (node v) a.nodes (offset v) size v.uniform
          (mod-lt a.position v.base_pos) some_bytes (omega (arith, node_offset v, v.all_counted)) in
      rw e (ap (λ p. ok (some (take size (drop p (contents a))))) (node_offset v))

  peek_lem :
      (size : ℕ)
      → 0 < size
      → size ≡ a.size - a.position
      → peek a size a.position ≡ ok (some (take size (drop a.position (contents a))))
  peek_lem size some_bytes e =
      peek_step
      ∙ ap (λ c. peek_at c a size a.position) (curr_node v (omega (arith, v.size_le)))
      ∙ peek_at_lem size some_bytes (omega (arith, v.size_le))
    where
      peek_step : peek a size a.position ≡ peek_at a.curr a size a.position
      peek_step = unfold peek in ground arith

  to_string_step :
      (size : ℕ) {bs : List ℕ}
      → readable a ≡ size
      → (size == 0) ≡ false
      → peek a size a.position ≡ ok (some bs)
      → to_string a ≡ ok bs
  unfolding to_string
  to_string_step size r some_bytes p = rw (r, some_bytes, p) refl

  to_string-empty : readable a ≡ 0 → to_string a ≡ ok []
  unfolding to_string
  to_string-empty r = rw r refl

  -- On a valid buffer with the position not behind the data, toString gives exactly the bytes from
  -- the position to the size.
  pub to_string_lem :
      a.position ≤ a.size
      → to_string a ≡ ok (take (a.size - a.position) (drop a.position (contents a)))
  to_string_lem h = elim (Bool-cases (a.size - a.position == 0)) [
    | inl empty ↦
        let e : a.size - a.position ≡ 0 = ground arith in
        to_string-empty (readable_lem a h ∙ e)
        ∙ ap (λ n. ok (take n (drop a.position (contents a)))) (sym e)
    | inr more ↦
        to_string_step (a.size - a.position) (readable_lem a h) more
          (peek_lem (a.size - a.position) (ground arith) refl)
  ]

  -- `setPosition` accepts every position up to the capacity; the data grow if it is behind them.
  pub record Sought (p : ℕ) (a' : ByteArray) : Type 0 where
    pub valid : IsValid a'
    pub same_base : a'.base_size ≡ a.base_size
    pub same_fresh : (i : ℕ) → a'.fresh i ≡ a.fresh i
    pub moved : a'.position ≡ p
    pub sized : a'.size ≡ max a.size p
    pub bytes : contents a' ≡ contents a

  -- On a valid buffer setPosition succeeds for every position up to the capacity and keeps the
  -- buffer valid and its bytes; the size grows to a position behind it.
  pub set_position_lem :
      (p : ℕ) → p ≤ a.capacity → (a' : ByteArray) × (set_position a p ≡ ok a') × Sought p a'
  unfolding set_position
  set_position_lem p fits =
      let (k, e, ends) =
        seek_lem a.base_size a.nodes p v.uniform v.base_pos v.has_head
          (omega (arith, v.all_counted)) in
      (_, rw (let le : ltb a.capacity p ≡ false = ground arith in le, e) refl, sought k ends)
    where
      sought :
          (k : ℕ)
          → EndsIn a.base_size k p
          → Sought p (record a {
            position = p;
            size = if ltb a.size p then p else a.size;
            curr = pointer (length a.nodes) k;
          })
      sought k ends = record {
        valid = record {
          base_pos = v.base_pos;
          uniform = v.uniform;
          has_head = v.has_head;
          all_counted = v.all_counted;
          size_le = ground (arith, v.size_le);
          position_le = fits;
          at_position = ap (pointer (length a.nodes)) (sym (div-EndsIn a.base_size k p ends));
        };
        same_base = refl;
        same_fresh = λ i. refl;
        moved = refl;
        sized = ground arith;
        bytes = refl;
      }

  pub set_position-out_of_range : (p : ℕ) → a.capacity < p → set_position a p ≡ err out_of_range
  unfolding set_position
  set_position-out_of_range p h = ground arith
