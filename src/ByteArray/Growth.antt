-- ===== src/ByteArray/Growth.antt =====
-- `addCapacity` of src/byte_array.cc: after it the bytes to come fit, and the ones there stay.
use async_rpc.Base.{ℕ, ◌+◌, ◌-◌, ◌*◌, ◌/◌, ◌≤◌, ◌<◌, leb, ◌==◌, arith}
use async_rpc.Base.{◌≡◌, refl, sym, ap, ◌∙◌, inl, inr, Bool-cases}
use async_rpc.Base.{List, [], ◌++◌, length, flat, All-append}
use async_rpc.Base.{length-append, append-nil, if◌then◌else◌}
use async_rpc.ByteArray.{ByteArray, new_nodes, pointer, ceil_div, get_capacity, grow, add_capacity}
use async_rpc.ByteArray.Invariant.{
  IsValid, contents, ceil_div-ge, div-lt_of_lt-mul, div-full, new_nodes-Uniform, length-new_nodes,
  flat-append,
}

-- `a'` is `a` with room for `n` bytes behind the position, and `junk` behind what was there.
pub record Grown (a : ByteArray) (n : ℕ) (a' : ByteArray) (junk : List ℕ) : Type 0 where
  pub valid : IsValid a'
  pub same_base : a'.base_size ≡ a.base_size
  pub same_position : a'.position ≡ a.position
  pub same_size : a'.size ≡ a.size
  pub same_fresh : (i : ℕ) → a'.fresh i ≡ a.fresh i
  pub fits : a.position + n ≤ a'.capacity
  pub behind : contents a' ≡ contents a ++ junk

pointer_grown : (n c k : ℕ) → k < n → pointer (n + c) k ≡ pointer n k
pointer_grown n c k h = ground arith

-- With new nodes, the null pointer of a full buffer becomes the first of them.
grow_pointer :
    (a : ByteArray) (count : ℕ)
    → IsValid a
    → (if get_capacity a == 0 then pointer (length a.nodes + count) (length a.nodes) else a.curr)
      ≡ pointer (length a.nodes + count) (a.position / a.base_size)
grow_pointer a count v = elim (Bool-cases (get_capacity a == 0)) [
  | inl full ↦
      let e : a.position ≡ length a.nodes * a.base_size =
        ground (arith, v.all_counted, v.position_le) in
      rw (full, e, div-full (length a.nodes) a.base_size v.base_pos) refl
  | inr room ↦
      rw (room, v.at_position)
        (sym (
          pointer_grown (length a.nodes) count (a.position / a.base_size) (
            div-lt_of_lt-mul a.position (length a.nodes) a.base_size v.base_pos
              (ground (arith, v.all_counted, v.position_le)))))
]

module _ (a : ByteArray) (v : IsValid a) where
  abbrev more : ℕ → List (List ℕ)
  more count = new_nodes a.fresh a.base_size (length a.nodes) count

  length-more : (count : ℕ) → length (a.nodes ++ more count) ≡ length a.nodes + count
  length-more count =
      length-append a.nodes (more count)
      ∙ ap (◌+◌ (length a.nodes)) (length-new_nodes a.fresh a.base_size (length a.nodes) count)

  grow-Grown :
      (n count : ℕ)
      → n ≤ get_capacity a + count * a.base_size
      → Grown a n (grow a count) (flat (more count))
  unfolding grow
  grow-Grown n count enough = record {
    valid = record {
      base_pos = v.base_pos;
      uniform =
          All-append _ a.nodes (more count) v.uniform
            (new_nodes-Uniform a.fresh a.base_size (length a.nodes) count);
      has_head = omega (arith, length-more count, v.has_head);
      all_counted =
          omega (arith, v.all_counted, ap (λ (t : ℕ). t * a.base_size) (length-more count));
      position_le = omega (arith, v.position_le);
      size_le = omega (arith, v.size_le);
      at_position = rw (length-more count) (grow_pointer a count v);
    };
    same_base = refl;
    same_position = refl;
    same_size = refl;
    same_fresh = λ i. refl;
    fits = omega (arith, v.position_le);
    behind = flat-append a.nodes (more count);
  }

  stay-Grown : (n : ℕ) → n ≤ get_capacity a → Grown a n a []
  stay-Grown n h = record {
    valid = v;
    same_base = refl;
    same_position = refl;
    same_size = refl;
    same_fresh = λ i. refl;
    fits = omega (arith, v.position_le);
    behind = sym (append-nil (contents a));
  }

  -- On a valid buffer addCapacity keeps it valid, makes room for the bytes behind the position,
  -- and changes neither the bytes there were, nor the position, nor the size.
  pub add_capacity-Grown : (n : ℕ) → (junk : List ℕ) × Grown a n (add_capacity a n) junk
  unfolding add_capacity
  add_capacity-Grown n = elim (Bool-cases (n == 0)) [
    | inl none_asked ↦ ([], rw none_asked (stay-Grown n (ground arith)))
    | inr asked ↦ elim (Bool-cases (leb n (get_capacity a))) [
      | inl room ↦ ([], rw (asked, room) (stay-Grown n (ground arith)))
      | inr short ↦
          let count : ℕ = ceil_div (n - get_capacity a) a.base_size in
          (
            flat (more count),
            rw (asked, short)
                (grow-Grown n count
                  (ground (arith, ceil_div-ge (n - get_capacity a) a.base_size v.base_pos))),
          )
    ]
  ]
