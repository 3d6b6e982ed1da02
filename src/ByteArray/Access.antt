-- ===== src/ByteArray/Access.antt =====
-- `write`, `read`, `setPosition` and `clear` of src/byte_array.cc on a well-formed buffer: each
-- succeeds, keeps the buffer well formed and is one access to the bytes at the position.
use native.Mathlib.Nat.{div-add-mod', mod-lt}
use async_rpc.Base.{ℕ, zero, suc, ◌+◌, ◌*◌, ◌/◌, ◌%◌, ◌≤◌, ◌<◌, ltb, max, arith}
use async_rpc.Base.{◌≡◌, refl, sym, ap, ap₂, ◌∙◌, suc-==-zero, subst}
use async_rpc.Base.{List, [], ◌∷◌, ◌++◌, length, memcpy}
use async_rpc.Base.{length-append, append-nil, ok}
use async_rpc.Base.{some, if◌then◌else◌}
use async_rpc.ByteArray.{ByteArray, pointer, add_capacity, write_at, write}
use async_rpc.ByteArray.Walk.{EndsIn, Filled, fill_at_lem}
use async_rpc.ByteArray.Invariant.{IsValid, contents, length-contents, div-EndsIn, div-lt_of_lt-mul}
use async_rpc.ByteArray.Growth.{Grown, add_capacity-Grown}

-- `a'` is `a` after a write of `bs`: over the bytes at the position, `junk` appended before if the
-- buffer had to grow.
pub record Written (a : ByteArray) (bs : List ℕ) (a' : ByteArray) (junk : List ℕ) : Type 0 where
  pub valid : IsValid a'
  pub same_base : a'.base_size ≡ a.base_size
  pub same_fresh : (i : ℕ) → a'.fresh i ≡ a.fresh i
  pub moved : a'.position ≡ a.position + length bs
  pub sized : a.position ≤ a.size → a'.size ≡ max a.size (a.position + length bs)
  pub fits : a.position + length bs ≤ length (contents a ++ junk)
  pub bytes : contents a' ≡ memcpy (contents a ++ junk) a.position bs

memcpy-nil : (xs : List ℕ) (i : ℕ) → memcpy xs i [] ≡ xs
memcpy-nil [] zero = refl
memcpy-nil (x ∷ xs) zero = refl
memcpy-nil [] (suc i) = refl
memcpy-nil (x ∷ xs) (suc i) = ap (◌∷◌ x) (memcpy-nil xs i)

module _ {a : ByteArray} (v : IsValid a) where
  abbrev pub node : ℕ
  node = a.position / a.base_size

  abbrev pub offset : ℕ
  offset = a.position % a.base_size

  pub node_offset : node * a.base_size + offset ≡ a.position
  node_offset = div-add-mod' a.position a.base_size

  -- The pointer is not null while bytes are left.
  pub curr_node : a.position < a.capacity → a.curr ≡ some node
  curr_node h =
      v.at_position
      ∙ ground (
        arith,
        div-lt_of_lt-mul a.position (length a.nodes) a.base_size v.base_pos
            (omega (arith, v.all_counted)),
      )

  write_at-Written :
      (bs : List ℕ)
      → 0 < length bs
      → a.position + length bs ≤ a.capacity
      → (a' : ByteArray) × (write_at (some node) a bs ≡ ok a') × Written a bs a' []
  unfolding write_at
  write_at-Written bs some_bytes fits =
      let (ns, j, e, f) =
        fill_at_lem a.base_size node a.nodes offset bs v.uniform (mod-lt a.position v.base_pos)
          some_bytes (omega (arith, node_offset, v.all_counted)) in
      (_, rw e refl, written ns j f)
    where
      written :
          (ns : List (List ℕ)) (j : ℕ)
          → Filled a.base_size a.nodes (node * a.base_size + offset) bs ns j
          → Written a bs
              (record a {
                nodes = ns;
                curr = pointer (length ns) j;
                position = a.position + length bs;
                size =
                    if ltb a.size (a.position + length bs) then a.position + length bs else a.size;
              })
              []
      written ns j f = record {
        valid = record {
          base_pos = v.base_pos;
          uniform = f.uniform;
          has_head = omega (arith, f.same_length, v.has_head);
          all_counted = omega (arith, v.all_counted, ap (λ (t : ℕ). t * a.base_size) f.same_length);
          position_le = fits;
          size_le = ground (arith, v.size_le);
          at_position = ap (pointer (length ns)) (
              sym (
                div-EndsIn a.base_size j (a.position + length bs)
                  (subst (λ p. EndsIn a.base_size j (p + length bs)) node_offset f.ends)));
        };
        same_base = refl;
        same_fresh = λ i. refl;
        moved = refl;
        sized = λ h. ground arith;
        fits = omega (arith, length-contents v, length-append (contents a) []);
        bytes = f.copied ∙ ap₂ (λ xs i. memcpy xs i bs) (sym (append-nil (contents a))) node_offset;
      }

  stay-Written : Written a [] a []
  stay-Written = record {
    valid = v;
    same_base = refl;
    same_fresh = λ i. refl;
    moved = omega arith;
    sized = λ h. omega arith;
    fits = omega (arith, v.position_le, length-contents v, length-append (contents a) []);
    bytes = sym (memcpy-nil _ a.position ∙ append-nil (contents a));
  }

write_step :
    (a : ByteArray) (b : ℕ) (bs : List ℕ) {k : ℕ}
    → (add_capacity a (length (b ∷ bs))).curr ≡ some k
    → write a (b ∷ bs) ≡ write_at (some k) (add_capacity a (length (b ∷ bs))) (b ∷ bs)
write_step a b bs e =
    unfold write in
    rw (suc-==-zero (length bs))
      (ap (λ c. write_at c (add_capacity a (length (b ∷ bs))) (b ∷ bs)) e)

-- A write to the grown buffer, seen from the one before.
pub Grown-Written :
    {a a' a'' : ByteArray} {bs junk : List ℕ}
    → Grown a (length bs) a' junk
    → Written a' bs a'' []
    → Written a bs a'' junk
Grown-Written {a} {a'} {bs = bs} {junk = junk} g w = record {
  valid = w.valid;
  same_base = w.same_base ∙ g.same_base;
  same_fresh = λ i. w.same_fresh i ∙ g.same_fresh i;
  moved = omega (arith, w.moved, g.same_position);
  sized = λ h. ground (arith, w.sized, g.same_position, g.same_size);
  fits =
      omega
        (arith, w.fits, g.same_position, ap length (append-nil (contents a')), ap length g.behind);
  bytes =
      w.bytes ∙ ap₂ (λ xs i. memcpy xs i bs) (append-nil (contents a') ∙ g.behind) g.same_position;
}

-- On a valid buffer write always succeeds and leaves it valid: the bytes stand at the old
-- position, every other byte is as it was, the position moves behind them, and the size grows only
-- when it must.
pub write_lem :
    {a : ByteArray} (v : IsValid a) (bs : List ℕ)
    → (a' : ByteArray) × (junk : List ℕ) × (write a bs ≡ ok a') × Written a bs a' junk
write_lem {a} v [] = (a, [], unfold write in refl, stay-Written v)
write_lem {a} v (b ∷ bs) =
    let (junk, g) = add_capacity-Grown a v (length (b ∷ bs)) in
    let (a'', e, w) =
      write_at-Written g.valid (b ∷ bs) (omega arith) (omega (arith, g.fits, g.same_position)) in
    (
      a'',
      junk,
      write_step a b bs (curr_node g.valid (omega (arith, g.fits, g.same_position))) ∙ e,
      Grown-Written g w,
    )
