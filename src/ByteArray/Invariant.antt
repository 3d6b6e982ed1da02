-- ===== src/ByteArray/Invariant.antt =====
-- The well-formed buffers of src/byte_array.cc, and that its operations keep them so and do not
-- run into a null pointer.
use native.Mathlib.Nat.{div-eq_of_lt-le, div-add-mod', mod-lt}
use async_rpc.Base.{ℕ, zero, suc, ◌+◌, ◌-◌, ◌*◌, ◌/◌, ◌≤◌, ◌<◌, arith}
use async_rpc.Base.{◌≡◌, refl, sym, ap, ◌∙◌}
use async_rpc.Base.{List, [], ◌∷◌, ◌++◌, length, flat}
use async_rpc.Base.{append_assoc}
use async_rpc.ByteArray.{ByteArray, new_node, new_nodes, make, pointer, ceil_div}
use async_rpc.ByteArray.Walk.{Uniform, EndsIn, length-flat}

pub record IsValid (a : ByteArray) : Type 0 where
  pub base_pos : 0 < a.base_size
  pub uniform : Uniform a.base_size a.nodes
  pub has_head : 0 < length a.nodes
  pub all_counted : a.capacity ≡ length a.nodes * a.base_size
  pub position_le : a.position ≤ a.capacity
  pub size_le : a.size ≤ a.capacity
  pub at_position : a.curr ≡ pointer (length a.nodes) (a.position / a.base_size)

-- The bytes of the nodes in order.
abbrev pub contents : ByteArray → List ℕ
contents a = flat a.nodes

pub length-contents : {a : ByteArray} → IsValid a → length (contents a) ≡ a.capacity
length-contents {a} v = length-flat a.base_size a.nodes v.uniform ∙ sym v.all_counted

pub div-EndsIn : (base k v : ℕ) → EndsIn base k v → v / base ≡ k
div-EndsIn base k v (lo, hi) = div-eq_of_lt-le base lo hi

length-new_node : (f : ℕ → ℕ) (i n : ℕ) → length (new_node f i n) ≡ n
unfolding new_node
length-new_node f i zero = refl
length-new_node f i (suc n) = ap suc (length-new_node f (i + 1) n)

pub new_nodes-Uniform : (f : ℕ → ℕ) (base k n : ℕ) → Uniform base (new_nodes f base k n)
unfolding new_nodes
new_nodes-Uniform f base k zero = tt
new_nodes-Uniform f base k (suc n) =
    (length-new_node f (k * base) base, new_nodes-Uniform f base (k + 1) n)

pub length-new_nodes : (f : ℕ → ℕ) (base k n : ℕ) → length (new_nodes f base k n) ≡ n
unfolding new_nodes
length-new_nodes f base k zero = refl
length-new_nodes f base k (suc n) = ap suc (length-new_nodes f base (k + 1) n)

pub flat-append : (xs ys : List (List ℕ)) → flat (xs ++ ys) ≡ flat xs ++ flat ys
flat-append [] ys = refl
flat-append (x ∷ xs) ys = ap (◌++◌ x) (flat-append xs ys) ∙ sym (append_assoc x (flat xs) (flat ys))

pub make-IsValid : (fresh : ℕ → ℕ) (size : ℕ) → 0 < size → IsValid (make fresh size)
unfolding make
make-IsValid fresh size h = record {
  base_pos = h;
  uniform = (length-new_node fresh 0 size, tt);
  has_head = omega arith;
  all_counted = omega arith;
  position_le = omega arith;
  size_le = omega arith;
  at_position = ground (arith, div-EndsIn size 0 0 (omega arith, omega arith));
}

pub ceil_div-ge : (x b : ℕ) → 0 < b → x ≤ ceil_div x b * b
ceil_div-ge x b h = omega (arith, div-add-mod' (x + b - 1) b, mod-lt (x + b - 1) h)

pub ceil_div-pos : (x b : ℕ) → 0 < b → 0 < x → 0 < ceil_div x b
ceil_div-pos x b h p = grind (arith, ceil_div-ge x b h)

-- The quotient of a position that is not at the end names a node.
pub div-lt_of_lt-mul : (x n b : ℕ) → 0 < b → x < n * b → x / b < n
div-lt_of_lt-mul x n b h lt = grind (arith, div-add-mod' x b)

pub div-full : (n b : ℕ) → 0 < b → n * b / b ≡ n
div-full n b h = div-EndsIn b n (n * b) (omega arith, omega arith)
