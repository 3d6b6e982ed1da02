-- ===== src/Address/Order.antt =====
-- The comparisons of src/address.cc on the bytes of two addresses: operator< is a strict total order,
-- and operator== is its equality.
use async_rpc.Base.{ℕ, zero, suc, ltb, ◌==◌, if◌then◌else◌, Bool, true, false, not, ◌&&◌, arith}
use async_rpc.Base.{List, [], ◌∷◌, length, min, ◌≡◌, refl, sym, ◌∙◌, ◌↔◌, subst}

-- memcmp: the first bytes that differ decide.
pub data Comparison : Type 0 where
  below same above : Comparison

unfoldable pub memcmp : ℕ → List ℕ → List ℕ → Comparison
memcmp zero xs ys = same
memcmp (suc n) [] ys = same
memcmp (suc n) xs [] = same
memcmp (suc n) (x ∷ xs) (y ∷ ys) =
    let rest = memcmp n xs ys in if ltb x y then below else if ltb y x then above else rest

abbrev pub decide : Comparison → Bool → Bool
decide below shorter = true
decide above shorter = false
decide same shorter = shorter

-- operator<, on the bytes that getSockAddr and getSockAddrLen give.
unfoldable pub is_less : List ℕ → List ℕ → Bool
is_less a b = decide (memcmp (min (length a) (length b)) a b) (ltb (length a) (length b))

abbrev pub is_same : Comparison → Bool
is_same below = false
is_same above = false
is_same same = true

-- operator== and operator!=
unfoldable pub is_equal : List ℕ → List ℕ → Bool
is_equal a b = (length a == length b) && is_same (memcmp (length a) a b)

unfoldable pub is_different : List ℕ → List ℕ → Bool
is_different a b = not (is_equal a b)

-- The lexicographic order, as a reference.
abbrev pub precedes : List ℕ → List ℕ → Bool
precedes [] [] = false
precedes [] (y ∷ ys) = true
precedes (x ∷ xs) [] = false
precedes (x ∷ xs) (y ∷ ys) =
    let rest = precedes xs ys in if ltb x y then true else if ltb y x then false else rest

min-suc : (a b : ℕ) → min (suc a) (suc b) ≡ suc (min a b)
min-suc a b = omega arith

-- operator< is the lexicographic order.
pub is_less-precedes : (a b : List ℕ) → is_less a b ≡ precedes a b
unfolding is_less memcmp
is_less-precedes [] [] = refl
is_less-precedes [] (y ∷ ys) =
    let e : min 0 (length (y ∷ ys)) ≡ 0 = omega arith in rw e (ground arith)
is_less-precedes (x ∷ xs) [] =
    let e : min (length (x ∷ xs)) 0 ≡ 0 = omega arith in rw e (ground arith)
is_less-precedes (x ∷ xs) (y ∷ ys) =
    rw (min-suc (length xs) (length ys)) (ground (arith, is_less-precedes xs ys))

precedes_irrefl : (a : List ℕ) → precedes a a ≡ false
precedes_irrefl [] = refl
precedes_irrefl (x ∷ a) = ground (arith, precedes_irrefl a)

precedes_trans : (a b c : List ℕ) → precedes a b ≡ true → precedes b c ≡ true → precedes a c ≡ true
precedes_trans [] (y ∷ b) (z ∷ c) h k = refl
precedes_trans (x ∷ a) (y ∷ b) (z ∷ c) h k = ground (arith, precedes_trans a b c)
precedes_trans [] [] c h k = cc
precedes_trans (x ∷ a) [] c h k = cc
precedes_trans [] (y ∷ b) [] h k = cc
precedes_trans (x ∷ a) (y ∷ b) [] h k = cc

precedes_total : (a b : List ℕ) → precedes a b ≡ false → precedes b a ≡ false → a ≡ b
precedes_total [] [] h k = refl
precedes_total [] (y ∷ b) h k = cc
precedes_total (x ∷ a) [] h k = cc
precedes_total (x ∷ a) (y ∷ b) h k = ground (arith, precedes_total a b)

-- operator< on the bytes of addresses is irreflexive and transitive, and addresses of which
-- neither is less are equal.
is_less_lem :
    (a b c : List ℕ)
    → (is_less a a ≡ false)
      × (is_less a b ≡ true → is_less b c ≡ true → is_less a c ≡ true)
      × (is_less a b ≡ false → is_less b a ≡ false → a ≡ b)
is_less_lem a b c = (
  is_less-precedes a a ∙ precedes_irrefl a,
  λ h k.
      is_less-precedes a c
      ∙ precedes_trans a b c (sym (is_less-precedes a b) ∙ h) (sym (is_less-precedes b c) ∙ k),
  λ h k. precedes_total a b (sym (is_less-precedes a b) ∙ h) (sym (is_less-precedes b a) ∙ k),
)

same_bytes : (a b : List ℕ) → length a ≡ length b → is_same (memcmp (length a) a b) ≡ true → a ≡ b
unfolding memcmp
same_bytes [] [] e h = refl
same_bytes [] (y ∷ b) e h = absurd (omega (arith, e))
same_bytes (x ∷ a) [] e h = absurd (omega (arith, e))
same_bytes (x ∷ a) (y ∷ b) e h = ground (arith, same_bytes a b)

memcmp_self : (a : List ℕ) → is_same (memcmp (length a) a a) ≡ true
unfolding memcmp
memcmp_self [] = refl
memcmp_self (x ∷ a) = ground (arith, memcmp_self a)

is_equal_self : (a : List ℕ) → is_equal a a ≡ true
unfolding is_equal
is_equal_self a = ground (arith, memcmp_self a)

-- operator== holds exactly for equal bytes.
pub is_equal_iff : (a b : List ℕ) → (is_equal a b ≡ true) ↔ (a ≡ b)
unfolding is_equal
is_equal_iff a b =
    (λ h. ground (arith, same_bytes a b), λ e. subst (λ c. is_equal a c ≡ true) e (is_equal_self a))
