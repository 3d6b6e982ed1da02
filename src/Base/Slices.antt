-- ===== src/Base/Slices.antt =====
-- Byte strings: copying over a part of one, and taking parts.
use Prim.Native.Nat.{ℕ, zero, suc, ◌+◌, ◌≤◌}
use mathlib.Core.Path.{◌≡◌, refl, ap}
use mathlib.Core.List.{List, [], ◌∷◌, ◌++◌}
use native.Mathlib.Omega.{arith}
use async_rpc.Base.Lists.{length, take, drop}

module _ {ℓ} {A : Type ℓ} where
  abbrev pub All {κ} : (A → Type κ) → List A → Type κ
  All P [] = Unit {κ}
  All P (x ∷ xs) = P x × All P xs

  pub All-append {κ} : (P : A → Type κ) (xs ys : List A) → All P xs → All P ys → All P (xs ++ ys)
  All-append P [] ys h k = k
  All-append P (x ∷ xs) ys h k = (h.0, All-append P xs ys h.1 k)

  -- The front of `xs` is replaced by `ys`; what does not fit is lost.
  abbrev pub overlay : List A → List A → List A
  overlay [] ys = []
  overlay (x ∷ xs) [] = x ∷ xs
  overlay (x ∷ xs) (y ∷ ys) = y ∷ overlay xs ys

  -- memcpy(xs + i, ys, length ys)
  abbrev pub memcpy : List A → ℕ → List A → List A
  memcpy xs zero ys = overlay xs ys
  memcpy [] (suc i) ys = []
  memcpy (x ∷ xs) (suc i) ys = x ∷ memcpy xs i ys

  abbrev pub flat : List (List A) → List A
  flat [] = []
  flat (n ∷ ns) = n ++ flat ns

module _ {ℓ} {A : Type ℓ} where
  pub length-overlay : (xs ys : List A) → length (overlay xs ys) ≡ length xs
  length-overlay [] ys = refl
  length-overlay (x ∷ xs) [] = refl
  length-overlay (x ∷ xs) (y ∷ ys) = ap suc (length-overlay xs ys)

  pub length-memcpy : (xs : List A) (i : ℕ) (ys : List A) → length (memcpy xs i ys) ≡ length xs
  length-memcpy xs zero ys = length-overlay xs ys
  length-memcpy [] (suc i) ys = refl
  length-memcpy (x ∷ xs) (suc i) ys = ap suc (length-memcpy xs i ys)

  overlay-append_left :
      (xs zs ys : List A) → length ys ≤ length xs → overlay (xs ++ zs) ys ≡ overlay xs ys ++ zs
  overlay-append_left [] [] ys h = refl
  overlay-append_left [] (z ∷ zs) [] h = refl
  overlay-append_left [] (z ∷ zs) (y ∷ ys) h = absurd (omega arith)
  overlay-append_left (x ∷ xs) zs [] h = refl
  overlay-append_left (x ∷ xs) zs (y ∷ ys) h =
      ap (◌∷◌ y) (overlay-append_left xs zs ys (omega arith))

  pub memcpy-append_left :
      (xs zs : List A) (i : ℕ) (ys : List A)
      → i + length ys ≤ length xs
      → memcpy (xs ++ zs) i ys ≡ memcpy xs i ys ++ zs
  memcpy-append_left xs zs zero ys h = overlay-append_left xs zs ys (omega arith)
  memcpy-append_left [] zs (suc i) ys h = absurd (omega arith)
  memcpy-append_left (x ∷ xs) zs (suc i) ys h =
      ap (◌∷◌ x) (memcpy-append_left xs zs i ys (omega arith))

  overlay-append_across :
      (xs zs ys : List A)
      → overlay (xs ++ zs) ys ≡ overlay xs (take (length xs) ys) ++ overlay zs (drop (length xs) ys)
  overlay-append_across [] zs ys = refl
  overlay-append_across (x ∷ xs) [] [] = refl
  overlay-append_across (x ∷ xs) (z ∷ zs) [] = refl
  overlay-append_across (x ∷ xs) zs (y ∷ ys) = ap (◌∷◌ y) (overlay-append_across xs zs ys)

  -- A copy over the border of two blocks is two copies.
  pub memcpy-append_across :
      (xs zs : List A) (i c : ℕ) (ys : List A)
      → i + c ≡ length xs
      → memcpy (xs ++ zs) i ys ≡ memcpy xs i (take c ys) ++ overlay zs (drop c ys)
  memcpy-append_across xs zs zero c ys h =
      let e : c ≡ length xs = omega arith in rw e (overlay-append_across xs zs ys)
  memcpy-append_across [] zs (suc i) c ys h = absurd (omega arith)
  memcpy-append_across (x ∷ xs) zs (suc i) c ys h =
      ap (◌∷◌ x) (memcpy-append_across xs zs i c ys (omega arith))

  -- Behind a prefix, the copy is behind the prefix.
  pub memcpy-append_right :
      (xs zs : List A) (i j : ℕ) (ys : List A)
      → j ≡ length xs + i
      → memcpy (xs ++ zs) j ys ≡ xs ++ memcpy zs i ys
  memcpy-append_right [] zs i j ys h = let e : j ≡ i = omega arith in rw e refl
  memcpy-append_right (x ∷ xs) zs i zero ys h = absurd (omega arith)
  memcpy-append_right (x ∷ xs) zs i (suc j) ys h =
      ap (◌∷◌ x) (memcpy-append_right xs zs i j ys (omega arith))

  take-overlay : (xs ys : List A) → length ys ≤ length xs → take (length ys) (overlay xs ys) ≡ ys
  take-overlay [] [] h = refl
  take-overlay [] (y ∷ ys) h = absurd (omega arith)
  take-overlay (x ∷ xs) [] h = refl
  take-overlay (x ∷ xs) (y ∷ ys) h = ap (◌∷◌ y) (take-overlay xs ys (omega arith))

  drop-overlay : (xs ys : List A) → drop (length ys) (overlay xs ys) ≡ drop (length ys) xs
  drop-overlay [] [] = refl
  drop-overlay [] (y ∷ ys) = refl
  drop-overlay (x ∷ xs) [] = refl
  drop-overlay (x ∷ xs) (y ∷ ys) = drop-overlay xs ys

  -- Up to the end of the copy stand the old front and the bytes copied; behind it nothing changed.
  pub take-memcpy :
      (xs : List A) (i j : ℕ) (ys : List A)
      → j ≡ i + length ys
      → j ≤ length xs
      → take j (memcpy xs i ys) ≡ take i xs ++ ys
  take-memcpy xs zero j ys e h =
      let e' : j ≡ length ys = omega arith in rw e' (take-overlay xs ys (omega arith))
  take-memcpy [] (suc i) zero ys e h = absurd (omega arith)
  take-memcpy [] (suc i) (suc j) ys e h = absurd (omega arith)
  take-memcpy (x ∷ xs) (suc i) zero ys e h = absurd (omega arith)
  take-memcpy (x ∷ xs) (suc i) (suc j) ys e h =
      ap (◌∷◌ x) (take-memcpy xs i j ys (omega arith) (omega arith))

  pub drop-memcpy :
      (xs : List A) (i j : ℕ) (ys : List A)
      → j ≡ i + length ys
      → drop j (memcpy xs i ys) ≡ drop j xs
  drop-memcpy xs zero j ys e = let e' : j ≡ length ys = omega arith in rw e' (drop-overlay xs ys)
  drop-memcpy [] (suc i) j ys e = refl
  drop-memcpy (x ∷ xs) (suc i) zero ys e = absurd (omega arith)
  drop-memcpy (x ∷ xs) (suc i) (suc j) ys e = drop-memcpy xs i j ys (omega arith)
