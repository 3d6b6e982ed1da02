-- ===== src/Base/Parts.antt =====
-- Taking from and dropping off the front of a list.
use Prim.Native.Nat.{ℕ, zero, suc, ◌+◌, ◌≤◌}
use mathlib.Core.Path.{◌≡◌, refl, sym, ap, ap₂}
use mathlib.Core.List.{List, [], ◌∷◌, ◌++◌}
use native.Mathlib.Omega.{arith}
use mathlib.Core.Logic.{◌⊎◌, ◌≢◌, inl, inr}
use mathlib.Core.Option.{some, some_inj}
use async_rpc.Base.Lists.{length, take, drop, get_elem?, set}

module _ {ℓ} {A : Type ℓ} where
  pub take-append_self : (xs ys : List A) → take (length xs) (xs ++ ys) ≡ xs
  take-append_self [] ys = refl
  take-append_self (x ∷ xs) ys = ap (◌∷◌ x) (take-append_self xs ys)

  pub drop-append_self : (xs ys : List A) → drop (length xs) (xs ++ ys) ≡ ys
  drop-append_self [] ys = refl
  drop-append_self (x ∷ xs) ys = drop-append_self xs ys

  pub take-all : (n : ℕ) (xs : List A) → length xs ≤ n → take n xs ≡ xs
  take-all zero [] h = refl
  take-all zero (x ∷ xs) h = absurd (omega arith)
  take-all (suc n) [] h = refl
  take-all (suc n) (x ∷ xs) h = ap (◌∷◌ x) (take-all n xs (omega arith))

  pub drop-all : (n : ℕ) (xs : List A) → length xs ≤ n → drop n xs ≡ []
  drop-all zero [] h = refl
  drop-all zero (x ∷ xs) h = absurd (omega arith)
  drop-all (suc n) [] h = refl
  drop-all (suc n) (x ∷ xs) h = drop-all n xs (omega arith)

  pub take-append_left : (n : ℕ) (xs ys : List A) → n ≤ length xs → take n (xs ++ ys) ≡ take n xs
  take-append_left zero xs ys h = refl
  take-append_left (suc n) [] ys h = absurd (omega arith)
  take-append_left (suc n) (x ∷ xs) ys h = ap (◌∷◌ x) (take-append_left n xs ys (omega arith))

  pub drop-append_left :
      (n : ℕ) (xs ys : List A) → n ≤ length xs → drop n (xs ++ ys) ≡ drop n xs ++ ys
  drop-append_left zero xs ys h = refl
  drop-append_left (suc n) [] ys h = absurd (omega arith)
  drop-append_left (suc n) (x ∷ xs) ys h = drop-append_left n xs ys (omega arith)

  -- At a count that goes past `xs` by `i`.
  pub take-append_right :
      (xs ys : List A) (n i : ℕ) → n ≡ length xs + i → take n (xs ++ ys) ≡ xs ++ take i ys
  take-append_right [] ys n i h = let e : n ≡ i = omega arith in rw e refl
  take-append_right (x ∷ xs) ys zero i h = absurd (omega arith)
  take-append_right (x ∷ xs) ys (suc n) i h = ap (◌∷◌ x) (take-append_right xs ys n i (omega arith))

  pub drop-append_right :
      (xs ys : List A) (n i : ℕ) → n ≡ length xs + i → drop n (xs ++ ys) ≡ drop i ys
  drop-append_right [] ys n i h = let e : n ≡ i = omega arith in rw e refl
  drop-append_right (x ∷ xs) ys zero i h = absurd (omega arith)
  drop-append_right (x ∷ xs) ys (suc n) i h = drop-append_right xs ys n i (omega arith)

  pub drop-drop : (k i n : ℕ) (xs : List A) → n ≡ i + k → drop k (drop i xs) ≡ drop n xs
  drop-drop k zero n xs h = let e : n ≡ k = omega arith in rw e refl
  drop-drop zero (suc i) zero [] h = refl
  drop-drop zero (suc i) (suc n) [] h = refl
  drop-drop (suc k) (suc i) zero [] h = refl
  drop-drop (suc k) (suc i) (suc n) [] h = refl
  drop-drop k (suc i) zero (x ∷ xs) h = absurd (omega arith)
  drop-drop k (suc i) (suc n) (x ∷ xs) h = drop-drop k i n xs (omega arith)

  pub take-add : (k i n : ℕ) (xs : List A) → n ≡ i + k → take n xs ≡ take i xs ++ take k (drop i xs)
  take-add k zero n xs h = let e : n ≡ k = omega arith in rw e refl
  take-add zero (suc i) zero [] h = refl
  take-add zero (suc i) (suc n) [] h = refl
  take-add (suc k) (suc i) zero [] h = refl
  take-add (suc k) (suc i) (suc n) [] h = refl
  take-add k (suc i) zero (x ∷ xs) h = absurd (omega arith)
  take-add k (suc i) (suc n) (x ∷ xs) h = ap (◌∷◌ x) (take-add k i n xs (omega arith))

  pub length-take_le : (n : ℕ) (xs : List A) → n ≤ length xs → length (take n xs) ≡ n
  length-take_le zero xs h = refl
  length-take_le (suc n) [] h = absurd (omega arith)
  length-take_le (suc n) (x ∷ xs) h = ap suc (length-take_le n xs (omega arith))

  -- The front and the rest of what was taken, by what it is.
  pub front_of_take : (xs ys zs : List A) (n : ℕ) → take n zs ≡ xs ++ ys → take (length xs) zs ≡ xs
  front_of_take [] ys zs n e = refl
  front_of_take (x ∷ xs) ys zs zero e = cc
  front_of_take (x ∷ xs) ys [] (suc n) e = cc
  front_of_take (x ∷ xs) ys (z ∷ zs) (suc n) e = ap₂ ◌∷◌ (cc) (front_of_take xs ys zs n (cc))

  pub rest_of_take :
      (xs ys zs : List A) (n m : ℕ)
      → n ≡ length xs + m
      → take n zs ≡ xs ++ ys
      → take m (drop (length xs) zs) ≡ ys
  rest_of_take [] ys zs n m h e = let e' : m ≡ n = omega arith in rw e' e
  rest_of_take (x ∷ xs) ys zs zero m h e = cc
  rest_of_take (x ∷ xs) ys [] (suc n) m h e = cc
  rest_of_take (x ∷ xs) ys (z ∷ zs) (suc n) m h e = rest_of_take xs ys zs n m (omega arith) (cc)

module _ {ℓ} {A : Type ℓ} where
  -- Looking up in a list with one more element, or with one replaced.
  pub get_elem?-snoc :
      (xs : List A) (x y : A) (i : ℕ)
      → get_elem? (xs ++ x ∷ []) i ≡ some y
      → (get_elem? xs i ≡ some y) ⊎ (y ≡ x)
  get_elem?-snoc [] x y zero h = inr (sym (some_inj.0 h))
  get_elem?-snoc [] x y (suc i) h = cc
  get_elem?-snoc (z ∷ xs) x y zero h = inl h
  get_elem?-snoc (z ∷ xs) x y (suc i) h = get_elem?-snoc xs x y i h

  pub get_elem?-front :
      (xs ys : List A) (i : ℕ) {y : A} → get_elem? xs i ≡ some y → get_elem? (xs ++ ys) i ≡ some y
  get_elem?-front [] ys i h = cc
  get_elem?-front (x ∷ xs) ys zero h = h
  get_elem?-front (x ∷ xs) ys (suc i) h = get_elem?-front xs ys i h

  pub get_elem?-set_there :
      (xs : List A) (i : ℕ) (x : A) {y : A}
      → get_elem? xs i ≡ some y
      → get_elem? (set xs i x) i ≡ some x
  get_elem?-set_there [] i x h = cc
  get_elem?-set_there (z ∷ xs) zero x h = refl
  get_elem?-set_there (z ∷ xs) (suc i) x h = get_elem?-set_there xs i x h

  pub get_elem?-set_cases :
      (xs : List A) (i j : ℕ) (x y : A)
      → get_elem? (set xs i x) j ≡ some y
      → ((j ≡ i) × (y ≡ x)) ⊎ ((j ≢ i) × (get_elem? xs j ≡ some y))
  get_elem?-set_cases [] i j x y h = cc
  get_elem?-set_cases (z ∷ xs) zero zero x y h = inl (refl, sym (some_inj.0 h))
  get_elem?-set_cases (z ∷ xs) zero (suc j) x y h = inr (λ e. cc, h)
  get_elem?-set_cases (z ∷ xs) (suc i) zero x y h = inr (λ e. cc, h)
  get_elem?-set_cases (z ∷ xs) (suc i) (suc j) x y h = elim (get_elem?-set_cases xs i j x y h) [
    | inl (e, f) ↦ inl (ap suc e, f)
    | inr (ne, f) ↦ inr (λ e. ne (omega arith), f)
  ]
