-- ===== src/Timer/Order.antt =====
-- The set of src/timer.cc by its order: what insert, find, erase and upper_bound do to it.
use async_rpc.Base.{
  ℕ, ◌<◌, ◌≤◌, arith, true, false, Bool-cases, ◌≡◌, ◌≢◌, refl, sym, subst, ◌∙◌, ◌⊎◌, inl, inr,
}
use async_rpc.Base.{List, [], ◌∷◌, All}
use async_rpc.Timer.{less, insert, find, erase}

module _ (next_of : ℕ → ℕ) where
  pub less-true :
      (x y : ℕ)
      → less next_of x y ≡ true
      → (next_of x < next_of y) ⊎ ((next_of x ≡ next_of y) × (x < y))
  unfolding less
  less-true x y h = ground arith

  pub less-false :
      (x y : ℕ)
      → less next_of x y ≡ false
      → (next_of y < next_of x) ⊎ ((next_of x ≡ next_of y) × (y ≤ x))
  unfolding less
  less-false x y h = ground arith

  less_trans :
      (x y z : ℕ) → less next_of x y ≡ true → less next_of y z ≡ true → less next_of x z ≡ true
  unfolding less
  less_trans x y z h k = ground arith

  less_asym : (x y : ℕ) → less next_of x y ≡ true → less next_of y x ≡ false
  unfolding less
  less_asym x y h = ground arith

  pub less_irrefl : (x : ℕ) → less next_of x x ≡ false
  unfolding less
  less_irrefl x = ground arith

  pub less_total : (x y : ℕ) → less next_of x y ≡ false → less next_of y x ≡ false → x ≡ y
  unfolding less
  less_total x y h k = ground arith

  -- A set in strictly rising order.
  abbrev pub IsSorted : List ℕ → Type 0
  IsSorted [] = Unit
  IsSorted (x ∷ xs) = All (λ y. less next_of x y ≡ true) xs × IsSorted xs

  pub insert-All :
      (P : ℕ → Type 0) (x : ℕ) (xs : List ℕ) → All P xs → P x → All P (insert next_of x xs)
  unfolding insert
  insert-All P x [] h p = (p, tt)
  insert-All P x (y ∷ ys) h p = elim (Bool-cases (less next_of y x)) [
    | inl e ↦ rw (e) (h.0, insert-All P x ys h.1 p)
    | inr e ↦ elim (Bool-cases (less next_of x y)) [
      | inl e' ↦ rw (e, e') (p, h)
      | inr e' ↦ rw (e, e') h
    ]
  ]

  All-trans :
      (x y : ℕ) (ys : List ℕ)
      → less next_of x y ≡ true
      → All (λ z. less next_of y z ≡ true) ys
      → All (λ z. less next_of x z ≡ true) ys
  All-trans x y [] h k = tt
  All-trans x y (z ∷ zs) h k = (less_trans x y z h k.0, All-trans x y zs h k.1)

  pub insert-IsSorted : (x : ℕ) (xs : List ℕ) → IsSorted xs → IsSorted (insert next_of x xs)
  unfolding insert
  insert-IsSorted x [] h = (tt, tt)
  insert-IsSorted x (y ∷ ys) h = elim (Bool-cases (less next_of y x)) [
    | inl e ↦
        rw (e) (insert-All (λ w. less next_of y w ≡ true) x ys h.0 e, insert-IsSorted x ys h.1)
    | inr e ↦ elim (Bool-cases (less next_of x y)) [
      | inl e' ↦ rw (e, e') ((e', All-trans x y ys e' h.0), h)
      | inr e' ↦ rw (e, e') h
    ]
  ]

  pub erase-All : (P : ℕ → Type 0) (x : ℕ) (xs : List ℕ) → All P xs → All P (erase next_of x xs)
  unfolding erase
  erase-All P x [] h = tt
  erase-All P x (y ∷ ys) h = elim (Bool-cases (less next_of y x)) [
    | inl e ↦ rw (e) (h.0, erase-All P x ys h.1)
    | inr e ↦ elim (Bool-cases (less next_of x y)) [
      | inl e' ↦ rw (e, e') h
      | inr e' ↦ rw (e, e') h.1
    ]
  ]

  pub erase-IsSorted : (x : ℕ) (xs : List ℕ) → IsSorted xs → IsSorted (erase next_of x xs)
  unfolding erase
  erase-IsSorted x [] h = tt
  erase-IsSorted x (y ∷ ys) h = elim (Bool-cases (less next_of y x)) [
    | inl e ↦ rw (e) (erase-All (λ w. less next_of y w ≡ true) x ys h.0, erase-IsSorted x ys h.1)
    | inr e ↦ elim (Bool-cases (less next_of x y)) [
      | inl e' ↦ rw (e, e') h
      | inr e' ↦ rw (e, e') h.1
    ]
  ]

  apart : (x y : ℕ) → less next_of x y ≡ true → x ≢ y
  unfolding less
  apart x y h e = ground arith

  pub All-apart :
      (x : ℕ) (ys : List ℕ) → All (λ y. less next_of x y ≡ true) ys → All (λ y. x ≢ y) ys
  All-apart x [] h = tt
  All-apart x (y ∷ ys) h = (apart x y h.0, All-apart x ys h.1)

  -- After erase the timer is not in the set.
  pub erase-gone : (x : ℕ) (xs : List ℕ) → IsSorted xs → All (λ y. x ≢ y) (erase next_of x xs)
  unfolding erase
  erase-gone x [] h = tt
  erase-gone x (y ∷ ys) h = elim (Bool-cases (less next_of y x)) [
    | inl e ↦ rw (e) ((λ q. apart y x e (sym q)), erase-gone x ys h.1)
    | inr e ↦ elim (Bool-cases (less next_of x y)) [
      | inl e' ↦ rw (e, e') (apart x y e', All-apart x ys (All-trans x y ys e' h.0))
      | inr e' ↦
          rw (e, e') (subst (λ z. All (λ w. z ≢ w) ys) (less_total y x e e') (All-apart y ys h.0))
    ]
  ]

abbrev pub In : ℕ → List ℕ → Type 0
In x [] = ⊥
In x (y ∷ ys) = (x ≡ y) ⊎ In x ys

pub In-All : (P : ℕ → Type 0) (x : ℕ) (xs : List ℕ) → In x xs → All P xs → P x
In-All P x [] i h = elim i [ ]
In-All P x (y ∷ ys) (inl e) h = subst P (sym e) h.0
In-All P x (y ∷ ys) (inr i) h = In-All P x ys i h.1

module _ (next_of : ℕ → ℕ) where
  pub find-In : (x : ℕ) (xs : List ℕ) → find next_of x xs ≡ true → In x xs
  unfolding find
  find-In x [] h = cc
  find-In x (y ∷ ys) h = elim (Bool-cases (less next_of y x)) [
    | inl e ↦ inr (find-In x ys (rw (e) at h))
    | inr e ↦ elim (Bool-cases (less next_of x y)) [
      | inl e' ↦ (let k = rw (e, e') at h in cc)
      | inr e' ↦ inl (less_total next_of x y e' e)
    ]
  ]

  pub In-find : (x : ℕ) (xs : List ℕ) → IsSorted next_of xs → In x xs → find next_of x xs ≡ true
  unfolding find
  In-find x [] h i = elim i [ ]
  In-find x (y ∷ ys) h (inl q) =
      subst (λ z. find next_of z (y ∷ ys) ≡ true) (sym q) (rw (less_irrefl next_of y) refl)
  In-find x (y ∷ ys) h (inr i) =
      rw (In-All (λ w. less next_of y w ≡ true) x ys i h.0) (In-find x ys h.1 i)

  pub insert_self : (x : ℕ) (xs : List ℕ) → In x (insert next_of x xs)
  unfolding insert
  insert_self x [] = inl refl
  insert_self x (y ∷ ys) = elim (Bool-cases (less next_of y x)) [
    | inl e ↦ rw (e) (inr (insert_self x ys))
    | inr e ↦ elim (Bool-cases (less next_of x y)) [
      | inl e' ↦ rw (e, e') (inl refl)
      | inr e' ↦ rw (e, e') (inl (less_total next_of x y e' e))
    ]
  ]

  pub insert-In : (x z : ℕ) (xs : List ℕ) → In z xs → In z (insert next_of x xs)
  unfolding insert
  insert-In x z [] i = elim i [ ]
  insert-In x z (y ∷ ys) i = elim (Bool-cases (less next_of y x)) [
    | inl e ↦ rw (e) (elim i [ inl q ↦ inl q | inr j ↦ inr (insert-In x z ys j) ])
    | inr e ↦ elim (Bool-cases (less next_of x y)) [
      | inl e' ↦ rw (e, e') (inr i)
      | inr e' ↦ rw (e, e') i
    ]
  ]

  pub erase-In : (x z : ℕ) (xs : List ℕ) → x ≢ z → In z xs → In z (erase next_of x xs)
  unfolding erase
  erase-In x z [] ne i = elim i [ ]
  erase-In x z (y ∷ ys) ne i = elim (Bool-cases (less next_of y x)) [
    | inl e ↦ rw (e) (elim i [ inl q ↦ inl q | inr j ↦ inr (erase-In x z ys ne j) ])
    | inr e ↦ elim (Bool-cases (less next_of x y)) [
      | inl e' ↦ rw (e, e') i
      | inr e' ↦
          rw (e, e')
            (elim i [ inl q ↦ absurd (ne (less_total next_of x y e' e ∙ sym q)) | inr j ↦ j ])
    ]
  ]

less_cong : (f g : ℕ → ℕ) (x y : ℕ) → f x ≡ g x → f y ≡ g y → less f x y ≡ true → less g x y ≡ true
unfolding less
less_cong f g x y e e' h = rw (sym e, sym e') h

All-less_cong :
    (f g : ℕ → ℕ) (x : ℕ) (ys : List ℕ)
    → f x ≡ g x
    → All (λ y. f y ≡ g y) ys
    → All (λ y. less f x y ≡ true) ys
    → All (λ y. less g x y ≡ true) ys
All-less_cong f g x [] e h k = tt
All-less_cong f g x (y ∷ ys) e h k = (less_cong f g x y e h.0 k.0, All-less_cong f g x ys e h.1 k.1)

-- The order of a set depends on when its own timers are due alone.
pub IsSorted-cong :
    (f g : ℕ → ℕ) (xs : List ℕ) → All (λ y. f y ≡ g y) xs → IsSorted f xs → IsSorted g xs
IsSorted-cong f g [] h k = tt
IsSorted-cong f g (x ∷ xs) h k = (All-less_cong f g x xs h.0 h.1 k.0, IsSorted-cong f g xs h.1 k.1)
