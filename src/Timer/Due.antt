-- ===== src/Timer/Due.antt =====
-- Which timers listOverTimeCallback of src/timer.cc takes: those that are due.
use async_rpc.Base.{
  ℕ, ◌≤◌, ◌==◌, arith, true, false, Bool-cases, ◌≡◌, ◌≢◌, refl, sym, ap, subst, ◌⊎◌, inl, inr,
}
use async_rpc.Base.{List, [], ◌∷◌, ◌++◌, map, All}
use async_rpc.Timer.{less, before, from, TimerManager, next_of, with_now, list_over_time_callback}
use async_rpc.Timer.Order.{In, IsSorted, less-false, less-true, All-apart}
use async_rpc.Timer.Invariant.{IsHandling, IsValid, valid_In}
use async_rpc.Timer.Expiry.{IsApart, expire_all_lem}

All-parts : (P : ℕ → Type 0) (xs ys : List ℕ) → All P (xs ++ ys) → All P xs × All P ys
All-parts P [] ys h = (tt, h)
All-parts P (x ∷ xs) ys h = let (l, r) = All-parts P xs ys h.1 in ((h.0, l), r)

-- The two parts of a set.
parts : (f : ℕ → ℕ) (xs ys : List ℕ) → IsSorted f (xs ++ ys) → IsApart xs ys × IsSorted f ys
parts f [] ys h = (tt, h)
parts f (x ∷ xs) ys h =
    let (l, r) = All-parts (λ b. x ≢ b) xs ys (All-apart f x (xs ++ ys) h.0) in
    let (rest, s) = parts f xs ys h.1 in ((l, r, rest), s)

In-parts : (b : ℕ) (xs ys : List ℕ) → In b (xs ++ ys) → In b ys ⊎ In b xs
In-parts b [] ys i = inl i
In-parts b (x ∷ xs) ys (inl e) = inr (inl e)
In-parts b (x ∷ xs) ys (inr i) = elim (In-parts b xs ys i) [ inl j ↦ inl j | inr j ↦ inr (inr j) ]

before-from : (f : ℕ → ℕ) (x : ℕ) (xs : List ℕ) → before f x xs ++ from f x xs ≡ xs
unfolding before from
before-from f x [] = refl
before-from f x (y ∷ ys) = elim (Bool-cases (less f x y)) [
  | inl e ↦ rw (e) refl
  | inr e ↦ rw (e) (ap (λ zs. y ∷ zs) (before-from f x ys))
]

module _ {S : Type 0} where
  probe_time : (m : TimerManager S) (probe now : ℕ) → with_now m probe now probe ≡ now
  unfolding with_now
  probe_time m probe now = let e : (probe == probe) ≡ true = ground arith in rw (e) refl

  timer_time :
      (m : TimerManager S) (probe now a : ℕ) → probe ≢ a → with_now m probe now a ≡ next_of m a
  unfolding with_now
  timer_time m probe now a ne = let e : (probe == a) ≡ false = ground arith in rw (e) refl

  probed_false :
      (m : TimerManager S) (probe now y : ℕ)
      → probe ≢ y
      → less (with_now m probe now) probe y ≡ false
      → next_of m y ≤ now
  probed_false m probe now y ne h =
      let p = probe_time m probe now in
      let t = timer_time m probe now y ne in
      elim (less-false (with_now m probe now) probe y h) [
        | inl l ↦ omega (arith, l, p, t)
        | inr l ↦ (let q = l.0 in omega (arith, q, p, t))
      ]

  probed_true :
      (m : TimerManager S) (probe now y : ℕ)
      → probe ≢ y
      → less (with_now m probe now) probe y ≡ true
      → now ≤ next_of m y
  probed_true m probe now y ne h =
      let p = probe_time m probe now in
      let t = timer_time m probe now y ne in
      elim (less-true (with_now m probe now) probe y h) [
        | inl l ↦ omega (arith, l, p, t)
        | inr l ↦ (let q = l.0 in omega (arith, q, p, t))
      ]

  later :
      (m : TimerManager S) (now y : ℕ) (ys : List ℕ)
      → now ≤ next_of m y
      → All (λ z. less (next_of m) y z ≡ true) ys
      → All (λ z. now ≤ next_of m z) ys
  later m now y [] h k = tt
  later m now y (z ∷ zs) h k = (
    elim (less-true (next_of m) y z k.0) [
      | inl l ↦ omega (arith, l, h)
      | inr l ↦ (let q = l.0 in omega (arith, q, h))
    ],
    later m now y zs h k.1,
  )

  -- The timers before the one that marks the time are due, and those from there on are not overdue.
  due :
      (m : TimerManager S) (probe now : ℕ) (xs : List ℕ)
      → All (λ b. probe ≢ b) xs
      → All (λ b. next_of m b ≤ now) (before (with_now m probe now) probe xs)
  unfolding before
  due m probe now [] h = tt
  due m probe now (y ∷ ys) h = elim (Bool-cases (less (with_now m probe now) probe y)) [
    | inl e ↦ rw (e) tt
    | inr e ↦ rw (e) (probed_false m probe now y h.0 e, due m probe now ys h.1)
  ]

  not_overdue :
      (m : TimerManager S) (probe now : ℕ) (xs : List ℕ)
      → All (λ b. probe ≢ b) xs
      → IsSorted (next_of m) xs
      → All (λ b. now ≤ next_of m b) (from (with_now m probe now) probe xs)
  unfolding from
  not_overdue m probe now [] h s = tt
  not_overdue m probe now (y ∷ ys) h s = elim (Bool-cases (less (with_now m probe now) probe y)) [
    | inl e ↦
        rw (e)
          (probed_true m probe now y h.0 e, later m now y ys (probed_true m probe now y h.0 e) s.0)
    | inr e ↦ rw (e) (not_overdue m probe now ys h.1 s.1)
  ]

  -- On a valid manager, with an address for the searching timer that no timer has: what
  -- listOverTimeCallback adds are the callbacks of a first part of the set, in its order; each
  -- timer of that part is due, no timer of the rest is overdue, and the manager stays valid.
  pub list_over_time_callback_lem :
      (m : TimerManager S) (probe now : ℕ)
      → IsValid m
      → All (λ b. probe ≢ b) (m.timers)
      → (expired rest : List ℕ) × (expired ++ rest ≡ m.timers)
        × All (λ b. next_of m b ≤ now) expired
        × All (λ b. now ≤ next_of m b) rest
        × ((list_over_time_callback m probe now).0 ≡ map (λ b. (m.timer b).callback) expired)
        × IsValid ((list_over_time_callback m probe now).1)
  unfolding list_over_time_callback
  list_over_time_callback_lem m probe now v ne =
      let expired = before (with_now m probe now) probe (m.timers) in
      let rest = from (with_now m probe now) probe (m.timers) in
      let whole = before-from (with_now m probe now) probe (m.timers) in
      let (apart, sorted) =
        parts (next_of m) expired rest (subst (IsSorted (next_of m)) (sym whole) (v.sorted)) in
      let handling : IsHandling record { timer = m.timer; timers = rest } expired = record {
        sorted = sorted;
        live = λ b c. In-parts b expired rest (subst (In b) (sym whole) (valid_In {m = m} b v c));
      } in
      let (cs, v') =
        expire_all_lem record { timer = m.timer; timers = rest } expired now handling apart in
      (
        expired,
        rest,
        whole,
        due m probe now (m.timers) ne,
        not_overdue m probe now (m.timers) ne (v.sorted),
        cs,
        v',
      )
