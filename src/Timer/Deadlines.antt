-- ===== src/Timer/Deadlines.antt =====
-- When the timers of src/timer.cc are due, and which of them listOverTimeCallback takes.

use async_rpc.Base.{
  ℕ, ◌+◌, ◌-◌, ◌%◌, ◌^◌, ◌<◌, ◌≤◌, leb, ◌==◌, arith, true, false, Bool-cases, ◌≡◌, ◌≢◌, refl, sym,
  ap, subst, ◌∙◌, inl, inr,
}
use async_rpc.Base.{List, [], ◌∷◌}
use async_rpc.Timer.{
  less, Timer, TimerManager, next_of, with_next, add, has_callback, reset, reset_next,
  get_next_timer_time,
}
use async_rpc.Timer.Order.{In, In-All, IsSorted, less-true}
use async_rpc.Timer.Invariant.{store_self, IsValid}

earliest : (f : ℕ → ℕ) (x b : ℕ) (xs : List ℕ) → IsSorted f (x ∷ xs) → In b (x ∷ xs) → f x ≤ f b
earliest f x b xs h (inl e) = subst (λ z. f x ≤ f z) (sym e) (omega arith)
earliest f x b xs h (inr i) = elim (less-true f x b (In-All (λ y. less f x y ≡ true) b xs i h.0)) [
  | inl l ↦ omega arith
  | inr l ↦ (let q = l.0 in omega (arith, q))
]

module _ {S : Type 0} where
  -- The new time of a reset: from now the given number of milliseconds later, and otherwise the time
  -- the timer has already, whatever the number.
  reset_next_lem :
      (t : Timer S) (ms now : ℕ)
      → t.next < 2 ^ 64
      → ms < 2 ^ 64
      → (reset_next t ms now true ≡ (now + ms) % 2 ^ 64) × (reset_next t ms now false ≡ t.next)
  unfolding reset_next
  reset_next_lem t ms now h k = (refl, omega arith)

  -- A reset that is not from now, of a timer with a callback, to milliseconds other than its own,
  -- both numbers below 2^64, keeps the time at which the timer is due and only sets its
  -- milliseconds.
  pub reset-next :
      (m : TimerManager S) (a ms now : ℕ)
      → (m.timer a).next < 2 ^ 64
      → ms < 2 ^ 64
      → has_callback (m.timer a) ≡ true
      → (m.timer a).ms ≢ ms
      → (next_of ((reset m a ms now false).1) a ≡ next_of m a)
        × (((reset m a ms now false).1.timer a).ms ≡ ms)
  unfolding reset add
  reset-next m a ms now h k c ne =
      let e : ((m.timer a).ms == ms) ≡ false = ground arith in
      let s =
        store_self (m.timer) a (with_next (m.timer a) ms (reset_next (m.timer a) ms now false)) in
      rw (e, c) (ap (λ t. t.next) s ∙ (reset_next_lem (m.timer a) ms now h k).1, ap (λ t. t.ms) s)

  next_time_lem :
      (m : TimerManager S) (now x : ℕ) (xs : List ℕ)
      → m.timers ≡ x ∷ xs
      → get_next_timer_time m now ≡ next_of m x - now
  unfolding get_next_timer_time
  next_time_lem m now x xs e = elim (Bool-cases (leb (next_of m x) now)) [
    | inl l ↦ rw (e, l) (ground arith)
    | inr l ↦ rw (e, l) refl
  ]

  -- On a valid manager with a timer in the set, getNextTimerTime is how long some timer in the set
  -- has to wait, 0 when it is due, and no longer than the wait of any given timer in it.
  pub get_next_timer_time_lem :
      (m : TimerManager S) (now b : ℕ)
      → IsValid m
      → In b (m.timers)
      → (c : ℕ) × In c (m.timers)
        × (get_next_timer_time m now ≡ next_of m c - now)
        × (get_next_timer_time m now ≤ next_of m b - now)
  get_next_timer_time_lem m now b v i = first_of (m.timers) refl
    where
      first_of :
          (xs : List ℕ)
          → m.timers ≡ xs
          → (c : ℕ) × In c (m.timers)
            × (get_next_timer_time m now ≡ next_of m c - now)
            × (get_next_timer_time m now ≤ next_of m b - now)
      first_of [] e = elim (subst (In b) e i) [ ]
      first_of (x ∷ xs) e =
          let n = next_time_lem m now x xs e in
          let le =
            earliest (next_of m) x b xs (subst (IsSorted (next_of m)) e (v.sorted))
              (subst (In b) e i) in
          (x, subst (In x) (sym e) (inl refl), n, omega (arith, n, le))
