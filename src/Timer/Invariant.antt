-- ===== src/Timer/Invariant.antt =====
-- What holds of the set of src/timer.cc at all times.
use async_rpc.Base.{
  ℕ, ◌+◌, ◌%◌, ◌^◌, ◌==◌, arith, Bool, true, false, not, ◌&&◌, Bool-cases, Option, ◌≡◌, ◌≢◌, refl,
  sym, ap, subst, ◌∙◌, ◌⊎◌, inl, inr,
}
use async_rpc.Base.{List, [], ◌∷◌, All, ok}
use async_rpc.Timer.{
  insert, find, erase, Timer, TimerManager, next_of, store, new_timer, with_next, without_callback,
  add, add_timer, has_callback, cancel, refresh, reset, reset_next,
}
use async_rpc.Timer.Order.{
  IsSorted, insert-IsSorted, erase-IsSorted, erase-gone, In, In-find, insert_self, insert-In,
  erase-In, IsSorted-cong,
}

pub same_or_not : (a b : ℕ) → (a ≡ b) ⊎ (a ≢ b)
same_or_not a b = elim (Bool-cases (a == b)) [
  | inl e ↦ inl (ground arith)
  | inr e ↦ inr (λ q. ground arith)
]

module _ {S : Type 0} where
  pub store_self : (timer : ℕ → Timer S) (a : ℕ) (t : Timer S) → store timer a t a ≡ t
  unfolding store
  store_self timer a t = let e : (a == a) ≡ true = ground arith in rw (e) refl

  pub store-other :
      (timer : ℕ → Timer S) (a b : ℕ) (t : Timer S) → a ≢ b → store timer a t b ≡ timer b
  unfolding store
  store-other timer a b t ne = let e : (a == b) ≡ false = ground arith in rw (e) refl

  -- The times of the timers of a store.
  abbrev pub times : (ℕ → Timer S) → ℕ → ℕ
  times timer b = (timer b).next

  times-store :
      (timer : ℕ → Timer S) (a : ℕ) (t : Timer S) (xs : List ℕ)
      → All (λ b. a ≢ b) xs
      → All (λ b. times timer b ≡ times (store timer a t) b) xs
  times-store timer a t [] h = tt
  times-store timer a t (b ∷ bs) h =
      (ap (λ u. u.next) (sym (store-other timer a b t h.0)), times-store timer a t bs h.1)

  -- A change of a timer that is not in the set keeps the set's order.
  pub store-IsSorted :
      (timer : ℕ → Timer S) (a : ℕ) (t : Timer S) (xs : List ℕ)
      → All (λ b. a ≢ b) xs
      → IsSorted (times timer) xs
      → IsSorted (times (store timer a t)) xs
  store-IsSorted timer a t xs ne h =
      IsSorted-cong (times timer) (times (store timer a t)) xs (times-store timer a t xs ne) h

  -- The set is in the order of the timers' times, and has every timer with a callback that is not
  -- one of those still to be handled.
  pub record IsHandling (m : TimerManager S) (todo : List ℕ) : Type 0 where
    pub sorted : IsSorted (times (m.timer)) (m.timers)
    pub live : (b : ℕ) → has_callback (m.timer b) ≡ true → In b (m.timers) ⊎ In b todo

  abbrev pub IsValid : TimerManager S → Type 0
  IsValid m = IsHandling m []

  pub valid_In :
      {m : TimerManager S} (b : ℕ) → IsValid m → has_callback (m.timer b) ≡ true → In b (m.timers)
  valid_In b v h = elim (v.live b h) [ inl i ↦ i | inr i ↦ elim i [ ] ]

  -- To set a timer anew and put it back keeps the order, and puts it in the set.
  pub put_back :
      (timer : ℕ → Timer S) (xs : List ℕ) (a : ℕ) (t : Timer S) (todo : List ℕ)
      → All (λ b. a ≢ b) xs
      → IsSorted (times timer) xs
      → ((b : ℕ) → a ≢ b → has_callback (timer b) ≡ true → In b xs ⊎ In b todo)
      → IsHandling ((add record { timer = store timer a t; timers = xs } a).0) todo
  unfolding add
  put_back timer xs a t todo ne h live = record {
    sorted = insert-IsSorted (times (store timer a t)) a xs (store-IsSorted timer a t xs ne h);
    live = λ b c. elim (same_or_not a b) [
      | inl e ↦ inl (
          subst (λ z. In z (insert (times (store timer a t)) a xs)) e
            (insert_self (times (store timer a t)) a xs))
      | inr n ↦ elim (live b n (subst (λ u. has_callback u ≡ true) (store-other timer a b t n) c)) [
        | inl i ↦ inl (insert-In (times (store timer a t)) a b xs i)
        | inr i ↦ inr i
      ]
    ];
  }

  -- A new timer, at an address that the set does not have, keeps a valid manager valid.
  pub add_timer-IsValid :
      (m : TimerManager S) (a now ms : ℕ) (callback : Option (S → S)) (recurring : Bool)
      → All (λ b. a ≢ b) (m.timers)
      → IsValid m
      → IsValid ((add_timer m a now ms callback recurring).0)
  unfolding add_timer
  add_timer-IsValid m a now ms callback recurring ne v =
      put_back (m.timer) (m.timers) a (new_timer ms now callback recurring) [] ne (v.sorted)
        (λ b n c. v.live b c)

  erased_gone :
      (m : TimerManager S) (a : ℕ) → IsValid m → All (λ b. a ≢ b) (erase (next_of m) a (m.timers))
  erased_gone m a v = erase-gone (next_of m) a (m.timers) (v.sorted)

  erased-IsSorted :
      (m : TimerManager S) (a : ℕ)
      → IsValid m
      → IsSorted (next_of m) (erase (next_of m) a (m.timers))
  erased-IsSorted m a v = erase-IsSorted (next_of m) a (m.timers) (v.sorted)

  found :
      (m : TimerManager S) (a : ℕ)
      → IsValid m
      → has_callback (m.timer a) ≡ true
      → find (next_of m) a (m.timers) ≡ true
  found m a v h = In-find (next_of m) a (m.timers) (v.sorted) (valid_In {m = m} a v h)

  -- Put back at another time, as refresh and reset do.
  reinserted :
      (m : TimerManager S) (a : ℕ) (t : Timer S)
      → IsValid m
      → IsValid (
          (add record { timer = store (m.timer) a t; timers = erase (next_of m) a (m.timers) } a).0)
  reinserted m a t v =
      put_back (m.timer) (erase (next_of m) a (m.timers)) a t [] (erased_gone m a v)
        (erased-IsSorted m a v)
        (λ b n c. inl (erase-In (next_of m) a b (m.timers) n (valid_In {m = m} b v c)))

  -- On a valid manager refresh returns true exactly for a timer with a callback, and keeps the
  -- manager valid.
  pub refresh-IsValid :
      (m : TimerManager S) (a now : ℕ)
      → IsValid m
      → ((refresh m a now).0 ≡ has_callback (m.timer a)) × IsValid ((refresh m a now).1)
  unfolding refresh
  refresh-IsValid m a now v = elim (Bool-cases (has_callback (m.timer a))) [
    | inl h ↦
        rw (h, found m a v h)
          (
            refl,
            reinserted m a
                (with_next (m.timer a) ((m.timer a).ms) ((now + (m.timer a).ms) % 2 ^ 64)) v,
          )
    | inr h ↦ rw (h) (refl, v)
  ]

  -- On a valid manager reset, on each of its ways out, keeps it valid.
  pub reset-IsValid :
      (m : TimerManager S) (a ms now : ℕ) (from_now : Bool)
      → IsValid m
      → IsValid ((reset m a ms now from_now).1)
  unfolding reset
  reset-IsValid m a ms now from_now v = elim (Bool-cases (((m.timer a).ms == ms) && not from_now)) [
    | inl e ↦ rw (e) v
    | inr e ↦ elim (Bool-cases (has_callback (m.timer a))) [
      | inl h ↦
          rw (e, h)
            (reinserted m a (with_next (m.timer a) ms (reset_next (m.timer a) ms now from_now)) v)
      | inr h ↦ rw (e, h) v
    ]
  ]

  no_callback : (t : Timer S) → has_callback (without_callback t) ≡ false
  unfolding has_callback
  no_callback t = refl

  uncalled :
      (timer : ℕ → Timer S) (a : ℕ) (t : Timer S)
      → has_callback (store timer a (without_callback t) a) ≡ false
  uncalled timer a t = ap has_callback (store_self timer a (without_callback t)) ∙ no_callback t

  pub unlisted :
      (timer : ℕ → Timer S) (a b : ℕ) (t : Timer S)
      → a ≡ b
      → has_callback (store timer a (without_callback t) b) ≢ true
  unlisted timer a b t e c =
      let k : false ≡ true =
        sym (uncalled timer a t)
        ∙ subst (λ z. has_callback (store timer a (without_callback t) z) ≡ true) (sym e) c in
      cc

  cleared :
      (m : TimerManager S) (a : ℕ)
      → IsValid m
      → IsValid record {
        timer = store (m.timer) a (without_callback (m.timer a));
        timers = erase (next_of m) a (m.timers);
      }
  cleared m a v = record {
    sorted =
        store-IsSorted (m.timer) a (without_callback (m.timer a)) (erase (next_of m) a (m.timers))
          (erased_gone m a v) (erased-IsSorted m a v);
    live = λ b c. elim (same_or_not a b) [
      | inl e ↦ absurd (unlisted (m.timer) a b (m.timer a) e c)
      | inr n ↦ inl (
          erase-In (next_of m) a b (m.timers) n (
            valid_In {m = m} b v (
              subst (λ u. has_callback u ≡ true)
                (store-other (m.timer) a b (without_callback (m.timer a)) n) c)))
    ];
  }

  cancel_silent :
      (m : TimerManager S) (a : ℕ) → has_callback (m.timer a) ≡ false → cancel m a ≡ ok (false, m)
  unfolding cancel
  cancel_silent m a h = rw (h) refl

  cancel_set :
      (m : TimerManager S) (a : ℕ)
      → has_callback (m.timer a) ≡ true
      → find (next_of m) a (m.timers) ≡ true
      → cancel m a
        ≡ ok (
          true,
          record {
            timer = store (m.timer) a (without_callback (m.timer a));
            timers = erase (next_of m) a (m.timers);
          },
        )
  unfolding cancel
  cancel_set m a h f = rw (h, f) refl

  -- On a valid manager cancel of a timer with a callback never erases what is not there: it
  -- succeeds, takes the timer out of the set, keeps the manager valid, and a second cancel fails
  -- and changes nothing.
  pub cancel-IsValid :
      (m : TimerManager S) (a : ℕ)
      → IsValid m
      → has_callback (m.timer a) ≡ true
      → (m' : TimerManager S) × (cancel m a ≡ ok (true, m'))
        × (cancel m' a ≡ ok (false, m'))
        × All (λ b. a ≢ b) (m'.timers)
        × IsValid m'
  cancel-IsValid m a v h =
      let t = without_callback (m.timer a) in
      let m' : TimerManager S = record {
        timer = store (m.timer) a t;
        timers = erase (next_of m) a (m.timers);
      } in
      (
        m',
        cancel_set m a h (found m a v h),
        cancel_silent m' a (uncalled (m.timer) a (m.timer a)),
        erased_gone m a v,
        cleared m a v,
      )
