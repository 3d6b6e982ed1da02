-- ===== src/Timer/Expiry.antt =====
-- What listOverTimeCallback of src/timer.cc does with the timers it took out of the set.
use async_rpc.Base.{
  ℕ, ◌+◌, ◌%◌, ◌^◌, true, false, Bool-cases, ◌≡◌, ◌≢◌, refl, sym, ap, ap₂, subst, ◌∙◌, ◌⊎◌, inl,
  inr,
}
use async_rpc.Base.{List, [], ◌∷◌, map, All}
use async_rpc.Timer.{
  insert, Timer, TimerManager, store, with_next, without_callback, add, has_callback, expire,
  expire_all,
}
use async_rpc.Timer.Order.{In, insert-All}
use async_rpc.Timer.Invariant.{
  times, store-other, store-IsSorted, unlisted, same_or_not, put_back, IsHandling, IsValid,
}

-- No timer twice, and none of them in a set.
abbrev pub IsApart : List ℕ → List ℕ → Type 0
IsApart [] xs = Unit
IsApart (a ∷ rest) xs = All (λ b. a ≢ b) rest × All (λ b. a ≢ b) xs × IsApart rest xs

IsApart-insert :
    (f : ℕ → ℕ) (a : ℕ) (todo xs : List ℕ)
    → All (λ b. a ≢ b) todo
    → IsApart todo xs
    → IsApart todo (insert f a xs)
IsApart-insert f a [] xs h k = tt
IsApart-insert f a (b ∷ todo) xs h k =
    (k.0, insert-All f (λ c. b ≢ c) a xs k.1 (λ e. h.0 (sym e)), IsApart-insert f a todo xs h.1 k.2)

module _ {S : Type 0} where
  -- A recurring timer with its next time.
  abbrev again : TimerManager S → ℕ → ℕ → Timer S
  again m a now = with_next (m.timer a) ((m.timer a).ms) ((now + (m.timer a).ms) % 2 ^ 64)

  expire_recurring :
      (m : TimerManager S) (a now : ℕ)
      → (m.timer a).recurring ≡ true
      → expire m a now
        ≡ (add record { timer = store (m.timer) a (again m a now); timers = m.timers } a).0
  unfolding expire
  expire_recurring m a now e = rw (e) refl

  expire_once :
      (m : TimerManager S) (a now : ℕ)
      → (m.timer a).recurring ≡ false
      → expire m a now
        ≡ record { timer = store (m.timer) a (without_callback (m.timer a)); timers = m.timers }
  unfolding expire
  expire_once m a now e = rw (e) refl

  -- One more timer is handled.
  abbrev Step : TimerManager S → List ℕ → TimerManager S → Type 0
  Step m todo m' =
      IsHandling m' todo
      × IsApart todo (m'.timers)
      × All (λ b. (m'.timer b).callback ≡ (m.timer b).callback) todo

  others :
      (m : TimerManager S) (a : ℕ) (t : Timer S) (todo : List ℕ)
      → All (λ b. a ≢ b) todo
      → All (λ b. (store (m.timer) a t b).callback ≡ (m.timer b).callback) todo
  others m a t [] h = tt
  others m a t (b ∷ todo) h =
      (ap (λ u. u.callback) (store-other (m.timer) a b t h.0), others m a t todo h.1)

  expire-Step :
      (m : TimerManager S) (a now : ℕ) (todo : List ℕ)
      → IsHandling m (a ∷ todo)
      → IsApart (a ∷ todo) (m.timers)
      → Step m todo (expire m a now)
  unfolding add
  expire-Step m a now todo v h = elim (Bool-cases ((m.timer a).recurring)) [
    | inl e ↦ subst (Step m todo) (sym (expire_recurring m a now e)) (
      put_back (m.timer) (m.timers) a (again m a now) todo (h.1) (v.sorted)
          (λ b n c. still b n (v.live b c)),
      IsApart-insert (times (store (m.timer) a (again m a now))) a todo (m.timers) h.0 h.2,
      others m a (again m a now) todo h.0,
    )
    | inr e ↦ subst (Step m todo) (sym (expire_once m a now e)) (
      record {
        sorted =
            store-IsSorted (m.timer) a (without_callback (m.timer a)) (m.timers) (h.1) (v.sorted);
        live = λ b c. elim (same_or_not a b) [
          | inl q ↦ absurd (unlisted (m.timer) a b (m.timer a) q c)
          | inr n ↦ still b n (
              v.live b (
                subst (λ u. has_callback u ≡ true)
                  (store-other (m.timer) a b (without_callback (m.timer a)) n) c))
        ];
      },
      h.2,
      others m a (without_callback (m.timer a)) todo h.0,
    )
  ]
    where
      still : (b : ℕ) → a ≢ b → In b (m.timers) ⊎ In b (a ∷ todo) → In b (m.timers) ⊎ In b todo
      still b n (inl i) = inl i
      still b n (inr (inl q)) = absurd (n (sym q))
      still b n (inr (inr i)) = inr i

  map_callbacks :
      (m m' : TimerManager S) (todo : List ℕ)
      → All (λ b. (m'.timer b).callback ≡ (m.timer b).callback) todo
      → map (λ b. (m'.timer b).callback) todo ≡ map (λ b. (m.timer b).callback) todo
  map_callbacks m m' [] h = refl
  map_callbacks m m' (b ∷ todo) h = ap₂ (λ x xs. x ∷ xs) h.0 (map_callbacks m m' todo h.1)

  pub expire_all_lem :
      (m : TimerManager S) (todo : List ℕ) (now : ℕ)
      → IsHandling m todo
      → IsApart todo (m.timers)
      → ((expire_all m todo now).0 ≡ map (λ b. (m.timer b).callback) todo)
        × IsValid ((expire_all m todo now).1)
  unfolding expire_all
  expire_all_lem m [] now v h = (refl, v)
  expire_all_lem m (a ∷ todo) now v h =
      let (v', h', same) = expire-Step m a now todo v h in
      let (cs, v'') = expire_all_lem (expire m a now) todo now v' h' in
      (ap (λ xs. (m.timer a).callback ∷ xs) (cs ∙ map_callbacks m (expire m a now) todo same), v'')
