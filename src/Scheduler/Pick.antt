-- ===== src/Scheduler/Pick.antt =====
-- Which task a thread takes in src/scheduler.cc.
use async_rpc.Base.{
  ℕ, Bool, true, false, ◌||◌, Bool-cases, ◌≡◌, refl, ap, ap₂, subst, ◌∙◌, inl, inr,
}
use async_rpc.Base.{List, [], ◌∷◌, ◌++◌, All, Option, none, some, ok, ◌>>=◌}
use async_rpc.Base.Int.{ℤ}
use async_rpc.Fiber.{State}
use async_rpc.Scheduler.{ScheduleTask, is_task, is_for_other, is_running, pick, submit_no_lock}

module _ (state_of : ℕ → State) (me : ℤ) where
  -- A task that the thread must pass over.
  abbrev pub Skipped : ScheduleTask → Type 0
  Skipped t = (is_for_other state_of me t || is_running state_of me t) ≡ true

  abbrev pub any_for_other : List ScheduleTask → Bool
  any_for_other [] = false
  any_for_other (t ∷ ts) = is_for_other state_of me t || any_for_other ts

  -- The outcome of a search: the first task that need not be passed over is taken out of the list
  -- and the others keep their order; without one the list stays as it is.
  pub data IsPick
      : List ScheduleTask → Option ScheduleTask × List ScheduleTask × Bool → Type 0 where
    found :
        (front : List ScheduleTask) (t : ScheduleTask) (back : List ScheduleTask)
        → All Skipped front
        → is_for_other state_of me t ≡ false
        → is_running state_of me t ≡ false
        → IsPick (front ++ (t ∷ back)) (some t, front ++ back, true)
    missing : (ts : List ScheduleTask) → All Skipped ts → IsPick ts (none, ts, any_for_other ts)

  pick_other :
      (t : ScheduleTask) (ts : List ScheduleTask)
      → is_for_other state_of me t ≡ true
      → pick state_of me (t ∷ ts) ≡ (pick state_of me ts >>= λ r. ok (r.0, t ∷ r.1, true))
  unfolding pick
  pick_other t ts e = rw (e) refl

  pick_running :
      (t : ScheduleTask) (ts : List ScheduleTask)
      → is_for_other state_of me t ≡ false
      → is_task t ≡ true
      → is_running state_of me t ≡ true
      → pick state_of me (t ∷ ts) ≡ (pick state_of me ts >>= λ r. ok (r.0, t ∷ r.1, r.2))
  unfolding pick
  pick_running t ts e f g = rw (e, f, g) refl

  pick_this :
      (t : ScheduleTask) (ts : List ScheduleTask)
      → is_for_other state_of me t ≡ false
      → is_task t ≡ true
      → is_running state_of me t ≡ false
      → pick state_of me (t ∷ ts) ≡ ok (some t, ts, true)
  unfolding pick
  pick_this t ts e f g = rw (e, f, g) refl

  over_other :
      (t : ScheduleTask) {ts : List ScheduleTask}
      {r : Option ScheduleTask × List ScheduleTask × Bool}
      → is_for_other state_of me t ≡ true
      → IsPick ts r
      → IsPick (t ∷ ts) (r.0, t ∷ r.1, true)
  over_other t e (found front u back a b c) =
      found (t ∷ front) u back (ap (λ x. x || is_running state_of me t) e, a) b c
  over_other t e (missing ts a) =
      subst (λ b. IsPick (t ∷ ts) (none, t ∷ ts, b)) (ap (λ x. x || any_for_other ts) e)
        (missing (t ∷ ts) (ap (λ x. x || is_running state_of me t) e, a))

  over_running :
      (t : ScheduleTask) {ts : List ScheduleTask}
      {r : Option ScheduleTask × List ScheduleTask × Bool}
      → is_for_other state_of me t ≡ false
      → is_running state_of me t ≡ true
      → IsPick ts r
      → IsPick (t ∷ ts) (r.0, t ∷ r.1, r.2)
  over_running t e f (found front u back a b c) =
      found (t ∷ front) u back (ap₂ (λ x y. x || y) e f, a) b c
  over_running t e f (missing ts a) =
      subst (λ b. IsPick (t ∷ ts) (none, t ∷ ts, b)) (ap (λ x. x || any_for_other ts) e)
        (missing (t ∷ ts) (ap₂ (λ x y. x || y) e f, a))

  -- When every queued task has a fiber or a function, the search under the lock succeeds: it takes
  -- out the first task that is not for another thread and whose fiber is not running, and then
  -- asks for a notification; when there is none it changes nothing, and asks for a notification
  -- exactly when some task is for another thread.
  pub pick_lem :
      (ts : List ScheduleTask)
      → All (λ t. is_task t ≡ true) ts
      → (r : Option ScheduleTask × List ScheduleTask × Bool) × (pick state_of me ts ≡ ok r)
        × IsPick ts r
  unfolding pick
  pick_lem [] h = ((none, [], false), refl, missing [] tt)
  pick_lem (t ∷ ts) h =
      let (r, run, p) = pick_lem ts h.1 in
      elim (Bool-cases (is_for_other state_of me t)) [
        | inl e ↦ (
          (r.0, t ∷ r.1, true),
          pick_other t ts e ∙ ap (λ m. m >>= λ q. ok (q.0, t ∷ q.1, true)) run,
          over_other t e p,
        )
        | inr e ↦ elim (Bool-cases (is_running state_of me t)) [
          | inl f ↦ (
            (r.0, t ∷ r.1, r.2),
            pick_running t ts e h.0 f ∙ ap (λ m. m >>= λ q. ok (q.0, t ∷ q.1, q.2)) run,
            over_running t e f p,
          )
          | inr f ↦ ((some t, ts, true), pick_this t ts e h.0 f, found [] t ts tt e f)
        ]
      ]

All-append_one :
    (ts : List ScheduleTask) (t : ScheduleTask)
    → All (λ u. is_task u ≡ true) ts
    → is_task t ≡ true
    → All (λ u. is_task u ≡ true) (ts ++ (t ∷ []))
All-append_one [] t h e = (e, tt)
All-append_one (u ∷ us) t h e = (h.0, All-append_one us t h.1 e)

-- Submit keeps every queued task one with a fiber or a function, as the search needs it: an empty
-- one is not queued.
pub submit_no_lock-tasks :
    (task : ScheduleTask) (ts : List ScheduleTask)
    → All (λ u. is_task u ≡ true) ts
    → All (λ u. is_task u ≡ true) ((submit_no_lock task ts).1)
unfolding submit_no_lock
submit_no_lock-tasks task ts h = elim (Bool-cases (is_task task)) [
  | inl e ↦ rw (e) (All-append_one ts task h e)
  | inr e ↦ rw (e) h
]
