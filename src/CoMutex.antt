-- ===== src/CoMutex.antt =====
-- CoMutex of src/mutex.cc: a lock on which fibers wait, as steps of the fibers in any order.
pub mod Exclusion
use async_rpc.Base.{ℕ, ◌==◌, if◌then◌else◌, Bool, true, false, List, [], ◌∷◌, ◌++◌, ◌≡◌, ◌≢◌}

-- Where a fiber stands: outside, at the test of the loop in `lock`, at the second try, at the guard
-- with the queue, suspended, behind a try that succeeded, or behind `lock`.
pub data Place : Type 0 where
  outside testing trying queueing asleep acquired inside : Place

-- mutex_, fiber_id_ and waitQueue_, with the fibers that were submitted and not resumed yet, and
-- the place of each fiber.
pub record CoMutex : Type 0 where
  pub locked : Bool
  pub fiber_id : ℕ
  pub wait_queue : List ℕ
  pub submitted : List ℕ
  pub place : ℕ → Place

-- The places with fiber `f` at `p`.
abbrev pub move : ℕ → Place → (ℕ → Place) → ℕ → Place
move f p place g = if g == f then p else place g

-- What unlock leaves in the queue, and whom it submits.
abbrev pub popped : List ℕ → List ℕ
popped [] = []
popped (f ∷ queue) = queue

abbrev pub front : List ℕ → List ℕ
front [] = []
front (f ∷ queue) = f ∷ []

-- The state behind unlock by fiber `f`, which runs under the guard and lets the mutex go there.
unfoldable pub unlocked : CoMutex → ℕ → CoMutex
unlocked m f = record m {
  locked = false;
  fiber_id = 0;
  wait_queue = popped m.wait_queue;
  submitted = m.submitted ++ front m.wait_queue;
  place = move f outside m.place;
}

-- A step of fiber `f`.
pub data Step (f : ℕ) (m : CoMutex) : CoMutex → Type 0 where
  -- lock is called, by a fiber whose id is not in fiber_id_.
  enter :
      m.place f ≡ outside → m.fiber_id ≢ f → Step f m (record m { place = move f testing m.place })
  -- lock is called by a fiber whose id is in fiber_id_, and returns.
  enter_again :
      m.place f ≡ outside → m.fiber_id ≡ f → Step f m (record m { place = move f inside m.place })
  enter_inside : m.place f ≡ inside → m.fiber_id ≡ f → Step f m m
  -- trylock in the test of the loop, and the second one.
  test_succeeds :
      m.place f ≡ testing
      → m.locked ≡ false
      → Step f m (record m { locked = true; place = move f acquired m.place })
  test_fails :
      m.place f ≡ testing → m.locked ≡ true → Step f m (record m { place = move f trying m.place })
  try_succeeds :
      m.place f ≡ trying
      → m.locked ≡ false
      → Step f m (record m { locked = true; place = move f acquired m.place })
  try_fails :
      m.place f ≡ trying → m.locked ≡ true → Step f m (record m { place = move f queueing m.place })
  -- The push under the guard, and YieldToHold.
  queue :
      m.place f ≡ queueing
      → Step f m (record m { wait_queue = m.wait_queue ++ f ∷ []; place = move f asleep m.place })
  -- A thread of the scheduler takes the fiber from those submitted and resumes it.
  resume :
      (before rest : List ℕ)
      → m.place f ≡ asleep
      → m.submitted ≡ before ++ f ∷ rest
      → Step f m (record m { submitted = before ++ rest; place = move f testing m.place })
  -- `fiber_id_ = Fiber::GetFiberId()`, and lock returns.
  return_locked :
      m.place f ≡ acquired → Step f m (record m { fiber_id = f; place = move f inside m.place })
  -- unlock, which looks at no owner: by a fiber behind lock, or by any other that is outside.
  unlock : m.place f ≡ inside → Step f m (unlocked m f)
  unlock_again : m.place f ≡ outside → Step f m (unlocked m f)

-- Steps of any fibers, one after the other. The ids of fibers count from 1.
pub data Run (m : CoMutex) : CoMutex → Type 0 where
  stay : Run m m
  step : {m' m'' : CoMutex} (f : ℕ) → f ≢ 0 → Run m m' → Step f m' m'' → Run m m''

-- A new mutex, with every fiber outside. The code leaves fiber_id_ unset: it is what the memory held.
abbrev pub new_mutex : ℕ → CoMutex
new_mutex held = record {
  locked = false;
  fiber_id = held;
  wait_queue = [];
  submitted = [];
  place = λ f. outside;
}

-- The steps of fibers that do not lock what they have, and unlock only what they have.
abbrev pub Paired : {f : ℕ} {m m' : CoMutex} → Step f m m' → Type 0
Paired (Step.enter_inside h k) = ⊥
Paired (Step.unlock_again h) = ⊥
Paired _ = Unit

abbrev pub AllPaired : {m m' : CoMutex} → Run m m' → Type 0
AllPaired stay = Unit
AllPaired (step f nonzero run s) = AllPaired run × Paired s
