-- ===== src/CoCondVar.antt =====
-- CoCondVar of src/mutex.cc: fibers that wait for a notification, with and without a time. What the
-- functions do under mutex_ is one step; the lock of a CoMutex is let go in `wait` and taken again
-- behind it, as [CoMutex] has it.
pub mod Waking
use async_rpc.Base.{
  ℕ, zero, suc, ◌-◌, ◌^◌, ◌==◌, ltb, if◌then◌else◌, Bool, true, false, List, [], ◌∷◌, ◌++◌, Option,
  none, some,
}

-- std::set::insert and erase of addresses, which the set keeps in order.
unfoldable pub insert : ℕ → List ℕ → List ℕ
insert f [] = f ∷ []
insert f (g ∷ queue) =
    let rest = insert f queue in
    if ltb f g then f ∷ g ∷ queue else if f == g then g ∷ queue else g ∷ rest

unfoldable pub erase : ℕ → List ℕ → List ℕ
erase f [] = []
erase f (g ∷ queue) = let rest = erase f queue in if f == g then queue else g ∷ rest

-- waitQueue_ and timer_, with the fibers given to the scheduler that have not gone on yet, and the
-- timers that were cancelled. Address 0 is the null pointer.
pub record CoCondVar : Type 0 where
  pub wait_queue : List ℕ
  pub timer : Option ℕ
  pub submitted : List ℕ
  pub cancelled : List ℕ

abbrev pub as_list : Option ℕ → List ℕ
as_list none = []
as_list (some a) = a ∷ []

abbrev pub new_cond_var : CoCondVar
new_cond_var = record { wait_queue = []; timer = none; submitted = []; cancelled = [] }

-- The loop of notify: the first fiber that is not null, and what is left of the queue.
unfoldable pub take_first : List ℕ → Option ℕ × List ℕ
take_first [] = (none, [])
take_first (zero ∷ queue) = take_first queue
take_first (suc f ∷ queue) = (some (suc f), queue)

unfoldable pub notify : CoCondVar → CoCondVar
notify c =
    let (fiber, queue) = take_first c.wait_queue in
    record {
      wait_queue = queue;
      timer = none;
      submitted = c.submitted ++ as_list fiber;
      cancelled = c.cancelled ++ as_list c.timer;
    }

-- The loop of notifyAll: whom it submits.
unfoldable pub take_all : List ℕ → List ℕ
take_all [] = []
take_all (zero ∷ queue) = take_all queue
take_all (suc f ∷ queue) = suc f ∷ take_all queue

unfoldable pub notify_all : CoCondVar → CoCondVar
notify_all c = record {
  wait_queue = [];
  timer = none;
  submitted = c.submitted ++ take_all c.wait_queue;
  cancelled = c.cancelled ++ as_list c.timer;
}

-- The timer that keeps the scheduler from stopping: the one there is, or the new one.
abbrev pub timer_or : ℕ → Option ℕ → Option ℕ
timer_or fresh none = some fresh
timer_or fresh (some a) = some a

-- Both forms of wait, up to YieldToHold; what addTimer returns is an argument.
unfoldable pub wait : ℕ → ℕ → CoCondVar → CoCondVar
wait fresh f c = record c { wait_queue = insert f c.wait_queue; timer = timer_or fresh c.timer }

-- What waitFor keeps while the fiber is suspended: its fiber, its timer, and timeCondtion.
pub record Waiting : Type 0 where
  pub fiber : ℕ
  pub timer : ℕ
  pub timed_out : Bool

abbrev pub forever : ℕ
forever = 2 ^ 64 - 1

-- waitFor up to YieldToHold: none where it is the call of wait.
unfoldable pub wait_for : ℕ → ℕ → ℕ → CoCondVar → Option Waiting × CoCondVar
wait_for fresh timeout f c = if timeout == forever then (none, wait fresh f c) else (
  some (record { fiber = f; timer = fresh; timed_out = false }),
  record c { wait_queue = insert f c.wait_queue },
)

-- The callback of the timer of waitFor, and whether the weak pointer still leads to timeCondtion.
unfoldable pub time_out : Bool → Waiting → CoCondVar → Waiting × CoCondVar
time_out false w c = (w, c)
time_out true w c = (
  record w { timed_out = true },
  record c { wait_queue = erase w.fiber c.wait_queue; submitted = c.submitted ++ w.fiber ∷ [] },
)

-- waitFor behind YieldToHold: what it returns, and the timer cancelled.
unfoldable pub wait_for_end : Option Waiting → CoCondVar → Bool × CoCondVar
wait_for_end none c = (true, c)
wait_for_end (some w) c =
    if w.timed_out then (false, c) else (true, record c { cancelled = c.cancelled ++ w.timer ∷ [] })
