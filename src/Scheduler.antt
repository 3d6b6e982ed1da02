-- ===== src/Scheduler.antt =====
-- src/scheduler.cc: the tasks of the scheduler, and which one a thread takes.
pub mod Pick
pub mod Rounds
use async_rpc.Base.{
  ℕ, ◌==◌, if◌then◌else◌, Bool, true, false, not, ◌&&◌, ◌||◌, List, [], ◌∷◌, ◌++◌, length, Option,
  none, some, Result, ok, err, ◌>>=◌, assertion,
}
use async_rpc.Base.Int.{ℤ, pos, negsuc}
use async_rpc.Fiber.{State, is_exec}

-- The fiber and the function by their address; a thread of -1 stands for any.
pub record ScheduleTask : Type 0 where
  pub fiber : Option ℕ
  pub func : Option ℕ
  pub thread : ℤ

unfoldable pub is_set : Option ℕ → Bool
is_set none = false
is_set (some a) = true

-- ScheduleTask::operator bool
unfoldable pub is_task : ScheduleTask → Bool
is_task t = is_set (t.fiber) || is_set (t.func)

unfoldable pub same : ℤ → ℤ → Bool
same (pos m) (pos n) = m == n
same (pos m) (negsuc n) = false
same (negsuc m) (pos n) = false
same (negsuc m) (negsuc n) = m == n

-- SubmitNoLock: whether a notification is needed, and the tasks.
unfoldable pub submit_no_lock : ScheduleTask → List ScheduleTask → Bool × List ScheduleTask
submit_no_lock task tasks =
    (length tasks == 0, if is_task task then tasks ++ (task ∷ []) else tasks)

module _ (state_of : ℕ → State) (me : ℤ) where
  -- The task names another thread.
  unfoldable pub is_for_other : ScheduleTask → Bool
  is_for_other t = not (same (t.thread) (negsuc 0)) && not (same (t.thread) me)

  unfoldable pub is_running : ScheduleTask → Bool
  is_running t = elim (t.fiber) [ none ↦ false | some f ↦ is_exec (state_of f) ]

  -- The part of Run under the lock: the task taken, the tasks left, and whether to notify. After a
  -- task is taken the iterator is not end().
  unfoldable pub pick : List ScheduleTask → Result (Option ScheduleTask × List ScheduleTask × Bool)
  pick [] = ok (none, [], false)
  pick (t ∷ ts) =
      let rest = pick ts in
      if is_for_other t
      then (do (found, left, tickle) ← rest; ok (found, t ∷ left, true))
      else if not (is_task t)
      then err assertion
      else if is_running t
      then (do (found, left, tickle) ← rest; ok (found, t ∷ left, tickle))
      else ok (some t, ts, true)

-- What Run does once it has left the lock: run a task's fiber or function, or the idle fiber, or
-- leave the loop.
pub data Action : Type 0 where
  resumes runs : ℕ → Action
  idles leaves : Action

unfoldable pub is_over : State → Bool
is_over State.term = true
is_over State.except = true
is_over _ = false

-- Without a fiber to resume: the function, or else the idle fiber unless it is over.
unfoldable pub run_func : Option ℕ → State → Action
run_func (some f) idle = runs f
run_func none State.term = leaves
run_func none _ = idles

unfoldable pub run_task : (ℕ → State) → Option ScheduleTask → State → Action
run_task state_of none idle = run_func none idle
run_task state_of (some t) idle = elim (t.fiber) [
  | none ↦ run_func (t.func) idle
  | some f ↦ if is_over (state_of f) then run_func (t.func) idle else resumes f
]

-- Stopping, by stop_, the tasks and activeThreads_.
unfoldable pub stopping : Bool → List ScheduleTask → ℕ → Bool
stopping stop tasks active = stop && ((length tasks == 0) && (active == 0))
