-- ===== src/Scheduler/Rounds.antt =====
-- Scheduler::Run of src/scheduler.cc: the rounds of a thread, over its tasks and fibers. What a fiber
-- does from a Resume until the thread is back in its main fiber is a parameter.
use async_rpc.Base.{ℕ, ◌+◌, ◌-◌, Bool, List, Option, none, some, get_elem?, Result, ok, ◌>>=◌}
use async_rpc.Base.Int.{ℤ, negsuc}
use async_rpc.Fiber
use async_rpc.Fiber.{State, Thread, resume, new_fiber}
use async_rpc.Scheduler.{
  ScheduleTask, Action, resumes, runs, idles, leaves, pick, run_task, submit_no_lock,
}

-- The thread's fibers, tasks_, the locals fiber and idle_fiber, activeThreads_ and idleThreads_.
pub record Worker : Type 0 where
  pub thread : Thread
  pub tasks : List ScheduleTask
  pub fiber : Option ℕ
  pub idle_fiber : ℕ
  pub active : ℕ
  pub idle : ℕ

-- GetState of a fiber that a pointer keeps, which is always there.
abbrev pub state_of : Thread → ℕ → State
state_of t a = elim (get_elem? t.fibers a) [ none ↦ State.init | some f ↦ f.state ]

-- Submit of a fiber from Run, for any thread; and the tasks it leaves.
unfoldable pub submit : ℕ → Worker → Worker
submit a w =
    let task : ScheduleTask = record { fiber = some a; func = none; thread = negsuc 0 } in
    record w { tasks = (submit_no_lock task w.tasks).1 }

unfoldable pub submit_if_ready : ℕ → State → Worker → Worker
submit_if_ready a State.ready w = submit a w
submit_if_ready a _ w = w

module _ (stack_size : ℕ) (body : ℕ → Worker → Result Worker) where
  -- Resume of a fiber between the two changes of activeThreads_.
  unfoldable pub run_fiber : ℕ → Worker → Result Worker
  run_fiber a w = do
    t ← resume w.thread a
    w' ← body a (record w { thread = t; active = w.active + 1 })
    ok (record w' { active = w'.active - 1 })

  unfoldable pub run_idle : Worker → Result Worker
  run_idle w = do
    t ← resume w.thread w.idle_fiber
    w' ← body w.idle_fiber (record w { thread = t; idle = w.idle + 1 })
    ok (record w' { idle = w'.idle - 1 })

  -- The fiber for a function: the one that is kept, reset, or a new one.
  unfoldable pub fiber_for : Option ℕ → ℕ → Worker → Result (ℕ × Worker)
  fiber_for none func w = do
    (a, t) ← new_fiber w.thread func stack_size
    ok (a, record w { thread = t; fiber = some a })
  fiber_for (some a) func w = do
    t ← Fiber.reset w.thread a (some func)
    ok (a, record w { thread = t })

  -- What becomes of the fiber that ran a function.
  unfoldable pub keep_fiber : ℕ → State → Worker → Result Worker
  keep_fiber a State.ready w = ok (record (submit a w) { fiber = none })
  keep_fiber a State.term w = do t ← Fiber.reset w.thread a none; ok (record w { thread = t })
  keep_fiber a State.except w = do t ← Fiber.reset w.thread a none; ok (record w { thread = t })
  keep_fiber a _ w = ok (record w { fiber = none })

  -- What Run does behind the lock: none where it leaves the loop.
  unfoldable pub act : Action → Worker → Result (Option Worker)
  act (resumes a) w = do w' ← run_fiber a w; ok (some (submit_if_ready a (state_of w'.thread a) w'))
  act (runs func) w = do
    (a, w₁) ← fiber_for w.fiber func w
    w₂ ← run_fiber a w₁
    w₃ ← keep_fiber a (state_of w₂.thread a) w₂
    ok (some w₃)
  act idles w = do w' ← run_idle w; ok (some w')
  act leaves w = ok none

  -- A round of the loop on thread `me`, and whether it notifies.
  unfoldable pub round : ℤ → Worker → Result (Option Worker × Bool)
  round me w = do
    (found, left, tickle) ← pick (state_of w.thread) me w.tasks
    o ←
        act (run_task (state_of w.thread) found (state_of w.thread w.idle_fiber))
          (record w { tasks = left })
    ok (o, tickle)
