-- ===== src/IoManager.antt =====
-- src/io_manager.cc and include/io_manager.h: the contexts of the descriptors that wait for events,
-- and the loop that wakes the waiting tasks. The parent has the context of one descriptor.
pub mod Events
pub mod Loop
pub mod Context
pub mod Register
pub mod Wakeup
use async_rpc.Base.{ℕ, ◌+◌, ◌-◌, bit_and, bit_or, ◌==◌, if◌then◌else◌, Bool, true, false}
use async_rpc.Base.{
  List, [], ◌∷◌, ◌++◌, Option, none, some, Result, ok, err, ◌>>=◌, assertion, null_pointer,
}

pub data Event : Type 0 where
  no_event read write : Event

-- The values of the enumeration.
abbrev pub event_bit : Event → ℕ
event_bit no_event = 0
event_bit read = 1
event_bit write = 4

-- `a & ~b`
abbrev pub and_not : ℕ → ℕ → ℕ
and_not a b = a - bit_and a b

-- FdContext::EventContext: the scheduler, the fiber and the callback by their identities.
pub record EventContext : Type 0 where
  pub scheduler : Option ℕ
  pub fiber : Option ℕ
  pub callback : Option ℕ

abbrev pub blank : EventContext
blank = record { scheduler = none; fiber = none; callback = none }

abbrev pub is_none : Option ℕ → Bool
is_none none = true
is_none (some _) = false

-- EventContext::empty
unfoldable pub empty : EventContext → Bool
empty e =
    if is_none e.scheduler then (if is_none e.fiber then is_none e.callback else false) else false

-- FdContext: `events` is the mask of the registered events.
pub record FdContext : Type 0 where
  pub fd : ℕ
  pub events : ℕ
  pub read : EventContext
  pub write : EventContext

-- What Scheduler::Submit takes.
pub data Task : Type 0 where
  run_callback run_fiber : ℕ → Task
  run_nothing : Task

-- getEventContext, and the assignment through the reference that it returns.
unfoldable pub get_event_context : FdContext → Event → Result EventContext
get_event_context c no_event = err assertion
get_event_context c Event.read = ok c.read
get_event_context c Event.write = ok c.write

unfoldable pub set_event_context : FdContext → Event → EventContext → FdContext
set_event_context c no_event e = c
set_event_context c Event.read e = record c { read = e }
set_event_context c Event.write e = record c { write = e }

-- resetContext
unfoldable pub reset_context : EventContext → EventContext
reset_context e = record e { scheduler = none; fiber = none; callback = none }

-- A task that is moved from, and null, is an empty one.
abbrev pub chosen : Option ℕ → Option ℕ → Task
chosen (some f) fiber = run_callback f
chosen none (some f) = run_fiber f
chosen none none = run_nothing

abbrev pub task_of : EventContext → Task
task_of e = chosen e.callback e.fiber

-- Submit through the scheduler pointer.
unfoldable pub submit : Option ℕ → Task → Result (ℕ × Task)
submit none task = err null_pointer
submit (some scheduler) task = ok (scheduler, task)

-- triggerEvent: the context, and what is submitted to which scheduler.
unfoldable pub trigger_event : FdContext → Event → Result (FdContext × (ℕ × Task))
trigger_event c event =
    let triggered = do
      let c' = record c { events = and_not c.events (event_bit event) }
      e ← get_event_context c' event
      job ← submit e.scheduler (task_of e)
      ok (set_event_context c' event (reset_context e), job)
    in if bit_and c.events (event_bit event) == 0 then err assertion else triggered
