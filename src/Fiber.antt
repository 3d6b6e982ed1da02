-- ===== src/Fiber.antt =====
-- src/fiber.cc: the fibers of one thread, which of them runs, and their states. A switch of contexts
-- is a change of the running fiber.
pub mod Running
use async_rpc.Base.{
  ℕ, suc, ◌+◌, ◌-◌, ◌%◌, ◌^◌, ◌==◌, ltb, if◌then◌else◌, Bool, true, false, ◌||◌, not,
}
use async_rpc.Base.{List, [], ◌∷◌, ◌++◌, length, get_elem?, set, Option, none, some}
use async_rpc.Base.{Result, ok, err, ◌>>=◌, null_pointer, assertion}

pub data State : Type 0 where
  init hold exec term ready except : State

abbrev pub is_exec : State → Bool
is_exec exec = true
is_exec _ = false

-- INIT, TERM or EXCEPT, in which a fiber may be reset or deleted.
abbrev pub is_idle : State → Bool
is_idle init = true
is_idle term = true
is_idle except = true
is_idle _ = false

-- A fiber with its id, whether it has a stack, and its function. The id of a thread's main fiber is
-- not initialised; it is 0 here.
pub record Fiber : Type 0 where
  pub id : ℕ
  pub stack : Bool
  pub state : State
  pub func : Option ℕ

-- The fibers by their address, t_fiber and t_thread_fiber of the thread, s_fiber_id and
-- s_fiber_count.
pub record Thread : Type 0 where
  pub fibers : List Fiber
  pub current : Option ℕ
  pub main : Option ℕ
  pub last_id : ℕ
  pub count : ℕ

abbrev pub existing : ℕ → Option Fiber → Result (ℕ × Fiber)
existing a none = err null_pointer
existing a (some f) = ok (a, f)

abbrev pub fiber_at : List Fiber → Option ℕ → Result (ℕ × Fiber)
fiber_at fibers none = err null_pointer
fiber_at fibers (some a) = existing a (get_elem? fibers a)

abbrev pub with_state : Thread → ℕ → Fiber → State → Thread
with_state t a f s = record t { fibers = set t.fibers a (record f { state = s }) }

abbrev pub is_set : Option ℕ → Bool
is_set none = false
is_set (some a) = true

-- EnableFiber, with the constructor of a main fiber.
unfoldable pub enable_fiber : Thread → Thread
enable_fiber t = if is_set t.current then t else record t {
  fibers = t.fibers ++ record { id = 0; stack = false; state = exec; func = none } ∷ [];
  current = some (length t.fibers);
  main = some (length t.fibers);
  count = t.count + 1;
}

-- Fiber(func, stack_size): the address of the new fiber.
unfoldable pub new_fiber : Thread → ℕ → ℕ → Result (ℕ × Thread)
new_fiber t func stack_size =
    let id = (t.last_id + 1) % 2 ^ 64 in
    let made : Thread = record t {
      fibers = t.fibers ++ record { id = id; stack = true; state = init; func = some func } ∷ [];
      last_id = id;
      count = t.count + 1;
    } in
    if not (is_set t.current) || stack_size == 0 then err assertion else ok (length t.fibers, made)

-- Resume of the fiber at `a`: the thread runs it behind the call.
unfoldable pub resume : Thread → ℕ → Result Thread
resume t a = do
  (i, f) ← fiber_at t.fibers (some a)
  if is_exec f.state
      then err assertion
      else ok (with_state (record t { current = some a }) a f exec)

-- Yield: the thread goes on behind the Resume in its main fiber.
unfoldable pub yield : Thread → Thread
yield t = record t { current = t.main }

unfoldable pub yield_with : State → Thread → Result Thread
yield_with s t = do (a, f) ← fiber_at t.fibers t.current; ok (yield (with_state t a f s))

unfoldable pub yield_to_hold : Thread → Result Thread
yield_to_hold t = yield_with hold t

unfoldable pub yield_to_ready : Thread → Result Thread
yield_to_ready t = yield_with ready t

-- MainFunc once the function has returned, or has thrown an exception, which fails an assertion.
unfoldable pub main_func : Bool → Thread → Result Thread
main_func thrown t = do
  (a, f) ← fiber_at t.fibers t.current
  let done = record t { fibers = set t.fibers a (record f { state = term; func = none }) }
  if thrown then err assertion else ok (yield done)

-- Reset, with none for a function that is null.
unfoldable pub reset : Thread → ℕ → Option ℕ → Result Thread
reset t a func = do
  (i, f) ← fiber_at t.fibers (some a)
  if f.stack
      then (if is_idle f.state
          then ok (record t { fibers = set t.fibers a (record f { state = init; func = func }) })
          else err assertion)
      else err assertion

-- GetFiberId
unfoldable pub get_fiber_id : Thread → ℕ
get_fiber_id t = elim (fiber_at t.fibers t.current) [ err how ↦ 0 | ok (a, f) ↦ f.id ]
