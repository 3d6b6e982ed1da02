-- ===== src/IoManager/Loop.antt =====
-- Wait, Notify and Stopping of src/io_manager.cc: a pass over what epoll_wait returned.
use async_rpc.Base.{ℕ, ◌-◌, ◌%◌, ◌^◌, min, bit_and, bit_or, ◌==◌, ltb, if◌then◌else◌}
use async_rpc.Base.{Bool, ◌&&◌, List, [], ◌∷◌, ◌++◌, map, Result, ok, err, ◌>>=◌}
use async_rpc.Base.{assertion, null_pointer}
use async_rpc.Base.Int.{ℤ, pos, negsuc}
use async_rpc.IoManager.{read, write, event_bit, and_not, FdContext, run_callback}
use async_rpc.IoManager.Events.{IoManager, ctl_mod, ctl_del, context_at, wake_if}

-- The argument of epoll_wait: the time to the next timer as an int, at most 3000.
unfoldable pub epoll_timeout : ℕ → ℤ
epoll_timeout next =
    let cut = next % 2 ^ 32 in
    if next == 2 ^ 64 - 1
    then pos 3000
    else if ltb cut (2 ^ 31)
    then pos (min cut 3000)
    else negsuc (2 ^ 32 - cut - 1)

-- An entry of epoll_wait: the read end of the pipe, or the descriptor of the context that data.ptr
-- leads to, with the mask of its events. The low half of such a pointer is taken not to be the
-- descriptor of the pipe, which is what the code compares.
pub data Ready : Type 0 where
  pipe_ready : Ready
  ready : ℕ → ℕ → Ready

-- `events->data.ptr`: the context of the first entry, which for the pipe is no pointer.
unfoldable pub first_context : List Ready → Result ℕ
first_context [] = err null_pointer
first_context (pipe_ready ∷ _) = err null_pointer
first_context (ready fd mask ∷ _) = ok fd

-- With EPOLLERR or EPOLLHUP, 8 and 16, every registered event of EPOLLIN and EPOLLOUT, 1 and 4,
-- counts.
unfoldable pub raised : ℕ → ℕ → ℕ
raised mask events =
    if bit_and mask (bit_or 8 16) == 0 then mask else bit_or mask (bit_and (bit_or 1 4) events)

unfoldable pub real_event : ℕ → ℕ
real_event mask =
    bit_or (if bit_and mask 1 == 0 then 0 else event_bit read)
      (if bit_and mask 4 == 0 then 0 else event_bit write)

-- The loop's body on a context and the mask of its own entry; `accepted` is epoll_ctl's result.
unfoldable pub handle_ready : Bool → IoManager → FdContext → ℕ → ℕ → Result IoManager
handle_ready accepted m c fd mask =
    let real = real_event (raised mask c.events) in
    let left = and_not c.events real in
    let m' = record m {
      calls =
          m.calls
          ++ record { op = if left == 0 then ctl_del else ctl_mod; fd = c.fd; mask = left } ∷ [];
    } in
    let woken = do m'' ← wake_if real m' fd read; wake_if real m'' fd write
    in if bit_and real c.events == 0 then ok m else (if accepted then woken else ok m')

-- The loop over the entries, each with epoll_ctl's result for it. Every entry takes the context of
-- the first one.
unfoldable pub handle_all : Result ℕ → IoManager → List (Ready × Bool) → Result IoManager
handle_all first m [] = ok m
handle_all first m ((pipe_ready, _) ∷ entries) = handle_all first m entries
handle_all first m ((ready _ mask, accepted) ∷ entries) = do
  fd ← first
  c ← context_at m.contexts fd
  m' ← handle_ready accepted m c fd mask
  handle_all first m' entries

-- A pass of Wait: the callbacks of the timers that are due go to the scheduler, then the entries
-- are handled.
unfoldable pub wait_pass : ℕ → IoManager → List ℕ → List (Ready × Bool) → Result IoManager
wait_pass self m timers entries =
    handle_all (first_context (map (λ e. e.0) entries))
      (record m { submitted = m.submitted ++ map (λ f. (self, run_callback f)) timers }) entries

-- Stopping: what Scheduler::Stopping says, and the time to the next timer.
unfoldable pub stopping : IoManager → Bool → ℕ → Bool
stopping m scheduler_stops next = (m.pending == 0) && (scheduler_stops && (next == 2 ^ 64 - 1))

-- Notify, with what write returns: how many bytes go into the pipe.
unfoldable pub notify : Bool → ℤ → Result ℕ
notify idle (pos n) = if idle then (if n == 1 then ok 1 else err assertion) else ok 0
notify idle (negsuc n) = if idle then err assertion else ok 0
