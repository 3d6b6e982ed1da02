-- ===== src/Hook.antt =====
-- src/hook.cc: the calls of the system that suspend the fiber instead of the thread. What the calls
-- answer, epoll, timers and the wake-up are a record of operations on the state of the system.
pub mod Options
use async_rpc.Base.{ℕ, zero, suc, ◌^◌, ◌-◌, ◌==◌, if◌then◌else◌, Bool, true, false, ◌&&◌, ◌||◌, not}
use async_rpc.Base.{get_elem?, Option, none, some, Result, ok, err, ◌>>=◌, bad_index}
use async_rpc.Base.Int.{ℤ, pos, negsuc}
use async_rpc.FdManager.{
  FdContext, FdManager, System, get_fd_context, get_timeout, no_timeout, del_fd_context,
}
use async_rpc.IoManager.{Event, read, write}

-- The value of a call and errno behind it.
pub record Answer : Type 0 where
  pub value : ℤ
  pub errno : ℕ

abbrev pub failure : ℕ → Answer
failure errno = record { value = negsuc 0; errno = errno }

abbrev pub eintr : ℕ
eintr = 4

abbrev pub ebadf : ℕ
ebadf = 9

abbrev pub eagain : ℕ
eagain = 11

abbrev pub etimedout : ℕ
etimedout = 110

abbrev pub einprogress : ℕ
einprogress = 115

-- value == -1
abbrev pub is_failed : ℤ → Bool
is_failed (pos n) = false
is_failed (negsuc n) = n == 0

abbrev pub failed_with : ℕ → Answer → Bool
failed_with errno a = is_failed a.value && a.errno == errno

-- The original function on its arguments; addConditionTimer with a timeout, and cancel of that
-- timer; addEvent, with errno where it returns false; and YieldToHold up to the resumption, which
-- says whether the timer's callback ran and set the condition to ETIMEDOUT, or none where the fiber
-- is never resumed.
pub record Kernel (Os : Type 0) : Type 0 where
  pub call : Os → Answer × Os
  pub add_timer : ℕ → Os → Os
  pub cancel_timer : Os → Os
  pub add_event : Os → Option ℕ × Os
  pub suspend : Os → Option (Bool × Os)

module _ {Os : Type 0} (kernel : Kernel Os) where
  -- `if (timeout != (uint64_t)-1)` in front of addConditionTimer, and `if (timer)` in front of cancel.
  unfoldable pub arm : ℕ → Os → Os
  arm timeout os = if timeout == no_timeout then os else kernel.add_timer timeout os

  unfoldable pub disarm : ℕ → Os → Os
  disarm timeout os = if timeout == no_timeout then os else kernel.cancel_timer os

  -- From the call for the event to the resumption: none where it never comes, or none to go on and
  -- what the function returns otherwise.
  unfoldable pub woken : ℕ → Option (Bool × Os) → Option (Option Answer × Os)
  woken timeout none = none
  woken timeout (some (true, os)) = some (some (failure etimedout), disarm timeout os)
  woken timeout (some (false, os)) = some (none, disarm timeout os)

  unfoldable pub waiting : ℕ → Option ℕ × Os → Option (Option Answer × Os)
  waiting timeout (some errno, os) = some (some (failure errno), disarm timeout os)
  waiting timeout (none, os) = woken timeout (kernel.suspend os)

  unfoldable pub wait_event : ℕ → Os → Option (Option Answer × Os)
  wait_event timeout os = waiting timeout (kernel.add_event (arm timeout os))

  -- The call, and again while it is interrupted; on fuel, as what follows.
  unfoldable pub uninterrupted : ℕ → Os → Option (Answer × Os)
  uninterrupted zero os = none
  uninterrupted (suc fuel) os =
      let (a, os') = kernel.call os in
      let again = uninterrupted fuel os' in if failed_with eintr a then again else some (a, os')

  -- What follows a wait: the loop from `retry` on, or the return.
  abbrev pub after_wait :
      (Os → Option (Answer × Os)) → Option (Option Answer × Os) → Option (Answer × Os)
  after_wait retry none = none
  after_wait retry (some (none, os)) = retry os
  after_wait retry (some (some a, os)) = some (a, os)

  abbrev pub after_call :
      (Os → Option (Answer × Os)) → ℕ → Option (Answer × Os) → Option (Answer × Os)
  after_call retry timeout none = none
  after_call retry timeout (some (a, os)) =
      let again = after_wait retry (wait_event timeout os) in
      if failed_with eagain a then again else some (a, os)

  -- The part of do_io from the label `retry` on.
  unfoldable pub retry : ℕ → ℕ → Os → Option (Answer × Os)
  retry zero timeout os = none
  retry (suc fuel) timeout os =
      after_call (λ os'. retry fuel timeout os') timeout (uninterrupted (suc fuel) os)

-- The context of a descriptor, as getFdContext without auto_create finds it.
abbrev pub context_of : {Os : Type 0} → System Os → FdManager → ℤ → Os → Result (Option FdContext)
context_of system m fd os = do
  (p, m', os') ← get_fd_context system m fd false os
  elim p [
    | none ↦ ok none
    | some i ↦ elim (get_elem? m'.contexts i) [ none ↦ err bad_index | some c ↦ ok (some c) ]
  ]

abbrev pub is_read : Event → Bool
is_read read = true
is_read _ = false

-- What getsockopt of SO_ERROR answers: a failure with errno, or the pending error, 0 for none.
pub data SoError : Type 0 where
  refused status : ℕ → SoError

abbrev pub connected : SoError → Answer
connected (refused errno) = failure errno
connected (status error) = if error == 0 then record { value = pos 0; errno = 0 } else failure error

module _ {Os : Type 0} (kernel : Kernel Os) (system : System Os) (enabled : Bool) where
  -- do_io past the look at the descriptor's context.
  unfoldable pub io_on : ℕ → Event → Option FdContext → Os → Option (Answer × Os)
  io_on fuel event none os = some (kernel.call os)
  io_on fuel event (some c) os =
      if c.is_close
      then some (failure ebadf, os)
      else if not c.is_socket || c.user_nonblock
      then some (kernel.call os)
      else retry kernel fuel (get_timeout c (is_read event)) os

  unfoldable pub do_io : ℕ → FdManager → ℤ → Event → Os → Result (Option (Answer × Os))
  do_io fuel m fd event os =
      let hooked = (do c ← context_of system m fd os; ok (io_on fuel event c os)) in
      if enabled then hooked else ok (some (kernel.call os))

  abbrev finished : (Os → SoError × Os) → Option (Option Answer × Os) → Option (Answer × Os)
  finished so_error none = none
  finished so_error (some (some a, os)) = some (a, os)
  finished so_error (some (none, os)) = let (e, os') = so_error os in some (connected e, os')

  unfoldable pub connect_on : (Os → SoError × Os) → ℕ → Option FdContext → Os → Option (Answer × Os)
  connect_on so_error timeout none os = some (failure ebadf, os)
  connect_on so_error timeout (some c) os =
      let (a, os') = kernel.call os in
      if c.is_close
      then some (failure ebadf, os)
      else if not c.is_socket || c.user_nonblock
      then some (kernel.call os)
      else if failed_with einprogress a
      then finished so_error (wait_event kernel timeout os')
      else some (a, os')

  -- connect_with_timeout; the original function is connect.
  unfoldable pub connect_with_timeout :
      (Os → SoError × Os) → FdManager → ℤ → ℕ → Os → Result (Option (Answer × Os))
  connect_with_timeout so_error m fd timeout os =
      let hooked = (do c ← context_of system m fd os; ok (connect_on so_error timeout c os)) in
      if enabled then hooked else ok (some (kernel.call os))

  abbrev accepted : FdManager → Option (Answer × Os) → Result (Option (Answer × FdManager × Os))
  accepted m none = ok none
  accepted m (some (a, os)) =
      let made = do (p, m', os') ← get_fd_context system m a.value true os; ok (some (a, m', os'))
      in elim a.value [
        | pos n ↦ if enabled then made else ok (some (a, m, os))
        | negsuc n ↦ ok (some (a, m, os))
      ]

  -- accept, which makes a context for the new descriptor.
  unfoldable pub accept : ℕ → FdManager → ℤ → Os → Result (Option (Answer × FdManager × Os))
  accept fuel m fd os = do r ← do_io fuel m fd read os; accepted m r
