-- ===== src/IoManager/Events.antt =====
-- addEvent, delEvent, cancelEvent and cancelAllEvent of src/io_manager.cc. The results of epoll_ctl
-- are arguments: `accepted` says that it returned 0.
use async_rpc.Base.{ℕ, zero, suc, ◌+◌, ◌-◌, ◌*◌, ◌/◌, ◌%◌, ◌^◌, bit_and, bit_or, ◌==◌, ltb, leb}
use async_rpc.Base.{
  if◌then◌else◌, Bool, true, false, List, [], ◌∷◌, ◌++◌, length, get_elem?, set, take,
}
use async_rpc.Base.{Option, none, some, Result, ok, err, ◌>>=◌, assertion, bad_index}
use async_rpc.IoManager.{
  Event, read, write, event_bit, and_not, EventContext, blank, empty, FdContext, Task,
  get_event_context, set_event_context, reset_context, trigger_event,
}

pub data EpollOp : Type 0 where
  ctl_add ctl_mod ctl_del : EpollOp

-- A call of epoll_ctl: the operation, the descriptor and the mask, EPOLLET left out, which is in
-- every mask but that of cancelAllEvent.
pub record EpollCall : Type 0 where
  pub op : EpollOp
  pub fd : ℕ
  pub mask : ℕ

-- fdContext_ and pendingEventCount_, with the calls of epoll_ctl and the submitted tasks so far.
pub record IoManager : Type 0 where
  pub contexts : List FdContext
  pub pending : ℕ
  pub calls : List EpollCall
  pub submitted : List (ℕ × Task)

unfoldable pub new_contexts : ℕ → ℕ → List FdContext
new_contexts first zero = []
new_contexts first (suc count) =
    record { fd = first; events = 0; read = blank; write = blank } ∷ new_contexts (first + 1) count

-- contextResize
unfoldable pub context_resize : List FdContext → ℕ → List FdContext
context_resize contexts size =
    take size contexts ++ new_contexts (length contexts) (size - length contexts)

-- `--pendingEventCount_` on a size_t.
abbrev pub one_less : ℕ → ℕ
one_less n = (n + (2 ^ 64 - 1)) % 2 ^ 64

abbrev pub any_op : ℕ → EpollOp → EpollOp
any_op events op = if events == 0 then op else ctl_mod

-- fdContext_[fd]
abbrev pub existing : Option FdContext → Result FdContext
existing none = err bad_index
existing (some c) = ok c

abbrev pub context_at : List FdContext → ℕ → Result FdContext
context_at contexts fd = existing (get_elem? contexts fd)

-- The task of a new event: the callback, or the running fiber, whose state must be EXEC.
unfoldable pub arm : Bool → ℕ → ℕ → Option ℕ → EventContext → Result EventContext
arm executing scheduler fiber (some callback) e =
    ok (record e { scheduler = some scheduler; callback = some callback })
arm executing scheduler fiber none e =
    if executing
    then ok (record e { scheduler = some scheduler; fiber = some fiber })
    else err assertion

-- What runs addEvent: the scheduler and the fiber of the thread, and whether the fiber is executing.
pub record Caller : Type 0 where
  pub scheduler : ℕ
  pub fiber : ℕ
  pub executing : Bool

-- The call of epoll_ctl in addEvent.
abbrev pub add_call : FdContext → ℕ → Event → EpollCall
add_call c fd event = record {
  op = any_op c.events ctl_add;
  fd = fd;
  mask = bit_or (event_bit event) c.events;
}

-- addEvent, once the context is found.
unfoldable pub register :
    Bool → Caller → IoManager → FdContext → ℕ → Event → Option ℕ → Result (Bool × IoManager)
register accepted who m c fd event callback =
    let c' = record c { events = bit_or (event_bit event) c.events } in
    let m' = record m {
      contexts = set m.contexts fd c';
      calls = m.calls ++ add_call c fd event ∷ [];
    } in
    let armed = do
      e ← get_event_context c' event
      e' ← if empty e then arm who.executing who.scheduler who.fiber callback e else err assertion
      ok (
        true,
        record m' {
          contexts = set m.contexts fd (set_event_context c' event e');
          pending = (m.pending + 1) % 2 ^ 64;
        },
      )
    in if bit_and c.events (event_bit event) == 0
      then (if accepted then armed else ok (false, m'))
      else err assertion

-- addEvent; a descriptor is not negative. The new size is fd * 1.5, cut to an integer.
unfoldable pub add_event :
    Bool → Caller → IoManager → ℕ → Event → Option ℕ → Result (Bool × IoManager)
add_event accepted who m fd event callback =
    let m' =
      if ltb fd (length m.contexts)
      then m
      else record m { contexts = context_resize m.contexts (fd * 3 / 2) } in
    do c ← context_at m'.contexts fd; register accepted who m' c fd event callback

-- The call of epoll_ctl in delEvent and cancelEvent: the operation goes by the mask before.
abbrev pub shrink_call : FdContext → ℕ → Event → EpollCall
shrink_call c fd event = record {
  op = any_op c.events ctl_del;
  fd = fd;
  mask = and_not c.events (event_bit event);
}

unfoldable pub unregister : Bool → IoManager → FdContext → ℕ → Event → Result (Bool × IoManager)
unregister accepted m c fd event =
    let m' = record m { calls = m.calls ++ shrink_call c fd event ∷ [] } in
    let removed = do
      let c' = record c { events = and_not c.events (event_bit event) }
      e ← get_event_context c' event
      ok (
        true,
        record m' {
          contexts = set m.contexts fd (set_event_context c' event (reset_context e));
          pending = one_less m.pending;
        },
      )
    in if bit_and c.events (event_bit event) == 0
      then ok (false, m)
      else (if accepted then removed else ok (false, m'))

unfoldable pub del_event : Bool → IoManager → ℕ → Event → Result (Bool × IoManager)
del_event accepted m fd event =
    let found = do c ← context_at m.contexts fd; unregister accepted m c fd event
    in if leb (length m.contexts) fd then ok (false, m) else found

-- triggerEvent on the context at `fd`, with the count of pending events.
unfoldable pub wake : IoManager → ℕ → Event → Result IoManager
wake m fd event = do
  c ← context_at m.contexts fd
  (c', job) ← trigger_event c event
  ok (record m {
    contexts = set m.contexts fd c';
    pending = one_less m.pending;
    submitted = m.submitted ++ job ∷ [];
  })

unfoldable pub cancel : Bool → IoManager → FdContext → ℕ → Event → Result (Bool × IoManager)
cancel accepted m c fd event =
    let m' = record m { calls = m.calls ++ shrink_call c fd event ∷ [] } in
    let woken = do m'' ← wake m' fd event; ok (true, m'')
    in if bit_and c.events (event_bit event) == 0
      then ok (false, m)
      else (if accepted then woken else ok (false, m'))

unfoldable pub cancel_event : Bool → IoManager → ℕ → Event → Result (Bool × IoManager)
cancel_event accepted m fd event =
    let found = do c ← context_at m.contexts fd; cancel accepted m c fd event
    in if leb (length m.contexts) fd then ok (false, m) else found

-- `if (events & event) { triggerEvent(event); --pendingEventCount_; }`, of the mask as it is then.
unfoldable pub wake_if : ℕ → IoManager → ℕ → Event → Result IoManager
wake_if mask m fd event =
    let woken = wake m fd event in if bit_and mask (event_bit event) == 0 then ok m else woken

unfoldable pub cancel_all : Bool → IoManager → FdContext → ℕ → Result (Bool × IoManager)
cancel_all accepted m c fd =
    let m' = record m { calls = m.calls ++ record { op = ctl_mod; fd = c.fd; mask = 0 } ∷ [] } in
    let woken = do
      m₁ ← wake_if c.events m' fd read
      c₁ ← context_at m₁.contexts fd
      m₂ ← wake_if c₁.events m₁ fd write
      c₂ ← context_at m₂.contexts fd
      if c₂.events == 0 then ok (true, m₂) else err assertion
    in if c.events == 0 then ok (false, m) else (if accepted then woken else ok (false, m'))

unfoldable pub cancel_all_event : Bool → IoManager → ℕ → Result (Bool × IoManager)
cancel_all_event accepted m fd =
    let found = do c ← context_at m.contexts fd; cancel_all accepted m c fd
    in if leb (length m.contexts) fd then ok (false, m) else found
