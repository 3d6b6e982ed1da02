-- ===== src/IoManager/Register.antt =====
-- The pending events of src/io_manager.cc are counted: what addEvent, delEvent and cancelEvent keep.
use async_rpc.Base.{ℕ, zero, suc, ◌+◌, ◌%◌, ◌^◌, ◌≡◌, refl, ap, subst, ◌≢◌, arith}
use async_rpc.Base.{true, false, ltb, leb, List, [], ◌∷◌, ◌++◌, length}
use async_rpc.Base.{get_elem?, set, bit_and, bit_or, Option, some, ok, ◌==◌}
use async_rpc.IoManager.{
  Event, no_event, event_bit, EventContext, blank, empty, FdContext, get_event_context,
  set_event_context, reset_context, task_of, chosen, and_not,
}
use async_rpc.IoManager.Events.{
  IoManager, Caller, register, add_event, unregister, del_event, wake, cancel, cancel_event,
  one_less, add_call, shrink_call,
}
use async_rpc.IoManager.Context.{
  Consistent, view, registered, on_one, off_lem, trigger_event_lem, raise_lem, arm_lem,
}

-- All contexts are consistent, and `k` of their events are registered.
pub data AllConsistent : List FdContext → ℕ → Type 0 where
  none_left : AllConsistent [] 0
  one_more :
      {c : FdContext} {cs : List FdContext} {n k : ℕ}
      → Consistent c n
      → AllConsistent cs k
      → AllConsistent (c ∷ cs) (n + k)

-- The count of pending events is that of the registered ones.
pub record IsValid (m : IoManager) : Type 0 where
  pub count : ℕ
  pub all : AllConsistent m.contexts count
  pub counted : m.pending ≡ count % 2 ^ 64

-- The context of a descriptor and what may be put in its place.
record Focus (cs : List FdContext) (fd : ℕ) (c : FdContext) (k : ℕ) : Type 0 where
  here : ℕ
  others : ℕ
  consistent_here : Consistent c here
  total : k ≡ here + others
  replace : (c' : FdContext) (n : ℕ) → Consistent c' n → AllConsistent (set cs fd c') (n + others)

focus :
    {cs : List FdContext} {k : ℕ} (fd : ℕ) (c : FdContext)
    → AllConsistent cs k
    → get_elem? cs fd ≡ some c
    → Focus cs fd c k
focus fd c none_left h = cc
focus zero c (one_more {c = c₀} {n = n} {k = k} x xs) h = record {
  here = n;
  others = k;
  consistent_here = subst (λ d. Consistent d n) (let e : c₀ ≡ c = cc in e) x;
  total = refl;
  replace = λ c' n' y. one_more y xs;
}
focus (suc fd) c (one_more {n = n} {k = k} x xs) h =
    let f = focus fd c xs h in
    record {
      here = f.here;
      others = n + f.others;
      consistent_here = f.consistent_here;
      total = omega (arith, f.total);
      replace = λ c' n' y. subst (AllConsistent _) (omega arith) (one_more x (f.replace c' n' y));
    }

set-set : {A : Type 0} (xs : List A) (i : ℕ) (v w : A) → set (set xs i v) i w ≡ set xs i w
set-set [] i v w = refl
set-set (x ∷ xs) zero v w = refl
set-set (x ∷ xs) (suc i) v w = ap (λ ys. x ∷ ys) (set-set xs i v w)

pub below_length :
    {A : Type 0} (xs : List A) (i : ℕ) (x : A) → get_elem? xs i ≡ some x → leb (length xs) i ≡ false
below_length [] i x h = cc
below_length (y ∷ xs) zero x h = ground arith
below_length (y ∷ xs) (suc i) x h = ground (arith, below_length xs i x h)

pub inside_length :
    {A : Type 0} (xs : List A) (i : ℕ) (x : A) → get_elem? xs i ≡ some x → ltb i (length xs) ≡ true
inside_length [] i x h = cc
inside_length (y ∷ xs) zero x h = ground arith
inside_length (y ∷ xs) (suc i) x h = ground (arith, inside_length xs i x h)

get-set :
    (c : FdContext) (event : Event) (e : EventContext)
    → event ≢ no_event
    → get_event_context (set_event_context c event e) event ≡ ok e
unfolding get_event_context set_event_context
get-set c no_event e real = absurd (real refl)
get-set c Event.read e real = refl
get-set c Event.write e real = refl

module _ {m : IoManager} (v : IsValid m) (fd : ℕ) (c : FdContext)
    (there : get_elem? m.contexts fd ≡ some c) (event : Event) (real : event ≢ no_event) where
  -- With consistent contexts and a right count of pending events, for an event of READ and WRITE
  -- that is registered for a descriptor, cancelEvent with epoll_ctl accepting returns true,
  -- submits the task of the event to its scheduler, counts one pending event less, takes the event
  -- off the context, and keeps contexts and count valid.
  pub cancel_event-IsValid :
      registered c event ≡ true
      → (m' : IoManager) × (c' : FdContext) × (s : ℕ) × (e : EventContext) × (get_event_context c
            event
          ≡ ok e)
        × (e.scheduler ≡ some s)
        × (cancel_event true m fd event ≡ ok (true, m'))
        × (m'.contexts ≡ set m.contexts fd c')
        × (m'.submitted ≡ m.submitted ++ (s, task_of e) ∷ [])
        × (m'.pending ≡ one_less m.pending)
        × (registered c' event ≡ false)
        × IsValid m'
  unfolding cancel_event cancel wake
  cancel_event-IsValid on =
      let f = focus fd c v.all there in
      let view_c = view event real f.consistent_here in
      let (c', s, e, fired, ok_c', less, gone) = trigger_event_lem view_c on in
      let bit : (bit_and c.events (event_bit event) == 0) ≡ false = ground arith in
      (
        record m {
          contexts = set m.contexts fd c';
          pending = one_less m.pending;
          calls = m.calls ++ shrink_call c fd event ∷ [];
          submitted = m.submitted ++ (s, task_of view_c.own) ∷ [];
        },
        c',
        s,
        view_c.own,
        view_c.got c.events,
        e,
        rw (below_length m.contexts fd c there, there, bit, fired) refl,
        refl,
        refl,
        refl,
        gone,
        record {
          count = view_c.others + f.others;
          all = f.replace c' view_c.others ok_c';
          counted = omega (arith, v.counted, f.total, less);
        },
      )

  -- With consistent contexts and a right count of pending events, for a descriptor with a context,
  -- READ or WRITE not registered for it, and an executing fiber, addEvent with epoll_ctl accepting
  -- returns true, counts one more pending event, registers the event with the scheduler and with
  -- the callback or else the fiber of the caller, submits nothing, and keeps contexts and count
  -- valid.
  pub add_event-IsValid :
      (who : Caller) (callback : Option ℕ)
      → who.executing ≡ true
      → registered c event ≡ false
      → (m' : IoManager) × (c' : FdContext) × (e : EventContext) × (add_event true who m fd event
            callback
          ≡ ok (true, m'))
        × (m'.contexts ≡ set m.contexts fd c')
        × (m'.pending ≡ (m.pending + 1) % 2 ^ 64)
        × (m'.submitted ≡ m.submitted)
        × (get_event_context c' event ≡ ok e)
        × (e.scheduler ≡ some who.scheduler)
        × (task_of e ≡ chosen callback (some who.fiber))
        × (registered c' event ≡ true)
        × IsValid m'
  unfolding add_event register empty
  add_event-IsValid who callback exec off =
      let f = focus fd c v.all there in
      let view_c = view event real f.consistent_here in
      let (e, armed, a, sched, job) = arm_lem who.scheduler who.fiber callback in
      let (got, ok_c', same, on) = raise_lem view_c real off e a in
      let c' =
        set_event_context (record c { events = bit_or (event_bit event) c.events }) event e in
      let bit : (bit_and c.events (event_bit event) == 0) ≡ true = ground arith in
      let inside : ltb fd (length m.contexts) ≡ true = inside_length m.contexts fd c there in
      (
        record m {
          contexts = set m.contexts fd c';
          pending = (m.pending + 1) % 2 ^ 64;
          calls = m.calls ++ add_call c fd event ∷ [];
        },
        c',
        e,
        rw (inside, there, bit, got, exec, armed) refl,
        refl,
        refl,
        refl,
        get-set (record c { events = bit_or (event_bit event) c.events }) event e real,
        sched,
        job,
        on,
        record {
          count = 1 + view_c.others + f.others;
          all = f.replace c' (1 + view_c.others) ok_c';
          counted = omega (arith, v.counted, f.total, same);
        },
      )

  -- delEvent of a registered event, with epoll_ctl accepting, submits nothing, takes the event off
  -- the context, and keeps contexts and count valid.
  pub del_event-IsValid :
      registered c event ≡ true
      → (m' : IoManager) × (c' : FdContext) × (del_event true m fd event ≡ ok (true, m'))
        × (m'.contexts ≡ set m.contexts fd c')
        × (m'.submitted ≡ m.submitted)
        × (registered c' event ≡ false)
        × IsValid m'
  unfolding del_event unregister reset_context
  del_event-IsValid on =
      let f = focus fd c v.all there in
      let view_c = view event real f.consistent_here in
      let (one, _, _) = on_one view_c on in
      let bit : (bit_and c.events (event_bit event) == 0) ≡ false = ground arith in
      (
        record m {
          contexts = set m.contexts fd (
              set_event_context (record c { events = and_not c.events (event_bit event) }) event
                blank);
          pending = one_less m.pending;
          calls = m.calls ++ shrink_call c fd event ∷ [];
        },
        _,
        rw
            (
              below_length m.contexts fd c there,
              there,
              bit,
              view_c.got (and_not c.events (event_bit event)),
            )
            refl,
        refl,
        refl,
        off_lem view_c one,
        record {
          count = view_c.others + f.others;
          all = f.replace _ view_c.others (view_c.off one);
          counted = omega (arith, v.counted, f.total, view_c.total, one);
        },
      )
