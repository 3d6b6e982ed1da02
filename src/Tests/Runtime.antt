-- ===== src/Tests/Runtime.antt =====
-- The theorems on timers, channels, tasks, descriptors, streams and routes at concrete inputs.
use async_rpc.Base.{ℕ, zero, suc, ◌+◌, ◌<◌, ◌≤◌, arith, Bool, true, false, ◌≡◌, ◌≢◌, ◌⊎◌, refl}
use async_rpc.Base.{List, [], ◌∷◌, ◌++◌, All, map, length, Option, none, some, inl, inr, ok}
use async_rpc.Base.Int.{ℤ, pos, negsuc}
use async_rpc.FdManager.{System, FdManager, look, create, get_fd_context}
use async_rpc.FdManager.Access.{context_of, get_fd_context-twice, create-race}
use async_rpc.Timer.{
  Timer, TimerManager, next_of, has_callback, cancel, list_over_time_callback, less,
}
use async_rpc.Timer.Order.{In}
use async_rpc.Timer.Invariant.{IsValid, cancel-IsValid}
use async_rpc.Timer.Due.{list_over_time_callback_lem}
use async_rpc.Channel.Order.{
  Event, pushing, popping, closing, waiting, run, start, IsOrdered, run-IsOrdered,
}
use async_rpc.Fiber.{State}
use async_rpc.Scheduler.{ScheduleTask, is_task, is_set, pick}
use async_rpc.Scheduler.Pick.{IsPick, pick_lem}
use async_rpc.Base.{Result}
use async_rpc.FixSize.{read_fix_size, read_fix_size-failed}
use async_rpc.Route.{select_times}
use async_rpc.Route.Polling.{select_times-round}

-- Two timers, with callbacks that count.
abbrev timer_at : ℕ → Timer ℕ
timer_at zero = record { ms = 0; next = 0; callback = none; recurring = false }
timer_at (suc zero) = record {
  ms = 500;
  next = 1500;
  callback = some (λ n. n + 1);
  recurring = false;
}
timer_at (suc (suc zero)) = record {
  ms = 700;
  next = 1700;
  callback = some (λ n. n + 2);
  recurring = true;
}
timer_at (suc (suc (suc a))) = record { ms = 0; next = 0; callback = none; recurring = false }

abbrev two_timers : TimerManager ℕ
two_timers = record { timer = timer_at; timers = 1 ∷ 2 ∷ [] }

two_live : (b : ℕ) → has_callback (timer_at b) ≡ true → In b (1 ∷ 2 ∷ []) ⊎ In b []
unfolding has_callback
two_live zero c = cc
two_live (suc zero) c = inl (inl refl)
two_live (suc (suc zero)) c = inl (inr (inl refl))
two_live (suc (suc (suc b))) c = cc

two_timers-IsValid : IsValid two_timers
unfolding less
two_timers-IsValid = record { sorted = ((refl, tt), (tt, tt)); live = two_live }

-- A system in which every descriptor is a blocking socket.
abbrev sockets : System Bool
sockets = record {
  fstat = λ fd os. some true;
  nonblock = λ fd os. os;
  set_nonblock = λ fd os. true;
}

abbrev empty_manager : FdManager
empty_manager = record { contexts = []; fd_context_list = none ∷ none ∷ none ∷ [] }

abbrev some_events : List (Event ℕ)
some_events = pushing 7 ∷ pushing 8 ∷ popping ∷ waiting true ∷ pushing 9 ∷ closing ∷ []

abbrev two_addresses : List ℕ
two_addresses = 7 ∷ 8 ∷ []

-- A task of any thread, behind one of thread 7.
abbrev two_tasks : List ScheduleTask
two_tasks =
    record { fiber = some 1; func = none; thread = pos 7 }
    ∷ record { fiber = none; func = some 2; thread = negsuc 0 }
    ∷ []

two_tasks-All : All (λ t. is_task t ≡ true) two_tasks
unfolding is_task is_set
two_tasks-All = (refl, (refl, tt))

abbrev broken : (offset left : ℕ) → ℕ → Result (ℤ × ℕ)
broken offset left s = ok (negsuc 0, s)

list_over_time_callback_lem_example :
    (expired rest : List ℕ) × (expired ++ rest ≡ two_timers.timers)
    × All (λ b. next_of two_timers b ≤ 1600) expired
    × All (λ b. 1600 ≤ next_of two_timers b) rest
    × ((list_over_time_callback two_timers 9 1600).0
        ≡ map (λ b. (two_timers.timer b).callback) expired)
    × IsValid ((list_over_time_callback two_timers 9 1600).1)
list_over_time_callback_lem_example =
    list_over_time_callback_lem two_timers 9 1600 two_timers-IsValid
      ((λ e. omega arith), ((λ e. omega arith), tt))

cancel-IsValid_example :
    (m' : TimerManager ℕ) × (cancel two_timers 1 ≡ ok (true, m'))
    × (cancel m' 1 ≡ ok (false, m'))
    × All (λ b. 1 ≢ b) (m'.timers)
    × IsValid m'
unfolding has_callback
cancel-IsValid_example = cancel-IsValid two_timers 1 two_timers-IsValid refl

run-IsOrdered_example : IsOrdered 1 (run (start 1) some_events)
run-IsOrdered_example = run-IsOrdered 1 some_events

pick_lem_example :
    (r : Option ScheduleTask × List ScheduleTask × Bool) × (pick (λ f. State.hold) (pos 1) two_tasks
      ≡ ok r)
    × IsPick (λ f. State.hold) (pos 1) two_tasks r
pick_lem_example = pick_lem (λ f. State.hold) (pos 1) two_tasks two_tasks-All

get_fd_context-twice_example :
    (a : ℕ) × (m' : FdManager) × (os' : Bool) × (get_fd_context sockets empty_manager
        (pos 1)
        true
        false
      ≡ ok (some a, m', os'))
    × (get_fd_context sockets m' (pos 1) false true ≡ ok (some a, m', true))
    × (length (m'.fd_context_list) ≡ length (empty_manager.fd_context_list))
    × (context_of m' 2 ≡ context_of empty_manager 2)
get_fd_context-twice_example =
    get_fd_context-twice sockets empty_manager 1 2 false true false (omega arith) (λ e. omega arith)

create-race_example :
    (look empty_manager (pos 1) true ≡ ok none)
    × ((a b : ℕ) × (m' m'' : FdManager) × (os' os'' : Bool) × (create sockets empty_manager
            (pos 1)
            false
          ≡ ok (some a, m', os'))
        × (create sockets m' (pos 1) os' ≡ ok (some b, m'', os''))
        × (context_of m'' 1 ≡ some (some b))
        × (a < b))
create-race_example = create-race sockets empty_manager 1 false (omega arith) refl

read_fix_size-failed_example : read_fix_size broken 3 4 0 ≡ ok none
read_fix_size-failed_example =
    read_fix_size-failed broken 3 4 0 (λ s. s) (λ offset left s. refl) (omega arith) (omega arith)

select_times-round_example :
    select_times (length two_addresses) (pos 5) two_addresses
    ≡ ok (two_addresses, pos (length two_addresses))
select_times-round_example =
    select_times-round two_addresses 5 (inr (omega arith)) (omega arith) (omega arith)
