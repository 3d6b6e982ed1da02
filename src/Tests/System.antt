-- ===== src/Tests/System.antt =====
-- The theorems on sessions, fibers, hooks and logs at concrete inputs.
use async_rpc.Base.{ℕ, ◌+◌, ◌<◌, ◌≤◌, arith, true, false}
use async_rpc.Base.{◌≡◌, refl, sym, ◌∙◌}
use async_rpc.Base.{
  List, [], ◌∷◌, ◌++◌, length, take, drop, none, some, ok, take-append-drop, append-nil,
}
use async_rpc.Base.Int.{pos}
use async_rpc.Base.Texts.{codes}
use async_rpc.ByteArray.{ByteArray, make, set_position}
use async_rpc.ByteArray.Invariant.{make-IsValid}
use async_rpc.ByteArray.Access.{Written}
use async_rpc.ByteArray.Buffers.{Iovec, get_write_buffers}
use async_rpc.ByteArray.Scatter.{store, get_write_buffers-Written}
use async_rpc.Codec.{little, to_memory, le_bytes}
use async_rpc.Protocol.{Protocol, create, rpc_method_request}
use async_rpc.Protocol.RoundTrip.{Fits}
use async_rpc.Session.{Socket, recv_request, send_response}
use async_rpc.Session.Receive.{Delivers}
use async_rpc.Session.Send.{Accepts, message_bytes, recv_request-send_response}
use async_rpc.FdManager.{
  FdContext, FdManager, System, get_fd_context, look, beyond, entry, element, is_set,
}
use async_rpc.Hook.Options.{Files, has_nonblock, found, fcntl_setfl, fcntl_getfl}
use async_rpc.Hook.Options.Nonblock.{fcntl_getfl-fcntl_setfl}
use async_rpc.Fiber.{
  Thread, hold, exec, init, resume, yield_to_hold, new_fiber, enable_fiber, with_state,
}
use async_rpc.Fiber.Running
use async_rpc.Fiber.Running.{Run, start, next, Step, Is, started, Run-IsValid, yield_to_hold-resume}
use async_rpc.Log.{LogEvent, warn, parse}
use async_rpc.Log.Pattern.{Token, literal, conversion, date_of, print, items, texts, parse-print}
use async_rpc.Log.Loggers.{World, log, new_logger, new_manager}
use async_rpc.Log.Loggers.Manager.{Kept, new_manager-IsValid, log-Kept}
use async_rpc.CoCondVar.{
  CoCondVar, Waiting, take_first, notify, time_out, wait_for_end, insert, erase, wait,
}
use async_rpc.CoCondVar.Waking.{time_out-notify}
use async_rpc.CoSemaphore
use async_rpc.CoSemaphore.{CoSemaphore}
use async_rpc.CoSemaphore.Permits.{Balanced, run-Balanced}
use async_rpc.Protocol.{encode, write_head}
use async_rpc.Codec.{write_fuint8, write_fixed, write_fuint32, write_string_f32}
use async_rpc.ByteArray.{write, write_at, add_capacity, fill_at, fill, new_node, seek}
use async_rpc.Base.{Result, ok, err, ap}

-- A stream that takes and gives one byte at a time: the bytes on it are its state.
abbrev trickle : Socket (List ℕ)
trickle = record {
  is_connected = λ s. true;
  recv = λ left s. (some (take 1 s), drop 1 s);
  send = λ pieces bs s. (some 1, s ++ take 1 bs);
}

length-take_one : (s : List ℕ) → 0 < length s → length (take 1 s) ≡ 1
length-take_one [] h = absurd (omega arith)
length-take_one (x ∷ s) h = refl

trickle-Accepts : Accepts trickle (λ s. s)
trickle-Accepts = record {
  leaves = λ pieces bs s few h up. (1, s ++ take 1 bs, refl, omega arith, omega arith, refl, refl);
}

trickle-Delivers : Delivers trickle (λ s. s)
trickle-Delivers = record {
  arrives = λ left s asked up h. (
    take 1 s,
    drop 1 s,
    refl,
    omega (arith, length-take_one s h),
    omega (arith, length-take_one s h),
    sym (take-append-drop 1 s),
    refl,
  );
}

abbrev message : Protocol
message = create rpc_method_request (1 ∷ 2 ∷ []) 7

message-Fits : Fits message
unfolding create
message-Fits = record {
  magic_fits = omega arith;
  version_fits = omega arith;
  type_fits = omega arith;
  id_fits = omega arith;
  content_fits = omega arith;
  length_right = refl;
}

node_count : Result ByteArray → ℕ
node_count (err how) = 0
node_count (ok a) = length a.nodes

one_node : node_count (encode little (λ i. 0) message) ≡ 1
unfolding node_count encode create write_head write_fuint8 write_fixed write to_memory le_bytes
    write_at add_capacity make fill_at fill new_node write_fuint32 write_string_f32 set_position
    seek
one_node = refl

few_nodes : (a : ByteArray) → encode little (λ i. 0) message ≡ ok a → length a.nodes ≤ 1024
unfolding node_count
few_nodes a e = omega (arith, one_node, ap node_count e)

recv_request-send_response_example :
    (a : ByteArray) × (s' : List ℕ) × (t' : List ℕ) × (send_response little
        (λ i. 0)
        trickle
        14
        message
        []
      ≡ ok (some (pos (length (message_bytes message)), (a, s'))))
    × (recv_request little (λ i. 0) trickle 14 s' ≡ ok (some (some message, t')))
    × (t' ≡ [])
unfolding create to_memory le_bytes
recv_request-send_response_example =
    recv_request-send_response trickle-Accepts trickle-Delivers 14 (λ i. 0) (λ i. 0) message []
      (λ s. s) [] message-Fits refl (omega arith) few_nodes (omega arith) refl
      (λ s' e. (e ∙ sym (append-nil (message_bytes message)), refl))

get_write_buffers-Written_example :
    (vs : List Iovec) × (a' : ByteArray) × (junk : List ℕ) × (get_write_buffers (make (λ i. 0) 4) 6
      ≡ ok (6, vs, a'))
    × ((bs : List ℕ)
        → length bs ≤ 6
        → (a'' : ByteArray) × (set_position (store vs bs a') (a'.position + length bs) ≡ ok a'')
          × Written (make (λ i. 0) 4) bs a'' junk)
get_write_buffers-Written_example =
    get_write_buffers-Written (make-IsValid (λ i. 0) 4 (omega arith)) 6 (omega arith)

-- The flags of the only descriptor are the state of the system.
abbrev flag_files : Files ℕ
flag_files = record {
  get_flags = λ fd s. s;
  set_flags = λ fd flags s. (pos 0, flags);
  set_fionbio = λ fd user s. (pos 0, s);
  open_socket = λ s. (pos 0, s);
  close_file = λ fd s. (pos 0, s);
  cancel_all = λ fd s. s;
}

abbrev flag_system : System ℕ
flag_system = record {
  fstat = λ fd s. some true;
  nonblock = λ fd s. has_nonblock s;
  set_nonblock = λ fd s. s + 2048;
}

abbrev socket_context : FdContext
socket_context = record {
  fd = pos 0;
  is_init = false;
  is_close = false;
  is_socket = true;
  sys_nonblock = true;
  user_nonblock = false;
  send_timeout = 0;
  recv_timeout = 0;
}

abbrev one_socket : FdManager
one_socket = record { contexts = socket_context ∷ []; fd_context_list = some 0 ∷ [] }

socket_found : found flag_system one_socket (pos 0) 2050 ≡ ok (some (0, socket_context))
unfolding found get_fd_context look beyond entry element is_set
socket_found = refl

fcntl_getfl-fcntl_setfl_example :
    (m' : FdManager) × (os' : ℕ) × (flags : ℕ) × (fcntl_setfl flag_system flag_files one_socket
        (pos 0)
        2
        2050
      ≡ ok (pos 0, m', os'))
    × (fcntl_getfl flag_system flag_files m' (pos 0) os' ≡ ok flags)
    × (has_nonblock flags ≡ has_nonblock 2)
    × (has_nonblock os' ≡ true)
    × (found flag_system m' (pos 0) os'
        ≡ ok (some (0, record socket_context { user_nonblock = has_nonblock 2 })))
fcntl_getfl-fcntl_setfl_example =
    fcntl_getfl-fcntl_setfl flag_system flag_files one_socket (pos 0) 2 2050 0 socket_context
      (λ flags s accepted. refl) refl socket_found refl

-- A thread that made one fiber, and that runs it.
abbrev two_fibers : Thread
two_fibers = record {
  fibers =
      record { id = 0; stack = false; state = exec; func = none }
      ∷ record { id = 1; stack = true; state = init; func = some 9 }
      ∷ [];
  current = some 0;
  main = some 0;
  last_id = 1;
  count = 2;
}

two_fibers-Run : Run two_fibers
unfolding started enable_fiber new_fiber
two_fibers-Run = next start (Step.create 1 9 4096 refl)

Run-IsValid_example : Running.IsValid (
    with_state
      (record two_fibers { current = some 1 })
      1
      (record { id = 1; stack = true; state = init; func = some 9 })
      exec)
unfolding resume
Run-IsValid_example = Run-IsValid (next two_fibers-Run (Step.switch_in 1 refl refl))

yield_to_hold-resume_example :
    (t' : Thread) × (resume two_fibers 1 ≡ ok t')
    × (t'.current ≡ some 1)
    × Is t' 1 true
    × (yield_to_hold t'
        ≡ ok (
            with_state two_fibers 1
              (record { id = 1; stack = true; state = init; func = some 9 })
              hold))
yield_to_hold-resume_example =
    yield_to_hold-resume (Run-IsValid two_fibers-Run) 1
      (record { id = 1; stack = true; state = init; func = some 9 }) refl refl refl

-- "%mx%d{%Y}"
abbrev pattern_parts : List Token
pattern_parts = conversion b'm' ∷ literal b'x' ∷ date_of (codes "%Y") ∷ []

parse-print_example : parse 0 (print pattern_parts) [] ≡ (items pattern_parts, texts pattern_parts)
parse-print_example = parse-print pattern_parts [] (refl, (refl, ((refl, (refl, tt)), tt)))

abbrev some_event : LogEvent
some_event = record {
  logger_name = codes "root";
  level = warn;
  file = [];
  line = 3;
  timestamp = 0;
  thread_id = 1;
  fiber_id = 2;
  thread_name = [];
  content = codes "late";
}

log-Kept_example :
    (w' : World) × (log (λ pattern time. pattern) 100 2 0 warn some_event new_manager.1
      ≡ some (ok w'))
    × Kept new_manager.1 w'
unfolding new_manager
log-Kept_example =
    log-Kept (λ pattern time. pattern) 100 warn some_event new_manager.0 new_manager.1 0
      (record (new_logger (codes "root")) { appender = 0 ∷ [] }) new_manager-IsValid refl

abbrev one_waits : CoCondVar
one_waits = record { wait_queue = 3 ∷ []; timer = none; submitted = []; cancelled = [] }

abbrev waiting_three : Waiting
waiting_three = record { fiber = 3; timer = 7; timed_out = false }

time_out-notify_example :
    let (w', c') = time_out true waiting_three (notify one_waits) in
    (c'.submitted ≡ ([] ++ 3 ∷ []) ++ 3 ∷ [])
    × ((wait_for_end (some w') c').0 ≡ false)
    × (c'.timer ≡ none)
    × (c'.wait_queue ≡ erase 3 [])
time_out-notify_example = time_out-notify waiting_three one_waits [] (λ e. cc) refl

abbrev handed_on : CoSemaphore
handed_on = record {
  num = 1;
  used = 1;
  var = record { wait_queue = []; timer = none; submitted = []; cancelled = 9 ∷ [] };
}

-- Fiber 1 takes the only permit, fiber 2 waits for it, and takes it behind a notification.
handing_on : CoSemaphore.Run 1 2 1 handed_on
unfolding CoSemaphore.pass CoSemaphore.notify notify wait insert take_first
handing_on =
    CoSemaphore.Run.wait_again
      (CoSemaphore.Run.notified (
        CoSemaphore.Run.wait (CoSemaphore.Run.wait CoSemaphore.Run.start 8 1 (λ e. cc) refl) 9 2
          (λ e. cc) refl))
      [] 5 2 [] (λ e. cc) refl refl

run-Balanced_example : Balanced 1 2 1 handed_on
run-Balanced_example = run-Balanced (omega arith) handing_on
