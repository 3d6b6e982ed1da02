-- ===== src/Tests/Rpc.antt =====
-- The theorems on the server, the client, the registry, addresses and events at concrete inputs.
use native.Mathlib.Decide.{ℕ_discrete}
use async_rpc.Base.{ℕ, ◌^◌, ◌+◌, ◌%◌, arith, true, false, ◌≡◌, refl}
use async_rpc.Base.{List, [], ◌∷◌, ◌++◌, set, Holds, none, some, ok, err, null_pointer}
use async_rpc.Base.Dict.{find, find-here, equal_range-here, equal_range, text_key, number_key}
use async_rpc.ByteArray.{ByteArray}
use async_rpc.ByteArray.View.{Left}
use async_rpc.Codec.{little}
use async_rpc.Codec.Varint.{groups}
use async_rpc.Codec.Text.{vint_bytes}
use async_rpc.Protocol.{
  Protocol, create, rpc_method_response, rpc_service_register, rpc_service_discover,
}
use async_rpc.RpcResult.{RpcState}
use async_rpc.ConnectionPool.{known, address_change, discover_result}
use async_rpc.ConnectionPool.Discover.{address_change_lem, discover_result-handle_service_discover}
use async_rpc.Serializer.{uint32}
use async_rpc.Serializer.Laws.{uint32-Lawful}
use async_rpc.RpcServer.{register_method, proxy, handle_method_call}
use async_rpc.RpcServer.Subscribers.{receive-publish}
use async_rpc.RpcClient.{
  RpcClient, call_content, call_begin, receive, call_end, call_result, handle_method_response,
  close, deliver,
}
use async_rpc.RpcClient.Calls.{call_request, call_response}
use async_rpc.RpcClient.Remote.{remote_call}
use async_rpc.RpcClient.Ids.{Routed, call_begin-handle_method_response, close_lem, receive-Routed}
use async_rpc.IoManager.{FdContext, EventContext, blank, get_event_context, task_of, chosen, read}
use async_rpc.IoManager.Events.{IoManager, Caller, add_event, cancel_event}
use async_rpc.IoManager.Context.{idle, Consistent, consistent, registered}
use async_rpc.IoManager.Register.{IsValid, one_more, none_left, add_event-IsValid}
use async_rpc.IoManager.Wakeup.{cancel_event-add_event, add_event-refused}
use async_rpc.Base.{◌==◌, if◌then◌else◌}
use async_rpc.CoMutex.{
  outside, testing, queueing, asleep, acquired, inside, CoMutex, Step, Run, stay, step, move,
  new_mutex,
}
use async_rpc.CoMutex.Exclusion.{Exclusive, run-Exclusive, lost_wakeup}
use async_rpc.Address.{ipv4, insert, dotted, decimal, endian_cast}
use async_rpc.Address.Ipv6.{ipv6, get_port}
use async_rpc.Address.Lookup.{split_host, split_host-insert}
use async_rpc.Address.Ports.{get_port-ipv6}
use async_rpc.Registry.{Registry, addresses, handle_service_register, handle_service_discover}
use async_rpc.Registry.Services
use async_rpc.Base.{Holds, ap, length}
use async_rpc.RpcServer.{publish}
use async_rpc.Base.Dict.{Dict}
use async_rpc.Registry.Providers.{handle_service_register-IsValid}

-- A client with no calls, one with a call of id 3 on channel 9, and one that subscribes to "k".
abbrev idle_client : RpcClient ℕ
idle_client = record {
  sequence_id = 0;
  response_handle = [];
  outgoing = [];
  delivered = [];
  is_closed = false;
  is_heartclose = false;
  subscribe_map = [];
}

abbrev calling_client : RpcClient ℕ
calling_client = record idle_client { sequence_id = 4; response_handle = (3, 9) ∷ [] }

abbrev listening_client : RpcClient ℕ
listening_client = record idle_client { subscribe_map = (107 ∷ [], 5) ∷ [] }

-- Fiber 1 has locked a new mutex and not returned yet, and fiber 1 holds one that fiber 2 tried.
abbrev just_acquired : CoMutex
just_acquired = record (new_mutex 0) {
  locked = true;
  place = move 1 acquired (move 1 testing (λ f. outside));
}

abbrev first_run : Run (new_mutex 0) just_acquired
first_run =
    step 1 (λ e. cc) (step 1 (λ e. cc) stay (Step.enter refl (λ e. cc)))
      (Step.test_succeeds refl refl)

abbrev tried : CoMutex
tried = record {
  locked = true;
  fiber_id = 1;
  wait_queue = [];
  submitted = [];
  place = λ f. if f == 1 then inside else queueing;
}

abbrev zeros : ℕ → ℕ
zeros i = 0

abbrev zero_heap : ℕ → ℕ → ℕ
zero_heap k i = 0

abbrev answer : Protocol
answer = create rpc_method_response (0 ∷ 1 ∷ []) 3

-- A descriptor without events, and one that waits for a read.
abbrev still : FdContext
still = record { fd = 0; events = 0; read = blank; write = blank }

abbrev still_manager : IoManager
still_manager = record { contexts = still ∷ []; pending = 0; calls = []; submitted = [] }

still-Consistent : Consistent still 0
still-Consistent = consistent idle idle

still_manager-IsValid : IsValid still_manager
still_manager-IsValid = record {
  count = 0;
  all = one_more (consistent idle idle) none_left;
  counted = refl;
}

abbrev thread : Caller
thread = record { scheduler = 2; fiber = 6; executing = true }

-- A registry in which address "a" provides service "s".
abbrev one_service : Registry ℕ
one_service = record {
  services = (0, (115 ∷ [], 97 ∷ [])) ∷ [];
  next_entry = 1;
  iters = (97 ∷ [], 0 ∷ []) ∷ [];
  subscribes = [];
}

abbrev provider : List ℕ
provider = 97 ∷ []

abbrev service : List ℕ
service = 115 ∷ []

provided : addresses service one_service.services ≡ provider ∷ []
unfolding addresses equal_range
provided = equal_range-here service provider []

abbrev no_service : Registry ℕ
no_service = record { services = []; next_entry = 0; iters = []; subscribes = [] }

no_service-IsValid : Services.IsValid no_service
unfolding find
no_service-IsValid = record { agree = λ a. refl; distinct = tt; below = tt }

remote_call_example :
    (c₁ c₂ c₃ : RpcClient ℕ) × (call_content little zeros (uint32 little) (97 ∷ []) 5
      ≡ ok (vint_bytes (97 ∷ []) ++ groups 4 5))
    × (call_begin true idle_client 1 (vint_bytes (97 ∷ []) ++ groups 4 5)
        ≡ some (idle_client.sequence_id, c₁))
    × (c₁.outgoing
        ≡ idle_client.outgoing ++ call_request (97 ∷ []) (groups 4 5) idle_client.sequence_id ∷ [])
    × (handle_method_call little zero_heap
          (register_method []
            (97 ∷ [])
            (proxy little zero_heap (uint32 little) (uint32 little) (λ n. ok (n + 1))))
          (call_request (97 ∷ []) (groups 4 5) idle_client.sequence_id)
        ≡ ok (call_response (groups 4 6) idle_client.sequence_id))
    × (receive little zeros c₁ (some (call_response (groups 4 6) idle_client.sequence_id))
        ≡ ok (c₂, none))
    × (c₂.delivered
        ≡ idle_client.delivered
          ++ (1, some (call_response (groups 4 6) idle_client.sequence_id)) ∷ [])
    × (call_end c₂ idle_client.sequence_id ≡ ok c₃)
    × (c₃.response_handle ≡ idle_client.response_handle)
    × (call_result little zeros
          (uint32 little)
          RpcState.rpc_fail
          0
          (some (some (call_response (groups 4 6) idle_client.sequence_id)))
        ≡ ok (record { code = RpcState.rpc_fail; msg = []; val = 6 }))
unfolding find
remote_call_example =
    remote_call uint32-Lawful uint32-Lawful zeros zero_heap [] (97 ∷ []) (omega arith) idle_client 1
      refl refl RpcState.rpc_fail 0 (λ n. ok (n + 1)) 5 6 (omega arith) (omega arith) refl

call_begin-handle_method_response_example :
    (c' : RpcClient ℕ) × (call_begin true (handle_method_response calling_client answer) 10 (0 ∷ [])
      ≡ some (answer.sequence_id, c'))
    × (c'.response_handle ≡ calling_client.response_handle)
unfolding create
call_begin-handle_method_response_example =
    call_begin-handle_method_response calling_client answer 9 10 (0 ∷ []) (find-here 3 9 [])

close_lem_example :
    Holds (9, none) (close calling_client).delivered
    × ((close calling_client).response_handle ≡ [])
    × (call_end (close calling_client) 3 ≡ ok (close calling_client))
    × (receive little zeros calling_client none ≡ ok (close calling_client, none))
    × (close (close calling_client) ≡ close calling_client)
close_lem_example = close_lem calling_client little zeros 3 9 refl (find-here 3 9 [])

receive-Routed_example :
    Routed calling_client
      (record calling_client { sequence_id = 3; delivered = (9, some answer) ∷ [] })
      answer
unfolding receive handle_method_response deliver find create number_key ℕ_discrete
receive-Routed_example =
    receive-Routed calling_client little zeros answer
      (record calling_client { sequence_id = 3; delivered = (9, some answer) ∷ [] }) none refl

abbrev one_subscriber : Dict (List ℕ) ℕ
one_subscriber = (107 ∷ [], 7) ∷ []

receive-publish_example :
    (sends : List (ℕ × Protocol)) × (message : Protocol) × (s : ByteArray) × (c' : RpcClient ℕ)
    × (publish little zeros (λ n. true) (uint32 little) one_subscriber (107 ∷ []) 5 ≡ ok sends)
    × Holds (7, message) sends
    × (receive little zeros listening_client (some message) ≡ ok (c', some (5, s)))
    × Left s (groups 4 5)
receive-publish_example =
    receive-publish uint32-Lawful (107 ∷ []) 5 (omega arith) (omega arith) (λ n. true) zeros zeros
      one_subscriber 7 listening_client 5 (find-here (107 ∷ []) 7 []) refl
      (find-here (107 ∷ []) 5 [])

add_event-IsValid_example :
    (m' : IoManager) × (c' : FdContext) × (e : EventContext) × (add_event true thread still_manager
        0 read
        (some 8)
      ≡ ok (true, m'))
    × (m'.contexts ≡ set still_manager.contexts 0 c')
    × (m'.pending ≡ (still_manager.pending + 1) % 2 ^ 64)
    × (m'.submitted ≡ still_manager.submitted)
    × (get_event_context c' read ≡ ok e)
    × (e.scheduler ≡ some thread.scheduler)
    × (task_of e ≡ chosen (some 8) (some thread.fiber))
    × (registered c' read ≡ true)
    × IsValid m'
add_event-IsValid_example =
    add_event-IsValid still_manager-IsValid 0 still refl read (λ e. cc) thread (some 8) refl refl

cancel_event-add_event_example :
    (m₁ m₂ : IoManager) × (add_event true thread still_manager 0 read (some 8) ≡ ok (true, m₁))
    × (cancel_event true m₁ 0 read ≡ ok (true, m₂))
    × (m₂.submitted
        ≡ still_manager.submitted ++ (thread.scheduler, chosen (some 8) (some thread.fiber)) ∷ [])
    × (m₂.pending ≡ still_manager.pending)
    × IsValid m₂
cancel_event-add_event_example =
    cancel_event-add_event still_manager-IsValid 0 still refl read (λ e. cc) thread (some 8) refl
      refl

add_event-refused_example :
    (m' : IoManager) × (add_event false thread still_manager 0 read (some 8) ≡ ok (false, m'))
    × (m'.pending ≡ still_manager.pending)
    × (cancel_event true m' 0 read ≡ err null_pointer)
    × (m'' : IoManager) × (cancel_event false m' 0 read ≡ ok (false, m''))
    × (m''.contexts ≡ m'.contexts)
    × (m''.pending ≡ still_manager.pending)
add_event-refused_example =
    add_event-refused still_manager 0 still 0 read thread (some 8) refl still-Consistent (λ e. cc)
      refl

split_host-insert_example : split_host (insert little (ipv4 little 3232235853 8080)) ≡ (
  dotted (endian_cast little 4 (ipv4 little 3232235853 8080).addr),
  some (decimal 4 (endian_cast little 2 (ipv4 little 3232235853 8080).port)),
)
split_host-insert_example = split_host-insert little (ipv4 little 3232235853 8080)

get_port-ipv6_example : get_port little (ipv6 little (1 ∷ []) 8080) ≡ 0
get_port-ipv6_example = get_port-ipv6 (1 ∷ []) 8080 (omega arith)

handle_service_register-IsValid_example :
    (r' : Registry ℕ) × (response : Protocol) × (sends : List (ℕ × Protocol))
    × (handle_service_register little zeros
          (λ n. true)
          no_service
          (create rpc_service_register (115 ∷ []) 0)
          (some (97 ∷ []))
        ≡ ok (r', response, sends))
    × (addresses (create rpc_service_register (115 ∷ []) 0).content r'.services
        ≡ addresses (create rpc_service_register (115 ∷ []) 0).content no_service.services
          ++ (97 ∷ []) ∷ [])
    × Services.IsValid r'
unfolding create
handle_service_register-IsValid_example =
    handle_service_register-IsValid (λ n. true) zeros no_service-IsValid (97 ∷ []) (omega arith)
      (create rpc_service_register (115 ∷ []) 0) (omega arith)

discover_result-handle_service_discover_example :
    (response : Protocol) × (handle_service_discover little zeros one_service
        (create rpc_service_discover service 0)
      ≡ ok response)
    × (discover_result little zeros (λ n. RpcState.rpc_success) (some response)
        ≡ ok (addresses service one_service.services))
unfolding create
discover_result-handle_service_discover_example =
    discover_result-handle_service_discover (λ n. RpcState.rpc_success) (λ n. refl) zeros zeros
      one_service service (create rpc_service_discover service 0) provider [] (omega arith) refl
      provided (omega arith) (omega arith, tt)

abbrev two_known : Dict (List ℕ) (List (List ℕ))
two_known = (service, (98 ∷ 98 ∷ []) ∷ provider ∷ []) ∷ []

address_change_lem_example :
    (known (find service (address_change service false provider two_known))
      ≡ known (find service two_known) ++ provider ∷ [])
    × (known (find service (address_change service true provider two_known)) ≡ (98 ∷ 98 ∷ []) ∷ [])
address_change_lem_example =
    address_change_lem service provider ((98 ∷ 98 ∷ []) ∷ []) [] two_known
      ((λ e. omega (arith, ap length e)), tt)
      (ap known (find-here service ((98 ∷ 98 ∷ []) ∷ provider ∷ []) []))

run-Exclusive_example : Exclusive just_acquired
run-Exclusive_example = run-Exclusive first_run ((tt, tt), tt)

lost_wakeup_example :
    (m' : CoMutex) × Run tried m'
    × (m'.locked ≡ false)
    × (m'.place 2 ≡ asleep)
    × (m'.submitted ≡ [])
    × ((m'' : CoMutex) → Step 2 m' m'' → ⊥)
lost_wakeup_example = lost_wakeup tried 1 2 (λ e. cc) (λ e. cc) (λ e. cc) refl refl refl refl
