-- ===== src/RpcClient/Remote.antt =====
-- A call from RPCClient::call through RPCServer::handleMethodCall and back, on little-endian hosts.
use async_rpc.Base.{ℕ, ◌<◌, ◌^◌, ◌≡◌, refl, List, [], ◌∷◌, ◌++◌, length, some, none, Result, ok}
use async_rpc.Base.{true, false}
use async_rpc.Base.Dict.{Dict, number_key, text_key, find, find-assign_self}
use async_rpc.Codec.{little}
use async_rpc.Codec.Text.{vint_bytes}
use async_rpc.Protocol.{create, rpc_method_response}
use async_rpc.RpcResult.{RpcState, rpc_no_method}
use async_rpc.Serializer.{Serial}
use async_rpc.Serializer.Laws.{Lawful}
use async_rpc.RpcServer.{Method, register_method, proxy, handle_method_call}
use async_rpc.RpcServer.Methods.{handle_method_call-registered, handle_method_call-unknown}
use async_rpc.RpcClient.{
  RpcClient, call_content, call_begin, receive, call_end, call_result, method_not_find,
}
use async_rpc.RpcClient.Calls.{
  call_request, call_response, waiting, answered, call_content_lem, call_begin_lem, receive_lem,
  call_end_lem, call_result-success, call_result-unknown,
}

module _ {Callback A R : Type 0} {s : Serial A} {t : Serial R} {F : A → Type 0} {G : R → Type 0}
    {f : A → List ℕ} {g : R → List ℕ} (l : Lawful s F f) (m : Lawful t G g) (fresh : ℕ → ℕ)
    (heap : ℕ → ℕ → ℕ) (services : Dict (List ℕ) Method) (name : List ℕ)
    (name_fits : length name < 2 ^ 64) (c : RpcClient Callback) (channel : ℕ)
    (up : c.is_closed ≡ false) (new : find c.sequence_id c.response_handle ≡ none) (code : RpcState)
    (left : R) where
  -- On little-endian hosts, for argument and result types with lawful operators, a name below 2^64
  -- bytes, arguments and a result that fit, a function that returns the result on the arguments,
  -- and an open client whose next id has no waiting call: the client sends the name and arguments
  -- under that id; a server on which the function is registered answers under it; the client puts
  -- the answer into the channel of the call, and the call ends with the table of waiting calls as
  -- before and with the function's result as its value, though with the code that the new Result
  -- happened to hold.
  pub remote_call :
      (fun : A → Result R) (x : A) (y : R)
      → F x
      → G y
      → fun x ≡ ok y
      → (c₁ c₂ c₃ : RpcClient Callback) × (call_content little fresh s name x
          ≡ ok (vint_bytes name ++ f x))
        × (call_begin true c channel (vint_bytes name ++ f x) ≡ some (c.sequence_id, c₁))
        × (c₁.outgoing ≡ c.outgoing ++ call_request name (f x) c.sequence_id ∷ [])
        × (handle_method_call little heap
              (register_method services name (proxy little heap s t fun))
              (call_request name (f x) c.sequence_id)
            ≡ ok (call_response (g y) c.sequence_id))
        × (receive little fresh c₁ (some (call_response (g y) c.sequence_id)) ≡ ok (c₂, none))
        × (c₂.delivered ≡ c.delivered ++ (channel, some (call_response (g y) c.sequence_id)) ∷ [])
        × (call_end c₂ c.sequence_id ≡ ok c₃)
        × (c₃.response_handle ≡ c.response_handle)
        × (call_result little fresh t code left (some (some (call_response (g y) c.sequence_id)))
            ≡ ok (record { code = code; msg = []; val = y }))
  unfolding register_method create
  remote_call fun x y hx hy e =
      let content = vint_bytes name ++ f x in
      let response = call_response (g y) c.sequence_id in
      let served = answered c channel content response in
      (
        waiting c channel content,
        served,
        record served { response_handle = c.response_handle },
        call_content_lem fresh l name x name_fits hx,
        call_begin_lem c channel content up,
        refl,
        handle_method_call-registered heap l m _ name fun x y
            (call_request name (f x) c.sequence_id)
            (find-assign_self name (proxy little heap s t fun) services) name_fits hx hy e refl,
        receive_lem c channel fresh content (vint_bytes [] ++ g y) new,
        refl,
        call_end_lem c channel content response up new,
        refl,
        call_result-success fresh m code left y c.sequence_id hy,
      )

-- On little-endian hosts, for arguments with lawful operators that fit, a name below 2^64 bytes
-- that the server has no method for, and an open client whose next id has no waiting call: the
-- server answers with an empty content, which reaches the channel of the call, and the call ends
-- with RPC_NO_METHOD.
remote_call-unknown :
    {Callback A R : Type 0} {s : Serial A} (t : Serial R) {F : A → Type 0} {f : A → List ℕ}
    → Lawful s F f
    → (fresh : ℕ → ℕ) (heap : ℕ → ℕ → ℕ) (services : Dict (List ℕ) Method) (name : List ℕ) (x : A)
      (c : RpcClient Callback) (channel : ℕ) (code : RpcState) (left : R)
    → length name < 2 ^ 64
    → F x
    → c.is_closed ≡ false
    → find c.sequence_id c.response_handle ≡ none
    → find name services ≡ none
    → (c₁ c₂ : RpcClient Callback) × (call_begin true c channel (vint_bytes name ++ f x)
        ≡ some (c.sequence_id, c₁))
      × (call_content little fresh s name x ≡ ok (vint_bytes name ++ f x))
      × (handle_method_call little heap services (call_request name (f x) c.sequence_id)
          ≡ ok (create rpc_method_response [] c.sequence_id))
      × (receive little fresh c₁ (some (create rpc_method_response [] c.sequence_id))
          ≡ ok (c₂, none))
      × (c₂.delivered
          ≡ c.delivered ++ (channel, some (create rpc_method_response [] c.sequence_id)) ∷ [])
      × (call_result little fresh t code left
            (some (some (create rpc_method_response [] c.sequence_id)))
          ≡ ok (record { code = rpc_no_method; msg = method_not_find; val = t.initial }))
unfolding create
remote_call-unknown t {f = f} l fresh heap services name x c channel code left h hx up new gone =
    let content = vint_bytes name ++ f x in
    (
      waiting c channel content,
      answered c channel content (create rpc_method_response [] c.sequence_id),
      call_begin_lem c channel content up,
      call_content_lem fresh l name x h hx,
      handle_method_call-unknown heap services name (f x) (call_request name (f x) c.sequence_id)
          gone h refl,
      receive_lem c channel fresh content [] new,
      refl,
      call_result-unknown fresh t code left c.sequence_id,
    )
