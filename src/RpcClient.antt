-- ===== src/RpcClient.antt =====
-- src/rpc/rpc_client.cc and include/rpc/rpc_client.h: calls that wait for the response with their
-- sequence id, and callbacks for the keys that the client subscribes to.
pub mod Calls
pub mod Routing
pub mod Remote
pub mod Ids
use mathlib.Core.Option
use async_rpc.Base.{ℕ, ◌+◌, ◌%◌, ◌^◌, Bool, true, false, if◌then◌else◌, ◌==◌, ◌&&◌}
use async_rpc.Base.{List, [], ◌∷◌, ◌++◌, map, Option, none, some}
use async_rpc.Base.{Result, ok, err, ◌>>=◌, Error, out_of_range, bad_index}
use async_rpc.Base.Dict.{Dict, number_key, text_key, find, emplace, erase}
use async_rpc.ByteArray.{ByteArray, make, to_string}
use async_rpc.Codec.{Endian}
use async_rpc.Protocol.{
  Protocol, create, heart_beat, default_size, msg_code, rpc_method_request, rpc_method_response,
  rpc_subscribe_request, rpc_publish_request, rpc_publish_response,
}
use async_rpc.RpcResult.{
  RpcState, RpcResult, rpc_success, rpc_args_not_match, rpc_no_method, rpc_closed, rpc_timeout,
  get_result,
}
use async_rpc.Serializer.{Serial, string, from_content, reset}

-- The fields that the calls and the receiving fiber share, a call's channel by its identity.
-- `outgoing` is what channel_ has taken, and `delivered` what the channels of the calls have, each
-- in order; `none` is a null pointer. `Callback` is what the users of subscribe pass.
pub record RpcClient (Callback : Type 0) : Type 0 where
  pub sequence_id : ℕ
  pub response_handle : Dict ℕ ℕ
  pub outgoing : List Protocol
  pub delivered : List (ℕ × Option Protocol)
  pub is_closed : Bool
  pub is_heartclose : Bool
  pub subscribe_map : Dict (List ℕ) Callback

-- "socket closed", "call timeout", "method not find" and "return value not match"
abbrev pub socket_closed : List ℕ
socket_closed = 115 ∷ 111 ∷ 99 ∷ 107 ∷ 101 ∷ 116 ∷ 32 ∷ 99 ∷ 108 ∷ 111 ∷ 115 ∷ 101 ∷ 100 ∷ []

abbrev pub call_timeout : List ℕ
call_timeout = 99 ∷ 97 ∷ 108 ∷ 108 ∷ 32 ∷ 116 ∷ 105 ∷ 109 ∷ 101 ∷ 111 ∷ 117 ∷ 116 ∷ []

abbrev pub method_not_find : List ℕ
method_not_find =
    109 ∷ 101 ∷ 116 ∷ 104 ∷ 111 ∷ 100 ∷ 32 ∷ 110 ∷ 111 ∷ 116 ∷ 32 ∷ 102 ∷ 105 ∷ 110 ∷ 100 ∷ []

abbrev pub value_not_match : List ℕ
value_not_match =
    114 ∷ 101 ∷ 116 ∷ 117 ∷ 114 ∷ 110 ∷ 32 ∷ 118 ∷ 97 ∷ 108 ∷ 117 ∷ 101 ∷ 32 ∷ 110 ∷ 111 ∷ 116 ∷ 32
    ∷ 109 ∷ 97 ∷ 116 ∷ 99 ∷ 104 ∷ []

-- `channel_ << p`: close has closed the channel along with is_closed_.
abbrev pub push : {Callback : Type 0} → RpcClient Callback → Protocol → List Protocol
push c p = if c.is_closed then c.outgoing else c.outgoing ++ p ∷ []

module _ (host : Endian) where
  module _ (fresh : ℕ → ℕ) where
    -- call(name, ps...) and call(name): what the two serialise.
    unfoldable pub call_content : {A : Type 0} → Serial A → List ℕ → A → Result (List ℕ)
    call_content t name args = do
      s ← (string host).put (make fresh default_size) name
      s' ← t.put s args
      s'' ← reset s'
      to_string s''

    unfoldable pub name_content : List ℕ → Result (List ℕ)
    name_content name = do
      s ← (string host).put (make fresh default_size) name
      s' ← reset s
      to_string s'

    -- The catch clause around `seria >> val`. `left` is what the value holds when the reading stops
    -- half-way.
    unfoldable pub returned :
        {T : Type 0} → T → Result (RpcResult T × ByteArray) → Result (RpcResult T)
    returned left (ok (val, _)) = ok val
    returned left (err Error.out_of_range) =
        ok (record { code = rpc_args_not_match; msg = value_not_match; val = left })
    returned left (err how) = err how

    -- The end of `call`: what waitFor took from the channel, `none` if the time ran out, makes the
    -- result. `code` is what code_ held, which its constructor leaves as it was.
    unfoldable pub call_result :
        {T : Type 0} → Serial T → RpcState → T → Option (Option Protocol) → Result (RpcResult T)
    call_result t code left none =
        ok (record { code = rpc_timeout; msg = call_timeout; val = t.initial })
    call_result t code left (some none) =
        ok (record { code = rpc_closed; msg = socket_closed; val = t.initial })
    call_result t code left (some (some response)) =
        let decoded = do
          seria ← from_content fresh response.content
          returned left
              (get_result host t (record { code = code; msg = []; val = t.initial }) seria)
        in elim (response.content) [
          | [] ↦ ok (record { code = rpc_no_method; msg = method_not_find; val = t.initial })
          | _ ∷ _ ↦ decoded
        ]

-- What `call` returns when the session is gone.
unfoldable pub call_refused : {T : Type 0} → Serial T → RpcResult T
call_refused t = record { code = rpc_closed; msg = socket_closed; val = t.initial }

-- The loop of `close`: every channel takes a null pointer.
unfoldable pub wake_all : Dict ℕ ℕ → List (ℕ × Option Protocol)
wake_all [] = []
wake_all ((id, channel) ∷ waiting) = (channel, none) ∷ wake_all waiting

module _ {Callback : Type 0} where
  -- The start of `call`: the channel of the call is registered under the next id, unless the
  -- session is gone; the id, and the client with the request in channel_.
  unfoldable pub call_begin :
      Bool → RpcClient Callback → ℕ → List ℕ → Option (ℕ × RpcClient Callback)
  call_begin connected c channel content =
      if connected
      then some (
        c.sequence_id,
        record c {
          response_handle = emplace c.sequence_id channel c.response_handle;
          sequence_id = (c.sequence_id + 1) % 2 ^ 32;
          outgoing = push c (create rpc_method_request content c.sequence_id);
        },
      )
      else none

  -- Behind waitFor the entry goes by the iterator that emplace gave: undefined behaviour if the
  -- entry is gone already.
  unfoldable pub erase_entry : RpcClient Callback → ℕ → Option ℕ → Result (RpcClient Callback)
  erase_entry c id none = err bad_index
  erase_entry c id (some _) = ok (record c { response_handle = erase id c.response_handle })

  unfoldable pub call_end : RpcClient Callback → ℕ → Result (RpcClient Callback)
  call_end c id = if c.is_closed then ok c else erase_entry c id (find id c.response_handle)

  unfoldable pub close : RpcClient Callback → RpcClient Callback
  close c = if c.is_closed then c else record c {
    is_heartclose = true;
    is_closed = true;
    delivered = c.delivered ++ wake_all c.response_handle;
    response_handle = [];
  }

  -- `channel << response`, if there is a channel under the id.
  unfoldable pub deliver : RpcClient Callback → Protocol → Option ℕ → RpcClient Callback
  deliver c response none = c
  deliver c response (some channel) = record c {
    delivered = c.delivered ++ (channel, some response) ∷ [];
  }

  -- The sequence id of the response is stored in sequence_id_.
  unfoldable pub handle_method_response : RpcClient Callback → Protocol → RpcClient Callback
  handle_method_response c response =
      deliver (record c { sequence_id = response.sequence_id }) response
        (find response.sequence_id c.response_handle)

  -- subscribe, with the content that it serialises: a key that has a callback keeps it.
  unfoldable pub subscribe_found :
      RpcClient Callback → List ℕ → Callback → List ℕ → Option Callback → RpcClient Callback
  subscribe_found c key func content (some _) = c
  subscribe_found c key func content none = record c {
    subscribe_map = emplace key func c.subscribe_map;
    outgoing = push c (create rpc_subscribe_request content 0);
  }

  unfoldable pub subscribe : RpcClient Callback → List ℕ → Callback → List ℕ → RpcClient Callback
  subscribe c key func content = subscribe_found c key func content (find key c.subscribe_map)

  -- The timer of `connect`, each time it fires.
  unfoldable pub beat : RpcClient Callback → RpcClient Callback
  beat c =
      let c' = if c.is_heartclose then close c else c in
      record c' { outgoing = push c' heart_beat; is_heartclose = true }

  module _ (host : Endian) (fresh : ℕ → ℕ) where
    -- The callback that is run, and the serializer that it gets.
    unfoldable pub handle_publish :
        RpcClient Callback → Protocol → Result (Option (Callback × ByteArray))
    handle_publish c response = do
      s ← from_content fresh response.content
      (key, s') ← (string host).get [] s
      ok (Option.map (λ func. (func, s')) (find key c.subscribe_map))

    -- An iteration of handleRecv, on what recvRequest returns.
    unfoldable pub receive :
        RpcClient Callback
        → Option Protocol
        → Result (RpcClient Callback × Option (Callback × ByteArray))
    receive c none = ok (close c, none)
    receive c (some response) =
        let c' = record c { is_heartclose = false } in
        let publication = do
          run ← handle_publish c' response
          ok (record c' { outgoing = push c' (create rpc_publish_response [] 0) }, run)
        in if response.type == msg_code rpc_method_response
          then ok (handle_method_response c' response, none)
          else if response.type == msg_code rpc_publish_request
          then publication
          else ok (c', none)
