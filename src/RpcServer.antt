-- ===== src/RpcServer.antt =====
-- src/rpc/rpc_server.cc and include/rpc/rpc_server.h: the functions that clients call by name, and
-- the sessions that subscribe to keys.
pub mod Methods
pub mod Serve
pub mod Subscribers
use async_rpc.Base.{ℕ, Bool, true, false, if◌then◌else◌, ◌==◌, List, [], ◌∷◌, map}
use async_rpc.Base.{Option, none, some, Result, ok, err, ◌>>=◌, Error, out_of_range}
use async_rpc.Base.Dict.{Dict, text_key, find, assign, emplace, equal_range}
use async_rpc.ByteArray.{ByteArray, make, to_string}
use async_rpc.Codec.{Endian}
use async_rpc.Protocol.{
  Protocol, create, heart_beat, default_size, msg_code, heartbeat_packet, rpc_method_request,
  rpc_method_response, rpc_subscribe_request, rpc_subscribe_response, rpc_publish_request,
  rpc_publish_response,
}
use async_rpc.RpcResult.{RpcResult, rpc_success, rpc_args_not_match, put_result, success}
use async_rpc.Serializer.{Serial, string, uint8, from_content, reset}

-- std::function<void(Serializer, std::string)>: from the serializer of the reply and the bytes of
-- the arguments to the serializer behind the write; copies of a serializer share its buffer.
abbrev pub Method : Type 0
Method = ByteArray → List ℕ → Result ByteArray

-- "args not match"
abbrev pub args_not_match : List ℕ
args_not_match = 97 ∷ 114 ∷ 103 ∷ 115 ∷ 32 ∷ 110 ∷ 111 ∷ 116 ∷ 32 ∷ 109 ∷ 97 ∷ 116 ∷ 99 ∷ 104 ∷ []

-- registerMethod
unfoldable pub register_method : Dict (List ℕ) Method → List ℕ → Method → Dict (List ℕ) Method
register_method services name m = assign name m services

-- What `call` does when the lookup is done.
unfoldable pub run_method : Option Method → List ℕ → ByteArray → Result ByteArray
run_method none args res = ok res
run_method (some m) args res = do res' ← m res args; reset res'

-- `heap k` is what new memory holds for the k-th serializer that a request makes.
unfoldable pub call : (ℕ → ℕ → ℕ) → Dict (List ℕ) Method → List ℕ → List ℕ → Result ByteArray
call heap services name args = run_method (find name services) args (make (heap 1) default_size)

-- Result<>: its value is a byte that the constructor leaves as it was.
unfoldable pub acknowledge : Endian → ℕ → ByteArray → Result (List ℕ)
acknowledge host byte s = do
  s' ← reset s
  s'' ← put_result host (uint8 host) s' (success byte)
  to_string s''

module _ (host : Endian) (heap : ℕ → ℕ → ℕ) where
  -- What proxy does behind `s >> args`: the catch clause takes the one exception that reading
  -- throws, and the other errors end the run. `f` is the registered function on its tuple of
  -- arguments.
  unfoldable pub reply :
      {A R : Type 0}
      → Serial R
      → (A → Result R)
      → ByteArray
      → Result (A × ByteArray)
      → Result ByteArray
  reply t f serializer (ok (args, _)) = do
    rt ← f args
    put_result host t serializer (record { code = rpc_success; msg = []; val = rt })
  reply t f serializer (err Error.out_of_range) =
      put_result host t serializer
        (record { code = rpc_args_not_match; msg = args_not_match; val = t.initial })
  reply t f serializer (err how) = err how

  unfoldable pub proxy : {A R : Type 0} → Serial A → Serial R → (A → Result R) → Method
  proxy s t f serializer arg = do
    a ← from_content (heap 2) arg
    reply t f serializer (s.get s.initial a)

  unfoldable pub handle_method_call : Dict (List ℕ) Method → Protocol → Result Protocol
  handle_method_call services request = do
    s ← from_content (heap 0) request.content
    (name, s') ← (string host).get [] s
    args ← to_string s'
    rt ← call heap services name args
    content ← to_string rt
    ok (create rpc_method_response content request.sequence_id)

  module _ {Session : Type 0} where
    -- The subscription table has one session for a key.
    unfoldable pub handle_subscribe :
        ℕ → Dict (List ℕ) Session → Protocol → Session → Result (Dict (List ℕ) Session × Protocol)
    handle_subscribe byte subscribes request client = do
      s ← from_content (heap 0) request.content
      (key, s') ← (string host).get [] s
      content ← acknowledge host byte s'
      ok (emplace key client subscribes, create rpc_subscribe_response content request.sequence_id)

-- `connected` says that the weak pointer still leads to a session, and one that is connected.
module _ {Session : Type 0} (connected : Session → Bool) where
  -- The loop of `publish` over a range of sessions: whom the message is sent to.
  unfoldable pub send_all : Protocol → List Session → List (Session × Protocol)
  send_all request [] = []
  send_all request (c ∷ cs) =
      let rest = send_all request cs in if connected c then (c, request) ∷ rest else rest

  -- The loop that cleans the table, once.
  unfoldable pub clean : Dict (List ℕ) Session → Dict (List ℕ) Session
  clean [] = []
  clean ((key, c) ∷ subscribes) =
      let rest = clean subscribes in if connected c then (key, c) ∷ rest else rest

module _ (host : Endian) (fresh : ℕ → ℕ) where
  -- The content of a message that publishes `payload` under `key`.
  unfoldable pub publish_content : {T : Type 0} → Serial T → List ℕ → T → Result (List ℕ)
  publish_content t key payload = do
    s ← (string host).put (make fresh default_size) key
    s' ← t.put s payload
    s'' ← reset s'
    to_string s''

  module _ {Session : Type 0} (connected : Session → Bool) where
    unfoldable pub publish :
        {T : Type 0}
        → Serial T
        → Dict (List ℕ) Session
        → List ℕ
        → T
        → Result (List (Session × Protocol))
    publish t [] key payload = ok []
    publish t (entry ∷ rest) key payload = do
      content ← publish_content t key payload
      ok (
          send_all connected (create rpc_publish_request content 0)
            (equal_range key (entry ∷ rest)))
