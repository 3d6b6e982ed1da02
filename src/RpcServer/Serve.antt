-- ===== src/RpcServer/Serve.antt =====
-- handleClient of src/rpc/rpc_server.cc: the loop over the requests of one session.
use async_rpc.Base.{
  ℕ, if◌then◌else◌, ◌==◌, List, [], ◌∷◌, ◌++◌, Option, none, some, Result, ok, ◌>>=◌,
}
use async_rpc.Base.Dict.{Dict}
use async_rpc.Codec.{Endian}
use async_rpc.Protocol.{
  Protocol, heart_beat, msg_code, heartbeat_packet, rpc_method_request, rpc_subscribe_request,
  rpc_publish_response,
}
use async_rpc.RpcServer.{Method, handle_method_call, handle_subscribe}

-- The tables of the server that a request reads or changes.
pub record RpcServer (Session : Type 0) : Type 0 where
  pub services : Dict (List ℕ) Method
  pub subscribes : Dict (List ℕ) Session

-- What the loop does that others see: `update` starts the session's timer again, and a response is
-- sent.
pub data Event : Type 0 where
  restart_timer : Event
  respond : Protocol → Event

-- How an iteration goes on: with a response or none, or out of the loop.
pub data Outcome : Type 0 where
  proceed : Option Protocol → Outcome
  leave : Outcome

abbrev pub sent : Option Protocol → List Event
sent none = []
sent (some p) = respond p ∷ []

unfoldable pub handle_heart_beat_packet : Protocol → Protocol
handle_heart_beat_packet request = heart_beat

module _ {Session : Type 0} (host : Endian) (heap : ℕ → ℕ → ℕ) (byte : ℕ) (session : Session) where
  -- The switch; a type that no case names is logged.
  unfoldable pub dispatch : RpcServer Session → Protocol → Result (RpcServer Session × Outcome)
  dispatch server request =
      let method = do
        response ← handle_method_call host heap server.services request
        ok (server, proceed (some response))
      in let subscription = do
        (subscribes, response) ← handle_subscribe host heap byte server.subscribes request session
        ok (record server { subscribes = subscribes }, proceed (some response))
        in if request.type == msg_code heartbeat_packet
          then ok (server, proceed (some (handle_heart_beat_packet request)))
          else if request.type == msg_code rpc_method_request
          then method
          else if request.type == msg_code rpc_subscribe_request
          then subscription
          else if request.type == msg_code rpc_publish_response
          then ok (server, leave)
          else ok (server, proceed none)

  -- What an iteration does behind the switch; `rest` is the loop from there on.
  unfoldable pub finish :
      RpcServer Session
      → Outcome
      → Result (RpcServer Session × List Event)
      → Result (RpcServer Session × List Event)
  finish server leave rest = ok (server, restart_timer ∷ [])
  finish server (proceed response) rest = do
    (server', events) ← rest
    ok (server', restart_timer ∷ sent response ++ events)

  -- The loop on what recvRequest returns, `none` for a null pointer: the server behind it and its
  -- events. At the end of the list the loop waits for the next request.
  unfoldable pub serve :
      RpcServer Session → List (Option Protocol) → Result (RpcServer Session × List Event)
  serve server [] = ok (server, [])
  serve server (none ∷ requests) = ok (server, [])
  serve server (some request ∷ requests) = do
    (server', outcome) ← dispatch server request
    finish server' outcome (serve server' requests)

  -- handleClient starts the timer before the loop.
  unfoldable pub handle_client :
      RpcServer Session → List (Option Protocol) → Result (RpcServer Session × List Event)
  handle_client server requests = do
    (server', events) ← serve server requests
    ok (server', restart_timer ∷ events)
