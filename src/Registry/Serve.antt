-- ===== src/Registry/Serve.antt =====
-- handleClient of src/rpc/rpc_service_registry.cc: the loop over the requests of one session.
use async_rpc.Base.{
  ℕ, if◌then◌else◌, ◌==◌, Bool, List, [], ◌∷◌, ◌++◌, map, Option, none, some, Result, ok, ◌>>=◌,
}
use async_rpc.Codec.{Endian}
use async_rpc.Protocol.{
  Protocol, heart_beat, msg_code, heartbeat_packet, rpc_provider, rpc_service_register,
  rpc_service_discover, rpc_subscribe_request,
}
use async_rpc.Address.{Ipv4Address, insert}
use async_rpc.Registry.{
  Registry, handle_provider, handle_service_register, handle_service_discover, handle_subscribe,
  handle_unregister_service,
}

-- What the loop does that others see: `update` starts the session's timer again, a response is sent
-- on the session, and a publication on that of a subscriber.
pub data Event (Session : Type 0) : Type 0 where
  restart_timer : Event Session
  respond : Protocol → Event Session
  publish_to : Session × Protocol → Event Session

unfoldable pub handle_heart_beat_packet : Protocol → Protocol
handle_heart_beat_packet request = heart_beat

abbrev address_text : Endian → Option Ipv4Address → Option (List ℕ)
address_text host none = none
address_text host (some a) = some (insert host a)

-- `fresh` is the memory of the serializers.
module _ {Session : Type 0} (host : Endian) (fresh : ℕ → ℕ) (connected : Session → Bool) (byte : ℕ)
    (session : Session) (remote : Ipv4Address) where
  -- The switch, on the registry and the provider's address: both behind it, and the events.
  unfoldable pub dispatch :
      Registry Session
      → Option Ipv4Address
      → Protocol
      → Result (Registry Session × Option Ipv4Address × List (Event Session))
  dispatch r provider request =
      let provide = do address ← handle_provider host fresh request remote; ok (r, some address, [])
      in let registration = do
        (r', response, sends) ←
            handle_service_register host fresh connected r request (address_text host provider)
        ok (r', provider, map publish_to sends ++ respond response ∷ [])
        in let discovery = do
          response ← handle_service_discover host fresh r request
          ok (r, provider, respond response ∷ [])
          in let subscription = do
            (r', response) ← handle_subscribe host fresh byte r request session
            ok (r', provider, respond response ∷ [])
            in if request.type == msg_code heartbeat_packet
              then ok (r, provider, respond (handle_heart_beat_packet request) ∷ [])
              else if request.type == msg_code rpc_provider
              then provide
              else if request.type == msg_code rpc_service_register
              then registration
              else if request.type == msg_code rpc_service_discover
              then discovery
              else if request.type == msg_code rpc_subscribe_request
              then subscription
              else ok (r, provider, [])

  -- The null request: a provider's services go.
  unfoldable pub disconnect :
      Registry Session → Option Ipv4Address → Result (Registry Session × List (Event Session))
  disconnect r none = ok (r, [])
  disconnect r (some address) = do
    r' ← handle_unregister_service r (insert host address)
    ok (r', [])

  -- The loop on what recvRequest returns, `none` for a null pointer.
  unfoldable pub serve :
      Registry Session
      → Option Ipv4Address
      → List (Option Protocol)
      → Result (Registry Session × List (Event Session))
  serve r provider [] = ok (r, [])
  serve r provider (none ∷ requests) = disconnect r provider
  serve r provider (some request ∷ requests) = do
    (r', provider', events) ← dispatch r provider request
    (r'', events') ← serve r' provider' requests
    ok (r'', restart_timer ∷ events ++ events')

  unfoldable pub handle_client :
      Registry Session → List (Option Protocol) → Result (Registry Session × List (Event Session))
  handle_client r requests = do
    (r', events) ← serve r none requests
    ok (r', restart_timer ∷ events)
