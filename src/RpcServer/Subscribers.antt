-- ===== src/RpcServer/Subscribers.antt =====
-- Publications of include/rpc/rpc_server.h, from the server to the callbacks of
-- src/rpc/rpc_client.cc, on little-endian hosts.
use async_rpc.Base.{ℕ, ◌<◌, ◌^◌, ◌≡◌, refl, sym, ◌∙◌, arith, Bool, true, false}
use async_rpc.Base.{List, [], ◌∷◌, ◌++◌, length, some, ok, >>=_assoc}
use async_rpc.Base.{Holds, Holds-here, inl, inr, Bool-cases, if_true, if_false}
use async_rpc.Base.Dict.{Dict, text_key, find, same, equal_range}
use async_rpc.ByteArray.{ByteArray, to_string}
use async_rpc.ByteArray.View.{Left}
use async_rpc.ByteArray.Stream.{>>=-Writes}
use async_rpc.Codec.{little}
use async_rpc.Codec.Text.{vint_bytes}
use async_rpc.Protocol.{Protocol, create, rpc_publish_request, rpc_publish_response}
use async_rpc.Serializer.{Serial, reset}
use async_rpc.Serializer.Content.{from_content-Left, to_string-reset}
use async_rpc.Serializer.Laws.{Lawful, string-Lawful}
use async_rpc.RpcServer.{publish, publish_content, send_all}
use async_rpc.RpcClient.{RpcClient, push, receive, handle_publish}

module _ {Session : Type 0} (connected : Session → Bool) (request : Protocol) where
  send_all-first :
      (s : Session) (cs : List Session)
      → connected s ≡ true
      → send_all connected request (s ∷ cs) ≡ (s, request) ∷ send_all connected request cs
  unfolding send_all
  send_all-first s cs up = if_true _ _ up

  send_all-equal_range :
      (key : List ℕ) (s : Session) (subscribes : Dict (List ℕ) Session)
      → find key subscribes ≡ some s
      → connected s ≡ true
      → Holds (s, request) (send_all connected request (equal_range key subscribes))
  unfolding find equal_range
  send_all-equal_range key s [] h up = cc
  send_all-equal_range key s ((j, w) ∷ d) h up = elim (Bool-cases (same j key)) [
    | inl e ↦
        let first : w ≡ s = ground arith in
        rw (e, first, send_all-first s (equal_range key d) up) (Holds-here _)
    | inr e ↦ rw e (send_all-equal_range key s d (sym (if_false _ _ e) ∙ h) up)
  ]

module _ {T : Type 0} {t : Serial T} {F : T → Type 0} {f : T → List ℕ} (l : Lawful t F f)
    (key : List ℕ) (x : T) (key_fits : length key < 2 ^ 64) (x_fits : F x) where
  pub publish_content_lem :
      (fresh : ℕ → ℕ) → publish_content little fresh t key x ≡ ok (vint_bytes key ++ f x)
  unfolding publish_content
  publish_content_lem fresh =
      sym (>>=_assoc _ reset to_string ∙ >>=_assoc _ (λ a. t.put a x) _)
      ∙ to_string-reset fresh
          (>>=-Writes (λ a. t.put a x) (string-Lawful.writes key key_fits) (l.writes x x_fits))

  -- For a payload with lawful operators that fits, a key below 2^64 bytes, and a session that is
  -- connected and stands in the table of subscribers under the key: publish succeeds, and the
  -- message of the key and the payload is sent to that session.
  publish-Holds :
      {Session : Type 0} (connected : Session → Bool) (fresh : ℕ → ℕ)
      (subscribes : Dict (List ℕ) Session) (s : Session)
      → find key subscribes ≡ some s
      → connected s ≡ true
      → (sends : List (Session × Protocol)) × (publish little fresh connected t subscribes key x
          ≡ ok sends)
        × Holds (s, create rpc_publish_request (vint_bytes key ++ f x) 0) sends
  unfolding publish find
  publish-Holds connected fresh [] s h up = cc
  publish-Holds connected fresh (entry ∷ rest) s h up = (
    send_all connected (create rpc_publish_request (vint_bytes key ++ f x) 0)
        (equal_range key (entry ∷ rest)),
    rw (publish_content_lem fresh) refl,
    send_all-equal_range connected _ key s (entry ∷ rest) h up,
  )

  -- On little-endian hosts, for a payload with lawful operators that fits, a key below 2^64 bytes,
  -- a session that is connected and stands first in the table of subscribers under the key, and a
  -- client with a callback for the key: publish succeeds and sends that session a message on which
  -- the client runs the callback, with a serializer that has exactly the bytes of the payload
  -- left.
  pub receive-publish :
      {Session Callback : Type 0} (connected : Session → Bool) (fresh fresh' : ℕ → ℕ)
      (subscribes : Dict (List ℕ) Session) (client : Session) (c : RpcClient Callback)
      (func : Callback)
      → find key subscribes ≡ some client
      → connected client ≡ true
      → find key c.subscribe_map ≡ some func
      → (sends : List (Session × Protocol)) × (message : Protocol) × (s : ByteArray)
        × (c' : RpcClient Callback) × (publish little fresh connected t subscribes key x ≡ ok sends)
        × Holds (client, message) sends
        × (receive little fresh' c (some message) ≡ ok (c', some (func, s)))
        × Left s (f x)
  unfolding receive handle_publish create
  receive-publish connected fresh fresh' subscribes client c func there up h =
      let (sends, published, held) = publish-Holds connected fresh subscribes client there up in
      let (b, made, w) = from_content-Left fresh' (vint_bytes key ++ f x) in
      let (s, got, w') = (string-Lawful.reads key key_fits).run b (f x) w in
      (
        sends,
        create rpc_publish_request (vint_bytes key ++ f x) 0,
        s,
        record c { is_heartclose = false; outgoing = push c (create rpc_publish_response [] 0) },
        published,
        held,
        rw (made, got, h) refl,
        w',
      )
