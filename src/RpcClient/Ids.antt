-- ===== src/RpcClient/Ids.antt =====
-- What src/rpc/rpc_client.cc does to the table of waiting calls: ids, responses that match none, and
-- the end of the connection.
use async_rpc.Base.{
  ℕ, ◌≡◌, refl, sym, ap, ◌∙◌, ◌⊎◌, inl, inr, arith, true, false, if_true, if_false, Bool-cases,
  Option-cases,
}
use async_rpc.Base.{
  Holds, Holds-here, Holds-there, Holds-append, subst, ==_iff, List, [], ◌∷◌, ◌++◌, Option, none,
  some, Result, ok, >>=-eq-ok, ◌==◌,
}
use async_rpc.Base.Dict.{Dict, number_key, find, emplace_old, same}
use async_rpc.Codec.{Endian}
use async_rpc.ByteArray.{ByteArray}
use async_rpc.Protocol.{Protocol, msg_code, rpc_method_response, rpc_publish_request}
use async_rpc.RpcClient.{
  RpcClient, handle_method_response, receive, handle_publish, call_begin, close, wake_all, call_end,
}
use async_rpc.RpcClient.Routing.{handle_method_response-found, handle_method_response-missing}

module _ {Callback : Type 0} (c : RpcClient Callback) where
  -- When a response comes whose id has a waiting call, a call that is started right behind it,
  -- with the session connected, takes the same id again, and the table keeps the channel of the
  -- old call instead of the new one.
  pub call_begin-handle_method_response :
      (response : Protocol) (channel channel' : ℕ) (content : List ℕ)
      → find response.sequence_id c.response_handle ≡ some channel
      → (c' : RpcClient Callback) × (call_begin true
            (handle_method_response c response)
            channel'
            content
          ≡ some (response.sequence_id, c'))
        × (c'.response_handle ≡ c.response_handle)
  unfolding call_begin
  call_begin-handle_method_response response channel channel' content there =
      rw (handle_method_response-found c response channel there)
        (_, refl, emplace_old response.sequence_id channel' channel c.response_handle there)

wake_all-Holds :
    (d : Dict ℕ ℕ) (id channel : ℕ) → find id d ≡ some channel → Holds (channel, none) (wake_all d)
unfolding wake_all find
wake_all-Holds [] id channel h = cc
wake_all-Holds ((j, other) ∷ d) id channel h = elim (Bool-cases (same j id)) [
  | inl e ↦
      subst (λ o. Holds (channel, none) ((o, none) ∷ wake_all d)) (sym (ground arith))
        (Holds-here (wake_all d))
  | inr e ↦ Holds-there (other, none) (wake_all-Holds d id channel (ground arith))
]

ok-first :
    {A B : Type 0} (a b : A) (r s : B) → ◌≡◌ {A = Result (A × B)} (ok (a, r)) (ok (b, s)) → a ≡ b
ok-first a b r s e = cc

module _ {Callback : Type 0} (c : RpcClient Callback) where
  close_open :
      c.is_closed ≡ false
      → close c ≡ record c {
        is_heartclose = true;
        is_closed = true;
        delivered = c.delivered ++ wake_all c.response_handle;
        response_handle = [];
      }
  unfolding close
  close_open up = if_false c _ up

  -- Closing an open client gives a null pointer to the channel of any waiting call and empties the
  -- table; the end of such a call then leaves the client as it is, a failed receive does what
  -- close does, and a second close does nothing.
  pub close_lem :
      (host : Endian) (fresh : ℕ → ℕ) (id channel : ℕ)
      → c.is_closed ≡ false
      → find id c.response_handle ≡ some channel
      → Holds (channel, none) (close c).delivered
        × ((close c).response_handle ≡ [])
        × (call_end (close c) id ≡ ok (close c))
        × (receive host fresh c none ≡ ok (close c, none))
        × (close (close c) ≡ close c)
  unfolding receive call_end
  close_lem host fresh id channel up there = rw (close_open up) (
    Holds-append c.delivered (wake_all c.response_handle)
        (wake_all-Holds c.response_handle id channel there),
    refl,
    refl,
    refl,
    unfold close in refl,
  )

  -- What a step of the receiving fiber may add to the channels.
  abbrev pub Routed : RpcClient Callback → Protocol → Type 0
  Routed c' p =
      (c'.delivered ≡ c.delivered)
      ⊎ ((channel : ℕ) × (p.type ≡ msg_code rpc_method_response)
          × (find p.sequence_id c.response_handle ≡ some channel)
          × (c'.delivered ≡ c.delivered ++ (channel, some p) ∷ []))

  delivered-Routed :
      (p : Protocol)
      → p.type ≡ msg_code rpc_method_response
      → Routed (handle_method_response (record c { is_heartclose = false }) p) p
  delivered-Routed p e = elim (Option-cases (find p.sequence_id c.response_handle)) [
    | inl gone ↦ inl (
        ap (λ d. d.delivered)
          (handle_method_response-missing (record c { is_heartclose = false }) p gone))
    | inr (channel, there) ↦ inr (
      channel,
      e,
      there,
      ap (λ d. d.delivered)
          (handle_method_response-found (record c { is_heartclose = false }) p channel there),
    )
  ]

  -- When an iteration of handleRecv succeeds on a message, it adds nothing to the channels of the
  -- calls, or exactly the message, which is then a method response, to the channel that waits for
  -- its sequence id.
  pub receive-Routed :
      (host : Endian) (fresh : ℕ → ℕ) (p : Protocol) (c' : RpcClient Callback)
      (run : Option (Callback × ByteArray))
      → receive host fresh c (some p) ≡ ok (c', run)
      → Routed c' p
  unfolding receive
  receive-Routed host fresh p c' run h =
      elim (Bool-cases (p.type == msg_code rpc_method_response)) [
        | inl e ↦
            subst (λ d. Routed d p) (ok-first _ _ _ _ (sym (if_true _ _ e) ∙ h))
              (delivered-Routed p ((==_iff p.type (msg_code rpc_method_response)).0 e))
        | inr e ↦ elim (Bool-cases (p.type == msg_code rpc_publish_request)) [
          | inl e' ↦
              let (_, _, q) =
                >>=-eq-ok (handle_publish host fresh (record c { is_heartclose = false }) p) _
                  (sym (if_true _ _ e') ∙ (sym (if_false _ _ e) ∙ h)) in
              inl (sym (ap (λ d. d.delivered) (ok-first _ _ _ _ q)))
          | inr e' ↦ inl (
              sym (
                ap (λ d. d.delivered)
                  (ok-first _ _ _ _ (sym (if_false _ _ e') ∙ (sym (if_false _ _ e) ∙ h)))))
        ]
      ]
