-- ===== src/RpcClient/Calls.antt =====
-- A call of include/rpc/rpc_client.h from its arguments to its result, through the server, on
-- little-endian hosts.
use async_rpc.Base.{
  ℕ, ◌+◌, ◌%◌, ◌<◌, ◌^◌, ◌≡◌, refl, sym, ap, ◌∙◌, arith, List, [], ◌∷◌, ◌++◌, length,
}
use async_rpc.Base.{some, none, ok, >>=_assoc, append-nil, subst, true, false}
use async_rpc.Base.Dict.{number_key, text_key, find, emplace, find-emplace_self, erase-emplace}
use async_rpc.ByteArray.{to_string}
use async_rpc.ByteArray.View.{Left}
use async_rpc.ByteArray.Stream.{>>=-Writes}
use async_rpc.Codec.{little}
use async_rpc.Codec.Text.{vint_bytes}
use async_rpc.Codec.Varint.{groups}
use async_rpc.Protocol.{Protocol, create, rpc_method_request, rpc_method_response}
use async_rpc.RpcResult.{RpcState, rpc_no_method}
use async_rpc.RpcResult.Wire.{get_result-Reads}
use async_rpc.Serializer.{Serial, reset}
use async_rpc.Serializer.Content.{from_content-Left, to_string-reset}
use async_rpc.Serializer.Laws.{Lawful, string-Lawful}
use async_rpc.RpcClient.Routing.{receive-response, handle_method_response-found, call_end-open}
use async_rpc.RpcClient.{
  RpcClient, call_begin, receive, call_end, call_content, call_result, returned, method_not_find,
}

module _ (fresh : ℕ → ℕ) where
  module _ {A : Type 0} {s : Serial A} {F : A → Type 0} {f : A → List ℕ} (l : Lawful s F f) where
    -- The content of a call is its name and its arguments.
    pub call_content_lem :
        (name : List ℕ) (x : A)
        → length name < 2 ^ 64
        → F x
        → call_content little fresh s name x ≡ ok (vint_bytes name ++ f x)
    unfolding call_content
    call_content_lem name x h hx =
        sym (>>=_assoc _ reset to_string ∙ >>=_assoc _ (λ a. s.put a x) _)
        ∙ to_string-reset fresh
            (>>=-Writes (λ a. s.put a x) (string-Lawful.writes name h) (l.writes x hx))

    pub call_result-success :
        (code : RpcState) (left y : A) (id : ℕ)
        → F y
        → call_result little fresh s code left
            (some (some (create rpc_method_response (vint_bytes [] ++ f y) id)))
          ≡ ok (record { code = code; msg = []; val = y })
    unfolding call_result create returned groups
    call_result-success code left y id hy =
        let (b, made, w) = from_content-Left fresh (vint_bytes [] ++ f y) in
        let (c, got, _) =
          (get_result-Reads l [] (omega arith) code [] y hy).run b []
            (subst (Left b) (sym (append-nil (vint_bytes [] ++ f y))) w) in
        rw (made, got) refl

  -- An empty content ends the call with RPC_NO_METHOD.
  pub call_result-unknown :
      {A : Type 0} (s : Serial A) (code : RpcState) (left : A) (id : ℕ)
      → call_result little fresh s code left (some (some (create rpc_method_response [] id)))
        ≡ ok (record { code = rpc_no_method; msg = method_not_find; val = s.initial })
  unfolding call_result create
  call_result-unknown s code left id = refl

-- The two messages of a call: of `name` on arguments with the bytes `args`, and what the server
-- sends for a value with the bytes `value`.
abbrev pub call_request : List ℕ → List ℕ → ℕ → Protocol
call_request name args id = create rpc_method_request (vint_bytes name ++ args) id

abbrev pub call_response : List ℕ → ℕ → Protocol
call_response value id = create rpc_method_response (vint_bytes [] ++ value) id

module _ {Callback : Type 0} (c : RpcClient Callback) (channel : ℕ) where
  -- The client between the start of a call and its response.
  abbrev pub waiting : List ℕ → RpcClient Callback
  waiting content = record c {
    response_handle = emplace c.sequence_id channel c.response_handle;
    sequence_id = (c.sequence_id + 1) % 2 ^ 32;
    outgoing = c.outgoing ++ create rpc_method_request content c.sequence_id ∷ [];
  }

  pub call_begin_lem :
      (content : List ℕ)
      → c.is_closed ≡ false
      → call_begin true c channel content ≡ some (c.sequence_id, waiting content)
  unfolding call_begin
  call_begin_lem content up = rw up refl

  -- The client with the response in the channel of the call.
  abbrev pub answered : List ℕ → Protocol → RpcClient Callback
  answered content response = record (waiting content) {
    sequence_id = c.sequence_id;
    is_heartclose = false;
    delivered = c.delivered ++ (channel, some response) ∷ [];
  }

  pub receive_lem :
      (fresh : ℕ → ℕ) (content value : List ℕ)
      → find c.sequence_id c.response_handle ≡ none
      → receive little fresh
          (waiting content)
          (some (create rpc_method_response value c.sequence_id))
        ≡ ok (answered content (create rpc_method_response value c.sequence_id), none)
  unfolding create
  receive_lem fresh content value new =
      receive-response little fresh (waiting content) value c.sequence_id
      ∙ ap (λ d. ok (d, none))
          (handle_method_response-found (record (waiting content) { is_heartclose = false })
            (create rpc_method_response value c.sequence_id) channel
            (find-emplace_self c.sequence_id channel c.response_handle new))

  pub call_end_lem :
      (content : List ℕ) (response : Protocol)
      → c.is_closed ≡ false
      → find c.sequence_id c.response_handle ≡ none
      → call_end (answered content response) c.sequence_id
        ≡ ok (record (answered content response) { response_handle = c.response_handle })
  call_end_lem content response up new =
      call_end-open (answered content response) c.sequence_id channel up
        (find-emplace_self c.sequence_id channel c.response_handle new)
      ∙ ap (λ d. ok (record (answered content response) { response_handle = d }))
          (erase-emplace c.sequence_id channel c.response_handle new)
