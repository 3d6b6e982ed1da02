-- ===== src/RpcClient/Routing.antt =====
-- Where the responses of src/rpc/rpc_client.cc go: the equations of the receiving side.
use async_rpc.Base.{ℕ, ◌≡◌, refl, ap, ◌∙◌, false, if_false, List, [], ◌∷◌, ◌++◌, some, none, ok}
use async_rpc.Base.Dict.{number_key, find, erase}
use async_rpc.Codec.{Endian}
use async_rpc.Protocol.{Protocol, create, rpc_method_response}
use async_rpc.RpcClient.{deliver, RpcClient, receive, handle_method_response, call_end, erase_entry}

module _ {Callback : Type 0} (host : Endian) (fresh : ℕ → ℕ) (c : RpcClient Callback) where
  pub receive-response :
      (content : List ℕ) (id : ℕ)
      → receive host fresh c (some (create rpc_method_response content id))
        ≡ ok (
          handle_method_response
              (record c { is_heartclose = false })
              (create rpc_method_response content id),
          none,
        )
  unfolding receive create
  receive-response content id = refl

module _ {Callback : Type 0} (c : RpcClient Callback) where
  pub handle_method_response-found :
      (response : Protocol) (channel : ℕ)
      → find response.sequence_id c.response_handle ≡ some channel
      → handle_method_response c response ≡ record c {
        sequence_id = response.sequence_id;
        delivered = c.delivered ++ (channel, some response) ∷ [];
      }
  unfolding handle_method_response deliver
  handle_method_response-found response channel h =
      ap (deliver (record c { sequence_id = response.sequence_id }) response) h

  pub handle_method_response-missing :
      (response : Protocol)
      → find response.sequence_id c.response_handle ≡ none
      → handle_method_response c response ≡ record c { sequence_id = response.sequence_id }
  unfolding handle_method_response deliver
  handle_method_response-missing response h =
      ap (deliver (record c { sequence_id = response.sequence_id }) response) h

  pub call_end-open :
      (id channel : ℕ)
      → c.is_closed ≡ false
      → find id c.response_handle ≡ some channel
      → call_end c id ≡ ok (record c { response_handle = erase id c.response_handle })
  unfolding call_end erase_entry
  call_end-open id channel up h =
      if_false (ok c) (erase_entry c id (find id c.response_handle)) up ∙ ap (erase_entry c id) h
