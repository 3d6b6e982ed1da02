-- ===== src/ConnectionPool.antt =====
-- src/rpc/rpc_connection_pool.cc and include/rpc/rpc_connection_pool.h: how a client finds the
-- addresses of a service, and how it keeps them up to date.
pub mod Discover
use async_rpc.Base.{ℕ, zero, suc, Bool, true, false, if◌then◌else◌, ◌==◌, not, List, [], ◌∷◌, ◌++◌}
use async_rpc.Base.{Option, none, some, Result, ok, err, ◌>>=◌, bad_index, assertion}
use async_rpc.Base.Dict.{Dict, text_key, same, find, assign, emplace, erase}
use async_rpc.ByteArray.{ByteArray}
use async_rpc.Codec.{Endian}
use async_rpc.Protocol.{
  Protocol, create, msg_code, rpc_service_discover, rpc_service_discover_response,
  rpc_subscribe_request, rpc_publish_request, rpc_publish_response,
}
use async_rpc.RpcResult.{RpcState, RpcResult, state_code, rpc_no_method, get_result}
use async_rpc.Serializer.{string, uint32, bool, from_content}

-- What stands under a key of subscribe_handle_: the callback of discover for a service, or one of a
-- user of subscribe.
pub data Handler : Type 0 where
  of_service : List ℕ → Handler
  of_user : ℕ → Handler

-- The tables, a channel by its identity, with what channel_ and the waiting channels have taken.
pub record ConnectionPool : Type 0 where
  pub method_map : Dict (List ℕ) ℕ
  pub subscribe_handle : Dict (List ℕ) Handler
  pub address_map : Dict (List ℕ) (List (List ℕ))
  pub outgoing : List Protocol
  pub delivered : List (ℕ × Option Protocol)

-- The loop of the callback: the first address that is equal goes.
unfoldable pub remove_first : List ℕ → List (List ℕ) → List (List ℕ)
remove_first addr [] = []
remove_first addr (a ∷ addrs) =
    let rest = remove_first addr addrs in if same a addr then addrs else a ∷ rest

-- address_map_[name], a new empty vector if there is none.
abbrev pub known : Option (List (List ℕ)) → List (List ℕ)
known none = []
known (some addrs) = addrs

unfoldable pub change_found :
    List ℕ
    → List ℕ
    → Dict (List ℕ) (List (List ℕ))
    → Option (List (List ℕ))
    → Dict (List ℕ) (List (List ℕ))
change_found name addr addresses none = addresses
change_found name addr addresses (some addrs) = assign name (remove_first addr addrs) addresses

-- What the callback of discover does with the flag and the address of a publication.
unfoldable pub address_change :
    List ℕ → Bool → List ℕ → Dict (List ℕ) (List (List ℕ)) → Dict (List ℕ) (List (List ℕ))
address_change name service_launch addr addresses =
    if not service_launch
    then assign name (known (find name addresses) ++ addr ∷ []) addresses
    else change_found name addr addresses (find name addresses)

abbrev is_no_method : RpcState → Bool
is_no_method c = state_code c == state_code rpc_no_method

abbrev pub with_address : List ℕ → Option (List (List ℕ)) → Option (List (List ℕ))
with_address addr none = none
with_address addr (some addrs) = some (addr ∷ addrs)

-- `chan << response`, if there is a channel under the name.
unfoldable pub deliver : ConnectionPool → Protocol → Option ℕ → ConnectionPool
deliver p response none = p
deliver p response (some channel) = record p {
  delivered = p.delivered ++ (channel, some response) ∷ [];
}

module _ (host : Endian) where
  -- The end of a round of the loop of discover; `rest` is the loop from there on.
  unfoldable pub add_result :
      RpcResult (List ℕ)
      → ByteArray
      → Result (Option (List (List ℕ)) × ByteArray)
      → Result (Option (List (List ℕ)) × ByteArray)
  add_result res s rest =
      let longer = do (found, s') ← rest; ok (with_address res.val found, s')
      in if is_no_method res.code then ok (none, s) else longer

  -- The loop of discover over the results: the addresses, or none if one of them is RPC_NO_METHOD.
  -- `codes` is what code_ of the new Result of each round holds, which >> leaves as it was.
  unfoldable pub read_results :
      (ℕ → RpcState) → ℕ → ByteArray → Result (Option (List (List ℕ)) × ByteArray)
  read_results codes zero s = ok (some [], s)
  read_results codes (suc n) s = do
    (res, s') ← get_result host (string host) (record { code = codes n; msg = []; val = [] }) s
    add_result res s' (read_results codes n s')

  -- What discover makes of the response; no address stands for the empty vector.
  unfoldable pub discover_result :
      (ℕ → ℕ) → (ℕ → RpcState) → Option Protocol → Result (List (List ℕ))
  discover_result fresh codes none = ok []
  discover_result fresh codes (some response) = do
    s ← from_content fresh response.content
    (name, s₁) ← (string host).get [] s
    (cnt, s₂) ← (uint32 host).get 0 s₁
    (found, _) ← read_results codes cnt s₂
    ok (known found)

  unfoldable pub handle_service_discover_response :
      (ℕ → ℕ) → ConnectionPool → Protocol → Result ConnectionPool
  handle_service_discover_response fresh p response = do
    s ← from_content fresh response.content
    (name, _) ← (string host).get [] s
    ok (deliver p response (find name p.method_map))

  -- The callback of a service changes its addresses; that of a user is returned, with its serializer.
  unfoldable pub run_handler :
      ConnectionPool → ByteArray → Option Handler → Result (ConnectionPool × Option (ℕ × ByteArray))
  run_handler p s none = ok (p, none)
  run_handler p s (some (of_user f)) = ok (p, some (f, s))
  run_handler p s (some (of_service name)) = do
    (launch, s') ← (bool host).get true s
    (addr, _) ← (string host).get [] s'
    ok (record p { address_map = address_change name launch addr p.address_map }, none)

  unfoldable pub handle_publish :
      (ℕ → ℕ) → ConnectionPool → Protocol → Result (ConnectionPool × Option (ℕ × ByteArray))
  handle_publish fresh p response = do
    s ← from_content fresh response.content
    (key, s') ← (string host).get [] s
    run_handler p s' (find key p.subscribe_handle)

  -- An iteration of handleRecv on a message.
  unfoldable pub receive :
      (ℕ → ℕ) → ConnectionPool → Protocol → Result (ConnectionPool × Option (ℕ × ByteArray))
  receive fresh p request =
      let publication = do
        (p', run) ← handle_publish fresh p request
        ok (record p' { outgoing = p'.outgoing ++ create rpc_publish_response [] 0 ∷ [] }, run)
      in let discovery = do p' ← handle_service_discover_response fresh p request; ok (p', none)
        in if request.type == msg_code rpc_publish_request
          then publication
          else if request.type == msg_code rpc_service_discover_response
          then discovery
          else ok (p, none)

-- The start of discover, with the channel that it makes.
unfoldable pub discover_begin : ConnectionPool → List ℕ → ℕ → ConnectionPool
discover_begin p name channel = record p {
  method_map = emplace name channel p.method_map;
  outgoing = p.outgoing ++ create rpc_service_discover name 0 ∷ [];
}

-- The erase by the iterator, behind the wait.
unfoldable pub discover_end : ConnectionPool → List ℕ → Option ℕ → Result ConnectionPool
discover_end p name none = err bad_index
discover_end p name (some _) = ok (record p { method_map = erase name p.method_map })

-- subscribe, with the content that it serialises.
unfoldable pub subscribe :
    ConnectionPool → List ℕ → Handler → List ℕ → Option Handler → Result ConnectionPool
subscribe p key fun content (some _) = err assertion
subscribe p key fun content none = ok (record p {
  subscribe_handle = emplace key fun p.subscribe_handle;
  outgoing = p.outgoing ++ create rpc_subscribe_request content 0 ∷ [];
})
