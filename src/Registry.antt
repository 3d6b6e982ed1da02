-- ===== src/Registry.antt =====
-- src/rpc/rpc_service_registry.cc and include/rpc/rpc_service_registry.h: which addresses provide
-- which service, and who is told.
pub mod Serve
pub mod Services
pub mod Providers
pub mod Discovery
use async_rpc.Base.{
  ℕ, zero, suc, ◌+◌, ◌%◌, ◌^◌, Bool, true, false, if◌then◌else◌, ◌==◌, List, [], ◌∷◌, ◌++◌, length,
  map,
}
use async_rpc.Base.{
  Option, none, some, Result, ok, err, ◌>>=◌, null_pointer, freed_memory, bad_index,
}
use async_rpc.Base.Dict.{Dict, text_key, number_key, find, assign, erase, equal_range}
use async_rpc.ByteArray.{ByteArray, make, to_string}
use async_rpc.Codec.{Endian}
use async_rpc.Protocol.{
  Protocol, create, heart_beat, default_size, rpc_service_discover_response, rpc_subscribe_response,
  rpc_publish_request,
}
use async_rpc.RpcResult.{RpcResult, rpc_success, rpc_no_method, put_result, success}
use async_rpc.Serializer.{Serial, string, uint32, bool, tuple, from_content, reset}
use async_rpc.Address.{Ipv4Address, set_port, insert}
use async_rpc.RpcServer.{publish_content, send_all, acknowledge}

-- service_, whose entries the iterators in iters_ point to, iters_ and subscribe_. An entry is known
-- by a number, `next_entry` the next one; entries of one name stand in the order of their insertion.
pub record Registry (Session : Type 0) : Type 0 where
  pub services : Dict ℕ (List ℕ × List ℕ)
  pub next_entry : ℕ
  pub iters : Dict (List ℕ) (List ℕ)
  pub subscribes : Dict (List ℕ) Session

-- service_.equal_range(name): the addresses.
unfoldable pub addresses : List ℕ → Dict ℕ (List ℕ × List ℕ) → List (List ℕ)
addresses name services = equal_range name (map (λ e. e.1) services)

abbrev pub or_none : Option (List ℕ) → List ℕ
or_none none = []
or_none (some its) = its

-- iters_[address], a new empty vector if there is none.
abbrev pub entries_of : List ℕ → Dict (List ℕ) (List ℕ) → List ℕ
entries_of address iters = or_none (find address iters)

-- RPC_SERVICE_SUBSCRIBE, "[[rpc service subscribe]]"
abbrev pub subscribe_prefix : List ℕ
subscribe_prefix =
    91 ∷ 91 ∷ 114 ∷ 112 ∷ 99 ∷ 32 ∷ 115 ∷ 101 ∷ 114 ∷ 118 ∷ 105 ∷ 99 ∷ 101 ∷ 32 ∷ 115 ∷ 117 ∷ 98
    ∷ 115 ∷ 99 ∷ 114 ∷ 105 ∷ 98 ∷ 101 ∷ 93 ∷ 93 ∷ []

-- "discover service: "
abbrev pub discover_prefix : List ℕ
discover_prefix =
    100 ∷ 105 ∷ 115 ∷ 99 ∷ 111 ∷ 118 ∷ 101 ∷ 114 ∷ 32 ∷ 115 ∷ 101 ∷ 114 ∷ 118 ∷ 105 ∷ 99 ∷ 101 ∷ 58
    ∷ 32 ∷ []

-- The results of handleServiceDiscover; `code` is what a new Result holds, which it sets.
unfoldable pub discovered : List ℕ → List (List ℕ) → List (RpcResult (List ℕ))
discovered name [] = record { code = rpc_no_method; msg = discover_prefix ++ name; val = [] } ∷ []
discovered name (a ∷ more) = map (λ x. record { code = rpc_success; msg = []; val = x }) (a ∷ more)

-- The loop `for (i < cnt) s << result[i]`.
unfoldable pub put_results : Endian → ℕ → List (RpcResult (List ℕ)) → ByteArray → Result ByteArray
put_results host zero results s = ok s
put_results host (suc cnt) [] s = err bad_index
put_results host (suc cnt) (r ∷ rs) s = do
  s' ← put_result host (string host) s r
  put_results host cnt rs s'

module _ (host : Endian) (fresh : ℕ → ℕ) where
  unfoldable pub discover_content : List ℕ → List (RpcResult (List ℕ)) → Result (List ℕ)
  discover_content name results = do
    s₁ ← (string host).put (make fresh default_size) name
    let cnt = length results % 2 ^ 32
    s₂ ← (uint32 host).put s₁ cnt
    s₃ ← put_results host cnt results s₂
    s₄ ← reset s₃
    to_string s₄

  -- What handleServiceRegister answers: a success whose value is the name.
  unfoldable pub register_content : List ℕ → Result (List ℕ)
  register_content name = do
    s ← put_result host (string host) (make fresh default_size) (success name)
    s' ← reset s
    to_string s'

  module _ {Session : Type 0} (connected : Session → Bool) where
    -- publish of a tuple of a flag and an address, on the multimap of the subscribers.
    unfoldable pub publish :
        Dict (List ℕ) Session → List ℕ → Bool × List ℕ → Result (List (Session × Protocol))
    publish [] key payload = ok []
    publish (entry ∷ rest) key payload = do
      content ← publish_content host fresh (tuple (bool host) (string host)) key payload
      ok (
          send_all connected (create rpc_publish_request content 0)
            (equal_range key (entry ∷ rest)))

    -- handleServiceRegister, with the text of the provider's address, `none` for a null pointer: the
    -- response, and the publications.
    unfoldable pub handle_service_register :
        Registry Session
        → Protocol
        → Option (List ℕ)
        → Result (Registry Session × Protocol × List (Session × Protocol))
    handle_service_register r request none = err null_pointer
    handle_service_register r request (some address) = do
      let name = request.content
      content ← register_content name
      sends ← publish r.subscribes (subscribe_prefix ++ name) (true, address)
      ok (
        record r {
          services = r.services ++ (r.next_entry, (name, address)) ∷ [];
          next_entry = suc r.next_entry;
          iters = assign address (entries_of address r.iters ++ r.next_entry ∷ []) r.iters;
        },
        create rpc_service_discover_response content 0,
        sends,
      )

-- The loop of handleUnregisterService. A round erases an entry and then reads its name, which is
-- freed memory: it has no behaviour from there on.
unfoldable pub unregister_all :
    List ℕ → Dict ℕ (List ℕ × List ℕ) → Result (Dict ℕ (List ℕ × List ℕ))
unregister_all [] services = ok services
unregister_all (i ∷ its) services = err freed_memory

module _ {Session : Type 0} where
  unfoldable pub unregister_found :
      Registry Session → List ℕ → Option (List ℕ) → Result (Registry Session)
  unregister_found r address none = ok r
  unregister_found r address (some its) = do
    services' ← unregister_all its r.services
    ok (record r { services = services'; iters = erase address r.iters })

  unfoldable pub handle_unregister_service : Registry Session → List ℕ → Result (Registry Session)
  handle_unregister_service r address = unregister_found r address (find address r.iters)

module _ (host : Endian) (fresh : ℕ → ℕ) where
  module _ {Session : Type 0} where
    unfoldable pub handle_service_discover : Registry Session → Protocol → Result Protocol
    handle_service_discover r request = do
      let name = request.content
      content ← discover_content host fresh name (discovered name (addresses name r.services))
      ok (create rpc_service_discover_response content 0)

    -- handleSubscribe; `byte` is the value of a Result<>.
    unfoldable pub handle_subscribe :
        ℕ → Registry Session → Protocol → Session → Result (Registry Session × Protocol)
    handle_subscribe byte r request client = do
      s ← from_content fresh request.content
      (key, s') ← (string host).get [] s
      content ← acknowledge host byte s'
      ok (
        record r { subscribes = r.subscribes ++ (key, client) ∷ [] },
        create rpc_subscribe_response content 0,
      )

  -- handleProvider, with the remote address of the client.
  unfoldable pub handle_provider : Protocol → Ipv4Address → Result Ipv4Address
  handle_provider request remote = do
    s ← from_content fresh request.content
    s' ← reset s
    (port, _) ← (uint32 host).get 0 s'
    ok (set_port host remote port)
