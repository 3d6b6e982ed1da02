-- ===== src/Registry/Discovery.antt =====
-- What handleServiceDiscover of src/rpc/rpc_service_registry.cc answers, on a little-endian host.
use native.Mathlib.Nat.{mod-eq_of_lt}
use async_rpc.Base.{ℕ, ◌<◌, ◌^◌, ◌≡◌, refl, sym, ap, ◌∙◌, subst, arith}
use async_rpc.Base.{
  List, [], ◌∷◌, ◌++◌, length, length-map, map, ok, ◌>>=◌, >>=_assoc, All, append-nil, append_assoc,
}
use async_rpc.ByteArray.{to_string}
use async_rpc.ByteArray.Stream.{Writes, ok-Writes, >>=-Writes}
use async_rpc.Codec.{little}
use async_rpc.Codec.Varint.{groups}
use async_rpc.Codec.Text.{vint_bytes}
use async_rpc.Protocol.{Protocol, create, rpc_service_discover_response}
use async_rpc.RpcResult.{RpcResult, rpc_success, rpc_no_method}
use async_rpc.RpcResult.Wire.{put_success-Writes, put_failure-Writes}
use async_rpc.Serializer.{reset, uint32}
use async_rpc.Serializer.Composite.{all_bytes}
use async_rpc.Serializer.Content.{to_string-reset}
use async_rpc.Serializer.Laws.{string-Lawful, uint32-Lawful}
use async_rpc.Registry.{
  Registry, addresses, discovered, discover_prefix, put_results, discover_content,
  handle_service_discover,
}

-- A success on the wire: an empty message, and the address.
abbrev pub found_bytes : List ℕ → List ℕ
found_bytes address = vint_bytes [] ++ vint_bytes address

abbrev found : List ℕ → RpcResult (List ℕ)
found address = record { code = rpc_success; msg = []; val = address }

found-Writes :
    (xs : List (List ℕ))
    → All (λ a. length a < 2 ^ 64) xs
    → Writes (put_results little (length xs) (map found xs)) (all_bytes found_bytes xs)
unfolding put_results
found-Writes [] h = ok-Writes
found-Writes (x ∷ xs) h =
    >>=-Writes (put_results little (length xs) (map found xs))
      (put_success-Writes string-Lawful [] (omega arith) x h.0) (found-Writes xs h.1)

module _ (fresh : ℕ → ℕ) (name : List ℕ) (name_fits : length name < 2 ^ 64) where
  discover_content_lem :
      (results : List (RpcResult (List ℕ))) (bytes : List ℕ) (n : ℕ)
      → length results ≡ n
      → n < 2 ^ 32
      → Writes (put_results little n results) bytes
      → discover_content little fresh name results ≡ ok (vint_bytes name ++ (groups 4 n ++ bytes))
  unfolding discover_content
  discover_content_lem results bytes n e h w =
      rw (e, mod-eq_of_lt h)
        (sym (
            >>=_assoc _ reset to_string
            ∙ >>=_assoc _ (put_results little n results) (λ s. reset s >>= to_string)
            ∙ >>=_assoc _ (λ s. (uint32 little).put s n) _)
          ∙ to_string-reset fresh (
              >>=-Writes (put_results little n results)
                (>>=-Writes (λ s. (uint32 little).put s n) (string-Lawful.writes name name_fits)
                  (uint32-Lawful.writes n h))
                w)
          ∙ ap ok (append_assoc (vint_bytes name) (groups 4 n) bytes))

  module _ {Session : Type 0} (r : Registry Session) (request : Protocol)
      (same_name : request.content ≡ name) where
    -- On a little-endian host, for a service with at least one address, fewer than 2^32 of them,
    -- and texts below 2^64 bytes: handleServiceDiscover answers with the name, the number of
    -- addresses, and for each in order an empty message and the address.
    pub handle_service_discover-found :
        (a : List ℕ) (more : List (List ℕ))
        → addresses name r.services ≡ a ∷ more
        → length (a ∷ more) < 2 ^ 32
        → All (λ x. length x < 2 ^ 64) (a ∷ more)
        → handle_service_discover little fresh r request
          ≡ ok (
              create rpc_service_discover_response
                (vint_bytes name
                  ++ (groups 4 (length (a ∷ more)) ++ all_bytes found_bytes (a ∷ more)))
                0)
    unfolding handle_service_discover discovered
    handle_service_discover-found a more there few fit =
        rw
          (
            same_name,
            there,
            discover_content_lem (map found (a ∷ more)) (all_bytes found_bytes (a ∷ more))
                (length (a ∷ more)) (length-map (a ∷ more) found) few (found-Writes (a ∷ more) fit),
          )
          refl

    -- A service without an address is answered with a count of one and a message alone.
    pub handle_service_discover-missing :
        addresses name r.services ≡ []
        → length (discover_prefix ++ name) < 2 ^ 64
        → handle_service_discover little fresh r request
          ≡ ok (
              create rpc_service_discover_response
                (vint_bytes name ++ (groups 4 1 ++ vint_bytes (discover_prefix ++ name)))
                0)
    unfolding handle_service_discover discovered put_results
    handle_service_discover-missing gone fit =
        rw
          (
            same_name,
            gone,
            discover_content_lem
                (record { code = rpc_no_method; msg = discover_prefix ++ name; val = [] } ∷ [])
                (vint_bytes (discover_prefix ++ name)) 1 refl (omega arith)
                (missing-Writes (discover_prefix ++ name) fit),
          )
          refl
      where
        missing-Writes :
            (msg : List ℕ)
            → length msg < 2 ^ 64
            → Writes
                (put_results little 1 (record { code = rpc_no_method; msg = msg; val = [] } ∷ []))
                (vint_bytes msg)
        missing-Writes msg h = subst (Writes _) (append-nil (vint_bytes msg)) (
            >>=-Writes (λ s. ok s)
              (put_failure-Writes string-Lawful msg h rpc_no_method [] (λ e. cc)) ok-Writes)
