-- ===== src/Registry/Providers.antt =====
-- Registering a service and losing its provider, in src/rpc/rpc_service_registry.cc on a little-endian
-- host: each leaves the tables consistent.
use async_rpc.Base.{
  ℕ, suc, ◌<◌, ◌^◌, ◌≡◌, refl, sym, ap, ◌∙◌, arith, Bool, true, Bool-cases, inl, inr,
}
use async_rpc.Base.{List, [], ◌∷◌, ◌++◌, length, length-append, some, ok, if◌then◌else◌, >>=_assoc}
use async_rpc.ByteArray.{to_string}
use async_rpc.Serializer.{reset}
use async_rpc.Base.Dict.{
  Dict, text_key, number_key, same, same_self, find-assign, assign, equal_range,
}
use async_rpc.Codec.{little}
use async_rpc.Protocol.{Protocol, create, rpc_service_discover_response}
use async_rpc.RpcResult.{success}
use async_rpc.RpcResult.Wire.{put_success-Writes}
use async_rpc.Serializer.Laws.{string-Lawful}
use async_rpc.Serializer.Content.{to_string-reset}
use async_rpc.Registry.{
  Registry, addresses, entries_of, subscribe_prefix, register_content, handle_service_register,
}
use async_rpc.Registry.Services.{
  IsValid, ids_of, ids_of-append, append-Distinct, append-below, publish_lem,
}

register_content_lem :
    (fresh : ℕ → ℕ) (name : List ℕ)
    → length name < 2 ^ 64
    → (content : List ℕ) × (register_content little fresh name ≡ ok content)
unfolding register_content success
register_content_lem fresh name h = (
  _,
  sym (>>=_assoc _ reset to_string)
      ∙ to_string-reset fresh (put_success-Writes string-Lawful _ (omega arith) name h),
)

addresses-append :
    (name address : List ℕ) (i : ℕ) (d : Dict ℕ (List ℕ × List ℕ))
    → addresses name (d ++ (i, (name, address)) ∷ []) ≡ addresses name d ++ address ∷ []
unfolding addresses equal_range
addresses-append name address i [] = ap (λ b. if b then address ∷ [] else []) (same_self name)
addresses-append name address i ((j, (other, a)) ∷ d) = elim (Bool-cases (same other name)) [
  | inl q ↦ rw q (ap (λ xs. a ∷ xs) (addresses-append name address i d))
  | inr q ↦ rw q (addresses-append name address i d)
]

entries_of-assign :
    (a b : List ℕ) (its : List ℕ) (iters : Dict (List ℕ) (List ℕ))
    → entries_of b (assign a its iters) ≡ (if same a b then its else entries_of b iters)
entries_of-assign a b its iters = rw (find-assign b a its iters) (ground arith)

same_true : (a b : List ℕ) → same a b ≡ true → a ≡ b
same_true a b h = ground arith

module _ {Session : Type 0} (connected : Session → Bool) (fresh : ℕ → ℕ) {r : Registry Session}
    (v : IsValid r) (address : List ℕ) (address_fits : length address < 2 ^ 64) where
  -- When iters_ holds exactly the entries of each address, on a little-endian host with a name and
  -- a provider's address whose texts are below 2^64 bytes with the prefix: registering the service
  -- succeeds, adds the address as the last one of the service, and iters_ again holds exactly the
  -- entries of each address.
  pub handle_service_register-IsValid :
      (request : Protocol)
      → length (subscribe_prefix ++ request.content) < 2 ^ 64
      → (r' : Registry Session) × (response : Protocol) × (sends : List (Session × Protocol))
        × (handle_service_register little fresh connected r request (some address)
            ≡ ok (r', response, sends))
        × (addresses request.content r'.services
            ≡ addresses request.content r.services ++ address ∷ [])
        × IsValid r'
  unfolding handle_service_register
  handle_service_register-IsValid request h =
      let name = request.content in
      let short : length name < 2 ^ 64 = omega (arith, length-append subscribe_prefix name) in
      let (content, e) = register_content_lem fresh name short in
      let (sends, e') =
        publish_lem connected fresh r.subscribes (subscribe_prefix ++ name) true address h
          address_fits in
      let its = entries_of address r.iters ++ r.next_entry ∷ [] in
      (
        record r {
          services = r.services ++ (r.next_entry, (name, address)) ∷ [];
          next_entry = suc r.next_entry;
          iters = assign address its r.iters;
        },
        create rpc_service_discover_response content 0,
        sends,
        rw (e, e') refl,
        addresses-append name address r.next_entry r.services,
        record {
          agree = λ b.
              entries_of-assign address b its r.iters
              ∙ added b its refl
              ∙ sym (ids_of-append b name address r.next_entry r.services);
          distinct = append-Distinct r.next_entry (name, address) r.services v.distinct v.below;
          below = append-below r.next_entry (name, address) r.services v.below;
        },
      )
    where
      added :
          (b its : List ℕ)
          → its ≡ entries_of address r.iters ++ r.next_entry ∷ []
          → (if same address b then its else entries_of b r.iters) ≡ (
              if same address b
              then ids_of b r.services ++ r.next_entry ∷ []
              else ids_of b r.services)
      added b its e = elim (Bool-cases (same address b)) [
        | inl q ↦ rw q (
            e
            ∙ ap (λ xs. xs ++ r.next_entry ∷ [])
                (ap (λ a. entries_of a r.iters) (same_true address b q) ∙ v.agree b))
        | inr q ↦ rw q (v.agree b)
      ]
