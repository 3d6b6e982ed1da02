-- ===== src/ConnectionPool/Discover.antt =====
-- What src/rpc/rpc_connection_pool.cc makes of the registry's messages, on little-endian hosts.
use async_rpc.Base.{
  ℕ, ◌<◌, ◌^◌, ◌≡◌, refl, sym, ap, ◌∙◌, subst, arith, true, false, if_false, if_true, ◌≢◌,
  Bool-cases,
}
use async_rpc.Base.{List, [], ◌∷◌, ◌++◌, length, All, some, ok, append-nil, Option-cases, inl, inr}
use async_rpc.Base.Dict.{Dict, text_key, find, find-assign_self, same, same_self}
use async_rpc.ByteArray.View.{Left}
use async_rpc.ByteArray.Stream.{Reads, ok-Reads, >>=-Reads, map-Reads}
use async_rpc.Codec.{little}
use async_rpc.Codec.Varint.{groups}
use async_rpc.Codec.Text.{vint_bytes}
use async_rpc.Protocol.{Protocol, create, rpc_service_discover_response}
use async_rpc.RpcResult.{RpcState}
use async_rpc.RpcResult.Wire.{get_result-Reads}
use async_rpc.Serializer.Composite.{all_bytes}
use async_rpc.Serializer.Content.{from_content-Left}
use async_rpc.Serializer.Laws.{string-Lawful, uint32-Lawful}
use async_rpc.Registry.{Registry, addresses, handle_service_discover}
use async_rpc.Registry.Discovery.{found_bytes, handle_service_discover-found}
use async_rpc.ConnectionPool.{
  is_no_method, add_result, read_results, with_address, discover_result, known, remove_first,
  address_change, change_found,
}

module _ (codes : ℕ → RpcState) (hold : (n : ℕ) → is_no_method (codes n) ≡ false) where
  add_result-Reads :
      (x : List ℕ) (xs : List (List ℕ)) (n : ℕ) (bs : List ℕ)
      → Reads (read_results little codes n) bs (some xs)
      → Reads
          (λ a.
            add_result little
              (record { code = codes n; msg = []; val = x })
              a
              (read_results little codes n a))
          bs
          (some (x ∷ xs))
  unfolding add_result
  add_result-Reads x xs n bs l = record {
    run = λ a ys w.
        let (a', e, w') = (map-Reads (with_address x) l).run a ys w in
        (a', if_false _ _ (hold n) ∙ e, w');
  }

  read_results-Reads :
      (xs : List (List ℕ))
      → All (λ a. length a < 2 ^ 64) xs
      → Reads (read_results little codes (length xs)) (all_bytes found_bytes xs) (some xs)
  unfolding read_results
  read_results-Reads [] h = ok-Reads (some [])
  read_results-Reads (x ∷ xs) h =
      >>=-Reads _ (get_result-Reads string-Lawful [] (omega arith) (codes (length xs)) [] x h.0)
        (add_result-Reads x xs (length xs) (all_bytes found_bytes xs) (read_results-Reads xs h.1))

  -- On little-endian hosts, for a service with at least one address, fewer than 2^32 of them, and
  -- texts below 2^64 bytes: when the codes that the pool's new Results happen to hold are never
  -- RPC_NO_METHOD, discover makes of the registry's response exactly the addresses of the service,
  -- in order.
  pub discover_result-handle_service_discover :
      {Session : Type 0} (fresh fresh' : ℕ → ℕ) (r : Registry Session) (name : List ℕ)
      (request : Protocol) (a : List ℕ) (more : List (List ℕ))
      → length name < 2 ^ 64
      → request.content ≡ name
      → addresses name r.services ≡ a ∷ more
      → length (a ∷ more) < 2 ^ 32
      → All (λ x. length x < 2 ^ 64) (a ∷ more)
      → (response : Protocol) × (handle_service_discover little fresh r request ≡ ok response)
        × (discover_result little fresh' codes (some response) ≡ ok (addresses name r.services))
  unfolding discover_result create
  discover_result-handle_service_discover fresh fresh' r name request a more h same there few fit =
      let found = all_bytes found_bytes (a ∷ more) in
      let bytes = vint_bytes name ++ (groups 4 (length (a ∷ more)) ++ found) in
      let (b, made, w) = from_content-Left fresh' bytes in
      let (b₁, got, w₁) =
        (string-Lawful.reads name h).run b (groups 4 (length (a ∷ more)) ++ found) w in
      let (b₂, got₁, w₂) = (uint32-Lawful.reads (length (a ∷ more)) few).run b₁ found w₁ in
      let (b₃, got₂, _) =
        (read_results-Reads (a ∷ more) fit).run b₂ []
          (subst (Left b₂) (sym (append-nil found)) w₂) in
      (
        create rpc_service_discover_response bytes 0,
        handle_service_discover-found fresh name h r request same a more there few fit,
        rw (made, got, got₁, got₂) (ap ok (sym there)),
      )

same_true : (a b : List ℕ) → same a b ≡ true → a ≡ b
same_true a b h = ground arith

remove_first-here :
    (addr : List ℕ) (before after : List (List ℕ))
    → All (λ a. a ≢ addr) before
    → remove_first addr (before ++ addr ∷ after) ≡ before ++ after
unfolding remove_first
remove_first-here addr [] after h = if_true _ _ (same_self addr)
remove_first-here addr (a ∷ before) after (ne, h) = elim (Bool-cases (same a addr)) [
  | inl e ↦ absurd (ne (same_true a addr e))
  | inr e ↦ if_false _ _ e ∙ ap (λ as'. a ∷ as') (remove_first-here addr before after h)
]

-- For a service among whose known addresses there is one: a publication that the service is not
-- launched there adds that address once more behind those known, and one that it is launched there
-- takes the address out at its first place and leaves the others in their order.
pub address_change_lem :
    (name addr : List ℕ) (before after : List (List ℕ)) (m : Dict (List ℕ) (List (List ℕ)))
    → All (λ a. a ≢ addr) before
    → known (find name m) ≡ before ++ addr ∷ after
    → (known (find name (address_change name false addr m)) ≡ known (find name m) ++ addr ∷ [])
      × (known (find name (address_change name true addr m)) ≡ before ++ after)
unfolding address_change
address_change_lem name addr before after m first there = (
  ap known (find-assign_self name (known (find name m) ++ addr ∷ []) m),
  taken ∙ ap (remove_first addr) there ∙ remove_first-here addr before after first,
)
  where
    taken :
        known (find name (address_change name true addr m))
        ≡ remove_first addr (known (find name m))
    taken = elim (Option-cases (find name m)) [
      | inl gone ↦ unfold change_found remove_first in rw (gone, gone) refl
      | inr (addrs, there') ↦
          ap (λ o. known (find name (change_found name addr m o))) there'
          ∙ unfold change_found in
            ap known (find-assign_self name (remove_first addr addrs) m)
            ∙ ap (λ o. remove_first addr (known o)) (sym there')
    ]
