-- ===== src/Registry/Services.antt =====
-- The tables of src/rpc/rpc_service_registry.cc: what registering and unregistering do to them, on a
-- little-endian host.
use async_rpc.Base.{ℕ, suc, ◌<◌, ◌^◌, ◌≡◌, refl, ap, arith, Bool, false}
use async_rpc.Base.{List, [], ◌∷◌, ◌++◌, length, ok, ◌>>=◌, All, if◌then◌else◌}
use async_rpc.Base.Dict.{Dict, text_key, number_key, same, equal_range}
use async_rpc.Codec.{little}
use async_rpc.Protocol.{Protocol, create, rpc_publish_request}
use async_rpc.RpcServer.{send_all}
use async_rpc.RpcServer.Subscribers.{publish_content_lem}
use async_rpc.Serializer.Laws.{bool-Lawful, string-Lawful}
use async_rpc.Serializer.Composite.{tuple-Lawful}
use async_rpc.Registry.{Registry, entries_of, publish}

-- The entries of an address, and those of the others.
abbrev pub ids_of : List ℕ → Dict ℕ (List ℕ × List ℕ) → List ℕ
ids_of address [] = []
ids_of address ((i, (name, a)) ∷ d) =
    let rest = ids_of address d in if same a address then i ∷ rest else rest

-- The numbers of the entries differ from `i`.
abbrev pub Fresh : ℕ → Dict ℕ (List ℕ × List ℕ) → Type 0
Fresh i [] = Unit
Fresh i ((j, e) ∷ d) = (same i j ≡ false) × Fresh i d

abbrev pub Distinct : Dict ℕ (List ℕ × List ℕ) → Type 0
Distinct [] = Unit
Distinct ((i, e) ∷ d) = Fresh i d × Distinct d

-- iters_ has exactly the entries of each address, in order, and no two entries have one number.
pub record IsValid {Session : Type 0} (r : Registry Session) : Type 0 where
  pub agree : (address : List ℕ) → entries_of address r.iters ≡ ids_of address r.services
  pub distinct : Distinct r.services
  pub below : All (λ e. e.0 < r.next_entry) r.services

same_sym : (i j : ℕ) → same i j ≡ same j i
same_sym i j = ground arith

pub ids_of-append :
    (address name b : List ℕ) (i : ℕ) (d : Dict ℕ (List ℕ × List ℕ))
    → ids_of address (d ++ (i, (name, b)) ∷ [])
      ≡ (if same b address then ids_of address d ++ i ∷ [] else ids_of address d)
ids_of-append address name b i [] = ground arith
ids_of-append address name b i ((j, (other, a)) ∷ d) =
    ground (arith, ids_of-append address name b i d)

-- A number above all others is new.
pub append-Distinct :
    (n : ℕ) (e : List ℕ × List ℕ) (d : Dict ℕ (List ℕ × List ℕ))
    → Distinct d
    → All (λ x. x.0 < n) d
    → Distinct (d ++ (n, e) ∷ [])
append-Distinct n e [] h k = (tt, tt)
append-Distinct n e ((i, f) ∷ d) h k = (append-Fresh i n e d h.0 k.0, append-Distinct n e d h.1 k.1)
  where
    append-Fresh :
        (i n : ℕ) (e : List ℕ × List ℕ) (d : Dict ℕ (List ℕ × List ℕ))
        → Fresh i d
        → i < n
        → Fresh i (d ++ (n, e) ∷ [])
    append-Fresh i n e [] h k = (ground arith, tt)
    append-Fresh i n e (f ∷ d) h k = (h.0, append-Fresh i n e d h.1 k)

pub append-below :
    (n : ℕ) (e : List ℕ × List ℕ) (d : Dict ℕ (List ℕ × List ℕ))
    → All (λ x. x.0 < n) d
    → All (λ x. x.0 < suc n) (d ++ (n, e) ∷ [])
append-below n e [] k = (omega arith, tt)
append-below n e (f ∷ d) k = (omega (arith, k.0), append-below n e d k.1)

module _ {Session : Type 0} (connected : Session → Bool) (fresh : ℕ → ℕ) where
  pub publish_lem :
      (subscribes : Dict (List ℕ) Session) (key : List ℕ) (flag : Bool) (address : List ℕ)
      → length key < 2 ^ 64
      → length address < 2 ^ 64
      → (sends : List (Session × Protocol)) × (publish little fresh connected subscribes key
            (flag, address)
          ≡ ok sends)
  unfolding publish
  publish_lem [] key flag address h k = ([], refl)
  publish_lem (entry ∷ rest) key flag address h k = (
    _,
    ap
        (λ content. content >>= λ bytes. ok (
          send_all connected (create rpc_publish_request bytes 0) (equal_range key (entry ∷ rest))))
        (publish_content_lem (tuple-Lawful bool-Lawful string-Lawful) key (flag, address) h (tt, k)
          fresh),
  )
