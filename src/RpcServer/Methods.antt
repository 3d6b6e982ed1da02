-- ===== src/RpcServer/Methods.antt =====
-- What a method call of src/rpc/rpc_server.cc gives, on a little-endian host.
use async_rpc.Base.{
  ℕ, ◌<◌, ◌^◌, ◌≡◌, refl, sym, ◌∙◌, arith, List, [], ◌++◌, length, append-nil, subst,
}
use async_rpc.Base.{some, none, Result, ok}
use async_rpc.Base.Dict.{Dict, text_key, find}
use async_rpc.ByteArray.{ByteArray, make}
use async_rpc.ByteArray.View.{Left, to_string-Left}
use async_rpc.ByteArray.Stream.{Writes, Writes-rewind}
use async_rpc.Codec.{little}
use async_rpc.Codec.Text.{vint_bytes}
use async_rpc.Protocol.{Protocol, create, default_size, rpc_method_response}
use async_rpc.RpcResult.{rpc_success, put_result}
use async_rpc.RpcResult.Wire.{put_success-Writes}
use async_rpc.Serializer.{Serial, reset}
use async_rpc.Serializer.Content.{from_content-Left, make-Left}
use async_rpc.Serializer.Laws.{Lawful, string-Lawful}
use async_rpc.RpcServer.{Method, proxy, reply, call, run_method, handle_method_call}

module _ (heap : ℕ → ℕ → ℕ) where
  module _ {A R : Type 0} {s : Serial A} {t : Serial R} {F : A → Type 0} {G : R → Type 0}
      {f : A → List ℕ} {g : R → List ℕ} (l : Lawful s F f) (m : Lawful t G g) where
    proxy_lem :
        (fun : A → Result R) (x : A) (y : R) (a : ByteArray)
        → F x
        → fun x ≡ ok y
        → proxy little heap s t fun a (f x)
          ≡ put_result little t a (record { code = rpc_success; msg = []; val = y })
    unfolding proxy reply
    proxy_lem fun x y a hx e =
        let (b, made, w) = from_content-Left (heap 2) (f x) in
        let (c, got, _) = (l.reads x hx).run b [] (subst (Left b) (sym (append-nil (f x))) w) in
        rw (made, got, e) refl

    -- On the bytes of its arguments, a method sends a success with what the function returns.
    proxy-Writes :
        (fun : A → Result R) (x : A) (y : R)
        → F x
        → G y
        → fun x ≡ ok y
        → Writes (λ a. proxy little heap s t fun a (f x)) (vint_bytes [] ++ g y)
    proxy-Writes fun x y hx hy e = record {
      run = λ a xs w.
          let (a', e', w') = (put_success-Writes m [] (omega arith) y hy).run a xs w in
          (a', proxy_lem fun x y a hx e ∙ e', w');
    }

    call-registered :
        (services : Dict (List ℕ) Method) (name : List ℕ) (fun : A → Result R) (x : A) (y : R)
        → find name services ≡ some (proxy little heap s t fun)
        → F x
        → G y
        → fun x ≡ ok y
        → (a : ByteArray) × (call heap services name (f x) ≡ ok a) × Left a (vint_bytes [] ++ g y)
    unfolding call run_method reset
    call-registered services name fun x y there hx hy e =
        let (a, e', w) =
          Writes-rewind (heap 1) default_size (omega arith) (proxy-Writes fun x y hx hy e) in
        (a, rw there e', w)

  call-unknown :
      (services : Dict (List ℕ) Method) (name args : List ℕ)
      → find name services ≡ none
      → call heap services name args ≡ ok (make (heap 1) default_size)
  unfolding call run_method
  call-unknown services name args gone = rw gone refl

  -- The request is the name and the bytes of the arguments.
  handle_method_call-call :
      (services : Dict (List ℕ) Method) (name args out : List ℕ) (request : Protocol)
      (a : ByteArray)
      → length name < 2 ^ 64
      → request.content ≡ vint_bytes name ++ args
      → call heap services name args ≡ ok a
      → Left a out
      → handle_method_call little heap services request
        ≡ ok (create rpc_method_response out request.sequence_id)
  unfolding handle_method_call
  handle_method_call-call services name args out request a h same called w =
      let (b, made, w₁) = from_content-Left (heap 0) (vint_bytes name ++ args) in
      let (c, got, w₂) = (string-Lawful.reads name h).run b args w₁ in
      rw (same, made, got, to_string-Left w₂, called, to_string-Left w) refl

  module _ {A R : Type 0} {s : Serial A} {t : Serial R} {F : A → Type 0} {G : R → Type 0}
      {f : A → List ℕ} {g : R → List ℕ} (l : Lawful s F f) (m : Lawful t G g) where
    -- A call of a registered method is answered under the id of the request, with the function's
    -- result.
    pub handle_method_call-registered :
        (services : Dict (List ℕ) Method) (name : List ℕ) (fun : A → Result R) (x : A) (y : R)
        (request : Protocol)
        → find name services ≡ some (proxy little heap s t fun)
        → length name < 2 ^ 64
        → F x
        → G y
        → fun x ≡ ok y
        → request.content ≡ vint_bytes name ++ f x
        → handle_method_call little heap services request
          ≡ ok (create rpc_method_response (vint_bytes [] ++ g y) request.sequence_id)
    handle_method_call-registered services name fun x y request there h hx hy e same =
        let (a, e', w) = call-registered l m services name fun x y there hx hy e in
        handle_method_call-call services name (f x) (vint_bytes [] ++ g y) request a h same e' w

  -- A call of a name without a method is answered with an empty content.
  pub handle_method_call-unknown :
      (services : Dict (List ℕ) Method) (name args : List ℕ) (request : Protocol)
      → find name services ≡ none
      → length name < 2 ^ 64
      → request.content ≡ vint_bytes name ++ args
      → handle_method_call little heap services request
        ≡ ok (create rpc_method_response [] request.sequence_id)
  handle_method_call-unknown services name args request gone h same =
      handle_method_call-call services name args [] request (make (heap 1) default_size) h same
        (call-unknown services name args gone) (make-Left (heap 1))
