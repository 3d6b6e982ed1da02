-- ===== src/RpcResult/Wire.antt =====
-- What a result of include/rpc/rpc.h is on the wire: its message, and its value if it is a success.
use async_rpc.Base.{
  ℕ, ◌^◌, ◌<◌, ◌≡◌, refl, ◌≢◌, List, ◌++◌, length, ok, append-nil, subst, ◌==◌, false,
}
use async_rpc.ByteArray.Stream.{Writes, Reads, ok-Writes, >>=-Writes, >>=-Reads, map-Reads}
use async_rpc.Codec.{little}
use async_rpc.Codec.Text.{vint_bytes, write_string_vint-Writes, read_string_vint-Reads}
use async_rpc.Serializer.{Serial}
use async_rpc.Serializer.Laws.{Lawful}
use async_rpc.RpcResult.{RpcState, rpc_success, state_code, put_result, get_result}

not_success : (c : RpcState) → c ≢ rpc_success → (state_code c == 0) ≡ false
not_success RpcState.rpc_success h = absurd (h refl)
not_success _ h = refl

module _ {A : Type 0} {s : Serial A} {Fits : A → Type 0} {bytes : A → List ℕ}
    (l : Lawful s Fits bytes) (msg : List ℕ) (msg_fits : length msg < 2 ^ 64) where
  pub put_success-Writes :
      (x : A)
      → Fits x
      → Writes
          (λ a. put_result little s a (record { code = rpc_success; msg = msg; val = x }))
          (vint_bytes msg ++ bytes x)
  unfolding put_result
  put_success-Writes x h =
      >>=-Writes (λ a. s.put a x) (write_string_vint-Writes msg msg_fits) (l.writes x h)

  pub put_failure-Writes :
      (c : RpcState) (x : A)
      → c ≢ rpc_success
      → Writes
          (λ a. put_result little s a (record { code = c; msg = msg; val = x }))
          (vint_bytes msg)
  unfolding put_result
  put_failure-Writes c x h =
      subst (Writes (λ a. put_result little s a (record { code = c; msg = msg; val = x })))
        (append-nil (vint_bytes msg))
        (rw (not_success c h)
          (>>=-Writes (λ a. ok a) (write_string_vint-Writes msg msg_fits) ok-Writes))

  pub get_result-Reads :
      (c : RpcState) (old : List ℕ) (x : A)
      → Fits x
      → Reads
          (get_result little s (record { code = c; msg = old; val = s.initial }))
          (vint_bytes msg ++ bytes x)
          (record { code = c; msg = msg; val = x })
  unfolding get_result
  get_result-Reads c old x h =
      >>=-Reads _ (read_string_vint-Reads little msg msg_fits)
        (map-Reads (λ v. record { code = c; msg = msg; val = v }) (l.reads x h))

  -- For a value type with lawful operators, a value that fits and a message of length below 2^64:
  -- a success is sent as its message and value, and >> gives both, but the code in the receiver's
  -- variable stays as it was before.
  get_result-put_success :
      (c : RpcState) (old : List ℕ) (x : A)
      → Fits x
      → Writes
          (λ a. put_result little s a (record { code = rpc_success; msg = msg; val = x }))
          (vint_bytes msg ++ bytes x)
        × Reads
            (get_result little s (record { code = c; msg = old; val = s.initial }))
            (vint_bytes msg ++ bytes x)
            (record { code = c; msg = msg; val = x })
  get_result-put_success c old x h = (put_success-Writes x h, get_result-Reads c old x h)

  -- For a value type with lawful operators and a message of length below 2^64: a failure is sent
  -- as its message alone, and >> takes as its value the bytes of whatever fitting value stands
  -- behind it, with the code left as it was.
  pub get_result-put_failure :
      (sent c : RpcState) (old : List ℕ) (x y : A)
      → sent ≢ rpc_success
      → Fits y
      → Writes
          (λ a. put_result little s a (record { code = sent; msg = msg; val = x }))
          (vint_bytes msg)
        × Reads
            (get_result little s (record { code = c; msg = old; val = s.initial }))
            (vint_bytes msg ++ bytes y)
            (record { code = c; msg = msg; val = y })
  get_result-put_failure sent c old x y ne h =
      (put_failure-Writes sent x ne, get_result-Reads c old y h)
