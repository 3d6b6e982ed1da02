-- ===== src/RpcResult.antt =====
-- include/rpc/rpc.h: the result of a call, and its operators << and >>.
pub mod Wire
use async_rpc.Base.{[], ◌∷◌, ℕ, List, ◌==◌, if◌then◌else◌, Result, ok, ◌>>=◌}
use async_rpc.ByteArray.{ByteArray}
use async_rpc.Codec.{Endian}
use async_rpc.Serializer.{Serial, no_branch, string}

pub data RpcState : Type 0 where
  rpc_success rpc_fail rpc_args_not_match rpc_no_method rpc_closed rpc_timeout : RpcState

abbrev pub state_code : RpcState → ℕ
state_code rpc_success = 0
state_code rpc_fail = 1
state_code rpc_args_not_match = 2
state_code rpc_no_method = 3
state_code rpc_closed = 4
state_code rpc_timeout = 5

-- Result<T>: code_, msg_ and val_
pub record RpcResult (A : Type 0) : Type 0 where
  pub code : RpcState
  pub msg : List ℕ
  pub val : A

-- Result::Success and Result::Fail, with the value that val_ happens to hold: their messages are
-- "success" and "fail".
unfoldable pub success : {A : Type 0} → A → RpcResult A
success v = record {
  code = RpcState.rpc_success;
  msg = 115 ∷ 117 ∷ 99 ∷ 99 ∷ 101 ∷ 115 ∷ 115 ∷ [];
  val = v;
}

unfoldable pub fail : {A : Type 0} → A → RpcResult A
fail v = record { code = RpcState.rpc_fail; msg = 102 ∷ 97 ∷ 105 ∷ 108 ∷ []; val = v }

-- RPCState is an enumeration of its own, so no branch of Serializer::write and read takes it.
abbrev pub state : RpcState → Serial RpcState
state = no_branch

module _ (host : Endian) {A : Type 0} (s : Serial A) where
  unfoldable pub put_result : ByteArray → RpcResult A → Result ByteArray
  put_result a r = do
    a' ← (state r.code).put a r.code
    a'' ← (string host).put a' r.msg
    if state_code r.code == 0 then s.put a'' r.val else ok a''

  unfoldable pub get_result : RpcResult A → ByteArray → Result (RpcResult A × ByteArray)
  get_result r a = do
    (code, a₁) ← (state r.code).get r.code a
    (msg, a₂) ← (string host).get r.msg a₁
    (val, a₃) ← s.get r.val a₂
    ok (record { code = code; msg = msg; val = val }, a₃)
