-- ===== src/FdManager.antt =====
-- src/fd_manager.cc: the contexts of file descriptors and the list that finds them.
pub mod Context
pub mod Access
use async_rpc.Base.{ℕ, ◌+◌, ◌^◌, ◌-◌, leb, if◌then◌else◌, Bool, true, false, not, ◌||◌}
use async_rpc.Base.{
  List, [], ◌∷◌, ◌++◌, length, get_elem?, set, replicate, Option, none, some, Result, ok, err,
  ◌>>=◌, bad_index,
}
use async_rpc.Base.Int.{ℤ, pos, negsuc}

pub record FdContext : Type 0 where
  pub fd : ℤ
  pub is_init : Bool
  pub is_close : Bool
  pub is_socket : Bool
  pub sys_nonblock : Bool
  pub user_nonblock : Bool
  pub send_timeout : ℕ
  pub recv_timeout : ℕ

-- The system calls on a descriptor, over the system's state: whether fstat succeeds and says
-- socket, whether the flags of F_GETFL have O_NONBLOCK, and F_SETFL with O_NONBLOCK added.
pub record System (Os : Type 0) : Type 0 where
  pub fstat : ℤ → Os → Option Bool
  pub nonblock : ℤ → Os → Bool
  pub set_nonblock : ℤ → Os → Os

-- A timeout of -1 in a uint64_t.
abbrev pub no_timeout : ℕ
no_timeout = 2 ^ 64 - 1

-- The constructor's list of initial values.
unfoldable pub fresh_context : ℤ → FdContext
fresh_context fd = record {
  fd = fd;
  is_init = false;
  is_close = false;
  is_socket = false;
  sys_nonblock = false;
  user_nonblock = false;
  send_timeout = no_timeout;
  recv_timeout = no_timeout;
}

-- setTimeout and getTimeout; the flag says that the type is SO_RCVTIMEO.
unfoldable pub set_timeout : FdContext → Bool → ℕ → FdContext
set_timeout c true time = record c { recv_timeout = time }
set_timeout c false time = record c { send_timeout = time }

unfoldable pub get_timeout : FdContext → Bool → ℕ
get_timeout c true = c.recv_timeout
get_timeout c false = c.send_timeout

module _ {Os : Type 0} (system : System Os) where
  -- What init does after fstat.
  unfoldable pub after_fstat : Option Bool → FdContext → Os → FdContext × Os
  after_fstat none c os = (record c { is_socket = false; is_init = false }, os)
  after_fstat (some true) c os = (
    record c { is_socket = true; sys_nonblock = true },
    if system.nonblock (c.fd) os then os else system.set_nonblock (c.fd) os,
  )
  after_fstat (some false) c os = (record c { is_socket = false; sys_nonblock = false }, os)

  unfoldable pub init : FdContext → Os → Bool × FdContext × Os
  init c os =
      if c.is_init
      then (true, c, os)
      else let (c', os') = after_fstat (system.fstat (c.fd) os) c os in
        let c'' : FdContext = record c' { user_nonblock = false; is_close = false } in
        (c''.is_init, c'', os')

  unfoldable pub new_context : ℤ → Os → FdContext × Os
  new_context fd os = let (_, c, os') = init (fresh_context fd) os in (c, os')

-- The contexts that were allocated, by their address, and fdContextList_, a null pointer as none.
pub record FdManager : Type 0 where
  pub contexts : List FdContext
  pub fd_context_list : List (Option ℕ)

unfoldable pub make : FdManager
make = record { contexts = []; fd_context_list = replicate 64 none }

-- fdContextList_[n]
unfoldable pub element : {A : Type 0} → Option A → Result A
element none = err bad_index
element (some a) = ok a

-- fdContextList_.size() <= fd
unfoldable pub beyond : FdManager → ℤ → Bool
beyond m (pos n) = leb (length (m.fd_context_list)) n
beyond m (negsuc n) = false

unfoldable pub entry : FdManager → ℤ → Result (Option ℕ)
entry m (pos n) = element (get_elem? (m.fd_context_list) n)
entry m (negsuc n) = err bad_index

unfoldable pub assign : FdManager → ℤ → Option ℕ → Result FdManager
assign m (negsuc n) p = err bad_index
assign m (pos n) p =
    if leb (length (m.fd_context_list)) n
    then err bad_index
    else ok record { contexts = m.contexts; fd_context_list = set (m.fd_context_list) n p }

unfoldable pub is_set : Option ℕ → Bool
is_set none = false
is_set (some a) = true

-- The part of getFdContext under the read lock: what it returns, or none when it goes on.
unfoldable pub look : FdManager → ℤ → Bool → Result (Option (Option ℕ))
look m fd auto_create =
    if beyond m fd
    then ok (if not auto_create then some none else none)
    else do p ← entry m fd; ok (if is_set p || not auto_create then some p else none)

module _ {Os : Type 0} (system : System Os) where
  -- The part of getFdContext under the write lock.
  unfoldable pub create : FdManager → ℤ → Os → Result (Option ℕ × FdManager × Os)
  create m fd os =
      let (c, os') = new_context system fd os in
      let allocated : FdManager = record {
        contexts = m.contexts ++ (c ∷ []);
        fd_context_list = m.fd_context_list;
      } in
      let p = some (length (m.contexts)) in (do m' ← assign allocated fd p; ok (p, m', os'))

  unfoldable pub get_fd_context : FdManager → ℤ → Bool → Os → Result (Option ℕ × FdManager × Os)
  get_fd_context m fd auto_create os = do
    early ← look m fd auto_create
    elim early [ some p ↦ ok (p, m, os) | none ↦ create m fd os ]

unfoldable pub del_fd_context : FdManager → ℤ → Result FdManager
del_fd_context m fd = if beyond m fd then ok m else do _ ← entry m fd; assign m fd none
