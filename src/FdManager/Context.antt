-- ===== src/FdManager/Context.antt =====
-- What a new context of src/fd_manager.cc says of its descriptor.
use async_rpc.Base.{
  ℕ, ◌^◌, ◌-◌, if◌then◌else◌, Bool, true, false, not, ◌≡◌, refl, Option, none, some,
}
use async_rpc.Base.Int.{ℤ}
use async_rpc.FdManager.{
  FdContext, System, fresh_context, after_fstat, init, new_context, set_timeout, get_timeout,
}

-- Whether fstat says that the descriptor is a socket.
abbrev pub says_socket : Option Bool → Bool
says_socket none = false
says_socket (some b) = b

-- A context that was just made, by whether its descriptor is a socket.
abbrev pub context_for : ℤ → Bool → FdContext
context_for fd socket = record {
  fd = fd;
  is_init = false;
  is_close = false;
  is_socket = socket;
  sys_nonblock = socket;
  user_nonblock = false;
  send_timeout = 2 ^ 64 - 1;
  recv_timeout = 2 ^ 64 - 1;
}

module _ {Os : Type 0} (system : System Os) where
  new_context_case :
      (p : Option Bool) (fd : ℤ) (os : Os)
      → system.fstat fd os ≡ p
      → new_context system fd os ≡ (
        context_for fd (says_socket p),
        if says_socket p
            then (if system.nonblock fd os then os else system.set_nonblock fd os)
            else os,
      )
  unfolding new_context init fresh_context after_fstat
  new_context_case none fd os e = rw (e) refl
  new_context_case (some true) fd os e = rw (e) refl
  new_context_case (some false) fd os e = rw (e) refl

  -- A new context is never marked as initialised; it is a socket, and nonblocking, exactly when
  -- fstat says socket, and then, and only then, a descriptor that is not nonblocking is made so;
  -- the user has not asked for that, and both timeouts are -1.
  pub new_context_lem :
      (fd : ℤ) (os : Os)
      → new_context system fd os ≡ (
        context_for fd (says_socket (system.fstat fd os)),
        if says_socket (system.fstat fd os)
            then (if system.nonblock fd os then os else system.set_nonblock fd os)
            else os,
      )
  new_context_lem fd os = new_context_case (system.fstat fd os) fd os refl

-- The timeout that is set is the one that is read back for the same direction, and the other
-- direction keeps its own.
get_timeout-set_timeout :
    (c : FdContext) (receive : Bool) (time : ℕ)
    → (get_timeout (set_timeout c receive time) receive ≡ time)
      × (get_timeout (set_timeout c receive time) (not receive) ≡ get_timeout c (not receive))
unfolding get_timeout set_timeout
get_timeout-set_timeout c true time = (refl, refl)
get_timeout-set_timeout c false time = (refl, refl)
