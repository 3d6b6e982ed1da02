-- ===== src/Hook/Options.antt =====
-- The hooks of src/hook.cc that make, change and close descriptors, and those of the sleep family.
-- The file operations of the system on a descriptor are a record of functions on its state.
pub mod Nonblock
use async_rpc.Base.{
  ℕ, zero, suc, ◌+◌, ◌-◌, ◌*◌, ◌/◌, ◌%◌, ◌^◌, ◌==◌, if◌then◌else◌, Bool, true, false,
}
use async_rpc.Base.{
  ◌||◌, not, List, get_elem?, set, Option, none, some, Result, ok, err, ◌>>=◌, bad_index,
}
use async_rpc.Base.Int.{ℤ, pos, negsuc}
use async_rpc.FdManager.{FdContext, FdManager, System, get_fd_context, del_fd_context, set_timeout}

-- O_NONBLOCK, and `arg & O_NONBLOCK`, `arg | O_NONBLOCK` and `arg & ~O_NONBLOCK` by its place, 2^11.
abbrev pub has_nonblock : ℕ → Bool
has_nonblock arg = arg / 2 ^ 11 % 2 == 1

unfoldable pub with_nonblock : Bool → ℕ → ℕ
with_nonblock true arg = if has_nonblock arg then arg else arg + 2 ^ 11
with_nonblock false arg = if has_nonblock arg then arg - 2 ^ 11 else arg

-- fcntl_f of F_GETFL and F_SETFL, ioctl_f of FIONBIO, socket_f, close_f and cancelAllEvent.
pub record Files (Os : Type 0) : Type 0 where
  pub get_flags : ℤ → Os → ℕ
  pub set_flags : ℤ → ℕ → Os → ℤ × Os
  pub set_fionbio : ℤ → Bool → Os → ℤ × Os
  pub open_socket : Os → ℤ × Os
  pub close_file : ℤ → Os → ℤ × Os
  pub cancel_all : ℤ → Os → Os

-- `!fdctx || fdctx->isClosed() || !fdctx->isSocket()` is false.
abbrev pub is_hooked : Option FdContext → Bool
is_hooked none = false
is_hooked (some c) = not (c.is_close || not c.is_socket)

-- The context with its address, to change it.
abbrev pub Found : Type 0
Found = Option (ℕ × FdContext)

abbrev pub valued : ℕ → Option FdContext → Result Found
valued i none = err bad_index
valued i (some c) = ok (some (i, c))

abbrev pub pointed : List FdContext → Option ℕ → Result Found
pointed contexts none = ok none
pointed contexts (some i) = valued i (get_elem? contexts i)

module _ {Os : Type 0} (system : System Os) where
  unfoldable pub found : FdManager → ℤ → Os → Result Found
  found m fd os = do (p, m', os') ← get_fd_context system m fd false os; pointed m'.contexts p

abbrev pub change : FdManager → ℕ → FdContext → FdManager
change m i c = record m { contexts = set m.contexts i c }

module _ {Os : Type 0} (files : Files Os) where
  -- F_SETFL on what getFdContext found: the user's wish is kept, and the system's flag stays.
  unfoldable pub set_flags_on : Found → FdManager → ℤ → ℕ → Os → ℤ × FdManager × Os
  set_flags_on none m fd arg os = let (r, os') = files.set_flags fd arg os in (r, m, os')
  set_flags_on (some (i, c)) m fd arg os =
      let (r, os') = files.set_flags fd arg os in
      let (r', os'') = files.set_flags fd (with_nonblock c.sys_nonblock arg) os in
      if is_hooked (some c)
      then (r', change m i (record c { user_nonblock = has_nonblock arg }), os'')
      else (r, m, os')

  -- F_GETFL
  unfoldable pub get_flags_on : Found → ℤ → Os → ℕ
  get_flags_on none fd os = files.get_flags fd os
  get_flags_on (some (i, c)) fd os =
      if is_hooked (some c)
      then with_nonblock c.user_nonblock (files.get_flags fd os)
      else files.get_flags fd os

  -- FIONBIO
  unfoldable pub fionbio_on : Found → FdManager → ℤ → Bool → Os → ℤ × FdManager × Os
  fionbio_on none m fd user os = let (r, os') = files.set_fionbio fd user os in (r, m, os')
  fionbio_on (some (i, c)) m fd user os =
      let (r, os') = files.set_fionbio fd user os in
      let m' = if is_hooked (some c) then change m i (record c { user_nonblock = user }) else m in
      (r, m', os')

module _ {Os : Type 0} (system : System Os) (files : Files Os) where
  unfoldable pub fcntl_setfl : FdManager → ℤ → ℕ → Os → Result (ℤ × FdManager × Os)
  fcntl_setfl m fd arg os = do f ← found system m fd os; ok (set_flags_on files f m fd arg os)

  unfoldable pub fcntl_getfl : FdManager → ℤ → Os → Result ℕ
  fcntl_getfl m fd os = do f ← found system m fd os; ok (get_flags_on files f fd os)

  unfoldable pub ioctl_fionbio : FdManager → ℤ → Bool → Os → Result (ℤ × FdManager × Os)
  ioctl_fionbio m fd user os = do f ← found system m fd os; ok (fionbio_on files f m fd user os)

  abbrev made : FdManager → ℤ × Os → Result (ℤ × FdManager × Os)
  made m (pos n, os) = do
    (p, m', os') ← get_fd_context system m (pos n) true os
    ok (pos n, m', os')
  made m (negsuc n, os) = ok (negsuc n, m, os)

  -- socket; a descriptor below 0 is -1.
  unfoldable pub socket : Bool → FdManager → Os → Result (ℤ × FdManager × Os)
  socket enabled m os =
      let (fd, os') = files.open_socket os in if enabled then made m (fd, os') else ok (fd, m, os')

  abbrev closing : (in_manager : Bool) → Found → FdManager → ℤ → Os → Result (FdManager × Os)
  closing in_manager none m fd os = ok (m, os)
  closing in_manager (some c) m fd os = do
    m' ← del_fd_context m fd
    ok (m', if in_manager then files.cancel_all fd os else os)

  -- close; `in_manager` says that the thread has an IOManager.
  unfoldable pub close : Bool → Bool → FdManager → ℤ → Os → Result (ℤ × FdManager × Os)
  close enabled in_manager m fd os =
      let hooked = do
        f ← found system m fd os
        (m', os') ← closing in_manager f m fd os
        let (r, os'') = files.close_file fd os'
        ok (r, m', os'')
      in let (r, os') = files.close_file fd os in if enabled then hooked else ok (r, m, os')

abbrev timed : Found → FdManager → Bool → ℕ → FdManager
timed none m recv time = m
timed (some (i, c)) m recv time = change m i (set_timeout c recv time)

module _ {Os : Type 0} (system : System Os) where
  -- setsockopt of SO_RCVTIMEO, if `recv`, or SO_SNDTIMEO, in front of the original function; a
  -- timeval of numbers that are not negative.
  unfoldable pub set_socket_timeout :
      Bool → FdManager → ℤ → Bool → (sec usec : ℕ) → Os → Result FdManager
  set_socket_timeout enabled m fd recv sec usec os =
      let hooked = (do
        f ← found system m fd os
        ok (timed f m recv ((sec * 1000 + usec / 1000) % 2 ^ 64))) in
      if enabled then hooked else ok m

-- The times of the timers of sleep and usleep, whose arguments have 32 bits, and of nanosleep, an
-- int that is made a uint64_t.
unfoldable pub sleep_time : ℕ → ℕ
sleep_time seconds = seconds * 1000 % 2 ^ 32

unfoldable pub usleep_time : ℕ → ℕ
usleep_time usec = usec / 1000

unfoldable pub nanosleep_time : ℕ → ℕ → ℕ
nanosleep_time sec nsec =
    let bits = (sec * 1000 + nsec / 1000 / 1000) % 2 ^ 32 in
    if bits / 2 ^ 31 == 0 then bits else 2 ^ 64 - 2 ^ 32 + bits
