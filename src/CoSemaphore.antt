-- ===== src/CoSemaphore.antt =====
-- CoSemaphore of src/mutex.cc: a number of permits, given out under a CoMutex. Fibers are taken to
-- have the mutex one at a time, so that what wait does from its lock to the end, or to the
-- suspension in var_.wait, is one step, and so is notify.
pub mod Permits
use async_rpc.Base.{
  ℕ, ◌+◌, ◌-◌, ◌%◌, ◌^◌, ltb, leb, if◌then◌else◌, Bool, true, false, List, ◌∷◌, ◌++◌, ◌≡◌, ◌≢◌,
}
use async_rpc.CoCondVar
use async_rpc.CoCondVar.{CoCondVar, new_cond_var}

-- num_, used_ and var_. The fibers that var_ submitted are those that have not got the mutex again.
pub record CoSemaphore : Type 0 where
  pub num : ℕ
  pub used : ℕ
  pub var : CoCondVar

abbrev pub new_semaphore : ℕ → CoSemaphore
new_semaphore count = record { num = count; used = 0; var = new_cond_var }

unfoldable pub notify : CoSemaphore → CoSemaphore
notify s = record s {
  used = if ltb 0 s.used then s.used - 1 else s.used;
  var = CoCondVar.notify s.var;
}

-- The loop of wait by fiber `f` under the mutex: whether it is past the loop, and the state; false
-- where it waits on var_. What addTimer returns is an argument.
unfoldable pub pass : ℕ → ℕ → CoSemaphore → Bool × CoSemaphore
pass fresh f s =
    if leb s.num s.used
    then (false, record s { var = CoCondVar.wait fresh f s.var })
    else (true, record s { used = (s.used + 1) % 2 ^ 32 })

-- A submitted fiber no longer waits for the mutex.
abbrev pub taken : List ℕ → CoSemaphore → CoSemaphore
taken submitted s = record s { var = record s.var { submitted = submitted } }

abbrev pub count : Bool → ℕ → ℕ
count true n = n + 1
count false n = n

-- The runs of a semaphore of `num` permits, with how often wait went past its loop and how often
-- notify found a permit in use.
pub data Run (num : ℕ) : ℕ → ℕ → CoSemaphore → Type 0 where
  start : Run num 0 0 (new_semaphore num)
  wait :
      {passed freed : ℕ} {s s' : CoSemaphore} {through : Bool}
      → Run num passed freed s
      → (fresh f : ℕ) → f ≢ 0
      → pass fresh f s ≡ (through, s')
      → Run num (count through passed) freed s'
  wait_again :
      {passed freed : ℕ} {s s' : CoSemaphore} {through : Bool}
      → Run num passed freed s
      → (before : List ℕ) (fresh f : ℕ) (rest : List ℕ) → f ≢ 0
      → s.var.submitted ≡ before ++ f ∷ rest
      → pass fresh f (taken (before ++ rest) s) ≡ (through, s')
      → Run num (count through passed) freed s'
  notified :
      {passed freed : ℕ} {s : CoSemaphore}
      → Run num passed freed s
      → Run num passed (count (ltb 0 s.used) freed) (notify s)
