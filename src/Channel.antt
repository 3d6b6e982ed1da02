-- ===== src/Channel.antt =====
-- include/channel.h: the channel between fibers, as a monitor.
pub mod Order
pub mod Waiting
use async_rpc.Base.{
  ℕ, leb, if◌then◌else◌, Bool, true, false, List, [], ◌∷◌, ◌++◌, length, Option, none, some,
}

-- ChannelImpl, less its mutex and condition variables.
pub record Channel (T : Type 0) : Type 0 where
  pub is_closed : Bool
  pub capacity : ℕ
  pub msg_queue : List T

-- What a section of code under the mutex ends with: a wait on the condition variable, after which
-- the same tests are made again, or the call's return value.
pub data Outcome (R : Type 0) : Type 0 where
  waits : Outcome R
  returns : R → Outcome R

module _ {T : Type 0} where
  unfoldable pub make : ℕ → Channel T
  make capacity = record { is_closed = false; capacity = capacity; msg_queue = [] }

  abbrev pub with_queue : Channel T → List T → Channel T
  with_queue c q = record { is_closed = c.is_closed; capacity = c.capacity; msg_queue = q }

  -- push, from its start or from a return of pushCv_.wait.
  unfoldable pub push : Channel T → T → Outcome Bool × Channel T
  push c t =
      if c.is_closed
      then (returns false, c)
      else if leb (c.capacity) (length (c.msg_queue))
      then (waits, c)
      else (returns true, with_queue c (c.msg_queue ++ (t ∷ [])))

  -- What pop and waitFor do with the queue: none when they return false.
  unfoldable pub take_front : Channel T → List T → Outcome (Option T) × Channel T
  take_front c [] = (waits, c)
  take_front c (t ∷ q) = (returns (some t), with_queue c q)

  -- pop, from its start or from a return of popCv_.wait.
  unfoldable pub pop : Channel T → Outcome (Option T) × Channel T
  pop c = if c.is_closed then (returns none, c) else take_front c (c.msg_queue)

  -- waitFor, from its start or from a return of popCv_.waitFor, which says whether it was in time.
  unfoldable pub wait_for : Channel T → Bool → Outcome (Option T) × Channel T
  wait_for c false = (returns none, c)
  wait_for c true = if c.is_closed then (returns none, c) else take_front c (c.msg_queue)

  unfoldable pub close : Channel T → Channel T
  close c =
      if c.is_closed then c else record { is_closed = true; capacity = c.capacity; msg_queue = [] }

  -- operator bool, size and empty.
  unfoldable pub is_open : Channel T → Bool
  is_open c = if c.is_closed then false else true

  unfoldable pub size : Channel T → ℕ
  size c = length (c.msg_queue)
