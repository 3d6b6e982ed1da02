-- ===== src/Timer.antt =====
-- src/timer.cc: timers, and the set that orders them by when they are due.
pub mod Order
pub mod Invariant
pub mod Deadlines
mod Expiry
pub mod Due
use async_rpc.Base.{
  ℕ, ◌+◌, ◌-◌, ◌%◌, ◌^◌, ltb, leb, ◌==◌, if◌then◌else◌, Bool, true, false, not, ◌&&◌,
}
use async_rpc.Base.{List, [], ◌∷◌, ◌++◌, map, Option, none, some, Result, ok, err, ◌>>=◌, bad_index}

-- A std::set of timers by Comparator: addresses, each with its next_ by the function.
module _ (next_of : ℕ → ℕ) where
  -- Comparator::operator()
  unfoldable pub less : ℕ → ℕ → Bool
  less lhs rhs =
      if ltb (next_of lhs) (next_of rhs)
      then true
      else if ltb (next_of rhs) (next_of lhs)
      then false
      else ltb lhs rhs

  -- insert, which leaves a set alone that has the timer.
  unfoldable pub insert : ℕ → List ℕ → List ℕ
  insert x [] = x ∷ []
  insert x (y ∷ ys) =
      let rest = insert x ys in
      if less y x then y ∷ rest else if less x y then x ∷ y ∷ ys else y ∷ ys

  -- Whether find is not end().
  unfoldable pub find : ℕ → List ℕ → Bool
  find x [] = false
  find x (y ∷ ys) = let rest = find x ys in if less y x then rest else not (less x y)

  -- erase of what find returned, when that is not end().
  unfoldable pub erase : ℕ → List ℕ → List ℕ
  erase x [] = []
  erase x (y ∷ ys) =
      let rest = erase x ys in if less y x then y ∷ rest else if less x y then y ∷ ys else ys

  -- What stands before upper_bound, and from there on.
  unfoldable pub before : ℕ → List ℕ → List ℕ
  before x [] = []
  before x (y ∷ ys) = let rest = before x ys in if less x y then [] else y ∷ rest

  unfoldable pub from : ℕ → List ℕ → List ℕ
  from x [] = []
  from x (y ∷ ys) = let rest = from x ys in if less x y then y ∷ ys else rest

-- Whether a timer is the first one.
unfoldable pub is_front : ℕ → List ℕ → Bool
is_front a [] = false
is_front a (b ∷ bs) = a == b

-- What happens when a timer is due is a change of the rest of the program's state; callback is none
-- for an empty std::function.
pub record Timer (S : Type 0) : Type 0 where
  pub ms : ℕ
  pub next : ℕ
  pub callback : Option (S → S)
  pub recurring : Bool

-- The timers by their address, and timers_.
pub record TimerManager (S : Type 0) : Type 0 where
  pub timer : ℕ → Timer S
  pub timers : List ℕ

module _ {S : Type 0} where
  abbrev pub next_of : TimerManager S → ℕ → ℕ
  next_of m a = (m.timer a).next

  -- Members of the timer at an address change.
  unfoldable pub store : (ℕ → Timer S) → ℕ → Timer S → ℕ → Timer S
  store timer a t b = if a == b then t else timer b

  unfoldable pub new_timer : (ms now : ℕ) → Option (S → S) → Bool → Timer S
  new_timer ms now callback recurring = record {
    ms = ms;
    next = (now + ms) % 2 ^ 64;
    callback = callback;
    recurring = recurring;
  }

  abbrev pub with_next : Timer S → ℕ → ℕ → Timer S
  with_next t ms next = record {
    ms = ms;
    next = next;
    callback = t.callback;
    recurring = t.recurring;
  }

  abbrev pub without_callback : Timer S → Timer S
  without_callback t = record { ms = t.ms; next = t.next; callback = none; recurring = t.recurring }

  -- addTimer(timer, lock), and whether onTimerInsertedAtFront is called.
  unfoldable pub add : TimerManager S → ℕ → TimerManager S × Bool
  add m a =
      let timers' = insert (next_of m) a (m.timers) in
      (record { timer = m.timer; timers = timers' }, is_front a timers')

  -- addTimer(ms, callback, recurring), with the address of the new timer and the time.
  unfoldable pub add_timer :
      TimerManager S → (a now ms : ℕ) → Option (S → S) → Bool → TimerManager S × Bool
  add_timer m a now ms callback recurring =
      add
        record {
          timer = store (m.timer) a (new_timer ms now callback recurring);
          timers = m.timers;
        }
        a

  -- onTimer, by whether the weak pointer can be locked in a state.
  unfoldable pub on_timer : (S → Bool) → (S → S) → S → S
  on_timer lock callback s = if lock s then callback s else s

  unfoldable pub add_condition_timer :
      TimerManager S → (a now ms : ℕ) → (S → S) → (S → Bool) → Bool → TimerManager S × Bool
  add_condition_timer m a now ms callback lock recurring =
      add_timer m a now ms (some (on_timer lock callback)) recurring

  unfoldable pub has_callback : Timer S → Bool
  has_callback t = elim (t.callback) [ none ↦ false | some f ↦ true ]

  -- Timer::cancel; to erase end() is undefined.
  unfoldable pub cancel : TimerManager S → ℕ → Result (Bool × TimerManager S)
  cancel m a =
      if not (has_callback (m.timer a))
      then ok (false, m)
      else let cleared = store (m.timer) a (without_callback (m.timer a)) in
        if find (next_of m) a (m.timers)
        then ok (true, record { timer = cleared; timers = erase (next_of m) a (m.timers) })
        else err bad_index

  -- Timer::refresh
  unfoldable pub refresh : TimerManager S → (a now : ℕ) → Bool × TimerManager S
  refresh m a now =
      let t = m.timer a in
      if not (has_callback t)
      then (false, m)
      else if not (find (next_of m) a (m.timers))
      then (false, m)
      else let (m', _) =
          add
            record {
              timer = store (m.timer) a (with_next t (t.ms) ((now + t.ms) % 2 ^ 64));
              timers = erase (next_of m) a (m.timers);
            }
            a in
        (true, m')

  -- The new next_ of Timer::reset.
  unfoldable pub reset_next : Timer S → (ms now : ℕ) → Bool → ℕ
  reset_next t ms now from_now =
      let start = if from_now then now else (t.next + 2 ^ 64 - ms) % 2 ^ 64 in (start + ms) % 2 ^ 64

  -- Timer::reset, with whether onTimerInsertedAtFront is called.
  unfoldable pub reset : TimerManager S → (a ms now : ℕ) → Bool → Bool × TimerManager S × Bool
  reset m a ms now from_now =
      let t = m.timer a in
      if (t.ms == ms) && not from_now
      then (true, m, false)
      else if not (has_callback t)
      then (false, m, false)
      else let (m', front) =
          add
            record {
              timer = store (m.timer) a (with_next t ms (reset_next t ms now from_now));
              timers = erase (next_of m) a (m.timers);
            }
            a in
        (true, m', front)

  -- TimerManager::getNextTimerTime; ~0ull without timers.
  unfoldable pub get_next_timer_time : TimerManager S → ℕ → ℕ
  get_next_timer_time m now = elim (m.timers) [
    | [] ↦ 2 ^ 64 - 1
    | a ∷ rest ↦ if leb (next_of m a) now then 0 else next_of m a - now
  ]

  -- What listOverTimeCallback does with one expired timer.
  unfoldable pub expire : TimerManager S → (a now : ℕ) → TimerManager S
  expire m a now =
      let t = m.timer a in
      if t.recurring
      then (add
          record {
            timer = store (m.timer) a (with_next t (t.ms) ((now + t.ms) % 2 ^ 64));
            timers = m.timers;
          }
          a).0
      else record { timer = store (m.timer) a (without_callback t); timers = m.timers }

  unfoldable pub expire_all : TimerManager S → List ℕ → ℕ → List (Option (S → S)) × TimerManager S
  expire_all m [] now = ([], m)
  expire_all m (a ∷ rest) now =
      let (cb, m') = expire_all (expire m a now) rest now in ((m.timer a).callback ∷ cb, m')

  -- next_ with the timer that only serves to search, now_timer, at its address.
  unfoldable pub with_now : TimerManager S → (probe now : ℕ) → ℕ → ℕ
  with_now m probe now a = if probe == a then now else next_of m a

  -- TimerManager::listOverTimeCallback: what it adds to cb. Without timers it returns at once.
  unfoldable pub list_over_time_callback :
      TimerManager S → (probe now : ℕ) → List (Option (S → S)) × TimerManager S
  list_over_time_callback m probe now =
      let expired = before (with_now m probe now) probe (m.timers) in
      let rest = from (with_now m probe now) probe (m.timers) in
      expire_all record { timer = m.timer; timers = rest } expired now
