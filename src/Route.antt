-- ===== src/Route.antt =====
-- include/rpc/route_strategy.h: how a client chooses among the addresses of a service.
pub mod Polling
use async_rpc.Base.{
  ℕ, zero, suc, ◌+◌, ◌-◌, ◌%◌, ◌^◌, leb, ltb, Bool, true, false, ◌==◌, if◌then◌else◌,
}
use async_rpc.Base.{
  List, [], ◌∷◌, length, get_elem?, Option, none, some, Result, ok, err, ◌>>=◌, bad_index,
}
use async_rpc.Base.Int.{ℤ, pos, negsuc, to_int}

pub data Strategy : Type 0 where
  random polling hash_ip : Strategy

-- The classes that implement RouteStrategy.
pub data Route : Type 0 where
  random_route polling_route hash_ip_route : Route

-- RouteEngine::queryStrategy; the default branch is never taken.
unfoldable pub query_strategy : Strategy → Route
query_strategy random = random_route
query_strategy polling = polling_route
query_strategy hash_ip = hash_ip_route

-- The comparison of two ints by >=.
unfoldable pub at_least : ℤ → ℤ → Bool
at_least (pos i) (pos n) = leb n i
at_least (pos i) (negsuc n) = true
at_least (negsuc i) (pos n) = false
at_least (negsuc i) (negsuc n) = leb i n

module _ {A : Type 0} where
  -- list[i]
  unfoldable pub at : List A → ℕ → Result A
  at [] i = err bad_index
  at (x ∷ xs) zero = ok x
  at (x ∷ xs) (suc i) = at xs i

  -- list[n % list.size()]: a remainder by zero is undefined.
  unfoldable pub at_mod : List A → ℕ → Result A
  at_mod list n = if length list == 0 then err bad_index else at list (n % length list)

  -- RandomRouteStrategyImpl::select, by what rand() returned.
  unfoldable pub select_random : ℕ → List A → Result A
  select_random rand list = at_mod list rand

  -- list[i] for an int: a negative index is out of bounds.
  unfoldable pub select_at : ℤ → List A → Result (A × ℤ)
  select_at (negsuc n) list = err bad_index
  select_at (pos i) list = do x ← at list i; ok (x, pos (i + 1))

  -- PollingRouteStrategyImpl::select: the element, and the new index_. index_ is less than an int
  -- when it is raised, so it does not overflow.
  unfoldable pub select_polling : ℤ → List A → Result (A × ℤ)
  select_polling i list = select_at (if at_least i (to_int (length list)) then pos 0 else i) list

  -- HashIPRouteStrategyImpl::select, by the host address, its hash and what rand() would return.
  unfoldable pub select_hash_ip : List ℕ → (List ℕ → ℕ) → ℕ → List A → Result A
  select_hash_ip host hash rand list =
      if length host == 0 then select_random rand list else at_mod list (hash host)

  -- The elements of `n` calls one after the other, and the last index_.
  unfoldable pub select_times : ℕ → ℤ → List A → Result (List A × ℤ)
  select_times zero i list = ok ([], i)
  select_times (suc n) i list = do
    (x, i') ← select_polling i list
    (xs, i'') ← select_times n i' list
    ok (x ∷ xs, i'')
