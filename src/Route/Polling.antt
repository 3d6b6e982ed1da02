-- ===== src/Route/Polling.antt =====
-- The choices of include/rpc/route_strategy.h stay in the list, and polling goes round it.
use native.Mathlib.Nat.{mod-lt}
use async_rpc.Base.{
  ℕ, zero, suc, ◌+◌, ◌%◌, ◌≤◌, ◌<◌, leb, ◌==◌, arith, Bool, true, false, ◌^◌, if◌then◌else◌, subst,
  ◌≡◌, refl, sym, ap, ap₂, ◌∙◌, ◌⊎◌, inl, inr,
}
use async_rpc.Base.{List, [], ◌∷◌, length, drop, drop-all, get_elem?, some, ok, err, bad_index}
use async_rpc.Base.Int.{ℤ, pos, negsuc, to_int-small}
use async_rpc.Route.{
  at, at_mod, select_random, select_at, at_least, select_polling, select_hash_ip, select_times,
}

module _ {A : Type 0} where
  at_lem :
      (xs : List A) (i : ℕ)
      → i < length xs
      → (x : A) × (at xs i ≡ ok x) × (get_elem? xs i ≡ some x) × (drop i xs ≡ x ∷ drop (suc i) xs)
  unfolding at
  at_lem [] i h = absurd (omega arith)
  at_lem (x ∷ xs) zero h = (x, refl, refl, refl)
  at_lem (x ∷ xs) (suc i) h = at_lem xs i (omega arith)

  -- One call from an index within the list takes the element there.
  polling_step :
      (xs : List A) (i : ℕ) {x : A}
      → i < length xs
      → length xs < 2 ^ 31
      → at xs i ≡ ok x
      → select_polling (pos i) xs ≡ ok (x, pos (suc i))
  unfolding select_polling select_at at_least
  polling_step xs i {x} h b e =
      let le : leb (length xs) i ≡ false = ground arith in
      rw (to_int-small (length xs) b, le, e) (ap (λ j. ok (x, pos j)) (omega arith))

  -- From index `i`, calls up to the end of the list give the elements from there on in order.
  polling_rest :
      (n : ℕ) (xs : List A) (i : ℕ)
      → i + n ≡ length xs
      → length xs < 2 ^ 31
      → select_times n (pos i) xs ≡ ok (drop i xs, pos (length xs))
  unfolding select_times
  polling_rest zero xs i h b =
      ap₂ (λ l k. ok (l, pos k)) (sym (drop-all i xs (omega arith))) (omega arith)
  polling_rest (suc n) xs i h b =
      let (x, e, _, d) = at_lem xs i (omega arith) in
      rw (polling_step xs i (omega arith) b e, polling_rest n xs (suc i) (omega arith) b)
        (ap (λ l. ok (l, pos (length xs))) (sym d))

  -- An index past the list counts as 0.
  wrapped :
      (xs : List A) (i : ℕ)
      → length xs ≤ i
      → length xs < 2 ^ 31
      → select_polling (pos i) xs ≡ select_polling (pos 0) xs
  unfolding select_polling at_least
  wrapped xs i h b =
      let le : leb (length xs) i ≡ true = ground arith in
      rw (to_int-small (length xs) b, le) (sym (first (leb (length xs) 0)))
    where
      first : (b : Bool) → select_at (if b then pos 0 else pos 0) xs ≡ select_at (pos 0) xs
      first true = refl
      first false = refl

  select_times-wrapped :
      (n : ℕ) (xs : List A) (i : ℕ)
      → length xs ≤ i
      → length xs < 2 ^ 31
      → select_times (suc n) (pos i) xs ≡ select_times (suc n) (pos 0) xs
  unfolding select_times
  select_times-wrapped n xs i h b = rw (wrapped xs i h b) refl

  -- As many calls of the polling select as a nonempty list of fewer than 2^31 elements has
  -- elements, the first one with index 0 or with an index past the list, return every element once
  -- and in the order of the list, and leave the index past the list.
  pub select_times-round :
      (xs : List A) (i : ℕ)
      → (i ≡ 0) ⊎ (length xs ≤ i)
      → 0 < length xs
      → length xs < 2 ^ 31
      → select_times (length xs) (pos i) xs ≡ ok (xs, pos (length xs))
  select_times-round [] i h p b = absurd (omega arith)
  select_times-round (x ∷ xs) i (inl e) p b =
      subst
        (λ j. select_times (length (x ∷ xs)) (pos j) (x ∷ xs) ≡ ok (x ∷ xs, pos (length (x ∷ xs))))
        (sym e) (polling_rest (length (x ∷ xs)) (x ∷ xs) 0 (omega arith) b)
  select_times-round (x ∷ xs) i (inr h) p b =
      select_times-wrapped (length xs) (x ∷ xs) i h b
      ∙ polling_rest (length (x ∷ xs)) (x ∷ xs) 0 (omega arith) b

  -- A remainder by the length picks an element of a nonempty list.
  at_mod_lem :
      (xs : List A) (n : ℕ)
      → 0 < length xs
      → (x : A) × (at_mod xs n ≡ ok x) × (get_elem? xs (n % length xs) ≡ some x)
  unfolding at_mod
  at_mod_lem xs n h =
      let (x, e, g, _) = at_lem xs (n % length xs) (mod-lt n h) in
      let ne : (length xs == 0) ≡ false = ground arith in (x, rw (ne) e, g)

  -- On a nonempty list the choice by the hash of the host's address gives the same element at each
  -- call, whatever rand() returns, when the host has an address; without one it is the random
  -- choice.
  pub select_hash_ip_lem :
      (c : ℕ) (cs : List ℕ) (hash : List ℕ → ℕ) (r r' : ℕ) (xs : List A)
      → 0 < length xs
      → (x : A) × (select_hash_ip (c ∷ cs) hash r xs ≡ ok x)
        × (select_hash_ip (c ∷ cs) hash r' xs ≡ ok x)
        × (select_hash_ip [] hash r xs ≡ select_random r xs)
  unfolding select_hash_ip
  select_hash_ip_lem c cs hash r r' xs h =
      let (x, e, _) = at_mod_lem xs (hash (c ∷ cs)) h in
      let ne : (suc (length cs) == 0) ≡ false = ground arith in (x, rw (ne) e, rw (ne) e, refl)

  at_mod-empty : (n : ℕ) → at_mod {A = A} [] n ≡ err bad_index
  unfolding at_mod
  at_mod-empty n = refl

  select_at-empty : (i : ℤ) → select_at {A = A} i [] ≡ err bad_index
  unfolding select_at at
  select_at-empty (pos n) = refl
  select_at-empty (negsuc n) = refl

  -- Every strategy fails on an empty list.
  select-empty :
      (host : List ℕ) (hash : List ℕ → ℕ) (r : ℕ) (i : ℤ)
      → (select_random {A = A} r [] ≡ err bad_index)
        × (select_polling {A = A} i [] ≡ err bad_index)
        × (select_hash_ip {A = A} host hash r [] ≡ err bad_index)
  unfolding select_random select_polling select_hash_ip
  select-empty [] hash r i = (at_mod-empty r, select_at-empty _, at_mod-empty r)
  select-empty (c ∷ cs) hash r i =
      let ne : (suc (length cs) == 0) ≡ false = ground arith in
      (at_mod-empty r, select_at-empty _, rw (ne) (at_mod-empty (hash (c ∷ cs))))
