-- ===== src/CoSemaphore/Permits.antt =====
-- What the steps of CoSemaphore in src/mutex.cc keep.
use async_rpc.Base.{
  ℕ, Option, ◌+◌, ◌-◌, ◌%◌, ◌^◌, ◌≤◌, ◌<◌, ltb, leb, if◌then◌else◌, Bool, List, [], ◌∷◌, ◌++◌,
  length, length-append, ◌≡◌, ◌≢◌, refl, ap, sym, subst, ◌∙◌, ◌⊎◌, inl, inr, arith, Bool-cases,
}
use async_rpc.CoCondVar
use async_rpc.CoCondVar.{CoCondVar, as_list, take_first}
use async_rpc.CoCondVar.Waking.{
  NonNull, insert-NonNull, take_first_lem, take_first-nil, first-NonNull,
}
use async_rpc.CoSemaphore.{CoSemaphore, notify, pass, taken, count, Run}

-- The permits in use are those passed less those freed, and at most all; and when a fiber waits, so
-- many submitted ones will try again that no free permit is left over.
pub record Balanced (num passed freed : ℕ) (s : CoSemaphore) : Type 0 where
  pub num_kept : s.num ≡ num
  pub bounded : s.used ≤ num
  pub balanced : s.used + freed ≡ passed
  pub non_null : NonNull s.var.wait_queue
  pub awake : (s.var.wait_queue ≡ []) ⊎ (num ≤ s.used + length s.var.submitted)

abbrev less : ℕ → ℕ
less used = if ltb 0 used then used - 1 else used

less-below : (used num : ℕ) → used ≤ num → less used ≤ num
less-below used num h = ground arith

less-balanced :
    (used freed passed : ℕ) → used + freed ≡ passed → less used + count (ltb 0 used) freed ≡ passed
less-balanced used freed passed h = ground arith

less-submitted : (used n num : ℕ) → num ≤ used + n → num ≤ less used + (n + 1)
less-submitted used n num h = ground arith

module _ (num passed freed : ℕ) (s : CoSemaphore) where
  -- One more fiber was submitted, unless none waits.
  notify-awake :
      (fiber : Option ℕ)
      → length (as_list fiber) ≡ 1
      → num ≤ s.used + length s.var.submitted
      → num ≤ less s.used + length (s.var.submitted ++ as_list fiber)
  notify-awake fiber one h = omega (
    arith,
    less-submitted s.used (length s.var.submitted) num h,
    length-append s.var.submitted (as_list fiber),
    one,
  )

  awake_behind :
      (s.var.wait_queue ≡ []) ⊎ (num ≤ s.used + length s.var.submitted)
      → (s.var.wait_queue ≡ []) ⊎ (length (as_list (take_first s.var.wait_queue).0) ≡ 1)
      → ((take_first s.var.wait_queue).1 ≡ [])
        ⊎ (num ≤ less s.used + length (s.var.submitted ++ as_list (take_first s.var.wait_queue).0))
  awake_behind (inl empty) _ = inl (ap (λ q. (take_first q).1) empty ∙ take_first-nil)
  awake_behind (inr enough) (inl empty) = inl (ap (λ q. (take_first q).1) empty ∙ take_first-nil)
  awake_behind (inr enough) (inr one) = inr (notify-awake _ one enough)

  notify-Balanced :
      Balanced num passed freed s → Balanced num passed (count (ltb 0 s.used) freed) (notify s)
  unfolding notify CoCondVar.notify
  notify-Balanced v = record {
    num_kept = v.num_kept;
    bounded = less-below s.used num v.bounded;
    balanced = less-balanced s.used freed passed v.balanced;
    non_null = first-NonNull s.var.wait_queue v.non_null;
    awake = awake_behind v.awake (take_first_lem s.var.wait_queue v.non_null);
  }

  -- A fiber goes through the loop, or waits; a submitted one is no longer counted.
  pass-Balanced :
      s.num ≡ num
      → num < 2 ^ 32
      → s.used ≤ num
      → s.used + freed ≡ passed
      → NonNull s.var.wait_queue
      → (s.var.wait_queue ≡ []) ⊎ (num ≤ (s.used + 1) + length s.var.submitted)
      → (fresh f : ℕ) → f ≢ 0
      → Balanced num (count (pass fresh f s).0 passed) freed (pass fresh f s).1
  unfolding pass CoCondVar.wait
  pass-Balanced same few b e nonnull slack fresh f h = elim (Bool-cases (leb s.num s.used)) [
    | inl full ↦ rw full (record {
      num_kept = same;
      bounded = b;
      balanced = e;
      non_null = insert-NonNull f s.var.wait_queue h nonnull;
      awake = inr (ground (arith, full, same));
    })
    | inr room ↦
        let bound : s.used < num = ground (arith, room, same) in
        let kept : (s.used + 1) % 2 ^ 32 ≡ s.used + 1 = ground (arith, bound, few) in
        rw room (record {
          num_kept = same;
          bounded = omega (arith, bound, kept);
          balanced = omega (arith, e, kept);
          non_null = nonnull;
          awake =
              subst (λ n. (s.var.wait_queue ≡ []) ⊎ (num ≤ n + length s.var.submitted)) (sym kept)
                slack;
        })
  ]

one_more : (num used n : ℕ) {Q : Type 0} → Q ⊎ (num ≤ used + n) → Q ⊎ (num ≤ (used + 1) + n)
one_more num used n (inl q) = inl q
one_more num used n (inr h) = inr (omega (arith, h))

one_taken :
    (num used : ℕ) (before : List ℕ) (f : ℕ) (rest : List ℕ) {Q : Type 0}
    → Q ⊎ (num ≤ used + length (before ++ f ∷ rest))
    → Q ⊎ (num ≤ (used + 1) + length (before ++ rest))
one_taken num used before f rest (inl q) = inl q
one_taken num used before f rest (inr h) =
    inr (omega (arith, h, length-append before (f ∷ rest), length-append before rest))

-- After any steps of wait and notify on a new semaphore of fewer than 2^32 permits, each under its
-- mutex and by fibers that are not null: the permits in use are at most all, and are as many as
-- waits went through less the notifies that found one in use; and when a fiber is in the queue of
-- var_, as many fibers are submitted and will test again as there are permits not in use, or more.
pub run-Balanced :
    {num : ℕ}
    → num < 2 ^ 32
    → {passed freed : ℕ} {s : CoSemaphore} → Run num passed freed s
    → Balanced num passed freed s
run-Balanced {num} few Run.start = record {
  num_kept = refl;
  bounded = omega arith;
  balanced = refl;
  non_null = tt;
  awake = inl refl;
}
run-Balanced {num} few (Run.wait {passed = passed} {freed = freed} {s = s} run fresh f h e) =
    let v = run-Balanced few run in
    subst (λ (r : Bool × CoSemaphore). Balanced num (count r.0 passed) freed r.1) e
      (pass-Balanced num passed freed s v.num_kept few v.bounded v.balanced v.non_null
        (one_more num s.used _ v.awake) fresh f h)
run-Balanced {num} few
      (Run.wait_again {passed = passed} {freed = freed} {s = s} run before fresh f rest h there e) =
    let v = run-Balanced few run in
    let awake = subst (λ l. (s.var.wait_queue ≡ []) ⊎ (num ≤ s.used + length l)) there v.awake in
    subst (λ (r : Bool × CoSemaphore). Balanced num (count r.0 passed) freed r.1) e
      (pass-Balanced num passed freed (taken (before ++ rest) s) v.num_kept few v.bounded v.balanced
        v.non_null (one_taken num s.used before f rest awake) fresh f h)
run-Balanced {num} few (Run.notified {passed = passed} {freed = freed} {s = s} run) =
    notify-Balanced num passed freed s (run-Balanced few run)
