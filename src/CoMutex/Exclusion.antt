-- ===== src/CoMutex/Exclusion.antt =====
-- What the steps of src/mutex.cc keep, and what they do not.
use async_rpc.Base.{ℕ, Bool, true, false, List, [], ◌∷◌, ◌++◌, ◌≡◌, ◌≢◌, refl, sym, ap, ◌∙◌, arith}
use async_rpc.CoMutex.{
  Place, outside, testing, trying, queueing, asleep, acquired, inside, CoMutex, move, unlocked,
  Step, Run, stay, step, new_mutex, Paired, AllPaired,
}

-- The fiber has taken the mutex.
abbrev pub owns : Place → Bool
owns acquired = true
owns inside = true
owns _ = false

-- At most one fiber has the mutex, then it is locked, and an id in fiber_id_ is the owner's.
pub record Exclusive (m : CoMutex) : Type 0 where
  pub owner_locks : (f : ℕ) → owns (m.place f) ≡ true → m.locked ≡ true
  pub one_owner : (f g : ℕ) → owns (m.place f) ≡ true → owns (m.place g) ≡ true → f ≡ g
  pub id_owns : (f : ℕ) → f ≢ 0 → m.fiber_id ≡ f → owns (m.place f) ≡ true

-- A move to a place outside of the mutex makes no new owner.
owns-move :
    (f g : ℕ) (p : Place) (place : ℕ → Place)
    → owns p ≡ false
    → owns (move f p place g) ≡ true
    → owns (place g) ≡ true
owns-move f g p place h k = ground arith

outside_keeps :
    (f g : ℕ) (p : Place) (place : ℕ → Place)
    → owns (place f) ≡ false
    → owns (place g) ≡ true
    → owns (move f p place g) ≡ true
outside_keeps f g p place h k = ground arith

same_place :
    (f g : ℕ) (p : Place) (place : ℕ → Place)
    → owns p ≡ false
    → owns (move f p place g) ≡ true
    → g ≢ f
same_place f g p place h k = ground arith

move_self : (g : ℕ) (p : Place) (place : ℕ → Place) → move g p place g ≡ p
move_self g p place = ground arith

outside_differs : false ≢ true
outside_differs h = cc

module _ {m : CoMutex} (v : Exclusive m) (f : ℕ) where
  -- A fiber goes from one place outside of the mutex to another.
  move-Exclusive :
      (p : Place) (queue submitted : List ℕ)
      → owns (m.place f) ≡ false
      → owns p ≡ false
      → Exclusive (record {
        locked = m.locked;
        fiber_id = m.fiber_id;
        wait_queue = queue;
        submitted = submitted;
        place = move f p m.place;
      })
  move-Exclusive p queue submitted before h = record {
    owner_locks = λ g k. v.owner_locks g (owns-move f g p m.place h k);
    one_owner =
        λ g g' k k'. v.one_owner g g' (owns-move f g p m.place h k) (owns-move f g' p m.place h k');
    id_owns = λ g nonzero same. outside_keeps f g p m.place before (v.id_owns g nonzero same);
  }

  -- The mutex was free, so the fiber is its only owner.
  acquire-Exclusive :
      owns (m.place f) ≡ false
      → m.locked ≡ false
      → Exclusive (record m { locked = true; place = move f acquired m.place })
  acquire-Exclusive there free = record {
    owner_locks = λ g k. refl;
    one_owner = λ g g' k k'. only g k ∙ sym (only g' k');
    id_owns = λ g nonzero same. outside_keeps f g acquired m.place there (v.id_owns g nonzero same);
  }
    where
      only : (g : ℕ) → owns (move f acquired m.place g) ≡ true → g ≡ f
      only g k = let h = v.owner_locks g in ground arith

  -- The owner goes on inside of the mutex.
  return-Exclusive :
      m.place f ≡ acquired → Exclusive (record m { fiber_id = f; place = move f inside m.place })
  return-Exclusive there = record {
    owner_locks = λ g k. v.owner_locks g (before g k);
    one_owner = λ g g' k k'. v.one_owner g g' (before g k) (before g' k');
    id_owns = λ g nonzero same.
        ap owns (ap (move f inside m.place) (sym same) ∙ move_self f inside m.place);
  }
    where
      before : (g : ℕ) → owns (move f inside m.place g) ≡ true → owns (m.place g) ≡ true
      before g k = let t = ap owns there in ground arith

  unlock-Exclusive : m.place f ≡ inside → Exclusive (unlocked m f)
  unfolding unlocked
  unlock-Exclusive there = record {
    owner_locks = λ g k. absurd (nobody g k);
    one_owner = λ g g' k k'. absurd (nobody g k);
    id_owns = λ g nonzero same. absurd (nonzero (sym same));
  }
    where
      nobody : (g : ℕ) → owns (move f outside m.place g) ≡ true → ⊥
      nobody g k =
          same_place f g outside m.place refl k
            (v.one_owner g f (owns-move f g outside m.place refl k) (ap owns there))

  Step-Exclusive : {m' : CoMutex} → f ≢ 0 → (s : Step f m m') → Paired s → Exclusive m'
  Step-Exclusive nonzero (Step.enter h k) paired = move-Exclusive testing _ _ (ap owns h) refl
  Step-Exclusive nonzero (Step.enter_again h k) paired =
      absurd (outside_differs (sym (ap owns h) ∙ v.id_owns f nonzero k))
  Step-Exclusive nonzero (Step.enter_inside h k) paired = absurd paired
  Step-Exclusive nonzero (Step.test_succeeds h k) paired = acquire-Exclusive (ap owns h) k
  Step-Exclusive nonzero (Step.test_fails h k) paired = move-Exclusive trying _ _ (ap owns h) refl
  Step-Exclusive nonzero (Step.try_succeeds h k) paired = acquire-Exclusive (ap owns h) k
  Step-Exclusive nonzero (Step.try_fails h k) paired = move-Exclusive queueing _ _ (ap owns h) refl
  Step-Exclusive nonzero (Step.queue h) paired = move-Exclusive asleep _ _ (ap owns h) refl
  Step-Exclusive nonzero (Step.resume before rest h k) paired =
      move-Exclusive testing _ _ (ap owns h) refl
  Step-Exclusive nonzero (Step.return_locked h) paired = return-Exclusive h
  Step-Exclusive nonzero (Step.unlock h) paired = unlock-Exclusive h
  Step-Exclusive nonzero (Step.unlock_again h) paired = absurd paired

new_mutex-Exclusive : Exclusive (new_mutex 0)
new_mutex-Exclusive = record {
  owner_locks = λ f h. cc;
  one_owner = λ f g h k. cc;
  id_owns = λ f nonzero same. absurd (nonzero (sym same));
}

-- On a mutex whose fiber_id_ happens to start as 0, after any steps, in any order, of fibers that
-- never call lock while they have the mutex and call unlock only when they have it: at most one
-- fiber has the mutex, the mutex is locked while one has it, and a nonzero id in fiber_id_ is the
-- owner's.
pub run-Exclusive : {m : CoMutex} (run : Run (new_mutex 0) m) → AllPaired run → Exclusive m
run-Exclusive stay paired = new_mutex-Exclusive
run-Exclusive (step f nonzero run s) (paired, last) =
    Step-Exclusive (run-Exclusive run paired) f nonzero s last

no_member : (before : List ℕ) (g : ℕ) (rest : List ℕ) → [] ≢ before ++ g ∷ rest
no_member [] g rest h = cc
no_member (x ∷ before) g rest h = cc

-- A suspended fiber takes no step while nothing is submitted.
asleep_waits : (g : ℕ) {m m' : CoMutex} → m.place g ≡ asleep → m.submitted ≡ [] → Step g m m' → ⊥
asleep_waits g a n (Step.enter h k) = cc
asleep_waits g a n (Step.enter_again h k) = cc
asleep_waits g a n (Step.enter_inside h k) = cc
asleep_waits g a n (Step.test_succeeds h k) = cc
asleep_waits g a n (Step.test_fails h k) = cc
asleep_waits g a n (Step.try_succeeds h k) = cc
asleep_waits g a n (Step.try_fails h k) = cc
asleep_waits g a n (Step.queue h) = cc
asleep_waits g a n (Step.resume before rest h k) = no_member before g rest (sym n ∙ k)
asleep_waits g a n (Step.return_locked h) = cc
asleep_waits g a n (Step.unlock h) = cc
asleep_waits g a n (Step.unlock_again h) = cc

move_other : (f g : ℕ) (p : Place) (place : ℕ → Place) → f ≢ g → move f p place g ≡ place g
move_other f g p place h = ground arith

-- When a fiber holds the mutex, another has failed both tries and has not queued yet, no fiber
-- waits in the queue and none is submitted: a run leads to a state in which the mutex is free, the
-- other fiber is asleep, nothing is submitted, and the other fiber has no step.
pub lost_wakeup :
    (m : CoMutex) (f g : ℕ)
    → f ≢ 0
    → g ≢ 0
    → f ≢ g
    → m.place f ≡ inside
    → m.place g ≡ queueing
    → m.wait_queue ≡ []
    → m.submitted ≡ []
    → (m' : CoMutex) × Run m m'
      × (m'.locked ≡ false)
      × (m'.place g ≡ asleep)
      × (m'.submitted ≡ [])
      × ((m'' : CoMutex) → Step g m' m'' → ⊥)
unfolding unlocked
lost_wakeup m f g f_nonzero g_nonzero differ there waits empty none =
    let free = unlocked m f in
    let m' : CoMutex = record free {
      wait_queue = free.wait_queue ++ g ∷ [];
      place = move g asleep free.place;
    } in
    let at_g : m'.place g ≡ asleep = move_self g asleep free.place in
    let nobody : m'.submitted ≡ [] = rw (none, empty) refl in
    (
      m',
      step g g_nonzero (step f f_nonzero stay (Step.unlock there))
          (Step.queue (move_other f g outside m.place differ ∙ waits)),
      refl,
      at_g,
      nobody,
      λ m'' s. asleep_waits g at_g nobody s,
    )
