-- ===== src/Fiber/Running.antt =====
-- What src/fiber.cc keeps of the fibers of a thread: besides the main fiber only the running one has
-- the state EXEC, when fibers are resumed from the main fiber and only the others yield.
use async_rpc.Base.{ℕ, zero, suc, ◌==◌, Bool, true, false, ◌||◌, not, if◌then◌else◌}
use async_rpc.Base.{List, [], ◌∷◌, ◌++◌, get_elem?, set, Option, none, some}
use async_rpc.Base.{get_elem?-set_ne, get_elem?-snoc, get_elem?-front, get_elem?-set_there}
use async_rpc.Base.{get_elem?-set_cases, ok, err, ◌>>=◌, ok_inj}
use async_rpc.Base.{
  ◌≡◌, ◌≢◌, refl, sym, ap, ◌∙◌, subst, ◌⊎◌, inl, inr, Bool-cases, Option-cases, if_true, if_false,
  null_pointer, assertion,
}
use mathlib.Core.Option.{some_inj}
use async_rpc.Fiber.{
  State, init, hold, exec, term, ready, except, is_exec, is_idle, Fiber, Thread, existing, fiber_at,
  with_state, enable_fiber, new_fiber, resume, is_set, yield, yield_with, yield_to_hold,
  yield_to_ready, main_func, reset,
}

-- The fiber at `a`, with a state other than EXEC or EXEC.
abbrev pub Is : Thread → ℕ → Bool → Type 0
Is t a running = (f : Fiber) × (get_elem? t.fibers a ≡ some f) × (is_exec f.state ≡ running)

pub record IsValid (t : Thread) : Type 0 where
  pub main : ℕ
  pub running : ℕ
  pub main_set : t.main ≡ some main
  pub current_set : t.current ≡ some running
  pub main_runs : Is t main true
  pub current_runs : Is t running true
  pub alone :
      (a : ℕ) (f : Fiber)
      → get_elem? t.fibers a ≡ some f
      → is_exec f.state ≡ true
      → (a ≡ main) ⊎ (a ≡ running)

-- A step of the thread: the main fiber resumes one, the running fiber yields or returns, or a fiber
-- is made or given a new function.
pub data Step (t : Thread) (t' : Thread) : Type 0 where
  switch_in : (a : ℕ) → t.current ≡ t.main → resume t a ≡ ok t' → Step t t'
  to_hold : t.current ≢ t.main → yield_to_hold t ≡ ok t' → Step t t'
  to_ready : t.current ≢ t.main → yield_to_ready t ≡ ok t' → Step t t'
  return_from : t.current ≢ t.main → main_func false t ≡ ok t' → Step t t'
  create : (a func size : ℕ) → new_fiber t func size ≡ ok (a, t') → Step t t'
  renew : (a : ℕ) (func : Option ℕ) → reset t a func ≡ ok t' → Step t t'

module _ {t : Thread} (v : IsValid t) where
  -- Another fiber than the two.
  other-Is :
      (a b : ℕ) (g : Fiber)
      → b ≢ a
      → Is t b true
      → Is (record t { fibers = set t.fibers a g }) b true
  other-Is a b g ne (f, there, e) = (f, get_elem?-set_ne t.fibers g (λ h. ne (sym h)) ∙ there, e)

  idle_ne :
      (a b : ℕ) (f : Fiber)
      → get_elem? t.fibers a ≡ some f
      → is_exec f.state ≡ false
      → Is t b true
      → b ≢ a
  idle_ne a b f there idle (g, at_b, e) same = cc (sym at_b ∙ ap (get_elem? t.fibers) same ∙ there)

  resume-IsValid :
      (a : ℕ) (f : Fiber)
      → t.current ≡ t.main
      → get_elem? t.fibers a ≡ some f
      → is_exec f.state ≡ false
      → IsValid (with_state (record t { current = some a }) a f exec)
  resume-IsValid a f in_main there idle = record {
    main = v.main;
    running = a;
    main_set = v.main_set;
    current_set = refl;
    main_runs = other-Is a v.main _ (idle_ne a v.main f there idle v.main_runs) v.main_runs;
    current_runs = (record f { state = exec }, get_elem?-set_there t.fibers a _ there, refl);
    alone = λ b g h runs. elim (get_elem?-set_cases t.fibers a b _ g h) [
      | inl (same, _) ↦ inr same
      | inr (_, old) ↦ elim (v.alone b g old runs) [
        | inl e ↦ inl e
        | inr e ↦ inl (e ∙ some_inj.0 (sym v.current_set ∙ in_main ∙ v.main_set))
      ]
    ];
  }

  -- The running fiber, with another state than EXEC, leaves the thread to the main one.
  park-IsValid :
      (g : Fiber)
      → t.current ≢ t.main
      → is_exec g.state ≡ false
      → IsValid (record t { fibers = set t.fibers v.running g; current = t.main })
  park-IsValid g inside idle =
      let apart : v.main ≢ v.running =
        λ e. inside (v.current_set ∙ ap some (sym e) ∙ sym v.main_set) in
      record {
        main = v.main;
        running = v.main;
        main_set = v.main_set;
        current_set = v.main_set;
        main_runs = other-Is v.running v.main g apart v.main_runs;
        current_runs = other-Is v.running v.main g apart v.main_runs;
        alone = λ b f h runs. elim (get_elem?-set_cases t.fibers v.running b g f h) [
          | inl (_, same) ↦ cc (ap (λ (x : Fiber). is_exec x.state) same)
          | inr (ne, old) ↦ elim (v.alone b f old runs) [ inl e ↦ inl e | inr e ↦ absurd (ne e) ]
        ];
      }

  -- A fiber that does not run is changed and still does not.
  change-IsValid :
      (a : ℕ) (f g : Fiber)
      → get_elem? t.fibers a ≡ some f
      → is_exec f.state ≡ false
      → is_exec g.state ≡ false
      → IsValid (record t { fibers = set t.fibers a g })
  change-IsValid a f g there idle idle' = record {
    main = v.main;
    running = v.running;
    main_set = v.main_set;
    current_set = v.current_set;
    main_runs = other-Is a v.main g (idle_ne a v.main f there idle v.main_runs) v.main_runs;
    current_runs =
        other-Is a v.running g (idle_ne a v.running f there idle v.current_runs) v.current_runs;
    alone = λ b h e runs. elim (get_elem?-set_cases t.fibers a b g h e) [
      | inl (_, same) ↦ cc (ap (λ (x : Fiber). is_exec x.state) same)
      | inr (_, old) ↦ v.alone b h old runs
    ];
  }

  front-Is :
      (b : ℕ) (g : Fiber) → Is t b true → Is (record t { fibers = t.fibers ++ g ∷ [] }) b true
  front-Is b g (f, there, e) = (f, get_elem?-front t.fibers _ b there, e)

  create-IsValid :
      (g : Fiber) (id count : ℕ)
      → is_exec g.state ≡ false
      → IsValid (record t { fibers = t.fibers ++ g ∷ []; last_id = id; count = count })
  create-IsValid g id count idle = record {
    main = v.main;
    running = v.running;
    main_set = v.main_set;
    current_set = v.current_set;
    main_runs = front-Is v.main g v.main_runs;
    current_runs = front-Is v.running g v.current_runs;
    alone = λ b f h runs. elim (get_elem?-snoc t.fibers g f b h) [
      | inl old ↦ v.alone b f old runs
      | inr same ↦ cc (ap (λ (x : Fiber). is_exec x.state) same)
    ];
  }

-- What each operation does once the fiber is found.
module _ (t : Thread) (a : ℕ) (f : Fiber) (there : get_elem? t.fibers a ≡ some f) where
  resume_found : resume t a ≡ (
      if is_exec f.state
      then err assertion
      else ok (with_state (record t { current = some a }) a f exec))
  unfolding resume
  resume_found = rw there refl

  current_found : t.current ≡ some a → fiber_at t.fibers t.current ≡ ok (a, f)
  current_found now = ap (fiber_at t.fibers) now ∙ ap (existing a) there

  yield_found : (s : State) → t.current ≡ some a → yield_with s t ≡ ok (yield (with_state t a f s))
  unfolding yield_with
  yield_found s now = ap (λ r. r >>= λ p. ok (yield (with_state t p.0 p.1 s))) (current_found now)

  main_func_found :
      t.current ≡ some a
      → main_func false t
        ≡ ok (yield (record t { fibers = set t.fibers a (record f { state = term; func = none }) }))
  unfolding main_func
  main_func_found now =
      ap
        (λ r. r >>= λ p. ok (
          yield
            (record t { fibers = set t.fibers p.0 (record p.1 { state = term; func = none }) })))
        (current_found now)

  reset_found :
      (func : Option ℕ)
      → reset t a func ≡ (
          if f.stack
          then (if is_idle f.state
              then ok
                  (record t { fibers = set t.fibers a (record f { state = init; func = func }) })
              else err assertion)
          else err assertion)
  unfolding reset
  reset_found func = rw there refl

resume_lost : (t : Thread) (a : ℕ) → get_elem? t.fibers a ≡ none → resume t a ≡ err null_pointer
unfolding resume
resume_lost t a lost = rw lost refl

reset_lost :
    (t : Thread) (a : ℕ) (func : Option ℕ)
    → get_elem? t.fibers a ≡ none
    → reset t a func ≡ err null_pointer
unfolding reset
reset_lost t a func lost = rw lost refl

idle_not_exec : (s : State) → is_idle s ≡ true → is_exec s ≡ false
idle_not_exec init h = refl
idle_not_exec term h = refl
idle_not_exec except h = refl
idle_not_exec exec h = cc
idle_not_exec hold h = refl
idle_not_exec ready h = refl

module _ {t t' : Thread} (v : IsValid t) where
  resume-Step : (a : ℕ) → t.current ≡ t.main → resume t a ≡ ok t' → IsValid t'
  resume-Step a in_main run = elim (Option-cases (get_elem? t.fibers a)) [
    | inl lost ↦ cc (resume_lost t a lost)
    | inr (f, there) ↦ elim (Bool-cases (is_exec f.state)) [
      | inl runs ↦ cc (resume_found t a f there ∙ if_true _ _ runs)
      | inr idle ↦
          subst IsValid (ok_inj (sym (resume_found t a f there ∙ if_false _ _ idle) ∙ run))
            (resume-IsValid v a f in_main there idle)
    ]
  ]

  yield-Step :
      (s : State) → is_exec s ≡ false → t.current ≢ t.main → yield_with s t ≡ ok t' → IsValid t'
  unfolding yield
  yield-Step s idle inside run =
      let (f, there, _) = v.current_runs in
      subst IsValid (ok_inj (sym (yield_found t v.running f there s v.current_set) ∙ run))
        (park-IsValid v (record f { state = s }) inside idle)

  return-Step : t.current ≢ t.main → main_func false t ≡ ok t' → IsValid t'
  unfolding yield
  return-Step inside run =
      let (f, there, _) = v.current_runs in
      subst IsValid (ok_inj (sym (main_func_found t v.running f there v.current_set) ∙ run))
        (park-IsValid v (record f { state = term; func = none }) inside refl)

  reset-Step : (a : ℕ) (func : Option ℕ) → reset t a func ≡ ok t' → IsValid t'
  reset-Step a func run = elim (Option-cases (get_elem? t.fibers a)) [
    | inl lost ↦ cc (reset_lost t a func lost)
    | inr (f, there) ↦ elim (Bool-cases f.stack) [
      | inr none_there ↦ cc (reset_found t a f there func ∙ if_false _ _ none_there)
      | inl stacked ↦ elim (Bool-cases (is_idle f.state)) [
        | inr busy ↦ cc (reset_found t a f there func ∙ if_true _ _ stacked ∙ if_false _ _ busy)
        | inl idle ↦
            subst IsValid
              (ok_inj
                (sym (reset_found t a f there func ∙ if_true _ _ stacked ∙ if_true _ _ idle) ∙ run))
              (change-IsValid v a f (record f { state = init; func = func }) there
                (idle_not_exec f.state idle) refl)
      ]
    ]
  ]

  create-Step : (a func size : ℕ) → new_fiber t func size ≡ ok (a, t') → IsValid t'
  unfolding new_fiber
  create-Step a func size run = elim (Bool-cases (not (is_set t.current) || size == 0)) [
    | inl refused ↦ cc (sym (if_true _ _ refused) ∙ run)
    | inr made ↦
        subst IsValid (ap (λ (r : ℕ × Thread). r.1) (ok_inj (sym (if_false _ _ made) ∙ run)))
          (create-IsValid v _ _ _ refl)
  ]

  -- A step of the fibers leaves the main fiber and the running one as the only ones in EXEC.
  pub Step-IsValid : Step t t' → IsValid t'
  unfolding yield_to_hold yield_to_ready
  Step-IsValid (Step.switch_in a in_main run) = resume-Step a in_main run
  Step-IsValid (Step.to_hold inside run) = yield-Step hold refl inside run
  Step-IsValid (Step.to_ready inside run) = yield-Step ready refl inside run
  Step-IsValid (Step.return_from inside run) = return-Step inside run
  Step-IsValid (Step.create a func size run) = create-Step a func size run
  Step-IsValid (Step.renew a func run) = reset-Step a func run

-- A thread that has made no fiber yet, behind EnableFiber.
unfoldable pub started : Thread
started = enable_fiber (record { fibers = []; current = none; main = none; last_id = 0; count = 0 })

pub data Run : Thread → Type 0 where
  start : Run started
  next : {t t' : Thread} → Run t → Step t t' → Run t'

started-IsValid : IsValid started
unfolding started enable_fiber
started-IsValid = record {
  main = 0;
  running = 0;
  main_set = refl;
  current_set = refl;
  main_runs = (_, refl, refl);
  current_runs = (_, refl, refl);
  alone = λ a f h runs. inl (only a f h);
}
  where
    only :
        (a : ℕ) (f : Fiber)
        → get_elem? (record { id = 0; stack = false; state = exec; func = none } ∷ []) a ≡ some f
        → a ≡ 0
    only zero f h = refl
    only (suc a) f h = cc

-- From EnableFiber on, whatever fibers are made, given a new function, resumed from the main
-- fiber, and yield or return when they run: the main fiber and the running one are there with the
-- state EXEC, and no other fiber has it.
pub Run-IsValid : {t : Thread} → Run t → IsValid t
Run-IsValid start = started-IsValid
Run-IsValid (next r s) = Step-IsValid (Run-IsValid r) s

set-set : {A : Type 0} (xs : List A) (i : ℕ) (x y : A) → set (set xs i x) i y ≡ set xs i y
set-set [] i x y = refl
set-set (z ∷ xs) zero x y = refl
set-set (z ∷ xs) (suc i) x y = ap (◌∷◌ z) (set-set xs i x y)

-- While the main fiber of a thread as above runs, Resume of a fiber that is there and not in EXEC
-- succeeds and runs it in EXEC; YieldToHold in it brings the thread back to where it was, with
-- only that fiber changed, to HOLD.
pub yield_to_hold-resume :
    {t : Thread} (v : IsValid t) (a : ℕ) (f : Fiber)
    → t.current ≡ t.main
    → get_elem? t.fibers a ≡ some f
    → is_exec f.state ≡ false
    → (t' : Thread) × (resume t a ≡ ok t')
      × (t'.current ≡ some a)
      × Is t' a true
      × (yield_to_hold t' ≡ ok (with_state t a f hold))
unfolding yield_to_hold yield
yield_to_hold-resume {t} v a f in_main there idle =
    let g = record f { state = exec } in
    let t' = with_state (record t { current = some a }) a f exec in
    let there' = get_elem?-set_there t.fibers a g there in
    (
      t',
      resume_found t a f there ∙ if_false _ _ idle,
      refl,
      (g, there', refl),
      yield_found t' a g there' hold refl
          ∙ ap (λ fibers. ok (record t { fibers = fibers; current = t.main }))
              (set-set t.fibers a g (record f { state = hold }))
          ∙ ap (λ o. ok (record (with_state t a f hold) { current = o })) (sym in_main),
    )
