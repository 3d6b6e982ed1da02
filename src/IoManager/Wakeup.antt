-- ===== src/IoManager/Wakeup.antt =====
-- Runs of several operations of src/io_manager.cc on one event.
use async_rpc.Base.{ℕ, ◌≡◌, refl, sym, ap, ap₂, ◌∙◌, ◌≢◌, arith}
use async_rpc.Base.{true, false, ltb→lt, [], ◌∷◌, ◌++◌, length, get_elem?-set_self}
use async_rpc.Base.{get_elem?, set, bit_and, bit_or, Option, some, Result, ok, err, ◌==◌}
use async_rpc.Base.{null_pointer}
use async_rpc.IoManager.{
  Event, no_event, event_bit, FdContext, chosen, task_of, and_not, trigger_event, submit,
}
use async_rpc.IoManager.Events.{
  IoManager, Caller, register, add_event, cancel_event, cancel, wake, add_call, shrink_call,
}
use async_rpc.IoManager.Context.{registered, Consistent, view, on_zero, real_bit}
use async_rpc.IoManager.Register.{
  IsValid, cancel_event-IsValid, add_event-IsValid, inside_length, below_length,
}

ok-value : {A : Type 0} (a b : A) → ◌≡◌ {A = Result A} (ok a) (ok b) → a ≡ b
ok-value a b h = cc

some-value : {A : Type 0} (a b : A) → some a ≡ some b → a ≡ b
some-value a b h = cc

module _ {m : IoManager} (v : IsValid m) (fd : ℕ) (c : FdContext)
    (there : get_elem? m.contexts fd ≡ some c) (event : Event) (real : event ≢ no_event)
    (who : Caller) (callback : Option ℕ) where
  -- With consistent contexts and a right count of pending events: addEvent of an event of READ and
  -- WRITE that is not registered, and then cancelEvent of it, both with epoll_ctl accepting,
  -- submit the callback, or the caller's fiber if there is none, exactly once to the caller's
  -- scheduler, and leave the count of pending events as it was.
  pub cancel_event-add_event :
      who.executing ≡ true
      → registered c event ≡ false
      → (m₁ m₂ : IoManager) × (add_event true who m fd event callback ≡ ok (true, m₁))
        × (cancel_event true m₁ fd event ≡ ok (true, m₂))
        × (m₂.submitted ≡ m.submitted ++ (who.scheduler, chosen callback (some who.fiber)) ∷ [])
        × (m₂.pending ≡ m.pending)
        × IsValid m₂
  cancel_event-add_event exec off =
      let (m₁, c', e, added, placed, more, kept, got, sched, job, on, v₁) =
        add_event-IsValid v fd c there event real who callback exec off in
      let inside = inside_length m.contexts fd c there in
      let there' : get_elem? m₁.contexts fd ≡ some c' =
        ap (λ cs. get_elem? cs fd) placed
        ∙ get_elem?-set_self m.contexts fd c' (ltb→lt fd (length m.contexts) inside) in
      let (m₂, c₂, s, e₂, got₂, sched₂, done, _, woken, less, _, v₂) =
        cancel_event-IsValid v₁ fd c' there' event real on in
      let same : e₂ ≡ e = ok-value e₂ e (sym got₂ ∙ got) in
      let whose : s ≡ who.scheduler =
        some-value s who.scheduler (sym sched₂ ∙ ap (λ x. x.scheduler) same ∙ sched) in
      (
        m₁,
        m₂,
        added,
        done,
        woken ∙ ap₂ (λ ss j. ss ++ j ∷ []) kept (ap₂ (λ x y. (x, y)) whose (ap task_of same ∙ job)),
        less ∙ omega (arith, more, v.counted),
        v₂,
      )

-- When epoll_ctl refuses a new event of READ and WRITE on a consistent context, addEvent returns
-- false and counts nothing, but the mask keeps the event. A later cancelEvent of it goes through a
-- null pointer to a scheduler when epoll_ctl accepts that call, and when epoll_ctl refuses that
-- call too returns false with the contexts, and with them the mask, as they are.
pub add_event-refused :
    (m : IoManager) (fd : ℕ) (c : FdContext) (n : ℕ) (event : Event) (who : Caller)
    (callback : Option ℕ)
    → get_elem? m.contexts fd ≡ some c
    → Consistent c n
    → event ≢ no_event
    → registered c event ≡ false
    → (m' : IoManager) × (add_event false who m fd event callback ≡ ok (false, m'))
      × (m'.pending ≡ m.pending)
      × (cancel_event true m' fd event ≡ err null_pointer)
      × (m'' : IoManager) × (cancel_event false m' fd event ≡ ok (false, m''))
      × (m''.contexts ≡ m'.contexts)
      × (m''.pending ≡ m.pending)
unfolding add_event register cancel_event cancel wake trigger_event submit
add_event-refused m fd c n event who callback there k real off =
    let view_c = view event real k in
    let (zero, own) = on_zero view_c real off in
    let c' : FdContext = record c { events = bit_or (event_bit event) c.events } in
    let bit : (bit_and c.events (event_bit event) == 0) ≡ true = ground arith in
    let inside = inside_length m.contexts fd c there in
    let there' : get_elem? (set m.contexts fd c') fd ≡ some c' =
      get_elem?-set_self m.contexts fd c' (ltb→lt fd (length m.contexts) inside) in
    let b = real_bit event real in
    let on : (bit_and c'.events (event_bit event) == 0) ≡ false =
      ap (λ k. k == 0) (view_c.raised_bit zero) ∙ b in
    let tried : IoManager = record m {
      contexts = set m.contexts fd c';
      calls = m.calls ++ add_call c fd event ∷ [];
    } in
    (
      tried,
      rw (inside, there, bit) refl,
      refl,
      rw
          (
            below_length (set m.contexts fd c') fd c' there',
            there',
            on,
            view_c.got (and_not c'.events (event_bit event)),
            own,
          )
          refl,
      record tried { calls = tried.calls ++ shrink_call c' fd event ∷ [] },
      rw (below_length (set m.contexts fd c') fd c' there', there', on) refl,
      refl,
      refl,
    )
