-- ===== src/IoManager/Context.antt =====
-- The context of one descriptor of src/io_manager.cc: when it is consistent, and what registering,
-- resetting and triggering an event do to it.
use mathlib.Core.Path.{subst₂}
use async_rpc.Base.{
  ℕ, ◌+◌, ◌*◌, ◌≡◌, refl, sym, ap, subst, ◌∙◌, Bool, not, if_false, ◌≢◌, ◌⊎◌, inl, inr, bit_and,
  bit_or, ◌==◌, true, false, arith,
}
use async_rpc.Base.{Option, none, some, ok}
use async_rpc.IoManager.{
  Event, no_event, event_bit, and_not, EventContext, blank, FdContext, get_event_context,
  set_event_context, reset_context, trigger_event, task_of, submit, chosen,
}
use async_rpc.IoManager.Events.{arm}

-- An event context holds nothing, or a scheduler and one task.
pub data Armed : EventContext → ℕ → Type 0 where
  idle : Armed blank 0
  with_callback :
      (s f : ℕ) → Armed (record { scheduler = some s; fiber = none; callback = some f }) 1
  with_fiber : (s f : ℕ) → Armed (record { scheduler = some s; fiber = some f; callback = none }) 1

-- The mask says which of the two event contexts hold a task; `n` of them do.
pub data Consistent : FdContext → ℕ → Type 0 where
  consistent :
      {fd r w : ℕ} {er ew : EventContext}
      → Armed er r
      → Armed ew w
      → Consistent (record { fd = fd; events = r + 4 * w; read = er; write = ew }) (r + w)

-- The masks with a bit of the other event, 0 or 1.
read_masks :
    {e : EventContext} {w : ℕ}
    → Armed e w
    → (bit_and (0 + 4 * w) 1 ≡ 0)
      × (bit_and (1 + 4 * w) 1 ≡ 1)
      × (and_not (1 + 4 * w) 1 ≡ 0 + 4 * w)
      × (bit_or 1 (0 + 4 * w) ≡ 1 + 4 * w)
read_masks idle = (refl, refl, refl, refl)
read_masks (with_callback s f) = (refl, refl, refl, refl)
read_masks (with_fiber s f) = (refl, refl, refl, refl)

write_masks :
    {e : EventContext} {r : ℕ}
    → Armed e r
    → (bit_and (r + 4 * 0) 4 ≡ 0)
      × (bit_and (r + 4 * 1) 4 ≡ 4)
      × (and_not (r + 4 * 1) 4 ≡ r + 4 * 0)
      × (bit_or 4 (r + 4 * 0) ≡ r + 4 * 1)
write_masks idle = (refl, refl, refl, refl)
write_masks (with_callback s f) = (refl, refl, refl, refl)
write_masks (with_fiber s f) = (refl, refl, refl, refl)

-- A consistent context from the side of one event: its event context, `on` if it is registered, and
-- how many others are.
pub record View (c : FdContext) (event : Event) (n : ℕ) : Type 0 where
  pub own : EventContext
  pub on : ℕ
  pub others : ℕ
  pub armed : Armed own on
  pub total : n ≡ on + others
  pub got : (mask : ℕ) → get_event_context (record c { events = mask }) event ≡ ok own
  pub bit_off : on ≡ 0 → bit_and c.events (event_bit event) ≡ 0
  pub bit_on : on ≡ 1 → bit_and c.events (event_bit event) ≡ event_bit event
  pub off :
      on ≡ 1
      → Consistent
          (set_event_context (record c { events = and_not c.events (event_bit event) }) event blank)
          others
  pub off_bit : on ≡ 1 → bit_and (and_not c.events (event_bit event)) (event_bit event) ≡ 0
  pub raised_bit :
      on ≡ 0 → bit_and (bit_or (event_bit event) c.events) (event_bit event) ≡ event_bit event
  pub raised :
      on ≡ 0
      → (e : EventContext) → Armed e 1
      → Consistent
          (set_event_context (record c { events = bit_or (event_bit event) c.events }) event e)
          (1 + others)

pub view :
    {c : FdContext} {n : ℕ} (event : Event) → event ≢ no_event → Consistent c n → View c event n
unfolding get_event_context set_event_context
view no_event h k = absurd (h refl)
view Event.read h (consistent {fd = fd} {r = r} {w = w} {er = er} {ew = ew} ar aw) = record {
  own = er;
  on = r;
  others = w;
  armed = ar;
  total = refl;
  got = λ mask. refl;
  bit_off = λ zero. rw zero ((read_masks aw).0);
  bit_on = λ one. rw one ((read_masks aw).1);
  off_bit = λ one. rw (one, (read_masks aw).2) ((read_masks aw).0);
  raised_bit = λ zero. rw (zero, (read_masks aw).3) ((read_masks aw).1);
  off = λ one.
      subst₂ (λ mask n. Consistent (record { fd = fd; events = mask; read = blank; write = ew }) n)
        (sym (rw one ((read_masks aw).2))) (omega arith) (consistent idle aw);
  raised = λ zero e a.
      subst (λ mask. Consistent (record { fd = fd; events = mask; read = e; write = ew }) (1 + w))
        (sym (rw zero ((read_masks aw).3))) (consistent a aw);
}
view Event.write h (consistent {fd = fd} {r = r} {w = w} {er = er} {ew = ew} ar aw) = record {
  own = ew;
  on = w;
  others = r;
  armed = aw;
  total = omega arith;
  got = λ mask. refl;
  bit_off = λ zero. rw zero ((write_masks ar).0);
  bit_on = λ one. rw one ((write_masks ar).1);
  off_bit = λ one. rw (one, (write_masks ar).2) ((write_masks ar).0);
  raised_bit = λ zero. rw (zero, (write_masks ar).3) ((write_masks ar).1);
  off = λ one.
      subst₂ (λ mask n. Consistent (record { fd = fd; events = mask; read = er; write = blank }) n)
        (sym (rw one ((write_masks ar).2))) (omega arith) (consistent ar idle);
  raised = λ zero e a.
      subst₂ (λ mask n. Consistent (record { fd = fd; events = mask; read = er; write = e }) n)
        (sym (rw zero ((write_masks ar).3))) (omega arith) (consistent ar a);
}

Armed-cases :
    {e : EventContext} {n : ℕ}
    → Armed e n
    → ((n ≡ 0) × (e ≡ blank)) ⊎ ((n ≡ 1) × (scheduler : ℕ) × (e.scheduler ≡ some scheduler))
Armed-cases idle = inl (refl, refl)
Armed-cases (with_callback s f) = inr (refl, s, refl)
Armed-cases (with_fiber s f) = inr (refl, s, refl)

-- The bit of the event is in the mask.
abbrev pub registered : FdContext → Event → Bool
registered c event = not (bit_and c.events (event_bit event) == 0)

pub real_bit : (event : Event) → event ≢ no_event → (event_bit event == 0) ≡ false
real_bit no_event real = absurd (real refl)
real_bit Event.read real = refl
real_bit Event.write real = refl

events-set_event_context :
    (c : FdContext) (event : Event) (e : EventContext)
    → (set_event_context c event e).events ≡ c.events
unfolding set_event_context
events-set_event_context c no_event e = refl
events-set_event_context c Event.read e = refl
events-set_event_context c Event.write e = refl

module _ {c : FdContext} {n : ℕ} {event : Event} (v : View c event n) where
  pub on_one : registered c event ≡ true → (v.on ≡ 1) × (s : ℕ) × (v.own.scheduler ≡ some s)
  on_one h = elim (Armed-cases v.armed) [
    | inl (zero, _) ↦ let z = v.bit_off zero in ground arith
    | inr found ↦ found
  ]

  pub on_zero : event ≢ no_event → registered c event ≡ false → (v.on ≡ 0) × (v.own ≡ blank)
  on_zero real h = elim (Armed-cases v.armed) [
    | inl found ↦ found
    | inr (one, _, _) ↦ let z = v.bit_on one in let b = real_bit event real in ground arith
  ]

  pub off_lem :
      v.on ≡ 1
      → registered
          (set_event_context (record c { events = and_not c.events (event_bit event) }) event blank)
          event
        ≡ false
  off_lem one =
      ap (λ mask. not (bit_and mask (event_bit event) == 0))
        (events-set_event_context _ event blank)
      ∙ ap (λ b. not (b == 0)) (v.off_bit one)

  -- A registered event of a consistent context is triggered: its task goes to its scheduler, and the
  -- event is gone.
  pub trigger_event_lem :
      registered c event ≡ true
      → (c' : FdContext) × (s : ℕ) × (v.own.scheduler ≡ some s)
        × (trigger_event c event ≡ ok (c', (s, task_of v.own)))
        × Consistent c' v.others
        × (n ≡ 1 + v.others)
        × (registered c' event ≡ false)
  unfolding trigger_event submit reset_context
  trigger_event_lem h =
      let (one, s, e) = on_one h in
      let bit : (bit_and c.events (event_bit event) == 0) ≡ false = ground arith in
      (
        set_event_context (record c { events = and_not c.events (event_bit event) }) event blank,
        s,
        e,
        if_false _ _ bit ∙ rw (v.got (and_not c.events (event_bit event)), e) refl,
        v.off one,
        v.total ∙ ap (λ k. k + v.others) one,
        off_lem one,
      )

  -- A free event of a consistent context takes an event context with a task.
  pub raise_lem :
      event ≢ no_event
      → registered c event ≡ false
      → (e : EventContext) → Armed e 1
      → (get_event_context (record c { events = bit_or (event_bit event) c.events }) event
          ≡ ok blank)
        × Consistent
            (set_event_context (record c { events = bit_or (event_bit event) c.events }) event e)
            (1 + v.others)
        × (n ≡ v.others)
        × (registered
              (set_event_context (record c { events = bit_or (event_bit event) c.events }) event e)
              event
            ≡ true)
  raise_lem real h e a =
      let (zero, empty_own) = on_zero real h in
      let b = real_bit event real in
      (
        v.got (bit_or (event_bit event) c.events) ∙ ap ok empty_own,
        v.raised zero e a,
        omega (arith, v.total, zero),
        ap (λ mask. not (bit_and mask (event_bit event) == 0)) (events-set_event_context _ event e)
            ∙ ap (λ k. not (k == 0)) (v.raised_bit zero)
            ∙ ap not b,
      )

-- The new event context of addEvent.
pub arm_lem :
    (scheduler fiber : ℕ) (callback : Option ℕ)
    → (e : EventContext) × (arm true scheduler fiber callback blank ≡ ok e)
      × Armed e 1
      × (e.scheduler ≡ some scheduler)
      × (task_of e ≡ chosen callback (some fiber))
unfolding arm
arm_lem s f none = (_, refl, with_fiber s f, refl, refl)
arm_lem s f (some callback) = (_, refl, with_callback s callback, refl, refl)
