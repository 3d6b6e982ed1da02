-- ===== src/Channel/Order.antt =====
-- Any order of the calls on the channel of include/channel.h, by any fibers.
use async_rpc.Base.{
  if_true, ℕ, ◌<◌, ◌≤◌, leb, arith, Bool, true, false, Bool-cases, ◌≡◌, refl, sym, ap, subst, ◌∙◌,
  ◌⊎◌, inl, inr,
}
use async_rpc.Base.{
  List, [], ◌∷◌, ◌++◌, append_assoc, append-nil, length, length-append, Option, none, some,
}
use async_rpc.Channel.{
  Channel, Outcome, waits, returns, make, with_queue, push, take_front, pop, wait_for, close,
}

-- A section of a call: the flag of waiting says whether the condition variable was in time.
pub data Event (T : Type 0) : Type 0 where
  pushing : T → Event T
  popping closing : Event T
  waiting : Bool → Event T

-- A channel with what calls of push said was sent, and what calls of pop and waitFor gave.
pub record History (T : Type 0) : Type 0 where
  pub channel : Channel T
  pub sent : List T
  pub received : List T

module _ {T : Type 0} where
  abbrev pub accepted : Outcome Bool → T → List T
  accepted (returns true) t = t ∷ []
  accepted (returns false) t = []
  accepted waits t = []

  abbrev pub given : Outcome (Option T) → List T
  given (returns (some t)) = t ∷ []
  given (returns none) = []
  given waits = []

  abbrev pub taken : History T → Outcome (Option T) × Channel T → History T
  taken h r = record { channel = r.1; sent = h.sent; received = h.received ++ given (r.0) }

  unfoldable pub step : History T → Event T → History T
  step h (pushing t) = record {
    channel = (push (h.channel) t).1;
    sent = h.sent ++ accepted ((push (h.channel) t).0) t;
    received = h.received;
  }
  step h popping = taken h (pop (h.channel))
  step h (waiting in_time) = taken h (wait_for (h.channel) in_time)
  step h closing = record { channel = close (h.channel); sent = h.sent; received = h.received }

  unfoldable pub run : History T → List (Event T) → History T
  run h [] = h
  run h (e ∷ es) = run (step h e) es

  unfoldable pub start : ℕ → History T
  start capacity = record { channel = make capacity; sent = []; received = [] }

  -- What was sent is what was received and, after it, what is lost by a close or still queued; the
  -- queue never exceeds the capacity, which never changes, and is empty once closed.
  pub record IsOrdered (capacity : ℕ) (h : History T) : Type 0 where
    pub lost : List T
    pub in_order : h.sent ≡ h.received ++ (h.channel.msg_queue ++ lost)
    pub nothing_lost : h.channel.is_closed ≡ false → lost ≡ []
    pub bounded : length (h.channel.msg_queue) ≤ capacity
    pub same : h.channel.capacity ≡ capacity
    pub emptied : h.channel.is_closed ≡ true → h.channel.msg_queue ≡ []

  -- The ways through push: closed, full, and with room.
  pub push_cases :
      (c : Channel T) (t : T)
      → ((c.is_closed ≡ true) × (push c t ≡ (returns false, c)))
        ⊎ (((c.is_closed ≡ false) × (c.capacity ≤ length (c.msg_queue)) × (push c t ≡ (waits, c)))
            ⊎ ((c.is_closed ≡ false)
                × (length (c.msg_queue) < c.capacity)
                × (push c t ≡ (returns true, with_queue c (c.msg_queue ++ (t ∷ []))))))
  unfolding push
  push_cases c t = elim (Bool-cases (c.is_closed)) [
    | inl e ↦ inl (e, rw (e) refl)
    | inr e ↦ elim (Bool-cases (leb (c.capacity) (length (c.msg_queue)))) [
      | inl f ↦ inr (inl (e, ground arith, rw (e, f) refl))
      | inr f ↦ inr (inr (e, ground arith, rw (e, f) refl))
    ]
  ]

  -- The ways of a read: it gives no element and changes nothing, or gives the front of the queue of
  -- an open channel.
  abbrev Reads : Channel T → Outcome (Option T) × Channel T → Type 0
  Reads c r =
      ((given (r.0) ≡ []) × (r.1 ≡ c))
      ⊎ ((c.is_closed ≡ false)
          × ((t : T) × (q : List T) × (c.msg_queue ≡ t ∷ q)
              × (r ≡ (returns (some t), with_queue c q))))

  take_front_cases :
      (c : Channel T) (q : List T)
      → c.is_closed ≡ false
      → c.msg_queue ≡ q
      → Reads c (take_front c q)
  unfolding take_front
  take_front_cases c [] e f = inl (refl, refl)
  take_front_cases c (t ∷ q) e f = inr (e, (t, q, f, refl))

  pub pop_open : (c : Channel T) → c.is_closed ≡ false → pop c ≡ take_front c (c.msg_queue)
  unfolding pop
  pop_open c e = rw (e) refl

  pop_cases : (c : Channel T) → Reads c (pop c)
  unfolding pop
  pop_cases c = elim (Bool-cases (c.is_closed)) [
    | inl e ↦ rw (e) (inl (refl, refl))
    | inr e ↦ subst (Reads c) (sym (pop_open c e)) (take_front_cases c (c.msg_queue) e refl)
  ]

  pub wait_for_in_time : (c : Channel T) → wait_for c true ≡ pop c
  unfolding wait_for pop
  wait_for_in_time c = refl

  wait_for_cases : (c : Channel T) (in_time : Bool) → Reads c (wait_for c in_time)
  unfolding wait_for
  wait_for_cases c false = inl (refl, refl)
  wait_for_cases c true = subst (Reads c) (sym (wait_for_in_time c)) (pop_cases c)

  -- To change the channel, what was sent and what was received to equal ones.
  pub unchanged :
      (n : ℕ) (h : History T) (c : Channel T) (sent received : List T)
      → IsOrdered n h
      → c ≡ h.channel
      → sent ≡ h.sent
      → received ≡ h.received
      → IsOrdered n record { channel = c; sent = sent; received = received }
  unchanged n h c sent received o e f g =
      subst (IsOrdered n) (sym (λ i. record { channel = e i; sent = f i; received = g i })) o

  taken-IsOrdered :
      (n : ℕ) (h : History T) (r : Outcome (Option T) × Channel T)
      → IsOrdered n h
      → Reads (h.channel) r
      → IsOrdered n (taken h r)
  taken-IsOrdered n h r o (inl k) =
      unchanged n h (r.1) (h.sent) (h.received ++ given (r.0)) o k.1 refl
        (ap (λ l. h.received ++ l) k.0 ∙ append-nil (h.received))
  taken-IsOrdered n h r o (inr k) =
      let (open_, (t, q, front, e)) = k in
      subst (λ s. IsOrdered n (taken h s)) (sym e)
        (record {
          lost = o.lost;
          in_order =
              o.in_order
              ∙ ap (λ l. h.received ++ (l ++ o.lost)) front
              ∙ sym (append_assoc (h.received) (t ∷ []) (q ++ o.lost));
          nothing_lost = o.nothing_lost;
          bounded = omega (arith, o.bounded, ap length front);
          same = o.same;
          emptied = λ c. (let no : false ≡ true = sym open_ ∙ c in cc);
        })

  pushed_in_order :
      (sent received q lost : List T) (t : T)
      → sent ≡ received ++ (q ++ lost)
      → lost ≡ []
      → sent ++ (t ∷ []) ≡ received ++ ((q ++ (t ∷ [])) ++ [])
  pushed_in_order sent received q lost t e f =
      ap (λ l. l ++ (t ∷ []))
        (e ∙ ap (λ l. received ++ (q ++ l)) f ∙ ap (λ l. received ++ l) (append-nil q))
      ∙ append_assoc received q (t ∷ [])
      ∙ ap (λ l. received ++ l) (sym (append-nil (q ++ (t ∷ []))))

  step-push : (n : ℕ) (h : History T) (t : T) → IsOrdered n h → IsOrdered n (step h (pushing t))
  unfolding step
  step-push n h t o = elim (push_cases (h.channel) t) [
    | inl k ↦
        rw (k.1)
          (unchanged n h (h.channel) (h.sent ++ []) (h.received) o refl (append-nil (h.sent)) refl)
    | inr (inl k) ↦
        rw (k.2)
          (unchanged n h (h.channel) (h.sent ++ []) (h.received) o refl (append-nil (h.sent)) refl)
    | inr (inr k) ↦ rw (k.2) (record {
      lost = [];
      in_order =
          pushed_in_order (h.sent) (h.received) (h.channel.msg_queue) (o.lost) t (o.in_order)
            (o.nothing_lost k.0);
      nothing_lost = λ c. refl;
      bounded = omega (arith, o.same, k.1, length-append (h.channel.msg_queue) (t ∷ []));
      same = o.same;
      emptied = λ c. (let no : false ≡ true = sym k.0 ∙ c in cc);
    })
  ]

  step-close : (n : ℕ) (h : History T) → IsOrdered n h → IsOrdered n (step h closing)
  unfolding step close
  step-close n h o = elim (Bool-cases (h.channel.is_closed)) [
    | inl e ↦ unchanged n h (close (h.channel)) (h.sent) (h.received) o (if_true _ _ e) refl refl
    | inr e ↦ rw (e) (record {
      lost = h.channel.msg_queue ++ o.lost;
      in_order = o.in_order;
      nothing_lost = λ c. (let no : false ≡ true = sym c in cc);
      bounded = omega arith;
      same = o.same;
      emptied = λ c. refl;
    })
  ]

  step-IsOrdered : (n : ℕ) (h : History T) (e : Event T) → IsOrdered n h → IsOrdered n (step h e)
  unfolding step
  step-IsOrdered n h (pushing t) o = step-push n h t o
  step-IsOrdered n h popping o = taken-IsOrdered n h (pop (h.channel)) o (pop_cases (h.channel))
  step-IsOrdered n h (waiting b) o =
      taken-IsOrdered n h (wait_for (h.channel) b) o (wait_for_cases (h.channel) b)
  step-IsOrdered n h closing o = step-close n h o

  run_from : (n : ℕ) (es : List (Event T)) (h : History T) → IsOrdered n h → IsOrdered n (run h es)
  unfolding run
  run_from n [] h o = o
  run_from n (e ∷ es) h o = run_from n es (step h e) (step-IsOrdered n h e o)

  start-IsOrdered : (n : ℕ) → IsOrdered n (start n)
  unfolding start make
  start-IsOrdered n = record {
    lost = [];
    in_order = refl;
    nothing_lost = λ c. refl;
    bounded = omega arith;
    same = refl;
    emptied = λ c. refl;
  }

  -- Whatever the order in which sections of push, pop, waitFor and close run on a new channel, and
  -- whether waits are in time: what was received, then what is queued, then what a close threw
  -- away, is what push returned true for, in that order; nothing is thrown away before the close;
  -- the queue never exceeds the capacity, and is empty after the close.
  pub run-IsOrdered : (n : ℕ) (es : List (Event T)) → IsOrdered n (run (start n) es)
  run-IsOrdered n es = run_from n es (start n) (start-IsOrdered n)
