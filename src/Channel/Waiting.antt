-- ===== src/Channel/Waiting.antt =====
-- Waiting, and the time after the close, on the channel of include/channel.h.
use async_rpc.Base.{
  if_true, ◌<◌, arith, Bool, true, false, ◌≡◌, ◌≢◌, refl, sym, ap, subst, ◌∙◌, inl, inr,
}
use async_rpc.Base.{List, [], ◌∷◌, ◌++◌, append-nil, length, none, some}
use async_rpc.Channel.{Channel, Outcome, waits, returns, push, take_front, pop, wait_for, close}
use async_rpc.Channel.Order.{
  Event, pushing, popping, closing, waiting, History, step, run, taken, accepted, push_cases,
  pop_open,
}

module _ {T : Type 0} where
  nonempty :
      (c : Channel T) (q : List T)
      → c.msg_queue ≡ q
      → 0 < length (c.msg_queue)
      → take_front c q ≢ (waits, c)
  unfolding take_front
  nonempty c [] e h p = omega (arith, h, ap length e)
  nonempty c (t ∷ q) e h p = (let no : returns (some t) ≡ waits = ap (λ r. r.0) p in cc)

  nothing : (h : History T) → taken h (returns none, h.channel) ≡ h
  nothing h =
      ap (λ l. record { channel = h.channel; sent = h.sent; received = l })
        (append-nil (h.received))

  -- On a channel with a capacity of at least one, when a push has to wait a pop does not.
  pub never_both_wait :
      (c : Channel T) (t : T) → 0 < c.capacity → (push c t ≡ (waits, c)) → (pop c ≢ (waits, c))
  never_both_wait c t h p q = elim (push_cases c t) [
    | inl k ↦ (let e : returns false ≡ waits = ap (λ r. r.0) (sym k.1 ∙ p) in cc)
    | inr (inl k) ↦ nonempty c (c.msg_queue) refl (omega (arith, k.1, h)) (sym (pop_open c k.0) ∙ q)
    | inr (inr k) ↦ (let e : returns true ≡ waits = ap (λ r. r.0) (sym k.2 ∙ p) in cc)
  ]

  closed_step : (h : History T) (ev : Event T) → h.channel.is_closed ≡ true → step h ev ≡ h
  unfolding step push pop wait_for close
  closed_step h (pushing t) e =
      ap
        (λ (r : Outcome Bool × Channel T). record {
          channel = r.1;
          sent = h.sent ++ accepted (r.0) t;
          received = h.received;
        })
        (if_true _ _ e)
      ∙ ap (λ l. record { channel = h.channel; sent = l; received = h.received })
          (append-nil (h.sent))
  closed_step h popping e = ap (taken h) (if_true _ _ e) ∙ nothing h
  closed_step h (waiting true) e = ap (taken h) (if_true _ _ e) ∙ nothing h
  closed_step h (waiting false) e = nothing h
  closed_step h closing e =
      ap (λ c. record { channel = c; sent = h.sent; received = h.received }) (if_true _ _ e)

  -- On a closed channel no order of calls changes anything: nothing more is sent or received.
  pub run_closed : (es : List (Event T)) (h : History T) → h.channel.is_closed ≡ true → run h es ≡ h
  unfolding run
  run_closed [] h e = refl
  run_closed (ev ∷ es) h e =
      let same = closed_step h ev e in
      run_closed es (step h ev) (subst (λ g. g.channel.is_closed ≡ true) (sym same) e) ∙ same
