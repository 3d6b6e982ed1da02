-- ===== src/CoCondVar/Waking.antt =====
-- Which fibers the functions of CoCondVar in src/mutex.cc submit.
use async_rpc.Base.{
  ℕ, zero, suc, ◌==◌, ltb, if◌then◌else◌, Bool, true, false, List, [], ◌∷◌, ◌++◌, none, some, ◌≡◌,
  ◌≢◌, refl, length, All, ◌⊎◌, inl, inr,
}
use async_rpc.CoCondVar.{
  insert, erase, CoCondVar, as_list, take_first, notify, Waiting, time_out, wait_for_end,
}

-- No entry of the queue is the null pointer.
abbrev pub NonNull : List ℕ → Type 0
NonNull = All (λ f. f ≢ 0)

pub insert-NonNull : (f : ℕ) (queue : List ℕ) → f ≢ 0 → NonNull queue → NonNull (insert f queue)
unfolding insert
insert-NonNull f [] h v = (h, v)
insert-NonNull f (g ∷ queue) h v =
    let w = insert-NonNull f queue h v.1 in placed (ltb f g) (f == g) w
  where
    placed :
        (before same : Bool)
        → NonNull (insert f queue)
        → NonNull (if before then f ∷ g ∷ queue else if same then g ∷ queue else g ∷ insert f queue)
    placed true same w = (h, v)
    placed false true w = v
    placed false false w = (v.0, w)

pub take_first_lem :
    (queue : List ℕ) → NonNull queue → (queue ≡ []) ⊎ (length (as_list (take_first queue).0) ≡ 1)
unfolding take_first
take_first_lem [] v = inl refl
take_first_lem (zero ∷ queue) v = elim (v.0 refl) [ ]
take_first_lem (suc f ∷ queue) v = inr refl

pub take_first-nil : (take_first []).1 ≡ []
unfolding take_first
take_first-nil = refl

pub first-NonNull : (queue : List ℕ) → NonNull queue → NonNull (take_first queue).1
unfolding take_first
first-NonNull [] v = v
first-NonNull (zero ∷ queue) v = first-NonNull queue v.1
first-NonNull (suc f ∷ queue) v = v.1

first_there : (f : ℕ) (queue : List ℕ) → f ≢ 0 → take_first (f ∷ queue) ≡ (some f, queue)
unfolding take_first
first_there zero queue h = elim (h refl) [ ]
first_there (suc f) queue h = refl

-- When the timer of a waitFor runs out behind a notify that took the waiting fiber from the front
-- of the queue, and before that fiber has gone on: the fiber has been submitted twice, waitFor
-- returns false, and the timer that keeps the scheduler from stopping is gone, whoever else still
-- waits.
pub time_out-notify :
    (w : Waiting) (c : CoCondVar) (queue : List ℕ)
    → w.fiber ≢ 0
    → c.wait_queue ≡ w.fiber ∷ queue
    → let (w', c') = time_out true w (notify c) in
      (c'.submitted ≡ (c.submitted ++ w.fiber ∷ []) ++ w.fiber ∷ [])
      × ((wait_for_end (some w') c').0 ≡ false)
      × (c'.timer ≡ none)
      × (c'.wait_queue ≡ erase w.fiber queue)
unfolding notify time_out wait_for_end
time_out-notify w c queue h front = rw (front, first_there w.fiber queue h) (refl, refl, refl, refl)
