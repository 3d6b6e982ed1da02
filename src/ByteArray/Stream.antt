-- ===== src/ByteArray/Stream.antt =====
-- Writers and readers of one value on the buffer, by the bytes that they append or take.
use async_rpc.Base.{ℕ, ◌<◌, ◌≡◌, refl, ap, ◌∙◌, List, [], ◌++◌, length, subst}
use async_rpc.Base.{Result, ok, ◌>>=◌, append_assoc, append-nil}
use async_rpc.ByteArray.{ByteArray, make, write, read, set_position}
use async_rpc.ByteArray.View.{Wrote, Left, make-Wrote, rewind, write-Wrote, read-Left}

-- The writer succeeds and appends `bs`.
pub record Writes (w : ByteArray → Result ByteArray) (bs : List ℕ) : Type 0 where
  pub run :
      (a : ByteArray) (xs : List ℕ)
      → Wrote a xs
      → (a' : ByteArray) × (w a ≡ ok a') × Wrote a' (xs ++ bs)

-- On bytes that begin with `bs` the reader succeeds with `x` and leaves what follows.
pub record Reads {ℓ} {A : Type ℓ} (r : ByteArray → Result (A × ByteArray)) (bs : List ℕ) (x : A)
    : Type ℓ where
  pub run :
      (a : ByteArray) (ys : List ℕ)
      → Left a (bs ++ ys)
      → (a' : ByteArray) × (r a ≡ ok (x, a')) × Left a' ys

pub write-Writes : (bs : List ℕ) → Writes (λ a. write a bs) bs
write-Writes bs = record { run = λ a xs w. write-Wrote bs w }

pub read-Reads : (bs : List ℕ) (n : ℕ) → n ≡ length bs → Reads (λ a. read a n) bs bs
read-Reads bs n e = record { run = λ a ys l. rw e (read-Left bs ys l) }

-- Doing nothing.
pub ok-Writes : Writes (λ a. ok a) []
ok-Writes = record { run = λ a xs w. (a, refl, rw append-nil w) }

pub ok-Reads {ℓ} : {A : Type ℓ} (x : A) → Reads (λ a. ok (x, a)) [] x
ok-Reads x = record { run = λ a ys l. (a, refl, l) }

-- One after the other.
pub >>=-Writes :
    {w₁ : ByteArray → Result ByteArray} (w₂ : ByteArray → Result ByteArray) {bs₁ bs₂ : List ℕ}
    → Writes w₁ bs₁
    → Writes w₂ bs₂
    → Writes (λ a. w₁ a >>= w₂) (bs₁ ++ bs₂)
>>=-Writes {w₁} w₂ {bs₁} {bs₂} p q = record { run = λ a xs w. go a xs w }
  where
    go :
        (a : ByteArray) (xs : List ℕ)
        → Wrote a xs
        → (a' : ByteArray) × ((w₁ a >>= w₂) ≡ ok a') × Wrote a' (xs ++ (bs₁ ++ bs₂))
    go a xs w =
        let (a', e, w') = p.run a xs w in
        let (a'', e', w'') = q.run a' (xs ++ bs₁) w' in
        (a'', ap (λ r. r >>= w₂) e ∙ e', subst (Wrote a'') (append_assoc xs bs₁ bs₂) w'')

pub >>=-Reads {ℓ κ} :
    {A : Type ℓ} {B : Type κ} {r : ByteArray → Result (A × ByteArray)} {x : A} {y : B}
    (f : A × ByteArray → Result (B × ByteArray)) {bs cs : List ℕ}
    → Reads r bs x
    → Reads (λ a. f (x, a)) cs y
    → Reads (λ a. r a >>= f) (bs ++ cs) y
>>=-Reads {r = r} {y = y} f {bs} {cs} p q = record { run = λ a ys l. go a ys l }
  where
    go :
        (a : ByteArray) (ys : List ℕ)
        → Left a ((bs ++ cs) ++ ys)
        → (a' : ByteArray) × ((r a >>= f) ≡ ok (y, a')) × Left a' ys
    go a ys l =
        let (a', e, l') = p.run a (cs ++ ys) (subst (Left a) (append_assoc bs cs ys) l) in
        let (a'', e', l'') = q.run a' ys l' in (a'', ap (λ r. r >>= f) e ∙ e', l'')

-- A reader whose value is changed at the end.
pub map-Reads {ℓ κ} :
    {A : Type ℓ} {B : Type κ} {r : ByteArray → Result (A × ByteArray)} {x : A} (g : A → B)
    {bs : List ℕ}
    → Reads r bs x
    → Reads (λ a. r a >>= λ p. ok (g p.0, p.1)) bs (g x)
map-Reads {A = A} {B = B} {r = r} {x = x} g {bs} p = record { run = λ a ys l. go a ys l }
  where
    change : A × ByteArray → Result (B × ByteArray)
    change p = ok (g p.0, p.1)

    go :
        (a : ByteArray) (ys : List ℕ)
        → Left a (bs ++ ys)
        → (a' : ByteArray) × ((r a >>= change) ≡ ok (g x, a')) × Left a' ys
    go a ys l = let (a', e, l') = p.run a ys l in (a', ap (λ m. m >>= change) e, l')

-- A new buffer, written to and set back to the start.
pub Writes-rewind :
    (fresh : ℕ → ℕ) (n : ℕ) {w : ByteArray → Result ByteArray} {bs : List ℕ}
    → 0 < n
    → Writes w bs
    → (a' : ByteArray) × ((w (make fresh n) >>= λ a. set_position a 0) ≡ ok a') × Left a' bs
Writes-rewind fresh n h p =
    let (a, e, w) = p.run (make fresh n) [] (make-Wrote fresh n h) in
    let (a', e', l) = rewind w in (a', ap (λ r. r >>= λ a. set_position a 0) e ∙ e', l)
