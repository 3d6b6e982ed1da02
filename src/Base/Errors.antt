-- ===== src/Base/Errors.antt =====
-- Results of code that can fail: a value, or how the run ended instead.
use mathlib.Core.Path.{◌≡◌, refl, ap}

-- `null_pointer`, `bad_index`, `bad_shift`, an overflow in a shift of int, and `freed_memory`, an
-- access behind an erasure, are undefined behaviour, `out_of_range` is the C++ exception of that
-- name, and `assertion` a failed assertion.
pub data Error : Type 0 where
  null_pointer bad_index bad_shift freed_memory out_of_range assertion : Error

pub data Result {ℓ} (T : Type ℓ) : Type ℓ where
  err : Error → Result T
  ok : T → Result T

-- The next part of a run, which an error ends.
infixl 5 ◌>>=◌
abbrev pub ◌>>=◌ {κ ℓ} : {T : Type κ} {U : Type ℓ} (r : Result T) (next : T → Result U) → Result U
err how >>= next = err how
ok t >>= next = next t

-- The parts of a chain that gave a result.
pub >>=-eq-ok {κ ℓ} :
    {T : Type κ} {U : Type ℓ} {u : U} (r : Result T) (next : T → Result U)
    → r >>= next ≡ ok u
    → (t : T) × (r ≡ ok t) × (next t ≡ ok u)
>>=-eq-ok (err how) next run = cc
>>=-eq-ok (ok t) next run = (t, refl, run)

pub >>=_assoc {ι κ ℓ} :
    {T : Type ι} {U : Type κ} {W : Type ℓ} (r : Result T) (f : T → Result U) (g : U → Result W)
    → ((r >>= f) >>= g) ≡ (r >>= λ t. f t >>= g)
>>=_assoc (err how) f g = refl
>>=_assoc (ok t) f g = refl

pub ok_inj {ℓ} : {T : Type ℓ} {t u : T} → ok t ≡ ok u → t ≡ u
ok_inj {T = T} {t = t} h = ap (value t) h
  where
    value : T → Result T → T
    value t (err how) = t
    value t (ok u) = u
