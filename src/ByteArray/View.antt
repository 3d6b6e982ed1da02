-- ===== src/ByteArray/View.antt =====
-- What a client of include/byte_array.h sees: a buffer that it appends to, and, after the position
-- is set back, a buffer with bytes left to read.
use async_rpc.Base.{ℕ, ◌+◌, ◌-◌, ◌≤◌, ◌<◌, arith, ◌≡◌, refl, sym, ap, ap₂, ◌∙◌}
use async_rpc.Base.{List, [], ◌++◌, length, take, drop, ok, take-memcpy}
use async_rpc.Base.{length-append, length-drop, take-append_left}
use async_rpc.Base.{drop-drop, front_of_take, rest_of_take, length-take_le}
use async_rpc.ByteArray.{ByteArray, make, write, read, to_string, set_position}
use async_rpc.ByteArray.Invariant.{IsValid, contents, length-contents, make-IsValid}
use async_rpc.ByteArray.Access.{Written, write_lem}
use async_rpc.ByteArray.Reading.{Consumed, read_lem, to_string_lem, Sought, set_position_lem}

-- The data are `xs`, and the position is at their end.
pub record Wrote (a : ByteArray) (xs : List ℕ) : Type 0 where
  pub valid : IsValid a
  pub at_end : a.position ≡ a.size
  pub bytes : take a.size (contents a) ≡ xs

-- `xs` are the data from the position on.
pub record Left (a : ByteArray) (xs : List ℕ) : Type 0 where
  pub valid : IsValid a
  pub within : a.position ≤ a.size
  pub bytes : take (a.size - a.position) (drop a.position (contents a)) ≡ xs

pub make-Wrote : (fresh : ℕ → ℕ) (n : ℕ) → 0 < n → Wrote (make fresh n) []
make-Wrote fresh n h = record {
  valid = make-IsValid fresh n h;
  at_end = unfold make in refl;
  bytes = unfold make in refl;
}

pub length-Wrote : {a : ByteArray} {xs : List ℕ} → Wrote a xs → length xs ≡ a.size
length-Wrote {a} w =
    sym (ap length w.bytes)
    ∙ length-take_le a.size (contents a) (omega (arith, length-contents w.valid, w.valid.size_le))

pub length-Left : {a : ByteArray} {xs : List ℕ} → Left a xs → length xs ≡ a.size - a.position
length-Left {a} w =
    sym (ap length w.bytes)
    ∙ length-take_le (a.size - a.position) (drop a.position (contents a)) (
        omega
          (arith, length-contents w.valid, w.valid.size_le, length-drop a.position (contents a)))

pub Written-Wrote :
    {a : ByteArray} {xs bs : List ℕ} {a' : ByteArray} {junk : List ℕ}
    → Wrote a xs
    → Written a bs a' junk
    → Wrote a' (xs ++ bs)
Written-Wrote {a} {xs} {bs} {a'} {junk} w n = record {
  valid = n.valid;
  at_end = omega (arith, n.moved, n.sized (omega (arith, w.at_end)), w.at_end);
  bytes =
      ap₂ take (omega (arith, n.sized (omega (arith, w.at_end)), w.at_end)) n.bytes
      ∙ take-memcpy (contents a ++ junk) a.position (a.position + length bs) bs refl n.fits
      ∙ ap (λ ys. ys ++ bs)
          (take-append_left a.position (contents a) junk
              (omega (arith, length-contents w.valid, w.valid.position_le))
            ∙ ap (λ p. take p (contents a)) w.at_end
            ∙ w.bytes);
}

-- With the position at the end of the data, write of any bytes succeeds, and appends them to the
-- data with the position at their end.
pub write-Wrote :
    {a : ByteArray} {xs : List ℕ} (bs : List ℕ)
    → Wrote a xs
    → (a' : ByteArray) × (write a bs ≡ ok a') × Wrote a' (xs ++ bs)
write-Wrote bs w = let (a', junk, e, n) = write_lem w.valid bs in (a', e, Written-Wrote w n)

-- Back at the start, all data are left to read.
pub rewind :
    {a : ByteArray} {xs : List ℕ}
    → Wrote a xs
    → (a' : ByteArray) × (set_position a 0 ≡ ok a') × Left a' xs
rewind {a} {xs} w = let (a', e, s) = set_position_lem w.valid 0 (omega arith) in (a', e, left a' s)
  where
    left : (a' : ByteArray) → Sought w.valid 0 a' → Left a' xs
    left a' s = record {
      valid = s.valid;
      within = omega (arith, s.moved);
      bytes =
          ap₂ (λ n ys. take n ys) (omega (arith, s.moved, s.sized)) (ap₂ drop s.moved s.bytes)
          ∙ w.bytes;
    }

pub Consumed-Left :
    {a : ByteArray} (xs ys : List ℕ) {a' : ByteArray} (w : Left a (xs ++ ys))
    → Consumed w.valid (length xs) a'
    → Left a' ys
Consumed-Left {a} xs ys {a'} w c =
    let room : length xs + length ys ≡ a.size - a.position =
      omega (arith, length-Left w, length-append xs ys) in
    record {
      valid = c.valid;
      within = omega (arith, c.moved, c.sized, room, w.within);
      bytes =
          ap₂ take (omega (arith, c.moved, c.sized)) (
            ap₂ drop c.moved c.bytes
            ∙ sym (drop-drop (length xs) a.position (a.position + length xs) (contents a) refl))
          ∙ rest_of_take xs ys (drop a.position (contents a)) (a.size - a.position)
              (a.size - (a.position + length xs)) (omega arith) w.bytes;
    }

-- When the data left to read begin with given bytes, a read of as many succeeds with exactly
-- those, and leaves exactly what follows them.
pub read-Left :
    {a : ByteArray} (xs ys : List ℕ)
    → Left a (xs ++ ys)
    → (a' : ByteArray) × (read a (length xs) ≡ ok (xs, a')) × Left a' ys
read-Left {a} xs ys w =
    let (a', e, c) =
      read_lem w.valid (length xs)
        (omega (arith, length-Left w, length-append xs ys, w.valid.size_le, w.within)) in
    (
      a',
      e
          ∙ ap (λ bs. ok (bs, a'))
              (front_of_take xs ys (drop a.position (contents a)) (a.size - a.position) w.bytes),
      Consumed-Left xs ys w c,
    )

pub to_string-Left : {a : ByteArray} {xs : List ℕ} → Left a xs → to_string a ≡ ok xs
to_string-Left w = to_string_lem w.valid w.within ∙ ap ok w.bytes
