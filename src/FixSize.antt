-- ===== src/FixSize.antt =====
-- src/stream.cc: reading and writing a whole number of bytes.
use async_rpc.Base.{
  ℕ, zero, suc, ◌+◌, ◌-◌, ◌%◌, ◌^◌, ◌<◌, ◌≤◌, ◌==◌, if◌then◌else◌, arith, false, ◌≡◌, refl, ap₂,
  ◌∙◌, Option, none, some, Result, ok, ◌>>=◌, subst,
}
use async_rpc.Base.Int.{ℤ, pos, negsuc, to_int}

-- size_t l = read(...): the result of a call as an unsigned number.
unfoldable pub to_size : ℤ → ℕ
to_size (pos n) = n
to_size (negsuc n) = 2 ^ 64 - suc n

-- The rest of a round: it returns when nothing was moved, or goes on.
abbrev pub moved_on :
    {S : Type 0} → (ℕ → S → Result (Option (ℤ × S))) → ℤ × S → Result (Option (ℤ × S))
moved_on again (r, s) =
    let rest = again (to_size r) s in
    if to_size r == 0 then ok (some (to_int (to_size r), s)) else rest

module _ {S : Type 0} (call : (offset left : ℕ) → S → Result (ℤ × S)) where
  -- The loop of the four functions, on fuel: the int returned, and the state of the stream and of
  -- the memory after it, or none when the fuel is used up. A call can end the run by an error.
  unfoldable pub transfer : ℕ → (len offset left : ℕ) → S → Result (Option (ℤ × S))
  transfer zero len offset left s = ok none
  transfer (suc fuel) len offset left s =
      let rest =
        call offset left s
        >>= moved_on
            (λ l s'. transfer fuel len ((offset + l) % 2 ^ 64) ((left + 2 ^ 64 - l) % 2 ^ 64) s') in
      if left == 0 then ok (some (to_int len, s)) else rest

  -- readFixSize(void *, size_t), by read(void *, size_t) at an offset of the memory.
  unfoldable pub read_fix_size : ℕ → ℕ → S → Result (Option (ℤ × S))
  read_fix_size fuel len s = transfer fuel len 0 len s

  -- writeFixSize(const void *, size_t), by write(const void *, size_t).
  unfoldable pub write_fix_size : ℕ → ℕ → S → Result (Option (ℤ × S))
  write_fix_size fuel len s = transfer fuel len 0 len s

-- readFixSize(ByteArray::ptr, size_t) and writeFixSize(ByteArray::ptr, size_t): the array keeps the
-- offset.
unfoldable pub read_fix_size_into :
    {S : Type 0} → (ℕ → S → Result (ℤ × S)) → ℕ → ℕ → S → Result (Option (ℤ × S))
read_fix_size_into read fuel len s = transfer (λ offset left. read left) fuel len 0 len s

unfoldable pub write_fix_size_from :
    {S : Type 0} → (ℕ → S → Result (ℤ × S)) → ℕ → ℕ → S → Result (Option (ℤ × S))
write_fix_size_from write fuel len s = transfer (λ offset left. write left) fuel len 0 len s

module _ {S : Type 0} (call : (offset left : ℕ) → S → Result (ℤ × S)) where
  -- A call for some bytes moves at least one and at most that many, and keeps P, which holds of the
  -- offset, of what is left and of the state.
  pub record Moves (P : ℕ → ℕ → S → Type 0) : Type 0 where
    pub round :
        (offset left : ℕ) (s : S)
        → 0 < left
        → P offset left s
        → (l : ℕ) × (s' : S) × (call offset left s ≡ ok (pos l, s'))
          × (0 < l)
          × (l ≤ left)
          × P (offset + l) (left - l) s'

  -- A stream that does not end or fail: a call for some bytes moves at least one and at most that
  -- many, and `count` is how many were moved so far.
  pub record Delivers (count : S → ℕ) : Type 0 where
    pub moved : (offset left : ℕ) → S → ℕ
    pub next : (offset left : ℕ) → S → S
    pub result :
        (offset left : ℕ) (s : S)
        → 0 < left
        → call offset left s ≡ ok (pos (moved offset left s), next offset left s)
    pub some_moved : (offset left : ℕ) (s : S) → 0 < left → 0 < moved offset left s
    pub at_most : (offset left : ℕ) (s : S) → 0 < left → moved offset left s ≤ left
    pub counted :
        (offset left : ℕ) (s : S)
        → 0 < left
        → count (next offset left s) ≡ count s + moved offset left s

  transfer_zero :
      (fuel len offset : ℕ) (s : S)
      → transfer call (suc fuel) len offset 0 s ≡ ok (some (to_int len, s))
  unfolding transfer
  transfer_zero fuel len offset s = refl

  transfer_step :
      (fuel len offset left : ℕ) (s : S) (r : ℤ) (s' : S)
      → (left == 0) ≡ false
      → call offset left s ≡ ok (r, s')
      → (to_size r == 0) ≡ false
      → transfer call (suc fuel) len offset left s
        ≡ transfer call fuel len
            ((offset + to_size r) % 2 ^ 64)
            ((left + 2 ^ 64 - to_size r) % 2 ^ 64)
            s'
  unfolding transfer
  transfer_step fuel len offset left s r s' e run f = rw (e, run, f) refl

  transfer_moved :
      (fuel len offset left l : ℕ) (s s' : S)
      → 0 < l
      → l ≤ left
      → offset + left < 2 ^ 64
      → call offset left s ≡ ok (pos l, s')
      → transfer call (suc fuel) len offset left s
        ≡ transfer call fuel len (offset + l) (left - l) s'
  unfolding to_size
  transfer_moved fuel len offset left l s s' positive bounded b run =
      transfer_step fuel len offset left s (pos l) s' (ground arith) run (ground arith)
      ∙ ap₂ (λ o k. transfer call fuel len o k s') (omega arith) (omega arith)

  -- The loop ends with everything moved, and keeps P.
  pub transfer-Moves :
      {P : ℕ → ℕ → S → Type 0} (fuel len offset left : ℕ) (s : S)
      → Moves P
      → left < fuel
      → offset + left < 2 ^ 64
      → P offset left s
      → (s' : S) × (transfer call fuel len offset left s ≡ ok (some (to_int len, s')))
        × P (offset + left) 0 s'
  transfer-Moves zero len offset left s d h b p = absurd (omega arith)
  transfer-Moves {P = P} (suc fuel) len offset zero s d h b p =
      (s, transfer_zero fuel len offset s, subst (λ o. P o 0 s) (omega arith) p)
  transfer-Moves {P = P} (suc fuel) len offset (suc left) s d h b p =
      let (l, s', run, positive, bounded, p') = d.round offset (suc left) s (omega arith) p in
      let (s'', rest, q) =
        transfer-Moves {P = P} fuel len (offset + l) (suc left - l) s' d
          (omega (arith, positive, h)) (omega (arith, bounded, b)) p' in
      (
        s'',
        transfer_moved fuel len offset (suc left) l s s' positive bounded b run ∙ rest,
        subst (λ o. P o 0 s'') (omega (arith, bounded)) q,
      )

  Delivers-Moves :
      (count : S → ℕ) (total : ℕ) → Delivers count → Moves (λ offset left s. count s + left ≡ total)
  Delivers-Moves count total d = record {
    round = λ offset left s some_left e. (
      d.moved offset left s,
      d.next offset left s,
      d.result offset left s some_left,
      d.some_moved offset left s some_left,
      d.at_most offset left s some_left,
      omega (arith, d.counted offset left s some_left, d.at_most offset left s some_left, e),
    );
  }

  -- On a stream that does not end or fail, for a length below 2^64 and with more fuel than it,
  -- readFixSize returns the length as an int, and exactly that many bytes were moved.
  pub read_fix_size_lem :
      (count : S → ℕ) (fuel len : ℕ) (s : S)
      → Delivers count
      → len < fuel
      → len < 2 ^ 64
      → (s' : S) × (read_fix_size call fuel len s ≡ ok (some (to_int len, s')))
        × (count s' ≡ count s + len)
  unfolding read_fix_size
  read_fix_size_lem count fuel len s d h b =
      let (s', run, total) =
        transfer-Moves {P = λ offset left t. count t + left ≡ count s + len} fuel len 0 len s
          (Delivers-Moves count (count s + len) d) h (omega arith) refl in
      (s', run, omega (arith, total))

  failed_step :
      (fuel len offset left : ℕ) (s s' : S)
      → call offset left s ≡ ok (negsuc 0, s')
      → 0 < left
      → transfer call (suc fuel) len offset left s
        ≡ transfer call fuel len
            ((offset + (2 ^ 64 - 1)) % 2 ^ 64)
            ((left + 2 ^ 64 - (2 ^ 64 - 1)) % 2 ^ 64)
            s'
  unfolding to_size
  failed_step fuel len offset left s s' e p =
      transfer_step fuel len offset left s (negsuc 0) s' (ground arith) e refl

  failing :
      (fuel len offset left : ℕ) (s : S) (next : S → S)
      → ((offset left : ℕ) (t : S) → call offset left t ≡ ok (negsuc 0, next t))
      → 0 < left
      → left + fuel ≤ 2 ^ 64
      → transfer call fuel len offset left s ≡ ok none
  unfolding transfer
  failing zero len offset left s next f p b = refl
  failing (suc zero) len offset left s next f p b =
      failed_step 0 len offset left s (next s) (f offset left s) p
  failing (suc (suc fuel)) len offset left s next f p b =
      failed_step (suc fuel) len offset left s (next s) (f offset left s) p
      ∙ failing (suc fuel) len ((offset + (2 ^ 64 - 1)) % 2 ^ 64)
          ((left + 2 ^ 64 - (2 ^ 64 - 1)) % 2 ^ 64) (next s) next f (omega arith) (omega arith)

  -- When every call fails with -1, readFixSize for at least one byte has not returned after any
  -- number of rounds up to 2^64 less the length.
  pub read_fix_size-failed :
      (fuel len : ℕ) (s : S) (next : S → S)
      → ((offset left : ℕ) (t : S) → call offset left t ≡ ok (negsuc 0, next t))
      → 0 < len
      → len + fuel ≤ 2 ^ 64
      → read_fix_size call fuel len s ≡ ok none
  unfolding read_fix_size
  read_fix_size-failed fuel len s next f p b = failing fuel len 0 len s next f p b
