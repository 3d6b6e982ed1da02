-- ===== src/Session/Receive.antt =====
-- What recvRequest makes of the bytes of a message.
use async_rpc.Base.{ℕ, ◌+◌, ◌-◌, ◌<◌, ◌≤◌, ◌==◌, arith, true, false}
use async_rpc.Base.{◌≡◌, refl, sym, ap, ◌∙◌}
use async_rpc.Base.{List, ◌++◌, length, take, drop, memcpy, some, ok}
use async_rpc.Base.{
  length-append, length-memcpy, length-drop, take-append_left, drop-append_left, take-append_self,
  drop-append_self, take-append-drop, append_assoc, take-memcpy,
}
use async_rpc.Base.Int.{pos}
use async_rpc.ByteArray.{ByteArray, set_position}
use async_rpc.ByteArray.View.{Wrote, Written-Wrote}
use async_rpc.ByteArray.Scatter.{store, get_write_buffers-Written}
use async_rpc.FixSize.{Moves}
use async_rpc.Session.{Socket, advance, read_memory, read_array}

-- What is relied on of recv: while it is connected and bytes are on the way, it gives some of them,
-- at most as many as asked for, in order.
pub record Delivers {S : Type 0} (socket : Socket S) (incoming : S → List ℕ) : Type 0 where
  pub arrives :
      (left : ℕ) (s : S)
      → 0 < left
      → socket.is_connected s ≡ true
      → 0 < length (incoming s)
      → (bs : List ℕ) × (s' : S) × (socket.recv left s ≡ (some bs, s'))
        × (0 < length bs)
        × (length bs ≤ left)
        × (incoming s ≡ bs ++ incoming s')
        × (socket.is_connected s' ≡ true)

-- The front of `ys ++ rest` was taken.
taken :
    (bs inc ys rest : List ℕ)
    → ys ++ rest ≡ bs ++ inc
    → length bs ≤ length ys
    → (bs ++ drop (length bs) ys ≡ ys) × (inc ≡ drop (length bs) ys ++ rest)
taken bs inc ys rest e le =
    let front : take (length bs) ys ≡ bs =
      sym (take-append_left (length bs) ys rest le)
      ∙ ap (take (length bs)) e
      ∙ take-append_self bs inc in
    (
      ap (λ xs. xs ++ drop (length bs) ys) (sym front) ∙ take-append-drop (length bs) ys,
      sym (drop-append_self bs inc)
          ∙ ap (drop (length bs)) (sym e)
          ∙ drop-append_left (length bs) ys rest le,
    )

pub advance_lem :
    (a b : ByteArray) (p n : ℕ)
    → 0 < n
    → a.position ≡ p
    → set_position a (p + n) ≡ ok b
    → advance a (pos n) ≡ ok b
unfolding advance
advance_lem a b p n h at run =
    let e : (n == 0) ≡ false = ground arith in rw e (ap (λ q. set_position a (q + n)) at ∙ run)

module _ {S : Type 0} {socket : Socket S} {incoming : S → List ℕ}
    (d : Delivers socket incoming) where
  -- What a read of `left` bytes from `s` gave.
  abbrev Arrived : ℕ → S → List ℕ → S → Type 0
  Arrived left s bs s' =
      (0 < length bs)
      × (length bs ≤ left)
      × (incoming s ≡ bs ++ incoming s')
      × (socket.is_connected s' ≡ true)

  -- A read into an array that ends with its data appends what arrived.
  pub read_array-Wrote :
      (left : ℕ) (a : ByteArray) (xs : List ℕ) (s : S)
      → 0 < left
      → socket.is_connected s ≡ true
      → 0 < length (incoming s)
      → Wrote a xs
      → (bs : List ℕ) × (a' : ByteArray) × (s' : S) × (read_array socket left (a, s)
          ≡ ok (pos (length bs), (a', s')))
        × Wrote a' (xs ++ bs)
        × Arrived left s bs s'
  unfolding read_array
  read_array-Wrote left a xs s asked up more w =
      let (vs, grown, junk, e, f) = get_write_buffers-Written w.valid left asked in
      let (bs, s', run, positive, bounded, inc, up') = d.arrives left s asked up more in
      let (a', moved, written) = f bs bounded in
      (
        bs,
        a',
        s',
        rw
            (
              up,
              e,
              run,
              advance_lem (store vs bs grown) a' grown.position (length bs) positive
                  (unfold store in refl) moved,
            )
            refl,
        Written-Wrote w written,
        (positive, bounded, inc, up'),
      )

  pub read_memory_lem :
      (offset left : ℕ) (memory : List ℕ) (s : S)
      → 0 < left
      → socket.is_connected s ≡ true
      → 0 < length (incoming s)
      → (bs : List ℕ) × (s' : S) × (read_memory socket offset left (memory, s)
          ≡ ok (pos (length bs), (memcpy memory offset bs, s')))
        × Arrived left s bs s'
  unfolding read_memory
  read_memory_lem offset left memory s asked up more =
      let (bs, s', run, positive, bounded, inc, up') = d.arrives left s asked up more in
      (bs, s', rw (up, run) refl, (positive, bounded, inc, up'))

  -- `ys` is what is still to come of a part of the stream, and `rest` follows it.
  abbrev Coming : List ℕ → List ℕ → S → Type 0
  Coming ys rest s = (incoming s ≡ ys ++ rest) × (socket.is_connected s ≡ true)

  module _ (rest : List ℕ) (all : List ℕ) where
    abbrev pub InArray : ℕ → ℕ → ByteArray × S → Type 0
    InArray offset left (a, s) =
        (xs : List ℕ) × (ys : List ℕ) × (xs ++ ys ≡ all)
        × (length ys ≡ left)
        × Wrote a xs
        × Coming ys rest s

    abbrev pub InMemory : ℕ → ℕ → List ℕ × S → Type 0
    InMemory offset left (memory, s) =
        (ys : List ℕ) × (take offset memory ++ ys ≡ all)
        × (length ys ≡ left)
        × (length memory ≡ offset + left)
        × Coming ys rest s

    pub array-Moves : Moves (λ offset left. read_array socket left) InArray
    array-Moves = record { round = λ offset left (a, s) asked p. go left a s asked p }
      where
        go :
            (left : ℕ) (a : ByteArray) (s : S)
            → 0 < left
            → InArray 0 left (a, s)
            → (l : ℕ) × (t : ByteArray × S) × (read_array socket left (a, s) ≡ ok (pos l, t))
              × (0 < l)
              × (l ≤ left)
              × InArray 0 (left - l) t
        go left a s asked (xs, ys, e, len, w, coming) =
            let (bs, a', s', run, w', (positive, bounded, inc, up)) =
              read_array-Wrote left a xs s asked coming.1
                (omega (arith, len, ap length coming.0, length-append ys rest)) w in
            let (front, back) =
              taken bs (incoming s') ys rest (sym coming.0 ∙ inc) (omega (arith, len, bounded)) in
            (
              length bs,
              (a', s'),
              run,
              positive,
              bounded,
              (
                xs ++ bs,
                drop (length bs) ys,
                append_assoc xs bs (drop (length bs) ys) ∙ ap (λ zs. xs ++ zs) front ∙ e,
                omega (arith, length-drop (length bs) ys, len),
                w',
                (back, up),
              ),
            )

    pub memory-Moves : Moves (read_memory socket) InMemory
    memory-Moves = record {
      round = λ offset left (memory, s) asked p. go offset left memory s asked p;
    }
      where
        go :
            (offset left : ℕ) (memory : List ℕ) (s : S)
            → 0 < left
            → InMemory offset left (memory, s)
            → (l : ℕ) × (t : List ℕ × S) × (read_memory socket offset left (memory, s)
                ≡ ok (pos l, t))
              × (0 < l)
              × (l ≤ left)
              × InMemory (offset + l) (left - l) t
        go offset left memory s asked (ys, e, len, room, coming) =
            let (bs, s', run, (positive, bounded, inc, up)) =
              read_memory_lem offset left memory s asked coming.1
                (omega (arith, len, ap length coming.0, length-append ys rest)) in
            let (front, back) =
              taken bs (incoming s') ys rest (sym coming.0 ∙ inc) (omega (arith, len, bounded)) in
            (
              length bs,
              (memcpy memory offset bs, s'),
              run,
              positive,
              bounded,
              (
                drop (length bs) ys,
                ap (λ zs. zs ++ drop (length bs) ys)
                      (take-memcpy memory offset (offset + length bs) bs refl
                        (omega (arith, room, bounded)))
                    ∙ append_assoc (take offset memory) bs (drop (length bs) ys)
                    ∙ ap (λ zs. take offset memory ++ zs) front
                    ∙ e,
                omega (arith, length-drop (length bs) ys, len),
                omega (arith, length-memcpy memory offset bs, room, bounded),
                (back, up),
              ),
            )
