-- ===== src/ByteArray/Walk.antt =====
-- The loops of src/byte_array.cc over the nodes, on nodes of one size: each is one copy on the
-- concatenation of the nodes.
use async_rpc.Base.{ℕ, zero, suc, ◌+◌, ◌-◌, ◌*◌, ◌≤◌, ◌<◌, ltb, leb, ◌==◌, arith}
use async_rpc.Base.{◌≡◌, refl, sym, ap, ap₂, ◌∙◌, inl, inr, Bool-cases, true, false}
use async_rpc.Base.{List, [], ◌∷◌, ◌++◌, length, take, drop, memcpy, flat, All}
use async_rpc.Base.{length-memcpy, memcpy-append_left, memcpy-append_across, memcpy-append_right}
use async_rpc.Base.{length-append, length-drop, ok}
use async_rpc.Base.{take-append_left, drop-append_left, drop-append_right, take-append_right}
use async_rpc.Base.{take-all, if◌then◌else◌}
use async_rpc.ByteArray.{fill, fill_at, scan, scan_at, seek}

-- Every node has the base size.
abbrev pub Uniform : ℕ → List (List ℕ) → Type 0
Uniform base = All (λ n. length n ≡ base)

pub length-flat :
    (base : ℕ) (ns : List (List ℕ)) → Uniform base ns → length (flat ns) ≡ length ns * base
length-flat base [] u = omega arith
length-flat base (n ∷ ns) u = omega (arith, length-append n (flat ns), length-flat base ns u.1)

-- What a walk over the nodes from byte `npos` on does: it ends in node `moved`.
abbrev pub EndsIn : ℕ → ℕ → ℕ → Type 0
EndsIn base moved end = (moved * base ≤ end) × (end < (moved + 1) * base)

pub record Filled (base : ℕ) (ns : List (List ℕ)) (start : ℕ) (bs : List ℕ) (ns' : List (List ℕ))
    (moved : ℕ) : Type 0 where
  pub copied : flat ns' ≡ memcpy (flat ns) start bs
  pub uniform : Uniform base ns'
  pub same_length : length ns' ≡ length ns
  pub ends : EndsIn base moved (start + length bs)

module _ (base : ℕ) where
  fill_last :
      (n : List ℕ) (ns : List (List ℕ)) (npos : ℕ) (bs : List ℕ)
      → length n ≡ base
      → Uniform base ns
      → npos < base
      → leb (length bs) (length n - npos) ≡ true
      → Filled base
          (n ∷ ns)
          npos
          bs
          (memcpy n npos bs ∷ ns)
          (if length n == length bs + npos then 1 else 0)
  fill_last n ns npos bs e u lt fits = record {
    copied = sym (memcpy-append_left n (flat ns) npos bs (ground arith));
    uniform = (length-memcpy n npos bs ∙ e, u);
    same_length = refl;
    ends = ground arith;
  }

  fill_next :
      (n : List ℕ) (ns : List (List ℕ)) (npos : ℕ) (bs : List ℕ) (ns' : List (List ℕ)) (k : ℕ)
      → length n ≡ base
      → npos < base
      → length n - npos < length bs
      → Filled base ns 0 (drop (length n - npos) bs) ns' k
      → Filled base (n ∷ ns) npos bs (memcpy n npos (take (length n - npos) bs) ∷ ns') (suc k)
  fill_next n ns npos bs ns' k e lt more f = record {
    copied =
        ap₂ ◌++◌ refl f.copied
        ∙ sym (memcpy-append_across n (flat ns) npos (length n - npos) bs (omega arith));
    uniform = (length-memcpy n npos _ ∙ e, f.uniform);
    same_length = ap suc f.same_length;
    ends = (
      omega (arith, f.ends.0, length-drop (length n - npos) bs),
      omega (arith, f.ends.1, length-drop (length n - npos) bs),
    );
  }

  -- The write loop does not run off the nodes if the bytes fit, and copies them to `npos`.
  pub fill_lem :
      (ns : List (List ℕ)) (npos : ℕ) (bs : List ℕ)
      → Uniform base ns
      → npos < base
      → 0 < length bs
      → npos + length bs ≤ length ns * base
      → (ns' : List (List ℕ)) × (k : ℕ) × (fill ns npos bs ≡ ok (ns', k))
        × Filled base ns npos bs ns' k
  unfolding fill
  fill_lem [] npos bs u lt some_bytes fits = absurd (omega arith)
  fill_lem (n ∷ ns) npos bs u lt some_bytes fits =
      elim (Bool-cases (leb (length bs) (length n - npos))) [
        | inl last ↦ (_, _, rw last refl, fill_last n ns npos bs u.0 u.1 lt last)
        | inr more ↦
            let (ns', k, e, f) =
              fill_lem ns 0 (drop (length n - npos) bs) u.1 (omega arith)
                (ground (arith, length-drop (length n - npos) bs))
                (ground (arith, length-drop (length n - npos) bs)) in
            (_, _, rw (more, e) refl, fill_next n ns npos bs ns' k u.0 lt (ground arith) f)
      ]

  pub fill_at_lem :
      (k : ℕ) (ns : List (List ℕ)) (npos : ℕ) (bs : List ℕ)
      → Uniform base ns
      → npos < base
      → 0 < length bs
      → k * base + npos + length bs ≤ length ns * base
      → (ns' : List (List ℕ)) × (j : ℕ) × (fill_at k ns npos bs ≡ ok (ns', j))
        × Filled base ns (k * base + npos) bs ns' j
  unfolding fill_at
  fill_at_lem zero ns npos bs u lt some_bytes fits =
      let e : zero * base + npos ≡ npos = omega arith in
      rw e (fill_lem ns npos bs u lt some_bytes (omega arith))
  fill_at_lem (suc k) [] npos bs u lt some_bytes fits = absurd (omega arith)
  fill_at_lem (suc k) (n ∷ ns) npos bs u lt some_bytes fits =
      let (ns', j, e, f) = fill_at_lem k ns npos bs u.1 lt some_bytes (omega arith) in
      (
        n ∷ ns',
        suc j,
        rw e refl,
        record {
          copied =
              ap₂ ◌++◌ refl f.copied
              ∙ sym (
                  memcpy-append_right n (flat ns) (k * base + npos) (suc k * base + npos) bs
                    (omega (arith, u.0)));
          uniform = (u.0, f.uniform);
          same_length = ap suc f.same_length;
          ends = (omega (arith, f.ends.0), omega (arith, f.ends.1));
        },
      )

  scan_bytes :
      (n rest : List ℕ) (npos size : ℕ)
      → npos ≤ length n
      → length n - npos ≤ size
      → take (length n - npos) (drop npos n) ++ take (size - (length n - npos)) rest
        ≡ take size (drop npos (n ++ rest))
  scan_bytes n rest npos size lt le =
      rw
        (
          drop-append_left npos n rest lt,
          take-append_right (drop npos n) rest size (size - (length n - npos))
              (omega (arith, length-drop npos n)),
          take-all (length n - npos) (drop npos n) (omega (arith, length-drop npos n)),
        )
        refl

  scan_first :
      (n rest : List ℕ) (npos size : ℕ)
      → npos + size ≤ length n
      → take size (drop npos n) ≡ take size (drop npos (n ++ rest))
  scan_first n rest npos size fits =
      rw (drop-append_left npos n rest (omega arith))
        (sym (take-append_left size (drop npos n) rest (omega (arith, length-drop npos n))))

  scan_next :
      (n : List ℕ) (ns : List (List ℕ)) (npos size j : ℕ)
      → npos ≤ length n
      → leb size (length n - npos) ≡ false
      → scan ns 0 (size - (length n - npos)) ≡ ok (take (size - (length n - npos)) (flat ns), j)
      → scan (n ∷ ns) npos size ≡ ok (take size (drop npos (n ++ flat ns)), suc j)
  unfolding scan
  scan_next n ns npos size j lt more e =
      rw (more, e) (ap (λ bs. ok (bs, suc j)) (scan_bytes n (flat ns) npos size lt (ground arith)))

  scan_here :
      (n : List ℕ) (ns : List (List ℕ)) (npos size : ℕ)
      → leb size (length n - npos) ≡ true
      → npos + size ≤ length n
      → scan (n ∷ ns) npos size
        ≡ ok (take size (drop npos (n ++ flat ns)), if length n == npos + size then 1 else 0)
  unfolding scan
  scan_here n ns npos size last fits = rw last (
      ap (λ bs. ok (bs, if length n == npos + size then 1 else 0))
        (scan_first n (flat ns) npos size fits))

  -- The read loop does not run off the nodes if the bytes are there, and takes them from `npos` on.
  pub scan_lem :
      (ns : List (List ℕ)) (npos size : ℕ)
      → Uniform base ns
      → npos < base
      → 0 < size
      → npos + size ≤ length ns * base
      → (j : ℕ) × (scan ns npos size ≡ ok (take size (drop npos (flat ns)), j))
        × EndsIn base j (npos + size)
  scan_lem [] npos size u lt some_bytes fits = absurd (omega arith)
  scan_lem (n ∷ ns) npos size u lt some_bytes fits =
      elim (Bool-cases (leb size (length n - npos))) [
        | inl last ↦ (
          (if length n == npos + size then 1 else 0),
          scan_here n ns npos size last (ground arith),
          ground arith,
        )
        | inr more ↦
            let (j, e, ends) =
              scan_lem ns 0 (size - (length n - npos)) u.1 (omega arith) (ground arith)
                (ground arith) in
            (suc j, scan_next n ns npos size j (omega (arith, u.0)) more e, ground arith)
      ]

  pub scan_at_lem :
      (k : ℕ) (ns : List (List ℕ)) (npos size : ℕ)
      → Uniform base ns
      → npos < base
      → 0 < size
      → k * base + npos + size ≤ length ns * base
      → (j : ℕ) × (scan_at k ns npos size ≡ ok (take size (drop (k * base + npos) (flat ns)), j))
        × EndsIn base j (k * base + npos + size)
  unfolding scan_at
  scan_at_lem zero ns npos size u lt some_bytes fits =
      let e : zero * base + npos ≡ npos = omega arith in
      rw e (scan_lem ns npos size u lt some_bytes (omega arith))
  scan_at_lem (suc k) [] npos size u lt some_bytes fits = absurd (omega arith)
  scan_at_lem (suc k) (n ∷ ns) npos size u lt some_bytes fits =
      let (j, e, ends) = scan_at_lem k ns npos size u.1 lt some_bytes (omega arith) in
      (
        suc j,
        rw e (
            ap (λ bs. ok (take size bs, suc j))
              (sym (
                drop-append_right n (flat ns) (suc k * base + npos) (k * base + npos)
                  (omega (arith, u.0))))),
        omega (arith, ends.0, ends.1),
      )

  node_left : (ns : List (List ℕ)) (v : ℕ) → base < v → v ≤ suc (length ns) * base → 0 < length ns
  node_left [] v lt le = absurd (omega arith)
  node_left (n ∷ ns) v lt le = omega arith

  -- `setPosition` finds the node of every position up to the capacity.
  pub seek_lem :
      (ns : List (List ℕ)) (v : ℕ)
      → Uniform base ns
      → 0 < base
      → 0 < length ns
      → v ≤ length ns * base
      → (k : ℕ) × (seek ns v ≡ ok k) × EndsIn base k v
  unfolding seek
  seek_lem [] v u pos some_nodes fits = absurd (omega arith)
  seek_lem (n ∷ ns) v u pos some_nodes fits = elim (Bool-cases (ltb (length n) v)) [
    | inl more ↦
        let (k, e, ends) =
          seek_lem ns (v - length n) u.1 pos (node_left ns v (ground arith) fits) (ground arith) in
        (suc k, rw (more, e) refl, ground arith)
    | inr here ↦ ((if v == length n then 1 else 0), ground arith, ground arith)
  ]
