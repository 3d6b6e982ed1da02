-- ===== src/ByteArray/Scatter.antt =====
-- What a system call stores through the pieces of getWriteBuffers, in src/byte_array.cc: with the
-- setPosition behind it, it is a write of the bytes.
use native.Mathlib.Nat.{mod-lt}
use async_rpc.Base.{ℕ, zero, suc, ◌+◌, ◌-◌, ◌*◌, ◌/◌, ◌≤◌, ◌<◌, leb, ◌==◌, arith}
use async_rpc.Base.{◌≡◌, refl, sym, ap, ap₂, ◌∙◌, subst, inl, inr, Bool-cases, true, false}
use async_rpc.Base.{
  List, [], ◌∷◌, ◌++◌, map, length, take, drop, memcpy, flat, set, get_or, Result, ok,
}
use async_rpc.Base.{length-memcpy, memcpy-append_left, memcpy-append_across, memcpy-append_right}
use async_rpc.Base.{length-append, length-drop, take-all, append-nil}
use async_rpc.ByteArray.{ByteArray, pointer, add_capacity, set_position}
use async_rpc.ByteArray.Walk.{Uniform}
use async_rpc.ByteArray.Invariant.{IsValid, contents, length-contents}
use async_rpc.ByteArray.Growth.{Grown, add_capacity-Grown}
use async_rpc.ByteArray.Access.{Written, Grown-Written, node, offset, node_offset, curr_node}
use async_rpc.ByteArray.Reading.{Sought, set_position_lem}
use async_rpc.ByteArray.Buffers.{Iovec, deeper, gather, gather_at, gather_from, get_write_buffers}

-- The bytes, over the pieces one after the other.
unfoldable pub scatter : List Iovec → List ℕ → List (List ℕ) → List (List ℕ)
scatter [] bs ns = ns
scatter (v ∷ vs) bs ns =
    scatter vs (drop v.iov_len bs)
      (set ns v.node (memcpy (get_or ns v.node []) v.iov_base (take v.iov_len bs)))

unfoldable pub store : List Iovec → List ℕ → ByteArray → ByteArray
store vs bs a = record a { nodes = scatter vs bs a.nodes }

scatter-deeper :
    (n : List ℕ) (vs : List Iovec) (bs : List ℕ) (ns : List (List ℕ))
    → scatter (map deeper vs) bs (n ∷ ns) ≡ n ∷ scatter vs bs ns
unfolding scatter
scatter-deeper n [] bs ns = refl
scatter-deeper n (v ∷ vs) bs ns = scatter-deeper n vs (drop v.iov_len bs) _

-- The nodes with `bs` from byte `start` on.
pub record Scattered (base : ℕ) (ns : List (List ℕ)) (start : ℕ) (bs : List ℕ) (ns' : List (List ℕ))
    : Type 0 where
  pub copied : flat ns' ≡ memcpy (flat ns) start bs
  pub uniform : Uniform base ns'
  pub same_length : length ns' ≡ length ns

abbrev pub Pieces : ℕ → List (List ℕ) → ℕ → ℕ → Result (List Iovec) → Type 0
Pieces base ns start len r =
    (vs : List Iovec) × (r ≡ ok vs)
    × ((bs : List ℕ) → length bs ≤ len → Scattered base ns start bs (scatter vs bs ns))

module _ (base : ℕ) where
  scatter_one :
      (n : List ℕ) (ns : List (List ℕ)) (npos len : ℕ) (bs : List ℕ)
      → length n ≡ base
      → Uniform base ns
      → npos < base
      → leb len (length n - npos) ≡ true
      → length bs ≤ len
      → Scattered base
          (n ∷ ns)
          npos
          bs
          (scatter (record { node = 0; iov_base = npos; iov_len = len } ∷ []) bs (n ∷ ns))
  unfolding scatter
  scatter_one n ns npos len bs e u lt fits short = rw (take-all len bs short) record {
    copied = sym (memcpy-append_left n (flat ns) npos bs (ground arith));
    uniform = (length-memcpy n npos bs ∙ e, u);
    same_length = refl;
  }

  scatter_more :
      (n : List ℕ) (ns : List (List ℕ)) (npos c : ℕ) (vs : List Iovec) (bs : List ℕ)
      → length n ≡ base
      → npos + c ≡ length n
      → Scattered base ns 0 (drop c bs) (scatter vs (drop c bs) ns)
      → Scattered base
          (n ∷ ns)
          npos
          bs
          (scatter (record { node = 0; iov_base = npos; iov_len = c } ∷ map deeper vs) bs (n ∷ ns))
  unfolding scatter
  scatter_more n ns npos c vs bs e room s =
      rw (scatter-deeper (memcpy n npos (take c bs)) vs (drop c bs) ns) record {
        copied =
            ap₂ ◌++◌ refl s.copied ∙ sym (memcpy-append_across n (flat ns) npos c bs (omega arith));
        uniform = (length-memcpy n npos _ ∙ e, s.uniform);
        same_length = ap suc s.same_length;
      }

  gather-Pieces :
      (ns : List (List ℕ)) (npos len : ℕ)
      → Uniform base ns
      → npos < base
      → 0 < len
      → npos + len ≤ length ns * base
      → Pieces base ns npos len (gather ns npos len)
  unfolding gather
  gather-Pieces [] npos len u lt asked fits = absurd (omega arith)
  gather-Pieces (n ∷ ns) npos len u lt asked fits = elim (Bool-cases (leb len (length n - npos))) [
    | inl last ↦ (_, rw last refl, λ bs short. scatter_one n ns npos len bs u.0 u.1 lt last short)
    | inr more ↦
        let (vs, e, f) =
          gather-Pieces ns 0 (len - (length n - npos)) u.1 (omega arith) (ground arith)
            (ground arith) in
        (
          _,
          rw (more, e) refl,
          λ bs short.
              scatter_more n ns npos (length n - npos) vs bs u.0 (omega (arith, u.0))
                (f (drop (length n - npos) bs) (omega (arith, length-drop (length n - npos) bs))),
        )
  ]

  gather_at-Pieces :
      (k : ℕ) (ns : List (List ℕ)) (npos len : ℕ)
      → Uniform base ns
      → npos < base
      → 0 < len
      → k * base + npos + len ≤ length ns * base
      → Pieces base ns (k * base + npos) len (gather_at k ns npos len)
  unfolding gather_at
  gather_at-Pieces zero ns npos len u lt asked fits =
      let e : zero * base + npos ≡ npos = omega arith in
      rw e (gather-Pieces ns npos len u lt asked (omega arith))
  gather_at-Pieces (suc k) [] npos len u lt asked fits = absurd (omega arith)
  gather_at-Pieces (suc k) (n ∷ ns) npos len u lt asked fits =
      let (vs, e, f) = gather_at-Pieces k ns npos len u.1 lt asked (omega arith) in
      (
        map deeper vs,
        rw e refl,
        λ bs short. rw (scatter-deeper n vs bs ns) (
            let s = f bs short in
            record {
              copied =
                  ap₂ ◌++◌ refl s.copied
                  ∙ sym (
                      memcpy-append_right n (flat ns) (k * base + npos) (suc k * base + npos) bs
                        (omega (arith, u.0)));
              uniform = (u.0, s.uniform);
              same_length = ap suc s.same_length;
            }),
      )

store-IsValid :
    {a : ByteArray} (v : IsValid a) (vs : List Iovec) (bs : List ℕ)
    → Scattered a.base_size a.nodes a.position bs (scatter vs bs a.nodes)
    → IsValid (store vs bs a)
unfolding store
store-IsValid {a} v vs bs s = record {
  base_pos = v.base_pos;
  uniform = s.uniform;
  has_head = omega (arith, s.same_length, v.has_head);
  all_counted = v.all_counted ∙ ap (λ (n : ℕ). n * a.base_size) (sym s.same_length);
  position_le = v.position_le;
  size_le = v.size_le;
  at_position = v.at_position ∙ ap (λ n. pointer n (a.position / a.base_size)) (sym s.same_length);
}

module _ {a : ByteArray} (v : IsValid a) where
  gather_from-Pieces :
      (len : ℕ)
      → 0 < len
      → a.position + len ≤ a.capacity
      → Pieces a.base_size a.nodes a.position len (gather_from a.curr a a.position len)
  unfolding gather_from
  gather_from-Pieces len asked fits =
      let (vs, e, f) =
        gather_at-Pieces a.base_size (node v) a.nodes (offset v) len v.uniform
          (mod-lt a.position v.base_pos) asked (omega (arith, node_offset v, v.all_counted)) in
      (
        vs,
        rw (curr_node v (omega arith)) e,
        λ bs short.
            subst (λ p. Scattered a.base_size a.nodes p bs (scatter vs bs a.nodes)) (node_offset v)
              (f bs short),
      )

  -- The bytes stored and the position moved behind them.
  stored-Written :
      (vs : List Iovec) (bs : List ℕ)
      → Scattered a.base_size a.nodes a.position bs (scatter vs bs a.nodes)
      → a.position + length bs ≤ a.capacity
      → (a' : ByteArray) × (set_position (store vs bs a) (a.position + length bs) ≡ ok a')
        × Written a bs a' []
  stored-Written vs bs s fits =
      let (a', e, sought) =
        set_position_lem (store-IsValid v vs bs s) (a.position + length bs)
          (unfold store in fits) in
      (a', e, written a' sought)
    where
      written :
          (a' : ByteArray)
          → Sought (store-IsValid v vs bs s) (a.position + length bs) a'
          → Written a bs a' []
      written a' w = record {
        valid = w.valid;
        same_base = w.same_base ∙ unfold store in refl;
        same_fresh = λ i. w.same_fresh i ∙ unfold store in refl;
        moved = w.moved;
        sized = λ h. w.sized ∙ unfold store in refl;
        fits = omega (arith, length-contents v, length-append (contents a) [], fits);
        bytes =
            w.bytes
            ∙ unfold store in
              s.copied ∙ ap (λ xs. memcpy xs a.position bs) (sym (append-nil (contents a)));
      }

Grown-le :
    {a a' : ByteArray} {n : ℕ} {junk : List ℕ} (m : ℕ)
    → m ≤ n
    → Grown a n a' junk
    → Grown a m a' junk
Grown-le m le g = record {
  valid = g.valid;
  same_base = g.same_base;
  same_position = g.same_position;
  same_size = g.same_size;
  same_fresh = g.same_fresh;
  fits = omega (arith, g.fits);
  behind = g.behind;
}

-- On a valid buffer, getWriteBuffers for at least one byte succeeds with pieces such that to store
-- any bytes, at most as many as asked for, through the pieces and then set the position behind
-- them is a write of those bytes.
pub get_write_buffers-Written :
    {a : ByteArray} (v : IsValid a) (len : ℕ)
    → 0 < len
    → (vs : List Iovec) × (a' : ByteArray) × (junk : List ℕ) × (get_write_buffers a len
        ≡ ok (len, vs, a'))
      × ((bs : List ℕ)
          → length bs ≤ len
          → (a'' : ByteArray) × (set_position (store vs bs a') (a'.position + length bs) ≡ ok a'')
            × Written a bs a'' junk)
unfolding get_write_buffers
get_write_buffers-Written {a} v len asked =
    let (junk, g) = add_capacity-Grown a v len in
    let some_asked : (len == 0) ≡ false = ground arith in
    let (vs, e, f) =
      gather_from-Pieces g.valid len asked (omega (arith, g.fits, g.same_position)) in
    (
      vs,
      add_capacity a len,
      junk,
      rw (some_asked, e) refl,
      λ bs short.
          let (a'', e', w) =
            stored-Written g.valid vs bs (f bs short)
              (omega (arith, g.fits, g.same_position, short)) in
          (a'', e', Grown-Written (Grown-le (length bs) short g) w),
    )
