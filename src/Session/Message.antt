-- ===== src/Session/Message.antt =====
-- recvRequest of src/rpc/rpc_session.cc on the bytes of a message, however they arrive.
use async_rpc.Base.{ℕ, ◌+◌, ◌^◌, ◌<◌, ◌==◌, arith, Bool-cases, true, false}
use async_rpc.Base.{◌≡◌, refl, sym, ap, ◌∙◌, subst, inl, inr}
use async_rpc.Base.{List, [], ◌∷◌, ◌++◌, length, take, replicate, Option, some, ok}
use async_rpc.Base.{append_assoc, append-nil, take-all, length-replicate}
use async_rpc.Base.Int.{ℤ, to_int, to_int-small}
use async_rpc.ByteArray.{ByteArray, make, set_position}
use async_rpc.ByteArray.View.{Wrote, Left, make-Wrote, rewind}
use async_rpc.Codec.{little}
use async_rpc.Codec.Text.{text_bytes}
use async_rpc.FixSize.{transfer-Moves, read_fix_size, read_fix_size_into}
use async_rpc.Protocol.{Protocol, empty, base_length, default_size, magic_byte, decode_meta}
use async_rpc.Protocol.RoundTrip.{
  Fits, head_bytes, meta_bytes, length-meta_bytes, decode_meta-Reads,
}
use async_rpc.Session.{
  Socket, read_memory, read_array, is_positive, recv_content, recv_header, recv_request,
}
use async_rpc.Session.Receive.{Delivers, InArray, InMemory, array-Moves, memory-Moves}

pub no_bytes : (ys : List ℕ) → length ys ≡ 0 → ys ≡ []
no_bytes [] e = refl
no_bytes (y ∷ ys) e = absurd (omega arith)

module _ {S : Type 0} {socket : Socket S} {incoming : S → List ℕ} (d : Delivers socket incoming)
    (rest : List ℕ) where
  -- The stream is connected, and `bytes` and then `rest` are on the way.
  abbrev pub Coming : List ℕ → S → Type 0
  Coming bytes s = (incoming s ≡ bytes ++ rest) × (socket.is_connected s ≡ true)

  content_arrives :
      (fuel : ℕ) (content : List ℕ) (s : S)
      → length content < fuel
      → length content < 2 ^ 64
      → Coming content s
      → (s' : S) × (read_fix_size
            (read_memory socket)
            fuel
            (length content)
            (replicate (length content) 0, s)
          ≡ ok (some (to_int (length content), (content, s'))))
        × Coming [] s'
  unfolding read_fix_size
  content_arrives fuel content s h b coming =
      let ((memory, s'), run, (ys, e, len, room, behind)) =
        transfer-Moves (read_memory socket) {P = InMemory d rest content} fuel (length content) 0
          (length content) (replicate (length content) 0, s) (memory-Moves d rest content) h
          (omega arith)
          (
            content,
            refl,
            refl,
            omega (arith, length-replicate {A = ℕ} (length content) 0),
            coming,
          ) in
      let nothing = no_bytes ys len in
      let same : memory ≡ content =
        sym (take-all (0 + length content) memory (omega (arith, room)))
        ∙ sym (append-nil _)
        ∙ ap (λ zs. take (0 + length content) memory ++ zs) (sym nothing)
        ∙ e in
      (
        s',
        run ∙ ap (λ m. ok (some (to_int (length content), (m, s')))) same,
        (behind.0 ∙ ap (λ zs. zs ++ rest) nothing, behind.1),
      )

  recv_content-none :
      (fuel : ℕ) (p : Protocol) (s : S)
      → (p.magic == magic_byte) ≡ true
      → (p.content_length == 0) ≡ true
      → recv_content socket fuel p s ≡ ok (some (some p, s))
  unfolding recv_content
  recv_content-none fuel p s magic nothing = rw (magic, nothing) refl

  recv_content-some :
      (fuel : ℕ) (p : Protocol) (s : S) (memory : List ℕ) (s' : S)
      → (p.magic == magic_byte) ≡ true
      → (p.content_length == 0) ≡ false
      → is_positive (to_int p.content_length) ≡ true
      → read_fix_size (read_memory socket) fuel p.content_length (replicate p.content_length 0, s)
        ≡ ok (some (to_int p.content_length, (memory, s')))
      → recv_content socket fuel p s ≡ ok (some (some (record p { content = memory }), s'))
  unfolding recv_content
  recv_content-some fuel p s memory s' magic something positive run =
      rw (magic, something, run, positive) refl

  recv_content_lem :
      (fuel : ℕ) (p : Protocol) (s : S)
      → Fits p
      → p.magic ≡ magic_byte
      → length p.content < fuel
      → length p.content < 2 ^ 31
      → Coming p.content s
      → (s' : S) × (recv_content socket fuel (record p { content = [] }) s ≡ ok (some (some p, s')))
        × Coming [] s'
  recv_content_lem fuel p s f magic h b coming =
      let q = record p { content = [] } in
      let marked : (p.magic == magic_byte) ≡ true = ground arith in
      elim (Bool-cases (p.content_length == 0)) [
        | inl nothing ↦
            let e : p.content ≡ [] = no_bytes p.content (ground (arith, f.length_right)) in
            (
              s,
              recv_content-none fuel q s marked nothing
                  ∙ ap (λ c. ok (some (some (record p { content = c }), s))) (sym e),
              (coming.0 ∙ ap (λ zs. zs ++ rest) e, coming.1),
            )
        | inr something ↦
            let (s', run, behind) = content_arrives fuel p.content s h (omega (arith, b)) coming in
            (
              s',
              recv_content-some fuel q s p.content s' marked something
                  (ap is_positive (to_int-small p.content_length (omega (arith, f.length_right, b)))
                    ∙ (let l = f.length_right in ground arith))
                  (subst
                    (λ n.
                      read_fix_size (read_memory socket) fuel n (replicate n 0, s)
                      ≡ ok (some (to_int n, (p.content, s'))))
                    (sym f.length_right) run),
              behind,
            )
      ]

  header_arrives :
      (fuel : ℕ) (fresh : ℕ → ℕ) (header : List ℕ) (content : List ℕ) (s : S)
      → length header ≡ base_length
      → base_length < fuel
      → (incoming s ≡ header ++ (content ++ rest))
      → socket.is_connected s ≡ true
      → (a : ByteArray) × (s' : S) × (read_fix_size_into
            (read_array socket)
            fuel
            base_length
            (make fresh default_size, s)
          ≡ ok (some (to_int base_length, (a, s'))))
        × Wrote a header
        × Coming content s'
  unfolding read_fix_size_into
  header_arrives fuel fresh header content s size h coming up =
      let ((a, s'), run, (xs, ys, e, len, w, behind)) =
        transfer-Moves (λ offset left. read_array socket left)
          {P = InArray d (content ++ rest) header} fuel base_length 0 base_length
          (make fresh default_size, s) (array-Moves d (content ++ rest) header) h (omega arith)
          ([], header, refl, size, make-Wrote fresh default_size (omega arith), (coming, up)) in
      let nothing = no_bytes ys len in
      (
        a,
        s',
        run,
        subst (Wrote a) (sym (append-nil xs) ∙ ap (λ zs. xs ++ zs) (sym nothing) ∙ e) w,
        (behind.0 ∙ ap (λ zs. zs ++ (content ++ rest)) nothing, behind.1),
      )

  recv_header_lem :
      (fuel : ℕ) (fresh : ℕ → ℕ) (p q : Protocol) (a a' a'' : ByteArray) (s : S)
      → set_position a 0 ≡ ok a'
      → decode_meta little empty a' ≡ ok (q, a'')
      → recv_header little fresh socket fuel (some (to_int base_length, (a, s)))
        ≡ recv_content socket fuel q s
  unfolding recv_header to_int
  recv_header_lem fuel fresh p q a a' a'' s back meta = rw (back, meta) refl

  recv_request_by :
      (fuel : ℕ) (fresh : ℕ → ℕ) (s : S) {r : Option (ℤ × (ByteArray × S))}
      → read_fix_size_into (read_array socket) fuel base_length (make fresh default_size, s) ≡ ok r
      → recv_request little fresh socket fuel s ≡ recv_header little fresh socket fuel r
  unfolding recv_request
  recv_request_by fuel fresh s run = rw run refl

  -- When the bytes that come begin with a message whose fields fit and whose magic byte is right,
  -- recvRequest returns it and leaves what follows.
  pub recv_request_lem :
      (fuel : ℕ) (fresh : ℕ → ℕ) (p : Protocol) (s : S)
      → Fits p
      → p.magic ≡ magic_byte
      → length p.content < 2 ^ 31
      → base_length < fuel
      → length p.content < fuel
      → incoming s ≡ (head_bytes p ++ text_bytes 4 p.content) ++ rest
      → socket.is_connected s ≡ true
      → (s' : S) × (recv_request little fresh socket fuel s ≡ ok (some (some p, s')))
        × (incoming s' ≡ rest)
        × (socket.is_connected s' ≡ true)
  recv_request_lem fuel fresh p s f magic b h h' coming up =
      let split : (head_bytes p ++ text_bytes 4 p.content) ++ rest
          ≡ meta_bytes p ++ (p.content ++ rest) =
        ap (λ zs. zs ++ rest) (sym (append_assoc (head_bytes p) _ p.content))
        ∙ append_assoc (meta_bytes p) p.content rest in
      let (a, s₁, run, w, content) =
        header_arrives fuel fresh (meta_bytes p) p.content s (length-meta_bytes p) h
          (coming ∙ split) up in
      let (a₁, back, left) = rewind w in
      let (a₂, meta, _) =
        (decode_meta-Reads p empty f).run a₁ [] (subst (Left a₁) (sym (append-nil _)) left) in
      let (s₂, body, behind) = recv_content_lem fuel p s₁ f magic h' b content in
      (
        s₂,
        recv_request_by fuel fresh s run
            ∙ recv_header_lem fuel fresh p (record p { content = [] }) a a₁ a₂ s₁ back meta
            ∙ body,
        behind.0,
        behind.1,
      )
