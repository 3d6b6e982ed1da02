-- ===== src/Session/Send.antt =====
-- What sendResponse of src/rpc/rpc_session.cc puts on the stream, and that recvRequest takes it off.
use async_rpc.Base.{ℕ, ◌+◌, ◌-◌, ◌^◌, ◌<◌, ◌≤◌, arith, true}
use async_rpc.Base.{◌≡◌, refl, sym, ap, ◌∙◌, subst}
use async_rpc.Base.{List, [], ◌++◌, length, take, drop, some, Result, ok, err, ◌>>=◌, >>=_assoc}
use async_rpc.Base.{append_assoc, append-nil, length-append, length-drop, length-take_le}
use async_rpc.Base.{take-append-drop}
use async_rpc.Base.Int.{pos, to_int-small}
use async_rpc.ByteArray.{ByteArray, make, set_position}
use async_rpc.ByteArray.View.{Left, length-Left, read-Left, Consumed-Left}
use async_rpc.ByteArray.Reading.{Consumed, Sought, set_position_lem, readable_lem}
use async_rpc.ByteArray.Buffers.{
  Iovec, pieces_of, get_read_buffers, get_read_buffers-read, get_read_buffers-length,
}
use async_rpc.Codec.{little, write_string_f32}
use async_rpc.Codec.Text.{text_bytes}
use async_rpc.FixSize.{Moves, transfer-Moves, write_fix_size_from}
use async_rpc.Protocol.{Protocol, base_length, magic_byte, default_size, write_head, encode}
use async_rpc.Protocol.RoundTrip.{Fits, head_bytes, meta_bytes, length-meta_bytes, encode-Left}
use async_rpc.Session.{Socket, write_array, recv_request, send_response}
use async_rpc.Session.Receive.{Delivers, advance_lem}
use async_rpc.Session.Message.{recv_request_lem, no_bytes}

-- IOV_MAX of Linux: sendmsg refuses more pieces.
abbrev pub iov_max : ℕ
iov_max = 1024

-- What is relied on of send: while it is connected, it takes some of the bytes, from the front, when
-- they are not in too many pieces.
pub record Accepts {S : Type 0} (socket : Socket S) (outgoing : S → List ℕ) : Type 0 where
  pub leaves :
      (pieces : ℕ) (bs : List ℕ) (s : S)
      → pieces ≤ iov_max
      → 0 < length bs
      → socket.is_connected s ≡ true
      → (n : ℕ) × (s' : S) × (socket.send pieces bs s ≡ (some n, s'))
        × (0 < n)
        × (n ≤ length bs)
        × (outgoing s' ≡ outgoing s ++ take n bs)
        × (socket.is_connected s' ≡ true)

set_position-nodes : (a a' : ByteArray) (v : ℕ) → set_position a v ≡ ok a' → a'.nodes ≡ a.nodes
unfolding set_position
set_position-nodes a a' v run = ground arith

-- The position moved over the first bytes that are left.
skip-Left :
    (a : ByteArray) (xs ys : List ℕ)
    → Left a (xs ++ ys)
    → (a' : ByteArray) × (set_position a (a.position + length xs) ≡ ok a')
      × Left a' ys
      × (a'.nodes ≡ a.nodes)
skip-Left a xs ys w =
    let room : length xs + length ys ≡ a.size - a.position =
      omega (arith, length-Left w, length-append xs ys) in
    let (a', run, s) =
      set_position_lem w.valid (a.position + length xs)
        (omega (arith, room, w.within, w.valid.size_le)) in
    (
      a',
      run,
      Consumed-Left xs ys w (consumed a' s room),
      set_position-nodes a a' (a.position + length xs) run,
    )
  where
    consumed :
        (a' : ByteArray)
        → Sought w.valid (a.position + length xs) a'
        → length xs + length ys ≡ a.size - a.position
        → Consumed w.valid (length xs) a'
    consumed a' s room = record {
      valid = s.valid;
      same_base = s.same_base;
      same_fresh = s.same_fresh;
      moved = s.moved;
      sized = s.sized ∙ omega (arith, room, w.within);
      bytes = s.bytes;
    }

module _ {S : Type 0} {socket : Socket S} {outgoing : S → List ℕ}
    (d : Accepts socket outgoing) where
  -- The pieces for everything that is left are those bytes.
  pieces_left :
      (a : ByteArray) (ys : List ℕ)
      → 0 < length ys
      → Left a ys
      → (vs : List Iovec) × (get_read_buffers a (length ys) ≡ ok (length ys, vs))
        × (pieces_of a.nodes vs ≡ ys)
        × (length vs ≤ length a.nodes)
  pieces_left a ys some_bytes w =
      let (a', run, _) = read-Left ys [] (subst (Left a) (sym (append-nil ys)) w) in
      let (vs, e, same) =
        get_read_buffers-read a a' (length ys) ys some_bytes
          (omega (arith, readable_lem a w.within, length-Left w)) run in
      (vs, e, same, get_read_buffers-length a (length ys) (length ys) vs e)

  -- A write from an array takes what was sent off the bytes that are left.
  write_array-Left :
      (a : ByteArray) (ys : List ℕ) (s : S)
      → 0 < length ys
      → socket.is_connected s ≡ true
      → Left a ys
      → length a.nodes ≤ iov_max
      → (n : ℕ) × (a' : ByteArray) × (s' : S) × (write_array socket (length ys) (a, s)
          ≡ ok (pos n, (a', s')))
        × Left a' (drop n ys)
        × (0 < n)
        × (n ≤ length ys)
        × (outgoing s' ≡ outgoing s ++ take n ys)
        × (socket.is_connected s' ≡ true)
        × (a'.nodes ≡ a.nodes)
  unfolding write_array
  write_array-Left a ys s some_bytes up w few =
      let (vs, e, same, pieces) = pieces_left a ys some_bytes w in
      let (n, s', run, positive, bounded, out, up') =
        d.leaves (length vs) ys s (omega (arith, pieces, few)) some_bytes up in
      let (a', moved, w', kept) =
        skip-Left a (take n ys) (drop n ys) (subst (Left a) (sym (take-append-drop n ys)) w) in
      (
        n,
        a',
        s',
        rw
            (
              up,
              e,
              same,
              run,
              advance_lem a a' a.position n positive refl (
                  ap (λ k. set_position a (a.position + k)) (sym (length-take_le n ys bounded))
                  ∙ moved),
            )
            refl,
        w',
        positive,
        bounded,
        out,
        up',
        kept,
      )

  abbrev Outgoing : List ℕ → ℕ → ℕ → ByteArray × S → Type 0
  Outgoing all offset left (a, s) =
      (ys : List ℕ) × (outgoing s ++ ys ≡ all)
      × (length ys ≡ left)
      × Left a ys
      × (socket.is_connected s ≡ true)
      × (length a.nodes ≤ iov_max)

  write-Moves : (all : List ℕ) → Moves (λ offset left. write_array socket left) (Outgoing all)
  write-Moves all = record { round = λ offset left (a, s) asked p. go left a s asked p }
    where
      go :
          (left : ℕ) (a : ByteArray) (s : S)
          → 0 < left
          → Outgoing all 0 left (a, s)
          → (l : ℕ) × (t : ByteArray × S) × (write_array socket left (a, s) ≡ ok (pos l, t))
            × (0 < l)
            × (l ≤ left)
            × Outgoing all 0 (left - l) t
      go left a s asked (ys, e, len, w, up, few) =
          let (n, a', s', run, w', positive, bounded, out, up', kept) =
            write_array-Left a ys s (omega (arith, len)) up w few in
          (
            n,
            (a', s'),
            subst (λ k. write_array socket k (a, s) ≡ ok (pos n, (a', s'))) len run,
            positive,
            omega (arith, len, bounded),
            (
              drop n ys,
              ap (λ zs. zs ++ drop n ys) out
                  ∙ append_assoc (outgoing s) (take n ys) (drop n ys)
                  ∙ ap (λ zs. outgoing s ++ zs) (take-append-drop n ys)
                  ∙ e,
              omega (arith, length-drop n ys, len),
              w',
              up',
              subst (λ ns. length ns ≤ iov_max) (sym kept) few,
            ),
          )

set_position-position : (a a' : ByteArray) (v : ℕ) → set_position a v ≡ ok a' → a'.position ≡ v
unfolding set_position
set_position-position a a' v run = ground arith

rewound :
    (r : Result ByteArray) (a : ByteArray) → (r >>= λ b. set_position b 0) ≡ ok a → a.position ≡ 0
rewound (ok b) a run = set_position-position b a 0 run
rewound (err how) a run = cc

encode-position :
    (fresh : ℕ → ℕ) (p : Protocol) (a : ByteArray) → encode little fresh p ≡ ok a → a.position ≡ 0
unfolding encode
encode-position fresh p a run =
    rewound
      (write_head little p (make fresh default_size) >>= λ b. write_string_f32 little b p.content) a
      (>>=_assoc (write_head little p (make fresh default_size)) _ _ ∙ run)

-- The bytes of a message on the stream.
abbrev pub message_bytes : Protocol → List ℕ
message_bytes p = head_bytes p ++ text_bytes 4 p.content

length-message_bytes : (p : Protocol) → length (message_bytes p) ≡ base_length + length p.content
length-message_bytes p =
    ap length (sym (append_assoc (head_bytes p) _ p.content))
    ∙ length-append (meta_bytes p) p.content
    ∙ ap (λ (n : ℕ). n + length p.content) (length-meta_bytes p)

send_response_by :
    {S : Type 0} (socket : Socket S) (fuel : ℕ) (fresh : ℕ → ℕ) (p : Protocol) (s : S)
    (a : ByteArray)
    → encode little fresh p ≡ ok a
    → send_response little fresh socket fuel p s
      ≡ write_fix_size_from (write_array socket) fuel a.size (a, s)
unfolding send_response
send_response_by socket fuel fresh p s a e = rw e refl

-- For a socket whose send takes some of the bytes from the front: sendResponse puts the whole
-- message behind what was sent before, and returns its size.
pub send_response_lem :
    {S : Type 0} {socket : Socket S} {outgoing : S → List ℕ} (d : Accepts socket outgoing)
    (fuel : ℕ) (fresh : ℕ → ℕ) (p : Protocol) (s : S)
    → length p.content < 2 ^ 32
    → length (message_bytes p) < fuel
    → length (message_bytes p) < 2 ^ 31
    → ((a : ByteArray) → encode little fresh p ≡ ok a → length a.nodes ≤ iov_max)
    → socket.is_connected s ≡ true
    → (a : ByteArray) × (s' : S) × (send_response little fresh socket fuel p s
        ≡ ok (some (pos (length (message_bytes p)), (a, s'))))
      × (outgoing s' ≡ outgoing s ++ message_bytes p)
      × (socket.is_connected s' ≡ true)
unfolding write_fix_size_from
send_response_lem {socket = socket} {outgoing = outgoing} d fuel fresh p s fits h b few up =
    let (a, e, w) = encode-Left fresh p fits in
    let size : a.size ≡ length (message_bytes p) =
      omega (arith, length-Left w, encode-position fresh p a e) in
    let all = outgoing s ++ message_bytes p in
    let ((a', s'), run, (ys, out, len, _, up', _)) =
      transfer-Moves (λ offset left. write_array socket left) {P = Outgoing d all} fuel
        (length (message_bytes p)) 0 (length (message_bytes p)) (a, s) (write-Moves d all) h
        (omega (arith, b)) (message_bytes p, refl, refl, w, up, few a e) in
    (
      a',
      s',
      send_response_by socket fuel fresh p s a e
          ∙ ap (λ n. write_fix_size_from (write_array socket) fuel n (a, s)) size
          ∙ run
          ∙ ap (λ n. ok (some (n, (a', s')))) (to_int-small (length (message_bytes p)) b),
      sym (append-nil (outgoing s')) ∙ ap (λ zs. outgoing s' ++ zs) (sym (no_bytes ys len)) ∙ out,
      up',
    )

-- On little-endian hosts, for a socket whose send takes some of the bytes from the front when they
-- are in at most 1024 pieces, one whose recv gives some of those on the way in order, a message
-- whose fields fit their types with the right magic byte, whose encoding is below 2^31 bytes and
-- takes at most 1024 nodes, and enough fuel: sendResponse returns the size of the encoded message;
-- when its bytes come to the other socket, in whatever pieces, recvRequest there returns the
-- message and leaves what follows it.
pub recv_request-send_response :
    {S T : Type 0} {sender : Socket S} {outgoing : S → List ℕ} {receiver : Socket T}
    {incoming : T → List ℕ} (accepts : Accepts sender outgoing)
    (delivers : Delivers receiver incoming) (fuel : ℕ) (fresh fresh' : ℕ → ℕ) (p : Protocol) (s : S)
    (t : S → T) (rest : List ℕ)
    → Fits p
    → p.magic ≡ magic_byte
    → length (message_bytes p) < 2 ^ 31
    → ((a : ByteArray) → encode little fresh p ≡ ok a → length a.nodes ≤ iov_max)
    → length (message_bytes p) < fuel
    → sender.is_connected s ≡ true
    → ((s' : S)
        → outgoing s' ≡ outgoing s ++ message_bytes p
        → (incoming (t s') ≡ message_bytes p ++ rest) × (receiver.is_connected (t s') ≡ true))
    → (a : ByteArray) × (s' : S) × (t' : T) × (send_response little fresh sender fuel p s
        ≡ ok (some (pos (length (message_bytes p)), (a, s'))))
      × (recv_request little fresh' receiver fuel (t s') ≡ ok (some (some p, t')))
      × (incoming t' ≡ rest)
recv_request-send_response accepts delivers fuel fresh fresh' p s t rest f magic b few h up
      carried =
    let size = length-message_bytes p in
    let (a, s', run, out, _) = send_response_lem accepts fuel fresh p s f.content_fits h b few up in
    let (there, up') = carried s' out in
    let (t', run', behind, _) =
      recv_request_lem delivers rest fuel fresh' p (t s') f magic (omega (arith, size, b))
        (omega (arith, size, h)) (omega (arith, size, h)) there up' in
    (a, s', t', run, run', behind)
