-- ===== src/Session.antt =====
-- src/socket_stream.cc and src/rpc/rpc_session.cc: the stream over a socket, and the messages that a
-- session receives and sends on it.
pub mod Receive
pub mod Message
pub mod Send
use async_rpc.Base.{ℕ, ◌+◌, ◌%◌, ◌^◌, ltb, ◌==◌, if◌then◌else◌, Bool, true, false, ◌&&◌}
use async_rpc.Base.{
  List, [], ◌∷◌, length, take, drop, replicate, memcpy, Option, none, some, Result, ok, ◌>>=◌,
}
use async_rpc.Base.Int.{ℤ, pos, negsuc}
use async_rpc.ByteArray.{ByteArray, make, set_position}
use async_rpc.ByteArray.Buffers.{get_read_buffers, get_write_buffers, pieces_of}
use async_rpc.ByteArray.Scatter.{store}
use async_rpc.Codec.{Endian}
use async_rpc.FixSize.{read_fix_size, read_fix_size_into, write_fix_size_from}
use async_rpc.Protocol.{Protocol, empty, default_size, magic_byte, base_length, encode, decode_meta}

-- A socket over the state of the system: whether it is connected, and recv of at most so many bytes
-- and send of bytes in so many pieces, with none for -1. The only recv into several pieces is that of
-- a message's header.
pub record Socket (S : Type 0) : Type 0 where
  pub is_connected : S → Bool
  pub recv : ℕ → S → Option (List ℕ) × S
  pub send : ℕ → List ℕ → S → Option ℕ × S

-- The int that recv returns, and the bytes that it stored.
abbrev pub received : Option (List ℕ) → ℤ
received none = negsuc 0
received (some bs) = pos (length bs)

abbrev pub bytes_of : Option (List ℕ) → List ℕ
bytes_of none = []
bytes_of (some bs) = bs

abbrev pub sent : Option ℕ → ℤ
sent none = negsuc 0
sent (some n) = pos n

-- `if (ret > 0) ba->setPosition(ba->getPosition() + ret)`
unfoldable pub advance : ByteArray → ℤ → Result ByteArray
advance a (pos n) = let moved = set_position a (a.position + n) in if n == 0 then ok a else moved
advance a (negsuc n) = ok a

module _ {S : Type 0} (socket : Socket S) where
  -- read(void *, size_t), at an offset of the memory.
  unfoldable pub read_memory : (offset left : ℕ) → List ℕ × S → Result (ℤ × (List ℕ × S))
  read_memory offset left (memory, s) =
      let (r, s') = socket.recv left s in
      if socket.is_connected s
      then ok (received r, (memcpy memory offset (bytes_of r), s'))
      else ok (negsuc 0, (memory, s))

  -- read(ByteArray::ptr, size_t), once the buffers are there.
  unfoldable pub read_array : ℕ → ByteArray × S → Result (ℤ × (ByteArray × S))
  read_array left (a, s) =
      let connected = do
        (n, vs, a') ← get_write_buffers a left
        let (r, s') = socket.recv n s
        a'' ← advance (store vs (bytes_of r) a') (received r)
        ok (received r, (a'', s'))
      in if socket.is_connected s then connected else ok (negsuc 0, (a, s))

  -- write(ByteArray::ptr, size_t)
  unfoldable pub write_array : ℕ → ByteArray × S → Result (ℤ × (ByteArray × S))
  write_array left (a, s) =
      let connected = do
        (n, vs) ← get_read_buffers a left
        let (r, s') = socket.send (length vs) (pieces_of a.nodes vs) s
        a' ← advance a (sent r)
        ok (sent r, (a', s'))
      in if socket.is_connected s then connected else ok (negsuc 0, (a, s))

-- `> 0`
abbrev pub is_positive : ℤ → Bool
is_positive (pos n) = ltb 0 n
is_positive (negsuc n) = false

-- What recvRequest returns, a null pointer as none, behind the fuel: none when it is used up.
abbrev pub Received : Type 0 → Type 0
Received S = Option (Option Protocol × S)

module _ {S : Type 0} (socket : Socket S) (fuel : ℕ) where
  abbrev pub content_read : Protocol → Option (ℤ × (List ℕ × S)) → Received S
  content_read p none = none
  content_read p (some (n, (memory, s))) =
      if is_positive n then some (some (record p { content = memory }), s) else some (none, s)

  -- recvRequest behind decodeMeta.
  unfoldable pub recv_content : Protocol → S → Result (Received S)
  recv_content p s =
      let content = do
        r ←
            read_fix_size (read_memory socket) fuel p.content_length
              (replicate p.content_length 0, s)
        ok (content_read p r)
      in if p.magic == magic_byte
        then (if p.content_length == 0 then ok (some (some p, s)) else content)
        else ok (some (none, s))

module _ (host : Endian) (fresh : ℕ → ℕ) {S : Type 0} (socket : Socket S) (fuel : ℕ) where
  unfoldable pub recv_header : Option (ℤ × (ByteArray × S)) → Result (Received S)
  recv_header none = ok none
  recv_header (some (n, (a, s))) =
      let decoded = do
        a' ← set_position a 0
        (p, a'') ← decode_meta host empty a'
        recv_content socket fuel p s
      in if is_positive n then decoded else ok (some (none, s))

  -- RPCSession::recvRequest
  unfoldable pub recv_request : S → Result (Received S)
  recv_request s = do
    r ← read_fix_size_into (read_array socket) fuel base_length (make fresh default_size, s)
    recv_header r

  -- RPCSession::sendResponse: the int that writeFixSize returns, and the stream.
  unfoldable pub send_response : Protocol → S → Result (Option (ℤ × (ByteArray × S)))
  send_response p s = do
    a ← encode host fresh p
    write_fix_size_from (write_array socket) fuel a.size (a, s)
