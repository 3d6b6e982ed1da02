-- ===== src/Protocol.antt =====
-- include/rpc/protocol.h: the messages of the wire protocol, in a header of 11 bytes and a content.
pub mod RoundTrip
use async_rpc.Base.{ℕ, ◌%◌, ◌^◌, List, [], ◌∷◌, length, Result, ok, ◌>>=◌}
use async_rpc.ByteArray.{ByteArray, make, set_position}
use async_rpc.Codec.{Endian, write_fuint8, write_fuint32, read_fuint8, read_fuint32}
use async_rpc.Codec.{write_string_f32, read_string_f32}

pub data MsgType : Type 0 where
  heartbeat_packet rpc_request rpc_response rpc_method_request rpc_method_response : MsgType
  rpc_service_discover rpc_service_discover_response : MsgType
  rpc_service_register rpc_service_register_response : MsgType
  rpc_subscribe_request rpc_subscribe_response rpc_publish_request rpc_publish_response : MsgType
  rpc_provider rpc_consumer : MsgType

-- static_cast<uint8_t>
abbrev pub msg_code : MsgType → ℕ
msg_code heartbeat_packet = 0
msg_code rpc_request = 1
msg_code rpc_response = 2
msg_code rpc_method_request = 3
msg_code rpc_method_response = 4
msg_code rpc_service_discover = 5
msg_code rpc_service_discover_response = 6
msg_code rpc_service_register = 7
msg_code rpc_service_register_response = 8
msg_code rpc_subscribe_request = 9
msg_code rpc_subscribe_response = 10
msg_code rpc_publish_request = 11
msg_code rpc_publish_response = 12
msg_code rpc_provider = 13
msg_code rpc_consumer = 14

abbrev pub magic_byte : ℕ
magic_byte = 0xaa

abbrev pub version_byte : ℕ
version_byte = 0x01

abbrev pub base_length : ℕ
base_length = 11

pub record Protocol : Type 0 where
  pub magic : ℕ
  pub version : ℕ
  pub type : ℕ
  pub sequence_id : ℕ
  pub content_length : ℕ
  pub content : List ℕ

-- A new message, by the initialisers of its fields.
abbrev pub empty : Protocol
empty = record {
  magic = magic_byte;
  version = version_byte;
  type = 0;
  sequence_id = 0;
  content_length = 0;
  content = [];
}

-- Protocol::Create; the length is cut to 32 bits.
unfoldable pub create : MsgType → List ℕ → ℕ → Protocol
create type content id = record empty {
  type = msg_code type;
  content = content;
  sequence_id = id;
  content_length = length content % 2 ^ 32;
}

unfoldable pub heart_beat : Protocol
unfolding create
heart_beat = create heartbeat_packet [] 0

-- The default size of a buffer.
abbrev pub default_size : ℕ
default_size = 4096

module _ (host : Endian) where
  -- The four header fields that encodeMeta and encode write alike.
  unfoldable pub write_head : Protocol → ByteArray → Result ByteArray
  write_head p a = do
    a₁ ← write_fuint8 host a p.magic
    a₂ ← write_fuint8 host a₁ p.version
    a₃ ← write_fuint8 host a₂ p.type
    write_fuint32 host a₃ p.sequence_id

  unfoldable pub encode_meta : (ℕ → ℕ) → Protocol → Result ByteArray
  encode_meta fresh p = do
    a ← write_head p (make fresh default_size)
    a' ← write_fuint32 host a (length p.content % 2 ^ 32)
    set_position a' 0

  unfoldable pub encode : (ℕ → ℕ) → Protocol → Result ByteArray
  encode fresh p = do
    a ← write_head p (make fresh default_size)
    a' ← write_string_f32 host a p.content
    set_position a' 0

  -- What decodeMeta and decode read alike, into the message `p`.
  unfoldable pub read_head : Protocol → ByteArray → Result (Protocol × ByteArray)
  read_head p a = do
    (magic, a₁) ← read_fuint8 host a
    (version, a₂) ← read_fuint8 host a₁
    (type, a₃) ← read_fuint8 host a₂
    (id, a₄) ← read_fuint32 host a₃
    ok (record p { magic = magic; version = version; type = type; sequence_id = id }, a₄)

  unfoldable pub decode_meta : Protocol → ByteArray → Result (Protocol × ByteArray)
  decode_meta p a = do
    (q, a') ← read_head p a
    (len, a'') ← read_fuint32 host a'
    ok (record q { content_length = len }, a'')

  unfoldable pub decode : Protocol → ByteArray → Result (Protocol × ByteArray)
  decode p a = do
    (q, a') ← read_head p a
    (content, a'') ← read_string_f32 host a'
    ok (record q { content = content; content_length = length content % 2 ^ 32 }, a'')
