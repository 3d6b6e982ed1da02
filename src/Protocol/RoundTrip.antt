-- ===== src/Protocol/RoundTrip.antt =====
-- What is encoded decodes to the same message: include/rpc/protocol.h on a little-endian host.
use native.Mathlib.Nat.{mod-eq_of_lt}
use async_rpc.Base.{ℕ, ◌%◌, ◌^◌, ◌<◌, ◌≡◌, sym, ap, ◌∙◌, arith, subst}
use async_rpc.Base.{List, [], ◌++◌, length, ok, append-nil, append_assoc, length-append, >>=_assoc}
use async_rpc.ByteArray.{ByteArray, make}
use async_rpc.ByteArray.View.{Left}
use async_rpc.ByteArray.Stream.{Writes, Reads, >>=-Writes, >>=-Reads, map-Reads, Writes-rewind}
use async_rpc.Codec.{
  little, to_memory, write_fixed, write_fuint8, write_fuint32, read_fuint8, read_fuint32,
}
use async_rpc.Codec.{write_string_f32}
use async_rpc.Codec.Fixed.{write_fixed-Writes, read_byte-Reads, little-Reads}
use async_rpc.Codec.Memory.{length-to_memory}
use async_rpc.Codec.Text.{text_bytes, write_string_f32-Writes, read_string_f32-Reads}
use async_rpc.Protocol.{
  Protocol, default_size, base_length, write_head, read_head, encode, encode_meta, decode,
  decode_meta,
}

-- The fields are in the range of their C types, and the length field is that of the content.
pub record Fits (p : Protocol) : Type 0 where
  pub magic_fits : p.magic < 2 ^ 8
  pub version_fits : p.version < 2 ^ 8
  pub type_fits : p.type < 2 ^ 8
  pub id_fits : p.sequence_id < 2 ^ 32
  pub content_fits : length p.content < 2 ^ 32
  pub length_right : p.content_length ≡ length p.content

-- The header up to the sequence id.
abbrev pub head_bytes : Protocol → List ℕ
head_bytes p =
    to_memory little 1 p.magic
    ++ (to_memory little 1 p.version
        ++ (to_memory little 1 p.type ++ to_memory little 4 p.sequence_id))

head-Writes : (p : Protocol) → Writes (write_head little p) (head_bytes p)
unfolding write_head write_fuint8 write_fuint32
head-Writes p = >>=-Writes _ (write_fixed-Writes little 1 p.magic) (
    >>=-Writes _ (write_fixed-Writes little 1 p.version) (
      >>=-Writes _ (write_fixed-Writes little 1 p.type)
        (write_fixed-Writes little 4 p.sequence_id)))

head-Reads :
    (p q : Protocol)
    → Fits p
    → Reads (read_head little q) (head_bytes p) (record q {
      magic = p.magic;
      version = p.version;
      type = p.type;
      sequence_id = p.sequence_id;
    })
unfolding read_head read_fuint8 read_fuint32
head-Reads p q f = >>=-Reads _ (read_byte-Reads little p.magic f.magic_fits) (
    >>=-Reads _ (read_byte-Reads little p.version f.version_fits) (
      >>=-Reads _ (read_byte-Reads little p.type f.type_fits)
        (map-Reads _ (little-Reads 4 p.sequence_id f.id_fits))))

-- The header and the counted content.
pub encode-Left :
    (fresh : ℕ → ℕ) (p : Protocol)
    → length p.content < 2 ^ 32
    → (a : ByteArray) × (encode little fresh p ≡ ok a)
      × Left a (head_bytes p ++ text_bytes 4 p.content)
unfolding encode
encode-Left fresh p h =
    let (a, e, l) = Writes-rewind fresh default_size (omega arith) (
      >>=-Writes (λ a. write_string_f32 little a p.content) (head-Writes p)
        (write_string_f32-Writes p.content h)) in
    (a, sym (>>=_assoc (write_head little p (make fresh default_size)) _ _) ∙ e, l)

pub decode-Reads :
    (p q : Protocol) → Fits p → Reads (decode little q) (head_bytes p ++ text_bytes 4 p.content) p
unfolding decode
decode-Reads p q f =
    subst (Reads (decode little q) (head_bytes p ++ text_bytes 4 p.content))
      (ap (λ n. record p { content_length = n }) (mod-eq_of_lt f.content_fits ∙ sym f.length_right))
      (>>=-Reads _ (head-Reads p q f)
        (map-Reads _ (read_string_f32-Reads p.content f.content_fits)))

-- On a little-endian host, a message whose fields fit their types, with the length field that of
-- the content, is encoded without an error; to decode the encoded bytes into any message succeeds,
-- gives the message back, and leaves no bytes.
pub decode-encode :
    (fresh : ℕ → ℕ) (p q : Protocol)
    → Fits p
    → (a a' : ByteArray) × (encode little fresh p ≡ ok a)
      × (decode little q a ≡ ok (p, a'))
      × Left a' []
decode-encode fresh p q f =
    let (a, e, l) = encode-Left fresh p f.content_fits in
    let (a', e', l') = (decode-Reads p q f).run a [] (subst (Left a) (sym (append-nil _)) l) in
    (a, a', e, e', l')

-- The header alone: the fields and the length of the content.
abbrev pub meta_bytes : Protocol → List ℕ
meta_bytes p = head_bytes p ++ to_memory little 4 (length p.content)

pub length-meta_bytes : (p : Protocol) → length (meta_bytes p) ≡ base_length
length-meta_bytes p = omega (
  arith,
  length-append (head_bytes p) (to_memory little 4 (length p.content)),
  length-append (to_memory little 1 p.magic) (
      to_memory little 1 p.version
      ++ (to_memory little 1 p.type ++ to_memory little 4 p.sequence_id)),
  length-append (to_memory little 1 p.version)
      (to_memory little 1 p.type ++ to_memory little 4 p.sequence_id),
  length-append (to_memory little 1 p.type) (to_memory little 4 p.sequence_id),
  length-to_memory little 1 p.magic,
  length-to_memory little 1 p.version,
  length-to_memory little 1 p.type,
  length-to_memory little 4 p.sequence_id,
  length-to_memory little 4 (length p.content),
)

pub decode_meta-Reads :
    (p q : Protocol)
    → Fits p
    → Reads (decode_meta little q) (meta_bytes p) (record p { content = q.content })
unfolding decode_meta read_fuint32
decode_meta-Reads p q f =
    subst
      (λ n.
        Reads (decode_meta little q) (meta_bytes p)
          (record p { content = q.content; content_length = n }))
      (sym f.length_right)
      (>>=-Reads _ (head-Reads p q f)
        (map-Reads _ (little-Reads 4 (length p.content) f.content_fits)))

-- encodeMeta writes the 11 bytes of the header.
pub encode_meta-Left :
    (fresh : ℕ → ℕ) (p : Protocol)
    → length p.content < 2 ^ 32
    → (a : ByteArray) × (encode_meta little fresh p ≡ ok a) × Left a (meta_bytes p)
unfolding encode_meta write_fuint32
encode_meta-Left fresh p h =
    let (a, e, l) = Writes-rewind fresh default_size (omega arith) (
      >>=-Writes (λ a. write_fixed little 4 a (length p.content % 2 ^ 32)) (head-Writes p)
        (subst (λ m. Writes (λ a. write_fixed little 4 a m) (to_memory little 4 (length p.content)))
          (sym (mod-eq_of_lt h)) (write_fixed-Writes little 4 (length p.content)))) in
    (a, sym (>>=_assoc (write_head little p (make fresh default_size)) _ _) ∙ e, l)

-- On a little-endian host, for a message whose fields fit their types: decodeMeta on the encoded
-- message gives its header fields and the length of its content, takes the header, which is 11
-- bytes long, and leaves exactly the content.
pub decode_meta-encode :
    (fresh : ℕ → ℕ) (p q : Protocol)
    → Fits p
    → (a a' : ByteArray) × (encode little fresh p ≡ ok a)
      × (decode_meta little q a ≡ ok (record p { content = q.content }, a'))
      × (length (meta_bytes p) ≡ base_length)
      × Left a' p.content
decode_meta-encode fresh p q f =
    let (a, e, l) = encode-Left fresh p f.content_fits in
    let (a', e', l') =
      (decode_meta-Reads p q f).run a p.content
        (subst (Left a) (sym (append_assoc (head_bytes p) _ p.content)) l) in
    (a, a', e, e', length-meta_bytes p, l')
