-- ===== src/Serializer.antt =====
-- include/rpc/serializer.h: the overloaded operators << and >> on top of the buffer. An instance of
-- `Serial` is what overload resolution picks for a type.
pub mod Laws
pub mod Composite
pub mod Content
use async_rpc.Base.{ℕ, zero, suc, ◌+◌, ◌%◌, ◌^◌, Bool, true, false, ◌==◌, if◌then◌else◌}
use async_rpc.Base.{List, [], ◌∷◌, ◌++◌, length, Result, ok, err, ◌>>=◌}
use async_rpc.ByteArray.{ByteArray, make, write, set_position, clear, to_string}
use async_rpc.Codec.{
  Endian, write_fint8, write_fuint8, write_fint16, write_fuint16, read_fint8, read_fuint8,
  read_fint16, read_fuint16, write_int32, write_uint32, write_int64, write_uint64, read_int32,
  read_uint32, read_int64, read_uint64, write_float, write_double, read_float, read_double,
  write_string_vint, read_string_vint,
}
use async_rpc.Protocol.{default_size}

-- `put` is `s << x`. `get old` is `s >> x` for a variable that holds `old`; `initial` is what a
-- variable declared by `T t;` holds.
pub record Serial (A : Type 0) : Type 1 where
  pub initial : A
  pub put : ByteArray → A → Result ByteArray
  pub get : A → ByteArray → Result (A × ByteArray)

-- Serializer(const std::string &), and Serializer(const char *, size_t)
unfoldable pub from_content : (ℕ → ℕ) → List ℕ → Result ByteArray
from_content fresh content = do a ← write (make fresh default_size) content; set_position a 0

unfoldable pub reset : ByteArray → Result ByteArray
reset a = set_position a 0

-- The branches of `write` and `read`; `old` is overwritten.
abbrev scalar :
    {A : Type 0}
    → A
    → (ByteArray → A → Result ByteArray)
    → (ByteArray → Result (A × ByteArray))
    → Serial A
scalar x w r = record { initial = x; put = w; get = λ old a. r a }

abbrev pub bool_bit : Bool → ℕ
bool_bit true = 1
bool_bit false = 0

module _ (host : Endian) where
  unfoldable pub write_bool : ByteArray → Bool → Result ByteArray
  write_bool a b = write_fint8 host a (bool_bit b)

  -- An int8_t that is not zero converts to true.
  unfoldable pub read_bool : ByteArray → Result (Bool × ByteArray)
  read_bool a = do (v, a') ← read_fint8 host a; ok (if v == 0 then false else true, a')

  abbrev pub bool : Serial Bool
  bool = scalar false write_bool read_bool

  abbrev pub float : Serial ℕ
  float = scalar 0 (write_float host) (read_float host)

  abbrev pub double : Serial ℕ
  double = scalar 0 (write_double host) (read_double host)

  abbrev pub int8 : Serial ℕ
  int8 = scalar 0 (write_fint8 host) (read_fint8 host)

  abbrev pub uint8 : Serial ℕ
  uint8 = scalar 0 (write_fuint8 host) (read_fuint8 host)

  abbrev pub int16 : Serial ℕ
  int16 = scalar 0 (write_fint16 host) (read_fint16 host)

  abbrev pub uint16 : Serial ℕ
  uint16 = scalar 0 (write_fuint16 host) (read_fuint16 host)

  abbrev pub int32 : Serial ℕ
  int32 = scalar 0 write_int32 (read_int32 host)

  abbrev pub uint32 : Serial ℕ
  uint32 = scalar 0 write_uint32 (read_uint32 host)

  abbrev pub int64 : Serial ℕ
  int64 = scalar 0 write_int64 (read_int64 host)

  abbrev pub uint64 : Serial ℕ
  uint64 = scalar 0 write_uint64 (read_uint64 host)

  abbrev pub string : Serial (List ℕ)
  string = scalar [] write_string_vint (read_string_vint host)

-- A type that no branch of `write` and `read` names, such as an enumeration: both do nothing.
abbrev pub no_branch : {A : Type 0} → A → Serial A
no_branch x = record { initial = x; put = λ a y. ok a; get = λ old a. ok (old, a) }

-- A container of the standard library: its elements in iteration order, and emplace_back or emplace.
pub record Container (A : Type 0) : Type 1 where
  pub Carrier : Type 0
  pub none : Carrier
  pub elements : Carrier → List A
  pub emplace : Carrier → A → Carrier

-- `for (auto &t : v) (*this) << t;`
unfoldable pub put_all : {A : Type 0} → Serial A → ByteArray → List A → Result ByteArray
put_all s a [] = ok a
put_all s a (x ∷ xs) = do a' ← s.put a x; put_all s a' xs

-- `for (size_t i = 0; i < size; ++i) { T t; (*this) >> t; v.emplace(t); }`
unfoldable pub get_all :
    {A : Type 0} (s : Serial A) (c : Container A)
    → ℕ
    → c.Carrier
    → ByteArray
    → Result (c.Carrier × ByteArray)
get_all s c zero v a = ok (v, a)
get_all s c (suc size) v a = do (t, a') ← s.get s.initial a; get_all s c size (c.emplace v t) a'

-- The operators on list, vector, set, multiset and the unordered sets, which read alike.
unfoldable pub put_container :
    {A : Type 0} → Serial A → (c : Container A) → ByteArray → c.Carrier → Result ByteArray
put_container s c a v = do a' ← write_uint64 a (length (c.elements v)); put_all s a' (c.elements v)

module _ (host : Endian) where
  unfoldable pub get_container :
      {A : Type 0} (s : Serial A) (c : Container A)
      → c.Carrier
      → ByteArray
      → Result (c.Carrier × ByteArray)
  get_container s c v a = do (size, a') ← read_uint64 host a; get_all s c size v a'

  abbrev pub container : {A : Type 0} → Serial A → (c : Container A) → Serial c.Carrier
  container s c = record { initial = c.none; put = put_container s c; get = get_container s c }

-- std::list and std::vector
abbrev pub sequence : (A : Type 0) → Container A
sequence A = record { Carrier = List A; none = []; elements = λ v. v; emplace = λ v t. v ++ t ∷ [] }

module _ {A B : Type 0} (s : Serial A) (t : Serial B) where
  unfoldable pub put_pair : ByteArray → A × B → Result ByteArray
  put_pair a (x, y) = do a' ← s.put a x; t.put a' y

  unfoldable pub get_pair : A × B → ByteArray → Result ((A × B) × ByteArray)
  get_pair (x, y) a = do (x', a') ← s.get x a; (y', a'') ← t.get y a'; ok ((x', y'), a'')

  abbrev pub pair : Serial (A × B)
  pair = record { initial = (s.initial, t.initial); put = put_pair; get = get_pair }

-- map, unordered_map and their multi kin: a container of pairs.
abbrev pub mapping :
    {K V : Type 0} → Endian → Serial K → Serial V → (c : Container (K × V)) → Serial c.Carrier
mapping host s t c = container host (pair s t) c

-- tuple_serialize and tuple_deserialize at N: the first N - 1 components, then the last one. A tuple
-- is the pair of these; at N = 1 it is its component.
module _ {A B : Type 0} (front : Serial A) (last : Serial B) where
  unfoldable pub put_tuple : ByteArray → A × B → Result ByteArray
  put_tuple a (xs, x) = do a' ← front.put a xs; last.put a' x

  unfoldable pub get_tuple : A × B → ByteArray → Result ((A × B) × ByteArray)
  get_tuple (xs, x) a = do
    (xs', a') ← front.get xs a
    (x', a'') ← last.get x a'
    ok ((xs', x'), a'')

  abbrev pub tuple : Serial (A × B)
  tuple = record { initial = (front.initial, last.initial); put = put_tuple; get = get_tuple }
