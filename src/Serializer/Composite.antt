-- ===== src/Serializer/Composite.antt =====
-- Round trips of the containers, pairs and tuples of include/rpc/serializer.h, on a little-endian
-- host.
use mathlib.Core.List.{foldl}
use async_rpc.Base.{ℕ, ◌^◌, ◌<◌, ◌≡◌, sym, ◌∙◌, arith, subst}
use async_rpc.Base.{List, [], ◌∷◌, ◌++◌, length, ok, ◌>>=◌, All, append-nil}
use async_rpc.Base.{append_assoc}
use async_rpc.ByteArray.{ByteArray, make, to_string}
use async_rpc.ByteArray.View.{Left, to_string-Left}
use async_rpc.ByteArray.Stream.{
  Writes, Reads, write-Writes, ok-Writes, ok-Reads, >>=-Writes, >>=-Reads, map-Reads, Writes-rewind,
}
use async_rpc.Codec.{little}
use async_rpc.Codec.Varint.{groups, write_uint64-Writes, read_uint64-Reads}
use async_rpc.Serializer.{
  Serial, Container, put_all, get_all, put_container, get_container, container, sequence, put_pair,
  get_pair, pair, put_tuple, get_tuple, tuple, from_content, reset,
}
use async_rpc.Protocol.{default_size}
use async_rpc.Serializer.{mapping}
use async_rpc.Serializer.Laws.{Lawful}

abbrev pub all_bytes : {A : Type 0} → (A → List ℕ) → List A → List ℕ
all_bytes bytes [] = []
all_bytes bytes (x ∷ xs) = bytes x ++ all_bytes bytes xs

-- A container is its size and its elements.
abbrev pub container_bytes : {A : Type 0} (c : Container A) → (A → List ℕ) → c.Carrier → List ℕ
container_bytes c bytes v = groups 9 (length (c.elements v)) ++ all_bytes bytes (c.elements v)

abbrev pub ContainerFits : {A : Type 0} (c : Container A) → (A → Type 0) → c.Carrier → Type 0
ContainerFits c Fits v = (length (c.elements v) < 2 ^ 64) × All Fits (c.elements v)

abbrev pub BothFit : {A B : Type 0} → (A → Type 0) → (B → Type 0) → A × B → Type 0
BothFit F G p = F p.0 × G p.1

abbrev pub both_bytes : {A B : Type 0} → (A → List ℕ) → (B → List ℕ) → A × B → List ℕ
both_bytes f g p = f p.0 ++ g p.1

module _ {A : Type 0} where
  pub rebuild_sequence : (v old : List A) → foldl (sequence A).emplace old v ≡ old ++ v
  rebuild_sequence [] old = sym (append-nil old)
  rebuild_sequence (x ∷ v) old = rebuild_sequence v (old ++ x ∷ []) ∙ append_assoc old (x ∷ []) v

module _ {A : Type 0} {s : Serial A} {Fits : A → Type 0} {bytes : A → List ℕ}
    (l : Lawful s Fits bytes) where
  put_all-Writes : (xs : List A) → All Fits xs → Writes (λ a. put_all s a xs) (all_bytes bytes xs)
  unfolding put_all
  put_all-Writes [] h = ok-Writes
  put_all-Writes (x ∷ xs) h =
      >>=-Writes (λ a. put_all s a xs) (l.writes x h.0) (put_all-Writes xs h.1)

  module _ (c : Container A) where
    -- Reading adds the elements to what the container held.
    get_all-Reads :
        (xs : List A) (v : c.Carrier)
        → All Fits xs
        → Reads (get_all s c (length xs) v) (all_bytes bytes xs) (foldl c.emplace v xs)
    unfolding get_all
    get_all-Reads [] v h = ok-Reads v
    get_all-Reads (x ∷ xs) v h = >>=-Reads _ (l.reads x h.0) (get_all-Reads xs (c.emplace v x) h.1)

    pub put_container-Writes :
        (v : c.Carrier)
        → length (c.elements v) < 2 ^ 64
        → All Fits (c.elements v)
        → Writes (λ a. put_container s c a v) (container_bytes c bytes v)
    unfolding put_container
    put_container-Writes v n h =
        >>=-Writes (λ a. put_all s a (c.elements v)) (write_uint64-Writes (length (c.elements v)) n)
          (put_all-Writes (c.elements v) h)

    -- For elements with lawful operators, all of which fit, at most 2^64 - 1 of them: >> into a
    -- container that holds other elements already emplaces those that << wrote, in their order.
    pub get_container-Reads :
        (v old : c.Carrier)
        → length (c.elements v) < 2 ^ 64
        → All Fits (c.elements v)
        → Reads
            (get_container little s c old)
            (container_bytes c bytes v)
            (foldl c.emplace old (c.elements v))
    unfolding get_container
    get_container-Reads v old n h =
        >>=-Reads _ (read_uint64-Reads little (length (c.elements v)) n)
          (get_all-Reads (c.elements v) old h)

    -- Where emplacing the elements of a container one by one builds it again, << and >> do.
    pub container-Lawful :
        ((v : c.Carrier) → foldl c.emplace c.none (c.elements v) ≡ v)
        → Lawful (container little s c) (ContainerFits c Fits) (container_bytes c bytes)
    container-Lawful rebuild = record {
      writes = λ v h. put_container-Writes v h.0 h.1;
      reads = λ v h.
          subst (Reads (get_container little s c c.none) (container_bytes c bytes v)) (rebuild v)
            (get_container-Reads v c.none h.0 h.1);
    }

  pub sequence-Lawful :
      Lawful
        (container little s (sequence A))
        (ContainerFits (sequence A) Fits)
        (container_bytes (sequence A) bytes)
  sequence-Lawful = container-Lawful (sequence A) (λ v. rebuild_sequence v [])

module _ {A B : Type 0} {s : Serial A} {t : Serial B} {F : A → Type 0} {G : B → Type 0}
    {f : A → List ℕ} {g : B → List ℕ} (l : Lawful s F f) (m : Lawful t G g) where
  pair-Writes : (p : A × B) → BothFit F G p → Writes (λ a. put_pair s t a p) (both_bytes f g p)
  unfolding put_pair
  pair-Writes (x, y) h = >>=-Writes (λ a. t.put a y) (l.writes x h.0) (m.writes y h.1)

  pair-Reads :
      (p : A × B) → BothFit F G p → Reads (get_pair s t (s.initial, t.initial)) (both_bytes f g p) p
  unfolding get_pair
  pair-Reads (x, y) h = >>=-Reads _ (l.reads x h.0) (map-Reads (λ y'. (x, y')) (m.reads y h.1))

  pub pair-Lawful : Lawful (pair s t) (BothFit F G) (both_bytes f g)
  pair-Lawful = record { writes = pair-Writes; reads = pair-Reads }

  tuple-Writes : (p : A × B) → BothFit F G p → Writes (λ a. put_tuple s t a p) (both_bytes f g p)
  unfolding put_tuple
  tuple-Writes (x, y) h = >>=-Writes (λ a. t.put a y) (l.writes x h.0) (m.writes y h.1)

  tuple-Reads :
      (p : A × B)
      → BothFit F G p
      → Reads (get_tuple s t (s.initial, t.initial)) (both_bytes f g p) p
  unfolding get_tuple
  tuple-Reads (x, y) h = >>=-Reads _ (l.reads x h.0) (map-Reads (λ y'. (x, y')) (m.reads y h.1))

  -- When the first components and the last one have lawful operators, the tuple has: << writes
  -- them in order, and >> reads the tuple back.
  pub tuple-Lawful : Lawful (tuple s t) (BothFit F G) (both_bytes f g)
  tuple-Lawful = record { writes = tuple-Writes; reads = tuple-Reads }

module _ {A : Type 0} {s : Serial A} {Fits : A → Type 0} {bytes : A → List ℕ}
    (l : Lawful s Fits bytes) where
  -- For any type whose operators are lawful and any value that fits: << on a new serializer and
  -- reset succeed, toString gives the bytes of the value, and >> into a new variable, on a new
  -- serializer over that string, gives the value and leaves no bytes.
  pub get-put :
      (fresh fresh' : ℕ → ℕ) (x : A)
      → Fits x
      → (a b c : ByteArray) × ((s.put (make fresh default_size) x >>= reset) ≡ ok a)
        × (to_string a ≡ ok (bytes x))
        × (from_content fresh' (bytes x) ≡ ok b)
        × (s.get s.initial b ≡ ok (x, c))
        × Left c []
  unfolding reset from_content
  get-put fresh fresh' x h =
      let (a, e, w) = Writes-rewind fresh default_size (omega arith) (l.writes x h) in
      let (b, e', w') = Writes-rewind fresh' default_size (omega arith) (write-Writes (bytes x)) in
      let (c, e'', w'') = (l.reads x h).run b [] (subst (Left b) (sym (append-nil (bytes x))) w') in
      (a, b, c, e, to_string-Left w, e', e'', w'')

-- When keys and values have lawful operators, and emplacing a container's elements one by one into
-- an empty one builds it again, the operators of the associative container are lawful: << writes
-- the size and the pairs, and >> reads the container back.
pub mapping-Lawful :
    {K V : Type 0} {s : Serial K} {t : Serial V} {F : K → Type 0} {G : V → Type 0} {f : K → List ℕ}
    {g : V → List ℕ} (c : Container (K × V))
    → Lawful s F f
    → Lawful t G g
    → ((v : c.Carrier) → foldl c.emplace c.none (c.elements v) ≡ v)
    → Lawful
        (mapping little s t c)
        (ContainerFits c (BothFit F G))
        (container_bytes c (both_bytes f g))
mapping-Lawful c l m rebuild = container-Lawful (pair-Lawful l m) c rebuild
