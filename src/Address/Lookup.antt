-- ===== src/Address/Lookup.antt =====
-- The texts of src/address.cc: how Address::Lookup divides a host into node and service, and that it
-- divides what IPv4Address prints.
use mathlib.Core.Option
use async_rpc.Base.{ℕ, zero, suc, ◌/◌, ◌<◌, ◌≤◌, ltb, ◌==◌, if◌then◌else◌, false, arith}
use async_rpc.Base.{
  List, [], ◌∷◌, ◌++◌, Option, none, some, ◌≡◌, refl, subst, All, Bool-cases, inl, inr,
}
use async_rpc.Codec.{Endian}
use async_rpc.Address.{Ipv4Address, decimal, insert, byte_at, dotted, endian_cast}

-- memchr: what stands before the first byte `b`, and behind it. A text has no byte 0, so the texts
-- of the C strings are the rest of the host.
unfoldable pub cut : ℕ → List ℕ → Option (List ℕ × List ℕ)
cut b [] = none
cut b (x ∷ xs) =
    let rest = cut b xs in
    if x == b then some ([], xs) else Option.map (λ (front, back). (x ∷ front, back)) rest

-- 91, 93 and 58 are the brackets and the colon.
abbrev behind_bracket : List ℕ → Option (List ℕ)
behind_bracket [] = none
behind_bracket (x ∷ xs) = if x == 58 then some xs else none

abbrev between : Option (List ℕ × List ℕ) → List ℕ × Option (List ℕ)
between none = ([], none)
between (some (front, back)) = (front, behind_bracket back)

-- The first test: a host that begins with a bracket.
unfoldable pub bracketed : List ℕ → List ℕ × Option (List ℕ)
bracketed [] = ([], none)
bracketed (x ∷ xs) = if x == 91 then between (cut 93 xs) else ([], none)

abbrev only_colon : List ℕ → List ℕ → Option (List ℕ × List ℕ) → List ℕ × Option (List ℕ)
only_colon front back none = (front, some back)
only_colon front back (some _) = ([], some (58 ∷ back))

abbrev at_colon : Option (List ℕ × List ℕ) → List ℕ × Option (List ℕ)
at_colon none = ([], none)
at_colon (some (front, back)) = only_colon front back (cut 58 back)

-- The second test, for an empty node: the only colon. With two, the service is the text from the
-- first one on.
unfoldable pub by_colon : List ℕ → List ℕ × Option (List ℕ) → List ℕ × Option (List ℕ)
by_colon host ([], service) = at_colon (cut 58 host)
by_colon host (x ∷ xs, service) = (x ∷ xs, service)

-- An empty node becomes the host.
unfoldable pub or_host : List ℕ → List ℕ × Option (List ℕ) → List ℕ × Option (List ℕ)
or_host host ([], service) = (host, service)
or_host host (x ∷ xs, service) = (x ∷ xs, service)

-- The node and the service that Lookup asks getaddrinfo for.
unfoldable pub split_host : List ℕ → List ℕ × Option (List ℕ)
split_host host = or_host host (by_colon host (bracketed host))

abbrev pub Other : ℕ → ℕ → Type 0
Other b x = (x == b) ≡ false

cut-append : (b : ℕ) (xs ys : List ℕ) → All (Other b) xs → cut b (xs ++ b ∷ ys) ≡ some (xs, ys)
unfolding cut
cut-append b [] ys h = ground arith
cut-append b (x ∷ xs) ys h = rw (h.0, cut-append b xs ys h.1) refl

cut-none : (b : ℕ) (xs : List ℕ) → All (Other b) xs → cut b xs ≡ none
unfolding cut
cut-none b [] h = refl
cut-none b (x ∷ xs) h = rw (h.0, cut-none b xs h.1) refl

-- A node without brackets and a port are divided at their only colon.
pub split_host-port :
    (x : ℕ) (xs port : List ℕ)
    → Other 91 x
    → All (Other 58) (x ∷ xs)
    → All (Other 58) port
    → split_host ((x ∷ xs) ++ 58 ∷ port) ≡ (x ∷ xs, some port)
unfolding split_host bracketed by_colon or_host
split_host-port x xs port h free free' =
    rw (h, cut-append 58 (x ∷ xs) port free, cut-none 58 port free') refl

-- A node in brackets is what stands between them, and the service stands behind the colon.
pub split_host-bracketed :
    (x : ℕ) (xs port : List ℕ)
    → All (Other 93) (x ∷ xs)
    → split_host (91 ∷ ((x ∷ xs) ++ 93 ∷ 58 ∷ port)) ≡ (x ∷ xs, some port)
unfolding split_host bracketed by_colon or_host
split_host-bracketed x xs port free = rw (cut-append 93 (x ∷ xs) (58 ∷ port) free) refl

-- A host with two colons and no bracket in front, as an IPv6 address without brackets, is kept
-- whole as the node, and the text from the first colon on, with the colon, becomes the service.
split_host-two_colons :
    (x : ℕ) (xs ys zs : List ℕ)
    → Other 91 x
    → All (Other 58) (x ∷ xs)
    → All (Other 58) ys
    → split_host ((x ∷ xs) ++ 58 ∷ (ys ++ 58 ∷ zs))
      ≡ ((x ∷ xs) ++ 58 ∷ (ys ++ 58 ∷ zs), some (58 ∷ (ys ++ 58 ∷ zs)))
unfolding split_host bracketed by_colon or_host
split_host-two_colons x xs ys zs h free free' =
    rw (h, cut-append 58 (x ∷ xs) (ys ++ 58 ∷ zs) free, cut-append 58 ys zs free') refl

-- The bytes of the digits of base 10.
abbrev IsDigit : ℕ → Type 0
IsDigit x = (48 ≤ x) × (x < 58)

All-append : (P : ℕ → Type 0) (xs ys : List ℕ) → All P xs → All P ys → All P (xs ++ ys)
All-append P [] ys h k = k
All-append P (x ∷ xs) ys h k = (h.0, All-append P xs ys h.1 k)

All-map : (P Q : ℕ → Type 0) (xs : List ℕ) → ((x : ℕ) → P x → Q x) → All P xs → All Q xs
All-map P Q [] f h = tt
All-map P Q (x ∷ xs) f h = (f x h.0, All-map P Q xs f h.1)

-- Digits and points.
abbrev IsDotted : ℕ → Type 0
IsDotted x = (46 ≤ x) × (x < 58)

decimal-IsDotted : (fuel n : ℕ) → All IsDotted (decimal fuel n)
unfolding decimal
decimal-IsDotted zero n = ((omega arith, omega arith), tt)
decimal-IsDotted (suc fuel) n = elim (Bool-cases (ltb n 10)) [
  | inl e ↦ rw e ((omega arith, ground arith), tt)
  | inr e ↦ rw e (
      All-append IsDotted (decimal fuel (n / 10)) _ (decimal-IsDotted fuel (n / 10))
        ((omega arith, omega arith), tt))
]

part-IsDotted : (n : ℕ) (ys : List ℕ) → All IsDotted ys → All IsDotted (decimal 2 n ++ 46 ∷ ys)
part-IsDotted n ys h =
    All-append IsDotted (decimal 2 n) (46 ∷ ys) (decimal-IsDotted 2 n)
      ((omega arith, omega arith), h)

dotted-IsDotted : (addr : ℕ) → All IsDotted (dotted addr)
unfolding dotted
dotted-IsDotted addr = part-IsDotted (byte_at 24 addr) _ (
    part-IsDotted (byte_at 16 addr) _
      (part-IsDotted (byte_at 8 addr) _ (decimal-IsDotted 2 (byte_at 0 addr))))

first_part : (xs ys : List ℕ) → (x : ℕ) × (zs : List ℕ) × ((xs ++ 46 ∷ ys) ≡ x ∷ zs)
first_part [] ys = (46, ys, refl)
first_part (x ∷ xs) ys = (x, xs ++ 46 ∷ ys, refl)

dotted-cons : (addr : ℕ) → (x : ℕ) × (xs : List ℕ) × (dotted addr ≡ x ∷ xs)
unfolding dotted
dotted-cons addr = first_part (decimal 2 (byte_at 24 addr)) (
    decimal 2 (byte_at 16 addr)
    ++ 46 ∷ (decimal 2 (byte_at 8 addr) ++ 46 ∷ decimal 2 (byte_at 0 addr)))

-- What an IPv4 address prints is divided by the rules of Lookup into its dotted part as the node
-- and its port as the service, for any address and port and either byte order.
pub split_host-insert :
    (host : Endian) (a : Ipv4Address)
    → split_host (insert host a)
      ≡ (dotted (endian_cast host 4 a.addr), some (decimal 4 (endian_cast host 2 a.port)))
unfolding insert
split_host-insert host a =
    let addr = endian_cast host 4 a.addr in
    let port = decimal 4 (endian_cast host 2 a.port) in
    let (x, xs, e) = dotted-cons addr in
    let shape : All IsDotted (x ∷ xs) = subst (All IsDotted) e (dotted-IsDotted addr) in
    let free : All (Other 58) (x ∷ xs) =
      All-map IsDotted (Other 58) (x ∷ xs) (λ y h. ground (arith, h.0, h.1)) shape in
    let free' : All (Other 58) port =
      All-map IsDotted (Other 58) port (λ y h. ground (arith, h.0, h.1))
        (decimal-IsDotted 4 (endian_cast host 2 a.port)) in
    rw e (split_host-port x xs port (ground (arith, shape.0)) free free')
