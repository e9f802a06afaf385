-- ===== src/Schedule/Client/Toy.antt =====
-- A toy cipher for the client of internal/schedule/client.go, whose tag tells one sealing from all
-- others.
use gmmff.Prelude.{
  ℕ, zero, suc, ◌+◌, ◌-◌, ◌*◌, ◌<◌, ◌≡◌, refl, sym, ap, ◌∙◌, inl, inr, true, ◌&&◌, [], ◌∷◌, ◌++◌,
  Option, none, some, leb, ◌==◌, length, length-append, length-replicate, take, take-length-append,
  get_or, replicate, arith, Bool-cases, ==_iff, if◌then◌else◌,
}
use gmmff.Prelude.Bytes.{Bytes, bytes_eq, bytes_eq_iff, has_byte}
use gmmff.Schedule.Client.{Crypto}

abbrev pub the_prefix : Bytes
the_prefix = replicate 8 7

abbrev pub the_nonce : Bytes
the_nonce = 0 ∷ 0 ∷ 0 ∷ 0 ∷ replicate 8 7

abbrev pub the_chunk : Bytes
the_chunk = 5 ∷ []

abbrev pub tag_of : (nonce plain : Bytes) → ℕ
tag_of n p = if bytes_eq n the_nonce && bytes_eq p the_chunk then 1001 else 1000

abbrev pub seal_toy : (key nonce plain : Bytes) → Bytes
seal_toy k n p = p ++ (tag_of n p ∷ replicate 15 0)

abbrev pub plain_of : Bytes → Bytes
plain_of s = take (length s - 16) s

abbrev pub open_toy : (key nonce sealed : Bytes) → Option Bytes
open_toy k n s =
    if leb 16 (length s) && (get_or s (length s - 16) 0 == tag_of n (plain_of s))
    then some (plain_of s)
    else none

pub get_or-append : (p t : Bytes) (x : ℕ) → get_or (p ++ (x ∷ t)) (length p) 0 ≡ x
get_or-append [] t x = refl
get_or-append (y ∷ p) t x = get_or-append p t x

pub length-seal_toy : (k n p : Bytes) → length (seal_toy k n p) ≡ length p + 16
length-seal_toy k n p = omega (arith, length-append p (tag_of n p ∷ replicate 15 0))

pub open_toy-seal_toy : (k n p : Bytes) → open_toy k n (seal_toy k n p) ≡ some p
open_toy-seal_toy k n p =
    let l : length (seal_toy k n p) - 16 ≡ length p = omega (arith, length-seal_toy k n p) in
    let long : leb 16 (length (seal_toy k n p)) ≡ true = ground (arith, length-seal_toy k n p) in
    let same : (tag_of n p == tag_of n p) ≡ true = ground arith in
    rw
      (
        long,
        l,
        get_or-append p (replicate 15 0) (tag_of n p),
        take-length-append p (tag_of n p ∷ replicate 15 0),
        same,
      )
      refl

abbrev pub twice : Bytes → Bytes
twice [] = []
twice (x ∷ b) = x ∷ 0 ∷ twice b

abbrev pub put_first : ℕ → Option Bytes → Option Bytes
put_first x none = none
put_first x (some b) = some (x ∷ b)

abbrev pub halved : Bytes → Option Bytes
halved [] = some []
halved (x ∷ []) = none
halved (x ∷ y ∷ b) = put_first x (halved b)

pub halved-twice : (b : Bytes) → halved (twice b) ≡ some b
halved-twice [] = refl
halved-twice (x ∷ b) = ap (put_first x) (halved-twice b)

pub length-twice : (b : Bytes) → length (twice b) ≡ 2 * length b
length-twice [] = refl
length-twice (x ∷ b) = omega (arith, length-twice b)

abbrev pub toy : Crypto
toy = record {
  seal = seal_toy;
  open_sealed = open_toy;
  sha256 = λ b. replicate 32 0;
  to_hex = twice;
  from_hex = halved;
  open_sealed-seal = open_toy-seal_toy;
  length-seal = length-seal_toy;
  from_hex-to_hex = halved-twice;
  length-to_hex = length-twice;
  length-sha256 = λ b. length-replicate {A = ℕ} 32 0;
}

-- What opens has its tag among its bytes.
has_byte-get_or : (s : Bytes) (i : ℕ) → i < length s → has_byte (get_or s i 0) s ≡ true
unfolding has_byte
has_byte-get_or [] i h = absurd (omega arith)
has_byte-get_or (x ∷ s) zero h = ground arith
has_byte-get_or (x ∷ s) (suc i) h = ground (arith, has_byte-get_or s i (omega arith))

plain_is : (a b : Bytes) → some a ≡ some b → a ≡ b
plain_is a b h = cc

pub open_toy-tag : (k n s p : Bytes) → open_toy k n s ≡ some p → has_byte (tag_of n p) s ≡ true
open_toy-tag k n s p e = elim (Bool-cases (leb 16 (length s))) [
  | inr short ↦ let h = rw short at e in cc
  | inl long ↦ elim (Bool-cases (get_or s (length s - 16) 0 == tag_of n (plain_of s))) [
    | inr other ↦ let h = rw (long, other) at e in cc
    | inl same ↦
        let h : plain_of s ≡ p = plain_is (plain_of s) p (rw (long, same) at e) in
        let q : get_or s (length s - 16) 0 ≡ tag_of n p = (==_iff _ _).0 same ∙ ap (tag_of n) h in
        ap (λ x. has_byte x s) (sym q) ∙ has_byte-get_or s (length s - 16) (ground (arith, long))
  ]
]

pub tag_of-inj : (n p : Bytes) → tag_of n p ≡ 1001 → (n ≡ the_nonce) × (p ≡ the_chunk)
tag_of-inj n p e = elim (Bool-cases (bytes_eq n the_nonce)) [
  | inl a ↦ elim (Bool-cases (bytes_eq p the_chunk)) [
    | inl b ↦ ((bytes_eq_iff n the_nonce).0 a, (bytes_eq_iff p the_chunk).0 b)
    | inr b ↦ absurd (omega (arith, rw (a, b) at e))
  ]
  | inr a ↦ absurd (omega (arith, rw a at e))
]
