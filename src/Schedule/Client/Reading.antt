-- ===== src/Schedule/Client/Reading.antt =====
-- io.ReadFull, by which internal/schedule/client.go reads a file and the body of a download in pieces.
use mathlib.Core.List.{append-nil}
use native.Mathlib.Nat.{div-eq_of_lt, add-div_right}
use gmmff.Prelude.{
  ℕ, zero, suc, ◌+◌, ◌-◌, ◌/◌, ◌≤◌, ◌<◌, ◌≡◌, refl, sym, inl, inr, Bool, true, false, List, [], ◌∷◌,
  ltb, ◌==◌, length, take, drop, take-append-drop, length-drop, length-take, arith, tests,
  Bool-cases, if◌then◌else◌,
}
use gmmff.Prelude.Bytes.{Bytes}
use gmmff.Transfer.Delivery.{joined}

-- What a read returns: as many bytes as were asked for, with what is left; fewer (ErrUnexpectedEOF);
-- none at the end (EOF); or another error.
pub data Reading : Type 0 where
  whole : (got rest : Bytes) → Reading
  short : (got : Bytes) → Reading
  at_end failed : Reading

-- A reader is the bytes that it has left, and whether they end in an error.
unfoldable pub read_full : ℕ → Bool → Bytes → Reading
read_full n broken rest =
    if ltb (length rest) n
    then (if broken then failed else if length rest == 0 then at_end else short rest)
    else whole (take n rest) (drop n rest)

-- The pieces that a loop over ReadFull gets, of `size` bytes each but for the last; `fuel` bounds their
-- number.
unfoldable pub pieces_of : ℕ → ℕ → Bytes → List Bytes
pieces_of zero size b = []
pieces_of (suc fuel) size b =
    let rest = pieces_of fuel size (drop size b) in
    if length b == 0 then [] else if ltb (length b) size then b ∷ [] else take size b ∷ rest

pub length_not_zero : (x : ℕ) (b : Bytes) → (length (x ∷ b) == 0) ≡ false
length_not_zero x b = ground arith

pub pieces_of-joined :
    (fuel size : ℕ) (b : Bytes) → 0 < size → length b ≤ fuel → joined (pieces_of fuel size b) ≡ b
unfolding pieces_of joined
pieces_of-joined zero size [] pos' enough = refl
pieces_of-joined zero size (x ∷ b) pos' enough = absurd (omega arith)
pieces_of-joined (suc fuel) size [] pos' enough = refl
pieces_of-joined (suc fuel) size (x ∷ b) pos' enough =
    elim (Bool-cases (ltb (length (x ∷ b)) size)) [
      | inl f ↦ rw (f, length_not_zero x b) (append-nil (x ∷ b))
      | inr f ↦
          let fits : length (drop size (x ∷ b)) ≤ fuel = omega (arith, length-drop size (x ∷ b)) in
          rw (f, length_not_zero x b, pieces_of-joined fuel size (drop size (x ∷ b)) pos' fits)
            (take-append-drop size (x ∷ b))
    ]

-- The two sides of a loop over ReadFull: what is read, and what the pieces are.
module _ (fuel size x : ℕ) (b : Bytes) where
  pub read_full-less :
      ltb (length (x ∷ b)) size ≡ true → read_full size false (x ∷ b) ≡ short (x ∷ b)
  unfolding read_full
  read_full-less e = rw (e, length_not_zero x b) refl

  pub pieces_of-less :
      ltb (length (x ∷ b)) size ≡ true → pieces_of (suc fuel) size (x ∷ b) ≡ (x ∷ b) ∷ []
  unfolding pieces_of
  pieces_of-less e = rw (e, length_not_zero x b) refl

  pub read_full-more :
      ltb (length (x ∷ b)) size ≡ false
      → read_full size false (x ∷ b) ≡ whole (take size (x ∷ b)) (drop size (x ∷ b))
  unfolding read_full
  read_full-more e = rw e refl

  pub pieces_of-more :
      ltb (length (x ∷ b)) size ≡ false
      → pieces_of (suc fuel) size (x ∷ b)
        ≡ take size (x ∷ b) ∷ pieces_of fuel size (drop size (x ∷ b))
  unfolding pieces_of
  pieces_of-more e = rw (e, length_not_zero x b) refl

pub read_full-end : (size : ℕ) → 0 < size → read_full size false [] ≡ at_end
unfolding read_full
read_full-end size h = let e : ltb 0 size ≡ true = ground arith in rw e refl

pub pieces_of-end : (fuel size : ℕ) → pieces_of (suc fuel) size [] ≡ []
unfolding pieces_of
pieces_of-end fuel size = refl

one_piece : (size n : ℕ) → suc n < size → 1 ≡ (suc n + size - 1) / size
one_piece size n h =
    let e : suc n + size - 1 ≡ n + size = omega arith in
    let z : n / size ≡ 0 = div-eq_of_lt (omega arith) in
    let p : 0 < size = omega arith in rw (e, add-div_right n p, z) (omega arith)

more_pieces :
    (size n r : ℕ) → 0 < size → n ≡ r + size → suc ((r + size - 1) / size) ≡ (n + size - 1) / size
more_pieces size n r p h =
    let e : n + size - 1 ≡ r + size - 1 + size = omega arith in
    rw (e, add-div_right (r + size - 1) p) (omega arith)

-- The number of pieces is the length divided by the size, rounded up.
pub length-pieces_of :
    (fuel size : ℕ) (b : Bytes)
    → 0 < size
    → length b ≤ fuel
    → length (pieces_of fuel size b) ≡ (length b + size - 1) / size
unfolding pieces_of
length-pieces_of zero size [] h enough = sym (div-eq_of_lt (omega arith))
length-pieces_of zero size (x ∷ b) h enough = absurd (omega arith)
length-pieces_of (suc fuel) size [] h enough = sym (div-eq_of_lt (omega arith))
length-pieces_of (suc fuel) size (x ∷ b) h enough = elim (Bool-cases (ltb (length (x ∷ b)) size)) [
  | inl f ↦ rw (f, length_not_zero x b) (one_piece size (length b) (omega tests))
  | inr f ↦
      let l : length (drop size (x ∷ b)) ≤ fuel = omega (arith, length-drop size (x ∷ b)) in
      rw (f, length_not_zero x b, length-pieces_of fuel size (drop size (x ∷ b)) h l)
        (more_pieces size (length (x ∷ b)) (length (drop size (x ∷ b))) h
          (rw (length-drop size (x ∷ b)) (ground (arith, f))))
]

-- All pieces have `size` bytes but for the last, which has one at least and no more.
unfoldable pub Cut : ℕ → List Bytes → Type 0
Cut size [] = Unit
Cut size (p ∷ []) = (0 < length p) × (length p ≤ size)
Cut size (p ∷ q ∷ ps) = (length p ≡ size) × Cut size (q ∷ ps)

Cut-cons :
    (size : ℕ) (p : Bytes) (ps : List Bytes)
    → 0 < size
    → length p ≡ size
    → Cut size ps
    → Cut size (p ∷ ps)
unfolding Cut
Cut-cons size p [] pos' e k = (omega arith, omega arith)
Cut-cons size p (q ∷ ps) pos' e k = (e, k)

pub pieces_of-Cut : (fuel size : ℕ) (b : Bytes) → 0 < size → Cut size (pieces_of fuel size b)
unfolding pieces_of Cut
pieces_of-Cut zero size b pos' = tt
pieces_of-Cut (suc fuel) size [] pos' = tt
pieces_of-Cut (suc fuel) size (x ∷ b) pos' = elim (Bool-cases (ltb (length (x ∷ b)) size)) [
  | inl f ↦ rw (f, length_not_zero x b) (omega arith, ground arith)
  | inr f ↦
      let e : length (take size (x ∷ b)) ≡ size = ground (arith, length-take size (x ∷ b)) in
      rw (f, length_not_zero x b)
        (Cut-cons size (take size (x ∷ b)) (pieces_of fuel size (drop size (x ∷ b))) pos' e
          (pieces_of-Cut fuel size (drop size (x ∷ b)) pos'))
]
