-- ===== src/Schedule/Client/Whole.antt =====
-- What Client.Download of internal/schedule/client.go makes of the chunks that Client.Upload sends.
use mathlib.Core.List.{append_assoc, append-nil}
use gmmff.Prelude.{
  ℕ, suc, ◌+◌, ◌<◌, ◌≤◌, ◌%◌, ◌^◌, ◌≡◌, refl, sym, ap, ◌∙◌, ◌⊎◌, inl, inr, Bool, true, false, List,
  [], ◌∷◌, ◌++◌, none, ltb, ◌==◌, length, length-append, take, drop, take-length-append,
  drop-length-append, arith, Bool-cases, if◌then◌else◌,
}
use gmmff.Prelude.Bytes.{Bytes, bytes_eq_refl}
use gmmff.Transfer.Delivery.{joined}
use gmmff.Schedule.Client.{Crypto, put_uint32, get_uint32, chunk_nonce, chunk_wire, wires}
use gmmff.Schedule.Client.Reading.{read_full, whole, short, Cut}
use gmmff.Schedule.Client.Download.{opened, check_chunk, check_reading, rest_of, stream}

pub get_uint32-put_uint32 : (n : ℕ) (rest : Bytes) → get_uint32 (put_uint32 n ++ rest) ≡ n % 2 ^ 32
unfolding get_uint32 put_uint32
get_uint32-put_uint32 n rest = omega arith

read_full-whole :
    (n : ℕ) (w rest : Bytes) → length w ≡ n → read_full n false (w ++ rest) ≡ whole w rest
unfolding read_full
read_full-whole n w rest e =
    let long : ltb (length (w ++ rest)) n ≡ false = ground (arith, length-append w rest) in
    rw (long, sym e, take-length-append w rest, drop-length-append w rest) refl

read_full-short :
    (n : ℕ) (w : Bytes) → 0 < length w → ltb (length w) n ≡ true → read_full n false w ≡ short w
unfolding read_full
read_full-short n w some' less = let e : (length w == 0) ≡ false = ground arith in rw (less, e) refl

module _ (c : Crypto) (key prefix : Bytes) (eight : length prefix ≡ 8) where
  length-chunk_nonce : (i : ℕ) → length (chunk_nonce i prefix) ≡ 12
  unfolding chunk_nonce put_uint32
  length-chunk_nonce i = omega (arith, eight)

  pub length-chunk_wire : (i : ℕ) (p : Bytes) → length (chunk_wire c key prefix i p) ≡ 28 + length p
  unfolding chunk_wire
  length-chunk_wire i p = omega (
    arith,
    length-append (chunk_nonce i prefix) (c.seal key (chunk_nonce i prefix) p),
    length-chunk_nonce i,
    c.length-seal key (chunk_nonce i prefix) p,
  )

  take-chunk_wire :
      (i : ℕ) (p : Bytes) → take 12 (chunk_wire c key prefix i p) ≡ chunk_nonce i prefix
  unfolding chunk_wire
  take-chunk_wire i p =
      let n = chunk_nonce i prefix in
      ap (λ k. take k (n ++ c.seal key n p)) (sym (length-chunk_nonce i))
      ∙ take-length-append n (c.seal key n p)

  drop-chunk_wire :
      (i : ℕ) (p : Bytes)
      → drop 12 (chunk_wire c key prefix i p) ≡ c.seal key (chunk_nonce i prefix) p
  unfolding chunk_wire
  drop-chunk_wire i p =
      let n = chunk_nonce i prefix in
      ap (λ k. drop k (n ++ c.seal key n p)) (sym (length-chunk_nonce i))
      ∙ drop-length-append n (c.seal key n p)

  index-chunk_nonce : (i : ℕ) → (get_uint32 (chunk_nonce i prefix) == i % 2 ^ 32) ≡ true
  unfolding chunk_nonce
  index-chunk_nonce i = rw (get_uint32-put_uint32 i prefix) (ground arith)

  pub drop-chunk_nonce : (i : ℕ) → drop 4 (chunk_nonce i prefix) ≡ prefix
  unfolding chunk_nonce put_uint32
  drop-chunk_nonce i = refl

  same_prefix :
      (i : ℕ) (before : Bytes)
      → ((i == 0) ≡ true) ⊎ (before ≡ prefix)
      → (if i == 0 then prefix else before) ≡ prefix
  same_prefix i before (inl e) = rw e refl
  same_prefix i before (inr e) = ground (arith, e)

  -- The chunk with the index that is expected is opened.
  check_chunk-chunk_wire :
      (i : ℕ) (p before : Bytes)
      → ((i == 0) ≡ true) ⊎ (before ≡ prefix)
      → check_chunk c key i before (chunk_wire c key prefix i p) ≡ opened p prefix
  unfolding check_chunk
  check_chunk-chunk_wire i p before known =
      let long : ltb (length (chunk_wire c key prefix i p)) 12 ≡ false =
        ground (arith, length-chunk_wire i p) in
      rw
        (
          long,
          take-chunk_wire i p,
          drop-chunk_wire i p,
          index-chunk_nonce i,
          drop-chunk_nonce i,
          same_prefix i before known,
          bytes_eq_refl prefix,
          c.open_sealed-seal key (chunk_nonce i prefix) p,
        )
        refl

  -- The bodies that are read a chunk at a time: the chunks of a file that was cut.
  module _ (size : ℕ) (can_write : ℕ → Bool) (writes : (i : ℕ) → can_write i ≡ true) where
    stream-end :
        (i : ℕ) (before body out : Bytes)
        → stream c key (28 + size) false can_write 0 i before body out
          ≡ record { output = out; problem = none }
    unfolding stream
    stream-end i before body out = refl

    stream-opened :
        (n i : ℕ) (before body out rest p : Bytes)
        → check_reading c key i before (read_full (28 + size) false body) ≡ opened p prefix
        → rest_of c key (read_full (28 + size) false body) ≡ rest
        → stream c key (28 + size) false can_write (suc n) i before body out
          ≡ stream c key (28 + size) false can_write n (suc i) prefix rest (out ++ p)
    unfolding stream
    stream-opened n i before body out rest p e r = rw (stream, e, writes i, r) refl

    stream-last :
        (i : ℕ) (before out p : Bytes)
        → ((i == 0) ≡ true) ⊎ (before ≡ prefix)
        → length p ≤ size
        → stream c key
            (28 + size)
            false
            can_write
            1
            i
            before
            (chunk_wire c key prefix i p ++ [])
            out
          ≡ record { output = out ++ p; problem = none }
    stream-last i before out p known fits =
        let w = chunk_wire c key prefix i p in
        let e = check_chunk-chunk_wire i p before known in
        elim (Bool-cases (ltb (length p) size)) [
          | inl less ↦
              let r =
                read_full-short (28 + size) w (omega (arith, length-chunk_wire i p))
                  (ground (arith, length-chunk_wire i p)) in
              rw (append-nil w)
                (stream-opened 0 i before w out [] p (rw r e) (rw r refl) ∙ stream-end _ _ _ _)
          | inr full ↦
              let r = read_full-whole (28 + size) w [] (ground (arith, length-chunk_wire i p)) in
              stream-opened 0 i before (w ++ []) out [] p (rw r e) (rw r refl) ∙ stream-end _ _ _ _
        ]

    pub stream-wires :
        (ps : List Bytes) (i : ℕ) (before out : Bytes)
        → ((i == 0) ≡ true) ⊎ (before ≡ prefix)
        → Cut size ps
        → stream c key
            (28 + size)
            false
            can_write
            (length ps)
            i
            before
            (joined (wires c key prefix i ps))
            out
          ≡ record { output = out ++ joined ps; problem = none }
    unfolding Cut joined wires
    stream-wires [] i before out known cut = stream-end _ _ _ _ ∙ rw (append-nil out) refl
    stream-wires (p ∷ []) i before out known cut =
        stream-last i before out p known cut.1 ∙ rw (append-nil p) refl
    stream-wires (p ∷ q ∷ ps) i before out known (same, cut) =
        let w = chunk_wire c key prefix i p in
        let rest = joined (wires c key prefix (suc i) (q ∷ ps)) in
        let r = read_full-whole (28 + size) w rest (omega (arith, length-chunk_wire i p)) in
        let e = check_chunk-chunk_wire i p before known in
        stream-opened (suc (length ps)) i before (w ++ rest) out rest p (rw r e) (rw r refl)
        ∙ stream-wires (q ∷ ps) (suc i) prefix (out ++ p) (inr refl) cut
        ∙ rw (append_assoc out p (joined (q ∷ ps))) refl
