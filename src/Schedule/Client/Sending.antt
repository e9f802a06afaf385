-- ===== src/Schedule/Client/Sending.antt =====
-- The loop of Client.Upload of internal/schedule/client.go: it sends each piece of the file once, in
-- order.
use mathlib.Core.List.{append_assoc, append-nil}
use gmmff.Prelude.{
  ℕ, zero, suc, ◌+◌, ◌<◌, ◌≤◌, ◌≡◌, refl, sym, ap, inl, inr, false, [], ◌∷◌, ◌++◌, some, ltb,
  length, length-drop, length-take, take, drop, arith, tests, Bool-cases,
}
use gmmff.Prelude.Int.{ℤ}
use gmmff.Prelude.Bytes.{Bytes}
use gmmff.Transfer.Delivery.{joined}
use gmmff.Schedule.Handler.{answer}
use gmmff.Schedule.Client.{Crypto, chunk_wire, wires}
use gmmff.Schedule.Client.Reading.{
  pieces_of, read_full-end, pieces_of-end, read_full-less, pieces_of-less, read_full-more,
  pieces_of-more,
}
use gmmff.Schedule.Client.Upload.{Remote, done, send_chunk, send_chunks, chunk_sent}

-- A server that accepts the chunks: `P i h` holds of its state once it has the first `i` of them, which
-- make up `h`.
module _ (c : Crypto) (srv : Remote) (key prefix id : Bytes) (size : ℕ)
    (P : ℕ → Bytes → srv.State → Type 0)
    (accepts : (i : ℕ) (plain h : Bytes) (s : srv.State)
      → length plain ≤ size
      → P i h s
      → (t : srv.State) × (j : ℤ) × (srv.chunk id i (chunk_wire c key prefix i plain) s
          ≡ (t, some (answer j)))
        × P (suc i) (h ++ chunk_wire c key prefix i plain) t) where
  send_chunk-accepted :
      (i : ℕ) (plain h : Bytes) (s : srv.State)
      → length plain ≤ size
      → P i h s
      → (t : srv.State) × (send_chunk c srv key prefix id size false i plain h s
          ≡ (t, done (h ++ chunk_wire c key prefix i plain)))
        × P (suc i) (h ++ chunk_wire c key prefix i plain) t
  unfolding send_chunk
  send_chunk-accepted i plain h s fits p =
      let (t, j, e, q) = accepts i plain h s fits p in
      (t, ap (chunk_sent c srv (h ++ chunk_wire c key prefix i plain)) e, q)

  pub send_chunks-accepted :
      (fuel i : ℕ) (rest h : Bytes) (s : srv.State)
      → 0 < size
      → length rest < fuel
      → P i h s
      → (t : srv.State) × (send_chunks c srv key prefix id size false fuel i rest h s
          ≡ (t, done (h ++ joined (wires c key prefix i (pieces_of fuel size rest)))))
        × P
            (i + length (pieces_of fuel size rest))
            (h ++ joined (wires c key prefix i (pieces_of fuel size rest)))
            t
  unfolding send_chunks wires joined
  send_chunks-accepted zero i rest h s some' enough p = absurd (omega arith)
  send_chunks-accepted (suc fuel) i [] h s some' enough p =
      let z : i + 0 ≡ i = omega arith in
      rw (send_chunks, read_full-end size some', pieces_of-end fuel size, append-nil h, z)
        (s, refl, p)
  send_chunks-accepted (suc fuel) i (x ∷ rest) h s some' enough p =
      elim (Bool-cases (ltb (length (x ∷ rest)) size)) [
        | inl less ↦
            let (t, e, q) = send_chunk-accepted i (x ∷ rest) h s (omega tests) p in
            let z : i + 1 ≡ suc i = omega arith in
            rw
              (
                send_chunks,
                read_full-less fuel size x rest less,
                pieces_of-less fuel size x rest less,
                append-nil (chunk_wire c key prefix i (x ∷ rest)),
                z,
              )
              (t, e, q)
        | inr more ↦
            let plain = take size (x ∷ rest) in
            let rest' = drop size (x ∷ rest) in
            let w = chunk_wire c key prefix i plain in
            let (t, e, q) =
              send_chunk-accepted i plain h s (omega (arith, length-take size (x ∷ rest))) p in
            let (t', e', q') =
              send_chunks-accepted fuel (suc i) rest' (h ++ w) t some'
                (omega (arith, length-drop size (x ∷ rest))) q in
            let z : i + suc (length (pieces_of fuel size rest'))
                ≡ suc i + length (pieces_of fuel size rest') =
              omega arith in
            rw
              (
                send_chunks,
                read_full-more fuel size x rest more,
                pieces_of-more fuel size x rest more,
                e,
                z,
                sym (
                    append_assoc h w
                      (joined (wires c key prefix (suc i) (pieces_of fuel size rest')))),
              )
              (t', e', q')
      ]
