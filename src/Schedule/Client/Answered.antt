-- ===== src/Schedule/Client/Answered.antt =====
-- What Client.Download of internal/schedule/client.go makes of an answer with the chunks that
-- Client.Upload made of a file.
use gmmff.Prelude.{
  ℕ, ◌^◌, suc, ◌+◌, ◌<◌, ◌≡◌, refl, ap, ◌∙◌, inl, Bool, true, false, List, [], some, none, ◌==◌,
  length, arith,
}
use gmmff.Prelude.Int.{ℤ, pos, ltb_ℤ, ◌+ℤ◌}
use gmmff.Prelude.Bytes.{Bytes, bytes_eq}
use gmmff.Transfer.Delivery.{joined}
use gmmff.Schedule.Config.{to_int64}
use gmmff.Schedule.Handler.{PublicMeta}
use gmmff.Schedule.Client.{Crypto, wires}
use gmmff.Schedule.Client.Reading.{pieces_of, pieces_of-joined, pieces_of-Cut}
use gmmff.Schedule.Client.Download.{Answer, found, written, stream, name_of, answered, download}
use gmmff.Schedule.Client.Whole.{stream-wires}
use gmmff.Schedule.Client.Served.{not_nil}

wire_size : (size : ℕ) → 28 + size < 2 ^ 63 → to_int64 (pos 28 +ℤ pos size) ≡ pos (28 + size)
unfolding ◌+ℤ◌ to_int64
wire_size size h = ground arith

pub hex_some : (crypto : Crypto) (b : Bytes) → 0 < length b → 0 < length (crypto.to_hex b)
hex_some crypto b h = omega (arith, crypto.length-to_hex b)

module _ (crypto : Crypto) (key nonce prefix name data' : Bytes) (size : ℕ) where
  abbrev pub sent_chunks : List Bytes
  sent_chunks = pieces_of (suc (length data')) size data'

  abbrev pub sent_body : Bytes
  sent_body = joined (wires crypto key prefix 0 sent_chunks)

  -- The answer of the server, which counts `total` sent_chunks.
  abbrev pub sent_answer : ℤ → Answer
  sent_answer total = record {
    chunk_size = some (pos size);
    chunks_total = some total;
    name_enc = crypto.to_hex (crypto.seal key nonce name);
    name_nonce = crypto.to_hex nonce;
    body = sent_body;
    broken = false;
  }

  name_of-sent :
      (total : ℤ) → length nonce ≡ 12 → name_of crypto key (sent_answer total) ≡ some name
  unfolding name_of
  name_of-sent total n =
      let twelve : (length nonce == 12) ≡ true = ground arith in
      rw
        (
          not_nil (crypto.to_hex (crypto.seal key nonce name)) (
              hex_some crypto (crypto.seal key nonce name)
                (omega (arith, crypto.length-seal key nonce name))),
          not_nil (crypto.to_hex nonce) (hex_some crypto nonce (omega arith)),
          crypto.from_hex-to_hex (crypto.seal key nonce name),
          crypto.from_hex-to_hex nonce,
          twelve,
          crypto.open_sealed-seal key nonce name,
        )
        refl

  module _ (eight : length prefix ≡ 8) (size_pos : 0 < size) (modest : 28 + size < 2 ^ 63)
      (can_write : ℕ → Bool) (writes : (i : ℕ) → can_write i ≡ true) where
    body_streamed :
        stream crypto key (28 + size) false can_write (length sent_chunks) 0 [] sent_body []
        ≡ record { output = data'; problem = none }
    body_streamed =
        stream-wires crypto key prefix eight size can_write writes sent_chunks 0 [] [] (inl refl)
          (pieces_of-Cut (suc (length data')) size data' size_pos)
        ∙ ap (λ x. record { output = x; problem = none })
            (pieces_of-joined (suc (length data')) size data' size_pos (omega arith))

    answer_written :
        (meta : PublicMeta) (total : ℤ)
        → total ≡ pos (length sent_chunks)
        → length nonce ≡ 12
        → answered crypto key meta can_write (sent_answer total) ≡ written name data'
    unfolding answered name_of bytes_eq
    answer_written meta total counted n =
        let e : ltb_ℤ (pos (28 + size)) (pos 0) ≡ false = ground arith in
        rw (name_of-sent total n, wire_size size modest, e, counted, body_streamed) refl

    -- A client with the key gets the name and the bytes of the file.
    pub download-sent :
        (meta : PublicMeta) (total : ℤ)
        → total ≡ pos (length sent_chunks)
        → length key ≡ 32
        → length nonce ≡ 12
        → download crypto (crypto.to_hex key) meta can_write (found (sent_answer total))
          ≡ written name data'
    unfolding download
    download-sent meta total counted k n =
        let e : (length key == 32) ≡ true = ground arith in
        rw (crypto.from_hex-to_hex key, e) (answer_written meta total counted n)
