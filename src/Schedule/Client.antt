-- ===== src/Schedule/Client.antt =====
-- The client of internal/schedule/client.go: the encryption of a file in chunks, its upload, and its
-- download.
pub mod Reading
pub mod Upload
pub mod Download
pub mod Whole
pub mod Sending
pub mod Served
pub mod Answered
pub mod Delivered
pub mod Authentic
pub mod Toy
mod Tests
use gmmff.Prelude.{
  ℕ, suc, List, ◌*◌, ◌/◌, ◌%◌, ◌^◌, ◌≡◌, ◌+◌, ◌∷◌, [], ◌++◌, Option, some, if◌then◌else◌, length,
  get_or, take,
}
use gmmff.Prelude.Int.{ℤ, pos, ltb_ℤ}
use gmmff.Prelude.Bytes.{Bytes}

-- AES-256-GCM with a key of 32 bytes, as a value and its tag, SHA-256, and encoding/hex. Opening what
-- was sealed under the same key and nonce gives it back; `open_sealed` is `none` if the tag is wrong.
pub record Crypto : Type 0 where
  pub seal : (key nonce plain : Bytes) → Bytes
  pub open_sealed : (key nonce sealed : Bytes) → Option Bytes
  pub sha256 : Bytes → Bytes
  pub to_hex : Bytes → Bytes
  pub from_hex : Bytes → Option Bytes
  pub open_sealed-seal : (k n p : Bytes) → open_sealed k n (seal k n p) ≡ some p
  pub length-seal : (k n p : Bytes) → length (seal k n p) ≡ length p + 16
  pub from_hex-to_hex : (b : Bytes) → from_hex (to_hex b) ≡ some b
  pub length-to_hex : (b : Bytes) → length (to_hex b) ≡ 2 * length b
  pub length-sha256 : (b : Bytes) → length (sha256 b) ≡ 32

-- binary.BigEndian.PutUint32 of uint32(i)
unfoldable pub put_uint32 : ℕ → Bytes
put_uint32 i = (i / 2 ^ 24 % 256) ∷ (i / 2 ^ 16 % 256) ∷ (i / 2 ^ 8 % 256) ∷ (i % 256) ∷ []

-- binary.BigEndian.Uint32 of at least four bytes
unfoldable pub get_uint32 : Bytes → ℕ
get_uint32 b = get_or b 0 0 * 2 ^ 24 + get_or b 1 0 * 2 ^ 16 + get_or b 2 0 * 2 ^ 8 + get_or b 3 0

-- The nonce of a chunk: its index and the prefix of the upload, of eight bytes.
unfoldable pub chunk_nonce : ℕ → Bytes → Bytes
chunk_nonce i prefix = put_uint32 i ++ prefix

-- A chunk on the wire.
unfoldable pub chunk_wire : Crypto → (key prefix : Bytes) → ℕ → Bytes → Bytes
chunk_wire c key prefix i plain = chunk_nonce i prefix ++ c.seal key (chunk_nonce i prefix) plain

unfoldable pub select_chunk_size : ℤ → ℕ
select_chunk_size file_size =
    if ltb_ℤ file_size (pos (10 * 1024 * 1024))
    then 256 * 1024
    else if ltb_ℤ file_size (pos (100 * 1024 * 1024))
    then 512 * 1024
    else 1024 * 1024

-- The chunks on the wire, from chunk `i` on.
unfoldable pub wires : Crypto → (key prefix : Bytes) → ℕ → List Bytes → List Bytes
wires c key prefix i [] = []
wires c key prefix i (p ∷ ps) = chunk_wire c key prefix i p ∷ wires c key prefix (suc i) ps
