-- ===== src/Schedule/Client/Download.antt =====
-- Client.Download of internal/schedule/client.go.
use gmmff.Prelude.{
  ℕ, zero, suc, ◌+◌, ◌%◌, ◌^◌, Bool, not, ◌||◌, [], ◌++◌, Option, none, some, ltb, ◌==◌, length,
  take, drop, if◌then◌else◌,
}
use gmmff.Prelude.Int.{ℤ, pos, pos_part, ltb_ℤ, ◌+ℤ◌}
use gmmff.Prelude.Bytes.{Bytes, codes, bytes_eq}
use gmmff.Schedule.Meta.{nonce_size, tag_size}
use gmmff.Schedule.Config.{to_int64}
use gmmff.Schedule.Handler.{PublicMeta}
use gmmff.Schedule.Client.{Crypto, get_uint32}
use gmmff.Schedule.Client.Reading.{Reading, whole, short, at_end, failed, read_full}

pub data DownloadError : Type 0 where
  invalid_key no_answer gone : DownloadError
  rejected : (status : ℕ) → DownloadError
  read_failed too_short out_of_order not_authentic write_failed : (chunk : ℕ) → DownloadError

-- What was written, and the error that ended the loop.
pub record Streamed : Type 0 where
  pub output : Bytes
  pub problem : Option DownloadError

-- A chunk that was opened, or the error that its check gave.
pub data Checked : Type 0 where
  opened : (plain prefix : Bytes) → Checked
  bad : DownloadError → Checked

module _ (c : Crypto) (key : Bytes) where
  abbrev pub opened_or : ℕ → Bytes → Option Bytes → Checked
  opened_or i prefix none = bad (not_authentic i)
  opened_or i prefix (some plain) = opened plain prefix

  -- The checks of a chunk on the wire; the prefix is that of chunk 0.
  unfoldable pub check_chunk : ℕ → Bytes → Bytes → Checked
  check_chunk i prefix wire =
      let nonce = take nonce_size wire in
      let prefix' = if i == 0 then drop 4 nonce else prefix in
      if ltb (length wire) nonce_size
      then bad (too_short i)
      else if not (get_uint32 nonce == i % 2 ^ 32) || not (bytes_eq (drop 4 nonce) prefix')
      then bad (out_of_order i)
      else opened_or i prefix' (c.open_sealed key nonce (drop nonce_size wire))

  -- Reading a chunk and checking it.
  abbrev pub rest_of : Reading → Bytes
  rest_of (whole wire rest) = rest
  rest_of (short wire) = []
  rest_of at_end = []
  rest_of failed = []

  abbrev pub check_reading : ℕ → Bytes → Reading → Checked
  check_reading i prefix (whole wire rest) = check_chunk i prefix wire
  check_reading i prefix (short wire) = check_chunk i prefix wire
  check_reading i prefix at_end = bad (read_failed i)
  check_reading i prefix failed = bad (read_failed i)

  module _ (size : ℕ) (broken : Bool) (can_write : ℕ → Bool) where
    -- The loop over the body with `n` chunks to go; `can_write i` is whether chunk `i` can be written.
    unfoldable pub stream : (n : ℕ) → ℕ → Bytes → Bytes → Bytes → Streamed
    stream zero i prefix body out = record { output = out; problem = none }
    stream (suc n) i prefix body out =
        let reading = read_full size broken body in
        elim (check_reading i prefix reading) [
          | bad e ↦ record { output = out; problem = some e }
          | opened plain prefix' ↦
              let next = stream n (suc i) prefix' (rest_of reading) (out ++ plain) in
              if can_write i then next else record { output = out; problem = some (write_failed i) }
        ]

-- What a download gives: the name, and what was written; `panicked` where a buffer of negative length
-- is asked for, or the nonce of the name has a wrong length.
pub data Downloaded : Type 0 where
  written : (name output : Bytes) → Downloaded
  refused_with : DownloadError → (output : Bytes) → Downloaded
  panicked : Downloaded

-- The answer to the request: the four headers, where they are present and can be read, and the body,
-- which may end in an error.
pub record Answer : Type 0 where
  pub chunk_size : Option ℤ
  pub chunks_total : Option ℤ
  pub name_enc : Bytes
  pub name_nonce : Bytes
  pub body : Bytes
  pub broken : Bool

pub data Response : Type 0 where
  nothing : Response
  status : ℕ → Response
  found : Answer → Response

abbrev pub or_else : Option ℤ → ℤ → ℤ
or_else none d = d
or_else (some n) d = n

abbrev pub name_or : Option Bytes → Bytes
name_or none = codes "download"
name_or (some name) = name

module _ (c : Crypto) where
  abbrev pub open_name : Bytes → Option Bytes → Option Bytes → Option Bytes
  open_name key none n = some (codes "download")
  open_name key (some enc) none = some (codes "download")
  open_name key (some enc) (some n) =
      if length n == nonce_size then some (name_or (c.open_sealed key n enc)) else none

  -- The name that the headers give; `none` is the panic of Open on a nonce of another length.
  unfoldable pub name_of : Bytes → Answer → Option Bytes
  name_of key a =
      if bytes_eq a.name_enc [] || bytes_eq a.name_nonce []
      then some (codes "download")
      else open_name key (c.from_hex a.name_enc) (c.from_hex a.name_nonce)

  abbrev pub ended : (name output : Bytes) → Option DownloadError → Downloaded
  ended name output none = written name output
  ended name output (some e) = refused_with e output

  abbrev pub streamed : Bytes → Streamed → Downloaded
  streamed name st = ended name st.output st.problem

  -- The part from the headers on. The length of a chunk on the wire is that of its nonce, the chunk
  -- and its tag, in int64. A buffer of that length is taken to fit into memory.
  unfoldable pub answered : Bytes → PublicMeta → (ℕ → Bool) → Answer → Downloaded
  answered key meta can_write a =
      let size = to_int64 (pos (nonce_size + tag_size) +ℤ or_else a.chunk_size meta.chunk_size) in
      let total = or_else a.chunks_total meta.chunks_total in
      let out = stream c key (pos_part size) a.broken can_write (pos_part total) 0 [] a.body [] in
      elim (name_of key a) [
        | none ↦ panicked
        | some name ↦ if ltb_ℤ size (pos 0) then panicked else streamed name out
      ]

  abbrev pub download_with : Option Bytes → PublicMeta → (ℕ → Bool) → Response → Downloaded
  download_with none meta can_write r = refused_with invalid_key []
  download_with (some key) meta can_write nothing =
      if length key == 32 then refused_with no_answer [] else refused_with invalid_key []
  download_with (some key) meta can_write (status s) =
      if not (length key == 32)
      then refused_with invalid_key []
      else if s == 410
      then refused_with gone []
      else refused_with (rejected s) []
  download_with (some key) meta can_write (found a) =
      if not (length key == 32) then refused_with invalid_key [] else answered key meta can_write a

  -- Download
  unfoldable pub download : Bytes → PublicMeta → (ℕ → Bool) → Response → Downloaded
  download key_hex meta can_write r = download_with (c.from_hex key_hex) meta can_write r
