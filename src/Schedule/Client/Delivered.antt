-- ===== src/Schedule/Client/Delivered.antt =====
-- A whole delivery by internal/schedule: Client.Upload of client.go, the server of handler.go and
-- store.go, and Client.Download.
use gmmff.Prelude.{
  ℕ, suc, ◌+◌, ◌<◌, ◌≤◌, ◌^◌, ◌≡◌, refl, sym, ap, ◌∙◌, inl, inr, Bool, true, false, List, [],
  Option, some, ltb, length, arith, Bool-cases,
}
use gmmff.Prelude.Int.{pos, ltb_ℤ, ◌≤ℤ◌}
use gmmff.Prelude.Bytes.{Bytes}
use gmmff.Schedule.Disk.{Disk}
use gmmff.Schedule.Meta.{UploadMeta, FileMeta, Codec, valid_id}
use gmmff.Schedule.Store.{Opened, completed_meta}
use gmmff.Schedule.Uploads.{Works, Progress}
use gmmff.Schedule.Finish.{Stored}
use gmmff.Schedule.Download.{one_less, open_download_done, left_at_first}
use gmmff.Schedule.Bodies.{download_answer_done}
use gmmff.Schedule.Config.{Addresses, Config, ip_allowed_to_download}
use gmmff.Schedule.Handler.{
  Reply, answer, refused, PublicMeta, authorize_upload, max_chunk_size, expected_chunks,
}
use gmmff.Schedule.Requests.{handle_download}
use gmmff.Schedule.Client.{Crypto, chunk_wire, select_chunk_size}
use gmmff.Schedule.Client.Reading.{length-pieces_of}
use gmmff.Schedule.Client.Upload.{
  Remote, UploadOptions, UploadResult, done, chosen_size, send_chunks, finalized, upload_completed,
  upload,
}
use gmmff.Schedule.Client.Download.{Response, status, found, written, download}
use gmmff.Schedule.Client.Whole.{length-chunk_wire}
use gmmff.Schedule.Client.Sending.{send_chunks-accepted}
use gmmff.Schedule.Client.Answered.{sent_chunks, sent_body, hex_some, download-sent}
use gmmff.Schedule.Client.Served.{
  Session, served, kept_meta, replied, init_served, chunk_served, complete_served,
  expected_chunks-pos,
}

-- The headers and the body of the answer of handleDownload, as the client reads them.
abbrev pub response_of : (c : Codec) (disk : Disk) → Reply (Opened c disk) → Response
response_of c disk (refused n) = status n
response_of c disk (answer o) = found (record {
  chunk_size = some o.meta.chunk_size;
  chunks_total = some o.meta.chunks_total;
  name_enc = o.meta.file_name_enc;
  name_nonce = o.meta.file_name_nonce;
  body = o.content;
  broken = false;
})

chosen_size-pos : (opts : UploadOptions) (n : ℕ) → 0 < chosen_size opts (pos n)
unfolding select_chunk_size
chosen_size-pos opts n = ground arith

chosen_size-le :
    (opts : UploadOptions) (n : ℕ)
    → opts.chunk_size ≤ℤ pos max_chunk_size
    → chosen_size opts (pos n) ≤ max_chunk_size
unfolding select_chunk_size
chosen_size-le opts n h = ground arith

module _ (net : Addresses) (c : Codec) (disk : Disk) (works : Works disk) (cfg : Config net)
    (ip : Option net.Ip) (digits : ℕ → Bytes) (written_digits : (i : ℕ) → 0 < length (digits i))
    (ses : Session) (crypto : Crypto) (key nonce prefix name : Bytes) (opts : UploadOptions)
    (data' : Bytes) where
  abbrev len : ℕ
  len = length data'

  abbrev size : ℕ
  size = chosen_size opts (pos len)

  abbrev chunks : List Bytes
  chunks = sent_chunks crypto key nonce prefix name data' size

  abbrev body : Bytes
  body = sent_body crypto key nonce prefix name data' size

  abbrev sidecar : FileMeta
  sidecar =
      completed_meta c disk (kept_meta net c disk cfg ip digits ses opts len size) ses.file_id
        ses.delete_key (crypto.to_hex (crypto.seal key nonce name)) (crypto.to_hex nonce)
        (crypto.to_hex (crypto.sha256 body)) (length body)

  abbrev srv : Remote
  srv = served net c disk cfg ip digits ses

  abbrev kept : UploadMeta
  kept = kept_meta net c disk cfg ip digits ses opts len size

  abbrev result : UploadResult
  result = record {
    file_id = ses.file_id;
    key_hex = crypto.to_hex key;
    delete_key = ses.delete_key;
    expires_at = kept.expires_at;
  }

  module _ (eight : length prefix ≡ 8) (valid_upload : valid_id ses.upload_id ≡ true)
      (some' : 0 < len) (modest : len + size < 2 ^ 63) (at_most : size ≤ max_chunk_size) where
    chunks_sent :
        (d : disk.State)
        → Progress c disk kept 0 [] d
        → (e : disk.State) × (send_chunks crypto srv key prefix ses.upload_id size false
              (suc len)
              0
              data'
              []
              d
            ≡ (e, done body))
          × Progress c disk kept (length chunks) body e
    chunks_sent d p =
        let (e, h, q) =
          send_chunks-accepted crypto srv key prefix ses.upload_id size (Progress c disk kept)
            (λ i plain h s fits p'.
              let w = chunk_wire crypto key prefix i plain in
              let (t, e, q) =
                chunk_served net c disk cfg ip digits ses works opts len size i w h s valid_upload
                  (written_digits i) (chosen_size-pos opts len)
                  (omega (arith, length-chunk_wire crypto key prefix eight i plain)) p' in
              (t, pos i, ap replied e, q))
            (suc len) 0 data' [] d (chosen_size-pos opts len) (omega arith) p in
        let z : 0 + length chunks ≡ length chunks = omega arith in (e, h, rw (sym z) q)

    total_chunks : expected_chunks (pos len) size ≡ pos (length chunks)
    total_chunks =
        expected_chunks-pos net c disk cfg ip digits ses len size (chosen_size-pos opts len) modest
        ∙ ap pos
            (sym (length-pieces_of (suc len) size data' (chosen_size-pos opts len) (omega arith)))

    -- The part of an upload after the first answer.
    rest_served :
        (d : disk.State)
        → Progress c disk kept 0 [] d
        → (e : disk.State) × (finalized crypto srv key name nonce ses.upload_id
              (send_chunks crypto srv key prefix ses.upload_id size false (suc len) 0 data' [] d)
            ≡ (e, done result))
          × Stored c disk works sidecar body e
    rest_served d p =
        let (e, h, q) = chunks_sent d p in
        let (t, h', s) =
          complete_served net c disk cfg ip digits ses works opts len size (length chunks) body
            (crypto.to_hex (crypto.seal key nonce name)) (crypto.to_hex nonce)
            (crypto.to_hex (crypto.sha256 body)) e valid_upload
            (hex_some crypto (crypto.seal key nonce name)
              (omega (arith, crypto.length-seal key nonce name)))
            (hex_some crypto (crypto.sha256 body) (omega (arith, crypto.length-sha256 body)))
            total_chunks q in
        (t, rw h (ap (λ x. upload_completed crypto srv key (replied x)) h'), s)

    upload_served :
        (d : disk.State)
        → authorize_upload net cfg ip ses.password [] ≡ true
        → ltb_ℤ cfg.max_size (pos len) ≡ false
        → (e : disk.State) × (upload crypto srv
              (record { key = some key; name_nonce = some nonce; nonce_prefix = some prefix })
              name
              (pos len)
              opts
              false
              data'
              d
            ≡ (e, done result))
          × Stored c disk works sidecar body e
    unfolding upload
    upload_served d auth small =
        let (d', h, p) =
          init_served net c disk cfg ip digits ses works opts len size d auth some' small
            (chosen_size-pos opts len) at_most in
        let (e, h', s) = rest_served d' p in
        let agreed : ltb_ℤ (pos 0) (pos size) ≡ true = ground (arith, chosen_size-pos opts len) in
        (e, rw (h, agreed) h', s)

    response_one_less :
        (b : Bytes) (m : FileMeta)
        → response_of c disk (answer (record { meta = one_less m; content = b }))
          ≡ response_of c disk (answer (record { meta = m; content = b }))
    response_one_less b m = elim (Bool-cases (ltb_ℤ (pos 0) m.downloads_left)) [
      | inl e ↦ rw e refl
      | inr e ↦ rw e refl
    ]

    -- What the client makes of the answer to a download.
    downloaded :
        (meta : PublicMeta) (can_write : ℕ → Bool)
        → length key ≡ 32
        → length nonce ≡ 12
        → ((i : ℕ) → can_write i ≡ true)
        → download crypto
            (crypto.to_hex key)
            meta
            can_write
            (response_of c disk (answer (record { meta = one_less sidecar; content = body })))
          ≡ written name data'
    downloaded meta can_write k n writes = rw (response_one_less body sidecar) (
        download-sent crypto key nonce prefix name data' size eight (chosen_size-pos opts len)
          (omega arith) can_write writes meta (expected_chunks (pos len) size) total_chunks k n)

    handle_download-sidecar :
        (ip' : Option net.Ip) (later : ℕ) (e : disk.State)
        → valid_id ses.file_id ≡ true
        → ip_allowed_to_download net cfg ip' ≡ true
        → later ≤ kept.expires_at
        → Stored c disk works sidecar body e
        → (handle_download c disk net cfg ip' ses.file_id later e).1
          ≡ answer (record { meta = one_less sidecar; content = body })
    unfolding handle_download
    handle_download-sidecar ip' later e v allowed live s =
        let l : ltb kept.expires_at later ≡ false = ground arith in
        rw allowed (
          download_answer_done c disk net works _ _ (
            open_download_done c disk works sidecar body later e v l
              (left_at_first c disk works kept.max_downloads) s))

-- What the client uploads is what a client with the key downloads, through the server: let no call of
-- the server's file system fail, its random identifiers be well-formed, the client be allowed to upload
-- and the other one to download, the file be neither empty nor over the limit of the server, and the
-- chunk size asked for at most 2 MiB. Then the upload succeeds, and until the file expires the next
-- download with the key from the result gives the name and exactly the bytes of the file, whatever
-- sidecar the client has fetched.
pub download-upload :
    (net : Addresses) (c : Codec) (disk : Disk) (works : Works disk) (cfg : Config net)
    (ip ip' : Option net.Ip) (digits : ℕ → Bytes) (ses : Session) (crypto : Crypto)
    (key nonce prefix name : Bytes) (opts : UploadOptions) (data' : Bytes) (meta : PublicMeta)
    (can_write : ℕ → Bool) (later : ℕ) (d : disk.State)
    → ((i : ℕ) → 0 < length (digits i))
    → valid_id ses.upload_id ≡ true
    → valid_id ses.file_id ≡ true
    → length key ≡ 32
    → length nonce ≡ 12
    → length prefix ≡ 8
    → authorize_upload net cfg ip ses.password [] ≡ true
    → ip_allowed_to_download net cfg ip' ≡ true
    → 0 < length data'
    → length data' < 2 ^ 62
    → ltb_ℤ cfg.max_size (pos (length data')) ≡ false
    → opts.chunk_size ≤ℤ pos max_chunk_size
    → later
      ≤ (kept_meta net c disk cfg ip digits ses opts
          (length data')
          (chosen_size opts (pos (length data')))).expires_at
    → ((i : ℕ) → can_write i ≡ true)
    → let up =
        upload crypto
          (served net c disk cfg ip digits ses)
          (record { key = some key; name_nonce = some nonce; nonce_prefix = some prefix })
          name
          (pos (length data'))
          opts
          false
          data'
          d in
      (up.1
        ≡ done (record {
          file_id = ses.file_id;
          key_hex = crypto.to_hex key;
          delete_key = ses.delete_key;
          expires_at =
              (kept_meta net c disk cfg ip digits ses opts
                (length data')
                (chosen_size opts (pos (length data')))).expires_at;
        }))
      × (download crypto
            (crypto.to_hex key)
            meta
            can_write
            (response_of c disk (handle_download c disk net cfg ip' ses.file_id later up.0).1)
          ≡ written name data')
download-upload net c disk works cfg ip ip' digits ses crypto key nonce prefix name opts data' meta
      can_write later d dig v vf k n eight auth allowed some' modest small asked live writes =
    let cs = chosen_size opts (pos (length data')) in
    let at_most : cs ≤ max_chunk_size = chosen_size-le opts (length data') asked in
    let (e, h, s) =
      upload_served net c disk works cfg ip digits dig ses crypto key nonce prefix name opts data'
        eight v some' (omega arith) at_most d auth small in
    let r =
      handle_download-sidecar net c disk works cfg ip digits dig ses crypto key nonce prefix name
        opts data' eight v some' (omega arith) at_most ip' later e vf allowed live s in
    rw h (
      refl,
      rw r (
          downloaded net c disk works cfg ip digits dig ses crypto key nonce prefix name opts data'
            eight v some' (omega arith) at_most meta can_write k n writes),
    )
