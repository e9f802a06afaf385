-- ===== src/Schedule/Handler.antt =====
-- The requests of internal/schedule/handler.go, over the store. An answer is what is written as JSON
-- with the status 200, or else another status.
use gmmff.Prelude.{
  ℕ, suc, ◌*◌, ◌/◌, Bool, true, false, not, ◌&&◌, ◌||◌, [], Option, none, some, ltb, if◌then◌else◌,
}
use gmmff.Prelude.Int.{eq_ℤ, ℤ, pos, negsuc, pos_part, ltb_ℤ, ◌+ℤ◌, ◌-ℤ◌, ◌*ℤ◌}
use gmmff.Prelude.Bytes.{Bytes, bytes_eq}
use gmmff.Schedule.Disk.{Disk}
use gmmff.Schedule.Meta.{UploadMeta, Codec, default_chunk_size}
use gmmff.Schedule.Store.{Result, ok, err, init_upload}
use gmmff.Schedule.Config.{Addresses, Config, is_empty, to_int64, ip_allowed_to_upload, max_ttl}

pub data Reply (A : Type 0) : Type 0 where
  answer : A → Reply A
  refused : (status : ℕ) → Reply A

pub record AuthResponse : Type 0 where
  pub allowed : Bool
  pub needs_password : Bool

pub record InitRequest : Type 0 where
  pub chunks_total : ℤ
  pub total_size : ℤ
  pub ttl_seconds : ℤ
  pub max_downloads : ℤ
  pub chunk_size : ℤ

pub record InitResponse : Type 0 where
  pub upload_id : Bytes
  pub expires_at : ℕ
  pub chunk_size : ℤ

pub record CompleteRequest : Type 0 where
  pub upload_id : Bytes
  pub file_name_enc : Bytes
  pub file_name_nonce : Bytes
  pub sha256_cipher : Bytes

pub record CompleteResponse : Type 0 where
  pub file_id : Bytes
  pub delete_key : Bytes
  pub expires_at : ℕ

pub record PublicMeta : Type 0 where
  pub file_id : Bytes
  pub file_name_enc : Bytes
  pub file_name_nonce : Bytes
  pub total_size : ℤ
  pub chunks_total : ℤ
  pub chunk_size : ℤ
  pub expires_at : ℕ
  pub downloads_left : ℤ

abbrev pub second : ℕ
second = 1000000000

-- 2 MiB
abbrev pub max_chunk_size : ℕ
max_chunk_size = 2 * 1024 * 1024

-- How long an upload lives: what is asked for, or the longest option.
unfoldable pub clamp_ttl : (longest : ℕ) → ℤ → ℤ
unfolding to_int64
clamp_ttl longest asked =
    let ttl = to_int64 (asked *ℤ pos second) in
    if ltb 0 longest && (ltb_ℤ (pos (longest / second)) asked || not (ltb_ℤ (pos 0) ttl))
    then pos longest
    else ttl

unfoldable pub clamp_downloads : (most : ℤ) → ℤ → ℤ
clamp_downloads most asked =
    let max_dl = pos (pos_part asked) in
    if ltb_ℤ (pos 0) most && (eq_ℤ max_dl (pos 0) || ltb_ℤ most max_dl) then most else max_dl

unfoldable pub clamp_chunk_size : ℤ → ℕ
clamp_chunk_size asked =
    let cs = if ltb_ℤ (pos 0) asked then pos_part asked else default_chunk_size in
    if ltb max_chunk_size cs then max_chunk_size else cs

-- Division in int64, which cuts towards zero.
abbrev cut_div : ℤ → ℕ → ℤ
cut_div (pos n) d = pos (n / d)
cut_div (negsuc n) d = pos 0 -ℤ pos (suc n / d)

unfoldable pub expected_chunks : (total_size : ℤ) (cs : ℕ) → ℤ
unfolding to_int64
expected_chunks total_size cs = cut_div (to_int64 (total_size +ℤ pos cs -ℤ pos 1)) cs

module _ (net : Addresses) where
  open net use {Ip}

  -- handleAuth
  unfoldable pub handle_auth : Config net → Option Ip → AuthResponse
  unfolding ip_allowed_to_upload
  handle_auth cfg ip =
      if is_empty net cfg.upload_ips && bytes_eq cfg.upload_password []
      then record { allowed = true; needs_password = false }
      else if ip_allowed_to_upload net cfg ip && not (is_empty net cfg.upload_ips)
      then record { allowed = true; needs_password = false }
      else if not (bytes_eq cfg.upload_password [])
      then record { allowed = false; needs_password = true }
      else record { allowed = false; needs_password = false }

  -- authorizeUpload; the password is in a header or in the form.
  unfoldable pub authorize_upload : Config net → Option Ip → (header form : Bytes) → Bool
  unfolding ip_allowed_to_upload
  authorize_upload cfg ip header form =
      if is_empty net cfg.upload_ips && bytes_eq cfg.upload_password []
      then true
      else if not (is_empty net cfg.upload_ips) && ip_allowed_to_upload net cfg ip
      then true
      else if not (bytes_eq cfg.upload_password [])
      then bytes_eq (if bytes_eq header [] then form else header) cfg.upload_password
      else false

  module _ (c : Codec) (disk : Disk) where
    open disk use {State}

    abbrev pub init_answer : ℤ → State × Result UploadMeta → State × Reply InitResponse
    init_answer cs (d, ok m) =
        (d, answer (record { upload_id = m.upload_id; expires_at = m.expires_at; chunk_size = cs }))
    init_answer cs (d, err e) = (d, refused 500)

    abbrev init_decoded :
        Config net → Option Bytes → (now : ℕ) → InitRequest → State → State × Reply InitResponse
    init_decoded cfg id now req d =
        let cs = clamp_chunk_size req.chunk_size in
        if not (ltb_ℤ (pos 0) req.total_size)
        then (d, refused 400)
        else if ltb_ℤ cfg.max_size req.total_size
        then (d, refused 413)
        else if not (ltb_ℤ (pos 0) req.ttl_seconds)
        then (d, refused 400)
        else if not (eq_ℤ req.chunks_total (expected_chunks req.total_size cs))
        then (d, refused 400)
        else init_answer (pos cs) (
            init_upload c disk id req.chunks_total req.total_size
              (pos_part (pos now +ℤ clamp_ttl (max_ttl cfg.ttl_options) req.ttl_seconds))
              (clamp_downloads cfg.max_downloads req.max_downloads) (pos cs) now d)

    -- handleUploadInit. A time before 1970 is kept as 0.
    unfoldable pub handle_upload_init :
        Config net
        → Option Ip
        → (header form : Bytes) → Option InitRequest
        → Option Bytes
        → (now : ℕ) → State
        → State × Reply InitResponse
    unfolding authorize_upload
    handle_upload_init cfg ip header form none id now d =
        if authorize_upload cfg ip header form then (d, refused 400) else (d, refused 403)
    handle_upload_init cfg ip header form (some req) id now d =
        if authorize_upload cfg ip header form
        then init_decoded cfg id now req d
        else (d, refused 403)
