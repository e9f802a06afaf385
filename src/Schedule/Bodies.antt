-- ===== src/Schedule/Bodies.antt =====
-- What the download request of internal/schedule/handler.go promises.
use gmmff.Prelude.{◌≡◌, inl, inr, ℕ, Option, ltb, Bool-cases}
use gmmff.Prelude.Int.{eq_ℤ, pos}
use gmmff.Prelude.Bytes.{Bytes}
use gmmff.Schedule.Disk.{Disk, file, complete, data_enc, got}
use gmmff.Schedule.Meta.{FileMeta, Codec}
use gmmff.Schedule.Store.{
  Result, ok, err, Opened, opened, open_download, read_file_meta, download_read,
}
use gmmff.Schedule.Uploads.{Works}
use gmmff.Schedule.Download.{one_less, opened_done}
use gmmff.Schedule.Config.{Addresses, Config, ip_allowed_to_download}
use gmmff.Schedule.Handler.{Reply, answer, refused, PublicMeta}
use gmmff.Schedule.Requests.{
  public_meta, meta_answer, download_answer, handle_meta, handle_download,
}

refused-not_answer : {A : Type 0} (n : ℕ) (x : A) → ¬ (refused n ≡ answer x)
refused-not_answer n x h = cc

answer-same : {A : Type 0} (x y : A) → answer x ≡ answer y → x ≡ y
answer-same x y h = cc

module _ (c : Codec) (disk : Disk) where
  open disk use {State, read}

  module _ (net : Addresses) (works : Works disk) where
    -- The download of an upload whose public sidecar is `p`.
    abbrev pub Downloads : PublicMeta → Bytes → State × Reply (Opened c disk) → Type 0
    Downloads p b q =
        (m : FileMeta) × ((public_meta c disk m ≡ p)
          × (q.1 ≡ answer (record { meta = one_less m; content = b })))

    pub download_answer_done :
        (q : State × Result (Opened c disk)) (o : Opened c disk)
        → q.1 ≡ ok o
        → (download_answer c disk q).1 ≡ answer o
    download_answer_done (d, ok o') o h = cc
    download_answer_done (d, err e) o h = cc

    download_read-Downloads :
        (id : Bytes) (now : ℕ) (b : Bytes) (d : State) (p : PublicMeta) (r : Result FileMeta)
        → read (file complete id data_enc) d ≡ got b
        → meta_answer c disk now r ≡ answer p
        → Downloads p b (download_answer c disk (download_read c disk id now d r))
    download_read-Downloads id now b d p (err e) hc h = cc
    download_read-Downloads id now b d p (ok m) hc h = elim (Bool-cases (ltb m.expires_at now)) [
      | inl e ↦ absurd (refused-not_answer 410 p (rw e at h))
      | inr e ↦ elim (Bool-cases (eq_ℤ m.downloads_left (pos 0))) [
        | inl z ↦ absurd (refused-not_answer 410 p (rw (e, z) at h))
        | inr z ↦
            rw (e, z, hc)
              (
                m,
                (
                  answer-same (public_meta c disk m) p (rw (e, z) at h),
                  download_answer_done (opened c disk m d (got b))
                      (record { meta = one_less m; content = b }) (opened_done c disk works m b d),
                ),
              )
      ]
    ]

    -- If the request for the sidecar is answered, the content can be read and no call of the file
    -- system fails, then a download by the same caller at that time is answered too, with that content.
    pub handle_download-handle_meta :
        (cfg : Config net) (ip : Option net.Ip) (id : Bytes) (now : ℕ) (b : Bytes) (d : State)
        (p : PublicMeta)
        → read (file complete id data_enc) d ≡ got b
        → handle_meta c disk net cfg ip id now d ≡ answer p
        → Downloads p b (handle_download c disk net cfg ip id now d)
    unfolding handle_meta handle_download open_download
    handle_download-handle_meta cfg ip id now b d p hc h =
        elim (Bool-cases (ip_allowed_to_download net cfg ip)) [
          | inl a ↦
              rw a
                (download_read-Downloads id now b d p (read_file_meta c disk id d) hc (rw a at h))
          | inr a ↦ absurd (refused-not_answer 403 p (rw a at h))
        ]
