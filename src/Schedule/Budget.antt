-- ===== src/Schedule/Budget.antt =====
-- How often an upload of internal/schedule/store.go is downloaded: the counter in its sidecar over any
-- history of requests, with a file system that may fail at every call.
use gmmff.Prelude.{
  ◌≡◌, ◌≢◌, refl, sym, ap, ◌∙◌, inl, inr, ℕ, ◌+◌, ◌-◌, ◌≤◌, ◌<◌, true, false, arith, Bool-cases,
  if◌then◌else◌, ltb,
}
use gmmff.Prelude.Int.{eq_ℤ, pos, ltb_ℤ, ◌-ℤ◌}
use gmmff.Prelude.Bytes.{Bytes, bytes_eq, bytes_eq_iff}
use gmmff.Schedule.Disk.{complete, data_enc, file, Read, got, not_exist, unreadable, Disk}
use gmmff.Schedule.Meta.{FileMeta, Codec}
use gmmff.Schedule.Store.{
  Result, ok, err, read_file_meta, write_file_meta, Opened, opened, download_read, open_download,
}
use gmmff.Schedule.Files.{
  read_file_meta-write, read_file_meta-written, checked_done, checked_failed,
}

module _ (c : Codec) (disk : Disk) where
  open disk use {State, read, write, remove_all}

  -- Every sidecar names its directory, and that of `fid` leaves at most `n` downloads.
  pub record Budget (fid : Bytes) (n : ℕ) (d : State) : Type 0 where
    pub named : (j : Bytes) (x : FileMeta) → read_file_meta c disk j d ≡ ok x → x.file_id ≡ j
    pub left :
        (x : FileMeta)
        → read_file_meta c disk fid d ≡ ok x
        → (k : ℕ) × (x.downloads_left ≡ pos k) × (k ≤ n)

  -- One download that succeeds.
  abbrev pub counted : Bytes → Bytes → Result (Opened c disk) → ℕ
  counted fid id (err e) = 0
  counted fid id (ok o) = if bytes_eq id fid then 1 else 0

  -- A state with no sidecars but those of another.
  abbrev pub Fewer : State → State → Type 0
  Fewer d e =
      (j : Bytes) (x : FileMeta)
      → read_file_meta c disk j e ≡ ok x
      → read_file_meta c disk j d ≡ ok x

  module _ (fid : Bytes) (n : ℕ) (d : State) (v : Budget fid n d) where
    pub Fewer-Budget : (e : State) → Fewer d e → Budget fid n e
    Fewer-Budget e h = record {
      named = λ j x r. v.named j x (h j x r);
      left = λ x r. v.left x (h fid x r);
    }

    write_named :
        (m : FileMeta) (j : Bytes) (x : FileMeta)
        → read_file_meta c disk j (write_file_meta c disk m d).0 ≡ ok x
        → x.file_id ≡ j
    write_named m j x r = elim (read_file_meta-write c disk m x j d r) [
      | inl (e, i) ↦ rw (e, i) refl
      | inr old ↦ v.named j x old
    ]

    -- A sidecar of another upload is written.
    pub write_other : (m : FileMeta) → m.file_id ≢ fid → Budget fid n (write_file_meta c disk m d).0
    write_other m ne = record {
      named = write_named m;
      left = λ x r. elim (read_file_meta-write c disk m x fid d r) [
        | inl (e, i) ↦ absurd (ne (sym i))
        | inr old ↦ v.left x old
      ];
    }

    module _ (m : FileMeta) (k : ℕ) (here : m.file_id ≡ fid) (few : m.downloads_left ≡ pos k) where
      -- The sidecar of `fid` is written; if the write succeeds, then it says what is left.
      write_own_any : k ≤ n → Budget fid n (write_file_meta c disk m d).0
      write_own_any le = record {
        named = write_named m;
        left = λ x r. elim (read_file_meta-write c disk m x fid d r) [
          | inl (e, i) ↦ (k, ap (λ (y : FileMeta). y.downloads_left) e ∙ few, le)
          | inr old ↦ v.left x old
        ];
      }

      write_own_done :
          (p : ℕ)
          → k ≤ p
          → (write_file_meta c disk m d).1 ≡ true
          → Budget fid p (write_file_meta c disk m d).0
      write_own_done p le w = record {
        named = write_named m;
        left = λ x r.
            let e =
              read_file_meta-written c disk m x d w
                (ap (λ i. read_file_meta c disk i (write_file_meta c disk m d).0) here ∙ r) in
            (k, ap (λ (y : FileMeta). y.downloads_left) e ∙ few, le);
      }

  -- What a request leaves of the budget, with what it took.
  abbrev pub Spent : (fid : Bytes) → ℕ → ℕ → State → Type 0
  Spent fid n took d = (p : ℕ) × (Budget fid p d × (took + p ≤ n))

  pub none_taken : (fid : Bytes) (n : ℕ) (d : State) → Budget fid n d → Spent fid n 0 d
  none_taken fid n d v = (n, (v, omega arith))

  module _ (fid id : Bytes) (n : ℕ) (d : State) (v : Budget fid n d) where
    abbrev SpentBy : State × Result (Opened c disk) → Type 0
    SpentBy q = Spent fid n (counted fid id q.1) q.0

    opened_own :
        (m : FileMeta) (b : Bytes) (k : ℕ)
        → id ≡ fid
        → m.file_id ≡ fid
        → m.downloads_left ≡ pos k
        → 0 < k
        → k ≤ n
        → SpentBy (opened c disk m d (got b))
    opened_own m b k i e few some_left le =
        let m' = record m { downloads_left = m.downloads_left -ℤ pos 1 } in
        let test : ltb_ℤ (pos 0) m.downloads_left ≡ true = rw few (ground arith) in
        let less : m'.downloads_left ≡ pos (k - 1) = rw few (unfold ◌-ℤ◌ in ground arith) in
        let o : Opened c disk = record { meta = m'; content = b } in
        elim (Bool-cases (write_file_meta c disk m' d).1) [
          | inl w ↦
              rw
                (
                  test,
                  checked_done c disk o (write_file_meta c disk m' d) w,
                  (bytes_eq_iff id fid).1 i,
                )
                (
                  n - 1,
                  (write_own_done fid n d v m' (k - 1) e less (n - 1) (omega arith) w, omega arith),
                )
          | inr w ↦
              rw (test, checked_failed c disk o (write_file_meta c disk m' d) w)
                (none_taken fid n (write_file_meta c disk m' d).0
                  (write_own_any fid n d v m' (k - 1) e less (omega arith)))
        ]

    opened_other :
        (m : FileMeta) (b : Bytes)
        → id ≢ fid
        → m.file_id ≢ fid
        → SpentBy (opened c disk m d (got b))
    opened_other m b i e =
        let m' = record m { downloads_left = m.downloads_left -ℤ pos 1 } in
        let o : Opened c disk = record { meta = m'; content = b } in
        let other : bytes_eq id fid ≡ false = ground (arith, bytes_eq_iff id fid) in
        elim (Bool-cases (ltb_ℤ (pos 0) m.downloads_left)) [
          | inl test ↦ elim (Bool-cases (write_file_meta c disk m' d).1) [
            | inl w ↦
                rw (test, checked_done c disk o (write_file_meta c disk m' d) w, other)
                  (none_taken fid n (write_file_meta c disk m' d).0 (write_other fid n d v m' e))
            | inr w ↦
                rw (test, checked_failed c disk o (write_file_meta c disk m' d) w)
                  (none_taken fid n (write_file_meta c disk m' d).0 (write_other fid n d v m' e))
          ]
          | inr test ↦ rw (test, other) (none_taken fid n d v)
        ]

    opened-Spent :
        (m : FileMeta) (r : Read Bytes)
        → read_file_meta c disk id d ≡ ok m
        → eq_ℤ m.downloads_left (pos 0) ≡ false
        → SpentBy (opened c disk m d r)
    opened-Spent m not_exist h z = none_taken fid n d v
    opened-Spent m unreadable h z = none_taken fid n d v
    opened-Spent m (got b) h z =
        let own = v.named id m h in
        elim (Bool-cases (bytes_eq id fid)) [
          | inl e ↦
              let i = (bytes_eq_iff id fid).0 e in
              let (k, few, le) = v.left m (ap (λ j. read_file_meta c disk j d) (sym i) ∙ h) in
              opened_own m b k i (own ∙ i) few (ground (arith, z)) le
          | inr e ↦
              let i : id ≢ fid = ground (arith, bytes_eq_iff id fid) in
              opened_other m b i (λ q. i (sym own ∙ q))
        ]

    download_read-Spent :
        (now : ℕ) (r : Result FileMeta)
        → read_file_meta c disk id d ≡ r
        → SpentBy (download_read c disk id now d r)
    download_read-Spent now (err e) h = none_taken fid n d v
    download_read-Spent now (ok m) h = elim (Bool-cases (ltb m.expires_at now)) [
      | inl a ↦ rw a (none_taken fid n d v)
      | inr a ↦ elim (Bool-cases (eq_ℤ m.downloads_left (pos 0))) [
        | inl z ↦ rw (a, z) (none_taken fid n d v)
        | inr z ↦ rw (a, z) (opened-Spent m (read (file complete id data_enc) d) h z)
      ]
    ]

    pub open_download-Spent : (now : ℕ) → SpentBy (open_download c disk id now d)
    unfolding open_download
    open_download-Spent now = download_read-Spent now (read_file_meta c disk id d) refl
