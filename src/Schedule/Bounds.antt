-- ===== src/Schedule/Bounds.antt =====
-- What handleUploadInit in internal/schedule/handler.go lets an upload ask for.
use native.Mathlib.Nat.{div-add-mod', mod-lt}
use gmmff.Prelude.{
  ◌≡◌, refl, ap, ◌∙◌, ◌⊎◌, inl, inr, ◌≤◌, ◌<◌, ℕ, ◌+◌, ◌-◌, ◌*◌, ◌/◌, ◌^◌, true, false, ◌||◌,
  Option, none, some, ltb, arith, Bool-cases,
}
use gmmff.Prelude.Int.{eq_ℤ, ℤ, pos, negsuc, pos_part, ltb_ℤ, ◌+ℤ◌, ◌-ℤ◌, ◌*ℤ◌, ◌≤ℤ◌}
use gmmff.Prelude.Bytes.{Bytes}
use gmmff.Schedule.Disk.{Disk}
use gmmff.Schedule.Meta.{Codec}
use gmmff.Schedule.Store.{init_upload}
use gmmff.Schedule.Begun.{Begun, init_upload-Begun}
use gmmff.Schedule.Config.{Addresses, Config, to_int64, max_ttl}
use gmmff.Schedule.Handler.{
  Reply, refused, InitRequest, InitResponse, second, max_chunk_size, clamp_ttl, clamp_downloads,
  clamp_chunk_size, expected_chunks, authorize_upload, init_answer, handle_upload_init,
}

to_int64_small : (n : ℕ) → n < 2 ^ 63 → to_int64 (pos n) ≡ pos n
unfolding to_int64
to_int64_small n h = ground arith

mul_pos : (a b : ℕ) → pos a *ℤ pos b ≡ pos (a * b)
unfolding ◌*ℤ◌
mul_pos a b = ground arith

-- With a longest option that fits in int64, an upload lives for some time and at most that long.
clamp_ttl_le :
    (longest a : ℕ)
    → 0 < longest
    → longest < 2 ^ 63
    → 0 < a
    → (t : ℕ) × (clamp_ttl longest (pos a) ≡ pos t) × (0 < t) × (t ≤ longest)
unfolding clamp_ttl
clamp_ttl_le longest a lp ll ap =
    let set : ltb 0 longest ≡ true = ground arith in
    elim (Bool-cases (ltb_ℤ (pos (longest / second)) (pos a))) [
      | inl e ↦ (longest, rw (set, e) refl, omega arith, omega arith)
      | inr e ↦
          let le : a ≤ longest / second = ground arith in
          let small : a * second ≤ longest = omega arith in
          let positive : ltb_ℤ (pos 0) (pos (a * second)) ≡ true = ground arith in
          (
            a * second,
            rw (mul_pos a second, to_int64_small (a * second) (omega arith), set, e, positive) refl,
            omega arith,
            small,
          )
    ]

clamp_chunk_size_le : (z : ℤ) → (0 < clamp_chunk_size z) × (clamp_chunk_size z ≤ max_chunk_size)
unfolding clamp_chunk_size
clamp_chunk_size_le z = ground arith

clamp_downloads_nonneg :
    (most z : ℤ)
    → (n : ℕ) × (clamp_downloads most z ≡ pos n)
      × (ltb_ℤ (pos 0) most ≡ true → (0 < n) × (pos n ≤ℤ most))
unfolding clamp_downloads
clamp_downloads_nonneg most z =
    let dl = pos_part z in
    elim (Bool-cases (ltb_ℤ (pos 0) most)) [
      | inr e ↦ (dl, rw e refl, λ h. cc (h, e))
      | inl e ↦ elim (Bool-cases (eq_ℤ (pos dl) (pos 0) || ltb_ℤ most (pos dl))) [
        | inl o ↦ (pos_part most, rw (e, o) (ground arith), λ h. (ground arith, ground arith))
        | inr o ↦ (dl, rw (e, o) refl, λ h. (ground arith, ground arith))
      ]
    ]

-- Rounding up: `n` chunks of the size `cs` are enough for `s` bytes, and one less is not.
round_up :
    (s cs : ℕ) → 0 < s → 0 < cs → (s ≤ (s + cs - 1) / cs * cs) × ((s + cs - 1) / cs * cs < s + cs)
round_up s cs sp cp =
    let e = div-add-mod' (s + cs - 1) cs in
    let l = mod-lt (s + cs - 1) cp in (omega arith, omega arith)

sum_less : (s cs : ℕ) → 0 < s → pos s +ℤ pos cs -ℤ pos 1 ≡ pos (s + cs - 1)
unfolding ◌+ℤ◌ ◌-ℤ◌
sum_less s cs h = ground arith

expected_chunks_up :
    (s cs : ℕ)
    → 0 < s
    → 0 < cs
    → s + cs ≤ 2 ^ 63
    → expected_chunks (pos s) cs ≡ pos ((s + cs - 1) / cs)
unfolding expected_chunks
expected_chunks_up s cs sp cp h =
    rw (sum_less s cs sp, to_int64_small (s + cs - 1) (omega arith)) refl

positive : (z : ℤ) → ltb_ℤ (pos 0) z ≡ true → (n : ℕ) × (z ≡ pos n) × (0 < n)
positive (pos n) h = (n, refl, ground arith)
positive (negsuc n) h = ground arith

eq_ℤ_same : (x y : ℤ) → eq_ℤ x y ≡ true → x ≡ y
eq_ℤ_same x y h = ground arith

fits : (m z : ℤ) (s : ℕ) → z ≡ pos s → ltb_ℤ m z ≡ false → pos s ≤ℤ m
fits m z s e h = ground (arith, e)

add_pos : (a b : ℕ) → pos_part (pos a +ℤ pos b) ≡ a + b
unfolding ◌+ℤ◌
add_pos a b = ground arith

module _ (net : Addresses) where
  -- What an upload asks for, within the limits of the configuration.
  pub record Permitted (cfg : Config net) (now size n expires downloads cs : ℕ) : Type 0 where
    pub size_ok : (0 < size) × (pos size ≤ℤ cfg.max_size)
    pub cs_ok : (0 < cs) × (cs ≤ max_chunk_size)
    pub enough : (size ≤ n * cs) × (n * cs < size + cs)
    pub lives :
        0 < max_ttl cfg.ttl_options → (now < expires) × (expires ≤ now + max_ttl cfg.ttl_options)
    pub limited :
        ltb_ℤ (pos 0) cfg.max_downloads ≡ true
        → (0 < downloads) × (pos downloads ≤ℤ cfg.max_downloads)

  module _ (c : Codec) (disk : Disk) where
    open disk use {State}

    -- A refusal that leaves the state as it is, or a permitted upload that is stored or answered with
    -- the status 500.
    abbrev pub RefusedOrPermitted :
        Config net → Option Bytes → ℕ → State → State × Reply InitResponse → Type 0
    RefusedOrPermitted cfg id now d q =
        ((status : ℕ) × (q ≡ (d, refused status)))
        ⊎ ((size : ℕ) × ((n : ℕ) × ((expires : ℕ) × ((dl : ℕ) × ((cs : ℕ) × (Permitted cfg now size
                        n expires dl cs
                      × Begun net c disk id (pos n) (pos size) expires (pos dl) (pos cs) now d
                          q))))))

    lifetime :
        (cfg : Config net) (now a : ℕ)
        → max_ttl cfg.ttl_options < 2 ^ 63
        → 0 < a
        → 0 < max_ttl cfg.ttl_options
        → let e = pos_part (pos now +ℤ clamp_ttl (max_ttl cfg.ttl_options) (pos a)) in
          (now < e) × (e ≤ now + max_ttl cfg.ttl_options)
    lifetime cfg now a ll ap lp =
        let (t, h, tp, le) = clamp_ttl_le (max_ttl cfg.ttl_options) a lp ll ap in
        rw (h, add_pos now t) (omega arith, omega arith)

    permitted :
        (cfg : Config net) (id : Option Bytes) (now : ℕ) (d : State) (req : InitRequest) (s a : ℕ)
        → cfg.max_size ≤ℤ pos (2 ^ 63 - max_chunk_size)
        → max_ttl cfg.ttl_options < 2 ^ 63
        → req.total_size ≡ pos s
        → 0 < s
        → pos s ≤ℤ cfg.max_size
        → req.ttl_seconds ≡ pos a
        → 0 < a
        → req.chunks_total ≡ expected_chunks (pos s) (clamp_chunk_size req.chunk_size)
        → let cs = clamp_chunk_size req.chunk_size in
          RefusedOrPermitted cfg id now d (
            init_answer net c disk (pos cs) (
              init_upload c disk id req.chunks_total req.total_size
                (pos_part (pos now +ℤ clamp_ttl (max_ttl cfg.ttl_options) req.ttl_seconds))
                (clamp_downloads cfg.max_downloads req.max_downloads)
                (pos cs)
                now
                d))
    permitted cfg id now d req s a hm ht es sp sm ea ap et =
        let cs = clamp_chunk_size req.chunk_size in
        let (cp, cl) = clamp_chunk_size_le req.chunk_size in
        let (dl, edl, few) = clamp_downloads_nonneg cfg.max_downloads req.max_downloads in
        let n = (s + cs - 1) / cs in
        let e = pos_part (pos now +ℤ clamp_ttl (max_ttl cfg.ttl_options) (pos a)) in
        let et' : req.chunks_total ≡ pos n = et ∙ expected_chunks_up s cs sp cp (omega arith) in
        let p : Permitted cfg now s n e dl cs = record {
          size_ok = (sp, sm);
          cs_ok = (cp, cl);
          enough = round_up s cs sp cp;
          lives = lifetime cfg now a ht ap;
          limited = few;
        } in
        rw (et', es, ea, edl)
          (inr (
            s,
            (
              n,
              (
                e,
                (
                  dl,
                  (
                    cs,
                    (p, init_upload-Begun net c disk id (pos n) (pos s) e (pos dl) (pos cs) now d),
                  ),
                ),
              ),
            ),
          ))

    -- Let the largest size leave room for a chunk in int64, and the longest option be an int64. Then
    -- the first request of an upload either is refused before the file system is called and changes
    -- nothing, or asks for an upload within the limits: of a positive size up to the largest, in chunks
    -- of at most 2 MiB whose number is the size divided by that of a chunk and rounded up, with an
    -- expiry after the present and at most the longest option from it, and, where there is a limit on
    -- downloads, with at least one and at most that many. Such an upload is stored with exactly these
    -- limits in its sidecar and with an empty file, and the answer names it; or the answer is the
    -- status 500, and the call that failed may have left a part of the two files behind. No file of
    -- another upload changes.
    pub handle_upload_init-RefusedOrPermitted :
        (cfg : Config net) (ip : Option net.Ip) (header form : Bytes) (body : Option InitRequest)
        (id : Option Bytes) (now : ℕ) (d : State)
        → cfg.max_size ≤ℤ pos (2 ^ 63 - max_chunk_size)
        → max_ttl cfg.ttl_options < 2 ^ 63
        → RefusedOrPermitted cfg id now d
            (handle_upload_init net c disk cfg ip header form body id now d)
    unfolding handle_upload_init
    handle_upload_init-RefusedOrPermitted cfg ip header form none id now d hm ht =
        elim (Bool-cases (authorize_upload net cfg ip header form)) [
          | inl a ↦ rw a (inl (400, refl))
          | inr a ↦ rw a (inl (403, refl))
        ]
    handle_upload_init-RefusedOrPermitted cfg ip header form (some req) id now d hm ht =
        let cs = clamp_chunk_size req.chunk_size in
        elim (Bool-cases (authorize_upload net cfg ip header form)) [
          | inr a ↦ rw a (inl (403, refl))
          | inl a ↦ elim (Bool-cases (ltb_ℤ (pos 0) req.total_size)) [
            | inr t ↦ rw (a, t) (inl (400, refl))
            | inl t ↦ elim (Bool-cases (ltb_ℤ cfg.max_size req.total_size)) [
              | inl u ↦ rw (a, t, u) (inl (413, refl))
              | inr u ↦ elim (Bool-cases (ltb_ℤ (pos 0) req.ttl_seconds)) [
                | inr v ↦ rw (a, t, u, v) (inl (400, refl))
                | inl v ↦
                    elim (Bool-cases (eq_ℤ req.chunks_total (expected_chunks req.total_size cs))) [
                      | inr w ↦ rw (a, t, u, v, w) (inl (400, refl))
                      | inl w ↦
                          let (s, es, sp) = positive req.total_size t in
                          let (b, eb, bp) = positive req.ttl_seconds v in
                          rw (a, t, u, v, w)
                            (permitted cfg id now d req s b hm ht es sp
                              (fits cfg.max_size req.total_size s es u) eb bp
                              (eq_ℤ_same req.chunks_total (expected_chunks req.total_size cs) w
                                ∙ ap (λ z. expected_chunks z cs) es))
                    ]
              ]
            ]
          ]
        ]
