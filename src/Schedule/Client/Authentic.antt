-- ===== src/Schedule/Client/Authentic.antt =====
-- What Client.Download of internal/schedule/client.go writes when the server does not keep to the rules.
use mathlib.Core.List.{append_assoc, append-nil}
use gmmff.Prelude.{
  ℕ, zero, suc, ◌+◌, ◌<◌, ◌≤◌, ◌%◌, ◌^◌, ◌≡◌, ◌≢◌, refl, sym, ap, ◌∙◌, ◌⊎◌, inl, inr, Bool, List,
  [], ◌∷◌, ◌++◌, Option, none, some, ltb, ◌==◌, ==_iff, length, take, drop, take-append-drop,
  get_elem?, arith, Bool-cases, if◌then◌else◌,
}
use gmmff.Prelude.Bytes.{Bytes, bytes_eq, bytes_eq_iff}
use gmmff.Transfer.Delivery.{joined}
use gmmff.Schedule.Client.{Crypto, get_uint32, chunk_nonce}
use gmmff.Schedule.Client.Reading.{Reading, read_full, whole, short, at_end, failed}
use gmmff.Schedule.Client.Download.{
  DownloadError, Checked, opened, bad, opened_or, check_chunk, check_reading, rest_of, stream,
  Streamed,
}
use gmmff.Schedule.Client.Whole.{get_uint32-put_uint32, drop-chunk_nonce}

-- What the uploader sealed: the chunks `ps` under their nonces, and the name.
abbrev pub Sealed : (prefix name_nonce name : Bytes) → List Bytes → (nonce plain : Bytes) → Type 0
Sealed prefix name_nonce name ps nonce plain =
    ((i : ℕ) × (nonce ≡ chunk_nonce i prefix) × (get_elem? ps i ≡ some plain))
    ⊎ ((nonce ≡ name_nonce) × (plain ≡ name))

-- No piece of the body opens but what the uploader sealed: the server cannot forge.
unfoldable pub Unforged :
    (c : Crypto) → (key prefix name_nonce name : Bytes) → List Bytes → Bytes → Type 0
Unforged c key prefix name_nonce name ps body =
    (before nonce sealed behind plain : Bytes)
    → body ≡ before ++ (nonce ++ sealed) ++ behind
    → c.open_sealed key nonce sealed ≡ some plain
    → Sealed prefix name_nonce name ps nonce plain

-- The output is the first chunks, and all that were asked for if there was no problem.
abbrev pub IsPrefix : List Bytes → ℕ → Streamed → Type 0
IsPrefix ps n st =
    (k : ℕ) × (k ≤ length ps) × (st.output ≡ joined (take k ps)) × (st.problem ≡ none → k ≡ n)

-- A reading takes a piece off the front.
unfoldable Splits : Bytes → Reading → Type 0
Splits body (whole w rest) = body ≡ w ++ rest
Splits body (short w) = body ≡ w ++ []
Splits body at_end = Unit
Splits body failed = Unit

read_full-Splits :
    (size : ℕ) (broken : Bool) (body : Bytes) → Splits body (read_full size broken body)
unfolding Splits read_full
read_full-Splits size broken body = elim (Bool-cases (ltb (length body) size)) [
  | inr e ↦ rw e (sym (take-append-drop size body))
  | inl e ↦ elim (Bool-cases broken) [
    | inl b ↦ rw (e, b) tt
    | inr b ↦ elim (Bool-cases (length body == 0)) [
      | inl z ↦ rw (e, b, z) tt
      | inr z ↦ rw (e, b, z) (sym (append-nil body))
    ]
  ]
]

Checked-cases :
    (k : Checked)
    → ((p : Bytes) × (a : Bytes) × (k ≡ opened p a)) ⊎ ((e : DownloadError) × (k ≡ bad e))
Checked-cases (opened p a) = inl (p, a, refl)
Checked-cases (bad e) = inr (e, refl)

get_elem?-lt : (ps : List Bytes) (i : ℕ) (p : Bytes) → get_elem? ps i ≡ some p → i < length ps
get_elem?-lt [] i p e = cc
get_elem?-lt (q ∷ ps) zero p e = omega arith
get_elem?-lt (q ∷ ps) (suc i) p e = omega (arith, get_elem?-lt ps i p e)

joined-take :
    (ps : List Bytes) (i : ℕ) (p : Bytes)
    → get_elem? ps i ≡ some p
    → joined (take (suc i) ps) ≡ joined (take i ps) ++ p
unfolding joined
joined-take [] i p e = cc
joined-take (q ∷ ps) zero p e = let same : q ≡ p = cc in append-nil q ∙ same
joined-take (q ∷ ps) (suc i) p e =
    ap (λ x. q ++ x) (joined-take ps i p e) ∙ sym (append_assoc q (joined (take i ps)) p)

module _ (c : Crypto) (key prefix name_nonce name : Bytes) (ps : List Bytes)
    (eight : length prefix ≡ 8) (few : length ps < 2 ^ 32) (not_first : get_uint32 name_nonce ≢ 0)
    (apart : drop 4 name_nonce ≢ prefix) where
  -- A chunk that passes the checks is the one with that index.
  Sealed-at :
      (i : ℕ) (nonce plain : Bytes)
      → i ≤ length ps
      → get_uint32 nonce ≡ i % 2 ^ 32
      → (i ≡ 0) ⊎ (drop 4 nonce ≡ prefix)
      → Sealed prefix name_nonce name ps nonce plain
      → (get_elem? ps i ≡ some plain) × (drop 4 nonce ≡ prefix)
  unfolding chunk_nonce
  Sealed-at i nonce plain le index known (inl (j, e, at)) =
      let same_index : j % 2 ^ 32 ≡ i % 2 ^ 32 =
        sym (get_uint32-put_uint32 j prefix) ∙ sym (ap get_uint32 e) ∙ index in
      let same : i ≡ j = omega (arith, get_elem?-lt ps j plain at) in
      (ap (λ k. get_elem? ps k) same ∙ at, ap (drop 4) e ∙ drop-chunk_nonce c key prefix eight j)
  Sealed-at i nonce plain le index (inl z) (inr (e, same)) =
      absurd (not_first (sym (ap get_uint32 e) ∙ index ∙ omega arith))
  Sealed-at i nonce plain le index (inr k) (inr (e, same)) =
      absurd (apart (sym (ap (drop 4) e) ∙ k))

  opened_or_is :
      (i : ℕ) (pf plain after : Bytes) (o : Option Bytes)
      → opened_or c key i pf o ≡ opened plain after
      → (o ≡ some plain) × (after ≡ pf)
  opened_or_is i pf plain after none e = cc
  opened_or_is i pf plain after (some q) e = (cc, cc)

  still_known :
      (i : ℕ) (own before : Bytes)
      → (i ≡ 0) ⊎ (before ≡ prefix)
      → own ≡ (if i == 0 then own else before)
      → (i ≡ 0) ⊎ (own ≡ prefix)
  still_known i own before (inl z) e = inl z
  still_known i own before (inr k) e = elim (Bool-cases (i == 0)) [
    | inl z ↦ inl ((==_iff i 0).0 z)
    | inr z ↦ inr ((rw z at e) ∙ k)
  ]

  check_chunk-Sealed :
      (i : ℕ) (before wire plain after : Bytes)
      → i ≤ length ps
      → (i ≡ 0) ⊎ (before ≡ prefix)
      → ((n x p : Bytes)
          → n ++ x ≡ wire
          → c.open_sealed key n x ≡ some p
          → Sealed prefix name_nonce name ps n p)
      → check_chunk c key i before wire ≡ opened plain after
      → (get_elem? ps i ≡ some plain) × (after ≡ prefix)
  unfolding check_chunk
  check_chunk-Sealed i before wire plain after le known unforged e =
      let nonce = take 12 wire in
      let pf = if i == 0 then drop 4 nonce else before in
      elim (Bool-cases (ltb (length wire) 12)) [
        | inl a ↦ let h = rw a at e in cc
        | inr a ↦ elim (Bool-cases (get_uint32 nonce == i % 2 ^ 32)) [
          | inr b ↦ let h = rw (a, b) at e in cc
          | inl b ↦ elim (Bool-cases (bytes_eq (drop 4 nonce) pf)) [
            | inr d ↦ let h = rw (a, b, d) at e in cc
            | inl d ↦
                let (o, h) =
                  opened_or_is i pf plain after (c.open_sealed key nonce (drop 12 wire))
                    (rw (a, b, d) at e) in
                let own : drop 4 nonce ≡ pf = (bytes_eq_iff (drop 4 nonce) pf).0 d in
                let (at, k) =
                  Sealed-at i nonce plain le ((==_iff _ _).0 b) (still_known i _ before known own)
                    (unforged nonce (drop 12 wire) plain (take-append-drop 12 wire) o) in
                (at, h ∙ sym own ∙ k)
          ]
        ]
      ]

  Unforged-drop :
      (w rest body : Bytes)
      → body ≡ w ++ rest
      → Unforged c key prefix name_nonce name ps body
      → Unforged c key prefix name_nonce name ps rest
  unfolding Unforged
  Unforged-drop w rest body e u before nonce sealed behind plain e' =
      u (w ++ before) nonce sealed behind plain (
        e
        ∙ ap (λ x. w ++ x) e'
        ∙ sym (append_assoc w (before ++ (nonce ++ sealed)) behind)
        ∙ ap (λ x. x ++ behind) (sym (append_assoc w before (nonce ++ sealed))))

  Unforged-wire :
      (w rest body n x p : Bytes)
      → body ≡ w ++ rest
      → Unforged c key prefix name_nonce name ps body
      → n ++ x ≡ w
      → c.open_sealed key n x ≡ some p
      → Sealed prefix name_nonce name ps n p
  unfolding Unforged
  Unforged-wire w rest body n x p e u e' = u [] n x rest p (e ∙ ap (λ y. y ++ rest) (sym e'))

  check_reading-Sealed :
      (i : ℕ) (before body plain after : Bytes) (rd : Reading)
      → i ≤ length ps
      → (i ≡ 0) ⊎ (before ≡ prefix)
      → Unforged c key prefix name_nonce name ps body
      → Splits body rd
      → check_reading c key i before rd ≡ opened plain after
      → (get_elem? ps i ≡ some plain)
        × (after ≡ prefix)
        × Unforged c key prefix name_nonce name ps (rest_of c key rd)
  unfolding Splits
  check_reading-Sealed i before body plain after (whole w r) le known u split e =
      let (at, k) =
        check_chunk-Sealed i before w plain after le known
          (λ n x p. Unforged-wire w r body n x p split u) e in
      (at, k, Unforged-drop w r body split u)
  check_reading-Sealed i before body plain after (short w) le known u split e =
      let (at, k) =
        check_chunk-Sealed i before w plain after le known
          (λ n x p. Unforged-wire w [] body n x p split u) e in
      (at, k, Unforged-drop w [] body split u)
  check_reading-Sealed i before body plain after at_end le known u split e = cc
  check_reading-Sealed i before body plain after failed le known u split e = cc

  module _ (size : ℕ) (broken : Bool) (can_write : ℕ → Bool) where
    stream-IsPrefix :
        (n i : ℕ) (before body out : Bytes)
        → i ≤ length ps
        → (i ≡ 0) ⊎ (before ≡ prefix)
        → Unforged c key prefix name_nonce name ps body
        → out ≡ joined (take i ps)
        → IsPrefix ps (i + n) (stream c key size broken can_write n i before body out)
    unfolding stream
    stream-IsPrefix zero i before body out le known u e = (i, le, e, λ h. omega arith)
    stream-IsPrefix (suc n) i before body out le known u e =
        let rd = read_full size broken body in
        elim (Checked-cases (check_reading c key i before rd)) [
          | inr (x, f) ↦ rw (stream, f) (i, le, e, λ h. cc)
          | inl (plain, after, f) ↦
              let (at, k, rest) =
                check_reading-Sealed i before body plain after rd le known u
                  (read_full-Splits size broken body) f in
              let out' = ap (λ o. o ++ plain) e ∙ sym (joined-take ps i plain at) in
              let z : suc i + n ≡ i + suc n = omega arith in
              elim (Bool-cases (can_write i)) [
                | inr stuck ↦ rw (stream, f, stuck) (i, le, e, λ h. cc)
                | inl fine ↦
                    rw (stream, f, fine, sym z)
                      (stream-IsPrefix n (suc i) after (rest_of c key rd) (out ++ plain)
                        (get_elem?-lt ps i plain at) (inr k) rest out')
              ]
        ]

-- A server that cannot forge can only cut a download short: if nothing in the body opens under the key
-- but the chunks and the name that the uploader sealed, then whatever the body is, however many chunks
-- the answer announces and whatever becomes of the writes, the output is the first chunks of the file,
-- in order, and as many as were announced if there was no error. The uploader's random values are
-- such that the nonce of the name is not taken for that of a chunk.
pub stream-authentic :
    (c : Crypto) (key prefix name_nonce name : Bytes) (ps : List Bytes) (size n : ℕ) (broken : Bool)
    (can_write : ℕ → Bool) (body : Bytes)
    → length prefix ≡ 8
    → length ps < 2 ^ 32
    → get_uint32 name_nonce ≢ 0
    → drop 4 name_nonce ≢ prefix
    → Unforged c key prefix name_nonce name ps body
    → IsPrefix ps n (stream c key size broken can_write n 0 [] body [])
unfolding joined
stream-authentic c key prefix name_nonce name ps size n broken can_write body eight few first apart
      u =
    let z : 0 + n ≡ n = omega arith in
    let (k, le, out, all) =
      stream-IsPrefix c key prefix name_nonce name ps eight few first apart size broken can_write n
        0 [] body [] (omega arith) (inl refl) u refl in
    (k, le, out, λ h. all h ∙ z)
