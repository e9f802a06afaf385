-- ===== src/Transfer/SafeNames.antt =====
-- The names that sanitiseName of internal/transfer/transfer.go gives: they name a file in the
-- directory that they are joined to, and no device.
use gmmff.Prelude.{
  ℕ, zero, suc, ◌<◌, ◌≤◌, ◌≡◌, refl, sym, ap, ◌∙◌, inl, inr, true, false, ◌&&◌, ◌||◌, [], ◌∷◌, ◌++◌,
  ◌==◌, length, arith, Bool-cases,
}
use gmmff.Prelude.Bytes.{Bytes, codes, bytes_eq, has_prefix, has_byte, has_byte-append}
use gmmff.Transfer.Names.{
  Strings, dot, blank, underscore, is_dropped, safe_bytes, has_dots, cut_dots, without_dots,
  trim_right, stem_of, default_name, is_device, is_windows_reserved, trimmed, sanitise_name,
}

false-true : ¬ (false ≡ true)
false-true h = cc

safe_bytes-has_byte : (c : ℕ) (s : Bytes) → is_dropped c ≡ true → has_byte c (safe_bytes s) ≡ false
unfolding safe_bytes has_byte
safe_bytes-has_byte c [] h = refl
safe_bytes-has_byte c (x ∷ s) h = elim (Bool-cases (is_dropped x)) [
  | inl e ↦ rw e (safe_bytes-has_byte c s h)
  | inr e ↦ rw e (elim (Bool-cases (x == c)) [
    | inl same ↦
        let eq : x ≡ c = ground arith in elim (false-true (sym e ∙ ap is_dropped eq ∙ h)) [ ]
    | inr other ↦ rw other (safe_bytes-has_byte c s h)
  ])
]

cut_dots-has_byte : (c : ℕ) (s : Bytes) → has_byte c s ≡ false → has_byte c (cut_dots s) ≡ false
unfolding cut_dots has_byte
cut_dots-has_byte c [] h = refl
cut_dots-has_byte c (a ∷ []) h = h
cut_dots-has_byte c (a ∷ b ∷ s) h = elim (Bool-cases (a == dot && b == dot)) [
  | inl e ↦ rw e (ground (arith, cut_dots-has_byte c s))
  | inr e ↦ rw e (ground (arith, cut_dots-has_byte c (b ∷ s)))
]

without_dots-has_byte :
    (c fuel : ℕ) (s : Bytes) → has_byte c s ≡ false → has_byte c (without_dots fuel s) ≡ false
unfolding without_dots
without_dots-has_byte c zero s h = h
without_dots-has_byte c (suc fuel) s h =
    let rest = without_dots-has_byte c fuel (cut_dots s) (cut_dots-has_byte c s h) in ground (arith)

length-cut_dots_le : (s : Bytes) → length (cut_dots s) ≤ length s
unfolding cut_dots
length-cut_dots_le [] = omega arith
length-cut_dots_le (a ∷ []) = omega arith
length-cut_dots_le (a ∷ b ∷ s) = ground (arith, length-cut_dots_le s, length-cut_dots_le (b ∷ s))

length-cut_dots : (s : Bytes) → has_dots s ≡ true → length (cut_dots s) < length s
unfolding cut_dots has_dots
length-cut_dots [] h = cc
length-cut_dots (a ∷ []) h = cc
length-cut_dots (a ∷ b ∷ s) h = elim (Bool-cases (a == dot && b == dot)) [
  | inl e ↦ rw e (omega (arith, length-cut_dots_le s))
  | inr e ↦ rw e (omega (arith, length-cut_dots (b ∷ s) (rw e at h)))
]

-- As many rounds as the name has bytes are enough.
without_dots-has_dots :
    (fuel : ℕ) (s : Bytes) → length s ≤ fuel → has_dots (without_dots fuel s) ≡ false
unfolding without_dots has_dots
without_dots-has_dots zero [] h = refl
without_dots-has_dots zero (a ∷ s) h = ground arith
without_dots-has_dots (suc fuel) s h = elim (Bool-cases (has_dots s)) [
  | inl e ↦ rw e (without_dots-has_dots fuel (cut_dots s) (omega (arith, length-cut_dots s e)))
  | inr e ↦ rw e e
]

has_dots-tail : (a : ℕ) (s : Bytes) → has_dots (a ∷ s) ≡ false → has_dots s ≡ false
unfolding has_dots
has_dots-tail a [] h = refl
has_dots-tail a (b ∷ s) h = ground arith

has_dots-suffix : (p s : Bytes) → has_dots (p ++ s) ≡ false → has_dots s ≡ false
has_dots-suffix [] s h = h
has_dots-suffix (a ∷ p) s h = has_dots-suffix p s (has_dots-tail a (p ++ s) h)

has_dots-prefix : (s q : Bytes) → has_dots (s ++ q) ≡ false → has_dots s ≡ false
unfolding has_dots
has_dots-prefix [] q h = refl
has_dots-prefix (a ∷ []) q h = refl
has_dots-prefix (a ∷ b ∷ s) q h = ground (arith, has_dots-prefix (b ∷ s) q)

trim_right-part : (s : Bytes) → (q : Bytes) × (s ≡ trim_right s ++ q)
unfolding trim_right
trim_right-part [] = ([], refl)
trim_right-part (c ∷ s) =
    let (q, e) = trim_right-part s in
    elim (Bool-cases (length (trim_right s) == 0 && (c == dot || c == blank))) [
      | inl h ↦ (c ∷ s, rw h refl)
      | inr h ↦ (q, rw h (ap (λ l. c ∷ l) e))
    ]

trim_right-again : (s : Bytes) → trim_right (trim_right s) ≡ trim_right s
unfolding trim_right
trim_right-again [] = refl
trim_right-again (c ∷ s) =
    elim (Bool-cases (length (trim_right s) == 0 && (c == dot || c == blank))) [
      | inl h ↦ rw h refl
      | inr h ↦ rw (h, trim_right-again s, h) refl
    ]

trim_right-has_byte : (c : ℕ) (s : Bytes) → has_byte c s ≡ false → has_byte c (trim_right s) ≡ false
trim_right-has_byte c s h =
    let (q, e) = trim_right-part s in
    ground (arith, has_byte-append c (trim_right s) q, ap (has_byte c) e)

trim_right-has_dots : (s : Bytes) → has_dots s ≡ false → has_dots (trim_right s) ≡ false
trim_right-has_dots s h =
    let (q, e) = trim_right-part s in has_dots-prefix (trim_right s) q (sym (ap has_dots e) ∙ h)

has_dots-underscore : (s : Bytes) → has_dots s ≡ false → has_dots (underscore ∷ s) ≡ false
unfolding has_dots
has_dots-underscore [] h = refl
has_dots-underscore (a ∷ s) h = h

-- Such a name starts with an underscore, and no device's does.
underscore_no_device : (s : Bytes) → is_device (underscore ∷ s) ≡ false
unfolding is_device bytes_eq has_prefix
underscore_no_device s = ground arith

-- A name that stays inside the directory it is joined to.
unfoldable pub IsSafe : Strings → Bytes → Type 0
IsSafe str name =
    ((c : ℕ) → is_dropped c ≡ true → has_byte c name ≡ false)
    × (has_dots name ≡ false)
    × (0 < length name)
    × (trim_right name ≡ name)
    × (is_windows_reserved str name ≡ false)

module _ (str : Strings) where
  trim_space-has_byte :
      (c : ℕ) (s : Bytes) → has_byte c s ≡ false → has_byte c (str.trim_space s) ≡ false
  trim_space-has_byte c s h =
      let (p, q, e) = str.trim_space_part s in
      ground (
        arith,
        has_byte-append c (p ++ str.trim_space s) q,
        has_byte-append c p (str.trim_space s),
        ap (has_byte c) e,
      )

  trim_space-has_dots : (s : Bytes) → has_dots s ≡ false → has_dots (str.trim_space s) ≡ false
  trim_space-has_dots s h =
      let (p, q, e) = str.trim_space_part s in
      has_dots-suffix p (str.trim_space s)
        (has_dots-prefix (p ++ str.trim_space s) q (sym (ap has_dots e) ∙ h))

  trimmed-has_byte : (c : ℕ) (s : Bytes) → is_dropped c ≡ true → has_byte c (trimmed str s) ≡ false
  trimmed-has_byte c s h =
      let safe = safe_bytes s in
      trim_right-has_byte c (str.trim_space (without_dots (length safe) safe)) (
        trim_space-has_byte c (without_dots (length safe) safe)
          (without_dots-has_byte c (length safe) safe (safe_bytes-has_byte c s h)))

  trimmed-has_dots : (s : Bytes) → has_dots (trimmed str s) ≡ false
  trimmed-has_dots s =
      let safe = safe_bytes s in
      trim_right-has_dots (str.trim_space (without_dots (length safe) safe)) (
        trim_space-has_dots (without_dots (length safe) safe)
          (without_dots-has_dots (length safe) safe (omega arith)))

  trimmed-trim_right : (s : Bytes) → trim_right (trimmed str s) ≡ trimmed str s
  trimmed-trim_right s =
      trim_right-again (str.trim_space (without_dots (length (safe_bytes s)) (safe_bytes s)))

  default_not_reserved : is_windows_reserved str default_name ≡ false
  unfolding is_windows_reserved is_device bytes_eq has_prefix stem_of
  default_not_reserved =
      rw (str.to_upper_ascii 0x67 (stem_of (codes "mmff_received_file")) (omega arith))
        (ground arith)

  default-IsSafe : IsSafe str default_name
  unfolding IsSafe safe_bytes has_dots trim_right
  default-IsSafe =
      (λ c. safe_bytes-has_byte c default_name, refl, omega arith, refl, default_not_reserved)

  underscore_not_reserved : (s : Bytes) → is_windows_reserved str (underscore ∷ s) ≡ false
  unfolding is_windows_reserved stem_of
  underscore_not_reserved s =
      rw (str.to_upper_ascii underscore (stem_of s) (omega arith))
        (underscore_no_device (str.to_upper (stem_of s)))

  underscore-IsSafe :
      (s : Bytes) (h : (c : ℕ) → is_dropped c ≡ true → has_byte c s ≡ false)
      (d : has_dots s ≡ false) (ne : 0 < length s) (t : trim_right s ≡ s)
      → IsSafe str (underscore ∷ s)
  unfolding IsSafe has_byte trim_right
  underscore-IsSafe s h d ne t = (
    λ c k. elim (Bool-cases (underscore == c)) [
      | inl same ↦
          let eq : underscore ≡ c = ground arith in elim (false-true (ap is_dropped eq ∙ k)) [ ]
      | inr other ↦ rw other (h c k)
    ],
    has_dots-underscore s d,
    omega arith,
    ground (arith, t),
    underscore_not_reserved s,
  )

  -- Whatever name a peer announces, the name that is used has no path separator, colon or control
  -- byte, no two dots in a row, at least one byte, no dot or blank at its end, and is not a Windows
  -- device's.
  pub sanitise_name-IsSafe : (name : Bytes) → IsSafe str (sanitise_name str name)
  unfolding sanitise_name IsSafe
  sanitise_name-IsSafe name =
      let result = trimmed str name in
      elim (Bool-cases (length result == 0)) [
        | inl e ↦ rw e default-IsSafe
        | inr e ↦ elim (Bool-cases (is_windows_reserved str result)) [
          | inl r ↦
              rw (e, r)
                (underscore-IsSafe result (λ c. trimmed-has_byte c name) (trimmed-has_dots name)
                  (ground arith) (trimmed-trim_right name))
          | inr r ↦
              rw (e, r)
                (
                  (λ c. trimmed-has_byte c name),
                  trimmed-has_dots name,
                  ground arith,
                  trimmed-trim_right name,
                  r,
                )
        ]
      ]

safe_bytes_kept :
    (s : Bytes) → ((c : ℕ) → is_dropped c ≡ true → has_byte c s ≡ false) → safe_bytes s ≡ s
unfolding safe_bytes has_byte
safe_bytes_kept [] h = refl
safe_bytes_kept (x ∷ s) h = elim (Bool-cases (is_dropped x)) [
  | inl e ↦ ground (arith, h x e)
  | inr e ↦ rw e (ap (λ l. x ∷ l) (safe_bytes_kept s (λ c k. ground (arith, h c k))))
]

without_dots_kept : (fuel : ℕ) (s : Bytes) → has_dots s ≡ false → without_dots fuel s ≡ s
unfolding without_dots
without_dots_kept zero s h = refl
without_dots_kept (suc fuel) s h = rw h refl

-- A name that is already safe, and that TrimSpace leaves as it is, is used unchanged.
pub sanitise_name-IsSafe_id :
    (str : Strings) (name : Bytes)
    → IsSafe str name
    → str.trim_space name ≡ name
    → sanitise_name str name ≡ name
unfolding sanitise_name IsSafe
sanitise_name-IsSafe_id str name (b, d, ne, t, r) k =
    let e : trimmed str name ≡ name =
      rw (safe_bytes_kept name b, without_dots_kept (length name) name d, k, t) refl in
    let long : (length name == 0) ≡ false = ground arith in rw (e, long, r) refl
