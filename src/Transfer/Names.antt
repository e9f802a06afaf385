-- ===== src/Transfer/Names.antt =====
-- sanitiseName of internal/transfer/transfer.go: the name under which a received file is saved.
use gmmff.Prelude.{
  ℕ, zero, suc, ◌-◌, ◌<◌, ◌≡◌, Bool, false, ◌&&◌, ◌||◌, [], ◌∷◌, ◌++◌, ltb, leb, ◌==◌, length,
  get_or, if◌then◌else◌,
}
use gmmff.Prelude.Bytes.{Bytes, codes, bytes_eq, has_prefix}

abbrev pub dot : ℕ
dot = 0x2E

abbrev pub blank : ℕ
blank = 0x20

abbrev pub underscore : ℕ
underscore = 0x5F

-- The bytes that are dropped: path separators, the colon and control characters.
abbrev pub is_dropped : ℕ → Bool
is_dropped c = c == 0x2F || c == 0x5C || c == 0x3A || ltb c 0x20 || c == 0x7F

unfoldable pub safe_bytes : Bytes → Bytes
safe_bytes [] = []
safe_bytes (c ∷ s) = if is_dropped c then safe_bytes s else c ∷ safe_bytes s

-- strings.Contains(s, "..")
unfoldable pub has_dots : Bytes → Bool
has_dots [] = false
has_dots (a ∷ []) = false
has_dots (a ∷ b ∷ s) = (a == dot && b == dot) || has_dots (b ∷ s)

-- strings.ReplaceAll(s, "..", "")
unfoldable pub cut_dots : Bytes → Bytes
cut_dots [] = []
cut_dots (a ∷ []) = a ∷ []
cut_dots (a ∷ b ∷ s) = if a == dot && b == dot then cut_dots s else a ∷ cut_dots (b ∷ s)

-- The loop, with the number of rounds that are left.
unfoldable pub without_dots : ℕ → Bytes → Bytes
without_dots zero s = s
without_dots (suc fuel) s =
    let rest = without_dots fuel (cut_dots s) in if has_dots s then rest else s

-- strings.TrimRight(s, ". ")
unfoldable pub trim_right : Bytes → Bytes
trim_right [] = []
trim_right (c ∷ s) =
    let rest = trim_right s in if length rest == 0 && (c == dot || c == blank) then [] else c ∷ rest

-- The part before the first dot.
unfoldable pub stem_of : Bytes → Bytes
stem_of [] = []
stem_of (c ∷ s) = let rest = stem_of s in if c == dot then [] else c ∷ rest

abbrev pub default_name : Bytes
default_name = codes "gmmff_received_file"

-- The stems, in upper case, that name a device.
unfoldable pub is_device : Bytes → Bool
is_device stem =
    bytes_eq stem (codes "CON")
    || bytes_eq stem (codes "PRN")
    || bytes_eq stem (codes "AUX")
    || bytes_eq stem (codes "NUL")
    || (length stem == 4
        && (has_prefix (codes "COM") stem || has_prefix (codes "LPT") stem)
        && leb 0x31 (get_or stem 3 0)
        && leb (get_or stem 3 0) 0x39)

-- The case mapping of one ASCII letter.
abbrev pub upper : ℕ → ℕ
upper c = if leb 0x61 c && leb c 0x7A then c - 0x20 else c

-- What the source uses of the package strings on Unicode text: TrimSpace returns a part of the
-- string that stands in one piece, and ToUpper maps one character after the other, which is one byte
-- for an ASCII character.
pub record Strings : Type 0 where
  pub trim_space : Bytes → Bytes
  pub to_upper : Bytes → Bytes
  pub trim_space_part : (s : Bytes) → (p : Bytes) × (q : Bytes) × (s ≡ (p ++ trim_space s) ++ q)
  pub to_upper_nil : to_upper [] ≡ []
  pub to_upper_ascii : (c : ℕ) (s : Bytes) → c < 0x80 → to_upper (c ∷ s) ≡ upper c ∷ to_upper s

module _ (str : Strings) where
  unfoldable pub is_windows_reserved : Bytes → Bool
  is_windows_reserved name = is_device (str.to_upper (stem_of name))

  abbrev pub trimmed : Bytes → Bytes
  trimmed name =
      let safe = safe_bytes name in trim_right (str.trim_space (without_dots (length safe) safe))

  unfoldable pub sanitise_name : Bytes → Bytes
  sanitise_name name =
      let result = trimmed name in
      if length result == 0
      then default_name
      else if is_windows_reserved result
      then underscore ∷ result
      else result
