-- ===== src/Transfer/Partial/Names.antt =====
-- The names of the files of a transfer, and the conversions between int64 and uint64, in
-- internal/transfer/transfer.go.
use gmmff.Prelude.{
  ℕ, zero, suc, ◌-◌, ◌%◌, ◌^◌, [], ◌∷◌, ◌++◌, Option, none, some, ltb, ◌==◌, length, take,
  if◌then◌else◌,
}
use gmmff.Prelude.Int.{ℤ, pos, negsuc}
use gmmff.Prelude.Bytes.{Bytes, codes}
use gmmff.Transfer.Names.{dot}
use gmmff.Transfer.Folder.{Local}

abbrev pub partial_suffix : Bytes
partial_suffix = codes ".gmmff_partial"

abbrev pub meta_suffix : Bytes
meta_suffix = codes ".gmmff_meta"

-- int64(n) of a uint64
unfoldable pub int64_of : ℕ → ℤ
int64_of n = let m = n % 2 ^ 64 in if ltb m (2 ^ 63) then pos m else negsuc (2 ^ 64 - 1 - m)

-- uint64(n) of an int64
unfoldable pub uint64_of : ℤ → ℕ
uint64_of (pos n) = n % 2 ^ 64
uint64_of (negsuc n) = 2 ^ 64 - 1 - n % 2 ^ 64

-- filepath.Ext of a name without a separator: from the last dot on.
unfoldable pub ext_of : Bytes → Bytes
ext_of [] = []
ext_of (c ∷ s) =
    let rest = ext_of s in if ltb 0 (length rest) then rest else if c == dot then c ∷ s else []

-- strings.TrimSuffix(path, ext)
unfoldable pub base_of : Bytes → Bytes
base_of path = take (length path - length (ext_of path)) path

module _ (l : Local) where
  -- fmt.Sprintf("%s (%d)%s", base, i, ext)
  unfoldable pub variant : Bytes → ℕ → Bytes
  variant path i = base_of path ++ (codes " (" ++ (l.decimal i ++ (codes ")" ++ ext_of path)))

  -- The loop of uniquePath from `i` on.
  unfoldable pub free_variant : ℕ → ℕ → Bytes → l.folder.State → Option Bytes
  free_variant zero i path s = none
  free_variant (suc fuel) i path s =
      let rest = free_variant fuel (suc i) path s in
      if l.folder.is_absent (variant path i) s then some (variant path i) else rest

  unfoldable pub unique_path : ℕ → Bytes → l.folder.State → Option Bytes
  unique_path fuel path s =
      if l.folder.is_absent path s then some path else free_variant fuel 1 path s
