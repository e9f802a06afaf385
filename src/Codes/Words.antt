-- ===== src/Codes/Words.antt =====
-- Words and hyphens (internal/crypto/codegen.go): strings.Split, SplitN and Join at '-', which the
-- code takes from Go's library, written out, and the word tests of the repository.
use gmmff.Prelude.{
  ℕ, zero, suc, ◌<◌, ◌≡◌, ◌≢◌, refl, ap, ◌∙◌, Bool, true, false, ◌&&◌, ◌||◌, not, List, [], ◌∷◌,
  ◌++◌, arith, length, ltb, ◌==◌, if◌then◌else◌, take, drop, Bool-cases, inl, inr,
}
use gmmff.Prelude.Bytes.{Bytes, has_byte}

abbrev pub dash : ℕ
dash = b'-'

-- One more byte in front of the first part.
abbrev pub extend : ℕ → List Bytes → List Bytes
extend c [] = (c ∷ []) ∷ []
extend c (p ∷ ps) = (c ∷ p) ∷ ps

-- strings.Split(s, "-")
unfoldable pub split : Bytes → List Bytes
split [] = [] ∷ []
split (c ∷ s) = let parts = split s in if c == dash then [] ∷ parts else extend c parts

-- strings.SplitN(s, "-", n + 1): at most n cuts, the last part keeps its hyphens.
unfoldable pub split_n : ℕ → Bytes → List Bytes
split_n zero s = s ∷ []
split_n (suc n) [] = [] ∷ []
split_n (suc n) (c ∷ s) =
    let next = split_n n s in
    let same = split_n (suc n) s in if c == dash then [] ∷ next else extend c same

-- strings.Join(ws, "-")
unfoldable pub join_words : List Bytes → Bytes
join_words [] = []
join_words (w ∷ []) = w
join_words (w ∷ v ∷ ws) = w ++ dash ∷ join_words (v ∷ ws)

-- The loop of validWords.
unfoldable pub all_fit : List Bytes → Bool
all_fit [] = true
all_fit (p ∷ ps) = not (ltb (length p) 2 || ltb 12 (length p)) && all_fit ps

unfoldable pub valid_words : Bytes → ℕ → Bool
unfolding all_fit
valid_words s n = length (split s) == n && all_fit (split s)

unfoldable pub validate_code : Bytes → Bool
unfolding valid_words
validate_code code = valid_words code 3

-- A word has no hyphen.
abbrev pub IsPlain : Bytes → Type 0
IsPlain w = has_byte dash w ≡ false

abbrev pub AllPlain : List Bytes → Type 0
AllPlain [] = Unit {0}
AllPlain (w ∷ ws) = IsPlain w × AllPlain ws

pub split_plain : (w : Bytes) → IsPlain w → split w ≡ w ∷ []
unfolding split has_byte
split_plain [] h = refl
split_plain (c ∷ w) h = ground (arith, split_plain w)

pub split-append : (w s : Bytes) → IsPlain w → split (w ++ dash ∷ s) ≡ w ∷ split s
unfolding split has_byte
split-append [] s h = refl
split-append (c ∷ w) s h = ground (arith, split-append w s)

-- Joining words without hyphens and splitting gives the words again.
pub split-join_words :
    (w : Bytes) (ws : List Bytes) → IsPlain w → AllPlain ws → split (join_words (w ∷ ws)) ≡ w ∷ ws
unfolding join_words
split-join_words w [] h k = split_plain w h
split-join_words w (v ∷ ws) h k =
    split-append w (join_words (v ∷ ws)) h ∙ ap (λ ps. w ∷ ps) (split-join_words v ws k.0 k.1)

pub split-ne-nil : (s : Bytes) → split s ≢ []
unfolding split
split-ne-nil [] h = cc
split-ne-nil (c ∷ s) h = ground (arith, split-ne-nil s)

join_words-extend :
    (c : ℕ) (ps : List Bytes) → ps ≢ [] → join_words (extend c ps) ≡ c ∷ join_words ps
unfolding join_words
join_words-extend c [] h = absurd (h refl)
join_words-extend c (p ∷ []) h = refl
join_words-extend c (p ∷ q ∷ ps) h = refl

join_words-cut : (ps : List Bytes) → ps ≢ [] → join_words ([] ∷ ps) ≡ dash ∷ join_words ps
unfolding join_words
join_words-cut [] h = absurd (h refl)
join_words-cut (p ∷ ps) h = refl

-- Splitting loses nothing.
pub join_words-split : (s : Bytes) → join_words (split s) ≡ s
unfolding split join_words
join_words-split [] = refl
join_words-split (c ∷ s) = ground (
  arith,
  join_words-split s,
  join_words-extend c (split s) (split-ne-nil s),
  join_words-cut (split s) (split-ne-nil s),
)

extend-AllPlain :
    (c : ℕ) (ps : List Bytes) → (c == dash) ≡ false → AllPlain ps → AllPlain (extend c ps)
unfolding has_byte
extend-AllPlain c [] e h = (ground arith, tt)
extend-AllPlain c (p ∷ ps) e h = (ground (arith, h.0), h.1)

pub split-AllPlain : (s : Bytes) → AllPlain (split s)
unfolding split has_byte
split-AllPlain [] = (refl, tt)
split-AllPlain (c ∷ s) = elim (Bool-cases (c == dash)) [
  | inl e ↦ rw e (refl, split-AllPlain s)
  | inr e ↦ rw e (extend-AllPlain c (split s) e (split-AllPlain s))
]

-- A byte in front of the first part goes through SplitN's cut.
extend_cut :
    (c n : ℕ) (ps : List Bytes)
    → ps ≢ []
    → extend c (take (suc n) ps ++ join_words (drop (suc n) ps) ∷ [])
      ≡ take (suc n) (extend c ps) ++ join_words (drop (suc n) (extend c ps)) ∷ []
extend_cut c n [] h = absurd (h refl)
extend_cut c n (p ∷ ps) h = refl

length-extend-le : (c : ℕ) (ps : List Bytes) → ps ≢ [] → length (extend c ps) ≡ length ps
length-extend-le c [] h = absurd (h refl)
length-extend-le c (p ∷ ps) h = refl

-- SplitN cuts off the first words, and leaves the rest joined.
pub split_n-split :
    (n : ℕ) (s : Bytes)
    → n < length (split s)
    → split_n n s ≡ take n (split s) ++ join_words (drop n (split s)) ∷ []
unfolding split split_n
split_n-split zero s h = rw (join_words-split s) refl
split_n-split (suc n) [] h = absurd (omega arith)
split_n-split (suc n) (c ∷ s) h = elim (Bool-cases (c == dash)) [
  | inl e ↦ rw e (ap (λ ps. [] ∷ ps) (split_n-split n s (ground arith)))
  | inr e ↦ rw e (
      ap (extend c)
        (split_n-split (suc n) s (ground (arith, length-extend-le c (split s) (split-ne-nil s))))
      ∙ extend_cut c n (split s) (split-ne-nil s))
]
