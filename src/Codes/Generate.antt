-- ===== src/Codes/Generate.antt =====
-- GenerateCode, GenerateSecret and WithSecret of internal/crypto/codegen.go.
use gmmff.Prelude.{
  ℕ, zero, suc, ◌+◌, ◌-◌, ◌*◌, ◌/◌, ◌%◌, ◌^◌, ◌≤◌, ◌<◌, ◌≡◌, refl, ap, Bool, true, ◌&&◌, ◌||◌, not,
  List, [], ◌∷◌, arith, length, ltb, if◌then◌else◌, Option, none, some, get_or,
}
use gmmff.Prelude.Bytes.{Bytes, has_byte}
use gmmff.Codes.Words.{dash, join_words, all_fit, valid_words, validate_code, AllPlain}
use gmmff.Codes.Wordlist.{wordlist, wordlist-length}
use gmmff.Codes.Split.{full_code, split_code, secret_words}
use gmmff.Codes.Secret.{split_code-full_code, valid_words-join}

-- (r >> (22 - 10*i)) & 0x3FF on uint32: below 0 the shift wraps to more than 31 places.
unfoldable pub word_index : ℕ → ℕ → ℕ
word_index r i = if ltb 22 (10 * i) then 0 else (r / 2 ^ (22 - 10 * i)) % 1024

-- The loop of randomWords, from word `i` on.
unfoldable pub words_from : (left i : ℕ) → ℕ → List Bytes
unfolding word_index
words_from zero i r = []
words_from (suc left) i r =
    get_or wordlist (word_index r i % length wordlist) [] ∷ words_from left (suc i) r

unfoldable pub random_words : ℕ → Option ℕ → Option Bytes
unfolding words_from
random_words n none = none
random_words n (some r) = some (join_words (words_from n 0 r))

unfoldable pub generate_code : Option ℕ → Option Bytes
generate_code = random_words 3

unfoldable pub generate_secret : Option ℕ → Option Bytes
generate_secret = random_words secret_words

abbrev joined_to : Bytes → Option Bytes → Option Bytes
joined_to nameplate none = none
joined_to nameplate (some secret) = some (full_code nameplate secret)

unfoldable pub with_secret : Bytes → Option ℕ → Option Bytes
unfolding generate_secret
with_secret nameplate r = joined_to nameplate (generate_secret r)

-- A word that fits between hyphens.
is_word : Bytes → Bool
is_word w = not (has_byte dash w) && not (ltb (length w) 2 || ltb 12 (length w))

all_words : List Bytes → Bool
unfolding is_word
all_words [] = true
all_words (w ∷ ws) = is_word w && all_words ws

wordlist_words : all_words wordlist ≡ true
unfolding all_words wordlist has_byte
wordlist_words = refl

all_words-get_or :
    (ws : List Bytes) (i : ℕ)
    → all_words ws ≡ true
    → i < length ws
    → is_word (get_or ws i []) ≡ true
unfolding all_words
all_words-get_or [] i h l = absurd (omega arith)
all_words-get_or (w ∷ ws) zero h l = ground arith
all_words-get_or (w ∷ ws) (suc i) h l = all_words-get_or ws i (ground arith) (omega arith)

picked : (k : ℕ) → is_word (get_or wordlist (k % length wordlist) []) ≡ true
picked k =
    all_words-get_or wordlist (k % length wordlist) wordlist_words (omega (arith, wordlist-length))

words_from-fit :
    (left i r : ℕ)
    → AllPlain (words_from left i r)
      × (all_fit (words_from left i r) ≡ true)
      × (length (words_from left i r) ≡ left)
unfolding words_from all_fit is_word
words_from-fit zero i r = (tt, refl, refl)
words_from-fit (suc left) i r =
    let rest = words_from-fit left (suc i) r in
    let w = picked (word_index r i) in ((ground arith, rest.0), ground arith, ap suc rest.2)

valid_words-from : (n r : ℕ) → valid_words (join_words (words_from (suc n) 0 r)) (suc n) ≡ true
valid_words-from n r =
    let fit = words_from-fit (suc n) 0 r in
    valid_words-join (words_from (suc n) 0 r) (suc n) fit.2 (omega arith) fit.0 fit.1

-- Whatever 32 bits are drawn, GenerateCode gives a code that ValidateCode accepts; together with any
-- secret that GenerateSecret gives it is a full code that SplitCode takes apart again.
pub generate_code-valid :
    (r q : ℕ)
    → (n : Bytes) × (s : Bytes) × (generate_code (some r) ≡ some n)
      × (validate_code n ≡ true)
      × (generate_secret (some q) ≡ some s)
      × (with_secret n (some q) ≡ some (full_code n s))
      × (split_code (full_code n s) ≡ some (n, s))
unfolding generate_code generate_secret with_secret random_words validate_code
generate_code-valid r q =
    let n = join_words (words_from 3 0 r) in
    let s = join_words (words_from 2 0 q) in
    (
      n,
      s,
      refl,
      valid_words-from 2 r,
      refl,
      refl,
      split_code-full_code n s (valid_words-from 2 r) (valid_words-from 1 q),
    )

word_index-quarter :
    (q a b i : ℕ) → a < 4 → b < 4 → i < 3 → word_index (4 * q + a) i ≡ word_index (4 * q + b) i
unfolding word_index
word_index-quarter q a b zero h k l = omega arith
word_index-quarter q a b (suc zero) h k l = omega arith
word_index-quarter q a b (suc (suc zero)) h k l = omega arith
word_index-quarter q a b (suc (suc (suc i))) h k l = absurd (omega arith)

words_from-quarter :
    (left i q a b : ℕ)
    → a < 4
    → b < 4
    → i + left ≤ 3
    → words_from left i (4 * q + a) ≡ words_from left i (4 * q + b)
unfolding words_from
words_from-quarter zero i q a b h k l = refl
words_from-quarter (suc left) i q a b h k l =
    rw
      (
        word_index-quarter q a b i h k (omega arith),
        words_from-quarter left (suc i) q a b h k (omega arith),
      )
      refl

-- Of the 32 random bits GenerateCode uses 30: numbers that differ in the two lowest bits alone give
-- the same code.
pub generate_code-quarter :
    (q a b : ℕ)
    → a < 4
    → b < 4
    → generate_code (some (4 * q + a)) ≡ generate_code (some (4 * q + b))
unfolding generate_code random_words
generate_code-quarter q a b h k =
    ap (λ ws. some (join_words ws)) (words_from-quarter 3 0 q a b h k (omega arith))
