-- ===== src/Codes/Secret.antt =====
-- The two parts of a full code (internal/crypto/codegen.go), and what the server sees of it
-- (internal/signaling/code.go).
use mathlib.Core.List.{append_assoc}
use gmmff.Prelude.{
  ◌⊎◌, ℕ, zero, suc, ◌≤◌, ◌<◌, ◌≡◌, refl, sym, ap, ◌∙◌, true, false, List, [], ◌∷◌, ◌++◌, arith,
  length, length-append, take, drop, take-append-drop, length-take, length-drop, none, some, get_or,
  Bool-cases, inl, inr,
}
use gmmff.Prelude.Bytes.{Bytes}
use gmmff.Protocol.{version}
use gmmff.Codes.Words.{
  dash, split, split_n, join_words, all_fit, valid_words, validate_code, AllPlain, split-join_words,
  split-ne-nil, join_words-split, split-AllPlain, split_n-split,
}
use gmmff.Codes.Split.{
  full_code, split_code, join_payload, secret_words, split-full_code, all_fit-append,
  valid_words-full_code,
}

take_all : (k : ℕ) (xs ys : List Bytes) → length xs ≡ k → take k (xs ++ ys) ≡ xs
take_all zero [] ys h = refl
take_all zero (x ∷ xs) ys h = absurd (omega arith)
take_all (suc k) [] ys h = absurd (omega arith)
take_all (suc k) (x ∷ xs) ys h = ap (λ l. x ∷ l) (take_all k xs ys (omega arith))

drop_all : (k : ℕ) (xs ys : List Bytes) → length xs ≡ k → drop k (xs ++ ys) ≡ ys
drop_all zero [] ys h = refl
drop_all zero (x ∷ xs) ys h = absurd (omega arith)
drop_all (suc k) [] ys h = absurd (omega arith)
drop_all (suc k) (x ∷ xs) ys h = drop_all k xs ys (omega arith)

get_or_at : (k : ℕ) (xs : List Bytes) (y : Bytes) → length xs ≡ k → get_or (xs ++ y ∷ []) k [] ≡ y
get_or_at zero [] y h = refl
get_or_at zero (x ∷ xs) y h = absurd (omega arith)
get_or_at (suc k) [] y h = absurd (omega arith)
get_or_at (suc k) (x ∷ xs) y h = get_or_at k xs y (omega arith)

valid_length : (s : Bytes) (k : ℕ) → valid_words s k ≡ true → length (split s) ≡ k
unfolding valid_words
valid_length s k h = ground arith

-- What SplitN leaves of a full code: the words of the nameplate, and the secret whole.
split_n-full_code :
    (n s : Bytes) (k : ℕ) → length (split n) ≡ k → split_n k (full_code n s) ≡ split n ++ s ∷ []
split_n-full_code n s k h =
    split_n-split k (full_code n s) (enough n s k h)
    ∙ rw
        (
          split-full_code n s,
          take_all k (split n) (split s) h,
          drop_all k (split n) (split s) h,
          join_words-split s,
        )
        refl
  where
    enough : (n s : Bytes) (k : ℕ) → length (split n) ≡ k → k < length (split (full_code n s))
    enough n s k h =
        ground (
          arith,
          ap length (split-full_code n s),
          length-append (split n) (split s),
          split-ne-nil s,
        )

-- SplitCode takes the code that the initiator shares apart into the nameplate that the server issued
-- and the secret of the initiator, whatever three and two words these are.
pub split_code-full_code :
    (n s : Bytes)
    → valid_words n 3 ≡ true
    → valid_words s secret_words ≡ true
    → split_code (full_code n s) ≡ some (n, s)
unfolding split_code
split_code-full_code n s h k =
    rw
      (
        valid_words-full_code n s 3 2 h k,
        split_n-full_code n s 3 (valid_length n 3 h),
        take_all 3 (split n) (s ∷ []) (valid_length n 3 h),
        join_words-split n,
        get_or_at 3 (split n) s (valid_length n 3 h),
      )
      refl

length-take_le : (k : ℕ) (xs : List Bytes) → k ≤ length xs → length (take k xs) ≡ k
length-take_le k xs h = omega (arith, length-take k xs)

AllPlain-take : (k : ℕ) (xs : List Bytes) → AllPlain xs → AllPlain (take k xs)
AllPlain-take zero xs h = tt
AllPlain-take (suc k) [] h = tt
AllPlain-take (suc k) (x ∷ xs) h = (h.0, AllPlain-take k xs h.1)

AllPlain-drop : (k : ℕ) (xs : List Bytes) → AllPlain xs → AllPlain (drop k xs)
AllPlain-drop zero xs h = h
AllPlain-drop (suc k) [] h = tt
AllPlain-drop (suc k) (x ∷ xs) h = AllPlain-drop k xs h.1

split-join_all : (xs : List Bytes) → 0 < length xs → AllPlain xs → split (join_words xs) ≡ xs
split-join_all [] l h = absurd (omega arith)
split-join_all (x ∷ xs) l h = split-join_words x xs h.0 h.1

join_words-append :
    (xs ys : List Bytes)
    → 0 < length xs
    → 0 < length ys
    → join_words (xs ++ ys) ≡ full_code (join_words xs) (join_words ys)
unfolding join_words full_code
join_words-append [] ys l m = absurd (omega arith)
join_words-append (x ∷ []) [] l m = absurd (omega arith)
join_words-append (x ∷ []) (y ∷ ys) l m = refl
join_words-append (x ∷ z ∷ xs) ys l m =
    ap (λ t. x ++ dash ∷ t) (join_words-append (z ∷ xs) ys (omega arith) m)
    ∙ sym (append_assoc x (dash ∷ join_words (z ∷ xs)) (dash ∷ join_words ys))

valid_fit : (s : Bytes) (k : ℕ) → valid_words s k ≡ true → all_fit (split s) ≡ true
unfolding valid_words
valid_fit s k h = ground arith

fit_parts :
    (xs ys : List Bytes) → all_fit (xs ++ ys) ≡ true → (all_fit xs ≡ true) × (all_fit ys ≡ true)
fit_parts xs ys h = ground (arith, all_fit-append xs ys)

pub valid_words-join :
    (xs : List Bytes) (k : ℕ)
    → length xs ≡ k
    → 0 < k
    → AllPlain xs
    → all_fit xs ≡ true
    → valid_words (join_words xs) k ≡ true
unfolding valid_words
valid_words-join xs k l m p f = rw (split-join_all xs (omega arith) p) (ground arith)

-- The parts of five fitting words.
abbrev front : Bytes → Bytes
front f = join_words (take 3 (split f))

abbrev back : Bytes → Bytes
back f = join_words (drop 3 (split f))

split_code-parts : (f : Bytes) → valid_words f 5 ≡ true → split_code f ≡ some (front f, back f)
unfolding split_code
split_code-parts f h =
    let l = valid_length f 5 h in
    let t = length-take_le 3 (split f) (omega arith) in
    rw
      (
        h,
        split_n-split 3 f (omega arith),
        take_all 3 (take 3 (split f)) (back f ∷ []) t,
        get_or_at 3 (take 3 (split f)) (back f) t,
      )
      refl

split_code_malformed : (f : Bytes) → valid_words f 5 ≡ false → split_code f ≡ none
unfolding split_code
split_code_malformed f h = rw h refl

front_valid : (f : Bytes) → valid_words f 5 ≡ true → valid_words (front f) 3 ≡ true
front_valid f h =
    let l = valid_length f 5 h in
    valid_words-join (take 3 (split f)) 3 (length-take_le 3 (split f) (omega arith)) (omega arith)
      (AllPlain-take 3 (split f) (split-AllPlain f))
      (fit_parts (take 3 (split f)) (drop 3 (split f))
        (rw (take-append-drop 3 (split f)) (valid_fit f 5 h))).0

back_valid : (f : Bytes) → valid_words f 5 ≡ true → valid_words (back f) 2 ≡ true
back_valid f h =
    let l = valid_length f 5 h in
    valid_words-join (drop 3 (split f)) 2 (omega (arith, length-drop 3 (split f))) (omega arith)
      (AllPlain-drop 3 (split f) (split-AllPlain f))
      (fit_parts (take 3 (split f)) (drop 3 (split f))
        (rw (take-append-drop 3 (split f)) (valid_fit f 5 h))).1

full_code-parts : (f : Bytes) → valid_words f 5 ≡ true → full_code (front f) (back f) ≡ f
full_code-parts f h =
    let l = valid_length f 5 h in
    sym (
      join_words-append (take 3 (split f)) (drop 3 (split f))
        (omega (arith, length-take_le 3 (split f) (omega arith)))
        (omega (arith, length-drop 3 (split f))))
    ∙ ap join_words (take-append-drop 3 (split f))
    ∙ join_words-split f

-- SplitCode accepts exactly the five-word codes, and is then the inverse of FullCode: the parts are
-- a nameplate that ValidateCode accepts and a two-word secret, and joined they are the code.
pub split_code_iff :
    (f : Bytes)
    → ((valid_words f 5 ≡ false) × (split_code f ≡ none))
      ⊎ ((valid_words f 5 ≡ true)
          × ((n : Bytes) × (s : Bytes) × (split_code f ≡ some (n, s))
              × (full_code n s ≡ f)
              × (validate_code n ≡ true)
              × (valid_words s secret_words ≡ true)))
unfolding validate_code
split_code_iff f = elim (Bool-cases (valid_words f 5)) [
  | inl h ↦ inr (
    h,
    (front f, back f, split_code-parts f h, full_code-parts f h, front_valid f h, back_valid f h),
  )
  | inr h ↦ inl (h, split_code_malformed f h)
]

-- The payload of a join is the same for every secret: it names the nameplate, which the server's
-- ValidateCode accepts, and nothing of the secret.
pub join_payload-full_code :
    (n s t : Bytes)
    → valid_words n 3 ≡ true
    → valid_words s secret_words ≡ true
    → valid_words t secret_words ≡ true
    → (join_payload (full_code n s) ≡ join_payload (full_code n t))
      × (join_payload (full_code n s) ≡ some (record { code = n; protocol_version = version }))
      × (validate_code n ≡ true)
unfolding join_payload validate_code
join_payload-full_code n s t h k j = (
  rw (split_code-full_code n s h k, split_code-full_code n t h j) refl,
  rw (split_code-full_code n s h k) refl,
  h,
)
