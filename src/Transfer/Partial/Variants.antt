-- ===== src/Transfer/Partial/Variants.antt =====
-- The free name that uniquePath of internal/transfer/transfer.go looks for.
use mathlib.Core.List.{append_assoc, append-nil, append_cancel_left, append_cancel_right}
use gmmff.Prelude.{
  ℕ, zero, suc, ◌+◌, ◌-◌, ◌<◌, ◌≤◌, ◌≡◌, ◌≢◌, refl, sym, ap, ◌∙◌, ◌⊎◌, inl, inr, Bool, true, false,
  ◌||◌, List, [], ◌∷◌, ◌++◌, none, some, ltb, ◌==◌, length, length-append, take, take-length-append,
  drop, get_or, if◌then◌else◌, arith, Bool-cases, Option-cases, ==_iff,
}
use gmmff.Prelude.Bytes.{Bytes, codes, bytes_eq, bytes_eq_iff}
use gmmff.Transfer.Names.{dot}
use gmmff.Transfer.Folder.{Local}
use gmmff.Transfer.Partial.Names.{meta_suffix, ext_of, base_of, variant, free_variant, unique_path}

-- A name is what stands before its extension, and the extension, which is empty or starts with a dot.
has_ext : (p : Bytes) → (b : Bytes) × (p ≡ b ++ ext_of p)
unfolding ext_of
has_ext [] = ([], refl)
has_ext (c ∷ s) = elim (Bool-cases (ltb 0 (length (ext_of s)))) [
  | inl e ↦ let (b, h) = has_ext s in (c ∷ b, rw e (ap (λ x. c ∷ x) h))
  | inr e ↦ elim (Bool-cases (c == dot)) [
    | inl d ↦ ([], rw (e, d) refl)
    | inr d ↦ (c ∷ s, rw (e, d, append-nil s) refl)
  ]
]

base_of-append : (p : Bytes) → base_of p ++ ext_of p ≡ p
unfolding base_of
base_of-append p =
    let (b, h) = has_ext p in
    let e : length p - length (ext_of p) ≡ length b =
      omega (arith, length-append b (ext_of p), ap length h) in
    ap (λ x. x ++ ext_of p) (rw e (ap (take (length b)) h ∙ take-length-append b (ext_of p)))
    ∙ sym h

ext_of-dot : (p : Bytes) → (ext_of p ≡ []) ⊎ ((s : Bytes) × (ext_of p ≡ dot ∷ s))
unfolding ext_of
ext_of-dot [] = inl refl
ext_of-dot (c ∷ s) = elim (Bool-cases (ltb 0 (length (ext_of s)))) [
  | inl e ↦ rw e (ext_of-dot s)
  | inr e ↦ elim (Bool-cases (c == dot)) [
    | inl d ↦ inr (s, rw (e, d) (ground arith))
    | inr d ↦ inl (rw (e, d) refl)
  ]
]

-- A variant has a blank where a sidecar file of the name has the dot of a suffix, or of its extension.
blank_not_dot : (e r t : Bytes) → (e ≡ []) ⊎ ((s : Bytes) × (e ≡ dot ∷ s)) → 0x20 ∷ r ≢ e ++ dot ∷ t
blank_not_dot e r t (inl h) k =
    let q : 0x20 ≡ dot = ap (λ x. get_or x 0 0) (k ∙ ap (λ x. x ++ dot ∷ t) h) in omega arith
blank_not_dot e r t (inr (s, h)) k =
    let q : 0x20 ≡ dot = ap (λ x. get_or x 0 0) (k ∙ ap (λ x. x ++ dot ∷ t) h) in omega arith

module _ (l : Local) where
  variant_not_meta : (path : Bytes) (i : ℕ) → variant l path i ≢ path ++ meta_suffix
  unfolding variant
  variant_not_meta path i k =
      let tail_of : ℕ → Bytes = λ i. codes " (" ++ (l.decimal i ++ (codes ")" ++ ext_of path)) in
      blank_not_dot (ext_of path) _ _ (ext_of-dot path) (
        append_cancel_left (base_of path) (tail_of i) (ext_of path ++ meta_suffix) (
          k
          ∙ ap (λ x. x ++ meta_suffix) (sym (base_of-append path))
          ∙ append_assoc (base_of path) (ext_of path) meta_suffix))

  variant_injective : (path : Bytes) (i j : ℕ) → variant l path i ≡ variant l path j → i ≡ j
  unfolding variant
  variant_injective path i j k =
      let tail_of : ℕ → Bytes = λ i. codes " (" ++ (l.decimal i ++ (codes ")" ++ ext_of path)) in
      l.decimal_injective i j (
        append_cancel_right (l.decimal i) (l.decimal j) (codes ")" ++ ext_of path)
          (ap (drop 2) (append_cancel_left (base_of path) (tail_of i) (tail_of j) k)))

abbrev pub has_name : Bytes → List Bytes → Bool
has_name g [] = false
has_name g (n ∷ ns) = bytes_eq g n || has_name g ns

-- One occurrence less.
abbrev less_one : Bytes → List Bytes → List Bytes
less_one g [] = []
less_one g (n ∷ ns) = if bytes_eq g n then ns else n ∷ less_one g ns

length-less_one :
    (g : Bytes) (ns : List Bytes) → has_name g ns ≡ true → suc (length (less_one g ns)) ≡ length ns
length-less_one g [] h = cc
length-less_one g (n ∷ ns) h = elim (Bool-cases (bytes_eq g n)) [
  | inl e ↦ rw e refl
  | inr e ↦ rw e (ap suc (length-less_one g ns (rw e at h)))
]

less_one_other :
    (g j : Bytes) (ns : List Bytes)
    → g ≢ j
    → has_name j ns ≡ true
    → has_name j (less_one g ns) ≡ true
less_one_other g j [] ne h = h
less_one_other g j (n ∷ ns) ne h =
    ground (arith, bytes_eq_iff g n, bytes_eq_iff j n, less_one_other g j ns ne)

-- Pigeonhole: a list that has all of n different values has at least n members.
holds_all :
    (f : ℕ → Bytes) (n i : ℕ) (names : List Bytes)
    → ((j k : ℕ) → f j ≡ f k → j ≡ k)
    → ((j : ℕ) → i ≤ j → j < i + n → has_name (f j) names ≡ true)
    → n ≤ length names
holds_all f zero i names inj all = omega arith
holds_all f (suc n) i names inj all =
    let rest = holds_all f n (suc i) (less_one (f i) names) inj (λ j lo hi.
      less_one_other (f i) (f j) names (λ e. omega (arith, inj i j e))
        (all j (omega arith) (omega arith))) in
    omega (arith, rest, length-less_one (f i) names (all i (omega arith) (omega arith)))

free_variant-none :
    (l : Local) (fuel i : ℕ) (path : Bytes) (s : l.folder.State)
    → free_variant l fuel i path s ≡ none
    → (j : ℕ) → i ≤ j
    → j < i + fuel
    → l.folder.is_absent (variant l path j) s ≡ false
unfolding free_variant
free_variant-none l zero i path s e j lo hi = absurd (omega arith)
free_variant-none l (suc fuel) i path s e j lo hi =
    elim (Bool-cases (l.folder.is_absent (variant l path i) s)) [
      | inl y ↦ cc
      | inr n ↦ elim (Bool-cases (i == j)) [
        | inl same ↦ rw (sym ((==_iff i j).0 same)) n
        | inr later ↦
            free_variant-none l fuel (suc i) path s (rw n at e) j (ground arith) (omega arith)
      ]
    ]

-- A name that uniquePath returns is not taken.
free_variant_absent :
    (l : Local) (fuel i : ℕ) (path p : Bytes) (s : l.folder.State)
    → free_variant l fuel i path s ≡ some p
    → (l.folder.is_absent p s ≡ true) × (k : ℕ) × (p ≡ variant l path k)
unfolding free_variant
free_variant_absent l zero i path p s e = cc
free_variant_absent l (suc fuel) i path p s e =
    elim (Bool-cases (l.folder.is_absent (variant l path i) s)) [
      | inl y ↦ (cc, i, cc)
      | inr n ↦ free_variant_absent l fuel (suc i) path p s (rw n at e)
    ]

pub unique_path_absent :
    (l : Local) (fuel : ℕ) (path p : Bytes) (s : l.folder.State)
    → unique_path l fuel path s ≡ some p
    → (l.folder.is_absent p s ≡ true) × (p ≢ path ++ meta_suffix)
unfolding unique_path
unique_path_absent l fuel path p s e = elim (Bool-cases (l.folder.is_absent path s)) [
  | inl y ↦
      let same : p ≡ path = cc in
      (cc, λ q. absurd (omega (arith, ap length (sym same ∙ q), length-append path meta_suffix)))
  | inr n ↦
      let (free, k, same) = free_variant_absent l fuel 1 path p s (rw n at e) in
      (free, λ q. variant_not_meta l path k (sym same ∙ q))
]

unique_path-none :
    (l : Local) (fuel : ℕ) (path : Bytes) (s : l.folder.State)
    → unique_path l fuel path s ≡ none
    → free_variant l fuel 1 path s ≡ none
unfolding unique_path
unique_path-none l fuel path s e = elim (Bool-cases (l.folder.is_absent path s)) [
  | inl y ↦ cc
  | inr n ↦ rw n at e
]

-- The loop of uniquePath ends: in a directory in which every name that is taken is one of `names`,
-- more rounds than `names` has members find a name, and one that is not taken.
pub unique_path_ends :
    (l : Local) (fuel : ℕ) (path : Bytes) (s : l.folder.State) (names : List Bytes)
    → ((g : Bytes) → l.folder.is_absent g s ≡ false → has_name g names ≡ true)
    → length names < fuel
    → (p : Bytes) × (unique_path l fuel path s ≡ some p) × (l.folder.is_absent p s ≡ true)
unique_path_ends l fuel path s names all enough = elim (Option-cases (unique_path l fuel path s)) [
  | inr (p, e) ↦ (p, e, (unique_path_absent l fuel path p s e).0)
  | inl e ↦ absurd (
      omega (
        arith,
        holds_all (variant l path) fuel 1 names (variant_injective l path) (λ j lo hi.
            all (variant l path j)
              (free_variant-none l fuel 1 path s (unique_path-none l fuel path s e) j lo hi)),
      ))
]
