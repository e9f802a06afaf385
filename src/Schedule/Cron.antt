-- ===== src/Schedule/Cron.antt =====
-- The fields of a cron expression in internal/schedule/cleanup.go.
use gmmff.Prelude.{
  ℕ, zero, suc, Bool, false, not, ◌||◌, List, [], ◌∷◌, ◌++◌, Option, none, some, ◌==◌,
  if◌then◌else◌,
}
use gmmff.Prelude.Int.{eq_ℤ, ℤ, pos, ltb_ℤ, ◌+ℤ◌}
use gmmff.Prelude.Bytes.{Bytes, codes, bytes_eq}
use gmmff.Schedule.Config.{to_int64, hops}

-- A parser gives a value, an error, or a panic on an index out of range.
pub data Parsed (A : Type 0) : Type 0 where
  parsed : A → Parsed A
  invalid panics : Parsed A

abbrev pub then_parse : {A B : Type 0} → Parsed A → (A → Parsed B) → Parsed B
then_parse (parsed a) k = k a
then_parse invalid k = invalid
then_parse panics k = panics

-- strings.SplitN(s, sep, 2), `none` where the separator does not occur.
unfoldable pub cut_at : ℕ → Bytes → Option (Bytes × Bytes)
cut_at sep [] = none
cut_at sep (c ∷ s) =
    let rest = cut_at sep s in
    if c == sep then some ([], s) else elim rest [ none ↦ none | some (a, b) ↦ some (c ∷ a, b) ]

-- for v := lo; v <= hi; v += step, in int64 and with fuel.
unfoldable pub values_from : ℕ → (v hi step : ℤ) → List ℤ
unfolding to_int64
values_from zero v hi step = []
values_from (suc n) v hi step =
    let rest = values_from n (to_int64 (v +ℤ step)) hi step in if ltb_ℤ hi v then [] else v ∷ rest

-- More than the values of a field, and than the rounds after which an overflow leaves the range.
abbrev pub max_values : ℕ
max_values = 256

-- The first loop of dedupSorted; the values that were seen are those in `out`.
unfoldable pub seen : ℤ → List ℤ → Bool
seen v [] = false
seen v (x ∷ xs) = eq_ℤ x v || seen v xs

-- Insertion sort: the sorted part is kept from its end on, as the inner loop moves from there.
unfoldable pub sink : ℤ → List ℤ → List ℤ
sink v [] = v ∷ []
sink v (x ∷ xs) = let rest = sink v xs in if ltb_ℤ v x then x ∷ rest else v ∷ x ∷ xs

-- The loop that keeps the first of equal values.
unfoldable pub dedup : List ℤ → List ℤ → List ℤ
unfolding seen
dedup [] out = out
dedup (v ∷ vs) out = dedup vs (if seen v out then out else out ++ v ∷ [])

unfoldable pub sort_onto : List ℤ → List ℤ → List ℤ
unfolding sink
sort_onto [] out = out
sort_onto (v ∷ vs) out = sort_onto vs (sink v out)

abbrev pub reversed : List ℤ → List ℤ → List ℤ
reversed [] out = out
reversed (v ∷ vs) out = reversed vs (v ∷ out)

unfoldable pub dedup_sorted : List ℤ → List ℤ
unfolding dedup sort_onto
dedup_sorted vals = reversed (sort_onto (dedup vals []) []) []

-- `atoi` is strconv.Atoi.
module _ (atoi : Bytes → Option ℤ) where
  abbrev pub in_bounds : (lo hi least most : ℤ) → Parsed (ℤ × ℤ)
  in_bounds lo hi least most =
      if ltb_ℤ lo least || ltb_ℤ most hi || ltb_ℤ hi lo then invalid else parsed (lo, hi)

  -- Both numbers are read before the errors are looked at.
  abbrev pub both : Option ℤ → Option ℤ → (least most : ℤ) → Parsed (ℤ × ℤ)
  both none hi least most = invalid
  both (some lo) none least most = invalid
  both (some lo) (some hi) least most = in_bounds lo hi least most

  abbrev pub range_of : Option (Bytes × Bytes) → (least most : ℤ) → Parsed (ℤ × ℤ)
  range_of none least most = panics
  range_of (some (a, b)) least most = both (atoi a) (atoi b) least most

  unfoldable pub parse_range : Bytes → (least most : ℤ) → Parsed (ℤ × ℤ)
  unfolding cut_at
  parse_range s least most = range_of (cut_at b'-' s) least most

  abbrev pub stepped : (step : ℤ) → ℤ × ℤ → Parsed (List ℤ)
  stepped step (lo, hi) = parsed (values_from max_values lo hi step)

  abbrev pub step_of : Bytes → Option ℤ → (least most : ℤ) → Parsed (List ℤ)
  step_of a none least most = invalid
  step_of a (some step) least most =
      if not (ltb_ℤ (pos 0) step)
      then invalid
      else if bytes_eq a (codes "*")
      then stepped step (least, most)
      else then_parse (parse_range a least most) (stepped step)

  unfoldable pub parse_range_part : Bytes → (least most : ℤ) → Parsed (List ℤ)
  unfolding parse_range values_from
  parse_range_part part least most = then_parse (parse_range part least most) (stepped (pos 1))

  unfoldable pub parse_wildcard_part : (least most : ℤ) → List ℤ
  unfolding values_from
  parse_wildcard_part least most = values_from max_values least most (pos 1)

  abbrev pub literal_of : Option ℤ → (least most : ℤ) → Parsed (List ℤ)
  literal_of none least most = invalid
  literal_of (some n) least most =
      if ltb_ℤ n least || ltb_ℤ most n then invalid else parsed (n ∷ [])

  abbrev pub plain_part : Bytes → Option (Bytes × Bytes) → (least most : ℤ) → Parsed (List ℤ)
  plain_part part (some ab) least most = parse_range_part part least most
  plain_part part none least most =
      if bytes_eq part (codes "*")
      then parsed (parse_wildcard_part least most)
      else literal_of (atoi part) least most

  abbrev pub field_part : Bytes → Option (Bytes × Bytes) → (least most : ℤ) → Parsed (List ℤ)
  field_part part (some (a, b)) least most = step_of a (atoi b) least most
  field_part part none least most = plain_part part (cut_at b'-' part) least most

  unfoldable pub parse_field_part : Bytes → (least most : ℤ) → Parsed (List ℤ)
  unfolding cut_at parse_range parse_range_part parse_wildcard_part values_from
  parse_field_part part least most = field_part part (cut_at b'/' part) least most

  unfoldable pub parse_parts : List Bytes → (least most : ℤ) → Parsed (List ℤ)
  unfolding parse_field_part
  parse_parts [] least most = parsed []
  parse_parts (p ∷ ps) least most =
      let rest = parse_parts ps least most in
      then_parse (parse_field_part p least most) λ vs. then_parse rest λ ws. parsed (vs ++ ws)

  unfoldable pub parse_field : Bytes → (least most : ℤ) → Parsed (List ℤ)
  unfolding parse_parts dedup_sorted hops
  parse_field field least most =
      then_parse (parse_parts (hops field) least most) λ vs. parsed (dedup_sorted vs)
