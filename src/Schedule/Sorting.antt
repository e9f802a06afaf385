-- ===== src/Schedule/Sorting.antt =====
-- dedupSorted in internal/schedule/cleanup.go.
use gmmff.Prelude.{
  ap, ◌≡◌, refl, sym, true, false, ◌||◌, List, [], ◌∷◌, ◌++◌, arith, Option, Bool-cases, inl, inr,
}
use gmmff.Prelude.Int.{eq_ℤ, ℤ, ltb_ℤ}
use gmmff.Prelude.Bytes.{Bytes}
use gmmff.Schedule.Config.{hops}
use gmmff.Prelude.{ℕ, zero, suc, ◌+◌, ◌^◌, ◌<◌, ◌≤◌}
use gmmff.Prelude.Int.{pos, ◌+ℤ◌}
use gmmff.Schedule.Config.{to_int64}
use gmmff.Schedule.Cron.{
  max_values, values_from, Parsed, parsed, invalid, panics, then_parse, parse_parts, parse_field,
  seen, sink, dedup, sort_onto, reversed, dedup_sorted,
}

abbrev AllLess : ℤ → List ℤ → Type 0
AllLess v [] = Unit {0}
AllLess v (x ∷ xs) = (ltb_ℤ x v ≡ true) × AllLess v xs

abbrev Descends : List ℤ → Type 0
Descends [] = Unit {0}
Descends (x ∷ xs) = AllLess x xs × Descends xs

AllLess-trans : (v w : ℤ) (xs : List ℤ) → ltb_ℤ v w ≡ true → AllLess v xs → AllLess w xs
AllLess-trans v w [] h a = tt
AllLess-trans v w (x ∷ xs) h (a, b) = (ground arith, AllLess-trans v w xs h b)

seen-sink : (u v : ℤ) (xs : List ℤ) → seen u (sink v xs) ≡ (eq_ℤ v u || seen u xs)
unfolding seen sink
seen-sink u v [] = refl
seen-sink u v (x ∷ xs) = elim (Bool-cases (ltb_ℤ v x)) [
  | inl e ↦ rw (e, seen-sink u v xs) (ground arith)
  | inr e ↦ rw e refl
]

AllLess-sink : (w v : ℤ) (xs : List ℤ) → ltb_ℤ v w ≡ true → AllLess w xs → AllLess w (sink v xs)
unfolding sink
AllLess-sink w v [] h a = (h, tt)
AllLess-sink w v (x ∷ xs) h (a, b) = elim (Bool-cases (ltb_ℤ v x)) [
  | inl e ↦ rw e (a, AllLess-sink w v xs h b)
  | inr e ↦ rw e (h, (a, b))
]

sink-Descends : (v : ℤ) (xs : List ℤ) → seen v xs ≡ false → Descends xs → Descends (sink v xs)
unfolding sink seen
sink-Descends v [] n d = (tt, tt)
sink-Descends v (x ∷ xs) n (a, d) = elim (Bool-cases (ltb_ℤ v x)) [
  | inl e ↦ rw e (AllLess-sink x v xs e a, sink-Descends v xs (ground (arith, n)) d)
  | inr e ↦
      let less : ltb_ℤ x v ≡ true = ground (arith, n, e) in
      rw e ((less, AllLess-trans x v xs less a), (a, d))
]

abbrev Apart : List ℤ → List ℤ → Type 0
Apart [] out = Unit {0}
Apart (v ∷ vs) out = (seen v out ≡ false) × Apart vs out

abbrev NoDup : List ℤ → Type 0
NoDup [] = Unit {0}
NoDup (v ∷ vs) = (seen v vs ≡ false) × NoDup vs

Apart-nil : (vs : List ℤ) → Apart vs []
unfolding seen
Apart-nil [] = tt
Apart-nil (v ∷ vs) = (refl, Apart-nil vs)

Apart-sink : (v : ℤ) (vs out : List ℤ) → seen v vs ≡ false → Apart vs out → Apart vs (sink v out)
unfolding seen
Apart-sink v [] out h a = tt
Apart-sink v (u ∷ vs) out h (a, b) =
    (ground (arith, seen-sink u v out, a, h), Apart-sink v vs out (ground (arith, h)) b)

sort_onto-Descends :
    (vs out : List ℤ) → NoDup vs → Apart vs out → Descends out → Descends (sort_onto vs out)
unfolding sort_onto
sort_onto-Descends [] out n a d = d
sort_onto-Descends (v ∷ vs) out (n, m) (a, b) d =
    sort_onto-Descends vs (sink v out) m (Apart-sink v vs out n b) (sink-Descends v out a d)

seen-sort_onto : (u : ℤ) (vs out : List ℤ) → seen u (sort_onto vs out) ≡ (seen u vs || seen u out)
unfolding sort_onto seen
seen-sort_onto u [] out = refl
seen-sort_onto u (v ∷ vs) out =
    rw (seen-sort_onto u vs (sink v out), seen-sink u v out) (ground arith)

seen-append : (u v : ℤ) (out : List ℤ) → seen u (out ++ v ∷ []) ≡ (seen u out || eq_ℤ v u)
unfolding seen
seen-append u v [] = ground arith
seen-append u v (x ∷ out) = rw (seen-append u v out) (ground arith)

NoDup-append : (v : ℤ) (out : List ℤ) → seen v out ≡ false → NoDup out → NoDup (out ++ v ∷ [])
unfolding seen
NoDup-append v [] h n = (refl, tt)
NoDup-append v (x ∷ out) h (n, m) =
    (ground (arith, seen-append x v out, n, h), NoDup-append v out (ground (arith, h)) m)

dedup-NoDup : (vs out : List ℤ) → NoDup out → NoDup (dedup vs out)
unfolding dedup
dedup-NoDup [] out n = n
dedup-NoDup (v ∷ vs) out n = elim (Bool-cases (seen v out)) [
  | inl e ↦ rw e (dedup-NoDup vs out n)
  | inr e ↦ rw e (dedup-NoDup vs (out ++ v ∷ []) (NoDup-append v out e n))
]

seen_same : (u v : ℤ) (out : List ℤ) → eq_ℤ v u ≡ true → seen v out ≡ seen u out
unfolding seen
seen_same u v [] h = refl
seen_same u v (x ∷ out) h = ground (arith, h, seen_same u v out h)

seen-dedup : (u : ℤ) (vs out : List ℤ) → seen u (dedup vs out) ≡ (seen u out || seen u vs)
unfolding dedup seen
seen-dedup u [] out = ground arith
seen-dedup u (v ∷ vs) out = elim (Bool-cases (seen v out)) [
  | inl e ↦ rw (e, seen-dedup u vs out) (ground (arith, e, seen_same u v out))
  | inr e ↦ rw (e, seen-dedup u vs (out ++ v ∷ []), seen-append u v out) (ground arith)
]

abbrev AllMore : ℤ → List ℤ → Type 0
AllMore v [] = Unit {0}
AllMore v (x ∷ xs) = (ltb_ℤ v x ≡ true) × AllMore v xs

-- Strictly increasing.
abbrev pub Ascends : List ℤ → Type 0
Ascends [] = Unit {0}
Ascends (x ∷ xs) = AllMore x xs × Ascends xs

abbrev Under : List ℤ → List ℤ → Type 0
Under [] out = Unit {0}
Under (v ∷ vs) out = AllMore v out × Under vs out

Under-cons : (v : ℤ) (vs out : List ℤ) → AllLess v vs → Under vs out → Under vs (v ∷ out)
Under-cons v [] out a u = tt
Under-cons v (x ∷ vs) out (a, b) (u, w) = ((a, u), Under-cons v vs out b w)

Under-nil : (vs : List ℤ) → Under vs []
Under-nil [] = tt
Under-nil (v ∷ vs) = (tt, Under-nil vs)

reversed-Ascends :
    (vs out : List ℤ) → Descends vs → Under vs out → Ascends out → Ascends (reversed vs out)
reversed-Ascends [] out d u a = a
reversed-Ascends (v ∷ vs) out (l, d) (u, w) a =
    reversed-Ascends vs (v ∷ out) d (Under-cons v vs out l w) (u, a)

seen-reversed : (u : ℤ) (vs out : List ℤ) → seen u (reversed vs out) ≡ (seen u vs || seen u out)
unfolding seen
seen-reversed u [] out = refl
seen-reversed u (v ∷ vs) out = rw (seen-reversed u vs (v ∷ out)) (ground arith)

-- dedupSorted gives a strictly increasing list with exactly the values that were put in.
pub dedup_sorted-Ascends :
    (vs : List ℤ) → Ascends (dedup_sorted vs) × ((u : ℤ) → seen u (dedup_sorted vs) ≡ seen u vs)
unfolding dedup_sorted
dedup_sorted-Ascends vs =
    let ds = dedup vs [] in
    (
      reversed-Ascends (sort_onto ds []) []
          (sort_onto-Descends ds [] (dedup-NoDup vs [] tt) (Apart-nil ds) tt)
          (Under-nil (sort_onto ds [])) tt,
      λ u.
          rw (seen-reversed u (sort_onto ds []) [], seen-sort_onto u ds [], seen-dedup u vs [])
            (unfold seen in ground arith),
    )

parsed-same : {A : Type 0} (x y : A) → parsed x ≡ parsed y → x ≡ y
parsed-same x y h = cc

module _ (atoi : Bytes → Option ℤ) where
  -- The values of a field, from those of its parts.
  abbrev pub ValuesOf : Bytes → (least most : ℤ) → List ℤ → Type 0
  ValuesOf field least most vs =
      (ws : List ℤ) × ((parse_parts atoi (hops field) least most ≡ parsed ws)
        × (Ascends vs × ((u : ℤ) → seen u vs ≡ seen u ws)))

  dedup_sorted-ValuesOf :
      (field : Bytes) (least most : ℤ) (vs : List ℤ) (r : Parsed (List ℤ))
      → parse_parts atoi (hops field) least most ≡ r
      → then_parse r (λ ws. parsed (dedup_sorted ws)) ≡ parsed vs
      → ValuesOf field least most vs
  dedup_sorted-ValuesOf field least most vs (parsed ws) e h =
      let (a, s) = dedup_sorted-Ascends ws in
      let same = parsed-same (dedup_sorted ws) vs h in
      (ws, (e, (rw (sym same) a, λ u. rw (sym same) (s u))))
  dedup_sorted-ValuesOf field least most vs invalid e h = cc
  dedup_sorted-ValuesOf field least most vs panics e h = cc

  -- If a field of a cron expression is accepted, then all its parts are, and its values are strictly
  -- increasing and are exactly those of the parts.
  pub parse_field-ValuesOf :
      (field : Bytes) (least most : ℤ) (vs : List ℤ)
      → parse_field atoi field least most ≡ parsed vs
      → ValuesOf field least most vs
  unfolding parse_field
  parse_field-ValuesOf field least most vs h =
      dedup_sorted-ValuesOf field least most vs (parse_parts atoi (hops field) least most) refl h

next_value : (v k : ℕ) → v < 2 ^ 62 → k < 2 ^ 62 → to_int64 (pos v +ℤ pos (suc k)) ≡ pos (v + suc k)
unfolding to_int64 ◌+ℤ◌
next_value v k h i = ground arith

-- Fuel for every number from `v` to `hi` is enough, unless a step overflows.
values_from_enough :
    (f m v hi k : ℕ)
    → hi < v + f
    → f ≤ m
    → hi < 2 ^ 62
    → k < 2 ^ 62
    → values_from m (pos v) (pos hi) (pos (suc k)) ≡ values_from f (pos v) (pos hi) (pos (suc k))
unfolding values_from
values_from_enough zero zero v hi k h le b c = refl
values_from_enough (suc f) zero v hi k h le b c = absurd (omega arith)
values_from_enough zero (suc m) v hi k h le b c =
    let over : ltb_ℤ (pos hi) (pos v) ≡ true = ground arith in rw over refl
values_from_enough (suc f) (suc m) v hi k h le b c = elim (Bool-cases (ltb_ℤ (pos hi) (pos v))) [
  | inl e ↦ rw e refl
  | inr e ↦
      rw (e, next_value v k (ground arith) c)
        (ap (λ l. pos v ∷ l)
          (values_from_enough f m (v + suc k) hi k (omega arith) (omega arith) b c))
]

-- In a cron field the fuel is enough for every range and every step that does not overflow.
values_from-max_values :
    (m v hi k : ℕ)
    → hi < 60
    → k < 2 ^ 62
    → max_values ≤ m
    → values_from m (pos v) (pos hi) (pos (suc k))
      ≡ values_from max_values (pos v) (pos hi) (pos (suc k))
values_from-max_values m v hi k h c le =
    values_from_enough max_values m v hi k (omega arith) le (omega arith) c
