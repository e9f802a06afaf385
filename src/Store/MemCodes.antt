-- ===== src/Store/MemCodes.antt =====
-- The codes of the slots in MemStore (internal/store/store.go), and what Create does with them.
use gmmff.Prelude.{
  ◌≡◌, ◌≢◌, refl, sym, ◌∙◌, ◌⊎◌, inl, inr, Option, none, some, arith, Option-cases, Bool-cases,
  if◌then◌else◌,
}
use gmmff.Prelude.Bytes.{Bytes, bytes_eq, bytes_eq_iff}
use gmmff.Prelude.Assoc.{lookup, insert, lookup-insert, lookup-insert_self}
use gmmff.Slot.{Slot}
use gmmff.Store.{slot_not_found, code_taken, Fetched, found, missed}
use gmmff.Store.Mem.{MemStore, empty, create, get_by_id, get_by_code, stored, fetched}

-- Each slot stands under its identifier, its code points to it, and every code points to a slot
-- that has it.
pub record IsIndexed (m : MemStore) : Type 0 where
  pub by_id : (i : Bytes) (s : Slot) → stored i m ≡ some s → s.id ≡ i
  pub indexed : (i : Bytes) (s : Slot) → stored i m ≡ some s → lookup s.code m.codes ≡ some i
  pub pointed :
      (c i : Bytes) → lookup c m.codes ≡ some i → (s : Slot) × (stored i m ≡ some s) × (s.code ≡ c)

pub empty-IsIndexed : IsIndexed empty
unfolding empty lookup
empty-IsIndexed = record {
  by_id = λ i s h. cc;
  indexed = λ i s h. cc;
  pointed = λ c i h. absurd (cc);
}

abbrev code_fetched : Option Bytes → MemStore → Fetched
code_fetched none m = missed slot_not_found
code_fetched (some i) m = fetched (stored i m)

get_by_code-fetched :
    (c : Bytes) (m : MemStore) → (get_by_code c m).1 ≡ code_fetched (lookup c m.codes) m
unfolding get_by_code
get_by_code-fetched c m = ground arith

abbrev pub with_slot : Slot → MemStore → MemStore
with_slot s m = record m { slots = insert s.id s m.slots; codes = insert s.code s.id m.codes }

pub create_free :
    (s : Slot) (m : MemStore) → lookup s.code m.codes ≡ none → create s m ≡ (with_slot s m, none)
unfolding create
create_free s m e = ground arith

pub create_taken :
    (s : Slot) (m : MemStore) (i : Bytes)
    → lookup s.code m.codes ≡ some i
    → create s m ≡ (m, some code_taken)
unfolding create
create_taken s m i e = ground arith

pub stored-ne :
    (i j : Bytes) (m : MemStore) (x : Slot) → stored i m ≡ some x → stored j m ≡ none → i ≢ j
stored-ne i j m x h k e = cc

-- A new slot hides no other code.
with_slot-other :
    (s : Slot) (m : MemStore) (c : Bytes) (o : Option Bytes)
    → IsIndexed m
    → stored s.id m ≡ none
    → c ≢ s.code
    → lookup c m.codes ≡ o
    → code_fetched (lookup c (with_slot s m).codes) (with_slot s m) ≡ code_fetched o m
with_slot-other s m c none v fresh ne e =
    ground (arith, lookup-insert s.code c s.id m.codes, bytes_eq_iff s.code c)
with_slot-other s m c (some i) v fresh ne e =
    let (x, here, _) = v.pointed c i e in
    ground (
      arith,
      lookup-insert s.code c s.id m.codes,
      bytes_eq_iff s.code c,
      lookup-insert s.id i s m.slots,
      bytes_eq_iff s.id i,
      stored-ne i s.id m x here fresh,
    )

with_slot_self :
    (s : Slot) (m : MemStore)
    → code_fetched (lookup s.code (with_slot s m).codes) (with_slot s m) ≡ found s
with_slot_self s m =
    ground (arith, lookup-insert_self s.code s.id m.codes, lookup-insert_self s.id s m.slots)

-- Create claims a free code for the new slot: the code then leads to it, and every other code leads
-- where it led. Where the code is taken, nothing changes and the error says so.
create-get_by_code :
    (s : Slot) (m : MemStore) (c : Bytes)
    → IsIndexed m
    → stored s.id m ≡ none
    → (((create s m).1 ≡ none)
        × (lookup s.code m.codes ≡ none)
        × ((get_by_code c (create s m).0).1
            ≡ (if bytes_eq s.code c then found s else (get_by_code c m).1)))
      ⊎ (((create s m).1 ≡ some code_taken) × (lookup s.code m.codes ≢ none) × ((create s m).0 ≡ m))
create-get_by_code s m c v fresh = elim (Option-cases (lookup s.code m.codes)) [
  | inl e ↦ inl (
    rw (create_free s m e) refl,
    e,
    rw (create_free s m e) (elim (Bool-cases (bytes_eq s.code c)) [
      | inl same ↦
          rw (same, sym ((bytes_eq_iff s.code c).0 same))
            (get_by_code-fetched s.code (with_slot s m) ∙ with_slot_self s m)
      | inr other ↦ rw other (
          get_by_code-fetched c (with_slot s m)
          ∙ with_slot-other s m c (lookup c m.codes) v fresh (ground (arith, bytes_eq_iff s.code c))
              refl
          ∙ sym (get_by_code-fetched c m))
    ]),
  )
  | inr (i, e) ↦ inr (rw (create_taken s m i e) refl, λ h. cc, rw (create_taken s m i e) refl)
]

-- A slot found by a code has that code and stands under its own identifier.
get_by_code-code :
    (c : Bytes) (m : MemStore) (s : Slot)
    → IsIndexed m
    → (get_by_code c m).1 ≡ found s
    → (s.code ≡ c) × ((get_by_id s.id m).1 ≡ found s)
unfolding get_by_id
get_by_code-code c m s v h = elim (Option-cases (lookup c m.codes)) [
  | inl e ↦ absurd (ground (arith, get_by_code-fetched c m))
  | inr (i, e) ↦
      let (x, here, has) = v.pointed c i e in
      ground (arith, get_by_code-fetched c m, v.by_id i x here)
]
