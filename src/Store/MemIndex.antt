-- ===== src/Store/MemIndex.antt =====
-- The two maps of MemStore (internal/store/store.go) agree: a code leads to the slot that has it.
use gmmff.Prelude.{◌≡◌, inl, inr, none, some, arith, Option-cases, Bool-cases}
use gmmff.Prelude.Bytes.{Bytes, bytes_eq, bytes_eq_iff}
use gmmff.Prelude.Assoc.{lookup, lookup-insert, lookup-delete}
use gmmff.Slot.{Slot}
use gmmff.Store.Mem.{MemStore, empty, create, update, delete, stored}
use gmmff.Store.MemCodes.{
  IsIndexed, empty-IsIndexed, with_slot, create_free, create_taken, stored-ne,
}

with_slot-pointed :
    (s : Slot) (m : MemStore) (c i : Bytes)
    → IsIndexed m
    → stored s.id m ≡ none
    → lookup c (with_slot s m).codes ≡ some i
    → (x : Slot) × (stored i (with_slot s m) ≡ some x) × (x.code ≡ c)
with_slot-pointed s m c i v fresh h = elim (Bool-cases (bytes_eq s.code c)) [
  | inl e ↦ (
    s,
    ground (
      arith,
      lookup-insert s.code c s.id m.codes,
      lookup-insert s.id i s m.slots,
      bytes_eq_iff s.id i,
    ),
    (bytes_eq_iff s.code c).0 e,
  )
  | inr e ↦
      let (x, here, has) = v.pointed c i (ground (arith, lookup-insert s.code c s.id m.codes)) in
      (
        x,
        ground (
          arith,
          lookup-insert s.id i s m.slots,
          bytes_eq_iff s.id i,
          stored-ne i s.id m x here fresh,
        ),
        has,
      )
]

with_slot-IsIndexed :
    (s : Slot) (m : MemStore)
    → IsIndexed m
    → stored s.id m ≡ none
    → lookup s.code m.codes ≡ none
    → IsIndexed (with_slot s m)
with_slot-IsIndexed s m v fresh free = record {
  by_id = λ i x h. ground (arith, lookup-insert s.id i s m.slots, bytes_eq_iff s.id i, v.by_id i x);
  indexed = λ i x h. ground (
    arith,
    lookup-insert s.id i s m.slots,
    bytes_eq_iff s.id i,
    v.indexed i x,
    lookup-insert s.code x.code s.id m.codes,
    bytes_eq_iff s.code x.code,
  );
  pointed = λ c i h. with_slot-pointed s m c i v fresh h;
}

create-IsIndexed :
    (s : Slot) (m : MemStore) → IsIndexed m → stored s.id m ≡ none → IsIndexed (create s m).0
create-IsIndexed s m v fresh = elim (Option-cases (lookup s.code m.codes)) [
  | inl e ↦ rw (create_free s m e) (with_slot-IsIndexed s m v fresh e)
  | inr (i, e) ↦ rw (create_taken s m i e) v
]

update-IsIndexed :
    (s t : Slot) (m : MemStore)
    → IsIndexed m
    → stored s.id m ≡ some t
    → t.code ≡ s.code
    → IsIndexed (update s m).0
unfolding update
update-IsIndexed s t m v old same = record {
  by_id = λ i x h. ground (arith, lookup-insert s.id i s m.slots, bytes_eq_iff s.id i, v.by_id i x);
  indexed = λ i x h.
      ground (
        arith,
        lookup-insert s.id i s m.slots,
        bytes_eq_iff s.id i,
        v.indexed i x,
        v.indexed s.id t,
      );
  pointed = λ c i h.
      let (x, here, has) = v.pointed c i h in
      elim (Bool-cases (bytes_eq s.id i)) [
        | inl e ↦
            (s, ground (arith, lookup-insert s.id i s m.slots), ground (arith, bytes_eq_iff s.id i))
        | inr e ↦ (x, ground (arith, lookup-insert s.id i s m.slots), has)
      ];
}

-- Delete of a stored slot, and of an identifier that stores none.
delete_stored :
    (k : Bytes) (m : MemStore) (s : Slot)
    → IsIndexed m
    → stored k m ≡ some s
    → IsIndexed (delete k m).0
unfolding delete
delete_stored k m s v old = record {
  by_id = λ i x h. ground (arith, lookup-delete k i m.slots, v.by_id i x);
  indexed = λ i x h. ground (
    arith,
    lookup-delete k i m.slots,
    bytes_eq_iff k i,
    lookup-delete s.code x.code m.codes,
    bytes_eq_iff s.code x.code,
    v.indexed i x,
    v.indexed k s,
  );
  pointed = λ c i h.
      let (x, here, has) = v.pointed c i (ground (arith, lookup-delete s.code c m.codes)) in
      (
        x,
        ground (
          arith,
          lookup-delete k i m.slots,
          bytes_eq_iff k i,
          lookup-delete s.code c m.codes,
          bytes_eq_iff s.code c,
        ),
        has,
      );
}

delete_missing :
    (k : Bytes) (m : MemStore) → IsIndexed m → stored k m ≡ none → IsIndexed (delete k m).0
unfolding delete
delete_missing k m v old = record {
  by_id = λ i x h. ground (arith, lookup-delete k i m.slots, v.by_id i x);
  indexed = λ i x h. ground (arith, lookup-delete k i m.slots, v.indexed i x);
  pointed = λ c i h.
      let (x, here, has) = v.pointed c i (ground arith) in
      (
        x,
        ground (arith, lookup-delete k i m.slots, bytes_eq_iff k i, stored-ne i k m x here old),
        has,
      );
}

delete-IsIndexed : (k : Bytes) (m : MemStore) → IsIndexed m → IsIndexed (delete k m).0
delete-IsIndexed k m v = elim (Option-cases (stored k m)) [
  | inl e ↦ delete_missing k m v e
  | inr (t, e) ↦ delete_stored k m t v e
]

-- The states that the broker can bring MemStore into: it creates slots under new identifiers, and
-- updates slots that are stored, whose codes do not change.
pub data Reached : MemStore → Type 0 where
  starts : Reached empty
  creates : {m : MemStore} (s : Slot) → Reached m → stored s.id m ≡ none → Reached (create s m).0
  updates :
      {m : MemStore} (s t : Slot)
      → Reached m
      → stored s.id m ≡ some t
      → t.code ≡ s.code
      → Reached (update s m).0
  deletes : {m : MemStore} (k : Bytes) → Reached m → Reached (delete k m).0

-- In every state that the broker can bring it into, the two maps of MemStore agree: a slot stands
-- under its own identifier, its code leads to it, and a code that leads anywhere leads to a stored
-- slot that has it.
pub Reached-IsIndexed : {m : MemStore} → Reached m → IsIndexed m
Reached-IsIndexed starts = empty-IsIndexed
Reached-IsIndexed (creates {m} s r fresh) = create-IsIndexed s m (Reached-IsIndexed r) fresh
Reached-IsIndexed (updates {m} s t r old same) =
    update-IsIndexed s t m (Reached-IsIndexed r) old same
Reached-IsIndexed (deletes {m} k r) = delete-IsIndexed k m (Reached-IsIndexed r)
