-- ===== src/Store/Mem.antt =====
-- MemStore of internal/store/store.go. Its maps hold pointers, which the broker updates in place and
-- then passes to Update: a handler of the hub holds no pointer beyond its call, so the records that
-- Update writes stand for them. Nothing expires here.
use gmmff.Prelude.{◌≡◌, ◌⊎◌, Option, none, some, [], arith}
use gmmff.Prelude.Bytes.{Bytes, bytes_eq_iff}
use gmmff.Prelude.Assoc.{Assoc, lookup, insert, lookup-insert, lookup-delete, lookup-delete_self}
use gmmff.Prelude.Assoc
use gmmff.Slot.{Slot}
use gmmff.Store.{StoreError, slot_not_found, code_taken, Fetched, found, missed, SlotStore}

pub record MemStore : Type 0 where
  pub slots : Assoc Slot
  pub codes : Assoc Bytes

unfoldable pub empty : MemStore
empty = record { slots = []; codes = [] }

abbrev is_taken : Option Bytes → MemStore → MemStore → MemStore × Option StoreError
is_taken none old new = (new, none)
is_taken (some _) old new = (old, some code_taken)

unfoldable pub create : Slot → MemStore → MemStore × Option StoreError
create s m =
    is_taken (lookup s.code m.codes) m
      (record m { slots = insert s.id s m.slots; codes = insert s.code s.id m.codes })

unfoldable pub update : Slot → MemStore → MemStore × Option StoreError
update s m = (record m { slots = insert s.id s m.slots }, none)

abbrev without_code : Option Slot → Assoc Bytes → Assoc Bytes
without_code none codes = codes
without_code (some s) codes = Assoc.delete s.code codes

unfoldable pub delete : Bytes → MemStore → MemStore × Option StoreError
delete id m = (
  record { slots = Assoc.delete id m.slots; codes = without_code (lookup id m.slots) m.codes },
  none,
)

abbrev pub fetched : Option Slot → Fetched
fetched none = missed slot_not_found
fetched (some s) = found s

unfoldable pub get_by_id : Bytes → MemStore → MemStore × Fetched
get_by_id id m = (m, fetched (lookup id m.slots))

resolve : Option Bytes → MemStore → MemStore × Fetched
unfolding get_by_id
resolve none m = (m, missed slot_not_found)
resolve (some id) m = get_by_id id m

unfoldable pub get_by_code : Bytes → MemStore → MemStore × Fetched
unfolding resolve
get_by_code code m = resolve (lookup code m.codes) m

abbrev pub stored : Bytes → MemStore → Option Slot
stored id m = lookup id m.slots

pub create_origin :
    (s : Slot) (m : MemStore) (i : Bytes) (x : Slot)
    → stored i (create s m).0 ≡ some x
    → (stored i m ≡ some x) ⊎ ((x ≡ s) × (i ≡ s.id))
unfolding create
create_origin s m i x h = ground (arith, lookup-insert s.id i s m.slots, bytes_eq_iff s.id i)

pub update_origin :
    (s : Slot) (m : MemStore) (i : Bytes) (x : Slot)
    → stored i (update s m).0 ≡ some x
    → (stored i m ≡ some x) ⊎ ((x ≡ s) × (i ≡ s.id))
unfolding update
update_origin s m i x h = ground (arith, lookup-insert s.id i s m.slots, bytes_eq_iff s.id i)

pub delete_origin :
    (k : Bytes) (m : MemStore) (i : Bytes) (x : Slot)
    → stored i (delete k m).0 ≡ some x
    → stored i m ≡ some x
unfolding delete
delete_origin k m i x h = ground (arith, lookup-delete k i m.slots)

pub delete_gone :
    (k : Bytes) (m : MemStore) → (delete k m).1 ≡ none → stored k (delete k m).0 ≡ none
unfolding delete
delete_gone k m h = lookup-delete_self k m.slots

pub get_by_id_origin :
    (k : Bytes) (m : MemStore) (i : Bytes) (x : Slot)
    → stored i (get_by_id k m).0 ≡ some x
    → stored i m ≡ some x
unfolding get_by_id
get_by_id_origin k m i x h = h

pub get_by_id_found :
    (k : Bytes) (m : MemStore) (x : Slot) → (get_by_id k m).1 ≡ found x → stored k m ≡ some x
unfolding get_by_id
get_by_id_found k m x h = ground arith

pub get_by_code_origin :
    (c : Bytes) (m : MemStore) (i : Bytes) (x : Slot)
    → stored i (get_by_code c m).0 ≡ some x
    → stored i m ≡ some x
unfolding get_by_code
get_by_code_origin c m i x h = ground arith

resolve_found :
    (o : Option Bytes) (m : MemStore) (x : Slot)
    → (resolve o m).1 ≡ found x
    → (i : Bytes) × (stored i m ≡ some x)
unfolding resolve
resolve_found none m x h = cc
resolve_found (some i) m x h = (i, get_by_id_found i m x h)

pub get_by_code_found :
    (c : Bytes) (m : MemStore) (x : Slot)
    → (get_by_code c m).1 ≡ found x
    → (i : Bytes) × (stored i m ≡ some x)
unfolding get_by_code
get_by_code_found c m x h = resolve_found (lookup c m.codes) m x h

-- MemStore keeps the promises of the interface.
abbrev pub mem_store : SlotStore
mem_store = record {
  State = MemStore;
  stored = stored;
  create = create;
  update = update;
  delete = delete;
  get_by_id = get_by_id;
  get_by_code = get_by_code;
  create_origin = create_origin;
  update_origin = update_origin;
  delete_origin = delete_origin;
  delete_gone = delete_gone;
  get_by_id_origin = get_by_id_origin;
  get_by_id_found = get_by_id_found;
  get_by_code_origin = get_by_code_origin;
  get_by_code_found = get_by_code_found;
}
