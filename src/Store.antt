-- ===== src/Store.antt =====
-- internal/store/store.go: the interface SlotStore that MemStore and the Redis-backed Store satisfy.
-- An operation takes the state of the store and returns the new one: a read may change it too, since
-- a command of the Redis store may fail and time passes while it runs.
pub mod Mem
pub mod MemCodes
pub mod MemIndex
pub mod Redis
mod Tests
use gmmff.Prelude.{◌≡◌, ◌≢◌, ◌⊎◌, Option, none, some}
use gmmff.Prelude.Bytes.{Bytes}
use gmmff.Slot.{Slot}

-- slot.ErrSlotNotFound, ErrCodeTaken, and an error of the database or of the JSON decoder.
pub data StoreError : Type 0 where
  slot_not_found code_taken failed : StoreError

-- (*slot.Slot, error)
pub data Fetched : Type 0 where
  found : Slot → Fetched
  missed : StoreError → Fetched

-- The operations, and what the broker relies on: no operation makes a stored slot up. `stored` is
-- what an undisturbed lookup would find; slots may expire at any time.
pub record SlotStore : Type 1 where
  pub State : Type 0
  pub stored : Bytes → State → Option Slot
  pub create : Slot → State → State × Option StoreError
  pub update : Slot → State → State × Option StoreError
  pub delete : Bytes → State → State × Option StoreError
  pub get_by_id : Bytes → State → State × Fetched
  pub get_by_code : Bytes → State → State × Fetched
  pub create_origin :
      (s : Slot) (st : State) (i : Bytes) (x : Slot)
      → stored i (create s st).0 ≡ some x
      → (stored i st ≡ some x) ⊎ ((x ≡ s) × (i ≡ s.id))
  pub update_origin :
      (s : Slot) (st : State) (i : Bytes) (x : Slot)
      → stored i (update s st).0 ≡ some x
      → (stored i st ≡ some x) ⊎ ((x ≡ s) × (i ≡ s.id))
  pub delete_origin :
      (k : Bytes) (st : State) (i : Bytes) (x : Slot)
      → stored i (delete k st).0 ≡ some x
      → stored i st ≡ some x
  pub delete_gone :
      (k : Bytes) (st : State) → (delete k st).1 ≡ none → stored k (delete k st).0 ≡ none
  pub get_by_id_origin :
      (k : Bytes) (st : State) (i : Bytes) (x : Slot)
      → stored i (get_by_id k st).0 ≡ some x
      → stored i st ≡ some x
  pub get_by_id_found :
      (k : Bytes) (st : State) (x : Slot) → (get_by_id k st).1 ≡ found x → stored k st ≡ some x
  pub get_by_code_origin :
      (c : Bytes) (st : State) (i : Bytes) (x : Slot)
      → stored i (get_by_code c st).0 ≡ some x
      → stored i st ≡ some x
  pub get_by_code_found :
      (c : Bytes) (st : State) (x : Slot)
      → (get_by_code c st).1 ≡ found x
      → (i : Bytes) × (stored i st ≡ some x)
