-- ===== src/Store/Tests.antt =====
-- MemStore (internal/store/store.go) on concrete slots.
use gmmff.Prelude.{◌≡◌, refl, false, none, []}
use gmmff.Prelude.Bytes.{Bytes, codes, bytes_eq}
use gmmff.Prelude.Assoc.{lookup, insert}
use gmmff.Slot.{Slot, waiting}
use gmmff.Store.{found}
use gmmff.Store.Mem.{empty, create, update, delete, get_by_code, stored}
use gmmff.Store.MemCodes.{IsIndexed}
use gmmff.Store.MemIndex.{Reached, starts, creates, updates, deletes, Reached-IsIndexed}

abbrev slot_of : Bytes → Bytes → Slot
slot_of id code = record {
  id = id;
  code = code;
  state = waiting;
  session_type = codes "files";
  created_at = 0;
  expires_at = 600000000000;
  initiator_id = codes "alice";
  peer_ids = [];
  max_peers = 2;
  ever_full = false;
}

abbrev first : Slot
first = slot_of (codes "s1") (codes "amber-otter-seven")

abbrev second : Slot
second = slot_of (codes "s2") (codes "velvet-canyon-hill")

-- The second slot is created while the first is stored, updated, and the first is deleted.
history : Reached (delete first.id (update second (create second (create first empty).0).0).0).0
unfolding create lookup empty insert bytes_eq
history =
    deletes first.id
      (updates second second (creates second (creates first starts refl) refl) refl refl)

Reached-IsIndexed_example :
    IsIndexed (delete first.id (update second (create second (create first empty).0).0).0).0
Reached-IsIndexed_example = Reached-IsIndexed history

first-Reached : Reached (create first empty).0
unfolding lookup empty
first-Reached = creates first starts refl

first_stored : stored second.id (create first empty).0 ≡ none
unfolding create lookup empty insert bytes_eq
first_stored = refl

first_found : (get_by_code first.code (create first empty).0).1 ≡ found first
unfolding create lookup empty insert bytes_eq get_by_code
first_found = refl
