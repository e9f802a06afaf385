-- ===== src/Slot/Tests.antt =====
-- Slots on concrete histories, for internal/slot/slot.go.
use gmmff.Prelude.{arith, ◌≡◌, ◌≢◌, refl, true, false, [], ◌∷◌, none}
use gmmff.Prelude.Int.{pos}
use gmmff.Prelude.Bytes.{Bytes, codes}
use gmmff.Slot.{waiting, active, full, Slot, new, clamp_peers, can_join, join}
use gmmff.Slot.Invariant.{
  Inv, joins, leaves, closes, apply, run, AllTaken, new-Inv, run-new-Inv, run-join_once_full,
}

abbrev alice : Bytes
alice = codes "alice"

abbrev bob : Bytes
bob = codes "bob"

abbrev carol : Bytes
carol = codes "carol"

-- A new slot of alice for three participants.
abbrev fresh : Slot
fresh = record {
  id = codes "s1";
  code = codes "amber-otter-seven";
  state = waiting;
  session_type = codes "files";
  created_at = 0;
  expires_at = 600000000000;
  initiator_id = alice;
  peer_ids = [];
  max_peers = 3;
  ever_full = false;
}

fresh-new : fresh ≡ new (codes "s1") (codes "amber-otter-seven") alice (codes "files") (pos 3) 0
unfolding new clamp_peers
fresh-new = refl

abbrev paired : Slot
paired = record fresh { peer_ids = bob ∷ []; state = active }

abbrev crowded : Slot
crowded = record fresh { peer_ids = bob ∷ carol ∷ []; state = full; ever_full = true }

fresh_joined : (join carol (join bob fresh).0).0 ≡ crowded
unfolding join can_join
fresh_joined = refl

fresh-Inv : Inv fresh
fresh-Inv =
    rw fresh-new (new-Inv (codes "s1") (codes "amber-otter-seven") alice (codes "files") (pos 3) 0)

abbrev new_slot : Slot
new_slot = new (codes "s1") (codes "amber-otter-seven") alice (codes "files") (pos 3) 0

run-new-Inv_example : Inv (
    run
      (joins bob ∷ joins carol ∷ leaves bob ∷ closes ∷ [])
      (new (codes "s1") (codes "amber-otter-seven") alice (codes "files") (pos 3) 0))
run-new-Inv_example =
    run-new-Inv (joins bob ∷ joins carol ∷ leaves bob ∷ closes ∷ []) (codes "s1")
      (codes "amber-otter-seven") alice (codes "files") (pos 3) 0

all_joined : AllTaken (run (joins bob ∷ joins carol ∷ []) new_slot)
unfolding run apply join can_join new clamp_peers
all_joined = omega arith

run-join_once_full_example :
    let s = run (leaves bob ∷ []) (run (joins bob ∷ joins carol ∷ []) new_slot) in
    (can_join s ≡ false) × ((join bob s).0 ≡ s) × ((join bob s).1 ≢ none)
run-join_once_full_example =
    run-join_once_full (codes "s1") (codes "amber-otter-seven") alice (codes "files") (pos 3) 0
      (joins bob ∷ joins carol ∷ []) (leaves bob ∷ []) bob all_joined
