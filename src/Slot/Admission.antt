-- ===== src/Slot/Admission.antt =====
-- Whom Join admits, and what it answers otherwise.
use gmmff.Prelude.{◌+◌, ◌<◌, ◌≡◌, ◌⊎◌, ◌↔◌, true, false, [], ◌∷◌, none, some, arith, length-append}
use gmmff.Prelude.Bytes.{Bytes}
use gmmff.Slot.{
  waiting, active, full, closed, Slot, slot_full, slot_closed, connected_count, can_join, join,
  remove_peer, close, is_member,
}
use gmmff.Slot.Invariant.{Inv}
use gmmff.Slot.Membership.{length-without-le}

-- Of a slot that keeps the invariant, Join admits exactly while it waits or is active; it answers
-- that the slot is closed exactly if it is, and that it is full exactly in the full state.
pub join-Inv_iff :
    (c : Bytes) (s : Slot)
    → Inv s
    → (((join c s).1 ≡ none) ↔ ((s.state ≡ waiting) ⊎ (s.state ≡ active)))
      × (((join c s).1 ≡ some slot_closed) ↔ (s.state ≡ closed))
      × (((join c s).1 ≡ some slot_full) ↔ (s.state ≡ full))
unfolding join
join-Inv_iff c s v = ground arith

-- An admitted Join leaves the slot full, and marked so, exactly if it took the last place, and
-- active otherwise.
pub join-state :
    (c : Bytes) (s : Slot)
    → (join c s).1 ≡ none
    → ((((join c s).0.state ≡ full) × ((join c s).0.ever_full ≡ true))
        × (connected_count s + 1 ≡ s.max_peers))
      ⊎ (((join c s).0.state ≡ active) × (connected_count s + 1 < s.max_peers))
unfolding join
join-state c s h = ground (arith, length-append s.peer_ids (c ∷ []))

-- Join does not ask who joins: a connection that is already a member, the initiator included, is
-- admitted again while there is room, and takes another place.
pub join-is_member_again :
    (c : Bytes) (s : Slot)
    → is_member c s ≡ true
    → can_join s ≡ true
    → ((join c s).1 ≡ none) × (connected_count (join c s).0 ≡ connected_count s + 1)
unfolding join
join-is_member_again c s m h = ground (arith, length-append s.peer_ids (c ∷ []))

-- RemovePeer opens a closed slot again, unless it has been full or is over its capacity: it then
-- admits the next Join.
pub remove_peer-close_reopens :
    (c : Bytes) (s : Slot)
    → s.ever_full ≡ false
    → connected_count s < s.max_peers
    → can_join (remove_peer c (close s)) ≡ true
unfolding remove_peer close can_join
remove_peer-close_reopens c s e h = ground (arith, length-without-le c s.peer_ids)
