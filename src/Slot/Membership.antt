-- ===== src/Slot/Membership.antt =====
-- Who is a member of a slot: the tests and the lists of slot.go agree.
use gmmff.Prelude.{
  ◌+◌, ◌≤◌, ◌≡◌, refl, ◌&&◌, ◌||◌, not, List, [], ◌∷◌, ◌++◌, none, true, false, ◌≢◌, ap, arith,
  length, length-append,
}
use gmmff.Prelude.Bytes.{Bytes, bytes_eq, bytes_eq_iff, bytes_eq_refl}
use gmmff.Slot.{
  Slot, join, without, remove_peer, contains, has_peer, is_member, is_initiator, other_members,
  connected_count,
}

pub contains-append :
    (x : Bytes) (xs ys : List Bytes) → contains x (xs ++ ys) ≡ (contains x xs || contains x ys)
unfolding contains
contains-append x [] ys = refl
contains-append x (y ∷ xs) ys = ground (arith, contains-append x xs ys)

pub contains-without :
    (x c : Bytes) (xs : List Bytes)
    → contains x (without c xs) ≡ (contains x xs && not (bytes_eq x c))
unfolding contains without
contains-without x c [] = refl
contains-without x c (y ∷ xs) =
    ground (arith, bytes_eq_iff y c, bytes_eq_iff y x, bytes_eq_iff x c, contains-without x c xs)

pub length-without-le : (c : Bytes) (xs : List Bytes) → length (without c xs) ≤ length xs
unfolding without
length-without-le c [] = omega arith
length-without-le c (y ∷ xs) = ground (arith, length-without-le c xs)

-- A successful Join makes the joiner a peer, keeps the other peers, and counts one more connection.
pub join-has_peer :
    (c x : Bytes) (s : Slot)
    → (join c s).1 ≡ none
    → (has_peer x (join c s).0 ≡ (has_peer x s || bytes_eq c x))
      × (connected_count (join c s).0 ≡ connected_count s + 1)
unfolding join has_peer contains
join-has_peer c x s h =
    ground (arith, contains-append x s.peer_ids (c ∷ []), length-append s.peer_ids (c ∷ []))

-- After RemovePeer the connection is no peer, every other one is a peer exactly when it was, the
-- count does not grow, and the initiator and the capacity stay.
pub remove_peer-has_peer :
    (c x : Bytes) (s : Slot)
    → (has_peer x (remove_peer c s) ≡ (has_peer x s && not (bytes_eq x c)))
      × (connected_count (remove_peer c s) ≤ connected_count s)
      × ((remove_peer c s).initiator_id ≡ s.initiator_id)
      × ((remove_peer c s).max_peers ≡ s.max_peers)
unfolding remove_peer has_peer
remove_peer-has_peer c x s =
    ground (arith, contains-without x c s.peer_ids, length-without-le c s.peer_ids)

-- OtherMembers lists exactly the members that are not the given connection.
pub other_members-is_member :
    (c x : Bytes) (s : Slot)
    → contains x (other_members c s) ≡ (is_member x s && not (bytes_eq x c))
unfolding other_members is_member contains
other_members-is_member c x s = ground (
  arith,
  contains-without x c s.peer_ids,
  bytes_eq_iff s.initiator_id x,
  bytes_eq_iff x s.initiator_id,
  bytes_eq_iff s.initiator_id c,
  bytes_eq_iff x c,
)

-- What stays of a slot in which others come or go.
pub record SameSlot (s t : Slot) : Type 0 where
  pub same_id : t.id ≡ s.id
  pub same_code : t.code ≡ s.code
  pub same_initiator : t.initiator_id ≡ s.initiator_id
  pub same_room : t.max_peers ≡ s.max_peers

-- The slot `t` is `s` with `c` as its last peer: `c` is a member, and every other connection is one
-- exactly if it was.
pub record HasJoined (c : Bytes) (s t : Slot) : Type 0 where
  pub same : SameSlot s t
  pub last_peer : t.peer_ids ≡ s.peer_ids ++ c ∷ []
  pub joined : is_member c t ≡ true
  pub others : (x : Bytes) → x ≢ c → is_member x t ≡ is_member x s

-- The slot `t` is `s` without the peer `c`; every other connection is a peer exactly if it was.
pub record HasLeft (c : Bytes) (s t : Slot) : Type 0 where
  pub same : SameSlot s t
  pub left : has_peer c t ≡ false
  pub others : (x : Bytes) → x ≢ c → has_peer x t ≡ has_peer x s

join-SameSlot : (c : Bytes) (s : Slot) → SameSlot s (join c s).0
unfolding join
join-SameSlot c s = ground arith

join-peer_ids :
    (c : Bytes) (s : Slot) → (join c s).1 ≡ none → (join c s).0.peer_ids ≡ s.peer_ids ++ c ∷ []
unfolding join
join-peer_ids c s h = ground arith

pub join-HasJoined : (c : Bytes) (s : Slot) → (join c s).1 ≡ none → HasJoined c s (join c s).0
join-HasJoined c s h =
    let same = join-SameSlot c s in
    record {
      same = same;
      last_peer = join-peer_ids c s h;
      joined = unfold is_member in ground (arith, join-has_peer c c s h, bytes_eq_refl c);
      others = λ x n.
          unfold is_member is_initiator in
          ground
            (arith, join-has_peer c x s h, bytes_eq_iff c x, ap (bytes_eq x) same.same_initiator);
    }

remove_peer-SameSlot : (c : Bytes) (s : Slot) → SameSlot s (remove_peer c s)
unfolding remove_peer
remove_peer-SameSlot c s = ground arith

pub remove_peer-HasLeft : (c : Bytes) (s : Slot) → HasLeft c s (remove_peer c s)
remove_peer-HasLeft c s = record {
  same = remove_peer-SameSlot c s;
  left = ground (arith, remove_peer-has_peer c c s, bytes_eq_refl c);
  others = λ x n. ground (arith, remove_peer-has_peer c x s, bytes_eq_iff x c);
}
