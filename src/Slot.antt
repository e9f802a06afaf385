-- ===== src/Slot.antt =====
-- internal/slot/slot.go: a rendezvous slot and the methods of `*Slot`, which return the new record.
-- Times are nanoseconds; `time.Now()` is an argument. `MaxPeers` is a number from `New` on.
pub mod Membership
pub mod Invariant
pub mod Admission
mod Tests
use gmmff.Prelude.{
  ℕ, ◌+◌, ◌*◌, Bool, true, false, ◌&&◌, ◌||◌, not, List, [], ◌∷◌, ◌++◌, Option, none, some, ltb,
  leb, length, if◌then◌else◌,
}
use gmmff.Prelude.Int.{ℤ, pos, pos_part, ltb_ℤ}
use gmmff.Prelude.Bytes.{Bytes, bytes_eq, codes}

pub data State : Type 0 where
  waiting active full closed : State

-- 10 minutes
abbrev pub default_ttl : ℕ
default_ttl = 10 * 60 * 1000000000

abbrev pub max_allowed_peers : ℕ
max_allowed_peers = 10

abbrev pub default_max_peers : ℕ
default_max_peers = 2

pub data SlotError : Type 0 where
  slot_full slot_closed : SlotError

pub record Slot : Type 0 where
  pub id : Bytes
  pub code : Bytes
  pub state : State
  pub session_type : Bytes
  pub created_at : ℕ
  pub expires_at : ℕ
  pub initiator_id : Bytes
  pub peer_ids : List Bytes
  pub max_peers : ℕ
  pub ever_full : Bool

-- The two tests at the top of `New`, which handleSlotCreate makes as well.
unfoldable pub clamp_peers : ℤ → ℕ
clamp_peers m =
    let m' = if ltb_ℤ m (pos 2) then pos default_max_peers else m in
    pos_part (if ltb_ℤ (pos max_allowed_peers) m' then pos max_allowed_peers else m')

unfoldable pub new : Bytes → Bytes → Bytes → Bytes → ℤ → ℕ → Slot
unfolding clamp_peers
new id code initiator session_type max_peers now = record {
  id = id;
  code = code;
  state = waiting;
  session_type = session_type;
  created_at = now;
  expires_at = now + default_ttl;
  initiator_id = initiator;
  peer_ids = [];
  max_peers = clamp_peers max_peers;
  ever_full = false;
}

abbrev pub connected_count : Slot → ℕ
connected_count s = 1 + length s.peer_ids

abbrev pub is_closed : State → Bool
is_closed closed = true
is_closed _ = false

abbrev pub is_full : State → Bool
is_full full = true
is_full _ = false

unfoldable pub can_join : Slot → Bool
can_join s =
    if is_closed s.state || is_full s.state
    then false
    else if s.ever_full
    then false
    else ltb (connected_count s) s.max_peers

-- The slot that Join leaves, and its error.
unfoldable pub join : Bytes → Slot → Slot × Option SlotError
unfolding can_join
join peer s =
    if not (can_join s)
    then (s, some (if is_closed s.state then slot_closed else slot_full))
    else let t = record s { peer_ids = s.peer_ids ++ peer ∷ [] } in
      (
        if leb t.max_peers (connected_count t)
            then record t { state = full; ever_full = true }
            else record t { state = active },
        none,
      )

-- The loop of RemovePeer and of OtherMembers: the entries that are not `conn`.
unfoldable pub without : Bytes → List Bytes → List Bytes
without conn [] = []
without conn (i ∷ is) = let rest = without conn is in if bytes_eq i conn then rest else i ∷ rest

abbrev pub is_empty {ℓ} : {A : Type ℓ} → List A → Bool
is_empty [] = true
is_empty (_ ∷ _) = false

unfoldable pub remove_peer : Bytes → Slot → Slot
unfolding without
remove_peer conn s =
    let t = record s { peer_ids = without conn s.peer_ids } in
    if not t.ever_full && ltb (connected_count t) t.max_peers
    then record t { state = if is_empty t.peer_ids then waiting else active }
    else t

unfoldable pub close : Slot → Slot
close s = record s { state = closed }

-- time.Time.After
unfoldable pub is_expired : Slot → ℕ → Bool
is_expired s now = ltb s.expires_at now

unfoldable pub is_initiator : Bytes → Slot → Bool
is_initiator conn s = bytes_eq conn s.initiator_id

-- The loop of HasPeer.
unfoldable pub contains : Bytes → List Bytes → Bool
contains conn [] = false
contains conn (i ∷ is) = bytes_eq i conn || contains conn is

unfoldable pub has_peer : Bytes → Slot → Bool
unfolding contains
has_peer conn s = contains conn s.peer_ids

unfoldable pub is_member : Bytes → Slot → Bool
unfolding is_initiator has_peer
is_member conn s = is_initiator conn s || has_peer conn s

unfoldable pub all_peer_ids : Slot → List Bytes
all_peer_ids s = s.peer_ids

unfoldable pub other_members : Bytes → Slot → List Bytes
unfolding without
other_members conn s =
    (if not (bytes_eq s.initiator_id conn) then s.initiator_id ∷ [] else [])
    ++ without conn s.peer_ids

unfoldable pub role_of : Bytes → Slot → Bytes
role_of conn s = if bytes_eq conn s.initiator_id then codes "initiator" else codes "responder"
