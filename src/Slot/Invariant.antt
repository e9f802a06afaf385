-- ===== src/Slot/Invariant.antt =====
-- The lifecycle of a slot: what holds of the state, the peers and the capacity after any history.
use gmmff.Prelude.{ℕ, ◌≤◌, ◌<◌, ◌≡◌, ◌≢◌, true, false, List, [], ◌∷◌, none, arith, length-append}
use gmmff.Prelude.Int.{ℤ}
use gmmff.Prelude.Bytes.{Bytes}
use gmmff.Slot.{
  waiting, active, full, Slot, new, clamp_peers, connected_count, can_join, join, remove_peer,
  close,
}
use gmmff.Slot.Membership.{length-without-le}

-- What the store holds of every slot. (A closed slot may keep its peers.)
pub record Inv (s : Slot) : Type 0 where
  pub room : (2 ≤ s.max_peers) × (s.max_peers ≤ 10)
  pub capped : connected_count s ≤ s.max_peers
  pub waiting_alone : s.state ≡ waiting → (s.peer_ids ≡ []) × (s.ever_full ≡ false)
  pub active_open :
      s.state ≡ active
      → (s.ever_full ≡ false) × (connected_count s < s.max_peers) × (1 < connected_count s)
  pub full_once : s.state ≡ full → s.ever_full ≡ true

pub clamp_peers_bounds : (m : ℤ) → (2 ≤ clamp_peers m) × (clamp_peers m ≤ 10)
unfolding clamp_peers
clamp_peers_bounds m = ground arith

pub new-Inv :
    (id code initiator kind : Bytes) (m : ℤ) (now : ℕ) → Inv (new id code initiator kind m now)
unfolding new
new-Inv id code initiator kind m now = ground (arith, clamp_peers_bounds m)

pub join-Inv : (c : Bytes) {s : Slot} → Inv s → Inv (join c s).0
unfolding join
join-Inv c {s} v = ground (arith, length-append s.peer_ids (c ∷ []))

pub remove_peer-Inv : (c : Bytes) {s : Slot} → Inv s → Inv (remove_peer c s)
unfolding remove_peer
remove_peer-Inv c {s} v = ground (arith, length-without-le c s.peer_ids)

pub close-Inv : {s : Slot} → Inv s → Inv (close s)
unfolding close
close-Inv v = ground arith

-- What the broker does to a slot.
pub data Op : Type 0 where
  joins leaves : Bytes → Op
  closes : Op

unfoldable pub apply : Op → Slot → Slot
apply (joins c) s = (join c s).0
apply (leaves c) s = remove_peer c s
apply closes s = close s

unfoldable pub run : List Op → Slot → Slot
run [] s = s
run (o ∷ os) s = run os (apply o s)

apply-Inv : (o : Op) {s : Slot} → Inv s → Inv (apply o s)
unfolding apply
apply-Inv (joins c) v = join-Inv c v
apply-Inv (leaves c) v = remove_peer-Inv c v
apply-Inv closes v = close-Inv v

run-Inv : (os : List Op) {s : Slot} → Inv s → Inv (run os s)
unfolding run
run-Inv [] v = v
run-Inv (o ∷ os) v = run-Inv os (apply-Inv o v)

-- After any joins, departures and closes of a new slot: the capacity is between 2 and 10, no more
-- participants than that are connected, a waiting slot has no peer, an active one has a peer and a
-- free place, and a full one has been marked as ever full.
pub run-new-Inv :
    (os : List Op) (id code initiator kind : Bytes) (m : ℤ) (now : ℕ)
    → Inv (run os (new id code initiator kind m now))
run-new-Inv os id code initiator kind m now = run-Inv os (new-Inv id code initiator kind m now)

apply-ever_full : (o : Op) (s : Slot) → s.ever_full ≡ true → (apply o s).ever_full ≡ true
unfolding apply join remove_peer close
apply-ever_full (joins c) s h = ground arith
apply-ever_full (leaves c) s h = ground arith
apply-ever_full closes s h = ground arith

run-ever_full : (os : List Op) (s : Slot) → s.ever_full ≡ true → (run os s).ever_full ≡ true
unfolding run
run-ever_full [] s h = h
run-ever_full (o ∷ os) s h = run-ever_full os (apply o s) (apply-ever_full o s h)

-- All places of the slot are taken.
abbrev pub AllTaken : Slot → Type 0
AllTaken s = s.max_peers ≤ connected_count s

-- Only Join fills a slot, and it marks the slot then.
apply-marked :
    (o : Op) (s : Slot)
    → (AllTaken s → s.ever_full ≡ true)
    → AllTaken (apply o s)
    → (apply o s).ever_full ≡ true
unfolding apply join remove_peer close
apply-marked (joins c) s h = ground (arith, length-append s.peer_ids (c ∷ []))
apply-marked (leaves c) s h = ground (arith, length-without-le c s.peer_ids)
apply-marked closes s h = h

run-marked :
    (os : List Op) (s : Slot)
    → (AllTaken s → s.ever_full ≡ true)
    → AllTaken (run os s)
    → (run os s).ever_full ≡ true
unfolding run
run-marked [] s h = h
run-marked (o ∷ os) s h = run-marked os (apply o s) (apply-marked o s h)

-- No place of a new slot but that of its initiator is taken.
new-room :
    (id code initiator kind : Bytes) (m : ℤ) (now : ℕ)
    → ¬ AllTaken (new id code initiator kind m now)
unfolding new
new-room id code initiator kind m now h = ground (arith, clamp_peers_bounds m)

-- Once all places of a slot have been taken, after whatever happened to it since it was new, no later
-- departures, joins or closes open it again: every Join is refused and leaves the slot as it was.
pub run-join_once_full :
    (id code initiator kind : Bytes) (m : ℤ) (now : ℕ) (before later : List Op) (c : Bytes)
    → AllTaken (run before (new id code initiator kind m now))
    → let s = run later (run before (new id code initiator kind m now)) in
      (can_join s ≡ false) × ((join c s).0 ≡ s) × ((join c s).1 ≢ none)
unfolding join
run-join_once_full id code initiator kind m now before later c h =
    let s = run before (new id code initiator kind m now) in
    let marked =
      run-marked before (new id code initiator kind m now)
        (λ k. absurd (new-room id code initiator kind m now k)) h in
    ground (arith, run-ever_full later s marked)
