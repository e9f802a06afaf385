-- ===== src/Broker/Tests.antt =====
-- The broker (internal/broker/broker.go) with MemStore, on concrete hubs.
use gmmff.Prelude.{
  ℕ, ◌≡◌, ◌≢◌, refl, sym, ◌==◌, ◌⊎◌, inr, arith, true, false, List, [], ◌∷◌, none, some,
  if◌then◌else◌,
}
use gmmff.Prelude.Int.{pos}
use gmmff.Prelude.Bytes.{Bytes, codes, bytes_eq}
use gmmff.Prelude.Assoc.{lookup, insert}
use gmmff.Slot.{
  Slot, waiting, full, new, clamp_peers, join, can_join, is_expired, is_member, is_initiator,
}
use gmmff.Slot.Invariant.{Inv, new-Inv, join-Inv}
use gmmff.Store.{found}
use gmmff.Store.Mem.{MemStore, mem_store, stored, empty, update, get_by_id, get_by_code}
use gmmff.Protocol.{
  version, MsgType, slot_create, slot_join, ping, bye, sdp_offer, envelope, raw, Decoder,
}
use gmmff.Broker.Hub.{Conn, fresh_conn, Hub, put, push, send_envelope}
use gmmff.Broker.Posts.{Returns, IsOpen, Good}
use gmmff.Broker.Frames.{SameConn}
use gmmff.Broker.Leave.{handle_disconnect}
use gmmff.Broker.Leave.Safety.{AllInv}
use gmmff.Broker.Leave.Effects.{Departed, handle_disconnect_leaves}
use gmmff.Broker.Create.{Draw}
use gmmff.Broker.Join.{handle_slot_join}
use gmmff.Broker.Join.Admission.{Joined, handle_slot_join_admits}
use gmmff.Broker.Join.Guesses.{Counted, handle_slot_join_counts}
use gmmff.Broker.Relay.{relay}
use gmmff.Broker.Relay.Isolation.{relay_isolated}
use gmmff.Broker.Run.{
  Outside, Message, Event, registers, unregisters, inbound, handle_message, run, start,
}
use gmmff.Broker.Run.Safety.{handle_message-Good, run-start-Good}
use gmmff.Broker.Run.Races.{run_after_disconnect}

abbrev alice : Bytes
alice = codes "alice"

abbrev bob : Bytes
bob = codes "bob"

abbrev carol : Bytes
carol = codes "carol"

abbrev code_a : Bytes
code_a = codes "amber-otter-seven"

-- What every payload decodes to.
abbrev decoder : Decoder
decoder = record {
  slot_create_payload = λ _.
      some (record { protocol_version = version; session_type = codes "files"; max_peers = pos 3 });
  slot_join_payload = λ _. some (record { code = code_a; protocol_version = version });
  targeted_payload = λ _. none;
}

abbrev outside : Outside
outside = record { valid = λ _. true; decoder = decoder }

abbrev message : MsgType → Message
message t = record {
  msg_type = t;
  body = [];
  now = 0;
  draws = λ _. record { code = some code_a; id = codes "s1" };
}

-- A new slot of alice, and the slot once bob is in it.
abbrev fresh : Slot
fresh = record {
  id = codes "s1";
  code = code_a;
  state = waiting;
  session_type = codes "files";
  created_at = 0;
  expires_at = 600000000000;
  initiator_id = alice;
  peer_ids = [];
  max_peers = 2;
  ever_full = false;
}

abbrev paired : Slot
paired = record fresh { peer_ids = bob ∷ []; state = full; ever_full = true }

fresh-Inv : Inv fresh
unfolding new clamp_peers
fresh-Inv = new-Inv (codes "s1") code_a alice (codes "files") (pos 2) 0

paired-Inv : Inv paired
unfolding join can_join
paired-Inv = join-Inv bob fresh-Inv

-- A hub that stores one slot, with alice and perhaps bob in it; carol is not connected.
abbrev store_with : Slot → MemStore
store_with s = record { slots = (codes "s1", s) ∷ []; codes = (code_a, codes "s1") ∷ [] }

abbrev in_slot : Conn
in_slot = record fresh_conn { slot_id = codes "s1" }

abbrev lobby : Hub MemStore
lobby = record {
  store = store_with fresh;
  conn_of = λ x. if bytes_eq alice x then in_slot else fresh_conn;
  registered = λ x. if bytes_eq alice x then true else bytes_eq bob x;
}

abbrev room : Hub MemStore
room = record {
  store = store_with paired;
  conn_of = λ x. if bytes_eq carol x then fresh_conn else in_slot;
  registered = λ x. if bytes_eq alice x then true else bytes_eq bob x;
}

-- Nobody has a slot.
abbrev hall : Hub MemStore
hall = record lobby { store = record { slots = []; codes = [] }; conn_of = λ x. fresh_conn }

stored_only : (s x : Slot) (i : Bytes) → stored i (store_with s) ≡ some x → s ≡ x
unfolding lookup
stored_only s x i h = ground arith

lobby-Good : Good mem_store lobby
lobby-Good = record {
  open_registered = λ x r. ground arith;
  slots = λ i s h. rw (sym (stored_only fresh s i h)) fresh-Inv;
  guesses = λ x b. absurd (ground arith);
}

room-Good : Good mem_store room
room-Good = record {
  open_registered = λ x r. ground arith;
  slots = λ i s h. rw (sym (stored_only paired s i h)) paired-Inv;
  guesses = λ x b. absurd (ground arith);
}

hall-Good : Good mem_store hall
unfolding lookup
hall-Good = record {
  open_registered = λ x r. refl;
  slots = λ i s h. absurd (cc);
  guesses = λ x b. absurd (omega arith);
}

bob_not_alice : bob ≢ alice
unfolding bytes_eq
bob_not_alice e = cc

abbrev full_history : List Event
full_history =
    registers alice
    ∷ inbound alice (message slot_create)
    ∷ registers bob
    ∷ inbound bob (message slot_join)
    ∷ inbound alice (message sdp_offer)
    ∷ unregisters alice
    ∷ inbound bob (message bye)
    ∷ []

run-start-Good_example : Returns (Good mem_store) (run mem_store outside full_history (start empty))
unfolding empty lookup
run-start-Good_example =
    run-start-Good mem_store outside full_history empty (λ i. refl)
      (tt, (tt, (tt, (tt, (tt, ((tt, λ e. bob_not_alice e), tt))))))

handle_message-Good_example :
    Returns
      (λ h'. Good mem_store h' × IsOpen h' bob)
      (handle_message mem_store outside bob (message slot_join) lobby)
unfolding bytes_eq
handle_message-Good_example =
    handle_message-Good mem_store outside bob (message slot_join) lobby lobby-Good refl

run_after_disconnect_example :
    run mem_store outside (unregisters bob ∷ inbound bob (message ping) ∷ []) lobby ≡ none
unfolding bytes_eq
run_after_disconnect_example =
    run_after_disconnect mem_store outside bob (message ping) lobby [] refl refl (λ e. cc) (λ e. cc)
      (λ e. cc)

handle_disconnect_leaves_example :
    Returns
      (λ h'.
        Departed mem_store bob (codes "s1") paired (store_with paired) h'.store
        × (h'.registered bob ≡ false)
        × ((x : Bytes)
            → x ≢ bob
            → (h'.registered x ≡ room.registered x)
              × (is_member x paired ≡ false → SameConn x room h')))
      (handle_disconnect mem_store bob room)
unfolding bytes_eq get_by_id lookup
handle_disconnect_leaves_example =
    handle_disconnect_leaves mem_store bob paired room room-Good refl refl refl

-- The first two draws collide with the stored slot, the third does not.
abbrev draws : ℕ → Draw
draws n = record {
  code = if n == 2 then some (codes "velvet-canyon-hill") else some code_a;
  id = codes "s2";
}

lobby_AllInv : AllInv mem_store lobby.store
lobby_AllInv = lobby-Good.slots

handle_slot_join_admits_example :
    Returns
      (Joined mem_store bob fresh lobby)
      (handle_slot_join mem_store (λ _. true) decoder bob 5 [] lobby)
unfolding bytes_eq get_by_code lookup is_expired join can_join update insert
handle_slot_join_admits_example =
    handle_slot_join_admits mem_store (λ _. true) decoder bob 5 []
      (record { code = code_a; protocol_version = version }) fresh lobby lobby-Good refl refl refl
      refl refl refl refl refl refl

handle_slot_join_counts_example :
    Returns (Counted bob hall) (handle_slot_join mem_store (λ _. true) decoder bob 5 [] hall)
unfolding bytes_eq get_by_code lookup
handle_slot_join_counts_example =
    handle_slot_join_counts mem_store (λ _. true) decoder bob 5 []
      (record { code = code_a; protocol_version = version }) hall refl refl refl (inr (refl, refl))

-- The room after alice's offer has been queued for bob.
abbrev offered : Hub MemStore
offered = record room {
  conn_of = put bob (push (envelope sdp_offer (raw (codes "sdp"))) in_slot) room.conn_of;
}

offer_relayed : relay mem_store decoder alice sdp_offer (codes "sdp") room ≡ some offered
unfolding relay bytes_eq get_by_id lookup send_envelope is_initiator
offer_relayed = refl

relay_isolated_example :
    SameConn bob room offered
    ⊎ ((s : Slot) × ((get_by_id (codes "s1") room.store).1 ≡ found s)
        × (is_member bob s ≡ true)
        × (offered.conn_of bob ≡ push (envelope sdp_offer (raw (codes "sdp"))) (room.conn_of bob)))
unfolding bytes_eq
relay_isolated_example =
    relay_isolated mem_store decoder alice bob sdp_offer (codes "sdp") room offered offer_relayed
      bob_not_alice
