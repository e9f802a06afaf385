-- ===== src/Broker/Relay.antt =====
-- relay of internal/broker/broker.go: opaque messages go to one connection of the sender's slot.
pub mod Safety
pub mod Isolation
use gmmff.Prelude.{Bool, List, [], ◌∷◌, Option, none, some, if◌then◌else◌}
use gmmff.Prelude.Bytes.{Bytes, bytes_eq}
use gmmff.Slot.{Slot, is_member, is_initiator}
use gmmff.Store.{SlotStore, Fetched, found, missed}
use gmmff.Protocol.{
  MsgType, targeted, Payload, raw, TargetedPayload, Envelope, envelope, error_envelope, says,
  Decoder,
}
use gmmff.Broker.Hub.{Conn, Hub, ◌>>=◌, send_envelope, send_if_registered}

-- sl.PeerIDs[0], or "" where there is none
abbrev first_peer : List Bytes → Bytes
first_peer [] = []
first_peer (p ∷ ps) = p

unfoldable pub fallback_target : Bytes → Slot → Bytes
fallback_target c s = if is_initiator c s then first_peer s.peer_ids else s.initiator_id

module _ {S : Type 0} where
  unfoldable pub relay_targeted :
      Bytes → Slot → Option TargetedPayload → Envelope → Hub S → Option (Hub S)
  relay_targeted c s none env h =
      send_envelope c (error_envelope "ERR_BAD_PAYLOAD" (says "malformed targeted payload")) h
  relay_targeted c s (some t) env h =
      if is_member t.target_peer_id s then send_if_registered t.target_peer_id env h else some h

  unfoldable pub relay_star : Bytes → Slot → Envelope → Hub S → Option (Hub S)
  unfolding fallback_target
  relay_star c s env h =
      let target = fallback_target c s in
      if bytes_eq target []
      then send_envelope c (error_envelope "ERR_PEER_GONE" (says "no peer available")) h
      else if h.registered target
      then send_envelope target env h
      else send_envelope c
          (error_envelope "ERR_PEER_GONE" (says "peer disconnected — the transfer cannot continue"))
          h

  unfoldable pub relay_in_slot :
      Decoder → Bytes → Fetched → MsgType → Bytes → Hub S → Option (Hub S)
  unfolding relay_targeted relay_star
  relay_in_slot d c (missed e) t data' h =
      send_envelope c (error_envelope "ERR_SLOT_NOT_FOUND" (says "slot not found")) h
  relay_in_slot d c (found s) targeted data' h =
      relay_targeted c s (d.targeted_payload data') (envelope targeted (raw data')) h
  relay_in_slot d c (found s) t data' h = relay_star c s (envelope t (raw data')) h

module _ (st : SlotStore) where
  open st use {State, get_by_id}

  unfoldable pub relay : Decoder → Bytes → MsgType → Bytes → Hub State → Option (Hub State)
  unfolding relay_in_slot
  relay d c t data' h =
      let id = (h.conn_of c).slot_id in
      let (store', r) = get_by_id id h.store in
      if bytes_eq id []
      then send_envelope c
          (error_envelope "ERR_NOT_IN_SLOT"
            (says "must join a slot before sending signaling messages"))
          h
      else relay_in_slot d c r t data' (record h { store = store' })
