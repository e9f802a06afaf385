-- ===== src/Broker/Join.antt =====
-- slot.join: handleSlotJoin, validateJoinRequest, recordFailedJoin and notifyJoinedPeers of
-- internal/broker/broker.go.
pub mod Safety
pub mod Admission
pub mod Guesses
use gmmff.Prelude.{
  ℕ, suc, ◌+◌, Bool, true, false, not, List, [], ◌∷◌, Option, none, some, leb, length, ◌==◌,
  if◌then◌else◌,
}
use gmmff.Prelude.Bytes.{Bytes, bytes_eq, codes}
use gmmff.Slot.{
  Slot, SlotError, slot_full, slot_closed, connected_count, join, other_members, is_expired,
  without,
}
use gmmff.Store.{SlotStore, StoreError, slot_not_found, code_taken, failed, Fetched, found, missed}
use gmmff.Protocol.{
  version, SlotJoinPayload, Envelope, envelope, error_envelope, says, session_is_full, slot_ready,
  peer_joined, ready, peer, Decoder,
}
use gmmff.Broker.Hub.{
  max_failed_joins, Conn, Hub, set_conn, ◌>>=◌, send_envelope, send_if_registered, send_to_members,
}

abbrev pub too_many_attempts : Envelope
too_many_attempts =
    error_envelope "ERR_TOO_MANY_ATTEMPTS" (says "too many invalid codes — reconnect and try again")

-- SetReadDeadline(time.Now()), after which readPump returns
abbrev pub expire_read : {S : Type 0} → Bytes → Hub S → Hub S
expire_read c h = set_conn c (record (h.conn_of c) { read_expired = true }) h

unfoldable pub record_failed_join : {S : Type 0} → Bytes → Hub S → Option (Hub S)
record_failed_join c h =
    let k = h.conn_of c in
    let h' = set_conn c (record k { failed_joins = suc k.failed_joins }) h in
    if leb max_failed_joins (suc k.failed_joins)
    then (send_envelope c too_many_attempts h' >>= λ h''. some (expire_read c h''))
    else some h'

-- What validateJoinRequest returns: it has sent the error, or has the slot.
pub record Validated (S : Type 0) : Type 0 where
  pub hub : Hub S
  pub slot : Option Slot

abbrev pub rejected : {S : Type 0} → Hub S → Option (Validated S)
rejected h = some (record { hub = h; slot = none })

abbrev pub invalid_code : Envelope
invalid_code = error_envelope "ERR_INVALID_CODE" (says "invalid slot code format")

abbrev pub unknown_code : Envelope
unknown_code =
    error_envelope "ERR_SLOT_NOT_FOUND"
      (says "slot not found — check the code or ask the sender to create a new one")

unfoldable pub ready_envelope : Bytes → Slot → Envelope
ready_envelope role s = envelope slot_ready (
    ready (record {
      role = role;
      session_type = s.session_type;
      max_peers = s.max_peers;
      peer_count = connected_count s;
    }))

unfoldable pub joined_envelope : Bytes → Slot → Envelope
joined_envelope c s =
    envelope peer_joined
      (peer (record { peer_id = c; peer_count = connected_count s; max_peers = s.max_peers }))

-- The members that the loop of notifyJoinedPeers passes over the initiator for.
unfoldable pub others_than : Bytes → List Bytes → List Bytes
unfolding without
others_than initiator = without initiator

unfoldable pub notify_joined_peers :
    {S : Type 0} → Bytes → Slot → List Bytes → Hub S → Option (Hub S)
unfolding ready_envelope joined_envelope others_than
notify_joined_peers c s existing h =
    send_envelope c (ready_envelope (codes "responder") s) h
    >>= send_envelope s.initiator_id (joined_envelope c s)
    >>= send_to_members (others_than s.initiator_id existing) (joined_envelope c s)
    >>= λ h'.
        if length s.peer_ids == 1
        then send_envelope s.initiator_id (ready_envelope (codes "initiator") s) h'
        else some h'

module _ (st : SlotStore) where
  open st use {State, update, delete, get_by_code}

  unfoldable pub check_fetched : Bytes → ℕ → Fetched → Hub State → Option (Validated State)
  unfolding record_failed_join
  check_fetched c now (missed slot_not_found) h =
      send_envelope c unknown_code h >>= record_failed_join c >>= rejected
  check_fetched c now (missed _) h =
      send_envelope c (error_envelope "ERR_INTERNAL" (says "server error; please retry")) h
      >>= rejected
  check_fetched c now (found s) h =
      if is_expired s now
      then (send_envelope c
            (error_envelope "ERR_SLOT_EXPIRED"
              (says "slot has expired — ask the sender to create a new one"))
            (record h { store = (delete s.id h.store).0 })
          >>= rejected)
      else some (record { hub = h; slot = some s })

  -- `valid` is crypto.ValidateCode of the code.
  unfoldable pub validate_join_request :
      (Bytes → Bool) → Bytes → ℕ → SlotJoinPayload → Hub State → Option (Validated State)
  unfolding check_fetched
  validate_join_request valid c now p h =
      if not (bytes_eq p.protocol_version version)
      then (send_envelope c
            (error_envelope "ERR_VERSION_MISMATCH"
              (says "unsupported protocol version; please update your gmmff client"))
            h
          >>= rejected)
      else if not (valid p.code)
      then send_envelope c invalid_code h >>= record_failed_join c >>= rejected
      else (let (store', r) = get_by_code p.code h.store in
          check_fetched c now r (record h { store = store' }))

  -- After Update: the slot of the connection, and the news to the members.
  unfoldable pub welcome : Bytes → Slot → List Bytes → Hub State → Option (Hub State)
  unfolding notify_joined_peers
  welcome c s existing h =
      let h' = set_conn c (record (h.conn_of c) { slot_id = s.id }) h in
      if h'.registered s.initiator_id
      then notify_joined_peers c s existing h'
      else (send_envelope c
            (error_envelope "ERR_PEER_GONE"
              (says "the initiator disconnected before the session could start"))
            h'
          >>= λ h''. some (record h'' { store = (delete s.id h''.store).0 }))

  unfoldable pub admitted :
      Bytes → Slot → List Bytes → Option StoreError → Hub State → Option (Hub State)
  unfolding welcome
  admitted c s existing none h = welcome c s existing h
  admitted c s existing (some e) h =
      send_envelope c (error_envelope "ERR_INTERNAL" (says "server error; please retry")) h

  unfoldable pub try_join : Bytes → Slot → Slot × Option SlotError → Hub State → Option (Hub State)
  unfolding admitted
  try_join c s (s', some slot_full) h =
      send_envelope c
        (error_envelope "ERR_SLOT_FULL" (session_is_full (connected_count s') s'.max_peers)) h
  try_join c s (s', some slot_closed) h =
      send_envelope c
        (error_envelope "ERR_SLOT_CLOSED"
          (says "slot is closed — ask the sender to create a new one"))
        h
  try_join c s (s', none) h =
      let (store', e) = update s' h.store in
      admitted c s' (other_members c s) e (record h { store = store' })

  unfoldable pub join_validated : Bytes → Validated State → Option (Hub State)
  unfolding try_join
  join_validated c v = elim v.slot [ none ↦ some v.hub | some s ↦ try_join c s (join c s) v.hub ]

  unfoldable pub join_decoded :
      (Bytes → Bool) → Bytes → ℕ → Option SlotJoinPayload → Hub State → Option (Hub State)
  unfolding validate_join_request join_validated
  join_decoded valid c now none h =
      send_envelope c (error_envelope "ERR_BAD_PAYLOAD" (says "malformed slot.join payload")) h
  join_decoded valid c now (some p) h = validate_join_request valid c now p h >>= join_validated c

  unfoldable pub handle_slot_join :
      (Bytes → Bool) → Decoder → Bytes → ℕ → Bytes → Hub State → Option (Hub State)
  unfolding join_decoded
  handle_slot_join valid d c now data' h = join_decoded valid c now (d.slot_join_payload data') h
