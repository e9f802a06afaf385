-- ===== src/Broker/Create.antt =====
-- slot.create: handleSlotCreate and createSlot of internal/broker/broker.go.
pub mod Safety
use gmmff.Prelude.{ℕ, zero, suc, ◌/◌, ◌+◌, Bool, Option, none, some, if◌then◌else◌}
use gmmff.Prelude.Int.{ℤ, pos}
use gmmff.Prelude.Bytes.{Bytes, bytes_eq}
use gmmff.Slot.{Slot, new, clamp_peers, default_ttl}
use gmmff.Store.{SlotStore, StoreError, code_taken, failed}
use gmmff.Protocol.{
  version, SlotCreatePayload, Envelope, envelope, error_envelope, says, slot_created, created,
  Decoder,
}
use gmmff.Broker.Hub.{Conn, Hub, set_conn, ◌>>=◌, send_envelope}

abbrev pub max_code_attempts : ℕ
max_code_attempts = 5

-- What one attempt draws: crypto.GenerateCode, which may fail, and uuid.New.
pub record Draw : Type 0 where
  pub code : Option Bytes
  pub id : Bytes

pub data Created : Type 0 where
  made : Slot → Created
  refused : StoreError → Created

module _ (st : SlotStore) where
  open st use {State, create}

  -- The body of the loop of createSlot: a taken code goes on with the next round, `retry`.
  after_create : Slot → State × Option StoreError → (State → State × Created) → State × Created
  after_create sl (s, none) retry = (s, made sl)
  after_create sl (s, some code_taken) retry = retry s
  after_create sl (s, some e) retry = (s, refused e)

  attempt :
      Option Bytes
      → Bytes
      → (c kind : Bytes) → ℤ
      → ℕ
      → State
      → (State → State × Created)
      → State × Created
  unfolding after_create
  attempt none id c kind m now s retry = (s, refused failed)
  attempt (some code) id c kind m now s retry =
      let sl = new id code c kind m now in after_create sl (create sl s) retry

  -- The loop, over the attempts left; the draws are those of the attempts.
  unfoldable pub create_slot :
      (left : ℕ) (draws : ℕ → Draw) (c kind : Bytes) (max_peers : ℤ) (now : ℕ)
      → State
      → State × Created
  unfolding attempt
  create_slot zero draws c kind m now s = (s, refused code_taken)
  create_slot (suc left) draws c kind m now s =
      attempt (draws left).code (draws left).id c kind m now s
        λ s'. create_slot left draws c kind m now s'

  unfoldable pub created_envelope : Slot → Bytes → Envelope
  created_envelope sl kind = envelope slot_created (
      created (record {
        slot_id = sl.id;
        code = sl.code;
        ttl_seconds = default_ttl / 1000000000;
        session_type = kind;
        max_peers = sl.max_peers;
      }))

  unfoldable pub answer_create : Bytes → Bytes → Created → Hub State → Option (Hub State)
  unfolding created_envelope
  answer_create c kind (refused e) h =
      send_envelope c (error_envelope "ERR_INTERNAL" (says "server error; please retry")) h
  answer_create c kind (made sl) h =
      send_envelope c (created_envelope sl kind)
        (set_conn c (record (h.conn_of c) { slot_id = sl.id }) h)

  unfoldable pub create_decoded :
      Bytes → (ℕ → Draw) → ℕ → Option SlotCreatePayload → Hub State → Option (Hub State)
  unfolding answer_create clamp_peers
  create_decoded c draws now none h =
      send_envelope c (error_envelope "ERR_BAD_PAYLOAD" (says "malformed slot.create payload")) h
  create_decoded c draws now (some p) h =
      if bytes_eq p.protocol_version version
      then (let m = pos (clamp_peers p.max_peers) in
          let (s', r) = create_slot max_code_attempts draws c p.session_type m now h.store in
          answer_create c p.session_type r (record h { store = s' }))
      else send_envelope c
          (error_envelope "ERR_VERSION_MISMATCH"
            (says "unsupported protocol version; please update your gmmff client"))
          h

  unfoldable pub handle_slot_create :
      Decoder → Bytes → (ℕ → Draw) → ℕ → Bytes → Hub State → Option (Hub State)
  unfolding create_decoded
  handle_slot_create d c draws now data' h =
      create_decoded c draws now (d.slot_create_payload data') h
