-- ===== src/Protocol.antt =====
-- pkg/protocol/protocol.go: the messages between the clients and the signaling server.
use Prim.Native.String.{String}
use gmmff.Prelude.{ℕ, Option}
use gmmff.Prelude.Int.{ℤ}
use gmmff.Prelude.Bytes.{Bytes, codes}

abbrev pub version : Bytes
version = codes "2"

-- The Msg constants, and any other string that a client sends as its type.
pub data MsgType : Type 0 where
  slot_create slot_created slot_join slot_ready slot_not_found slot_full : MsgType
  pake_a pake_b sdp_offer sdp_answer ice_candidate : MsgType
  bye peer_joined peer_left targeted error ping pong : MsgType
  other : Bytes → MsgType

pub record SlotCreatePayload : Type 0 where
  pub protocol_version : Bytes
  pub session_type : Bytes
  pub max_peers : ℤ

pub record SlotCreatedPayload : Type 0 where
  pub slot_id : Bytes
  pub code : Bytes
  pub ttl_seconds : ℕ
  pub session_type : Bytes
  pub max_peers : ℕ

pub record SlotJoinPayload : Type 0 where
  pub code : Bytes
  pub protocol_version : Bytes

-- `role` is "initiator" or "responder".
pub record SlotReadyPayload : Type 0 where
  pub role : Bytes
  pub session_type : Bytes
  pub max_peers : ℕ
  pub peer_count : ℕ

-- The error texts are fixed but one, which names the connected participants and the capacity.
pub data ErrorText : Type 0 where
  says : String → ErrorText
  session_is_full : ℕ → ℕ → ErrorText

pub record ErrorPayload : Type 0 where
  pub code : String
  pub message : ErrorText

-- PeerJoinedPayload and PeerLeftPayload have the same fields.
pub record PeerPayload : Type 0 where
  pub peer_id : Bytes
  pub peer_count : ℕ
  pub max_peers : ℕ

pub record TargetedPayload : Type 0 where
  pub target_peer_id : Bytes
  pub from_peer_id : Bytes
  pub inner : Bytes

-- A payload is raw JSON: what a client sent stays the bytes it was, and what the server marshals
-- is kept as the struct.
pub data Payload : Type 0 where
  raw : Bytes → Payload
  created : SlotCreatedPayload → Payload
  ready : SlotReadyPayload → Payload
  peer : PeerPayload → Payload
  failure : ErrorPayload → Payload
  null : Payload

pub record Envelope : Type 0 where
  pub msg_type : MsgType
  pub payload : Payload

abbrev pub envelope : MsgType → Payload → Envelope
envelope t p = record { msg_type = t; payload = p }

-- ErrorEnvelope
abbrev pub error_envelope : String → ErrorText → Envelope
error_envelope code message = envelope error (failure (record { code = code; message = message }))

-- json.Unmarshal of a client's payload, which is not code of this repository.
pub record Decoder : Type 0 where
  pub slot_create_payload : Bytes → Option SlotCreatePayload
  pub slot_join_payload : Bytes → Option SlotJoinPayload
  pub targeted_payload : Bytes → Option TargetedPayload
