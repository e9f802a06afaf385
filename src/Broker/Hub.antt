-- ===== src/Broker/Hub.antt =====
-- The state of the hub (internal/broker/broker.go) and what every handler does to it: queue a
-- message on a connection.
use gmmff.Prelude.{
  ℕ, Bool, false, List, [], ◌∷◌, ◌++◌, Option, none, some, length, ltb, if◌then◌else◌,
}
use gmmff.Prelude.Bytes.{Bytes, bytes_eq}
use gmmff.Protocol.{Envelope}

abbrev pub max_failed_joins : ℕ
max_failed_joins = 5

abbrev pub send_buf_size : ℕ
send_buf_size = 16

-- A connection object. `send` is what waits in its channel, `send_closed` whether that was closed,
-- and `read_expired` whether the read deadline was set to the present.
pub record Conn : Type 0 where
  pub slot_id : Bytes
  pub send : List Envelope
  pub send_closed : Bool
  pub failed_joins : ℕ
  pub read_expired : Bool

-- What ServeHTTP makes.
abbrev pub fresh_conn : Conn
fresh_conn = record {
  slot_id = [];
  send = [];
  send_closed = false;
  failed_joins = 0;
  read_expired = false;
}

-- `conn_of` has every connection object under its identifier, which is unique; `registered` tells
-- which of them are in the map `conns`. Messages still in flight may hold one that is not.
pub record Hub (S : Type 0) : Type 0 where
  pub store : S
  pub conn_of : Bytes → Conn
  pub registered : Bytes → Bool

abbrev pub put {ℓ} : {V : Type ℓ} → Bytes → V → (Bytes → V) → Bytes → V
put k v f j = if bytes_eq k j then v else f j

-- `none` is a panic, which ends the process.
infixl 5 ◌>>=◌
abbrev pub ◌>>=◌ {ℓ κ} : {A : Type ℓ} {B : Type κ} → Option A → (A → Option B) → Option B
none >>= f = none
some a >>= f = f a

-- A frame that finds the channel full is dropped.
unfoldable pub push : Envelope → Conn → Conn
push env k = if ltb (length k.send) send_buf_size then record k { send = k.send ++ env ∷ [] } else k

module _ {S : Type 0} where
  abbrev pub set_conn : Bytes → Conn → Hub S → Hub S
  set_conn c k h = record h { conn_of = put c k h.conn_of }

  -- sendEnvelope: a send on a closed channel panics, in a `select` too. The queue holds the envelope as
  -- it is before json.Marshal, which compacts a payload and escapes some of its characters.
  unfoldable pub send_envelope : Bytes → Envelope → Hub S → Option (Hub S)
  unfolding push
  send_envelope c env h =
      if (h.conn_of c).send_closed then none else some (set_conn c (push env (h.conn_of c)) h)

  -- if member, ok := b.conns[id]; ok { member.sendEnvelope(env) }
  unfoldable pub send_if_registered : Bytes → Envelope → Hub S → Option (Hub S)
  send_if_registered c env h = if h.registered c then send_envelope c env h else some h

  -- The loops that notify the members of a slot.
  unfoldable pub send_to_members : List Bytes → Envelope → Hub S → Option (Hub S)
  send_to_members [] env h = some h
  send_to_members (m ∷ ms) env h = send_if_registered m env h >>= send_to_members ms env
