-- ===== src/Broker/Posts.antt =====
-- Postconditions of the hub's operations (internal/broker/broker.go), and what queueing a message
-- keeps. `Returns P` holds of a call that does not panic and leaves a hub with `P`.
use mathlib.Core.Path.{fun_ext}
use gmmff.Prelude.{
  ◌≤◌, ap, ◌≡◌, ◌⊎◌, inl, inr, refl, Bool, true, false, List, [], ◌∷◌, Option, none, some, arith,
  if◌then◌else◌,
}
use gmmff.Prelude.Bytes.{Bytes, bytes_eq, bytes_eq_refl, bytes_eq_iff}
use gmmff.Slot.{Slot}
use gmmff.Slot.Invariant.{Inv}
use gmmff.Store.{SlotStore}
use gmmff.Protocol.{Envelope}
use gmmff.Broker.Hub.{
  max_failed_joins, Conn, Hub, set_conn, ◌>>=◌, push, send_envelope, send_if_registered,
  send_to_members,
}

abbrev pub Returns : {A : Type 0} → (A → Type 0) → Option A → Type 0
Returns P none = ⊥
Returns P (some a) = P a

pub bind-Returns :
    {A B : Type 0} (P : A → Type 0) (Q : B → Type 0) (m : Option A) (f : A → Option B)
    → Returns P m
    → ((a : A) → P a → Returns Q (f a))
    → Returns Q (m >>= f)
bind-Returns P Q none f h k = h
bind-Returns P Q (some a) f h k = k a h

pub map-Returns :
    {A : Type 0} (P Q : A → Type 0) (m : Option A)
    → ((a : A) → P a → Q a)
    → Returns P m
    → Returns Q m
map-Returns P Q none k h = h
map-Returns P Q (some a) k h = k a h

pub Returns-if :
    {A : Type 0} (P : A → Type 0) (b : Bool) (m n : Option A)
    → (b ≡ true → Returns P m)
    → (b ≡ false → Returns P n)
    → Returns P (if b then m else n)
Returns-if P true m n h k = h refl
Returns-if P false m n h k = k refl

-- The channel of a connection is open.
abbrev pub IsOpen : {S : Type 0} → Hub S → Bytes → Type 0
IsOpen h x = (h.conn_of x).send_closed ≡ false

pub push-send_closed : (env : Envelope) (k : Conn) → (push env k).send_closed ≡ k.send_closed
unfolding push
push-send_closed env k = ground arith

-- The read deadline of a connection with too many failed joins has been expired.
abbrev pub HasGuard : Conn → Type 0
HasGuard k = max_failed_joins ≤ k.failed_joins → k.read_expired ≡ true

push-HasGuard : (env : Envelope) (k : Conn) → HasGuard k → HasGuard (push env k)
unfolding push
push-HasGuard env k g b = ground (arith, g)

put_guard :
    {S : Type 0} (c x : Bytes) (k : Conn) (h : Hub S)
    → HasGuard k
    → HasGuard (h.conn_of x)
    → HasGuard ((set_conn c k h).conn_of x)
put_guard c x k h g e b = ground (arith, g, e)

if_again :
    {A : Type 0} (b : Bool) (x y z : A)
    → (if b then x else (if b then y else z)) ≡ (if b then x else z)
if_again true x y z = refl
if_again false x y z = refl

-- Of two writes to one connection the later one stays.
pub set_conn_twice :
    {S : Type 0} (c : Bytes) (j k : Conn) (h : Hub S)
    → set_conn c k (set_conn c j h) ≡ set_conn c k h
set_conn_twice c j k h =
    ap (λ f. record h { conn_of = f }) (fun_ext (λ x. if_again (bytes_eq c x) k j (h.conn_of x)))

pub send_envelope_open :
    {S : Type 0} (c : Bytes) (env : Envelope) (h : Hub S)
    → IsOpen h c
    → send_envelope c env h ≡ some (set_conn c (push env (h.conn_of c)) h)
unfolding send_envelope
send_envelope_open c env h e = ground arith

pub set_conn_self : {S : Type 0} (c : Bytes) (k : Conn) (h : Hub S) → (set_conn c k h).conn_of c ≡ k
set_conn_self c k h = ground (arith, bytes_eq_refl c)

module _ (st : SlotStore) where
  open st use {State, stored}

  -- Registered connections are open, every stored slot is well formed, and whoever failed too many
  -- joins is no longer read.
  pub record Good (h : Hub State) : Type 0 where
    pub open_registered : (x : Bytes) → h.registered x ≡ true → IsOpen h x
    pub slots : (i : Bytes) (s : Slot) → stored i h.store ≡ some s → Inv s
    pub guesses : (x : Bytes) → HasGuard (h.conn_of x)

  -- The hub is good, and the connections in `O` are open.
  pub record Post (O : Bytes → Type 0) (h : Hub State) : Type 0 where
    pub good : Good h
    pub opened : (x : Bytes) → O x → IsOpen h x

  pub weaken-Post :
      (O Q : Bytes → Type 0) (h : Hub State) → ((x : Bytes) → Q x → O x) → Post O h → Post Q h
  weaken-Post O Q h w p = record { good = p.good; opened = λ x q. p.opened x (w x q) }

  -- One more connection is known to be open.
  pub also_open :
      (O : Bytes → Type 0) (y : Bytes) (h : Hub State)
      → IsOpen h y
      → Post O h
      → Post (λ x. (x ≡ y) ⊎ O x) h
  also_open O y h e p = record {
    good = p.good;
    opened = λ x o. elim o [ inl same ↦ rw same e | inr k ↦ p.opened x k ];
  }

  -- A write to one connection that leaves its channel alone.
  pub set_conn-Post :
      (O : Bytes → Type 0) (c : Bytes) (k : Conn) (h : Hub State)
      → k.send_closed ≡ (h.conn_of c).send_closed
      → (HasGuard (h.conn_of c) → HasGuard k)
      → Post O h
      → Post O (set_conn c k h)
  set_conn-Post O c k h e w p = record {
    good = record {
      open_registered = λ x r. ground (arith, bytes_eq_iff c x, p.good.open_registered x r);
      slots = p.good.slots;
      guesses = λ x. put_guard c x k h (w (p.good.guesses c)) (p.good.guesses x);
    };
    opened = λ x o. ground (arith, bytes_eq_iff c x, p.opened x o);
  }

  -- A write to the store.
  pub set_store-Post :
      (O : Bytes → Type 0) (s : State) (h : Hub State)
      → ((i : Bytes) (x : Slot) → stored i s ≡ some x → Inv x)
      → Post O h
      → Post O (record h { store = s })
  set_store-Post O s h v p = record {
    good = record { open_registered = p.good.open_registered; slots = v; guesses = p.good.guesses };
    opened = p.opened;
  }

  pub send_envelope-Post :
      (O : Bytes → Type 0) (c : Bytes) (env : Envelope) (h : Hub State)
      → O c
      → Post O h
      → Returns (Post O) (send_envelope c env h)
  unfolding send_envelope
  send_envelope-Post O c env h o p =
      Returns-if (Post O) (h.conn_of c).send_closed none _ (λ e. cc (p.opened c o))
        λ _.
          set_conn-Post O c (push env (h.conn_of c)) h (push-send_closed env (h.conn_of c))
            (push-HasGuard env (h.conn_of c)) p

  pub send_if_registered-Post :
      (O : Bytes → Type 0) (c : Bytes) (env : Envelope) (h : Hub State)
      → Post O h
      → Returns (Post O) (send_if_registered c env h)
  unfolding send_if_registered send_envelope
  send_if_registered-Post O c env h p =
      Returns-if (Post O) (h.registered c) (send_envelope c env h) (some h)
        (λ e.
          Returns-if (Post O) (h.conn_of c).send_closed none _
            (λ k. cc (p.good.open_registered c e))
            λ _.
              set_conn-Post O c (push env (h.conn_of c)) h (push-send_closed env (h.conn_of c))
                (push-HasGuard env (h.conn_of c)) p)
        λ _. p

  pub send_to_members-Post :
      (O : Bytes → Type 0) (ms : List Bytes) (env : Envelope) (h : Hub State)
      → Post O h
      → Returns (Post O) (send_to_members ms env h)
  unfolding send_to_members
  send_to_members-Post O [] env h p = p
  send_to_members-Post O (m ∷ ms) env h p =
      bind-Returns (Post O) (Post O) (send_if_registered m env h) (send_to_members ms env)
        (send_if_registered-Post O m env h p) λ h' q. send_to_members-Post O ms env h' q
