-- ===== src/Broker/Frames.antt =====
-- What a send leaves alone (internal/broker/broker.go). `Ensures P` holds of a call that panics, or
-- leaves a hub with `P`.
use mathlib.Core.Path.{subst}
use gmmff.Prelude.{
  ◌≡◌, ◌≢◌, refl, ◌∙◌, Bool, true, false, List, [], ◌∷◌, Option, none, some, arith, if◌then◌else◌,
}
use gmmff.Prelude.Bytes.{Bytes, bytes_eq_iff}
use gmmff.Protocol.{Envelope}
use gmmff.Slot.{contains}
use gmmff.Broker.Posts.{Returns}
use gmmff.Broker.Hub.{
  Conn, Hub, set_conn, ◌>>=◌, push, send_envelope, send_if_registered, send_to_members,
}

abbrev pub Ensures : {A : Type 0} → (A → Type 0) → Option A → Type 0
Ensures P none = Unit {0}
Ensures P (some a) = P a

pub bind-Ensures :
    {A B : Type 0} (P : A → Type 0) (Q : B → Type 0) (m : Option A) (f : A → Option B)
    → Ensures P m
    → ((a : A) → P a → Ensures Q (f a))
    → Ensures Q (m >>= f)
bind-Ensures P Q none f h k = tt
bind-Ensures P Q (some a) f h k = k a h

pub map-Ensures :
    {A : Type 0} (P Q : A → Type 0) (m : Option A)
    → ((a : A) → P a → Q a)
    → Ensures P m
    → Ensures Q m
map-Ensures P Q none k h = tt
map-Ensures P Q (some a) k h = k a h

pub Ensures-if :
    {A : Type 0} (P : A → Type 0) (b : Bool) (m n : Option A)
    → (b ≡ true → Ensures P m)
    → (b ≡ false → Ensures P n)
    → Ensures P (if b then m else n)
Ensures-if P true m n h k = h refl
Ensures-if P false m n h k = k refl

-- What a call ensures if it returns, it has if it does.
pub both-Returns :
    {A : Type 0} (P Q : A → Type 0) (m : Option A) → Returns P m → Ensures Q m → Returns Q m
both-Returns P Q none h k = h
both-Returns P Q (some a) h k = k

some-same : {A : Type 0} (a b : A) → some a ≡ some b → a ≡ b
some-same a b e = cc

pub Ensures-some :
    {A : Type 0} (P : A → Type 0) (m : Option A) (a : A) → m ≡ some a → Ensures P m → P a
Ensures-some P none a e h = absurd (cc)
Ensures-some P (some b) a e h = subst P (some-same b a e) h

contains-head : (x m : Bytes) (ms : List Bytes) → contains x (m ∷ ms) ≡ false → x ≢ m
unfolding contains
contains-head x m ms h e = ground (arith, bytes_eq_iff m x)

contains-tail :
    (x m : Bytes) (ms : List Bytes) → contains x (m ∷ ms) ≡ false → contains x ms ≡ false
unfolding contains
contains-tail x m ms h = ground arith

module _ {S : Type 0} where
  -- The store and the registrations are the same.
  abbrev pub SameStore : Hub S → Hub S → Type 0
  SameStore h h' = (h'.store ≡ h.store) × (h'.registered ≡ h.registered)

  -- A connection is the same.
  abbrev pub SameConn : Bytes → Hub S → Hub S → Type 0
  SameConn x h h' = h'.conn_of x ≡ h.conn_of x

  pub set_conn-SameConn :
      (c x : Bytes) (k : Conn) (h : Hub S) → x ≢ c → SameConn x h (set_conn c k h)
  set_conn-SameConn c x k h ne = ground (arith, bytes_eq_iff c x)

  pub send_envelope-Same :
      (c : Bytes) (env : Envelope) (h : Hub S)
      → Ensures
          (λ h'. SameStore h h' × ((x : Bytes) → x ≢ c → SameConn x h h'))
          (send_envelope c env h)
  unfolding send_envelope
  send_envelope-Same c env h =
      Ensures-if _ (h.conn_of c).send_closed none _ (λ _. tt)
        λ _. ((refl, refl), λ x ne. set_conn-SameConn c x (push env (h.conn_of c)) h ne)

  pub send_if_registered-Same :
      (c : Bytes) (env : Envelope) (h : Hub S)
      → Ensures
          (λ h'. SameStore h h' × ((x : Bytes) → x ≢ c → SameConn x h h'))
          (send_if_registered c env h)
  unfolding send_if_registered
  send_if_registered-Same c env h =
      Ensures-if _ (h.registered c) (send_envelope c env h) (some h)
        (λ _. send_envelope-Same c env h) λ _. ((refl, refl), λ x ne. refl)

  -- The loops over the members of a slot write to no connection but those on the list.
  pub send_to_members-Same :
      (ms : List Bytes) (env : Envelope) (h : Hub S)
      → Ensures
          (λ h'. SameStore h h' × ((x : Bytes) → contains x ms ≡ false → SameConn x h h'))
          (send_to_members ms env h)
  unfolding send_to_members
  send_to_members-Same [] env h = ((refl, refl), λ x e. refl)
  send_to_members-Same (m ∷ ms) env h =
      bind-Ensures (λ h'. SameStore h h' × ((x : Bytes) → x ≢ m → SameConn x h h')) _
        (send_if_registered m env h) (send_to_members ms env) (send_if_registered-Same m env h)
        λ a p.
          map-Ensures _ _ (send_to_members ms env a)
            (λ b r. (
              (r.0.0 ∙ p.0.0, r.0.1 ∙ p.0.1),
              λ x e. r.1 x (contains-tail x m ms e) ∙ p.1 x (contains-head x m ms e),
            ))
            (send_to_members-Same ms env a)

module _ {S : Type 0} (N : Bytes → Type 0) where
  -- Sends at most happened, and none to the connections in `N`: every connection is in the slot in
  -- which it was.
  pub record Calm (h h' : Hub S) : Type 0 where
    pub same_store : SameStore h h'
    pub same_conn : (x : Bytes) → N x → SameConn x h h'
    pub same_slot : (x : Bytes) → (h'.conn_of x).slot_id ≡ (h.conn_of x).slot_id

  pub Calm-refl : (h : Hub S) → Calm h h
  Calm-refl h = record { same_store = (refl, refl); same_conn = λ x n. refl; same_slot = λ x. refl }

  pub Calm-trans : (h a b : Hub S) → Calm h a → Calm a b → Calm h b
  Calm-trans h a b p q = record {
    same_store = (q.same_store.0 ∙ p.same_store.0, q.same_store.1 ∙ p.same_store.1);
    same_conn = λ x n. q.same_conn x n ∙ p.same_conn x n;
    same_slot = λ x. q.same_slot x ∙ p.same_slot x;
  }

  pub bind-Calm :
      (h : Hub S) (m : Option (Hub S)) (f : Hub S → Option (Hub S))
      → Ensures (Calm h) m
      → ((a : Hub S) → Ensures (Calm a) (f a))
      → Ensures (Calm h) (m >>= f)
  bind-Calm h m f p k =
      bind-Ensures (Calm h) (Calm h) m f p
        λ a q. map-Ensures (Calm a) (Calm h) (f a) (λ b r. Calm-trans h a b q r) (k a)

  pushed_slot :
      (c x : Bytes) (env : Envelope) (h : Hub S)
      → ((set_conn c (push env (h.conn_of c)) h).conn_of x).slot_id ≡ (h.conn_of x).slot_id
  unfolding push
  pushed_slot c x env h = ground (arith, bytes_eq_iff c x)

  pub send_envelope-Calm :
      (c : Bytes) (env : Envelope) (h : Hub S)
      → ((x : Bytes) → N x → x ≢ c)
      → Ensures (Calm h) (send_envelope c env h)
  unfolding send_envelope
  send_envelope-Calm c env h away =
      Ensures-if (Calm h) (h.conn_of c).send_closed none _ (λ _. tt)
        λ _. record {
          same_store = (refl, refl);
          same_conn = λ x n. set_conn-SameConn c x (push env (h.conn_of c)) h (away x n);
          same_slot = λ x. pushed_slot c x env h;
        }

  pub send_if_registered-Calm :
      (c : Bytes) (env : Envelope) (h : Hub S)
      → ((x : Bytes) → N x → x ≢ c)
      → Ensures (Calm h) (send_if_registered c env h)
  unfolding send_if_registered
  send_if_registered-Calm c env h away =
      Ensures-if (Calm h) (h.registered c) (send_envelope c env h) (some h)
        (λ _. send_envelope-Calm c env h away) λ _. Calm-refl h

  pub send_to_members-Calm :
      (ms : List Bytes) (env : Envelope) (h : Hub S)
      → ((x : Bytes) → N x → contains x ms ≡ false)
      → Ensures (Calm h) (send_to_members ms env h)
  unfolding send_to_members
  send_to_members-Calm [] env h away = Calm-refl h
  send_to_members-Calm (m ∷ ms) env h away =
      bind-Calm h (send_if_registered m env h) (send_to_members ms env)
        (send_if_registered-Calm m env h λ x n. contains-head x m ms (away x n))
        λ a. send_to_members-Calm ms env a λ x n. contains-tail x m ms (away x n)
