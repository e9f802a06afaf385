-- ===== src/Transfer/Flow.antt =====
-- The flow control of runFromReader in internal/transfer/transfer.go: how many chunks are under way,
-- and what has been sent when the loop ends.
use mathlib.Core.List.{append_assoc, append-nil}
use gmmff.Prelude.{
  ℕ, zero, suc, ◌+◌, ◌-◌, ◌%◌, ◌^◌, ◌≤◌, ◌<◌, ◌≡◌, refl, sym, ap, ◌∙◌, Bool, true, false, not, ◌&&◌,
  ◌||◌, List, [], ◌∷◌, ◌++◌, none, some, ltb, leb, ◌==◌, length, length-append, arith, Bool-cases,
  inl, inr,
}
use gmmff.Prelude.Int.{ℤ}
use gmmff.Prelude.Bytes.{Bytes}
use gmmff.Transfer.Frames.{chunk_frame, put_uint64, tag_transfer_done}
use gmmff.Transfer.Receive.{chunk_frames}
use gmmff.Transfer.Delivery.{joined, numbers_from}
use gmmff.Transfer.Advance.{NextAtMost, turn-NextAtMost}
use gmmff.Transfer.Window.{
  clamp_window, clamp_chunk, Sending, no_error, end_of_file, broken, Event, ctx_done, remote_cancel,
  ack, reads, transferred, Progress, going, stopped, in_flight, on_wait, on_read, goes_on, turn,
  finish, after_turn, send_loop, sending_from,
}

chunk_frames-append :
    (seq : ℕ) (ps : List Bytes) (p : Bytes)
    → chunk_frames seq (ps ++ p ∷ []) ≡ chunk_frames seq ps ++ chunk_frame (seq + length ps) p ∷ []
unfolding chunk_frames
chunk_frames-append seq [] p = let e : seq + 0 ≡ seq = omega arith in rw e refl
chunk_frames-append seq (q ∷ ps) p =
    let e : suc seq + length ps ≡ seq + suc (length ps) = omega arith in
    ap (λ l. chunk_frame seq q ∷ l) (chunk_frames-append (suc seq) ps p)
    ∙ ap (λ n. chunk_frame seq q ∷ (chunk_frames (suc seq) ps ++ chunk_frame n p ∷ [])) e

joined-append : (ps : List Bytes) (p : Bytes) → joined (ps ++ p ∷ []) ≡ joined ps ++ p
unfolding joined
joined-append [] p = append-nil p
joined-append (q ∷ ps) p =
    ap (λ l. q ++ l) (joined-append ps p) ∙ sym (append_assoc q (joined ps) p)

numbers_from-append :
    (start n : ℕ) → numbers_from start n ++ (start + n) ∷ [] ≡ numbers_from start (suc n)
unfolding numbers_from
numbers_from-append start zero = let e : start + 0 ≡ start = omega arith in rw e refl
numbers_from-append start (suc n) =
    let e : start + suc n ≡ suc start + n = omega arith in
    rw e (ap (λ l. start ∷ l) (numbers_from-append (suc start) n))

-- Every byte that was read has been sent, in chunks numbered from `start` without a gap; the
-- acknowledgements taken were those of the first chunks, one each and in order, and no more than the
-- window are without one.
pub record InWindow (start window : ℕ) (s : Sending) : Type 0 where
  pub pieces : List Bytes
  pub framed : s.sent ≡ chunk_frames start pieces
  pub was_read : s.consumed ≡ joined pieces
  pub counted : s.next ≡ start + length pieces
  pub confirmed : s.acks ≡ numbers_from start (s.base - start)
  pub ordered : (start ≤ s.base) × (s.base ≤ s.next)
  pub bounded : s.next ≤ s.base + window

-- What holds when the loop has stopped.
pub record IsComplete (start : ℕ) (s : Sending) : Type 0 where
  pub pieces : List Bytes
  pub framed : s.sent ≡ chunk_frames start pieces ++ (tag_transfer_done ∷ []) ∷ []
  pub was_read : s.consumed ≡ joined pieces
  pub at_end : s.file_eof ≡ true
  pub acknowledged : s.acks ≡ numbers_from start (length pieces)

unfoldable pub Kept : ℕ → ℕ → Progress → Type 0
Kept start window (going s) = InWindow start window s
Kept start window (stopped transferred s) = IsComplete start s
Kept start window (stopped _ s) = s.next ≤ s.base + window

module _ (start window : ℕ) where
  InWindow-start : InWindow start window (sending_from start)
  unfolding chunk_frames joined numbers_from
  InWindow-start = record {
    pieces = [];
    framed = refl;
    was_read = refl;
    counted = omega arith;
    confirmed = let e : start - start ≡ 0 = omega arith in rw e refl;
    ordered = (omega arith, omega arith);
    bounded = omega arith;
  }

  pub in_flight_lem :
      (s : Sending) → s.base ≤ s.next → s.next < 2 ^ 64 → in_flight s ≡ s.next - s.base
  in_flight_lem s h k = omega arith

  one_confirmed :
      (seq : ℕ) (s : Sending)
      → InWindow start window s
      → seq ≡ s.base
      → s.acks ++ seq ∷ [] ≡ numbers_from start (suc s.base - start)
  one_confirmed seq s v e =
      let n : suc s.base - start ≡ suc (s.base - start) = omega (arith, v.ordered) in
      let m : seq ≡ start + (s.base - start) = omega (arith, v.ordered) in
      rw (v.confirmed, n, m) (numbers_from-append start (s.base - start))

  on_wait-Kept :
      (e : Event) (s : Sending)
      → InWindow start window s
      → s.base < s.next
      → s.next < 2 ^ 64
      → Kept start window (on_wait e s)
  unfolding on_wait Kept
  on_wait-Kept ctx_done s v h k = v.bounded
  on_wait-Kept remote_cancel s v h k = v.bounded
  on_wait-Kept (ack none) s v h k = v.bounded
  on_wait-Kept (ack (some seq)) s v h k = elim (Bool-cases (seq == s.base)) [
    | inl e ↦ rw e (
        let small : suc s.base % 2 ^ 64 ≡ suc s.base = omega arith in
        record {
          pieces = v.pieces;
          framed = v.framed;
          was_read = v.was_read;
          counted = v.counted;
          confirmed = rw small (one_confirmed seq s v (ground arith));
          ordered = (omega (arith, v.ordered), omega arith);
          bounded = omega (arith, v.bounded);
        })
    | inr e ↦ rw e v.bounded
  ]
  on_wait-Kept (reads b e o) s v h k = v

  one_more :
      (b : ℕ) (bs : Bytes) (s : Sending)
      → InWindow start window s
      → s.next < s.base + window
      → suc s.next < 2 ^ 64
      → InWindow start window (record s {
        consumed = s.consumed ++ b ∷ bs;
        next = suc s.next % 2 ^ 64;
        sent = s.sent ++ chunk_frame s.next (b ∷ bs) ∷ [];
      })
  one_more b bs s v h k =
      let small : suc s.next % 2 ^ 64 ≡ suc s.next = omega arith in
      record {
        pieces = v.pieces ++ (b ∷ bs) ∷ [];
        framed = rw (v.framed, v.counted) (sym (chunk_frames-append start v.pieces (b ∷ bs)));
        was_read = rw v.was_read (sym (joined-append v.pieces (b ∷ bs)));
        counted = omega (arith, v.counted, length-append v.pieces ((b ∷ bs) ∷ []));
        confirmed = v.confirmed;
        ordered = (v.ordered.0, omega (arith, v.ordered));
        bounded = omega arith;
      }

  at_eof :
      (s : Sending) → InWindow start window s → InWindow start window (record s { file_eof = true })
  at_eof s v = record {
    pieces = v.pieces;
    framed = v.framed;
    was_read = v.was_read;
    counted = v.counted;
    confirmed = v.confirmed;
    ordered = v.ordered;
    bounded = v.bounded;
  }

  on_read-Kept :
      (e : Event) (s : Sending)
      → InWindow start window s
      → s.next < s.base + window
      → suc s.next < 2 ^ 64
      → Kept start window (on_read e s)
  unfolding on_read Kept
  on_read-Kept ctx_done s v h k = v.bounded
  on_read-Kept remote_cancel s v h k = v.bounded
  on_read-Kept (ack a) s v h k = v
  on_read-Kept (reads [] no_error o) s v h k = v
  on_read-Kept (reads [] end_of_file o) s v h k = at_eof s v
  on_read-Kept (reads [] broken o) s v h k = v.bounded
  on_read-Kept (reads (b ∷ bs) e false) s v h k = v.bounded
  on_read-Kept (reads (b ∷ bs) no_error true) s v h k = one_more b bs s v h k
  on_read-Kept (reads (b ∷ bs) end_of_file true) s v h k = at_eof _ (one_more b bs s v h k)
  on_read-Kept (reads (b ∷ bs) broken true) s v h k = (one_more b bs s v h k).bounded

  turn-Kept :
      (e : Event) (s : Sending)
      → 1 ≤ window
      → InWindow start window s
      → suc s.next < 2 ^ 64
      → Kept start window (turn window e s)
  unfolding turn
  turn-Kept e s w v k =
      let f = in_flight_lem s v.ordered.1 (omega arith) in
      elim (Bool-cases (leb window (in_flight s) || (s.file_eof && ltb s.base s.next))) [
        | inl c ↦ rw c (on_wait-Kept e s v (ground arith) (omega arith))
        | inr c ↦ elim (Bool-cases (not s.file_eof && ltb (in_flight s) window)) [
          | inl d ↦ rw (c, d) (on_read-Kept e s v (ground arith) k)
          | inr d ↦ rw (c, d) (unfold Kept in v)
        ]
      ]

  after_turn-Kept :
      (n : ℕ) (q : Progress) (k : Sending → Progress)
      → Kept start window q
      → NextAtMost n q
      → ((t : Sending) → InWindow start window t → t.next ≤ n → Kept start window (k t))
      → Kept start window (after_turn q k)
  unfolding Kept
  after_turn-Kept n (going t) k v b go = go t v b
  after_turn-Kept n (stopped stop t) k v b go = v

  finish-Kept :
      (o : Bool) (s : Sending)
      → goes_on s ≡ false
      → InWindow start window s
      → Kept start window (finish o s)
  unfolding finish Kept
  finish-Kept false s g v = v.bounded
  finish-Kept true s g v = record {
    pieces = v.pieces;
    framed = ap (λ l. l ++ (tag_transfer_done ∷ []) ∷ []) v.framed;
    was_read = v.was_read;
    at_end = ground arith;
    acknowledged =
        let n : s.base - start ≡ length v.pieces = ground (arith, v.counted, v.ordered) in
        v.confirmed ∙ ap (numbers_from start) n;
  }

  send_loop-Kept :
      (o : Bool) (es : List Event) (s : Sending)
      → 1 ≤ window
      → InWindow start window s
      → s.next + length es < 2 ^ 64
      → Kept start window (send_loop window o es s)
  unfolding send_loop
  send_loop-Kept o [] s w v k = elim (Bool-cases (goes_on s)) [
    | inl g ↦ rw g (unfold Kept in v)
    | inr g ↦ rw g (finish-Kept o s g v)
  ]
  send_loop-Kept o (e ∷ es) s w v k = elim (Bool-cases (goes_on s)) [
    | inl g ↦ rw g (
        after_turn-Kept (suc s.next) (turn window e s) (send_loop window o es)
          (turn-Kept e s w v (omega arith)) (turn-NextAtMost window e s)
          λ t u b. send_loop-Kept o es t w u (omega arith))
    | inr g ↦ rw g (finish-Kept o s g v)
  ]

pub clamp_window_pos : (w : ℤ) → 1 ≤ clamp_window w
unfolding clamp_window
clamp_window_pos w = ground arith

-- From the chunk at which the sender starts, whatever window was asked of NewSender and whatever the
-- loop meets: with fewer events than there are sequence numbers left, no more than the window is ever
-- under way. As long as the loop goes on, what was read has been sent as chunks numbered without a
-- gap, and the acknowledgements that it has taken are those of the first of them, one each and in
-- order. If it returns nil, then the source was at its end, the acknowledgements it took are exactly
-- those of all these chunks in order, and TransferDone was sent after them.
pub send_loop-sending_from :
    (start : ℕ) (w : ℤ) (tag_ok : Bool) (es : List Event)
    → start + length es < 2 ^ 64
    → Kept start (clamp_window w) (send_loop (clamp_window w) tag_ok es (sending_from start))
send_loop-sending_from start w tag_ok es k =
    let window = clamp_window w in
    send_loop-Kept start window tag_ok es (sending_from start) (clamp_window_pos w)
      (InWindow-start start window) k

-- Whatever chunk size is asked of NewSender, at least one byte fits a chunk, and the frame of a chunk
-- that fits is at most 65535 bytes long, the largest message that SCTP takes.
pub length-chunk_frame :
    (c : ℤ) (seq : ℕ) (d : Bytes)
    → length d ≤ clamp_chunk c
    → (1 ≤ clamp_chunk c) × (length (chunk_frame seq d) ≤ 65535)
unfolding clamp_chunk chunk_frame put_uint64
length-chunk_frame c seq d h = ground arith
