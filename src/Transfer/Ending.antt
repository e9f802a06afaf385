-- ===== src/Transfer/Ending.antt =====
-- The send loop of runFromReader in internal/transfer/transfer.go against a receiver that acknowledges
-- every chunk.
use mathlib.Core.List.{append_assoc, append-nil}
use gmmff.Prelude.{
  ℕ, zero, suc, ◌+◌, ◌-◌, ◌*◌, ◌%◌, ◌^◌, ◌≤◌, ◌<◌, ◌≡◌, ◌≢◌, refl, sym, ◌∙◌, Bool, true, false,
  ◌&&◌, ◌||◌, List, [], ◌∷◌, ◌++◌, some, ltb, leb, ==_iff, length, arith, Bool-cases, inl, inr,
  if◌then◌else◌,
}
use gmmff.Prelude.Int.{ℤ}
use gmmff.Prelude.Bytes.{Bytes}
use gmmff.Transfer.Frames.{chunk_frame, tag_transfer_done}
use gmmff.Transfer.Receive.{chunk_frames}
use gmmff.Transfer.Delivery.{joined}
use gmmff.Transfer.Window.{
  clamp_window, Sending, no_error, end_of_file, Event, ack, reads, transferred, Progress, going,
  stopped, in_flight, on_wait, on_read, goes_on, turn, finish, send_loop, sending_from,
}
use gmmff.Transfer.Flow.{clamp_window_pos, in_flight_lem}

abbrev waits : ℕ → Sending → Bool
waits window s = leb window (in_flight s) || (s.file_eof && ltb s.base s.next)

-- The rest of the source is `ps`, one piece for each Read and then io.EOF.
abbrev pub next_read : List Bytes → Event × List Bytes
next_read [] = (reads [] end_of_file true, [])
next_read (p ∷ ps) = (reads p no_error true, ps)

-- What the loop meets: where it waits, the acknowledgement of the oldest chunk, and else a Read.
abbrev pub next_event : ℕ → List Bytes → Sending → Event × List Bytes
next_event window ps s = if waits window s then (ack (some s.base), ps) else next_read ps

abbrev pub state_after : Progress → Sending
state_after (going t) = t
state_after (stopped stop t) = t

-- The events of `n` turns.
unfoldable pub served : ℕ → ℕ → List Bytes → Sending → List Event
unfolding turn
served zero window ps s = []
served (suc n) window ps s =
    let e = (next_event window ps s).0 in
    e ∷ served n window (next_event window ps s).1 (state_after (turn window e s))

-- No piece is empty.
abbrev pub NonEmpty : List Bytes → Type 0
NonEmpty [] = Unit {0}
NonEmpty (p ∷ ps) = (p ≢ []) × NonEmpty ps

abbrev unread : Bool → ℕ
unread true = 0
unread false = 1

module _ (window : ℕ) (positive : 1 ≤ window) where
  -- So many turns are left.
  record Left (n : ℕ) (ps : List Bytes) (s : Sending) : Type 0 where
    turns : n ≡ 2 * length ps + (s.next - s.base) + unread s.file_eof
    ordered : (s.base ≤ s.next) × (s.next ≤ s.base + window)
    small : s.next + length ps < 2 ^ 64
    at_end : s.file_eof ≡ true → length ps ≡ 0

  abbrev Ends : List Bytes → Sending → Progress → Type 0
  Ends ps s q =
      (t : Sending) × ((q ≡ stopped transferred t)
        × ((t.consumed ≡ s.consumed ++ joined ps)
            × (t.sent ≡ s.sent ++ (chunk_frames s.next ps ++ (tag_transfer_done ∷ []) ∷ []))))

  nothing_left :
      (ps : List Bytes) (s : Sending) → Left 0 ps s → Ends ps s (send_loop window true [] s)
  unfolding send_loop finish joined chunk_frames
  nothing_left [] s l =
      let g : goes_on s ≡ false = ground (arith, l.turns, l.ordered) in
      rw g (
        record s { sent = s.sent ++ (tag_transfer_done ∷ []) ∷ [] },
        (refl, (sym (append-nil s.consumed), refl)),
      )
  nothing_left (p ∷ ps) s l = absurd (omega (arith, l.turns))

  -- One more acknowledgement.
  acked :
      (n : ℕ) (ps : List Bytes) (s : Sending)
      → waits window s ≡ true
      → Left (suc n) ps s
      → Left n ps (record s { base = suc s.base % 2 ^ 64; acks = s.acks ++ s.base ∷ [] })
  acked n ps s w l =
      let f = in_flight_lem 0 window s l.ordered.0 (omega (arith, l.small)) in
      let lt : s.base < s.next = ground (arith, f, w) in
      record {
        turns = omega (arith, l.turns, l.ordered, l.small);
        ordered = (omega (arith, l.small), omega (arith, l.ordered, l.small));
        small = l.small;
        at_end = l.at_end;
      }

  read_more :
      (n : ℕ) (p : Bytes) (ps : List Bytes) (s : Sending)
      → waits window s ≡ false
      → Left (suc n) (p ∷ ps) s
      → Left n ps (record s {
        next = suc s.next % 2 ^ 64;
        consumed = s.consumed ++ p;
        sent = s.sent ++ chunk_frame s.next p ∷ [];
      })
  read_more n p ps s w l =
      let f = in_flight_lem 0 window s l.ordered.0 (omega (arith, l.small)) in
      let lt : s.next - s.base < window = ground (arith, f, w) in
      record {
        turns = omega (arith, l.turns, l.ordered, l.small);
        ordered = (omega (arith, l.ordered, l.small), omega (arith, l.ordered, l.small));
        small = omega (arith, l.small);
        at_end = λ h. absurd (omega (arith, l.at_end h));
      }

  read_end :
      (n : ℕ) (s : Sending)
      → waits window s ≡ false
      → Left (suc n) [] s
      → (s.file_eof ≡ false) × Left n [] (record s { file_eof = true })
  read_end n s w l =
      let e : s.file_eof ≡ false = ground (arith, w, l.turns, l.ordered) in
      let one : unread s.file_eof ≡ 1 = rw e refl in
      (
        e,
        record {
          turns = omega (arith, l.turns, one);
          ordered = l.ordered;
          small = l.small;
          at_end = λ h. refl;
        },
      )

  waits_on : (s : Sending) → 1 ≤ window → s.base < s.next → goes_on s ≡ true
  waits_on s p h = ground arith

  turn-waits :
      (s : Sending)
      → waits window s ≡ true
      → turn window (ack (some s.base)) s
        ≡ going (record s { base = suc s.base % 2 ^ 64; acks = s.acks ++ s.base ∷ [] })
  unfolding turn on_wait
  turn-waits s w = rw (w, (==_iff s.base s.base).1 refl) refl

  turn_reads :
      (s : Sending) (e : Event)
      → waits window s ≡ false
      → s.file_eof ≡ false
      → turn window e s ≡ on_read e s
  unfolding turn
  turn_reads s e w f =
      let room : ltb (in_flight s) window ≡ true = ground (arith, w) in rw (w, f, room) refl

  loop_going :
      (e : Event) (es : List Event) (s t : Sending)
      → goes_on s ≡ true
      → turn window e s ≡ going t
      → send_loop window true (e ∷ es) s ≡ send_loop window true es t
  unfolding send_loop
  loop_going e es s t g h = rw (g, h) refl

  continues :
      (n : ℕ) (ps qs : List Bytes) (s t : Sending) (e : Event)
      → next_event window ps s ≡ (e, qs)
      → goes_on s ≡ true
      → turn window e s ≡ going t
      → send_loop window true (served (suc n) window ps s) s
        ≡ send_loop window true (served n window qs t) t
  unfolding served
  continues n ps qs s t e h g k = rw (h, loop_going e _ s t g k, k) refl

  Ends-waits :
      (n : ℕ) (ps : List Bytes) (s : Sending)
      → waits window s ≡ true
      → Left (suc n) ps s
      → ((t : Sending) → Left n ps t → Ends ps t (send_loop window true (served n window ps t) t))
      → Ends ps s (send_loop window true (served (suc n) window ps s) s)
  Ends-waits n ps s w l rest =
      let f = in_flight_lem 0 window s l.ordered.0 (omega (arith, l.small)) in
      let lt : s.base < s.next = ground (arith, f, w) in
      let t = record s { base = suc s.base % 2 ^ 64; acks = s.acks ++ s.base ∷ [] } in
      rw
        (continues n ps ps s t (ack (some s.base)) (rw w refl) (waits_on s positive lt)
          (turn-waits s w))
        (rest t (acked n ps s w l))

  Ends-on_read :
      (n : ℕ) (b : ℕ) (bs : Bytes) (ps : List Bytes) (s : Sending)
      → waits window s ≡ false
      → Left (suc n) ((b ∷ bs) ∷ ps) s
      → ((t : Sending) → Left n ps t → Ends ps t (send_loop window true (served n window ps t) t))
      → Ends ((b ∷ bs) ∷ ps) s (send_loop window true (served (suc n) window ((b ∷ bs) ∷ ps) s) s)
  unfolding joined chunk_frames on_read
  Ends-on_read n b bs ps s w l rest =
      let p = b ∷ bs in
      let open_end : s.file_eof ≡ false = ground (arith, l.at_end) in
      let g : goes_on s ≡ true = rw open_end refl in
      let t = record s {
        next = suc s.next % 2 ^ 64;
        consumed = s.consumed ++ p;
        sent = s.sent ++ chunk_frame s.next p ∷ [];
      } in
      let small : suc s.next % 2 ^ 64 ≡ suc s.next = omega (arith, l.small) in
      let (u, (e, (read, sent))) = rest t (read_more n p ps s w l) in
      rw
        (continues n (p ∷ ps) ps s t (reads p no_error true) (rw w refl) g
          (turn_reads s (reads p no_error true) w open_end))
        (
          u,
          (
            e,
            (
              read ∙ append_assoc s.consumed p (joined ps),
              sent
                  ∙ rw small (
                      append_assoc s.sent (chunk_frame s.next p ∷ [])
                        (chunk_frames (suc s.next) ps ++ (tag_transfer_done ∷ []) ∷ [])),
            ),
          ),
        )

  ends :
      (n : ℕ) (ps : List Bytes) (s : Sending)
      → NonEmpty ps
      → Left n ps s
      → Ends ps s (send_loop window true (served n window ps s) s)
  unfolding served on_read
  ends zero ps s h l = nothing_left ps s l
  ends (suc n) [] s h l = elim (Bool-cases (waits window s)) [
    | inl w ↦ Ends-waits n [] s w l λ t k. ends n [] t h k
    | inr w ↦
        let (e, k) = read_end n s w l in
        let g : goes_on s ≡ true = rw e refl in
        rw
          (continues n [] [] s (record s { file_eof = true }) (reads [] end_of_file true)
            (rw w refl) g (turn_reads s (reads [] end_of_file true) w e))
          (ends n [] (record s { file_eof = true }) h k)
  ]
  ends (suc n) ([] ∷ ps) s (h, hs) l = absurd (h refl)
  ends (suc n) ((b ∷ bs) ∷ ps) s (h, hs) l = elim (Bool-cases (waits window s)) [
    | inl w ↦ Ends-waits n ((b ∷ bs) ∷ ps) s w l λ t k. ends n ((b ∷ bs) ∷ ps) t (h, hs) k
    | inr w ↦ Ends-on_read n b bs ps s w l λ t k. ends n ps t hs k
  ]

-- Let the source give the pieces `ps`, none of them empty, and let the receiver acknowledge each chunk.
-- With fewer pieces than there are sequence numbers left, the loop then ends, whatever window was asked
-- of NewSender: after two turns for each piece and one for the end of the source it returns nil, and it
-- has sent exactly these pieces as chunks, numbered on from the first, and TransferDone.
pub send_loop-served :
    (start : ℕ) (w : ℤ) (ps : List Bytes)
    → NonEmpty ps
    → start + length ps < 2 ^ 64
    → let es = served (2 * length ps + 1) (clamp_window w) ps (sending_from start) in
      (t : Sending) × ((send_loop (clamp_window w) true es (sending_from start)
          ≡ stopped transferred t)
        × ((t.consumed ≡ joined ps)
            × (t.sent ≡ chunk_frames start ps ++ (tag_transfer_done ∷ []) ∷ [])))
send_loop-served start w ps h k =
    ends (clamp_window w) (clamp_window_pos w) (2 * length ps + 1) ps (sending_from start) h
      record {
        turns = omega arith;
        ordered = (omega arith, omega arith);
        small = k;
        at_end = λ e. cc e;
      }
