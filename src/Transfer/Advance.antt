-- ===== src/Transfer/Advance.antt =====
-- How far one turn of the send loop in internal/transfer/transfer.go advances.
use gmmff.Prelude.{
  ℕ, suc, ◌≤◌, true, false, not, ◌&&◌, ◌||◌, [], ◌∷◌, none, some, ltb, leb, ◌==◌, arith, Bool-cases,
  inl, inr,
}
use gmmff.Transfer.Window.{
  Sending, no_error, end_of_file, broken, Event, ctx_done, remote_cancel, ack, reads, Progress,
  going, stopped, in_flight, on_wait, on_read, turn,
}

-- No turn sends more than one chunk.
abbrev pub NextAtMost : ℕ → Progress → Type 0
NextAtMost n (going t) = t.next ≤ n
NextAtMost n (stopped stop t) = Unit {0}

on_wait-NextAtMost : (e : Event) (s : Sending) → NextAtMost (suc s.next) (on_wait e s)
unfolding on_wait
on_wait-NextAtMost ctx_done s = tt
on_wait-NextAtMost remote_cancel s = tt
on_wait-NextAtMost (ack none) s = tt
on_wait-NextAtMost (ack (some seq)) s = elim (Bool-cases (seq == s.base)) [
  | inl e ↦ rw e (omega arith)
  | inr e ↦ rw e tt
]
on_wait-NextAtMost (reads b e o) s = omega arith

on_read-NextAtMost : (e : Event) (s : Sending) → NextAtMost (suc s.next) (on_read e s)
unfolding on_read
on_read-NextAtMost ctx_done s = tt
on_read-NextAtMost remote_cancel s = tt
on_read-NextAtMost (ack a) s = omega arith
on_read-NextAtMost (reads [] no_error o) s = omega arith
on_read-NextAtMost (reads [] end_of_file o) s = omega arith
on_read-NextAtMost (reads [] broken o) s = tt
on_read-NextAtMost (reads (b ∷ bs) e false) s = tt
on_read-NextAtMost (reads (b ∷ bs) no_error true) s = omega arith
on_read-NextAtMost (reads (b ∷ bs) end_of_file true) s = omega arith
on_read-NextAtMost (reads (b ∷ bs) broken true) s = tt

pub turn-NextAtMost :
    (window : ℕ) (e : Event) (s : Sending) → NextAtMost (suc s.next) (turn window e s)
unfolding turn
turn-NextAtMost window e s =
    elim (Bool-cases (leb window (in_flight s) || (s.file_eof && ltb s.base s.next))) [
      | inl c ↦ rw c (on_wait-NextAtMost e s)
      | inr c ↦ elim (Bool-cases (not s.file_eof && ltb (in_flight s) window)) [
        | inl d ↦ rw (c, d) (on_read-NextAtMost e s)
        | inr d ↦ rw (c, d) (omega arith)
      ]
    ]
