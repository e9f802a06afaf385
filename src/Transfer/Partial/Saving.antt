-- ===== src/Transfer/Partial/Saving.antt =====
-- The owner of a receiver on disk of internal/transfer/transfer.go, which feeds it frame by frame.
use gmmff.Prelude.{ℕ, ◌≡◌, ap, true, List, [], ◌∷◌, ◌++◌}
use gmmff.Prelude.Bytes.{Bytes}
use gmmff.Transfer.Folder.{Local}
use gmmff.Transfer.Partial.{Saver, Progress, more, saved, searching, broken, Reply, After, feed}
use gmmff.Transfer.Partial.Working.{after}

-- The calls of an owner that stops at the first result other than (false, nil), with all replies.
abbrev pub goes_on : {S : Type 0} → List Reply → Progress → After S → After S → After S
goes_on replies more a rest = rest
goes_on replies saved a rest = record a { replies = replies }
goes_on replies searching a rest = record a { replies = replies }
goes_on replies (broken e) a rest = record a { replies = replies }

unfoldable pub save :
    (l : Local) → ℕ → List Bytes → List Reply → Saver → l.folder.State → After l.folder.State
save l fuel [] replies r s = after r s more replies
save l fuel (f ∷ fs) replies r s =
    let a = feed l fuel true f r s in
    goes_on (replies ++ a.replies) a.progress a
      (save l fuel fs (replies ++ a.replies) a.saver a.disk)

module _ (l : Local) (fuel : ℕ) (f : Bytes) (fs : List Bytes) (replies : List Reply) where
  pub save-more :
      (r : Saver) (s : l.folder.State) (r' : Saver) (s' : l.folder.State) (a : List Reply)
      → feed l fuel true f r s ≡ after r' s' more a
      → save l fuel (f ∷ fs) replies r s ≡ save l fuel fs (replies ++ a) r' s'
  unfolding save
  save-more r s r' s' a e =
      ap
        (λ x.
          goes_on (replies ++ x.replies) x.progress x
            (save l fuel fs (replies ++ x.replies) x.saver x.disk))
        e

  pub save-saved :
      (r : Saver) (s : l.folder.State) (r' : Saver) (s' : l.folder.State) (a : List Reply)
      → feed l fuel true f r s ≡ after r' s' saved a
      → save l fuel (f ∷ fs) replies r s ≡ after r' s' saved (replies ++ a)
  unfolding save
  save-saved r s r' s' a e =
      ap
        (λ x.
          goes_on (replies ++ x.replies) x.progress x
            (save l fuel fs (replies ++ x.replies) x.saver x.disk))
        e
