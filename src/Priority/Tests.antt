-- ===== src/Priority/Tests.antt =====
-- Runs of the send order.
use orbitnet.Base.{◌≡◌, refl, false, List, [], ◌∷◌, arith}
use orbitnet.Priority.{near, far, band_weight, weight_for, Candidate, score, less, cmp, order}
use orbitnet.Priority.Wait.{cmp-waited}

-- A body close by that was just sent, one far off that has waited, and one of its weight and wait.
abbrev close : Candidate
close = record { id = 1; staleness = 2; weight = 16384 }

abbrev distant : Candidate
distant = record { id = 3; staleness = 130; weight = 256 }

abbrev twin : Candidate
twin = record { id = 2; staleness = 130; weight = 256 }

abbrev three : List Candidate
three = close ∷ distant ∷ twin ∷ []

order_run : order three ≡ twin ∷ distant ∷ close ∷ []
unfolding order cmp score
order_run = refl

cmp-waited_example : cmp distant close ≡ less
unfolding weight_for band_weight
cmp-waited_example =
    cmp-waited distant close far near 1 16 false false refl refl (omega arith) (omega arith)
