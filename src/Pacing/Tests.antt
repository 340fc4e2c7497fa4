-- ===== src/Pacing/Tests.antt =====
-- Runs of the pacing.
use orbitnet.Base.{ℕ, ◌≡◌, ◌≢◌, refl, ap, List, [], ◌∷◌, arith}
use orbitnet.Base.Int.{ℤ, pos, negsuc, pos_part}
use orbitnet.Pacing.Slew.{run0, run1, run2, with_params, decide}
use orbitnet.Pacing.Slew.Laws.{decisions}
use orbitnet.Pacing.Lead.{LeadTracker, min_margin, suggest_adjustment}
use orbitnet.Pacing.Lead.Laws.{pushes, suggest_adjustment-spaced}

-- 1.0, -2.0 and 0.5.
abbrev one : ℕ
one = 0x3ff0000000000000

abbrev minus_two : ℕ
minus_two = 0xc000000000000000

abbrev half : ℕ
half = 0x3fe0000000000000

slew_runs :
    (decisions (with_params 0 2) (half ∷ one ∷ minus_two ∷ minus_two ∷ minus_two ∷ []))
    ≡ run1 ∷ run2 ∷ run1 ∷ run1 ∷ run0 ∷ []
unfolding decisions decide with_params
slew_runs = refl

-- Three margins of two.
abbrev margins : List ℤ
margins = pos 1 ∷ negsuc 0 ∷ negsuc 2 ∷ []

abbrev late : LeadTracker
late = record { samples = negsuc 0 ∷ pos 1 ∷ []; capacity = 2; next = 0 }

suggest_adjustment-spaced_example :
    (suggest_adjustment (pushes (suggest_adjustment late (pos 1)).1 (negsuc 4 ∷ [])) (pos 1)).0
    ≡ pos 0
unfolding suggest_adjustment min_margin
suggest_adjustment-spaced_example =
    suggest_adjustment-spaced late (pos 1) (pos 1) (negsuc 4 ∷ []) (λ e. two_apart e) (omega arith)
  where
    two_apart : pos 1 ≢ pos 0
    two_apart e = omega (arith, ap pos_part e)
