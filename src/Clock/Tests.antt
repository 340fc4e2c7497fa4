-- ===== src/Clock/Tests.antt =====
-- Runs of the estimator.
use orbitnet.Base.{◌≡◌, refl, true, some, List, [], ◌∷◌, is_some}
use orbitnet.Clock.{
  Sample, with_capacity, push_sample, apply_local_correction, clear, offset, stretch,
  needs_hard_resync_with_lead,
}
use orbitnet.Clock.Laws.{Event, probed, corrected, happened, after_events, after_events-answers}
use orbitnet.Clock.Arithmetic.{whole_numbers}

-- A probe that is not a number is among them.
abbrev events : List Event
events = probed 8 40 ∷ probed 0x7ff8000000000000 1 ∷ probed 4 20 ∷ corrected 5 ∷ probed 6 9 ∷ []

-- The better half of three is two: offsets 15 and 9.
offset_run : offset whole_numbers (after_events whole_numbers (with_capacity 4) events) ≡ some 12
unfolding offset after_events happened with_capacity push_sample apply_local_correction clear
offset_run = refl

after_events-answers_example :
    (is_some (offset whole_numbers (after_events whole_numbers (with_capacity 4) events)) ≡ true)
    × (is_some (stretch whole_numbers (after_events whole_numbers (with_capacity 4) events) 2 3)
        ≡ true)
    × (is_some (
          needs_hard_resync_with_lead whole_numbers
            (after_events whole_numbers (with_capacity 4) events)
            1
            0)
        ≡ true)
after_events-answers_example = after_events-answers whole_numbers 4 events 2 3 1 0

abbrev samples : List Sample
samples =
    record { rtt = 8; offset = 40 }
    ∷ record { rtt = 0x7ff8000000000000; offset = 1 }
    ∷ record { rtt = 4; offset = 20 }
    ∷ record { rtt = 6; offset = 9 }
    ∷ []
