-- ===== src/Tick/Tests.antt =====
-- Runs of the accumulator.
use orbitnet.Base.{
  ℕ, ◌*◌, ◌/◌, ◌^◌, ◌≤◌, ◌≡◌, false, true, min, List, [], ◌∷◌, if◌then◌else◌, arith,
}
use native.Mathlib.Nat.{div-le_self}
use orbitnet.Base.Doubles.{lt_f64, le_f64, one_f64}
use orbitnet.Clock.Arithmetic.{whole_numbers}
use orbitnet.Tick.{TickAccumulator, rate_of, new, dt, advance}
use orbitnet.Tick.Laws.{
  Event, frame, rated, capped, sought, after_events, reached, IsSound, IsShort, brings, time_in,
  due, pace, after_events-bounds,
}

-- A frame of three dt at 1 Hz, one that is not finite, a seek, and one of a cap of one tick.
abbrev events : List Event
events =
    rated 0
    ∷ frame (3 * 0x3ff0000000000000)
    ∷ frame 0x7ff0000000000000
    ∷ sought 900
    ∷ capped 0
    ∷ frame (2 * 0x3ff0000000000000)
    ∷ []

le_one : (x : ℕ) → x ≤ one_f64 → le_f64 x one_f64 ≡ true
le_one x h = let positive : x / 2 ^ 63 ≡ 0 = omega (arith, h) in ground (arith, h, positive)

whole_numbers-IsShort : IsShort whole_numbers
unfolding dt
whole_numbers-IsShort rate least most = le_one (one_f64 / rate.hz) (div-le_self one_f64 rate.hz)

abbrev ran : TickAccumulator
ran = after_events whole_numbers (new (rate_of 500)) events

after_events-bounds_example :
    IsSound whole_numbers ran
    × (ran.tick ≡ reached whole_numbers (new (rate_of 500)) 0 events)
    × ((advance whole_numbers ran 5).0.ticks ≡ (
        if lt_f64 (time_in whole_numbers ran 5) (dt whole_numbers ran.rate)
        then 0
        else min
            (min (due whole_numbers ran 5) ran.max_ticks_per_frame)
            (pace whole_numbers ran 5)))
    × ((advance whole_numbers ran 5).0.ticks ≤ ran.max_ticks_per_frame)
    × (brings 5 ≡ false → advance whole_numbers ran 5 ≡ advance whole_numbers ran 0)
after_events-bounds_example =
    after_events-bounds whole_numbers 500 events 5 whole_numbers-IsShort (omega arith, tt)
