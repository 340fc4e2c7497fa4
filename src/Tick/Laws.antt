-- ===== src/Tick/Laws.antt =====
-- What a run of frames, seeks and changes of the rate can make of the tick.
use orbitnet.Base.{
  ℕ, ◌+◌, ◌%◌, ◌^◌, ◌≤◌, ◌<◌, ◌≡◌, refl, ◌∙◌, ap, min, Bool, true, false, not, ◌&&◌, Bool-cases,
  List, [], ◌∷◌, inl, inr, if◌then◌else◌, saturating_add, arith,
}
use orbitnet.Base.Int.{ℤ, pos, ltb_ℤ}
use orbitnet.Base.Doubles.{
  is_finite_f64, is_nan_f64, ordinal, lt_f64, le_f64, min_f64, Double, one_f64,
}
use orbitnet.Tick.{
  TickRate, rate_of, min_tickrate_hz, max_tickrate_hz, TickAccumulator, new, set_rate,
  set_max_ticks_per_frame, seek, dt, filled, granted, advance,
}

-- What a session does with its accumulator.
pub data Event : Type 0 where
  frame : ℕ → Event
  rated : ℕ → Event
  capped : ℕ → Event
  sought : ℕ → Event

-- Comparisons of integers, none of them of a double that is not a number.
below_under :
    (nx ny nz : Bool) (x y z : ℤ)
    → (not nx && not ny && ltb_ℤ x y) ≡ true
    → (not ny && not nz && not (ltb_ℤ z y)) ≡ true
    → (not nz && not nx && ltb_ℤ z x) ≡ false
below_under nx ny nz x y z h k = ground (arith, h, k)

under_below :
    (nx ny nz : Bool) (x y z : ℤ)
    → (not nx && not ny && not (ltb_ℤ y x)) ≡ true
    → (not ny && not nz && ltb_ℤ y z) ≡ true
    → (not nx && not nz && ltb_ℤ x z) ≡ true
under_below nx ny nz x y z h k = ground (arith, h, k)

under_not_below :
    (nx ny : Bool) (x y : ℤ)
    → (not nx && not ny && not (ltb_ℤ y x)) ≡ true
    → (not ny && not nx && ltb_ℤ y x) ≡ false
under_not_below nx ny x y h = ground (arith, h)

lt_f64_le : (x y z : ℕ) → lt_f64 x y ≡ true → le_f64 y z ≡ true → lt_f64 z x ≡ false
lt_f64_le x y z h k =
    below_under (is_nan_f64 x) (is_nan_f64 y) (is_nan_f64 z) (ordinal x) (ordinal y) (ordinal z) h k

le_f64_lt : (x y z : ℕ) → le_f64 x y ≡ true → lt_f64 y z ≡ true → lt_f64 x z ≡ true
le_f64_lt x y z h k =
    under_below (is_nan_f64 x) (is_nan_f64 y) (is_nan_f64 z) (ordinal x) (ordinal y) (ordinal z) h k

le_f64_not_lt : (x y : ℕ) → le_f64 x y ≡ true → lt_f64 y x ≡ false
le_f64_not_lt x y h = under_not_below (is_nan_f64 x) (is_nan_f64 y) (ordinal x) (ordinal y) h

-- Below a bound that is under another number, the lesser of the two is not above the bound.
min_f64-under : (x y z : ℕ) → le_f64 y z ≡ true → lt_f64 z x ≡ true → lt_f64 z (min_f64 x y) ≡ false
min_f64-under x y z h k =
    ap (λ m. lt_f64 z m) (chosen (is_nan_f64 x) (lt_f64 y x) (le_f64_lt y z x h k))
    ∙ le_f64_not_lt y z h
  where
    chosen : (nan lower : Bool) → lower ≡ true → (if nan then y else if lower then y else x) ≡ y
    chosen nan lower e = ground (arith, e)

-- The time that a frame brings: none where its delta is not finite or not positive.
abbrev pub brings : ℕ → Bool
brings delta = is_finite_f64 delta && lt_f64 0 delta

module _ (d : Double) where
  unfoldable pub happened : TickAccumulator → Event → TickAccumulator
  happened a (frame delta) = (advance d a delta).1
  happened a (rated hz) = set_rate a (rate_of hz)
  happened a (capped n) = set_max_ticks_per_frame a n
  happened a (sought tick) = seek a tick

  unfoldable pub after_events : TickAccumulator → List Event → TickAccumulator
  after_events a [] = a
  after_events a (event ∷ events) = after_events (happened a event) events

  -- The tick that an event leads to, from `tick`: a frame adds the ticks that it ran, as a u64, and a
  -- seek starts anew.
  unfoldable pub moved : TickAccumulator → ℕ → Event → ℕ
  moved a tick (frame delta) = (tick + (advance d a delta).0.ticks) % 2 ^ 64
  moved a tick (rated hz) = tick
  moved a tick (capped n) = tick
  moved a tick (sought to) = to

  unfoldable pub reached : TickAccumulator → ℕ → List Event → ℕ
  reached a tick [] = tick
  reached a tick (event ∷ events) = reached (happened a event) (moved a tick event) events

  -- The rate is a rate, a frame may run at least one tick, and the time kept back is not above a second.
  abbrev pub IsSound : TickAccumulator → Type 0
  IsSound a =
      (min_tickrate_hz ≤ a.rate.hz)
      × (a.rate.hz ≤ max_tickrate_hz)
      × (1 ≤ a.max_ticks_per_frame)
      × (lt_f64 one_f64 a.accumulator ≡ false)

  -- What the arithmetic has to keep: no tick of a supported rate is longer than a second.
  abbrev pub IsShort : Type 0
  IsShort =
      (rate : TickRate)
      → min_tickrate_hz ≤ rate.hz
      → rate.hz ≤ max_tickrate_hz
      → le_f64 (dt d rate) one_f64 ≡ true

  -- The time that is pending in a frame, and the ticks that it comes to.
  abbrev pub time_in : TickAccumulator → ℕ → ℕ
  time_in a delta = if brings delta then d.add a.accumulator delta else a.accumulator

  abbrev pub due : TickAccumulator → ℕ → ℕ
  due a delta = d.to_u64 (d.div (time_in a delta) (dt d a.rate))

  -- What a frame may run: the ticks of its own time, rounded up, and two more.
  abbrev pub pace : TickAccumulator → ℕ → ℕ
  pace a delta =
      saturating_add (d.to_u64 (d.ceil (d.div (if brings delta then delta else 0) (dt d a.rate)))) 2

  advance-step :
      (a : TickAccumulator) (delta : ℕ)
      → ((advance d a delta).0.ticks ≡ (
          if lt_f64 (time_in a delta) (dt d a.rate)
          then 0
          else min (min (due a delta) a.max_ticks_per_frame) (pace a delta)))
        × ((advance d a delta).1.max_ticks_per_frame ≡ a.max_ticks_per_frame)
        × ((advance d a delta).1.rate ≡ a.rate)
  unfolding advance
  advance-step a delta = elim (Bool-cases (lt_f64 (filled d a delta) (dt d a.rate))) [
    | inl short ↦ rw short (refl, refl, refl)
    | inr enough ↦ rw enough (refl, refl, refl)
  ]

  advance-tick :
      (a : TickAccumulator) (delta : ℕ)
      → a.tick < 2 ^ 64
      → (advance d a delta).1.tick ≡ (a.tick + (advance d a delta).0.ticks) % 2 ^ 64
  unfolding advance
  advance-tick a delta fits = elim (Bool-cases (lt_f64 (filled d a delta) (dt d a.rate))) [
    | inl short ↦ rw short (omega (arith, fits))
    | inr enough ↦ rw enough refl
  ]

  -- The time that a frame keeps back is not above a second.
  advance-backlog :
      (a : TickAccumulator) (delta : ℕ)
      → le_f64 (dt d a.rate) one_f64 ≡ true
      → lt_f64 one_f64 (advance d a delta).1.accumulator ≡ false
  unfolding advance
  advance-backlog a delta h = elim (Bool-cases (lt_f64 (filled d a delta) (dt d a.rate))) [
    | inl short ↦ rw short (lt_f64_le (filled d a delta) (dt d a.rate) one_f64 short h)
    | inr enough ↦
        let left =
          d.sub (filled d a delta) (d.mul (d.of_ℤ (pos (granted d a delta))) (dt d a.rate)) in
        elim (Bool-cases (lt_f64 one_f64 left)) [
          | inl clamped ↦ rw (enough, clamped) (min_f64-under left (dt d a.rate) one_f64 h clamped)
          | inr kept ↦ rw (enough, kept) kept
        ]
  ]

  -- A frame that brings no time is a frame of none.
  advance-idle :
      (a : TickAccumulator) (delta : ℕ) → brings delta ≡ false → advance d a delta ≡ advance d a 0
  unfolding advance
  advance-idle a delta idle = rw idle refl

  happened-IsSound :
      (a : TickAccumulator) (event : Event) → IsShort → IsSound a → IsSound (happened a event)
  unfolding happened set_rate set_max_ticks_per_frame rate_of seek
  happened-IsSound a (frame delta) short h =
      let step = advance-step a delta in
      (rw step.2 h.0, rw step.2 h.1, rw step.1 h.2, advance-backlog a delta (short a.rate h.0 h.1))
  happened-IsSound a (rated hz) short h = ground (arith, h)
  happened-IsSound a (capped n) short h = (h.0, h.1, omega arith, h.3)
  happened-IsSound a (sought tick) short h = (h.0, h.1, h.2, refl)

  -- The seeks are to ticks that a u64 holds.
  abbrev pub AreTicks : List Event → Type 0
  AreTicks [] = Unit
  AreTicks (sought tick ∷ events) = (tick < 2 ^ 64) × AreTicks events
  AreTicks (_ ∷ events) = AreTicks events

  happened-tick :
      (a : TickAccumulator) (event : Event) (events : List Event)
      → AreTicks (event ∷ events)
      → a.tick < 2 ^ 64
      → ((happened a event).tick ≡ moved a a.tick event)
        × ((happened a event).tick < 2 ^ 64)
        × AreTicks events
  unfolding happened moved set_rate set_max_ticks_per_frame seek
  happened-tick a (frame delta) events h fits =
      let step = advance-tick a delta fits in (step, omega (arith, step), h)
  happened-tick a (rated hz) events h fits = (ground arith, ground (arith, fits), h)
  happened-tick a (capped n) events h fits = (refl, fits, h)
  happened-tick a (sought tick) events h fits = (refl, h.0, h.1)

  after_events_from :
      (a : TickAccumulator) (events : List Event)
      → IsShort
      → AreTicks events
      → a.tick < 2 ^ 64
      → IsSound a
      → IsSound (after_events a events) × ((after_events a events).tick ≡ reached a a.tick events)
  unfolding after_events reached
  after_events_from a [] short ticks fits h = (h, refl)
  after_events_from a (event ∷ events) short ticks fits h =
      let step = happened-tick a event events ticks fits in
      let rest =
        after_events_from (happened a event) events short step.2 step.1
          (happened-IsSound a event short h) in
      (rest.0, rest.1 ∙ ap (λ (t : ℕ). reached (happened a event) t events) step.0)

  -- After any frames, changes of the rate and of the cap, and seeks, where no tick of a supported rate
  -- is longer than a second and the seeks are to u64 ticks: the rate is between 1 and 240 Hz, the cap is
  -- at least one, and the time kept back is not above a second; the tick is that of the last seek, or 0,
  -- and the ticks that the frames ran since, as a u64. The next frame runs, as soon as a whole tick is
  -- pending, as many as are pending, as the cap allows and as its own time and two more come to, and
  -- none before; and one whose delta is not finite or not positive does what one of no time does.
  pub after_events-bounds :
      (hz : ℕ) (events : List Event) (delta : ℕ)
      → IsShort
      → AreTicks events
      → let a = after_events (new (rate_of hz)) events in
        IsSound a
        × (a.tick ≡ reached (new (rate_of hz)) 0 events)
        × ((advance d a delta).0.ticks ≡ (
            if lt_f64 (time_in a delta) (dt d a.rate)
            then 0
            else min (min (due a delta) a.max_ticks_per_frame) (pace a delta)))
        × ((advance d a delta).0.ticks ≤ a.max_ticks_per_frame)
        × (brings delta ≡ false → advance d a delta ≡ advance d a 0)
  unfolding new rate_of
  after_events-bounds hz events delta short ticks =
      let start = new (rate_of hz) in
      let runs =
        after_events_from start events short ticks (omega arith)
          (omega arith, omega arith, omega arith, refl) in
      let a = after_events start events in
      let step = (advance-step a delta).0 in
      (
        runs.0,
        runs.1,
        step,
        capped_by (lt_f64 (time_in a delta) (dt d a.rate)) (due a delta) a.max_ticks_per_frame
            (pace a delta) (advance d a delta).0.ticks step,
        advance-idle a delta,
      )
    where
      capped_by :
          (short : Bool) (pending cap paced ticks : ℕ)
          → ticks ≡ (if short then 0 else min (min pending cap) paced)
          → ticks ≤ cap
      capped_by short pending cap paced ticks e = ground (arith, e)
