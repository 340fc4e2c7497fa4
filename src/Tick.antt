-- ===== src/Tick.antt =====
-- native/crates/orbitnet-core/src/tick.rs: the tick rate, and the accumulator that turns frame times
-- into ticks. Doubles are their bits, with the parameter `Double` for what is computed with them.
pub mod Laws
mod Tests
use orbitnet.Base.{
  ℕ, ◌+◌, ◌-◌, ◌*◌, ◌%◌, ◌^◌, min, max, Bool, true, false, not, ◌&&◌, ◌==◌, if◌then◌else◌,
  saturating_add,
}
use orbitnet.Base.Int.{ℤ, pos}
use orbitnet.Base.Doubles.{is_finite_f64, lt_f64, min_f64, clamp_f64, Double, one_f64}

abbrev pub min_tickrate_hz : ℕ
min_tickrate_hz = 1

abbrev pub max_tickrate_hz : ℕ
max_tickrate_hz = 240

abbrev pub default_max_ticks_per_frame : ℕ
default_max_ticks_per_frame = 8

abbrev pub catchup_ticks_per_frame : ℕ
catchup_ticks_per_frame = 2

-- 1.0.
abbrev pub max_retained_backlog_seconds : ℕ
max_retained_backlog_seconds = one_f64

pub record TickRate : Type 0 where
  pub hz : ℕ

unfoldable pub rate_of : ℕ → TickRate
rate_of hz = record { hz = min (max hz min_tickrate_hz) max_tickrate_hz }

unfoldable pub default_rate : TickRate
unfolding rate_of
default_rate = rate_of 60

pub record TickStep : Type 0 where
  pub ticks : ℕ
  pub clamped : Bool

pub record TickAccumulator : Type 0 where
  pub rate : TickRate
  pub max_ticks_per_frame : ℕ
  pub accumulator : ℕ
  pub tick : ℕ

unfoldable pub new : TickRate → TickAccumulator
new rate = record {
  rate = rate;
  max_ticks_per_frame = default_max_ticks_per_frame;
  accumulator = 0;
  tick = 0;
}

unfoldable pub set_rate : TickAccumulator → TickRate → TickAccumulator
set_rate a rate = if rate.hz == a.rate.hz then a else record a { rate = rate; accumulator = 0 }

unfoldable pub set_max_ticks_per_frame : TickAccumulator → ℕ → TickAccumulator
set_max_ticks_per_frame a n = record a { max_ticks_per_frame = max n 1 }

unfoldable pub seek : TickAccumulator → ℕ → TickAccumulator
seek a tick = record a { tick = tick; accumulator = 0 }

module _ (d : Double) where
  unfoldable pub dt : TickRate → ℕ
  dt rate = d.div one_f64 (d.of_ℤ (pos rate.hz))

  unfoldable pub ticks_to_seconds : TickRate → ℤ → ℕ
  unfolding dt
  ticks_to_seconds rate ticks = d.mul (d.of_ℤ ticks) (dt rate)

  unfoldable pub seconds_to_ticks : TickRate → ℕ → ℤ
  seconds_to_ticks rate seconds =
      if not (is_finite_f64 seconds) then pos 0 else d.to_i64 (d.mul seconds (d.of_ℤ (pos rate.hz)))

  unfoldable pub tick_factor : TickAccumulator → ℕ
  unfolding dt
  tick_factor a = clamp_f64 (d.div a.accumulator (dt a.rate)) 0 one_f64

  -- The time of the frame that counts.
  abbrev pub fed : ℕ → ℕ
  fed delta = if is_finite_f64 delta && lt_f64 0 delta then delta else 0

  abbrev pub filled : TickAccumulator → ℕ → ℕ
  filled a delta =
      if is_finite_f64 delta && lt_f64 0 delta then d.add a.accumulator delta else a.accumulator

  -- The whole ticks that are pending, under the cap and the pace of this frame.
  abbrev pub granted : TickAccumulator → ℕ → ℕ
  granted a delta =
      let pending = d.to_u64 (d.div (filled a delta) (dt a.rate)) in
      let fresh = d.to_u64 (d.ceil (d.div (fed delta) (dt a.rate))) in
      min (min pending a.max_ticks_per_frame) (saturating_add fresh catchup_ticks_per_frame)

  -- `ticks as u32` keeps the number, which is under a u32 cap; `+=` on the u64 tick wraps.
  unfoldable pub advance : TickAccumulator → ℕ → TickStep × TickAccumulator
  unfolding dt
  advance a delta =
      let step = dt a.rate in
      let ticks = granted a delta in
      let left = d.sub (filled a delta) (d.mul (d.of_ℤ (pos ticks)) step) in
      let clamped = lt_f64 max_retained_backlog_seconds left in
      if lt_f64 (filled a delta) step
      then (record { ticks = 0; clamped = false }, record a { accumulator = filled a delta })
      else (
        record { ticks = ticks; clamped = clamped },
        record a {
          accumulator = if clamped then min_f64 left step else left;
          tick = (a.tick + ticks) % 2 ^ 64;
        },
      )

  unfoldable pub timeline_seconds : TickAccumulator → ℕ
  unfolding dt
  timeline_seconds a = d.add (d.mul (d.of_ℤ (pos a.tick)) (dt a.rate)) a.accumulator
