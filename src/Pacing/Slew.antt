-- ===== src/Pacing/Slew.antt =====
-- `CoupledSlew` of pacing.rs.
pub mod Laws
use orbitnet.Base.{
  ℕ, zero, suc, ◌-◌, Bool, true, false, not, ◌&&◌, ◌||◌, List, [], ◌∷◌, ltb, if◌then◌else◌,
}
use orbitnet.Base.Doubles.{is_finite_f64, lt_f64, le_f64, abs_f64}

-- 0.75.
abbrev pub default_slew_threshold_ticks : ℕ
default_slew_threshold_ticks = 0x3fe8000000000000

abbrev pub default_slew_cooldown_frames : ℕ
default_slew_cooldown_frames = 120

pub data SlewDecision : Type 0 where
  run0 run1 run2 : SlewDecision

unfoldable pub ticks : SlewDecision → ℕ
ticks run0 = 0
ticks run1 = 1
ticks run2 = 2

pub record CoupledSlew : Type 0 where
  pub threshold_ticks : ℕ
  pub cooldown_frames : ℕ
  pub cooldown_remaining : ℕ

unfoldable pub with_params : ℕ → ℕ → CoupledSlew
with_params threshold_ticks cooldown_frames = record {
  threshold_ticks =
      if is_finite_f64 threshold_ticks && lt_f64 0 threshold_ticks
      then threshold_ticks
      else default_slew_threshold_ticks;
  cooldown_frames = cooldown_frames;
  cooldown_remaining = 0;
}

unfoldable pub new : CoupledSlew
unfolding with_params
new = with_params default_slew_threshold_ticks default_slew_cooldown_frames

-- The frame counts for the cooldown before anything else; `0 - 1` is not taken, and is 0 here.
unfoldable pub decide : CoupledSlew → ℕ → SlewDecision × CoupledSlew
decide s clock_offset_ticks =
    let cooling = ltb 0 s.cooldown_remaining in
    let cooled = record s { cooldown_remaining = s.cooldown_remaining - 1 } in
    if not (is_finite_f64 clock_offset_ticks)
    then (run1, cooled)
    else if cooling || le_f64 (abs_f64 clock_offset_ticks) s.threshold_ticks
    then (run1, cooled)
    else (
      if lt_f64 0 clock_offset_ticks then run2 else run0,
      record s { cooldown_remaining = s.cooldown_frames },
    )

unfoldable pub reset : CoupledSlew → CoupledSlew
reset s = record s { cooldown_remaining = 0 }
