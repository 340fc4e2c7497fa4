-- ===== src/Clock.antt =====
-- native/crates/orbitnet-core/src/clock.rs: the estimate of a server's clock from the newest probes.
-- Doubles are their bits; what is computed with them goes by the parameter `Double`, what is
-- compared is exact.
pub mod Laws
pub mod Window
pub mod Arithmetic
mod Tests
use orbitnet.Base.{
  ℕ, ◌+◌, ◌/◌, ◌%◌, max, Bool, true, false, not, ◌&&◌, ◌||◌, Option, none, some, List, [], ◌∷◌,
  ◌++◌, map, ltb, leb, ◌==◌, if◌then◌else◌, length, take, set,
}
use orbitnet.Base.Int.{pos}
use orbitnet.Base.Doubles.{
  is_finite_f64, is_nan_f64, lt_f64, le_f64, abs_f64, clamp_f64, Double, one_f64,
}
use orbitnet.Base.Rolling.{rolled}

abbrev pub default_sample_capacity : ℕ
default_sample_capacity = 8

-- 0.5.
abbrev pub stretch_correction_window_seconds : ℕ
stretch_correction_window_seconds = 0x3fe0000000000000

pub record Sample : Type 0 where
  pub rtt : ℕ
  pub offset : ℕ

pub record ClockEstimator : Type 0 where
  pub samples : List Sample
  pub capacity : ℕ
  pub next : ℕ

unfoldable pub with_capacity : ℕ → ClockEstimator
with_capacity n = record { samples = []; capacity = max n 1; next = 0 }

abbrev pub sample_count : ClockEstimator → ℕ
sample_count e = length e.samples

abbrev pub is_ready : ClockEstimator → ℕ → Bool
is_ready e min_samples = leb (max min_samples 1) (sample_count e)

unfoldable pub clear : ClockEstimator → ClockEstimator
clear e = record e { samples = []; next = 0 }

unfoldable pub push_sample : ClockEstimator → ℕ → ℕ → Bool × ClockEstimator
push_sample e rtt offset =
    let r = rolled e.samples e.capacity e.next (record { rtt = rtt; offset = offset }) in
    if not (is_finite_f64 rtt) || not (is_finite_f64 offset) || lt_f64 rtt 0
    then (false, e)
    else (true, record e { samples = r.0; next = r.1 })

-- `partial_cmp` of two round trips: the first is behind the second, or they do not compare.
abbrev pub is_behind : Sample → Sample → Option Bool
is_behind a b = if is_nan_f64 a.rtt || is_nan_f64 b.rtt then none else some (lt_f64 b.rtt a.rtt)

-- A stable sort by round trip; a comparison that fails is a panic, and is none here.
abbrev pub placed :
    Sample → Sample → List Sample → Option Bool → Option (List Sample) → Option (List Sample)
placed s t ts none later = none
placed s t ts (some false) later = some (s ∷ t ∷ ts)
placed s t ts (some true) none = none
placed s t ts (some true) (some later) = some (t ∷ later)

abbrev pub insert : Sample → List Sample → Option (List Sample)
insert s [] = some (s ∷ [])
insert s (t ∷ ts) = placed s t ts (is_behind s t) (insert s ts)

abbrev pub inserted : Sample → Option (List Sample) → Option (List Sample)
inserted s none = none
inserted s (some ts) = insert s ts

abbrev pub sort_by_rtt : List Sample → Option (List Sample)
sort_by_rtt [] = some []
sort_by_rtt (s ∷ ss) = inserted s (sort_by_rtt ss)

module _ (d : Double) where
  unfoldable pub apply_local_correction : ClockEstimator → ℕ → ClockEstimator
  apply_local_correction e seconds = if not (is_finite_f64 seconds) then e else record e {
    samples = map (λ s. record { rtt = s.rtt; offset = d.sub s.offset seconds }) e.samples;
  }

  abbrev pub total : ℕ → List ℕ → ℕ
  total acc [] = acc
  total acc (x ∷ xs) = total (d.add acc x) xs

  unfoldable pub rtt : ClockEstimator → ℕ
  rtt e =
      if sample_count e == 0
      then 0
      else d.div (total 0 (map (λ s. s.rtt) e.samples)) (d.of_ℤ (pos (sample_count e)))

  unfoldable pub jitter : ClockEstimator → ℕ
  unfolding rtt
  jitter e =
      if ltb (sample_count e) 2
      then 0
      else d.div (total 0 (map (λ s. abs_f64 (d.sub s.rtt (rtt e))) e.samples))
          (d.of_ℤ (pos (sample_count e)))

  -- The mean offset of the better half.
  abbrev pub mean_of_best : Option (List Sample) → Option ℕ
  mean_of_best none = none
  mean_of_best (some ordered) =
      let keep = (length ordered + 1) / 2 in
      some (d.div (total 0 (map (λ s. s.offset) (take keep ordered))) (d.of_ℤ (pos keep)))

  -- None is a panic of the sort.
  unfoldable pub offset : ClockEstimator → Option ℕ
  offset e = if sample_count e == 0 then some 0 else mean_of_best (sort_by_rtt e.samples)

  abbrev pub has_no_stretch : ℕ → ℕ → Bool
  has_no_stretch max_stretch correction_window =
      not (is_finite_f64 max_stretch)
      || le_f64 max_stretch one_f64
      || not (is_finite_f64 correction_window)
      || le_f64 correction_window 0

  abbrev pub clamped_stretch : ℕ → ℕ → Option ℕ → Option ℕ
  clamped_stretch max_stretch correction_window none = none
  clamped_stretch max_stretch correction_window (some seconds) = some (
      clamp_f64 (d.add one_f64 (d.div seconds correction_window)) (d.div one_f64 max_stretch)
        max_stretch)

  unfoldable pub stretch : ClockEstimator → ℕ → ℕ → Option ℕ
  unfolding offset
  stretch e max_stretch correction_window =
      if has_no_stretch max_stretch correction_window
      then some one_f64
      else clamped_stretch max_stretch correction_window (offset e)

  abbrev pub plus : ℕ → Option ℕ → Option ℕ
  plus extra none = none
  plus extra (some seconds) = some (d.add seconds extra)

  unfoldable pub stretch_with : ClockEstimator → ℕ → ℕ → ℕ → Option ℕ
  unfolding stretch
  stretch_with e extra_offset max_stretch correction_window =
      if has_no_stretch max_stretch correction_window
      then some one_f64
      else if not (is_finite_f64 extra_offset)
      then stretch e max_stretch correction_window
      else clamped_stretch max_stretch correction_window (plus extra_offset (offset e))

  abbrev pub is_beyond : ℕ → Option ℕ → Option Bool
  is_beyond panic_threshold none = none
  is_beyond panic_threshold (some seconds) = some (lt_f64 panic_threshold (abs_f64 seconds))

  unfoldable pub needs_hard_resync_with_lead : ClockEstimator → ℕ → ℕ → Option Bool
  unfolding offset
  needs_hard_resync_with_lead e panic_threshold lead_seconds =
      let lead = if is_finite_f64 lead_seconds then lead_seconds else 0 in
      if not (is_finite_f64 panic_threshold) || le_f64 panic_threshold 0 || sample_count e == 0
      then some false
      else is_beyond panic_threshold (plus lead (offset e))

  unfoldable pub needs_hard_resync : ClockEstimator → ℕ → Option Bool
  unfolding needs_hard_resync_with_lead
  needs_hard_resync e panic_threshold = needs_hard_resync_with_lead e panic_threshold 0
