-- ===== src/Interest/Path.antt =====
-- InterestOccupancy and PathSelector: whether a tick takes the flat scan or the grid.
use orbitnet.Base.{
  ℕ, ◌≤◌, ◌≡◌, ◌⊎◌, refl, min, Bool, true, false, not, ◌&&◌, ◌||◌, Option, none, some, List, [],
  ◌∷◌, ltb, leb, ◌==◌, if◌then◌else◌, u32_max, saturating_add, saturating_mul, u64_max, inl, inr,
  Bool-cases, arith,
}
use orbitnet.Base.Doubles.{Double, one_f64, is_finite_f64, is_nan_f64, lt_f64, clamp_f64}
use orbitnet.Base.OrdMap.{OrdMap, lookup, insert}
use orbitnet.Quant.Half.{is_finite}
use orbitnet.Quant.Ss3.{Float}
use orbitnet.Priority.{Ordering, less, equal, greater}
use orbitnet.Interest.{
  Position, finite_position, AoiConfig, InterestCandidate, effective_enter_radius,
  effective_exit_factor, is_nan_f32, neg_infinity, total_cmp,
}
use orbitnet.Interest.Grid.{effective_cell_size}

-- The arithmetic that the measure needs: `f64::from` of an f32 and `f64::floor`, beside the operators.
pub record Measures : Type 0 where
  pub single : Float
  pub double : Double
  pub widen : ℕ → ℕ
  pub floor_f64 : ℕ → ℕ

-- `f64::from(u32::MAX)`, 2.0 as an f64 and 0.5 as an f32.
abbrev max_cells : ℕ
max_cells = 0x41efffffffe00000

abbrev two_f64 : ℕ
two_f64 = 0x4000000000000000

abbrev half_f32 : ℕ
half_f32 = 0x3f000000

unfoldable cells_across : Measures → ℕ → ℕ → ℕ
cells_across m meters cell_size =
    let across = m.double.add (m.floor_f64 (m.double.div meters cell_size)) one_f64 in
    if is_finite_f64 across then m.double.to_u64 (clamp_f64 across one_f64 max_cells) else u32_max

record WorldBounds : Type 0 where
  min_x : ℕ
  max_x : ℕ
  min_z : ℕ
  max_z : ℕ
  count : ℕ

abbrev infinity : ℕ
infinity = 0x7f800000

abbrev empty_bounds : WorldBounds
empty_bounds = record {
  min_x = infinity;
  max_x = neg_infinity;
  min_z = infinity;
  max_z = neg_infinity;
  count = 0;
}

-- `f32::min`.
abbrev min_f32 : Float → ℕ → ℕ → ℕ
min_f32 f a b = if is_nan_f32 a || f.lt b a then b else a

unfoldable extend_to : Float → WorldBounds → Position → WorldBounds
extend_to f b at = record {
  min_x = min_f32 f b.min_x at.x;
  max_x = f.max_float b.max_x at.x;
  min_z = min_f32 f b.min_z at.z;
  max_z = f.max_float b.max_z at.z;
  count = saturating_add b.count 1;
}

unfoldable longer_xz_side : Float → WorldBounds → ℕ
longer_xz_side f b = f.max_float (f.sub b.max_x b.min_x) (f.sub b.max_z b.min_z)

pub record InterestOccupancy : Type 0 where
  pub half_extent : ℕ
  pub anchored : ℕ

abbrev or_empty_bounds : Option WorldBounds → WorldBounds
or_empty_bounds none = empty_bounds
or_empty_bounds (some b) = b

unfoldable measure_worlds : Float → OrdMap WorldBounds → List InterestCandidate → OrdMap WorldBounds
unfolding extend_to
measure_worlds f worlds [] = worlds
measure_worlds f worlds (c ∷ cs) =
    let bounds = extend_to f (or_empty_bounds (lookup c.membership worlds)) c.pos in
    measure_worlds f
      (if c.always || not (finite_position c.pos)
        then worlds
        else insert c.membership bounds worlds)
      cs

-- A wider world, and of equal ones the fuller, and of equal ones the lower membership.
abbrev wins : Ordering → ℕ × WorldBounds → ℕ × WorldBounds → Bool
wins less a b = false
wins equal a b = ltb b.1.count a.1.count || (a.1.count == b.1.count && ltb a.0 b.0)
wins greater a b = true

unfoldable is_better : Float → ℕ × WorldBounds → Option (ℕ × WorldBounds) → Bool
unfolding longer_xz_side
is_better f a none = true
is_better f a (some b) = wins (total_cmp (longer_xz_side f a.1) (longer_xz_side f b.1)) a b

unfoldable widest : Float → Option (ℕ × WorldBounds) → OrdMap WorldBounds → Option (ℕ × WorldBounds)
unfolding is_better
widest f best [] = best
widest f best (w ∷ worlds) = widest f (if is_better f w best then some w else best) worlds

abbrev occupancy_of : Float → Option (ℕ × WorldBounds) → InterestOccupancy
unfolding longer_xz_side
occupancy_of f none = record { half_extent = 0; anchored = 0 }
occupancy_of f (some w) = record {
  half_extent = f.mul (longer_xz_side f w.1) half_f32;
  anchored = w.1.count;
}

unfoldable measure : Float → List InterestCandidate → InterestOccupancy
unfolding measure_worlds widest occupancy_of
measure f candidates = occupancy_of f (widest f none (measure_worlds f [] candidates))

unfoldable occupied_cells : Measures → InterestOccupancy → AoiConfig → ℕ
unfolding cells_across
occupied_cells m o cfg =
    let half = m.widen o.half_extent in
    let across =
      cells_across m (m.double.mul half two_f64) (m.widen (effective_cell_size m.single cfg)) in
    if is_nan_f64 half || lt_f64 half 0 then 0 else min (saturating_mul across across) o.anchored

pub data InterestPath : Type 0 where
  linear grid : InterestPath

abbrev grid_enter_spans : ℕ
grid_enter_spans = 4

abbrev grid_leave_spans : ℕ
grid_leave_spans = 2

abbrev grid_max_overrides : ℕ
grid_max_overrides = 8

pub record PathSelector : Type 0 where
  pub path : InterestPath

abbrev new_selector : PathSelector
new_selector = record { path = linear }

unfoldable span_cells : Measures → AoiConfig → ℕ
unfolding cells_across
span_cells m cfg =
    let radius =
      m.single.mul (effective_enter_radius m.single cfg) (effective_exit_factor m.single cfg) in
    let across =
      cells_across m (m.double.mul (m.widen radius) two_f64)
        (m.widen (effective_cell_size m.single cfg)) in
    if is_finite radius then saturating_mul across across else u64_max

-- No distance to index, or too many overrides.
abbrev refuses_grid : Measures → AoiConfig → ℕ → Bool
refuses_grid m cfg overrides =
    is_nan_f32 (effective_enter_radius m.single cfg)
    || m.single.le (effective_enter_radius m.single cfg) 0
    || ltb grid_max_overrides overrides

-- The thresholds, in cells of the query, and the band between them where the path is held.
unfoldable decided : Bool → ℕ → ℕ → PathSelector → PathSelector
decided refused cells occupied s =
    if refused
    then record { path = linear }
    else if leb (saturating_mul cells grid_enter_spans) occupied
    then record { path = grid }
    else if ltb occupied (saturating_mul cells grid_leave_spans)
    then record { path = linear }
    else s

-- The selector after the call; its path is the answer.
unfoldable select : Measures → PathSelector → AoiConfig → InterestOccupancy → ℕ → PathSelector
unfolding span_cells occupied_cells decided
select m s cfg occupancy overrides =
    decided (refuses_grid m cfg overrides) (span_cells m cfg) (occupied_cells m occupancy cfg) s

linear_not_grid : linear ≡ grid → ⊥
linear_not_grid e = cc e

decided_lem :
    (refused : Bool) (cells occupied : ℕ) (s : PathSelector)
    → (decided refused cells occupied s).path ≡ grid
    → (refused ≡ false)
      × (saturating_mul cells 2 ≤ occupied)
      × ((s.path ≡ grid) ⊎ (saturating_mul cells 4 ≤ occupied))
unfolding decided
decided_lem true cells occupied s h = absurd (linear_not_grid h)
decided_lem false cells occupied s h = elim (Bool-cases (leb (saturating_mul cells 4) occupied)) [
  | inl many ↦ (refl, ground (arith, many), inr (ground (arith, many)))
  | inr fewer ↦ elim (Bool-cases (ltb occupied (saturating_mul cells 2))) [
    | inl few ↦ absurd (linear_not_grid (rw (fewer, few) at h))
    | inr enough ↦ (refl, ground (arith, enough), inl (rw (fewer, enough) at h))
  ]
]

-- A tick takes the grid only where it is not refused and the occupancy is at least two spans, and
-- comes to it from the flat scan only at four.
select_lem :
    (m : Measures) (s : PathSelector) (cfg : AoiConfig) (o : InterestOccupancy) (overrides : ℕ)
    → (select m s cfg o overrides).path ≡ grid
    → (refuses_grid m cfg overrides ≡ false)
      × (saturating_mul (span_cells m cfg) 2 ≤ occupied_cells m o cfg)
      × ((s.path ≡ grid) ⊎ (saturating_mul (span_cells m cfg) 4 ≤ occupied_cells m o cfg))
unfolding select
select_lem m s cfg o overrides h =
    decided_lem (refuses_grid m cfg overrides) (span_cells m cfg) (occupied_cells m o cfg) s h
