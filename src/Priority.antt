-- ===== src/Priority.antt =====
-- native/crates/orbitnet-core/src/priority.rs: which of a peer's entities its byte budget buys first.
-- The float arithmetic of the bands is a parameter.
pub mod Laws
pub mod Wait
mod Tests
use orbitnet.Base.{
  ℕ, ◌+◌, ◌*◌, ◌^◌, min, max, Bool, true, false, not, ◌||◌, List, [], ◌∷◌, ltb, ◌==◌, if◌then◌else◌,
  u32_max, u64_max, saturating_mul,
}
use orbitnet.Quant.Half.{is_finite}
use orbitnet.Quant.Ss3.{Float}

abbrev pub weight_one : ℕ
weight_one = 256

abbrev pub weight_owned : ℕ
weight_owned = 16 * weight_one

abbrev pub never_sent_staleness : ℕ
never_sent_staleness = 2 ^ 40

abbrev pub priority_max : ℕ
priority_max = 16

pub data Band : Type 0 where
  near mid far : Band

unfoldable pub band_index : Band → ℕ
band_index near = 0
band_index mid = 1
band_index far = 2

unfoldable pub band_weight : Band → ℕ
band_weight near = 4 * weight_one
band_weight mid = 2 * weight_one
band_weight far = weight_one

unfoldable pub tiered_interval : Band → ℕ
tiered_interval near = 1
tiered_interval mid = 2
tiered_interval far = 4

-- 3.0 is 0x40400000 and 2.0 is 0x40000000.
unfoldable pub band_of : Float → ℕ → ℕ → Band
band_of f dist_sq band_scale =
    let near_edge = f.div band_scale 0x40400000 in
    let mid_edge = f.mul band_scale (f.div 0x40000000 0x40400000) in
    if not (is_finite band_scale) || f.le band_scale 0 || not (is_finite dist_sq) || f.le dist_sq 0
    then near
    else if f.le dist_sq (f.mul near_edge near_edge)
    then near
    else if f.le dist_sq (f.mul mid_edge mid_edge)
    then mid
    else far

-- `saturating_mul` of a u32.
unfoldable pub weight_for : Band → ℕ → Bool → ℕ
unfolding band_weight
weight_for band declared owned =
    let weight = min (band_weight band * min (max declared 1) priority_max) u32_max in
    if owned then max weight weight_owned else weight

unfoldable pub score : ℕ → ℕ → ℕ
score staleness weight = min (staleness * weight) u64_max

pub record Candidate : Type 0 where
  pub id : ℕ
  pub staleness : ℕ
  pub weight : ℕ

abbrev pub score_of : Candidate → ℕ
score_of c = score c.staleness c.weight

pub data Ordering : Type 0 where
  less equal greater : Ordering

-- `a.cmp(&b)` of two numbers.
abbrev pub cmp_ℕ : ℕ → ℕ → Ordering
cmp_ℕ a b = if ltb a b then less else if a == b then equal else greater

abbrev pub then_with : Ordering → Ordering → Ordering
then_with less _ = less
then_with equal o = o
then_with greater _ = greater

unfoldable pub cmp : Candidate → Candidate → Ordering
unfolding score
cmp a b = then_with (cmp_ℕ (score_of b) (score_of a)) (cmp_ℕ a.id b.id)

abbrev pub is_greater : Ordering → Bool
is_greater less = false
is_greater equal = false
is_greater greater = true

-- A sort by `cmp`.
abbrev pub insert : Candidate → List Candidate → List Candidate
insert c [] = c ∷ []
insert c (d ∷ ds) = if is_greater (cmp c d) then d ∷ insert c ds else c ∷ d ∷ ds

unfoldable pub order : List Candidate → List Candidate
order [] = []
order (c ∷ cs) = insert c (order cs)
