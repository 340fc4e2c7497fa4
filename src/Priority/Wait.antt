-- ===== src/Priority/Wait.antt =====
-- How long a weight can keep another candidate waiting.
use orbitnet.Base.{ℕ, ◌*◌, ◌^◌, ◌≤◌, ◌<◌, ◌≡◌, Bool, true, arith, u64_max}
use orbitnet.Priority.{
  weight_one, weight_owned, Band, near, mid, far, band_weight, weight_for, Candidate, score, less,
  cmp,
}

-- A weight is at least the far band's and at most the near band's at the highest priority, which is
-- four times the floor of an owned body; an owned body has at least that floor, and no product of a
-- weight saturates.
pub weight_for-bounds :
    (band : Band) (declared : ℕ) (owned : Bool)
    → (weight_one ≤ weight_for band declared owned)
      × (weight_for band declared owned ≤ 4 * weight_owned)
      × (weight_owned ≤ weight_for band declared true)
unfolding weight_for band_weight
weight_for-bounds near declared owned = ground arith
weight_for-bounds mid declared owned = ground arith
weight_for-bounds far declared owned = ground arith

scaled : (s t v w : ℕ) → 256 ≤ v → w ≤ 16384 → 64 * t < s → t * w < s * v
scaled s t v w hv hw h =
    let low : s * 256 ≤ s * v = grind (arith, hv) in
    let high : t * w ≤ t * 16384 = grind (arith, hw) in omega (arith, low, high, h)

-- No weights keep a candidate back for long: one that has waited more than 64 times as long as another
-- goes first, whatever their bands, priorities and owners are. The shorter wait is below 2^48, where
-- its product does not saturate.
pub cmp-waited :
    (a b : Candidate) (band_a band_b : Band) (declared_a declared_b : ℕ) (owned_a owned_b : Bool)
    → a.weight ≡ weight_for band_a declared_a owned_a
    → b.weight ≡ weight_for band_b declared_b owned_b
    → 64 * b.staleness < a.staleness
    → b.staleness < 2 ^ 48
    → cmp a b ≡ less
unfolding cmp score
cmp-waited a b band_a band_b declared_a declared_b owned_a owned_b ha hb waited h =
    let bounds_a = weight_for-bounds band_a declared_a owned_a in
    let bounds_b = weight_for-bounds band_b declared_b owned_b in
    let product =
      scaled a.staleness b.staleness a.weight b.weight (omega (arith, ha, bounds_a.0))
        (omega (arith, hb, bounds_b.1)) waited in
    let small : b.staleness * b.weight < u64_max = below (omega (arith, hb, bounds_b.1)) in
    ground (arith, product, small)
  where
    below : b.weight ≤ 16384 → b.staleness * b.weight < u64_max
    below hw =
        let high : b.staleness * b.weight ≤ b.staleness * 16384 = grind (arith, hw) in
        omega (arith, high, h)
