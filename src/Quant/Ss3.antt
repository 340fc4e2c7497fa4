-- ===== src/Quant/Ss3.antt =====
-- The smallest-three packing of quant.rs, over the float arithmetic that it computes with. A float
-- is the number of its bits, and an array is a list.
use orbitnet.Base.{
  ℕ, zero, suc, ◌+◌, ◌-◌, ◌*◌, ◌/◌, ◌%◌, ◌^◌, min, bit_or, Bool, true, false, not, ◌&&◌, ◌||◌, List,
  [], ◌∷◌, ◌++◌, map, ltb, ◌==◌, if◌then◌else◌, take, drop, get_or,
}
use orbitnet.Base.Rows.{eqb_bytes}
use orbitnet.Base.Int.{ℤ, pos, negsuc, sub_ℕ}
use orbitnet.Wire.Bytes.{Bytes, le_bytes, le_value}
use orbitnet.Quant.Half.{is_finite}

-- Binary32 arithmetic on bits: the operators, `sqrt`, `recip`, `round`, `floor`, `max`, the comparisons, and
-- the conversions with `i32`.
pub record Float : Type 0 where
  pub add : ℕ → ℕ → ℕ
  pub sub : ℕ → ℕ → ℕ
  pub mul : ℕ → ℕ → ℕ
  pub div : ℕ → ℕ → ℕ
  pub sqrt : ℕ → ℕ
  pub recip : ℕ → ℕ
  pub round : ℕ → ℕ
  pub max_float : ℕ → ℕ → ℕ
  pub lt : ℕ → ℕ → Bool
  pub le : ℕ → ℕ → Bool
  pub to_i32 : ℕ → ℤ
  pub of_i32 : ℤ → ℕ
  pub floor : ℕ → ℕ

abbrev pub one : ℕ
one = 0x3f800000

abbrev pub frac_1_sqrt_2 : ℕ
frac_1_sqrt_2 = 0x3f3504f3

abbrev pub ss3_scale : ℕ
ss3_scale = 0x467ffc00

abbrev pub epsilon : ℕ
epsilon = 0x2b8cbccc

-- `abs`, and the sign flipped.
abbrev pub abs : ℕ → ℕ
abs x = x % 2 ^ 31

abbrev pub neg : ℕ → ℕ
neg x = (x + 2 ^ 31) % 2 ^ 32

abbrev pub identity : List ℕ
identity = 0 ∷ 0 ∷ 0 ∷ one ∷ []

-- Arrays: what is left without an entry, and an entry put between.
abbrev pub without : ℕ → List ℕ → List ℕ
without i [] = []
without zero (x ∷ xs) = xs
without (suc i) (x ∷ xs) = x ∷ without i xs

abbrev pub insert_at : ℕ → ℕ → List ℕ → List ℕ
insert_at zero v xs = v ∷ xs
insert_at (suc i) v [] = v ∷ []
insert_at (suc i) v (x ∷ xs) = x ∷ insert_at i v xs

-- Byte arrays, compared from the front.
unfoldable pub lt_bytes : Bytes → Bytes → Bool
lt_bytes [] [] = false
lt_bytes [] (b ∷ ys) = true
lt_bytes (a ∷ xs) [] = false
lt_bytes (a ∷ xs) (b ∷ ys) = ltb a b || (a == b && lt_bytes xs ys)

abbrev pub least_bytes : Bytes → Bytes → Bytes
least_bytes a b = if lt_bytes b a then b else a

module _ (f : Float) where
  abbrev pub sum_squares : ℕ → List ℕ → ℕ
  sum_squares acc [] = acc
  sum_squares acc (c ∷ cs) = sum_squares (f.add acc (f.mul c c)) cs

  abbrev pub peak_of : ℕ → List ℕ → ℕ
  peak_of peak [] = peak
  peak_of peak (c ∷ cs) = peak_of (f.max_float peak (abs c)) cs

  abbrev pub ss3_tie_band : ℕ
  ss3_tie_band = f.div (f.mul 0x41000000 frac_1_sqrt_2) ss3_scale

  abbrev pub ss3_skip_gap : ℕ
  ss3_skip_gap = f.div (f.mul 0x41800000 frac_1_sqrt_2) ss3_scale

  -- The first component, from `i` on, that is not under the floor.
  abbrev pub first_from : ℕ → ℕ → List ℕ → ℕ
  first_from floor i [] = 0
  first_from floor i (c ∷ cs) = if f.le floor (abs c) then i else first_from floor (i + 1) cs

  unfoldable pub dropped_index : List ℕ → ℕ
  dropped_index q = first_from (f.sub (peak_of 0 q) ss3_tie_band) 0 q

  unfoldable pub largest_separation : List ℕ → ℕ → ℕ
  largest_separation q largest = f.sub (abs (get_or q largest 0)) (peak_of 0 (without largest q))

  abbrev pub clamp : ℕ → ℕ → ℕ → ℕ
  clamp x low high = if f.lt x low then low else if f.lt high x then high else x

  -- `(scaled + 16383) as u16`.
  abbrev pub biased : ℤ → ℕ
  biased (pos n) = (n + 16383) % 2 ^ 16
  biased (negsuc n) = (n * (2 ^ 16 - 1) + 2 ^ 16 + 16382) % 2 ^ 16

  abbrev pub packed_word : ℕ → ℕ
  packed_word c = biased (
      f.to_i32
        (clamp (f.round (f.mul (f.div c frac_1_sqrt_2) ss3_scale)) (neg ss3_scale) ss3_scale))

  unfoldable pub pack_ss3_dropping : List ℕ → ℕ → Bytes
  pack_ss3_dropping q0 largest =
      let q = if f.lt (get_or q0 largest 0) 0 then map (λ c. neg c) q0 else q0 in
      let words = map (λ c. packed_word c) (without largest q) in
      le_bytes 2 (bit_or (get_or words 0 0) (largest % 2 * 2 ^ 15))
      ++ (le_bytes 2 (bit_or (get_or words 1 0) (largest / 2 % 2 * 2 ^ 15))
          ++ le_bytes 2 (get_or words 2 0))

  -- `clamp(-16383, 16383)` has no effect below.
  abbrev pub unpacked_word : ℕ → ℕ
  unpacked_word word =
      f.mul (f.div (f.of_i32 (sub_ℕ (min (word % 2 ^ 15) 32766) 16383)) ss3_scale) frac_1_sqrt_2

  abbrev pub unit : List ℕ → List ℕ
  unit q = map (λ c. f.mul c (f.recip (f.sqrt (sum_squares 0 q)))) q

  unfoldable pub ss3_to_quat : Bytes → List ℕ
  ss3_to_quat bytes =
      let w0 = le_value (take 2 bytes) in
      let w1 = le_value (take 2 (drop 2 bytes)) in
      let w2 = le_value (drop 4 bytes) in
      let largest = w0 / 2 ^ 15 % 2 + w1 / 2 ^ 15 % 2 * 2 in
      let smalls = unpacked_word w0 ∷ unpacked_word w1 ∷ unpacked_word w2 ∷ [] in
      let big = f.sqrt (f.max_float (f.sub one (sum_squares 0 smalls)) 0) in
      let q = insert_at largest big smalls in
      if f.lt (sum_squares 0 q) epsilon then identity else unit q

  unfoldable pub respack : Bytes → Bytes
  unfolding pack_ss3_dropping ss3_to_quat dropped_index
  respack packed = let q = ss3_to_quat packed in pack_ss3_dropping q (dropped_index q)

  -- The walk over the decoded forms, with the least one seen.
  unfoldable pub least_on_walk : ℕ → Bytes → Bytes → Bytes → Bytes
  least_on_walk zero packed walk best = best
  least_on_walk (suc n) packed walk best =
      let next = respack walk in
      let rest = least_on_walk n packed next (least_bytes best next) in
      if eqb_bytes next walk || eqb_bytes next packed then best else rest

  -- The packing of a unit quaternion: the first one if it is stable, or the least of its walk.
  unfoldable pub pack_stable : List ℕ → Bytes
  unfolding dropped_index pack_ss3_dropping largest_separation respack least_on_walk
  pack_stable q =
      let largest = dropped_index q in
      let packed = pack_ss3_dropping q largest in
      let once = respack packed in
      let least = least_on_walk 6 packed once (least_bytes packed once) in
      if f.le ss3_skip_gap (largest_separation q largest)
      then packed
      else if eqb_bytes once packed
      then packed
      else least

  unfoldable pub quat_to_ss3 : List ℕ → Bytes
  unfolding pack_stable
  quat_to_ss3 q =
      let norm_sq = sum_squares 0 q in
      pack_stable (if not (is_finite norm_sq) || f.lt norm_sq epsilon then identity else unit q)

  abbrev pub all_finite : List ℕ → Bool
  all_finite [] = true
  all_finite (c ∷ cs) = is_finite c && all_finite cs

  -- Twice the root; the branches off the trace clamp it at 0 first.
  abbrev pub twice_root : ℕ → ℕ
  twice_root x = f.mul (f.sqrt x) 0x40000000

  abbrev pub checked : List ℕ → List ℕ
  checked q = if all_finite q then q else identity

  unfoldable pub basis_to_quat : List ℕ → List ℕ
  basis_to_quat m =
      let m00 = get_or m 0 0 in
      let m01 = get_or m 1 0 in
      let m02 = get_or m 2 0 in
      let m10 = get_or m 3 0 in
      let m11 = get_or m 4 0 in
      let m12 = get_or m 5 0 in
      let m20 = get_or m 6 0 in
      let m21 = get_or m 7 0 in
      let m22 = get_or m 8 0 in
      let trace = f.add (f.add m00 m11) m22 in
      let quarter = λ (s : ℕ). f.mul 0x3e800000 s in
      let s0 = twice_root (f.add trace one) in
      let s1 = twice_root (f.max_float (f.sub (f.sub (f.add one m00) m11) m22) 0) in
      let s2 = twice_root (f.max_float (f.sub (f.sub (f.add one m11) m00) m22) 0) in
      let s3 = twice_root (f.max_float (f.sub (f.sub (f.add one m22) m00) m11) 0) in
      if f.lt 0 trace
      then checked (
          f.div (f.sub m21 m12) s0
          ∷ f.div (f.sub m02 m20) s0
          ∷ f.div (f.sub m10 m01) s0
          ∷ quarter s0
          ∷ [])
      else if f.lt m11 m00 && f.lt m22 m00
      then (if f.lt s1 epsilon
          then identity
          else checked (
              quarter s1
              ∷ f.div (f.add m01 m10) s1
              ∷ f.div (f.add m02 m20) s1
              ∷ f.div (f.sub m21 m12) s1
              ∷ []))
      else if f.lt m22 m11
      then (if f.lt s2 epsilon
          then identity
          else checked (
              f.div (f.add m01 m10) s2
              ∷ quarter s2
              ∷ f.div (f.add m12 m21) s2
              ∷ f.div (f.sub m02 m20) s2
              ∷ []))
      else if f.lt s3 epsilon
      then identity
      else checked (
          f.div (f.add m02 m20) s3
          ∷ f.div (f.add m12 m21) s3
          ∷ quarter s3
          ∷ f.div (f.sub m10 m01) s3
          ∷ [])

  unfoldable pub quat_to_basis : List ℕ → List ℕ
  quat_to_basis q =
      let x = get_or q 0 0 in
      let y = get_or q 1 0 in
      let z = get_or q 2 0 in
      let w = get_or q 3 0 in
      let off = λ (a b : ℕ). f.sub one (f.mul 0x40000000 (f.add (f.mul a a) (f.mul b b))) in
      let plus = λ (a b : ℕ). f.mul 0x40000000 (f.add a b) in
      let less = λ (a b : ℕ). f.mul 0x40000000 (f.sub a b) in
      off y z
      ∷ less (f.mul x y) (f.mul w z)
      ∷ plus (f.mul x z) (f.mul w y)
      ∷ plus (f.mul x y) (f.mul w z)
      ∷ off x z
      ∷ less (f.mul y z) (f.mul w x)
      ∷ less (f.mul x z) (f.mul w y)
      ∷ plus (f.mul y z) (f.mul w x)
      ∷ off x y
      ∷ []
