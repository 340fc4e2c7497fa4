-- ===== src/Interest/Grid.antt =====
-- InterestGrid, the spatial index, and the seat's update through it. A `HashMap` is the list of its
-- entries, and its unspecified order is that of the list.
use orbitnet.Base.{
  ℕ, zero, suc, ◌+◌, ◌-◌, ◌*◌, ◌^◌, Bool, false, not, ◌&&◌, ◌||◌, Option, none, some, List, [], ◌∷◌,
  ◌++◌, ltb, ◌==◌, if◌then◌else◌, length,
}
use orbitnet.Base.Int.{ℤ, pos, negsuc, pos_part, neg_part, sub_ℕ, ltb_ℤ}
use orbitnet.Base.OrdMap.{OrdMap, lookup, insert}
use orbitnet.Quant.Half.{is_finite}
use orbitnet.Quant.Ss3.{Float}
use orbitnet.Interest.{
  Position, finite_position, AoiConfig, default_cell_size, exit_radius, square, membership_matches,
  neg_infinity, InterestCandidate, PeerInterest, contains, is_hidden, distance_sq, View, view_of,
  scan, apply_cap, commit,
}

abbrev Bucket : Type 0
Bucket = List (ℕ × Position)

abbrev WorldCells : Type 0
WorldCells = List ((ℤ × ℤ) × Bucket)

pub record InterestGrid : Type 0 where
  pub worlds : OrdMap WorldCells
  pub uncullable : List (ℕ × ℕ)

unfoldable pub new_grid : InterestGrid
new_grid = record { worlds = []; uncullable = [] }

unfoldable pub effective_cell_size : Float → AoiConfig → ℕ
effective_cell_size f cfg =
    if is_finite cfg.cell_size && f.lt 0 cfg.cell_size then cfg.cell_size else default_cell_size

unfoldable cell_coord : Float → ℕ → ℕ → ℤ
cell_coord f value cell_size = f.to_i32 (f.floor (f.div value cell_size))

abbrev eqb_cell : ℤ × ℤ → ℤ × ℤ → Bool
eqb_cell a b =
    not (ltb_ℤ a.0 b.0) && not (ltb_ℤ b.0 a.0) && (not (ltb_ℤ a.1 b.1) && not (ltb_ℤ b.1 a.1))

abbrev add_entry : ℤ × ℤ → ℕ × Position → WorldCells → WorldCells
add_entry key e [] = (key, e ∷ []) ∷ []
add_entry key e ((k, bucket) ∷ cells) =
    if eqb_cell k key then (k, bucket ++ (e ∷ [])) ∷ cells else (k, bucket) ∷ add_entry key e cells

abbrev or_empty : Option WorldCells → WorldCells
or_empty none = []
or_empty (some cells) = cells

unfoldable bin : Float → ℕ → InterestGrid → InterestCandidate → InterestGrid
unfolding cell_coord
bin f cell_size g c =
    let key : ℤ × ℤ = (cell_coord f c.pos.x cell_size, cell_coord f c.pos.z cell_size) in
    if c.always || not (finite_position c.pos)
    then record g { uncullable = g.uncullable ++ ((c.id, c.membership) ∷ []) }
    else record g {
      worlds =
          insert c.membership
            (add_entry key (c.id, c.pos) (or_empty (lookup c.membership g.worlds))) g.worlds;
    }

abbrev bin_all : Float → ℕ → InterestGrid → List InterestCandidate → InterestGrid
bin_all f cell_size g [] = g
bin_all f cell_size g (c ∷ cs) = bin_all f cell_size (bin f cell_size g c) cs

-- The old contents are dropped; the pools that keep their storage are left out.
unfoldable pub rebuild : Float → AoiConfig → InterestGrid → List InterestCandidate → InterestGrid
unfolding effective_cell_size bin
rebuild f cfg g candidates =
    bin_all f (effective_cell_size f cfg) (record { worlds = []; uncullable = [] }) candidates

unfoldable append_within : Float → Bucket → Position → ℕ → List (ℕ × ℕ)
append_within f [] center radius_sq = []
append_within f ((id, at) ∷ bucket) center radius_sq =
    let rest = append_within f bucket center radius_sq in
    if f.le (distance_sq f at center) radius_sq then (id, distance_sq f at center) ∷ rest else rest

-- The cells of a query, from the lowest to the highest on both axes.
pub record Rectangle : Type 0 where
  pub min_x : ℤ
  pub max_x : ℤ
  pub min_z : ℤ
  pub max_z : ℤ

-- `max - min + 1`, and its cast to a u128.
abbrev pub span : ℤ → ℤ → ℤ
span least most = sub_ℕ (pos_part most + neg_part least + 1) (neg_part most + pos_part least)

abbrev as_u128 : ℤ → ℕ
as_u128 (pos n) = n
as_u128 (negsuc n) = 2 ^ 128 - suc n

abbrev pub range : ℤ → ℕ → List ℤ
range z zero = []
range z (suc n) = z ∷ range (sub_ℕ (pos_part z + 1) (neg_part z)) n

abbrev bucket_at : ℤ × ℤ → WorldCells → Bucket
bucket_at key [] = []
bucket_at key ((k, bucket) ∷ cells) = if eqb_cell k key then bucket else bucket_at key cells

abbrev scan_cells : Float → WorldCells → Position → ℕ → ℤ → List ℤ → List (ℕ × ℕ)
scan_cells f world center radius_sq cx [] = []
scan_cells f world center radius_sq cx (cz ∷ zs) =
    append_within f (bucket_at (cx, cz) world) center radius_sq
    ++ scan_cells f world center radius_sq cx zs

abbrev scan_rows : Float → WorldCells → Position → ℕ → List ℤ → List ℤ → List (ℕ × ℕ)
scan_rows f world center radius_sq [] zs = []
scan_rows f world center radius_sq (cx ∷ xs) zs =
    scan_cells f world center radius_sq cx zs ++ scan_rows f world center radius_sq xs zs

abbrev scan_buckets : Float → WorldCells → Position → ℕ → List (ℕ × ℕ)
scan_buckets f [] center radius_sq = []
scan_buckets f ((k, bucket) ∷ cells) center radius_sq =
    append_within f bucket center radius_sq ++ scan_buckets f cells center radius_sq

-- A rectangle of more cells than the world occupies is not walked.
abbrev scan_world : Float → Rectangle → Position → ℕ → WorldCells → List (ℕ × ℕ)
scan_world f r center radius_sq world =
    if ltb (length world) (as_u128 (span r.min_x r.max_x) * as_u128 (span r.min_z r.max_z))
    then scan_buckets f world center radius_sq
    else scan_rows f world center radius_sq (range r.min_x (pos_part (span r.min_x r.max_x)))
        (range r.min_z (pos_part (span r.min_z r.max_z)))

abbrev scan_worlds : Float → Rectangle → ℕ → Position → ℕ → OrdMap WorldCells → List (ℕ × ℕ)
scan_worlds f r observer center radius_sq [] = []
scan_worlds f r observer center radius_sq ((membership, world) ∷ worlds) =
    let rest = scan_worlds f r observer center radius_sq worlds in
    if membership_matches observer membership
    then scan_world f r center radius_sq world ++ rest
    else rest

unfoldable pub query_within : Float → InterestGrid → AoiConfig → ℕ → Position → ℕ → List (ℕ × ℕ)
unfolding effective_cell_size cell_coord append_within membership_matches
query_within f g cfg observer center radius =
    let cell_size = effective_cell_size f cfg in
    let r : Rectangle = record {
      min_x = cell_coord f (f.sub center.x radius) cell_size;
      max_x = cell_coord f (f.add center.x radius) cell_size;
      min_z = cell_coord f (f.sub center.z radius) cell_size;
      max_z = cell_coord f (f.add center.z radius) cell_size;
    } in
    if not (is_finite radius) || f.lt radius 0 || not (finite_position center)
    then []
    else scan_worlds f r observer center (square f radius) g.worlds

abbrev matching : ℕ → List (ℕ × ℕ) → List ℕ
matching observer [] = []
matching observer ((id, membership) ∷ rest) =
    let later = matching observer rest in
    if membership_matches observer membership then id ∷ later else later

unfoldable pub uncullable_for : InterestGrid → ℕ → List ℕ
unfolding membership_matches
uncullable_for g observer = matching observer g.uncullable

abbrev bucket_ids : Bucket → List ℕ
bucket_ids [] = []
bucket_ids (e ∷ bucket) = e.0 ∷ bucket_ids bucket

abbrev world_ids : WorldCells → List ℕ
world_ids [] = []
world_ids ((k, bucket) ∷ cells) = bucket_ids bucket ++ world_ids cells

abbrev binned_ids : ℕ → OrdMap WorldCells → List ℕ
binned_ids observer [] = []
binned_ids observer ((membership, world) ∷ worlds) =
    let rest = binned_ids observer worlds in
    if membership_matches observer membership then world_ids world ++ rest else rest

unfoldable pub visible_to : InterestGrid → ℕ → List ℕ
unfolding uncullable_for membership_matches
visible_to g observer = binned_ids observer g.worlds ++ uncullable_for g observer

abbrev overridden : List InterestCandidate → ℕ → Bool
overridden [] id = false
overridden (c ∷ cs) id = c.id == id || overridden cs id

-- Not answered by an override and not hidden.
abbrev pub is_open : View → List InterestCandidate → ℕ → Bool
is_open v also id = not (overridden also id) && not (is_hidden v.peer id)

-- `retain`: a newcomer must be within the enter radius.
abbrev pub retained : Float → View → List InterestCandidate → List (ℕ × ℕ) → List (ℕ × ℕ)
retained f v also [] = []
retained f v also ((id, dist) ∷ hits) =
    let rest = retained f v also hits in
    if is_open v also id && (contains v.peer id || f.le dist v.enter)
    then (id, dist) ∷ rest
    else rest

-- Ids that carry no distance.
abbrev pub unmeasured_ids : View → List InterestCandidate → List ℕ → List (ℕ × ℕ)
unmeasured_ids v also [] = []
unmeasured_ids v also (id ∷ ids) =
    let rest = unmeasured_ids v also ids in
    if is_open v also id then (id, neg_infinity) ∷ rest else rest

-- The scratch list before the overrides, and how many of its entries are cullable.
abbrev pub grid_hits :
    Float → InterestGrid → AoiConfig → View → List InterestCandidate → List (ℕ × ℕ) × ℕ
grid_hits f g cfg v also =
    let near = retained f v also (query_within f g cfg v.observer v.center (exit_radius f cfg)) in
    if finite_position v.center
    then (near ++ unmeasured_ids v also (uncullable_for g v.observer), length near)
    else (unmeasured_ids v also (visible_to g v.observer), 0)

unfoldable pub update_grid_into :
    Float
    → InterestGrid
    → AoiConfig
    → PeerInterest
    → Position
    → ℕ
    → List InterestCandidate
    → PeerInterest × List ℕ
unfolding query_within uncullable_for visible_to
update_grid_into f g cfg p center observer also =
    let v = view_of f cfg p center observer in
    let (hits, near) = grid_hits f g cfg v also in
    let (own, cullable) = scan f v also in
    commit p (apply_cap cfg p.members (near + cullable) (hits ++ own))
