-- ===== src/Interest.antt =====
-- native/crates/orbitnet-core/src/interest.rs: which entities a peer is sent. Here one seat's set and
-- the flat scan that updates it; the float arithmetic is a parameter.
pub mod Grid
pub mod Connection
pub mod Lists
pub mod Laws
pub mod Delta
pub mod Union
pub mod Found
pub mod Veto
pub mod Phase
pub mod Path
mod Tests
use orbitnet.Base.{
  ℕ, zero, suc, ◌+◌, ◌-◌, ◌%◌, ◌^◌, ◌*◌, Bool, true, false, not, ◌&&◌, ◌||◌, Option, none, some,
  List, [], ◌∷◌, map, ltb, leb, ◌==◌, if◌then◌else◌, length, take, is_some,
}
use orbitnet.Base.OrdMap.{OrdMap, lookup, insert, remove, keys}
use orbitnet.Base.Ids.{contains_id, insert_id, remove_id}
use orbitnet.Quant.Half.{is_finite}
use orbitnet.Quant.Ss3.{Float, one}
use orbitnet.Priority.{Ordering, cmp_ℕ, then_with, is_greater}

pub record Position : Type 0 where
  pub x : ℕ
  pub y : ℕ
  pub z : ℕ

abbrev pub finite_position : Position → Bool
finite_position p = is_finite p.x && is_finite p.y && is_finite p.z

pub record AoiConfig : Type 0 where
  pub cell_size : ℕ
  pub enter_radius : ℕ
  pub exit_factor : ℕ
  pub max_entities : ℕ

-- 32.0, 256.0 and 1.25.
abbrev pub default_cell_size : ℕ
default_cell_size = 0x42000000

abbrev default_config : AoiConfig
default_config = record {
  cell_size = default_cell_size;
  enter_radius = 0x43800000;
  exit_factor = 0x3fa00000;
  max_entities = 0;
}

unfoldable pub effective_enter_radius : Float → AoiConfig → ℕ
effective_enter_radius f cfg = if f.lt cfg.enter_radius 0 then 0 else cfg.enter_radius

unfoldable pub effective_exit_factor : Float → AoiConfig → ℕ
effective_exit_factor f cfg =
    if is_finite cfg.exit_factor && f.le one cfg.exit_factor then cfg.exit_factor else one

-- `f32::MAX`, `f32::NEG_INFINITY` and `is_nan`.
abbrev max_f32 : ℕ
max_f32 = 0x7f7fffff

abbrev pub neg_infinity : ℕ
neg_infinity = 0xff800000

abbrev pub is_nan_f32 : ℕ → Bool
is_nan_f32 bits = ltb 0x7f800000 (bits % 2 ^ 31)

-- `.min(f32::MAX)`.
abbrev min_max_f32 : Float → ℕ → ℕ
min_max_f32 f a = if is_nan_f32 a || f.lt max_f32 a then max_f32 else a

abbrev pub square : Float → ℕ → ℕ
square f a = f.mul a a

unfoldable pub enter_sq : Float → AoiConfig → ℕ
enter_sq f cfg = square f (effective_enter_radius f cfg)

unfoldable pub exit_radius : Float → AoiConfig → ℕ
exit_radius f cfg =
    min_max_f32 f (f.mul (effective_enter_radius f cfg) (effective_exit_factor f cfg))

unfoldable pub exit_sq : Float → AoiConfig → ℕ
exit_sq f cfg = square f (exit_radius f cfg)

abbrev membership_global : ℕ
membership_global = 0

unfoldable pub membership_matches : ℕ → ℕ → Bool
membership_matches observer candidate =
    observer == membership_global || candidate == membership_global || observer == candidate

pub record InterestCandidate : Type 0 where
  pub id : ℕ
  pub pos : Position
  pub always : Bool
  pub membership : ℕ

unfoldable pub anchored_in : ℕ → Position → ℕ → InterestCandidate
anchored_in id pos membership = record {
  id = id;
  pos = pos;
  always = false;
  membership = membership;
}

unfoldable pub anchored : ℕ → Position → InterestCandidate
unfolding anchored_in
anchored id pos = anchored_in id pos membership_global

unfoldable pub always_in : ℕ → ℕ → InterestCandidate
always_in id membership = record {
  id = id;
  pos = record { x = 0; y = 0; z = 0 };
  always = true;
  membership = membership;
}

unfoldable pub always_everywhere : ℕ → InterestCandidate
unfolding always_in
always_everywhere id = always_in id membership_global

pub record PeerInterest : Type 0 where
  pub members : OrdMap ℕ
  pub hidden : List ℕ

unfoldable pub new : PeerInterest
new = record { members = []; hidden = [] }

unfoldable pub contains : PeerInterest → ℕ → Bool
contains p id = is_some (lookup id p.members)

unfoldable pub dist_sq : PeerInterest → ℕ → Option ℕ
dist_sq p id = lookup id p.members

unfoldable pub len : PeerInterest → ℕ
len p = length p.members

unfoldable is_empty : PeerInterest → Bool
is_empty p = length p.members == 0

-- `iter`; `iter_with_distance` is the map itself.
unfoldable pub iter : PeerInterest → List ℕ
iter p = keys p.members

unfoldable pub is_hidden : PeerInterest → ℕ → Bool
is_hidden p id = contains_id p.hidden id

unfoldable pub hidden_len : PeerInterest → ℕ
hidden_len p = length p.hidden

unfoldable pub remove_member : PeerInterest → ℕ → PeerInterest
remove_member p id = record p { members = remove id p.members }

unfoldable pub set_hidden : PeerInterest → ℕ → Bool → PeerInterest
set_hidden p id true = record { members = remove id p.members; hidden = insert_id id p.hidden }
set_hidden p id false = record p { hidden = remove_id id p.hidden }

abbrev pub distance_sq : Float → Position → Position → ℕ
distance_sq f pos center =
    let dx = f.sub pos.x center.x in
    let dy = f.sub pos.y center.y in
    let dz = f.sub pos.z center.z in f.add (f.add (f.mul dx dx) (f.mul dy dy)) (f.mul dz dz)

-- What every candidate of an update is judged by: the seat's set, its world, its center, the two bands.
pub record View : Type 0 where
  pub peer : PeerInterest
  pub observer : ℕ
  pub center : Position
  pub enter : ℕ
  pub exit : ℕ

abbrev pub view_of : Float → AoiConfig → PeerInterest → Position → ℕ → View
view_of f cfg p center observer = record {
  peer = p;
  observer = observer;
  center = center;
  enter = enter_sq f cfg;
  exit = exit_sq f cfg;
}

-- The distance test is not run where the candidate is `always` or no distance can be measured.
abbrev pub bypasses : View → InterestCandidate → Bool
bypasses v c = c.always || not (finite_position v.center && finite_position c.pos)

unfoldable pub classify : Float → View → InterestCandidate → Option (ℕ × Bool)
unfolding is_hidden membership_matches contains
classify f v c =
    let dist = distance_sq f c.pos v.center in
    let band = if contains v.peer c.id then v.exit else v.enter in
    if is_hidden v.peer c.id
    then none
    else if not (membership_matches v.observer c.membership)
    then none
    else if bypasses v c
    then some (neg_infinity, false)
    else if f.le dist band
    then some (dist, true)
    else none

-- The scratch list, and how many of its entries are cullable.
abbrev pub push : ℕ → Option (ℕ × Bool) → List (ℕ × ℕ) × ℕ → List (ℕ × ℕ) × ℕ
push id none r = r
push id (some (dist, true)) r = ((id, dist) ∷ r.0, suc r.1)
push id (some (dist, false)) r = ((id, dist) ∷ r.0, r.1)

unfoldable pub scan : Float → View → List InterestCandidate → List (ℕ × ℕ) × ℕ
scan f v [] = ([], 0)
scan f v (c ∷ cs) = push c.id (classify f v c) (scan f v cs)

-- `sort_by` keeps equal entries in order; where `sort_unstable` need not, they are as here.
abbrev pub insert_by : (ℕ × ℕ → ℕ × ℕ → Ordering) → ℕ × ℕ → List (ℕ × ℕ) → List (ℕ × ℕ)
insert_by cmp a [] = a ∷ []
insert_by cmp a (b ∷ bs) = if is_greater (cmp a b) then b ∷ insert_by cmp a bs else a ∷ b ∷ bs

unfoldable pub sort_by : (ℕ × ℕ → ℕ × ℕ → Ordering) → List (ℕ × ℕ) → List (ℕ × ℕ)
sort_by cmp [] = []
sort_by cmp (a ∷ rest) = insert_by cmp a (sort_by cmp rest)

-- The order of `f32::total_cmp`.
abbrev total_key : ℕ → ℕ
total_key bits = if ltb bits (2 ^ 31) then bits + 2 ^ 31 else 2 ^ 32 - 1 - bits

abbrev pub total_cmp : ℕ → ℕ → Ordering
total_cmp a b = cmp_ℕ (total_key a) (total_key b)

abbrev pub flag : Bool → ℕ
flag true = 1
flag false = 0

-- Nearest first, then members, then by id.
abbrev pub cap_cmp : OrdMap ℕ → ℕ × ℕ → ℕ × ℕ → Ordering
cap_cmp members a b = then_with (total_cmp a.1 b.1) (
    then_with (cmp_ℕ (flag (is_some (lookup b.0 members))) (flag (is_some (lookup a.0 members))))
      (cmp_ℕ a.0 b.0))

unfoldable pub apply_cap : AoiConfig → OrdMap ℕ → ℕ → List (ℕ × ℕ) → List (ℕ × ℕ)
apply_cap cfg members cullable scratch =
    if cfg.max_entities == 0 || leb cullable cfg.max_entities
    then scratch
    else take (length scratch - cullable + cfg.max_entities) (sort_by (cap_cmp members) scratch)

abbrev pub id_cmp : ℕ × ℕ → ℕ × ℕ → Ordering
id_cmp a b = cmp_ℕ a.0 b.0

abbrev pub ids : List (ℕ × ℕ) → List ℕ
ids [] = []
ids (e ∷ es) = e.0 ∷ ids es

-- The inner loop: the entries before an id are skipped.
unfoldable pub skip_below : ℕ → List ℕ → List ℕ
skip_below id [] = []
skip_below id (c ∷ cs) = if ltb c id then skip_below id cs else c ∷ cs

abbrev pub is_next : ℕ → List ℕ → Bool
is_next id [] = false
is_next id (c ∷ _) = c == id

unfoldable pub push_leaves : List ℕ → List ℕ → List ℕ
unfolding skip_below
push_leaves [] fresh = []
push_leaves (id ∷ old) fresh =
    let later = push_leaves old (skip_below id fresh) in
    if is_next id (skip_below id fresh) then later else id ∷ later

abbrev pub extend : List (ℕ × ℕ) → OrdMap ℕ → OrdMap ℕ
extend [] m = m
extend (e ∷ es) m = extend es (insert e.0 e.1 m)

-- What the set records of an entry: a distance that is not one is 0.0.
abbrev pub recorded : ℕ × ℕ → ℕ × ℕ
recorded e = (e.0, if is_finite e.1 then e.1 else 0)

unfoldable pub commit : PeerInterest → List (ℕ × ℕ) → PeerInterest × List ℕ
unfolding sort_by push_leaves
commit p scratch =
    let fresh = sort_by id_cmp scratch in
    (
      record p { members = extend (map (λ e. recorded e) fresh) [] },
      push_leaves (keys p.members) (ids fresh),
    )

-- The set after the update, and what left it.
unfoldable pub update_linear_into :
    Float → AoiConfig → PeerInterest → Position → ℕ → List InterestCandidate → PeerInterest × List ℕ
unfolding scan apply_cap commit
update_linear_into f cfg p center observer candidates =
    let (scratch, cullable) = scan f (view_of f cfg p center observer) candidates in
    commit p (apply_cap cfg p.members cullable scratch)

-- Whether a tick is an id's slot in the interval.
unfoldable pub send_phase : ℕ → ℕ → ℕ → Bool
send_phase id tick interval = if leb interval 1 then true else tick % interval == id % interval
