-- ===== src/History/Planner.antt =====
-- `ResimPlanner` of history.rs: one dirty window for each body, in body order.
pub mod Laws
pub mod Marks
use orbitnet.Base.{
  ℕ, ◌+◌, ◌≡◌, min, Bool, true, false, ◌||◌, Option, none, some, List, [], ◌∷◌, if◌then◌else◌, ◌==◌,
}
use orbitnet.Base.OrdMap.{OrdMap, lookup, insert, remove}
use orbitnet.History.Window
use orbitnet.History.Window.{
  ResimRange, DirtyWindow, range_len, clean, clamped_range, is_dirty, take_window,
}

pub record BodyResim : Type 0 where
  pub body : ℕ
  pub range : ResimRange

pub record ResimPlanner : Type 0 where
  pub bodies : OrdMap DirtyWindow

-- `entry(body).or_default()`.
abbrev pub window_of : Option DirtyWindow → DirtyWindow
window_of none = record { earliest = none }
window_of (some w) = w

unfoldable pub mark : ResimPlanner → ℕ → ℕ → ResimPlanner
mark p body tick = record {
  bodies = insert body (Window.mark (window_of (lookup body p.bodies)) tick) p.bodies;
}

unfoldable pub remove_body : ResimPlanner → ℕ → ResimPlanner
remove_body p body = record { bodies = remove body p.bodies }

any_dirty : OrdMap DirtyWindow → Bool
unfolding is_dirty
any_dirty [] = false
any_dirty ((b, w) ∷ m) = is_dirty w || any_dirty m

unfoldable pub planner_is_dirty : ResimPlanner → Bool
unfolding any_dirty
planner_is_dirty p = any_dirty p.bodies

unfoldable pub clear_planner : ResimPlanner → ResimPlanner
clear_planner p = record { bodies = [] }

abbrev pub min_option : Option ℕ → Option ℕ → Option ℕ
min_option none o = o
min_option (some a) none = some a
min_option (some a) (some b) = some (min a b)

-- The least earliest tick of all windows.
unfoldable pub least_earliest : OrdMap DirtyWindow → Option ℕ
least_earliest [] = none
least_earliest ((b, w) ∷ m) = min_option w.earliest (least_earliest m)

-- One range that covers every dirty body.
unfoldable pub global_window : ResimPlanner → ℕ → ℕ → Option ResimRange
unfolding least_earliest clamped_range
global_window p current limit = elim (least_earliest p.bodies) [
  | none ↦ none
  | some earliest ↦ clamped_range earliest current limit
]

abbrev pub push_entry : ℕ → Option ResimRange → List BodyResim → List BodyResim
push_entry body none out = out
push_entry body (some range) out = record { body = body; range = range } ∷ out

unfoldable pub plan_entries : OrdMap DirtyWindow → ℕ → ℕ → List BodyResim
unfolding take_window
plan_entries [] current limit = []
plan_entries ((body, w) ∷ m) current limit =
    push_entry body (take_window w current limit).0 (plan_entries m current limit)

unfoldable pub taken : OrdMap DirtyWindow → ℕ → ℕ → OrdMap DirtyWindow
unfolding take_window
taken [] current limit = []
taken ((body, w) ∷ m) current limit =
    (body, (take_window w current limit).1) ∷ taken m current limit

-- `plan` consumes every window: the entries, and the planner that is left.
unfoldable pub plan : ResimPlanner → ℕ → ℕ → List BodyResim × ResimPlanner
unfolding plan_entries taken
plan p current limit =
    (plan_entries p.bodies current limit, record { bodies = taken p.bodies current limit })

unfoldable pub plan_cost : List BodyResim → ℕ
unfolding range_len
plan_cost [] = 0
plan_cost (e ∷ es) = range_len e.range + plan_cost es
