-- ===== src/History/Planner/Laws.antt =====
-- What a plan covers and costs.
use orbitnet.Base.{
  ℕ, suc, ◌-◌, ◌*◌, ◌≤◌, ◌<◌, max, ◌≡◌, refl, inl, inr, false, Option, none, some, List, [], ◌∷◌,
  ◌==◌, if◌then◌else◌, arith, length, Option-cases, Bool-cases, leb,
}
use orbitnet.Base.OrdMap.{OrdMap, lookup, SortedFrom, IsSorted}
use orbitnet.History.Window.{ResimRange, DirtyWindow, range_len, clamped_range_length, take_window}
use orbitnet.History.Planner.{
  BodyResim, ResimPlanner, window_of, any_dirty, planner_is_dirty, min_option, least_earliest,
  global_window, push_entry, plan_entries, taken, plan, plan_cost,
}

-- The range that a plan holds for `body`.
unfoldable pub planned : ℕ → List BodyResim → Option ResimRange
planned body [] = none
planned body (e ∷ es) = if e.body == body then some e.range else planned body es

-- The range that `body`'s own window asks for.
unfoldable pub wanted : ResimPlanner → ℕ → ℕ → ℕ → Option ResimRange
unfolding take_window
wanted p body current limit = (take_window (window_of (lookup body p.bodies)) current limit).0

planned_below :
    (m : OrdMap DirtyWindow) (lo body current limit : ℕ)
    → SortedFrom lo m
    → body < lo
    → planned body (plan_entries m current limit) ≡ none
unfolding planned plan_entries
planned_below [] lo body current limit s h = refl
planned_below ((b, w) ∷ m) lo body current limit s h =
    ground (arith, planned_below m (suc b) body current limit s.1)

planned_entries :
    (m : OrdMap DirtyWindow) (lo body current limit : ℕ)
    → SortedFrom lo m
    → planned body (plan_entries m current limit)
      ≡ (take_window (window_of (lookup body m)) current limit).0
unfolding planned plan_entries lookup take_window
planned_entries [] lo body current limit s = refl
planned_entries ((b, w) ∷ m) lo body current limit s = ground (
  arith,
  planned_entries m (suc b) body current limit s.1,
  planned_below m (suc b) body current limit s.1,
)

any_dirty-taken :
    (m : OrdMap DirtyWindow) (current limit : ℕ) → any_dirty (taken m current limit) ≡ false
unfolding any_dirty taken
any_dirty-taken [] current limit = refl
any_dirty-taken ((b, w) ∷ m) current limit = ground (arith, any_dirty-taken m current limit)

-- A plan replays each body over exactly the range that its own window asks for, whatever the other
-- bodies' windows are, and leaves no window pending.
pub plan_exact :
    (p : ResimPlanner) (body current limit : ℕ)
    → IsSorted p.bodies
    → (planned body (plan p current limit).0 ≡ wanted p body current limit)
      × (planner_is_dirty (plan p current limit).1 ≡ false)
unfolding plan wanted planner_is_dirty
plan_exact p body current limit s =
    (planned_entries p.bodies 0 body current limit s, any_dirty-taken p.bodies current limit)

-- No window of the map is dirty before `g`.
abbrev StartsFrom : ℕ → Option ℕ → Type 0
StartsFrom g none = Unit {0}
StartsFrom g (some earliest) = g ≤ earliest

abbrev AllFrom : ℕ → OrdMap DirtyWindow → Type 0
AllFrom g [] = Unit {0}
AllFrom g ((b, w) ∷ m) = StartsFrom g w.earliest × AllFrom g m

AllFrom-mono : (g h : ℕ) (m : OrdMap DirtyWindow) → g ≤ h → AllFrom h m → AllFrom g m
AllFrom-mono g h [] le a = tt
AllFrom-mono g h ((b, w) ∷ m) le a = (start w.earliest a.0, AllFrom-mono g h m le a.1)
  where
    start : (o : Option ℕ) → StartsFrom h o → StartsFrom g o
    start none s = tt
    start (some e) s = omega arith

AllFrom-none : (m : OrdMap DirtyWindow) (g : ℕ) → least_earliest m ≡ none → AllFrom g m
unfolding least_earliest
AllFrom-none [] g e = tt
AllFrom-none ((b, w) ∷ m) g e = go w.earliest (least_earliest m) e (AllFrom-none m g)
  where
    go :
        (o l : Option ℕ)
        → min_option o l ≡ none
        → (l ≡ none → AllFrom g m)
        → StartsFrom g o × AllFrom g m
    go none none e h = (tt, h refl)
    go none (some l) e h = cc
    go (some x) none e h = cc
    go (some x) (some l) e h = cc

AllFrom-some : (m : OrdMap DirtyWindow) (g : ℕ) → least_earliest m ≡ some g → AllFrom g m
unfolding least_earliest
AllFrom-some [] g e = cc
AllFrom-some ((b, w) ∷ m) g e =
    go w.earliest (least_earliest m) e (AllFrom-none m g) (λ l h. AllFrom-some m l h)
  where
    go :
        (o l : Option ℕ)
        → min_option o l ≡ some g
        → (l ≡ none → AllFrom g m)
        → ((k : ℕ) → l ≡ some k → AllFrom k m)
        → StartsFrom g o × AllFrom g m
    go none none e h k = cc
    go none (some l) e h k = (tt, AllFrom-mono g l m (ground arith) (k l refl))
    go (some x) none e h k = (ground arith, h refl)
    go (some x) (some l) e h k = (ground arith, AllFrom-mono g l m (ground arith) (k l refl))

-- One more entry costs at most the whole span.
entry_cost :
    (b current limit g : ℕ) (o : Option ℕ) (out : List BodyResim)
    → StartsFrom g o
    → plan_cost out ≤ length out * (current - max g (current - limit))
    → let entries = push_entry b (take_window (record { earliest = o }) current limit).0 out in
      plan_cost entries ≤ length entries * (current - max g (current - limit))
unfolding plan_cost take_window range_len
entry_cost b current limit g none out s h = h
entry_cost b current limit g (some earliest) out s h =
    elim (Bool-cases (leb current (max earliest (current - limit)))) [
      | inl future ↦ rw (future, take_window) h
      | inr past ↦ rw (past, take_window) (omega arith)
    ]

plan_cost-le :
    (m : OrdMap DirtyWindow) (g current limit : ℕ)
    → AllFrom g m
    → plan_cost (plan_entries m current limit)
      ≤ length (plan_entries m current limit) * (current - max g (current - limit))
unfolding plan_cost plan_entries
plan_cost-le [] g current limit h = omega arith
plan_cost-le ((b, w) ∷ m) g current limit h =
    entry_cost b current limit g w.earliest (plan_entries m current limit) h.0
      (plan_cost-le m g current limit h.1)

-- Where the global window holds the range `r`, the plan costs at most what it would cost to replay
-- every planned body over `r`.
pub plan_cost-le_global :
    (p : ResimPlanner) (current limit : ℕ) (r : ResimRange)
    → global_window p current limit ≡ some r
    → plan_cost (plan p current limit).0 ≤ length (plan p current limit).0 * range_len r
unfolding plan global_window range_len
plan_cost-le_global p current limit r e = elim (Option-cases (least_earliest p.bodies)) [
  | inl n ↦ let never : ◌≡◌ {A = Option ResimRange} none (some r) = rw (n, global_window) at e in cc
  | inr (g, s) ↦
      rw (length_of_global g s) (plan_cost-le p.bodies g current limit (AllFrom-some p.bodies g s))
]
  where
    length_of_global :
        (g : ℕ)
        → least_earliest p.bodies ≡ some g
        → r.to - r.from ≡ current - max g (current - limit)
    length_of_global g s = clamped_range_length g current limit r (rw (s, global_window) at e)
