-- ===== src/History/Tests.antt =====
-- Runs of the history ring and the planner, and their theorems at concrete inputs.
use orbitnet.Base.{ℕ, ◌≤◌, ◌≡◌, refl, true, false, none, some, List, [], ◌∷◌, arith, u64_max}
use orbitnet.History.Ring.{
  TickRing, with_capacity, get, set_tick, closest_at_or_before, earliest_tick, len, is_empty,
}
use orbitnet.History.Ring.Writes.{store, recorded, get-store_inside}
use orbitnet.History.Window.{ResimRange}
use orbitnet.History.Planner.{ResimPlanner, mark, plan}
use orbitnet.History.Planner.{planner_is_dirty}
use orbitnet.History.Planner.Laws.{planned, wanted, plan_exact}
use orbitnet.History.Planner.Marks.{mark_all, mark-is_replayed}

-- Tick 0 is evicted by tick 4, and tick 1 is refused: the window has moved past it.
abbrev writes : List (ℕ × ℕ)
writes = (0, 10) ∷ (4, 14) ∷ (3, 13) ∷ (5, 15) ∷ (1, 99) ∷ (3, 23) ∷ []

-- Slots of ticks 4, 5 and 3.
abbrev ring : TickRing ℕ
ring = record { slots = some (4, 14) ∷ some (5, 15) ∷ none ∷ some (3, 23) ∷ []; latest = some 5 }

store_runs : store (with_capacity 4) writes ≡ ring
unfolding store with_capacity set_tick
store_runs = refl

len_runs : (len ring ≡ 3) × (is_empty ring ≡ false) × (is_empty (with_capacity {A = ℕ} 2) ≡ true)
unfolding len is_empty with_capacity
len_runs = (refl, refl, refl)

closest_runs : closest_at_or_before ring 9 ≡ none
unfolding closest_at_or_before get
closest_runs = refl

closest_back : closest_at_or_before ring 8 ≡ some (5, 15)
unfolding closest_at_or_before get
closest_back = refl

earliest_runs : earliest_tick ring ≡ some 3
unfolding earliest_tick get
earliest_runs = refl

get-store_inside_example : get (store (with_capacity 4) writes) 3 ≡ recorded (λ _. none) writes 3
unfolding store with_capacity set_tick
get-store_inside_example = get-store_inside 4 5 3 writes (omega arith) refl (omega arith)

abbrev full : TickRing ℕ
full = record { slots = none ∷ some (u64_max, 7) ∷ []; latest = some u64_max }

-- Body 7 is late, body 9 is clean, and body 2 is one tick behind.
abbrev planner : ResimPlanner
planner = record {
  bodies =
      (2, record { earliest = some 99 })
      ∷ (7, record { earliest = some 60 })
      ∷ (9, record { earliest = none })
      ∷ [];
}

plan_runs :
    (plan planner 100 32).0
    ≡ record { body = 2; range = record { from = 99; to = 100 } }
      ∷ record { body = 7; range = record { from = 68; to = 100 } }
      ∷ []
unfolding plan
plan_runs = refl

plan_exact_example :
    (planned 7 (plan planner 100 32).0 ≡ wanted planner 7 100 32)
    × (planner_is_dirty (plan planner 100 32).1 ≡ false)
plan_exact_example = plan_exact planner 7 100 32 (omega arith)

mark-is_replayed_example :
    (r : ResimRange) × (planned 9
        (plan (mark_all (mark planner 9 80) ((2, 70) ∷ (9, 95) ∷ [])) 100 32).0
      ≡ some r)
    × (r.from ≤ 80)
    × (r.to ≡ 100)
mark-is_replayed_example =
    mark-is_replayed planner ((2, 70) ∷ (9, 95) ∷ []) 9 80 100 32 (omega arith) (omega arith)
      (omega arith)
