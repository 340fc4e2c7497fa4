-- ===== src/Interest/Tests.antt =====
-- Runs of a seat's update, of a connection and of the refresh phase.
use orbitnet.Base.{
  ℕ, ◌+◌, ◌≤◌, ◌<◌, ◌≡◌, ◌≢◌, refl, true, false, not, ◌&&◌, List, [], ◌∷◌, ◌==◌, length, arith,
}
use orbitnet.Base.OrdMap.{IsSorted, lookup, insert}
use orbitnet.Base.Ids.{contains_id}
use orbitnet.Quant.Sample.{whole}
use orbitnet.Interest
use orbitnet.Interest.{
  Position, AoiConfig, InterestCandidate, PeerInterest, anchored, anchored_in, always_everywhere,
  always_in, view_of, update_linear_into, send_phase, sort_by, push_leaves, skip_below,
}
use orbitnet.Interest.Grid.{new_grid, rebuild, update_grid_into}
use orbitnet.Interest.Laws.{Relevant, unmeasured, update_linear_into_lem}
use orbitnet.Interest.Connection.{SeatObserver, ConnectionInterest, update_with, dist_sq}
use orbitnet.Interest.Connection
use orbitnet.Interest.Union.{held_by, update_with_lem}
use orbitnet.Interest.Veto.{
  InterestEvent, updated, updated_grid, declared, removed, after_events, withheld,
  after_events-veto,
}
use orbitnet.Interest.Phase.{slot_in, send_phase_once}

abbrev at : ℕ → Position
at x = record { x = x; y = 0; z = 0 }

abbrev config : AoiConfig
config = record { cell_size = 8; enter_radius = 4; exit_factor = 0; max_entities = 1 }

-- A seat that holds a body no longer offered.
abbrev standing : PeerInterest
standing = record { members = (5, 0) ∷ []; hidden = 6 ∷ [] }

-- Two bodies in range, one out of it, one hidden, one of another world, one never culled.
abbrev offered : List InterestCandidate
offered =
    anchored 7 (at 3)
    ∷ anchored_in 4 (at 2) 1
    ∷ anchored 9 (at 5)
    ∷ always_everywhere 6
    ∷ always_in 3 2
    ∷ always_everywhere 8
    ∷ []

-- The cap leaves the nearer of the two bodies in range, beside the one that is never culled.
update_linear_into_run :
    update_linear_into whole config standing (at 0) 1 offered
    ≡ (record { members = (4, 4) ∷ (8, 0) ∷ []; hidden = 6 ∷ [] }, 5 ∷ [])
unfolding update_linear_into sort_by push_leaves always_everywhere anchored Interest.classify
    contains_id lookup Interest.enter_sq Interest.effective_enter_radius insert
update_linear_into_run = refl

-- Through the grid the same update comes to the same.
update_grid_into_run :
    update_grid_into whole (rebuild whole config new_grid offered) config standing (at 0) 1 []
    ≡ (record { members = (4, 4) ∷ (8, 0) ∷ []; hidden = 6 ∷ [] }, 5 ∷ [])
unfolding update_grid_into rebuild new_grid sort_by push_leaves always_everywhere anchored
    contains_id lookup Interest.enter_sq Interest.effective_enter_radius insert Interest.commit
    Interest.apply_cap Interest.exit_radius Interest.effective_exit_factor Interest.is_hidden
    Interest.contains Interest.scan
update_grid_into_run = refl

update_linear_into_lem_example :
    let v = view_of whole config standing (at 0) 1 in
    let (after, leaves) = update_linear_into whole config standing (at 0) 1 offered in
    IsSorted after.members
    × (after.hidden ≡ standing.hidden)
    × ((id : ℕ) → Interest.contains after id ≡ true → Relevant whole v offered id)
    × (config.max_entities ≡ 0
        → (id : ℕ) → Relevant whole v offered id
        → Interest.contains after id ≡ true)
    × ((id : ℕ)
        → contains_id leaves id
          ≡ (Interest.contains standing id && not (Interest.contains after id)))
    × (config.max_entities ≢ 0 → Interest.len after ≤ unmeasured v offered + config.max_entities)
update_linear_into_lem_example =
    update_linear_into_lem whole config standing (at 0) 1 offered (omega arith, tt)

abbrev two_seats : List SeatObserver
two_seats = record { center = at 0; membership = 1 } ∷ record { center = at 6; membership = 1 } ∷ []

abbrev connection : ConnectionInterest
connection = record { seats = standing ∷ []; members = (5, 0) ∷ []; hidden = 6 ∷ [] }

abbrev seen : PeerInterest → SeatObserver → PeerInterest
seen p o = (update_linear_into whole config p o.center o.membership offered).0

update_with_lem_example :
    let (after, delta) = update_with seen connection two_seats in
    IsSorted after.members
    × (length after.seats ≡ length two_seats)
    × ((id : ℕ)
        → (Connection.contains after id ≡ held_by after.seats id)
          × (contains_id delta.leaves id
              ≡ (Connection.contains connection id && not (Connection.contains after id)))
          × (contains_id delta.enters id
              ≡ (Connection.contains after id && not (Connection.contains connection id))))
update_with_lem_example = update_with_lem seen connection two_seats (omega arith, tt)

-- A body that is hidden while it is a member, and shown again and hidden.
abbrev life : List InterestEvent
life =
    updated config two_seats offered
    ∷ declared 4 true
    ∷ removed 8
    ∷ declared 4 false
    ∷ updated_grid (rebuild whole config new_grid offered) config two_seats []
    ∷ updated config two_seats offered
    ∷ declared 4 true
    ∷ updated config (record { center = at 1; membership = 0 } ∷ two_seats) offered
    ∷ []

after_events-veto_example :
    let c = after_events whole life Connection.new in
    (Connection.is_hidden c 4 ≡ true)
    × (withheld 4 life false ≡ true
        → (Connection.contains c 4 ≡ false) × (held_by c.seats 4 ≡ false))
after_events-veto_example = after_events-veto whole life 4

send_phase_once_example : (slot_in 10 7 4 < 4) × (send_phase 10 (7 + 3) 4 ≡ (3 == slot_in 10 7 4))
send_phase_once_example = send_phase_once 10 7 4 3 (omega arith) (omega arith)
