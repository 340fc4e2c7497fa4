-- ===== src/Seats/Tests.antt =====
-- Seats at concrete inputs.
use orbitnet.Base.{ℕ, ◌≡◌, refl, true, false, not, [], ◌∷◌, ◌&&◌}
use orbitnet.Base.Int.{pos}
use orbitnet.Seats.{
  SeatId, SeatRoster, holds, contains, replace_into, changes, dedup, dedup_from, sort_seats,
  insert_seat, releases_seats, on_expiry, on_drop, dropped, expired, new,
}
use orbitnet.Seats.Order.{IsStrict}
use orbitnet.Seats.Diff.{replace_into_lem}

abbrev seat : ℕ → ℕ → SeatId
seat peer label = record { peer = pos peer; seat = label }

abbrev roster : SeatRoster
roster = record { seats = seat 1 0 ∷ seat 4 0 ∷ seat 4 1 ∷ [] }

replace_runs : replace_into roster (seat 7 0 ∷ seat 4 1 ∷ seat 4 1 ∷ seat 1 0 ∷ []) ≡ record {
  roster = record { seats = seat 1 0 ∷ seat 4 1 ∷ seat 7 0 ∷ [] };
  opened = seat 7 0 ∷ [];
  closed = seat 4 0 ∷ [];
}
unfolding replace_into changes dedup dedup_from sort_seats insert_seat
replace_runs = refl

release_runs :
    (releases_seats on_drop dropped false ≡ true)
    × (releases_seats on_expiry dropped false ≡ false)
    × (releases_seats on_expiry expired true ≡ false)
unfolding releases_seats
release_runs = (refl, refl, refl)

new_runs : contains new (seat 1 0) ≡ false
unfolding contains new holds
new_runs = refl

replace_into_lem_example :
    let next = seat 7 0 ∷ seat 4 1 ∷ [] in
    let out = replace_into roster next in
    IsStrict out.roster.seats
    × ((z : SeatId)
        → (contains out.roster z ≡ holds next z)
          × (holds out.closed z ≡ (contains roster z && not (holds next z)))
          × (holds out.opened z ≡ (holds next z && not (contains roster z))))
replace_into_lem_example =
    replace_into_lem roster (seat 7 0 ∷ seat 4 1 ∷ []) ((refl, (refl, tt)), ((refl, tt), (tt, tt)))
