-- ===== src/Seats.antt =====
-- native/crates/orbitnet-core/src/seats.rs: who sits where, and what changed since the last
-- announcement.
pub mod Order
pub mod Diff
pub mod Of
mod Tests
use orbitnet.Base.{
  ℕ, suc, ◌-◌, Bool, true, false, List, [], ◌∷◌, ltb, leb, ◌==◌, ◌&&◌, ◌||◌, not, if◌then◌else◌,
  take, drop,
}
use orbitnet.Base.Int.{ℤ, pos_part, neg_part, ltb_ℤ}

pub record SeatId : Type 0 where
  pub peer : ℤ
  pub seat : ℕ

-- The derived order, peer first, and the derived equality.
abbrev pub eqb_peer : SeatId → SeatId → Bool
eqb_peer a b = pos_part a.peer == pos_part b.peer && neg_part a.peer == neg_part b.peer

abbrev pub eqb_seat : SeatId → SeatId → Bool
eqb_seat a b = eqb_peer a b && a.seat == b.seat

abbrev pub ltb_seat : SeatId → SeatId → Bool
ltb_seat a b = ltb_ℤ a.peer b.peer || (eqb_peer a b && ltb a.seat b.seat)

pub record SeatRoster : Type 0 where
  pub seats : List SeatId

unfoldable pub new : SeatRoster
new = record { seats = [] }

-- `binary_search` in an ordered list finds what is there.
unfoldable pub holds : List SeatId → SeatId → Bool
holds [] id = false
holds (x ∷ xs) id = if eqb_seat x id then true else holds xs id

unfoldable pub contains : SeatRoster → SeatId → Bool
unfolding holds
contains r id = holds r.seats id

-- In a list that the test parts, how many pass it.
abbrev pub partition_point : (SeatId → Bool) → List SeatId → ℕ
partition_point test [] = 0
partition_point test (x ∷ xs) = if test x then suc (partition_point test xs) else 0

unfoldable pub seats_of : SeatRoster → ℤ → List SeatId
seats_of r peer =
    let start = partition_point (λ id. ltb_ℤ id.peer peer) r.seats in
    let end = partition_point (λ id. not (ltb_ℤ peer id.peer)) r.seats in
    take (end - start) (drop start r.seats)

unfoldable pub clear : SeatRoster → SeatRoster
clear r = record r { seats = [] }

-- `sort_unstable`.
unfoldable pub insert_seat : SeatId → List SeatId → List SeatId
insert_seat x [] = x ∷ []
insert_seat x (y ∷ ys) =
    let later = insert_seat x ys in if ltb_seat y x then y ∷ later else x ∷ y ∷ ys

unfoldable pub sort_seats : List SeatId → List SeatId
unfolding insert_seat
sort_seats [] = []
sort_seats (x ∷ xs) = insert_seat x (sort_seats xs)

-- `dedup`: of equal neighbours the first stays.
unfoldable pub dedup_from : SeatId → List SeatId → List SeatId
dedup_from x [] = x ∷ []
dedup_from x (y ∷ ys) = elim (eqb_seat x y) [ true ↦ dedup_from x ys | false ↦ x ∷ dedup_from y ys ]

unfoldable pub dedup : List SeatId → List SeatId
unfolding dedup_from
dedup [] = []
dedup (x ∷ xs) = dedup_from x xs

-- The walk of `replace_into`: what closed and what opened.
unfoldable pub changes : List SeatId → List SeatId → List SeatId × List SeatId
changes [] new = ([], new)
changes (x ∷ old) [] = (x ∷ old, [])
changes (x ∷ old) (y ∷ new) = elim (ltb_seat x y) [
  | true ↦ let (closed, opened) = changes old (y ∷ new) in (x ∷ closed, opened)
  | false ↦ elim (ltb_seat y x) [
    | true ↦ let (closed, opened) = changes (x ∷ old) new in (closed, y ∷ opened)
    | false ↦ changes old new
  ]
]

pub record Replaced : Type 0 where
  pub roster : SeatRoster
  pub opened : List SeatId
  pub closed : List SeatId

unfoldable pub replace_into : SeatRoster → List SeatId → Replaced
unfolding dedup sort_seats changes
replace_into r next =
    let seats = dedup (sort_seats next) in
    let (closed, opened) = changes r.seats seats in
    record { roster = record { seats = seats }; opened = opened; closed = closed }

pub data SeatReleasePolicy : Type 0 where
  hold on_expiry on_drop : SeatReleasePolicy

pub data SeatReleaseEvent : Type 0 where
  dropped expired : SeatReleaseEvent

abbrev pub acts_on : SeatReleasePolicy → SeatReleaseEvent → Bool
acts_on hold event = false
acts_on on_drop dropped = true
acts_on on_drop expired = false
acts_on on_expiry dropped = false
acts_on on_expiry expired = true

unfoldable pub releases_seats : SeatReleasePolicy → SeatReleaseEvent → Bool → Bool
releases_seats policy event peer_is_live = if peer_is_live then false else acts_on policy event
