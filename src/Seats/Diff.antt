-- ===== src/Seats/Diff.antt =====
-- `replace_into` reports exactly what arrived and what left.
use orbitnet.Base.{
  ◌≡◌, refl, sym, ◌∙◌, Bool, true, false, not, List, [], ◌∷◌, ◌&&◌, arith, inl, inr, Bool-cases,
}
use orbitnet.Seats.{
  SeatId, eqb_seat, ltb_seat, holds, contains, SeatRoster, changes, sort_seats, dedup, replace_into,
}
use orbitnet.Seats.Order.{
  ltb_seat_trans, eqb_seat_trans, ltb_seat_cases, IsAbove, IsStrict, sort_seats_lem, dedup_lem,
}

-- A seat that is before all of a list, or equals what is, is not in it.
above-absent :
    (x z : SeatId) (ys : List SeatId) → eqb_seat x z ≡ true → IsAbove x ys → holds ys z ≡ false
unfolding holds
above-absent x z [] e h = refl
above-absent x z (y ∷ ys) e h =
    let other : eqb_seat y z ≡ false = apart x y z h.0 e in rw other (above-absent x z ys e h.1)
  where
    apart : (a b c : SeatId) → ltb_seat a b ≡ true → eqb_seat a c ≡ true → eqb_seat b c ≡ false
    apart a b c h k = ground arith

IsAbove-before :
    (x y : SeatId) (ys : List SeatId) → ltb_seat x y ≡ true → IsAbove y ys → IsAbove x ys
IsAbove-before x y [] h k = tt
IsAbove-before x y (w ∷ ws) h k = (ltb_seat_trans x y w h k.0, IsAbove-before x y ws h k.1)

-- What the walk reports of one seat.
abbrev pub Exact : List SeatId → List SeatId → List SeatId × List SeatId → SeatId → Type 0
Exact old new (closed, opened) z =
    (holds closed z ≡ (holds old z && not (holds new z)))
    × (holds opened z ≡ (holds new z && not (holds old z)))

Exact-less :
    (x z : SeatId) (old new closed opened : List SeatId)
    → (eqb_seat x z ≡ true → holds new z ≡ false)
    → Exact old new (closed, opened) z
    → Exact (x ∷ old) new (x ∷ closed, opened) z
unfolding holds
Exact-less x z old new closed opened absent (c, o) = elim (Bool-cases (eqb_seat x z)) [
  | inl same ↦ rw (same, absent same, holds) (refl, o ∙ rw (absent same) refl)
  | inr other ↦ rw (other, holds) (c, o)
]

Exact-greater :
    (y z : SeatId) (old new closed opened : List SeatId)
    → (eqb_seat y z ≡ true → holds old z ≡ false)
    → Exact old new (closed, opened) z
    → Exact old (y ∷ new) (closed, y ∷ opened) z
unfolding holds
Exact-greater y z old new closed opened absent (c, o) = elim (Bool-cases (eqb_seat y z)) [
  | inl same ↦ rw (same, absent same, holds) (c ∙ rw (absent same) refl, refl)
  | inr other ↦ rw (other, holds) (c, o)
]

Exact-equal :
    (x y z : SeatId) (old new closed opened : List SeatId)
    → eqb_seat x y ≡ true
    → (eqb_seat x z ≡ true → (holds old z ≡ false) × (holds new z ≡ false))
    → Exact old new (closed, opened) z
    → Exact (x ∷ old) (y ∷ new) (closed, opened) z
unfolding holds
Exact-equal x y z old new closed opened same absent (c, o) = elim (Bool-cases (eqb_seat x z)) [
  | inl here ↦
      let (no_old, no_new) = absent here in
      let there : eqb_seat y z ≡ true = sym (eqb_seat_trans x y z same) ∙ here in
      rw (here, there, holds) (c ∙ rw no_old refl, o ∙ rw no_new refl)
  | inr other ↦
      let there : eqb_seat y z ≡ false = sym (eqb_seat_trans x y z same) ∙ other in
      rw (other, there, holds) (c, o)
]

and_true : (b : Bool) → b ≡ (b && true)
and_true true = refl
and_true false = refl

changes-Exact :
    (old new : List SeatId) (z : SeatId)
    → IsStrict old
    → IsStrict new
    → Exact old new (changes old new) z
unfolding changes holds
changes-Exact [] new z s t = (refl, and_true (holds new z))
changes-Exact (x ∷ old) [] z s t = (and_true (holds (x ∷ old) z), refl)
changes-Exact (x ∷ old) (y ∷ new) z s t = elim (Bool-cases (ltb_seat x y)) [
  | inl less ↦
      rw (less, changes)
        (Exact-less x z old (y ∷ new) _ _
          (λ e. above-absent x z (y ∷ new) e (less, IsAbove-before x y new less t.0))
          (changes-Exact old (y ∷ new) z s.1 t))
  | inr not_less ↦ elim (Bool-cases (ltb_seat y x)) [
    | inl greater ↦
        rw (not_less, greater, changes)
          (Exact-greater y z (x ∷ old) new _ _
            (λ e. above-absent y z (x ∷ old) e (greater, IsAbove-before y x old greater s.0))
            (changes-Exact (x ∷ old) new z s t.1))
    | inr neither ↦
        let same = ltb_seat_cases x y not_less neither in
        rw (not_less, neither, changes)
          (Exact-equal x y z old new _ _ same
            (λ e. (
              above-absent x z old e s.0,
              above-absent y z new (sym (eqb_seat_trans x y z same) ∙ e) t.0,
            ))
            (changes-Exact old new z s.1 t.1))
  ]
]

-- On a roster in order, whatever list is adopted: the new roster is in order and holds exactly the
-- seats of the list; what closed are those held before and not now, and what opened those held now
-- and not before.
pub replace_into_lem :
    (r : SeatRoster) (next : List SeatId)
    → IsStrict r.seats
    → let out = replace_into r next in
      IsStrict out.roster.seats
      × ((z : SeatId)
          → (contains out.roster z ≡ holds next z)
            × (holds out.closed z ≡ (contains r z && not (holds next z)))
            × (holds out.opened z ≡ (holds next z && not (contains r z))))
unfolding replace_into contains
replace_into_lem r next s =
    let (ascending, sorted) = sort_seats_lem next in
    let (strict, deduped) = dedup_lem (sort_seats next) ascending in
    (
      strict,
      λ z.
          let seats : holds (dedup (sort_seats next)) z ≡ holds next z = deduped z ∙ sorted z in
          let (closed, opened) = changes-Exact r.seats (dedup (sort_seats next)) z s strict in
          (seats, closed ∙ rw seats refl, opened ∙ rw seats refl),
    )
