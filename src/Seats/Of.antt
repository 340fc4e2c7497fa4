-- ===== src/Seats/Of.antt =====
-- The seats of one peer.
use orbitnet.Base.{
  ℕ, suc, ◌-◌, ◌≡◌, refl, sym, ◌∙◌, ap, Bool, true, false, not, ◌&&◌, Bool-cases, List, [], ◌∷◌,
  inl, inr, take, drop, if◌then◌else◌, arith,
}
use orbitnet.Base.Int.{ℤ, ltb_ℤ}
use orbitnet.Seats.{SeatId, SeatRoster, ltb_seat, partition_point, seats_of}
use orbitnet.Seats.Order.{IsAbove, IsStrict}

abbrev pub sits_at : ℤ → SeatId → Bool
sits_at peer id = not (ltb_ℤ id.peer peer) && not (ltb_ℤ peer id.peer)

-- The seats of the peer, picked one by one.
abbrev pub picked : ℤ → List SeatId → List SeatId
picked peer [] = []
picked peer (x ∷ xs) = let rest = picked peer xs in if sits_at peer x then x ∷ rest else rest

abbrev starts : ℤ → List SeatId → ℕ
starts peer xs = partition_point (λ id. ltb_ℤ id.peer peer) xs

abbrev ends : ℤ → List SeatId → ℕ
ends peer xs = partition_point (λ id. not (ltb_ℤ peer id.peer)) xs

starts_at_once :
    (peer : ℤ) (x : SeatId) (xs : List SeatId)
    → ltb_ℤ x.peer peer ≡ false
    → IsAbove x xs
    → starts peer xs ≡ 0
starts_at_once peer x [] h above = refl
starts_at_once peer x (y ∷ ys) h above =
    let not_before : ltb_ℤ y.peer peer ≡ false = behind peer x y h above.0 in rw not_before refl
  where
    behind :
        (peer : ℤ) (x y : SeatId)
        → ltb_ℤ x.peer peer ≡ false
        → ltb_seat x y ≡ true
        → ltb_ℤ y.peer peer ≡ false
    behind peer x y h less = ground (arith, h, less)

none_behind :
    (peer : ℤ) (x : SeatId) (xs : List SeatId)
    → ltb_ℤ peer x.peer ≡ true
    → IsAbove x xs
    → picked peer xs ≡ []
none_behind peer x [] h above = refl
none_behind peer x (y ∷ ys) h above =
    let beyond : ltb_ℤ peer y.peer ≡ true = further peer x y h above.0 in
    let rest = none_behind peer x ys h above.1 in
    let other : sits_at peer y ≡ false = rw beyond (no_more (not (ltb_ℤ y.peer peer))) in
    rw other rest
  where
    further :
        (peer : ℤ) (x y : SeatId)
        → ltb_ℤ peer x.peer ≡ true
        → ltb_seat x y ≡ true
        → ltb_ℤ peer y.peer ≡ true
    further peer x y h less = ground (arith, h, less)

    no_more : (b : Bool) → (b && false) ≡ false
    no_more true = refl
    no_more false = refl

ranged :
    (peer : ℤ) (xs : List SeatId)
    → IsStrict xs
    → take (ends peer xs - starts peer xs) (drop (starts peer xs) xs) ≡ picked peer xs
ranged peer [] h = refl
ranged peer (x ∷ xs) h = elim (Bool-cases (ltb_ℤ x.peer peer)) [
  | inl before ↦
      let not_after : ltb_ℤ peer x.peer ≡ false = ground (arith, before) in
      let shift : suc (ends peer xs) - suc (starts peer xs) ≡ ends peer xs - starts peer xs =
        omega arith in
      rw (before, not_after)
        (ap (λ k. take k (drop (starts peer xs) xs)) shift ∙ ranged peer xs h.1)
  | inr here ↦ elim (Bool-cases (ltb_ℤ peer x.peer)) [
    | inl after ↦ rw (here, after) (sym (none_behind peer x xs after h.0))
    | inr at ↦
        let start = starts_at_once peer x xs here h.0 in
        let none_before : ends peer xs - starts peer xs ≡ ends peer xs = omega (arith, start) in
        let rest = ranged peer xs h.1 in
        let whole : suc (ends peer xs) - 0 ≡ suc (ends peer xs) = omega arith in
        rw (here, at)
          (ap (λ k. take k (x ∷ xs)) whole
            ∙ ap (λ r. x ∷ r)
                (sym (ap (λ k. take (ends peer xs) (drop k xs)) start)
                  ∙ sym (ap (λ k. take k (drop (starts peer xs) xs)) none_before)
                  ∙ rest))
  ]
]

-- In an ordered roster the range between the two partition points is exactly the seats of the peer, in
-- their order.
pub seats_of-picked :
    (r : SeatRoster) (peer : ℤ) → IsStrict r.seats → seats_of r peer ≡ picked peer r.seats
unfolding seats_of
seats_of-picked r peer h = ranged peer r.seats h
