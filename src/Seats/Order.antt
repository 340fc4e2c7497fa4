-- ===== src/Seats/Order.antt =====
-- The order of seats, and what sorting and deduplicating leave.
use orbitnet.Base.{
  ◌≡◌, refl, ◌∙◌, ap, Bool, true, false, List, [], ◌∷◌, if◌then◌else◌, arith, All, inl, inr,
  Bool-cases,
}
use orbitnet.Seats.{SeatId, eqb_seat, ltb_seat, holds, insert_seat, sort_seats, dedup_from, dedup}

-- Laws of the order.
pub ltb_seat_trans :
    (a b c : SeatId) → ltb_seat a b ≡ true → ltb_seat b c ≡ true → ltb_seat a c ≡ true
ltb_seat_trans a b c h k = ground arith

pub ltb_seat_eqb :
    (a b c : SeatId) → ltb_seat a b ≡ true → eqb_seat b c ≡ true → ltb_seat a c ≡ true
ltb_seat_eqb a b c h k = ground arith

pub eqb_seat_trans : (a b c : SeatId) → eqb_seat a b ≡ true → eqb_seat a c ≡ eqb_seat b c
eqb_seat_trans a b c h = ground arith

pub ltb_seat_cases :
    (a b : SeatId) → ltb_seat a b ≡ false → ltb_seat b a ≡ false → eqb_seat a b ≡ true
ltb_seat_cases a b h k = ground arith

pub eqb_seat_sym : (a b : SeatId) → eqb_seat a b ≡ eqb_seat b a
eqb_seat_sym a b = ground arith

pub ltb_seat-not_le :
    (a b c : SeatId) → ltb_seat a b ≡ true → ltb_seat c b ≡ false → ltb_seat a c ≡ true
ltb_seat-not_le a b c h k = ground arith

pub ltb_seat_irrefl : (a b : SeatId) → ltb_seat a b ≡ true → ltb_seat b a ≡ false
ltb_seat_irrefl a b h = ground arith

pub ltb_seat-not_below :
    (a b c : SeatId) → ltb_seat b a ≡ false → ltb_seat c b ≡ false → ltb_seat c a ≡ false
ltb_seat-not_below a b c h k = ground arith

ltb_seat-neither :
    (a b : SeatId) → ltb_seat b a ≡ false → eqb_seat a b ≡ false → ltb_seat a b ≡ true
ltb_seat-neither a b h k = ground arith

-- Every seat of the list lies after `x`, or none lies before it.
abbrev pub IsAbove : SeatId → List SeatId → Type 0
IsAbove x ys = All (λ y. ltb_seat x y ≡ true) ys

abbrev pub IsNotBelow : SeatId → List SeatId → Type 0
IsNotBelow x ys = All (λ y. ltb_seat y x ≡ false) ys

-- Ascending without repetition, and ascending.
abbrev pub IsStrict : List SeatId → Type 0
IsStrict [] = Unit {0}
IsStrict (x ∷ xs) = IsAbove x xs × IsStrict xs

abbrev pub IsAscending : List SeatId → Type 0
IsAscending [] = Unit {0}
IsAscending (x ∷ xs) = IsNotBelow x xs × IsAscending xs

All-mono :
    (P Q : SeatId → Type 0) (xs : List SeatId) → ((x : SeatId) → P x → Q x) → All P xs → All Q xs
All-mono P Q [] f h = tt
All-mono P Q (x ∷ xs) f h = (f x h.0, All-mono P Q xs f h.1)

All-insert_seat :
    (P : SeatId → Type 0) (x : SeatId) (xs : List SeatId)
    → P x
    → All P xs
    → All P (insert_seat x xs)
unfolding insert_seat
All-insert_seat P x [] p h = (p, tt)
All-insert_seat P x (y ∷ ys) p h = elim (Bool-cases (ltb_seat y x)) [
  | inl later ↦ rw later (h.0, All-insert_seat P x ys p h.1)
  | inr here ↦ rw here (p, h)
]

insert_seat-IsAscending :
    (x : SeatId) (xs : List SeatId) → IsAscending xs → IsAscending (insert_seat x xs)
unfolding insert_seat
insert_seat-IsAscending x [] h = (tt, tt)
insert_seat-IsAscending x (y ∷ ys) h = elim (Bool-cases (ltb_seat y x)) [
  | inl later ↦ rw later (
    All-insert_seat (λ z. ltb_seat z y ≡ false) x ys (ltb_seat_irrefl y x later) h.0,
    insert_seat-IsAscending x ys h.1,
  )
  | inr here ↦ rw here (
    (
      here,
      All-mono (λ z. ltb_seat z y ≡ false) (λ z. ltb_seat z x ≡ false) ys
          (λ z k. ltb_seat-not_below x y z here k) h.0,
    ),
    h,
  )
]

holds-insert_seat :
    (x : SeatId) (xs : List SeatId) (z : SeatId)
    → holds (insert_seat x xs) z ≡ (if eqb_seat x z then true else holds xs z)
unfolding insert_seat holds
holds-insert_seat x [] z = refl
holds-insert_seat x (y ∷ ys) z = elim (Bool-cases (ltb_seat y x)) [
  | inl later ↦
      rw (later, holds-insert_seat x ys z)
        (elim (Bool-cases (eqb_seat x z)) [
          | inl a ↦
              rw a (elim (Bool-cases (eqb_seat y z)) [ inl c ↦ rw c refl | inr c ↦ rw c refl ])
          | inr b ↦ rw b refl
        ])
  | inr here ↦ rw here refl
]

pub sort_seats_lem :
    (xs : List SeatId)
    → IsAscending (sort_seats xs) × ((z : SeatId) → holds (sort_seats xs) z ≡ holds xs z)
unfolding sort_seats holds
sort_seats_lem [] = (tt, λ z. refl)
sort_seats_lem (x ∷ xs) =
    let (ascending, same) = sort_seats_lem xs in
    (
      insert_seat-IsAscending x (sort_seats xs) ascending,
      λ z. holds-insert_seat x (sort_seats xs) z ∙ rw (same z) refl,
    )

All-dedup_from :
    (P : SeatId → Type 0) (x : SeatId) (ys : List SeatId) → P x → All P ys → All P (dedup_from x ys)
unfolding dedup_from
All-dedup_from P x [] p h = (p, tt)
All-dedup_from P x (y ∷ ys) p h = elim (Bool-cases (eqb_seat x y)) [
  | inl same ↦ rw (same, All, dedup_from) (All-dedup_from P x ys p h.1)
  | inr other ↦ rw (other, All, dedup_from) (p, All-dedup_from P y ys h.0 h.1)
]

dedup_from-IsStrict :
    (x : SeatId) (ys : List SeatId) → IsAscending (x ∷ ys) → IsStrict (dedup_from x ys)
unfolding dedup_from
dedup_from-IsStrict x [] h = (tt, tt)
dedup_from-IsStrict x (y ∷ ys) h = elim (Bool-cases (eqb_seat x y)) [
  | inl same ↦ rw (same, IsStrict, dedup_from) (dedup_from-IsStrict x ys (h.0.1, h.1.1))
  | inr other ↦
      let before : ltb_seat x y ≡ true = ltb_seat-neither x y h.0.0 other in
      rw (other, IsStrict, dedup_from)
        (
          All-dedup_from (λ z. ltb_seat x z ≡ true) y ys before
              (All-mono (λ z. ltb_seat z y ≡ false) (λ z. ltb_seat x z ≡ true) ys
                (λ z k. ltb_seat-not_le x y z before k) h.1.0),
          dedup_from-IsStrict y ys h.1,
        )
]

twice : (a b : Bool) → (if a then true else b) ≡ (if a then true else (if a then true else b))
twice true b = refl
twice false b = refl

holds-dedup_from :
    (x : SeatId) (ys : List SeatId) (z : SeatId) → holds (dedup_from x ys) z ≡ holds (x ∷ ys) z
unfolding dedup_from holds
holds-dedup_from x [] z = refl
holds-dedup_from x (y ∷ ys) z = elim (Bool-cases (eqb_seat x y)) [
  | inl same ↦
      rw (same, holds, dedup_from)
        (holds-dedup_from x ys z
          ∙ rw (← eqb_seat_trans x y z same) (twice (eqb_seat x z) (holds ys z)))
  | inr other ↦
      rw (other, holds, dedup_from)
        (ap (λ b. if eqb_seat x z then true else b) (holds-dedup_from y ys z))
]

pub dedup_lem :
    (xs : List SeatId)
    → IsAscending xs
    → IsStrict (dedup xs) × ((z : SeatId) → holds (dedup xs) z ≡ holds xs z)
unfolding dedup
dedup_lem [] h = (tt, λ z. refl)
dedup_lem (x ∷ xs) h = (dedup_from-IsStrict x xs h, holds-dedup_from x xs)
