-- ===== src/Interest/Union.antt =====
-- The union of a connection's seats: what it holds, what it reports, and the vetoes over it.
use orbitnet.Base.{
  ℕ, zero, suc, ◌≡◌, refl, sym, ap, ◌∙◌, subst, Bool, true, false, not, ◌&&◌, ◌||◌, List, [], ◌∷◌,
  ◌++◌, if◌then◌else◌, length, is_some, All, arith,
}
use orbitnet.Base.OrdMap.{OrdMap, lookup, remove, keys, IsSorted}
use orbitnet.Base.Ids.{contains_id, contains_id-insert_id, contains_id-keys, AscendFrom-keys}
use orbitnet.Interest
use orbitnet.Interest.{PeerInterest, AoiConfig, InterestCandidate, View, view_of, ids, extend}
use orbitnet.Interest.Lists.{contains_id-extend, SortedFrom-extend}
use orbitnet.Interest.Connection.{
  SeatObserver, ConnectionInterest, inherit, resized, fit_seats, commit_union, update_seats,
  update_with, contains, is_hidden,
}
use orbitnet.Interest.Delta.{push_delta-Exact, fresh_of, fresh_of-ascends, contains_id-fresh_of}

-- Some seat holds an id.
abbrev pub held_by : List PeerInterest → ℕ → Bool
held_by [] id = false
held_by (p ∷ ps) id = Interest.contains p id || held_by ps id

-- A seat under a connection's vetoes: in order, the same entities hidden, and none of them a member.
abbrev pub SeatKept : List ℕ → PeerInterest → Type 0
SeatKept hidden p =
    IsSorted p.members
    × ((id : ℕ) → contains_id p.hidden id ≡ contains_id hidden id)
    × ((id : ℕ) → contains_id hidden id ≡ true → Interest.contains p id ≡ false)

abbrev pub IsKept : ConnectionInterest → Type 0
IsKept c =
    IsSorted c.members
    × All (λ p. SeatKept c.hidden p) c.seats
    × ((id : ℕ) → is_hidden c id ≡ true → contains c id ≡ false)

-- What a seat's update does not do: lose the order, change the vetoes, admit what is hidden.
abbrev pub Respects : (PeerInterest → SeatObserver → PeerInterest) → Type 0
Respects update =
    (hidden : List ℕ) (p : PeerInterest) (o : SeatObserver)
    → SeatKept hidden p
    → SeatKept hidden (update p o)

-- A seat without members.
abbrev IsBare : PeerInterest → Type 0
IsBare p = p.members ≡ []

inherit-IsBare : (hs : List ℕ) (p : PeerInterest) → IsBare p → IsBare (inherit hs p)
unfolding Interest.set_hidden remove
inherit-IsBare [] p h = h
inherit-IsBare (id ∷ hs) p h =
    inherit-IsBare hs (Interest.set_hidden p id true) (ap (λ m. remove id m) h)

inherit-hides :
    (hs : List ℕ) (p : PeerInterest) (id : ℕ)
    → contains_id (inherit hs p).hidden id ≡ (contains_id hs id || contains_id p.hidden id)
unfolding Interest.set_hidden contains_id
inherit-hides [] p id = refl
inherit-hides (h ∷ hs) p id =
    inherit-hides hs (Interest.set_hidden p h true) id
    ∙ rw (contains_id-insert_id h id p.hidden) (ground arith)

-- The seat that appears.
SeatKept-inherit : (hidden : List ℕ) → SeatKept hidden (inherit hidden Interest.new)
unfolding Interest.new Interest.contains contains_id lookup
SeatKept-inherit hidden =
    let bare = inherit-IsBare hidden Interest.new refl in
    (
      subst (λ m. IsSorted m) (sym bare) tt,
      λ id. inherit-hides hidden Interest.new id ∙ ground arith,
      λ id _. ap (λ m. is_some (lookup id m)) bare,
    )

resized-All :
    (hidden : List ℕ) (n : ℕ) (ps : List PeerInterest)
    → All (λ p. SeatKept hidden p) ps
    → All (λ p. SeatKept hidden p) (resized hidden n ps)
resized-All hidden zero ps all = tt
resized-All hidden (suc n) [] all = (SeatKept-inherit hidden, resized-All hidden n [] tt)
resized-All hidden (suc n) (p ∷ ps) all = (all.0, resized-All hidden n ps all.1)

length-resized :
    (hidden : List ℕ) (n : ℕ) (ps : List PeerInterest) → length (resized hidden n ps) ≡ n
length-resized hidden zero ps = refl
length-resized hidden (suc n) [] = ap suc (length-resized hidden n [])
length-resized hidden (suc n) (p ∷ ps) = ap suc (length-resized hidden n ps)

contains_id-append :
    (xs ys : List (ℕ × ℕ)) (id : ℕ)
    → contains_id (ids (xs ++ ys)) id ≡ (contains_id (ids xs) id || contains_id (ids ys) id)
unfolding contains_id
contains_id-append [] ys id = refl
contains_id-append (x ∷ xs) ys id = ground (arith, contains_id-append xs ys id)

ids-keys : (m : OrdMap ℕ) → ids m ≡ keys m
ids-keys [] = refl
ids-keys (e ∷ m) = ap (λ l. e.0 ∷ l) (ids-keys m)

contains-extend :
    (merged : List (ℕ × ℕ)) (id : ℕ)
    → is_some (lookup id (extend (fresh_of merged) [])) ≡ contains_id (ids merged) id
unfolding lookup
contains-extend merged id =
    contains_id-extend (fresh_of merged) [] id
    ∙ rw (contains_id-fresh_of merged id) (shape (contains_id (ids merged) id))
  where
    shape : (b : Bool) → (if b then true else false) ≡ b
    shape b = ground arith

pub held_by-none :
    (hidden : List ℕ) (ps : List PeerInterest) (id : ℕ)
    → All (λ p. SeatKept hidden p) ps
    → contains_id hidden id ≡ true
    → held_by ps id ≡ false
held_by-none hidden [] id all h = refl
held_by-none hidden (p ∷ ps) id all h =
    let here : Interest.contains p id ≡ false = all.0.2 id h in
    rw (here, held_by-none hidden ps id all.1 h) refl

module _ (update : PeerInterest → SeatObserver → PeerInterest) where
  length-update_seats :
      (ps : List PeerInterest) (observers : List SeatObserver)
      → length (update_seats update ps observers).0 ≡ length ps
  length-update_seats [] observers = refl
  length-update_seats (p ∷ ps) [] = refl
  length-update_seats (p ∷ ps) (o ∷ os) = ap suc (length-update_seats ps os)

  -- With an observer for every seat, the merged list holds what the seats hold.
  update_seats-merged :
      (ps : List PeerInterest) (observers : List SeatObserver) (id : ℕ)
      → length ps ≡ length observers
      → contains_id (ids (update_seats update ps observers).1) id
        ≡ held_by (update_seats update ps observers).0 id
  unfolding contains_id Interest.contains
  update_seats-merged [] observers id h = refl
  update_seats-merged (p ∷ ps) [] id h = absurd (ground (arith, h))
  update_seats-merged (p ∷ ps) (o ∷ os) id h =
      contains_id-append (update p o).members (update_seats update ps os).1 id
      ∙ rw
          (
            ids-keys (update p o).members,
            contains_id-keys id (update p o).members,
            update_seats-merged ps os id (omega (arith, h)),
          )
          refl

  update_seats-All :
      (hidden : List ℕ) (ps : List PeerInterest) (observers : List SeatObserver)
      → Respects update
      → All (λ p. SeatKept hidden p) ps
      → All (λ p. SeatKept hidden p) (update_seats update ps observers).0
  update_seats-All hidden [] observers r all = tt
  update_seats-All hidden (p ∷ ps) [] r all = all
  update_seats-All hidden (p ∷ ps) (o ∷ os) r all =
      (r hidden p o all.0, update_seats-All hidden ps os r all.1)

  -- After an update of a connection whose union stands in key order, however its seats are updated:
  -- the union stands in key order, there is a seat for every observer, and the union holds exactly
  -- the entities that some seat holds; what is reported as left is what it held and does not hold,
  -- and as entered what it holds and did not.
  pub update_with_lem :
      (c : ConnectionInterest) (observers : List SeatObserver)
      → IsSorted c.members
      → let (after, delta) = update_with update c observers in
        IsSorted after.members
        × (length after.seats ≡ length observers)
        × ((id : ℕ)
            → (contains after id ≡ held_by after.seats id)
              × (contains_id delta.leaves id ≡ (contains c id && not (contains after id)))
              × (contains_id delta.enters id ≡ (contains after id && not (contains c id))))
  unfolding fit_seats commit_union contains
  update_with_lem c observers sorted =
      let fitted = resized c.hidden (length observers) c.seats in
      let (seats, merged) = update_seats update fitted observers in
      let fits = length-resized c.hidden (length observers) c.seats in
      (
        SortedFrom-extend (fresh_of merged) [] tt,
        length-update_seats fitted observers ∙ fits,
        λ id.
            let held = contains-extend merged id in
            let diff =
              push_delta-Exact (keys c.members) (ids (fresh_of merged)) 0 0 id
                (AscendFrom-keys 0 c.members sorted) (fresh_of-ascends merged) in
            let before = contains_id-keys id c.members in
            let same = contains_id-fresh_of merged id in
            (
              held ∙ update_seats-merged fitted observers id fits,
              diff.0 ∙ rw (before, same, held) refl,
              diff.1 ∙ rw (before, same, held) refl,
            ),
      )

  -- Under a connection's vetoes, an update keeps them on the seats and on the union.
  pub update_with-IsKept :
      (c : ConnectionInterest) (observers : List SeatObserver)
      → Respects update
      → IsKept c
      → IsKept (update_with update c observers).0
  unfolding fit_seats commit_union is_hidden
  update_with-IsKept c observers respects (sorted, all, out) =
      let done = update_with_lem c observers sorted in
      let kept =
        update_seats-All c.hidden (resized c.hidden (length observers) c.seats) observers respects
          (resized-All c.hidden (length observers) c.seats all) in
      (
        done.0,
        kept,
        λ id h.
            (done.2 id).0
            ∙ held_by-none c.hidden (update_with update c observers).0.seats id kept h,
      )
