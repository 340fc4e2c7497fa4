-- ===== src/Interest/Veto.antt =====
-- Vetoes over a connection's life: what is withheld is on no seat and not in the union.
use orbitnet.Base.{
  ℕ, ◌≡◌, refl, sym, ap, ◌∙◌, Bool, true, false, Bool-cases, List, [], ◌∷◌, map, if◌then◌else◌,
  ◌==◌, inl, inr, is_some, All, arith,
}
use orbitnet.Base.OrdMap.{OrdMap, lookup, remove, IsSorted, lookup-remove, remove-SortedFrom}
use orbitnet.Base.Ids.{
  contains_id, insert_id, remove_id, contains_id-insert_id, contains_id-remove_id,
}
use orbitnet.Quant.Ss3.{Float}
use orbitnet.Interest
use orbitnet.Interest.{PeerInterest, AoiConfig, InterestCandidate, View, view_of, ids, extend}
use orbitnet.Interest.Laws.{Relevant-shown, update_linear_into_lem}
use orbitnet.Interest.Grid
use orbitnet.Interest.Grid.{InterestGrid}
use orbitnet.Interest.Found.{update_grid_into_lem}
use orbitnet.Interest.Connection.{
  SeatObserver, ConnectionInterest, new, fit_seats, commit_union, update_linear_into,
  update_grid_into, contains, is_hidden, remove_member, set_hidden,
}
use orbitnet.Interest.Union.{held_by, held_by-none, SeatKept, IsKept, Respects, update_with-IsKept}

none-removed :
    (id k : ℕ) (m : OrdMap ℕ)
    → IsSorted m
    → is_some (lookup k (remove id m)) ≡ (if id == k then false else is_some (lookup k m))
none-removed id k m s = rw (lookup-remove id k 0 m s) (ground arith)

-- A veto on a seat.
SeatKept-set_hidden :
    (hidden : List ℕ) (p : PeerInterest) (id : ℕ)
    → SeatKept hidden p
    → SeatKept (insert_id id hidden) (Interest.set_hidden p id true)
unfolding Interest.set_hidden Interest.contains
SeatKept-set_hidden hidden p id (sorted, alike, out) = (
  remove-SortedFrom id 0 p.members sorted,
  λ k. contains_id-insert_id id k p.hidden ∙ rw (alike k) (sym (contains_id-insert_id id k hidden)),
  λ k h.
      none-removed id k p.members sorted
      ∙ ground (arith, h, contains_id-insert_id id k hidden, out k),
)

SeatKept-set_shown :
    (hidden : List ℕ) (p : PeerInterest) (id : ℕ)
    → SeatKept hidden p
    → SeatKept (remove_id id hidden) (Interest.set_hidden p id false)
unfolding Interest.set_hidden Interest.contains
SeatKept-set_shown hidden p id (sorted, alike, out) = (
  sorted,
  λ k. contains_id-remove_id id k p.hidden ∙ rw (alike k) (sym (contains_id-remove_id id k hidden)),
  λ k h. ground (arith, h, contains_id-remove_id id k hidden, out k),
)

SeatKept-remove_member :
    (hidden : List ℕ) (p : PeerInterest) (id : ℕ)
    → SeatKept hidden p
    → SeatKept hidden (Interest.remove_member p id)
unfolding Interest.remove_member Interest.contains
SeatKept-remove_member hidden p id (sorted, alike, out) = (
  remove-SortedFrom id 0 p.members sorted,
  alike,
  λ k h. none-removed id k p.members sorted ∙ ground (arith, out k h),
)

-- What a seat's update must leave for the vetoes to stand.
SeatKept-after :
    (hidden : List ℕ) (p after : PeerInterest)
    → SeatKept hidden p
    → IsSorted after.members
    → after.hidden ≡ p.hidden
    → ((id : ℕ) → Interest.contains after id ≡ true → Interest.is_hidden p id ≡ false)
    → SeatKept hidden after
unfolding Interest.is_hidden
SeatKept-after hidden p after (sorted, alike, out) order same shown = (
  order,
  λ id. ap (λ l. contains_id l id) same ∙ alike id,
  λ id h. elim (Bool-cases (Interest.contains after id)) [
    | inl held ↦ let clear = shown id held in absurd (ground (arith, clear, alike id, h))
    | inr absent ↦ absent
  ],
)

-- The flat scan respects the vetoes, and so does the grid.
linear-Respects :
    (f : Float) (cfg : AoiConfig) (cs : List InterestCandidate)
    → Respects (λ p o. (Interest.update_linear_into f cfg p o.center o.membership cs).0)
linear-Respects f cfg cs hidden p o kept =
    let done = update_linear_into_lem f cfg p o.center o.membership cs kept.0 in
    let after = (Interest.update_linear_into f cfg p o.center o.membership cs).0 in
    let v = view_of f cfg p o.center o.membership in
    SeatKept-after hidden p after kept done.0 done.1
      (λ id held. Relevant-shown f v cs id (done.2 id held))

grid-Respects :
    (f : Float) (grid : InterestGrid) (cfg : AoiConfig) (also : List InterestCandidate)
    → Respects (λ p o. (Grid.update_grid_into f grid cfg p o.center o.membership also).0)
grid-Respects f grid cfg also hidden p o kept =
    let done = update_grid_into_lem f grid cfg p o.center o.membership also kept.0 in
    let after = (Grid.update_grid_into f grid cfg p o.center o.membership also).0 in
    SeatKept-after hidden p after kept done.0 done.1 done.2

-- What happens to a connection.
pub data InterestEvent : Type 0 where
  updated : AoiConfig → List SeatObserver → List InterestCandidate → InterestEvent
  updated_grid :
      InterestGrid → AoiConfig → List SeatObserver → List InterestCandidate → InterestEvent
  removed : ℕ → InterestEvent
  declared : ℕ → Bool → InterestEvent

abbrev after_event : Float → InterestEvent → ConnectionInterest → ConnectionInterest
after_event f (updated cfg observers cs) c = (update_linear_into f cfg c observers cs).0
after_event f (updated_grid grid cfg observers also) c =
    (update_grid_into f grid cfg c observers also).0
after_event f (removed id) c = remove_member c id
after_event f (declared id hidden) c = set_hidden c id hidden

abbrev pub after_events : Float → List InterestEvent → ConnectionInterest → ConnectionInterest
after_events f [] c = c
after_events f (e ∷ es) c = after_events f es (after_event f e c)

-- The last declaration about an id, or what was said before.
abbrev pub withheld : ℕ → List InterestEvent → Bool → Bool
withheld id [] said = said
withheld id (updated _ _ _ ∷ es) said = withheld id es said
withheld id (updated_grid _ _ _ _ ∷ es) said = withheld id es said
withheld id (removed _ ∷ es) said = withheld id es said
withheld id (declared k hidden ∷ es) said = withheld id es (if k == id then hidden else said)

All-mapped :
    (P Q : PeerInterest → Type 0) (g : PeerInterest → PeerInterest) (ps : List PeerInterest)
    → ((p : PeerInterest) → P p → Q (g p))
    → All P ps
    → All Q (map g ps)
All-mapped P Q g [] h all = tt
All-mapped P Q g (p ∷ ps) h all = (h p all.0, All-mapped P Q g ps h all.1)

update_linear_into-IsKept :
    (f : Float) (cfg : AoiConfig) (c : ConnectionInterest) (observers : List SeatObserver)
    (cs : List InterestCandidate)
    → IsKept c
    → IsKept (update_linear_into f cfg c observers cs).0
unfolding update_linear_into
update_linear_into-IsKept f cfg c observers cs kept =
    update_with-IsKept (λ p o. (Interest.update_linear_into f cfg p o.center o.membership cs).0) c
      observers (linear-Respects f cfg cs) kept

update_grid_into-IsKept :
    (f : Float) (grid : InterestGrid) (cfg : AoiConfig) (c : ConnectionInterest)
    (observers : List SeatObserver) (also : List InterestCandidate)
    → IsKept c
    → IsKept (update_grid_into f grid cfg c observers also).0
unfolding update_grid_into
update_grid_into-IsKept f grid cfg c observers also kept =
    update_with-IsKept (λ p o. (Grid.update_grid_into f grid cfg p o.center o.membership also).0) c
      observers (grid-Respects f grid cfg also) kept

remove_member-IsKept : (c : ConnectionInterest) (id : ℕ) → IsKept c → IsKept (remove_member c id)
unfolding remove_member contains is_hidden
remove_member-IsKept c id (sorted, all, out) = (
  remove-SortedFrom id 0 c.members sorted,
  All-mapped (λ p. SeatKept c.hidden p) (λ p. SeatKept c.hidden p)
      (λ p. Interest.remove_member p id) c.seats (λ p. SeatKept-remove_member c.hidden p id) all,
  λ k h. none-removed id k c.members sorted ∙ ground (arith, out k h),
)

set_hidden-IsKept :
    (c : ConnectionInterest) (id : ℕ) (hidden : Bool) → IsKept c → IsKept (set_hidden c id hidden)
unfolding set_hidden contains is_hidden
set_hidden-IsKept c id true (sorted, all, out) = (
  remove-SortedFrom id 0 c.members sorted,
  All-mapped (λ p. SeatKept c.hidden p) (λ p. SeatKept (insert_id id c.hidden) p)
      (λ p. Interest.set_hidden p id true) c.seats (λ p. SeatKept-set_hidden c.hidden p id) all,
  λ k h.
      none-removed id k c.members sorted
      ∙ ground (arith, h, contains_id-insert_id id k c.hidden, out k),
)
set_hidden-IsKept c id false (sorted, all, out) = (
  sorted,
  All-mapped (λ p. SeatKept c.hidden p) (λ p. SeatKept (remove_id id c.hidden) p)
      (λ p. Interest.set_hidden p id false) c.seats (λ p. SeatKept-set_shown c.hidden p id) all,
  λ k h. ground (arith, h, contains_id-remove_id id k c.hidden, out k),
)

after_event-IsKept :
    (f : Float) (e : InterestEvent) (c : ConnectionInterest) → IsKept c → IsKept (after_event f e c)
after_event-IsKept f (updated cfg observers cs) c kept =
    update_linear_into-IsKept f cfg c observers cs kept
after_event-IsKept f (updated_grid grid cfg observers also) c kept =
    update_grid_into-IsKept f grid cfg c observers also kept
after_event-IsKept f (removed id) c kept = remove_member-IsKept c id kept
after_event-IsKept f (declared id hidden) c kept = set_hidden-IsKept c id hidden kept

-- What one event does to a veto.
is_hidden-after_event :
    (f : Float) (e : InterestEvent) (c : ConnectionInterest) (id : ℕ)
    → is_hidden (after_event f e c) id ≡ withheld id (e ∷ []) (is_hidden c id)
unfolding update_linear_into update_grid_into fit_seats commit_union remove_member set_hidden
    is_hidden
is_hidden-after_event f (updated cfg observers cs) c id = refl
is_hidden-after_event f (updated_grid grid cfg observers also) c id = refl
is_hidden-after_event f (removed k) c id = refl
is_hidden-after_event f (declared k true) c id = contains_id-insert_id k id c.hidden
is_hidden-after_event f (declared k false) c id = contains_id-remove_id k id c.hidden

withheld-cons :
    (id : ℕ) (e : InterestEvent) (es : List InterestEvent) (said : Bool)
    → withheld id (e ∷ es) said ≡ withheld id es (withheld id (e ∷ []) said)
withheld-cons id (updated _ _ _) es said = refl
withheld-cons id (updated_grid _ _ _ _) es said = refl
withheld-cons id (removed _) es said = refl
withheld-cons id (declared _ _) es said = refl

after_events-IsKept :
    (f : Float) (es : List InterestEvent) (c : ConnectionInterest) (id : ℕ)
    → IsKept c
    → IsKept (after_events f es c)
      × (is_hidden (after_events f es c) id ≡ withheld id es (is_hidden c id))
after_events-IsKept f [] c id kept = (kept, refl)
after_events-IsKept f (e ∷ es) c id kept =
    let (rest, says) =
      after_events-IsKept f es (after_event f e c) id (after_event-IsKept f e c kept) in
    (
      rest,
      says
          ∙ ap (λ b. withheld id es b) (is_hidden-after_event f e c id)
          ∙ sym (withheld-cons id e es (is_hidden c id)),
    )

-- From a new connection, after any updates by either path with any number of seats, any despawns and any
-- declarations: an entity is hidden exactly where the last declaration about it says so, and then it is
-- neither in the union nor a member of any seat.
pub after_events-veto :
    (f : Float) (es : List InterestEvent) (id : ℕ)
    → let c = after_events f es new in
      (is_hidden c id ≡ withheld id es false)
      × (withheld id es false ≡ true → (contains c id ≡ false) × (held_by c.seats id ≡ false))
unfolding new is_hidden contains contains_id
after_events-veto f es id =
    let (kept, says) =
      after_events-IsKept f es new id (tt, tt, λ id h. absurd (ground (arith, h))) in
    (
      says,
      λ h.
          let hidden = says ∙ h in
          (
            kept.2 id hidden,
            held_by-none (after_events f es new).hidden (after_events f es new).seats id kept.1
                hidden,
          ),
    )
