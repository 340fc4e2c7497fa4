-- ===== src/Interest/Connection.antt =====
-- A connection of several seats: ConnectionInterest and the diff of its union, InterestDelta.
use orbitnet.Base.{
  ℕ, zero, suc, Bool, true, false, Option, List, [], ◌∷◌, ◌++◌, map, ◌&&◌, ltb, ◌==◌, length,
  is_some,
}
use orbitnet.Base.OrdMap.{OrdMap, lookup, remove, keys}
use orbitnet.Base.Ids.{contains_id, insert_id, remove_id}
use orbitnet.Quant.Ss3.{Float}
use orbitnet.Priority.{Ordering, cmp_ℕ, then_with}
use orbitnet.Interest
use orbitnet.Interest.Grid

pub record InterestDelta : Type 0 where
  pub leaves : List ℕ
  pub enters : List ℕ

abbrev left : ℕ → InterestDelta → InterestDelta
left id d = record d { leaves = id ∷ d.leaves }

abbrev entered : ℕ → InterestDelta → InterestDelta
entered id d = record d { enters = id ∷ d.enters }

-- The merge of two ascending lists.
unfoldable pub push_delta : List ℕ → List ℕ → InterestDelta
push_delta [] fresh = record { leaves = []; enters = fresh }
push_delta (was ∷ old) [] = record { leaves = was ∷ old; enters = [] }
push_delta (was ∷ old) (now ∷ fresh) = elim (ltb was now) [
  | true ↦ left was (push_delta old (now ∷ fresh))
  | false ↦ elim (ltb now was) [
    | true ↦ entered now (push_delta (was ∷ old) fresh)
    | false ↦ push_delta old fresh
  ]
]

unfoldable is_empty_delta : InterestDelta → Bool
is_empty_delta d = length d.leaves == 0 && length d.enters == 0

pub record SeatObserver : Type 0 where
  pub center : Interest.Position
  pub membership : ℕ

pub record ConnectionInterest : Type 0 where
  pub seats : List Interest.PeerInterest
  pub members : OrdMap ℕ
  pub hidden : List ℕ

unfoldable pub new : ConnectionInterest
new = record { seats = []; members = []; hidden = [] }

-- A seat that appears takes the standing vetoes.
abbrev pub inherit : List ℕ → Interest.PeerInterest → Interest.PeerInterest
inherit [] p = p
inherit (id ∷ ids) p = inherit ids (Interest.set_hidden p id true)

abbrev pub resized : List ℕ → ℕ → List Interest.PeerInterest → List Interest.PeerInterest
resized hidden zero seats = []
resized hidden (suc n) [] = inherit hidden Interest.new ∷ resized hidden n []
resized hidden (suc n) (p ∷ seats) = p ∷ resized hidden n seats

unfoldable pub fit_seats : ConnectionInterest → ℕ → ConnectionInterest
fit_seats c count = record c { seats = resized c.hidden count c.seats }

abbrev pub nearest_cmp : ℕ × ℕ → ℕ × ℕ → Ordering
nearest_cmp a b = then_with (cmp_ℕ a.0 b.0) (Interest.total_cmp a.1 b.1)

-- `dedup_by_key`: of neighbours with one id the first stays.
abbrev pub dedup_from : ℕ × ℕ → List (ℕ × ℕ) → List (ℕ × ℕ)
dedup_from a [] = a ∷ []
dedup_from a (b ∷ bs) = elim (a.0 == b.0) [ true ↦ dedup_from a bs | false ↦ a ∷ dedup_from b bs ]

abbrev pub dedup_by_key : List (ℕ × ℕ) → List (ℕ × ℕ)
dedup_by_key [] = []
dedup_by_key (a ∷ rest) = dedup_from a rest

unfoldable pub commit_union : ConnectionInterest → List (ℕ × ℕ) → ConnectionInterest × InterestDelta
unfolding push_delta Interest.sort_by
commit_union c merged =
    let fresh = dedup_by_key (Interest.sort_by nearest_cmp merged) in
    (
      record c { members = Interest.extend fresh [] },
      push_delta (keys c.members) (Interest.ids fresh),
    )

-- Each seat is updated from its own observer, and its entries join the merged list.
abbrev pub update_seats :
    (Interest.PeerInterest → SeatObserver → Interest.PeerInterest)
    → List Interest.PeerInterest
    → List SeatObserver
    → List Interest.PeerInterest × List (ℕ × ℕ)
update_seats update [] observers = ([], [])
update_seats update (p ∷ ps) [] = (p ∷ ps, [])
update_seats update (p ∷ ps) (o ∷ os) =
    let (rest, merged) = update_seats update ps os in
    let q = update p o in (q ∷ rest, q.members ++ merged)

-- The body that both update paths share.
abbrev pub update_with :
    (Interest.PeerInterest → SeatObserver → Interest.PeerInterest)
    → ConnectionInterest
    → List SeatObserver
    → ConnectionInterest × InterestDelta
update_with update c observers =
    let fitted = fit_seats c (length observers) in
    let (seats, merged) = update_seats update fitted.seats observers in
    commit_union (record fitted { seats = seats }) merged

unfoldable pub update_linear_into :
    Float
    → Interest.AoiConfig
    → ConnectionInterest
    → List SeatObserver
    → List Interest.InterestCandidate
    → ConnectionInterest × InterestDelta
unfolding fit_seats commit_union Interest.update_linear_into
update_linear_into f cfg c observers candidates =
    update_with (λ p o. (Interest.update_linear_into f cfg p o.center o.membership candidates).0) c
      observers

unfoldable pub update_grid_into :
    Float
    → Grid.InterestGrid
    → Interest.AoiConfig
    → ConnectionInterest
    → List SeatObserver
    → List Interest.InterestCandidate
    → ConnectionInterest × InterestDelta
unfolding fit_seats commit_union Grid.update_grid_into
update_grid_into f grid cfg c observers also =
    update_with (λ p o. (Grid.update_grid_into f grid cfg p o.center o.membership also).0) c
      observers

unfoldable seat_count : ConnectionInterest → ℕ
seat_count c = length c.seats

unfoldable pub contains : ConnectionInterest → ℕ → Bool
contains c id = is_some (lookup id c.members)

unfoldable pub dist_sq : ConnectionInterest → ℕ → Option ℕ
dist_sq c id = lookup id c.members

unfoldable pub len : ConnectionInterest → ℕ
len c = length c.members

unfoldable is_empty : ConnectionInterest → Bool
is_empty c = length c.members == 0

unfoldable pub iter : ConnectionInterest → List ℕ
iter c = keys c.members

unfoldable pub remove_member : ConnectionInterest → ℕ → ConnectionInterest
remove_member c id = record c {
  members = remove id c.members;
  seats = map (λ p. Interest.remove_member p id) c.seats;
}

unfoldable pub set_hidden : ConnectionInterest → ℕ → Bool → ConnectionInterest
set_hidden c id true = record {
  seats = map (λ p. Interest.set_hidden p id true) c.seats;
  members = remove id c.members;
  hidden = insert_id id c.hidden;
}
set_hidden c id false = record c {
  seats = map (λ p. Interest.set_hidden p id false) c.seats;
  hidden = remove_id id c.hidden;
}

unfoldable pub is_hidden : ConnectionInterest → ℕ → Bool
is_hidden c id = contains_id c.hidden id

unfoldable pub hidden_len : ConnectionInterest → ℕ
hidden_len c = length c.hidden
