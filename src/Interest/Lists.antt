-- ===== src/Interest/Lists.antt =====
-- Scratch lists: sorting keeps their entries, a map made of one holds its ids, and the leaves of the merge.
use orbitnet.Base.{
  ℕ, zero, suc, ◌+◌, ◌≤◌, ◌<◌, ◌≡◌, refl, ap, ◌∙◌, subst, true, false, not, ◌&&◌, Bool-cases, List,
  [], ◌∷◌, map, ◌==◌, if◌then◌else◌, length, take, is_some, All, inl, inr, ==_cases, ltb_cases,
  arith,
}
use orbitnet.Base.OrdMap.{OrdMap, lookup, insert, lookup-insert, insert-SortedFrom, SortedFrom}
use orbitnet.Base.Ids.{contains_id, AscendFrom, contains_id_below}
use orbitnet.Priority.{Ordering, is_greater}
use orbitnet.Interest.{
  ids, insert_by, sort_by, extend, recorded, id_cmp, skip_below, is_next, push_leaves,
}

module _ (P : ℕ × ℕ → Type 0) (cmp : ℕ × ℕ → ℕ × ℕ → Ordering) where
  All-insert_by : (a : ℕ × ℕ) (bs : List (ℕ × ℕ)) → P a → All P bs → All P (insert_by cmp a bs)
  All-insert_by a [] h all = (h, tt)
  All-insert_by a (b ∷ bs) h all = elim (Bool-cases (is_greater (cmp a b))) [
    | inl after ↦ rw after (all.0, All-insert_by a bs h all.1)
    | inr before ↦ rw before (h, all)
  ]

  pub All-sort_by : (es : List (ℕ × ℕ)) → All P es → All P (sort_by cmp es)
  unfolding sort_by
  All-sort_by [] all = tt
  All-sort_by (a ∷ rest) all = All-insert_by a (sort_by cmp rest) all.0 (All-sort_by rest all.1)

  pub All-take : (n : ℕ) (es : List (ℕ × ℕ)) → All P es → All P (take n es)
  All-take zero es all = tt
  All-take (suc n) [] all = tt
  All-take (suc n) (e ∷ es) all = (all.0, All-take n es all.1)

module _ (cmp : ℕ × ℕ → ℕ × ℕ → Ordering) (id : ℕ) where
  contains_id-insert_by :
      (a : ℕ × ℕ) (bs : List (ℕ × ℕ))
      → contains_id (ids (insert_by cmp a bs)) id
        ≡ (if a.0 == id then true else contains_id (ids bs) id)
  unfolding contains_id
  contains_id-insert_by a [] = refl
  contains_id-insert_by a (b ∷ bs) = ground (arith, contains_id-insert_by a bs)

  pub contains_id-sort_by :
      (es : List (ℕ × ℕ)) → contains_id (ids (sort_by cmp es)) id ≡ contains_id (ids es) id
  unfolding sort_by contains_id
  contains_id-sort_by [] = refl
  contains_id-sort_by (a ∷ rest) =
      contains_id-insert_by a (sort_by cmp rest)
      ∙ ap (λ t. if a.0 == id then true else t) (contains_id-sort_by rest)

length-insert_by :
    (cmp : ℕ × ℕ → ℕ × ℕ → Ordering) (a : ℕ × ℕ) (bs : List (ℕ × ℕ))
    → length (insert_by cmp a bs) ≡ suc (length bs)
length-insert_by cmp a [] = refl
length-insert_by cmp a (b ∷ bs) = ground (arith, length-insert_by cmp a bs)

pub length-sort_by :
    (cmp : ℕ × ℕ → ℕ × ℕ → Ordering) (es : List (ℕ × ℕ)) → length (sort_by cmp es) ≡ length es
unfolding sort_by
length-sort_by cmp [] = refl
length-sort_by cmp (a ∷ rest) =
    length-insert_by cmp a (sort_by cmp rest) ∙ ap suc (length-sort_by cmp rest)

pub ids-recorded : (es : List (ℕ × ℕ)) → ids (map (λ e. recorded e) es) ≡ ids es
ids-recorded [] = refl
ids-recorded (e ∷ es) = ap (λ l. e.0 ∷ l) (ids-recorded es)

pub contains_id-extend :
    (es : List (ℕ × ℕ)) (m : OrdMap ℕ) (id : ℕ)
    → is_some (lookup id (extend es m))
      ≡ (if contains_id (ids es) id then true else is_some (lookup id m))
unfolding contains_id
contains_id-extend [] m id = refl
contains_id-extend (e ∷ es) m id =
    contains_id-extend es (insert e.0 e.1 m) id ∙ rw (lookup-insert e.0 id e.1 m) (ground arith)

pub SortedFrom-extend :
    (es : List (ℕ × ℕ)) (m : OrdMap ℕ) → SortedFrom 0 m → SortedFrom 0 (extend es m)
SortedFrom-extend [] m s = s
SortedFrom-extend (e ∷ es) m s =
    SortedFrom-extend es (insert e.0 e.1 m) (insert-SortedFrom e.0 0 e.1 m (omega arith) s)

length-insert_le : (k v : ℕ) (m : OrdMap ℕ) → length (insert k v m) ≤ suc (length m)
unfolding insert
length-insert_le k v [] = omega arith
length-insert_le k v ((j, w) ∷ m) = ground (arith, length-insert_le k v m)

pub length-extend : (es : List (ℕ × ℕ)) (m : OrdMap ℕ) → length (extend es m) ≤ length es + length m
length-extend [] m = omega arith
length-extend (e ∷ es) m =
    omega (arith, length-extend es (insert e.0 e.1 m), length-insert_le e.0 e.1 m)

pub All-contains :
    (P : ℕ → Type 0) (es : List (ℕ × ℕ)) (id : ℕ)
    → All (λ e. P e.0) es
    → contains_id (ids es) id ≡ true
    → P id
unfolding contains_id
All-contains P [] id all h = absurd (ground (arith, h))
All-contains P (e ∷ es) id all h = elim (==_cases e.0 id) [
  | inl (same, _) ↦ subst P same all.0
  | inr (_, other) ↦ All-contains P es id all.1 (rw other at h)
]

-- Ascending, from `lo` on.
abbrev pub ClimbFrom : ℕ → List ℕ → Type 0
ClimbFrom lo [] = Unit {0}
ClimbFrom lo (x ∷ xs) = (lo ≤ x) × ClimbFrom x xs

ClimbFrom-mono : (lo hi : ℕ) (xs : List ℕ) → lo ≤ hi → ClimbFrom hi xs → ClimbFrom lo xs
ClimbFrom-mono lo hi [] h s = tt
ClimbFrom-mono lo hi (x ∷ xs) h s = (omega (arith, h, s.0), s.1)

ClimbFrom-insert_by :
    (lo : ℕ) (a : ℕ × ℕ) (bs : List (ℕ × ℕ))
    → lo ≤ a.0
    → ClimbFrom lo (ids bs)
    → ClimbFrom lo (ids (insert_by id_cmp a bs))
ClimbFrom-insert_by lo a [] h s = (h, tt)
ClimbFrom-insert_by lo a (b ∷ bs) h s = elim (Bool-cases (is_greater (id_cmp a b))) [
  | inl after ↦ rw after (s.0, ClimbFrom-insert_by b.0 a bs (ground (arith, after)) s.1)
  | inr before ↦ rw before (h, (ground (arith, before), s.1))
]

pub ClimbFrom-sort_by : (es : List (ℕ × ℕ)) → ClimbFrom 0 (ids (sort_by id_cmp es))
unfolding sort_by
ClimbFrom-sort_by [] = tt
ClimbFrom-sort_by (a ∷ rest) =
    ClimbFrom-insert_by 0 a (sort_by id_cmp rest) (omega arith) (ClimbFrom-sort_by rest)

ClimbFrom-skip_below : (id lo : ℕ) (xs : List ℕ) → ClimbFrom lo xs → ClimbFrom id (skip_below id xs)
unfolding skip_below
ClimbFrom-skip_below id lo [] s = tt
ClimbFrom-skip_below id lo (x ∷ xs) s = elim (ltb_cases x id) [
  | inl (_, below) ↦ rw below (ClimbFrom-skip_below id x xs s.1)
  | inr (h, above) ↦ rw above (h, s.1)
]

contains_id-skip_below :
    (id k : ℕ) (xs : List ℕ) → id ≤ k → contains_id (skip_below id xs) k ≡ contains_id xs k
unfolding skip_below contains_id
contains_id-skip_below id k [] h = refl
contains_id-skip_below id k (x ∷ xs) h = ground (arith, contains_id-skip_below id k xs h)

not_climbed : (k lo : ℕ) (xs : List ℕ) → ClimbFrom lo xs → k < lo → contains_id xs k ≡ false
unfolding contains_id
not_climbed k lo [] s h = refl
not_climbed k lo (x ∷ xs) s h = ground (arith, not_climbed k x xs s.1)

is_next-contains : (id : ℕ) (xs : List ℕ) → ClimbFrom id xs → is_next id xs ≡ contains_id xs id
unfolding contains_id
is_next-contains id [] s = refl
is_next-contains id (x ∷ xs) s = ground (arith, not_climbed id x xs s.1)

-- What the walk over the old ids reports: those that are not among the fresh ones.
pub contains_id-push_leaves :
    (old fresh : List ℕ) (lo up k : ℕ)
    → AscendFrom lo old
    → ClimbFrom up fresh
    → contains_id (push_leaves old fresh) k ≡ (contains_id old k && not (contains_id fresh k))
unfolding push_leaves contains_id
contains_id-push_leaves [] fresh lo up k s t = refl
contains_id-push_leaves (id ∷ old) fresh lo up k s t =
    let rest =
      contains_id-push_leaves old (skip_below id fresh) (suc id) id k s.1
        (ClimbFrom-skip_below id up fresh t) in
    let here = is_next-contains id (skip_below id fresh) (ClimbFrom-skip_below id up fresh t) in
    let seen = contains_id-skip_below id k fresh in
    let before = contains_id_below k (suc id) old s.1 in ground (arith, rest, here, seen, before)
