-- ===== src/Interest/Delta.antt =====
-- The merge that reports what a union gained and lost, over the sorted list without duplicates.
use orbitnet.Base.{
  ℕ, suc, ◌≤◌, ◌≡◌, refl, ◌∙◌, ap, Bool, true, not, ◌&&◌, Bool-cases, List, [], ◌∷◌, ◌==◌,
  if◌then◌else◌, inl, inr, ==_cases, ltb_cases, arith,
}
use orbitnet.Base.Ids.{contains_id, AscendFrom, contains_id_below}
use orbitnet.Priority.{is_greater}
use orbitnet.Interest.{ids, insert_by, sort_by}
use orbitnet.Interest.Lists.{ClimbFrom, contains_id-sort_by}
use orbitnet.Interest.Connection.{InterestDelta, push_delta, nearest_cmp, dedup_from, dedup_by_key}

-- What the diff of two sets says of one id.
abbrev pub Exact : List ℕ → List ℕ → InterestDelta → ℕ → Type 0
Exact old fresh d id =
    (contains_id d.leaves id ≡ (contains_id old id && not (contains_id fresh id)))
    × (contains_id d.enters id ≡ (contains_id fresh id && not (contains_id old id)))

and_true : (b : Bool) → b ≡ (b && true)
and_true b = ground arith

pub push_delta-Exact :
    (old fresh : List ℕ) (lo up id : ℕ)
    → AscendFrom lo old
    → AscendFrom up fresh
    → Exact old fresh (push_delta old fresh) id
unfolding push_delta contains_id
push_delta-Exact [] fresh lo up id s t = (refl, and_true (contains_id fresh id))
push_delta-Exact (was ∷ old) [] lo up id s t = (and_true (contains_id (was ∷ old) id), refl)
push_delta-Exact (was ∷ old) (now ∷ fresh) lo up id s t = elim (ltb_cases was now) [
  | inl (less, test) ↦
      let rest = push_delta-Exact old (now ∷ fresh) (suc was) up id s.1 t in
      let absent = contains_id_below id (suc now) fresh t.1 in
      rw (test, push_delta)
        (ground (arith, rest.0, less, absent), ground (arith, rest.1, less, absent))
  | inr (most, no_less) ↦ elim (ltb_cases now was) [
    | inl (more, test) ↦
        let rest = push_delta-Exact (was ∷ old) fresh lo (suc now) id s t.1 in
        let absent = contains_id_below id (suc was) old s.1 in
        rw (no_less, test, push_delta)
          (ground (arith, rest.0, more, absent), ground (arith, rest.1, more, absent))
    | inr (least, no_more) ↦
        let rest = push_delta-Exact old fresh (suc was) (suc now) id s.1 t.1 in
        let absent_old = contains_id_below id (suc was) old s.1 in
        let absent_new = contains_id_below id (suc now) fresh t.1 in
        rw (no_less, no_more, push_delta)
          (
            ground (arith, rest.0, most, least, absent_old, absent_new),
            ground (arith, rest.1, most, least, absent_old, absent_new),
          )
  ]
]

ClimbFrom-insert_nearest :
    (lo : ℕ) (a : ℕ × ℕ) (bs : List (ℕ × ℕ))
    → lo ≤ a.0
    → ClimbFrom lo (ids bs)
    → ClimbFrom lo (ids (insert_by nearest_cmp a bs))
ClimbFrom-insert_nearest lo a [] h s = (h, tt)
ClimbFrom-insert_nearest lo a (b ∷ bs) h s = elim (Bool-cases (is_greater (nearest_cmp a b))) [
  | inl after ↦ rw after (s.0, ClimbFrom-insert_nearest b.0 a bs (ground (arith, after)) s.1)
  | inr before ↦ rw before (h, (ground (arith, before), s.1))
]

ClimbFrom-sort_nearest : (es : List (ℕ × ℕ)) → ClimbFrom 0 (ids (sort_by nearest_cmp es))
unfolding sort_by
ClimbFrom-sort_nearest [] = tt
ClimbFrom-sort_nearest (a ∷ rest) =
    ClimbFrom-insert_nearest 0 a (sort_by nearest_cmp rest) (omega arith)
      (ClimbFrom-sort_nearest rest)

-- An ascending list without its repeated neighbours: ascending strictly, with the same ids.
dedup_from-ascends :
    (lo : ℕ) (a : ℕ × ℕ) (bs : List (ℕ × ℕ))
    → lo ≤ a.0
    → ClimbFrom a.0 (ids bs)
    → AscendFrom lo (ids (dedup_from a bs))
dedup_from-ascends lo a [] h s = (h, tt)
dedup_from-ascends lo a (b ∷ bs) h s = elim (==_cases a.0 b.0) [
  | inl (same, test) ↦ rw (test, AscendFrom) (dedup_from-ascends lo a bs h (rw (← same) at s.1))
  | inr (ne, test) ↦
      rw (test, AscendFrom) (h, dedup_from-ascends (suc a.0) b bs (ground (arith, s.0, ne)) s.1)
]

contains_id-dedup_from :
    (a : ℕ × ℕ) (bs : List (ℕ × ℕ)) (id : ℕ)
    → contains_id (ids (dedup_from a bs)) id ≡ contains_id (ids (a ∷ bs)) id
unfolding contains_id
contains_id-dedup_from a [] id = refl
contains_id-dedup_from a (b ∷ bs) id = elim (==_cases a.0 b.0) [
  | inl (same, test) ↦
      rw (test, contains_id) (contains_id-dedup_from a bs id ∙ ground (arith, same))
  | inr (_, test) ↦
      rw (test, contains_id)
        (ap (λ t. if a.0 == id then true else t) (contains_id-dedup_from b bs id))
]

-- The merged list of a union, as `commit_union` makes it.
abbrev pub fresh_of : List (ℕ × ℕ) → List (ℕ × ℕ)
fresh_of merged = dedup_by_key (sort_by nearest_cmp merged)

dedup_by_key-ascends :
    (es : List (ℕ × ℕ)) → ClimbFrom 0 (ids es) → AscendFrom 0 (ids (dedup_by_key es))
dedup_by_key-ascends [] s = tt
dedup_by_key-ascends (a ∷ rest) s = dedup_from-ascends 0 a rest s.0 s.1

contains_id-dedup_by_key :
    (es : List (ℕ × ℕ)) (id : ℕ) → contains_id (ids (dedup_by_key es)) id ≡ contains_id (ids es) id
contains_id-dedup_by_key [] id = refl
contains_id-dedup_by_key (a ∷ rest) id = contains_id-dedup_from a rest id

pub fresh_of-ascends : (merged : List (ℕ × ℕ)) → AscendFrom 0 (ids (fresh_of merged))
fresh_of-ascends merged =
    dedup_by_key-ascends (sort_by nearest_cmp merged) (ClimbFrom-sort_nearest merged)

pub contains_id-fresh_of :
    (merged : List (ℕ × ℕ)) (id : ℕ)
    → contains_id (ids (fresh_of merged)) id ≡ contains_id (ids merged) id
contains_id-fresh_of merged id =
    contains_id-dedup_by_key (sort_by nearest_cmp merged) id
    ∙ contains_id-sort_by nearest_cmp id merged
