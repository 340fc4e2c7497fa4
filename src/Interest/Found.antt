-- ===== src/Interest/Found.antt =====
-- What an update through the grid makes of one seat's set.
use orbitnet.Base.{
  ℕ, ◌+◌, ◌≡◌, sym, ◌∙◌, true, false, not, ◌&&◌, ◌||◌, Bool-cases, List, [], ◌∷◌, ◌++◌, All,
  All-append, All-map, inl, inr, arith,
}
use orbitnet.Base.OrdMap.{IsSorted}
use orbitnet.Base.Ids.{contains_id}
use orbitnet.Quant.Ss3.{Float}
use orbitnet.Interest.{
  Position, finite_position, AoiConfig, InterestCandidate, PeerInterest, contains, is_hidden, View,
  view_of, exit_radius, scan, apply_cap,
}
use orbitnet.Interest.Lists.{All-contains}
use orbitnet.Interest.Laws.{
  All-apply_cap, contains-commit, leaves-commit, IsSorted-commit, hidden-commit, scan-Relevant,
  Relevant-shown,
}
use orbitnet.Interest.Grid.{
  InterestGrid, query_within, uncullable_for, visible_to, is_open, retained, unmeasured_ids,
  grid_hits, update_grid_into,
}

-- An entry of an entity that is not hidden.
abbrev Shown : View → ℕ × ℕ → Type 0
Shown v e = is_hidden v.peer e.0 ≡ false

module _ (f : Float) (v : View) (also : List InterestCandidate) where
  open-Shown : (id : ℕ) → is_open v also id ≡ true → is_hidden v.peer id ≡ false
  open-Shown id h = ground (arith, h)

  retained-Shown : (hits : List (ℕ × ℕ)) → All (λ e. Shown v e) (retained f v also hits)
  retained-Shown [] = tt
  retained-Shown ((id, dist) ∷ hits) =
      elim (Bool-cases (is_open v also id && (contains v.peer id || f.le dist v.enter))) [
        | inl kept ↦ rw kept (ground (arith, kept), retained-Shown hits)
        | inr dropped ↦ rw dropped (retained-Shown hits)
      ]

  unmeasured-Shown : (ids : List ℕ) → All (λ e. Shown v e) (unmeasured_ids v also ids)
  unmeasured-Shown [] = tt
  unmeasured-Shown (id ∷ ids) = elim (Bool-cases (is_open v also id)) [
    | inl kept ↦ rw kept (open-Shown id kept, unmeasured-Shown ids)
    | inr dropped ↦ rw dropped (unmeasured-Shown ids)
  ]

  hits-Shown :
      (g : InterestGrid) (cfg : AoiConfig) → All (λ e. Shown v e) (grid_hits f g cfg v also).0
  hits-Shown g cfg = elim (Bool-cases (finite_position v.center)) [
    | inl located ↦ rw located (
        All-append (λ e. Shown v e) _ _
          (retained-Shown (query_within f g cfg v.observer v.center (exit_radius f cfg)))
          (unmeasured-Shown (uncullable_for g v.observer)))
    | inr lost ↦ rw lost (unmeasured-Shown (visible_to g v.observer))
  ]

  own-Shown : All (λ e. Shown v e) (scan f v also).0
  own-Shown =
      All-map (λ e. Shown v e) (λ e. Shown v e) (scan f v also).0 (λ e h. h)
        (All-map _ (λ e. Shown v e) (scan f v also).0 (λ e r. Relevant-shown f v also e.0 r)
          (scan-Relevant f v also))

-- An update through a grid, whatever it holds: the members stand in key order, the vetoes are
-- unchanged, no member is hidden, and what the update reports as left is what was a member and is not.
pub update_grid_into_lem :
    (f : Float) (g : InterestGrid) (cfg : AoiConfig) (p : PeerInterest) (center : Position)
    (observer : ℕ) (also : List InterestCandidate)
    → IsSorted p.members
    → let (after, leaves) = update_grid_into f g cfg p center observer also in
      IsSorted after.members
      × (after.hidden ≡ p.hidden)
      × ((id : ℕ) → contains after id ≡ true → is_hidden p id ≡ false)
      × ((id : ℕ) → contains_id leaves id ≡ (contains p id && not (contains after id)))
unfolding update_grid_into
update_grid_into_lem f g cfg p center observer also sorted =
    let v = view_of f cfg p center observer in
    let (hits, near) = grid_hits f g cfg v also in
    let (own, cullable) = scan f v also in
    let kept = apply_cap cfg p.members (near + cullable) (hits ++ own) in
    (
      IsSorted-commit p kept,
      hidden-commit p kept,
      λ id h.
          All-contains (λ k. is_hidden p k ≡ false) kept id
            (All-apply_cap cfg p (near + cullable) (hits ++ own) (λ e. Shown v e)
              (All-append (λ e. Shown v e) hits own (hits-Shown f v also g cfg)
                (own-Shown f v also)))
            (sym (contains-commit p kept id) ∙ h),
      λ id. leaves-commit p kept id sorted,
    )
