-- ===== src/Interest/Laws.antt =====
-- What an update makes of one seat's set.
use orbitnet.Base.{
  ℕ, suc, ◌+◌, ◌-◌, ◌≤◌, ◌≡◌, ◌≢◌, ◌⊎◌, refl, sym, ap, ◌∙◌, Bool, true, false, not, ◌&&◌, ◌||◌,
  Option, none, some, Option-cases, Bool-cases, List, [], ◌∷◌, map, leb, ◌==◌, if◌then◌else◌,
  length, length-take, length-map, is_some, All, All-map, inl, inr, arith,
}
use orbitnet.Base.OrdMap.{lookup, keys, IsSorted}
use orbitnet.Base.Ids.{contains_id, contains_id-keys, AscendFrom-keys}
use orbitnet.Quant.Ss3.{Float}
use orbitnet.Interest.{
  AoiConfig, Position, membership_matches, InterestCandidate, PeerInterest, contains, is_hidden,
  len, distance_sq, View, view_of, bypasses, classify, push, scan, sort_by, cap_cmp, apply_cap,
  id_cmp, ids, recorded, commit, update_linear_into,
}
use orbitnet.Interest.Lists.{
  All-sort_by, All-take, contains_id-sort_by, length-sort_by, ids-recorded, contains_id-extend,
  SortedFrom-extend, length-extend, All-contains, ClimbFrom-sort_by, contains_id-push_leaves,
}

-- A candidate that is neither hidden nor of another world, and is in its band where it is measured.
abbrev Passes : Float → View → InterestCandidate → Type 0
Passes f v c =
    (is_hidden v.peer c.id ≡ false)
    × (membership_matches v.observer c.membership ≡ true)
    × ((bypasses v c ≡ true)
        ⊎ (f.le (distance_sq f c.pos v.center) (if contains v.peer c.id then v.exit else v.enter)
            ≡ true))

-- One of the candidates is this entity, and passes.
abbrev pub Relevant : Float → View → List InterestCandidate → ℕ → Type 0
Relevant f v [] id = ⊥
Relevant f v (c ∷ cs) id = ((c.id ≡ id) × Passes f v c) ⊎ Relevant f v cs id

-- How many candidates pass without being measured.
abbrev pub unmeasured : View → List InterestCandidate → ℕ
unmeasured v [] = 0
unmeasured v (c ∷ cs) =
    let rest = unmeasured v cs in
    if not (is_hidden v.peer c.id) && (membership_matches v.observer c.membership && bypasses v c)
    then suc rest
    else rest

module _ (f : Float) (v : View) where
  classify-Passes :
      (c : InterestCandidate) (out : ℕ × Bool) → classify f v c ≡ some out → Passes f v c
  unfolding classify
  classify-Passes c out h = ground (arith, h)

  Passes-classify : (c : InterestCandidate) → Passes f v c → is_some (classify f v c) ≡ true
  unfolding classify
  Passes-classify c h = ground (arith, h)

  All-Relevant_cons :
      (c : InterestCandidate) (cs : List InterestCandidate) (es : List (ℕ × ℕ))
      → All (λ e. Relevant f v cs e.0) es
      → All (λ e. Relevant f v (c ∷ cs) e.0) es
  All-Relevant_cons c cs es all =
      All-map (λ e. Relevant f v cs e.0) (λ e. Relevant f v (c ∷ cs) e.0) es (λ e r. inr r) all

  pub scan-Relevant : (cs : List InterestCandidate) → All (λ e. Relevant f v cs e.0) (scan f v cs).0
  unfolding scan
  scan-Relevant [] = tt
  scan-Relevant (c ∷ cs) = elim (Option-cases (classify f v c)) [
    | inl refused ↦ rw refused (All-Relevant_cons c cs (scan f v cs).0 (scan-Relevant cs))
    | inr ((dist, true), kept) ↦ rw kept (
      inl (refl, classify-Passes c (dist, true) kept),
      All-Relevant_cons c cs (scan f v cs).0 (scan-Relevant cs),
    )
    | inr ((dist, false), kept) ↦ rw kept (
      inl (refl, classify-Passes c (dist, false) kept),
      All-Relevant_cons c cs (scan f v cs).0 (scan-Relevant cs),
    )
  ]

  contains_id-push :
      (c : InterestCandidate) (o : Option (ℕ × Bool)) (r : List (ℕ × ℕ) × ℕ) (id : ℕ)
      → contains_id (ids (push c.id o r).0) id ≡ (
          if c.id == id
          then (if is_some o then true else contains_id (ids r.0) id)
          else contains_id (ids r.0) id)
  unfolding contains_id
  contains_id-push c none r id = ground arith
  contains_id-push c (some (dist, true)) r id = refl
  contains_id-push c (some (dist, false)) r id = refl

  Relevant-scan :
      (cs : List InterestCandidate) (id : ℕ)
      → Relevant f v cs id
      → contains_id (ids (scan f v cs).0) id ≡ true
  unfolding scan
  Relevant-scan [] id h = absurd h
  Relevant-scan (c ∷ cs) id (inl (same, h)) =
      contains_id-push c (classify f v c) (scan f v cs) id
      ∙ ground (arith, same, Passes-classify c h)
  Relevant-scan (c ∷ cs) id (inr h) =
      contains_id-push c (classify f v c) (scan f v cs) id ∙ ground (arith, Relevant-scan cs id h)

  length-push :
      (c : InterestCandidate) (cs : List InterestCandidate)
      → length (scan f v cs).0 ≡ (scan f v cs).1 + unmeasured v cs
      → length (scan f v (c ∷ cs)).0 ≡ (scan f v (c ∷ cs)).1 + unmeasured v (c ∷ cs)
  unfolding scan classify
  length-push c cs h = ground (arith, h)

  length-scan :
      (cs : List InterestCandidate) → length (scan f v cs).0 ≡ (scan f v cs).1 + unmeasured v cs
  unfolding scan
  length-scan [] = refl
  length-scan (c ∷ cs) = length-push c cs (length-scan cs)

abbrev capped : AoiConfig → ℕ → Bool
capped cfg cullable = cfg.max_entities == 0 || leb cullable cfg.max_entities

module _ (cfg : AoiConfig) (p : PeerInterest) (cullable : ℕ) (scratch : List (ℕ × ℕ)) where
  pub All-apply_cap :
      (P : ℕ × ℕ → Type 0) → All P scratch → All P (apply_cap cfg p.members cullable scratch)
  unfolding apply_cap
  All-apply_cap P all = elim (Bool-cases (capped cfg cullable)) [
    | inl under ↦ rw under all
    | inr over ↦ rw over (
        All-take P (cap_cmp p.members) (length scratch - cullable + cfg.max_entities)
          (sort_by (cap_cmp p.members) scratch) (All-sort_by P (cap_cmp p.members) scratch all))
  ]

  apply_cap_none : cfg.max_entities ≡ 0 → apply_cap cfg p.members cullable scratch ≡ scratch
  unfolding apply_cap
  apply_cap_none h = ground (arith, h)

  length-apply_cap :
      (rest : ℕ)
      → cfg.max_entities ≢ 0
      → length scratch ≡ cullable + rest
      → length (apply_cap cfg p.members cullable scratch) ≤ rest + cfg.max_entities
  unfolding apply_cap
  length-apply_cap rest some_cap count = elim (Bool-cases (capped cfg cullable)) [
    | inl under ↦ rw under (ground (arith, some_cap, count, under))
    | inr over ↦
        let kept =
          length-take (length scratch - cullable + cfg.max_entities)
            (sort_by (cap_cmp p.members) scratch)
            (rw (length-sort_by (cap_cmp p.members) scratch) (ground (arith, over, count))) in
        rw (over, kept) (omega (arith, count))
  ]

module _ (p : PeerInterest) (scratch : List (ℕ × ℕ)) where
  pub contains-commit : (id : ℕ) → contains (commit p scratch).0 id ≡ contains_id (ids scratch) id
  unfolding commit contains lookup
  contains-commit id =
      contains_id-extend (map (λ e. recorded e) (sort_by id_cmp scratch)) [] id
      ∙ rw (ids-recorded (sort_by id_cmp scratch), contains_id-sort_by id_cmp id scratch)
          (shape (contains_id (ids scratch) id))
    where
      shape : (b : Bool) → (if b then true else false) ≡ b
      shape b = ground arith

  pub leaves-commit :
      (id : ℕ)
      → IsSorted p.members
      → contains_id (commit p scratch).1 id
        ≡ (contains p id && not (contains (commit p scratch).0 id))
  unfolding commit contains lookup
  leaves-commit id sorted =
      contains_id-push_leaves (keys p.members) (ids (sort_by id_cmp scratch)) 0 0 id
        (AscendFrom-keys 0 p.members sorted) (ClimbFrom-sort_by scratch)
      ∙ rw
          (
            contains_id-keys id p.members,
            contains_id-sort_by id_cmp id scratch,
            sym (contains-commit id),
          )
          refl

  length-commit : len (commit p scratch).0 ≤ length scratch
  unfolding commit len
  length-commit = omega (
    arith,
    length-extend (map (λ e. recorded e) (sort_by id_cmp scratch)) [],
    length-map (λ e. recorded e) (sort_by id_cmp scratch),
    length-sort_by id_cmp scratch,
  )

  pub IsSorted-commit : IsSorted (commit p scratch).0.members
  unfolding commit
  IsSorted-commit = SortedFrom-extend (map (λ e. recorded e) (sort_by id_cmp scratch)) [] tt

  pub hidden-commit : (commit p scratch).0.hidden ≡ p.hidden
  unfolding commit
  hidden-commit = refl

-- An update of a seat whose members stand in key order, from any candidates. The members still stand
-- in key order and the vetoes are unchanged. Every member is one of the candidates, is not
-- hidden, is of a world the observer sees, and bypasses the distance test or is within its band, that of the
-- exit radius where it was a member and of the enter radius where it was not; without a cap every such
-- candidate is a member. What the update reports as left is exactly what was a member and is not. With
-- a cap, the members are at most that many more than the candidates that pass unmeasured.
pub update_linear_into_lem :
    (f : Float) (cfg : AoiConfig) (p : PeerInterest) (center : Position) (observer : ℕ)
    (cs : List InterestCandidate)
    → IsSorted p.members
    → let v = view_of f cfg p center observer in
      let (after, leaves) = update_linear_into f cfg p center observer cs in
      IsSorted after.members
      × (after.hidden ≡ p.hidden)
      × ((id : ℕ) → contains after id ≡ true → Relevant f v cs id)
      × (cfg.max_entities ≡ 0 → (id : ℕ) → Relevant f v cs id → contains after id ≡ true)
      × ((id : ℕ) → contains_id leaves id ≡ (contains p id && not (contains after id)))
      × (cfg.max_entities ≢ 0 → len after ≤ unmeasured v cs + cfg.max_entities)
unfolding update_linear_into
update_linear_into_lem f cfg p center observer cs sorted =
    let v = view_of f cfg p center observer in
    let (scratch, cullable) = scan f v cs in
    let kept = apply_cap cfg p.members cullable scratch in
    (
      IsSorted-commit p kept,
      hidden-commit p kept,
      λ id h.
          All-contains (Relevant f v cs) kept id
            (All-apply_cap cfg p cullable scratch (λ e. Relevant f v cs e.0) (scan-Relevant f v cs))
            (sym (contains-commit p kept id) ∙ h),
      λ none_cap id h.
          contains-commit p kept id
          ∙ ap (λ l. contains_id (ids l) id) (apply_cap_none cfg p cullable scratch none_cap)
          ∙ Relevant-scan f v cs id h,
      λ id. leaves-commit p kept id sorted,
      λ some_cap. omega (
        arith,
        length-commit p kept,
        length-apply_cap cfg p cullable scratch (unmeasured v cs) some_cap (length-scan f v cs),
      ),
    )

pub Relevant-shown :
    (f : Float) (v : View) (cs : List InterestCandidate) (id : ℕ)
    → Relevant f v cs id
    → is_hidden v.peer id ≡ false
Relevant-shown f v [] id h = absurd h
Relevant-shown f v (c ∷ cs) id (inl (same, passes)) = ap (is_hidden v.peer) (sym same) ∙ passes.0
Relevant-shown f v (c ∷ cs) id (inr h) = Relevant-shown f v cs id h
